-- ===== src/Cache/Scopes.antt =====
-- The local cache operations of src/interpreter/cache_manager.cpp.
use vision_pipe.Base.{
  ℕ, ◌-◌, Bool, true, false, List, [], ◌∷◌, Option, none, some, if◌then◌else◌, Bytes, length,
}
use vision_pipe.Base.Dict.{lookup, insert, has_key}
use vision_pipe.Mats.{Mats}
use vision_pipe.Cache.Entry.{CacheEntry, Entries, CacheManager, touch, fresh_entry}

module _ {M : Type 0} where
  unfoldable pub push_scope : CacheManager M → ℕ × CacheManager M
  push_scope c =
      let scopes = [] ∷ c.local_scopes in (length scopes - 1, record c { local_scopes = scopes })

  unfoldable pub pop_scopes : List (Entries M) → List (Entries M)
  pop_scopes [] = []
  pop_scopes (scope ∷ []) = [] ∷ []
  pop_scopes (scope ∷ outer ∷ scopes) = outer ∷ scopes

  unfoldable pub pop_scope : CacheManager M → CacheManager M
  unfolding pop_scopes
  pop_scope c = record c { local_scopes = pop_scopes c.local_scopes }

  unfoldable pub set_scopes : Bytes → CacheEntry M → List (Entries M) → List (Entries M)
  unfolding insert
  set_scopes id e [] = insert id e [] ∷ []
  set_scopes id e (scope ∷ scopes) = insert id e scope ∷ scopes

  unfoldable pub set_local : Bytes → M → Bytes → CacheManager M → CacheManager M
  unfolding set_scopes fresh_entry
  set_local id mat source c = record c {
    local_scopes = set_scopes id (fresh_entry mat source false) c.local_scopes;
  }

  -- The search from the innermost scope outward.
  unfoldable pub find_local : Bytes → List (Entries M) → Option (CacheEntry M)
  unfolding lookup
  find_local id [] = none
  find_local id (scope ∷ scopes) =
      let rest = find_local id scopes in elim (lookup id scope) [ some e ↦ some e | none ↦ rest ]

  -- The same search, which counts the access.
  unfoldable pub touch_local : Bytes → List (Entries M) → List (Entries M)
  unfolding lookup insert touch
  touch_local id [] = []
  touch_local id (scope ∷ scopes) =
      let rest = touch_local id scopes in
      elim (lookup id scope) [ some e ↦ insert id (touch e) scope ∷ scopes | none ↦ scope ∷ rest ]

  unfoldable pub has_local : Bytes → List (Entries M) → Bool
  unfolding has_key
  has_local id [] = false
  has_local id (scope ∷ scopes) =
      let rest = has_local id scopes in if has_key id scope then true else rest

  unfoldable pub clear_back : List (Entries M) → List (Entries M)
  clear_back [] = []
  clear_back (scope ∷ scopes) = [] ∷ scopes

  unfoldable pub clear_local_scope : CacheManager M → CacheManager M
  unfolding clear_back
  clear_local_scope c = record c { local_scopes = clear_back c.local_scopes }

  unfoldable pub reset_local_scopes : CacheManager M → CacheManager M
  reset_local_scopes c = record c { local_scopes = [] ∷ [] }

  unfoldable pub get_local : Mats M → Bytes → CacheManager M → M × CacheManager M
  unfolding find_local touch_local
  get_local o id c = (
    elim (find_local id c.local_scopes) [ some e ↦ e.mat | none ↦ o.no_mat ],
    record c { local_scopes = touch_local id c.local_scopes },
  )
