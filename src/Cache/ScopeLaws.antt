-- ===== src/Cache/ScopeLaws.antt =====
-- The stack of local scopes of src/interpreter/cache_manager.cpp: shadowing, restoring and the
-- invariant that a scope is always open.
use vision_pipe.Base.{
  suc, ◌≤◌, true, false, List, [], ◌∷◌, Option, none, some, ◌≡◌, ◌≢◌, refl, ap, ◌∙◌, arith,
  if◌then◌else◌, Bytes, eq_bytes, length, All, if_cases, ◌↔◌,
}
use vision_pipe.Base.Dict.{lookup, insert, has_key, lookup-insert}
use vision_pipe.Mats.{Mats}
use vision_pipe.Cache.Entry.{CacheEntry, Entries, CacheManager, touch, fresh_entry, new_cache}
use vision_pipe.Cache.Scopes.{
  push_scope, pop_scope, pop_scopes, set_scopes, set_local, find_local, touch_local, has_local,
  clear_back, clear_local_scope, reset_local_scopes, get_local,
}

-- The calls that change the local scopes.
pub data LocalCall (M : Type 0) : Type 0 where
  push_call : LocalCall M
  pop_call : LocalCall M
  set_call : Bytes → M → Bytes → LocalCall M
  get_call : Mats M → Bytes → LocalCall M
  clear_call : LocalCall M
  reset_call : LocalCall M

module _ {M : Type 0} where
  find_local-set :
      (id j : Bytes) (e : CacheEntry M) (scopes : List (Entries M))
      → find_local j (set_scopes id e scopes)
        ≡ (if eq_bytes id j then some e else find_local j scopes)
  unfolding find_local set_scopes
  find_local-set id j e [] =
      if_cases (λ x. (elim x [ none ↦ none | some e' ↦ some e' ]) ≡ x) (eq_bytes id j) (λ h. refl)
        (λ h. refl)
  find_local-set id j e (scope ∷ scopes) =
      rw (find_local, lookup-insert id j e scope)
        (elim (eq_bytes id j)
          as (λ q.
            ◌≡◌ {A = Option (CacheEntry M)}
              (elim (if q then some e else lookup j scope) [
                | none ↦ find_local j scopes
                | some e' ↦ some e'
              ])
              (if q
                then some e
                else (elim (lookup j scope) [ none ↦ find_local j scopes | some e' ↦ some e' ]))) [
                  | true ↦ refl
                  | false ↦ refl
                ])

  -- A frame stored in the innermost scope is what the search finds under its name, whatever the outer
  -- scopes hold under it, and every other name keeps the frame that it had.
  pub get_local-set_local :
      (o : Mats M) (id j source : Bytes) (mat : M) (c : CacheManager M)
      → (get_local o j (set_local id mat source c)).0
        ≡ (if eq_bytes id j then mat else (get_local o j c).0)
  unfolding get_local set_local fresh_entry
  get_local-set_local o id j source mat c =
      rw (get_local, find_local-set id j (fresh_entry mat source false) c.local_scopes)
        (elim (eq_bytes id j)
          as (λ q.
            ◌≡◌ {A = M}
              (elim (if q
                then some (fresh_entry mat source false)
                else find_local j c.local_scopes) [ none ↦ o.no_mat | some e' ↦ e'.mat ])
              (if q
                then mat
                else (elim (find_local j c.local_scopes) [ none ↦ o.no_mat | some e' ↦ e'.mat ]))) [
                  | true ↦ refl
                  | false ↦ refl
                ])

  -- `hasLocal` answers true exactly if the search finds an entry.
  pub has_local-find_local :
      (id : Bytes) (scopes : List (Entries M))
      → (has_local id scopes ≡ true) ↔ (find_local id scopes ≢ none)
  unfolding has_local find_local has_key
  has_local-find_local id [] = ground arith
  has_local-find_local id (scope ∷ scopes) = ground (arith, has_local-find_local id scopes)

  unfoldable pub step : LocalCall M → CacheManager M → CacheManager M
  step push_call c = (push_scope c).1
  step pop_call c = pop_scope c
  step (set_call id mat source) c = set_local id mat source c
  step (get_call o id) c = (get_local o id c).1
  step clear_call c = clear_local_scope c
  step reset_call c = reset_local_scopes c

  unfoldable pub run : List (LocalCall M) → CacheManager M → CacheManager M
  run [] c = c
  run (call ∷ calls) c = run calls (step call c)

  unfoldable pub IsScoped : CacheManager M → Type 0
  IsScoped c = 1 ≤ length c.local_scopes

  touch_local-length :
      (id : Bytes) (scopes : List (Entries M)) → length (touch_local id scopes) ≡ length scopes
  unfolding touch_local
  touch_local-length id [] = refl
  touch_local-length id (scope ∷ scopes) =
      elim (lookup id scope)
        as (λ l.
          length (elim l [
            | some e ↦ insert id (touch e) scope ∷ scopes
            | none ↦ scope ∷ touch_local id scopes
          ])
          ≡ length (scope ∷ scopes)) [
            | some e ↦ refl
            | none ↦ ap suc (touch_local-length id scopes)
          ]

  pop_scopes-length :
      (scopes : List (Entries M)) → 1 ≤ length scopes → 1 ≤ length (pop_scopes scopes)
  unfolding pop_scopes
  pop_scopes-length [] h = h
  pop_scopes-length (scope ∷ []) h = omega arith
  pop_scopes-length (scope ∷ outer ∷ scopes) h = omega arith

  pop_scopes-push :
      (scope : Entries M) (scopes : List (Entries M))
      → 1 ≤ length scopes
      → pop_scopes (scope ∷ scopes) ≡ scopes
  unfolding pop_scopes
  pop_scopes-push scope [] h = absurd (omega (arith, h))
  pop_scopes-push scope (outer ∷ scopes) h = refl

  set_scopes-length :
      (id : Bytes) (e : CacheEntry M) (scopes : List (Entries M))
      → 1 ≤ length (set_scopes id e scopes)
  unfolding set_scopes
  set_scopes-length id e [] = omega arith
  set_scopes-length id e (scope ∷ scopes) = omega arith

  clear_back-length : (scopes : List (Entries M)) → length (clear_back scopes) ≡ length scopes
  unfolding clear_back
  clear_back-length [] = refl
  clear_back-length (scope ∷ scopes) = refl

  step-IsScoped : (call : LocalCall M) (c : CacheManager M) → IsScoped c → IsScoped (step call c)
  unfolding step IsScoped push_scope pop_scope set_local get_local clear_local_scope
      reset_local_scopes
  step-IsScoped push_call c h = omega (arith, h)
  step-IsScoped pop_call c h = pop_scopes-length c.local_scopes h
  step-IsScoped (set_call id mat source) c h =
      set_scopes-length id (fresh_entry mat source false) c.local_scopes
  step-IsScoped (get_call o id) c h = omega (arith, h, touch_local-length id c.local_scopes)
  step-IsScoped clear_call c h = omega (arith, h, clear_back-length c.local_scopes)
  step-IsScoped reset_call c h = omega arith

  run-IsScoped :
      (calls : List (LocalCall M)) (c : CacheManager M) → IsScoped c → IsScoped (run calls c)
  unfolding run
  run-IsScoped [] c h = h
  run-IsScoped (call ∷ calls) c h = run-IsScoped calls (step call c) (step-IsScoped call c h)

  -- From the state that either constructor builds, after any calls of the local operations, at least
  -- one scope is open, so that every `_localScopes.back()` has an element.
  pub run-new_IsScoped :
      (calls : List (LocalCall M)) (shared : Entries M) → IsScoped (run calls (new_cache shared))
  unfolding new_cache IsScoped
  run-new_IsScoped calls shared = run-IsScoped calls (new_cache shared) (omega arith)

  -- The calls that only reach into the innermost scope.
  unfoldable pub IsInner : LocalCall M → Type 0
  IsInner (set_call id mat source) = Unit
  IsInner clear_call = Unit
  IsInner call = ⊥

  run-inner :
      (calls : List (LocalCall M)) (scope : Entries M) (c : CacheManager M)
      → All IsInner calls
      → (scope' : Entries M) × (run calls (record c { local_scopes = scope ∷ c.local_scopes })
          ≡ record c { local_scopes = scope' ∷ c.local_scopes })
  unfolding run step IsInner set_local set_scopes clear_local_scope clear_back
  run-inner [] scope c h = (scope, refl)
  run-inner (set_call id mat source ∷ calls) scope c h =
      run-inner calls (insert id (fresh_entry mat source false) scope) c h.1
  run-inner (clear_call ∷ calls) scope c h = run-inner calls [] c h.1
  run-inner (push_call ∷ calls) scope c h = absurd h.0
  run-inner (pop_call ∷ calls) scope c h = absurd h.0
  run-inner (get_call o id ∷ calls) scope c h = absurd h.0
  run-inner (reset_call ∷ calls) scope c h = absurd h.0

  -- With a scope open, what a body stores and clears between `pushScope` and `popScope` is gone
  -- afterwards: the manager is as before, every shadowed frame and every count included.
  pub pop-run_push :
      (calls : List (LocalCall M)) (c : CacheManager M)
      → All IsInner calls
      → IsScoped c
      → pop_scope (run calls (push_scope c).1) ≡ c
  unfolding push_scope pop_scope IsScoped
  pop-run_push calls c i h =
      let (scope, e) = run-inner calls [] c i in
      ap pop_scope e
      ∙ ap (λ x. record c { local_scopes = x }) (pop_scopes-push scope c.local_scopes h)
