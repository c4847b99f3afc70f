-- ===== src/Cache/Unified.antt =====
-- `set` and `get` of src/interpreter/cache_manager.cpp, which reach the local scopes and the global map.
use vision_pipe.Base.{ℕ, Bool, true, false, none, ◌≡◌, refl, ap, ◌∙◌, if◌then◌else◌, Bytes}
use vision_pipe.Base.Dict.{lookup-insert_eq, eq_bytes_refl}
use vision_pipe.Mats.{Mats, IsLawful}
use vision_pipe.Arena.Frames.{ShmArena}
use vision_pipe.Cache.Entry.{CacheEntry, CacheManager, fresh_entry}
use vision_pipe.Cache.Scopes.{find_local, get_local, set_local}
use vision_pipe.Cache.Global.{Got, get_global, set_global, put_global}
use vision_pipe.Cache.Manager.{set, get}
use vision_pipe.Cache.ScopeLaws.{get_local-set_local}
use vision_pipe.Cache.Coherence.{from_map-mat, uses_arena, get_global-map}

module _ {M : Type 0} (o : Mats M) where
  get_here :
      (id : Bytes) (now : ℕ) (c : CacheManager M) (a : ShmArena)
      → o.is_empty (get_local o id c).0 ≡ false
      → (get o id now c a).mat ≡ (get_local o id c).0
  unfolding get
  get_here id now c a h = rw (get, h) refl

  get_through :
      (id : Bytes) (now : ℕ) (c : CacheManager M) (a : ShmArena)
      → o.is_empty (get_local o id c).0 ≡ true
      → (get o id now c a).mat ≡ (get_global o id now (get_local o id c).1 a).mat
  unfolding get
  get_through id now c a h = rw (get, h) refl

  get_local-missing :
      (id : Bytes) (c : CacheManager M)
      → find_local id c.local_scopes ≡ none
      → (get_local o id c).0 ≡ o.no_mat
  unfolding get_local
  get_local-missing id c h = rw (get_local, h) refl

  -- What `get` returns after a local `set` of a Mat that is not empty is this Mat.
  get-set_here :
      (id : Bytes) (mat : M) (source : Bytes) (now : ℕ) (c : CacheManager M) (a : ShmArena)
      → o.is_empty mat ≡ false
      → (get o id now (set_local id mat source c) a).mat ≡ mat
  get-set_here id mat source now c a e =
      let own : (get_local o id (set_local id mat source c)).0 ≡ mat =
        get_local-set_local o id id source mat c
        ∙ ap (λ q. if q then mat else (get_local o id c).0) (eq_bytes_refl id) in
      get_here id now (set_local id mat source c) a (ap (λ x. o.is_empty x) own ∙ e) ∙ own

  uses_arena-none :
      (id : Bytes) (c : CacheManager M) (a : ShmArena)
      → c.has_arena ≡ false
      → uses_arena o id c a ≡ false
  unfolding uses_arena
  uses_arena-none id c a h = rw h refl

  get_global-put_global :
      (id : Bytes) (entry : CacheEntry M) (now : ℕ) (c : CacheManager M) (a : ShmArena)
      → find_local id c.local_scopes ≡ none
      → c.has_arena ≡ false
      → (get_global o id now (get_local o id (put_global id entry c)).1 a).mat ≡ entry.mat
  unfolding get_local put_global
  get_global-put_global id entry now c a f h =
      let d = (get_local o id (put_global id entry c)).1 in
      ap (λ (g : Got M). g.mat) (get_global-map o id now d a (uses_arena-none id d a h))
      ∙ from_map-mat o id entry d a
          (lookup-insert_eq id id entry c.shared_global (eq_bytes_refl id))

  -- On every lawful Mat type, without an arena: `get` returns the Mat that `set` has stored under the
  -- name, if that is not empty; stored globally, if no local scope has the name.
  pub get-set_mat :
      (id : Bytes) (mat : M) (is_global : Bool) (source : Bytes) (now : ℕ) (c : CacheManager M)
      (a : ShmArena)
      → IsLawful o
      → o.is_empty mat ≡ false
      → c.has_arena ≡ false
      → (is_global ≡ true → find_local id c.local_scopes ≡ none)
      → (let r = set o id mat is_global source now c a in get o id now r.0 r.1).mat ≡ mat
  unfolding set set_global
  get-set_mat id mat false source now c a l e h f = get-set_here id mat source now c a e
  get-set_mat id mat true source now c a l e h f =
      let entry = fresh_entry mat source true in
      let r = set_global o id mat source now c a in
      get_through id now r.0 r.1
        (ap (λ x. o.is_empty x) (get_local-missing id (put_global id entry c) (f refl)) ∙ l.empties)
      ∙ get_global-put_global id entry now c r.1 (f refl) h
