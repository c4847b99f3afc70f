-- ===== src/Cache/Sharing.antt =====
-- The shared map of src/interpreter/cache_manager.cpp stays coherent with the arena, whoever reads or
-- writes, so that `getGlobal` returns each frame that another process has written.
use mathlib.Core.Option.{some-injective}
use vision_pipe.Base.{
  ℕ, Bool, true, not, ◌&&◌, Option, none, some, ◌≡◌, refl, sym, ap, subst, ◌∙◌, arith, ◌==◌, ltb,
  if◌then◌else◌, Bytes, All, Bool-cases, Option-cases, if_cases, inl, inr,
}
use vision_pipe.Base.Dict.{lookup}
use vision_pipe.Mats.{Mats, IsLawful}
use vision_pipe.Arena.Slots.{find_slot}
use vision_pipe.Arena.Frames.{
  ShmArena, shm_arena_write, shm_arena_read, shm_arena_get_seq, shm_arena_record_read_latency,
  shm_arena_record_throughput,
}
use vision_pipe.Arena.Laws.{IsSlot, write-read}
use vision_pipe.Arena.Follows.{Follows, same_find-Follows, write-Follows}
use vision_pipe.Cache.Entry.{CacheEntry, CacheManager, touch, fresh_entry}
use vision_pipe.Cache.Global.{
  Got, put_global, from_shm, from_map, from_arena, get_global, set_global,
}
use vision_pipe.Cache.Coherence.{
  IsFresh, IsCoherent, uses_arena, hits, get_global-hit, get_global-miss, get_global-map,
  get_global-read, put_global-IsCoherent,
}

latency-slots :
    (id : Bytes) (now : ℕ) (a : ShmArena) → (shm_arena_record_read_latency id now a).slots ≡ a.slots
unfolding shm_arena_record_read_latency shm_arena_record_throughput
latency-slots id now a = elim (Option-cases (find_slot id a.slots)) [
  | inl n ↦ rw (shm_arena_record_read_latency, n) refl
  | inr (s, n) ↦
      rw (shm_arena_record_read_latency, n)
        (if_cases (λ (x : ShmArena). x.slots ≡ a.slots) (s.last_write_ns == 0) (λ e. refl)
          (λ e.
            if_cases (λ (x : ShmArena). x.slots ≡ a.slots) (ltb s.last_write_ns now) (λ e. refl)
              (λ e. refl)))
]

module _ {M : Type 0} (o : Mats M) where
  Follows-IsCoherent :
      (c : CacheManager M) (a b : ShmArena)
      → ((id : Bytes) → Follows o a b id)
      → IsCoherent o c a
      → IsCoherent o c b
  unfolding IsCoherent
  Follows-IsCoherent c a b f h id e k =
      let x = h id e k in
      let y = f id in
      let p = x.not_ahead in
      let q = y.grows in
      record {
        not_ahead = omega (arith, p, q);
        holds = λ nonzero same.
            y.keeps (λ z. nonzero (omega (arith, z, p))) (omega (arith, p, q, same))
            ∙ x.holds nonzero (omega (arith, p, q, same));
      }

  same_slots-IsCoherent :
      (c : CacheManager M) (a b : ShmArena)
      → b.slots ≡ a.slots
      → IsCoherent o c a
      → IsCoherent o c b
  same_slots-IsCoherent c a b s =
      Follows-IsCoherent c a b (λ id. same_find-Follows o a b id (ap (find_slot id) s))

  -- What a call leaves is coherent.
  Leaves : Got M → Type 0
  Leaves g = IsCoherent o g.cache g.arena

  touch-IsFresh :
      (id : Bytes) (e : CacheEntry M) (a : ShmArena) → IsFresh o id e a → IsFresh o id (touch e) a
  unfolding touch
  touch-IsFresh id e a f = record { not_ahead = f.not_ahead; holds = f.holds }

  from_map-Leaves :
      (id : Bytes) (c : CacheManager M) (a : ShmArena)
      → IsCoherent o c a
      → Leaves (from_map o id c a)
  unfolding from_map Leaves
  from_map-Leaves id c a h =
      let same : (j : Bytes) (x : CacheEntry M)
          → lookup j c.shared_global ≡ some x
          → IsFresh o j x a =
        unfold IsCoherent in h in
      elim (Option-cases (lookup id c.shared_global)) [
        | inl n ↦
            let g : Got M = record { mat = o.no_mat; cache = c; arena = a } in
            let e : from_map o id c a ≡ g = rw (from_map, n) refl in subst Leaves (sym e) h
        | inr (e, n) ↦
            let g : Got M = record { mat = e.mat; cache = put_global id (touch e) c; arena = a } in
            let q : from_map o id c a ≡ g = rw (from_map, n) refl in
            subst Leaves (sym q)
              (put_global-IsCoherent o id (touch e) c a h (touch-IsFresh id e a (same id e n)))
      ]

  from_shm-IsFresh :
      (id : Bytes) (m : M) (a : ShmArena) (x : Option (CacheEntry M))
      → IsLawful o
      → shm_arena_read o id a ≡ some m
      → IsFresh o id (from_shm (o.clone m) (shm_arena_get_seq id a) x) a
  unfolding from_shm
  from_shm-IsFresh id m a none l r = record {
    not_ahead = omega arith;
    holds = λ nonzero same. r ∙ ap some (sym (l.clones m));
  }
  from_shm-IsFresh id m a (some e) l r = record {
    not_ahead = omega arith;
    holds = λ nonzero same. r ∙ ap some (sym (l.clones m));
  }

  from_arena-Leaves :
      (is_parent : Bool) (id : Bytes) (now : ℕ) (c : CacheManager M) (a : ShmArena)
      → IsLawful o
      → IsCoherent o c a
      → Leaves (from_arena o is_parent id (shm_arena_get_seq id a) now c a)
  unfolding from_arena Leaves
  from_arena-Leaves is_parent id now c a l h = elim (Option-cases (shm_arena_read o id a)) [
    | inl n ↦
        let e : from_arena o is_parent id (shm_arena_get_seq id a) now c a ≡ from_map o id c a =
          rw (from_arena, n) refl in
        subst Leaves (sym e) (from_map-Leaves id c a h)
    | inr (m, n) ↦
        let entry = from_shm (o.clone m) (shm_arena_get_seq id a) (lookup id c.shared_global) in
        let b = if is_parent then shm_arena_record_read_latency id now a else a in
        let g : Got M = record { mat = o.clone m; cache = put_global id entry c; arena = b } in
        let e : from_arena o is_parent id (shm_arena_get_seq id a) now c a ≡ g =
          rw (from_arena, n) refl in
        let slots =
          if_cases (λ (x : ShmArena). x.slots ≡ a.slots) is_parent (λ k. latency-slots id now a)
            (λ k. refl) in
        subst Leaves (sym e) (
          same_slots-IsCoherent (put_global id entry c) a b slots (
            put_global-IsCoherent o id entry c a h
              (from_shm-IsFresh id m a (lookup id c.shared_global) l n)))
  ]

  -- On every lawful Mat type: `getGlobal`, in a parent or a child and whichever way it takes, leaves
  -- a coherent map coherent with the arena it leaves.
  pub get_global-IsCoherent :
      (id : Bytes) (now : ℕ) (c : CacheManager M) (a : ShmArena)
      → IsLawful o
      → IsCoherent o c a
      → IsCoherent o (get_global o id now c a).cache (get_global o id now c a).arena
  unfolding Leaves
  get_global-IsCoherent id now c a l h = elim (Bool-cases (uses_arena o id c a)) [
    | inl u ↦ elim (Bool-cases (hits o id c a)) [
      | inl k ↦ subst Leaves (sym (get_global-hit o id now c a k)) (from_map-Leaves id c a h)
      | inr k ↦
          subst Leaves (sym (get_global-miss o id now c a u k))
            (from_arena-Leaves c.has_fork_children id now c a l h)
    ]
    | inr u ↦ subst Leaves (sym (get_global-map o id now c a u)) (from_map-Leaves id c a h)
  ]

  fresh_entry-IsFresh :
      (id source : Bytes) (mat : M) (a : ShmArena) → IsFresh o id (fresh_entry mat source true) a
  unfolding fresh_entry
  fresh_entry-IsFresh id source mat a = record {
    not_ahead = omega arith;
    holds = λ nonzero same. absurd (nonzero refl);
  }

  -- On every lawful Mat type, and on an arena whose free slots are unwritten and whose sequence
  -- numbers do not wrap with the next write: `setGlobal`, in the parent or in a forked child,
  -- leaves a coherent map coherent with the arena it leaves.
  pub set_global-IsCoherent :
      (id : Bytes) (mat : M) (source : Bytes) (now : ℕ) (c : CacheManager M) (a : ShmArena)
      → IsLawful o
      → All IsSlot a.slots
      → IsCoherent o c a
      → (let r = set_global o id mat source now c a in IsCoherent o r.0 r.1)
  unfolding set_global
  set_global-IsCoherent id mat source now c a l p h =
      let entry = fresh_entry mat source true in
      let put = put_global-IsCoherent o id entry c a h (fresh_entry-IsFresh id source mat a) in
      if_cases (λ b. IsCoherent o (put_global id entry c) b)
        (c.is_fork_child && c.has_arena && not (o.is_empty mat))
        (λ e.
          Follows-IsCoherent (put_global id entry c) a (shm_arena_write o id mat now a).1
            (λ j. write-Follows o id j mat now a l p) put)
        (λ e. put)

  -- On every lawful Mat type, and on an arena whose free slots are unwritten and whose sequence
  -- numbers do not wrap with the next write: after a frame that another process has written
  -- successfully to the arena, the next `getGlobal` of the name in the parent of forked children
  -- returns it, if the parent has the arena and its map was coherent with it before.
  pub get_global-write :
      (id : Bytes) (frame : M) (written now : ℕ) (c : CacheManager M) (a : ShmArena)
      → IsLawful o
      → All IsSlot a.slots
      → IsCoherent o c a
      → c.has_arena ≡ true
      → c.has_fork_children ≡ true
      → (shm_arena_write o id frame written a).0 ≡ true
      → (get_global o id now c (shm_arena_write o id frame written a).1).mat ≡ frame
  get_global-write id frame written now c a l p h arena parent ok =
      let b = (shm_arena_write o id frame written a).1 in
      let (r, q) = write-read o id frame written a l p ok in
      let coherent = Follows-IsCoherent c a b (λ j. write-Follows o id j frame written a l p) h in
      some-injective (get_global o id now c b).mat frame
        (sym (get_global-read o id now c b l coherent arena parent (omega (arith, q))) ∙ r)
