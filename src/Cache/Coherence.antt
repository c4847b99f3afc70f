-- ===== src/Cache/Coherence.antt =====
-- Frames across processes: what `getGlobal` of src/interpreter/cache_manager.cpp returns while other
-- processes write the arena.
use mathlib.Core.Option.{some-injective}
use vision_pipe.Base.{
  ℕ, ◌<◌, ◌≤◌, Bool, true, false, ◌&&◌, Option, none, some, ◌≡◌, ◌≢◌, refl, sym, ap, subst, ◌∙◌,
  arith, ◌==◌, ltb, Bytes, eq_bytes, eq_bytes_iff, Bool-cases, Option-cases, if_cases, inl, inr,
}
use vision_pipe.Base.Dict.{lookup, lookup-insert_eq, lookup-insert_ne}
use vision_pipe.Mats.{Mats, IsLawful}
use vision_pipe.Arena.Slots.{ShmSlotHeader, find_slot}
use vision_pipe.Arena.Laws.{seq_of, shm_arena_get_seq-found, read-found}
use vision_pipe.Arena.Frames.{ShmArena, shm_arena_read, shm_arena_get_seq, slot_frame}
use vision_pipe.Cache.Entry.{CacheEntry, CacheManager}
use vision_pipe.Cache.Global.{Got, put_global, from_map, is_current, from_arena, get_global}

seq_of-none : {x : Option ShmSlotHeader} → x ≡ none → seq_of x ≡ 0
unfolding seq_of
seq_of-none e = ap seq_of e

seq_of-some : {x : Option ShmSlotHeader} (s : ShmSlotHeader) → x ≡ some s → seq_of x ≡ s.write_seq
unfolding seq_of
seq_of-some s e = ap seq_of e

module _ {M : Type 0} (o : Mats M) where
  -- An entry never has a later number than the arena, and one with the arena's number holds the
  -- arena's frame.
  pub record IsFresh (id : Bytes) (e : CacheEntry M) (a : ShmArena) : Type 0 where
    pub not_ahead : e.shm_seq ≤ shm_arena_get_seq id a
    pub holds :
        e.shm_seq ≢ 0 → e.shm_seq ≡ shm_arena_get_seq id a → shm_arena_read o id a ≡ some e.mat

  unfoldable pub IsCoherent : CacheManager M → ShmArena → Type 0
  IsCoherent c a =
      (id : Bytes) (e : CacheEntry M) → lookup id c.shared_global ≡ some e → IsFresh id e a

  slot_frame-written : (s : ShmSlotHeader) → 0 < s.write_seq → (m : M) × (slot_frame o s ≡ some m)
  unfolding slot_frame
  slot_frame-written s h =
      let nonzero : (s.write_seq == 0) ≡ false = ground arith in
      (o.wrap s.height s.width s.frame_type (s.buffers s.write_idx), rw nonzero refl)

  -- A name with a sequence number can be read.
  pub read-seq :
      (id : Bytes) (a : ShmArena)
      → 0 < shm_arena_get_seq id a
      → (m : M) × (shm_arena_read o id a ≡ some m)
  read-seq id a h = elim (Option-cases (find_slot id a.slots)) [
    | inl n ↦
        let zero_seq : shm_arena_get_seq id a ≡ 0 = shm_arena_get_seq-found id a ∙ seq_of-none n in
        absurd (omega arith)
    | inr (s, n) ↦
        let seq : shm_arena_get_seq id a ≡ s.write_seq =
          shm_arena_get_seq-found id a ∙ seq_of-some s n in
        let (m, e) = slot_frame-written s (omega arith) in (m, read-found o id a s n ∙ e)
  ]

  pub from_map-mat :
      (id : Bytes) (e : CacheEntry M) (c : CacheManager M) (a : ShmArena)
      → lookup id c.shared_global ≡ some e
      → (from_map o id c a).mat ≡ e.mat
  unfolding from_map
  from_map-mat id e c a k = rw (from_map, k) refl

  from_arena-mat :
      (is_parent : Bool) (id : Bytes) (seq now : ℕ) (c : CacheManager M) (a : ShmArena) (m : M)
      → shm_arena_read o id a ≡ some m
      → (from_arena o is_parent id seq now c a).mat ≡ o.clone m
  unfolding from_arena
  from_arena-mat is_parent id seq now c a m k = rw (from_arena, k) refl

  -- The three ways of `getGlobal`, by its tests.
  unfoldable pub uses_arena : Bytes → CacheManager M → ShmArena → Bool
  uses_arena id c a = c.has_arena && ltb 0 (shm_arena_get_seq id a)

  pub hits : Bytes → CacheManager M → ShmArena → Bool
  hits id c a =
      is_current o c.has_fork_children (shm_arena_get_seq id a) (lookup id c.shared_global)

  pub get_global-hit :
      (id : Bytes) (now : ℕ) (c : CacheManager M) (a : ShmArena)
      → hits id c a ≡ true
      → get_global o id now c a ≡ from_map o id c a
  unfolding get_global hits
  get_global-hit id now c a k =
      rw (get_global, k)
        (if_cases (λ x. x ≡ from_map o id c a) (c.has_arena && ltb 0 (shm_arena_get_seq id a))
          (λ e. refl) (λ e. refl))

  pub get_global-miss :
      (id : Bytes) (now : ℕ) (c : CacheManager M) (a : ShmArena)
      → uses_arena id c a ≡ true
      → hits id c a ≡ false
      → get_global o id now c a
        ≡ from_arena o c.has_fork_children id (shm_arena_get_seq id a) now c a
  unfolding get_global uses_arena hits
  get_global-miss id now c a u k = rw (get_global, u, k) refl

  pub get_global-map :
      (id : Bytes) (now : ℕ) (c : CacheManager M) (a : ShmArena)
      → uses_arena id c a ≡ false
      → get_global o id now c a ≡ from_map o id c a
  unfolding get_global uses_arena
  get_global-map id now c a u = rw (get_global, u) refl

  uses_arena_when :
      (id : Bytes) (c : CacheManager M) (a : ShmArena)
      → c.has_arena ≡ true
      → 0 < shm_arena_get_seq id a
      → uses_arena id c a ≡ true
  unfolding uses_arena
  uses_arena_when id c a h s = ground arith

  is_current_parent :
      (seq : ℕ) (x : Option (CacheEntry M))
      → is_current o true seq x ≡ true
      → (e : CacheEntry M) × (x ≡ some e) × (e.shm_seq ≡ seq)
  unfolding is_current
  is_current_parent seq none k = absurd (ground arith)
  is_current_parent seq (some e) k = (e, refl, ground arith)

  hits-parent :
      (id : Bytes) (c : CacheManager M) (a : ShmArena)
      → c.has_fork_children ≡ true
      → hits id c a ≡ true
      → (e : CacheEntry M) × (lookup id c.shared_global ≡ some e)
        × (e.shm_seq ≡ shm_arena_get_seq id a)
  unfolding hits
  hits-parent id c a parent k =
      is_current_parent (shm_arena_get_seq id a) (lookup id c.shared_global) (
        subst (λ p. is_current o p (shm_arena_get_seq id a) (lookup id c.shared_global) ≡ true)
          parent k)

  -- On every lawful Mat type, in the parent of forked children, which has an arena, and on a map that
  -- is coherent with it: `getGlobal` of a name that has been written returns the arena's frame.
  pub get_global-read :
      (id : Bytes) (now : ℕ) (c : CacheManager M) (a : ShmArena)
      → IsLawful o
      → IsCoherent c a
      → c.has_arena ≡ true
      → c.has_fork_children ≡ true
      → 0 < shm_arena_get_seq id a
      → shm_arena_read o id a ≡ some (get_global o id now c a).mat
  unfolding IsCoherent
  get_global-read id now c a l h arena parent s =
      let (m, e) = read-seq id a s in
      elim (Bool-cases (hits id c a)) [
        | inl k ↦
            let (x, f, q) = hits-parent id c a parent k in
            let fresh = h id x f in
            fresh.holds (ground arith) q
            ∙ ap some (
                sym (
                  ap (λ (g : Got M). g.mat) (get_global-hit id now c a k)
                  ∙ from_map-mat id x c a f))
        | inr k ↦
            e
            ∙ ap some (
                sym (
                  ap (λ (g : Got M). g.mat)
                    (get_global-miss id now c a (uses_arena_when id c a arena s) k)
                  ∙ from_arena-mat c.has_fork_children id (shm_arena_get_seq id a) now c a m e
                  ∙ l.clones m))
      ]

  pub put_global-IsCoherent :
      (id : Bytes) (e : CacheEntry M) (c : CacheManager M) (a : ShmArena)
      → IsCoherent c a
      → IsFresh id e a
      → IsCoherent (put_global id e c) a
  unfolding put_global IsCoherent
  put_global-IsCoherent id e c a h f j e' k = elim (Bool-cases (eq_bytes id j)) [
    | inl q ↦
        let here = some-injective e e' (sym (lookup-insert_eq id j e c.shared_global q) ∙ k) in
        let same : id ≡ j = (eq_bytes_iff id j).0 q in
        subst (λ x. IsFresh x e' a) same (subst (λ x. IsFresh id x a) here f)
    | inr q ↦ h j e' (sym (lookup-insert_ne id j e c.shared_global q) ∙ k)
  ]
