-- ===== src/Arena/Laws.antt =====
-- What a write to the arena of src/utils/shm_zero_copy.cpp does to the reads of every name.
use mathlib.Core.Option.{some-injective}
use vision_pipe.Base.{
  ℕ, ◌+◌, ◌%◌, ◌<◌, Bool, true, false, List, [], ◌∷◌, Option, none, some, ◌≡◌, refl, sym, subst,
  ◌⊎◌, ap, ◌∙◌, arith, ◌==◌, ltb, Bytes, length, All, Bool-cases, Option-cases, inl, inr,
}
use vision_pipe.Mats.{Mats, IsLawful}
use vision_pipe.Arena.Slots.{
  ShmSlotHeader, is_ready, find_slot, claim_slot, create_slot, update_slot,
}
use vision_pipe.Arena.Throughput.{two_64}
use vision_pipe.Arena.Frames.{
  ShmArena, put_frame, shm_arena_write, slot_frame, shm_arena_read, shm_arena_get_seq, copy_over,
  drop,
}
use vision_pipe.Arena.Lookup.{
  same_key, IsKept, find_slot-update, find_slot-update_other, find_slot-claim,
  find_slot-claim_other, claimed, find_slot-here, find_slot-later,
}

-- A free slot has not been written, and no slot's number is about to wrap round.
pub record IsSlot (s : ShmSlotHeader) : Type 0 where
  pub unwritten : s.active ≡ 0 → s.write_seq ≡ 0
  pub below : s.write_seq + 1 < two_64

unfoldable pub seq_of : Option ShmSlotHeader → ℕ
seq_of none = 0
seq_of (some s) = s.write_seq

-- The slot in which a name is found after `findSlot` with `create`.
pub record Creates (name : Bytes) (slots slots' : List ShmSlotHeader) : Type 0 where
  pub slot : ShmSlotHeader
  pub found : find_slot name slots' ≡ some slot
  pub same_seq : slot.write_seq ≡ seq_of (find_slot name slots)
  pub below : slot.write_seq + 1 < two_64

find_slot-All {κ} :
    (P : ShmSlotHeader → Type κ) (name : Bytes) (slots : List ShmSlotHeader) (s : ShmSlotHeader)
    → All P slots
    → find_slot name slots ≡ some s
    → P s
unfolding find_slot
find_slot-All P name [] s p f = absurd (ground arith)
find_slot-All P name (t ∷ slots) s p f = elim (Bool-cases (is_ready name t)) [
  | inl r ↦
      let here : some t ≡ some s = sym (find_slot-here name t slots r) ∙ f in
      subst P (some-injective t s here) p.0
  | inr r ↦ find_slot-All P name slots s p.1 (sym (find_slot-later name t slots r) ∙ f)
]

pub create_slot_new :
    (name : Bytes) (slots : List ShmSlotHeader)
    → find_slot name slots ≡ none
    → create_slot name slots ≡ claim_slot name slots
unfolding create_slot
create_slot_new name slots n = rw (create_slot, n) refl

pub create_slot_found :
    (name : Bytes) (slots : List ShmSlotHeader) (s : ShmSlotHeader)
    → find_slot name slots ≡ some s
    → create_slot name slots ≡ some slots
unfolding create_slot
create_slot_found name slots s n = rw (create_slot, n) refl

create_slot-Creates :
    (name : Bytes) (slots slots' : List ShmSlotHeader)
    → All IsSlot slots
    → create_slot name slots ≡ some slots'
    → Creates name slots slots'
unfolding seq_of claimed
create_slot-Creates name slots slots' p c = elim (Option-cases (find_slot name slots)) [
  | inl n ↦
      let claims = sym (create_slot_new name slots n) ∙ c in
      let (s, f, z, q) = find_slot-claim IsSlot name slots slots' n claims p in
      record {
        slot = claimed name s;
        found = f;
        same_seq = q.unwritten z ∙ sym (ap seq_of n);
        below = q.below;
      }
  | inr (s, n) ↦
      let same = some-injective slots slots' (sym (create_slot_found name slots s n) ∙ c) in
      record {
        slot = s;
        found = subst (λ x. find_slot name x ≡ some s) same n;
        same_seq = sym (ap seq_of n);
        below = (find_slot-All IsSlot name slots s p n).below;
      }
]

create_slot-other :
    (name other : Bytes) (slots slots' : List ShmSlotHeader)
    → same_key name other ≡ false
    → create_slot name slots ≡ some slots'
    → find_slot other slots' ≡ find_slot other slots
create_slot-other name other slots slots' d c = elim (Option-cases (find_slot name slots)) [
  | inl n ↦ find_slot-claim_other name other slots slots' d (sym (create_slot_new name slots n) ∙ c)
  | inr (s, n) ↦
      let same = some-injective slots slots' (sym (create_slot_found name slots s n) ∙ c) in
      ap (find_slot other) (sym same)
]

pub shm_arena_get_seq-found :
    (name : Bytes) (a : ShmArena) → shm_arena_get_seq name a ≡ seq_of (find_slot name a.slots)
unfolding shm_arena_get_seq seq_of
shm_arena_get_seq-found name a = elim (find_slot name a.slots) [ none ↦ refl | some s ↦ refl ]

module _ {M : Type 0} (o : Mats M) where
  put_frame-IsKept : (frame : M) (now : ℕ) → IsKept (put_frame o frame now)
  unfolding put_frame
  put_frame-IsKept frame now = record { actives = λ s. refl; names = λ s. refl }

  slot_frame-put_frame :
      (frame : M) (now : ℕ) (s : ShmSlotHeader)
      → IsLawful o
      → o.is_empty frame ≡ false
      → s.write_seq + 1 < two_64
      → slot_frame o (put_frame o frame now s) ≡ some frame
  unfolding slot_frame put_frame copy_over
  slot_frame-put_frame frame now s l e h =
      let nonzero : ((s.write_seq + 1) % two_64 == 0) ≡ false = ground arith in
      let here : ((s.write_idx + 1) % 3 == (s.write_idx + 1) % 3) ≡ true = ground arith in
      rw (nonzero, here)
        (ap some
          (l.wraps frame (drop (length (o.pixels frame)) (s.buffers ((s.write_idx + 1) % 3))) e))

  put_frame-seq :
      (frame : M) (now : ℕ) (s : ShmSlotHeader)
      → s.write_seq + 1 < two_64
      → (put_frame o frame now s).write_seq ≡ s.write_seq + 1
  unfolding put_frame
  put_frame-seq frame now s h = omega arith

  -- The result, by cases.
  unfoldable pub Refused : Bytes → ShmArena → Bool × ShmArena → Type 0
  Refused name a r =
      (r ≡ (false, a))
      ⊎ ((slots : List ShmSlotHeader) × (create_slot name a.slots ≡ some slots)
          × (r ≡ (false, record a { slots = slots })))

  unfoldable pub Written : Bytes → M → ℕ → ShmArena → Bool × ShmArena → Type 0
  Written name frame now a r =
      (slots : List ShmSlotHeader) × (create_slot name a.slots ≡ some slots)
      × (o.is_empty frame ≡ false)
      × (r ≡ (true, record a { slots = update_slot name (put_frame o frame now) slots }))

  pub shm_arena_write-cases :
      (name : Bytes) (frame : M) (now : ℕ) (a : ShmArena)
      → (let r = shm_arena_write o name frame now a in
          Refused name a r ⊎ Written name frame now a r)
  unfolding shm_arena_write Refused Written
  shm_arena_write-cases name frame now a = elim (Bool-cases (o.is_empty frame)) [
    | inl e ↦ inl (inl (rw e refl))
    | inr e ↦ elim (Option-cases (create_slot name a.slots)) [
      | inl n ↦ inl (inl (rw (e, n) refl))
      | inr (slots, n) ↦ elim (Bool-cases (ltb a.max_frame_bytes (o.byte_size frame))) [
        | inl b ↦ inl (inr (slots, n, rw (e, n, b) refl))
        | inr b ↦ inr (slots, n, e, rw (e, n, b) refl)
      ]
    ]
  ]

  Refused-fails :
      (name : Bytes) (a : ShmArena) (r : Bool × ShmArena) → Refused name a r → r.0 ≡ false
  unfolding Refused
  Refused-fails name a r (inl e) = ap (λ x. x.0) e
  Refused-fails name a r (inr (slots, c, e)) = ap (λ x. x.0) e

  pub read-found :
      (name : Bytes) (a : ShmArena) (s : ShmSlotHeader)
      → find_slot name a.slots ≡ some s
      → shm_arena_read o name a ≡ slot_frame o s
  unfolding shm_arena_read
  read-found name a s h = rw (shm_arena_read, h) refl

  pub find-read :
      (x y : Bytes) (a b : ShmArena)
      → find_slot x a.slots ≡ find_slot y b.slots
      → shm_arena_read o x a ≡ shm_arena_read o y b
  unfolding shm_arena_read
  find-read x y a b h = ap (λ x. elim x [ none ↦ none | some s ↦ slot_frame o s ]) h

  pub write-find_other :
      (name other : Bytes) (frame : M) (now : ℕ) (a : ShmArena)
      → same_key name other ≡ false
      → find_slot other (shm_arena_write o name frame now a).1.slots ≡ find_slot other a.slots
  unfolding Refused Written
  write-find_other name other frame now a d = elim (shm_arena_write-cases name frame now a) [
    | inl (inl r) ↦ ap (λ x. find_slot other x.1.slots) r
    | inl (inr (slots, c, r)) ↦
        ap (λ x. find_slot other x.1.slots) r ∙ create_slot-other name other a.slots slots d c
    | inr (slots, c, e, r) ↦
        ap (λ x. find_slot other x.1.slots) r
        ∙ find_slot-update_other (put_frame o frame now) (put_frame-IsKept frame now) name other
            slots d
        ∙ create_slot-other name other a.slots slots d c
  ]

  -- On every lawful Mat type, and on an arena whose free slots are unwritten and whose sequence
  -- numbers do not wrap with the next write: a write that succeeds is what the next read of the
  -- name returns, and it adds one to the name's sequence number.
  pub write-read :
      (name : Bytes) (frame : M) (now : ℕ) (a : ShmArena)
      → IsLawful o
      → All IsSlot a.slots
      → (shm_arena_write o name frame now a).0 ≡ true
      → (shm_arena_read o name (shm_arena_write o name frame now a).1 ≡ some frame)
        × (shm_arena_get_seq name (shm_arena_write o name frame now a).1
            ≡ shm_arena_get_seq name a + 1)
  unfolding Written seq_of
  write-read name frame now a l p ok = elim (shm_arena_write-cases name frame now a) [
    | inl r ↦
        let e : true ≡ false =
          sym ok ∙ Refused-fails name a (shm_arena_write o name frame now a) r in
        absurd (ground arith)
    | inr (slots, c, e, r) ↦
        let made = create_slot-Creates name a.slots slots p c in
        let f =
          find_slot-update (put_frame o frame now) (put_frame-IsKept frame now) name slots made.slot
            made.found in
        let a' = record a { slots = update_slot name (put_frame o frame now) slots } in
        (
          ap (λ x. shm_arena_read o name x.1) r
              ∙ read-found name a' (put_frame o frame now made.slot) f
              ∙ slot_frame-put_frame frame now made.slot l e made.below,
          ap (λ x. shm_arena_get_seq name x.1) r
              ∙ shm_arena_get_seq-found name a'
              ∙ ap seq_of f
              ∙ put_frame-seq frame now made.slot made.below
              ∙ ap (λ x. x + 1) (made.same_seq ∙ sym (shm_arena_get_seq-found name a)),
        )
  ]

  -- A write, whether it succeeds or not, leaves what is read of every name whose first 47 characters
  -- differ, and its sequence number.
  pub write-read_other :
      (name other : Bytes) (frame : M) (now : ℕ) (a : ShmArena)
      → same_key name other ≡ false
      → (shm_arena_read o other (shm_arena_write o name frame now a).1 ≡ shm_arena_read o other a)
        × (shm_arena_get_seq other (shm_arena_write o name frame now a).1
            ≡ shm_arena_get_seq other a)
  write-read_other name other frame now a d =
      let same = write-find_other name other frame now a d in
      (
        find-read other other (shm_arena_write o name frame now a).1 a same,
        shm_arena_get_seq-found other (shm_arena_write o name frame now a).1
            ∙ ap seq_of same
            ∙ sym (shm_arena_get_seq-found other a),
      )
