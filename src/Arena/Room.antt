-- ===== src/Arena/Room.antt =====
-- When `shmArenaWrite` of src/utils/shm_zero_copy.cpp succeeds.
use vision_pipe.Base.{
  ℕ, ◌≤◌, Bool, true, false, List, [], ◌∷◌, none, some, ◌≡◌, ◌≢◌, refl, ◌∙◌, arith, ◌==◌, ltb,
  if◌then◌else◌, Bytes, Bool-cases, Option-cases, inl, inr, ◌⊎◌,
}
use vision_pipe.Mats.{Mats}
use vision_pipe.Arena.Slots.{ShmSlotHeader, find_slot, claim_slot, create_slot}
use vision_pipe.Arena.Frames.{ShmArena, shm_arena_write}
use vision_pipe.Arena.Lookup.{claimed, claim_slot-here, claim_slot-later}
use vision_pipe.Arena.Laws.{create_slot_found, create_slot_new}

-- A slot that no name has taken.
unfoldable pub has_free : List ShmSlotHeader → Bool
has_free [] = false
has_free (s ∷ slots) = let rest = has_free slots in if s.active == 0 then true else rest

claim_slot-has_free :
    (name : Bytes) (slots : List ShmSlotHeader)
    → has_free slots ≡ true
    → (slots' : List ShmSlotHeader) × (claim_slot name slots ≡ some slots')
unfolding has_free
claim_slot-has_free name [] h = absurd (ground arith)
claim_slot-has_free name (s ∷ slots) h = elim (Bool-cases (s.active == 0)) [
  | inl z ↦ (claimed name s ∷ slots, claim_slot-here name s slots z)
  | inr z ↦
      let later : has_free slots ≡ true = rw z at h in
      let (rest, e) = claim_slot-has_free name slots later in
      (s ∷ rest, claim_slot-later name s slots (some rest) z e)
]

create_slot-has_free :
    (name : Bytes) (slots : List ShmSlotHeader)
    → (find_slot name slots ≢ none) ⊎ (has_free slots ≡ true)
    → (slots' : List ShmSlotHeader) × (create_slot name slots ≡ some slots')
create_slot-has_free name slots room = elim (Option-cases (find_slot name slots)) [
  | inr (s, f) ↦ (slots, create_slot_found name slots s f)
  | inl n ↦ elim room [
    | inl taken ↦ absurd (taken n)
    | inr free ↦
        let (slots', c) = claim_slot-has_free name slots free in
        (slots', create_slot_new name slots n ∙ c)
  ]
]

module _ {M : Type 0} (o : Mats M) where
  -- A frame that is not empty and no larger than the arena's frames is written, if its name has a
  -- slot or a slot is free.
  pub shm_arena_write-has_free :
      (name : Bytes) (frame : M) (now : ℕ) (a : ShmArena)
      → o.is_empty frame ≡ false
      → o.byte_size frame ≤ a.max_frame_bytes
      → (find_slot name a.slots ≢ none) ⊎ (has_free a.slots ≡ true)
      → (shm_arena_write o name frame now a).0 ≡ true
  unfolding shm_arena_write
  shm_arena_write-has_free name frame now a e b room =
      let fits : ltb a.max_frame_bytes (o.byte_size frame) ≡ false = ground arith in
      let (slots, c) = create_slot-has_free name a.slots room in
      rw (shm_arena_write, e, c, fits) refl
