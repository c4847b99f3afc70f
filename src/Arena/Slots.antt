-- ===== src/Arena/Slots.antt =====
-- The slots of the arena and `findSlot` of src/utils/shm_zero_copy.cpp.
use vision_pipe.Base.{
  ℕ, zero, suc, Bool, ◌&&◌, List, [], ◌∷◌, Option, none, some, ◌==◌, if◌then◌else◌, Bytes, eq_bytes,
}

-- `active` is 0 for free, 1 for initialising and 2 for ready. The slot's three buffers of the pool
-- stand with it, in place of the index `slotIdx * 3 + bufIdx` into the pool.
pub record ShmSlotHeader : Type 0 where
  pub write_seq : ℕ
  pub write_idx : ℕ
  pub active : ℕ
  pub width : ℕ
  pub height : ℕ
  pub frame_type : ℕ
  pub frame_bytes : ℕ
  pub name : Bytes
  pub last_write_ns : ℕ
  pub buffers : ℕ → Bytes

unfoldable pub free_slot : ShmSlotHeader
free_slot = record {
  write_seq = 0;
  write_idx = 0;
  active = 0;
  width = 0;
  height = 0;
  frame_type = 0;
  frame_bytes = 0;
  name = [];
  last_write_ns = 0;
  buffers = λ i. [];
}

-- The characters that `strncpy` copies and `strncmp` compares: at most n of them, up to the first
-- zero byte.
unfoldable pub c_prefix : ℕ → Bytes → Bytes
c_prefix zero bs = []
c_prefix (suc n) [] = []
c_prefix (suc n) (b ∷ bs) = let rest = c_prefix n bs in if b == 0 then [] else b ∷ rest

-- `sizeof(name) - 1`.
abbrev pub name_size : ℕ
name_size = 47

unfoldable pub slot_key : Bytes → Bytes
unfolding c_prefix
slot_key name = c_prefix name_size name

unfoldable pub is_ready : Bytes → ShmSlotHeader → Bool
unfolding slot_key
is_ready name s = (s.active == 2) && eq_bytes (slot_key s.name) (slot_key name)

-- The first pass of `findSlot`.
unfoldable pub find_slot : Bytes → List ShmSlotHeader → Option ShmSlotHeader
unfolding is_ready
find_slot name [] = none
find_slot name (s ∷ slots) =
    let rest = find_slot name slots in if is_ready name s then some s else rest

-- The second pass: claim the first free slot.
unfoldable pub claim_slot : Bytes → List ShmSlotHeader → Option (List ShmSlotHeader)
unfolding slot_key
claim_slot name [] = none
claim_slot name (s ∷ slots) =
    let rest = claim_slot name slots in
    if s.active == 0
    then some (record s { active = 2; name = slot_key name } ∷ slots)
    else elim rest [ none ↦ none | some slots' ↦ some (s ∷ slots') ]

-- `findSlot` with `create` set: the slots in which `find_slot` then finds the name, if any.
unfoldable pub create_slot : Bytes → List ShmSlotHeader → Option (List ShmSlotHeader)
unfolding find_slot claim_slot
create_slot name slots = elim (find_slot name slots) [
  | some s ↦ some slots
  | none ↦ claim_slot name slots
]

-- A write through the pointer that `findSlot` returned.
unfoldable pub update_slot :
    Bytes → (ShmSlotHeader → ShmSlotHeader) → List ShmSlotHeader → List ShmSlotHeader
unfolding is_ready
update_slot name f [] = []
update_slot name f (s ∷ slots) =
    let rest = update_slot name f slots in if is_ready name s then f s ∷ slots else s ∷ rest
