-- ===== src/Arena/Frames.antt =====
-- The frame operations of src/utils/shm_zero_copy.cpp. A null arena is `none` at the callers.
use vision_pipe.Base.{
  ℕ, zero, suc, ◌+◌, ◌-◌, ◌%◌, Bool, true, false, List, [], ◌∷◌, ◌++◌, Option, none, some, ◌==◌,
  ltb, if◌then◌else◌, Bytes, bytes, length,
}
use vision_pipe.Mats.{Mats}
use vision_pipe.Arena.Slots.{ShmSlotHeader, free_slot, find_slot, create_slot, update_slot}
use vision_pipe.Arena.Throughput.{ShmThroughputSlot, free_tput, record_sample, two_64, two_32}

pub record ShmArena : Type 0 where
  pub slots : List ShmSlotHeader
  pub tputs : List ShmThroughputSlot
  pub max_frame_bytes : ℕ
  pub shutdown : Bool

unfoldable pub copies {ℓ} : {A : Type ℓ} → ℕ → A → List A
copies zero a = []
copies (suc n) a = a ∷ copies n a

-- `mmap` having succeeded.
unfoldable pub shm_arena_create : ℕ → ℕ → ShmArena
unfolding copies free_slot free_tput
shm_arena_create max_slots max_bytes = record {
  slots = copies max_slots free_slot;
  tputs = copies max_slots free_tput;
  max_frame_bytes = max_bytes;
  shutdown = false;
}

unfoldable pub drop : ℕ → Bytes → Bytes
drop zero bs = bs
drop (suc n) [] = []
drop (suc n) (b ∷ bs) = drop n bs

-- `memcpy` of xs over the start of a buffer.
unfoldable pub copy_over : Bytes → Bytes → Bytes
unfolding drop
copy_over xs old = xs ++ drop (length xs) old

-- The stores of a write, one after the other.
unfoldable pub run_stores : List (ShmSlotHeader → ShmSlotHeader) → ShmSlotHeader → ShmSlotHeader
run_stores [] s = s
run_stores (f ∷ fs) s = run_stores fs (f s)

module _ {M : Type 0} (o : Mats M) where
  -- The writer's part before the frame is published: its shape and the pixels, in the next buffer.
  unfoldable pub fill_slot : M → ShmSlotHeader → ShmSlotHeader
  unfolding copy_over
  fill_slot frame s =
      let next = (s.write_idx + 1) % 3 in
      record s {
        width = o.cols frame;
        height = o.rows frame;
        frame_type = o.mat_type frame;
        frame_bytes = o.byte_size frame % two_32;
        buffers = λ i. if i == next then copy_over (o.pixels frame) (s.buffers i) else s.buffers i;
      }

  -- Publish: the sequence number first, then the index of the latest buffer, then the time.
  unfoldable pub bump_seq : ShmSlotHeader → ShmSlotHeader
  bump_seq s = record s { write_seq = (s.write_seq + 1) % two_64 }

  unfoldable pub store_idx : ShmSlotHeader → ShmSlotHeader
  store_idx s = record s { write_idx = (s.write_idx + 1) % 3 }

  unfoldable pub stamp : ℕ → ShmSlotHeader → ShmSlotHeader
  stamp now s = record s { last_write_ns = now }

  -- What a write does to its slot, in the order in which another process can see it.
  unfoldable pub put_frame_stores : M → ℕ → List (ShmSlotHeader → ShmSlotHeader)
  unfolding fill_slot bump_seq store_idx stamp
  put_frame_stores frame now = fill_slot frame ∷ bump_seq ∷ store_idx ∷ stamp now ∷ []

  unfoldable pub put_frame : M → ℕ → ShmSlotHeader → ShmSlotHeader
  unfolding run_stores put_frame_stores
  put_frame frame now s = run_stores (put_frame_stores frame now) s

  unfoldable pub shm_arena_write : Bytes → M → ℕ → ShmArena → Bool × ShmArena
  unfolding create_slot update_slot put_frame
  shm_arena_write name frame now a =
      if o.is_empty frame then (false, a) else elim (create_slot name a.slots) [
        | none ↦ (false, a)
        | some slots ↦
            if ltb a.max_frame_bytes (o.byte_size frame)
            then (false, record a { slots = slots })
            else (true, record a { slots = update_slot name (put_frame frame now) slots })
      ]

  unfoldable pub slot_frame : ShmSlotHeader → Option M
  slot_frame s =
      if s.write_seq == 0
      then none
      else some (o.wrap s.height s.width s.frame_type (s.buffers s.write_idx))

  unfoldable pub shm_arena_read : Bytes → ShmArena → Option M
  unfolding find_slot slot_frame
  shm_arena_read name a = elim (find_slot name a.slots) [ none ↦ none | some s ↦ slot_frame s ]

unfoldable pub shm_arena_get_seq : Bytes → ShmArena → ℕ
unfolding find_slot
shm_arena_get_seq name a = elim (find_slot name a.slots) [ none ↦ 0 | some s ↦ s.write_seq ]

unfoldable pub shm_arena_record_throughput : Bytes → ℕ → ShmArena → ShmArena
unfolding record_sample
shm_arena_record_throughput name ns a = record a { tputs = record_sample name ns a.tputs }

-- `now` is the reader's clock.
unfoldable pub shm_arena_record_read_latency : Bytes → ℕ → ShmArena → ShmArena
unfolding find_slot shm_arena_record_throughput
shm_arena_record_read_latency name now a = elim (find_slot name a.slots) [
  | none ↦ a
  | some s ↦
      if s.last_write_ns == 0
      then a
      else if ltb s.last_write_ns now
      then shm_arena_record_throughput (bytes "ipc:" ++ name) (now - s.last_write_ns) a
      else a
]

unfoldable pub shm_arena_set_shutdown : ShmArena → ShmArena
shm_arena_set_shutdown a = record a { shutdown = true }

unfoldable pub shm_arena_is_shutdown : ShmArena → Bool
shm_arena_is_shutdown a = a.shutdown
