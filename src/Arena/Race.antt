-- ===== src/Arena/Race.antt =====
-- What a reader sees while a writer of src/utils/shm_zero_copy.cpp runs: triple buffering, and the
-- moment between the two stores that publish a frame.
use vision_pipe.Base.{
  ℕ, zero, suc, List, [], ◌∷◌, ◌+◌, ◌%◌, ◌<◌, false, some, ◌≡◌, refl, arith, ◌==◌,
}
use vision_pipe.Mats.{Mats}
use vision_pipe.Arena.Slots.{ShmSlotHeader}
use vision_pipe.Arena.Throughput.{two_64}
use vision_pipe.Arena.Frames.{run_stores, put_frame_stores, put_frame, slot_frame}

-- The next two of three buffers are not this one.
next_differs :
    (i : ℕ) → i < 3 → ((i == (i + 1) % 3) ≡ false) × ((i == ((i + 1) % 3 + 1) % 3) ≡ false)
next_differs i h = ground arith

-- The first stores of a list.
abbrev pub first {ℓ} : {A : Type ℓ} → ℕ → List A → List A
first zero xs = []
first (suc n) [] = []
first (suc n) (x ∷ xs) = x ∷ first n xs

module _ {M : Type 0} (o : Mats M) where
  -- Triple buffering: the buffer that a reader holds, the slot's latest when its index is one of the
  -- three, is as it was after one more frame is written, and after two.
  pub put_frame-buffers :
      (f g : M) (t u : ℕ) (s : ShmSlotHeader)
      → s.write_idx < 3
      → ((put_frame o f t s).buffers s.write_idx ≡ s.buffers s.write_idx)
        × ((put_frame o g u (put_frame o f t s)).buffers s.write_idx ≡ s.buffers s.write_idx)
  unfolding put_frame
  put_frame-buffers f g t u s h =
      let (a, b) = next_differs s.write_idx h in (rw a refl, rw (b, a) refl)

  -- Between the two stores that publish a frame, the second and the third of a write, a reader finds
  -- the sequence number that the whole write leaves, with the pixels of the frame before, under the
  -- new frame's shape: when the slot's index is one of the three buffers, and its number does not
  -- wrap.
  pub put_frame-stale :
      (frame : M) (now : ℕ) (s : ShmSlotHeader)
      → s.write_idx < 3
      → s.write_seq + 1 < two_64
      → (let mid = run_stores (first 2 (put_frame_stores o frame now)) s in
          (mid.write_seq ≡ s.write_seq + 1)
          × (mid.write_seq ≡ (put_frame o frame now s).write_seq)
          × (slot_frame o mid
              ≡ some (
                  o.wrap (o.rows frame) (o.cols frame) (o.mat_type frame) (s.buffers s.write_idx))))
  unfolding put_frame slot_frame
  put_frame-stale frame now s i h =
      let nonzero : ((s.write_seq + 1) % two_64 == 0) ≡ false = ground arith in
      let (a, b) = next_differs s.write_idx i in (omega arith, refl, rw (nonzero, a) refl)
