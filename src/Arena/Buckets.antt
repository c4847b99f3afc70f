-- ===== src/Arena/Buckets.antt =====
-- The latency histogram of src/utils/shm_zero_copy.cpp.
use vision_pipe.Base.{ℕ, zero, suc, ◌*◌, ◌≤◌, ◌<◌, ◌≡◌, arith, ltb, if_cases, ◌⊎◌, inl, inr}
use vision_pipe.Arena.Throughput.{shm_latency_bucket}

-- 2 ^ b.
abbrev pub two_to : ℕ → ℕ
two_to zero = 1
two_to (suc b) = 2 * two_to b

-- A bucket's number and what it holds.
abbrev pub Holds : ℕ → ℕ → Type 0
Holds ns b = (b ≤ 7) × ((b ≡ 0) ⊎ (500000 * two_to b ≤ ns)) × ((b ≡ 7) ⊎ (ns < 1000000 * two_to b))

-- The bucket of a duration is one of the eight: the first holds what is below a millisecond, the last
-- what is not below 64, and a bucket b between them what is not below 2 ^ (b - 1) milliseconds and
-- below 2 ^ b.
pub shm_latency_bucket-bounds : (ns : ℕ) → Holds ns (shm_latency_bucket ns)
unfolding shm_latency_bucket
shm_latency_bucket-bounds ns =
    if_cases (Holds ns) (ltb ns 1000000) (λ h. (omega arith, inl (omega arith), inr (ground arith)))
      (λ h0.
        if_cases (Holds ns) (ltb ns 2000000)
          (λ h. (omega arith, inr (ground arith), inr (ground arith)))
          (λ h1.
            if_cases (Holds ns) (ltb ns 4000000)
              (λ h. (omega arith, inr (ground arith), inr (ground arith)))
              (λ h2.
                if_cases (Holds ns) (ltb ns 8000000)
                  (λ h. (omega arith, inr (ground arith), inr (ground arith)))
                  (λ h3.
                    if_cases (Holds ns) (ltb ns 16000000)
                      (λ h. (omega arith, inr (ground arith), inr (ground arith)))
                      (λ h4.
                        if_cases (Holds ns) (ltb ns 32000000)
                          (λ h. (omega arith, inr (ground arith), inr (ground arith)))
                          (λ h5.
                            if_cases (Holds ns) (ltb ns 64000000)
                              (λ h. (omega arith, inr (ground arith), inr (ground arith)))
                              (λ h6. (omega arith, inr (ground arith), inl (omega arith)))))))))
