-- ===== src/Params/Snapshot.antt =====
-- The interpreter's snapshot of the parameters (`refreshParamCache` in
-- src/interpreter/interpreter.cpp), which the store's generation counter invalidates.
use vision_pipe.Base.{
  ℕ, ◌≤◌, Option, some, none, Bool-cases, ==_iff, inl, inr, ◌+◌, ◌%◌, ◌<◌, List, [], ◌∷◌, ◌≡◌, refl,
  arith, ◌==◌, if◌then◌else◌, Bytes, length,
}
use vision_pipe.Params.Value.{Floats, ParamValue}
use vision_pipe.Params.Store.{
  ParameterStore, uint64_mod, empty_store, bump, declare, set, set_from_string, subscribe,
  unsubscribe,
}
use vision_pipe.Params.Laws.{Call, declares, sets, sets_text, subscribes, unsubscribes, step}

-- `_paramCache` and `_paramCacheGen`.
pub record ParamCache (D : Type 0) : Type 0 where
  pub entries : List (Bytes × ParamValue D)
  pub cache_gen : ℕ

unfoldable pub cleared_cache : {D : Type 0} → ParamCache D
cleared_cache = record { entries = []; cache_gen = 0 }

unfoldable pub refresh_param_cache :
    {D Cb : Type 0} → ParameterStore D Cb → ParamCache D → ParamCache D
refresh_param_cache st cache =
    if st.gen == cache.cache_gen then cache else record { entries = st.values; cache_gen = st.gen }

module _ {D Cb : Type 0} (fl : Floats D) where
  -- The store is `k` changes ahead of the cache, and if it is not ahead the cache is up to date.
  record Behind (k : ℕ) (st : ParameterStore D Cb) (cache : ParamCache D) : Type 0 where
    in_range : cache.cache_gen < uint64_mod
    ahead : st.gen ≡ (cache.cache_gen + k) % uint64_mod
    current : k ≡ 0 → cache.entries ≡ st.values

  change-Behind :
      (k : ℕ) (st st' : ParameterStore D Cb) (cache : ParamCache D)
      → st'.gen ≡ (st.gen + 1) % uint64_mod
      → Behind k st cache
      → Behind (k + 1) st' cache
  change-Behind k st st' cache e b = record {
    in_range = b.in_range;
    ahead = omega (arith, b.ahead);
    current = λ z. absurd (omega arith);
  }

  -- A call leaves the store ahead by at most one change more.
  abbrev AtMost : ℕ → ParameterStore D Cb → ParamCache D → Type 0
  AtMost n st cache = (k : ℕ) × (k ≤ n) × Behind k st cache

  step-AtMost :
      (c : Call D Cb) (n : ℕ) (st : ParameterStore D Cb) (cache : ParamCache D)
      → AtMost n st cache
      → AtMost (n + 1) (step fl c st) cache
  unfolding step declare set set_from_string subscribe unsubscribe bump
  step-AtMost (declares m ty v) n st cache (k, h, b) =
      (k + 1, omega arith, change-Behind k st _ cache refl b)
  step-AtMost (sets m v) n st cache (k, h, b) =
      (k + 1, omega arith, change-Behind k st _ cache refl b)
  step-AtMost (sets_text m raw) n st cache (k, h, b) =
      (k + 1, omega arith, change-Behind k st _ cache refl b)
  step-AtMost (subscribes m cb) n st cache (k, h, b) =
      (k, omega arith, record { in_range = b.in_range; ahead = b.ahead; current = b.current })
  step-AtMost (unsubscribes id) n st cache (k, h, b) =
      (k, omega arith, record { in_range = b.in_range; ahead = b.ahead; current = b.current })

  refresh-current :
      (k : ℕ) (st : ParameterStore D Cb) (cache : ParamCache D)
      → k < uint64_mod
      → Behind k st cache
      → ((refresh_param_cache st cache).entries ≡ st.values)
        × Behind 0 st (refresh_param_cache st cache)
  unfolding refresh_param_cache
  refresh-current k st cache h b = elim (Bool-cases (st.gen == cache.cache_gen)) [
    | inl e ↦
        let z : k ≡ 0 =
          omega (arith, h, b.ahead, b.in_range, (==_iff st.gen cache.cache_gen).0 e) in
        rw e (
          b.current z,
          record {
            in_range = b.in_range;
            ahead = omega (arith, b.ahead, z);
            current = λ _. b.current z;
          },
        )
    | inr e ↦ rw e (
      refl,
      record {
        in_range = omega (arith, b.ahead);
        ahead = omega (arith, b.ahead);
        current = λ z. refl;
      },
    )
  ]

  start-Behind : Behind 0 empty_store cleared_cache
  unfolding empty_store cleared_cache
  start-Behind = record { in_range = omega arith; ahead = omega arith; current = λ z. refl }

  -- The store and the interpreter take turns: a call on the store, or a refresh (`none`).
  unfoldable pub run_turns :
      List (Option (Call D Cb))
      → ParameterStore D Cb × ParamCache D
      → ParameterStore D Cb × ParamCache D
  run_turns [] s = s
  run_turns (some c ∷ es) (st, cache) = run_turns es (step fl c st, cache)
  run_turns (none ∷ es) (st, cache) = run_turns es (st, refresh_param_cache st cache)

  run_turns-AtMost :
      (es : List (Option (Call D Cb))) (n : ℕ) (st : ParameterStore D Cb) (cache : ParamCache D)
      → n + length es < uint64_mod
      → AtMost n st cache
      → AtMost (n + length es) (run_turns es (st, cache)).0 (run_turns es (st, cache)).1
  unfolding run_turns
  run_turns-AtMost [] n st cache h (k, l, b) = (k, omega arith, b)
  run_turns-AtMost (some c ∷ es) n st cache h a =
      let (k, l, b) =
        run_turns-AtMost es (n + 1) (step fl c st) cache (omega arith)
          (step-AtMost c n st cache a) in
      (k, omega arith, b)
  run_turns-AtMost (none ∷ es) n st cache h (k, l, b) =
      let m = refresh_param_cache st cache in
      let fresh : AtMost n st m =
        (0, omega arith, (refresh-current k st cache (omega arith) b).1) in
      let (k', l', b') = run_turns-AtMost es n st m (omega arith) fresh in (k', omega arith, b')

  -- From a new store and a cleared snapshot, after fewer than 2 ^ 64 calls and refreshes in any
  -- order, a refresh leaves the snapshot with exactly the store's values.
  pub refresh-run_turns :
      (es : List (Option (Call D Cb)))
      → length es < uint64_mod
      → (let s = run_turns es (empty_store, cleared_cache) in
          (refresh_param_cache s.0 s.1).entries ≡ s.0.values)
  refresh-run_turns es h =
      let (k, l, b) =
        run_turns-AtMost es 0 empty_store cleared_cache (omega arith)
          (0, omega arith, start-Behind) in
      (refresh-current k _ _ (omega arith) b).0
