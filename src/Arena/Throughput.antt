-- ===== src/Arena/Throughput.antt =====
-- The throughput table of the arena in src/utils/shm_zero_copy.cpp.
use vision_pipe.Base.{
  ℕ, ◌+◌, ◌%◌, Bool, ◌&&◌, List, [], ◌∷◌, Option, none, some, ◌==◌, ltb, if◌then◌else◌, Bytes,
  eq_bytes,
}
use vision_pipe.Arena.Slots.{slot_key}

-- `UINT64_MAX`.
abbrev pub uint64_max : ℕ
uint64_max = 18446744073709551615

abbrev pub two_64 : ℕ
two_64 = 18446744073709551616

abbrev pub two_32 : ℕ
two_32 = 4294967296

pub record ShmThroughputSlot : Type 0 where
  pub call_count : ℕ
  pub total_ns : ℕ
  pub min_ns : ℕ
  pub max_ns : ℕ
  pub active : ℕ
  pub name : Bytes
  pub lat_buckets : ℕ → ℕ

unfoldable pub free_tput : ShmThroughputSlot
free_tput = record {
  call_count = 0;
  total_ns = 0;
  min_ns = uint64_max;
  max_ns = 0;
  active = 0;
  name = [];
  lat_buckets = λ b. 0;
}

unfoldable pub shm_latency_bucket : ℕ → ℕ
shm_latency_bucket ns =
    if ltb ns 1000000
    then 0
    else if ltb ns 2000000
    then 1
    else if ltb ns 4000000
    then 2
    else if ltb ns 8000000
    then 3
    else if ltb ns 16000000
    then 4
    else if ltb ns 32000000
    then 5
    else if ltb ns 64000000
    then 6
    else 7

-- The counters of `shmArenaRecordThroughput`; the two retry loops leave the smaller and the larger
-- value, since nothing else writes in between.
unfoldable pub count_sample : ℕ → ShmThroughputSlot → ShmThroughputSlot
unfolding shm_latency_bucket
count_sample ns s = record s {
  call_count = (s.call_count + 1) % two_64;
  total_ns = (s.total_ns + ns) % two_64;
  min_ns = if ltb ns s.min_ns then ns else s.min_ns;
  max_ns = if ltb s.max_ns ns then ns else s.max_ns;
  lat_buckets =
      λ b. if b == shm_latency_bucket ns then (s.lat_buckets b + 1) % two_32 else s.lat_buckets b;
}

unfoldable pub is_tput : Bytes → ShmThroughputSlot → Bool
unfolding slot_key
is_tput name s = (s.active == 2) && eq_bytes (slot_key s.name) (slot_key name)

-- `findTputSlot` without and with `create`, and the samples it is called for.
unfoldable pub count_ready : Bytes → ℕ → List ShmThroughputSlot → Option (List ShmThroughputSlot)
unfolding is_tput count_sample
count_ready name ns [] = none
count_ready name ns (s ∷ slots) =
    let rest = count_ready name ns slots in
    if is_tput name s
    then some (count_sample ns s ∷ slots)
    else elim rest [ none ↦ none | some slots' ↦ some (s ∷ slots') ]

unfoldable pub count_free : Bytes → ℕ → List ShmThroughputSlot → List ShmThroughputSlot
unfolding slot_key count_sample
count_free name ns [] = []
count_free name ns (s ∷ slots) =
    let rest = count_free name ns slots in
    if s.active == 0
    then count_sample ns (record s { active = 2; name = slot_key name }) ∷ slots
    else s ∷ rest

unfoldable pub record_sample : Bytes → ℕ → List ShmThroughputSlot → List ShmThroughputSlot
unfolding count_ready count_free
record_sample name ns slots = elim (count_ready name ns slots) [
  | some slots' ↦ slots'
  | none ↦ count_free name ns slots
]

pub record ShmThroughputData : Type 0 where
  pub name : Bytes
  pub call_count : ℕ
  pub total_ns : ℕ
  pub min_ns : ℕ
  pub max_ns : ℕ
  pub lat_buckets : ℕ → ℕ

-- `shmArenaReadThroughput`.
unfoldable pub read_throughput : List ShmThroughputSlot → List ShmThroughputData
read_throughput [] = []
read_throughput (s ∷ slots) =
    let rest = read_throughput slots in
    let d : ShmThroughputData = record {
      name = s.name;
      call_count = s.call_count;
      total_ns = s.total_ns;
      min_ns = s.min_ns;
      max_ns = s.max_ns;
      lat_buckets = s.lat_buckets;
    } in
    if s.active == 2 then d ∷ rest else rest
