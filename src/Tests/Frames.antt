-- ===== src/Tests/Frames.antt =====
-- The cache and the arena on concrete frames.
use vision_pipe.Base.{
  inr, ℕ, zero, suc, ◌+◌, ◌<◌, Bool, true, false, List, [], ◌∷◌, ◌++◌, none, some, ◌≡◌, ◌≢◌, ◌↔◌,
  refl, ap, arith, Bytes, bytes, eq_bytes, length, All, if◌then◌else◌,
}
use vision_pipe.Base.Dict.{lookup}
use vision_pipe.Mats.{Mats, IsLawful}
use vision_pipe.Arena.Slots.{ShmSlotHeader, free_slot, create_slot, slot_key}
use vision_pipe.Arena.Throughput.{shm_latency_bucket}
use vision_pipe.Arena.Frames.{
  ShmArena, shm_arena_create, run_stores, put_frame_stores, put_frame, shm_arena_write, slot_frame,
  shm_arena_read, shm_arena_get_seq,
}
use vision_pipe.Arena.Lookup.{same_key}
use vision_pipe.Arena.Laws.{IsSlot, write-read, write-read_other}
use vision_pipe.Arena.Room.{has_free, shm_arena_write-has_free}
use vision_pipe.Arena.Buckets.{Holds, shm_latency_bucket-bounds}
use vision_pipe.Arena.Follows.{Follows, write-Follows}
use vision_pipe.Arena.Race.{first, put_frame-buffers, put_frame-stale}
use vision_pipe.Cache.Entry.{CacheManager, new_cache}
use vision_pipe.Cache.Scopes.{push_scope, pop_scope, set_local, get_local, find_local, has_local}
use vision_pipe.Cache.Global.{get_global, set_global}
use vision_pipe.Cache.Coherence.{IsCoherent, get_global-read}
use vision_pipe.Cache.Sharing.{get_global-IsCoherent, set_global-IsCoherent, get_global-write}
use vision_pipe.Cache.Manager.{set, get}
use vision_pipe.Cache.Unified.{get-set_mat}
use vision_pipe.Cache.ScopeLaws.{
  LocalCall, set_call, clear_call, push_call, run, IsScoped, IsInner, get_local-set_local,
  has_local-find_local, run-new_IsScoped, pop-run_push,
}

-- A Mat of one row of bytes.
abbrev take : ℕ → Bytes → Bytes
take zero bs = []
take (suc n) [] = []
take (suc n) (b ∷ bs) = b ∷ take n bs

abbrev is_nil : Bytes → Bool
is_nil [] = true
is_nil (b ∷ bs) = false

abbrev row_mats : Mats Bytes
row_mats = record {
  no_mat = [];
  is_empty = is_nil;
  rows = λ m. 1;
  cols = length;
  mat_type = λ m. 0;
  byte_size = length;
  pixels = λ m. m;
  wrap = λ rows cols ty data_. take cols data_;
  clone = λ m. m;
}

take-append : (m rest : Bytes) → take (length m) (m ++ rest) ≡ m
take-append [] rest = refl
take-append (b ∷ m) rest = ap (λ x. b ∷ x) (take-append m rest)

row_mats-IsLawful : IsLawful row_mats
row_mats-IsLawful = record {
  wraps = λ m rest h. take-append m rest;
  clones = λ m. refl;
  empties = refl;
}

abbrev frame : Bytes
frame = bytes "pixels"

abbrev left : Bytes
left = bytes "frame_l"

abbrev right : Bytes
right = bytes "frame_r"

abbrev arena : ShmArena
arena = shm_arena_create 2 64

free_slot-IsSlot : IsSlot free_slot
unfolding free_slot
free_slot-IsSlot = record { unwritten = λ h. refl; below = omega arith }

arena-IsSlot : All IsSlot arena.slots
unfolding shm_arena_create
arena-IsSlot = (free_slot-IsSlot, (free_slot-IsSlot, tt))

arena-takes : (shm_arena_write row_mats left frame 5 arena).0 ≡ true
unfolding shm_arena_write shm_arena_create create_slot
arena-takes = refl

shm_arena_write-has_free_example : (shm_arena_write row_mats left frame 5 arena).0 ≡ true
unfolding shm_arena_create free_slot has_free
shm_arena_write-has_free_example =
    shm_arena_write-has_free row_mats left frame 5 arena refl (omega arith) (inr refl)

write-read_example :
    (shm_arena_read row_mats left (shm_arena_write row_mats left frame 5 arena).1 ≡ some frame)
    × (shm_arena_get_seq left (shm_arena_write row_mats left frame 5 arena).1
        ≡ shm_arena_get_seq left arena + 1)
write-read_example =
    write-read row_mats left frame 5 arena row_mats-IsLawful arena-IsSlot arena-takes

write-read_other_example :
    (shm_arena_read row_mats right (shm_arena_write row_mats left frame 5 arena).1
      ≡ shm_arena_read row_mats right arena)
    × (shm_arena_get_seq right (shm_arena_write row_mats left frame 5 arena).1
        ≡ shm_arena_get_seq right arena)
unfolding same_key slot_key eq_bytes
write-read_other_example = write-read_other row_mats left right frame 5 arena refl

write-Follows_example : Follows row_mats arena (shm_arena_write row_mats left frame 5 arena).1 right
write-Follows_example =
    write-Follows row_mats left right frame 5 arena row_mats-IsLawful arena-IsSlot

abbrev slot : ShmSlotHeader
slot = record {
  write_seq = 4;
  write_idx = 2;
  active = 2;
  width = 6;
  height = 1;
  frame_type = 0;
  frame_bytes = 6;
  name = left;
  last_write_ns = 9;
  buffers = λ i. bytes "before";
}

put_frame-buffers_example :
    ((put_frame row_mats frame 5 slot).buffers slot.write_idx ≡ slot.buffers slot.write_idx)
    × ((put_frame row_mats frame 6 (put_frame row_mats frame 5 slot)).buffers slot.write_idx
        ≡ slot.buffers slot.write_idx)
put_frame-buffers_example = put_frame-buffers row_mats frame frame 5 6 slot (omega arith)

put_frame-stale_example :
    (let mid = run_stores (first 2 (put_frame_stores row_mats frame 5)) slot in
      (mid.write_seq ≡ 4 + 1)
      × (mid.write_seq ≡ (put_frame row_mats frame 5 slot).write_seq)
      × (slot_frame row_mats mid
          ≡ some (
              row_mats.wrap
                (row_mats.rows frame)
                (row_mats.cols frame)
                (row_mats.mat_type frame)
                (slot.buffers slot.write_idx))))
put_frame-stale_example = put_frame-stale row_mats frame 5 slot (omega arith) (omega arith)

abbrev parent : CacheManager Bytes
parent = record {
  shared_global = [];
  is_fork_child = false;
  has_fork_children = true;
  has_arena = true;
  pending_shm_max_frame_bytes = 0;
  pending_shm_max_slots = 0;
  local_scopes = [] ∷ [];
}

parent-IsCoherent : (a : ShmArena) → IsCoherent row_mats parent a
unfolding IsCoherent lookup
parent-IsCoherent a id e k = absurd (ground arith)

abbrev written : ShmArena
written = (shm_arena_write row_mats left frame 5 arena).1

written-seq : 0 < shm_arena_get_seq left written
written-seq =
    let s = write-read row_mats left frame 5 arena row_mats-IsLawful arena-IsSlot arena-takes in
    omega (arith, s.1)

get_global-read_example :
    shm_arena_read row_mats left written ≡ some (get_global row_mats left 7 parent written).mat
get_global-read_example =
    get_global-read row_mats left 7 parent written row_mats-IsLawful (parent-IsCoherent written)
      refl refl written-seq

get_global-IsCoherent_example :
    IsCoherent row_mats
      (get_global row_mats left 7 parent written).cache
      (get_global row_mats left 7 parent written).arena
get_global-IsCoherent_example =
    get_global-IsCoherent row_mats left 7 parent written row_mats-IsLawful
      (parent-IsCoherent written)

set_global-IsCoherent_example :
    (let r = set_global row_mats right frame [] 7 parent arena in IsCoherent row_mats r.0 r.1)
set_global-IsCoherent_example =
    set_global-IsCoherent row_mats right frame [] 7 parent arena row_mats-IsLawful arena-IsSlot
      (parent-IsCoherent arena)

get_global-write_example :
    (get_global row_mats left 7 parent (shm_arena_write row_mats left frame 5 arena).1).mat ≡ frame
get_global-write_example =
    get_global-write row_mats left frame 5 7 parent arena row_mats-IsLawful arena-IsSlot
      (parent-IsCoherent arena) refl refl arena-takes

abbrev cache : CacheManager Bytes
cache = set_local left frame [] (new_cache [])

get_local-set_local_example :
    (get_local row_mats right (set_local left (bytes "new") [] cache)).0
    ≡ (if eq_bytes left right then bytes "new" else (get_local row_mats right cache).0)
get_local-set_local_example = get_local-set_local row_mats left right [] (bytes "new") cache

has_local-find_local_example :
    (has_local left cache.local_scopes ≡ true) ↔ (find_local left cache.local_scopes ≢ none)
has_local-find_local_example = has_local-find_local left cache.local_scopes

abbrev calls : List (LocalCall Bytes)
calls = set_call left (bytes "inner") [] ∷ clear_call ∷ set_call right frame [] ∷ []

run-new_IsScoped_example : IsScoped (run (push_call ∷ calls) (new_cache []))
run-new_IsScoped_example = run-new_IsScoped (push_call ∷ calls) []

cache-IsScoped : IsScoped cache
unfolding IsScoped set_local new_cache
cache-IsScoped = omega arith

pop-run_push_example : pop_scope (run calls (push_scope cache).1) ≡ cache
unfolding IsInner
pop-run_push_example = pop-run_push calls cache (tt, (tt, (tt, tt))) cache-IsScoped

get-set_mat_example :
    (let r = set row_mats left frame true [] 7 (new_cache []) arena in
      get row_mats left 7 r.0 r.1).mat
    ≡ frame
unfolding new_cache find_local
get-set_mat_example =
    get-set_mat row_mats left frame true [] 7 (new_cache []) arena row_mats-IsLawful refl refl
      (λ e. refl)

shm_latency_bucket-bounds_example : Holds 5000000 (shm_latency_bucket 5000000)
shm_latency_bucket-bounds_example = shm_latency_bucket-bounds 5000000
