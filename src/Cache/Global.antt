-- ===== src/Cache/Global.antt =====
-- The global cache operations of src/interpreter/cache_manager.cpp. The arena is an argument and a
-- result of its own, since the processes share it and each has a manager. A call is one step: the
-- locks of the shared map order the calls.
use vision_pipe.Base.{
  ℕ, Bool, true, false, not, ◌&&◌, ◌||◌, List, [], Option, none, some, ◌==◌, ltb, if◌then◌else◌,
  Bytes, map,
}
use vision_pipe.Base.Dict.{lookup, insert, erase, has_key}
use vision_pipe.Mats.{Mats}
use vision_pipe.Arena.Frames.{
  ShmArena, shm_arena_write, shm_arena_read, shm_arena_get_seq, shm_arena_record_read_latency,
}
use vision_pipe.Cache.Entry.{CacheEntry, CacheManager, touch, fresh_entry}

-- What a call leaves: its result, the manager and the arena.
pub record Got (M : Type 0) : Type 0 where
  pub mat : M
  pub cache : CacheManager M
  pub arena : ShmArena

module _ {M : Type 0} where
  unfoldable pub put_global : Bytes → CacheEntry M → CacheManager M → CacheManager M
  unfolding insert
  put_global id e c = record c { shared_global = insert id e c.shared_global }

  -- `entries[id]` before the slow path fills it: what is there, or a default entry.
  unfoldable pub from_shm : M → ℕ → Option (CacheEntry M) → CacheEntry M
  unfolding fresh_entry
  from_shm owned seq none = record (fresh_entry owned [] true) { shm_seq = seq; access_count = 1 }
  from_shm owned seq (some e) = record e {
    mat = owned;
    shm_seq = seq;
    is_global = true;
    access_count = 1;
  }

  unfoldable pub remove_global : Bytes → CacheManager M → CacheManager M
  unfolding erase
  remove_global id c = record c { shared_global = erase id c.shared_global }

  unfoldable pub clear_global : CacheManager M → CacheManager M
  clear_global c = record c { shared_global = [] }

  unfoldable pub get_global_ids : CacheManager M → List Bytes
  get_global_ids c = map (λ (x : Bytes × CacheEntry M). x.0) c.shared_global

  unfoldable pub has_global : Bytes → CacheManager M → ShmArena → Bool
  unfolding shm_arena_get_seq has_key
  has_global id c a =
      if c.has_arena && ltb 0 (shm_arena_get_seq id a) then true else has_key id c.shared_global

module _ {M : Type 0} (o : Mats M) where
  unfoldable pub set_global :
      Bytes → M → Bytes → ℕ → CacheManager M → ShmArena → CacheManager M × ShmArena
  unfolding put_global fresh_entry shm_arena_write
  set_global id mat source now c a = (
    put_global id (fresh_entry mat source true) c,
    if c.is_fork_child && c.has_arena && not (o.is_empty mat)
        then (shm_arena_write o id mat now a).1
        else a,
  )

  -- The in-process map.
  unfoldable pub from_map : Bytes → CacheManager M → ShmArena → Got M
  unfolding lookup put_global touch
  from_map id c a = elim (lookup id c.shared_global) [
    | some e ↦ record { mat = e.mat; cache = put_global id (touch e) c; arena = a }
    | none ↦ record { mat = o.no_mat; cache = c; arena = a }
  ]

  -- Whether the map's entry may be taken for the arena's frame: on the paths of the parent only with
  -- the same number, on those of a forked child also when this process has written it.
  unfoldable pub is_current : Bool → ℕ → Option (CacheEntry M) → Bool
  is_current is_parent seq none = false
  is_current is_parent seq (some e) =
      if is_parent then e.shm_seq == seq else e.shm_seq == 0 || e.shm_seq == seq

  -- The slow path: read the arena, count the latency on the parent's path, and write through.
  unfoldable pub from_arena : Bool → Bytes → ℕ → ℕ → CacheManager M → ShmArena → Got M
  unfolding from_map shm_arena_read shm_arena_record_read_latency put_global from_shm lookup
  from_arena is_parent id seq now c a = elim (shm_arena_read o id a) [
    | none ↦ from_map id c a
    | some mat ↦ record {
      mat = o.clone mat;
      cache = put_global id (from_shm (o.clone mat) seq (lookup id c.shared_global)) c;
      arena = if is_parent then shm_arena_record_read_latency id now a else a;
    }
  ]

  -- `getGlobal`; `now` is the clock that the latency is measured with.
  unfoldable pub get_global : Bytes → ℕ → CacheManager M → ShmArena → Got M
  unfolding from_arena from_map is_current shm_arena_get_seq lookup
  get_global id now c a =
      let seq = shm_arena_get_seq id a in
      if c.has_arena && ltb 0 seq
      then if is_current c.has_fork_children seq (lookup id c.shared_global)
        then from_map id c a
        else from_arena c.has_fork_children id seq now c a
      else from_map id c a
