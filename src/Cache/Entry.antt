-- ===== src/Cache/Entry.antt =====
-- The structs of include/interpreter/cache_manager.h.
use vision_pipe.Base.{ℕ, ◌+◌, ◌%◌, Bool, false, List, [], ◌∷◌, Bytes}
use vision_pipe.Arena.Throughput.{two_32}

pub record CacheEntry (M : Type 0) : Type 0 where
  pub mat : M
  pub source : Bytes
  pub timestamp : ℕ
  pub access_count : ℕ
  pub is_global : Bool
  pub shm_seq : ℕ

-- One map of names: a local scope, or the shared one.
abbrev pub Entries : Type 0 → Type 0
Entries M = List (Bytes × CacheEntry M)

-- `local_scopes` lists `_localScopes` from its back, the innermost scope, to its front. The flags and
-- the arena's handle are those of one process; `has_arena` is `_shmArena != nullptr`.
pub record CacheManager (M : Type 0) : Type 0 where
  pub shared_global : Entries M
  pub is_fork_child : Bool
  pub has_fork_children : Bool
  pub has_arena : Bool
  pub pending_shm_max_frame_bytes : ℕ
  pub pending_shm_max_slots : ℕ
  pub local_scopes : List (Entries M)

module _ {M : Type 0} where
  unfoldable pub new_cache : Entries M → CacheManager M
  new_cache shared = record {
    shared_global = shared;
    is_fork_child = false;
    has_fork_children = false;
    has_arena = false;
    pending_shm_max_frame_bytes = 0;
    pending_shm_max_slots = 0;
    local_scopes = [] ∷ [];
  }

  -- `accessCount++` on a 32-bit counter.
  unfoldable pub touch : CacheEntry M → CacheEntry M
  touch e = record e { access_count = (e.access_count + 1) % two_32 }

  unfoldable pub fresh_entry : M → Bytes → Bool → CacheEntry M
  fresh_entry mat source is_global = record {
    mat = mat;
    source = source;
    timestamp = 0;
    access_count = 0;
    is_global = is_global;
    shm_seq = 0;
  }

  unfoldable pub replace_global_data : Entries M → CacheManager M → CacheManager M
  replace_global_data shared c = record c { shared_global = shared }

  unfoldable pub set_fork_child : Bool → CacheManager M → CacheManager M
  set_fork_child v c = record c { is_fork_child = v }

  unfoldable pub set_has_fork_children : Bool → CacheManager M → CacheManager M
  set_has_fork_children v c = record c { has_fork_children = v }

  unfoldable pub set_shm_arena : Bool → CacheManager M → CacheManager M
  set_shm_arena v c = record c { has_arena = v }

  unfoldable pub set_pending_shm_config : ℕ → ℕ → CacheManager M → CacheManager M
  set_pending_shm_config bytes slots c = record c {
    pending_shm_max_frame_bytes = bytes;
    pending_shm_max_slots = slots;
  }
