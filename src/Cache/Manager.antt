-- ===== src/Cache/Manager.antt =====
-- The unified operations, the numeric keys and the statistics of src/interpreter/cache_manager.cpp.
use vision_pipe.Base.{
  ℕ, ◌+◌, Bool, not, ◌||◌, List, [], ◌∷◌, ◌++◌, Option, none, some, if◌then◌else◌, Bytes, bytes,
  length,
}
use vision_pipe.Base.Dict.{lookup}
use vision_pipe.Base.Decimal.{show_nat}
use vision_pipe.Mats.{Mats}
use vision_pipe.Arena.Frames.{ShmArena}
use vision_pipe.Cache.Entry.{CacheEntry, Entries, CacheManager}
use vision_pipe.Cache.Scopes.{set_local, find_local, has_local, get_local}
use vision_pipe.Cache.Global.{Got, set_global, get_global, has_global}

pub record Stats : Type 0 where
  pub global_entry_count : ℕ
  pub local_entry_count : ℕ
  pub scope_depth : ℕ
  pub total_memory_bytes : ℕ

unfoldable pub num_key : ℕ → Bytes
unfolding show_nat
num_key key = bytes "__num_" ++ show_nat key

module _ {M : Type 0} (o : Mats M) where
  unfoldable pub set :
      Bytes → M → Bool → Bytes → ℕ → CacheManager M → ShmArena → CacheManager M × ShmArena
  unfolding set_global set_local
  set id mat is_global source now c a =
      if is_global then set_global o id mat source now c a else (set_local id mat source c, a)

  -- An empty local Mat counts as a miss.
  unfoldable pub get : Bytes → ℕ → CacheManager M → ShmArena → Got M
  unfolding get_local get_global
  get id now c a =
      let l = get_local o id c in
      if not (o.is_empty l.0)
      then record { mat = l.0; cache = l.1; arena = a }
      else get_global o id now l.1 a

  unfoldable pub estimate_mat_memory : M → ℕ
  estimate_mat_memory mat = if o.is_empty mat then 0 else o.byte_size mat

  unfoldable pub entries_memory : Entries M → ℕ
  unfolding estimate_mat_memory
  entries_memory [] = 0
  entries_memory ((id, e) ∷ m) = estimate_mat_memory e.mat + entries_memory m

  unfoldable pub scopes_memory : List (Entries M) → ℕ
  unfolding entries_memory
  scopes_memory [] = 0
  scopes_memory (scope ∷ scopes) = entries_memory scope + scopes_memory scopes

module _ {M : Type 0} where
  unfoldable pub has : Bytes → CacheManager M → ShmArena → Bool
  unfolding has_local has_global
  has id c a = has_local id c.local_scopes || has_global id c a

  unfoldable pub get_entry : Bytes → CacheManager M → Option (CacheEntry M)
  unfolding find_local lookup
  get_entry id c = elim (find_local id c.local_scopes) [
    | some e ↦ some e
    | none ↦ lookup id c.shared_global
  ]

  unfoldable pub set_num : ℕ → M → CacheManager M → CacheManager M
  unfolding set_local num_key
  set_num key mat c = set_local (num_key key) mat [] c

  unfoldable pub get_num : Mats M → ℕ → ℕ → CacheManager M → ShmArena → Got M
  unfolding get num_key
  get_num o key now c a = get o (num_key key) now c a

  unfoldable pub has_num : ℕ → CacheManager M → ShmArena → Bool
  unfolding has num_key
  has_num key c a = has (num_key key) c a

  unfoldable pub count_entries : List (Entries M) → ℕ
  count_entries [] = 0
  count_entries (scope ∷ scopes) = length scope + count_entries scopes

  unfoldable pub get_stats : Mats M → CacheManager M → Stats
  unfolding entries_memory scopes_memory count_entries
  get_stats o c = record {
    global_entry_count = length c.shared_global;
    local_entry_count = count_entries c.local_scopes;
    scope_depth = length c.local_scopes;
    total_memory_bytes = entries_memory o c.shared_global + scopes_memory o c.local_scopes;
  }
