-- ===== src/Params/Store.antt =====
-- `ParameterStore` of src/interpreter/param_store.cpp. Each call is one step here, as if it ran alone:
-- the code bumps `_gen` after it has released the lock over the maps, and setFromString takes the
-- lock once to read the declared type and once in set. What another thread sees between these is not
-- modelled. A callback is an abstract `Cb`: `set`
-- returns the calls that `notifyListeners` makes, in their order. The 64-bit counters wrap.
use vision_pipe.Base.{
  ℕ, ◌+◌, ◌%◌, Bool, not, ◌||◌, true, List, [], ◌∷◌, ◌++◌, Option, none, some, ◌==◌, if◌then◌else◌,
  Bytes, bytes, eq_bytes, map, keep,
}
use vision_pipe.Base.Dict.{lookup, insert, has_key}
use vision_pipe.Params.Value.{
  ParamType, Floats, ParamValue, null_value, coerce, to_wire_string, from_wire_string,
}

abbrev pub uint64_mod : ℕ
uint64_mod = 18446744073709551616

pub record ParamDescriptor (D : Type 0) : Type 0 where
  pub name : Bytes
  pub type : ParamType
  pub default_value : ParamValue D
  pub has_default : Bool

pub record ParamChangeEvent (D : Type 0) : Type 0 where
  pub name : Bytes
  pub old_value : ParamValue D
  pub new_value : ParamValue D

-- The empty name stands for all parameters.
pub record Listener (Cb : Type 0) : Type 0 where
  pub id : ℕ
  pub name : Bytes
  pub cb : Cb

pub record ParameterStore (D : Type 0) (Cb : Type 0) : Type 0 where
  pub descriptors : List (Bytes × ParamDescriptor D)
  pub values : List (Bytes × ParamValue D)
  pub listeners : List (Listener Cb)
  pub next_listener_id : ℕ
  pub gen : ℕ

unfoldable pub empty_store : {D Cb : Type 0} → ParameterStore D Cb
empty_store = record {
  descriptors = [];
  values = [];
  listeners = [];
  next_listener_id = 1;
  gen = 0;
}

abbrev param_ordinal : ParamType → ℕ
param_ordinal ParamType.int = 0
param_ordinal ParamType.float = 1
param_ordinal ParamType.string = 2
param_ordinal ParamType.bool = 3
param_ordinal ParamType.unknown = 4

-- `existing.type != type`.
unfoldable pub same_param_type : ParamType → ParamType → Bool
same_param_type s t = param_ordinal s == param_ordinal t

module _ {Cb : Type 0} where
  unfoldable pub listens : Bytes → Listener Cb → Bool
  unfolding eq_bytes
  listens name l = eq_bytes l.name [] || eq_bytes l.name name

module _ {D : Type 0} (fl : Floats D) where
  -- The value that stays in the map when a parameter is declared.
  unfoldable pub declared_value : ParamType → ParamValue D → Option (ParamValue D) → ParamValue D
  unfolding same_param_type
  declared_value ty default_value none = default_value
  declared_value ty default_value (some existing) =
      if same_param_type existing.type ty then existing else coerce fl ty existing

  -- `toJson` over the entries in the order in which the map is walked.
  unfoldable pub json_entry : Bytes × ParamValue D → Bytes
  json_entry (name, v) = b'"' ∷ (name ++ (b'"' ∷ b':' ∷ to_wire_string fl v))

  unfoldable pub json_rest : List (Bytes × ParamValue D) → Bytes
  json_rest [] = []
  json_rest (e ∷ es) = b',' ∷ (json_entry e ++ json_rest es)

  unfoldable pub json_entries : List (Bytes × ParamValue D) → Bytes
  unfolding json_rest json_entry
  json_entries [] = []
  json_entries (e ∷ es) = json_entry e ++ json_rest es

module _ {D Cb : Type 0} where
  unfoldable pub declared_type : Bytes → ParameterStore D Cb → ParamType
  unfolding lookup
  declared_type name st = elim (lookup name st.descriptors) [
    | none ↦ ParamType.unknown
    | some d ↦ d.type
  ]

  unfoldable pub is_declared : Bytes → ParameterStore D Cb → Bool
  unfolding has_key
  is_declared name st = has_key name st.descriptors

  unfoldable pub get : Bytes → ParameterStore D Cb → ParamValue D
  unfolding lookup
  get name st = elim (lookup name st.values) [ none ↦ null_value | some v ↦ v ]

  unfoldable pub has : Bytes → ParameterStore D Cb → Bool
  unfolding has_key
  has name st = has_key name st.values

  unfoldable pub bump : ParameterStore D Cb → ParameterStore D Cb
  bump st = record st { gen = (st.gen + 1) % uint64_mod }

  -- `subscribe`; `subscribeAll` is the empty name.
  unfoldable pub subscribe : Bytes → Cb → ParameterStore D Cb → ℕ × ParameterStore D Cb
  subscribe name cb st = (
    st.next_listener_id,
    record st {
      listeners = st.listeners ++ (record { id = st.next_listener_id; name = name; cb = cb } ∷ []);
      next_listener_id = (st.next_listener_id + 1) % uint64_mod;
    },
  )

  unfoldable pub subscribe_all : Cb → ParameterStore D Cb → ℕ × ParameterStore D Cb
  unfolding subscribe
  subscribe_all = subscribe []

  unfoldable pub unsubscribe : ℕ → ParameterStore D Cb → ParameterStore D Cb
  unsubscribe id st = record st { listeners = keep (λ l. not (l.id == id)) st.listeners }

  unfoldable pub notify_listeners :
      ParamChangeEvent D → List (Listener Cb) → List (Cb × ParamChangeEvent D)
  unfolding listens
  notify_listeners evt ls = map (λ l. (l.cb, evt)) (keep (listens evt.name) ls)

  module _ (fl : Floats D) where
    unfoldable pub declare :
        Bytes → ParamType → ParamValue D → ParameterStore D Cb → ParameterStore D Cb
    unfolding declared_value bump
    declare name ty default_value st = bump (record st {
      descriptors =
          insert name
            (record { name = name; type = ty; default_value = default_value; has_default = true })
            st.descriptors;
      values = insert name (declared_value fl ty default_value (lookup name st.values)) st.values;
    })

    -- The calls of the listeners are returned beside the new store.
    unfoldable pub set :
        Bytes
        → ParamValue D
        → ParameterStore D Cb
        → ParameterStore D Cb × List (Cb × ParamChangeEvent D)
    unfolding declared_type get bump notify_listeners
    set name value st =
        let v = coerce fl (declared_type name st) value in
        (
          bump (record st { values = insert name v st.values }),
          notify_listeners (record { name = name; old_value = get name st; new_value = v })
              st.listeners,
        )

    unfoldable pub set_from_string :
        Bytes → Bytes → ParameterStore D Cb → ParameterStore D Cb × List (Cb × ParamChangeEvent D)
    unfolding set
    set_from_string name raw st = set name (from_wire_string fl raw (declared_type name st)) st

    unfoldable pub to_json : ParameterStore D Cb → Bytes
    unfolding json_entries
    to_json st = b'{' ∷ (json_entries fl st.values ++ b'}' ∷ [])

    unfoldable pub param_to_json : Bytes → ParameterStore D Cb → Bytes
    unfolding get
    param_to_json name st =
        bytes "{\"name\":\""
        ++ (name ++ (bytes "\",\"value\":" ++ (to_wire_string fl (get name st) ++ b'}' ∷ [])))
