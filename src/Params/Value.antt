-- ===== src/Params/Value.antt =====
-- `ParamType` and `ParamValue` of src/interpreter/param_store.cpp. A `double` is an abstract type
-- `D`, with the conversions of the language and of the standard library as a record.
use vision_pipe.Base.{
  ℕ, Bool, true, false, not, ◌||◌, [], ◌∷◌, ◌++◌, Option, none, some, ◌==◌, if◌then◌else◌, Bytes,
  bytes, eq_bytes,
}
use vision_pipe.Base.Decimal.{ℤ, pos, negsuc, to_string, stoll}

pub data ParamType : Type 0 where
  int float string bool unknown : ParamType

unfoldable pub param_type_to_string : ParamType → Bytes
param_type_to_string ParamType.int = bytes "int"
param_type_to_string ParamType.float = bytes "float"
param_type_to_string ParamType.string = bytes "string"
param_type_to_string ParamType.bool = bytes "bool"
param_type_to_string ParamType.unknown = bytes "unknown"

unfoldable pub param_type_from_string : Bytes → ParamType
unfolding eq_bytes
param_type_from_string s =
    if eq_bytes s (bytes "int") || eq_bytes s (bytes "integer")
    then ParamType.int
    else if eq_bytes s (bytes "float") || eq_bytes s (bytes "double")
    then ParamType.float
    else if eq_bytes s (bytes "string") || eq_bytes s (bytes "str")
    then ParamType.string
    else if eq_bytes s (bytes "bool") || eq_bytes s (bytes "boolean")
    then ParamType.bool
    else ParamType.unknown

-- What the store uses of `double`: the two casts, the test against 0.0, `std::stod` (with the
-- bytes that it leaves, `none` for its exceptions), `std::to_string` and `operator<<`.
pub record Floats (D : Type 0) : Type 0 where
  pub of_int : ℤ → D
  pub to_int : D → ℤ
  pub is_zero : D → Bool
  pub stod : Bytes → Option (D × Bytes)
  pub show : D → Bytes
  pub print : D → Bytes

pub data Storage (D : Type 0) : Type 0 where
  monostate : Storage D
  int64 : ℤ → Storage D
  double : D → Storage D
  text : Bytes → Storage D
  boolean : Bool → Storage D

pub record ParamValue (D : Type 0) : Type 0 where
  pub storage : Storage D
  pub type : ParamType

module _ {D : Type 0} where
  -- The constructors.
  abbrev pub null_value : ParamValue D
  null_value = record { storage = monostate; type = ParamType.unknown }

  abbrev pub int_value : ℤ → ParamValue D
  int_value i = record { storage = int64 i; type = ParamType.int }

  abbrev pub float_value : D → ParamValue D
  float_value d = record { storage = double d; type = ParamType.float }

  abbrev pub string_value : Bytes → ParamValue D
  string_value s = record { storage = text s; type = ParamType.string }

  abbrev pub bool_value : Bool → ParamValue D
  bool_value b = record { storage = boolean b; type = ParamType.bool }

unfoldable pub is_true_text : Bytes → Bool
unfolding eq_bytes
is_true_text s = eq_bytes s (bytes "true") || eq_bytes s (bytes "1") || eq_bytes s (bytes "yes")

pub is_zero_int : ℤ → Bool
is_zero_int (pos n) = n == 0
is_zero_int (negsuc n) = false

abbrev pub bool_text : Bool → Bytes
bool_text b = if b then bytes "true" else bytes "false"

module _ {D : Type 0} (fl : Floats D) where
  unfoldable pub as_int : Storage D → ℤ
  as_int monostate = pos 0
  as_int (int64 i) = i
  as_int (double d) = fl.to_int d
  as_int (boolean b) = if b then pos 1 else pos 0
  as_int (text s) = elim (stoll s) [ none ↦ pos 0 | some (i, rest) ↦ i ]

  unfoldable pub as_float : Storage D → D
  as_float monostate = fl.of_int (pos 0)
  as_float (int64 i) = fl.of_int i
  as_float (double d) = d
  as_float (boolean b) = if b then fl.of_int (pos 1) else fl.of_int (pos 0)
  as_float (text s) = elim (fl.stod s) [ none ↦ fl.of_int (pos 0) | some (d, rest) ↦ d ]

  unfoldable pub as_string : Storage D → Bytes
  as_string monostate = []
  as_string (int64 i) = to_string i
  as_string (double d) = fl.show d
  as_string (boolean b) = bool_text b
  as_string (text s) = s

  unfoldable pub as_bool : Storage D → Bool
  unfolding is_true_text is_zero_int
  as_bool monostate = false
  as_bool (int64 i) = not (is_zero_int i)
  as_bool (double d) = not (fl.is_zero d)
  as_bool (boolean b) = b
  as_bool (text s) = is_true_text s

  -- The `switch` over the declared type in `set` and `declare`.
  unfoldable pub coerce : ParamType → ParamValue D → ParamValue D
  unfolding as_int as_float as_string as_bool
  coerce ParamType.int v = int_value (as_int v.storage)
  coerce ParamType.float v = float_value (as_float v.storage)
  coerce ParamType.string v = string_value (as_string v.storage)
  coerce ParamType.bool v = bool_value (as_bool v.storage)
  coerce ParamType.unknown v = v

-- The wire form.
unfoldable pub wire_byte : ℕ → Bytes
wire_byte c =
    if c == b'"'
    then b'\\' ∷ b'"' ∷ []
    else if c == b'\\'
    then b'\\' ∷ b'\\' ∷ []
    else if c == b'\n'
    then b'\\' ∷ b'n' ∷ []
    else if c == b'\r'
    then b'\\' ∷ b'r' ∷ []
    else c ∷ []

unfoldable pub wire_escape : Bytes → Bytes
unfolding wire_byte
wire_escape [] = []
wire_escape (c ∷ s) = wire_byte c ++ wire_escape s

-- `s.front()` and `s.back()` are quotes and `s.size() >= 2`; then `substr(1, size() - 2)`.
unfoldable pub drop_quote : Bytes → Option Bytes
drop_quote [] = none
drop_quote (c ∷ []) = if c == b'"' then some [] else none
drop_quote (c ∷ d ∷ s) = elim (drop_quote (d ∷ s)) [ none ↦ none | some t ↦ some (c ∷ t) ]

unfoldable pub strip_quotes : Bytes → Bytes
unfolding drop_quote
strip_quotes [] = []
strip_quotes (c ∷ s) =
    if c == b'"' then elim (drop_quote s) [ none ↦ c ∷ s | some t ↦ t ] else c ∷ s

module _ {D : Type 0} (fl : Floats D) where
  unfoldable pub storage_to_wire : Storage D → Bytes
  unfolding wire_escape
  storage_to_wire monostate = bytes "null"
  storage_to_wire (text s) = b'"' ∷ (wire_escape s ++ b'"' ∷ [])
  storage_to_wire (boolean b) = bool_text b
  storage_to_wire (int64 i) = to_string i
  storage_to_wire (double d) = fl.print d

  unfoldable pub to_wire_string : ParamValue D → Bytes
  unfolding storage_to_wire
  to_wire_string v = storage_to_wire v.storage

  -- Without a type: an integer or a number that uses all bytes, or a string.
  unfoldable pub try_float : Bytes → ParamValue D
  unfolding strip_quotes
  try_float s = elim (fl.stod s) [
    | some (d, []) ↦ float_value d
    | some (d, x ∷ rest) ↦ string_value (strip_quotes s)
    | none ↦ string_value (strip_quotes s)
  ]

  unfoldable pub try_int : Bytes → ParamValue D
  unfolding try_float
  try_int s = elim (stoll s) [
    | some (i, []) ↦ int_value i
    | some (i, x ∷ rest) ↦ try_float s
    | none ↦ try_float s
  ]

  unfoldable pub auto_detect : Bytes → ParamValue D
  unfolding try_int eq_bytes
  auto_detect s =
      if eq_bytes s (bytes "true")
      then bool_value true
      else if eq_bytes s (bytes "false")
      then bool_value false
      else try_int s

  unfoldable pub by_hint : ParamType → Bytes → ParamValue D
  unfolding auto_detect is_true_text strip_quotes
  by_hint ParamType.bool s = bool_value (is_true_text s)
  by_hint ParamType.int s = int_value (elim (stoll s) [ none ↦ pos 0 | some (i, rest) ↦ i ])
  by_hint ParamType.float s =
      float_value (elim (fl.stod s) [ none ↦ fl.of_int (pos 0) | some (d, rest) ↦ d ])
  by_hint ParamType.string s = string_value (strip_quotes s)
  by_hint ParamType.unknown s = auto_detect s

  unfoldable pub from_wire_string : Bytes → ParamType → ParamValue D
  unfolding by_hint eq_bytes
  from_wire_string s hint = if eq_bytes s (bytes "null") then null_value else by_hint hint s
