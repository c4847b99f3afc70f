-- ===== src/Params/Wire.antt =====
-- The wire form of a value, and what reading it back gives.
use vision_pipe.Base.{
  ℕ, ◌≤◌, Bool, true, false, not, ◌&&◌, [], ◌∷◌, ◌++◌, some, ◌≡◌, ◌↔◌, ◌⊎◌, inl, inr, refl, sym, ap,
  ◌∙◌, arith, ◌==◌, Bytes, bytes, eq_bytes, length, length-append, append-nil, All, Bool-cases,
}
use vision_pipe.Base.Decimal.{
  ℤ, pos, negsuc, IsInt64, to_string, stoll, stoll-to_string, show_nat, show_nat_first,
}
use vision_pipe.Params.Value.{
  ParamType, Floats, ParamValue, text, int_value, bool_value, string_value, wire_byte, wire_escape,
  drop_quote, strip_quotes, to_wire_string, from_wire_string, by_hint, auto_detect, try_int,
}

drop_quote-append : (s : Bytes) → drop_quote (s ++ b'"' ∷ []) ≡ some s
unfolding drop_quote
drop_quote-append [] = refl
drop_quote-append (c ∷ []) = refl
drop_quote-append (c ∷ d ∷ s) = rw (drop_quote-append (d ∷ s))

strip_quotes-quoted : (s : Bytes) → strip_quotes (b'"' ∷ (s ++ b'"' ∷ [])) ≡ s
unfolding strip_quotes
strip_quotes-quoted s = rw (drop_quote-append s)

-- A text that begins with a letter is no number's.
number_no_word : (i : ℤ) (c : ℕ) (w : Bytes) → b'a' ≤ c → eq_bytes (to_string i) (c ∷ w) ≡ false
unfolding to_string eq_bytes
number_no_word (pos n) c w h =
    let (b, bs, d, e) = show_nat_first n [] in
    let e' : show_nat n ≡ b ∷ bs = sym (append-nil (show_nat n)) ∙ e in rw e' (ground arith)
number_no_word (negsuc n) c w h = ground arith

stoll_whole : (i : ℤ) → IsInt64 i → stoll (to_string i) ≡ some (i, [])
stoll_whole i h = ap stoll (sym (append-nil (to_string i))) ∙ stoll-to_string i [] h tt

module _ {D : Type 0} (fl : Floats D) where
  by_hint-int : (i : ℤ) → IsInt64 i → by_hint fl ParamType.int (to_string i) ≡ int_value i
  unfolding by_hint
  by_hint-int i h = rw (stoll_whole i h)

  auto_detect-int : (i : ℤ) → IsInt64 i → auto_detect fl (to_string i) ≡ int_value i
  unfolding auto_detect
  auto_detect-int i h =
      rw (number_no_word i b't' (bytes "rue") (omega arith))
        (rw (number_no_word i b'f' (bytes "alse") (omega arith)) (rw (stoll_whole i h, try_int)))

  -- An integer in the range of `int64_t` survives the wire, with its type as a hint or with none.
  pub wire-int :
      (i : ℤ) (ty : ParamType)
      → IsInt64 i
      → (ty ≡ ParamType.int) ⊎ (ty ≡ ParamType.unknown)
      → from_wire_string fl (to_wire_string fl (int_value i)) ty ≡ int_value i
  unfolding from_wire_string to_wire_string
  wire-int i ty h (inl e) =
      rw (e, number_no_word i b'n' (bytes "ull") (omega arith)) (by_hint-int i h)
  wire-int i ty h (inr e) =
      rw (e, number_no_word i b'n' (bytes "ull") (omega arith)) (auto_detect-int i h)

  -- A Boolean survives the wire, with its type as a hint or with none.
  pub wire-bool :
      (b : Bool) (ty : ParamType)
      → (ty ≡ ParamType.bool) ⊎ (ty ≡ ParamType.unknown)
      → from_wire_string fl (to_wire_string fl (bool_value b)) ty ≡ bool_value b
  unfolding from_wire_string to_wire_string
  wire-bool true ty (inl e) = rw e
  wire-bool true ty (inr e) = rw e
  wire-bool false ty (inl e) = rw e
  wire-bool false ty (inr e) = rw e

  -- A string comes back escaped: the reader strips the quotes and undoes no escape.
  wire-string_escaped :
      (s : Bytes)
      → from_wire_string fl (to_wire_string fl (string_value s)) ParamType.string
        ≡ string_value (wire_escape s)
  unfolding from_wire_string to_wire_string
  wire-string_escaped s = rw (strip_quotes-quoted (wire_escape s))

-- No quote, no backslash, no line feed, no carriage return.
abbrev pub is_plain : ℕ → Bool
is_plain c = not (c == b'"') && not (c == b'\\') && not (c == b'\n') && not (c == b'\r')

length-wire_escape : (s : Bytes) → length s ≤ length (wire_escape s)
unfolding wire_escape
length-wire_escape [] = omega arith
length-wire_escape (c ∷ s) =
    ground (arith, length-wire_escape s, length-append (wire_byte c) (wire_escape s))

wire_byte-plain : (c : ℕ) → is_plain c ≡ true → wire_byte c ≡ c ∷ []
unfolding wire_byte
wire_byte-plain c h = ground arith

wire_byte-not_plain : (c : ℕ) → is_plain c ≡ false → length (wire_byte c) ≡ 2
unfolding wire_byte
wire_byte-not_plain c h = ground arith

wire_escape-plain : (s : Bytes) → All (λ c. is_plain c ≡ true) s → wire_escape s ≡ s
unfolding wire_escape
wire_escape-plain [] a = refl
wire_escape-plain (c ∷ s) a = rw (wire_byte-plain c a.0, wire_escape-plain s a.1)

abbrev rest : Bytes → Bytes
rest [] = []
rest (c ∷ s) = s

abbrev text_of : {D : Type 0} → ParamValue D → Bytes
text_of v = elim v.storage [ text s ↦ s | _ ↦ [] ]

plain_of_wire_escape : (s : Bytes) → wire_escape s ≡ s → All (λ c. is_plain c ≡ true) s
unfolding wire_escape
plain_of_wire_escape [] e = tt
plain_of_wire_escape (c ∷ s) e = elim (Bool-cases (is_plain c)) [
  | inl p ↦ (
    p,
    plain_of_wire_escape s (
        ap rest
          (let e' : wire_byte c ++ wire_escape s ≡ c ∷ s = e in rw (wire_byte-plain c p) at e')),
  )
  | inr p ↦ absurd (
      omega (
        arith,
        ap length e,
        length-append (wire_byte c) (wire_escape s),
        wire_byte-not_plain c p,
        length-wire_escape s,
      ))
]

-- With the hint STRING a string survives the wire exactly when it holds no quote, no backslash, no
-- line feed and no carriage return: the writer escapes these, and the reader undoes no escape.
pub wire-string_iff :
    {D : Type 0} (fl : Floats D) (s : Bytes)
    → (from_wire_string fl (to_wire_string fl (string_value s)) ParamType.string ≡ string_value s)
      ↔ All (λ c. is_plain c ≡ true) s
wire-string_iff fl s = (
  (λ e. plain_of_wire_escape s (ap text_of (sym (wire-string_escaped fl s) ∙ e))),
  (λ a. wire-string_escaped fl s ∙ ap string_value (wire_escape-plain s a)),
)
