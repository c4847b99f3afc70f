-- ===== src/Lexer/Words.antt =====
-- Words: identifiers and keywords, and the names and ranges of the token types.
use mathlib.Core.Option.{some-injective}
use vision_pipe.Base.{
  map, ℕ, Bool, true, false, List, [], ◌∷◌, ◌++◌, Option, some, ◌≡◌, refl, ap, ◌∙◌, sym, Bytes, inl,
  inr, ◌⊎◌, All, Bool-cases, eq_bytes, bytes, not, leb, ◌&&◌, ◌-◌, ◌||◌, if◌then◌else◌, arith,
}
use vision_pipe.Lexer.Token.{
  TokenType, TokenValue, SourceLocation, same_type, keywords, find_word, find_keyword, is_keyword,
  type_to_string,
}
use vision_pipe.Lexer.Scan.{ok, current, pass, continues_name, collect}
use vision_pipe.Lexer.Machine.{word_token, scan_identifier_or_keyword}
use vision_pipe.Lexer.Reads.{locate}
use vision_pipe.Lexer.Spells.{IsNameByte, Stops, WordMeans, name, truth, keyword}
use vision_pipe.Lexer.Spelled.{find_word-both, continues_name-IsNameByte, IsNameByte-continues_name}

collect-run :
    (p : ℕ → Bool) (w rest : Bytes) (l : SourceLocation)
    → All (λ b. p b ≡ true) w
    → p (current (rest, locate w l)) ≡ false
    → collect p (w ++ rest) l ≡ (w, (rest, locate w l))
unfolding collect current
collect-run p [] [] l a h = refl
collect-run p [] (x ∷ rest) l a h = rw (h, collect)
collect-run p (b ∷ w) rest l a h = rw (a.0, collect-run p w rest (pass b l) a.1 h)

-- A run of bytes of a word, with none of them behind it.
IsNameByte-run : (w : Bytes) → All IsNameByte w → All (λ b. continues_name b ≡ true) w
IsNameByte-run [] a = tt
IsNameByte-run (b ∷ w) a = (IsNameByte-continues_name b a.0, IsNameByte-run w a.1)

Stops-current :
    (rest : Bytes) (l : SourceLocation)
    → Stops IsNameByte rest
    → continues_name (current (rest, l)) ≡ false
unfolding current
Stops-current [] l h = unfold continues_name in refl
Stops-current (b ∷ rest) l h = elim (Bool-cases (continues_name b)) [
  | inl e ↦ absurd (h (continues_name-IsNameByte b e))
  | inr e ↦ e
]

module _ {D : Type 0} (stod : Bytes → Option D) where
  pub scan_identifier-run :
      (w rest : Bytes) (l : SourceLocation)
      → All (λ b. continues_name b ≡ true) w
      → continues_name (current (rest, locate w l)) ≡ false
      → scan_identifier_or_keyword stod (w ++ rest, l)
        ≡ ok (word_token stod w l, (rest, locate w l))
  unfolding scan_identifier_or_keyword
  scan_identifier-run w rest l a h = rw (collect-run continues_name w rest l a h)

  WordMeans-token :
      (w : Bytes) (l : SourceLocation) {ty : TokenType} {v : TokenValue D}
      → WordMeans w ty v
      → word_token stod w l ≡ record { type = ty; value = v; location = l; raw = w }
  unfolding word_token same_type
  WordMeans-token w l (name e) = rw (e, word_token) refl
  WordMeans-token w l (truth e) = rw (e, word_token) refl
  WordMeans-token w l (keyword e k) = rw (e, k, word_token) refl

  -- A run of ASCII letters, digits and underscores, with none of them behind it, is one token: a name
  -- with its text if the keyword table lacks the word, `true` or `false` with its value, or a keyword
  -- without a value. Its raw text is the run, and the cursor is left behind it.
  pub identifier-longest :
      (w rest : Bytes) (l : SourceLocation) {ty : TokenType} {v : TokenValue D}
      → All IsNameByte w
      → Stops IsNameByte rest
      → WordMeans w ty v
      → scan_identifier_or_keyword stod (w ++ rest, l)
        ≡ ok (record { type = ty; value = v; location = l; raw = w }, (rest, locate w l))
  identifier-longest w rest l a h m =
      scan_identifier-run w rest l (IsNameByte-run w a) (Stops-current rest (locate w l) h)
      ∙ ap (λ t. ok (t, (rest, locate w l))) (WordMeans-token w l m)

-- A lower-case letter as its capital; any other byte stays.
abbrev pub capital : ℕ → ℕ
capital b = if leb b'a' b && leb b b'z' then b - 32 else b

-- The words of the table that are no keywords of `isKeyword`.
abbrev pub special_words : List Bytes
special_words =
    bytes "params"
    ∷ bytes "on_params"
    ∷ bytes "true"
    ∷ bytes "false"
    ∷ bytes "and"
    ∷ bytes "or"
    ∷ bytes "not"
    ∷ []

abbrev every : (Bytes × TokenType → Bool) → List (Bytes × TokenType) → Bool
every p [] = true
every p (k ∷ ks) = p k && every p ks

abbrev any : (Bytes → Bool) → List Bytes → Bool
any p [] = false
any p (w ∷ ws) = p w || any p ws

abbrev pub is_special : Bytes → Bool
is_special w = any (eq_bytes w) special_words

-- The type of a word is the one with the word's name, or that of a truth value.
abbrev pub IsNamed : Bytes → TokenType → Type 0
IsNamed w ty =
    (type_to_string ty ≡ map capital w)
    ⊎ (((w ≡ bytes "true") ⊎ (w ≡ bytes "false")) × (ty ≡ TokenType.boolean_literal))

abbrev pub IsSorted : Bytes → TokenType → Type 0
IsSorted w ty = IsNamed w ty × (is_keyword ty ≡ not (is_special w))

keywords-IsNamed : All (λ (k : Bytes × TokenType). IsNamed k.0 k.1) keywords
unfolding keywords type_to_string
keywords-IsNamed = ground arith

abbrev agrees : Bytes × TokenType → Bool
agrees k = if is_special k.0 then not (is_keyword k.1) else is_keyword k.1

agrees-All :
    (table : List (Bytes × TokenType))
    → every agrees table ≡ true
    → All (λ (k : Bytes × TokenType). is_keyword k.1 ≡ not (is_special k.0)) table
agrees-All [] h = tt
agrees-All (k ∷ ks) h = (
  agrees_lem k (and_left (agrees k) (every agrees ks) h),
  agrees-All ks (and_right (agrees k) (every agrees ks) h),
)
  where
    and_left : (x y : Bool) → x && y ≡ true → x ≡ true
    and_left x y h = ground arith

    and_right : (x y : Bool) → x && y ≡ true → y ≡ true
    and_right x y h = ground arith

    agrees_lem : (k : Bytes × TokenType) → agrees k ≡ true → is_keyword k.1 ≡ not (is_special k.0)
    agrees_lem k h = elim (Bool-cases (is_special k.0)) [
      | inl e ↦ rw e (let g = rw e at h in ground arith)
      | inr e ↦ rw e (rw e at h)
    ]

keywords-IsSpecial : All (λ (k : Bytes × TokenType). is_keyword k.1 ≡ not (is_special k.0)) keywords
unfolding keywords is_keyword eq_bytes
keywords-IsSpecial = agrees-All keywords refl

-- A word of the keyword table has the type whose name in messages is the word in capitals, or is
-- `true` or `false` with the type of a truth value; `isKeyword` holds of its type unless the word is
-- one of `params`, `on_params`, `true`, `false`, `and`, `or`, `not`, and then it does not.
pub find_keyword-IsSorted : (w : Bytes) (ty : TokenType) → find_keyword w ≡ some ty → IsSorted w ty
unfolding find_keyword
find_keyword-IsSorted w ty h = (
  find_word-both IsNamed w keywords ty keywords-IsNamed h,
  find_word-both (λ w ty. is_keyword ty ≡ not (is_special w)) w keywords ty keywords-IsSpecial h,
)

all_types : List TokenType
all_types =
    TokenType.identifier ∷ TokenType.string_literal ∷ TokenType.number_literal
    ∷ TokenType.boolean_literal ∷ TokenType.kw_pipeline ∷ TokenType.kw_end ∷ TokenType.kw_let
    ∷ TokenType.kw_global ∷ TokenType.kw_cache ∷ TokenType.kw_exec_seq ∷ TokenType.kw_exec_multi
    ∷ TokenType.kw_exec_loop ∷ TokenType.kw_exec_interval ∷ TokenType.kw_no_interval
    ∷ TokenType.kw_exec_interval_multi ∷ TokenType.kw_exec_rt_seq ∷ TokenType.kw_exec_rt_multi
    ∷ TokenType.kw_exec_nasync ∷ TokenType.kw_exec_fork ∷ TokenType.kw_debug_start
    ∷ TokenType.kw_debug_end ∷ TokenType.kw_use ∷ TokenType.kw_if ∷ TokenType.kw_else
    ∷ TokenType.kw_while ∷ TokenType.kw_break ∷ TokenType.kw_continue ∷ TokenType.kw_return
    ∷ TokenType.kw_import ∷ TokenType.kw_config ∷ TokenType.kw_params ∷ TokenType.kw_on_params
    ∷ TokenType.op_arrow ∷ TokenType.op_pipe ∷ TokenType.op_assign ∷ TokenType.op_comma
    ∷ TokenType.op_dot ∷ TokenType.op_colon ∷ TokenType.op_at ∷ TokenType.op_eq ∷ TokenType.op_ne
    ∷ TokenType.op_lt ∷ TokenType.op_le ∷ TokenType.op_gt ∷ TokenType.op_ge ∷ TokenType.op_plus
    ∷ TokenType.op_minus ∷ TokenType.op_multiply ∷ TokenType.op_divide ∷ TokenType.op_modulo
    ∷ TokenType.op_and ∷ TokenType.op_or ∷ TokenType.op_not ∷ TokenType.lparen ∷ TokenType.rparen
    ∷ TokenType.lbracket ∷ TokenType.rbracket ∷ TokenType.lbrace ∷ TokenType.rbrace
    ∷ TokenType.newline ∷ TokenType.comment ∷ TokenType.doc_comment ∷ TokenType.end_of_file
    ∷ TokenType.unknown ∷ []

named : List TokenType → List (Bytes × TokenType)
named = map (λ t. (type_to_string t, t))

find_word-type_to_string : (t : TokenType) → find_word (type_to_string t) (named all_types) ≡ some t
unfolding find_word type_to_string named all_types
find_word-type_to_string TokenType.identifier = refl
find_word-type_to_string _ = refl

-- No two token types have the same name in messages.
pub type_to_string-injective : (s t : TokenType) → type_to_string s ≡ type_to_string t → s ≡ t
type_to_string-injective s t h = some-injective s t (
    sym (find_word-type_to_string s)
    ∙ ap (λ n. find_word n (named all_types)) h
    ∙ find_word-type_to_string t)
