-- ===== src/Lexer/Scan.antt =====
-- The scanners of src/interpreter/lexer.cpp. A cursor is the bytes from `_pos` on, with the
-- location (`_pos` is its offset). `stod` is the standard library's, `none` for out_of_range.
use vision_pipe.Base.{
  ℕ, ◌+◌, Bool, not, ◌&&◌, ◌||◌, [], ◌∷◌, Option, none, some, ◌==◌, leb, if◌then◌else◌, Bytes,
}
use vision_pipe.Lexer.Token.{SourceLocation}

pub data Reason : Type 0 where
  unterminated_comment unterminated_string unexpected_ampersand : Reason
  unknown_escape unexpected_character : ℕ → Reason

-- `LexerError`, the exception of `stod`, and fuel that ran out.
pub data Outcome {ℓ} (A : Type ℓ) : Type ℓ where
  ok : A → Outcome A
  error : Reason → SourceLocation → Outcome A
  out_of_range : Outcome A
  out_of_fuel : Outcome A

infixl 5 ◌>>=◌
abbrev pub ◌>>=◌ {ℓ κ} : {A : Type ℓ} {B : Type κ} → Outcome A → (A → Outcome B) → Outcome B
ok a >>= f = f a
error r l >>= f = error r l
out_of_range >>= f = out_of_range
out_of_fuel >>= f = out_of_fuel

abbrev pub Cursor : Type 0
Cursor = Bytes × SourceLocation

abbrev pub is_digit : ℕ → Bool
is_digit c = leb b'0' c && leb c b'9'

abbrev pub is_alpha : ℕ → Bool
is_alpha c = (leb b'a' c && leb c b'z') || (leb b'A' c && leb c b'Z')

-- The test of `scanToken`, and that of the loop over an identifier.
unfoldable pub starts_name : ℕ → Bool
starts_name c = is_alpha c || c == b'_'

unfoldable pub continues_name : ℕ → Bool
continues_name c = is_alpha c || is_digit c || c == b'_'

unfoldable pub current : Cursor → ℕ
current ([], l) = 0
current (b ∷ bs, l) = b

unfoldable pub peek : Cursor → ℕ
peek ([], l) = 0
peek (a ∷ [], l) = 0
peek (a ∷ b ∷ bs, l) = b

-- What `advance` does to the location when it passes byte `c`.
unfoldable pub pass : ℕ → SourceLocation → SourceLocation
pass c l =
    if c == b'\n'
    then record l { line = l.line + 1; column = 1; offset = l.offset + 1 }
    else record l { column = l.column + 1; offset = l.offset + 1 }

-- At the end `advance` passes a zero byte and still moves.
unfoldable pub advance : Cursor → Cursor
unfolding pass
advance ([], l) = ([], pass 0 l)
advance (b ∷ bs, l) = (bs, pass b l)

-- `while (!isAtEnd() && p(current())) s += advance();`
unfoldable pub collect : (ℕ → Bool) → Bytes → SourceLocation → Bytes × Cursor
collect p [] l = ([], ([], l))
collect p (b ∷ bs) l =
    let (s, c) = collect p bs (pass b l) in if p b then (b ∷ s, c) else ([], (b ∷ bs, l))

-- `if (t) s += advance();`
unfoldable pub optional : Bool → Cursor → Bytes × Cursor
unfolding current advance
optional t c = if t then (current c ∷ [], advance c) else ([], c)

unfoldable pub is_blank : Bool → ℕ → Bool
is_blank newlines c = c == b' ' || c == b'\t' || c == b'\r' || (c == b'\n' && not newlines)

-- The argument is `_config.preserveNewlines`.
unfoldable pub skip_whitespace : Bool → Cursor → Cursor
unfolding collect is_blank
skip_whitespace newlines (bs, l) = (collect (is_blank newlines) bs l).1

unfoldable pub not_newline : ℕ → Bool
not_newline c = not (c == b'\n')

unfoldable pub skip_line_comment : Cursor → Cursor
unfolding collect not_newline
skip_line_comment (bs, l) = (collect not_newline bs l).1

-- The loop of `skipBlockComment`, behind the opening `/*`.
unfoldable pub block_body : Bytes → SourceLocation → Outcome Cursor
block_body [] l = error unterminated_comment l
block_body (a ∷ []) l = error unterminated_comment (pass a l)
block_body (a ∷ b ∷ bs) l =
    let rest = block_body (b ∷ bs) (pass a l) in
    if a == b'*' && b == b'/' then ok (bs, pass b (pass a l)) else rest

unfoldable pub skip_block_comment : Cursor → Outcome Cursor
unfolding block_body advance
skip_block_comment c = let (bs, l) = advance (advance c) in block_body bs l

-- The escapes of a string literal.
unfoldable pub unescape : ℕ → Option ℕ
unescape e =
    if e == b'n'
    then some b'\n'
    else if e == b'r'
    then some b'\r'
    else if e == b't'
    then some b'\t'
    else if e == b'\\' || e == b'"' || e == b'\''
    then some e
    else if e == b'0'
    then some 0
    else none

abbrev prepend : ℕ → Outcome (Bytes × Cursor) → Outcome (Bytes × Cursor)
prepend b m = m >>= λ r. ok (b ∷ r.0, r.1)

-- The loop of `scanString` up to the closing quote, which stays in front of the cursor.
unfoldable pub string_body : ℕ → Bytes → SourceLocation → Outcome (Bytes × Cursor)
unfolding unescape
string_body q [] l = error unterminated_string l
string_body q (b ∷ []) l =
    if b == q
    then ok ([], (b ∷ [], l))
    else if b == b'\n'
    then error unterminated_string l
    else error unterminated_string (pass b l)
string_body q (b ∷ e ∷ es) l =
    let plain = prepend b (string_body q (e ∷ es) (pass b l)) in
    let after = pass e (pass b l) in
    let rest = string_body q es after in
    let escaped : Outcome (Bytes × Cursor) = elim (unescape e) [
      | none ↦ error (unknown_escape e) after
      | some d ↦ prepend d rest
    ] in
    if b == q
    then ok ([], (b ∷ e ∷ es, l))
    else if b == b'\n'
    then error unterminated_string l
    else if b == b'\\'
    then escaped
    else plain
