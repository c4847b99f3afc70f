-- ===== src/Lexer/Machine.antt =====
-- `scanToken`, `nextToken`, `peekToken` and `tokenize` of src/interpreter/lexer.cpp.
-- Fuel bounds the calls that follow one another: one for each comment that is skipped, and one
-- for each token.
use vision_pipe.Base.{
  ℕ, zero, suc, Bool, true, false, ◌&&◌, ◌||◌, [], ◌∷◌, ◌++◌, Option, none, some, ◌==◌,
  if◌then◌else◌, Bytes, bytes, eq_bytes,
}
use vision_pipe.Lexer.Token.{
  TokenType, SourceLocation, TokenValue, monostate, text, number, boolean, Token, find_keyword,
  same_type,
}
use vision_pipe.Lexer.Scan.{
  unexpected_ampersand, unexpected_character, Outcome, ok, error, out_of_range, out_of_fuel, ◌>>=◌,
  Cursor, is_digit, starts_name, continues_name, current, peek, advance, collect, optional,
  skip_whitespace, not_newline, skip_line_comment, skip_block_comment, string_body,
}

pub record LexerConfig : Type 0 where
  pub preserve_comments : Bool
  pub preserve_newlines : Bool

unfoldable pub at_end : Cursor → Bool
at_end ([], l) = true
at_end (b ∷ bs, l) = false

-- The operators of one character that begin no longer one.
unfoldable pub single : ℕ → Option TokenType
single c =
    if c == b'('
    then some TokenType.lparen
    else if c == b')'
    then some TokenType.rparen
    else if c == b'['
    then some TokenType.lbracket
    else if c == b']'
    then some TokenType.rbracket
    else if c == b'{'
    then some TokenType.lbrace
    else if c == b'}'
    then some TokenType.rbrace
    else if c == b','
    then some TokenType.op_comma
    else if c == b'.'
    then some TokenType.op_dot
    else if c == b':'
    then some TokenType.op_colon
    else if c == b'+'
    then some TokenType.op_plus
    else if c == b'*'
    then some TokenType.op_multiply
    else if c == b'/'
    then some TokenType.op_divide
    else if c == b'%'
    then some TokenType.op_modulo
    else none

-- The operators that look at one more character: that character, the type with it, and the type
-- without it (`none` for the lone `&`).
unfoldable pub double : ℕ → Option (ℕ × TokenType × Option TokenType)
double c =
    if c == b'|'
    then some (b'|', TokenType.op_or, some TokenType.op_pipe)
    else if c == b'&'
    then some (b'&', TokenType.op_and, none)
    else if c == b'!'
    then some (b'=', TokenType.op_ne, some TokenType.op_not)
    else if c == b'='
    then some (b'=', TokenType.op_eq, some TokenType.op_assign)
    else if c == b'<'
    then some (b'=', TokenType.op_le, some TokenType.op_lt)
    else if c == b'>'
    then some (b'=', TokenType.op_ge, some TokenType.op_gt)
    else if c == b'-'
    then some (b'>', TokenType.op_arrow, some TokenType.op_minus)
    else none

-- `find_first_not_of(" \t")` and `substr`; `[]` when every byte is blank.
unfoldable pub drop_blanks : Bytes → Bytes
drop_blanks [] = []
drop_blanks (b ∷ bs) = if b == b' ' || b == b'\t' then drop_blanks bs else b ∷ bs

unfoldable pub trim : Bytes → Bytes
unfolding drop_blanks
trim s = elim (drop_blanks s) [ [] ↦ s | b ∷ bs ↦ b ∷ bs ]

-- `.5`, if a digit follows the point.
unfoldable pub fraction : Cursor → Bytes × Cursor
unfolding optional peek
fraction c =
    if current c == b'.' && is_digit (peek c)
    then (let (point, c₁) = optional true c in
        let (digits, c₂) = collect is_digit c₁.0 c₁.1 in (point ++ digits, c₂))
    else ([], c)

unfoldable pub exponent : Cursor → Bytes × Cursor
unfolding optional
exponent c =
    if current c == b'e' || current c == b'E'
    then (let (mark, c₁) = optional true c in
        let (sign, c₂) = optional (current c₁ == b'+' || current c₁ == b'-') c₁ in
        let (digits, c₃) = collect is_digit c₂.0 c₂.1 in (mark ++ (sign ++ digits), c₃))
    else ([], c)

-- The text that `scanNumber` gathers.
unfoldable pub number_text : Cursor → Bytes × Cursor
unfolding optional fraction exponent
number_text c =
    let (sign, c₁) = optional (current c == b'-') c in
    let (whole, c₂) = collect is_digit c₁.0 c₁.1 in
    let (frac, c₃) = fraction c₂ in
    let (exp, c₄) = exponent c₃ in (sign ++ (whole ++ (frac ++ exp)), c₄)

module _ {D : Type 0} (stod : Bytes → Option D) where
  abbrev pub Scanned : Type 0
  Scanned = Outcome (Token D × Cursor)

  unfoldable pub make_token : TokenType → TokenValue D → SourceLocation → Bytes → Token D
  make_token ty v l raw = record { type = ty; value = v; location = l; raw = raw }

  -- The token for a gathered word.
  unfoldable pub word_token : Bytes → SourceLocation → Token D
  unfolding make_token
  word_token w l = elim (find_keyword w) [
    | none ↦ make_token TokenType.identifier (text w) l w
    | some ty ↦
        if same_type ty TokenType.boolean_literal
        then make_token ty (boolean (eq_bytes w (bytes "true"))) l w
        else make_token ty monostate l w
  ]

  unfoldable pub scan_identifier_or_keyword : Cursor → Scanned
  unfolding word_token
  scan_identifier_or_keyword c =
      let (w, c') = collect continues_name c.0 c.1 in ok (word_token w c.1, c')

  unfoldable pub scan_number : Cursor → Scanned
  unfolding number_text make_token
  scan_number c =
      let (s, c') = number_text c in
      elim (stod s) [
        | none ↦ out_of_range
        | some d ↦ ok (make_token TokenType.number_literal (number d) c.1 s, c')
      ]

  unfoldable pub scan_string : ℕ → Cursor → Scanned
  unfolding make_token
  scan_string q c =
      let inside = advance c in
      string_body q inside.0 inside.1 >>= λ r.
      ok (make_token TokenType.string_literal (text r.0) c.1 r.0, advance r.1)

  -- `@name`; a lone `@` has no value.
  unfoldable pub scan_parameter : Cursor → Scanned
  unfolding make_token
  scan_parameter c =
      let after = advance c in
      if starts_name (current after)
      then (let (w, c') = collect continues_name after.0 after.1 in
          ok (make_token TokenType.op_at (text w) c.1 (b'@' ∷ w), c'))
      else ok (make_token TokenType.op_at monostate c.1 (b'@' ∷ []), after)

  unfoldable pub scan_comment : Cursor → Scanned
  unfolding make_token trim optional
  scan_comment c =
      let first = advance c in
      let doc = current first == b'#' in
      let (mark, body) = optional doc first in
      let (s, c') = collect not_newline body.0 body.1 in
      let ty = if doc then TokenType.doc_comment else TokenType.comment in
      ok (make_token ty (text (trim s)) c.1 (trim s), c')

  -- With `b` passed: `after` may begin with the second character `e` of a longer operator.
  unfoldable pub longer_operator :
      ℕ → SourceLocation → Cursor → ℕ → TokenType → Option TokenType → Scanned
  unfolding make_token
  longer_operator b l after e two one =
      if current after == e
      then ok (make_token two monostate l (b ∷ e ∷ []), advance after)
      else elim one [
        | none ↦ error unexpected_ampersand after.1
        | some ty ↦ ok (make_token ty monostate l (b ∷ []), after)
      ]

  unfoldable pub scan_operator : Cursor → Scanned
  unfolding make_token
  scan_operator c =
      let b = current c in
      let after = advance c in
      elim (single b) [
        | some ty ↦ ok (make_token ty monostate c.1 (b ∷ []), after)
        | none ↦ elim (double b) [
          | none ↦ error (unexpected_character b) after.1
          | some (e, two, one) ↦ longer_operator b c.1 after e two one
        ]
      ]

  -- The argument `next` is the call of `nextToken` behind a skipped comment.
  unfoldable pub scan_token : LexerConfig → (Cursor → Scanned) → Cursor → Scanned
  scan_token config next c =
      let b = current c in
      if starts_name b
      then scan_identifier_or_keyword c
      else if is_digit b || (b == b'-' && is_digit (peek c))
      then scan_number c
      else if b == b'"' || b == b'\''
      then scan_string b c
      else if b == b'@'
      then scan_parameter c
      else if b == b'#'
      then scan_comment c
      else if b == b'/' && peek c == b'*'
      then (skip_block_comment c >>= next)
      else if b == b'/' && peek c == b'/'
      then next (skip_line_comment c)
      else if b == b'\n' && config.preserve_newlines
      then (let after = advance c in
          ok (make_token TokenType.newline monostate after.1 (b'\n' ∷ []), after))
      else scan_operator c

  -- `nextToken` with nothing peeked.
  unfoldable pub fresh_token : LexerConfig → ℕ → Cursor → Scanned
  unfolding make_token at_end
  fresh_token config zero c = out_of_fuel
  fresh_token config (suc fuel) c =
      let c' = skip_whitespace config.preserve_newlines c in
      if at_end c'
      then ok (make_token TokenType.end_of_file monostate c'.1 [], c')
      else scan_token config (fresh_token config fuel) c'
