-- ===== src/Lexer/Spells.antt =====
-- How the script language spells its tokens, and what may stand between them, written without the
-- scanners: the grammar that the comments of src/interpreter/lexer.cpp and its tests give.
use vision_pipe.Base.{
  ℕ, ◌≤◌, Bool, false, List, [], ◌∷◌, ◌++◌, Option, none, some, ◌≡◌, ◌≢◌, ◌⊎◌, Bytes, bytes,
  eq_bytes, All,
}
use vision_pipe.Lexer.Token.{
  TokenType, TokenValue, monostate, text, number, boolean, same_type, find_word, find_keyword,
}
use vision_pipe.Lexer.Scan.{
  Reason, unterminated_comment, unterminated_string, unexpected_ampersand, unknown_escape,
  unexpected_character,
}
use vision_pipe.Lexer.Machine.{trim}

-- ASCII letters and digits, and the bytes of a word.
abbrev pub IsLetter : ℕ → Type 0
IsLetter b = ((b'a' ≤ b) × (b ≤ b'z')) ⊎ ((b'A' ≤ b) × (b ≤ b'Z'))

abbrev pub IsDigit : ℕ → Type 0
IsDigit b = (b'0' ≤ b) × (b ≤ b'9')

abbrev pub IsNameStart : ℕ → Type 0
IsNameStart b = IsLetter b ⊎ (b ≡ b'_')

abbrev pub IsNameByte : ℕ → Type 0
IsNameByte b = IsNameStart b ⊎ IsDigit b

-- The bytes that a number may be made of: digits, the point, the exponent's mark and the signs.
abbrev pub IsNumberByte : ℕ → Type 0
IsNumberByte b = IsDigit b ⊎ ((b ≡ b'.') ⊎ ((b ≡ b'e') ⊎ ((b ≡ b'E') ⊎ ((b ≡ b'+') ⊎ (b ≡ b'-')))))

abbrev pub Starts : (ℕ → Type 0) → Bytes → Type 0
Starts P [] = ⊥
Starts P (b ∷ bs) = P b

-- The byte behind a token is of another kind, or there is none.
abbrev pub Stops : (ℕ → Type 0) → Bytes → Type 0
Stops P [] = Unit
Stops P (b ∷ bs) = ¬ P b

abbrev pub AtLineEnd : Bytes → Type 0
AtLineEnd [] = Unit
AtLineEnd (b ∷ bs) = b ≡ b'\n'

abbrev pub InLine : Bytes → Type 0
InLine = All (λ b. b ≢ b'\n')

-- The blanks; a line feed is one unless newlines are tokens.
pub data IsBlank (newlines : Bool) : ℕ → Type 0 where
  space : IsBlank newlines b' '
  tab : IsBlank newlines b'\t'
  carriage_return : IsBlank newlines b'\r'
  line_feed : newlines ≡ false → IsBlank newlines b'\n'

-- The rest of a block comment, up to its first `*/`.
pub data IsBlock : Bytes → Type 0 where
  closing : IsBlock (b'*' ∷ b'/' ∷ [])
  inside : {b : ℕ} {s : Bytes} → (b ≡ b'*' → Stops (λ c. c ≡ b'/') s) → IsBlock s → IsBlock (b ∷ s)

-- What may stand in front of a token: blanks, and comments from `//` to the end of the line or from
-- `/*` to `*/`. The second bytes are those that follow.
pub data IsGap (newlines : Bool) : Bytes → Bytes → Type 0 where
  nothing : {r : Bytes} → IsGap newlines [] r
  blank : {b : ℕ} {s r : Bytes} → IsBlank newlines b → IsGap newlines s r → IsGap newlines (b ∷ s) r
  line_comment :
      (w : Bytes) {s r : Bytes}
      → InLine w
      → AtLineEnd (s ++ r)
      → IsGap newlines s r
      → IsGap newlines (b'/' ∷ b'/' ∷ (w ++ s)) r
  block_comment :
      (w : Bytes) {s r : Bytes}
      → IsBlock w
      → IsGap newlines s r
      → IsGap newlines (b'/' ∷ b'*' ∷ (w ++ s)) r

-- The escapes of a text, and the byte that each stands for.
abbrev pub Escapes : ℕ → ℕ → Type 0
Escapes e d =
    ((e ≡ b'n') × (d ≡ b'\n'))
    ⊎ (((e ≡ b'r') × (d ≡ b'\r'))
        ⊎ (((e ≡ b't') × (d ≡ b'\t'))
            ⊎ (((e ≡ b'0') × (d ≡ 0)) ⊎ (((e ≡ b'\\') ⊎ ((e ≡ b'"') ⊎ (e ≡ b'\''))) × (d ≡ e)))))

-- The bytes between two quotes `q`, and the text that they stand for.
pub data IsText (q : ℕ) : Bytes → Bytes → Type 0 where
  done : IsText q [] []
  plain :
      {b : ℕ} {s v : Bytes}
      → b ≢ q
      → b ≢ b'\n'
      → b ≢ b'\\'
      → IsText q s v
      → IsText q (b ∷ s) (b ∷ v)
  escaped : {e d : ℕ} {s v : Bytes} → Escapes e d → IsText q s v → IsText q (b'\\' ∷ e ∷ s) (d ∷ v)

-- The operators.
abbrev pub operator_spellings : List (Bytes × TokenType)
operator_spellings =
    (bytes "(", TokenType.lparen)
    ∷ (bytes ")", TokenType.rparen)
    ∷ (bytes "[", TokenType.lbracket)
    ∷ (bytes "]", TokenType.rbracket)
    ∷ (bytes "{", TokenType.lbrace)
    ∷ (bytes "}", TokenType.rbrace)
    ∷ (bytes ",", TokenType.op_comma)
    ∷ (bytes ".", TokenType.op_dot)
    ∷ (bytes ":", TokenType.op_colon)
    ∷ (bytes "+", TokenType.op_plus)
    ∷ (bytes "-", TokenType.op_minus)
    ∷ (bytes "*", TokenType.op_multiply)
    ∷ (bytes "/", TokenType.op_divide)
    ∷ (bytes "%", TokenType.op_modulo)
    ∷ (bytes "|", TokenType.op_pipe)
    ∷ (bytes "||", TokenType.op_or)
    ∷ (bytes "&&", TokenType.op_and)
    ∷ (bytes "!", TokenType.op_not)
    ∷ (bytes "!=", TokenType.op_ne)
    ∷ (bytes "=", TokenType.op_assign)
    ∷ (bytes "==", TokenType.op_eq)
    ∷ (bytes "<", TokenType.op_lt)
    ∷ (bytes "<=", TokenType.op_le)
    ∷ (bytes ">", TokenType.op_gt)
    ∷ (bytes ">=", TokenType.op_ge)
    ∷ (bytes "->", TokenType.op_arrow)
    ∷ []

-- The type with this spelling.
unfoldable pub operator_type : Bytes → Option TokenType
unfolding find_word
operator_type w = find_word w operator_spellings

-- One byte more would be no operator.
abbrev pub IsLongest : Bytes → Bytes → Type 0
IsLongest w [] = Unit
IsLongest w (b ∷ r) = operator_type (w ++ b ∷ []) ≡ none

-- A text behind its quote that no quote closes before the end of the line, or with an unknown escape.
pub data BadText (q : ℕ) : Reason → Bytes → Type 0 where
  at_source_end : BadText q unterminated_string []
  at_line_feed : {r : Bytes} → BadText q unterminated_string (b'\n' ∷ r)
  at_backslash : BadText q unterminated_string (b'\\' ∷ [])
  no_escape :
      {e : ℕ} {r : Bytes} → ((d : ℕ) → ¬ Escapes e d) → BadText q (unknown_escape e) (b'\\' ∷ e ∷ r)
  later :
      {b : ℕ} {x : Reason} {s : Bytes}
      → b ≢ q
      → b ≢ b'\n'
      → b ≢ b'\\'
      → BadText q x s
      → BadText q x (b ∷ s)
  later_escape :
      (d : ℕ) {e : ℕ} {x : Reason} {s : Bytes}
      → Escapes e d
      → BadText q x s
      → BadText q x (b'\\' ∷ e ∷ s)

-- No `*/` closes the comment.
abbrev pub IsUnclosed : Bytes → Type 0
IsUnclosed w = (s r : Bytes) → w ≡ s ++ r → ¬ IsBlock s

-- A byte with which no token starts but perhaps an operator.
pub record IsOther (b : ℕ) : Type 0 where
  pub no_name : ¬ IsNameStart b
  pub no_digit : ¬ IsDigit b
  pub no_quote : (b ≢ b'"') × (b ≢ b'\'')
  pub no_mark : (b ≢ b'@') × (b ≢ b'#')

-- Why no token can be read here.
pub data IsFaulty : Reason → Bytes → Type 0 where
  unclosed_comment : {w : Bytes} → IsUnclosed w → IsFaulty unterminated_comment (b'/' ∷ b'*' ∷ w)
  bad_text :
      {q : ℕ} {x : Reason} {w : Bytes}
      → (q ≡ b'"') ⊎ (q ≡ b'\'')
      → BadText q x w
      → IsFaulty x (q ∷ w)
  single_ampersand :
      {r : Bytes} → Stops (λ c. c ≡ b'&') r → IsFaulty unexpected_ampersand (b'&' ∷ r)
  no_operator :
      {b : ℕ} {r : Bytes}
      → IsOther b
      → operator_type (b ∷ []) ≡ none
      → IsLongest (b ∷ []) r
      → IsFaulty (unexpected_character b) (b ∷ r)

module _ {D : Type 0} where
  -- The token of a word: a word of the table, `true` and `false` with their value, or a name.
  pub data WordMeans (w : Bytes) : TokenType → TokenValue D → Type 0 where
    name : find_keyword w ≡ none → WordMeans w TokenType.identifier (text w)
    truth :
        find_keyword w ≡ some TokenType.boolean_literal
        → WordMeans w TokenType.boolean_literal (boolean (eq_bytes w (bytes "true")))
    keyword :
        {ty : TokenType}
        → find_keyword w ≡ some ty
        → same_type ty TokenType.boolean_literal ≡ false
        → WordMeans w ty monostate

  -- The bytes spell a token of this type with this value, when the last bytes follow.
  pub data Spells (stod : Bytes → Option D)
      : TokenType → TokenValue D → Bytes → Bytes → Type 0 where
    word :
        {b : ℕ} {w r : Bytes} {ty : TokenType} {v : TokenValue D}
        → IsNameStart b
        → All IsNameByte w
        → Stops IsNameByte r
        → WordMeans (b ∷ w) ty v
        → Spells stod ty v (b ∷ w) r
    numeral :
        {w r : Bytes} {d : D}
        → Starts (λ b. IsDigit b ⊎ (b ≡ b'-')) w
        → All IsNumberByte w
        → stod w ≡ some d
        → Spells stod TokenType.number_literal (number d) w r
    quoted :
        {q : ℕ} (w : Bytes) {v r : Bytes}
        → (q ≡ b'"') ⊎ (q ≡ b'\'')
        → IsText q w v
        → Spells stod TokenType.string_literal (text v) (q ∷ (w ++ q ∷ [])) r
    parameter :
        {b : ℕ} {w r : Bytes}
        → IsNameStart b
        → All IsNameByte w
        → Stops IsNameByte r
        → Spells stod TokenType.op_at (text (b ∷ w)) (b'@' ∷ b ∷ w) r
    lone_at :
        {r : Bytes} → Stops IsNameStart r → Spells stod TokenType.op_at monostate (b'@' ∷ []) r
    comment :
        {w r : Bytes}
        → Stops (λ c. c ≡ b'#') w
        → InLine w
        → AtLineEnd r
        → Spells stod TokenType.comment (text (trim w)) (b'#' ∷ w) r
    doc_comment :
        {w r : Bytes}
        → InLine w
        → AtLineEnd r
        → Spells stod TokenType.doc_comment (text (trim w)) (b'#' ∷ b'#' ∷ w) r
    line_end : {r : Bytes} → Spells stod TokenType.newline monostate (b'\n' ∷ []) r
    operator :
        {w r : Bytes} {ty : TokenType}
        → operator_type w ≡ some ty
        → IsLongest w r
        → Spells stod ty monostate w r
