-- ===== src/Lexer/Token.antt =====
-- Tokens of the script language: include/interpreter/lexer.h and the Token part of
-- src/interpreter/lexer.cpp. A `double` is an abstract type `D`.
use mathlib.Core.Option.{some-injective}
use vision_pipe.Base.{
  ◌≡◌, All, Bool-cases, inl, inr, subst, ℕ, Bool, ◌&&◌, List, [], ◌∷◌, Option, none, some, ◌==◌,
  leb, if◌then◌else◌, Bytes, bytes, eq_bytes,
}

pub data TokenType : Type 0 where
  identifier string_literal number_literal boolean_literal kw_pipeline kw_end kw_let : TokenType
  kw_global kw_cache kw_exec_seq kw_exec_multi kw_exec_loop kw_exec_interval kw_no_interval :
      TokenType
  kw_exec_interval_multi kw_exec_rt_seq kw_exec_rt_multi kw_exec_nasync kw_exec_fork : TokenType
  kw_debug_start kw_debug_end kw_use kw_if kw_else kw_while kw_break kw_continue kw_return :
      TokenType
  kw_import kw_config kw_params kw_on_params op_arrow op_pipe op_assign op_comma op_dot : TokenType
  op_colon op_at op_eq op_ne op_lt op_le op_gt op_ge op_plus op_minus op_multiply op_divide :
      TokenType
  op_modulo op_and op_or op_not lparen rparen lbracket rbracket lbrace rbrace newline : TokenType
  comment doc_comment end_of_file unknown : TokenType

-- The place of a token type in the enumeration, which the range tests compare.
unfoldable pub ordinal : TokenType → ℕ
ordinal identifier = 0
ordinal string_literal = 1
ordinal number_literal = 2
ordinal boolean_literal = 3
ordinal kw_pipeline = 4
ordinal kw_end = 5
ordinal kw_let = 6
ordinal kw_global = 7
ordinal kw_cache = 8
ordinal kw_exec_seq = 9
ordinal kw_exec_multi = 10
ordinal kw_exec_loop = 11
ordinal kw_exec_interval = 12
ordinal kw_no_interval = 13
ordinal kw_exec_interval_multi = 14
ordinal kw_exec_rt_seq = 15
ordinal kw_exec_rt_multi = 16
ordinal kw_exec_nasync = 17
ordinal kw_exec_fork = 18
ordinal kw_debug_start = 19
ordinal kw_debug_end = 20
ordinal kw_use = 21
ordinal kw_if = 22
ordinal kw_else = 23
ordinal kw_while = 24
ordinal kw_break = 25
ordinal kw_continue = 26
ordinal kw_return = 27
ordinal kw_import = 28
ordinal kw_config = 29
ordinal kw_params = 30
ordinal kw_on_params = 31
ordinal op_arrow = 32
ordinal op_pipe = 33
ordinal op_assign = 34
ordinal op_comma = 35
ordinal op_dot = 36
ordinal op_colon = 37
ordinal op_at = 38
ordinal op_eq = 39
ordinal op_ne = 40
ordinal op_lt = 41
ordinal op_le = 42
ordinal op_gt = 43
ordinal op_ge = 44
ordinal op_plus = 45
ordinal op_minus = 46
ordinal op_multiply = 47
ordinal op_divide = 48
ordinal op_modulo = 49
ordinal op_and = 50
ordinal op_or = 51
ordinal op_not = 52
ordinal lparen = 53
ordinal rparen = 54
ordinal lbracket = 55
ordinal rbracket = 56
ordinal lbrace = 57
ordinal rbrace = 58
ordinal newline = 59
ordinal comment = 60
ordinal doc_comment = 61
ordinal end_of_file = 62
ordinal unknown = 63

unfoldable pub same_type : TokenType → TokenType → Bool
unfolding ordinal
same_type s t = ordinal s == ordinal t

unfoldable pub type_to_string : TokenType → Bytes
type_to_string identifier = bytes "IDENTIFIER"
type_to_string string_literal = bytes "STRING"
type_to_string number_literal = bytes "NUMBER"
type_to_string boolean_literal = bytes "BOOLEAN"
type_to_string kw_pipeline = bytes "PIPELINE"
type_to_string kw_end = bytes "END"
type_to_string kw_let = bytes "LET"
type_to_string kw_global = bytes "GLOBAL"
type_to_string kw_cache = bytes "CACHE"
type_to_string kw_exec_seq = bytes "EXEC_SEQ"
type_to_string kw_exec_multi = bytes "EXEC_MULTI"
type_to_string kw_exec_loop = bytes "EXEC_LOOP"
type_to_string kw_exec_interval = bytes "EXEC_INTERVAL"
type_to_string kw_no_interval = bytes "NO_INTERVAL"
type_to_string kw_exec_interval_multi = bytes "EXEC_INTERVAL_MULTI"
type_to_string kw_exec_rt_seq = bytes "EXEC_RT_SEQ"
type_to_string kw_exec_rt_multi = bytes "EXEC_RT_MULTI"
type_to_string kw_exec_nasync = bytes "EXEC_NASYNC"
type_to_string kw_exec_fork = bytes "EXEC_FORK"
type_to_string kw_debug_start = bytes "DEBUG_START"
type_to_string kw_debug_end = bytes "DEBUG_END"
type_to_string kw_use = bytes "USE"
type_to_string kw_if = bytes "IF"
type_to_string kw_else = bytes "ELSE"
type_to_string kw_while = bytes "WHILE"
type_to_string kw_break = bytes "BREAK"
type_to_string kw_continue = bytes "CONTINUE"
type_to_string kw_return = bytes "RETURN"
type_to_string kw_import = bytes "IMPORT"
type_to_string kw_config = bytes "CONFIG"
type_to_string kw_params = bytes "PARAMS"
type_to_string kw_on_params = bytes "ON_PARAMS"
type_to_string op_arrow = bytes "ARROW"
type_to_string op_pipe = bytes "PIPE"
type_to_string op_assign = bytes "ASSIGN"
type_to_string op_comma = bytes "COMMA"
type_to_string op_dot = bytes "DOT"
type_to_string op_colon = bytes "COLON"
type_to_string op_at = bytes "AT"
type_to_string op_eq = bytes "EQ"
type_to_string op_ne = bytes "NE"
type_to_string op_lt = bytes "LT"
type_to_string op_le = bytes "LE"
type_to_string op_gt = bytes "GT"
type_to_string op_ge = bytes "GE"
type_to_string op_plus = bytes "PLUS"
type_to_string op_minus = bytes "MINUS"
type_to_string op_multiply = bytes "MULTIPLY"
type_to_string op_divide = bytes "DIVIDE"
type_to_string op_modulo = bytes "MODULO"
type_to_string op_and = bytes "AND"
type_to_string op_or = bytes "OR"
type_to_string op_not = bytes "NOT"
type_to_string lparen = bytes "LPAREN"
type_to_string rparen = bytes "RPAREN"
type_to_string lbracket = bytes "LBRACKET"
type_to_string rbracket = bytes "RBRACKET"
type_to_string lbrace = bytes "LBRACE"
type_to_string rbrace = bytes "RBRACE"
type_to_string newline = bytes "NEWLINE"
type_to_string comment = bytes "COMMENT"
type_to_string doc_comment = bytes "DOC_COMMENT"
type_to_string end_of_file = bytes "EOF"
type_to_string unknown = bytes "UNKNOWN"

-- The keyword table.
unfoldable pub keywords : List (Bytes × TokenType)
keywords =
    (bytes "pipeline", kw_pipeline)
    ∷ (bytes "end", kw_end)
    ∷ (bytes "let", kw_let)
    ∷ (bytes "global", kw_global)
    ∷ (bytes "cache", kw_cache)
    ∷ (bytes "exec_seq", kw_exec_seq)
    ∷ (bytes "exec_multi", kw_exec_multi)
    ∷ (bytes "exec_loop", kw_exec_loop)
    ∷ (bytes "exec_interval", kw_exec_interval)
    ∷ (bytes "no_interval", kw_no_interval)
    ∷ (bytes "exec_interval_multi", kw_exec_interval_multi)
    ∷ (bytes "exec_rt_seq", kw_exec_rt_seq)
    ∷ (bytes "exec_rt_multi", kw_exec_rt_multi)
    ∷ (bytes "exec_nasync", kw_exec_nasync)
    ∷ (bytes "exec_fork", kw_exec_fork)
    ∷ (bytes "debug_start", kw_debug_start)
    ∷ (bytes "debug_end", kw_debug_end)
    ∷ (bytes "use", kw_use)
    ∷ (bytes "if", kw_if)
    ∷ (bytes "else", kw_else)
    ∷ (bytes "while", kw_while)
    ∷ (bytes "break", kw_break)
    ∷ (bytes "continue", kw_continue)
    ∷ (bytes "return", kw_return)
    ∷ (bytes "import", kw_import)
    ∷ (bytes "config", kw_config)
    ∷ (bytes "params", kw_params)
    ∷ (bytes "on_params", kw_on_params)
    ∷ (bytes "true", boolean_literal)
    ∷ (bytes "false", boolean_literal)
    ∷ (bytes "and", op_and)
    ∷ (bytes "or", op_or)
    ∷ (bytes "not", op_not)
    ∷ []

pub record SourceLocation : Type 0 where
  pub filename : Bytes
  pub line : ℕ
  pub column : ℕ
  pub offset : ℕ

pub data TokenValue (D : Type 0) : Type 0 where
  monostate : TokenValue D
  text : Bytes → TokenValue D
  number : D → TokenValue D
  boolean : Bool → TokenValue D

pub record Token (D : Type 0) : Type 0 where
  pub type : TokenType
  pub value : TokenValue D
  pub location : SourceLocation
  pub raw : Bytes

-- `isKeyword`, `isOperator` and `isLiteral`, on the type of the token.
unfoldable pub is_keyword : TokenType → Bool
unfolding ordinal
is_keyword t = leb (ordinal kw_pipeline) (ordinal t) && leb (ordinal t) (ordinal kw_config)

unfoldable pub is_operator : TokenType → Bool
unfolding ordinal
is_operator t = leb (ordinal op_arrow) (ordinal t) && leb (ordinal t) (ordinal op_not)

unfoldable pub is_literal : TokenType → Bool
unfolding ordinal
is_literal t = leb (ordinal identifier) (ordinal t) && leb (ordinal t) (ordinal boolean_literal)

-- `asString`, and `asNumber` and `asBool` with `none` for the exception.
module _ {D : Type 0} where
  string_of : TokenValue D → Bytes → Bytes
  string_of (text s) raw = s
  string_of _ raw = raw

  unfoldable pub as_string : Token D → Bytes
  unfolding string_of
  as_string t = string_of t.value t.raw

  number_of : TokenValue D → Option D
  number_of (number d) = some d
  number_of _ = none

  unfoldable pub as_number : Token D → Option D
  unfolding number_of
  as_number t = number_of t.value

  bool_of : TokenValue D → Option Bool
  bool_of (boolean b) = some b
  bool_of _ = none

  unfoldable pub as_bool : Token D → Option Bool
  unfolding bool_of
  as_bool t = bool_of t.value

-- `find` in the keyword table: the first entry with that word.
unfoldable pub find_word : Bytes → List (Bytes × TokenType) → Option TokenType
unfolding eq_bytes
find_word w [] = none
find_word w ((k, t) ∷ rest) = if eq_bytes k w then some t else find_word w rest

unfoldable pub find_keyword : Bytes → Option TokenType
unfolding keywords find_word
find_keyword w = find_word w keywords

-- What holds of every type in a table holds of the type that is found in it.
pub find_word-All {ℓ} :
    (P : TokenType → Type ℓ) (w : Bytes) (table : List (Bytes × TokenType)) (ty : TokenType)
    → All (λ (k : Bytes × TokenType). P k.1) table
    → find_word w table ≡ some ty
    → P ty
unfolding find_word
find_word-All P w [] ty a h = cc
find_word-All P w ((k, t) ∷ rest) ty a h = elim (Bool-cases (eq_bytes k w)) [
  | inl e ↦ subst P (some-injective t ty (rw e at h)) a.0
  | inr e ↦ find_word-All P w rest ty a.1 (rw e at h)
]
