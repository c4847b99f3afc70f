-- ===== src/Parser/Grammar.antt =====
-- The grammar of expressions, as include/interpreter/parser.h and the productions give it: a rule
-- relates an expression to the tokens before it was read and after.
use vision_pipe.Base.{ℕ, zero, suc, Bool, true, false, List, [], ◌∷◌, none, some, ◌≡◌, ◌&&◌, Bytes}
use vision_pipe.Lexer.Token.{
  Token, TokenType, SourceLocation, same_type, as_string, as_number, as_bool, identifier,
  string_literal, number_literal, boolean_literal, kw_global, op_arrow, op_assign, op_comma, op_at,
  op_eq, op_ne, op_lt, op_le, op_gt, op_ge, op_plus, op_minus, op_multiply, op_divide, op_modulo,
  op_and, op_or, op_not, lparen, rparen, lbracket, rbracket,
}
use vision_pipe.Parser.Syntax.{
  CacheOutput, LiteralValue, Expression, FunctionCall, Expressions, NamedArguments, literal_expr,
  identifier_expr, function_call_expr, binary_expr, unary_expr, cache_load_expr, array_expr,
  param_ref_expr, function_call, no_expressions, expressions, no_named_arguments, named_argument,
}
use vision_pipe.Parser.Cursor.{any_of}
use vision_pipe.Parser.Expressions.{with_output}

-- The operators of the binary levels, the tightest first.
unfoldable pub operators : ℕ → List TokenType
operators zero = op_multiply ∷ op_divide ∷ op_modulo ∷ []
operators (suc zero) = op_plus ∷ op_minus ∷ []
operators (suc (suc zero)) = op_lt ∷ op_le ∷ op_gt ∷ op_ge ∷ []
operators (suc (suc (suc zero))) = op_eq ∷ op_ne ∷ []
operators (suc (suc (suc (suc zero)))) = op_and ∷ []
operators (suc (suc (suc (suc (suc zero))))) = op_or ∷ []
operators _ = []

module _ {D : Type 0} where
  abbrev pub Is : TokenType → Token D → Type 0
  Is ty t = same_type t.type ty ≡ true

  -- Whether the tokens start like a named argument.
  unfoldable pub starts_named : List (Token D) → Bool
  unfolding same_type
  starts_named (t ∷ u ∷ ts) = same_type t.type identifier && same_type u.type op_assign
  starts_named _ = false

  -- `global`, or nothing.
  pub data Global : Bool → List (Token D) → List (Token D) → Type 0 where
    local : {ts : List (Token D)} → Global false ts ts
    global : {ts : List (Token D)} (t : Token D) → Is kw_global t → Global true (t ∷ ts) ts

  -- The identifier of a cache: a text, or a variable.
  pub data CacheId : Bytes → Bool → List (Token D) → List (Token D) → Type 0 where
    quoted :
        {ts : List (Token D)} (t : Token D)
        → Is string_literal t
        → CacheId (as_string t) false (t ∷ ts) ts
    named :
        {ts : List (Token D)} (t : Token D)
        → Is identifier t
        → CacheId (as_string t) true (t ∷ ts) ts

  -- Where a result is cached: the location is that of the token behind the arrow.
  pub data Output : CacheOutput → List (Token D) → List (Token D) → Type 0 where
    output :
        {t : Token D} {ts us vs : List (Token D)} {global dynamic : Bool} {id : Bytes}
        → Global global (t ∷ ts) us
        → CacheId id dynamic us vs
        → Output
            (record {
              cache_id = id;
              is_global = global;
              is_dynamic = dynamic;
              location = t.location;
            })
            (t ∷ ts)
            vs

mutual
  -- assignment -> logicalOr ("=" assignment)?
  pub data Assignment {D : Type 0} : Expression D → List (Token D) → List (Token D) → Type 0 where
    alone : {e : Expression D} {ts us : List (Token D)} → Binary 6 e ts us → Assignment e ts us
    assigned :
        {e e' : Expression D} {ts us vs : List (Token D)} (t : Token D)
        → Binary 6 e ts (t ∷ us)
        → Is op_assign t
        → Assignment e' us vs
        → Assignment (binary_expr t.location e op_assign e') ts vs

  -- level -> tighter (operator tighter)*, grouped to the left
  pub data Binary {D : Type 0} : ℕ → Expression D → List (Token D) → List (Token D) → Type 0 where
    operand : {e : Expression D} {ts us : List (Token D)} → Unary e ts us → Binary zero e ts us
    tighter :
        {n : ℕ} {e : Expression D} {ts us : List (Token D)}
        → Binary n e ts us
        → Binary (suc n) e ts us
    joined :
        {n : ℕ} {e e' : Expression D} {ts us vs : List (Token D)} (t : Token D)
        → Binary (suc n) e ts (t ∷ us)
        → any_of (operators n) t.type ≡ true
        → Binary n e' us vs
        → Binary (suc n) (binary_expr t.location e t.type e') ts vs

  -- unary -> ("not" | "-") unary | postfix
  pub data Unary {D : Type 0} : Expression D → List (Token D) → List (Token D) → Type 0 where
    plain : {e : Expression D} {ts us : List (Token D)} → Postfix e ts us → Unary e ts us
    prefixed :
        {e : Expression D} {ts us : List (Token D)} (t : Token D)
        → any_of (op_not ∷ op_minus ∷ []) t.type ≡ true
        → Unary e ts us
        → Unary (unary_expr t.location t.type e) (t ∷ ts) us

  -- postfix -> primary | call "->" output | (text | identifier) "->" "global"? call
  pub data Postfix {D : Type 0} : Expression D → List (Token D) → List (Token D) → Type 0 where
    bare : {e : Expression D} {ts us : List (Token D)} → Primary e ts us → Postfix e ts us
    cached :
        {c : FunctionCall D} {o : CacheOutput} {ts us vs : List (Token D)} (t : Token D)
        → Primary (function_call_expr c) ts (t ∷ us)
        → Is op_arrow t
        → Output o us vs
        → Postfix (function_call_expr (with_output c o)) ts vs
    loaded :
        {l : SourceLocation} {id : Bytes} {c : FunctionCall D} {g : Bool}
        {ts us vs ws : List (Token D)} (t : Token D)
        → Primary (literal_expr l (LiteralValue.string id)) ts (t ∷ us)
        → Is op_arrow t
        → Global g us vs
        → Primary (function_call_expr c) vs ws
        → Postfix (cache_load_expr l id false g c) ts ws
    loaded_dynamic :
        {l : SourceLocation} {id : Bytes} {c : FunctionCall D} {g : Bool}
        {ts us vs ws : List (Token D)} (t : Token D)
        → Primary (identifier_expr l id) ts (t ∷ us)
        → Is op_arrow t
        → Global g us vs
        → Primary (function_call_expr c) vs ws
        → Postfix (cache_load_expr l id true g c) ts ws

  -- primary -> literal | identifier | call | "(" expression ")" | array | "@" name
  pub data Primary {D : Type 0} : Expression D → List (Token D) → List (Token D) → Type 0 where
    number :
        {d : D} {ts : List (Token D)} (t : Token D)
        → Is number_literal t
        → as_number t ≡ some d
        → Primary (literal_expr t.location (LiteralValue.float d)) (t ∷ ts) ts
    text :
        {ts : List (Token D)} (t : Token D)
        → Is string_literal t
        → Primary (literal_expr t.location (LiteralValue.string (as_string t))) (t ∷ ts) ts
    truth :
        {b : Bool} {ts : List (Token D)} (t : Token D)
        → Is boolean_literal t
        → as_bool t ≡ some b
        → Primary (literal_expr t.location (LiteralValue.boolean b)) (t ∷ ts) ts
    empty_array :
        {ts : List (Token D)} (t u : Token D)
        → Is lbracket t
        → Is rbracket u
        → Primary (array_expr t.location no_expressions) (t ∷ u ∷ ts) ts
    array :
        {es : Expressions D} {ts us : List (Token D)} (t u : Token D)
        → Is lbracket t
        → Elements es ts (u ∷ us)
        → Is rbracket u
        → Primary (array_expr t.location es) (t ∷ ts) us
    parenthesised :
        {e : Expression D} {ts us : List (Token D)} (t u : Token D)
        → Is lparen t
        → Assignment e ts (u ∷ us)
        → Is rparen u
        → Primary e (t ∷ ts) us
    parameter :
        {ts : List (Token D)} (t : Token D)
        → Is op_at t
        → Primary (param_ref_expr t.location (as_string t)) (t ∷ ts) ts
    variable :
        {ts : List (Token D)} (t : Token D)
        → Is identifier t
        → Primary (identifier_expr t.location (as_string t)) (t ∷ ts) ts
    empty_call :
        {ts : List (Token D)} (t u v : Token D)
        → Is identifier t
        → Is lparen u
        → Is rparen v
        → Primary
            (function_call_expr
              (function_call t.location (as_string t) no_expressions no_named_arguments none))
            (t ∷ u ∷ v ∷ ts)
            ts
    call :
        {es : Expressions D} {ns : NamedArguments D} {ts us : List (Token D)} (t u v : Token D)
        → Is identifier t
        → Is lparen u
        → Arguments false es ns ts (v ∷ us)
        → Is rparen v
        → Primary
            (function_call_expr (function_call t.location (as_string t) es ns none))
            (t ∷ u ∷ ts)
            us

  pub data Elements {D : Type 0} : Expressions D → List (Token D) → List (Token D) → Type 0 where
    last :
        {e : Expression D} {ts us : List (Token D)}
        → Assignment e ts us
        → Elements (expressions e no_expressions) ts us
    more :
        {e : Expression D} {es : Expressions D} {ts us vs : List (Token D)} (t : Token D)
        → Assignment e ts (t ∷ us)
        → Is op_comma t
        → Elements es us vs
        → Elements (expressions e es) ts vs

  -- Arguments by place, then by name; `true` stands behind one by name. An argument by place does
  -- not start with a name and `=`.
  pub data Arguments {D : Type 0}
      : Bool → Expressions D → NamedArguments D → List (Token D) → List (Token D) → Type 0 where
    last_placed :
        {e : Expression D} {ts us : List (Token D)}
        → starts_named ts ≡ false
        → Assignment e ts us
        → Arguments false (expressions e no_expressions) no_named_arguments ts us
    placed :
        {e : Expression D} {es : Expressions D} {ns : NamedArguments D} {ts us vs : List (Token D)}
        (t : Token D)
        → starts_named ts ≡ false
        → Assignment e ts (t ∷ us)
        → Is op_comma t
        → Arguments false es ns us vs
        → Arguments false (expressions e es) ns ts vs
    last_named :
        {b : Bool} {e : Expression D} {ts us : List (Token D)} (t u : Token D)
        → Is identifier t
        → Is op_assign u
        → Assignment e ts us
        → Arguments b no_expressions
            (named_argument (as_string t) e no_named_arguments)
            (t ∷ u ∷ ts)
            us
    named_then :
        {b : Bool} {e : Expression D} {es : Expressions D} {ns : NamedArguments D}
        {ts us vs : List (Token D)} (t u v : Token D)
        → Is identifier t
        → Is op_assign u
        → Assignment e ts (v ∷ us)
        → Is op_comma v
        → Arguments true es ns us vs
        → Arguments b es (named_argument (as_string t) e ns) (t ∷ u ∷ ts) vs
