-- ===== src/Parser/Expressions.antt =====
-- Expressions: src/interpreter/parser.cpp, from `expression` to `makeLiteral`, and
-- `cacheOutputSpec`, whose body other productions repeat. Each production that can reach itself
-- without an argument takes fuel; the ladder of binary operators takes the parser of `unary`.
use vision_pipe.Base.{
  ℕ, zero, suc, Bool, true, false, List, [], ◌∷◌, ◌++◌, Option, none, some, Bytes, bytes,
}
use vision_pipe.Lexer.Token.{
  Token, TokenType, SourceLocation, same_type, as_string, as_number, as_bool, identifier,
  string_literal, number_literal, boolean_literal, kw_global, op_arrow, op_assign, op_comma, op_at,
  op_eq, op_ne, op_lt, op_le, op_gt, op_ge, op_plus, op_minus, op_multiply, op_divide, op_modulo,
  op_and, op_or, op_not, lparen, rparen, lbracket, rbracket,
}
use vision_pipe.Parser.Syntax.{
  CacheOutput, LiteralValue, Expression, FunctionCall, Expressions, NamedArguments, literal_expr,
  identifier_expr, function_call_expr, binary_expr, unary_expr, cache_load_expr, array_expr,
  param_ref_expr, function_call, no_expressions, expressions, no_named_arguments, named_argument,
}
use vision_pipe.Parser.State.{ok, thrown, Parser, pure, no_fuel, ◌>>=◌, ◌>>◌, ask, branch}
use vision_pipe.Parser.Cursor.{
  current, previous, peek, check, advance, match, match_any, error, consume,
}

module _ {D : Type 0} where
  -- The value that a literal's token holds, or the exception of `asNumber` or `asBool`.
  unfoldable pub or_thrown :
      {A : Type 0} → Option A → (A → LiteralValue D) → Parser D (LiteralValue D)
  or_thrown none make s = thrown
  or_thrown (some v) make s = ok (make v) s

  unfoldable pub literal_value : TokenType → Token D → Parser D (LiteralValue D)
  unfolding or_thrown as_string as_number as_bool
  literal_value number_literal t = or_thrown (as_number t) LiteralValue.float
  literal_value string_literal t = pure (LiteralValue.string (as_string t))
  literal_value boolean_literal t = or_thrown (as_bool t) LiteralValue.boolean
  literal_value _ t = pure LiteralValue.unset

  unfoldable pub make_literal : Token D → Parser D (Expression D)
  unfolding literal_value
  make_literal t = do v ← literal_value t.type t; pure (literal_expr t.location v)

  -- "Expected cache id after '->' (got '…')".
  unfoldable pub expected_cache_id : Parser D CacheOutput
  unfolding error current
  expected_cache_id = do
    t ← current
    error (bytes "Expected cache id after '->' (got '" ++ t.raw ++ bytes "')")

  unfoldable pub take_cache_id : SourceLocation → Bool → Bool → Parser D CacheOutput
  unfolding advance as_string
  take_cache_id here global dynamic = do
    t ← advance
    pure (record {
      cache_id = as_string t;
      is_global = global;
      is_dynamic = dynamic;
      location = here;
    })

  -- What follows an arrow that caches a result; the argument raises the error.
  unfoldable pub cache_output : Parser D CacheOutput → Parser D CacheOutput
  unfolding current match check take_cache_id
  cache_output reject = do
    here ← current
    global ← match kw_global
    branch (ask (check string_literal)) (take_cache_id here.location global false)
        (branch (ask (check identifier)) (take_cache_id here.location global true) reject)

  unfoldable pub cache_output_spec : Parser D (Option CacheOutput)
  unfolding match cache_output expected_cache_id
  cache_output_spec =
      branch (match op_arrow) (do o ← cache_output expected_cache_id; pure (some o)) (pure none)

  unfoldable pub with_output : FunctionCall D → CacheOutput → FunctionCall D
  with_output (function_call l n ps ns _) o = function_call l n ps ns (some o)

  unfoldable pub load_target :
      SourceLocation → Bytes → Bool → Bool → Expression D → Parser D (Expression D)
  unfolding error
  load_target l id dynamic global (function_call_expr c) =
      pure (cache_load_expr l id dynamic global c)
  load_target l id dynamic global _ = error (bytes "Expected function call after cache load '->'")

  unfoldable pub cache_load :
      Parser D (Expression D) → SourceLocation → Bytes → Bool → Parser D (Expression D)
  unfolding match load_target
  cache_load target l id dynamic = do
    global ← match kw_global
    e ← target
    load_target l id dynamic global e

  -- What follows the arrow after an expression, with the parser of `primary`.
  unfoldable pub after_arrow : Parser D (Expression D) → Expression D → Parser D (Expression D)
  unfolding error cache_output expected_cache_id with_output cache_load
  after_arrow target (function_call_expr c) = do
    o ← cache_output expected_cache_id
    pure (function_call_expr (with_output c o))
  after_arrow target (literal_expr l (LiteralValue.string id)) = cache_load target l id false
  after_arrow target (literal_expr l _) =
      error (bytes "Cache load operator '->' requires string cache id")
  after_arrow target (identifier_expr l name) = cache_load target l name true
  after_arrow target _ =
      error
        (bytes "Cache operator '->' can only be used with function calls, strings, or identifiers")

  unfoldable pub postfix : Parser D (Expression D) → Parser D (Expression D)
  unfolding match after_arrow
  postfix primary = do e ← primary; branch (match op_arrow) (after_arrow primary e) (pure e)

  -- `while (matchAny(ops)) { left = left op operand }`.
  unfoldable pub operator_loop :
      ℕ → List TokenType → Parser D (Expression D) → Expression D → Parser D (Expression D)
  unfolding match_any previous
  operator_loop zero ops operand left = no_fuel
  operator_loop (suc f) ops operand left =
      branch (match_any ops)
        (do
          op ← previous
          right ← operand
          operator_loop f ops operand (binary_expr op.location left op.type right))
        (pure left)

  unfoldable pub left_associative :
      ℕ → List TokenType → Parser D (Expression D) → Parser D (Expression D)
  unfolding operator_loop
  left_associative f ops operand = do left ← operand; operator_loop f ops operand left

  unfoldable pub factor : ℕ → Parser D (Expression D) → Parser D (Expression D)
  unfolding left_associative
  factor f unary = left_associative f (op_multiply ∷ op_divide ∷ op_modulo ∷ []) unary

  unfoldable pub term : ℕ → Parser D (Expression D) → Parser D (Expression D)
  unfolding left_associative factor
  term f unary = left_associative f (op_plus ∷ op_minus ∷ []) (factor f unary)

  unfoldable pub comparison : ℕ → Parser D (Expression D) → Parser D (Expression D)
  unfolding left_associative term
  comparison f unary = left_associative f (op_lt ∷ op_le ∷ op_gt ∷ op_ge ∷ []) (term f unary)

  unfoldable pub equality : ℕ → Parser D (Expression D) → Parser D (Expression D)
  unfolding left_associative comparison
  equality f unary = left_associative f (op_eq ∷ op_ne ∷ []) (comparison f unary)

  unfoldable pub logical_and : ℕ → Parser D (Expression D) → Parser D (Expression D)
  unfolding left_associative equality
  logical_and f unary = left_associative f (op_and ∷ []) (equality f unary)

  unfoldable pub logical_or : ℕ → Parser D (Expression D) → Parser D (Expression D)
  unfolding left_associative logical_and
  logical_or f unary = left_associative f (op_or ∷ []) (logical_and f unary)

  unfoldable pub param_reference : Parser D (Expression D)
  unfolding advance as_string
  param_reference = do t ← advance; pure (param_ref_expr t.location (as_string t))

  -- The test for `name = value` at the start of an argument.
  unfoldable pub starts_named_argument : Parser D Bool
  unfolding check peek same_type
  starts_named_argument =
      branch (ask (check identifier)) (do t ← peek 1; pure (same_type t.type op_assign))
        (pure false)

-- The productions that reach each other without an argument of their own.
unfoldable mutual
  unfolding current previous peek check advance match match_any error consume same_type as_string
      make_literal postfix logical_or param_reference starts_named_argument

  pub assignment : {D : Type 0} → ℕ → Parser D (Expression D)
  assignment zero = no_fuel
  assignment (suc f) = do
    e ← logical_or f (unary f)
    branch (match op_assign)
        (do op ← previous; right ← assignment f; pure (binary_expr op.location e op_assign right))
        (pure e)

  pub unary : {D : Type 0} → ℕ → Parser D (Expression D)
  unary zero = no_fuel
  unary (suc f) =
      branch (match_any (op_not ∷ op_minus ∷ []))
        (do op ← previous; operand ← unary f; pure (unary_expr op.location op.type operand))
        (postfix (primary f))

  pub primary : {D : Type 0} → ℕ → Parser D (Expression D)
  primary zero = no_fuel
  primary (suc f) = branch (match number_literal) (previous >>= make_literal) (
      branch (match string_literal) (previous >>= make_literal) (
        branch (match boolean_literal) (previous >>= make_literal) (
          branch (ask (check lbracket)) (array_literal f) (
            branch (match lparen)
              (do e ← assignment f; consume rparen (bytes "Expected ')' after expression"); pure e)
              (branch (ask (check op_at)) param_reference (
                branch (match identifier) (previous >>= name_or_call f)
                  (error (bytes "Expected expression"))))))))

  -- An identifier that was read: a function call, if `(` follows.
  pub name_or_call : {D : Type 0} → ℕ → Token D → Parser D (Expression D)
  name_or_call zero t = no_fuel
  name_or_call (suc f) t =
      branch (ask (check lparen)) (function_call_at f (as_string t) t.location)
        (pure (identifier_expr t.location (as_string t)))

  pub function_call_at : {D : Type 0} → ℕ → Bytes → SourceLocation → Parser D (Expression D)
  function_call_at zero name loc = no_fuel
  function_call_at (suc f) name loc = do
    consume lparen (bytes "Expected '(' after function name")
    (args, named) ←
        branch (ask (check rparen)) (pure (no_expressions, no_named_arguments)) (arguments f false)
    consume rparen (bytes "Expected ')' after arguments")
    pure (function_call_expr (function_call loc name args named none))

  -- The `do` loop over the arguments, with `seenNamedArg`.
  pub arguments : {D : Type 0} → ℕ → Bool → Parser D (Expressions D × NamedArguments D)
  arguments zero seen_named = no_fuel
  arguments (suc f) seen_named =
      branch starts_named_argument
        (do
          t ← advance
          advance
          e ← assignment f
          (args, named) ←
              branch (match op_comma) (arguments f true) (pure (no_expressions, no_named_arguments))
          pure (args, named_argument (as_string t) e named))
        (branch (pure seen_named) (error (bytes "Positional argument cannot follow named argument"))
          (do
            e ← assignment f
            (args, named) ←
                branch (match op_comma) (arguments f false)
                  (pure (no_expressions, no_named_arguments))
            pure (expressions e args, named)))

  pub array_literal : {D : Type 0} → ℕ → Parser D (Expression D)
  array_literal zero = no_fuel
  array_literal (suc f) = do
    here ← current
    consume lbracket (bytes "Expected '['")
    elements ← branch (ask (check rbracket)) (pure no_expressions) (argument_list f)
    consume rbracket (bytes "Expected ']'")
    pure (array_expr here.location elements)

  -- `do { push_back(expression()) } while (match(OP_COMMA))`.
  pub argument_list : {D : Type 0} → ℕ → Parser D (Expressions D)
  argument_list zero = no_fuel
  argument_list (suc f) = do
    e ← assignment f
    es ← branch (match op_comma) (argument_list f) (pure no_expressions)
    pure (expressions e es)

abbrev pub expression : {D : Type 0} → ℕ → Parser D (Expression D)
expression f = assignment f
