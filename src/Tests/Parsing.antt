-- ===== src/Tests/Parsing.antt =====
-- Runs of the parser and its theorems at concrete inputs.
use vision_pipe.Base.{ℕ, true, List, [], ◌∷◌, Bytes, bytes, ◌≡◌, ◌≢◌, refl, inl, inr, All}
use vision_pipe.Lexer.Token.{
  Token, TokenType, TokenValue, SourceLocation, as_number, as_string, same_type,
}
use vision_pipe.Parser.Syntax.{
  Program, Expression, LiteralValue, literal_expr, identifier_expr, binary_expr,
}
use vision_pipe.Parser.State.{State, state, ParseError, ok, failed, out_of_fuel}
use vision_pipe.Parser.Cursor.{is_at_end, any_of}
use vision_pipe.Parser.Programs.{parse, parse_expression}
use vision_pipe.Parser.Grammar.{
  operators, Assignment, alone, tighter, joined, operand, plain, bare, Primary, variable,
}
use vision_pipe.Parser.Gives.{next_in}
use vision_pipe.Parser.Spelling.{continuing}
use vision_pipe.Parser.Completeness.{parse_expression_complete}
use vision_pipe.Parser.Soundness.{parse_expression_sound}
use vision_pipe.Parser.Runs.{HasEof, HoldsLiteral}
use vision_pipe.Parser.Recorded.{syntax_errors, Recorded, parse-ends}
use vision_pipe.Parser.Total.{parse_total}

abbrev here : SourceLocation
here = record { filename = []; line = 1; column = 1; offset = 0 }

abbrev token : TokenType → TokenValue ℕ → Bytes → Token ℕ
token ty v raw = record { type = ty; value = v; location = here; raw = raw }

abbrev symbol : TokenType → Token ℕ
symbol ty = token ty TokenValue.monostate []

abbrev number : ℕ → Token ℕ
number n = token TokenType.number_literal (TokenValue.number n) []

abbrev word : Bytes → Token ℕ
word s = token TokenType.identifier (TokenValue.text s) s

-- pipeline p f(x = 3) end, then a stray parenthesis and the end.
abbrev script : List (Token ℕ)
script =
    symbol TokenType.kw_pipeline
    ∷ word (bytes "p")
    ∷ word (bytes "f")
    ∷ symbol TokenType.lparen
    ∷ word (bytes "x")
    ∷ symbol TokenType.op_assign
    ∷ number 3
    ∷ symbol TokenType.rparen
    ∷ symbol TokenType.kw_end
    ∷ symbol TokenType.rparen
    ∷ symbol TokenType.end_of_file
    ∷ []

symbol-HoldsLiteral :
    (ty : TokenType)
    → ty ≢ TokenType.number_literal
    → ty ≢ TokenType.boolean_literal
    → HoldsLiteral (symbol ty)
symbol-HoldsLiteral ty h k = record { number = λ e _. h e; boolean = λ e _. k e }

word-HoldsLiteral : (s : Bytes) → HoldsLiteral (word s)
word-HoldsLiteral s = record { number = λ e. cc; boolean = λ e. cc }

number-HoldsLiteral : (n : ℕ) → HoldsLiteral (number n)
unfolding as_number
number-HoldsLiteral n = record { number = λ e k. cc; boolean = λ e. cc }

script-HoldsLiteral : All HoldsLiteral script
script-HoldsLiteral = (
  symbol-HoldsLiteral TokenType.kw_pipeline (λ e. cc) (λ e. cc),
  (
    word-HoldsLiteral (bytes "p"),
    (
      word-HoldsLiteral (bytes "f"),
      (
        symbol-HoldsLiteral TokenType.lparen (λ e. cc) (λ e. cc),
        (
          word-HoldsLiteral (bytes "x"),
          (
            symbol-HoldsLiteral TokenType.op_assign (λ e. cc) (λ e. cc),
            (
              number-HoldsLiteral 3,
              (
                symbol-HoldsLiteral TokenType.rparen (λ e. cc) (λ e. cc),
                (
                  symbol-HoldsLiteral TokenType.kw_end (λ e. cc) (λ e. cc),
                  (
                    symbol-HoldsLiteral TokenType.rparen (λ e. cc) (λ e. cc),
                    (symbol-HoldsLiteral TokenType.end_of_file (λ e. cc) (λ e. cc), tt),
                  ),
                ),
              ),
            ),
          ),
        ),
      ),
    ),
  ),
)

script-HasEof : HasEof script
unfolding same_type
script-HasEof = inr (inr (inr (inr (inr (inr (inr (inr (inr (inr (inl refl))))))))))

parse-ends_example :
    (parse script [] ≢ out_of_fuel)
    × ((e : ParseError) (s : State ℕ) → parse script [] ≢ failed e s)
    × Recorded (syntax_errors script []) (parse script [])
parse-ends_example = parse-ends script []

parse_total_example :
    (p : Program ℕ) × (s : State ℕ) × (parse script [] ≡ ok p s) × (is_at_end s ≡ true)
parse_total_example = parse_total script [] script-HasEof script-HoldsLiteral

-- 1 + 2 * x, before `end`.
abbrev sum : List (Token ℕ)
sum =
    number 1
    ∷ symbol TokenType.op_plus
    ∷ number 2
    ∷ symbol TokenType.op_multiply
    ∷ word (bytes "x")
    ∷ symbol TokenType.kw_end
    ∷ []

abbrev sum_tree : Expression ℕ
sum_tree = binary_expr here (literal_expr here (LiteralValue.float 1)) TokenType.op_plus (
    binary_expr here (literal_expr here (LiteralValue.float 2)) TokenType.op_multiply
      (identifier_expr here (bytes "x")))

sum-Assignment : Assignment sum_tree sum (symbol TokenType.kw_end ∷ [])
unfolding same_type as_number as_string operators any_of
sum-Assignment = alone (
    tighter (
      tighter (
        tighter (
          tighter (
            joined (symbol TokenType.op_plus)
              (tighter (tighter (operand (plain (bare (Primary.number (number 1) refl refl))))))
              refl
              (joined (symbol TokenType.op_multiply)
                (tighter (operand (plain (bare (Primary.number (number 2) refl refl))))) refl
                (operand (plain (bare (variable (word (bytes "x")) refl))))))))))

parse_expression_complete_example :
    (b : List (Token ℕ)) × (parse_expression sum
      ≡ ok sum_tree (state b (symbol TokenType.kw_end ∷ []) [] []))
unfolding same_type any_of next_in continuing
parse_expression_complete_example = parse_expression_complete sum-Assignment refl

parse_expression_sound_example : Assignment sum_tree sum (symbol TokenType.kw_end ∷ [])
unfolding same_type any_of next_in continuing
parse_expression_sound_example =
    parse_expression_sound (parse_expression_complete sum-Assignment refl).1
