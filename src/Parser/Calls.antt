-- ===== src/Parser/Calls.antt =====
-- The parser reads the arrays, calls and names that the grammar spells, when it reads what stands in
-- them.
use vision_pipe.Base.{
  ℕ, zero, suc, ◌<◌, ◌≤◌, Bool, true, false, List, [], ◌∷◌, none, ◌≡◌, refl, arith, length, Bytes,
  Bool-cases, inl, inr, ◌&&◌,
}
use vision_pipe.Lexer.Token.{
  Token, TokenType, same_type, as_string, identifier, string_literal, number_literal,
  boolean_literal, op_assign, op_at, lparen, rparen, lbracket, rbracket,
}
use vision_pipe.Parser.Syntax.{
  Expression, Expressions, NamedArguments, identifier_expr, function_call_expr, array_expr,
  param_ref_expr, function_call, no_expressions, no_named_arguments,
}
use vision_pipe.Parser.State.{state, ParseError, Parser, branch}
use vision_pipe.Parser.Cursor.{any_of, match, peek, at_or_out}
use vision_pipe.Parser.Expressions.{
  assignment, primary, name_or_call, arguments, array_literal, argument_list, param_reference,
  starts_named_argument,
}
use vision_pipe.Parser.Grammar.{Is, starts_named}
use vision_pipe.Parser.Gives.{
  Gives, Gives-pure, Gives-bind, Gives-yes, Gives-no, next_in, next-other, check-no, previous-yes,
  current-yes, advance-yes, check-yes, match-yes, consume-yes,
}
use vision_pipe.Parser.Readings as R
use vision_pipe.Parser.Readings.{Reading, finished, step, yes_branch, no_branch, known}
use vision_pipe.Parser.Spelling.{starters, starters-apart}
use vision_pipe.Parser.Leaves.{skip_match, skip_check}

and-right : {x y : Bool} → x ≡ true → x && y ≡ false → y ≡ false
and-right h k = ground arith

module _ {D : Type 0} where
  pub second :
      (t u : Token D) (b ts : List (Token D)) (d : Bytes) (es : List ParseError)
      → Gives (peek 1) (state b (t ∷ u ∷ ts) d es) u (state b (t ∷ u ∷ ts) d es)
  unfolding peek at_or_out
  second t u b ts d es = record { gives = refl }

  pub named-no :
      (b ts : List (Token D)) (d : Bytes) (es : List ParseError)
      → 1 < length ts
      → starts_named ts ≡ false
      → Gives starts_named_argument (state b ts d es) false (state b ts d es)
  unfolding starts_named_argument starts_named same_type
  named-no b [] d es l h = absurd (omega arith)
  named-no b (t ∷ []) d es l h = absurd (omega arith)
  named-no b (t ∷ u ∷ ts) d es l h = elim (Bool-cases (same_type t.type identifier)) [
    | inl e ↦
        Gives-yes _ (check-yes t b (u ∷ ts) d es identifier e (refl, refl))
          (Gives-bind _ (second t u b ts d es) (record { gives = rw (and-right e h) refl }))
    | inr e ↦
        Gives-no _ (check-no b (t ∷ u ∷ ts) d es identifier (next-other identifier t (u ∷ ts) e))
          (Gives-pure false (state b (t ∷ u ∷ ts) d es))
  ]

  pub named-yes :
      (t u : Token D) (b ts : List (Token D)) (d : Bytes) (es : List ParseError)
      → Is identifier t
      → Is op_assign u
      → Gives starts_named_argument (state b (t ∷ u ∷ ts) d es) true (state b (t ∷ u ∷ ts) d es)
  unfolding starts_named_argument same_type
  named-yes t u b ts d es h k =
      Gives-yes _ (check-yes t b (u ∷ ts) d es identifier h (refl, refl))
        (Gives-bind _ (second t u b ts d es) (record { gives = rw k refl }))

module _ {D : Type 0} (d : Bytes) (es : List ParseError) where
  -- A token that is no literal.
  pub past_literals :
      {A : Type 0} {b a r : List (Token D)} {q : Parser D A} {y : A} (ty : TokenType) (t : Token D)
      (p p' p'' : Parser D A)
      → Is ty t
      → any_of (number_literal ∷ []) ty ≡ false
      → any_of (string_literal ∷ []) ty ≡ false
      → any_of (boolean_literal ∷ []) ty ≡ false
      → Reading q b (t ∷ a) d es y r
      → Reading
          (branch
            (match number_literal)
            p
            (branch (match string_literal) p' (branch (match boolean_literal) p'' q)))
          b
          (t ∷ a)
          d
          es
          y
          r
  past_literals {b = b} {a = a} ty t p p' p'' l m n o k =
      skip_match b a d es number_literal ty t _ l m (
        skip_match b a d es string_literal ty t _ l n
          (skip_match b a d es boolean_literal ty t _ l o k))

  pub read_empty_array :
      (f : ℕ) (t u : Token D) (b ts : List (Token D))
      → Is lbracket t
      → Is rbracket u
      → 1 ≤ f
      → Reading (array_literal f) b (t ∷ u ∷ ts) d es (array_expr t.location no_expressions) ts
  unfolding assignment same_type
  read_empty_array zero t u b ts l m h = absurd (omega arith)
  read_empty_array (suc f) t u b ts l m h = step _ (current-yes t b (u ∷ ts) d es) (
      step _ (consume-yes t b (u ∷ ts) d es lbracket _ l (refl, refl)) (
        R.call _
          (yes_branch _ (check-yes u (t ∷ b) ts d es rbracket m (refl, refl))
            (finished no_expressions (t ∷ b) (u ∷ ts)))
          λ b'.
            step _ (consume-yes u b' ts d es rbracket _ m (refl, refl)) (finished _ (u ∷ b') ts)))

  pub read_array :
      (f : ℕ) (t u : Token D) (b ts us : List (Token D)) (xs : Expressions D)
      → Is lbracket t
      → next_in starters ts ≡ true
      → ((g : ℕ)
          → suc g ≡ f
          → (b' : List (Token D)) → Reading (argument_list g) b' ts d es xs (u ∷ us))
      → Is rbracket u
      → 1 ≤ f
      → Reading (array_literal f) b (t ∷ ts) d es (array_expr t.location xs) us
  unfolding assignment same_type any_of
  read_array zero t u b ts us xs l s k m h = absurd (omega arith)
  read_array (suc f) t u b ts us xs l s k m h = step _ (current-yes t b ts d es) (
      step _ (consume-yes t b ts d es lbracket _ l (refl, refl)) (
        R.call _
          (no_branch _ (check-no (t ∷ b) ts d es rbracket (starters-apart rbracket ts refl s))
            (k f refl (t ∷ b)))
          λ b'.
            step _ (consume-yes u b' us d es rbracket _ m (refl, refl)) (finished _ (u ∷ b') us)))

  pub read_empty_call :
      (f : ℕ) (t u v : Token D) (b ts : List (Token D))
      → Is lparen u
      → Is rparen v
      → 2 ≤ f
      → Reading
          (name_or_call f t)
          b
          (u ∷ v ∷ ts)
          d
          es
          (function_call_expr
            (function_call t.location (as_string t) no_expressions no_named_arguments none))
          ts
  unfolding assignment same_type
  read_empty_call zero t u v b ts l m h = absurd (omega arith)
  read_empty_call (suc zero) t u v b ts l m h = absurd (omega arith)
  read_empty_call (suc (suc f)) t u v b ts l m h =
      yes_branch _ (check-yes u b (v ∷ ts) d es lparen l (refl, refl)) (
        step _ (consume-yes u b (v ∷ ts) d es lparen _ l (refl, refl)) (
          R.call _
            (yes_branch _ (check-yes v (u ∷ b) ts d es rparen m (refl, refl))
              (finished (no_expressions, no_named_arguments) (u ∷ b) (v ∷ ts)))
            λ b'.
              step _ (consume-yes v b' ts d es rparen _ m (refl, refl)) (finished _ (v ∷ b') ts)))

  pub read_call :
      (f : ℕ) (t u v : Token D) (b ts us : List (Token D)) (xs : Expressions D)
      (ns : NamedArguments D)
      → Is lparen u
      → next_in starters ts ≡ true
      → ((g : ℕ)
          → suc (suc g) ≡ f
          → (b' : List (Token D)) → Reading (arguments g false) b' ts d es (xs, ns) (v ∷ us))
      → Is rparen v
      → 2 ≤ f
      → Reading
          (name_or_call f t)
          b
          (u ∷ ts)
          d
          es
          (function_call_expr (function_call t.location (as_string t) xs ns none))
          us
  unfolding assignment same_type any_of
  read_call zero t u v b ts us xs ns l s k m h = absurd (omega arith)
  read_call (suc zero) t u v b ts us xs ns l s k m h = absurd (omega arith)
  read_call (suc (suc f)) t u v b ts us xs ns l s k m h =
      yes_branch _ (check-yes u b ts d es lparen l (refl, refl)) (
        step _ (consume-yes u b ts d es lparen _ l (refl, refl)) (
          R.call _
            (no_branch _ (check-no (u ∷ b) ts d es rparen (starters-apart rparen ts refl s))
              (k f refl (u ∷ b)))
            λ b'.
              step _ (consume-yes v b' us d es rparen _ m (refl, refl)) (finished _ (v ∷ b') us)))

  -- The end of the ladder of `primary`, at an identifier.
  pub at_name :
      (t : Token D) (b ts : List (Token D)) (f : ℕ) (e : Expression D) {r : List (Token D)}
      → Is identifier t
      → Reading (name_or_call f t) (t ∷ b) ts d es e r
      → Reading (primary (suc f)) b (t ∷ ts) d es e r
  unfolding assignment same_type any_of
  at_name t b ts f e l k = past_literals identifier t _ _ _ l refl refl refl (
      skip_check b ts d es lbracket identifier t _ l refl (
        skip_match b ts d es lparen identifier t _ l refl (
          skip_check b ts d es op_at identifier t _ l refl (
            yes_branch _ (match-yes t b ts d es identifier l (refl, refl))
              (step _ (previous-yes t b ts d es) k)))))

  pub read_variable :
      (f : ℕ) (t : Token D) (b ts : List (Token D))
      → next_in (lparen ∷ []) ts ≡ false
      → 1 ≤ f
      → Reading (name_or_call f t) b ts d es (identifier_expr t.location (as_string t)) ts
  unfolding assignment
  read_variable zero t b ts k h = absurd (omega arith)
  read_variable (suc f) t b ts k h = no_branch _ (check-no b ts d es lparen k) (finished _ b ts)

  pub read_parameter :
      (t : Token D) (b ts : List (Token D))
      → Is op_at t
      → Reading param_reference b (t ∷ ts) d es (param_ref_expr t.location (as_string t)) ts
  unfolding param_reference same_type
  read_parameter t b ts l =
      step _ (advance-yes t b ts d es op_at l (refl, refl)) (finished _ (t ∷ b) ts)
