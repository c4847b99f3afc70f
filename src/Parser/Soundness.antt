-- ===== src/Parser/Soundness.antt =====
-- What the parser of expressions reads is in the grammar.
use vision_pipe.Base.{
  ℕ, zero, suc, Bool, true, false, List, [], ◌∷◌, none, ◌≡◌, refl, ◌∙◌, ap, ◌+◌, ◌*◌, length, subst,
}
use vision_pipe.Lexer.Token.{
  Token, same_type, as_string, identifier, string_literal, number_literal, boolean_literal,
  op_assign, op_comma, op_at, op_not, op_minus, lparen, rparen, lbracket, rbracket,
}
use vision_pipe.Parser.Syntax.{
  Expression, function_call_expr, function_call, array_expr, expressions, named_argument,
}
use vision_pipe.Parser.State.{State, ok}
use vision_pipe.Parser.Expressions.{
  assignment, unary, primary, name_or_call, function_call_at, arguments, array_literal,
  argument_list, param_reference,
}
use vision_pipe.Parser.Grammar.{
  Is, Assignment, alone, assigned, Unary, plain, prefixed, Primary, empty_array, array,
  parenthesised, parameter, variable, empty_call, call, Elements, last, more, Arguments, last_named,
  named_then,
}
use vision_pipe.Parser.Gives.{previous-yes, advance-yes}
use vision_pipe.Parser.Runs.{ahead}
use vision_pipe.Parser.Spelling.{prefix-IsPlain}
use vision_pipe.Parser.Ensures.{
  Ended, Ended-value, Ensures-pure, Ensures-no_fuel, Ensures-bind, Ensures-weaken, Ensures-error,
  step_Ensures, current_then, consume_then, consume_head, if_check, if_match, if_any,
}
use vision_pipe.Parser.Sound.{
  Spelled, Sound, make_literal-Sound, number_Sound, text_Sound, truth_Sound, logical_or-Sound,
  postfix-Sound,
}
use vision_pipe.Parser.Places.{if_named, ArgumentsOf, placed_Sound}
use vision_pipe.Parser.Programs.{parse_expression}

mutual
  unfolding assignment param_reference same_type

  assignment-Sound : {D : Type 0} (f : ℕ) → Sound (assignment {D = D} f) Assignment
  assignment-Sound zero b ts d es = Ensures-no_fuel _ _
  assignment-Sound (suc f) b ts d es =
      Ensures-bind (logical_or-Sound f (unary f) (unary-Sound f) b ts d es) λ e b' us d' es' x.
        if_match b' us d' es' op_assign (refl, refl)
          (λ t vs eq is. step_Ensures _ (previous-yes t b' vs d' es') (
            Ensures-bind (assignment-Sound f (t ∷ b') vs d' es')
              λ e' _ _ _ _ y. Ensures-pure (assigned t (rw eq at x) is y)))
          (Ensures-pure (alone x))

  unary-Sound : {D : Type 0} (f : ℕ) → Sound (unary {D = D} f) Unary
  unary-Sound zero b ts d es = Ensures-no_fuel _ _
  unary-Sound (suc f) b ts d es =
      if_any b ts d es (op_not ∷ op_minus ∷ []) prefix-IsPlain
        (λ t us eq is. rw eq (
          step_Ensures _ (previous-yes t b us d es) (
            Ensures-bind (unary-Sound f (t ∷ b) us d es)
              λ e _ _ _ _ y. Ensures-pure (prefixed t is y))))
        (Ensures-weaken (postfix-Sound (primary f) (primary-Sound f) b ts d es) λ e s x. plain x)

  primary-Sound : {D : Type 0} (f : ℕ) → Sound (primary {D = D} f) Primary
  primary-Sound zero b ts d es = Ensures-no_fuel _ _
  primary-Sound (suc f) b ts d es =
      if_match b ts d es number_literal (refl, refl)
        (λ t us eq is. rw eq (
          step_Ensures _ (previous-yes t b us d es)
            (make_literal-Sound t (number_Sound t.type t is is) (t ∷ b) us d es)))
        (if_match b ts d es string_literal (refl, refl)
          (λ t us eq is. rw eq (
            step_Ensures _ (previous-yes t b us d es)
              (make_literal-Sound t (text_Sound t.type t is is) (t ∷ b) us d es)))
          (if_match b ts d es boolean_literal (refl, refl)
            (λ t us eq is. rw eq (
              step_Ensures _ (previous-yes t b us d es)
                (make_literal-Sound t (truth_Sound t.type t is is) (t ∷ b) us d es)))
            (if_check b ts d es lbracket (refl, refl)
              (λ t us eq is. rw eq (array_literal-Sound f b (t ∷ us) d es))
              (if_match b ts d es lparen (refl, refl)
                (λ t us eq is. rw eq (
                  Ensures-bind (assignment-Sound f (t ∷ b) us d es) λ e b' vs d' es' x.
                    consume_then b' vs d' es' rparen _ (refl, refl)
                      λ u ws eq' is'. Ensures-pure (parenthesised t u is (rw eq' at x) is')))
                (if_check b ts d es op_at (refl, refl)
                  (λ t us eq is. rw eq (
                    step_Ensures _ (advance-yes t b us d es op_at is (refl, refl))
                      (Ensures-pure (parameter t is))))
                  (if_match b ts d es identifier (refl, refl)
                    (λ t us eq is. rw eq (
                      step_Ensures _ (previous-yes t b us d es)
                        (name_or_call-Sound f t is (t ∷ b) us d es)))
                    (Ensures-error _ _ _)))))))

  name_or_call-Sound :
      {D : Type 0} (f : ℕ) (t : Token D)
      → Is identifier t
      → Sound (name_or_call f t) (λ e us vs. Primary e (t ∷ us) vs)
  name_or_call-Sound zero t is b ts d es = Ensures-no_fuel _ _
  name_or_call-Sound (suc f) t is b ts d es =
      if_check b ts d es lparen (refl, refl)
        (λ u us eq is'. rw eq (function_call_at-Sound f t is b (u ∷ us) d es))
        (Ensures-pure (variable t is))

  function_call_at-Sound :
      {D : Type 0} (f : ℕ) (t : Token D)
      → Is identifier t
      → Sound (function_call_at f (as_string t) t.location) (λ e us vs. Primary e (t ∷ us) vs)
  function_call_at-Sound zero t is b ts d es = Ensures-no_fuel _ _
  function_call_at-Sound {D = D} (suc f) t is b ts d es =
      consume_then b ts d es lparen _ (refl, refl)
        λ u us eq is'.
          Ensures-bind
            {P = λ (x : ArgumentsOf D) s.
              (v : _) (ws : List _)
              → ahead s ≡ v ∷ ws
              → Is rparen v
              → Primary (function_call_expr (function_call t.location (as_string t) x.0 x.1 none))
                  (t ∷ ts) ws}
            (if_check (u ∷ b) us d es rparen (refl, refl)
              (λ v ws eq' is''.
                Ensures-pure
                  λ v' ws' e i. rw (eq ∙ ap (λ l. u ∷ l) (eq' ∙ e)) (empty_call t u v' is is' i))
              (Ensures-weaken (arguments-Sound f false (u ∷ b) us d es)
                λ x s y v' ws' e i. rw eq (call t u v' is is' (rw e at y) i)))
            λ x b' vs d' es' k.
              consume_then b' vs d' es' rparen _ (refl, refl) λ v ws e i. Ensures-pure (k v ws e i)

  arguments-Sound :
      {D : Type 0} (f : ℕ) (seen : Bool)
      → Sound (arguments {D = D} f seen) (λ (x : ArgumentsOf D). Arguments seen x.0 x.1)
  arguments-Sound zero seen b ts d es = Ensures-no_fuel _ _
  arguments-Sound {D = D} (suc f) seen b ts d es =
      if_named d es b ts _ _
        (λ t u us eq is is'. rw eq (
          step_Ensures _ (advance-yes t b (u ∷ us) d es identifier is (refl, refl)) (
            step_Ensures _ (advance-yes u (t ∷ b) us d es op_assign is' (refl, refl)) (
              Ensures-bind (assignment-Sound f (u ∷ t ∷ b) us d es) λ e b' vs d' es' x.
                Ensures-bind
                  {P = λ (l : ArgumentsOf D) s.
                    Arguments seen l.0 (named_argument (as_string t) e l.1) (t ∷ u ∷ us) (ahead s)}
                  (if_match b' vs d' es' op_comma (refl, refl)
                    (λ v ws eq' is''.
                      Ensures-weaken (arguments-Sound f true (v ∷ b') ws d' es')
                        λ l s y. named_then t u v is is' (rw eq' at x) is'' y)
                    (Ensures-pure (last_named t u is is' x)))
                  λ l _ _ _ _ z. Ensures-pure z))))
        λ unnamed.
          placed_Sound f (assignment-Sound f) (arguments-Sound f false) seen b ts d es unnamed

  array_literal-Sound : {D : Type 0} (f : ℕ) → Sound (array_literal {D = D} f) Primary
  array_literal-Sound zero b ts d es = Ensures-no_fuel _ _
  array_literal-Sound (suc f) b ts d es = current_then b ts d es λ here us eq. rw eq (
      consume_head here b us d es lbracket _ _ (refl, refl)
        λ is.
          Ensures-bind
            {P = λ x s.
              (v : _) (ws : List _)
              → ahead s ≡ v ∷ ws
              → Is rbracket v
              → Primary (array_expr here.location x) (here ∷ us) ws}
            (if_check (here ∷ b) us d es rbracket (refl, refl)
              (λ v ws eq' is'. Ensures-pure λ v' ws' e i. rw (eq' ∙ e) (empty_array here v' is i))
              (Ensures-weaken (argument_list-Sound f (here ∷ b) us d es)
                λ x s y v' ws' e i. array here v' is (rw e at y) i))
            λ x b' vs d' es' k.
              consume_then b' vs d' es' rbracket _ (refl, refl)
                λ v ws e i. Ensures-pure (k v ws e i))

  argument_list-Sound : {D : Type 0} (f : ℕ) → Sound (argument_list {D = D} f) Elements
  argument_list-Sound zero b ts d es = Ensures-no_fuel _ _
  argument_list-Sound (suc f) b ts d es =
      Ensures-bind (assignment-Sound f b ts d es) λ e b' us d' es' x.
        Ensures-bind {P = λ l s. Elements (expressions e l) ts (ahead s)}
          (if_match b' us d' es' op_comma (refl, refl)
            (λ t vs eq is.
              Ensures-weaken (argument_list-Sound f (t ∷ b') vs d' es')
                λ l s y. more t (rw eq at x) is y)
            (Ensures-pure (last x)))
          λ l _ _ _ _ z. Ensures-pure z

-- An expression that `parse_expression` returns is one that the grammar spells, for exactly the tokens
-- up to the cursor that it leaves.
pub parse_expression_sound :
    {D : Type 0} {e : Expression D} {ts : List (Token D)} {s : State D}
    → parse_expression ts ≡ ok e s
    → Assignment e ts (ahead s)
unfolding parse_expression
parse_expression_sound {e = e} {ts = ts} {s = s} h = Ended-value (Spelled Assignment ts) (
    subst (Ended (Spelled Assignment ts)) h
      (assignment-Sound (8 * length ts + 16) [] ts [] []).ends)
