-- ===== src/Parser/ExpressionRuns.antt =====
-- How the productions of expressions run: with fuel above a multiple of the tokens left they end,
-- and one that returns has read a token.
use vision_pipe.Base.{
  ℕ, zero, suc, ◌+◌, ◌*◌, ◌≤◌, ◌<◌, Bool, true, false, List, [], ◌∷◌, none, some, Option-cases, ◌≡◌,
  inl, inr, refl, arith, Bytes,
}
use vision_pipe.Lexer.Token.{
  Token, TokenType, SourceLocation, as_string, as_number, as_bool, identifier, string_literal,
  number_literal, boolean_literal, kw_global, op_arrow, op_assign, op_comma, op_at, op_minus,
  op_not, lparen, rparen, lbracket, rbracket,
}
use vision_pipe.Parser.Syntax.{
  CacheOutput, LiteralValue, Expression, literal_expr, identifier_expr, function_call_expr,
  binary_expr, no_expressions,
}
use vision_pipe.Parser.State.{State, state, Parser, bind, ◌>>=◌}
use vision_pipe.Parser.Cursor.{check, previous}
use vision_pipe.Parser.Expressions.{
  or_thrown, literal_value, make_literal, expected_cache_id, take_cache_id, cache_output,
  cache_output_spec, load_target, cache_load, after_arrow, postfix, operator_loop, left_associative,
  factor, term, comparison, equality, logical_and, logical_or, assignment, unary, primary,
  name_or_call, function_call_at, arguments, array_literal, argument_list, param_reference,
  starts_named_argument,
}
use vision_pipe.Parser.Runs.{
  left, AllHold, HoldsLiteral, Runs, overran, threw, Runs-pure, Reads, Reads-fewer, Reads-pure,
  Reads-bind,
}
use vision_pipe.Parser.Moves.{
  Reads-ask, Reads-branch, Reads-match, Reads-match_any, Reads-found, Reads-current, Reads-previous,
  Reads-advance, Reads-checked, Reads-error, Reads-consume,
}
use vision_pipe.Parser.Recovers.{Reads-peek}

module _ {D : Type 0} where
  literal_value-Runs :
      (ty : TokenType) (t : Token D) (s : State D)
      → t.type ≡ ty
      → (AllHold s → HoldsLiteral t)
      → Runs 0 s (literal_value ty t s)
  unfolding literal_value or_thrown
  literal_value-Runs number_literal t s e h = elim (Option-cases (as_number t)) [
    | inl missing ↦ rw missing (threw (λ a. (h a).number e missing))
    | inr (d, there) ↦ rw there (Runs-pure (LiteralValue.float d) s)
  ]
  literal_value-Runs string_literal t s e h = Runs-pure (LiteralValue.string (as_string t)) s
  literal_value-Runs boolean_literal t s e h = elim (Option-cases (as_bool t)) [
    | inl missing ↦ rw missing (threw (λ a. (h a).boolean e missing))
    | inr (b, there) ↦ rw there (Runs-pure (LiteralValue.boolean b) s)
  ]
  literal_value-Runs _ t s e h = Runs-pure LiteralValue.unset s

  make_literal-Reads :
      (t : Token D) (s : State D) → (AllHold s → HoldsLiteral t) → Reads 0 s (make_literal t)
  unfolding make_literal
  make_literal-Reads t s h =
      Reads-bind (record { runs = literal_value-Runs t.type t s refl h })
        λ v s₁ l. Reads-pure (literal_expr t.location v) s₁

  literal-Runs : (s : State D) → Runs 0 s (bind (previous s) make_literal)
  unfolding bind previous
  literal-Runs (state (t ∷ b) a d es) =
      (make_literal-Reads t (state (t ∷ b) a d es) (λ h. h.0.0)).runs
  literal-Runs (state [] (t ∷ a) d es) =
      (make_literal-Reads t (state [] (t ∷ a) d es) (λ h. h.1.0)).runs
  literal-Runs (state [] [] d es) = overran (λ h. h)

  -- The literal whose token was read last.
  literal-Reads : (s : State D) → Reads 0 s (previous >>= make_literal)
  unfolding ◌>>=◌
  literal-Reads s = record { runs = literal-Runs s }

  expected_cache_id-Reads : (s : State D) → Reads 0 s expected_cache_id
  unfolding expected_cache_id
  expected_cache_id-Reads s = Reads-bind (Reads-current s) λ t s₁ l. Reads-error _ _ s₁

  take_cache_id-Reads :
      (here : SourceLocation) (global dynamic : Bool) (s : State D)
      → Reads 0 s (take_cache_id here global dynamic)
  unfolding take_cache_id
  take_cache_id-Reads here global dynamic s = Reads-bind (Reads-advance s) λ t s₁ l. Reads-pure _ s₁

  pub cache_output-Reads :
      (reject : Parser D CacheOutput) (s : State D)
      → ((s' : State D) → Reads 0 s' reject)
      → Reads 0 s (cache_output reject)
  unfolding cache_output
  cache_output-Reads reject s h = Reads-bind (Reads-current s) λ t s₁ l₁.
      Reads-bind (Reads-found kw_global s₁) λ global s₂ l₂.
        Reads-ask (check string_literal) (λ _. take_cache_id-Reads t.location global false s₂)
          (Reads-ask (check identifier) (λ _. take_cache_id-Reads t.location global true s₂) (h s₂))

  pub cache_output_spec-Reads : (s : State D) → Reads 0 s cache_output_spec
  unfolding cache_output_spec
  cache_output_spec-Reads s =
      Reads-match op_arrow
        (λ s₁ l₁.
          Reads-bind (cache_output-Reads expected_cache_id s₁ expected_cache_id-Reads)
            λ o s₂ l₂. Reads-pure (some o) s₂)
        (Reads-pure none s)

  load_target-Reads :
      (l : SourceLocation) (id : Bytes) (dynamic global : Bool) (e : Expression D) (s : State D)
      → Reads 0 s (load_target l id dynamic global e)
  unfolding load_target
  load_target-Reads l id dynamic global (function_call_expr c) s = Reads-pure _ s
  load_target-Reads l id dynamic global _ s = Reads-error _ _ s

  module _ (target : Parser D (Expression D)) (n : ℕ)
      (reads : (s : State D) → left s < n → Reads 1 s target) where
    cache_load-Reads :
        (l : SourceLocation) (id : Bytes) (dynamic : Bool) (s : State D)
        → left s < n
        → Reads 0 s (cache_load target l id dynamic)
    unfolding cache_load
    cache_load-Reads l id dynamic s h = Reads-bind (Reads-found kw_global s) λ global s₁ l₁.
        Reads-bind (reads s₁ (omega arith)) λ e s₂ l₂. load_target-Reads l id dynamic global e s₂

    after_arrow-Reads :
        (e : Expression D) (s : State D) → left s < n → Reads 0 s (after_arrow target e)
    unfolding after_arrow
    after_arrow-Reads (function_call_expr c) s h =
        Reads-bind (cache_output-Reads expected_cache_id s expected_cache_id-Reads)
          λ o s₁ l₁. Reads-pure _ s₁
    after_arrow-Reads (literal_expr l (LiteralValue.string id)) s h =
        cache_load-Reads l id false s h
    after_arrow-Reads (literal_expr l _) s h = Reads-error _ _ s
    after_arrow-Reads (identifier_expr l name) s h = cache_load-Reads l name true s h
    after_arrow-Reads _ s h = Reads-error _ _ s

    postfix-Reads : (s : State D) → left s < n → Reads 1 s (postfix target)
    unfolding postfix
    postfix-Reads s h = Reads-bind (reads s h) λ e s₁ l₁.
        Reads-match op_arrow (λ s₂ l₂. after_arrow-Reads e s₂ (omega arith)) (Reads-pure e s₁)

    operator_loop-Reads :
        (f : ℕ) (ops : List TokenType) (e : Expression D) (s : State D)
        → left s < f
        → left s < n
        → Reads 0 s (operator_loop f ops target e)
    unfolding operator_loop
    operator_loop-Reads zero ops e s hf h = absurd (omega arith)
    operator_loop-Reads (suc f) ops e s hf h =
        Reads-match_any ops
          (λ s₁ l₁. Reads-bind (Reads-previous s₁) λ op s₂ l₂.
            Reads-bind (reads s₂ (omega arith)) λ right s₃ l₃.
              operator_loop-Reads f ops (binary_expr op.location e op.type right) s₃ (omega arith)
                (omega arith))
          (Reads-pure e s)

    left_associative-Reads :
        (f : ℕ) (ops : List TokenType) (s : State D)
        → left s < f
        → left s < n
        → Reads 1 s (left_associative f ops target)
    unfolding left_associative
    left_associative-Reads f ops s hf h =
        Reads-bind (reads s h) λ e s₁ l₁. operator_loop-Reads f ops e s₁ (omega arith) (omega arith)

  logical_or-Reads :
      (f : ℕ) (operand : Parser D (Expression D)) (n : ℕ)
      → ((s : State D) → left s < n → Reads 1 s operand)
      → n ≤ f
      → (s : State D) → left s < n
      → Reads 1 s (logical_or f operand)
  unfolding logical_or logical_and equality comparison term factor
  logical_or-Reads f operand n reads hf =
      let level =
        λ (p : Parser D (Expression D)) (ops : List TokenType)
            (r : (s : State D) → left s < n → Reads 1 s p) (s : State D) (h : left s < n).
          left_associative-Reads p n r f ops s (omega arith) h in
      level _ _ (level _ _ (level _ _ (level _ _ (level _ _ (level _ _ reads)))))

  param_reference-Reads : (s : State D) → check op_at s ≡ true → Reads 1 s param_reference
  unfolding param_reference
  param_reference-Reads s e = Reads-bind (Reads-checked op_at s e) λ t s₁ l₁. Reads-pure _ s₁

  starts_named_argument-Reads : (s : State D) → Reads 0 s starts_named_argument
  unfolding starts_named_argument
  starts_named_argument-Reads s =
      Reads-ask (check identifier) (λ _. Reads-bind (Reads-peek 1 s) λ t s₁ l₁. Reads-pure _ s₁)
        (Reads-pure false s)

mutual
  unfolding assignment

  assignment-Reads :
      {D : Type 0} (f : ℕ) (s : State D) → 5 * left s + 5 ≤ f → Reads 1 s (assignment f)
  assignment-Reads zero s h = absurd (omega arith)
  assignment-Reads (suc f) s h =
      Reads-bind
        (logical_or-Reads f (unary f) (left s + 1) (λ s' l. unary-Reads f s' (omega arith))
          (omega arith) s (omega arith))
        λ e s₁ l₁.
          Reads-match op_assign
            (λ s₂ l₂. Reads-bind (Reads-previous s₂) λ op s₃ l₃.
              Reads-bind (assignment-Reads f s₃ (omega arith)) λ right s₄ l₄. Reads-pure _ s₄)
            (Reads-pure e s₁)

  unary-Reads : {D : Type 0} (f : ℕ) (s : State D) → 5 * left s + 4 ≤ f → Reads 1 s (unary f)
  unary-Reads zero s h = absurd (omega arith)
  unary-Reads (suc f) s h =
      Reads-match_any (op_not ∷ op_minus ∷ [])
        (λ s₁ l₁.
          Reads-bind (Reads-previous s₁)
            λ op s₂ l₂. Reads-bind (unary-Reads f s₂ (omega arith)) λ e s₃ l₃. Reads-pure _ s₃)
        (postfix-Reads (primary f) (left s + 1) (λ s' l. primary-Reads f s' (omega arith)) s
          (omega arith))

  primary-Reads : {D : Type 0} (f : ℕ) (s : State D) → 5 * left s + 3 ≤ f → Reads 1 s (primary f)
  primary-Reads zero s h = absurd (omega arith)
  primary-Reads (suc f) s h =
      Reads-match number_literal (λ s₁ l₁. literal-Reads s₁)
        (Reads-match string_literal (λ s₁ l₁. literal-Reads s₁)
          (Reads-match boolean_literal (λ s₁ l₁. literal-Reads s₁)
            (Reads-ask (check lbracket) (λ _. array_literal-Reads f s (omega arith))
              (Reads-match lparen
                (λ s₁ l₁.
                  Reads-bind (assignment-Reads f s₁ (omega arith))
                    λ e s₂ l₂. Reads-bind (Reads-consume rparen _ s₂) λ t s₃ l₃. Reads-pure e s₃)
                (Reads-ask (check op_at) (param_reference-Reads s) (
                  Reads-match identifier
                    (λ s₁ l₁.
                      Reads-bind (Reads-previous s₁)
                        λ t s₂ l₂. name_or_call-Reads f t s₂ (omega arith))
                    (Reads-error _ _ s)))))))

  name_or_call-Reads :
      {D : Type 0} (f : ℕ) (t : Token D) (s : State D)
      → 5 * left s + 7 ≤ f
      → Reads 0 s (name_or_call f t)
  name_or_call-Reads zero t s h = absurd (omega arith)
  name_or_call-Reads (suc f) t s h =
      Reads-ask (check lparen)
        (λ _. function_call_at-Reads f (as_string t) t.location s (omega arith)) (Reads-pure _ s)

  function_call_at-Reads :
      {D : Type 0} (f : ℕ) (name : Bytes) (l : SourceLocation) (s : State D)
      → 5 * left s + 6 ≤ f
      → Reads 0 s (function_call_at f name l)
  function_call_at-Reads zero name l s h = absurd (omega arith)
  function_call_at-Reads (suc f) name l s h = Reads-bind (Reads-consume lparen _ s) λ t s₁ l₁.
      Reads-bind {n = 0}
        (Reads-ask (check rparen) (λ _. Reads-pure _ s₁)
          (Reads-fewer (omega arith) (arguments-Reads f false s₁ (omega arith))))
        λ args s₂ l₂. Reads-bind (Reads-consume rparen _ s₂) λ t s₃ l₃. Reads-pure _ s₃

  arguments-Reads :
      {D : Type 0} (f : ℕ) (seen : Bool) (s : State D)
      → 5 * left s + 6 ≤ f
      → Reads 1 s (arguments f seen)
  arguments-Reads zero seen s h = absurd (omega arith)
  arguments-Reads (suc f) seen s h =
      Reads-branch (starts_named_argument-Reads s)
        (λ s₁ l₁. Reads-bind (Reads-advance s₁) λ t s₂ l₂. Reads-bind (Reads-advance s₂) λ u s₃ l₃.
          Reads-bind (assignment-Reads f s₃ (omega arith)) λ e s₄ l₄.
            Reads-bind {n = 0}
              (Reads-match op_comma
                (λ s₅ l₅. Reads-fewer (omega arith) (arguments-Reads f true s₅ (omega arith)))
                (Reads-pure _ s₄))
              λ rest s₆ l₆. Reads-pure _ s₆)
        (λ s₁ l₁.
          Reads-branch (Reads-pure seen s₁) (λ s₂ l₂. Reads-error _ _ s₂)
            (λ s₂ l₂. Reads-bind (assignment-Reads f s₂ (omega arith)) λ e s₃ l₃.
              Reads-bind {n = 0}
                (Reads-match op_comma
                  (λ s₄ l₄. Reads-fewer (omega arith) (arguments-Reads f false s₄ (omega arith)))
                  (Reads-pure _ s₃))
                λ rest s₅ l₅. Reads-pure _ s₅))

  array_literal-Reads :
      {D : Type 0} (f : ℕ) (s : State D) → 5 * left s + 2 ≤ f → Reads 1 s (array_literal f)
  array_literal-Reads zero s h = absurd (omega arith)
  array_literal-Reads (suc f) s h = Reads-bind (Reads-current s) λ here s₁ l₁.
      Reads-bind (Reads-consume lbracket _ s₁) λ t s₂ l₂.
        Reads-bind {n = 0}
          (Reads-ask (check rbracket) (λ _. Reads-pure no_expressions s₂)
            (Reads-fewer (omega arith) (argument_list-Reads f s₂ (omega arith))))
          λ es s₃ l₃. Reads-bind (Reads-consume rbracket _ s₃) λ u s₄ l₄. Reads-pure _ s₄

  argument_list-Reads :
      {D : Type 0} (f : ℕ) (s : State D) → 5 * left s + 6 ≤ f → Reads 1 s (argument_list f)
  argument_list-Reads zero s h = absurd (omega arith)
  argument_list-Reads (suc f) s h = Reads-bind (assignment-Reads f s (omega arith)) λ e s₁ l₁.
      Reads-bind {n = 0}
        (Reads-match op_comma
          (λ s₂ l₂. Reads-fewer (omega arith) (argument_list-Reads f s₂ (omega arith)))
          (Reads-pure no_expressions s₁))
        λ es s₃ l₃. Reads-pure _ s₃

pub expression-Reads :
    {D : Type 0} (f : ℕ) (s : State D) → 5 * left s + 5 ≤ f → Reads 1 s (assignment f)
expression-Reads = assignment-Reads

pub expression_list-Reads :
    {D : Type 0} (f : ℕ) (s : State D) → 5 * left s + 6 ≤ f → Reads 1 s (argument_list f)
expression_list-Reads = argument_list-Reads
