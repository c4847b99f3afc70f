-- ===== src/Parser/Places.antt =====
-- The arguments of a call that the parser reads: with a name, and by place.
use vision_pipe.Base.{
  ℕ, Bool, true, false, List, [], ◌∷◌, ◌≡◌, refl, Bytes, bytes, inl, inr, Bool-cases, arith,
}
use vision_pipe.Lexer.Token.{Token, same_type, identifier, op_assign, op_comma}
use vision_pipe.Parser.Syntax.{
  Expressions, NamedArguments, no_expressions, no_named_arguments, expressions,
}
use vision_pipe.Parser.State.{State, state, ParseError, Parser, pure, branch, ◌>>=◌}
use vision_pipe.Parser.Cursor.{peek, at_or_out, back, match, error}
use vision_pipe.Parser.Expressions.{assignment, arguments, starts_named_argument}
use vision_pipe.Parser.Grammar.{Is, starts_named, Assignment, Arguments, last_placed, placed}
use vision_pipe.Parser.Gives.{
  next_in, Gives, Gives-pure, Gives-bind, Gives-yes, Gives-no, Is-same, next-other, check-no,
  check-yes,
}
use vision_pipe.Parser.Runs.{ahead}
use vision_pipe.Parser.Calls.{second}
use vision_pipe.Parser.Ensures.{
  Ensures, Ensures-pure, Ensures-bind, Ensures-weaken, Ensures-error, yes_Ensures, no_Ensures,
  if_match,
}
use vision_pipe.Parser.Sound.{Spelled, Sound}

-- Whether an argument has a name.
module _ {D : Type 0} (d : Bytes) (es : List ParseError) where
  last_token :
      (b : List (Token D)) (t : Token D)
      → Gives (peek 1) (state b (t ∷ []) d es) t (state b (t ∷ []) d es)
  unfolding peek at_or_out back
  last_token [] t = record { gives = refl }
  last_token (_ ∷ _) t = record { gives = refl }

  named-starts :
      (b ts : List (Token D))
      → Gives starts_named_argument (state b ts d es) (starts_named ts) (state b ts d es)
  unfolding starts_named_argument starts_named same_type next_in
  named-starts b [] =
      Gives-no _ (check-no b [] d es identifier refl) (Gives-pure false (state b [] d es))
  named-starts b (t ∷ []) = elim (Bool-cases (same_type t.type identifier)) [
    | inl e ↦ Gives-yes _ (check-yes t b [] d es identifier e (refl, refl)) (
        Gives-bind _ (last_token b t)
          (record { gives = rw (Is-same identifier t op_assign e) refl }))
    | inr e ↦
        Gives-no _ (check-no b (t ∷ []) d es identifier (next-other identifier t [] e))
          (Gives-pure false (state b (t ∷ []) d es))
  ]
  named-starts b (t ∷ u ∷ ts) = elim (Bool-cases (same_type t.type identifier)) [
    | inl e ↦
        Gives-yes _ (check-yes t b (u ∷ ts) d es identifier e (refl, refl))
          (Gives-bind _ (second t u b ts d es) (record { gives = rw e refl }))
    | inr e ↦
        Gives-no _ (check-no b (t ∷ u ∷ ts) d es identifier (next-other identifier t (u ∷ ts) e))
          (record { gives = rw e refl })
  ]

  -- What the test says of the tokens.
  starts_named-tokens :
      (ts : List (Token D))
      → starts_named ts ≡ true
      → (t u : Token D) × (us : List (Token D)) × (ts ≡ t ∷ u ∷ us)
        × (Is identifier t)
        × (Is op_assign u)
  unfolding starts_named
  starts_named-tokens [] h = cc
  starts_named-tokens (t ∷ []) h = cc
  starts_named-tokens (t ∷ u ∷ ts) h = (t, u, ts, refl, ground arith, ground arith)

  pub if_named :
      {A : Type 0} (b ts : List (Token D)) {Q : A → State D → Type 0} (p q : Parser D A)
      → ((t u : Token D) (us : List (Token D))
          → ts ≡ t ∷ u ∷ us
          → Is identifier t
          → Is op_assign u
          → Ensures p (state b (t ∷ u ∷ us) d es) Q)
      → (starts_named ts ≡ false → Ensures q (state b ts d es) Q)
      → Ensures (branch starts_named_argument p q) (state b ts d es) Q
  if_named b ts p q k l = elim (Bool-cases (starts_named ts)) [
    | inl e ↦
        let (t, u, us, eq, is, is') = starts_named-tokens ts e in
        rw eq (yes_Ensures q (rw eq at (rw e at (named-starts b ts))) (k t u us eq is is'))
    | inr e ↦ no_Ensures p (rw e at (named-starts b ts)) (l e)
  ]

-- What `arguments` returns.
abbrev pub ArgumentsOf : Type 0 → Type 0
ArgumentsOf D = Expressions D × NamedArguments D

-- An argument by place, and those after it.
pub placed_Sound :
    {D : Type 0} (f : ℕ)
    → Sound (assignment {D = D} f) Assignment
    → Sound (arguments {D = D} f false) (λ (x : ArgumentsOf D). Arguments false x.0 x.1)
    → (seen : Bool) (b ts : List (Token D)) (d : Bytes) (es : List ParseError)
    → starts_named ts ≡ false
    → Ensures
        (branch (pure seen) (error (bytes "Positional argument cannot follow named argument")) (do
          e ← assignment f
          (args, named) ←
              branch
                (match op_comma)
                (arguments f false)
                (pure (no_expressions, no_named_arguments))
          pure (expressions e args, named)))
        (state b ts d es)
        (Spelled (λ (x : ArgumentsOf D). Arguments seen x.0 x.1) ts)
unfolding same_type
placed_Sound f one rest true b ts d es h = yes_Ensures _ (Gives-pure true _) (Ensures-error _ _ _)
placed_Sound {D = D} f one rest false b ts d es h = no_Ensures _ (Gives-pure false _) (
    Ensures-bind (one b ts d es) λ e b' us d' es' x.
      Ensures-bind
        {P = λ (l : ArgumentsOf D) s. Arguments false (expressions e l.0) l.1 ts (ahead s)}
        (if_match b' us d' es' op_comma (refl, refl)
          (λ t vs eq is.
            Ensures-weaken (rest (t ∷ b') vs d' es') λ l s y. placed t h (rw eq at x) is y)
          (Ensures-pure (last_placed h x)))
        λ l _ _ _ _ z. Ensures-pure z)
