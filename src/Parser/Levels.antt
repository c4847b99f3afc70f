-- ===== src/Parser/Levels.antt =====
-- The parser reads the binary operators that the grammar spells, when it reads their operands.
use vision_pipe.Base.{
  ℕ, zero, suc, ◌<◌, true, false, List, ◌∷◌, ◌≡◌, refl, ◌∙◌, arith, length, Bytes,
}
use vision_pipe.Lexer.Token.{Token, TokenType}
use vision_pipe.Parser.Syntax.{Expression, binary_expr}
use vision_pipe.Parser.State.{state, ParseError, Parser, bind, branch, ◌>>=◌}
use vision_pipe.Parser.Cursor.{any_of, previous}
use vision_pipe.Parser.Expressions.{
  operator_loop, left_associative, factor, term, comparison, equality, logical_and, logical_or,
}
use vision_pipe.Parser.Grammar.{operators}
use vision_pipe.Parser.Gives.{Gives, IsPlain, next_in, match_any-no, match_any-yes}
use vision_pipe.Parser.Readings.{Reading, known}
use vision_pipe.Parser.Spelling.{operator-IsPlain}

-- The parser of a level over that of its innermost operands.
unfoldable pub level : {D : Type 0} → ℕ → ℕ → Parser D (Expression D) → Parser D (Expression D)
level zero f inner = inner
level (suc n) f inner = left_associative f (operators n) (level n f inner)

module _ {D : Type 0} where
  pub logical_or-level :
      (f : ℕ) (inner : Parser D (Expression D)) → logical_or f inner ≡ level 6 f inner
  unfolding logical_or logical_and equality comparison term factor level operators
  logical_or-level f inner = refl

  module _ (p : Parser D (Expression D)) (d : Bytes) (es : List ParseError) where
    -- From the tokens `a` the loop of a level gets to the operand `e`, with rounds left.
    pub record Chain (n : ℕ) (b a : List (Token D)) (e : Expression D) (r : List (Token D))
        : Type 0 where
      pub loop :
          (g : ℕ)
          → length a < g
          → (g' : ℕ) × (b' : List (Token D)) × (length r < g')
            × (left_associative g (operators n) p (state b a d es)
                ≡ operator_loop g' (operators n) p e (state b' r d es))

    pub Chain-one :
        {b a r : List (Token D)} {e : Expression D} (n : ℕ)
        → Reading p b a d es e r
        → length r < length a
        → Chain n b a e r
    unfolding left_associative ◌>>=◌ bind
    Chain-one n h l = record { loop = λ g k. (g, h.before, omega arith, rw h.run.gives refl) }

    round_lem :
        (k : ℕ) (ops : List TokenType) (b r r' b' : List (Token D)) (t : Token D)
        (e e' : Expression D)
        → any_of ops t.type ≡ true
        → IsPlain t.type
        → Gives p (state (t ∷ b) r d es) e' (state b' r' d es)
        → operator_loop (suc k) ops p e (state b (t ∷ r) d es)
          ≡ operator_loop k ops p (binary_expr t.location e t.type e') (state b' r' d es)
    unfolding operator_loop ◌>>=◌ bind branch previous
    round_lem k ops b r r' b' t e e' h h' g =
        rw (match_any-yes t b r d es ops h h').gives (rw g.gives refl)

    more_rounds :
        (n : ℕ) (b a r r' : List (Token D)) (t : Token D) (e e' : Expression D) (g g' : ℕ)
        (b' : List (Token D))
        → length (t ∷ r) < g'
        → length r' < length r
        → left_associative g (operators n) p (state b a d es)
          ≡ operator_loop g' (operators n) p e (state b' (t ∷ r) d es)
        → any_of (operators n) t.type ≡ true
        → Reading p (t ∷ b') r d es e' r'
        → (k : ℕ) × (b'' : List (Token D)) × (length r' < k)
          × (left_associative g (operators n) p (state b a d es)
              ≡ operator_loop k
                  (operators n)
                  p
                  (binary_expr t.location e t.type e')
                  (state b'' r' d es))
    more_rounds n b a r r' t e e' g zero b' l l' eq h k = absurd (omega arith)
    more_rounds n b a r r' t e e' g (suc g') b' l l' eq h k = (
      g',
      k.before,
      omega arith,
      eq ∙ round_lem g' (operators n) b' r r' k.before t e e' h (operator-IsPlain n t.type h) k.run,
    )

    -- One more operator of the level.
    pub Chain-more :
        {b a r r' : List (Token D)} {e e' : Expression D} (n : ℕ) (t : Token D)
        → Chain n b a e (t ∷ r)
        → any_of (operators n) t.type ≡ true
        → ((b' : List (Token D)) → Reading p b' r d es e' r')
        → length r' < length r
        → Chain n b a (binary_expr t.location e t.type e') r'
    Chain-more {b} {a} {r} {r'} {e} {e'} n t c h k l = record {
      loop = λ g lt.
          let (g', b', l', eq) = c.loop g lt in
          more_rounds n b a r r' t e e' g g' b' l' l eq h (k (t ∷ b'));
    }

    last_round :
        (n g g' : ℕ) (b a r b' : List (Token D)) (e : Expression D)
        → length r < g'
        → left_associative g (operators n) p (state b a d es)
          ≡ operator_loop g' (operators n) p e (state b' r d es)
        → next_in (operators n) r ≡ false
        → Reading (left_associative g (operators n) p) b a d es e r
    unfolding operator_loop branch bind
    last_round n g zero b a r b' e l eq h = absurd (omega arith)
    last_round n g (suc g') b a r b' e l eq h =
        known {b' = b'}
          (record { gives = eq ∙ rw (match_any-no b' r d es (operators n) h).gives refl })

    -- No operator of the level follows.
    pub Chain-end :
        {b a r : List (Token D)} {e : Expression D} (n g : ℕ)
        → Chain n b a e r
        → length a < g
        → next_in (operators n) r ≡ false
        → Reading (left_associative g (operators n) p) b a d es e r
    Chain-end {b} {a} {r} {e} n g c l h =
        let (g', b', l', eq) = c.loop g l in last_round n g g' b a r b' e l' eq h
