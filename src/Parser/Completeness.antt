-- ===== src/Parser/Completeness.antt =====
-- The parser reads every expression that the grammar spells, up to a token that does not go on with
-- it, and returns it.
use vision_pipe.Base.{
  ℕ, zero, suc, ◌+◌, ◌*◌, ◌≤◌, Bool, false, List, [], ◌∷◌, ◌≡◌, refl, arith, length, Bytes,
}
use vision_pipe.Lexer.Token.{
  Token, TokenType, same_type, identifier, string_literal, number_literal, boolean_literal,
  op_arrow, op_assign, op_comma, op_at, op_not, op_minus, lparen, rparen, lbracket, rbracket,
}
use vision_pipe.Parser.Syntax.{
  Expression, Expressions, NamedArguments, no_expressions, no_named_arguments,
}
use vision_pipe.Parser.State.{state, ok, ParseError}
use vision_pipe.Parser.Cursor.{any_of}
use vision_pipe.Parser.Expressions.{postfix, assignment, unary, primary, arguments, argument_list}
use vision_pipe.Parser.Grammar.{
  operators, Is, Assignment, alone, assigned, Binary, operand, tighter, joined, Unary, plain,
  prefixed, Postfix, bare, cached, loaded, loaded_dynamic, Primary, number, text, truth,
  empty_array, array, parenthesised, parameter, variable, empty_call, call, Elements, last, more,
  Arguments, last_placed, placed, last_named, named_then,
}
use vision_pipe.Parser.Gives.{
  Gives-pure, next_in, match-no, match_any-no, previous-yes, advance-yes, check-yes, match-yes,
  consume-yes, match_any-yes,
}
use vision_pipe.Parser.Readings as R
use vision_pipe.Parser.Readings.{Reading, finished, step, yes_branch, no_branch, known}
use vision_pipe.Parser.Spelling.{
  continuing, operator-continuing, any_of-Is, next-left, next-right, Assignment-shorter,
  Binary-shorter, Primary-shorter, Global-shorter, Primary-starts, Postfix-starts, prefix-IsPlain,
  primaries-starters, primaries-unprefixed, Elements-starts, Arguments-starts,
}
use vision_pipe.Parser.Leaves.{
  other, skip_match, skip_check, literal-number, literal-text, literal-truth,
}
use vision_pipe.Parser.Levels.{level, logical_or-level, Chain, Chain-one, Chain-more, Chain-end}
use vision_pipe.Parser.Arrows.{postfix-bare, postfix-cached, postfix-loaded, postfix-loaded_dynamic}
use vision_pipe.Parser.Calls.{
  named-no, named-yes, past_literals, read_empty_array, read_array, read_empty_call, read_call,
  read_variable, read_parameter, at_name,
}
use vision_pipe.Parser.Programs.{parse_expression}

-- Tokens that may follow an expression.
abbrev pub after_expression : List TokenType
after_expression = op_assign ∷ continuing 6

mutual
  unfolding assignment level operators continuing same_type any_of next_in

  assignment-Reading :
      {D : Type 0} {e : Expression D} {ts us : List (Token D)} (f : ℕ) (b : List (Token D))
      (d : Bytes) (es : List ParseError)
      → Assignment e ts us
      → 5 * length ts + 5 ≤ f
      → next_in after_expression us ≡ false
      → Reading (assignment f) b ts d es e us
  assignment-Reading zero b d es x h k = absurd (omega arith)
  assignment-Reading {e = e} {us = us} (suc f) b d es (alone x) h k =
      R.call _
        (rw (logical_or-level f (unary f)) (
          binary-Reading 6 f b d es x (omega arith)
            (next-right (op_assign ∷ []) (continuing 6) us k)))
        λ b'.
          no_branch _
            (match-no b' us d es op_assign (next-left (op_assign ∷ []) (continuing 6) us k))
            (finished e b' us)
  assignment-Reading {us = vs} (suc f) b d es (assigned {e = e} {us = us} t x l y) h k =
      R.call _
        (rw (logical_or-level f (unary f))
          (binary-Reading 6 f b d es x (omega arith) (any_of-Is (continuing 6) op_assign t l)))
        λ b'. yes_branch _ (match-yes t b' us d es op_assign l (refl, refl)) (
          step _ (previous-yes t b' us d es) (
            R.call _ (assignment-Reading f (t ∷ b') d es y (omega (arith, Binary-shorter x)) k)
              λ b''. finished _ b'' vs))

  binary-Reading :
      {D : Type 0} {e : Expression D} {ts us : List (Token D)} (n f : ℕ) (b : List (Token D))
      (d : Bytes) (es : List ParseError)
      → Binary n e ts us
      → 5 * length ts + 4 ≤ f
      → next_in (continuing n) us ≡ false
      → Reading (level n f (unary f)) b ts d es e us
  binary-Reading zero f b d es (operand x) h k = unary-Reading f b d es x h k
  binary-Reading {us = us} (suc n) f b d es (tighter x) h k =
      Chain-end (level n f (unary f)) d es n f
        (Chain-one (level n f (unary f)) d es n
          (binary-Reading n f b d es x h (next-right (operators n) (continuing n) us k))
          (Binary-shorter x))
        (omega arith) (next-left (operators n) (continuing n) us k)
  binary-Reading {us = vs} (suc n) f b d es (joined t x l y) h k =
      Chain-end (level n f (unary f)) d es n f
        (Chain-more (level n f (unary f)) d es n t
          (Chain-Reading n f b d es x h (operator-continuing n t.type l)) l
          (λ b'.
            binary-Reading n f b' d es y (omega (arith, Binary-shorter x))
              (next-right (operators n) (continuing n) vs k))
          (Binary-shorter y))
        (omega arith) (next-left (operators n) (continuing n) vs k)

  Chain-Reading :
      {D : Type 0} {e : Expression D} {ts us : List (Token D)} (n f : ℕ) (b : List (Token D))
      (d : Bytes) (es : List ParseError)
      → Binary (suc n) e ts us
      → 5 * length ts + 4 ≤ f
      → next_in (continuing n) us ≡ false
      → Chain (level n f (unary f)) d es n b ts e us
  Chain-Reading n f b d es (tighter x) h k =
      Chain-one (level n f (unary f)) d es n (binary-Reading n f b d es x h k) (Binary-shorter x)
  Chain-Reading n f b d es (joined t x l y) h k =
      Chain-more (level n f (unary f)) d es n t
        (Chain-Reading n f b d es x h (operator-continuing n t.type l)) l
        (λ b'. binary-Reading n f b' d es y (omega (arith, Binary-shorter x)) k) (Binary-shorter y)

  unary-Reading :
      {D : Type 0} {e : Expression D} {ts us : List (Token D)} (f : ℕ) (b : List (Token D))
      (d : Bytes) (es : List ParseError)
      → Unary e ts us
      → 5 * length ts + 4 ≤ f
      → next_in (lparen ∷ op_arrow ∷ []) us ≡ false
      → Reading (unary f) b ts d es e us
  unary-Reading zero b d es x h k = absurd (omega arith)
  unary-Reading {ts = ts} (suc f) b d es (plain x) h k =
      no_branch _
        (match_any-no b ts d es (op_not ∷ op_minus ∷ [])
          (primaries-unprefixed ts (Postfix-starts x)))
        (postfix-Reading f b d es x (omega arith) k)
  unary-Reading {us = us} (suc f) b d es (prefixed {ts = ts} t l x) h k =
      yes_branch _ (match_any-yes t b ts d es (op_not ∷ op_minus ∷ []) l (prefix-IsPlain t.type l))
        (step _ (previous-yes t b ts d es)
          (R.call _ (unary-Reading f (t ∷ b) d es x (omega arith) k) λ b'. finished _ b' us))

  postfix-Reading :
      {D : Type 0} {e : Expression D} {ts us : List (Token D)} (f : ℕ) (b : List (Token D))
      (d : Bytes) (es : List ParseError)
      → Postfix e ts us
      → 5 * length ts + 3 ≤ f
      → next_in (lparen ∷ op_arrow ∷ []) us ≡ false
      → Reading (postfix (primary f)) b ts d es e us
  postfix-Reading {us = us} f b d es (bare x) h k =
      postfix-bare (primary f) d es
        (primary-Reading f b d es x h (next-left (lparen ∷ []) (op_arrow ∷ []) us k))
        (next-right (lparen ∷ []) (op_arrow ∷ []) us k)
  postfix-Reading f b d es (cached t x l o) h k =
      postfix-cached (primary f) d es t
        (primary-Reading f b d es x h (any_of-Is (lparen ∷ []) op_arrow t l)) l o
  postfix-Reading {us = ws} f b d es (loaded {l = loc} {id = id} {vs = vs} t x l g y) h k =
      postfix-loaded (primary f) d es loc id t
        (primary-Reading f b d es x h (any_of-Is (lparen ∷ []) op_arrow t l)) l g
        (primaries-starters vs (Primary-starts y))
        (λ b'.
          primary-Reading f b' d es y (omega (arith, Primary-shorter x, Global-shorter g))
            (next-left (lparen ∷ []) (op_arrow ∷ []) ws k))
  postfix-Reading {us = ws} f b d es (loaded_dynamic {l = loc} {id = id} {vs = vs} t x l g y) h k =
      postfix-loaded_dynamic (primary f) d es loc id t
        (primary-Reading f b d es x h (any_of-Is (lparen ∷ []) op_arrow t l)) l g
        (primaries-starters vs (Primary-starts y))
        (λ b'.
          primary-Reading f b' d es y (omega (arith, Primary-shorter x, Global-shorter g))
            (next-left (lparen ∷ []) (op_arrow ∷ []) ws k))

  primary-Reading :
      {D : Type 0} {e : Expression D} {ts us : List (Token D)} (f : ℕ) (b : List (Token D))
      (d : Bytes) (es : List ParseError)
      → Primary e ts us
      → 5 * length ts + 3 ≤ f
      → next_in (lparen ∷ []) us ≡ false
      → Reading (primary f) b ts d es e us
  primary-Reading zero b d es x h k = absurd (omega arith)
  primary-Reading (suc f) b d es (number {d = v} {ts = ts} t l m) h k =
      yes_branch _ (match-yes t b ts d es number_literal l (refl, refl))
        (literal-number d es b t ts v l m)
  primary-Reading (suc f) b d es (text {ts = ts} t l) h k =
      skip_match b ts d es number_literal string_literal t _ l refl (
        yes_branch _ (match-yes t b ts d es string_literal l (refl, refl))
          (literal-text d es b t ts l))
  primary-Reading (suc f) b d es (truth {b = v} {ts = ts} t l m) h k =
      skip_match b ts d es number_literal boolean_literal t _ l refl (
        skip_match b ts d es string_literal boolean_literal t _ l refl (
          yes_branch _ (match-yes t b ts d es boolean_literal l (refl, refl))
            (literal-truth d es b t ts v l m)))
  primary-Reading (suc f) b d es (empty_array {ts = ts} t u l m) h k =
      past_literals d es lbracket t _ _ _ l refl refl refl (
        yes_branch _ (check-yes t b (u ∷ ts) d es lbracket l (refl, refl))
          (read_empty_array d es f t u b ts l m (omega arith)))
  primary-Reading (suc f) b d es (array {es = xs} {ts = ts} {us = us} t u l x m) h k =
      past_literals d es lbracket t _ _ _ l refl refl refl (
        yes_branch _ (check-yes t b ts d es lbracket l (refl, refl)) (
          read_array d es f t u b ts us xs l (Elements-starts x)
            (λ g e b'. Elements-Reading g b' d es x m (omega arith)) m (omega arith)))
  primary-Reading (suc f) b d es (parenthesised {e = e} {ts = ts} {us = us} t u l x m) h k =
      past_literals d es lparen t _ _ _ l refl refl refl (
        skip_check b ts d es lbracket lparen t _ l refl (
          yes_branch _ (match-yes t b ts d es lparen l (refl, refl)) (
            R.call _
              (assignment-Reading f (t ∷ b) d es x (omega arith)
                (any_of-Is after_expression rparen u m))
              λ b'.
                step _ (consume-yes u b' us d es rparen _ m (refl, refl))
                  (finished e (u ∷ b') us))))
  primary-Reading (suc f) b d es (parameter {ts = ts} t l) h k =
      past_literals d es op_at t _ _ _ l refl refl refl (
        skip_check b ts d es lbracket op_at t _ l refl (
          skip_match b ts d es lparen op_at t _ l refl (
            yes_branch _ (check-yes t b ts d es op_at l (refl, refl))
              (read_parameter d es t b ts l))))
  primary-Reading (suc f) b d es (variable {ts = ts} t l) h k =
      at_name d es t b ts f _ l (read_variable d es f t (t ∷ b) ts k (omega arith))
  primary-Reading (suc f) b d es (empty_call {ts = ts} t u v l m n) h k =
      at_name d es t b (u ∷ v ∷ ts) f _ l
        (read_empty_call d es f t u v (t ∷ b) ts m n (omega arith))
  primary-Reading (suc f) b d es (call {es = xs} {ns = ns} {ts = ts} {us = us} t u v l m x n) h k =
      at_name d es t b (u ∷ ts) f _ l (
        read_call d es f t u v (t ∷ b) ts us xs ns m (Arguments-starts x)
          (λ g e b'. Arguments-Reading g b' d es x n (omega arith)) n (omega arith))

  Elements-Reading :
      {D : Type 0} {xs : Expressions D} {ts us : List (Token D)} {u : Token D} (f : ℕ)
      (b : List (Token D)) (d : Bytes) (es : List ParseError)
      → Elements xs ts (u ∷ us)
      → Is rbracket u
      → 5 * length ts + 6 ≤ f
      → Reading (argument_list f) b ts d es xs (u ∷ us)
  Elements-Reading zero b d es x l h = absurd (omega arith)
  Elements-Reading {us = us} {u = u} (suc f) b d es (last x) l h =
      R.call _
        (assignment-Reading f b d es x (omega arith) (any_of-Is after_expression rbracket u l))
        λ b'.
          R.call _
            (no_branch _ (match-no b' (u ∷ us) d es op_comma (other op_comma rbracket u us l refl))
              (finished no_expressions b' (u ∷ us)))
            λ b''. finished _ b'' (u ∷ us)
  Elements-Reading {us = vs} {u = v} (suc f) b d es (more {us = us} t x m xs) l h =
      R.call _
        (assignment-Reading f b d es x (omega arith) (any_of-Is after_expression op_comma t m))
        λ b'.
          R.call _
            (yes_branch _ (match-yes t b' us d es op_comma m (refl, refl))
              (Elements-Reading f (t ∷ b') d es xs l (omega (arith, Assignment-shorter x))))
            λ b''. finished _ b'' (v ∷ vs)

  Arguments-Reading :
      {D : Type 0} {seen : Bool} {xs : Expressions D} {ns : NamedArguments D}
      {ts us : List (Token D)} {u : Token D} (f : ℕ) (b : List (Token D)) (d : Bytes)
      (es : List ParseError)
      → Arguments seen xs ns ts (u ∷ us)
      → Is rparen u
      → 5 * length ts + 6 ≤ f
      → Reading (arguments f seen) b ts d es (xs, ns) (u ∷ us)
  Arguments-Reading zero b d es x l h = absurd (omega arith)
  Arguments-Reading {us = us} {u = u} (suc f) b d es (last_placed {ts = ts} s x) l h =
      no_branch _ (named-no b ts d es (omega (arith, Assignment-shorter x)) s) (
        no_branch _ (Gives-pure false (state b ts d es)) (
          R.call _
            (assignment-Reading f b d es x (omega arith) (any_of-Is after_expression rparen u l))
            λ b'.
              R.call _
                (no_branch _
                  (match-no b' (u ∷ us) d es op_comma (other op_comma rparen u us l refl))
                  (finished (no_expressions, no_named_arguments) b' (u ∷ us)))
                λ b''. finished _ b'' (u ∷ us)))
  Arguments-Reading {us = vs} {u = v} (suc f) b d es (placed {ts = ts} {us = us} t s x m xs) l h =
      no_branch _ (named-no b ts d es (omega (arith, Assignment-shorter x)) s) (
        no_branch _ (Gives-pure false (state b ts d es)) (
          R.call _
            (assignment-Reading f b d es x (omega arith) (any_of-Is after_expression op_comma t m))
            λ b'.
              R.call _
                (yes_branch _ (match-yes t b' us d es op_comma m (refl, refl))
                  (Arguments-Reading f (t ∷ b') d es xs l (omega (arith, Assignment-shorter x))))
                λ b''. finished _ b'' (v ∷ vs)))
  Arguments-Reading {us = us} {u = w} (suc f) b d es (last_named {ts = ts} t u m n x) l h =
      yes_branch _ (named-yes t u b ts d es m n) (
        step _ (advance-yes t b (u ∷ ts) d es identifier m (refl, refl)) (
          step _ (advance-yes u (t ∷ b) ts d es op_assign n (refl, refl)) (
            R.call _
              (assignment-Reading f (u ∷ t ∷ b) d es x (omega arith)
                (any_of-Is after_expression rparen w l))
              λ b'.
                R.call _
                  (no_branch _
                    (match-no b' (w ∷ us) d es op_comma (other op_comma rparen w us l refl))
                    (finished (no_expressions, no_named_arguments) b' (w ∷ us)))
                  λ b''. finished _ b'' (w ∷ us))))
  Arguments-Reading {us = vs} {u = w} (suc f) b d es
        (named_then {ts = ts} {us = us} t u v m n x o xs) l h =
      yes_branch _ (named-yes t u b ts d es m n) (
        step _ (advance-yes t b (u ∷ ts) d es identifier m (refl, refl)) (
          step _ (advance-yes u (t ∷ b) ts d es op_assign n (refl, refl)) (
            R.call _
              (assignment-Reading f (u ∷ t ∷ b) d es x (omega arith)
                (any_of-Is after_expression op_comma v o))
              λ b'.
                R.call _
                  (yes_branch _ (match-yes v b' us d es op_comma o (refl, refl))
                    (Arguments-Reading f (v ∷ b') d es xs l (omega (arith, Assignment-shorter x))))
                  λ b''. finished _ b'' (w ∷ vs))))

-- On tokens that start with an expression, as the grammar spells it, and go on with a token that
-- cannot continue it, `parse_expression` returns that expression, with the location of every node,
-- and leaves the cursor behind it; no error is recorded.
pub parse_expression_complete :
    {D : Type 0} {e : Expression D} {ts us : List (Token D)}
    → Assignment e ts us
    → next_in after_expression us ≡ false
    → (b : List (Token D)) × (parse_expression ts ≡ ok e (state b us [] []))
unfolding parse_expression
parse_expression_complete {ts = ts} x h =
    let read = assignment-Reading (8 * length ts + 16) [] [] [] x (omega arith) h in
    (read.before, read.run.gives)
