-- ===== src/Parser/Sound.antt =====
-- What the parser reads is in the grammar: the literals, the arrows and the binary levels.
use vision_pipe.Base.{
  ℕ, zero, suc, Bool, true, false, List, ◌∷◌, ◌≡◌, refl, Bytes, Option-cases, inl, inr,
}
use vision_pipe.Lexer.Token.{
  Token, TokenType, SourceLocation, same_type, as_string, as_number, as_bool, identifier,
  string_literal, number_literal, boolean_literal, kw_global, op_arrow,
}
use vision_pipe.Parser.Syntax.{
  CacheOutput, LiteralValue, Expression, FunctionCall, literal_expr, identifier_expr,
  function_call_expr, cache_load_expr,
}
use vision_pipe.Parser.State.{State, state, ParseError, Parser, branch, ask}
use vision_pipe.Parser.Cursor.{check}
use vision_pipe.Parser.Expressions.{
  literal_value, or_thrown, make_literal, take_cache_id, expected_cache_id, cache_output,
  cache_load, load_target, after_arrow, postfix, operator_loop, left_associative, logical_or,
}
use vision_pipe.Parser.Grammar.{
  operators, Is, Global, local, global, CacheId, quoted, named, Output, output, Binary, operand,
  tighter, joined, Unary, Postfix, bare, cached, loaded, loaded_dynamic, Primary, number, text,
  truth,
}
use vision_pipe.Parser.Gives.{IsPlain, previous-yes, advance-yes}
use vision_pipe.Parser.Runs.{ahead}
use vision_pipe.Parser.Spelling.{operator-IsPlain}
use vision_pipe.Parser.Levels.{level, logical_or-level}
use vision_pipe.Parser.Ensures.{
  Ensures, Ensures-pure, Ensures-no_fuel, Ensures-bind, Ensures-error, step_Ensures, current_then,
  Ensures-weaken, match_then, if_check, if_match, if_any, threw, returned,
}

module _ {D : Type 0} where
  -- The value that is returned stands in the grammar for the tokens between `ts` and the cursor.
  abbrev pub Spelled :
      {A : Type 0}
      → (A → List (Token D) → List (Token D) → Type 0)
      → List (Token D)
      → A
      → State D
      → Type 0
  Spelled R ts x s = R x ts (ahead s)

  abbrev pub Sound :
      {A : Type 0} → Parser D A → (A → List (Token D) → List (Token D) → Type 0) → Type 0
  Sound p R =
      (b ts : List (Token D)) (d : Bytes) (es : List ParseError)
      → Ensures p (state b ts d es) (Spelled R ts)

  -- The literal of a token that was read.
  abbrev pub Literal : Token D → LiteralValue D → List (Token D) → List (Token D) → Type 0
  Literal t v us vs = Primary (literal_expr t.location v) (t ∷ us) vs

  pub number_Sound :
      (ty : TokenType) (t : Token D)
      → Is number_literal t
      → same_type ty number_literal ≡ true
      → Sound (literal_value ty t) (Literal t)
  unfolding literal_value or_thrown same_type
  number_Sound number_literal t h k b us d es = elim (Option-cases (as_number t)) [
    | inl e ↦ record { ends = rw e threw }
    | inr (v, e) ↦ record { ends = rw e (returned (number t h e)) }
  ]
  number_Sound _ t h k b us d es = cc

  pub truth_Sound :
      (ty : TokenType) (t : Token D)
      → Is boolean_literal t
      → same_type ty boolean_literal ≡ true
      → Sound (literal_value ty t) (Literal t)
  unfolding literal_value or_thrown same_type
  truth_Sound boolean_literal t h k b us d es = elim (Option-cases (as_bool t)) [
    | inl e ↦ record { ends = rw e threw }
    | inr (v, e) ↦ record { ends = rw e (returned (truth t h e)) }
  ]
  truth_Sound _ t h k b us d es = cc

  pub text_Sound :
      (ty : TokenType) (t : Token D)
      → Is string_literal t
      → same_type ty string_literal ≡ true
      → Sound (literal_value ty t) (Literal t)
  unfolding literal_value same_type
  text_Sound string_literal t h k b us d es = record { ends = returned (text t h) }
  text_Sound _ t h k b us d es = cc

  pub make_literal-Sound :
      (t : Token D)
      → Sound (literal_value t.type t) (Literal t)
      → Sound (make_literal t) (λ e us vs. Primary e (t ∷ us) vs)
  unfolding make_literal
  make_literal-Sound t h b us d es = Ensures-bind (h b us d es) λ v b' vs d' es' x. Ensures-pure x

  loop_Ensures :
      (f n : ℕ) (p : Parser D (Expression D))
      → Sound p (Binary n)
      → (e : Expression D) (ts b us : List (Token D)) (d : Bytes) (es : List ParseError)
      → Binary (suc n) e ts us
      → Ensures (operator_loop f (operators n) p e) (state b us d es) (Spelled (Binary (suc n)) ts)
  unfolding operator_loop
  loop_Ensures zero n p h e ts b us d es x = Ensures-no_fuel _ _
  loop_Ensures (suc f) n p h e ts b us d es x =
      if_any b us d es (operators n) (operator-IsPlain n)
        (λ t vs eq is. step_Ensures _ (previous-yes t b vs d es) (
          Ensures-bind (h (t ∷ b) vs d es) λ e' b' ws d' es' y.
            loop_Ensures f n p h _ ts b' ws d' es' (joined t (rw eq at x) is y)))
        (Ensures-pure x)

  level-Sound :
      (n f : ℕ) (p : Parser D (Expression D)) → Sound p Unary → Sound (level n f p) (Binary n)
  unfolding level left_associative
  level-Sound zero f p h b ts d es = Ensures-weaken (h b ts d es) λ e s x. operand x
  level-Sound (suc n) f p h b ts d es =
      Ensures-bind (level-Sound n f p h b ts d es) λ e b' us d' es' x.
        loop_Ensures f n (level n f p) (level-Sound n f p h) e ts b' us d' es' (tighter x)

  pub logical_or-Sound :
      (f : ℕ) (p : Parser D (Expression D)) → Sound p Unary → Sound (logical_or f p) (Binary 6)
  logical_or-Sound f p h = rw (logical_or-level f p) (level-Sound 6 f p h)

  take_Ensures :
      (here t : Token D) (ty : TokenType) (g dynamic : Bool) (b vs ws : List (Token D)) (d : Bytes)
      (es : List ParseError)
      → Is ty t
      → IsPlain ty
      → Global g (here ∷ vs) (t ∷ ws)
      → CacheId (as_string t) dynamic (t ∷ ws) ws
      → Ensures
          (take_cache_id here.location g dynamic)
          (state b (t ∷ ws) d es)
          (Spelled Output (here ∷ vs))
  unfolding take_cache_id
  take_Ensures here t ty g dynamic b vs ws d es is plain x y =
      step_Ensures _ (advance-yes t b ws d es ty is plain) (Ensures-pure (output x y))

  -- A parser that does not return.
  abbrev Rejects : {A : Type 0} → Parser D A → Type 0
  Rejects p = (s : State D) → Ensures p s λ _ _. ⊥

  expected_cache_id-Rejects : Rejects expected_cache_id
  unfolding expected_cache_id
  expected_cache_id-Rejects (state b ts d es) =
      current_then b ts d es λ t us eq. Ensures-error _ _ _

  cache_id_Ensures :
      (reject : Parser D CacheOutput)
      → Rejects reject
      → (here : Token D) (g : Bool) (b vs us : List (Token D)) (d : Bytes) (es : List ParseError)
      → Global g (here ∷ vs) us
      → Ensures
          (branch
            (ask (check string_literal))
            (take_cache_id here.location g false)
            (branch (ask (check identifier)) (take_cache_id here.location g true) reject))
          (state b us d es)
          (Spelled Output (here ∷ vs))
  unfolding same_type
  cache_id_Ensures reject r here g b vs us d es x =
      if_check b us d es string_literal (refl, refl)
        (λ t ws eq is.
          take_Ensures here t string_literal g false b vs ws d es is (refl, refl) (rw eq at x)
            (quoted t is))
        (if_check b us d es identifier (refl, refl)
          (λ t ws eq is.
            take_Ensures here t identifier g true b vs ws d es is (refl, refl) (rw eq at x)
              (named t is))
          (Ensures-weaken (r (state b us d es)) λ _ _ i. absurd i))

  cache_output-Sound :
      (reject : Parser D CacheOutput) → Rejects reject → Sound (cache_output reject) Output
  unfolding cache_output same_type
  cache_output-Sound reject r b ts d es = current_then b ts d es λ here vs eq. rw eq (
      match_then b (here ∷ vs) d es kw_global _ (refl, refl)
        (λ t us eq' is.
          cache_id_Ensures reject r here true (t ∷ b) vs us d es (rw eq' (global t is)))
        (cache_id_Ensures reject r here false b vs (here ∷ vs) d es local))

  load_target-Sound :
      (l : SourceLocation) (id : Bytes) (dynamic g : Bool) (ts vs : List (Token D))
      → ((c : FunctionCall D) (ws : List (Token D))
          → Primary (function_call_expr c) vs ws
          → Postfix (cache_load_expr l id dynamic g c) ts ws)
      → (e : Expression D) (b ws : List (Token D)) (d : Bytes) (es : List ParseError)
      → Primary e vs ws
      → Ensures (load_target l id dynamic g e) (state b ws d es) (Spelled Postfix ts)
  unfolding load_target
  load_target-Sound l id dynamic g ts vs make (function_call_expr c) b ws d es y =
      Ensures-pure (make c ws y)
  load_target-Sound l id dynamic g ts vs make _ b ws d es y = Ensures-error _ _ _

  cache_load_Ensures :
      (target : Parser D (Expression D))
      → Sound target Primary
      → (l : SourceLocation) (id : Bytes) (dynamic : Bool) (ts b us : List (Token D)) (d : Bytes)
        (es : List ParseError)
      → ((g : Bool) (c : FunctionCall D) (vs ws : List (Token D))
          → Global g us vs
          → Primary (function_call_expr c) vs ws
          → Postfix (cache_load_expr l id dynamic g c) ts ws)
      → Ensures (cache_load target l id dynamic) (state b us d es) (Spelled Postfix ts)
  unfolding cache_load same_type
  cache_load_Ensures target h l id dynamic ts b us d es make =
      match_then b us d es kw_global _ (refl, refl)
        (λ t vs eq is. Ensures-bind (h (t ∷ b) vs d es) λ e b' ws d' es' y.
          load_target-Sound l id dynamic true ts vs
            (λ c ws' z. make true c vs ws' (rw eq (global t is)) z) e b' ws d' es' y)
        (Ensures-bind (h b us d es) λ e b' ws d' es' y.
          load_target-Sound l id dynamic false ts us (λ c ws' z. make false c us ws' local z) e b'
            ws d' es' y)

  after_arrow_Ensures :
      (target : Parser D (Expression D))
      → Sound target Primary
      → (e : Expression D) (t : Token D) (ts b us : List (Token D)) (d : Bytes)
        (es : List ParseError)
      → Primary e ts (t ∷ us)
      → Is op_arrow t
      → Ensures (after_arrow target e) (state b us d es) (Spelled Postfix ts)
  unfolding after_arrow
  after_arrow_Ensures target h (function_call_expr c) t ts b us d es x is =
      Ensures-bind (cache_output-Sound _ expected_cache_id-Rejects b us d es)
        λ o b' vs d' es' y. Ensures-pure (cached t x is y)
  after_arrow_Ensures target h (literal_expr l (LiteralValue.string id)) t ts b us d es x is =
      cache_load_Ensures target h l id false ts b us d es λ g c vs ws y z. loaded t x is y z
  after_arrow_Ensures target h (literal_expr l _) t ts b us d es x is = Ensures-error _ _ _
  after_arrow_Ensures target h (identifier_expr l name) t ts b us d es x is =
      cache_load_Ensures target h l name true ts b us d es
        λ g c vs ws y z. loaded_dynamic t x is y z
  after_arrow_Ensures target h _ t ts b us d es x is = Ensures-error _ _ _

  pub postfix-Sound : (p : Parser D (Expression D)) → Sound p Primary → Sound (postfix p) Postfix
  unfolding postfix same_type
  postfix-Sound p h b ts d es = Ensures-bind (h b ts d es) λ e b' us d' es' x.
      if_match b' us d' es' op_arrow (refl, refl)
        (λ t vs eq is. after_arrow_Ensures p h e t ts (t ∷ b') vs d' es' (rw eq at x) is)
        (Ensures-pure (bare x))
