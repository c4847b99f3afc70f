-- ===== src/Parser/Leaves.antt =====
-- The parser reads the literals and the identifiers of caches that the grammar spells.
use vision_pipe.Base.{Bool, true, false, List, [], ◌∷◌, some, ◌≡◌, refl, ◌∙◌, Bytes}
use vision_pipe.Lexer.Token.{
  Token, TokenType, SourceLocation, same_type, as_string, as_number, as_bool, identifier,
  string_literal, number_literal, boolean_literal, kw_global,
}
use vision_pipe.Parser.Syntax.{CacheOutput, LiteralValue, literal_expr}
use vision_pipe.Parser.State.{State, state, ok, ParseError, Parser, branch, ask, ◌>>=◌}
use vision_pipe.Parser.Cursor.{any_of, match, check, previous}
use vision_pipe.Parser.Expressions.{
  make_literal, literal_value, or_thrown, take_cache_id, cache_output,
}
use vision_pipe.Parser.Grammar.{Is, local, global, CacheId, quoted, named, Output, output}
use vision_pipe.Parser.Gives.{
  IsPlain, next_in, check-no, match-no, previous-yes, current-yes, advance-yes, check-yes,
  match-yes,
}
use vision_pipe.Parser.Readings.{Reading, finished, step, yes_branch, no_branch}
use vision_pipe.Parser.Spelling.{any_of-Is}

module _ {D : Type 0} where
  -- The next token has another type.
  pub other :
      (x ty : TokenType) (t : Token D) (a : List (Token D))
      → Is ty t
      → any_of (x ∷ []) ty ≡ false
      → next_in (x ∷ []) (t ∷ a) ≡ false
  unfolding next_in
  other x ty t a h k = any_of-Is (x ∷ []) ty t h ∙ k

  module _ {A : Type 0} (b a : List (Token D)) (d : Bytes) (es : List ParseError) where
    pub skip_match :
        (x ty : TokenType) (t : Token D) (p : Parser D A) {q : Parser D A} {y : A}
        {r : List (Token D)}
        → Is ty t
        → any_of (x ∷ []) ty ≡ false
        → Reading q b (t ∷ a) d es y r
        → Reading (branch (match x) p q) b (t ∷ a) d es y r
    skip_match x ty t p h k = no_branch p (match-no b (t ∷ a) d es x (other x ty t a h k))

    pub skip_check :
        (x ty : TokenType) (t : Token D) (p : Parser D A) {q : Parser D A} {y : A}
        {r : List (Token D)}
        → Is ty t
        → any_of (x ∷ []) ty ≡ false
        → Reading q b (t ∷ a) d es y r
        → Reading (branch (ask (check x)) p q) b (t ∷ a) d es y r
    skip_check x ty t p h k = no_branch p (check-no b (t ∷ a) d es x (other x ty t a h k))

  -- The token behind an optional `global` of a cache's identifier.
  pub not_global :
      {id : Bytes} {dynamic : Bool} {ts us : List (Token D)}
      → CacheId id dynamic ts us
      → next_in (kw_global ∷ []) ts ≡ false
  unfolding same_type any_of
  not_global (quoted {ts} t h) = other kw_global string_literal t ts h refl
  not_global (named {ts} t h) = other kw_global identifier t ts h refl

  number_value :
      (ty : TokenType) (t : Token D) (s : State D) (v : D)
      → same_type ty number_literal ≡ true
      → as_number t ≡ some v
      → literal_value ty t s ≡ ok (LiteralValue.float v) s
  unfolding literal_value or_thrown same_type
  number_value number_literal t s v h k = rw k refl
  number_value _ t s v h k = cc

  text_value :
      (ty : TokenType) (t : Token D) (s : State D)
      → same_type ty string_literal ≡ true
      → literal_value ty t s ≡ ok (LiteralValue.string (as_string t)) s
  unfolding literal_value same_type
  text_value string_literal t s h = refl
  text_value _ t s h = cc

  truth_value :
      (ty : TokenType) (t : Token D) (s : State D) (v : Bool)
      → same_type ty boolean_literal ≡ true
      → as_bool t ≡ some v
      → literal_value ty t s ≡ ok (LiteralValue.boolean v) s
  unfolding literal_value or_thrown same_type
  truth_value boolean_literal t s v h k = rw k refl
  truth_value _ t s v h k = cc

  module _ (d : Bytes) (es : List ParseError) where
    pub take_cache_id-Reading :
        (b : List (Token D)) (l : SourceLocation) (g dynamic : Bool) (ty : TokenType) (t : Token D)
        (a : List (Token D))
        → Is ty t
        → IsPlain ty
        → Reading
            (take_cache_id l g dynamic)
            b
            (t ∷ a)
            d
            es
            (record { cache_id = as_string t; is_global = g; is_dynamic = dynamic; location = l })
            a
    unfolding take_cache_id
    take_cache_id-Reading b l g dynamic ty t a h k =
        step _ (advance-yes t b a d es ty h k) (finished _ (t ∷ b) a)

    pub CacheId-Reading :
        (b : List (Token D)) (l : SourceLocation) (g : Bool) (reject : Parser D CacheOutput)
        {id : Bytes} {dynamic : Bool} {ts us : List (Token D)}
        → CacheId id dynamic ts us
        → Reading
            (branch
              (ask (check string_literal))
              (take_cache_id l g false)
              (branch (ask (check identifier)) (take_cache_id l g true) reject))
            b
            ts
            d
            es
            (record { cache_id = id; is_global = g; is_dynamic = dynamic; location = l })
            us
    unfolding same_type any_of
    CacheId-Reading b l g reject (quoted {ts} t h) =
        yes_branch _ (check-yes t b ts d es string_literal h (refl, refl))
          (take_cache_id-Reading b l g false string_literal t ts h (refl, refl))
    CacheId-Reading b l g reject (named {ts} t h) =
        skip_check b ts d es string_literal identifier t _ h refl (
          yes_branch _ (check-yes t b ts d es identifier h (refl, refl))
            (take_cache_id-Reading b l g true identifier t ts h (refl, refl)))

    pub Output-Reading :
        (b : List (Token D)) (reject : Parser D CacheOutput) {o : CacheOutput}
        {ts us : List (Token D)}
        → Output o ts us
        → Reading (cache_output reject) b ts d es o us
    unfolding cache_output same_type
    Output-Reading b reject (output {t} {ts} local c) = step _ (current-yes t b ts d es) (
        step _ (match-no b (t ∷ ts) d es kw_global (not_global c))
          (CacheId-Reading b t.location false reject c))
    Output-Reading b reject (output {t = u} {ts = ts} (global t h) c) =
        step _ (current-yes t b ts d es) (
          step _ (match-yes t b ts d es kw_global h (refl, refl))
            (CacheId-Reading (t ∷ b) t.location true reject c))

    pub literal-number :
        (b : List (Token D)) (t : Token D) (a : List (Token D)) (v : D)
        → Is number_literal t
        → as_number t ≡ some v
        → Reading
            (previous >>= make_literal)
            (t ∷ b)
            a
            d
            es
            (literal_expr t.location (LiteralValue.float v))
            a
    unfolding make_literal
    literal-number b t a v h k = step _ (previous-yes t b a d es) (
        step _ (record { gives = number_value t.type t (state (t ∷ b) a d es) v h k })
          (finished _ (t ∷ b) a))

    pub literal-text :
        (b : List (Token D)) (t : Token D) (a : List (Token D))
        → Is string_literal t
        → Reading
            (previous >>= make_literal)
            (t ∷ b)
            a
            d
            es
            (literal_expr t.location (LiteralValue.string (as_string t)))
            a
    unfolding make_literal
    literal-text b t a h = step _ (previous-yes t b a d es) (
        step _ (record { gives = text_value t.type t (state (t ∷ b) a d es) h })
          (finished _ (t ∷ b) a))

    pub literal-truth :
        (b : List (Token D)) (t : Token D) (a : List (Token D)) (v : Bool)
        → Is boolean_literal t
        → as_bool t ≡ some v
        → Reading
            (previous >>= make_literal)
            (t ∷ b)
            a
            d
            es
            (literal_expr t.location (LiteralValue.boolean v))
            a
    unfolding make_literal
    literal-truth b t a v h k = step _ (previous-yes t b a d es) (
        step _ (record { gives = truth_value t.type t (state (t ∷ b) a d es) v h k })
          (finished _ (t ∷ b) a))
