-- ===== src/Parser/Gives.antt =====
-- Successful runs of a parser: the value, and the tokens that are left.
use vision_pipe.Base.{
  ℕ, ◌==◌, ==_iff, Bool, true, false, List, [], ◌∷◌, ◌≡◌, refl, sym, ◌∙◌, ap, arith, Bytes,
  Bool-cases, inl, inr,
}
use vision_pipe.Lexer.Token.{Token, TokenType, ordinal, same_type, end_of_file, doc_comment}
use vision_pipe.Parser.State.{State, state, ParseError, ok, Parser, pure, bind, branch, ask, ◌>>=◌}
use vision_pipe.Parser.Cursor.{
  current, previous, check, advance, match, match_any, consume, any_of, doc_after,
}
use vision_pipe.Parser.Grammar.{Is}

-- A type that is neither the end nor a comment.
abbrev pub IsPlain : TokenType → Type 0
IsPlain ty = (same_type ty end_of_file ≡ false) × (same_type ty doc_comment ≡ false)

module _ {D : Type 0} where
  -- The parser returns the value and leaves the second state.
  pub record Gives {A : Type 0} (p : Parser D A) (s : State D) (x : A) (s' : State D) : Type 0 where
    pub gives : p s ≡ ok x s'

  pub Gives-pure : {A : Type 0} (x : A) (s : State D) → Gives (pure x) s x s
  Gives-pure x s = record { gives = refl }

  pub Gives-bind :
      {A B : Type 0} {p : Parser D A} (f : A → Parser D B) {s s' s'' : State D} {x : A} {y : B}
      → Gives p s x s'
      → Gives (f x) s' y s''
      → Gives (p >>= f) s y s''
  unfolding ◌>>=◌ bind
  Gives-bind f h k = record { gives = rw h.gives k.gives }

  -- A conditional whose test succeeds, and one whose test fails.
  pub Gives-yes :
      {A : Type 0} {t : Parser D Bool} {p : Parser D A} (q : Parser D A) {s s' s'' : State D}
      {x : A}
      → Gives t s true s'
      → Gives p s' x s''
      → Gives (branch t p q) s x s''
  unfolding branch bind
  Gives-yes q h k = record { gives = rw h.gives k.gives }

  pub Gives-no :
      {A : Type 0} {t : Parser D Bool} (p : Parser D A) {q : Parser D A} {s s' s'' : State D}
      {x : A}
      → Gives t s false s'
      → Gives q s' x s''
      → Gives (branch t p q) s x s''
  unfolding branch bind
  Gives-no p h k = record { gives = rw h.gives k.gives }

  pub Gives-ask :
      (test : State D → Bool) (s : State D) {b : Bool} → test s ≡ b → Gives (ask test) s b s
  unfolding ask
  Gives-ask test s h = record { gives = rw h refl }

  -- The type of a token decides its tests.
  pub Is-same :
      (ty : TokenType) (t : Token D) (u : TokenType) → Is ty t → same_type t.type u ≡ same_type ty u
  unfolding same_type
  Is-same ty t u h = ap (λ (n : ℕ). n == ordinal u) ((==_iff (ordinal t.type) (ordinal ty)).0 h)

  advance_lem :
      (t : Token D) (b a : List (Token D)) (d : Bytes) (es : List ParseError)
      → same_type t.type end_of_file ≡ false
      → same_type t.type doc_comment ≡ false
      → advance (state b (t ∷ a) d es) ≡ ok t (state (t ∷ b) a d es)
  unfolding advance previous doc_after
  advance_lem t b a d es e e' = rw (e, e') refl

  check_lem :
      (ty : TokenType) (t : Token D) (b a : List (Token D)) (d : Bytes) (es : List ParseError)
      → same_type t.type end_of_file ≡ false
      → check ty (state b (t ∷ a) d es) ≡ same_type t.type ty
  unfolding check
  check_lem ty t b a d es e = rw e refl

  -- The type of the next token.
  unfoldable pub next_in : List TokenType → List (Token D) → Bool
  unfolding any_of
  next_in tys [] = false
  next_in tys (t ∷ ts) = any_of tys t.type

  check-miss :
      (ty : TokenType) (b a : List (Token D)) (d : Bytes) (es : List ParseError)
      → next_in (ty ∷ []) a ≡ false
      → check ty (state b a d es) ≡ false
  unfolding check next_in
  check-miss ty b [] d es h = refl
  check-miss ty b (t ∷ a) d es h = ground arith

  next-head :
      (ty : TokenType) (tys : List TokenType) (a : List (Token D))
      → next_in (ty ∷ tys) a ≡ false
      → next_in (ty ∷ []) a ≡ false
  unfolding next_in
  next-head ty tys [] h = refl
  next-head ty tys (t ∷ a) h = ground arith

  next-tail :
      (ty : TokenType) (tys : List TokenType) (a : List (Token D))
      → next_in (ty ∷ tys) a ≡ false
      → next_in tys a ≡ false
  unfolding next_in
  next-tail ty tys [] h = refl
  next-tail ty tys (t ∷ a) h = ground arith

  pub next-other :
      (ty : TokenType) (t : Token D) (a : List (Token D))
      → same_type t.type ty ≡ false
      → next_in (ty ∷ []) (t ∷ a) ≡ false
  unfolding next_in
  next-other ty t a h = ground arith

  module _ (b a : List (Token D)) (d : Bytes) (es : List ParseError) where
    pub check-no :
        (ty : TokenType)
        → next_in (ty ∷ []) a ≡ false
        → Gives (ask (check ty)) (state b a d es) false (state b a d es)
    check-no ty h = Gives-ask (check ty) (state b a d es) (check-miss ty b a d es h)

    pub match-no :
        (ty : TokenType)
        → next_in (ty ∷ []) a ≡ false
        → Gives (match ty) (state b a d es) false (state b a d es)
    unfolding match
    match-no ty h = Gives-no _ (check-no ty h) (Gives-pure false (state b a d es))

    pub match_any-no :
        (tys : List TokenType)
        → next_in tys a ≡ false
        → Gives (match_any tys) (state b a d es) false (state b a d es)
    unfolding match_any
    match_any-no [] h = Gives-pure false (state b a d es)
    match_any-no (ty ∷ tys) h =
        Gives-no _ (match-no ty (next-head ty tys a h)) (match_any-no tys (next-tail ty tys a h))

  module _ (t : Token D) (b a : List (Token D)) (d : Bytes) (es : List ParseError) where
    pub previous-yes : Gives previous (state (t ∷ b) a d es) t (state (t ∷ b) a d es)
    unfolding previous
    previous-yes = record { gives = refl }

    pub current-yes : Gives current (state b (t ∷ a) d es) t (state b (t ∷ a) d es)
    unfolding current
    current-yes = record { gives = refl }

    pub advance-yes :
        (ty : TokenType)
        → Is ty t
        → IsPlain ty
        → Gives advance (state b (t ∷ a) d es) t (state (t ∷ b) a d es)
    advance-yes ty h k = record {
      gives =
          advance_lem t b a d es (Is-same ty t end_of_file h ∙ k.0)
            (Is-same ty t doc_comment h ∙ k.1);
    }

    pub check-yes :
        (ty : TokenType)
        → Is ty t
        → IsPlain ty
        → Gives (ask (check ty)) (state b (t ∷ a) d es) true (state b (t ∷ a) d es)
    check-yes ty h k =
        Gives-ask (check ty) (state b (t ∷ a) d es)
          (check_lem ty t b a d es (Is-same ty t end_of_file h ∙ k.0) ∙ h)

    pub match-yes :
        (ty : TokenType)
        → Is ty t
        → IsPlain ty
        → Gives (match ty) (state b (t ∷ a) d es) true (state (t ∷ b) a d es)
    unfolding match
    match-yes ty h k =
        Gives-yes _ (check-yes ty h k)
          (Gives-bind _ (advance-yes ty h k) (Gives-pure true (state (t ∷ b) a d es)))

    pub consume-yes :
        (ty : TokenType) (message : Bytes)
        → Is ty t
        → IsPlain ty
        → Gives (consume ty message) (state b (t ∷ a) d es) t (state (t ∷ b) a d es)
    unfolding consume
    consume-yes ty message h k = Gives-yes _ (check-yes ty h k) (advance-yes ty h k)

    pub match_any-yes :
        (tys : List TokenType)
        → any_of tys t.type ≡ true
        → IsPlain t.type
        → Gives (match_any tys) (state b (t ∷ a) d es) true (state (t ∷ b) a d es)
    unfolding match_any any_of
    match_any-yes [] h k = cc
    match_any-yes (ty ∷ tys) h k = elim (Bool-cases (same_type t.type ty)) [
      | inl e ↦
          Gives-yes _
            (match-yes ty e
              (sym (Is-same ty t end_of_file e) ∙ k.0, sym (Is-same ty t doc_comment e) ∙ k.1))
            (Gives-pure true (state (t ∷ b) a d es))
      | inr e ↦
          Gives-no _ (match-no b (t ∷ a) d es ty (next-other ty t a e))
            (match_any-yes tys (rw e at h) k)
    ]
