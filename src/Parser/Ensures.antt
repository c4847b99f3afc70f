-- ===== src/Parser/Ensures.antt =====
-- What a run of a parser ensures when it returns, and the rules for chains of calls.
use vision_pipe.Base.{
  Bool, true, false, List, [], ◌∷◌, ◌≡◌, ◌⊎◌, refl, arith, Bytes, Bool-cases, inl, inr,
}
use vision_pipe.Lexer.Token.{Token, TokenType, same_type}
use vision_pipe.Parser.State.{
  State, state, ParseError, Outcome, ok, failed, out_of_bounds, thrown, out_of_fuel, Parser, pure,
  no_fuel, bind, branch, ask, ◌>>=◌,
}
use vision_pipe.Parser.Cursor.{current, check, match, match_any, consume, error, any_of}
use vision_pipe.Parser.Grammar.{Is}
use vision_pipe.Parser.Gives.{
  Gives, IsPlain, next_in, next-other, check-no, match-no, match_any-no, check-yes, match-yes,
  consume-yes, match_any-yes,
}

module _ {D : Type 0} where
  -- What holds of the value and of the state that are returned; nothing else is asked.
  pub data Ended {A : Type 0} (Q : A → State D → Type 0) : Outcome D A → Type 0 where
    returned : {x : A} {s : State D} → Q x s → Ended Q (ok x s)
    raised : {e : ParseError} {s : State D} → Ended Q (failed e s)
    overran : Ended Q out_of_bounds
    threw : Ended Q thrown
    spent : Ended Q out_of_fuel

  pub Ended-value :
      {A : Type 0} (Q : A → State D → Type 0) {x : A} {s : State D} → Ended Q (ok x s) → Q x s
  Ended-value Q (returned q) = q

  Ended-weaken :
      {A : Type 0} {r : Outcome D A} {P Q : A → State D → Type 0}
      → Ended P r
      → ((x : A) (s : State D) → P x s → Q x s)
      → Ended Q r
  Ended-weaken (returned q) k = returned (k _ _ q)
  Ended-weaken raised k = raised
  Ended-weaken overran k = overran
  Ended-weaken threw k = threw
  Ended-weaken spent k = spent

  pub record Ensures {A : Type 0} (p : Parser D A) (s : State D) (Q : A → State D → Type 0)
      : Type 0 where
    pub ends : Ended Q (p s)

  pub Ensures-pure :
      {A : Type 0} {s : State D} {x : A} {Q : A → State D → Type 0} → Q x s → Ensures (pure x) s Q
  Ensures-pure q = record { ends = returned q }

  pub Ensures-no_fuel : {A : Type 0} (s : State D) (Q : A → State D → Type 0) → Ensures no_fuel s Q
  Ensures-no_fuel s Q = record { ends = spent }

  pub Ensures-Gives :
      {A : Type 0} {p : Parser D A} {s s' : State D} {x : A} (Q : A → State D → Type 0)
      → Gives p s x s'
      → Q x s'
      → Ensures p s Q
  Ensures-Gives Q h q = record { ends = rw h.gives (returned q) }

  bind-Ended :
      {A B : Type 0} {P : A → State D → Type 0} {Q : B → State D → Type 0} {f : A → Parser D B}
      {r : Outcome D A}
      → Ended P r
      → ((x : A) (b a : List (Token D)) (d : Bytes) (es : List ParseError)
          → P x (state b a d es)
          → Ensures (f x) (state b a d es) Q)
      → Ended Q (bind r f)
  unfolding bind
  bind-Ended (returned {x = x} {s = state b a d es} q) k = (k x b a d es q).ends
  bind-Ended raised k = raised
  bind-Ended overran k = overran
  bind-Ended threw k = threw
  bind-Ended spent k = spent

  pub Ensures-bind :
      {A B : Type 0} {p : Parser D A} {f : A → Parser D B} {s : State D} {P : A → State D → Type 0}
      {Q : B → State D → Type 0}
      → Ensures p s P
      → ((x : A) (b a : List (Token D)) (d : Bytes) (es : List ParseError)
          → P x (state b a d es)
          → Ensures (f x) (state b a d es) Q)
      → Ensures (p >>= f) s Q
  unfolding ◌>>=◌
  Ensures-bind h k = record { ends = bind-Ended h.ends k }

  pub Ensures-weaken :
      {A : Type 0} {p : Parser D A} {s : State D} {P Q : A → State D → Type 0}
      → Ensures p s P
      → ((x : A) (s' : State D) → P x s' → Q x s')
      → Ensures p s Q
  Ensures-weaken h k = record { ends = Ended-weaken h.ends k }

  -- A call whose run is known, in front of the rest, and as the test of a conditional.
  pub step_Ensures :
      {A B : Type 0} {p : Parser D A} (f : A → Parser D B) {s s' : State D} {x : A}
      {Q : B → State D → Type 0}
      → Gives p s x s'
      → Ensures (f x) s' Q
      → Ensures (p >>= f) s Q
  unfolding ◌>>=◌ bind
  step_Ensures f h k = record { ends = rw h.gives k.ends }

  pub yes_Ensures :
      {A : Type 0} {t : Parser D Bool} {p : Parser D A} (q : Parser D A) {s s' : State D}
      {Q : A → State D → Type 0}
      → Gives t s true s'
      → Ensures p s' Q
      → Ensures (branch t p q) s Q
  unfolding branch bind
  yes_Ensures q h k = record { ends = rw h.gives k.ends }

  pub no_Ensures :
      {A : Type 0} {t : Parser D Bool} (p : Parser D A) {q : Parser D A} {s s' : State D}
      {Q : A → State D → Type 0}
      → Gives t s false s'
      → Ensures q s' Q
      → Ensures (branch t p q) s Q
  unfolding branch bind
  no_Ensures p h k = record { ends = rw h.gives k.ends }

  pub current_then :
      {A : Type 0} (b ts : List (Token D)) (d : Bytes) (es : List ParseError)
      {Q : A → State D → Type 0} {f : Token D → Parser D A}
      → ((t : Token D) (us : List (Token D))
          → ts ≡ t ∷ us
          → Ensures (f t) (state b (t ∷ us) d es) Q)
      → Ensures (current >>= f) (state b ts d es) Q
  unfolding current ◌>>=◌ bind
  current_then b [] d es k = record { ends = overran }
  current_then b (t ∷ us) d es k = record { ends = (k t us refl).ends }

  pub Ensures-error :
      {A : Type 0} (message : Bytes) (s : State D) (Q : A → State D → Type 0)
      → Ensures (error message) s Q
  unfolding error current ◌>>=◌ bind
  Ensures-error message (state b [] d es) Q = record { ends = overran }
  Ensures-error message (state b (t ∷ a) d es) Q = record { ends = raised }

  -- The next token is of one of the types, or not.
  next_cases :
      (tys : List TokenType) (ts : List (Token D))
      → ((t : Token D) × (us : List (Token D)) × (ts ≡ t ∷ us) × (any_of tys t.type ≡ true))
        ⊎ (next_in tys ts ≡ false)
  unfolding next_in
  next_cases tys [] = inr refl
  next_cases tys (t ∷ ts) = elim (Bool-cases (any_of tys t.type)) [
    | inl e ↦ inl (t, ts, refl, e)
    | inr e ↦ inr e
  ]

  one_of : (ty : TokenType) (t : Token D) → any_of (ty ∷ []) t.type ≡ true → Is ty t
  unfolding any_of
  one_of ty t h = ground arith

  module _ {A : Type 0} (b ts : List (Token D)) (d : Bytes) (es : List ParseError)
      {Q : A → State D → Type 0} where
    pub if_check :
        (ty : TokenType) {p q : Parser D A}
        → IsPlain ty
        → ((t : Token D) (us : List (Token D))
            → ts ≡ t ∷ us
            → Is ty t
            → Ensures p (state b (t ∷ us) d es) Q)
        → Ensures q (state b ts d es) Q
        → Ensures (branch (ask (check ty)) p q) (state b ts d es) Q
    if_check ty plain k l = elim (next_cases (ty ∷ []) ts) [
      | inl (t, us, e, h) ↦
          let is = one_of ty t h in
          rw e (yes_Ensures _ (check-yes t b us d es ty is plain) (k t us e is))
      | inr h ↦ no_Ensures _ (check-no b ts d es ty h) l
    ]

    pub if_match :
        (ty : TokenType) {p q : Parser D A}
        → IsPlain ty
        → ((t : Token D) (us : List (Token D))
            → ts ≡ t ∷ us
            → Is ty t
            → Ensures p (state (t ∷ b) us d es) Q)
        → Ensures q (state b ts d es) Q
        → Ensures (branch (match ty) p q) (state b ts d es) Q
    if_match ty plain k l = elim (next_cases (ty ∷ []) ts) [
      | inl (t, us, e, h) ↦
          let is = one_of ty t h in
          rw e (yes_Ensures _ (match-yes t b us d es ty is plain) (k t us e is))
      | inr h ↦ no_Ensures _ (match-no b ts d es ty h) l
    ]

    pub match_then :
        (ty : TokenType) (f : Bool → Parser D A)
        → IsPlain ty
        → ((t : Token D) (us : List (Token D))
            → ts ≡ t ∷ us
            → Is ty t
            → Ensures (f true) (state (t ∷ b) us d es) Q)
        → Ensures (f false) (state b ts d es) Q
        → Ensures (match ty >>= f) (state b ts d es) Q
    match_then ty f plain k l = elim (next_cases (ty ∷ []) ts) [
      | inl (t, us, e, h) ↦
          let is = one_of ty t h in
          rw e (step_Ensures f (match-yes t b us d es ty is plain) (k t us e is))
      | inr h ↦ step_Ensures f (match-no b ts d es ty h) l
    ]

    pub if_any :
        (tys : List TokenType) {p q : Parser D A}
        → ((ty : TokenType) → any_of tys ty ≡ true → IsPlain ty)
        → ((t : Token D) (us : List (Token D))
            → ts ≡ t ∷ us
            → any_of tys t.type ≡ true
            → Ensures p (state (t ∷ b) us d es) Q)
        → Ensures q (state b ts d es) Q
        → Ensures (branch (match_any tys) p q) (state b ts d es) Q
    if_any tys plain k l = elim (next_cases tys ts) [
      | inl (t, us, e, h) ↦
          rw e (yes_Ensures _ (match_any-yes t b us d es tys h (plain t.type h)) (k t us e h))
      | inr h ↦ no_Ensures _ (match_any-no b ts d es tys h) l
    ]

    pub consume_then :
        (ty : TokenType) (message : Bytes) {f : Token D → Parser D A}
        → IsPlain ty
        → ((t : Token D) (us : List (Token D))
            → ts ≡ t ∷ us
            → Is ty t
            → Ensures (f t) (state (t ∷ b) us d es) Q)
        → Ensures (consume ty message >>= f) (state b ts d es) Q
    unfolding consume
    consume_then ty message plain k = elim (next_cases (ty ∷ []) ts) [
      | inl (t, us, e, h) ↦
          let is = one_of ty t h in
          rw e (step_Ensures _ (consume-yes t b us d es ty message is plain) (k t us e is))
      | inr h ↦
          Ensures-bind (no_Ensures _ (check-no b ts d es ty h) (Ensures-error message _ (λ _ _. ⊥)))
            λ t b' a' d' es' i. absurd i
    ]

  -- `consume` on a token that is there.
  pub consume_head :
      {A : Type 0} (t : Token D) (b us : List (Token D)) (d : Bytes) (es : List ParseError)
      {Q : A → State D → Type 0} (ty : TokenType) (message : Bytes) (f : Token D → Parser D A)
      → IsPlain ty
      → (Is ty t → Ensures (f t) (state (t ∷ b) us d es) Q)
      → Ensures (consume ty message >>= f) (state b (t ∷ us) d es) Q
  unfolding consume
  consume_head t b us d es ty message f plain k = elim (Bool-cases (same_type t.type ty)) [
    | inl e ↦ step_Ensures f (consume-yes t b us d es ty message e plain) (k e)
    | inr e ↦
        Ensures-bind
          (no_Ensures _ (check-no b (t ∷ us) d es ty (next-other ty t us e))
            (Ensures-error message _ (λ _ _. ⊥)))
          λ _ _ _ _ _ i. absurd i
  ]
