-- ===== src/Parser/Spelling.antt =====
-- What the grammar says of the tokens of an expression: how it starts, that it is not empty, and
-- which tokens may not follow it.
use vision_pipe.Base.{
  ℕ, zero, suc, ◌<◌, ◌≤◌, Bool, true, false, List, [], ◌∷◌, ◌++◌, ◌≡◌, refl, sym, ◌∙◌, arith,
  length, Bool-cases, inl, inr,
}
use vision_pipe.Lexer.Token.{
  Token, TokenType, same_type, identifier, string_literal, number_literal, boolean_literal,
  op_arrow, op_at, op_not, op_minus, lparen, lbracket,
}
use vision_pipe.Parser.Syntax.{CacheOutput, Expression, Expressions, NamedArguments}
use vision_pipe.Parser.Cursor.{any_of}
use vision_pipe.Parser.Grammar.{
  operators, Is, Global, local, global, CacheId, quoted, named, Output, output, Assignment, alone,
  assigned, Binary, operand, tighter, joined, Unary, plain, prefixed, Postfix, bare, cached, loaded,
  loaded_dynamic, Primary, number, text, truth, empty_array, array, parenthesised, parameter,
  variable, empty_call, call, Elements, last, more, Arguments, last_placed, placed, last_named,
  named_then,
}
use vision_pipe.Parser.Gives.{Is-same, IsPlain, next_in, next-other}

-- The types with which an expression starts.
abbrev pub starters : List TokenType
starters =
    number_literal ∷ string_literal ∷ boolean_literal ∷ lbracket ∷ lparen ∷ op_at ∷ identifier
    ∷ op_not ∷ op_minus ∷ []

-- The same without the prefix operators.
abbrev pub primaries : List TokenType
primaries =
    number_literal ∷ string_literal ∷ boolean_literal ∷ lbracket ∷ lparen ∷ op_at ∷ identifier ∷ []

-- The types that would go on with an operand of a level; and with an expression.
unfoldable pub continuing : ℕ → List TokenType
unfolding operators
continuing zero = lparen ∷ op_arrow ∷ []
continuing (suc n) = operators n ++ continuing n

pub operator-IsPlain : (n : ℕ) (ty : TokenType) → any_of (operators n) ty ≡ true → IsPlain ty
unfolding operators any_of same_type
operator-IsPlain zero ty h = (ground arith, ground arith)
operator-IsPlain (suc zero) ty h = (ground arith, ground arith)
operator-IsPlain (suc (suc zero)) ty h = (ground arith, ground arith)
operator-IsPlain (suc (suc (suc zero))) ty h = (ground arith, ground arith)
operator-IsPlain (suc (suc (suc (suc zero)))) ty h = (ground arith, ground arith)
operator-IsPlain (suc (suc (suc (suc (suc zero))))) ty h = (ground arith, ground arith)
operator-IsPlain (suc (suc (suc (suc (suc (suc n)))))) ty h = cc

-- An operator of a level does not go on with an operand of that level.
pub operator-continuing :
    (n : ℕ) (ty : TokenType) → any_of (operators n) ty ≡ true → any_of (continuing n) ty ≡ false
unfolding operators any_of same_type continuing
operator-continuing zero ty h = ground arith
operator-continuing (suc zero) ty h = ground arith
operator-continuing (suc (suc zero)) ty h = ground arith
operator-continuing (suc (suc (suc zero))) ty h = ground arith
operator-continuing (suc (suc (suc (suc zero)))) ty h = ground arith
operator-continuing (suc (suc (suc (suc (suc zero))))) ty h = ground arith
operator-continuing (suc (suc (suc (suc (suc (suc n)))))) ty h = cc

module _ {D : Type 0} where
  pub any_of-Is :
      (tys : List TokenType) (ty : TokenType) (t : Token D)
      → Is ty t
      → any_of tys t.type ≡ any_of tys ty
  unfolding any_of
  any_of-Is [] ty t h = refl
  any_of-Is (u ∷ tys) ty t h = rw (Is-same ty t u h, any_of-Is tys ty t h) refl

  pub next-left :
      (xs ys : List TokenType) (ts : List (Token D))
      → next_in (xs ++ ys) ts ≡ false
      → next_in xs ts ≡ false
  unfolding next_in any_of
  next-left xs ys [] h = refl
  next-left [] ys (t ∷ ts) h = refl
  next-left (x ∷ xs) ys (t ∷ ts) h = ground (arith, next-left xs ys (t ∷ ts))

  pub next-right :
      (xs ys : List TokenType) (ts : List (Token D))
      → next_in (xs ++ ys) ts ≡ false
      → next_in ys ts ≡ false
  unfolding next_in any_of
  next-right xs ys [] h = refl
  next-right [] ys (t ∷ ts) h = h
  next-right (x ∷ xs) ys (t ∷ ts) h = ground (arith, next-right xs ys (t ∷ ts))

  pub Global-shorter : {g : Bool} {ts us : List (Token D)} → Global g ts us → length us ≤ length ts
  Global-shorter local = omega arith
  Global-shorter (global t h) = omega arith

  CacheId-shorter :
      {id : _} {b : Bool} {ts us : List (Token D)} → CacheId id b ts us → length us < length ts
  CacheId-shorter (quoted t h) = omega arith
  CacheId-shorter (named t h) = omega arith

  Output-shorter :
      {o : CacheOutput} {ts us : List (Token D)} → Output o ts us → length us < length ts
  Output-shorter (output g c) = omega (arith, Global-shorter g, CacheId-shorter c)

-- An expression has a token.
mutual
  pub Assignment-shorter :
      {D : Type 0} {e : Expression D} {ts us : List (Token D)}
      → Assignment e ts us
      → length us < length ts
  Assignment-shorter (alone x) = Binary-shorter x
  Assignment-shorter (assigned t x h y) = omega (arith, Binary-shorter x, Assignment-shorter y)

  pub Binary-shorter :
      {D : Type 0} {n : ℕ} {e : Expression D} {ts us : List (Token D)}
      → Binary n e ts us
      → length us < length ts
  Binary-shorter (operand x) = Unary-shorter x
  Binary-shorter (tighter x) = Binary-shorter x
  Binary-shorter (joined t x h y) = omega (arith, Binary-shorter x, Binary-shorter y)

  Unary-shorter :
      {D : Type 0} {e : Expression D} {ts us : List (Token D)}
      → Unary e ts us
      → length us < length ts
  Unary-shorter (plain x) = Postfix-shorter x
  Unary-shorter (prefixed t h x) = omega (arith, Unary-shorter x)

  Postfix-shorter :
      {D : Type 0} {e : Expression D} {ts us : List (Token D)}
      → Postfix e ts us
      → length us < length ts
  Postfix-shorter (bare x) = Primary-shorter x
  Postfix-shorter (cached t x h o) = omega (arith, Primary-shorter x, Output-shorter o)
  Postfix-shorter (loaded t x h g y) =
      omega (arith, Primary-shorter x, Global-shorter g, Primary-shorter y)
  Postfix-shorter (loaded_dynamic t x h g y) =
      omega (arith, Primary-shorter x, Global-shorter g, Primary-shorter y)

  pub Primary-shorter :
      {D : Type 0} {e : Expression D} {ts us : List (Token D)}
      → Primary e ts us
      → length us < length ts
  Primary-shorter (number t h k) = omega arith
  Primary-shorter (text t h) = omega arith
  Primary-shorter (truth t h k) = omega arith
  Primary-shorter (empty_array t u h k) = omega arith
  Primary-shorter (array t u h es k) = omega (arith, Elements-shorter es)
  Primary-shorter (parenthesised t u h e k) = omega (arith, Assignment-shorter e)
  Primary-shorter (parameter t h) = omega arith
  Primary-shorter (variable t h) = omega arith
  Primary-shorter (empty_call t u v h k l) = omega arith
  Primary-shorter (call t u v h k as_ l) = omega (arith, Arguments-shorter as_)

  Elements-shorter :
      {D : Type 0} {es : Expressions D} {ts us : List (Token D)}
      → Elements es ts us
      → length us < length ts
  Elements-shorter (last x) = Assignment-shorter x
  Elements-shorter (more t x h xs) = omega (arith, Assignment-shorter x, Elements-shorter xs)

  Arguments-shorter :
      {D : Type 0} {b : Bool} {es : Expressions D} {ns : NamedArguments D} {ts us : List (Token D)}
      → Arguments b es ns ts us
      → length us < length ts
  Arguments-shorter (last_placed h x) = Assignment-shorter x
  Arguments-shorter (placed t h x k xs) = omega (arith, Assignment-shorter x, Arguments-shorter xs)
  Arguments-shorter (last_named t u h k x) = omega (arith, Assignment-shorter x)
  Arguments-shorter (named_then t u v h k x l xs) =
      omega (arith, Assignment-shorter x, Arguments-shorter xs)

module _ {D : Type 0} where
  -- How an expression starts.
  pub Primary-starts :
      {e : Expression D} {ts us : List (Token D)} → Primary e ts us → next_in primaries ts ≡ true
  unfolding next_in any_of same_type
  Primary-starts (number t h k) = any_of-Is primaries number_literal t h
  Primary-starts (text t h) = any_of-Is primaries string_literal t h
  Primary-starts (truth t h k) = any_of-Is primaries boolean_literal t h
  Primary-starts (empty_array t u h k) = any_of-Is primaries lbracket t h
  Primary-starts (array t u h es k) = any_of-Is primaries lbracket t h
  Primary-starts (parenthesised t u h e k) = any_of-Is primaries lparen t h
  Primary-starts (parameter t h) = any_of-Is primaries op_at t h
  Primary-starts (variable t h) = any_of-Is primaries identifier t h
  Primary-starts (empty_call t u v h k l) = any_of-Is primaries identifier t h
  Primary-starts (call t u v h k xs l) = any_of-Is primaries identifier t h

  pub Postfix-starts :
      {e : Expression D} {ts us : List (Token D)} → Postfix e ts us → next_in primaries ts ≡ true
  Postfix-starts (bare x) = Primary-starts x
  Postfix-starts (cached t x h o) = Primary-starts x
  Postfix-starts (loaded t x h g y) = Primary-starts x
  Postfix-starts (loaded_dynamic t x h g y) = Primary-starts x

  pub primaries-starters :
      (ts : List (Token D)) → next_in primaries ts ≡ true → next_in starters ts ≡ true
  unfolding next_in any_of same_type
  primaries-starters [] h = cc
  primaries-starters (t ∷ ts) h = ground arith

  pub primaries-unprefixed :
      (ts : List (Token D))
      → next_in primaries ts ≡ true
      → next_in (op_not ∷ op_minus ∷ []) ts ≡ false
  unfolding next_in any_of same_type
  primaries-unprefixed [] h = refl
  primaries-unprefixed (t ∷ ts) h = ground arith

  prefix-starters :
      (t : Token D) (ts : List (Token D))
      → any_of (op_not ∷ op_minus ∷ []) t.type ≡ true
      → next_in starters (t ∷ ts) ≡ true
  unfolding next_in any_of same_type
  prefix-starters t ts h = ground arith

  Unary-starts :
      {e : Expression D} {ts us : List (Token D)} → Unary e ts us → next_in starters ts ≡ true
  Unary-starts (plain {ts = ts} x) = primaries-starters ts (Postfix-starts x)
  Unary-starts (prefixed {ts = ts} t h x) = prefix-starters t ts h

  Binary-starts :
      {n : ℕ} {e : Expression D} {ts us : List (Token D)}
      → Binary n e ts us
      → next_in starters ts ≡ true
  Binary-starts (operand x) = Unary-starts x
  Binary-starts (tighter x) = Binary-starts x
  Binary-starts (joined t x h y) = Binary-starts x

  pub Assignment-starts :
      {e : Expression D} {ts us : List (Token D)} → Assignment e ts us → next_in starters ts ≡ true
  Assignment-starts (alone x) = Binary-starts x
  Assignment-starts (assigned t x h y) = Binary-starts x

  pub Elements-starts :
      {es : Expressions D} {ts us : List (Token D)} → Elements es ts us → next_in starters ts ≡ true
  Elements-starts (last x) = Assignment-starts x
  Elements-starts (more t x h xs) = Assignment-starts x

  pub Arguments-starts :
      {b : Bool} {es : Expressions D} {ns : NamedArguments D} {ts us : List (Token D)}
      → Arguments b es ns ts us
      → next_in starters ts ≡ true
  unfolding next_in any_of same_type
  Arguments-starts (last_placed h x) = Assignment-starts x
  Arguments-starts (placed t h x k xs) = Assignment-starts x
  Arguments-starts (last_named t u h k x) = any_of-Is starters identifier t h
  Arguments-starts (named_then t u v h k x l xs) = any_of-Is starters identifier t h

  -- A type that starts no expression.
  pub starters-apart :
      (x : TokenType) (ts : List (Token D))
      → any_of starters x ≡ false
      → next_in starters ts ≡ true
      → next_in (x ∷ []) ts ≡ false
  unfolding next_in
  starters-apart x [] h k = refl
  starters-apart x (t ∷ ts) h k = elim (Bool-cases (same_type t.type x)) [
    | inl e ↦ let same : true ≡ false = sym k ∙ any_of-Is starters x t e ∙ h in cc
    | inr e ↦ next-other x t ts e
  ]

pub prefix-IsPlain : (ty : TokenType) → any_of (op_not ∷ op_minus ∷ []) ty ≡ true → IsPlain ty
unfolding any_of same_type
prefix-IsPlain ty h = (ground arith, ground arith)
