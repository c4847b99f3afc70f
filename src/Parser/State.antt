-- ===== src/Parser/State.antt =====
-- The state of the parser and its failures: the class Parser and ParseError of
-- include/interpreter/parser.h.
use vision_pipe.Base.{Bool, true, false, List, Bytes}
use vision_pipe.Lexer.Token.{Token, SourceLocation}

-- The message, and the place and the raw text of the token at which it was raised.
pub record ParseError : Type 0 where
  pub message : Bytes
  pub location : SourceLocation
  pub raw : Bytes

-- The tokens before `_current`, the last one first, those from `_current` on, `_lastDocComment` and
-- `_errors`.
pub data State (D : Type 0) : Type 0 where
  state : List (Token D) → List (Token D) → Bytes → List ParseError → State D

-- What a call ends with: a value; a ParseError, which leaves the state as it was when it was
-- raised; a read of `_tokens` outside its bounds; the exception of `asNumber` or `asBool`, which is
-- no ParseError; or the end of the fuel, which the source does not have.
pub data Outcome (D A : Type 0) : Type 0 where
  ok : A → State D → Outcome D A
  failed : ParseError → State D → Outcome D A
  out_of_bounds : Outcome D A
  thrown : Outcome D A
  out_of_fuel : Outcome D A

abbrev pub Parser : Type 0 → Type 0 → Type 0
Parser D A = State D → Outcome D A

module _ {D A : Type 0} where
  abbrev pub pure : A → Parser D A
  pure a s = ok a s

  abbrev pub no_fuel : Parser D A
  no_fuel s = out_of_fuel

abbrev pub run : {D A : Type 0} → State D → Parser D A → Outcome D A
run s p = p s

unfoldable pub bind : {D A B : Type 0} → Outcome D A → (A → Parser D B) → Outcome D B
bind (ok a s) f = f a s
bind (failed e s) f = failed e s
bind out_of_bounds f = out_of_bounds
bind thrown f = thrown
bind out_of_fuel f = out_of_fuel

module _ {D A B : Type 0} where
  infixl 1 ◌>>=◌ ◌>>◌
  unfoldable pub ◌>>=◌ : Parser D A → (A → Parser D B) → Parser D B
  unfolding bind
  p >>= f = λ s. bind (p s) f

  abbrev pub ◌>>◌ : Parser D A → Parser D B → Parser D B
  p >> q = p >>= λ _. q

module _ {D : Type 0} where
  -- A test of the state inside a parser.
  unfoldable pub ask : (State D → Bool) → Parser D Bool
  ask p s = ok (p s) s

abbrev pub choose : {D A : Type 0} → Parser D A → Parser D A → Bool → Parser D A
choose p q true = p
choose p q false = q

-- `if (test) p; else q;`
unfoldable pub branch : {D A : Type 0} → Parser D Bool → Parser D A → Parser D A → Parser D A
unfolding bind
branch test p q s = bind (test s) (choose p q)
