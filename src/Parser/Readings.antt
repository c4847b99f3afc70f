-- ===== src/Parser/Readings.antt =====
-- Runs that read an expression, with the tokens that they leave: the rules for chains of calls.
use vision_pipe.Base.{Bool, true, false, List, Bytes}
use vision_pipe.Lexer.Token.{Token}
use vision_pipe.Parser.State.{state, ParseError, Parser, pure, branch, ◌>>=◌}
use vision_pipe.Parser.Gives.{Gives, Gives-pure, Gives-bind, Gives-yes, Gives-no}

module _ {D : Type 0} where
  -- With the tokens `b` read and `a` ahead the parser returns `x` and leaves `r`; the comment and
  -- the errors stay as they are.
  pub record Reading {A : Type 0} (p : Parser D A) (b a : List (Token D)) (d : Bytes)
      (es : List ParseError) (x : A) (r : List (Token D)) : Type 0 where
    pub before : List (Token D)
    pub run : Gives p (state b a d es) x (state before r d es)

  module _ {d : Bytes} {es : List ParseError} where
    pub finished : {A : Type 0} (x : A) (b a : List (Token D)) → Reading (pure x) b a d es x a
    finished x b a = record { before = b; run = Gives-pure x (state b a d es) }

    -- A call whose run is known, and one that is a reading, in front of the rest.
    pub step :
        {A B : Type 0} {p : Parser D A} (f : A → Parser D B) {b a b' a' r : List (Token D)} {x : A}
        {y : B}
        → Gives p (state b a d es) x (state b' a' d es)
        → Reading (f x) b' a' d es y r
        → Reading (p >>= f) b a d es y r
    step f g k = record { before = k.before; run = Gives-bind f g k.run }

    pub call :
        {A B : Type 0} {p : Parser D A} (f : A → Parser D B) {b a a' r : List (Token D)} {x : A}
        {y : B}
        → Reading p b a d es x a'
        → ((b' : List (Token D)) → Reading (f x) b' a' d es y r)
        → Reading (p >>= f) b a d es y r
    call f g k =
        let rest = k g.before in record { before = rest.before; run = Gives-bind f g.run rest.run }

    pub yes_branch :
        {A : Type 0} {t : Parser D Bool} {p : Parser D A} (q : Parser D A)
        {b a b' a' r : List (Token D)} {x : A}
        → Gives t (state b a d es) true (state b' a' d es)
        → Reading p b' a' d es x r
        → Reading (branch t p q) b a d es x r
    yes_branch q g k = record { before = k.before; run = Gives-yes q g k.run }

    pub no_branch :
        {A : Type 0} {t : Parser D Bool} (p : Parser D A) {q : Parser D A}
        {b a b' a' r : List (Token D)} {x : A}
        → Gives t (state b a d es) false (state b' a' d es)
        → Reading q b' a' d es x r
        → Reading (branch t p q) b a d es x r
    no_branch p g k = record { before = k.before; run = Gives-no p g k.run }

    pub known :
        {A : Type 0} {p : Parser D A} {b a b' a' : List (Token D)} {x : A}
        → Gives p (state b a d es) x (state b' a' d es)
        → Reading p b a d es x a'
    known {b' = b'} g = record { before = b'; run = g }
