-- ===== src/Parser/Runs.antt =====
-- What every parser does to the cursor: it only moves forward, never over END_OF_FILE, and the
-- failures that are no ParseError have a cause in the tokens.
use vision_pipe.Base.{
  ℕ, ◌+◌, ◌-◌, ◌≤◌, true, List, [], ◌∷◌, none, ◌≡◌, ◌≢◌, ◌⊎◌, arith, length, All,
}
use vision_pipe.Lexer.Token.{
  Token, same_type, end_of_file, number_literal, boolean_literal, as_number, as_bool,
}
use vision_pipe.Parser.State.{
  State, state, ParseError, Outcome, ok, failed, out_of_bounds, thrown, bind, Parser, pure, ◌>>=◌,
}

abbrev pub Listed : ParseError → List ParseError → Type 0
Listed e [] = ⊥
Listed e (x ∷ xs) = (e ≡ x) ⊎ Listed e xs

module _ {D : Type 0} where
  -- The number of tokens from the cursor on.
  abbrev pub left : State D → ℕ
  left (state b a d es) = length a

  abbrev pub ahead : State D → List (Token D)
  ahead (state b a d es) = a

  -- The errors recorded so far.
  abbrev pub errors_of : State D → List ParseError
  errors_of (state b a d es) = es

  -- An END_OF_FILE token is among them.
  abbrev pub HasEof : List (Token D) → Type 0
  HasEof [] = ⊥
  HasEof (t ∷ ts) = (same_type t.type end_of_file ≡ true) ⊎ HasEof ts

  -- A token of a literal holds a value of the literal's type.
  pub record HoldsLiteral (t : Token D) : Type 0 where
    pub number : t.type ≡ number_literal → as_number t ≢ none
    pub boolean : t.type ≡ boolean_literal → as_bool t ≢ none

  -- So do all tokens, on both sides of the cursor.
  abbrev pub AllHold : State D → Type 0
  AllHold (state b a d es) = All HoldsLiteral b × All HoldsLiteral a

  pub record Step (s s' : State D) : Type 0 where
    pub shorter : left s' ≤ left s
    pub eof : HasEof (ahead s) → HasEof (ahead s')
    pub hold : AllHold s → AllHold s'
    pub keeps : (e : ParseError) → Listed e (errors_of s) → Listed e (errors_of s')

  pub Step-refl : (s : State D) → Step s s
  Step-refl s = record { shorter = omega arith; eof = λ h. h; hold = λ h. h; keeps = λ e h. h }

  pub Step-trans : {s t u : State D} → Step s t → Step t u → Step s u
  Step-trans p q = record {
    shorter = omega arith;
    eof = λ h. q.eof (p.eof h);
    hold = λ h. q.hold (p.hold h);
    keeps = λ e h. q.keeps e (p.keeps e h);
  }

  -- A run from `s` that reads at least `n` tokens when it returns, and never ends its fuel.
  pub data Runs {A : Type 0} (n : ℕ) (s : State D) : Outcome D A → Type 0 where
    returned : {a : A} {s' : State D} → Step s s' → left s' + n ≤ left s → Runs n s (ok a s')
    raised : {e : _} {s' : State D} → Step s s' → Runs n s (failed e s')
    overran : ¬ HasEof (ahead s) → Runs n s out_of_bounds
    threw : ¬ AllHold s → Runs n s thrown

  module _ {A : Type 0} where
    pub Runs-fewer : {n k : ℕ} {s : State D} {r : Outcome D A} → k ≤ n → Runs n s r → Runs k s r
    Runs-fewer h (returned st l) = returned st (omega arith)
    Runs-fewer h (raised st) = raised st
    Runs-fewer h (overran no_eof) = overran no_eof
    Runs-fewer h (threw bad) = threw bad

    -- A run from a later state is a run from the earlier one.
    pub Runs-after :
        (m : ℕ) {n k : ℕ} {s s' : State D} {r : Outcome D A}
        → Step s s'
        → left s' + m ≤ left s
        → k ≤ m + n
        → Runs n s' r
        → Runs k s r
    Runs-after m st l h (returned st' l') = returned (Step-trans st st') (omega arith)
    Runs-after m st l h (raised st') = raised (Step-trans st st')
    Runs-after m st l h (overran no_eof) = overran (λ e. no_eof (st.eof e))
    Runs-after m st l h (threw bad) = threw (λ a. bad (st.hold a))

    pub Runs-pure : (a : A) (s : State D) → Runs 0 s (ok a s)
    Runs-pure a s = returned (Step-refl s) (omega arith)

  -- Such runs of a parser.
  pub record Reads {A : Type 0} (n : ℕ) (s : State D) (p : Parser D A) : Type 0 where
    pub runs : Runs n s (p s)

  pub Reads-fewer :
      {A : Type 0} {n k : ℕ} {s : State D} {p : Parser D A} → k ≤ n → Reads n s p → Reads k s p
  Reads-fewer h r = record { runs = Runs-fewer h r.runs }

  pub Reads-pure : {A : Type 0} (a : A) (s : State D) → Reads 0 s (pure a)
  Reads-pure a s = record { runs = Runs-pure a s }

  bind-Runs :
      {A B : Type 0} {n k : ℕ} {s : State D} {r : Outcome D A} {f : A → Parser D B}
      → Runs n s r
      → ((a : A) (s' : State D) → left s' + n ≤ left s → Reads (k - n) s' (f a))
      → Runs k s (bind r f)
  unfolding bind
  bind-Runs (returned {a = a} {s' = s'} st l) h = Runs-after _ st l (omega arith) (h a s' l).runs
  bind-Runs (raised st) h = raised st
  bind-Runs (overran no_eof) h = overran no_eof
  bind-Runs (threw bad) h = threw bad

  pub Reads-bind :
      {A B : Type 0} {n k : ℕ} {s : State D} {p : Parser D A} {f : A → Parser D B}
      → Reads n s p
      → ((a : A) (s' : State D) → left s' + n ≤ left s → Reads (k - n) s' (f a))
      → Reads k s (p >>= f)
  unfolding ◌>>=◌
  Reads-bind r h = record { runs = bind-Runs r.runs h }
