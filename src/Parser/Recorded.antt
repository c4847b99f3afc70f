-- ===== src/Parser/Recorded.antt =====
-- The errors that the declarations of a program raise, and what the parser keeps of them.
use vision_pipe.Base.{
  ℕ, zero, suc, ◌+◌, ◌*◌, ◌≤◌, ◌≡◌, ◌≢◌, ◌⊎◌, inl, inr, refl, arith, true, List, [], ◌∷◌, ◌++◌,
  Option, none, some, Bytes, All, All-append, if◌then◌else◌, Bool-cases, length,
}
use vision_pipe.Lexer.Token.{Token}
use vision_pipe.Parser.Syntax.{Program}
use vision_pipe.Parser.State.{
  State, state, ParseError, Outcome, ok, failed, out_of_bounds, thrown, out_of_fuel, Parser, ask,
  branch, bind, ◌>>=◌,
}
use vision_pipe.Parser.Cursor.{current, is_at_end, attempt, settle, push_error}
use vision_pipe.Parser.Programs.{
  top_level_item, program_loop, program, parse, empty_program, new_parser, fuel_for,
}
use vision_pipe.Parser.Runs.{left, errors_of, Listed, Step}
use vision_pipe.Parser.Recovers.{
  Tried, succeeded, caught, lost, broken, attempt-Tried, recover-Tried, Listed-last,
}
use vision_pipe.Parser.Total.{
  Parsed, done, overrun, wrong, top_level_item-Reads, loop_end, program_loop-Parsed, parse-Parsed,
}

abbrev pub read_or : {A : Type 0} → A → Option A → A
read_or p none = p
read_or p (some p') = p'

module _ {D : Type 0} where
  -- The ParseError that a run ends with.
  unfoldable pub raised_by : {A : Type 0} → Outcome D A → List ParseError
  raised_by (failed e s) = e ∷ []
  raised_by _ = []

  -- Those that the declarations of a program raise, in their order: each one runs on the state that the
  -- attempt before it leaves.
  unfoldable pub declaration_errors : ℕ → Program D → State D → List ParseError
  unfolding raised_by is_at_end top_level_item attempt
  declaration_errors zero p s = []
  declaration_errors (suc f) p s =
      let rest : List ParseError = elim (attempt (top_level_item f p) s) [
        | ok read s' ↦ declaration_errors f (read_or p read) s'
        | _ ↦ []
      ] in
      if is_at_end s then [] else raised_by (top_level_item f p s) ++ rest

  -- Those of a list of tokens.
  unfoldable pub syntax_errors : List (Token D) → Bytes → List ParseError
  unfolding declaration_errors new_parser fuel_for empty_program
  syntax_errors [] filename = []
  syntax_errors (t ∷ ts) filename =
      declaration_errors (fuel_for (t ∷ ts)) (empty_program filename t.location)
        (new_parser (t ∷ ts))

  -- If a state is returned, the errors are among those that it records.
  abbrev pub Recorded : {A : Type 0} → List ParseError → Outcome D A → Type 0
  Recorded es (ok a s) = All (λ e. Listed e (errors_of s)) es
  Recorded es _ = Unit

  Recorded-nil : {A : Type 0} (r : Outcome D A) → Recorded [] r
  Recorded-nil (ok a s) = tt
  Recorded-nil (failed e s) = tt
  Recorded-nil out_of_bounds = tt
  Recorded-nil thrown = tt
  Recorded-nil out_of_fuel = tt

  Tried-Recorded :
      {A : Type 0} {s : State D} {r : Outcome D (Option A)} (e : ParseError)
      → Tried s r
      → Listed e (errors_of s)
      → Recorded (e ∷ []) r
  Tried-Recorded e (succeeded st l) h = (st.keeps e h, tt)
  Tried-Recorded e (caught st x) h = (st.keeps e h, tt)
  Tried-Recorded e (lost x) h = tt
  Tried-Recorded e (broken x) h = tt

  pushed_lem : (e : ParseError) (s : State D) → Listed e (errors_of (push_error e s))
  unfolding push_error
  pushed_lem e (state b a d es) = Listed-last e es

  settle-Recorded : {A : Type 0} (r : Outcome D A) → Recorded (raised_by r) (settle r)
  unfolding settle raised_by
  settle-Recorded (ok a s) = tt
  settle-Recorded (failed e s) = Tried-Recorded e (recover-Tried (push_error e s)) (pushed_lem e s)
  settle-Recorded out_of_bounds = tt
  settle-Recorded thrown = tt
  settle-Recorded out_of_fuel = tt

  kept_lem :
      {s s' : State D} (es : List ParseError)
      → Step s s'
      → All (λ e. Listed e (errors_of s)) es
      → All (λ e. Listed e (errors_of s')) es
  kept_lem [] st a = tt
  kept_lem (e ∷ es) st a = (st.keeps e a.0, kept_lem es st a.1)

  -- What is recorded before a loop is recorded behind it.
  Parsed-Recorded :
      {A : Type 0} {s : State D} {r : Outcome D A} (es es' : List ParseError)
      → Parsed s r
      → All (λ e. Listed e (errors_of s)) es
      → Recorded es' r
      → Recorded (es ++ es') r
  Parsed-Recorded es es' (done st x) a h = All-append _ es es' (kept_lem es st a) h
  Parsed-Recorded es es' (overrun x) a h = tt
  Parsed-Recorded es es' (wrong x) a h = tt

  -- One round: an attempt, and the rest of the loop.
  round-Recorded :
      {A B : Type 0} {s : State D} (es : List ParseError) (r : Outcome D (Option A))
      (g : Option A → Parser D B) (next : Option A → State D → List ParseError)
      → Tried s r
      → Recorded es r
      → ((read : Option A) (s' : State D)
          → (is_at_end s' ≡ true) ⊎ (left s' + 1 ≤ left s)
          → left s' ≤ left s
          → Parsed s' (g read s') × Recorded (next read s') (g read s'))
      → Recorded (es ++ elim r [ ok read s' ↦ next read s' | _ ↦ [] ]) (bind r g)
  unfolding bind
  round-Recorded es _ g next (succeeded {a = a} {s' = s'} st l) h k =
      let (p, q) = k (some a) s' (inr l) (let x = st.shorter in omega arith) in
      Parsed-Recorded es (next (some a) s') p h q
  round-Recorded es _ g next (caught {s' = s'} st x) h k =
      let (p, q) = k none s' x (let x = st.shorter in omega arith) in
      Parsed-Recorded es (next none s') p h q
  round-Recorded es _ g next (lost x) h k = tt
  round-Recorded es _ g next (broken x) h k = tt

  declaration_errors-end :
      (f : ℕ) (p : Program D) (s : State D) → is_at_end s ≡ true → declaration_errors f p s ≡ []
  unfolding declaration_errors
  declaration_errors-end zero p s e = refl
  declaration_errors-end (suc f) p s e = rw e refl

  program_loop-Recorded :
      (f : ℕ) (p : Program D) (s : State D)
      → 5 * left s + 9 ≤ f
      → Recorded (declaration_errors f p s) (program_loop f p s)
  unfolding program_loop declaration_errors branch ask bind ◌>>=◌ attempt
  program_loop-Recorded zero p s h = absurd (omega arith)
  program_loop-Recorded (suc f) p s h = elim (Bool-cases (is_at_end s)) [
    | inl e ↦ rw e tt
    | inr e ↦
        let item = top_level_item-Reads f p s (omega arith) in
        rw e (
          round-Recorded (raised_by (top_level_item f p s)) (attempt (top_level_item f p) s)
            (λ read. program_loop f (read_or p read))
            (λ read s'. declaration_errors f (read_or p read) s')
            (attempt-Tried (top_level_item f p) s item) (settle-Recorded (top_level_item f p s))
            λ read s' d l. elim d [
              | inl end ↦ (
                loop_end f _ s' end (omega arith),
                rw (declaration_errors-end f (read_or p read) s' end)
                    (Recorded-nil (program_loop f (read_or p read) s')),
              )
              | inr shorter ↦ (
                program_loop-Parsed f _ s' (omega arith),
                program_loop-Recorded f _ s' (omega arith),
              )
            ])
  ]

  parse-Recorded :
      (tokens : List (Token D)) (filename : Bytes)
      → Recorded (syntax_errors tokens filename) (parse tokens filename)
  unfolding parse program current syntax_errors ◌>>=◌ bind
  parse-Recorded [] filename = tt
  parse-Recorded (t ∷ ts) filename =
      program_loop-Recorded (8 * length (t ∷ ts) + 16) (empty_program filename t.location)
        (state [] (t ∷ ts) [] []) (omega arith)

  -- On any list of tokens `parse` ends within the fuel that it gives itself, and it throws no
  -- ParseError. Each ParseError that a declaration or statement at the top level raises is caught, and
  -- is among the errors that `parse` leaves when it returns.
  pub parse-ends :
      (tokens : List (Token D)) (filename : Bytes)
      → (parse tokens filename ≢ out_of_fuel)
        × ((e : ParseError) (s : State D) → parse tokens filename ≢ failed e s)
        × Recorded (syntax_errors tokens filename) (parse tokens filename)
  parse-ends tokens filename =
      let (fuel, quiet) = conclude (parse-Parsed tokens filename) in
      (fuel, quiet, parse-Recorded tokens filename)
    where
      conclude :
          {r : Outcome D (Program D)} {s : State D}
          → Parsed s r
          → (r ≢ out_of_fuel) × ((e : ParseError) (s' : State D) → r ≢ failed e s')
      conclude (done st e) = (λ h. cc, λ x s' h. cc)
      conclude (overrun h) = (λ h. cc, λ x s' h. cc)
      conclude (wrong h) = (λ h. cc, λ x s' h. cc)
