-- ===== src/Parser/Recovers.antt =====
-- How `peek` and the recovery from an error run.
use vision_pipe.Base.{
  ℕ, ◌+◌, ◌≤◌, true, false, List, [], ◌∷◌, ◌++◌, Option, none, some, get_elem?, Option-cases, ◌≡◌,
  ◌≢◌, ◌⊎◌, inl, inr, refl, arith, Bool-cases, Bytes, if_cases, ◌||◌,
}
use vision_pipe.Lexer.Token.{Token, same_type, end_of_file}
use vision_pipe.Parser.State.{
  State, state, ParseError, Outcome, ok, out_of_bounds, thrown, Parser, bind, pure, ◌>>=◌, ◌>>◌,
  run,
}
use vision_pipe.Parser.Cursor.{
  previous, peek, back, at_or_out, is_at_end, advance, doc_after, synchronize, seek,
  skip_to_boundary, any_of, boundaries, push_error, attempt, settle,
}
use vision_pipe.Parser.Runs.{
  left, ahead, Listed, HasEof, AllHold, Step, Step-refl, Step-trans, Runs, returned, raised,
  overran, threw, Runs-pure, Runs-after, Reads,
}
use vision_pipe.Parser.Moves.{move-Step}

Listed-left : (e : ParseError) (xs ys : List ParseError) → Listed e xs → Listed e (xs ++ ys)
Listed-left e [] ys h = absurd h
Listed-left e (x ∷ xs) ys (inl h) = inl h
Listed-left e (x ∷ xs) ys (inr h) = inr (Listed-left e xs ys h)

pub Listed-last : (e : ParseError) (xs : List ParseError) → Listed e (xs ++ e ∷ [])
Listed-last e [] = inl refl
Listed-last e (x ∷ xs) = inr (Listed-last e xs)

module _ {D : Type 0} where
  back-ne-none : (b : List (Token D)) (t : Token D) (a : List (Token D)) → back b (t ∷ a) ≢ none
  unfolding back
  back-ne-none b t [] h = cc
  back-ne-none b t (u ∷ a) h = back-ne-none (t ∷ b) u a h

  peeked-Runs :
      (o : Option (Token D)) (s : State D)
      → (o ≡ none → ¬ HasEof (ahead s))
      → Runs 0 s (at_or_out o s)
  unfolding at_or_out
  peeked-Runs none s h = overran (h refl)
  peeked-Runs (some t) s h = Runs-pure t s

  peek-Runs : (n : ℕ) (s : State D) → Runs 0 s (peek n s)
  unfolding peek
  peek-Runs n (state b [] d es) = peeked-Runs (back b []) (state b [] d es) (λ _ h. h)
  peek-Runs n (state b (t ∷ a) d es) = elim (Option-cases (get_elem? (t ∷ a) n)) [
    | inl e ↦
        rw e
          (peeked-Runs (back b (t ∷ a)) (state b (t ∷ a) d es) (λ h. absurd (back-ne-none b t a h)))
    | inr (u, e) ↦ rw e (Runs-pure u (state b (t ∷ a) d es))
  ]

  pub Reads-peek : (n : ℕ) (s : State D) → Reads 0 s (peek n)
  Reads-peek n s = record { runs = peek-Runs n s }

  -- The loop of `synchronize` moves over tokens that are no END_OF_FILE.
  skip_to_boundary-Step :
      (b a : List (Token D)) (d : Bytes) (es : List _)
      → Step (state b a d es) (skip_to_boundary b a d es)
  unfolding skip_to_boundary
  skip_to_boundary-Step b [] d es = Step-refl (state b [] d es)
  skip_to_boundary-Step b (t ∷ a) d es =
      if_cases (Step (state b (t ∷ a) d es))
        (same_type t.type end_of_file || any_of boundaries t.type)
        (λ _. Step-refl (state b (t ∷ a) d es))
        (λ e.
          Step-trans (move-Step b a t d (doc_after t d) es (ground arith))
            (skip_to_boundary-Step (t ∷ b) a (doc_after t d) es))

  -- What an attempt leaves: a value for which a token was read; or, after a caught error, the end of
  -- the tokens or a shorter rest.
  pub data Tried {A : Type 0} (s : State D) : Outcome D (Option A) → Type 0 where
    succeeded : {a : A} {s' : State D} → Step s s' → left s' + 1 ≤ left s → Tried s (ok (some a) s')
    caught :
        {s' : State D}
        → Step s s'
        → (is_at_end s' ≡ true) ⊎ (left s' + 1 ≤ left s)
        → Tried s (ok none s')
    lost : ¬ HasEof (ahead s) → Tried s out_of_bounds
    broken : ¬ AllHold s → Tried s thrown

  Tried-after :
      {A : Type 0} {s s' : State D} {r : Outcome D (Option A)} → Step s s' → Tried s' r → Tried s r
  Tried-after st (succeeded st' l) =
      succeeded (Step-trans st st') (let h = st.shorter in omega arith)
  Tried-after st (caught st' (inl e)) = caught (Step-trans st st') (inl e)
  Tried-after st (caught st' (inr l)) =
      caught (Step-trans st st') (inr (let h = st.shorter in omega arith))
  Tried-after st (lost h) = lost (λ e. h (st.eof e))
  Tried-after st (broken h) = broken (λ a. h (st.hold a))

  skip_lem :
      (b a : List (Token D)) (t : Token D) (d : Bytes) (es : List _)
      → same_type t.type end_of_file ≡ true
      → skip_to_boundary b (t ∷ a) d es ≡ state b (t ∷ a) d es
  unfolding skip_to_boundary
  skip_lem b a t d es e = rw e

  after_move :
      {A : Type 0} (b a : List (Token D)) (t : Token D) (d : Bytes) (es : List _)
      → same_type t.type end_of_file ≡ false
      → Tried {A = A}
          (state b (t ∷ a) d es)
          (ok none (skip_to_boundary (t ∷ b) a (doc_after t d) es))
  after_move b a t d es e =
      let st = skip_to_boundary-Step (t ∷ b) a (doc_after t d) es in
      let h = st.shorter in
      caught (Step-trans (move-Step b a t d (doc_after t d) es e) st) (inr (omega arith))

  pub recover-Tried :
      {A : Type 0} (s : State D) → Tried {A = A} s (run s (synchronize >> pure none))
  unfolding synchronize ◌>>=◌ bind seek advance previous is_at_end skip_to_boundary
  recover-Tried (state [] [] d es) = lost (λ h. h)
  recover-Tried (state (u ∷ b) [] d es) = caught (Step-refl (state (u ∷ b) [] d es)) (inl refl)
  recover-Tried (state [] (t ∷ a) d es) = elim (Bool-cases (same_type t.type end_of_file)) [
    | inl e ↦
        rw e (rw (skip_lem [] a t d es e) (caught (Step-refl (state [] (t ∷ a) d es)) (inl e)))
    | inr e ↦ rw e (after_move [] a t d es e)
  ]
  recover-Tried (state (u ∷ b) (t ∷ a) d es) = elim (Bool-cases (same_type t.type end_of_file)) [
    | inl e ↦
        rw e (
          rw (skip_lem (u ∷ b) a t d es e)
            (caught (Step-refl (state (u ∷ b) (t ∷ a) d es)) (inl e)))
    | inr e ↦ rw e (after_move (u ∷ b) a t d es e)
  ]

  push_error-Step : (e : _) (s : State D) → Step s (push_error e s)
  unfolding push_error
  push_error-Step e (state b a d es) = record {
    shorter = omega arith;
    eof = λ h. h;
    hold = λ h. h;
    keeps = λ x h. Listed-left x es (e ∷ []) h;
  }

  settle-Tried : {A : Type 0} (s : State D) (r : Outcome D A) → Runs 1 s r → Tried s (settle r)
  unfolding settle
  settle-Tried s _ (returned st l) = succeeded st l
  settle-Tried s _ (raised {e = e} {s' = s'} st) =
      Tried-after st (Tried-after (push_error-Step e s') (recover-Tried (push_error e s')))
  settle-Tried s _ (overran h) = lost h
  settle-Tried s _ (threw h) = broken h

  pub attempt-Tried :
      {A : Type 0} (p : Parser D A) (s : State D) → Reads 1 s p → Tried s (attempt p s)
  unfolding attempt
  attempt-Tried p s r = settle-Tried s (p s) r.runs

  Tried-Runs :
      {A B : Type 0} {k : ℕ} {s : State D} {r : Outcome D (Option A)} {g : Option A → Parser D B}
      → Tried s r
      → ((a : Option A) (s' : State D)
          → left s' ≤ left s
          → (is_at_end s' ≡ true) ⊎ (left s' + 1 ≤ left s)
          → Reads k s' (g a))
      → Runs k s (bind r g)
  unfolding bind
  Tried-Runs {k = k} (succeeded {a = a} {s' = s'} st l) h =
      Runs-after 0 st (omega arith) (omega arith) (h (some a) s' (omega arith) (inr l)).runs
  Tried-Runs {k = k} (caught {s' = s'} st e) h =
      let l = st.shorter in
      Runs-after 0 st (omega arith) (omega arith) (h none s' (omega arith) e).runs
  Tried-Runs (lost e) h = overran e
  Tried-Runs (broken e) h = threw e

  -- After an attempt the rest is shorter, or the cursor is at the end.
  pub Reads-attempt :
      {A B : Type 0} {k : ℕ} {s : State D} {p : Parser D A} {g : Option A → Parser D B}
      → Reads 1 s p
      → ((a : Option A) (s' : State D)
          → left s' ≤ left s
          → (is_at_end s' ≡ true) ⊎ (left s' + 1 ≤ left s)
          → Reads k s' (g a))
      → Reads k s (attempt p >>= g)
  unfolding ◌>>=◌
  Reads-attempt {s = s} {p = p} r h = record { runs = Tried-Runs (attempt-Tried p s r) h }
