-- ===== src/Parser/Moves.antt =====
-- How the helpers of the cursor run.
use vision_pipe.Base.{
  ℕ, ◌+◌, ◌-◌, ◌≤◌, Bool, true, false, List, [], ◌∷◌, ◌≡◌, inl, inr, arith, Bool-cases, Bytes,
  if_cases,
}
use vision_pipe.Lexer.Token.{Token, TokenType, same_type, end_of_file}
use vision_pipe.Parser.State.{
  State, state, Outcome, ok, Parser, bind, branch, ask, pure, choose, ◌>>=◌,
}
use vision_pipe.Parser.Cursor.{
  current, previous, is_at_end, check, advance, match, match_any, error, consume, doc_after,
}
use vision_pipe.Parser.Runs.{
  left, Step, Step-refl, Runs, returned, raised, overran, Runs-after, Runs-pure, Reads, Reads-fewer,
  Reads-bind,
}

module _ {D : Type 0} where
  current-Runs : (s : State D) → Runs 0 s (current s)
  unfolding current
  current-Runs (state b [] d es) = overran (λ h. h)
  current-Runs (state b (t ∷ a) d es) = Runs-pure t (state b (t ∷ a) d es)

  pub previous-Runs : (s : State D) → Runs 0 s (previous s)
  unfolding previous
  previous-Runs (state (t ∷ b) a d es) = Runs-pure t (state (t ∷ b) a d es)
  previous-Runs (state [] (t ∷ a) d es) = Runs-pure t (state [] (t ∷ a) d es)
  previous-Runs (state [] [] d es) = overran (λ h. h)

  -- One token that is not END_OF_FILE is read.
  pub move-Step :
      (b a : List (Token D)) (t : Token D) (d d' : Bytes) (es : List _)
      → same_type t.type end_of_file ≡ false
      → Step (state b (t ∷ a) d es) (state (t ∷ b) a d' es)
  move-Step b a t d d' es e = record {
    shorter = omega arith;
    eof = elim [ inl h ↦ absurd (ground arith) | inr h ↦ h ];
    hold = λ h. ((h.1.0, h.0), h.1.1);
    keeps = λ e h. h;
  }

  pub advance-Runs : (s : State D) → Runs 0 s (advance s)
  unfolding advance previous
  advance-Runs (state b [] d es) = previous-Runs (state b [] d es)
  advance-Runs (state b (t ∷ a) d es) =
      if_cases (Runs 0 (state b (t ∷ a) d es)) (same_type t.type end_of_file)
        (λ e. previous-Runs (state b (t ∷ a) d es))
        (λ e. returned (move-Step b a t d (doc_after t d) es e) (omega arith))

  pub advance-reads : (s : State D) → is_at_end s ≡ false → Runs 1 s (advance s)
  unfolding advance previous is_at_end
  advance-reads (state b [] d es) e = absurd (ground arith)
  advance-reads (state b (t ∷ a) d es) e =
      rw e (returned (move-Step b a t d (doc_after t d) es e) (omega arith))

  pub check-is_at_end : (ty : TokenType) (s : State D) → check ty s ≡ true → is_at_end s ≡ false
  unfolding check is_at_end
  check-is_at_end ty (state b [] d es) h = absurd (ground arith)
  check-is_at_end ty (state b (t ∷ a) d es) h = ground arith

  -- A test of the state.
  pub Reads-ask :
      {A : Type 0} {k : ℕ} {s : State D} {p q : Parser D A} (test : State D → Bool)
      → (test s ≡ true → Reads k s p)
      → Reads k s q
      → Reads k s (branch (ask test) p q)
  unfolding branch ask bind
  Reads-ask {s = s} test h h' = elim (Bool-cases (test s)) [
    | inl e ↦ record { runs = rw e (h e).runs }
    | inr e ↦ record { runs = rw e h'.runs }
  ]

  -- A test that reads a token when it succeeds, and else leaves the state as it is.
  pub data Matched (s : State D) : Outcome D Bool → Type 0 where
    hit : {s' : State D} → Step s s' → left s' + 1 ≤ left s → Matched s (ok true s')
    miss : Matched s (ok false s)

  after_match :
      {A : Type 0} {k : ℕ} {s : State D} {r : Outcome D Bool} {p q : Parser D A}
      → Matched s r
      → ((s' : State D) → left s' + 1 ≤ left s → Reads (k - 1) s' p)
      → Reads k s q
      → Runs k s (bind r (choose p q))
  unfolding bind
  after_match (hit {s' = s'} st l) h h' = Runs-after 1 st l (omega arith) (h s' l).runs
  after_match miss h h' = h'.runs

  pub advance_lem :
      (b a : List (Token D)) (t : Token D) (d : Bytes) (es : List _)
      → same_type t.type end_of_file ≡ false
      → advance (state b (t ∷ a) d es) ≡ ok t (state (t ∷ b) a (doc_after t d) es)
  unfolding advance previous
  advance_lem b a t d es e = rw e

  pub match-Matched : (ty : TokenType) (s : State D) → Matched s (match ty s)
  unfolding match branch ask bind ◌>>=◌ check
  match-Matched ty (state b [] d es) = miss
  match-Matched ty (state b (t ∷ a) d es) = elim (Bool-cases (same_type t.type end_of_file)) [
    | inl e ↦ rw e miss
    | inr e ↦ elim (Bool-cases (same_type t.type ty)) [
      | inl e' ↦
          rw (e, e')
            (rw (advance_lem b a t d es e)
              (hit (move-Step b a t d (doc_after t d) es e) (omega arith)))
      | inr e' ↦ rw (e, e') miss
    ]
  ]

  or_else :
      {s : State D} {r : Outcome D Bool} (q : Parser D Bool)
      → Matched s r
      → Matched s (q s)
      → Matched s (bind r (choose (pure true) q))
  unfolding bind
  or_else q (hit st l) m = hit st l
  or_else q miss m = m

  pub match_any-Matched : (tys : List TokenType) (s : State D) → Matched s (match_any tys s)
  unfolding match_any branch
  match_any-Matched [] s = miss
  match_any-Matched (ty ∷ tys) s =
      or_else (match_any tys) (match-Matched ty s) (match_any-Matched tys s)

  pub Reads-match :
      {A : Type 0} {k : ℕ} {s : State D} {p q : Parser D A} (ty : TokenType)
      → ((s' : State D) → left s' + 1 ≤ left s → Reads (k - 1) s' p)
      → Reads k s q
      → Reads k s (branch (match ty) p q)
  unfolding branch
  Reads-match {s = s} ty h h' = record { runs = after_match (match-Matched ty s) h h' }

  pub Reads-match_any :
      {A : Type 0} {k : ℕ} {s : State D} {p q : Parser D A} (tys : List TokenType)
      → ((s' : State D) → left s' + 1 ≤ left s → Reads (k - 1) s' p)
      → Reads k s q
      → Reads k s (branch (match_any tys) p q)
  unfolding branch
  Reads-match_any {s = s} tys h h' = record { runs = after_match (match_any-Matched tys s) h h' }

  -- `match` as a value.
  pub Reads-found : (ty : TokenType) (s : State D) → Reads 0 s (match ty)
  Reads-found ty s = record { runs = found (match-Matched ty s) }
    where
      found : {r : Outcome D Bool} → Matched s r → Runs 0 s r
      found (hit st l) = returned st (omega arith)
      found miss = Runs-pure false s

  pub Reads-current : (s : State D) → Reads 0 s current
  Reads-current s = record { runs = current-Runs s }

  pub Reads-previous : (s : State D) → Reads 0 s previous
  Reads-previous s = record { runs = previous-Runs s }

  pub Reads-advance : (s : State D) → Reads 0 s advance
  Reads-advance s = record { runs = advance-Runs s }

  pub Reads-checked : (ty : TokenType) (s : State D) → check ty s ≡ true → Reads 1 s advance
  Reads-checked ty s h = record { runs = advance-reads s (check-is_at_end ty s h) }

  error-Runs :
      {A : Type 0} (k : ℕ) (message : Bytes) (s : State D) → Runs k s (error {A = A} message s)
  unfolding error ◌>>=◌ bind current
  error-Runs k message (state b [] d es) = overran (λ h. h)
  error-Runs k message (state b (t ∷ a) d es) = raised (Step-refl (state b (t ∷ a) d es))

  -- `error` never returns.
  pub Reads-error :
      {A : Type 0} (k : ℕ) (message : Bytes) (s : State D) → Reads k s (error {A = A} message)
  Reads-error k message s = record { runs = error-Runs k message s }

  pub Reads-consume :
      (ty : TokenType) (message : Bytes) (s : State D) → Reads 1 s (consume ty message)
  unfolding consume
  Reads-consume ty message s = Reads-ask (check ty) (Reads-checked ty s) (Reads-error 1 message s)

  choose-Reads :
      {A : Type 0} {k : ℕ} {s : State D} {p q : Parser D A} (b : Bool)
      → Reads k s p
      → Reads k s q
      → Reads k s (choose p q b)
  choose-Reads true h h' = h
  choose-Reads false h h' = h'

  -- Any test.
  pub Reads-branch :
      {A : Type 0} {k : ℕ} {s : State D} {t : Parser D Bool} {p q : Parser D A}
      → Reads 0 s t
      → ((s' : State D) → left s' ≤ left s → Reads k s' p)
      → ((s' : State D) → left s' ≤ left s → Reads k s' q)
      → Reads k s (branch t p q)
  unfolding branch ◌>>=◌
  Reads-branch {p = p} {q = q} r h h' = Reads-bind {f = choose p q} r λ b s' l.
      Reads-fewer (omega arith) (choose-Reads b (h s' (omega arith)) (h' s' (omega arith)))

  pub Reads-tested :
      {A : Type 0} {k : ℕ} {s : State D} {p q : Parser D A} (t : Parser D Bool)
      → Matched s (t s)
      → ((s' : State D) → left s' + 1 ≤ left s → Reads (k - 1) s' p)
      → Reads k s q
      → Reads k s (branch t p q)
  unfolding branch
  Reads-tested t m h h' = record { runs = after_match m h h' }
