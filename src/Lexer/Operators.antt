-- ===== src/Lexer/Operators.antt =====
-- What the scanner of operators returns, as a statement about the source.
use vision_pipe.Base.{
  ℕ, true, false, [], ◌∷◌, Option, none, some, ◌≡◌, ◌≢◌, refl, sym, subst, ap, ◌∙◌, ==_iff, arith,
  ◌==◌, Bytes, Bool-cases, Option-cases, inl, inr,
}
use vision_pipe.Lexer.Token.{TokenType, SourceLocation, monostate}
use vision_pipe.Lexer.Scan.{unexpected_ampersand, pass, advance, current}
use vision_pipe.Lexer.Machine.{single, double, longer_operator, make_token, scan_operator}
use vision_pipe.Lexer.Reads.{Reads-cons, advance-Reads}
use vision_pipe.Lexer.Spells.{
  Stops, operator_type, IsLongest, operator, IsOther, IsFaulty, single_ampersand, no_operator,
}
use vision_pipe.Lexer.Tables.{
  single-operator_type, single-IsLongest, double-operator_type, double-one-operator_type,
  double-IsLongest, longest_pair, double-ampersand, unknown_lem,
}
use vision_pipe.Lexer.Lexed.{NotEof, Lexed, Scans}
use vision_pipe.Lexer.Kinds.{single-NotEof, double-NotEof, double-one-NotEof, double-ne-zero}

-- No operator is longer than these.
pair-IsLongest : (b x : ℕ) (r : Bytes) → IsLongest (b ∷ x ∷ []) r
pair-IsLongest b x [] = tt
pair-IsLongest b x (y ∷ r) = longest_pair b x y

single-unpaired : (b : ℕ) (ty : TokenType) (r : Bytes) → single b ≡ some ty → IsLongest (b ∷ []) r
single-unpaired b ty [] h = tt
single-unpaired b ty (x ∷ r) h = single-IsLongest b x ty h

double-unpaired :
    (b e : ℕ) (two : TokenType) (one : Option TokenType) (r : Bytes) (l : SourceLocation)
    → double b ≡ some (e, two, one)
    → (current (r, pass b l) == e) ≡ false
    → IsLongest (b ∷ []) r
unfolding current
double-unpaired b e two one [] l h k = tt
double-unpaired b e two one (x ∷ r) l h k = double-IsLongest b e x two one h k

unknown-IsLongest : (b : ℕ) (r : Bytes) → single b ≡ none → double b ≡ none → IsLongest (b ∷ []) r
unknown-IsLongest b [] h k = tt
unknown-IsLongest b (x ∷ r) h k = unknown_lem b (x ∷ []) h k

unpaired_lem :
    (e : ℕ) (bs : Bytes) (l : SourceLocation)
    → e ≡ b'&'
    → (current (bs, l) == e) ≡ false
    → Stops (λ c. c ≡ b'&') bs
unfolding current
unpaired_lem e [] l h k = tt
unpaired_lem e (b ∷ bs) l h k = λ x. ground arith

module _ {D : Type 0} (stod : Bytes → Option D) where
  single-Lexed :
      (b : ℕ) (bs : Bytes) (l : SourceLocation) (ty : TokenType)
      → NotEof ty
      → operator_type (b ∷ []) ≡ some ty
      → IsLongest (b ∷ []) bs
      → Lexed stod (b ∷ bs, l) (make_token stod ty monostate l (b ∷ [])) (bs, pass b l)
  unfolding make_token advance
  single-Lexed b bs l ty h o k = record {
    lexeme = b ∷ [];
    nonempty = λ e. cc;
    reads = advance-Reads b bs l;
    starts = inl refl;
    verbatim = inl refl;
    not_eof = h;
    spells = operator o k;
  }

  shorter-Scans :
      (b : ℕ) (bs : Bytes) (l : SourceLocation) (e : ℕ) (two : TokenType) (one : Option TokenType)
      → ((ty : TokenType)
          → one ≡ some ty
          → NotEof ty × (operator_type (b ∷ []) ≡ some ty) × IsLongest (b ∷ []) bs)
      → (one ≡ none → (b ≡ b'&') × (e ≡ b'&'))
      → (current (bs, pass b l) == e) ≡ false
      → Scans stod (b ∷ bs, l) (longer_operator stod b l (bs, pass b l) e two one)
  unfolding longer_operator
  shorter-Scans b bs l e two none g u h =
      let (first, second) = u refl in
      rw h (
        (b ∷ [], bs, refl, refl),
        subst (λ x. IsFaulty unexpected_ampersand (x ∷ bs)) (sym first)
            (single_ampersand (unpaired_lem e bs (pass b l) second h)),
      )
  shorter-Scans b bs l e two (some ty) g u h =
      rw h (let (n, o, k) = g ty refl in single-Lexed b bs l ty n o k)

  longer-Scans :
      (b : ℕ) (bs : Bytes) (l : SourceLocation) (e : ℕ) (two : TokenType) (one : Option TokenType)
      → e ≢ 0
      → NotEof two
      → operator_type (b ∷ e ∷ []) ≡ some two
      → (current (bs, pass b l) == e) ≡ true
      → Scans stod (b ∷ bs, l) (longer_operator stod b l (bs, pass b l) e two one)
  unfolding longer_operator current advance
  longer-Scans b [] l e two one n g o h = absurd (n (ground arith))
  longer-Scans b (x ∷ bs) l e two one n g o h = rw h (record {
    lexeme = b ∷ x ∷ [];
    nonempty = λ e. cc;
    reads = Reads-cons (advance-Reads x bs (pass b l));
    starts = inl refl;
    verbatim = inl (ground arith);
    not_eof = g;
    spells = operator (rw (sym ((==_iff x e).0 h)) at o) (pair-IsLongest b x bs);
  })

  double-Scans :
      (b : ℕ) (bs : Bytes) (l : SourceLocation) (e : ℕ) (two : TokenType) (one : Option TokenType)
      → double b ≡ some (e, two, one)
      → Scans stod (b ∷ bs, l) (longer_operator stod b l (bs, pass b l) e two one)
  double-Scans b bs l e two one h = elim (Bool-cases (current (bs, pass b l) == e)) [
    | inl k ↦
        longer-Scans b bs l e two one (double-ne-zero b e two one h) (double-NotEof b e two one h)
          (double-operator_type b e two one h) k
    | inr k ↦
        shorter-Scans b bs l e two one
          (λ ty g.
            let h' = h ∙ ap (λ o. some (e, two, o)) g in
            (
              double-one-NotEof b e two ty h',
              double-one-operator_type b e two ty h',
              double-unpaired b e two one bs l h k,
            ))
          (λ g. double-ampersand b e two (h ∙ ap (λ o. some (e, two, o)) g)) k
  ]

  pub operator-Scans :
      (b : ℕ) (bs : Bytes) (l : SourceLocation)
      → IsOther b
      → Scans stod (b ∷ bs, l) (scan_operator stod (b ∷ bs, l))
  unfolding scan_operator current advance
  operator-Scans b bs l h = elim (Option-cases (single b)) [
    | inr (ty, e) ↦
        rw (e, scan_operator)
          (single-Lexed b bs l ty (single-NotEof b ty e) (single-operator_type b ty e)
            (single-unpaired b ty bs e))
    | inl e ↦ elim (Option-cases (double b)) [
      | inl k ↦
          rw (e, k, scan_operator)
            (
              (b ∷ [], bs, refl, refl),
              no_operator h (unknown_lem b [] e k) (unknown-IsLongest b bs e k),
            )
      | inr ((x, two, one), k) ↦ rw (e, k, scan_operator) (double-Scans b bs l x two one k)
    ]
  ]
