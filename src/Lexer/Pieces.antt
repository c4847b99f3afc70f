-- ===== src/Lexer/Pieces.antt =====
-- The pieces that the scanners are made of read what they return: numbers, blanks, comments and
-- the inside of a string.
use vision_pipe.Base.{
  ℕ, Bool, true, false, ◌&&◌, ◌||◌, [], ◌∷◌, ◌++◌, Option, none, some, ◌≡◌, ◌≢◌, refl, sym, subst,
  ap, ==_iff, arith, ◌==◌, Bytes, Bool-cases, inl, inr,
}
use vision_pipe.Lexer.Token.{SourceLocation}
use vision_pipe.Lexer.Scan.{
  Outcome, ok, error, out_of_range, out_of_fuel, Cursor, pass, advance, current, peek, is_digit,
  collect, optional, block_body, unescape, string_body, unknown_escape, unterminated_comment,
  unterminated_string, ◌>>=◌,
}
use vision_pipe.Lexer.Machine.{fraction, exponent, number_text}
use vision_pipe.Lexer.Spells.{
  Stops, IsBlock, closing, inside, Escapes, IsText, done, plain, escaped, IsUnclosed, BadText,
  at_source_end, at_line_feed, at_backslash, no_escape, later, later_escape,
}
use vision_pipe.Lexer.Spelled.{head_or}
use vision_pipe.Lexer.Reads.{
  locate, Reads, Reads-nil, Reads-cons, Reads-trans, collect-Reads, optional-Reads, current-ne-nil,
}

pub fraction-Reads : (c : Cursor) → Reads c (fraction c).0 (fraction c).1
unfolding fraction
fraction-Reads c = elim (Bool-cases (current c == b'.' && is_digit (peek c))) [
  | inl e ↦ rw e (
      Reads-trans (optional-Reads true c (λ _. current-ne-nil b'.' c (omega arith) (ground arith)))
        (collect-Reads is_digit _ _))
  | inr e ↦ rw e (Reads-nil c)
]

sign_test : (c : Cursor) → (current c == b'+' || current c == b'-') ≡ true → c.0 ≢ []
unfolding current
sign_test ([], l) h = ground arith
sign_test (b ∷ bs, l) h = λ e. cc

mark_test : (c : Cursor) → (current c == b'e' || current c == b'E') ≡ true → c.0 ≢ []
unfolding current
mark_test ([], l) h = ground arith
mark_test (b ∷ bs, l) h = λ e. cc

pub exponent-Reads : (c : Cursor) → Reads c (exponent c).0 (exponent c).1
unfolding exponent
exponent-Reads c = elim (Bool-cases (current c == b'e' || current c == b'E')) [
  | inl e ↦
      let c₁ = advance c in
      let t = current c₁ == b'+' || current c₁ == b'-' in
      rw e (
        Reads-trans (optional-Reads true c (λ _. mark_test c e))
          (Reads-trans (optional-Reads t c₁ (sign_test c₁)) (collect-Reads is_digit _ _)))
  | inr e ↦ rw e (Reads-nil c)
]

digits-ne-nil :
    (b : ℕ) (bs : Bytes) (l : SourceLocation) (r : Bytes)
    → is_digit b ≡ true
    → (collect is_digit (b ∷ bs) l).0 ++ r ≢ []
unfolding collect
digits-ne-nil b bs l r h = rw h (λ e. cc)

number_start :
    (t : Bool) (b : ℕ) (bs : Bytes) (l : SourceLocation) (r : Bytes)
    → (t ≡ false → is_digit b ≡ true)
    → let sign = optional t (b ∷ bs, l) in
      sign.0 ++ ((collect is_digit sign.1.0 sign.1.1).0 ++ r) ≢ []
unfolding optional
number_start true b bs l r h = λ e. cc
number_start false b bs l r h = digits-ne-nil b bs l r (h refl)

-- A number has at least its sign or its first digit.
pub number_text-Reads :
    (b : ℕ) (bs : Bytes) (l : SourceLocation)
    → (is_digit b || (b == b'-' && is_digit (peek (b ∷ bs, l)))) ≡ true
    → Reads (b ∷ bs, l) (number_text (b ∷ bs, l)).0 (number_text (b ∷ bs, l)).1
      × ((number_text (b ∷ bs, l)).0 ≢ [])
unfolding number_text current collect
number_text-Reads b bs l h =
    let c : Cursor = (b ∷ bs, l) in
    let sign = optional (b == b'-') c in
    let whole = collect is_digit sign.1.0 sign.1.1 in
    let frac = fraction whole.1 in
    (
      Reads-trans (optional-Reads (b == b'-') c (λ _ e. cc)) (
          Reads-trans (collect-Reads is_digit sign.1.0 sign.1.1)
            (Reads-trans (fraction-Reads whole.1) (exponent-Reads frac.1))),
      number_start (b == b'-') b bs l _ (λ e. ground arith),
    )

-- A place in the source behind `c`.
abbrev pub Located : Cursor → SourceLocation → Type 0
Located c l = (s : Bytes) × (r : Bytes) × (c.0 ≡ s ++ r) × (l ≡ locate s c.1)

abbrev tail : Bytes → Bytes
tail [] = []
tail (b ∷ bs) = bs

-- What does not start the source does not start a piece of it.
Stops-piece : (P : ℕ → Type 0) (bs s r : Bytes) → bs ≡ s ++ r → Stops P bs → Stops P s
Stops-piece P bs [] r e h = tt
Stops-piece P [] (x ∷ s) r e h = cc
Stops-piece P (b ∷ bs) (x ∷ s) r e h = λ k. h (subst P (sym (ap (head_or b) e)) k)

-- What `skipBlockComment` does behind a cursor: it closes, or fails at a place in the source.
abbrev pub Skips : Cursor → Outcome Cursor → Type 0
Skips c (ok c') = (s : Bytes) × Reads c s c' × IsBlock s
Skips c (error r l) = Located c l × (r ≡ unterminated_comment) × IsUnclosed c.0
Skips c out_of_range = ⊥
Skips c out_of_fuel = ⊥

IsUnclosed-cons :
    (b : ℕ) (bs : Bytes)
    → ¬ ((b ≡ b'*') × (head_or 0 bs ≡ b'/'))
    → IsUnclosed bs
    → IsUnclosed (b ∷ bs)
IsUnclosed-cons b bs g h _ r e closing = g (ap (head_or 0) e, ap (λ w. head_or 0 (tail w)) e)
IsUnclosed-cons b bs g h _ r e (inside {s = s} x k) = h s r (ap tail e) k

IsUnclosed-nil : IsUnclosed []
IsUnclosed-nil _ r e closing = cc
IsUnclosed-nil _ r e (inside x k) = cc

Skips-cons :
    (b : ℕ) (bs : Bytes) (l : SourceLocation) (m : Outcome Cursor)
    → (b ≡ b'*' → Stops (λ c. c ≡ b'/') bs)
    → ¬ ((b ≡ b'*') × (head_or 0 bs ≡ b'/'))
    → Skips (bs, pass b l) m
    → Skips (b ∷ bs, l) m
Skips-cons b bs l (ok c') g u (s, h, k) =
    (b ∷ s, Reads-cons h, inside (λ e. Stops-piece _ bs s c'.0 h.splits (g e)) k)
Skips-cons b bs l (error r l') g u ((s, t, h, k), e, v) =
    ((b ∷ s, t, ap (◌∷◌ b) h, k), e, IsUnclosed-cons b bs u v)
Skips-cons b bs l out_of_range g u h = h
Skips-cons b bs l out_of_fuel g u h = h

pub block_body-Skips : (bs : Bytes) (l : SourceLocation) → Skips (bs, l) (block_body bs l)
unfolding block_body
block_body-Skips [] l = (([], [], refl, refl), refl, IsUnclosed-nil)
block_body-Skips (a ∷ []) l = (
  (a ∷ [], [], refl, refl),
  refl,
  IsUnclosed-cons a [] (λ h. let slash = h.1 in omega arith) IsUnclosed-nil,
)
block_body-Skips (a ∷ b ∷ bs) l = elim (Bool-cases (a == b'*' && b == b'/')) [
  | inl e ↦
      let star : a ≡ b'*' = ground arith in
      let slash : b ≡ b'/' = ground arith in
      rw e (a ∷ b ∷ [], record { splits = refl; ends = refl }, rw (star, slash) closing)
  | inr e ↦ rw e (
      Skips-cons a (b ∷ bs) l _ (λ star slash. ground arith)
        (λ h. let (star, slash) = h in ground arith) (block_body-Skips (b ∷ bs) (pass a l)))
]

-- What `scanString` does up to the closing quote, which it leaves in front of the cursor.
abbrev pub Quotes : ℕ → Cursor → Outcome (Bytes × Cursor) → Type 0
Quotes q c (ok (v, c')) =
    (s : Bytes) × (rest : Bytes) × Reads c s c' × (c'.0 ≡ q ∷ rest) × IsText q s v
Quotes q c (error r l) = Located c l × BadText q r c.0
Quotes q c out_of_range = ⊥
Quotes q c out_of_fuel = ⊥

Quotes-plain :
    (q b : ℕ) (bs : Bytes) (l : SourceLocation) (m : Outcome (Bytes × Cursor))
    → (b == q) ≡ false
    → (b == b'\n') ≡ false
    → (b == b'\\') ≡ false
    → Quotes q (bs, pass b l) m
    → Quotes q (b ∷ bs, l) (m >>= λ r. ok (b ∷ r.0, r.1))
Quotes-plain q b bs l (ok (v, c')) i j k (s, rest, h, e, x) = (
  b ∷ s,
  rest,
  Reads-cons h,
  e,
  plain (λ n. ground arith) (λ n. ground arith) (λ n. ground arith) x,
)
Quotes-plain q b bs l (error r l') i j k ((s, t, h, n), x) = (
  (b ∷ s, t, ap (◌∷◌ b) h, n),
  later (λ n. ground arith) (λ n. ground arith) (λ n. ground arith) x,
)
Quotes-plain q b bs l out_of_range i j k h = h
Quotes-plain q b bs l out_of_fuel i j k h = h

Escapes-unescape : (e d : ℕ) → unescape e ≡ none → ¬ Escapes e d
unfolding unescape
Escapes-unescape e d h = λ k. ground arith

unescape-Escapes : (e d : ℕ) → unescape e ≡ some d → Escapes e d
unfolding unescape
unescape-Escapes e d h = ground arith

-- One round of the loop behind a backslash.
Quotes-escaped :
    (q b e : ℕ) (es : Bytes) (l : SourceLocation) (o : Option ℕ) (m : Outcome (Bytes × Cursor))
    → ((d : ℕ) → o ≡ some d → Escapes e d)
    → (o ≡ none → (d : ℕ) → ¬ Escapes e d)
    → b ≡ b'\\'
    → Quotes q (es, pass e (pass b l)) m
    → Quotes q
        (b ∷ e ∷ es, l)
        (elim o [
          | none ↦ error (unknown_escape e) (pass e (pass b l))
          | some d ↦ m >>= λ r. ok (d ∷ r.0, r.1)
        ])
Quotes-escaped q b e es l none m g u p h = (
  (b ∷ e ∷ [], es, refl, refl),
  subst (λ c. BadText q (unknown_escape e) (c ∷ e ∷ es)) (sym p) (no_escape (u refl)),
)
Quotes-escaped q b e es l (some d) (ok (v, c')) g u p (s, rest, h, k, x) = (
  b ∷ e ∷ s,
  rest,
  Reads-cons (Reads-cons h),
  k,
  subst (λ c. IsText q (c ∷ e ∷ s) (d ∷ v)) (sym p) (escaped (g d refl) x),
)
Quotes-escaped q b e es l (some d) (error r l') g u p ((s, t, h, k), x) = (
  (b ∷ e ∷ s, t, ap (λ x. b ∷ e ∷ x) h, k),
  subst (λ c. BadText q r (c ∷ e ∷ es)) (sym p) (later_escape d (g d refl) x),
)
Quotes-escaped q b e es l (some d) out_of_range g u p h = h
Quotes-escaped q b e es l (some d) out_of_fuel g u p h = h

-- One byte in front of the end.
lone_lem :
    (q b : ℕ) → (b == q) ≡ false → (b == b'\n') ≡ false → BadText q unterminated_string (b ∷ [])
lone_lem q b e n = elim (Bool-cases (b == b'\\')) [
  | inl s ↦
      subst (λ c. BadText q unterminated_string (c ∷ [])) (sym ((==_iff b b'\\').0 s)) at_backslash
  | inr s ↦ later (λ x. ground arith) (λ x. ground arith) (λ x. ground arith) at_source_end
]

pub string_body-Quotes :
    (q : ℕ) (bs : Bytes) (l : SourceLocation) → Quotes q (bs, l) (string_body q bs l)
unfolding string_body
string_body-Quotes q [] l = (([], [], refl, refl), at_source_end)
string_body-Quotes q (b ∷ []) l = elim (Bool-cases (b == q)) [
  | inl e ↦ rw e ([], [], Reads-nil _, ground arith, done)
  | inr e ↦ elim (Bool-cases (b == b'\n')) [
    | inl n ↦
        rw (e, n)
          (
            ([], b ∷ [], refl, refl),
            subst (λ c. BadText q unterminated_string (c ∷ [])) (sym ((==_iff b b'\n').0 n))
                at_line_feed,
          )
    | inr n ↦ rw (e, n) ((b ∷ [], [], refl, refl), lone_lem q b e n)
  ]
]
string_body-Quotes q (b ∷ e ∷ es) l = elim (Bool-cases (b == q)) [
  | inl k ↦ rw k ([], e ∷ es, Reads-nil _, ground arith, done)
  | inr k ↦ elim (Bool-cases (b == b'\n')) [
    | inl n ↦
        rw (k, n)
          (
            ([], b ∷ e ∷ es, refl, refl),
            subst (λ c. BadText q unterminated_string (c ∷ e ∷ es)) (sym ((==_iff b b'\n').0 n))
                at_line_feed,
          )
    | inr n ↦ elim (Bool-cases (b == b'\\')) [
      | inl s ↦
          rw (k, n, s)
            (Quotes-escaped q b e es l (unescape e) _ (unescape-Escapes e)
              (λ h d. Escapes-unescape e d h) ((==_iff b b'\\').0 s)
              (string_body-Quotes q es (pass e (pass b l))))
      | inr s ↦
          rw (k, n, s)
            (Quotes-plain q b (e ∷ es) l _ k n s (string_body-Quotes q (e ∷ es) (pass b l)))
    ]
  ]
]
