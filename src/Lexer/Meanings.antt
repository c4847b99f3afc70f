-- ===== src/Lexer/Meanings.antt =====
-- What the scanners gather spells the token that they make: words, numbers and comments.
use vision_pipe.Base.{
  ℕ, Bool, true, false, ◌&&◌, ◌||◌, [], ◌∷◌, ◌++◌, Option, some, ◌≡◌, refl, ap, ◌∙◌, arith, ◌==◌,
  ==_iff, if◌then◌else◌, Bytes, All, All-append, Bool-cases, Option-cases, inl, inr,
}
use vision_pipe.Lexer.Token.{TokenType, SourceLocation, text, same_type, find_keyword}
use vision_pipe.Lexer.Scan.{
  Cursor, pass, advance, current, peek, is_digit, starts_name, continues_name, collect, optional,
  not_newline,
}
use vision_pipe.Lexer.Machine.{fraction, exponent, number_text, word_token, trim}
use vision_pipe.Lexer.Spells.{
  IsNameByte, IsNumberByte, parameter, Stops, WordMeans, name, truth, keyword, Spells, comment,
  doc_comment,
}
use vision_pipe.Lexer.Spelled.{
  starts_name-IsNameStart, continues_name-IsNameByte, IsNameByte-continues_name, collect-Stops,
  collect-cons, is_digit-IsNumberByte, not_newline-differs, collect-All, collect-AtLineEnd,
  collect-head,
}

boolean_type :
    (ty : TokenType)
    → same_type ty TokenType.boolean_literal ≡ true
    → ty ≡ TokenType.boolean_literal
unfolding same_type
boolean_type TokenType.boolean_literal h = refl
boolean_type _ h = cc

optional-number :
    (t : Bool) (c : Cursor)
    → (t ≡ true → IsNumberByte (current c))
    → All IsNumberByte (optional t c).0
unfolding optional
optional-number true c h = (h refl, tt)
optional-number false c h = tt

digits-number : (bs : Bytes) (l : SourceLocation) → All IsNumberByte (collect is_digit bs l).0
digits-number = collect-All is_digit IsNumberByte is_digit-IsNumberByte

fraction-number : (c : Cursor) → All IsNumberByte (fraction c).0
unfolding fraction
fraction-number c = elim (Bool-cases (current c == b'.' && is_digit (peek c))) [
  | inl e ↦
      let point = optional true c in
      let digits = collect is_digit point.1.0 point.1.1 in
      rw e (
        All-append IsNumberByte point.0 digits.0
          (optional-number true c (λ _. inr (inl (ground arith))))
          (digits-number point.1.0 point.1.1))
  | inr e ↦ rw e tt
]

exponent-number : (c : Cursor) → All IsNumberByte (exponent c).0
unfolding exponent
exponent-number c = elim (Bool-cases (current c == b'e' || current c == b'E')) [
  | inl e ↦
      let mark = optional true c in
      let signed = current mark.1 == b'+' || current mark.1 == b'-' in
      let sign = optional signed mark.1 in
      let digits = collect is_digit sign.1.0 sign.1.1 in
      rw e (
        All-append IsNumberByte mark.0 (sign.0 ++ digits.0)
          (optional-number true c (λ _. ground arith))
          (All-append IsNumberByte sign.0 digits.0
            (optional-number signed mark.1 (λ t. ground arith)) (digits-number sign.1.0 sign.1.1)))
  | inr e ↦ rw e tt
]

pub number_text-All : (c : Cursor) → All IsNumberByte (number_text c).0
unfolding number_text
number_text-All c =
    let sign = optional (current c == b'-') c in
    let whole = collect is_digit sign.1.0 sign.1.1 in
    let frac = fraction whole.1 in
    All-append IsNumberByte sign.0 (whole.0 ++ (frac.0 ++ (exponent frac.1).0))
      (optional-number (current c == b'-') c (λ e. ground arith))
      (All-append IsNumberByte whole.0 (frac.0 ++ (exponent frac.1).0)
        (digits-number sign.1.0 sign.1.1)
        (All-append IsNumberByte frac.0 (exponent frac.1).0 (fraction-number whole.1)
          (exponent-number frac.1)))

pub starts_name-continues : (b : ℕ) → starts_name b ≡ true → continues_name b ≡ true
unfolding starts_name continues_name
starts_name-continues b h = ground arith

module _ {D : Type 0} (stod : Bytes → Option D) where
  pub word_token-WordMeans :
      (w : Bytes) (l : SourceLocation)
      → WordMeans w (word_token stod w l).type (word_token stod w l).value
  unfolding word_token
  word_token-WordMeans w l = elim (Option-cases (find_keyword w)) [
    | inl e ↦ rw (e, word_token) (name e)
    | inr (ty, e) ↦ elim (Bool-cases (same_type ty TokenType.boolean_literal)) [
      | inl k ↦ let b = boolean_type ty k in rw (e, k, word_token) (rw b (truth (e ∙ ap some b)))
      | inr k ↦ rw (e, k, word_token) (keyword e k)
    ]
  ]

  pub parameter-Spells :
      (bs : Bytes) (l : SourceLocation)
      → starts_name (current (bs, l)) ≡ true
      → (let run = collect continues_name bs l in
          Spells stod TokenType.op_at (text run.0) (b'@' ∷ run.0) run.1.0)
  unfolding current
  parameter-Spells [] l h = absurd (unfold starts_name in ground arith)
  parameter-Spells (b ∷ bs) l h =
      rw (collect-cons continues_name b bs l (starts_name-continues b h)) (
        parameter (starts_name-IsNameStart b h)
          (collect-All continues_name IsNameByte continues_name-IsNameByte bs (pass b l))
          (collect-Stops continues_name IsNameByte IsNameByte-continues_name bs (pass b l)))

  pub comment-Spells :
      (doc : Bool) (c : Cursor)
      → (current c == b'#') ≡ doc
      → (let mark = optional doc c in
          let body = collect not_newline mark.1.0 mark.1.1 in
          Spells stod
            (if doc then TokenType.doc_comment else TokenType.comment)
            (text (trim body.0))
            (b'#' ∷ (mark.0 ++ body.0))
            body.1.0)
  unfolding optional current
  comment-Spells true c h =
      let e = (==_iff (current c) b'#').0 h in
      let after = advance c in
      rw e (
        doc_comment (collect-All not_newline _ not_newline-differs after.0 after.1)
          (collect-AtLineEnd after.0 after.1))
  comment-Spells false (bs, l) h =
      comment (collect-head not_newline _ bs l (unmarked bs h))
        (collect-All not_newline _ not_newline-differs bs l) (collect-AtLineEnd bs l)
    where
      unmarked : (bs : Bytes) → (current (bs, l) == b'#') ≡ false → Stops (λ c. c ≡ b'#') bs
      unmarked [] h = tt
      unmarked (b ∷ bs) h = λ e. ground arith
