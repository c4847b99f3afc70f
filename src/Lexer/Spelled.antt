-- ===== src/Lexer/Spelled.antt =====
-- The tests and tables of the scanners against the spelling of the tokens.
use mathlib.Core.Option.{some-injective}
use vision_pipe.Base.{
  ℕ, Bool, true, false, List, [], ◌∷◌, ◌++◌, some, ◌≡◌, ◌≢◌, ◌⊎◌, inl, inr, refl, arith, ◌==◌,
  Bytes, eq_bytes, eq_bytes_iff, All, Bool-cases, subst, ap, ==_iff,
}
use vision_pipe.Lexer.Token.{TokenType, SourceLocation, find_word}
use vision_pipe.Lexer.Scan.{
  is_digit, starts_name, continues_name, is_blank, not_newline, collect, pass,
}
use vision_pipe.Lexer.Spells.{
  IsNameStart, IsNameByte, IsNumberByte, Starts, Stops, AtLineEnd, IsBlank, space, tab,
  carriage_return, line_feed,
}

pub starts_name-IsNameStart : (b : ℕ) → (starts_name b ≡ true) → IsNameStart b
unfolding starts_name
starts_name-IsNameStart b h = ground arith

pub continues_name-IsNameByte : (b : ℕ) → continues_name b ≡ true → IsNameByte b
unfolding continues_name
continues_name-IsNameByte b h = ground arith

pub IsNameByte-continues_name : (b : ℕ) → IsNameByte b → continues_name b ≡ true
unfolding continues_name
IsNameByte-continues_name b h = ground arith

pub IsNameStart-starts_name : (b : ℕ) → IsNameStart b → starts_name b ≡ true
unfolding starts_name
IsNameStart-starts_name b h = ground arith

pub is_digit-IsNumberByte : (b : ℕ) → is_digit b ≡ true → IsNumberByte b
is_digit-IsNumberByte b h = inl (ground arith, ground arith)

pub not_newline-differs : (b : ℕ) → not_newline b ≡ true → b ≢ b'\n'
unfolding not_newline
not_newline-differs b h = λ e. ground arith

pub is_blank-IsBlank : (newlines : Bool) (b : ℕ) → is_blank newlines b ≡ true → IsBlank newlines b
unfolding is_blank
is_blank-IsBlank newlines b h = elim (blank_cases newlines b h) [
  | inl e ↦ rw e space
  | inr (inl e) ↦ rw e tab
  | inr (inr (inl e)) ↦ rw e carriage_return
  | inr (inr (inr (e, k))) ↦ rw e (line_feed k)
]
  where
    blank_cases :
        (newlines : Bool) (b : ℕ)
        → is_blank newlines b ≡ true
        → (b ≡ b' ') ⊎ ((b ≡ b'\t') ⊎ ((b ≡ b'\r') ⊎ ((b ≡ b'\n') × (newlines ≡ false))))
    blank_cases newlines b h = unfold is_blank in ground arith

-- What holds of every row of a table holds of a word that is found in it.
pub find_word-both {ℓ} :
    (P : Bytes → TokenType → Type ℓ) (w : Bytes) (table : List (Bytes × TokenType)) (ty : TokenType)
    → All (λ (k : Bytes × TokenType). P k.0 k.1) table
    → find_word w table ≡ some ty
    → P w ty
unfolding find_word
find_word-both P w [] ty a h = cc
find_word-both P w ((k, t) ∷ rest) ty a h = elim (Bool-cases (eq_bytes k w)) [
  | inl e ↦
      subst (λ x. P x ty) ((eq_bytes_iff k w).0 e)
        (subst (P k) (some-injective t ty (rw e at h)) a.0)
  | inr e ↦ find_word-both P w rest ty a.1 (rw e at h)
]

abbrev pub head_or : ℕ → Bytes → ℕ
head_or d [] = d
head_or d (b ∷ bs) = b

-- What a gathered run is made of, and what stops it.
pub collect-All :
    (p : ℕ → Bool) (P : ℕ → Type 0)
    → ((b : ℕ) → p b ≡ true → P b)
    → (bs : Bytes) (l : SourceLocation) → All P (collect p bs l).0
unfolding collect
collect-All p P h [] l = tt
collect-All p P h (b ∷ bs) l = elim (Bool-cases (p b)) [
  | inl e ↦ rw e (h b e, collect-All p P h bs (pass b l))
  | inr e ↦ rw e tt
]

pub collect-Stops :
    (p : ℕ → Bool) (P : ℕ → Type 0)
    → ((b : ℕ) → P b → p b ≡ true)
    → (bs : Bytes) (l : SourceLocation) → Stops P (collect p bs l).1.0
unfolding collect
collect-Stops p P h [] l = tt
collect-Stops p P h (b ∷ bs) l = elim (Bool-cases (p b)) [
  | inl e ↦ rw e (collect-Stops p P h bs (pass b l))
  | inr e ↦ rw e (λ k. let f = h b k in ground arith)
]

pub collect-AtLineEnd : (bs : Bytes) (l : SourceLocation) → AtLineEnd (collect not_newline bs l).1.0
unfolding collect not_newline
collect-AtLineEnd [] l = tt
collect-AtLineEnd (b ∷ bs) l = elim (Bool-cases (b == b'\n')) [
  | inl e ↦ rw e ((==_iff b b'\n').0 e)
  | inr e ↦ rw e (collect-AtLineEnd bs (pass b l))
]

pub collect-head :
    (p : ℕ → Bool) (P : ℕ → Type 0) (bs : Bytes) (l : SourceLocation)
    → Stops P bs
    → Stops P (collect p bs l).0
unfolding collect
collect-head p P [] l h = tt
collect-head p P (b ∷ bs) l h = elim (Bool-cases (p b)) [ inl e ↦ rw e h | inr e ↦ rw e tt ]

pub collect-cons :
    (p : ℕ → Bool) (b : ℕ) (bs : Bytes) (l : SourceLocation)
    → p b ≡ true
    → collect p (b ∷ bs) l ≡ (b ∷ (collect p bs (pass b l)).0, (collect p bs (pass b l)).1)
unfolding collect
collect-cons p b bs l h = rw h refl

-- A piece of the source that is not empty starts as the source does.
pub Starts-piece :
    (P : ℕ → Type 0) (b : ℕ) (bs w r : Bytes) → b ∷ bs ≡ w ++ r → w ≢ [] → P b → Starts P w
Starts-piece P b bs [] r e n h = absurd (n refl)
Starts-piece P b bs (x ∷ w) r e n h = subst P (ap (head_or b) e) h
