-- ===== src/Lexer/Tables.antt =====
-- The tables of the scanner of operators against the spelling of the operators.
use vision_pipe.Base.{
  ℕ, false, List, [], ◌∷◌, Option, none, some, ◌≡◌, ◌≢◌, ◌⊎◌, inl, inr, refl, arith, ◌==◌,
  if◌then◌else◌, Bytes, eq_bytes, Option-cases, eq_bytes_iff, length, ◌<◌, All, Bool-cases,
  if_cases, subst, ap, ==_iff,
}
use vision_pipe.Lexer.Token.{TokenType, find_word}
use vision_pipe.Lexer.Machine.{single, double}
use vision_pipe.Lexer.Spells.{operator_spellings, operator_type}
use vision_pipe.Lexer.Spelled.{find_word-both, head_or}

-- What the table of an operator of one character says.
abbrev SingleAgrees : ℕ → Option TokenType → Type 0
SingleAgrees b none = Unit
SingleAgrees b (some ty) =
    (operator_type (b ∷ []) ≡ some ty) × ((x : ℕ) → operator_type (b ∷ x ∷ []) ≡ none)

single_entry :
    (b x : ℕ) (ty : TokenType) (o : Option TokenType)
    → SingleAgrees x (some ty)
    → SingleAgrees b o
    → SingleAgrees b (if b == x then some ty else o)
single_entry b x ty o h k =
    if_cases (SingleAgrees b) (b == x) (λ e. rw ((==_iff b x).0 e) h) (λ _. k)

single-SingleAgrees : (b : ℕ) → SingleAgrees b (single b)
unfolding single operator_type find_word eq_bytes
single-SingleAgrees b =
    single_entry b _ _ _ (refl, λ x. refl)
      (single_entry b _ _ _ (refl, λ x. refl)
        (single_entry b _ _ _ (refl, λ x. refl)
          (single_entry b _ _ _ (refl, λ x. refl)
            (single_entry b _ _ _ (refl, λ x. refl)
              (single_entry b _ _ _ (refl, λ x. refl)
                (single_entry b _ _ _ (refl, λ x. refl)
                  (single_entry b _ _ _ (refl, λ x. refl)
                    (single_entry b _ _ _ (refl, λ x. refl)
                      (single_entry b _ _ _ (refl, λ x. refl)
                        (single_entry b _ _ _ (refl, λ x. refl)
                          (single_entry b _ _ _ (refl, λ x. refl)
                            (single_entry b _ _ _ (refl, λ x. refl) (tt)))))))))))))

pub single-operator_type :
    (b : ℕ) (ty : TokenType) → single b ≡ some ty → operator_type (b ∷ []) ≡ some ty
single-operator_type b ty h = (subst (SingleAgrees b) h (single-SingleAgrees b)).0

pub single-IsLongest :
    (b x : ℕ) (ty : TokenType) → single b ≡ some ty → operator_type (b ∷ x ∷ []) ≡ none
single-IsLongest b x ty h = (subst (SingleAgrees b) h (single-SingleAgrees b)).1 x

-- And that of the operators that may be longer.
abbrev DoubleAgrees : ℕ → Option (ℕ × TokenType × Option TokenType) → Type 0
DoubleAgrees b none = Unit
DoubleAgrees b (some (e, two, one)) =
    (operator_type (b ∷ e ∷ []) ≡ some two)
    × (operator_type (b ∷ []) ≡ one)
    × ((x : ℕ) → (e == x) ≡ false → operator_type (b ∷ x ∷ []) ≡ none)
    × (one ≡ none → (b ≡ b'&') × (e ≡ b'&'))

double_entry :
    (b x e : ℕ) (two : TokenType) (one : Option TokenType)
    (o : Option (ℕ × TokenType × Option TokenType))
    → DoubleAgrees x (some (e, two, one))
    → DoubleAgrees b o
    → DoubleAgrees b (if b == x then some (e, two, one) else o)
double_entry b x e two one o h k =
    if_cases (DoubleAgrees b) (b == x) (λ e. rw ((==_iff b x).0 e) h) (λ _. k)

double-DoubleAgrees : (b : ℕ) → DoubleAgrees b (double b)
unfolding double operator_type find_word eq_bytes
double-DoubleAgrees b =
    double_entry b _ _ _ _ _ (refl, refl, λ x h. rw h refl, λ h. cc)
      (double_entry b _ _ _ _ _ (refl, refl, λ x h. rw h refl, λ h. (refl, refl))
        (double_entry b _ _ _ _ _ (refl, refl, λ x h. rw h refl, λ h. cc)
          (double_entry b _ _ _ _ _ (refl, refl, λ x h. rw h refl, λ h. cc)
            (double_entry b _ _ _ _ _ (refl, refl, λ x h. rw h refl, λ h. cc)
              (double_entry b _ _ _ _ _ (refl, refl, λ x h. rw h refl, λ h. cc)
                (double_entry b _ _ _ _ _ (refl, refl, λ x h. rw h refl, λ h. cc) (tt)))))))

pub double-operator_type :
    (b e : ℕ) (two : TokenType) (one : Option TokenType)
    → double b ≡ some (e, two, one)
    → operator_type (b ∷ e ∷ []) ≡ some two
double-operator_type b e two one h = (subst (DoubleAgrees b) h (double-DoubleAgrees b)).0

pub double-one-operator_type :
    (b e : ℕ) (two ty : TokenType)
    → double b ≡ some (e, two, some ty)
    → operator_type (b ∷ []) ≡ some ty
double-one-operator_type b e two ty h = (subst (DoubleAgrees b) h (double-DoubleAgrees b)).1

pub double-IsLongest :
    (b e x : ℕ) (two : TokenType) (one : Option TokenType)
    → double b ≡ some (e, two, one)
    → (x == e) ≡ false
    → operator_type (b ∷ x ∷ []) ≡ none
double-IsLongest b e x two one h k =
    (subst (DoubleAgrees b) h (double-DoubleAgrees b)).2 x (ground arith)

pub double-ampersand :
    (b e : ℕ) (two : TokenType) → double b ≡ some (e, two, none) → (b ≡ b'&') × (e ≡ b'&')
double-ampersand b e two h = (subst (DoubleAgrees b) h (double-DoubleAgrees b)).3 refl

-- Every operator starts with a byte of one of the two tables.
abbrev IsKnown : ℕ → Type 0
IsKnown b = (single b ≢ none) ⊎ (double b ≢ none)

operators-IsKnown : All (λ (k : Bytes × TokenType). IsKnown (head_or 0 k.0)) operator_spellings
unfolding single double
operators-IsKnown = (
  inl (λ h. cc),
  (
    inl (λ h. cc),
    (
      inl (λ h. cc),
      (
        inl (λ h. cc),
        (
          inl (λ h. cc),
          (
            inl (λ h. cc),
            (
              inl (λ h. cc),
              (
                inl (λ h. cc),
                (
                  inl (λ h. cc),
                  (
                    inl (λ h. cc),
                    (
                      inr (λ h. cc),
                      (
                        inl (λ h. cc),
                        (
                          inl (λ h. cc),
                          (
                            inl (λ h. cc),
                            (
                              inr (λ h. cc),
                              (
                                inr (λ h. cc),
                                (
                                  inr (λ h. cc),
                                  (
                                    inr (λ h. cc),
                                    (
                                      inr (λ h. cc),
                                      (
                                        inr (λ h. cc),
                                        (
                                          inr (λ h. cc),
                                          (
                                            inr (λ h. cc),
                                            (
                                              inr (λ h. cc),
                                              (inr (λ h. cc), (inr (λ h. cc), (inr (λ h. cc), tt))),
                                            ),
                                          ),
                                        ),
                                      ),
                                    ),
                                  ),
                                ),
                              ),
                            ),
                          ),
                        ),
                      ),
                    ),
                  ),
                ),
              ),
            ),
          ),
        ),
      ),
    ),
  ),
)

pub unknown_lem :
    (b : ℕ) (w : Bytes) → single b ≡ none → double b ≡ none → operator_type (b ∷ w) ≡ none
unfolding operator_type
unknown_lem b w h k = elim (Option-cases (operator_type (b ∷ w))) [
  | inl e ↦ e
  | inr (ty, e) ↦
      elim (find_word-both (λ k _. IsKnown (head_or 0 k)) (b ∷ w) operator_spellings ty
        operators-IsKnown e) [ inl f ↦ absurd (f h) | inr f ↦ absurd (f k) ]
]

find_word-long :
    (w : Bytes) (table : List (Bytes × TokenType))
    → All (λ (k : Bytes × TokenType). length k.0 < length w) table
    → find_word w table ≡ none
unfolding find_word
find_word-long w [] a = refl
find_word-long w ((k, t) ∷ rest) (h, a) = elim (Bool-cases (eq_bytes k w)) [
  | inl e ↦ let same = ap length ((eq_bytes_iff k w).0 e) in absurd (omega arith)
  | inr e ↦ rw e (find_word-long w rest a)
]

pub longest_pair : (b e x : ℕ) → operator_type (b ∷ e ∷ x ∷ []) ≡ none
unfolding operator_type
longest_pair b e x = find_word-long (b ∷ e ∷ x ∷ []) operator_spellings (ground arith)
