-- ===== src/Lexer/Reads.antt =====
-- Where a scanner leaves the cursor: behind a piece of the source, at the location that the
-- piece's lines and bytes give.
use mathlib.Core.List.{append_assoc}
use vision_pipe.Base.{
  ℕ, ◌+◌, Bool, true, false, [], ◌∷◌, ◌++◌, ◌≡◌, ◌≢◌, refl, sym, ap, ◌∙◌, Bytes, length, Bool-cases,
  inl, inr, length-append, All,
}
use vision_pipe.Lexer.Token.{SourceLocation}
use vision_pipe.Lexer.Spells.{IsBlank}
use vision_pipe.Lexer.Spelled.{collect-All, is_blank-IsBlank}
use vision_pipe.Lexer.Scan.{
  Cursor, pass, advance, current, collect, optional, skip_whitespace, is_blank,
}

-- The location behind the bytes `s`.
abbrev pub locate : Bytes → SourceLocation → SourceLocation
locate [] l = l
locate (b ∷ bs) l = locate bs (pass b l)

pub locate-append : (s t : Bytes) (l : SourceLocation) → locate (s ++ t) l ≡ locate t (locate s l)
locate-append [] t l = refl
locate-append (b ∷ s) t l = locate-append s t (pass b l)

-- From `c` the bytes `s` are read, and `c'` is left.
pub record Reads (c : Cursor) (s : Bytes) (c' : Cursor) : Type 0 where
  pub splits : c.0 ≡ s ++ c'.0
  pub ends : c'.1 ≡ locate s c.1

pub Reads-nil : (c : Cursor) → Reads c [] c
Reads-nil c = record { splits = refl; ends = refl }

pub Reads-cons :
    {b : ℕ} {bs : Bytes} {l : SourceLocation} {s : Bytes} {c' : Cursor}
    → Reads (bs, pass b l) s c'
    → Reads (b ∷ bs, l) (b ∷ s) c'
Reads-cons {b} h = record { splits = ap (◌∷◌ b) h.splits; ends = h.ends }

pub Reads-trans :
    {c c₁ c₂ : Cursor} {s t : Bytes} → Reads c s c₁ → Reads c₁ t c₂ → Reads c (s ++ t) c₂
Reads-trans {c} {c₁} {c₂} {s} {t} h k = record {
  splits = h.splits ∙ ap (λ r. s ++ r) k.splits ∙ sym (append_assoc s t c₂.0);
  ends = k.ends ∙ ap (locate t) h.ends ∙ sym (locate-append s t c.1);
}

pub collect-Reads :
    (p : ℕ → Bool) (bs : Bytes) (l : SourceLocation)
    → Reads (bs, l) (collect p bs l).0 (collect p bs l).1
unfolding collect
collect-Reads p [] l = Reads-nil ([], l)
collect-Reads p (b ∷ bs) l = elim (Bool-cases (p b)) [
  | inl e ↦ rw e (Reads-cons (collect-Reads p bs (pass b l)))
  | inr e ↦ rw e (Reads-nil _)
]

pub advance-Reads :
    (b : ℕ) (bs : Bytes) (l : SourceLocation) → Reads (b ∷ bs, l) (b ∷ []) (advance (b ∷ bs, l))
unfolding advance
advance-Reads b bs l = record { splits = refl; ends = refl }

-- `advance` off the end is excluded by the byte that the test has seen.
pub optional-Reads :
    (t : Bool) (c : Cursor) → (t ≡ true → c.0 ≢ []) → Reads c (optional t c).0 (optional t c).1
unfolding optional
optional-Reads true ([], l) h = absurd (h refl refl)
optional-Reads true (b ∷ bs, l) h = advance-Reads b bs l
optional-Reads false c h = Reads-nil c

-- A byte other than zero is not the zero that stands for the end.
pub current-ne-nil : (b : ℕ) (c : Cursor) → b ≢ 0 → current c ≡ b → c.0 ≢ []
unfolding current
current-ne-nil b ([], l) n e h = n (sym e)
current-ne-nil b (x ∷ xs, l) n e h = cc

pub collect-ne-nil :
    (p : ℕ → Bool) (b : ℕ) (bs : Bytes) (l : SourceLocation)
    → p b ≡ true
    → (collect p (b ∷ bs) l).0 ≢ []
unfolding collect
collect-ne-nil p b bs l h = rw h (λ e. cc)

pub Reads-length : {c c' : Cursor} {s : Bytes} → Reads c s c' → length c.0 ≡ length s + length c'.0
Reads-length {c} {c'} {s} h = ap length h.splits ∙ length-append s c'.0

pub skip_whitespace-Reads :
    (newlines : Bool) (c : Cursor)
    → (s : Bytes) × Reads c s (skip_whitespace newlines c) × All (IsBlank newlines) s
unfolding skip_whitespace
skip_whitespace-Reads newlines c = (
  _,
  collect-Reads (is_blank newlines) c.0 c.1,
  collect-All (is_blank newlines) (IsBlank newlines) (is_blank-IsBlank newlines) c.0 c.1,
)
