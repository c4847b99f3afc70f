-- ===== src/Params/Newline.antt =====
-- `find('\n')` of src/interpreter/param_server.cpp, byte by byte.
use vision_pipe.Base.{
  ℕ, ◌<◌, true, false, [], ◌∷◌, ◌++◌, none, some, ◌≡◌, refl, arith, ◌==◌, Bytes, length, Bool-cases,
  Option-cases, inl, inr, ◌⊎◌,
}
use vision_pipe.Params.Session.{find_newline}

pub find_newline-length : (bs l r : Bytes) → find_newline bs ≡ some (l, r) → length r < length bs
unfolding find_newline
find_newline-length [] l r e = cc
find_newline-length (b ∷ bs) l r e = elim (Option-cases (find_newline bs)) [
  | inl k ↦ ground arith
  | inr ((l', r'), k) ↦ ground (arith, find_newline-length bs l' r')
]

pub find_newline-none :
    (b : ℕ) (bs : Bytes)
    → find_newline (b ∷ bs) ≡ none
    → ((b == b'\n') ≡ false) × (find_newline bs ≡ none)
unfolding find_newline
find_newline-none b bs e = ground arith

pub find_newline-some :
    (b : ℕ) (bs l r : Bytes)
    → find_newline (b ∷ bs) ≡ some (l, r)
    → ((b == b'\n') ≡ true) × (l ≡ []) × (r ≡ bs)
      ⊎ ((b == b'\n') ≡ false) × ((l' : Bytes) × (l ≡ b ∷ l') × (find_newline bs ≡ some (l', r)))
unfolding find_newline
find_newline-some b bs l r e = elim (Bool-cases (b == b'\n')) [
  | inl h ↦ inl (h, ground arith, ground arith)
  | inr h ↦ elim (Option-cases (find_newline bs)) [
    | inl k ↦ inr (h, ground arith)
    | inr ((l', r'), k) ↦ inr (h, (l', ground arith, ground arith))
  ]
]

pub find_newline-snoc :
    (b : ℕ) (bs : Bytes)
    → (b == b'\n') ≡ false
    → find_newline bs ≡ none
    → find_newline (bs ++ b ∷ []) ≡ none
unfolding find_newline
find_newline-snoc b [] e n = ground arith
find_newline-snoc b (x ∷ bs) e n =
    let (hx, hbs) = find_newline-none x bs n in
    let rest = find_newline-snoc b bs e hbs in rw (hx, rest) refl
