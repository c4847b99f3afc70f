-- ===== src/Base/Decimal.antt =====
-- `int64_t` values as integers, `std::to_string` and `std::stoll` on them.
use Prim.Native.Nat.{ℕ, zero, suc, ◌+◌, ◌-◌, ◌*◌, ◌/◌, ◌%◌, ◌<◌}
use mathlib.Core.Path.{◌≡◌, refl, sym, ap, ◌∙◌}
use mathlib.Core.Logic.{inl, inr}
use mathlib.Core.Bool.{Bool, true, false, ◌&&◌, ◌||◌}
use mathlib.Core.Option.{Option, none, some}
use mathlib.Core.List.{[], ◌∷◌, ◌++◌, append_assoc}
use native.Mathlib.Omega.{arith}
use vision_pipe.Base.Tests.{if◌then◌else◌, ltb, leb, ◌==◌, Bool-cases}
use vision_pipe.Base.Text.{Bytes}

-- `negsuc n` is -(n + 1).
pub data ℤ : Type 0 where
  pos : ℕ → ℤ
  negsuc : ℕ → ℤ

-- 2 ^ 63.
abbrev pub int64_half : ℕ
int64_half = 9223372036854775808

abbrev pub IsInt64 : ℤ → Type 0
IsInt64 (pos n) = n < int64_half
IsInt64 (negsuc n) = n < int64_half

abbrev is_digit : ℕ → Bool
is_digit c = leb b'0' c && leb c b'9'

-- The digits of `n`; the first argument bounds their number.
unfoldable pub show_digits : ℕ → ℕ → Bytes
show_digits zero n = []
show_digits (suc fuel) n =
    let rest = show_digits fuel (n / 10) in
    if ltb n 10 then (b'0' + n) ∷ [] else rest ++ (b'0' + n % 10) ∷ []

unfoldable pub show_nat : ℕ → Bytes
show_nat n = show_digits (suc n) n

unfoldable pub to_string : ℤ → Bytes
to_string (pos n) = show_nat n
to_string (negsuc n) = b'-' ∷ show_nat (suc n)

-- The value of the digits in front, on top of `acc`, and what is left.
read_digits : ℕ → Bytes → ℕ × Bytes
read_digits acc [] = (acc, [])
read_digits acc (b ∷ bs) =
    let rest = read_digits (acc * 10 + (b - b'0')) bs in if is_digit b then rest else (acc, b ∷ bs)

is_space : ℕ → Bool
is_space c = c == b' ' || (leb 9 c && leb c 13)

skip_spaces : Bytes → Bytes
skip_spaces [] = []
skip_spaces (b ∷ bs) = if is_space b then skip_spaces bs else b ∷ bs

-- `none` for a value that does not fit: the exception out_of_range.
in_range : Bool → ℕ × Bytes → Option (ℤ × Bytes)
in_range false (n, rest) = if ltb n int64_half then some (pos n, rest) else none
in_range true (zero, rest) = some (pos 0, rest)
in_range true (suc n, rest) = if ltb n int64_half then some (negsuc n, rest) else none

-- Behind the sign there must be a digit, or the exception is invalid_argument.
read_signed : Bool → Bytes → Option (ℤ × Bytes)
unfolding read_digits in_range
read_signed minus [] = none
read_signed minus (b ∷ bs) = if is_digit b then in_range minus (read_digits 0 (b ∷ bs)) else none

read_sign : Bytes → Option (ℤ × Bytes)
unfolding read_signed
read_sign [] = none
read_sign (b ∷ bs) =
    if b == b'-'
    then read_signed true bs
    else if b == b'+'
    then read_signed false bs
    else read_signed false (b ∷ bs)

-- `std::stoll`: the value, and the bytes that it did not read; `none` for its exceptions.
unfoldable pub stoll : Bytes → Option (ℤ × Bytes)
unfolding skip_spaces read_sign is_space
stoll s = read_sign (skip_spaces s)

-- What stops the reading of a number.
abbrev pub Stops : Bytes → Type 0
Stops [] = Unit
Stops (b ∷ bs) = is_digit b ≡ false

read_stop : (n : ℕ) (rest : Bytes) → Stops rest → read_digits n rest ≡ (n, rest)
unfolding read_digits
read_stop n [] h = refl
read_stop n (b ∷ bs) h = rw h

read_digit :
    (acc d : ℕ) (rest : Bytes)
    → d < 10
    → read_digits acc ((b'0' + d) ∷ rest) ≡ read_digits (acc * 10 + d) rest
unfolding read_digits
read_digit acc d rest h = ground (arith)

read-show :
    (fuel n : ℕ) (rest : Bytes)
    → n < fuel
    → read_digits 0 (show_digits fuel n ++ rest) ≡ read_digits n rest
unfolding show_digits
read-show zero n rest h = absurd (omega arith)
read-show (suc fuel) n rest h = elim (Bool-cases (ltb n 10)) [
  | inl e ↦ rw e (read_digit 0 n rest (ground arith) ∙ ap (λ k. read_digits k rest) (omega arith))
  | inr e ↦
      rw (e, append_assoc)
        (read-show fuel (n / 10) ((b'0' + n % 10) ∷ rest) (ground arith)
          ∙ read_digit (n / 10) (n % 10) rest (omega arith)
          ∙ ap (λ k. read_digits k rest) (omega arith))
]

-- The digits of a number begin with a digit.
show_first :
    (fuel n : ℕ) (rest : Bytes)
    → n < fuel
    → (b : ℕ) × (bs : Bytes) × (is_digit b ≡ true) × (show_digits fuel n ++ rest ≡ b ∷ bs)
unfolding show_digits
show_first zero n rest h = absurd (omega arith)
show_first (suc fuel) n rest h = elim (Bool-cases (ltb n 10)) [
  | inl e ↦ rw e (b'0' + n, rest, ground arith, refl)
  | inr e ↦ rw (e, append_assoc) (show_first fuel (n / 10) ((b'0' + n % 10) ∷ rest) (ground arith))
]

show_nat_lem : (n : ℕ) → show_nat n ≡ show_digits (suc n) n
unfolding show_nat
show_nat_lem n = refl

pub show_nat_first :
    (n : ℕ) (rest : Bytes)
    → (b : ℕ) × (bs : Bytes) × (is_digit b ≡ true) × (show_nat n ++ rest ≡ b ∷ bs)
show_nat_first n rest = rw (show_nat_lem n) (show_first (suc n) n rest (omega arith))

signed_digit :
    (minus : Bool) (b : ℕ) (bs : Bytes)
    → is_digit b ≡ true
    → read_signed minus (b ∷ bs) ≡ in_range minus (read_digits 0 (b ∷ bs))
unfolding read_signed
signed_digit minus b bs d = ground arith

signed-show :
    (minus : Bool) (n : ℕ) (rest : Bytes)
    → Stops rest
    → read_signed minus (show_nat n ++ rest) ≡ in_range minus (n, rest)
signed-show minus n rest h =
    let (b, bs, d, e) = show_nat_first n rest in
    ap (read_signed minus) e
    ∙ signed_digit minus b bs d
    ∙ ap (λ t. in_range minus (read_digits 0 t)) (sym e ∙ ap (λ t. t ++ rest) (show_nat_lem n))
    ∙ ap (in_range minus) (read-show (suc n) n rest (omega arith) ∙ read_stop n rest h)

in_range_pos :
    (n : ℕ) (rest : Bytes) → n < int64_half → in_range false (n, rest) ≡ some (pos n, rest)
unfolding in_range
in_range_pos n rest h = ground arith

in_range_neg :
    (n : ℕ) (rest : Bytes) → n < int64_half → in_range true (suc n, rest) ≡ some (negsuc n, rest)
unfolding in_range
in_range_neg n rest h = ground arith

-- At a digit there is no space to skip and no sign to read.
stoll_digit : (b : ℕ) (bs : Bytes) → is_digit b ≡ true → stoll (b ∷ bs) ≡ read_signed false (b ∷ bs)
unfolding stoll
stoll_digit b bs d = ground arith

stoll_minus : (bs : Bytes) → stoll (b'-' ∷ bs) ≡ read_signed true bs
unfolding stoll
stoll_minus bs = refl

-- `std::stoll` reads back what `std::to_string` writes, up to a byte that is no digit.
pub stoll-to_string :
    (i : ℤ) (rest : Bytes) → IsInt64 i → Stops rest → stoll (to_string i ++ rest) ≡ some (i, rest)
unfolding to_string
stoll-to_string (pos n) rest h k =
    let (b, bs, d, e) = show_nat_first n rest in
    ap stoll e
    ∙ stoll_digit b bs d
    ∙ ap (read_signed false) (sym e)
    ∙ signed-show false n rest k
    ∙ in_range_pos n rest h
stoll-to_string (negsuc n) rest h k =
    stoll_minus (show_nat (suc n) ++ rest) ∙ signed-show true (suc n) rest k ∙ in_range_neg n rest h
