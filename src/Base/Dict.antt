-- ===== src/Base/Dict.antt =====
-- `std::unordered_map<std::string, V>` as an association list: the order of the entries stands for
-- the order, which the standard leaves open, in which the map is walked.
use mathlib.Core.Path.{◌≡◌, refl}
use mathlib.Core.Bool.{Bool, true, false}
use mathlib.Core.Option.{Option, none, some}
use mathlib.Core.List.{List, [], ◌∷◌}
use native.Mathlib.Omega.{arith}
use vision_pipe.Base.Tests.{if◌then◌else◌}
use vision_pipe.Base.Text.{Bytes, eq_bytes, eq_bytes_iff}

module _ {ℓ} {V : Type ℓ} where
  -- `find`.
  unfoldable pub lookup : Bytes → List (Bytes × V) → Option V
  lookup k [] = none
  lookup k ((j, v) ∷ m) = if eq_bytes j k then some v else lookup k m

  -- `m[k] = v`.
  unfoldable pub insert : Bytes → V → List (Bytes × V) → List (Bytes × V)
  insert k v [] = (k, v) ∷ []
  insert k v ((j, w) ∷ m) = if eq_bytes j k then (j, v) ∷ m else (j, w) ∷ insert k v m

  -- `erase(k)`.
  unfoldable pub erase : Bytes → List (Bytes × V) → List (Bytes × V)
  erase k [] = []
  erase k ((j, w) ∷ m) = if eq_bytes j k then erase k m else (j, w) ∷ erase k m

  -- `count(k) > 0`.
  unfoldable pub has_key : Bytes → List (Bytes × V) → Bool
  unfolding lookup
  has_key k m = elim (lookup k m) [ none ↦ false | some v ↦ true ]

  pub lookup-insert :
      (k j : Bytes) (v : V) (m : List (Bytes × V))
      → lookup j (insert k v m) ≡ (if eq_bytes k j then some v else lookup j m)
  unfolding lookup insert
  lookup-insert k j v [] = refl
  lookup-insert k j v ((i, w) ∷ m) =
      ground (arith, eq_bytes_iff k j, eq_bytes_iff i k, eq_bytes_iff i j, lookup-insert k j v m)

  pub lookup-erase :
      (k j : Bytes) (m : List (Bytes × V))
      → lookup j (erase k m) ≡ (if eq_bytes k j then none else lookup j m)
  unfolding lookup erase
  lookup-erase k j [] = ground arith
  lookup-erase k j ((i, w) ∷ m) =
      ground (arith, eq_bytes_iff k j, eq_bytes_iff i k, eq_bytes_iff i j, lookup-erase k j m)

pub eq_bytes_refl : (k : Bytes) → eq_bytes k k ≡ true
eq_bytes_refl k = (eq_bytes_iff k k).1 refl

module _ {ℓ} {V : Type ℓ} where
  pub lookup-insert_eq :
      (k j : Bytes) (v : V) (m : List (Bytes × V))
      → eq_bytes k j ≡ true
      → lookup j (insert k v m) ≡ some v
  lookup-insert_eq k j v m h = rw (lookup-insert k j v m) (rw h)

  pub lookup-insert_ne :
      (k j : Bytes) (v : V) (m : List (Bytes × V))
      → eq_bytes k j ≡ false
      → lookup j (insert k v m) ≡ lookup j m
  lookup-insert_ne k j v m h = rw (lookup-insert k j v m) (rw h)
