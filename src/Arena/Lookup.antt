-- ===== src/Arena/Lookup.antt =====
-- How `findSlot` of src/utils/shm_zero_copy.cpp sees the slots that a claim or a write has changed.
use mathlib.Core.Option.{some-injective}
use vision_pipe.Base.{
  ℕ, zero, suc, Bool, true, false, List, [], ◌∷◌, Option, none, some, ◌≡◌, refl, sym, ap, ◌∙◌,
  arith, ◌==◌, if◌then◌else◌, Bytes, eq_bytes, eq_bytes_iff, All, Bool-cases, Option-cases, inl,
  inr, ◌⊎◌,
}
use vision_pipe.Base.Dict.{eq_bytes_refl}
use vision_pipe.Arena.Slots.{
  ShmSlotHeader, c_prefix, name_size, slot_key, is_ready, find_slot, claim_slot, update_slot,
}

c_prefix_idem : (n : ℕ) (bs : Bytes) → c_prefix n (c_prefix n bs) ≡ c_prefix n bs
unfolding c_prefix
c_prefix_idem zero bs = refl
c_prefix_idem (suc n) [] = refl
c_prefix_idem (suc n) (b ∷ bs) = elim (Bool-cases (b == 0)) [
  | inl h ↦ rw h refl
  | inr h ↦ rw (h, h) (ap (λ x. b ∷ x) (c_prefix_idem n bs))
]

pub slot_key_idem : (name : Bytes) → slot_key (slot_key name) ≡ slot_key name
unfolding slot_key
slot_key_idem name = c_prefix_idem name_size name

-- What `strncmp` tells apart.
unfoldable pub same_key : Bytes → Bytes → Bool
same_key a b = eq_bytes (slot_key a) (slot_key b)

pub same_key-keys : (a b : Bytes) → same_key a b ≡ true → slot_key a ≡ slot_key b
unfolding same_key
same_key-keys a b h = (eq_bytes_iff (slot_key a) (slot_key b)).0 h

same_key_refl : (a : Bytes) → same_key a a ≡ true
unfolding same_key
same_key_refl a = eq_bytes_refl (slot_key a)

-- A write through the pointer leaves the slot's name and state.
pub record IsKept (f : ShmSlotHeader → ShmSlotHeader) : Type 0 where
  pub actives : (s : ShmSlotHeader) → (f s).active ≡ s.active
  pub names : (s : ShmSlotHeader) → (f s).name ≡ s.name

is_ready-kept :
    (f : ShmSlotHeader → ShmSlotHeader)
    → IsKept f
    → (name : Bytes) (s : ShmSlotHeader) → is_ready name (f s) ≡ is_ready name s
unfolding is_ready
is_ready-kept f k name s = rw (k.actives s, k.names s) refl

is_ready-same :
    (a b : Bytes) (s : ShmSlotHeader)
    → is_ready a s ≡ true
    → same_key a b ≡ false
    → is_ready b s ≡ false
unfolding is_ready same_key
is_ready-same a b s h k = ground (
  arith,
  eq_bytes_iff (slot_key s.name) (slot_key a),
  eq_bytes_iff (slot_key s.name) (slot_key b),
  eq_bytes_iff (slot_key a) (slot_key b),
)

pub find_slot-here :
    (name : Bytes) (s : ShmSlotHeader) (slots : List ShmSlotHeader)
    → is_ready name s ≡ true
    → find_slot name (s ∷ slots) ≡ some s
unfolding find_slot
find_slot-here name s slots h = rw (find_slot, h) refl

pub find_slot-later :
    (name : Bytes) (s : ShmSlotHeader) (slots : List ShmSlotHeader)
    → is_ready name s ≡ false
    → find_slot name (s ∷ slots) ≡ find_slot name slots
unfolding find_slot
find_slot-later name s slots h = rw (find_slot, h) refl

abbrev map_slot : (ShmSlotHeader → ShmSlotHeader) → Option ShmSlotHeader → Option ShmSlotHeader
map_slot f none = none
map_slot f (some s) = some (f s)

pub find_slot-update :
    (f : ShmSlotHeader → ShmSlotHeader)
    → IsKept f
    → (name : Bytes) (slots : List ShmSlotHeader) (s : ShmSlotHeader)
    → find_slot name slots ≡ some s
    → find_slot name (update_slot name f slots) ≡ some (f s)
unfolding find_slot update_slot
find_slot-update f k name [] s h = cc
find_slot-update f k name (t ∷ slots) s h = elim (Bool-cases (is_ready name t)) [
  | inl r ↦
      let kept : is_ready name (f t) ≡ true = is_ready-kept f k name t ∙ r in
      let first : some t ≡ some s = sym (find_slot-here name t slots r) ∙ h in
      rw (r, kept) (ap (map_slot f) first)
  | inr r ↦
      let later = sym (find_slot-later name t slots r) ∙ h in
      rw (r, r) (find_slot-update f k name slots s later)
]

pub find_slot-update_other :
    (f : ShmSlotHeader → ShmSlotHeader)
    → IsKept f
    → (name other : Bytes) (slots : List ShmSlotHeader) → same_key name other ≡ false
    → find_slot other (update_slot name f slots) ≡ find_slot other slots
unfolding find_slot update_slot
find_slot-update_other f k name other [] d = refl
find_slot-update_other f k name other (t ∷ slots) d = elim (Bool-cases (is_ready name t)) [
  | inl h ↦
      let miss = is_ready-same name other t h d in
      let kept : is_ready other (f t) ≡ false = is_ready-kept f k other t ∙ miss in
      rw (h, kept, miss) refl
  | inr h ↦ rw (h, find_slot-update_other f k name other slots d) refl
]

is_ready-free : (name : Bytes) (s : ShmSlotHeader) → s.active ≡ 0 → is_ready name s ≡ false
unfolding is_ready
is_ready-free name s h = rw h refl

-- The slot that a claim takes.
unfoldable pub claimed : Bytes → ShmSlotHeader → ShmSlotHeader
unfolding slot_key
claimed name s = record s { active = 2; name = slot_key name }

is_ready-claimed :
    (name other : Bytes) (s : ShmSlotHeader) → is_ready other (claimed name s) ≡ same_key name other
unfolding is_ready claimed same_key
is_ready-claimed name other s = rw (slot_key_idem name) refl

claim_slot-nil : (name : Bytes) (slots : List ShmSlotHeader) → claim_slot name [] ≡ some slots → ⊥
unfolding claim_slot
claim_slot-nil name slots h = ground arith

find_slot-tail :
    (name : Bytes) (s : ShmSlotHeader) (xs ys : List ShmSlotHeader)
    → find_slot name xs ≡ find_slot name ys
    → find_slot name (s ∷ xs) ≡ find_slot name (s ∷ ys)
unfolding find_slot
find_slot-tail name s xs ys e = ap (λ r. if is_ready name s then some s else r) e

pub claim_slot-here :
    (name : Bytes) (s : ShmSlotHeader) (slots : List ShmSlotHeader)
    → (s.active == 0) ≡ true
    → claim_slot name (s ∷ slots) ≡ some (claimed name s ∷ slots)
unfolding claim_slot claimed
claim_slot-here name s slots h = rw (claim_slot, h) refl

pub claim_slot-later :
    (name : Bytes) (s : ShmSlotHeader) (slots : List ShmSlotHeader)
    (o : Option (List ShmSlotHeader))
    → (s.active == 0) ≡ false
    → claim_slot name slots ≡ o
    → claim_slot name (s ∷ slots) ≡ (elim o [ none ↦ none | some rest ↦ some (s ∷ rest) ])
unfolding claim_slot
claim_slot-later name s slots o h e = rw (claim_slot, h, e) refl

claim_slot-cases :
    (name : Bytes) (s : ShmSlotHeader) (slots slots' : List ShmSlotHeader)
    → claim_slot name (s ∷ slots) ≡ some slots'
    → ((s.active ≡ 0) × (slots' ≡ claimed name s ∷ slots))
      ⊎ ((rest : List ShmSlotHeader) × (claim_slot name slots ≡ some rest) × (slots' ≡ s ∷ rest))
claim_slot-cases name s slots slots' h = elim (Bool-cases (s.active == 0)) [
  | inl z ↦
      let e = sym (claim_slot-here name s slots z) ∙ h in
      inl (ground arith, sym (some-injective (claimed name s ∷ slots) slots' e))
  | inr z ↦ elim (Option-cases (claim_slot name slots)) [
    | inl n ↦
        let e : none ≡ some slots' = sym (claim_slot-later name s slots none z n) ∙ h in
        absurd (ground arith)
    | inr (rest, r) ↦
        let e = sym (claim_slot-later name s slots (some rest) z r) ∙ h in
        inr (rest, r, sym (some-injective (s ∷ rest) slots' e))
  ]
]

find_slot-none :
    (name : Bytes) (s : ShmSlotHeader) (slots : List ShmSlotHeader)
    → find_slot name (s ∷ slots) ≡ none
    → (is_ready name s ≡ false) × (find_slot name slots ≡ none)
find_slot-none name s slots h = elim (Bool-cases (is_ready name s)) [
  | inl r ↦ let e : none ≡ some s = sym h ∙ find_slot-here name s slots r in absurd (ground arith)
  | inr r ↦ (r, sym (find_slot-later name s slots r) ∙ h)
]

pub find_slot-claim {κ} :
    (P : ShmSlotHeader → Type κ) (name : Bytes) (slots slots' : List ShmSlotHeader)
    → find_slot name slots ≡ none
    → claim_slot name slots ≡ some slots'
    → All P slots
    → (s : ShmSlotHeader) × (find_slot name slots' ≡ some (claimed name s)) × (s.active ≡ 0) × P s
find_slot-claim P name [] slots' n c p = absurd (claim_slot-nil name slots' c)
find_slot-claim P name (s ∷ slots) slots' n c p = elim (claim_slot-cases name s slots slots' c) [
  | inl (z, e) ↦
      let ready : is_ready name (claimed name s) ≡ true =
        is_ready-claimed name name s ∙ same_key_refl name in
      (s, rw e (find_slot-here name (claimed name s) slots ready), z, p.0)
  | inr (rest, r, e) ↦
      let (miss, later) = find_slot-none name s slots n in
      let (t, f, z, q) = find_slot-claim P name slots rest later r p.1 in
      (t, rw e (find_slot-later name s rest miss ∙ f), z, q)
]

pub find_slot-claim_other :
    (name other : Bytes) (slots slots' : List ShmSlotHeader)
    → same_key name other ≡ false
    → claim_slot name slots ≡ some slots'
    → find_slot other slots' ≡ find_slot other slots
find_slot-claim_other name other [] slots' d c = absurd (claim_slot-nil name slots' c)
find_slot-claim_other name other (s ∷ slots) slots' d c =
    elim (claim_slot-cases name s slots slots' c) [
      | inl (z, e) ↦
          let miss : is_ready other (claimed name s) ≡ false = is_ready-claimed name other s ∙ d in
          rw e (
            find_slot-later other (claimed name s) slots miss
            ∙ sym (find_slot-later other s slots (is_ready-free other s z)))
      | inr (rest, r, e) ↦
          rw e (find_slot-tail other s rest slots (find_slot-claim_other name other slots rest d r))
    ]
