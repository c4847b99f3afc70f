-- ===== src/Arena/Follows.antt =====
-- The order of the arena's states under the writes of src/utils/shm_zero_copy.cpp.
use mathlib.Core.Option.{some-injective}
use vision_pipe.Base.{
  ℕ, ◌≤◌, true, false, List, [], ◌∷◌, Option, none, some, ◌≡◌, ◌≢◌, refl, sym, ap, ◌∙◌, arith,
  Bytes, All, Bool-cases, Option-cases, inl, inr,
}
use vision_pipe.Mats.{Mats, IsLawful}
use vision_pipe.Arena.Slots.{ShmSlotHeader, slot_key, is_ready, find_slot}
use vision_pipe.Arena.Frames.{ShmArena, shm_arena_write, shm_arena_read, shm_arena_get_seq}
use vision_pipe.Arena.Lookup.{same_key, same_key-keys}
use vision_pipe.Arena.Laws.{
  IsSlot, seq_of, Refused, Written, shm_arena_write-cases, create_slot_found,
  shm_arena_get_seq-found, find-read, write-find_other, write-read,
}

find_slot-same_key :
    (a b : Bytes) (slots : List ShmSlotHeader)
    → slot_key a ≡ slot_key b
    → find_slot a slots ≡ find_slot b slots
unfolding find_slot is_ready
find_slot-same_key a b [] e = refl
find_slot-same_key a b (s ∷ slots) e = rw (e, find_slot-same_key a b slots e) refl

seq_none : {x : Option ShmSlotHeader} → x ≡ none → seq_of x ≡ 0
unfolding seq_of
seq_none e = ap seq_of e

module _ {M : Type 0} (o : Mats M) where
  -- No name's number goes back, and as long as it stays what is read stays.
  pub record Follows (a b : ShmArena) (id : Bytes) : Type 0 where
    pub grows : shm_arena_get_seq id a ≤ shm_arena_get_seq id b
    pub keeps :
        shm_arena_get_seq id a ≢ 0
        → shm_arena_get_seq id b ≡ shm_arena_get_seq id a
        → shm_arena_read o id b ≡ shm_arena_read o id a

  pub same_find-Follows :
      (a b : ShmArena) (id : Bytes) → find_slot id b.slots ≡ find_slot id a.slots → Follows a b id
  same_find-Follows a b id e =
      let seq = shm_arena_get_seq-found id b ∙ ap seq_of e ∙ sym (shm_arena_get_seq-found id a) in
      record { grows = omega (arith, seq); keeps = λ nonzero same. find-read o id id b a e }

  write-find_failed :
      (name : Bytes) (frame : M) (now : ℕ) (a : ShmArena) (s : ShmSlotHeader)
      → (shm_arena_write o name frame now a).0 ≡ false
      → find_slot name a.slots ≡ some s
      → find_slot name (shm_arena_write o name frame now a).1.slots ≡ some s
  unfolding Refused Written
  write-find_failed name frame now a s failed f = elim (shm_arena_write-cases o name frame now a) [
    | inl (inl r) ↦ ap (λ x. find_slot name x.1.slots) r ∙ f
    | inl (inr (slots, c, r)) ↦
        let same = some-injective a.slots slots (sym (create_slot_found name a.slots s f) ∙ c) in
        ap (λ x. find_slot name x.1.slots) r ∙ ap (find_slot name) (sym same) ∙ f
    | inr (slots, c, e, r) ↦
        let bad : false ≡ true = sym failed ∙ ap (λ x. x.0) r in absurd (ground arith)
  ]

  write-Follows_name :
      (name : Bytes) (frame : M) (now : ℕ) (a : ShmArena)
      → IsLawful o
      → All IsSlot a.slots
      → Follows a (shm_arena_write o name frame now a).1 name
  write-Follows_name name frame now a l p =
      elim (Bool-cases (shm_arena_write o name frame now a).0) [
        | inl ok ↦
            let (r, q) = write-read o name frame now a l p ok in
            record {
              grows = omega (arith, q);
              keeps = λ nonzero same. absurd (omega (arith, q, same));
            }
        | inr failed ↦ elim (Option-cases (find_slot name a.slots)) [
          | inl n ↦
              let zero_seq : shm_arena_get_seq name a ≡ 0 =
                shm_arena_get_seq-found name a ∙ seq_none n in
              record {
                grows = omega (arith, zero_seq);
                keeps = λ nonzero same. absurd (nonzero zero_seq);
              }
          | inr (s, f) ↦
              same_find-Follows a (shm_arena_write o name frame now a).1 name
                (write-find_failed name frame now a s failed f ∙ sym f)
        ]
      ]

  alias-Follows :
      (a b : ShmArena) (name id : Bytes)
      → find_slot id a.slots ≡ find_slot name a.slots
      → find_slot id b.slots ≡ find_slot name b.slots
      → Follows a b name
      → Follows a b id
  alias-Follows a b name id x y f =
      let seq_a =
        shm_arena_get_seq-found id a ∙ ap seq_of x ∙ sym (shm_arena_get_seq-found name a) in
      let seq_b =
        shm_arena_get_seq-found id b ∙ ap seq_of y ∙ sym (shm_arena_get_seq-found name b) in
      record {
        grows = (let g = f.grows in omega (arith, seq_a, seq_b, g));
        keeps = λ nonzero same.
            find-read o id name b b y
            ∙ f.keeps (λ z. nonzero (seq_a ∙ z)) (sym seq_b ∙ same ∙ seq_a)
            ∙ sym (find-read o id name a a x);
      }

  -- On every lawful Mat type, and on an arena whose free slots are unwritten and whose sequence
  -- numbers do not wrap with the next write: no write, whether it succeeds or not, lowers a name's
  -- sequence number, and a name that has been written and keeps its number is read as before; names
  -- that share a slot included.
  pub write-Follows :
      (name id : Bytes) (frame : M) (now : ℕ) (a : ShmArena)
      → IsLawful o
      → All IsSlot a.slots
      → Follows a (shm_arena_write o name frame now a).1 id
  write-Follows name id frame now a l p = elim (Bool-cases (same_key name id)) [
    | inl k ↦
        let b = (shm_arena_write o name frame now a).1 in
        let keys = sym (same_key-keys name id k) in
        alias-Follows a b name id (find_slot-same_key id name a.slots keys)
          (find_slot-same_key id name b.slots keys) (write-Follows_name name frame now a l p)
    | inr d ↦
        same_find-Follows a (shm_arena_write o name frame now a).1 id
          (write-find_other o name id frame now a d)
  ]
