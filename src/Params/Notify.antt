-- ===== src/Params/Notify.antt =====
-- Change listeners: who is called, in which order, and that a subscription can be taken back.
use vision_pipe.Base.{
  ℕ, ◌+◌, ◌<◌, ◌≤◌, Bool, false, not, ◌||◌, List, [], ◌∷◌, ◌++◌, ◌≡◌, refl, ◌∙◌, arith, ◌==◌,
  if◌then◌else◌, Bytes, eq_bytes, map, keep, All, All-append,
}
use vision_pipe.Params.Value.{Floats, ParamValue, coerce}
use vision_pipe.Params.Store.{
  Listener, ParameterStore, uint64_mod, declared_type, get, subscribe, unsubscribe, listens,
  notify_listeners, set,
}

keep_concat {ℓ} :
    {A : Type ℓ} (p : A → Bool) (xs : List A) (x : A)
    → p x ≡ false
    → keep p (xs ++ x ∷ []) ≡ keep p xs
keep_concat p [] x h = ground arith
keep_concat p (y ∷ xs) x h = ground (arith, keep_concat p xs x h)

map-keep_concat {ℓ κ} :
    {A : Type ℓ} {B : Type κ} (f : A → B) (p : A → Bool) (xs : List A) (x : A)
    → map f (keep p (xs ++ x ∷ [])) ≡ map f (keep p xs) ++ (if p x then f x ∷ [] else [])
map-keep_concat f p [] x = ground arith
map-keep_concat f p (y ∷ xs) x = ground (arith, map-keep_concat f p xs x)

module _ {D Cb : Type 0} (fl : Floats D) where
  -- After a subscription, `set` makes the calls that it made before, and behind them a call of the
  -- new callback, if that listens to all parameters or to this one.
  pub set-subscribe :
      (n m : Bytes) (cb : Cb) (v : ParamValue D) (st : ParameterStore D Cb)
      → (set fl n v (subscribe m cb st).1).1
        ≡ (set fl n v st).1
          ++ (if eq_bytes m [] || eq_bytes m n
              then (
                cb,
                record {
                  name = n;
                  old_value = get n st;
                  new_value = coerce fl (declared_type n st) v;
                },
              )
                ∷ []
              else [])
  unfolding set subscribe notify_listeners get declared_type listens
  set-subscribe n m cb v st = map-keep_concat _ (listens n) st.listeners _

-- Every listener's id is below the next one.
abbrev pub IdsBelow : {D Cb : Type 0} → ParameterStore D Cb → Type 0
IdsBelow st = All (λ l. l.id < st.next_listener_id) st.listeners

keep_others :
    {Cb : Type 0} (id : ℕ) (ls : List (Listener Cb))
    → All (λ l. l.id < id) ls
    → keep (λ l. not (l.id == id)) ls ≡ ls
keep_others id [] a = refl
keep_others id (l ∷ ls) a = ground (arith, keep_others id ls a.1)

-- Taking back the subscription that was just made leaves exactly the listeners that there were, if
-- all their ids are below the next one.
pub unsubscribe-subscribe :
    {D Cb : Type 0} (m : Bytes) (cb : Cb) (st : ParameterStore D Cb)
    → IdsBelow st
    → (let r = subscribe m cb st in (unsubscribe r.0 r.1).listeners) ≡ st.listeners
unfolding subscribe unsubscribe
unsubscribe-subscribe m cb st h =
    keep_concat (λ l. not (l.id == st.next_listener_id)) st.listeners _ (ground arith)
    ∙ keep_others st.next_listener_id st.listeners h

All-mono_id :
    {Cb : Type 0} (a b : ℕ) (ls : List (Listener Cb))
    → a ≤ b
    → All (λ l. l.id < a) ls
    → All (λ l. l.id < b) ls
All-mono_id a b [] h k = tt
All-mono_id a b (l ∷ ls) h k = (omega arith, All-mono_id a b ls h k.1)

-- `subscribe` keeps every listener's id below the next one, as long as the counter does not wrap.
pub subscribe-IdsBelow :
    {D Cb : Type 0} (m : Bytes) (cb : Cb) (st : ParameterStore D Cb)
    → st.next_listener_id + 1 < uint64_mod
    → IdsBelow st
    → IdsBelow (subscribe m cb st).1
unfolding subscribe
subscribe-IdsBelow m cb st w h =
    All-append _ st.listeners _ (All-mono_id st.next_listener_id _ st.listeners (omega arith) h)
      (omega arith, tt)
