-- ===== src/Params/Laws.antt =====
-- What the parameter store keeps: the values under their names, and the declared types.
use mathlib.Core.Option.{some-injective}
use vision_pipe.Base.{
  subst, ℕ, true, List, [], ◌∷◌, Option, none, some, ◌≡◌, ◌⊎◌, inl, inr, refl, sym, ap, ◌∙◌, arith,
  if◌then◌else◌, Bytes, eq_bytes, eq_bytes_iff, All, Bool-cases,
}
use vision_pipe.Base.Dict.{lookup, lookup-insert, lookup-insert_eq, lookup-insert_ne}
use vision_pipe.Params.Value.{ParamType, Floats, ParamValue, null_value, coerce}
use vision_pipe.Params.Store.{
  ParamDescriptor, ParameterStore, empty_store, same_param_type, declared_type, get, subscribe,
  unsubscribe, declared_value, declare, set, set_from_string,
}

module _ {D Cb : Type 0} (fl : Floats D) where
  -- After `set` the parameter has the value, coerced to the type that it was declared with, and
  -- every other parameter has the value that it had.
  pub get-set :
      (n m : Bytes) (v : ParamValue D) (st : ParameterStore D Cb)
      → get m (set fl n v st).0
        ≡ (if eq_bytes n m then coerce fl (declared_type n st) v else get m st)
  unfolding get set
  get-set n m v st = ground (arith, lookup-insert n m (coerce fl (declared_type n st) v) st.values)

-- A value agrees with a declared type if it has that type, or is null (declared with no default),
-- or the type is unknown.
abbrev pub Agrees : {D : Type 0} → ParamType → ParamValue D → Type 0
Agrees ty v = (ty ≡ ParamType.unknown) ⊎ (v.type ≡ ty) ⊎ (v ≡ null_value)

coerce-Agrees :
    {D : Type 0} (fl : Floats D) (ty : ParamType) (v : ParamValue D) → Agrees ty (coerce fl ty v)
unfolding coerce
coerce-Agrees fl ParamType.unknown v = inl refl
coerce-Agrees fl ParamType.int v = inr (inl refl)
coerce-Agrees fl ParamType.float v = inr (inl refl)
coerce-Agrees fl ParamType.string v = inr (inl refl)
coerce-Agrees fl ParamType.bool v = inr (inl refl)

same_param_type-eq : (s t : ParamType) → same_param_type s t ≡ true → s ≡ t
unfolding same_param_type
same_param_type-eq s t h = ground arith

declared_value-Agrees :
    {D : Type 0} (fl : Floats D) (ty : ParamType) (v : ParamValue D) (o : Option (ParamValue D))
    → Agrees ty v
    → Agrees ty (declared_value fl ty v o)
unfolding declared_value
declared_value-Agrees fl ty v none h = h
declared_value-Agrees fl ty v (some w) h = elim (Bool-cases (same_param_type w.type ty)) [
  | inl e ↦ rw e (inr (inl (same_param_type-eq w.type ty e)))
  | inr e ↦ rw e (coerce-Agrees fl ty w)
]

-- Every declared parameter has a value that agrees with its type.
pub record IsTyped {D Cb : Type 0} (st : ParameterStore D Cb) : Type 0 where
  pub has_value :
      (n : Bytes) (d : ParamDescriptor D)
      → lookup n st.descriptors ≡ some d
      → (v : ParamValue D) × (lookup n st.values ≡ some v) × Agrees d.type v

-- One call on the store by a client.
pub data Call (D Cb : Type 0) : Type 0 where
  declares : Bytes → ParamType → ParamValue D → Call D Cb
  sets : Bytes → ParamValue D → Call D Cb
  sets_text : Bytes → Bytes → Call D Cb
  subscribes : Bytes → Cb → Call D Cb
  unsubscribes : ℕ → Call D Cb

-- What `registerPipelines` passes as the default: nothing, or a value of the declared type.
abbrev pub IsWellDeclared : {D Cb : Type 0} → Call D Cb → Type 0
IsWellDeclared (declares n ty v) = Agrees ty v
IsWellDeclared _ = Unit

module _ {D Cb : Type 0} (fl : Floats D) where
  unfoldable pub step : Call D Cb → ParameterStore D Cb → ParameterStore D Cb
  step (declares n ty v) st = declare fl n ty v st
  step (sets n v) st = (set fl n v st).0
  step (sets_text n raw) st = (set_from_string fl n raw st).0
  step (subscribes n cb) st = (subscribe n cb st).1
  step (unsubscribes id) st = unsubscribe id st

  unfoldable pub run : List (Call D Cb) → ParameterStore D Cb → ParameterStore D Cb
  unfolding step
  run [] st = st
  run (c ∷ cs) st = run cs (step c st)

  declared_type-lookup :
      (n m : Bytes) (d : ParamDescriptor D) (st : ParameterStore D Cb)
      → eq_bytes n m ≡ true
      → lookup m st.descriptors ≡ some d
      → declared_type n st ≡ d.type
  unfolding declared_type
  declared_type-lookup n m d st k e =
      let e' : lookup n st.descriptors ≡ some d =
        ap (λ j. lookup j st.descriptors) ((eq_bytes_iff n m).0 k) ∙ e in
      rw (e', declared_type)

  set-IsTyped :
      (n : Bytes) (v : ParamValue D) (st : ParameterStore D Cb)
      → IsTyped st
      → IsTyped (set fl n v st).0
  unfolding set
  set-IsTyped n v st h = record {
    has_value = λ m d e. elim (Bool-cases (eq_bytes n m)) [
      | inl k ↦ (
        coerce fl (declared_type n st) v,
        lookup-insert_eq n m _ st.values k,
        subst (λ ty. Agrees d.type (coerce fl ty v)) (sym (declared_type-lookup n m d st k e))
            (coerce-Agrees fl d.type v),
      )
      | inr k ↦ let (w, f, a) = h.has_value m d e in (w, lookup-insert_ne n m _ st.values k ∙ f, a)
    ];
  }

  declare-IsTyped :
      (n : Bytes) (ty : ParamType) (v : ParamValue D) (st : ParameterStore D Cb)
      → Agrees ty v
      → IsTyped st
      → IsTyped (declare fl n ty v st)
  unfolding declare
  declare-IsTyped n ty v st a h = record {
    has_value = λ m d e. elim (Bool-cases (eq_bytes n m)) [
      | inl k ↦ (
        declared_value fl ty v (lookup n st.values),
        lookup-insert_eq n m _ st.values k,
        subst (λ t. Agrees t (declared_value fl ty v (lookup n st.values)))
            (ap (λ (x : ParamDescriptor D). x.type)
              (some-injective _ d (sym (lookup-insert_eq n m _ st.descriptors k) ∙ e)))
            (declared_value-Agrees fl ty v (lookup n st.values) a),
      )
      | inr k ↦
          let (w, f, b) = h.has_value m d (sym (lookup-insert_ne n m _ st.descriptors k) ∙ e) in
          (w, lookup-insert_ne n m _ st.values k ∙ f, b)
    ];
  }

  step-IsTyped :
      (c : Call D Cb) (st : ParameterStore D Cb)
      → IsWellDeclared c
      → IsTyped st
      → IsTyped (step c st)
  unfolding step set_from_string subscribe unsubscribe
  step-IsTyped (declares n ty v) st w h = declare-IsTyped n ty v st w h
  step-IsTyped (sets n v) st w h = set-IsTyped n v st h
  step-IsTyped (sets_text n raw) st w h = set-IsTyped n _ st h
  step-IsTyped (subscribes n cb) st w h = record { has_value = h.has_value }
  step-IsTyped (unsubscribes id) st w h = record { has_value = h.has_value }

  run-IsTyped :
      (cs : List (Call D Cb)) (st : ParameterStore D Cb)
      → All IsWellDeclared cs
      → IsTyped st
      → IsTyped (run cs st)
  unfolding run
  run-IsTyped [] st w h = h
  run-IsTyped (c ∷ cs) st w h = run-IsTyped cs (step c st) w.1 (step-IsTyped c st w.0 h)

  -- After any calls on a new store, in which each declaration has no default or one of its type,
  -- every declared parameter has a value, and the value has the declared type, or is null, or the
  -- declared type is unknown.
  pub run-empty-IsTyped :
      (cs : List (Call D Cb)) → All IsWellDeclared cs → IsTyped (run cs empty_store)
  unfolding empty_store lookup
  run-empty-IsTyped cs w = run-IsTyped cs _ w (record { has_value = λ n d e. cc })
