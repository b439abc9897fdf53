-- ===== src/Workflow/Extraction.antt =====
-- resolveParams against a description of the extractions that can be made.
use eaim.Base.{
  ok_injective, List, [], ◌∷◌, Option, some, ok, Result-cases, Option-cases, Bool-cases, ◌||◌, not,
  Bool, true, false, ◌≡◌, ◌↔◌, refl, sym, ap, ◌∙◌, All, inl, inr, arith,
}
use eaim.Base.Text.{Text, is_empty, text_eq, text_eq_refl}
use eaim.Base.Json.{Value, Fields, set_field, get_field, get_field-set_field}
use eaim.Workflow.Types.{ExtractionRef, Step, StepResult, Outcome, unset, allowed, denied, blocked}
use eaim.Workflow.Params.{Results, prior_result, is_allowed, extract, merge, resolve_params}

is_allowed→eq : (o : Outcome) → is_allowed o ≡ true → o ≡ allowed
unfolding is_allowed
is_allowed→eq allowed h = refl
is_allowed→eq unset h = absurd (cc)
is_allowed→eq denied h = absurd (cc)
is_allowed→eq blocked h = absurd (cc)

nor : (a b : Bool) → (not a || b) ≡ false → (a ≡ true) × (b ≡ false)
nor a b h = ground arith

-- No entry has the key.
abbrev pub Absent : Text → List (Text × ExtractionRef) → Type 0
Absent k refs = All (λ (entry : Text × ExtractionRef). text_eq entry.0 k ≡ false) refs

-- The keys of a Go map differ.
abbrev pub IsMap : List (Text × ExtractionRef) → Type 0
IsMap [] = Unit
IsMap ((key, ref) ∷ refs) = Absent key refs × IsMap refs

module _ (json_get : Text → Text → Option Value) where
  -- The step was allowed in this run, its result is not empty and holds the value at the path.
  abbrev pub Yields : Results → ExtractionRef → Value → Type 0
  Yields prior ref v =
      (sr : StepResult) × (prior_result ref.from_step prior ≡ some sr)
      × (sr.outcome ≡ allowed)
      × (is_empty sr.result ≡ false)
      × (json_get sr.result ref.path ≡ some v)

  abbrev pub Usable : Results → Text × ExtractionRef → Type 0
  Usable prior entry = (v : Value) × Yields prior entry.1 v

  Yields-extract :
      (prior : Results) (key : Text) (ref : ExtractionRef) (v : Value)
      → Yields prior ref v
      → extract json_get prior key ref ≡ ok v
  unfolding extract is_allowed
  Yields-extract prior key ref v (sr, found, a, n, g) = rw (extract, found, a, n, g) refl

  extract-Yields :
      (prior : Results) (key : Text) (ref : ExtractionRef) (v : Value)
      → extract json_get prior key ref ≡ ok v
      → Yields prior ref v
  unfolding extract
  extract-Yields prior key ref v e = elim (Option-cases (prior_result ref.from_step prior)) [
    | inl f ↦ let e' = rw (extract, f) at e in absurd (cc)
    | inr (sr, f) ↦ elim (Bool-cases (not (is_allowed sr.outcome) || is_empty sr.result)) [
      | inl b ↦ let e' = rw (extract, f, b) at e in absurd (cc)
      | inr b ↦ elim (Option-cases (json_get sr.result ref.path)) [
        | inl g ↦ let e' = rw (extract, f, b, g) at e in absurd (cc)
        | inr (u, g) ↦
            let e' : ok u ≡ ok v = rw (extract, f, b, g) at e in
            let (a, n) = nor (is_allowed sr.outcome) (is_empty sr.result) b in
            (sr, f, is_allowed→eq sr.outcome a, n, g ∙ ap some (ok_injective u v e'))
      ]
    ]
  ]

  -- The merge succeeds where every entry is usable, whatever the order of the entries.
  Usable-merge :
      (prior : Results) (refs : List (Text × ExtractionRef)) (m : Fields)
      → All (Usable prior) refs
      → (r : Fields) × (merge json_get prior refs m ≡ ok r)
  unfolding merge
  Usable-merge prior [] m u = (m, refl)
  Usable-merge prior ((key, ref) ∷ refs) m ((v, y), us) =
      let (r, e) = Usable-merge prior refs (set_field key v m) us in
      (r, rw (merge, Yields-extract prior key ref v y) e)

  merge-cons :
      (prior : Results) (key : Text) (ref : ExtractionRef) (refs : List (Text × ExtractionRef))
      (m r : Fields)
      → merge json_get prior ((key, ref) ∷ refs) m ≡ ok r
      → (v : Value) × Yields prior ref v × (merge json_get prior refs (set_field key v m) ≡ ok r)
  unfolding merge
  merge-cons prior key ref refs m r e = elim (Result-cases (extract json_get prior key ref)) [
    | inl (v, h) ↦ (v, extract-Yields prior key ref v h, rw (merge, h) at e)
    | inr (x, h) ↦ let e' = rw (merge, h) at e in absurd (cc)
  ]

  merge-Usable :
      (prior : Results) (refs : List (Text × ExtractionRef)) (m r : Fields)
      → merge json_get prior refs m ≡ ok r
      → All (Usable prior) refs
  merge-Usable prior [] m r e = tt
  merge-Usable prior ((key, ref) ∷ refs) m r e =
      let (v, y, rest) = merge-cons prior key ref refs m r e in
      ((v, y), merge-Usable prior refs (set_field key v m) r rest)

  merge-Absent :
      (prior : Results) (refs : List (Text × ExtractionRef)) (m r : Fields) (k : Text)
      → Absent k refs
      → merge json_get prior refs m ≡ ok r
      → get_field k r ≡ get_field k m
  unfolding merge
  merge-Absent prior [] m r k a e = ap (get_field k) (sym (ok_injective m r e))
  merge-Absent prior ((key, ref) ∷ refs) m r k (a, as_) e =
      let (v, y, rest) = merge-cons prior key ref refs m r e in
      merge-Absent prior refs (set_field key v m) r k as_ rest
      ∙ get_field-set_field key k v m
      ∙ rw a refl

  merge-present :
      (prior : Results) (refs : List (Text × ExtractionRef)) (m r : Fields)
      → IsMap refs
      → merge json_get prior refs m ≡ ok r
      → All
          (λ (entry : Text × ExtractionRef).
            (v : Value) × Yields prior entry.1 v × (get_field entry.0 r ≡ some v))
          refs
  merge-present prior [] m r d e = tt
  merge-present prior ((key, ref) ∷ refs) m r (a, d) e =
      let (v, y, rest) = merge-cons prior key ref refs m r e in
      (
        (
          v,
          y,
          merge-Absent prior refs (set_field key v m) r key a rest
              ∙ get_field-set_field key key v m
              ∙ rw (text_eq_refl key) refl,
        ),
        merge-present prior refs (set_field key v m) r d rest,
      )

  -- resolveParams succeeds exactly where every entry of the input mapping is usable: its step was
  -- allowed earlier in this run and its result has a value at the path. One that is not fails the
  -- whole step.
  pub resolve_params_iff :
      (step : Step) (prior : Results)
      → ((m : Fields) × (resolve_params json_get step prior ≡ ok m))
        ↔ All (Usable prior) step.input_mapping
  unfolding resolve_params
  resolve_params_iff step prior = (
    λ (m, e). merge-Usable prior step.input_mapping step.params m e,
    Usable-merge prior step.input_mapping step.params,
  )

  -- Where resolveParams succeeds on a mapping without repeated keys, each key of the mapping holds
  -- the value extracted for it, whatever the static parameters say, and every other key is as in the
  -- static parameters.
  pub resolve_params-precedence :
      (step : Step) (prior : Results) (m : Fields)
      → IsMap step.input_mapping
      → resolve_params json_get step prior ≡ ok m
      → All
          (λ (entry : Text × ExtractionRef).
            (v : Value) × Yields prior entry.1 v × (get_field entry.0 m ≡ some v))
          step.input_mapping
        × ((k : Text) → Absent k step.input_mapping → get_field k m ≡ get_field k step.params)
  unfolding resolve_params
  resolve_params-precedence step prior m d e = (
    merge-present prior step.input_mapping step.params m d e,
    λ k a. merge-Absent prior step.input_mapping step.params m k a e,
  )
