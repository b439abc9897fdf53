-- ===== src/Workflow/Resolved.antt =====
-- The workflows that Resolve lets a run execute.
use eaim.Base.{
  ℕ, List, [], ◌∷◌, Option, none, some, ok, Result-cases, Option-cases, ok_injective, ◌≡◌, ◌≢◌,
  refl, sym, ap, ◌∙◌, subst, inl, inr, ◌⊎◌,
}
use eaim.Base.Text.{Text}
use eaim.Workflow.Types.{Step, Definition}
use eaim.Workflow.Connector.{no_rows, query_failed}
use eaim.Workflow.Resolve.{
  StepRow, Queries, Decoders, decode_params, decode_mapping, scan_step, scan_steps, checked,
  resolve,
}

-- The step stands for the row, whose connector exists.
abbrev pub Matches : Step → StepRow → Type 0
Matches step row =
    (row.gateway_tool_id ≡ some step.gateway_tool_id)
    × (step.workflow_step_id ≡ row.id)
    × (step.step_order ≡ row.step_order)
    × (step.action ≡ row.action)

-- The steps stand for the rows, in order.
abbrev pub MatchAll : List Step → List StepRow → Type 0
MatchAll [] [] = Unit
MatchAll (step ∷ steps) (row ∷ rows) = Matches step row × MatchAll steps rows
MatchAll _ _ = ⊥

scan_step-Matches :
    (d : Decoders) (row : StepRow) (step : Step) → scan_step d row ≡ ok step → Matches step row
unfolding scan_step
scan_step-Matches d row step e = elim (Option-cases row.gateway_tool_id) [
  | inl t ↦ let e' = rw (scan_step, t) at e in absurd (cc)
  | inr (tool, t) ↦ elim (Result-cases (decode_params d row)) [
    | inr (x, p) ↦ let e' = rw (scan_step, t, p) at e in absurd (cc)
    | inl (params, p) ↦ elim (Result-cases (decode_mapping d row)) [
      | inr (x, m) ↦ let e' = rw (scan_step, t, p, m) at e in absurd (cc)
      | inl (mapping, m) ↦
          let same = ok_injective _ _ (rw (scan_step, t, p, m) at e) in
          subst (λ (x : Step). Matches x row) same (t, refl, refl, refl)
    ]
  ]
]

scan_steps-MatchAll :
    (d : Decoders) (rows : List StepRow) (steps : List Step)
    → scan_steps d rows ≡ ok steps
    → MatchAll steps rows
unfolding scan_steps
scan_steps-MatchAll d [] steps e = subst (λ (x : List Step). MatchAll x []) (ok_injective _ _ e) tt
scan_steps-MatchAll d (row ∷ rows) steps e = elim (Result-cases (scan_step d row)) [
  | inr (x, h) ↦ let e' = rw (scan_steps, h) at e in absurd (cc)
  | inl (step, h) ↦ elim (Result-cases (scan_steps d rows)) [
    | inr (x, l) ↦ let e' = rw (scan_steps, h, l) at e in absurd (cc)
    | inl (rest, l) ↦
        let same = ok_injective _ _ (rw (scan_steps, h, l) at e) in
        subst (λ (x : List Step). MatchAll x (row ∷ rows)) same
          (scan_step-Matches d row step h, scan_steps-MatchAll d rows rest l)
  ]
]

-- What a definition that Resolve returns is made of.
pub record Resolution (q : Queries) (org_id workflow_id : ℕ) (def : Definition) : Type 0 where
  pub rows : List StepRow
  pub named : q.name workflow_id org_id ≡ ok def.name
  pub complete : q.rows workflow_id ≡ ok (rows, none)
  pub steps_match : MatchAll def.steps rows
  pub some_step : def.steps ≢ []
  pub own_org : def.org_id ≡ org_id

List-cases : {A : Type 0} (xs : List A) → (xs ≡ []) ⊎ ((x : A) × (ys : List A) × (xs ≡ x ∷ ys))
List-cases [] = inl refl
List-cases (x ∷ ys) = inr (x, ys, refl)

cons-ne-nil : {A : Type 0} (x : A) (xs : List A) → x ∷ xs ≢ []
cons-ne-nil x xs e = cc

checked-ok :
    (def def' : Definition) (failed : Option Text)
    → checked def failed ≡ ok def'
    → (failed ≡ none) × (def.steps ≢ []) × (def ≡ def')
unfolding checked
checked-ok def def' (some t) e = absurd (cc)
checked-ok def def' none e = elim (List-cases def.steps) [
  | inl n ↦ let e' = rw (checked, n) at e in absurd (cc)
  | inr (step, steps, n) ↦ (
    refl,
    λ h. absurd (cons-ne-nil step steps (sym n ∙ h)),
    ok_injective def def' (rw (checked, n) at e),
  )
]

-- A workflow that Resolve returns belongs to the organisation asked for and has at least one step;
-- its steps are the rows of the query in their order, all of them, and the connector of every one
-- still exists.
pub resolve-Resolution :
    (d : Decoders) (q : Queries) (org_id workflow_id : ℕ) (def : Definition)
    → resolve d q org_id workflow_id ≡ ok def
    → Resolution q org_id workflow_id def
unfolding resolve
resolve-Resolution d q org_id workflow_id def e = elim (Result-cases (q.name workflow_id org_id)) [
  | inr (no_rows, n) ↦ let e' = rw (resolve, n) at e in absurd (cc)
  | inr (query_failed t, n) ↦ let e' = rw (resolve, n) at e in absurd (cc)
  | inl (name, n) ↦ elim (Result-cases (q.rows workflow_id)) [
    | inr (t, r) ↦ let e' = rw (resolve, n, r) at e in absurd (cc)
    | inl ((rows, failed), r) ↦ elim (Result-cases (scan_steps d rows)) [
      | inr (x, l) ↦ let e' = rw (resolve, n, r, l) at e in absurd (cc)
      | inl (steps, l) ↦
          let (f, some_step, same) = checked-ok _ def failed (rw (resolve, n, r, l) at e) in
          subst (Resolution q org_id workflow_id) same (record {
            rows = rows;
            named = n;
            complete = r ∙ ap (λ (x : Option Text). ok (rows, x)) f;
            steps_match = scan_steps-MatchAll d rows steps l;
            some_step = some_step;
            own_org = refl;
          })
    ]
  ]
]
