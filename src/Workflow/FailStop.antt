-- ===== src/Workflow/FailStop.antt =====
-- The loop of Run: where it stops and what it adds to the log.
use eaim.Base.{ℕ, List, [], ◌∷◌, ◌++◌, ◌≡◌, ◌≢◌, refl, sym, ap, ◌∙◌, subst, inl, inr, ◌⊎◌, All, map}
use mathlib.Core.List.{append-nil, append_assoc}
use eaim.Mcp as Mcp
use eaim.Workflow.Types.{
  Step, StepResult, Outcome, unset, allowed, denied, blocked, Status, completed, run_denied,
  run_failed,
}
use eaim.Workflow.Params.{Results, with_result}
use eaim.Workflow.Executor.{Gateway, Event, State, run_step, run_steps}
use eaim.Workflow.Trace.{StepEvents, Leaves, run_step-Leaves}

Outcome-cases : (o : Outcome) → (o ≡ allowed) ⊎ (o ≡ denied) ⊎ ((o ≡ unset) ⊎ (o ≡ blocked))
Outcome-cases allowed = inl refl
Outcome-cases denied = inr (inl refl)
Outcome-cases unset = inr (inr (inl refl))
Outcome-cases blocked = inr (inr (inr refl))

-- The status of a run that a step with this outcome stops.
abbrev pub stop_status : Outcome → Status
stop_status denied = run_denied
stop_status _ = run_failed

abbrev pub Allowed : StepResult → Type 0
Allowed sr = sr.outcome ≡ allowed

-- Either every step has an allowed result, or the last result is that of the first step that is not
-- allowed; the results are those of the steps up to it, in order.
unfoldable pub FailStop : List Step → List StepResult → Status → Type 0
FailStop steps results status =
    (later : List Step) × (map (λ (x : Step). x.workflow_step_id) steps
      ≡ map (λ (x : StepResult). x.workflow_step_id) results
        ++ map (λ (x : Step). x.workflow_step_id) later)
    × (((status ≡ completed) × (later ≡ []) × All Allowed results)
        ⊎ ((before : List StepResult) × (last : StepResult) × (results ≡ before ++ last ∷ [])
            × All Allowed before
            × (last.outcome ≢ allowed)
            × (status ≡ stop_status last.outcome)))

FailStop-stop :
    (step : Step) (steps : List Step) (sr : StepResult) (status : Status)
    → sr.workflow_step_id ≡ step.workflow_step_id
    → sr.outcome ≢ allowed
    → status ≡ stop_status sr.outcome
    → FailStop (step ∷ steps) (sr ∷ []) status
unfolding FailStop
FailStop-stop step steps sr status i n e = (
  steps,
  ap (λ x. x ∷ map (λ (y : Step). y.workflow_step_id) steps) (sym i),
  inr ([], sr, refl, tt, n, e),
)

cons_ids : {a b : ℕ} → {xs ys : List ℕ} → a ≡ b → xs ≡ ys → b ∷ xs ≡ a ∷ ys
cons_ids i e = cc

FailStop-cons :
    (step : Step) (steps : List Step) (sr : StepResult) (results : List StepResult)
    (status : Status)
    → sr.workflow_step_id ≡ step.workflow_step_id
    → Allowed sr
    → FailStop steps results status
    → FailStop (step ∷ steps) (sr ∷ results) status
unfolding FailStop
FailStop-cons step steps sr results status i a (later, ids, inl (c, none_left, all)) =
    (later, cons_ids i ids, inl (c, none_left, (a, all)))
FailStop-cons step steps sr results status i a (later, ids, inr (before, last, e, all, n, st)) = (
  later,
  cons_ids i ids,
  inr (sr ∷ before, last, ap (λ (x : List StepResult). sr ∷ x) e, (a, all), n, st),
)

module _ {W : Type 0} (g : Gateway W) (template : Mcp.ActionContext) (org_id run_id : ℕ) where
  -- The results so far, by step.
  abbrev pub prior_after : Results → StepResult → Step → Results
  prior_after prior sr step = with_result step.workflow_step_id sr prior

  -- The loop takes one step and goes on where its outcome is `allowed`.
  run_steps-cases :
      (step : Step) (steps : List Step) (prior : Results) (s : State W)
      → let r = run_step g template org_id run_id step prior s in
        let rest = run_steps g template org_id run_id steps (prior_after prior r.0 step) r.1 in
        (Allowed r.0
          × (run_steps g template org_id run_id (step ∷ steps) prior s
              ≡ (r.0 ∷ rest.0, rest.1, rest.2)))
        ⊎ ((r.0.outcome ≢ allowed)
            × (run_steps g template org_id run_id (step ∷ steps) prior s
                ≡ (r.0 ∷ [], stop_status r.0.outcome, r.1)))
  unfolding run_steps run_step
  run_steps-cases step steps prior s =
      elim (Outcome-cases (run_step g template org_id run_id step prior s).0.outcome) [
        | inl a ↦ inl (a, rw (run_steps, a) refl)
        | inr (inl d) ↦ inr (apart d (λ e. absurd (cc)), rw (run_steps, d) refl)
        | inr (inr (inl u)) ↦ inr (apart u (λ e. absurd (cc)), rw (run_steps, u) refl)
        | inr (inr (inr b)) ↦ inr (apart b (λ e. absurd (cc)), rw (run_steps, b) refl)
      ]
    where
      apart : {o x : Outcome} → o ≡ x → x ≢ allowed → o ≢ allowed
      apart e n h = n (sym e ∙ h)

  -- Whatever the state at the start, the loop of a run executes the steps in order, and stops at the
  -- first whose outcome is not `allowed`; the status says which of the two ended it.
  pub run_steps-FailStop :
      (steps : List Step) (prior : Results) (s : State W)
      → FailStop steps
          (run_steps g template org_id run_id steps prior s).0
          (run_steps g template org_id run_id steps prior s).1
  unfolding run_steps FailStop Leaves
  run_steps-FailStop [] prior s = ([], refl, inl (refl, refl, tt))
  run_steps-FailStop (step ∷ steps) prior s = elim (run_steps-cases step steps prior s) [
    | inl (a, e) ↦ subst Goal (sym e) (
        FailStop-cons step steps r.0 rest.0 rest.1 same_id a
          (run_steps-FailStop steps (prior_after prior r.0 step) r.1))
    | inr (n, e) ↦
        subst Goal (sym e) (FailStop-stop step steps r.0 (stop_status r.0.outcome) same_id n refl)
  ]
    where
      r : StepResult × State W
      r = run_step g template org_id run_id step prior s

      rest : List StepResult × Status × State W
      rest = run_steps g template org_id run_id steps (prior_after prior r.0 step) r.1

      Goal : List StepResult × Status × State W → Type 0
      Goal x = FailStop (step ∷ steps) x.0 x.1

      same_id : r.0.workflow_step_id ≡ step.workflow_step_id
      same_id = (run_step-Leaves g template org_id run_id step prior s).0

  -- Each result has the events of its step, one after the other, and none has more.
  abbrev pub Recorded : List Step → Results → List StepResult → List Event → Type 0
  Recorded steps prior [] es = es ≡ []
  Recorded [] prior (sr ∷ srs) es = ⊥
  Recorded (step ∷ steps) prior (sr ∷ srs) es =
      (here : List Event) × (there : List Event) × (es ≡ here ++ there)
      × StepEvents g template org_id run_id step prior sr here
      × Recorded steps (prior_after prior sr step) srs there

  -- The loop of a run adds to the log, for each result and in their order, the insert and the update
  -- of the row of the step with that result and, unless the step is blocked before it, one dispatch
  -- between them, under the agent, organisation and token of the template, with parameters resolved
  -- from the results of the steps before it.
  pub run_steps-Recorded :
      (steps : List Step) (prior : Results) (s : State W)
      → (es : List Event) × ((run_steps g template org_id run_id steps prior s).2.log ≡ s.log ++ es)
        × Recorded steps prior (run_steps g template org_id run_id steps prior s).0 es
  unfolding run_steps Leaves
  run_steps-Recorded [] prior s = ([], sym (append-nil s.log), refl)
  run_steps-Recorded (step ∷ steps) prior s = elim (run_steps-cases step steps prior s) [
    | inl (a, e) ↦
        let (there, added, recorded) = run_steps-Recorded steps (prior_after prior r.0 step) r.1 in
        let (here, logged, events) = (run_step-Leaves g template org_id run_id step prior s).1 in
        subst Goal (sym e) (
          here ++ there,
          added ∙ ap (λ (x : List Event). x ++ there) logged ∙ append_assoc s.log here there,
          (here, there, refl, events, recorded),
        )
    | inr (n, e) ↦
        let (here, logged, events) = (run_step-Leaves g template org_id run_id step prior s).1 in
        subst Goal (sym e) (here, logged, (here, [], sym (append-nil here), events, refl))
  ]
    where
      r : StepResult × State W
      r = run_step g template org_id run_id step prior s

      Goal : List StepResult × Status × State W → Type 0
      Goal x = (es : List Event) × (x.2.log ≡ s.log ++ es) × Recorded (step ∷ steps) prior x.0 es
