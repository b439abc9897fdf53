-- ===== src/Workflow/Trace.antt =====
-- What one step of a run leaves behind: its result, the rows written and the dispatch.
use eaim.Base.{
  ℕ, List, [], ◌∷◌, ◌++◌, Option, none, some, Result, ok, err, Result-cases, ◌≡◌, refl, ◌∙◌, inl,
  inr, ◌⊎◌,
}
use eaim.Base.Text.{Text}
use eaim.Base.Json.{Fields}
use eaim.Mcp.{DispatchError, policy_denied, other_error}
use eaim.Mcp as Mcp
use eaim.Workflow.Types.{Step, StepResult, blocked}
use eaim.Workflow.Params.{Results, resolve_params}
use eaim.Workflow.Connector.{ConnectorRow, resolve_connector_by_id}
use eaim.Workflow.Executor.{
  Gateway, Event, step_inserted, dispatched, step_updated, State, new_step_result, outcome_of,
  projected, step_context, record_blocked, dispatch_step, run_step,
}

module _ {W : Type 0} (g : Gateway W) (template : Mcp.ActionContext) (org_id run_id : ℕ) where
  -- The call is made under the identity of the template, for this step of this run, with parameters
  -- that were resolved from the results so far.
  pub record IsCallOf (step : Step) (prior : Results) (ac : Mcp.ActionContext) : Type 0 where
    pub same_agent : ac.agent_uuid ≡ template.agent_uuid
    pub same_org : ac.org_id ≡ template.org_id
    pub same_token : ac.token_id ≡ template.token_id
    pub same_action : ac.action ≡ step.action
    pub of_run : ac.workflow_run_id ≡ g.uuid_string run_id
    pub of_step : ac.step_index ≡ some step.step_order
    pub resolved : resolve_params g.json_get step prior ≡ ok ac.parameters

  -- The events of one step: its row is inserted and updated with its result, and between these it is
  -- dispatched, unless it is blocked without a dispatch.
  unfoldable pub StepEvents : Step → Results → StepResult → List Event → Type 0
  StepEvents step prior sr es =
      (row : ℕ) × (first : StepResult) × (((es ≡ step_inserted row first ∷ step_updated row sr ∷ [])
          × (sr.outcome ≡ blocked))
        ⊎ ((ac : Mcp.ActionContext) × (es
              ≡ step_inserted row first ∷ dispatched ac ∷ step_updated row sr ∷ [])
            × IsCallOf step prior ac))

  -- A result belongs to its step, and the log grows by the events of the step.
  unfoldable pub Leaves : Step → Results → State W → StepResult × State W → Type 0
  Leaves step prior s r =
      (r.0.workflow_step_id ≡ step.workflow_step_id)
      × ((es : List Event) × (r.1.log ≡ s.log ++ es) × StepEvents step prior r.0 es)

  record_blocked-Leaves :
      (step : Step) (prior : Results) (row : ℕ) (sr : StepResult) (w : W) (s : State W)
      → sr.workflow_step_id ≡ step.workflow_step_id
      → sr.outcome ≡ blocked
      → Leaves step prior s
          (record_blocked g template org_id run_id row sr (record s { world = w }))
  unfolding Leaves StepEvents record_blocked
  record_blocked-Leaves step prior row sr w s i b =
      (i, (step_inserted row sr ∷ step_updated row sr ∷ [], refl, (row, sr, inl (refl, b))))

  outcome_of-id :
      (answer : Result DispatchError Text) (decision : Option Text) (sr : StepResult)
      → (outcome_of answer (projected decision sr)).workflow_step_id ≡ sr.workflow_step_id
  unfolding outcome_of projected
  outcome_of-id (ok body) none sr = refl
  outcome_of-id (ok body) (some a) sr = refl
  outcome_of-id (err (policy_denied t)) none sr = refl
  outcome_of-id (err (policy_denied t)) (some a) sr = refl
  outcome_of-id (err (other_error t)) none sr = refl
  outcome_of-id (err (other_error t)) (some a) sr = refl

  dispatch_step-Leaves :
      (step : Step) (prior : Results) (row : ℕ) (conn : ConnectorRow) (params : Fields)
      (sr : StepResult) (w : W) (s : State W)
      → sr.workflow_step_id ≡ step.workflow_step_id
      → resolve_params g.json_get step prior ≡ ok params
      → Leaves step prior s
          (dispatch_step g template org_id run_id row conn step params sr (record s { world = w }))
  unfolding Leaves StepEvents dispatch_step step_context
  dispatch_step-Leaves step prior row conn params sr w s i h = (
    outcome_of-id _ _ sr ∙ i,
    (
      _,
      refl,
      (
        row,
        _,
        inr (
          _,
          refl,
          record {
            same_agent = refl;
            same_org = refl;
            same_token = refl;
            same_action = refl;
            of_run = refl;
            of_step = refl;
            resolved = h;
          },
        ),
      ),
    ),
  )

  pub run_step-Leaves :
      (step : Step) (prior : Results) (s : State W)
      → Leaves step prior s (run_step g template org_id run_id step prior s)
  unfolding run_step new_step_result
  run_step-Leaves step prior s =
      elim (Result-cases (
        resolve_connector_by_id g.canonical_paths
          (g.tool_row (g.new_uuid s.world).1 step.gateway_tool_id org_id))) [
            | inl (conn, c) ↦ elim (Result-cases (resolve_params g.json_get step prior)) [
              | inl (params, p) ↦
                  rw (run_step, c, p)
                    (dispatch_step-Leaves step prior (g.new_uuid s.world).0 conn params _
                      (g.new_uuid s.world).1 s refl p)
              | inr (e, p) ↦
                  rw (run_step, c, p)
                    (record_blocked-Leaves step prior (g.new_uuid s.world).0 _
                      (g.new_uuid s.world).1 s refl refl)
            ]
            | inr (e, c) ↦
                rw (run_step, c)
                  (record_blocked-Leaves step prior (g.new_uuid s.world).0 _ (g.new_uuid s.world).1
                    s refl refl)
          ]
