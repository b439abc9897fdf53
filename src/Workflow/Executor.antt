-- ===== src/Workflow/Executor.antt =====
-- Executor.Run and runStep of eami-gateway/internal/workflow/executor.go. The dispatch closure, the
-- policy evaluator, the database and uuid are parameters; what the executor itself does to them is
-- logged as events, in order. Failed writes of the records of a step are only warned of.
use eaim.Base.{ℕ, List, [], ◌∷◌, ◌++◌, Option, none, some, if◌then◌else◌, Result, ok, err}
use eaim.Base.Text.{Text, codes, is_empty}
use eaim.Base.Int.{pos}
use eaim.Base.Json.{Value, Fields}
use eaim.Mcp.{DispatchError, policy_denied, other_error}
use eaim.Mcp as Mcp
use eaim.Policy.Types as Policy
use eaim.Workflow.Types.{
  Definition, Step, StepResult, unset, allowed, denied, blocked, no_error, connector_error,
  param_error, dispatch_error, Status, completed, run_denied, run_failed, RunResult,
}
use eaim.Workflow.Resolve.{Queries, Decoders, ResolveError, resolve}
use eaim.Workflow.Params.{Results, with_result, resolve_params}
use eaim.Workflow.Connector.{ToolRow, ConnectorRow, QueryError, resolve_connector_by_id, row_hash}

-- What the executor uses of the rest of the system, whose state is a value of W.
pub record Gateway (W : Type 0) : Type 0 where
  pub sha256_hex : Text → Text
  pub canonical_paths : Text → Text
  pub json_get : Text → Text → Option Value
  pub parse_uuid : Text → Option ℕ
  pub uuid_string : ℕ → Text
  pub new_uuid : W → ℕ × W
  pub queries : W → Queries
  pub decoders : Decoders
  pub tool_row : W → ℕ → ℕ → Result QueryError ToolRow
  pub evaluate : W → Policy.ActionContext → Option Text
  pub dispatch : W → Mcp.ActionContext → Result DispatchError Text × W
  pub now : W → ℕ
  pub insert_run : W → ℕ → ℕ → ℕ → ℕ → Result Text W

-- What a run does: the row of the run, the two writes of a step's row, the dispatch between them,
-- and the status at the end.
pub data Event : Type 0 where
  run_created : ℕ → Event
  step_inserted : ℕ → StepResult → Event
  dispatched : Mcp.ActionContext → Event
  step_updated : ℕ → StepResult → Event
  run_finished : ℕ → Status → Event

pub record State (W : Type 0) : Type 0 where
  pub world : W
  pub log : List Event

pub data RunError : Type 0 where
  invalid_org_id : RunError
  invalid_agent_id : RunError
  not_resolved : ResolveError → RunError
  not_created : Text → RunError

unfoldable pub new_step_result : Step → StepResult
new_step_result step = record {
  step_order = step.step_order;
  workflow_step_id = step.workflow_step_id;
  resolved_tool_id = 0;
  resolved_config_hash = [];
  projected_decision = [];
  outcome = unset;
  result = [];
  error_detail = no_error;
}

-- The real outcome of a dispatch.
unfoldable pub outcome_of : Result DispatchError Text → StepResult → StepResult
outcome_of (ok body) sr = record sr { outcome = allowed; result = body }
outcome_of (err (policy_denied t)) sr = record sr {
  outcome = denied;
  error_detail = dispatch_error t;
}
outcome_of (err (other_error t)) sr = record sr {
  outcome = blocked;
  error_detail = dispatch_error t;
}

-- The context of the preview: the fields that runStep sets, and zero values.
unfoldable pub preview_context : Mcp.ActionContext → Text → Text → Fields → Policy.ActionContext
preview_context template name action params = record {
  org_id = template.org_id;
  workspace_id = template.workspace_id;
  agent_id = [];
  agent_name = template.agent_name;
  scope = template.agent_scope;
  agent_scope = [];
  model = [];
  owner = [];
  risk_tier = [];
  tool_name = name;
  action_type = action;
  action_verb = [];
  tool_server_id = [];
  parameters = params;
  environment = template.environment;
  estimated_record_count = pos 0;
  session_actions = [];
  timestamp = 0;
}

-- The decision of the preview, where the evaluation gave no error.
unfoldable pub projected : Option Text → StepResult → StepResult
projected none sr = sr
projected (some action) sr = record sr { projected_decision = action }

module _ {W : Type 0} (g : Gateway W) (template : Mcp.ActionContext) (org_id run_id : ℕ) where
  unfoldable pub step_context : ConnectorRow → Step → Fields → W → Mcp.ActionContext
  step_context conn step params w = record template {
    tool = conn.name;
    action = step.action;
    parameters = params;
    received_at = g.now w;
    workflow_run_id = g.uuid_string run_id;
    step_index = some step.step_order;
  }

  -- The exit of a step that is blocked before its dispatch.
  unfoldable pub record_blocked : ℕ → StepResult → State W → StepResult × State W
  record_blocked row sr s =
      (sr, record s { log = s.log ++ step_inserted row sr ∷ step_updated row sr ∷ [] })

  unfoldable pub dispatch_step :
      ℕ → ConnectorRow → Step → Fields → StepResult → State W → StepResult × State W
  unfolding preview_context projected step_context outcome_of
  dispatch_step row conn step params sr0 s =
      let sr =
        projected (g.evaluate s.world (preview_context template conn.name step.action params))
          sr0 in
      let ac = step_context conn step params s.world in
      let (answer, world) = g.dispatch s.world ac in
      let done = outcome_of answer sr in
      (
        done,
        record {
          world = world;
          log = s.log ++ step_inserted row sr ∷ dispatched ac ∷ step_updated row done ∷ [];
        },
      )

  unfoldable pub run_step : Step → Results → State W → StepResult × State W
  unfolding new_step_result record_blocked dispatch_step resolve_connector_by_id row_hash
      resolve_params
  run_step step prior s0 =
      let (row, world) = g.new_uuid s0.world in
      let s = record s0 { world = world } in
      let sr = new_step_result step in
      elim (resolve_connector_by_id g.canonical_paths
        (g.tool_row world step.gateway_tool_id org_id)) [
          | err e ↦
              record_blocked row (record sr { outcome = blocked; error_detail = connector_error e })
                s
          | ok conn ↦
              let pinned = record sr {
                resolved_tool_id = step.gateway_tool_id;
                resolved_config_hash = row_hash g.sha256_hex conn;
              } in
              elim (resolve_params g.json_get step prior) [
                | err e ↦
                    record_blocked row
                      (record pinned { outcome = blocked; error_detail = param_error e }) s
                | ok params ↦ dispatch_step row conn step params pinned s
              ]
        ]

  -- The loop of Run: it stops at the first step that is not allowed.
  unfoldable pub run_steps : List Step → Results → State W → List StepResult × Status × State W
  unfolding run_step with_result
  run_steps [] prior s = ([], completed, s)
  run_steps (step ∷ steps) prior s =
      let r = run_step step prior s in
      let rest = run_steps steps (with_result step.workflow_step_id r.0 prior) r.1 in
      elim r.0.outcome [
        | allowed ↦ (r.0 ∷ rest.0, rest.1, rest.2)
        | denied ↦ (r.0 ∷ [], run_denied, r.1)
        | _ ↦ (r.0 ∷ [], run_failed, r.1)
      ]

module _ {W : Type 0} (g : Gateway W) where
  unfoldable pub with_session : ℕ → Mcp.ActionContext → Mcp.ActionContext
  unfolding is_empty
  with_session run_id template =
      if is_empty template.session_id
      then record template { session_id = codes "workflow-run-" ++ g.uuid_string run_id }
      else template

  -- Run from the row of the run on.
  unfoldable pub execute :
      Mcp.ActionContext → ℕ → Definition → ℕ → State W → Result RunError RunResult × State W
  unfolding with_session run_steps
  execute template org_id def run_id s =
      let r =
        run_steps g (with_session run_id template) org_id run_id def.steps []
          (record s { log = s.log ++ run_created run_id ∷ [] }) in
      (
        ok (record { run_id = run_id; status = r.1; steps = r.0 }),
        record r.2 { log = r.2.log ++ run_finished run_id r.1 ∷ [] },
      )

  unfoldable pub run : Mcp.ActionContext → ℕ → State W → Result RunError RunResult × State W
  unfolding execute resolve
  run template workflow_id s = elim (g.parse_uuid template.org_id) [
    | none ↦ (err invalid_org_id, s)
    | some org_id ↦ elim (g.parse_uuid template.agent_uuid) [
      | none ↦ (err invalid_agent_id, s)
      | some agent_id ↦ elim (resolve g.decoders (g.queries s.world) org_id workflow_id) [
        | err e ↦ (err (not_resolved e), s)
        | ok def ↦
            let (run_id, w1) = g.new_uuid s.world in
            elim (g.insert_run w1 run_id org_id def.workflow_id agent_id) [
              | err e ↦ (err (not_created e), record s { world = w1 })
              | ok w2 ↦ execute template org_id def run_id (record s { world = w2 })
            ]
      ]
    ]
  ]
