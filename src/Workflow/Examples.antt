-- ===== src/Workflow/Examples.antt =====
-- The workflow theorems at a workflow of three steps: the second takes a value from the first and is
-- denied, the third is not reached.
use eaim.Base.{
  ℕ, ◌+◌, List, [], ◌∷◌, ◌++◌, Option, none, some, ok, err, if◌then◌else◌, ◌≡◌, ◌↔◌, refl, All, map,
}
use eaim.Base.Text.{Text, codes, text_eq, is_empty}
use eaim.Base.Int.{pos}
use eaim.Base.Json.{Value, str, Fields, end, field, get_field, set_field}
use eaim.Mcp.{DispatchError, policy_denied}
use eaim.Mcp as Mcp
use eaim.Workflow.Types.{ExtractionRef, Step, Definition, StepResult, allowed, no_error, run_denied}
use eaim.Workflow.Params.{Results, prior_result, is_allowed, extract, merge, resolve_params}
use eaim.Workflow.Connector.{ToolRow}
use eaim.Workflow.Resolve.{
  StepRow, Queries, Decoders, decode_params, decode_mapping, scan_step, scan_steps, checked,
  resolve,
}
use eaim.Workflow.Executor.{Gateway, Event, State, run_step, run_steps, run}
use eaim.Workflow.Extraction.{Usable, Yields, Absent, resolve_params_iff, resolve_params-precedence}
use eaim.Workflow.FailStop.{FailStop, Recorded, run_steps-FailStop, run_steps-Recorded}
use eaim.Workflow.Resolved.{Resolution, resolve-Resolution}
use eaim.Workflow.Runs.{RunOutcome, run-RunOutcome}

abbrev crm : ToolRow
crm = record {
  name = codes "crm";
  tool_type = codes "rest_api";
  auth_type = codes "none";
  base_url = some (codes "https://crm");
  provider = none;
  credentials_encrypted = [];
  action_paths = [];
  redaction_rules = [];
}

abbrev from_first : ExtractionRef
from_first = record { from_step = 1; path = codes "id" }

abbrev step_of : ℕ → Text → Fields → List (Text × ExtractionRef) → Step
step_of i action params mapping = record {
  workflow_step_id = i;
  step_order = pos i;
  gateway_tool_id = 5;
  action = action;
  params = params;
  input_mapping = mapping;
}

abbrev static : Fields
static = field (codes "id") (str (codes "old")) (field (codes "mode") (str (codes "fast")) end)

abbrev second_step : Step
second_step = step_of 2 (codes "delete") static ((codes "id", from_first) ∷ [])

abbrev steps_of : List Step
steps_of = step_of 1 (codes "read") end [] ∷ second_step ∷ step_of 3 (codes "read") end [] ∷ []

abbrev row_of : ℕ → Text → Text → StepRow
row_of i action mapping = record {
  id = i;
  step_order = pos i;
  gateway_tool_id = some 5;
  action = action;
  params_raw = [];
  input_mapping_raw = mapping;
}

abbrev decoding : Decoders
decoding = record {
  unmarshal_params = λ t. some end;
  unmarshal_mapping = λ t. some ((t, from_first) ∷ []);
}

abbrev stored : Queries
stored = record {
  name = λ w o. ok (codes "clean up");
  rows = λ w. ok (
    row_of 1 (codes "read") []
        ∷ row_of 2 (codes "delete") (codes "id")
        ∷ row_of 3 (codes "read") []
        ∷ [],
    none,
  );
}

abbrev first_code : Text → Option ℕ
first_code [] = none
first_code (c ∷ t) = some c

-- Reads succeed, other actions are denied.
abbrev gateway : Gateway ℕ
gateway = record {
  sha256_hex = λ t. t;
  canonical_paths = λ t. t;
  json_get = λ t p. if is_empty p then none else some (str t);
  parse_uuid = first_code;
  uuid_string = λ n. n ∷ [];
  new_uuid = λ w. (w, w + 1);
  queries = λ w. stored;
  decoders = decoding;
  tool_row = λ w tool org. ok crm;
  evaluate = λ w ac. some (codes "allow");
  dispatch = λ w ac.
      if text_eq ac.action (codes "read")
      then (ok (codes "42"), w + 1)
      else (err (policy_denied (codes "denied")), w);
  now = λ w. w;
  insert_run = λ w run org workflow agent. ok w;
}

abbrev bot : Mcp.ActionContext
bot = record {
  agent_id = codes "agent:bot";
  token_id = codes "t1";
  api_key_id = [];
  agent_uuid = codes "b";
  agent_name = codes "bot";
  org_id = codes "o";
  workspace_id = [];
  agent_scope = [];
  tool = [];
  action = [];
  parameters = end;
  environment = codes "production";
  session_id = [];
  workflow_run_id = [];
  step_index = none;
  received_at = 0;
}

abbrev start : State ℕ
start = record { world = 100; log = [] }

abbrev first_result : StepResult
first_result = record {
  step_order = pos 1;
  workflow_step_id = 1;
  resolved_tool_id = 5;
  resolved_config_hash = [];
  projected_decision = [];
  outcome = allowed;
  result = codes "42";
  error_detail = no_error;
}

abbrev so_far : Results
so_far = (1, first_result) ∷ []

abbrev merged : Fields
merged = field (codes "id") (str (codes "42")) (field (codes "mode") (str (codes "fast")) end)

second_step-resolves : resolve_params gateway.json_get second_step so_far ≡ ok merged
unfolding resolve_params merge extract prior_result is_allowed is_empty set_field text_eq
second_step-resolves = refl

run-RunOutcome_example : RunOutcome gateway bot 7 start (run gateway bot 7 start)
run-RunOutcome_example = run-RunOutcome gateway bot 7 start

abbrev ids_of : List StepResult → List ℕ
ids_of = map (λ (x : StepResult). x.workflow_step_id)

run_steps-FailStop_example :
    FailStop steps_of
      (run_steps gateway bot 111 9 steps_of [] start).0
      (run_steps gateway bot 111 9 steps_of [] start).1
run_steps-FailStop_example = run_steps-FailStop gateway bot 111 9 steps_of [] start

run_steps-Recorded_example :
    (es : List Event) × ((run_steps gateway bot 111 9 steps_of [] start).2.log ≡ start.log ++ es)
    × Recorded gateway bot 111 9 steps_of [] (run_steps gateway bot 111 9 steps_of [] start).0 es
run_steps-Recorded_example = run_steps-Recorded gateway bot 111 9 steps_of [] start

resolve_params_iff_example :
    ((m : Fields) × (resolve_params gateway.json_get second_step so_far ≡ ok m))
    ↔ All (Usable gateway.json_get so_far) second_step.input_mapping
resolve_params_iff_example = resolve_params_iff gateway.json_get second_step so_far

resolve_params-precedence_example :
    All
      (λ (entry : Text × ExtractionRef).
        (v : Value) × Yields gateway.json_get so_far entry.1 v
        × (get_field entry.0 merged ≡ some v))
      second_step.input_mapping
    × ((k : Text)
        → Absent k second_step.input_mapping
        → get_field k merged ≡ get_field k second_step.params)
resolve_params-precedence_example =
    resolve_params-precedence gateway.json_get second_step so_far merged (tt, tt)
      second_step-resolves

abbrev clean_up : Definition
clean_up = record {
  workflow_id = 7;
  org_id = 111;
  name = codes "clean up";
  steps =
      step_of 1 (codes "read") end []
      ∷ step_of 2 (codes "delete") end ((codes "id", from_first) ∷ [])
      ∷ step_of 3 (codes "read") end []
      ∷ [];
}

stored-resolves : resolve decoding stored 111 7 ≡ ok clean_up
unfolding resolve scan_steps scan_step decode_params decode_mapping is_empty checked
stored-resolves = refl

resolve-Resolution_example : Resolution stored 111 7 clean_up
resolve-Resolution_example = resolve-Resolution decoding stored 111 7 clean_up stored-resolves

-- The run stops with the second step, which is denied.
run_steps-steps_of :
    ((run_steps gateway bot 111 9 steps_of [] start).1 ≡ run_denied)
    × (ids_of (run_steps gateway bot 111 9 steps_of [] start).0 ≡ 1 ∷ 2 ∷ [])
unfolding run_steps run_step
run_steps-steps_of = (refl, refl)
