-- ===== src/Dispatch/Examples.antt =====
-- The theorems on a dispatch at a call that the policy escalates and a human approves, and at one
-- that the floor of the org denies.
use eaim.Base.{
  ℕ, ◌+◌, List, [], ◌∷◌, none, some, true, false, ok, err, ◌≡◌, ◌⊎◌, inl, inr, refl, ap, sym, In,
}
use eaim.Base.Text.{Text, codes, text_eq, is_empty, to_lower}
use eaim.Base.Int.{pos, ◌≤ℤ◌}
use eaim.Base.Json.{end}
use eaim.Base.Sort.{insertion_sort, insertion_sort-IsSort}
use eaim.Mcp as Mcp
use eaim.Policy.Types.{Rule, action_deny, action_escalate}
use eaim.Policy.Evaluator.{
  default_config, is_global, rule_less, new_evaluator, apply_options, semantic_passes,
}
use eaim.Policy.Structural.{matches_rule, string_in_slice}
use eaim.Policy.Scope.{tool_categories}
use eaim.Policy.FirstMatch.{fires, rule_less-IsWeakOrder}
use eaim.Registry.Liveness.{live}
use eaim.Workflow.Connector.{ToolRow, no_rows}
use eaim.Approval.Types.{Request, RestRow, Call, LicenseChecker, Backend, State, HoldOutcome}
use eaim.Approval.Outcome.{outcome_from_status}
use eaim.Approval.Hold.{
  Row, hold, returned, once_do, decided, decides, notified, reads, resolves, sends, receives, held,
  then,
}
use eaim.Dispatch.Types.{Services}
use eaim.Dispatch.Target.{Target, server_id, to_policy_context}
use eaim.Dispatch.Gates.{dispatch}
use eaim.Dispatch.Held.{IsHeld}
use eaim.Dispatch.Ends.{Failed, EndsWith}
use eaim.Dispatch.Safety.{Granted, dispatch-Granted}
use eaim.Dispatch.Trail.{Trail}
use eaim.Dispatch.Errors.{Harmless, dispatch-Harmless, Metered, dispatch-Metered}
use eaim.Dispatch.OrgFloor.{dispatch-floor}

abbrev crm : ToolRow
crm = record {
  name = codes "crm";
  tool_type = codes "rest_api";
  auth_type = codes "none";
  base_url = some (codes "https://crm");
  provider = none;
  credentials_encrypted = 0 ∷ 1 ∷ [];
  action_paths = [];
  redaction_rules = [];
}

abbrev crm_rest : RestRow
crm_rest = record {
  id = codes "5";
  auth_type = codes "none";
  base_url = some (codes "https://crm");
  credentials_encrypted = 0 ∷ 1 ∷ [];
  action_paths = [];
}

abbrev licence : LicenseChecker ℕ
licence = record {
  module_licensed = λ w org name. true;
  within_usage_limit = some (λ w org. ok true);
  reserve_if_near_limit = some (λ w org. (ok true, w + 1));
}

abbrev backend : Backend ℕ
backend = record {
  live = some (λ w agent org token key. ok live);
  license = some licence;
  connector = λ w org id. ok crm;
  canonical_paths = λ t. t;
  sha256_hex = λ t. t;
  send = λ w c. (
    record { response = record { status = 200; body = codes "done" }; redacted = 0; error = none },
    w + 1,
  );
  release = λ w org. w;
  has_provider_router = true;
  has_tool_router = true;
}

-- A human approves each request while Hold waits.
abbrev approved_hold : Text → Request → State ℕ → HoldOutcome × State ℕ
approved_hold id req s =
    outcome_from_status backend id req (codes "approved") (codes "fine") (codes "boss") s

approved_hold-IsHeld :
    (id : Text) (req : Request) (s : State ℕ) → IsHeld backend id req s (approved_hold id req s)
unfolding IsHeld once_do
approved_hold-IsHeld id req s =
    let a : HoldOutcome × State ℕ = approved_hold id req s in
    let row : Row = decided true (codes "fine") (codes "boss") in
    let first : Row = record { status = codes "pending"; reason = []; approved_by = [] } in
    (
      record (hold row a.1) { once = some a.0; holder = returned a.0 },
      then
          (then
            (then
              (then
                (then
                  (then (held first refl refl) (decides true (codes "fine") (codes "boss") refl))
                  (notified refl tt))
                (reads refl))
              (resolves row refl))
            (sends a.0 refl refl))
          (receives a.0 refl refl),
      refl,
      refl,
    )

abbrev rule_with : Text → Rule
rule_with action = record {
  id = codes "r1";
  org_id = [];
  workspace_id = [];
  name = codes "deletes";
  priority = pos 10;
  conditions = record {
    agent_name_pattern = [];
    tool_names = [];
    tool_server_ids = [];
    action_types = codes "delete" ∷ [];
    environments = [];
    record_count_gt = none;
    semantic_rule = [];
    scope_drift = false;
  };
  action = action;
  alert = false;
}

abbrev services : Text → Services ℕ
services action = record {
  backend = backend;
  liveness = some (λ w agent org token key. ok live);
  checker = licence;
  requests = record {
    new_uuid = λ w. (ok (codes "id"), w + 1);
    insert = λ w id req pin. (none, w);
  };
  find_tool = λ w org name. ok (record { tool_type = codes "rest_api"; row = crm_rest });
  find_provider = λ w org name. err no_rows;
  evaluator = λ w. new_evaluator (insertion_sort rule_less) (rule_with action ∷ []) [];
  orders = λ w r. record {
    by_tool = tool_categories;
    by_prefix = tool_categories;
    by_scope = tool_categories;
  };
  elapsed = λ w. 0;
  write = λ e w. (none, w);
  hold = approved_hold;
  parse_uuid = λ t. some 1;
  now = λ w. w;
  since_start = λ w. pos w;
  since_hold = λ w. pos w;
}

abbrev call : Mcp.ActionContext
call = record {
  agent_id = codes "agent:bot";
  token_id = codes "t1";
  api_key_id = [];
  agent_uuid = codes "b";
  agent_name = codes "bot";
  org_id = codes "o";
  workspace_id = [];
  agent_scope = [];
  tool = codes "crm";
  action = codes "delete";
  parameters = end;
  environment = [];
  session_id = codes "s";
  workflow_run_id = [];
  step_index = none;
  received_at = 3;
}

abbrev start : State ℕ
start = record { world = 7; log = [] }

abbrev escalating : Services ℕ
escalating = services action_escalate

abbrev denying : Services ℕ
denying = services action_deny

dispatch-Granted_example :
    EndsWith escalating call
      (λ o v.
        ((v.calls ≡ []) × Failed o)
        ⊎ ((c : Call) × (v.calls ≡ c ∷ []) × Granted escalating call 7 c))
      start
      (dispatch escalating call start)
dispatch-Granted_example = dispatch-Granted escalating call approved_hold-IsHeld start

dispatch-Harmless_example :
    EndsWith denying call (Harmless denying call) start (dispatch denying call start)
dispatch-Harmless_example = dispatch-Harmless denying call approved_hold-IsHeld start

dispatch-Metered_example :
    EndsWith escalating call (Metered escalating call) start (dispatch escalating call start)
dispatch-Metered_example = dispatch-Metered escalating call approved_hold-IsHeld start

abbrev by_insertion : List Rule → List Rule
by_insertion = insertion_sort rule_less

deny_fires :
    (w : ℕ) (t : Target)
    → fires
        (denying.orders w)
        (apply_options default_config [])
        (to_policy_context call (server_id t))
        (rule_with action_deny)
      ≡ true
unfolding matches_rule string_in_slice to_lower text_eq is_empty semantic_passes apply_options
    to_policy_context
deny_fires w t = refl

only_rule :
    (r : Rule)
    → In r (rule_with action_deny ∷ [])
    → is_global r ≡ true
    → r.priority ≤ℤ pos 10
    → r.action ≡ action_deny
only_rule r (inl e) g le = ap (λ x. x.action) (sym e)
only_rule r (inr m) g le = absurd m

dispatch-floor_example :
    EndsWith denying call
      (λ o v. (v.calls ≡ []) × (v.usages ≡ []) × Failed o)
      start
      (dispatch denying call start)
unfolding is_global is_empty
dispatch-floor_example =
    dispatch-floor denying call approved_hold-IsHeld by_insertion
      (insertion_sort-IsSort rule_less rule_less-IsWeakOrder) (rule_with action_deny ∷ []) []
      (rule_with action_deny) (λ w. refl) (inl refl) refl deny_fires only_rule start
