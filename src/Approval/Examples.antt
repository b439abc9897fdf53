-- ===== src/Approval/Examples.antt =====
-- The theorems on approvals at one request, which is approved while Hold waits for it.
use eaim.Base.{All, ℕ, ◌+◌, List, [], ◌∷◌, ◌++◌, none, some, true, ok, ◌≡◌, ◌↔◌, ◌⊎◌, refl}
use eaim.Base.Text.{codes}
use eaim.Base.Json.{end}
use eaim.Registry.Liveness.{live}
use eaim.Workflow.Connector.{ToolRow}
use eaim.Approval.Types.{Request, Call, LicenseChecker, Backend, Event, State, HoldOutcome}
use eaim.Approval.ConfigHash.{config_content, compute_config_hash}
use eaim.Approval.Calls.{calls}
use eaim.Approval.Resume.{ResolvedConnectorConfig, config_hash}
use eaim.Approval.Outcome.{outcome_from_status}
use eaim.Approval.Outcomes.{Reports}
use eaim.Approval.Pin.{nul_free-NulFree, NoNul, SameConfig, config_hash_iff}
use eaim.Approval.Hold.{
  read, sending, Row, Wait, hold, returned, once_do, decided, decides, notified, reads, resolves,
  sends, receives, Reach, held, then,
}
use eaim.Approval.AtMostOnce.{PermittedOnce, hold-AtMostOne, hold-Honest}
use eaim.Approval.Slack.{escape_slack_text, unescape, IsPlain, unescape-escape_slack_text}
use eaim.Approval.Ticket.{Refines, step-Refines}

abbrev crm : ToolRow
crm = record {
  name = codes "crm";
  tool_type = codes "rest_api";
  auth_type = codes "none";
  base_url = some (codes "https://crm");
  provider = none;
  credentials_encrypted = 0 ∷ 1 ∷ [];
  action_paths = [];
  redaction_rules = [];
}

abbrev checker : LicenseChecker ℕ
checker = record {
  module_licensed = λ w org name. true;
  within_usage_limit = some (λ w org. ok true);
  reserve_if_near_limit = some (λ w org. (ok true, w + 1));
}

abbrev backend : Backend ℕ
backend = record {
  live = some (λ w agent org token key. ok live);
  license = some checker;
  connector = λ w org id. ok crm;
  canonical_paths = λ t. t;
  sha256_hex = λ t. t;
  send = λ w c. (
    record { response = record { status = 200; body = codes "done" }; redacted = 0; error = none },
    w + 1,
  );
  release = λ w org. w;
  has_provider_router = true;
  has_tool_router = true;
}

abbrev crm_config : ResolvedConnectorConfig
crm_config = record {
  tool_type = codes "rest_api";
  auth_type = codes "none";
  base_url_or_provider = codes "https://crm";
  credentials_encrypted = 0 ∷ 1 ∷ [];
  action_paths = [];
  redaction_rules = [];
}

abbrev moved_config : ResolvedConnectorConfig
moved_config = record crm_config { base_url_or_provider = codes "https://evil" }

abbrev crm_request : Request
unfolding config_hash compute_config_hash config_content
crm_request = record {
  org_id = codes "o";
  agent_id = codes "a";
  token_id = codes "t";
  api_key_id = [];
  agent_name = codes "bot";
  tool = codes "crm";
  action = codes "delete";
  parameters = end;
  session_id = codes "s";
  resolved_tool_id = codes "5";
  resolved_config_hash = config_hash backend crm_config;
}

abbrev pending : Row
pending = record { status = codes "pending"; reason = []; approved_by = [] }

abbrev start : State ℕ
start = record { world = 7; log = [] }

abbrev answer : HoldOutcome × State ℕ
answer =
    outcome_from_status backend (codes "id") crm_request (codes "approved") (codes "fine")
      (codes "boss") start

abbrev approved_row : Row
approved_row = decided true (codes "fine") (codes "boss")

abbrev last : Wait ℕ
last = record (hold approved_row answer.1) { once = some answer.0; holder = returned answer.0 }

last-Reach : Reach backend (codes "id") crm_request start last
unfolding once_do
last-Reach =
    then
      (then
        (then
          (then
            (then (then (held pending refl refl) (decides true (codes "fine") (codes "boss") refl))
              (notified refl tt))
            (reads refl))
          (resolves approved_row refl))
        (sends answer.0 refl refl))
      (receives answer.0 refl refl)

hold-AtMostOne_example :
    (es : List Event) × (answer.1.log ≡ [] ++ es)
    × ((calls es ≡ [])
        ⊎ ((c : Call) × (calls es ≡ c ∷ [])
            × (codes "approved" ≡ codes "approved")
            × PermittedOnce backend crm_request c))
hold-AtMostOne_example = hold-AtMostOne backend (codes "id") crm_request start last last-Reach

hold-Honest_example :
    (es : List Event) × (answer.1.log ≡ [] ++ es)
    × Reports approved_row answer.0
    × (answer.0.error ≡ none → (c : Call) × (calls es ≡ c ∷ []) × (answer.0.resolved ≡ true))
hold-Honest_example =
    hold-Honest backend (codes "id") crm_request start last answer.0 last-Reach refl

crm-NoNul : NoNul crm_config
crm-NoNul = record {
  tool_type = nul_free-NulFree crm_config.tool_type refl;
  base = nul_free-NulFree crm_config.base_url_or_provider refl;
  paths = tt;
  rules = tt;
}

moved-NoNul : NoNul moved_config
moved-NoNul = record {
  tool_type = nul_free-NulFree moved_config.tool_type refl;
  base = nul_free-NulFree moved_config.base_url_or_provider refl;
  paths = tt;
  rules = tt;
}

config_hash_iff_example :
    (config_hash backend crm_config ≡ config_hash backend moved_config)
    ↔ SameConfig crm_config moved_config
config_hash_iff_example =
    config_hash_iff backend crm_config moved_config crm-NoNul moved-NoNul (λ e. e)

abbrev reading : Wait ℕ
reading = record (hold approved_row start) { listener = read approved_row }

reading-Reach : Reach backend (codes "id") crm_request start reading
reading-Reach =
    then
      (then (then (held pending refl refl) (decides true (codes "fine") (codes "boss") refl))
        (notified refl tt))
      (reads refl)

abbrev resolved_wait : Wait ℕ
resolved_wait = record (hold approved_row answer.1) {
  once = some answer.0;
  listener = sending answer.0;
}

step-Refines_example :
    Refines backend
      (codes "id")
      crm_request
      start
      resolved_wait
      (record { row = approved_row; calls = [] })
unfolding once_do calls
step-Refines_example =
    step-Refines backend (codes "id") crm_request start reading resolved_wait
      (record { row = approved_row; calls = [] }) reading-Reach (resolves approved_row refl)
      (record { row = refl; es = []; grows = refl; calls = refl })

unescape-escape_slack_text_example :
    All IsPlain (escape_slack_text (codes "<http://evil|Approve & run>"))
    × (unescape 0 (escape_slack_text (codes "<http://evil|Approve & run>"))
        ≡ codes "<http://evil|Approve & run>")
unescape-escape_slack_text_example =
    unescape-escape_slack_text (codes "<http://evil|Approve & run>")
