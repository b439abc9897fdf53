-- ===== src/Policy/Types.antt =====
-- eami-policy/types.go, and the configuration of evaluator.go.
use eaim.Base.{ℕ, Option, List, Bool}
use eaim.Base.Text.{Text, codes}
use eaim.Base.Int.{ℤ}
use eaim.Base.Json.{Fields}

abbrev pub action_allow : Text
action_allow = codes "allow"

abbrev pub action_deny : Text
action_deny = codes "deny"

abbrev pub action_escalate : Text
action_escalate = codes "escalate"

-- Time stamps are instants on one clock, in milliseconds.
pub record ActionContext : Type 0 where
  pub org_id : Text
  pub workspace_id : Text
  pub agent_id : Text
  pub agent_name : Text
  pub scope : Text
  pub agent_scope : Text
  pub model : Text
  pub owner : Text
  pub risk_tier : Text
  pub tool_name : Text
  pub action_type : Text
  pub action_verb : Text
  pub tool_server_id : Text
  pub parameters : Fields
  pub environment : Text
  pub estimated_record_count : ℤ
  pub session_actions : List Text
  pub timestamp : ℕ

-- The text that fmt.Sprintf makes of a rule's name and priority, or the fixed default text.
pub data Reason : Type 0 where
  matched_rule : Text → ℤ → Reason
  no_matching_rule : Reason

pub record Decision : Type 0 where
  pub action : Text
  pub policy_id : Option Text
  pub policy_name : Option Text
  pub reason : Reason
  pub eval_time_ms : ℕ

-- A nil pointer is `none`; an empty text or list matches anything.
pub record Conditions : Type 0 where
  pub agent_name_pattern : Text
  pub tool_names : List Text
  pub tool_server_ids : List Text
  pub action_types : List Text
  pub environments : List Text
  pub record_count_gt : Option ℤ
  pub semantic_rule : Text
  pub scope_drift : Bool

pub record Rule : Type 0 where
  pub id : Text
  pub org_id : Text
  pub workspace_id : Text
  pub name : Text
  pub priority : ℤ
  pub conditions : Conditions
  pub action : Text
  pub alert : Bool

abbrev pub PolicySet : Type 0
PolicySet = List Rule

pub record EvaluatorConfig : Type 0 where
  pub default_action : Text
  pub semantic_endpoint : Text
  pub semantic_api_key : Text
  pub semantic_timeout : ℕ

pub record Evaluator : Type 0 where
  pub rules : List Rule
  pub cfg : EvaluatorConfig
