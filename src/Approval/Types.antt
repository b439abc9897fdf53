-- ===== src/Approval/Types.antt =====
-- What the approval router and the dispatcher exchange with the rest of the system: the types of
-- eami-gateway/internal/approval/router.go, of the proxy, of toolrouter and of aiprovider, and the
-- log of what the gateway does.
use eaim.Base.{ℕ, List, Bool, Option, Result}
use eaim.Base.Text.{Text}
use eaim.Base.Json.{Fields}
use eaim.Audit.Entry.{Entry}
use eaim.Registry.Liveness.{Liveness}
use eaim.Workflow.Connector.{ToolRow, QueryError}

pub record Request : Type 0 where
  pub org_id : Text
  pub agent_id : Text
  pub token_id : Text
  pub api_key_id : Text
  pub agent_name : Text
  pub tool : Text
  pub action : Text
  pub parameters : Fields
  pub session_id : Text
  pub resolved_tool_id : Text
  pub resolved_config_hash : Text

pub record ToolRequest : Type 0 where
  pub tool_name : Text
  pub action : Text
  pub params : Fields
  pub session_id : Text

pub record ToolResponse : Type 0 where
  pub status : ℕ
  pub body : Text

-- A resolved rest_api connector; the action paths are kept as the text they marshal to.
pub record RestRow : Type 0 where
  pub id : Text
  pub auth_type : Text
  pub base_url : Option Text
  pub credentials_encrypted : Text
  pub action_paths : Text

-- A resolved ai_provider connector.
pub record ProviderRow : Type 0 where
  pub id : Text
  pub provider : Text
  pub auth_type : Text
  pub credentials_encrypted : Text
  pub audit_mode : Text
  pub data_handling : Text
  pub redaction_rules : Text

-- A call of a system behind the gateway: through the static proxy, to a registered REST tool, or to
-- an AI provider.
pub data Call : Type 0 where
  static_call : ToolRequest → Call
  rest_call : RestRow → ToolRequest → Call
  provider_call : ProviderRow → Text → Fields → Call

-- The response, the number of items that were masked (of a provider) and the error, if any.
pub record Answer : Type 0 where
  pub response : ToolResponse
  pub redacted : ℕ
  pub error : Option Text

-- The licence store. The usage limit and the reservation are interfaces that a checker may lack.
pub record LicenseChecker (W : Type 0) : Type 0 where
  pub module_licensed : W → Text → Text → Bool
  pub within_usage_limit : Option (W → Text → Result Text Bool)
  pub reserve_if_near_limit : Option (W → Text → Result Text Bool × W)

-- What the router uses of the rest of the system, whose state is a value of W; a nil collaborator is
-- `none`.
pub record Backend (W : Type 0) : Type 0 where
  pub live : Option (W → Text → Text → Text → Text → Result Text Liveness)
  pub license : Option (LicenseChecker W)
  pub connector : W → Text → Text → Result QueryError ToolRow
  pub canonical_paths : Text → Text
  pub sha256_hex : Text → Text
  pub send : W → Call → Answer × W
  pub release : W → Text → W
  pub has_provider_router : Bool
  pub has_tool_router : Bool

pub record EpisodeStep : Type 0 where
  pub tool_name : Text
  pub action : Text
  pub params : Fields
  pub result : Text
  pub decision : Text
  pub timestamp : ℕ

-- What the gateway does, in order. A row that is handed to the audit writer stands with the error
-- that Write returned: with one, the row is lost.
pub data Event : Type 0 where
  called : Call → Event
  resume_recorded : Text → Text → Event
  released : Text → Event
  submitted : Text → Request → Event
  audited : Entry → Option Text → Event
  usage_recorded : Text → Event
  episode_recorded : List EpisodeStep → Text → Event

pub record State (W : Type 0) : Type 0 where
  pub world : W
  pub log : List Event

-- Why a resumed call did not go through, or ended in an error of the system behind the gateway.
pub data ResumeError : Type 0 where
  agent_not_live : ResumeError
  license_revoked : ResumeError
  usage_limit_exceeded : ResumeError
  usage_limit_contention : ResumeError
  connector_unverified : Text → Text → ResumeError
  connector_deleted : Text → ResumeError
  config_changed : Text → ResumeError
  no_router : Text → ResumeError
  not_dispatchable : Text → Text → ResumeError
  downstream : Text → ResumeError

-- The three results of dispatchApproved.
pub record Resumed : Type 0 where
  pub response : ToolResponse
  pub redacted_count : Option ℕ
  pub error : Option ResumeError

pub data HoldError : Type 0 where
  resume_error : ResumeError → HoldError
  fetch_failed : Text → HoldError
  still_pending : Text → HoldError
  not_approved : Text → Text → HoldError
  hold_timed_out : HoldError
  hold_cancelled : HoldError

pub record HoldOutcome : Type 0 where
  pub result : Text
  pub error : Option HoldError
  pub resolved : Bool
  pub status : Text
  pub approved_by : Text
  pub decision_reason : Text
  pub redacted_count : Option ℕ
