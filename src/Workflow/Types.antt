-- ===== src/Workflow/Types.antt =====
-- eami-gateway/internal/workflow/types.go. A UUID is a number, uuid.Nil is 0. The times at which a
-- step starts and finishes are left out.
use eaim.Base.{ℕ, List}
use eaim.Base.Text.{Text}
use eaim.Base.Int.{ℤ}
use eaim.Base.Json.{Fields}

pub record ExtractionRef : Type 0 where
  pub from_step : ℕ
  pub path : Text

pub record Step : Type 0 where
  pub workflow_step_id : ℕ
  pub step_order : ℤ
  pub gateway_tool_id : ℕ
  pub action : Text
  pub params : Fields
  pub input_mapping : List (Text × ExtractionRef)

pub record Definition : Type 0 where
  pub workflow_id : ℕ
  pub org_id : ℕ
  pub name : Text
  pub steps : List Step

-- The outcome of a step; `unset` is the empty text that it has before the dispatch.
pub data Outcome : Type 0 where
  unset : Outcome
  allowed : Outcome
  denied : Outcome
  blocked : Outcome

-- The errors of resolveParams, with the parameter and the step they name.
pub data ParamError : Type 0 where
  not_executed : Text → ℕ → ParamError
  no_result : Text → ℕ → Outcome → ParamError
  path_missing : Text → Text → ℕ → ParamError

pub data ConnectorError : Type 0 where
  connector_not_found : ConnectorError
  connector_query : Text → ConnectorError

-- The text of the error that blocked or denied a step, by its origin.
pub data ErrorDetail : Type 0 where
  no_error : ErrorDetail
  connector_error : ConnectorError → ErrorDetail
  param_error : ParamError → ErrorDetail
  dispatch_error : Text → ErrorDetail

pub record StepResult : Type 0 where
  pub step_order : ℤ
  pub workflow_step_id : ℕ
  pub resolved_tool_id : ℕ
  pub resolved_config_hash : Text
  pub projected_decision : Text
  pub outcome : Outcome
  pub result : Text
  pub error_detail : ErrorDetail

pub data Status : Type 0 where
  completed : Status
  run_denied : Status
  run_failed : Status

pub record RunResult : Type 0 where
  pub run_id : ℕ
  pub status : Status
  pub steps : List StepResult
