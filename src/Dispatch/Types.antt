-- ===== src/Dispatch/Types.antt =====
-- What a dispatch results in and what the dispatcher uses: the types of
-- eami-gateway/cmd/gateway/dispatcher.go.
use eaim.Base.{ℕ, List, Option, Bool, Result}
use eaim.Base.Text.{Text}
use eaim.Base.Int.{ℤ}
use eaim.Audit.Entry.{Entry}
use eaim.Policy.Types.{Rule, Reason, Evaluator}
use eaim.Policy.Scope.{MapOrders}
use eaim.Registry.Liveness.{Liveness}
use eaim.Workflow.Connector.{QueryError}
use eaim.Approval.Types.{
  Request, RestRow, ProviderRow, LicenseChecker, Backend, EpisodeStep, State, HoldError,
  HoldOutcome,
}
use eaim.Approval.Outcome.{SubmitError, Requests}

-- The errors of a dispatch, told apart by the place where they arise.
pub data OutcomeError : Type 0 where
  not_live : OutcomeError
  not_licensed : OutcomeError
  over_limit : OutcomeError
  contended : OutcomeError
  provider_unresolved : Text → OutcomeError
  denied_by_policy : Reason → Text → OutcomeError
  submit_failed : SubmitError → OutcomeError
  hold_failed : HoldError → OutcomeError
  proxy_error : Text → OutcomeError

pub record DispatchOutcome : Type 0 where
  pub decision : Text
  pub result : Text
  pub error : Option OutcomeError
  pub dispatched : Bool
  pub episode_steps : List EpisodeStep
  pub episode_outcome : Text
  pub audit_write_err : Option Text
  pub audit_decision : Text
  pub resolution_audit_entry : Option Entry

-- A row that toolrouter's Resolve finds by name, with its type.
pub record FoundTool : Type 0 where
  pub tool_type : Text
  pub row : RestRow

-- The fields of the Dispatcher, over a state of the rest of the system; the evaluator is read again
-- for each dispatch, and times are measured from that state.
pub record Services (W : Type 0) : Type 0 where
  pub backend : Backend W
  pub liveness : Option (W → Text → Text → Text → Text → Result Text Liveness)
  pub checker : LicenseChecker W
  pub requests : Requests W
  pub find_tool : W → Text → Text → Result QueryError FoundTool
  pub find_provider : W → Text → Text → Result QueryError ProviderRow
  pub evaluator : W → Evaluator
  pub orders : W → Rule → MapOrders
  pub elapsed : W → ℕ
  pub write : Entry → W → Option Text × W
  pub hold : Text → Request → State W → HoldOutcome × State W
  pub parse_uuid : Text → Option ℕ
  pub now : W → ℕ
  pub since_start : W → ℤ
  pub since_hold : W → ℤ
