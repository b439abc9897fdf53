-- ===== src/Mcp.antt =====
-- What a tool call carries from the MCP handler to the dispatcher: eami-gateway/internal/mcp/handler.go.
pub mod Sessions
pub mod Closing
pub mod Unique
mod Examples
use eaim.Base.{ℕ, Option}
use eaim.Base.Text.{Text}
use eaim.Base.Json.{Fields}
use eaim.Base.Int.{ℤ}

-- ActionContext; an instant is a number of milliseconds.
pub record ActionContext : Type 0 where
  pub agent_id : Text
  pub token_id : Text
  pub api_key_id : Text
  pub agent_uuid : Text
  pub agent_name : Text
  pub org_id : Text
  pub workspace_id : Text
  pub agent_scope : Text
  pub tool : Text
  pub action : Text
  pub parameters : Fields
  pub environment : Text
  pub session_id : Text
  pub workflow_run_id : Text
  pub step_index : Option ℤ
  pub received_at : ℕ

-- An error of the dispatcher: a PolicyDeniedError or any other, with its message.
pub data DispatchError : Type 0 where
  policy_denied : Text → DispatchError
  other_error : Text → DispatchError
