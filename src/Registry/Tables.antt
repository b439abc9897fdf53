-- ===== src/Registry/Tables.antt =====
-- The tables that the registry reads, a UUID being a number.
use eaim.Base.{ℕ, List, Bool}
use eaim.Base.Text.{Text}

-- A row of gateway_agents; no workspace reads as the empty text.
pub record AgentRow : Type 0 where
  pub id : ℕ
  pub org_id : ℕ
  pub name : Text
  pub scope : Text
  pub risk_tier : Text
  pub status : Text
  pub workspace_id : Text

pub record KeyRow : Type 0 where
  pub id : ℕ
  pub revoked : Bool

pub record Tables : Type 0 where
  pub gateway_agents : List AgentRow
  pub revoked_ai_tokens : List Text
  pub api_keys : List KeyRow
