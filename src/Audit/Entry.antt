-- ===== src/Audit/Entry.antt =====
-- eami-gateway/internal/audit/writer.go: the entry and the text that its hash covers.
use eaim.Base.{ℕ, ◌++◌, Option}
use eaim.Base.Text.{Text, codes}
use eaim.Base.Int.{ℤ}
use eaim.Base.Json.{Fields}

-- What the code takes from elsewhere: crypto/sha256 with hex.EncodeToString, the text form of a
-- UUID (github.com/google/uuid) and time.Format at RFC 3339 of a UTC instant.
pub record Formats : Type 0 where
  pub sha256_hex : Text → Text
  pub uuid_string : ℕ → Text
  pub rfc3339 : ℕ → Text

-- A UUID is its number, 0 for uuid.Nil; an instant is a number, 0 for Go's zero time.
pub record Entry : Type 0 where
  pub id : ℕ
  pub org_id : ℕ
  pub agent_id : ℕ
  pub agent_name : Text
  pub tool_name : Text
  pub action : Text
  pub parameters : Option Fields
  pub decision : Text
  pub policy_id : Text
  pub approval_id : Text
  pub approved_by : Text
  pub latency_ms : ℤ
  pub token_in : ℤ
  pub token_out : ℤ
  pub timestamp : ℕ
  pub data_handling : Text
  pub workflow_run_id : ℕ
  pub step_index : Option ℤ
  pub redacted_count : Option ℤ
  pub prev_hash : Text
  pub hash : Text

module _ (f : Formats) where
  -- prevHash || id || orgID || agentName || toolName || action || decision || timestamp.
  unfoldable pub content : Text → Entry → Text
  content prev e =
      prev
      ++ (f.uuid_string e.id
          ++ (f.uuid_string e.org_id
              ++ (e.agent_name
                  ++ (e.tool_name ++ (e.action ++ (e.decision ++ f.rfc3339 e.timestamp))))))

  unfoldable pub row_hash : Text → Entry → Text
  row_hash prev e = f.sha256_hex (content prev e)

  unfoldable pub genesis_hash : Text
  genesis_hash = f.sha256_hex (codes "eami-genesis-2026")
