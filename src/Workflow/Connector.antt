-- ===== src/Workflow/Connector.antt =====
-- Reading a step's connector: eami-gateway/internal/workflow/connector.go, and the hash that pins
-- its configuration.
use eaim.Base.{[], Option, none, some, if◌then◌else◌, Result, ok, err}
use eaim.Base.Text.{Text, codes, text_eq}
use eaim.Approval.ConfigHash.{compute_config_hash}
use eaim.Workflow.Types.{ConnectorError, connector_not_found, connector_query}

-- A row of gateway_tools as it is scanned.
pub record ToolRow : Type 0 where
  pub name : Text
  pub tool_type : Text
  pub auth_type : Text
  pub base_url : Option Text
  pub provider : Option Text
  pub credentials_encrypted : Text
  pub action_paths : Text
  pub redaction_rules : Text

-- The action paths are kept as the text that configHashJSON marshals them to, empty without one.
pub record ConnectorRow : Type 0 where
  pub name : Text
  pub tool_type : Text
  pub auth_type : Text
  pub base_url_or_provider : Text
  pub credentials_encrypted : Text
  pub action_paths : Text
  pub redaction_rules : Text

pub data QueryError : Type 0 where
  no_rows : QueryError
  query_failed : Text → QueryError

abbrev text_or_empty : Option Text → Text
text_or_empty none = []
text_or_empty (some t) = t

unfoldable pub base_url_or_provider : ToolRow → Text
unfolding text_eq
base_url_or_provider row =
    if text_eq row.tool_type (codes "rest_api")
    then text_or_empty row.base_url
    else if text_eq row.tool_type (codes "ai_provider")
    then text_or_empty row.provider
    else []

module _ (canonical_paths : Text → Text) where
  unfoldable pub resolve_connector_by_id :
      Result QueryError ToolRow → Result ConnectorError ConnectorRow
  unfolding base_url_or_provider
  resolve_connector_by_id (err no_rows) = err connector_not_found
  resolve_connector_by_id (err (query_failed t)) = err (connector_query t)
  resolve_connector_by_id (ok row) = ok (record {
    name = row.name;
    tool_type = row.tool_type;
    auth_type = row.auth_type;
    base_url_or_provider = base_url_or_provider row;
    credentials_encrypted = row.credentials_encrypted;
    action_paths = canonical_paths row.action_paths;
    redaction_rules = row.redaction_rules;
  })

module _ (sha256_hex : Text → Text) where
  unfoldable pub row_hash : ConnectorRow → Text
  unfolding compute_config_hash
  row_hash c =
      compute_config_hash sha256_hex c.tool_type c.base_url_or_provider c.credentials_encrypted
        c.action_paths c.redaction_rules
