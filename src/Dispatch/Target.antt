-- ===== src/Dispatch/Target.antt =====
-- Where a call goes: resolveDynamicTool and resolveAIProviderTool of
-- eami-gateway/cmd/gateway/main.go, and what Dispatch makes of their results.
use eaim.Base.{[], Option, none, some, ◌||◌, if◌then◌else◌, Result, ok, err}
use eaim.Base.Text.{Text, codes, text_eq, is_empty}
use eaim.Base.Int.{pos}
use eaim.Mcp as Mcp
use eaim.Policy.Types as Policy
use eaim.Workflow.Connector.{QueryError, no_rows, query_failed}
use eaim.Approval.ConfigHash.{compute_config_hash}
use eaim.Approval.Types.{
  Request, ToolRequest, RestRow, ProviderRow, Call, static_call, rest_call, provider_call,
}
use eaim.Dispatch.Types.{Services}

pub data Target : Type 0 where
  to_static : Target
  to_rest_tool : RestRow → Target
  to_ai_provider : ProviderRow → Target

-- Any error of the query falls back to the static proxy, and so does another type.
unfoldable pub resolve_dynamic_tool : {W : Type 0} → Services W → W → Text → Text → Option RestRow
unfolding is_empty text_eq
resolve_dynamic_tool sv w org_id tool =
    if is_empty org_id || is_empty tool then none else elim (sv.find_tool w org_id tool) [
      | err e ↦ none
      | ok t ↦ if text_eq t.tool_type (codes "rest_api") then some t.row else none
    ]

abbrev provider_or_error : Result QueryError ProviderRow → Result Text (Option ProviderRow)
provider_or_error (err no_rows) = ok none
provider_or_error (err (query_failed t)) = err t
provider_or_error (ok row) = ok (some row)

unfoldable pub resolve_ai_provider_tool :
    {W : Type 0} → Services W → W → Text → Text → Result Text (Option ProviderRow)
unfolding is_empty
resolve_ai_provider_tool sv w org_id tool =
    if is_empty org_id || is_empty tool
    then ok none
    else provider_or_error (sv.find_provider w org_id tool)

unfoldable pub resolve_target :
    {W : Type 0} → Services W → W → Mcp.ActionContext → Result Text Target
unfolding resolve_dynamic_tool resolve_ai_provider_tool
resolve_target sv w ac = elim (resolve_dynamic_tool sv w ac.org_id ac.tool) [
  | some row ↦ ok (to_rest_tool row)
  | none ↦ elim (resolve_ai_provider_tool sv w ac.org_id ac.tool) [
    | err t ↦ err t
    | ok none ↦ ok to_static
    | ok (some row) ↦ ok (to_ai_provider row)
  ]
]

abbrev pub server_id : Target → Text
server_id to_static = []
server_id (to_rest_tool row) = row.id
server_id (to_ai_provider row) = row.id

-- ToPolicyContext of eami-gateway/internal/mcp/handler.go, with the ID of the resolved tool.
unfoldable pub to_policy_context : Mcp.ActionContext → Text → Policy.ActionContext
to_policy_context ac tool_server_id = record {
  org_id = ac.org_id;
  workspace_id = ac.workspace_id;
  agent_id = [];
  agent_name = ac.agent_name;
  scope = ac.agent_scope;
  agent_scope = [];
  model = [];
  owner = [];
  risk_tier = [];
  tool_name = ac.tool;
  action_type = ac.action;
  action_verb = [];
  tool_server_id = tool_server_id;
  parameters = ac.parameters;
  environment = ac.environment;
  estimated_record_count = pos 0;
  session_actions = [];
  timestamp = 0;
}

unfoldable pub tool_request_of : Mcp.ActionContext → ToolRequest
tool_request_of ac = record {
  tool_name = ac.tool;
  action = ac.action;
  params = ac.parameters;
  session_id = ac.session_id;
}

unfoldable pub call_of : Target → Mcp.ActionContext → Call
unfolding tool_request_of
call_of to_static ac = static_call (tool_request_of ac)
call_of (to_rest_tool row) ac = rest_call row (tool_request_of ac)
call_of (to_ai_provider row) ac = provider_call row ac.action ac.parameters

abbrev pub text_or_empty : Option Text → Text
text_or_empty none = []
text_or_empty (some t) = t

-- The ID and the configuration hash that an escalated request is pinned to.
unfoldable pub pin : (Text → Text) → Target → Text × Text
unfolding compute_config_hash
pin sha256_hex to_static = ([], [])
pin sha256_hex (to_ai_provider row) = (
  row.id,
  compute_config_hash sha256_hex (codes "ai_provider") row.provider row.credentials_encrypted []
      row.redaction_rules,
)
pin sha256_hex (to_rest_tool row) = (
  row.id,
  compute_config_hash sha256_hex (codes "rest_api") (text_or_empty row.base_url)
      row.credentials_encrypted row.action_paths [],
)

unfoldable pub approval_request : (Text → Text) → Target → Mcp.ActionContext → Request
unfolding pin
approval_request sha256_hex target ac =
    let (id, hash) = pin sha256_hex target in
    record {
      org_id = ac.org_id;
      agent_id = ac.agent_uuid;
      token_id = ac.token_id;
      api_key_id = ac.api_key_id;
      agent_name = ac.agent_name;
      tool = ac.tool;
      action = ac.action;
      parameters = ac.parameters;
      session_id = ac.session_id;
      resolved_tool_id = id;
      resolved_config_hash = hash;
    }
