-- ===== src/ToolRouter/Examples.antt =====
-- The theorem on forwarded calls at a tool with one path, whose credentials are stored.
use eaim.Base.{ℕ, ◌+◌, [], ◌∷◌, some, true, ok}
use eaim.Base.Text.{codes}
use eaim.Base.Json.{end}
use eaim.Approval.Types.{ToolRequest}
use eaim.ToolRouter.Forward.{RegisteredTool, Router}

abbrev crm : RegisteredTool
crm = record {
  id = codes "5";
  tool_type = codes "rest_api";
  base_url = some (codes "https://crm/");
  credentials_encrypted = codes "sealed";
  action_paths =
      (codes "delete", record { path = codes "/contacts"; method = codes "delete" }) ∷ [];
}

abbrev router : Router ℕ
router = record {
  cipher = some (λ t. ok t);
  unmarshal = λ t. some (record { api_key = t; oauth_client_id = []; oauth_client_secret = [] });
  valid_url = λ t. true;
  client_do = λ w q. (ok (record { status = 200; body = q.url }), w + 1);
}

abbrev delete_contacts : ToolRequest
delete_contacts = record {
  tool_name = codes "crm";
  action = codes "delete";
  params = end;
  session_id = codes "s";
}
