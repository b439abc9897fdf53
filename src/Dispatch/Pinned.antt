-- ===== src/Dispatch/Pinned.antt =====
-- From the resolution of a tool to its call, over the wait for an approval: the dispatcher of
-- eami-gateway/cmd/gateway/dispatcher.go with the router of eami-gateway/internal/approval/router.go.
use eaim.Base.{[], false, ◌≡◌, ◌≢◌, ◌⊎◌}
use eaim.Base.Text.{Text, codes, text_eq}
use eaim.Mcp as Mcp
use eaim.Policy.Types.{action_deny, action_escalate}
use eaim.Workflow.Connector.{ToolRow}
use eaim.Approval.Types.{Request, Call}
use eaim.Approval.Resume.{ResolvedConnectorConfig, fetch_resolved_connector}
use eaim.Approval.Resumption.{Pinned, to_static}
use eaim.Approval.Pin.{content, SentTo}
use eaim.Approval.AtMostOnce.{PermittedOnce}
use eaim.Dispatch.Types.{Services}
use eaim.Dispatch.Target.{
  Target, to_rest_tool, to_ai_provider, text_or_empty, call_of, approval_request,
}
use eaim.Dispatch.View.{View}
use eaim.Dispatch.Held.{Approved}
use eaim.Dispatch.Safety.{Passed, decision_at}

-- The configuration of the target at the time of the dispatch.
abbrev pub pinned_config : Target → ResolvedConnectorConfig
pinned_config Target.to_static = record {
  tool_type = [];
  auth_type = [];
  base_url_or_provider = [];
  credentials_encrypted = [];
  action_paths = [];
  redaction_rules = [];
}
pinned_config (to_rest_tool row) = record {
  tool_type = codes "rest_api";
  auth_type = row.auth_type;
  base_url_or_provider = text_or_empty row.base_url;
  credentials_encrypted = row.credentials_encrypted;
  action_paths = row.action_paths;
  redaction_rules = [];
}
pinned_config (to_ai_provider row) = record {
  tool_type = codes "ai_provider";
  auth_type = row.auth_type;
  base_url_or_provider = row.provider;
  credentials_encrypted = row.credentials_encrypted;
  action_paths = [];
  redaction_rules = row.redaction_rules;
}

module _ {W : Type 0} (sv : Services W) (ac : Mcp.ActionContext) where
  abbrev pub request_of : Target → Request
  request_of t = approval_request sv.backend.sha256_hex t ac

  -- Two different configurations with one hash: that of the resolved target, and that of the
  -- connector which is read when the call resumes.
  abbrev pub Collision : Target → Type 0
  Collision t =
      (w : W) × (row : ToolRow) × Pinned sv.backend w (request_of t) row
      × (content (fetch_resolved_connector sv.backend row) ≢ content (pinned_config t))
      × (sv.backend.sha256_hex (content (fetch_resolved_connector sv.backend row))
          ≡ sv.backend.sha256_hex (content (pinned_config t)))

  -- A call that is the target's, which the policy let through; or one that was made after an
  -- approval, behind the gates: it goes where the configuration of the target leads, unless that
  -- configuration and the one that is read collide.
  pub data Followed (w : W) (c : Call) : Type 0 where
    direct :
        (t : Target)
        → Passed sv ac w t
        → text_eq (decision_at sv ac w t).action action_deny ≡ false
        → text_eq (decision_at sv ac w t).action action_escalate ≡ false
        → c ≡ call_of t ac
        → Followed w c
    after_approval :
        (t : Target)
        → Passed sv ac w t
        → (decision_at sv ac w t).action ≡ action_escalate
        → Approved sv.backend sv.hold (request_of t) c
        → PermittedOnce sv.backend (request_of t) c
        → SentTo sv.backend (pinned_config t) (request_of t) c ⊎ Collision t
        → Followed w c
