-- ===== src/Approval/Resume.antt =====
-- dispatchApproved of eami-gateway/internal/approval/router.go: an approved call resumes against the
-- connector that was pinned when it was escalated, or not at all. A write of the resume outcome that
-- fails is only warned of.
use eaim.Base.{
  ℕ, [], ◌∷◌, ◌++◌, Option, none, some, Bool, true, false, not, if◌then◌else◌, Result, ok, err,
}
use eaim.Base.Text.{Text, codes, text_eq, is_empty}
use eaim.Registry.Liveness.{Liveness, live}
use eaim.Workflow.Connector.{ToolRow, QueryError, no_rows, query_failed, base_url_or_provider}
use eaim.Approval.ConfigHash.{compute_config_hash}
use eaim.Approval.Limits.{within_limit, reserve_limit, release_limit}
use eaim.Approval.Types.{
  Request, ToolRequest, ToolResponse, RestRow, ProviderRow, Call, static_call, rest_call,
  provider_call, Answer, Backend, called, resume_recorded, State, ResumeError, agent_not_live,
  license_revoked, usage_limit_exceeded, usage_limit_contention, connector_unverified,
  connector_deleted, config_changed, no_router, not_dispatchable, downstream, Resumed,
}

abbrev is_live : Result Text Liveness → Bool
is_live (ok live) = true
is_live _ = false

abbrev no_response : ToolResponse
no_response = record { status = 0; body = [] }

-- fetchResolvedConnector: the row with the fields that the hash covers.
pub record ResolvedConnectorConfig : Type 0 where
  pub tool_type : Text
  pub auth_type : Text
  pub base_url_or_provider : Text
  pub credentials_encrypted : Text
  pub action_paths : Text
  pub redaction_rules : Text

unfoldable pub tool_request : Request → ToolRequest
tool_request req = record {
  tool_name = req.tool;
  action = req.action;
  params = req.parameters;
  session_id = req.session_id;
}

unfoldable pub provider_row : Text → ResolvedConnectorConfig → ProviderRow
provider_row id c = record {
  id = id;
  provider = c.base_url_or_provider;
  auth_type = c.auth_type;
  credentials_encrypted = c.credentials_encrypted;
  audit_mode = [];
  data_handling = [];
  redaction_rules = c.redaction_rules;
}

unfoldable pub rest_row : Text → ResolvedConnectorConfig → RestRow
rest_row id c = record {
  id = id;
  auth_type = c.auth_type;
  base_url = some c.base_url_or_provider;
  credentials_encrypted = c.credentials_encrypted;
  action_paths = c.action_paths;
}

abbrev pub downstream_error : Option Text → Option ResumeError
downstream_error none = none
downstream_error (some t) = some (downstream t)

module _ {W : Type 0} where
  unfoldable pub refuse : Text → Text → ResumeError → State W → Resumed × State W
  refuse id outcome e s = (
    record { response = no_response; redacted_count = none; error = some e },
    record s { log = s.log ++ resume_recorded id outcome ∷ [] },
  )

  unfoldable pub failed : ResumeError → State W → Resumed × State W
  failed e s = (record { response = no_response; redacted_count = none; error = some e }, s)

module _ {W : Type 0} (b : Backend W) where
  unfoldable pub live_again : W → Request → Bool
  live_again w req = elim b.live [
    | none ↦ false
    | some check ↦ is_live (check w req.agent_id req.org_id req.token_id req.api_key_id)
  ]

  unfoldable pub licensed_again : W → Request → Bool
  licensed_again w req = elim b.license [
    | none ↦ true
    | some l ↦ l.module_licensed w req.org_id (codes "gateway")
  ]

  unfoldable pub within_again : W → Request → Bool
  unfolding within_limit
  within_again w req = elim b.license [ none ↦ true | some l ↦ within_limit l w req.org_id ]

  unfoldable pub reserve_again : W → Request → Bool × W
  unfolding reserve_limit
  reserve_again w req = elim b.license [ none ↦ (true, w) | some l ↦ reserve_limit l w req.org_id ]

  -- A tool that was not resolved dynamically goes through the static proxy, recorded before the call.
  unfoldable pub resume_static : Text → Request → State W → Resumed × State W
  unfolding tool_request
  resume_static id req s =
      let call = static_call (tool_request req) in
      let (a, w) = b.send s.world call in
      (
        record { response = a.response; redacted_count = none; error = downstream_error a.error },
        record {
          world = w;
          log = s.log ++ resume_recorded id (codes "static_fallback") ∷ called call ∷ [];
        },
      )

  -- The call of a pinned connector, recorded after it.
  unfoldable pub resume_call : Text → Call → (Answer → Option ℕ) → State W → Resumed × State W
  resume_call id call redacted s =
      let (a, w) = b.send s.world call in
      (
        record {
          response = a.response;
          redacted_count = redacted a;
          error = downstream_error a.error;
        },
        record {
          world = w;
          log = s.log ++ called call ∷ resume_recorded id (codes "dispatched") ∷ [];
        },
      )

  unfoldable pub fetch_resolved_connector : ToolRow → ResolvedConnectorConfig
  unfolding base_url_or_provider
  fetch_resolved_connector row = record {
    tool_type = row.tool_type;
    auth_type = row.auth_type;
    base_url_or_provider = base_url_or_provider row;
    credentials_encrypted = row.credentials_encrypted;
    action_paths = b.canonical_paths row.action_paths;
    redaction_rules = row.redaction_rules;
  }

  unfoldable pub config_hash : ResolvedConnectorConfig → Text
  unfolding compute_config_hash
  config_hash c =
      compute_config_hash b.sha256_hex c.tool_type c.base_url_or_provider c.credentials_encrypted
        c.action_paths c.redaction_rules

  -- The switch on the type of the verified connector.
  unfoldable pub resume_verified :
      Text → Request → ResolvedConnectorConfig → State W → Resumed × State W
  unfolding resume_call refuse failed provider_row rest_row tool_request text_eq
  resume_verified id req c s =
      if text_eq c.tool_type (codes "ai_provider")
      then (if b.has_provider_router
          then resume_call id
              (provider_call (provider_row req.resolved_tool_id c) req.action req.parameters)
              (λ a. some a.redacted) s
          else failed (no_router req.resolved_tool_id) s)
      else if text_eq c.tool_type (codes "rest_api")
      then (if b.has_tool_router
          then resume_call id (rest_call (rest_row req.resolved_tool_id c) (tool_request req))
              (λ a. none) s
          else failed (no_router req.resolved_tool_id) s)
      else refuse id (codes "config_changed") (not_dispatchable req.resolved_tool_id c.tool_type) s

  -- The pinned connector is read by its ID and its hash compared.
  unfoldable pub resume_pinned :
      Text → Request → Result QueryError ToolRow → State W → Resumed × State W
  unfolding resume_verified config_hash fetch_resolved_connector refuse failed text_eq
  resume_pinned id req (err no_rows) s =
      refuse id (codes "connector_deleted") (connector_deleted req.resolved_tool_id) s
  resume_pinned id req (err (query_failed t)) s =
      failed (connector_unverified req.resolved_tool_id t) s
  resume_pinned id req (ok row) s =
      let c = fetch_resolved_connector row in
      if not (text_eq (config_hash c) req.resolved_config_hash)
      then refuse id (codes "config_changed") (config_changed req.resolved_tool_id) s
      else resume_verified id req c s

  -- Behind the gates.
  unfoldable pub resume : Text → Request → State W → Resumed × State W
  unfolding resume_static resume_pinned is_empty
  resume id req s =
      if is_empty req.resolved_tool_id
      then resume_static id req s
      else resume_pinned id req (b.connector s.world req.org_id req.resolved_tool_id) s

  -- The deferred release of the reservation.
  unfoldable pub release_again : Request → State W → State W
  unfolding release_limit
  release_again req s = elim b.license [
    | none ↦ s
    | some l ↦ release_limit l b.release req.org_id s
  ]

  unfoldable pub released_after : Request → Resumed × State W → Resumed × State W
  unfolding release_again
  released_after req (r, s) = (r, release_again req s)

  unfoldable pub dispatch_approved : Text → Request → State W → Resumed × State W
  unfolding live_again licensed_again within_again reserve_again refuse resume released_after
  dispatch_approved id req s =
      if not (live_again s.world req)
      then refuse id (codes "agent_not_active") agent_not_live s
      else if not (licensed_again s.world req)
      then refuse id (codes "license_revoked") license_revoked s
      else if not (within_again s.world req)
      then refuse id (codes "usage_limit_exceeded") usage_limit_exceeded s
      else (let (reserved, w) = reserve_again s.world req in
          if not reserved
          then refuse id (codes "usage_limit_contention") usage_limit_contention
              (record s { world = w })
          else released_after req (resume id req (record s { world = w })))
