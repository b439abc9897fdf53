-- ===== src/Dispatch/Hooks.antt =====
-- The audit row of a dispatch and its hooks in eami-gateway/cmd/gateway/dispatcher.go. The hook that
-- logs a failed write changes nothing.
use eaim.Base.{ℕ, [], ◌∷◌, ◌++◌, Option, none, some, Bool, true, false, if◌then◌else◌}
use eaim.Base.Text.{Text}
use eaim.Base.Int.{pos}
use eaim.Mcp as Mcp
use eaim.Audit.Entry.{Entry}
use eaim.Approval.Types.{EpisodeStep, audited, usage_recorded, episode_recorded, State}
use eaim.Dispatch.Types.{OutcomeError, DispatchOutcome, Services}

unfoldable pub new_episode_step : Mcp.ActionContext → Text → Text → EpisodeStep
new_episode_step ac decision result = record {
  tool_name = ac.tool;
  action = ac.action;
  params = ac.parameters;
  result = result;
  decision = decision;
  timestamp = ac.received_at;
}

unfoldable pub record_token_usage_hook : {W : Type 0} → DispatchOutcome → State W → State W
record_token_usage_hook o s =
    if o.dispatched then record s { log = s.log ++ usage_recorded o.result ∷ [] } else s

unfoldable pub record_episode_hook : {W : Type 0} → DispatchOutcome → State W → State W
record_episode_hook o s = elim o.episode_steps [
  | [] ↦ s
  | step ∷ steps ↦ record s {
    log = s.log ++ episode_recorded o.episode_steps o.episode_outcome ∷ [];
  }
]

abbrev pub no_error : Option OutcomeError → Bool
no_error none = true
no_error (some e) = false

module _ {W : Type 0} (sv : Services W) where
  -- A text that is no UUID gives the nil UUID.
  unfoldable pub uuid_or_nil : Text → ℕ
  uuid_or_nil t = elim (sv.parse_uuid t) [ none ↦ 0 | some n ↦ n ]

  unfoldable pub new_entry : Mcp.ActionContext → W → Entry
  unfolding uuid_or_nil
  new_entry ac w = record {
    id = 0;
    org_id = uuid_or_nil ac.org_id;
    agent_id = uuid_or_nil ac.agent_uuid;
    agent_name = ac.agent_name;
    tool_name = ac.tool;
    action = ac.action;
    parameters = none;
    decision = [];
    policy_id = [];
    approval_id = [];
    approved_by = [];
    latency_ms = sv.since_start w;
    token_in = pos 0;
    token_out = pos 0;
    timestamp = ac.received_at;
    data_handling = [];
    workflow_run_id = uuid_or_nil ac.workflow_run_id;
    step_index = ac.step_index;
    redacted_count = none;
    prev_hash = [];
    hash = [];
  }

  unfoldable pub write_audit : Entry → State W → Option Text × State W
  write_audit entry s =
      let (e, w) = sv.write entry s.world in
      (e, record { world = w; log = s.log ++ audited entry e ∷ [] })

  unfoldable pub record_escalation_resolution_audit_hook : DispatchOutcome → State W → State W
  unfolding write_audit
  record_escalation_resolution_audit_hook o s = elim o.resolution_audit_entry [
    | none ↦ s
    | some entry ↦ (write_audit entry s).1
  ]

  -- The one exit: Dispatched is set, and the hooks run in order.
  unfoldable pub finish : DispatchOutcome → State W → DispatchOutcome × State W
  unfolding record_escalation_resolution_audit_hook record_token_usage_hook record_episode_hook
  finish o0 s =
      let o = record o0 { dispatched = no_error o0.error } in
      (
        o,
        record_episode_hook o
            (record_token_usage_hook o (record_escalation_resolution_audit_hook o s)),
      )
