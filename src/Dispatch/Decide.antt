-- ===== src/Dispatch/Decide.antt =====
-- The switch of Dispatch in eami-gateway/cmd/gateway/dispatcher.go on the decision of the policy:
-- denied, escalated to a human, or sent.
use eaim.Base.{
  ℕ, [], ◌∷◌, ◌++◌, Option, none, some, Bool, true, false, ◌&&◌, ◌||◌, not, if◌then◌else◌, ok, err,
  ltb, ◌-◌, ◌%◌,
}
use eaim.Base.Text.{Text, codes, text_eq}
use eaim.Base.Int.{ℤ, pos, negsuc}
use eaim.Mcp as Mcp
use eaim.Audit.Entry.{Entry}
use eaim.Policy.Types.{Decision, Reason, action_deny, action_escalate}
use eaim.Approval.Types.{
  Request, called, State, agent_not_live, HoldError, resume_error, HoldOutcome,
}
use eaim.Approval.Limits.{release_limit}
use eaim.Approval.Outcome.{SubmitError, submit}
use eaim.Dispatch.Types.{
  OutcomeError, not_live, denied_by_policy, submit_failed, hold_failed, proxy_error,
  DispatchOutcome, Services,
}
use eaim.Dispatch.Target.{
  Target, to_static, to_rest_tool, to_ai_provider, call_of, approval_request,
}
use eaim.Dispatch.Hooks.{new_episode_step, new_entry, write_audit, finish}

-- The conversion int32(n) of a count.
unfoldable pub int32 : ℕ → ℤ
int32 n = let m = n % 4294967296 in if ltb m 2147483648 then pos m else negsuc (4294967295 - m)

abbrev pub count_of : Option ℕ → Option ℤ → Option ℤ
count_of none c = c
count_of (some n) c = some (int32 n)

abbrev pub policy_id_of : Option Text → Text
policy_id_of none = []
policy_id_of (some t) = t

-- The parameters are kept, unless a provider's mode of audit is not the full one.
unfoldable pub decided_entry : Target → Mcp.ActionContext → Option Text → Entry → Entry
unfolding text_eq
decided_entry (to_ai_provider row) ac policy_id e = record e {
  parameters = if text_eq row.audit_mode (codes "full") then some ac.parameters else none;
  policy_id = policy_id_of policy_id;
  data_handling = row.data_handling;
}
decided_entry to_static ac policy_id e = record e {
  parameters = some ac.parameters;
  policy_id = policy_id_of policy_id;
}
decided_entry (to_rest_tool row) ac policy_id e = record e {
  parameters = some ac.parameters;
  policy_id = policy_id_of policy_id;
}

-- The count of what a provider's call masked.
unfoldable pub redacted_entry : Target → ℕ → Entry → Entry
unfolding int32
redacted_entry (to_ai_provider row) n e = record e { redacted_count = some (int32 n) }
redacted_entry to_static n e = e
redacted_entry (to_rest_tool row) n e = e

-- notLiveOr.
unfoldable pub not_live_or : HoldError → OutcomeError
not_live_or (resume_error agent_not_live) = not_live
not_live_or e = hold_failed e

abbrev pub error_of : Option HoldError → Option OutcomeError
error_of none = none
error_of (some e) = some (not_live_or e)

abbrev pub succeeded : HoldOutcome → Bool
succeeded o = elim o.error [ none ↦ true | some e ↦ false ]

abbrev pub is_allowed : HoldOutcome → Bool
is_allowed o = text_eq o.status (codes "approved") && succeeded o

-- The second audit row of an escalation that was resolved.
unfoldable pub resolution_entry : ℕ → ℤ → Text → HoldOutcome → Entry → Entry
unfolding int32 text_eq
resolution_entry now latency approval_id o e = record e {
  decision = if is_allowed o then codes "allowed" else codes "denied";
  approval_id = approval_id;
  redacted_count = count_of o.redacted_count e.redacted_count;
  approved_by =
      if is_allowed o || not (text_eq o.status (codes "approved"))
      then o.approved_by
      else e.approved_by;
  timestamp = now;
  latency_ms = latency;
}

module _ {W : Type 0} (sv : Services W) (ac : Mcp.ActionContext) where
  unfoldable pub denied_outcome : Reason → Option Text → Option Text → DispatchOutcome
  unfolding new_episode_step
  denied_outcome reason policy_id audit_err = record {
    decision = codes "denied";
    result = [];
    error = some (denied_by_policy reason (policy_id_of policy_id));
    dispatched = false;
    episode_steps = new_episode_step ac (codes "blocked") [] ∷ [];
    episode_outcome = codes "blocked";
    audit_write_err = audit_err;
    audit_decision = codes "denied";
    resolution_audit_entry = none;
  }

  unfoldable pub dispatch_denied :
      Reason → Option Text → Entry → State W → DispatchOutcome × State W
  unfolding write_audit denied_outcome finish
  dispatch_denied reason policy_id entry s =
      let (e, s') = write_audit sv (record entry { decision = codes "denied" }) s in
      finish sv (denied_outcome reason policy_id e) s'

  -- The outcome of an escalation whose request could not be submitted.
  unfoldable pub unsubmitted_outcome : SubmitError → Option Text → DispatchOutcome
  unsubmitted_outcome e audit_err = record {
    decision = codes "escalated";
    result = [];
    error = some (submit_failed e);
    dispatched = false;
    episode_steps = [];
    episode_outcome = [];
    audit_write_err = audit_err;
    audit_decision = codes "escalated";
    resolution_audit_entry = none;
  }

  unfoldable pub held_outcome : Text → HoldOutcome → Entry → Option Text → W → DispatchOutcome
  unfolding resolution_entry new_episode_step
  held_outcome approval_id o entry audit_err w = record {
    decision = codes "escalated";
    result = o.result;
    error = error_of o.error;
    dispatched = false;
    episode_steps = new_episode_step ac (codes "escalated") o.result ∷ [];
    episode_outcome = if succeeded o then codes "success" else codes "failed";
    audit_write_err = audit_err;
    audit_decision = codes "escalated";
    resolution_audit_entry =
        if o.resolved
        then some (resolution_entry (sv.now w) (sv.since_hold w) approval_id o entry)
        else none;
  }

  -- The reservation is released before Hold blocks.
  unfoldable pub dispatch_held :
      Text → Request → Entry → Option Text → State W → DispatchOutcome × State W
  unfolding release_limit held_outcome finish
  dispatch_held approval_id req entry audit_err s =
      let (o, s') =
        sv.hold approval_id req (release_limit sv.checker sv.backend.release ac.org_id s) in
      finish sv (held_outcome approval_id o entry audit_err s'.world) s'

  -- The row that says "escalated" is written before the request is submitted.
  unfoldable pub dispatch_escalated : Target → Entry → State W → DispatchOutcome × State W
  unfolding write_audit submit approval_request dispatch_held unsubmitted_outcome finish
  dispatch_escalated target entry0 s0 =
      let entry = record entry0 { decision = codes "escalated" } in
      let (e, s) = write_audit sv entry s0 in
      let req = approval_request sv.backend.sha256_hex target ac in
      let (r, s') = submit sv.requests req s in
      elim r [
        | err k ↦ finish sv (unsubmitted_outcome k e) s'
        | ok approval_id ↦ dispatch_held approval_id req entry e s'
      ]

  unfoldable pub sent_outcome : Text → Option Text → Option Text → DispatchOutcome
  unfolding new_episode_step
  sent_outcome body (some t) audit_err = record {
    decision = codes "allowed";
    result = [];
    error = some (proxy_error t);
    dispatched = false;
    episode_steps = new_episode_step ac (codes "allowed") [] ∷ [];
    episode_outcome = codes "failed";
    audit_write_err = audit_err;
    audit_decision = codes "denied";
    resolution_audit_entry = none;
  }
  sent_outcome body none audit_err = record {
    decision = codes "allowed";
    result = body;
    error = none;
    dispatched = false;
    episode_steps = new_episode_step ac (codes "allowed") body ∷ [];
    episode_outcome = codes "success";
    audit_write_err = audit_err;
    audit_decision = codes "allowed";
    resolution_audit_entry = none;
  }

  abbrev pub sent_decision : Option Text → Text
  sent_decision none = codes "allowed"
  sent_decision (some t) = codes "denied"

  -- The call is made, and then recorded as allowed or, after an error, as denied.
  unfoldable pub dispatch_allowed : Target → Entry → State W → DispatchOutcome × State W
  unfolding call_of redacted_entry write_audit sent_outcome finish
  dispatch_allowed target entry s =
      let call = call_of target ac in
      let (a, w) = sv.backend.send s.world call in
      let (e, s') =
        write_audit sv
          (record (redacted_entry target a.redacted entry) { decision = sent_decision a.error })
          (record { world = w; log = s.log ++ called call ∷ [] }) in
      finish sv (sent_outcome a.response.body a.error e) s'

  unfoldable pub dispatch_decided : Target → Decision → State W → DispatchOutcome × State W
  unfolding dispatch_denied dispatch_escalated dispatch_allowed decided_entry new_entry text_eq
  dispatch_decided target d s =
      let entry = decided_entry target ac d.policy_id (new_entry sv ac s.world) in
      if text_eq d.action action_deny
      then dispatch_denied d.reason d.policy_id entry s
      else if text_eq d.action action_escalate
      then dispatch_escalated target entry s
      else dispatch_allowed target entry s
