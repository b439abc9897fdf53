-- ===== src/Dispatch/Gates.antt =====
-- Dispatch of eami-gateway/cmd/gateway/dispatcher.go: the gates in front of the policy, and the one
-- shape that the five rejections share.
use eaim.Base.{[], ◌∷◌, Option, none, some, false, not, if◌then◌else◌, Result, ok, err}
use eaim.Base.Text.{Text, codes, is_empty}
use eaim.Mcp as Mcp
use eaim.Registry.Liveness.{Liveness, live, agent_not_active, token_revoked}
use eaim.Policy.Types.{Decision, no_matching_rule, action_allow}
use eaim.Policy.Evaluator.{evaluate}
use eaim.Approval.Types.{State}
use eaim.Approval.Limits.{within_limit, reserve_limit, release_limit}
use eaim.Dispatch.Types.{
  OutcomeError, not_live, not_licensed, over_limit, contended, provider_unresolved, DispatchOutcome,
  Services,
}
use eaim.Dispatch.Target.{Target, resolve_target, server_id, to_policy_context}
use eaim.Dispatch.Hooks.{new_episode_step, new_entry, write_audit, finish}
use eaim.Dispatch.Decide.{dispatch_decided}

unfoldable pub liveness_reason : Result Text Liveness → Text
liveness_reason (err t) = codes "liveness_unavailable"
liveness_reason (ok live) = []
liveness_reason (ok token_revoked) = codes "token_revoked"
liveness_reason (ok agent_not_active) = codes "agent_not_active"

-- An evaluation that fails counts as allowed.
abbrev pub decision_or_allow : Result Text Decision → Decision
decision_or_allow (ok d) = d
decision_or_allow (err t) = record {
  action = action_allow;
  policy_id = none;
  policy_name = none;
  reason = no_matching_rule;
  eval_time_ms = 0;
}

module _ {W : Type 0} (sv : Services W) (ac : Mcp.ActionContext) where
  -- notLiveReason, empty for a live agent.
  unfoldable pub not_live_reason : W → Text
  unfolding liveness_reason
  not_live_reason w = elim sv.liveness [
    | none ↦ codes "liveness_unavailable"
    | some check ↦ liveness_reason (check w ac.agent_uuid ac.org_id ac.token_id ac.api_key_id)
  ]

  unfoldable pub rejected_outcome : OutcomeError → Option Text → DispatchOutcome
  unfolding new_episode_step
  rejected_outcome error audit_err = record {
    decision = codes "denied";
    result = [];
    error = some error;
    dispatched = false;
    episode_steps = new_episode_step ac (codes "blocked") [] ∷ [];
    episode_outcome = codes "blocked";
    audit_write_err = audit_err;
    audit_decision = codes "denied";
    resolution_audit_entry = none;
  }

  -- rejectOnNotLive and its four siblings, which differ in the error alone.
  unfoldable pub reject : OutcomeError → State W → DispatchOutcome × State W
  unfolding write_audit new_entry rejected_outcome finish
  reject error s =
      let (e, s') =
        write_audit sv (record (new_entry sv ac s.world) { decision = codes "denied" }) s in
      finish sv (rejected_outcome error e) s'

  -- The evaluator that is current at this time, on the context of the call.
  unfoldable pub decide : W → Target → Decision
  unfolding evaluate to_policy_context
  decide w target = decision_or_allow (
      evaluate (sv.orders w) (sv.elapsed w) (sv.evaluator w)
        (to_policy_context ac (server_id target)))

  unfoldable pub dispatch_reserved : State W → DispatchOutcome × State W
  unfolding resolve_target reject decide dispatch_decided
  dispatch_reserved s = elim (resolve_target sv s.world ac) [
    | err t ↦ reject (provider_unresolved t) s
    | ok target ↦ dispatch_decided sv ac target (decide s.world target) s
  ]

  -- The deferred release of the reservation.
  unfoldable pub release_after : DispatchOutcome × State W → DispatchOutcome × State W
  unfolding release_limit
  release_after (o, s) = (o, release_limit sv.checker sv.backend.release ac.org_id s)

  -- Dispatch, with the outcome that the hooks see, of which it returns the result and the error.
  unfoldable pub dispatch : State W → DispatchOutcome × State W
  unfolding not_live_reason reject within_limit reserve_limit dispatch_reserved release_after
      is_empty
  dispatch s =
      if not (is_empty (not_live_reason s.world))
      then reject not_live s
      else if not (sv.checker.module_licensed s.world ac.org_id (codes "gateway"))
      then reject not_licensed s
      else if not (within_limit sv.checker s.world ac.org_id)
      then reject over_limit s
      else (let (reserved, w) = reserve_limit sv.checker s.world ac.org_id in
          if not reserved
          then reject contended (record s { world = w })
          else release_after (dispatch_reserved (record s { world = w })))
