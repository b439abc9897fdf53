-- ===== src/Dispatch/OrgFloor.antt =====
-- The org floor of eami-policy behind the dispatcher of eami-gateway/cmd/gateway/dispatcher.go.
use eaim.Base.{List, [], true, false, ◌≡◌, sym, ap, ◌∙◌, inl, inr, subst, In}
use eaim.Base.Text.{Text, text_eq, text_eq_refl}
use eaim.Base.Int.{◌≤ℤ◌}
use eaim.Base.Sort.{IsSort}
use eaim.Mcp as Mcp
use eaim.Policy.Types.{Rule, action_deny, action_escalate}
use eaim.Policy.Evaluator.{
  EvaluatorOption, apply_options, default_config, is_global, rule_less, new_evaluator,
  matched_decision, evaluate,
}
use eaim.Policy.FirstMatch.{fires}
use eaim.Policy.Floor.{evaluate-floor}
use eaim.Approval.Types.{Request, State}
use eaim.Dispatch.Types.{DispatchOutcome, Services}
use eaim.Dispatch.Target.{Target, server_id, to_policy_context}
use eaim.Dispatch.Gates.{decision_or_allow, decide, dispatch}
use eaim.Dispatch.View.{View}
use eaim.Dispatch.Held.{IsHeld}
use eaim.Dispatch.Ends.{Failed, EndsWith, EndsWith-mono}
use eaim.Dispatch.Safety.{allowed, escalated, Ended, dispatch-Ended}

deny_not_escalate : ¬ (action_deny ≡ action_escalate)
deny_not_escalate e = absurd (cc)

module _ {W : Type 0} (sv : Services W) (ac : Mcp.ActionContext)
    (holds : (id : Text) (req : Request) (s : State W)
      → IsHeld sv.backend id req s (sv.hold id req s)) where
  Ended-denied :
      (w : W) (o : DispatchOutcome) (v : View)
      → ((w : W) (t : Target) → (decide sv ac w t).action ≡ action_deny)
      → Ended sv ac w o v
      → (v.calls ≡ []) × (v.usages ≡ []) × Failed o
  Ended-denied w o v d (inl r) = (ap (λ x. x.calls) r.seen, ap (λ x. x.usages) r.seen, r.failed)
  Ended-denied w o v d (inr (t, p, allowed n m x)) =
      let e = subst (λ a. text_eq a action_deny ≡ false) (d _ t) n in
      absurd (cc (e, text_eq_refl action_deny))
  Ended-denied w o v d (inr (t, p, escalated q x)) = absurd (deny_not_escalate (sym (d _ t) ∙ q))

  -- Where Hold runs as its steps allow and the evaluator is always that of one set of rules, in which
  -- a rule for all workspaces fires on the context of the call and every such rule of at most its
  -- priority denies, a dispatch makes no call, records no usage and ends with an error, whatever the
  -- rules of the workspaces say.
  pub dispatch-floor :
      (sort : List Rule → List Rule)
      → IsSort rule_less sort
      → (rules : List Rule) (opts : List EvaluatorOption) (g : Rule)
      → ((w : W) → sv.evaluator w ≡ new_evaluator sort rules opts)
      → In g rules
      → is_global g ≡ true
      → ((w : W) (t : Target)
          → fires
              (sv.orders w)
              (apply_options default_config opts)
              (to_policy_context ac (server_id t))
              g
            ≡ true)
      → ((r : Rule)
          → In r rules
          → is_global r ≡ true
          → r.priority ≤ℤ g.priority
          → r.action ≡ action_deny)
      → (s : State W)
      → EndsWith sv ac (λ o v. (v.calls ≡ []) × (v.usages ≡ []) × Failed o) s (dispatch sv ac s)
  unfolding decide matched_decision
  dispatch-floor sort srt rules opts g same m top f deny s =
      EndsWith-mono sv ac (Ended sv ac s.world) _ s (dispatch sv ac s)
        (λ o v x. Ended-denied s.world o v denied x) (dispatch-Ended sv ac holds s)
    where
      denied : (w : W) (t : Target) → (decide sv ac w t).action ≡ action_deny
      denied w t =
          let (r, n, top', le, e) =
            evaluate-floor sort srt (sv.orders w) (sv.elapsed w) rules opts
              (to_policy_context ac (server_id t)) g m top (f w t) in
          ap
            (λ ev.
              (decision_or_allow (
                evaluate (sv.orders w) (sv.elapsed w) ev
                  (to_policy_context ac (server_id t)))).action)
            (same w)
          ∙ ap (λ d. (decision_or_allow d).action) e
          ∙ deny r n top' le
