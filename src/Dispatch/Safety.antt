-- ===== src/Dispatch/Safety.antt =====
-- How a dispatch of eami-gateway/cmd/gateway/dispatcher.go ends, and what it never does.
use eaim.Base.{
  [], ◌∷◌, true, false, ok, ◌≡◌, refl, ap, ◌∙◌, ◌⊎◌, inl, inr, Bool-cases, Result-cases,
}
use eaim.Base.Text.{Text, codes, text_eq, text_eq→eq, is_empty}
use eaim.Mcp as Mcp
use eaim.Policy.Types.{Decision, action_deny, action_escalate}
use eaim.Approval.Types.{Request, Call, State}
use eaim.Approval.Limits.{within_limit, reserve_limit, release_limit}
use eaim.Approval.AtMostOnce.{PermittedOnce}
use eaim.Dispatch.Types.{
  OutcomeError, not_live, not_licensed, over_limit, contended, provider_unresolved, DispatchOutcome,
  Services,
}
use eaim.Dispatch.Target.{Target, resolve_target, call_of, approval_request}
use eaim.Dispatch.Hooks.{new_entry}
use eaim.Dispatch.Decide.{decided_entry, dispatch_decided}
use eaim.Dispatch.Gates.{
  not_live_reason, reject, decide, dispatch_reserved, release_after, dispatch,
}
use eaim.Dispatch.View.{View, nothing, Adds-nothing, Adds-both, Adds-release_limit}
use eaim.Dispatch.Held.{IsHeld}
use eaim.Dispatch.Exits.{Adds-also}
use eaim.Dispatch.Ends.{
  Failed, decided_entry-IsAbout, new_entry-IsAbout, Refused, Unsubmitted, Sent, Held, EndsWith,
  EndsWith-mono,
}
use eaim.Dispatch.Finals.{reject-Refused, dispatch_denied-Refused, dispatch_allowed-Sent}
use eaim.Dispatch.Escalated.{dispatch_escalated-Ends}

module _ {W : Type 0} (sv : Services W) (ac : Mcp.ActionContext) where
  -- The gates, in the state that the dispatch begins in, and the target, in that behind the
  -- reservation.
  pub record Passed (w : W) (t : Target) : Type 0 where
    pub live : is_empty (not_live_reason sv ac w) ≡ true
    pub licensed : sv.checker.module_licensed w ac.org_id (codes "gateway") ≡ true
    pub within : within_limit sv.checker w ac.org_id ≡ true
    pub reserved : (reserve_limit sv.checker w ac.org_id).0 ≡ true
    pub resolved : resolve_target sv (reserve_limit sv.checker w ac.org_id).1 ac ≡ ok t

  abbrev pub decision_at : W → Target → Decision
  decision_at w t = decide sv ac (reserve_limit sv.checker w ac.org_id).1 t

  -- The two ways past the policy.
  pub data Let (d : Decision) (t : Target) (o : DispatchOutcome) (v : View) : Type 0 where
    allowed :
        text_eq d.action action_deny ≡ false
        → text_eq d.action action_escalate ≡ false
        → Sent sv ac t o v
        → Let d t o v
    escalated : d.action ≡ action_escalate → Unsubmitted sv ac o v ⊎ Held sv ac t o v → Let d t o v

  abbrev Decided : Decision → Target → DispatchOutcome → View → Type 0
  Decided d t o v = Refused sv ac o v ⊎ Let d t o v

  abbrev pub Ended : W → DispatchOutcome → View → Type 0
  Ended w o v = Refused sv ac o v ⊎ ((t : Target) × Passed w t × Let (decision_at w t) t o v)

  release-EndsWith :
      (X : DispatchOutcome → View → Type 0) (s : State W) (r : DispatchOutcome × State W)
      → EndsWith sv ac X s r
      → EndsWith sv ac X s (release_after sv ac r)
  unfolding EndsWith release_after
  release-EndsWith X s (o, s') (v, a, x) = (
    v,
    Adds-also s s' (release_limit sv.checker sv.backend.release ac.org_id s') v a
        (Adds-release_limit sv.checker sv.backend.release ac.org_id s'),
    x,
  )

  from-EndsWith :
      (X : DispatchOutcome → View → Type 0) (s : State W) (w : W) (r : DispatchOutcome × State W)
      → EndsWith sv ac X (record s { world = w }) r
      → EndsWith sv ac X s r
  unfolding EndsWith
  from-EndsWith X s w (o, s') (v, a, x) =
      let s₁ = record s { world = w } in
      (v, Adds-both s s₁ s' nothing v (Adds-nothing s s₁ refl) a, x)

  -- A call that a dispatch may make: all gates were passed and the target was resolved; either the
  -- policy neither denied nor escalated it, and it is the call of the target, or it was escalated,
  -- and it is a resumption of its request.
  pub data Granted (w : W) (c : Call) : Type 0 where
    by_policy :
        (t : Target)
        → Passed w t
        → text_eq (decision_at w t).action action_deny ≡ false
        → text_eq (decision_at w t).action action_escalate ≡ false
        → c ≡ call_of t ac
        → Granted w c
    by_approval :
        (t : Target)
        → Passed w t
        → (decision_at w t).action ≡ action_escalate
        → PermittedOnce sv.backend (approval_request sv.backend.sha256_hex t ac) c
        → Granted w c

  module _
      (holds : (id : Text) (req : Request) (s : State W)
        → IsHeld sv.backend id req s (sv.hold id req s)) where
    dispatch_decided-Ends :
        (t : Target) (d : Decision) (s : State W)
        → EndsWith sv ac (Decided d t) s (dispatch_decided sv ac t d s)
    unfolding dispatch_decided
    dispatch_decided-Ends t d s =
        let e = decided_entry t ac d.policy_id (new_entry sv ac s.world) in
        let a =
          decided_entry-IsAbout sv ac t d.policy_id (new_entry sv ac s.world)
            (new_entry-IsAbout sv ac s.world []) in
        elim (Bool-cases (text_eq d.action action_deny)) [
          | inl y ↦
              rw (dispatch_decided, y)
                (EndsWith-mono sv ac (Refused sv ac) (Decided d t) s _ (λ o v. inl)
                  (dispatch_denied-Refused sv ac d.reason d.policy_id e s a))
          | inr n ↦ elim (Bool-cases (text_eq d.action action_escalate)) [
            | inl y ↦
                rw (dispatch_decided, n, y)
                  (EndsWith-mono sv ac (λ o v. Unsubmitted sv ac o v ⊎ Held sv ac t o v)
                    (Decided d t) s _
                    (λ o v x. inr (escalated (text_eq→eq d.action action_escalate y) x))
                    (dispatch_escalated-Ends sv ac holds t e s a))
            | inr m ↦
                rw (dispatch_decided, n, m)
                  (EndsWith-mono sv ac (Sent sv ac t) (Decided d t) s _
                    (λ o v x. inr (allowed n m x)) (dispatch_allowed-Sent sv ac t e s a))
          ]
        ]

    dispatch_reserved-Ends :
        (s : State W)
        → EndsWith sv ac
            (λ o v.
              Refused sv ac o v
              ⊎ ((t : Target) × (resolve_target sv s.world ac ≡ ok t)
                  × Let (decide sv ac s.world t) t o v))
            s
            (dispatch_reserved sv ac s)
    unfolding dispatch_reserved
    dispatch_reserved-Ends s = elim (Result-cases (resolve_target sv s.world ac)) [
      | inr (x, e) ↦
          rw (dispatch_reserved, e)
            (EndsWith-mono sv ac (Refused sv ac) _ s _ (λ o v. inl)
              (reject-Refused sv ac (provider_unresolved x) s))
      | inl (t, e) ↦
          rw (dispatch_reserved, e)
            (EndsWith-mono sv ac (Decided (decide sv ac s.world t) t) _ s _
              (λ o v x. elim x [ inl r ↦ inl r | inr l ↦ inr (t, refl, l) ])
              (dispatch_decided-Ends t (decide sv ac s.world t) s))
    ]

    pub dispatch-Ended : (s : State W) → EndsWith sv ac (Ended s.world) s (dispatch sv ac s)
    unfolding dispatch
    dispatch-Ended s = elim (Bool-cases (is_empty (not_live_reason sv ac s.world))) [
      | inr n ↦ rw (dispatch, n) (refused not_live s)
      | inl l ↦ elim (Bool-cases (sv.checker.module_licensed s.world ac.org_id (codes "gateway"))) [
        | inr n ↦ rw (dispatch, l, n) (refused not_licensed s)
        | inl m ↦ elim (Bool-cases (within_limit sv.checker s.world ac.org_id)) [
          | inr n ↦ rw (dispatch, l, m, n) (refused over_limit s)
          | inl k ↦
              let (reserved, w) = reserve_limit sv.checker s.world ac.org_id in
              let s₁ = record s { world = w } in
              elim (Bool-cases reserved) [
                | inr n ↦
                    rw (dispatch, l, m, k, n)
                      (from-EndsWith (Ended s.world) s w _ (refused contended s₁))
                | inl r ↦
                    rw (dispatch, l, m, k, r)
                      (release-EndsWith (Ended s.world) s (dispatch_reserved sv ac s₁) (
                        from-EndsWith (Ended s.world) s w (dispatch_reserved sv ac s₁) (
                          EndsWith-mono sv ac _ (Ended s.world) s₁ (dispatch_reserved sv ac s₁)
                            (λ o v x. elim x [
                              | inl q ↦ inl q
                              | inr (t, e, q) ↦ inr (
                                t,
                                record {
                                  live = l;
                                  licensed = m;
                                  within = k;
                                  reserved = r;
                                  resolved = e;
                                },
                                q,
                              )
                            ])
                            (dispatch_reserved-Ends s₁))))
              ]
        ]
      ]
    ]
      where
        refused :
            (e : OutcomeError) (g : State W) → EndsWith sv ac (Ended s.world) g (reject sv ac e g)
        refused e g =
            EndsWith-mono sv ac (Refused sv ac) (Ended s.world) g (reject sv ac e g) (λ o v. inl)
              (reject-Refused sv ac e g)

    Ended-calls :
        (w : W) (o : DispatchOutcome) (v : View)
        → Ended w o v
        → ((v.calls ≡ []) × Failed o) ⊎ ((c : Call) × (v.calls ≡ c ∷ []) × Granted w c)
    Ended-calls w o v (inl r) = inl (ap (λ x. x.calls) r.seen, r.failed)
    Ended-calls w o v (inr (t, p, allowed n m x)) =
        inr (call_of t ac, ap (λ y. y.calls) x.seen, by_policy t p n m refl)
    Ended-calls w o v (inr (t, p, escalated e (inl u))) = inl (ap (λ x. x.calls) u.seen, u.failed)
    Ended-calls w o v (inr (t, p, escalated e (inr h))) = elim h.made [
      | inl (n, f) ↦ inl (ap (λ x. x.calls) h.seen ∙ n, f)
      | inr (c, m, k, q) ↦ inr (c, ap (λ x. x.calls) h.seen ∙ m, by_approval t p e k)
    ]

    -- Where Hold runs as its steps allow, a dispatch ends either without a call and with an error, or
    -- with exactly one call, and then all gates were passed and the target resolved, and the call is
    -- that of the target, which the policy let through, or the resumption of an escalated request,
    -- which all gates let through again, to the pinned connector.
    pub dispatch-Granted :
        (s : State W)
        → EndsWith sv ac
            (λ o v.
              ((v.calls ≡ []) × Failed o) ⊎ ((c : Call) × (v.calls ≡ c ∷ []) × Granted s.world c))
            s
            (dispatch sv ac s)
    dispatch-Granted s =
        EndsWith-mono sv ac (Ended s.world) _ s (dispatch sv ac s) (Ended-calls s.world)
          (dispatch-Ended s)
