-- ===== src/Dispatch/Escalated.antt =====
-- The exits of eami-gateway/cmd/gateway/dispatcher.go behind an escalation.
use eaim.Base.{
  ℕ, [], ◌∷◌, Option, none, some, true, if◌then◌else◌, ◌≡◌, refl, ap, ◌⊎◌, inl, inr, Bool-cases,
  Option-cases, Result-cases,
}
use eaim.Base.Text.{Text, codes, text_eq}
use eaim.Base.Int.{ℤ}
use eaim.Mcp as Mcp
use eaim.Audit.Entry.{Entry}
use eaim.Approval.Types.{
  Request, State, agent_not_live, license_revoked, usage_limit_exceeded, usage_limit_contention,
  connector_unverified, connector_deleted, config_changed, no_router, not_dispatchable, downstream,
  HoldError, resume_error, fetch_failed, still_pending, not_approved, hold_timed_out,
  hold_cancelled, HoldOutcome,
}
use eaim.Approval.Outcome.{submit}
use eaim.Approval.Limits.{release_limit}
use eaim.Dispatch.Types.{OutcomeError, submit_failed, Services}
use eaim.Dispatch.Target.{Target, approval_request}
use eaim.Dispatch.Hooks.{write_audit, finish}
use eaim.Dispatch.Decide.{
  unsubmitted_outcome, held_outcome, dispatch_held, dispatch_escalated, error_of, not_live_or,
  resolution_entry,
}
use eaim.Dispatch.View.{one_audit, calls_only, Adds, Adds-both, Adds-release_limit}
use eaim.Dispatch.Held.{IsHeld, HoldLaw, HoldLaw-of_IsHeld}
use eaim.Dispatch.Exits.{resolution_writes, decision_of, Adds-also, submit-Adds, write_audit-Adds}
use mathlib.Core.List.{append-nil}
use eaim.Dispatch.Ends.{IsLate, IsAbout, Unsubmitted, Held, EndsWith, EndsWith-mono}
use eaim.Dispatch.Finals.{finish-EndsWith, decision-IsAbout}

not_live_or-IsLate : (e : HoldError) → IsLate (some (not_live_or e))
unfolding not_live_or
not_live_or-IsLate (resume_error agent_not_live) = tt
not_live_or-IsLate (resume_error license_revoked) = tt
not_live_or-IsLate (resume_error usage_limit_exceeded) = tt
not_live_or-IsLate (resume_error usage_limit_contention) = tt
not_live_or-IsLate (resume_error (connector_unverified i t)) = tt
not_live_or-IsLate (resume_error (connector_deleted i)) = tt
not_live_or-IsLate (resume_error (config_changed i)) = tt
not_live_or-IsLate (resume_error (no_router i)) = tt
not_live_or-IsLate (resume_error (not_dispatchable i t)) = tt
not_live_or-IsLate (resume_error (downstream t)) = tt
not_live_or-IsLate (fetch_failed t) = tt
not_live_or-IsLate (still_pending t) = tt
not_live_or-IsLate (not_approved t r) = tt
not_live_or-IsLate hold_timed_out = tt
not_live_or-IsLate hold_cancelled = tt

error_of-IsLate : (e : Option HoldError) → IsLate (error_of e)
error_of-IsLate none = tt
error_of-IsLate (some e) = not_live_or-IsLate e

module _ {W : Type 0} (sv : Services W) (ac : Mcp.ActionContext) where
  resolution_entry-IsAbout :
      (now : ℕ) (t : ℤ) (id : Text) (o : HoldOutcome) (e : Entry)
      → IsAbout sv ac e
      → IsAbout sv ac (resolution_entry now t id o e)
  unfolding resolution_entry
  resolution_entry-IsAbout now t id o e a = record {
    org = a.org;
    agent = a.agent;
    agent_name = a.agent_name;
    tool = a.tool;
    action = a.action;
  }

  -- A hold that is resolved without an error is allowed, and one with an error denied.
  resolution_entry-decision :
      (now : ℕ) (t : ℤ) (id : Text) (o : HoldOutcome) (e : Entry) (x : Option HoldError)
      → o.error ≡ x
      → (o.error ≡ none → o.status ≡ codes "approved")
      → (resolution_entry now t id o e).decision ≡ decision_of (error_of x)
  unfolding resolution_entry
  resolution_entry-decision now t id o e none z h = rw (h z, z) refl
  resolution_entry-decision now t id o e (some k) z h =
      elim (Bool-cases (text_eq o.status (codes "approved"))) [
        | inl y ↦ rw (z, y) refl
        | inr n ↦ rw n refl
      ]

  of_error :
      (o : HoldOutcome) (e : HoldError)
      → o.error ≡ some e
      → (k : OutcomeError) × (error_of o.error ≡ some k)
  of_error o e z = (not_live_or e, ap error_of z)

  held_rest :
      (r : Entry) (o : HoldOutcome) (s : State W)
      → IsAbout sv ac r
      → r.decision ≡ decision_of (error_of o.error)
      → (o.error ≡ none → o.resolved ≡ true)
      → ((resolution_writes sv (if o.resolved then some r else none) s ≡ [])
          × ((k : OutcomeError) × (error_of o.error ≡ some k)))
        ⊎ ((x : Entry) × (y : Option Text) × (resolution_writes sv
                (if o.resolved then some r else none)
                s
              ≡ (x, y) ∷ [])
            × IsAbout sv ac x
            × (x.decision ≡ decision_of (error_of o.error)))
  held_rest r o s a d h = elim (Bool-cases o.resolved) [
    | inl y ↦ inr (
      r,
      (write_audit sv r s).0,
      ap (λ x. resolution_writes sv (if x then some r else none) s) y,
      a,
      d,
    )
    | inr n ↦ inl (
      ap (λ x. resolution_writes sv (if x then some r else none) s) n,
      elim (Option-cases o.error) [ inl z ↦ absurd (cc (h z, n)) | inr (e, z) ↦ of_error o e z ],
    )
  ]

  Held-hold :
      (t : Target) (id : Text) (e : Entry) (k : Option Text) (s s' g : State W) (o : HoldOutcome)
      → IsAbout sv ac e
      → e.decision ≡ codes "escalated"
      → Adds s g (one_audit e k)
      → HoldLaw sv.backend sv.hold id (approval_request sv.backend.sha256_hex t ac) g o s'
      → EndsWith sv ac (Held sv ac t) s (finish sv (held_outcome sv ac id o e k s'.world) s')
  unfolding held_outcome
  Held-hold t id e k s s' g o a d adds law =
      let r = resolution_entry (sv.now s'.world) (sv.since_hold s'.world) id o e in
      finish-EndsWith sv ac (Held sv ac t) (held_outcome sv ac id o e k s'.world) s s' _
        (Adds-both s g s' (one_audit e k) (calls_only law.cs) adds law.adds)
        (record {
          entry = e;
          about = a;
          escalated = d;
          late = error_of-IsLate o.error;
          cs = law.cs;
          rest = resolution_writes sv (if o.resolved then some r else none) s';
          made = elim law.made [ inl (n, (x, z)) ↦ inl (n, of_error o x z) | inr m ↦ inr m ];
          resolved =
              held_rest r o s'
                (resolution_entry-IsAbout (sv.now s'.world) (sv.since_hold s'.world) id o e a)
                (resolution_entry-decision (sv.now s'.world) (sv.since_hold s'.world) id o e o.error
                  refl (λ z. (law.success z).1))
                (λ z. (law.success z).0);
          seen = cc (
            append-nil law.cs,
            append-nil (resolution_writes sv (if o.resolved then some r else none) s'),
          );
        })

  module _
      (holds : (id : Text) (req : Request) (s : State W)
        → IsHeld sv.backend id req s (sv.hold id req s)) where
    dispatch_held-Held :
        (t : Target) (id : Text) (e : Entry) (k : Option Text) (s g : State W)
        → IsAbout sv ac e
        → e.decision ≡ codes "escalated"
        → Adds s g (one_audit e k)
        → EndsWith sv ac
            (Held sv ac t)
            s
            (dispatch_held sv ac id (approval_request sv.backend.sha256_hex t ac) e k g)
    unfolding dispatch_held
    dispatch_held-Held t id e k s g a d adds =
        let req = approval_request sv.backend.sha256_hex t ac in
        let g' = release_limit sv.checker sv.backend.release ac.org_id g in
        Held-hold t id e k s _ g' _ a d
          (Adds-also s g g' (one_audit e k) adds
            (Adds-release_limit sv.checker sv.backend.release ac.org_id g))
          (HoldLaw-of_IsHeld sv.backend sv.hold id req g' _ refl (holds id req g'))

    pub dispatch_escalated-Ends :
        (t : Target) (e : Entry) (s : State W)
        → IsAbout sv ac e
        → EndsWith sv ac
            (λ o v. Unsubmitted sv ac o v ⊎ Held sv ac t o v)
            s
            (dispatch_escalated sv ac t e s)
    unfolding dispatch_escalated unsubmitted_outcome
    dispatch_escalated-Ends t e0 s a0 =
        let e = record e0 { decision = codes "escalated" } in
        let a = decision-IsAbout sv ac (codes "escalated") e0 a0 in
        let req = approval_request sv.backend.sha256_hex t ac in
        let (k, s₁) = write_audit sv e s in
        let adds =
          Adds-also s s₁ _ (one_audit e k) (write_audit-Adds sv e s)
            (submit-Adds sv.requests req s₁) in
        elim (Result-cases (submit sv.requests req s₁).0) [
          | inl (id, z) ↦
              rw (dispatch_escalated, z)
                (EndsWith-mono sv ac (Held sv ac t) _ s _ (λ o v. inr)
                  (dispatch_held-Held t id e k s _ a refl adds))
          | inr (x, z) ↦
              rw (dispatch_escalated, z)
                (finish-EndsWith sv ac (λ o v. Unsubmitted sv ac o v ⊎ Held sv ac t o v)
                  (unsubmitted_outcome sv ac x k) s _ _ adds
                  (inl (record {
                    entry = e;
                    about = a;
                    escalated = refl;
                    failed = (submit_failed x, refl);
                    seen = refl;
                  })))
        ]
