-- ===== src/Dispatch/Finals.antt =====
-- The exits of eami-gateway/cmd/gateway/dispatcher.go without an approval.
use eaim.Base.{ℕ, [], ◌∷◌, ◌++◌, Option, none, some, ◌≡◌, refl}
use eaim.Base.Text.{Text, codes}
use eaim.Mcp as Mcp
use eaim.Audit.Entry.{Entry}
use eaim.Policy.Types.{Reason}
use eaim.Approval.Types.{Call, called, State}
use eaim.Dispatch.Types.{OutcomeError, DispatchOutcome, Services}
use eaim.Dispatch.Target.{Target, to_static, to_rest_tool, to_ai_provider, call_of}
use eaim.Dispatch.Hooks.{new_entry, no_error, write_audit, finish}
use eaim.Dispatch.Decide.{
  redacted_entry, denied_outcome, dispatch_denied, sent_outcome, sent_decision, dispatch_allowed,
}
use eaim.Dispatch.Gates.{rejected_outcome, reject}
use eaim.Dispatch.View.{View, one_call, one_audit, ◌⊕◌, Adds, Adds-event, Adds-both}
use eaim.Dispatch.Exits.{usage_list, decision_of, finish_view, write_audit-Adds, finish-Adds}
use eaim.Dispatch.Ends.{IsLate, IsAbout, Refused, Sent, EndsWith, new_entry-IsAbout}

module _ {W : Type 0} (sv : Services W) (ac : Mcp.ActionContext) where
  pub finish-EndsWith :
      (X : DispatchOutcome → View → Type 0) (o : DispatchOutcome) (s t : State W) (v : View)
      → Adds s t v
      → X (record o { dispatched = no_error o.error }) (v ⊕ finish_view sv o t)
      → EndsWith sv ac X s (finish sv o t)
  unfolding EndsWith finish
  finish-EndsWith X o s t v a x =
      (v ⊕ finish_view sv o t, Adds-both s t _ v (finish_view sv o t) a (finish-Adds sv o t), x)

  pub reject-Refused :
      (e : OutcomeError) (s : State W) → EndsWith sv ac (Refused sv ac) s (reject sv ac e s)
  unfolding reject rejected_outcome
  reject-Refused e s =
      let entry = record (new_entry sv ac s.world) { decision = codes "denied" } in
      finish-EndsWith (Refused sv ac) (rejected_outcome sv ac e (write_audit sv entry s).0) s _ _
        (write_audit-Adds sv entry s)
        (record {
          entry = entry;
          about = new_entry-IsAbout sv ac s.world (codes "denied");
          denied = refl;
          failed = (e, refl);
          seen = refl;
        })

  pub decision-IsAbout :
      (d : Text) (e : Entry) → IsAbout sv ac e → IsAbout sv ac (record e { decision = d })
  decision-IsAbout d e a = record {
    org = a.org;
    agent = a.agent;
    agent_name = a.agent_name;
    tool = a.tool;
    action = a.action;
  }

  pub dispatch_denied-Refused :
      (reason : Reason) (p : Option Text) (e : Entry) (s : State W)
      → IsAbout sv ac e
      → EndsWith sv ac (Refused sv ac) s (dispatch_denied sv ac reason p e s)
  unfolding dispatch_denied denied_outcome
  dispatch_denied-Refused reason p e s a =
      let entry = record e { decision = codes "denied" } in
      finish-EndsWith (Refused sv ac) (denied_outcome sv ac reason p (write_audit sv entry s).0) s _
        _ (write_audit-Adds sv entry s)
        (record {
          entry = entry;
          about = decision-IsAbout (codes "denied") e a;
          denied = refl;
          failed = (_, refl);
          seen = refl;
        })

  sent_decision-error :
      (body : Text) (x audit_err : Option Text)
      → sent_decision sv ac x ≡ decision_of (sent_outcome sv ac body x audit_err).error
  unfolding sent_outcome
  sent_decision-error body none audit_err = refl
  sent_decision-error body (some t) audit_err = refl

  sent_outcome-IsLate :
      (body : Text) (x audit_err : Option Text) → IsLate (sent_outcome sv ac body x audit_err).error
  unfolding sent_outcome
  sent_outcome-IsLate body none audit_err = tt
  sent_outcome-IsLate body (some t) audit_err = tt

  sent_outcome-seen :
      (c : Call) (e : Entry) (body : Text) (x audit_err : Option Text) (g : State W)
      → let o = sent_outcome sv ac body x audit_err in
        (one_call c ⊕ one_audit e audit_err) ⊕ finish_view sv o g ≡ record {
          calls = c ∷ [];
          audits = (e, o.audit_write_err) ∷ [];
          usages = usage_list o.error o.result;
        }
  unfolding sent_outcome
  sent_outcome-seen c e body none audit_err g = refl
  sent_outcome-seen c e body (some t) audit_err g = refl

  redacted_entry-IsAbout :
      (t : Target) (n : ℕ) (e : Entry) → IsAbout sv ac e → IsAbout sv ac (redacted_entry t n e)
  unfolding redacted_entry
  redacted_entry-IsAbout to_static n e a = a
  redacted_entry-IsAbout (to_rest_tool row) n e a = a
  redacted_entry-IsAbout (to_ai_provider row) n e a = record {
    org = a.org;
    agent = a.agent;
    agent_name = a.agent_name;
    tool = a.tool;
    action = a.action;
  }

  pub dispatch_allowed-Sent :
      (t : Target) (e : Entry) (s : State W)
      → IsAbout sv ac e
      → EndsWith sv ac (Sent sv ac t) s (dispatch_allowed sv ac t e s)
  unfolding dispatch_allowed
  dispatch_allowed-Sent t e s a =
      let (r, w) = sv.backend.send s.world (call_of t ac) in
      let entry = record (redacted_entry t r.redacted e) {
        decision = sent_decision sv ac r.error;
      } in
      let s₁ : State W = record { world = w; log = s.log ++ called (call_of t ac) ∷ [] } in
      let o = sent_outcome sv ac r.response.body r.error (write_audit sv entry s₁).0 in
      finish-EndsWith (Sent sv ac t) o s _ _
        (Adds-both s s₁ _ _ _ (Adds-event s s₁ (called (call_of t ac)) refl)
          (write_audit-Adds sv entry s₁))
        (record {
          entry = entry;
          about =
              decision-IsAbout (sent_decision sv ac r.error) _
                (redacted_entry-IsAbout t r.redacted e a);
          decided = sent_decision-error r.response.body r.error _;
          late = sent_outcome-IsLate r.response.body r.error _;
          seen = sent_outcome-seen (call_of t ac) entry r.response.body r.error _ _;
        })
