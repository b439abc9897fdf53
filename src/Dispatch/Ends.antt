-- ===== src/Dispatch/Ends.antt =====
-- How a dispatch of eami-gateway/cmd/gateway/dispatcher.go ends, each way with what it leaves in the
-- log.
use eaim.Base.{List, [], ◌∷◌, Option, none, some, ◌≡◌, refl, ◌⊎◌}
use eaim.Base.Text.{Text, codes}
use eaim.Mcp as Mcp
use eaim.Audit.Entry.{Entry}
use eaim.Approval.Types.{Call, State}
use eaim.Approval.AtMostOnce.{PermittedOnce}
use eaim.Dispatch.Held.{Approved}
use eaim.Dispatch.Types.{
  OutcomeError, not_live, hold_failed, proxy_error, DispatchOutcome, Services,
}
use eaim.Dispatch.Target.{
  Target, to_static, to_rest_tool, to_ai_provider, call_of, approval_request,
}
use eaim.Dispatch.Hooks.{uuid_or_nil, new_entry}
use eaim.Dispatch.Decide.{decided_entry}
use eaim.Dispatch.View.{View, one_audit, Adds}
use eaim.Dispatch.Exits.{usage_list, decision_of}

abbrev pub Failed : DispatchOutcome → Type 0
Failed o = (e : OutcomeError) × (o.error ≡ some e)

-- The outcomes that the code gives behind a decision to allow or to escalate.
abbrev pub IsLate : Option OutcomeError → Type 0
IsLate none = Unit
IsLate (some not_live) = Unit
IsLate (some (hold_failed e)) = Unit
IsLate (some (proxy_error t)) = Unit
IsLate (some e) = ⊥

module _ {W : Type 0} (sv : Services W) (ac : Mcp.ActionContext) where
  -- An audit row of this call.
  pub record IsAbout (e : Entry) : Type 0 where
    pub org : e.org_id ≡ uuid_or_nil sv ac.org_id
    pub agent : e.agent_id ≡ uuid_or_nil sv ac.agent_uuid
    pub agent_name : e.agent_name ≡ ac.agent_name
    pub tool : e.tool_name ≡ ac.tool
    pub action : e.action ≡ ac.action

  pub new_entry-IsAbout : (w : W) (d : Text) → IsAbout (record (new_entry sv ac w) { decision = d })
  unfolding new_entry
  new_entry-IsAbout w d = record {
    org = refl;
    agent = refl;
    agent_name = refl;
    tool = refl;
    action = refl;
  }

  pub decided_entry-IsAbout :
      (t : Target) (p : Option Text) (e : Entry) → IsAbout e → IsAbout (decided_entry t ac p e)
  unfolding decided_entry
  decided_entry-IsAbout to_static p e a = record {
    org = a.org;
    agent = a.agent;
    agent_name = a.agent_name;
    tool = a.tool;
    action = a.action;
  }
  decided_entry-IsAbout (to_rest_tool row) p e a = record {
    org = a.org;
    agent = a.agent;
    agent_name = a.agent_name;
    tool = a.tool;
    action = a.action;
  }
  decided_entry-IsAbout (to_ai_provider row) p e a = record {
    org = a.org;
    agent = a.agent;
    agent_name = a.agent_name;
    tool = a.tool;
    action = a.action;
  }

  -- Nothing was called; the one row that was handed to the audit writer says "denied".
  pub record Refused (o : DispatchOutcome) (v : View) : Type 0 where
    pub entry : Entry
    pub about : IsAbout entry
    pub denied : entry.decision ≡ codes "denied"
    pub failed : Failed o
    pub seen : v ≡ one_audit entry o.audit_write_err

  -- The request of an escalation was not submitted: the one row for the writer says "escalated".
  pub record Unsubmitted (o : DispatchOutcome) (v : View) : Type 0 where
    pub entry : Entry
    pub about : IsAbout entry
    pub escalated : entry.decision ≡ codes "escalated"
    pub failed : Failed o
    pub seen : v ≡ one_audit entry o.audit_write_err

  -- The call of the target was made, and the one row for the writer says how it ended.
  pub record Sent (t : Target) (o : DispatchOutcome) (v : View) : Type 0 where
    pub entry : Entry
    pub about : IsAbout entry
    pub decided : entry.decision ≡ decision_of o.error
    pub late : IsLate o.error
    pub seen : v ≡ record {
      calls = call_of t ac ∷ [];
      audits = (entry, o.audit_write_err) ∷ [];
      usages = usage_list o.error o.result;
    }

  -- The call was held for an approval: behind the row that says "escalated" a second one stands, if
  -- the approval was resolved, that says how it ended.
  pub record Held (t : Target) (o : DispatchOutcome) (v : View) : Type 0 where
    pub entry : Entry
    pub about : IsAbout entry
    pub escalated : entry.decision ≡ codes "escalated"
    pub late : IsLate o.error
    pub cs : List Call
    pub rest : List (Entry × Option Text)
    pub made :
        ((cs ≡ []) × Failed o)
        ⊎ ((c : Call) × (cs ≡ c ∷ [])
            × PermittedOnce sv.backend (approval_request sv.backend.sha256_hex t ac) c
            × Approved sv.backend sv.hold (approval_request sv.backend.sha256_hex t ac) c)
    pub resolved :
        ((rest ≡ []) × Failed o)
        ⊎ ((r : Entry) × (x : Option Text) × (rest ≡ (r, x) ∷ [])
            × IsAbout r
            × (r.decision ≡ decision_of o.error))
    pub seen : v ≡ record {
      calls = cs;
      audits = (entry, o.audit_write_err) ∷ rest;
      usages = usage_list o.error o.result;
    }

  -- The state gets events of a view that the outcome ends with.
  unfoldable pub EndsWith :
      (DispatchOutcome → View → Type 0) → State W → DispatchOutcome × State W → Type 0
  EndsWith X s (o, s') = (v : View) × Adds s s' v × X o v

  pub EndsWith-mono :
      (X Y : DispatchOutcome → View → Type 0) (s : State W) (r : DispatchOutcome × State W)
      → ((o : DispatchOutcome) (v : View) → X o v → Y o v)
      → EndsWith X s r
      → EndsWith Y s r
  unfolding EndsWith
  EndsWith-mono X Y s (o, s') f (v, a, x) = (v, a, f o v x)
