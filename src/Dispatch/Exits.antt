-- ===== src/Dispatch/Exits.antt =====
-- What the hooks and the submission in eami-gateway/cmd/gateway/dispatcher.go add to the log.
use eaim.Base.{
  List, [], ◌∷◌, Option, none, some, ◌||◌, ◌≡◌, refl, inl, inr, Bool-cases, Option-cases,
  Result-cases,
}
use eaim.Base.Text.{Text, codes, is_empty}
use eaim.Audit.Entry.{Entry}
use eaim.Approval.Types.{
  Request, EpisodeStep, submitted, audited, usage_recorded, episode_recorded, State,
}
use eaim.Approval.Outcome.{Requests, submit_as, submit, pin_columns}
use eaim.Dispatch.Types.{OutcomeError, DispatchOutcome, Services}
use eaim.Dispatch.Hooks.{
  write_audit, record_escalation_resolution_audit_hook, record_token_usage_hook,
  record_episode_hook, no_error, finish,
}
use eaim.Dispatch.View.{View, nothing, one_audit, ◌⊕◌, Adds, Adds-nothing, Adds-event, Adds-both}
use mathlib.Core.List.{append-nil}
use mathlib.Core.Path.{subst}

abbrev pub usage_list {ℓ} : {E : Type ℓ} → Option E → Text → List Text
usage_list none t = t ∷ []
usage_list (some e) t = []

abbrev pub decision_of {ℓ} : {E : Type ℓ} → Option E → Text
decision_of none = codes "allowed"
decision_of (some e) = codes "denied"

module _ {W : Type 0} where
  pub Adds-also : (s t r : State W) (v : View) → Adds s t v → Adds t r nothing → Adds s r v
  Adds-also s t r v a b =
      subst (Adds s r) (cc (append-nil v.calls, append-nil v.audits, append-nil v.usages))
        (Adds-both s t r v nothing a b)

  submit_as-Adds :
      (q : Requests W) (id : Text) (req : Request) (s : State W)
      → Adds s (submit_as q id req s).1 nothing
  unfolding submit_as
  submit_as-Adds q id req s = elim (Option-cases (q.insert s.world id req (pin_columns req)).0) [
    | inl n ↦ rw (submit_as, n) (Adds-event s _ (submitted id req) refl)
    | inr (t, e) ↦ rw (submit_as, e) (Adds-nothing s _ refl)
  ]

  pub submit-Adds :
      (q : Requests W) (req : Request) (s : State W) → Adds s (submit q req s).1 nothing
  unfolding submit
  submit-Adds q req s = elim (Bool-cases (is_empty req.org_id || is_empty req.agent_id)) [
    | inl y ↦ rw (submit, y) (Adds-nothing s s refl)
    | inr n ↦ elim (Result-cases (q.new_uuid s.world).0) [
      | inr (t, e) ↦ rw (submit, n, e) (Adds-nothing s _ refl)
      | inl (id, e) ↦
          let s' = record s { world = (q.new_uuid s.world).1 } in
          rw (submit, n, e)
            (Adds-both s s' _ nothing nothing (Adds-nothing s s' refl) (submit_as-Adds q id req s'))
    ]
  ]

module _ {W : Type 0} (sv : Services W) where
  -- The second write of an escalation, with its error.
  abbrev pub resolution_writes : Option Entry → State W → List (Entry × Option Text)
  resolution_writes none s = []
  resolution_writes (some e) s = (e, (write_audit sv e s).0) ∷ []

  abbrev pub finish_view : DispatchOutcome → State W → View
  finish_view o s =
      record { calls = []; audits = resolution_writes o.resolution_audit_entry s; usages = [] }
      ⊕ record { calls = []; audits = []; usages = usage_list o.error o.result }

  pub write_audit-Adds :
      (e : Entry) (s : State W) → Adds s (write_audit sv e s).1 (one_audit e (write_audit sv e s).0)
  unfolding write_audit
  write_audit-Adds e s = Adds-event s _ (audited e (sv.write e s.world).0) refl

  resolution-Adds :
      (x : Option Entry) (o : DispatchOutcome) (s : State W)
      → o.resolution_audit_entry ≡ x
      → Adds s
          (record_escalation_resolution_audit_hook sv o s)
          (record { calls = []; audits = resolution_writes x s; usages = [] })
  unfolding record_escalation_resolution_audit_hook
  resolution-Adds none o s e =
      rw (record_escalation_resolution_audit_hook, e) (Adds-nothing s s refl)
  resolution-Adds (some a) o s e =
      rw (record_escalation_resolution_audit_hook, e) (write_audit-Adds a s)

  usage-Adds :
      (x : Option OutcomeError) (o : DispatchOutcome) (s : State W)
      → o.dispatched ≡ no_error x
      → Adds s
          (record_token_usage_hook o s)
          (record { calls = []; audits = []; usages = usage_list x o.result })
  unfolding record_token_usage_hook
  usage-Adds none o s e =
      rw (record_token_usage_hook, e) (Adds-event s _ (usage_recorded o.result) refl)
  usage-Adds (some k) o s e = rw (record_token_usage_hook, e) (Adds-nothing s s refl)

  episode-Adds :
      (x : List EpisodeStep) (o : DispatchOutcome) (s : State W)
      → o.episode_steps ≡ x
      → Adds s (record_episode_hook o s) nothing
  unfolding record_episode_hook
  episode-Adds [] o s e = rw (record_episode_hook, e) (Adds-nothing s s refl)
  episode-Adds (step ∷ steps) o s e =
      rw (record_episode_hook, e)
        (Adds-event s _ (episode_recorded o.episode_steps o.episode_outcome) refl)

  -- The hooks write the resolution row, if there is one, and the usage, if there is no error.
  pub finish-Adds : (o : DispatchOutcome) (s : State W) → Adds s (finish sv o s).1 (finish_view o s)
  unfolding finish
  finish-Adds o0 s =
      let o = record o0 { dispatched = no_error o0.error } in
      Adds-also s _ _ (finish_view o s)
        (Adds-both s _ _ _ _ (resolution-Adds _ o s refl) (usage-Adds o0.error o _ refl))
        (episode-Adds _ o _ refl)
