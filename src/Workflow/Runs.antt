-- ===== src/Workflow/Runs.antt =====
-- Run as a whole: what it returns and adds to the log.
use eaim.Base.{
  ℕ, List, [], ◌∷◌, ◌++◌, some, Result, ok, err, Result-cases, Option-cases, ◌≡◌, refl, ap, inl,
  inr,
}
use eaim.Mcp as Mcp
use eaim.Workflow.Types.{Definition, RunResult}
use eaim.Workflow.Resolve.{resolve}
use eaim.Workflow.Executor.{
  Gateway, Event, run_created, run_finished, State, RunError, run_steps, with_session, execute, run,
}
use eaim.Workflow.FailStop.{FailStop, Recorded, run_steps-FailStop, run_steps-Recorded}

module _ {W : Type 0} (g : Gateway W) (template : Mcp.ActionContext) where
  -- The run of a workflow that could start, in terms of what it returns and adds to the log.
  pub record Ran (workflow_id : ℕ) (s : State W) (r : RunResult) (s' : State W) : Type 0 where
    pub org_id : ℕ
    pub def : Definition
    pub events : List Event
    pub own_org : g.parse_uuid template.org_id ≡ some org_id
    pub resolved : resolve g.decoders (g.queries s.world) org_id workflow_id ≡ ok def
    pub fail_stop : FailStop def.steps r.steps r.status
    pub logged :
        s'.log ≡ s.log ++ run_created r.run_id ∷ [] ++ events ++ run_finished r.run_id r.status ∷ []
    pub recorded :
        Recorded g (with_session g r.run_id template) org_id r.run_id def.steps [] r.steps events

  abbrev pub RunOutcome : ℕ → State W → Result RunError RunResult × State W → Type 0
  RunOutcome workflow_id s (ok r, s') = Ran workflow_id s r s'
  RunOutcome workflow_id s (err e, s') = s'.log ≡ s.log

  execute-Ran :
      (workflow_id org_id : ℕ) (def : Definition) (run_id : ℕ) (s : State W) (w : W)
      → g.parse_uuid template.org_id ≡ some org_id
      → resolve g.decoders (g.queries s.world) org_id workflow_id ≡ ok def
      → RunOutcome workflow_id s (execute g template org_id def run_id (record s { world = w }))
  unfolding execute
  execute-Ran workflow_id org_id def run_id s w o d =
      let at_start : State W = record { world = w; log = s.log ++ run_created run_id ∷ [] } in
      let named = with_session g run_id template in
      let status = (run_steps g named org_id run_id def.steps [] at_start).1 in
      let (es, added, recorded) = run_steps-Recorded g named org_id run_id def.steps [] at_start in
      record {
        org_id = org_id;
        def = def;
        events = es;
        own_org = o;
        resolved = d;
        fail_stop = run_steps-FailStop g named org_id run_id def.steps [] at_start;
        logged = ap (λ (x : List Event). x ++ run_finished run_id status ∷ []) added;
        recorded = recorded;
      }

  -- Run either returns an error and does nothing, no step and no dispatch, or it returns the result
  -- of a run of the workflow as resolved in the organisation of the template: its steps in order up
  -- to the first that is not allowed, each recorded, the row of the run before them and the status
  -- after them.
  pub run-RunOutcome :
      (workflow_id : ℕ) (s : State W) → RunOutcome workflow_id s (run g template workflow_id s)
  unfolding run
  run-RunOutcome workflow_id s = elim (Option-cases (g.parse_uuid template.org_id)) [
    | inl o ↦ rw (run, o) refl
    | inr (org_id, o) ↦ elim (Option-cases (g.parse_uuid template.agent_uuid)) [
      | inl a ↦ rw (run, o, a) refl
      | inr (agent_id, a) ↦
          elim (Result-cases (resolve g.decoders (g.queries s.world) org_id workflow_id)) [
            | inr (e, d) ↦ rw (run, o, a, d) refl
            | inl (def, d) ↦
                elim (Result-cases (
                  g.insert_run (g.new_uuid s.world).1 (g.new_uuid s.world).0 org_id def.workflow_id
                    agent_id)) [
                      | inr (e, i) ↦ rw (run, o, a, d, i) refl
                      | inl (w, i) ↦
                          rw (run, o, a, d, i)
                            (execute-Ran workflow_id org_id def (g.new_uuid s.world).0 s w o d)
                    ]
          ]
    ]
  ]
