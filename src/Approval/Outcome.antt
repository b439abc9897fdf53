-- ===== src/Approval/Outcome.antt =====
-- Submit and outcomeFromStatus of eami-gateway/internal/approval/router.go. The database, the
-- generator of IDs and the webhook are parameters; the notification itself is left out.
use eaim.Base.{[], ◌∷◌, ◌++◌, Option, none, some, true, false, ◌||◌, if◌then◌else◌, Result, ok, err}
use eaim.Base.Text.{Text, codes, text_eq, is_empty}
use eaim.Approval.Types.{
  Request, Backend, submitted, State, ResumeError, Resumed, HoldError, resume_error, still_pending,
  not_approved, HoldOutcome,
}
use eaim.Approval.Resume.{dispatch_approved}

abbrev resumed_error : Option ResumeError → Option HoldError
resumed_error none = none
resumed_error (some e) = some (resume_error e)

-- An outcome that nothing was decided for.
abbrev pub unresolved : HoldError → HoldOutcome
unresolved e = record {
  result = [];
  error = some e;
  resolved = false;
  status = [];
  approved_by = [];
  decision_reason = [];
  redacted_count = none;
}

unfoldable pub outcome_approved : Text → Text → Text → Resumed → HoldOutcome
outcome_approved status reason approved_by r = record {
  result = r.response.body;
  error = resumed_error r.error;
  resolved = true;
  status = status;
  approved_by = approved_by;
  decision_reason = reason;
  redacted_count = r.redacted_count;
}

-- The default case: resolved only for the two statuses that are known to be final.
unfoldable pub outcome_refused : Text → Text → Text → HoldOutcome
unfolding text_eq
outcome_refused status reason approved_by = record {
  result = [];
  error = some (not_approved status reason);
  resolved = text_eq status (codes "denied") || text_eq status (codes "expired");
  status = status;
  approved_by = approved_by;
  decision_reason = reason;
  redacted_count = none;
}

module _ {W : Type 0} (b : Backend W) where
  unfoldable pub outcome_from_status :
      Text → Request → Text → Text → Text → State W → HoldOutcome × State W
  unfolding dispatch_approved outcome_approved outcome_refused text_eq
  outcome_from_status id req status reason approved_by s =
      if text_eq status (codes "approved")
      then (let (r, s') = dispatch_approved b id req s in
          (outcome_approved status reason approved_by r, s'))
      else if text_eq status (codes "pending")
      then (unresolved (still_pending id), s)
      else (outcome_refused status reason approved_by, s)

pub data SubmitError : Type 0 where
  ids_required : SubmitError
  no_id : Text → SubmitError
  insert_failed : Text → SubmitError

-- What is inserted of the pin: NULL for both columns where the tool was not resolved.
unfoldable pub pin_columns : Request → Option (Text × Text)
unfolding is_empty
pin_columns req =
    if is_empty req.resolved_tool_id
    then none
    else some (req.resolved_tool_id, req.resolved_config_hash)

-- The generator of IDs and the INSERT of a request that is not marshalled to an error.
pub record Requests (W : Type 0) : Type 0 where
  pub new_uuid : W → Result Text Text × W
  pub insert : W → Text → Request → Option (Text × Text) → Option Text × W

module _ {W : Type 0} (q : Requests W) where
  unfoldable pub submit_as : Text → Request → State W → Result SubmitError Text × State W
  unfolding pin_columns
  submit_as id req s =
      let (e, w) = q.insert s.world id req (pin_columns req) in
      elim e [
        | some t ↦ (err (insert_failed t), record s { world = w })
        | none ↦ (ok id, record { world = w; log = s.log ++ submitted id req ∷ [] })
      ]

  unfoldable pub submit : Request → State W → Result SubmitError Text × State W
  unfolding submit_as is_empty
  submit req s =
      if is_empty req.org_id || is_empty req.agent_id
      then (err ids_required, s)
      else (let (id, w) = q.new_uuid s.world in
          elim id [
            | err t ↦ (err (no_id t), record s { world = w })
            | ok id ↦ submit_as id req (record s { world = w })
          ])
