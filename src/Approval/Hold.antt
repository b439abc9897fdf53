-- ===== src/Approval/Hold.antt =====
-- Hold, resolveHoldTimeout, handleNotification and resolve of
-- eami-gateway/internal/approval/router.go for one approval, as the steps of the goroutine that
-- holds the call, of the listener and of the row in the database. The body of the once is one step:
-- a second caller of sync.Once.Do waits until the first has returned.
use eaim.Base.{[], Option, none, some, Bool, if◌then◌else◌, ◌≡◌}
use eaim.Base.Text.{Text, codes}
use eaim.Approval.Types.{
  Request, Backend, State, fetch_failed, hold_timed_out, hold_cancelled, HoldOutcome,
}
use eaim.Approval.Outcome.{unresolved, outcome_from_status}

-- The columns of approval_requests that a decision is read from.
pub record Row : Type 0 where
  pub status : Text
  pub reason : Text
  pub approved_by : Text

pub data Done : Type 0 where
  deadline_exceeded : Done
  cancelled : Done

-- Where the goroutine of Hold stands.
pub data Holder : Type 0 where
  waiting : Holder
  late : Done → Holder
  expiring : Holder
  refetching : Holder
  fetched : Row → Holder
  returned : HoldOutcome → Holder

-- Where the listener stands in resolve.
pub data Listener : Type 0 where
  idle : Listener
  loaded : Listener
  read : Row → Listener
  sending : HoldOutcome → Listener

-- The pendingEntry with its channel and the result of its once, the row, and the rest of the system.
pub record Wait (W : Type 0) : Type 0 where
  pub row : Row
  pub gateway : State W
  pub once : Option HoldOutcome
  pub channel : Option HoldOutcome
  pub listener : Listener
  pub holder : Holder

-- The entry is in the map until Hold returns.
abbrev pub IsPending : Holder → Type 0
IsPending (returned o) = ⊥
IsPending _ = Unit

-- DecideApproval of eami-api writes one of two decisions.
abbrev pub decided : Bool → Text → Text → Row
decided approve reason approved_by = record {
  status = if approve then codes "approved" else codes "denied";
  reason = reason;
  approved_by = approved_by;
}

abbrev pub expired : Row → Row
expired row = record row { status = codes "expired"; reason = codes "timed out" }

abbrev pub hold : {W : Type 0} → Row → State W → Wait W
hold row g = record {
  row = row;
  gateway = g;
  once = none;
  channel = none;
  listener = idle;
  holder = waiting;
}

module _ {W : Type 0} (b : Backend W) (id : Text) (req : Request) where
  -- entry.once.Do and the reading of entry.result, by what the once holds.
  unfoldable pub once_do : Option HoldOutcome → Row → Wait W → HoldOutcome × Wait W
  unfolding outcome_from_status
  once_do (some o) r s = (o, s)
  once_do none r s =
      let (o, g) = outcome_from_status b id req r.status r.reason r.approved_by s.gateway in
      (o, record s { once = some o; gateway = g })

  pub data Step : Wait W → Wait W → Type 0 where
    -- The row is decided, and the rest of the system goes on.
    decides :
        {s : Wait W} (approve : Bool) (reason approved_by : Text)
        → s.row.status ≡ codes "pending"
        → Step s (record s { row = decided approve reason approved_by })
    moves_on : {s : Wait W} (w : W) → Step s (record s { gateway = record s.gateway { world = w } })
    -- handleNotification and resolve.
    notified :
        {s : Wait W}
        → s.listener ≡ idle
        → IsPending s.holder
        → Step s (record s { listener = loaded })
    reads : {s : Wait W} → s.listener ≡ loaded → Step s (record s { listener = read s.row })
    read_fails :
        {s : Wait W} (t : Text)
        → s.listener ≡ loaded
        → Step s (record s { listener = sending (unresolved (fetch_failed t)) })
    resolves :
        {s : Wait W} (r : Row)
        → s.listener ≡ read r
        → Step s (record ((once_do s.once r s).1) { listener = sending ((once_do s.once r s).0) })
    sends :
        {s : Wait W} (o : HoldOutcome)
        → s.listener ≡ sending o
        → s.channel ≡ none
        → Step s (record s { listener = idle; channel = some o })
    -- Hold.
    receives :
        {s : Wait W} (o : HoldOutcome)
        → s.holder ≡ waiting
        → s.channel ≡ some o
        → Step s (record s { holder = returned o; channel = none })
    ends : {s : Wait W} (why : Done) → s.holder ≡ waiting → Step s (record s { holder = late why })
    -- resolveHoldTimeout.
    receives_late :
        {s : Wait W} (why : Done) (o : HoldOutcome)
        → s.holder ≡ late why
        → s.channel ≡ some o
        → Step s (record s { holder = returned o; channel = none })
    gives_up :
        {s : Wait W}
        → s.holder ≡ late cancelled
        → s.channel ≡ none
        → Step s (record s { holder = returned (unresolved hold_cancelled) })
    times_out :
        {s : Wait W}
        → s.holder ≡ late deadline_exceeded
        → s.channel ≡ none
        → Step s (record s { holder = expiring })
    expires :
        {s : Wait W}
        → s.holder ≡ expiring
        → s.row.status ≡ codes "pending"
        → Step s (record s {
          row = expired s.row;
          gateway =
              (outcome_from_status b id req (codes "expired") (codes "timed out") [] s.gateway).1;
          holder =
              returned
                (outcome_from_status b id req (codes "expired") (codes "timed out") [] s.gateway).0;
        })
    -- The UPDATE fails, before or after it is committed.
    expiry_fails :
        {s : Wait W}
        → s.holder ≡ expiring
        → Step s (record s { holder = returned (unresolved hold_timed_out) })
    expiry_unconfirmed :
        {s : Wait W}
        → s.holder ≡ expiring
        → s.row.status ≡ codes "pending"
        → Step s (record s { row = expired s.row; holder = returned (unresolved hold_timed_out) })
    loses :
        {s : Wait W}
        → s.holder ≡ expiring
        → ¬ (s.row.status ≡ codes "pending")
        → Step s (record s { holder = refetching })
    refetch_fails :
        {s : Wait W}
        → s.holder ≡ refetching
        → Step s (record s { holder = returned (unresolved hold_timed_out) })
    refetches : {s : Wait W} → s.holder ≡ refetching → Step s (record s { holder = fetched s.row })
    honours :
        {s : Wait W} (r : Row)
        → s.holder ≡ fetched r
        → Step s (record ((once_do s.once r s).1) { holder = returned (once_do s.once r s).0 })

  -- The states that the steps lead to, from a row that was just inserted.
  pub data Reach (g : State W) : Wait W → Type 0 where
    held : (row : Row) → row.status ≡ codes "pending" → row.approved_by ≡ [] → Reach g (hold row g)
    then : {s t : Wait W} → Reach g s → Step s t → Reach g t
