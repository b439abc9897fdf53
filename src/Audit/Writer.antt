-- ===== src/Audit/Writer.antt =====
-- eami-gateway/internal/audit/writer.go: Writer over the table audit_log. The mutex makes the calls
-- one sequence.
use eaim.Base.{
  ℕ, List, [], ◌∷◌, Option, none, some, Bool, true, false, ◌==◌, if◌then◌else◌, ◌≡◌, ◌≤◌, In,
}
use eaim.Base.Text.{Text}
use eaim.Audit.Entry.{Formats, Entry, row_hash, genesis_hash}

-- The rows of audit_log, the last inserted first.
abbrev pub Log : Type 0
Log = List Entry

-- What Postgres answers to `ORDER BY timestamp DESC LIMIT 1`; rows of one timestamp may come in any
-- order.
pub record IsNewest (newest : Log → Option Entry) : Type 0 where
  pub empty : newest [] ≡ none
  pub present : (r : Entry) (rows : Log) → (e : Entry) × (newest (r ∷ rows) ≡ some e)
  pub among : (rows : Log) (e : Entry) → newest rows ≡ some e → In e rows
  pub latest :
      (rows : Log) (e r : Entry) → newest rows ≡ some e → In r rows → r.timestamp ≤ e.timestamp

pub record Writer : Type 0 where
  pub last_hash : Text
  pub initialized : Bool

abbrev pub new_with_db : Writer
new_with_db = record { last_hash = []; initialized = false }

pub data WriteError : Type 0 where
  load_failed insert_failed : WriteError

-- One call of Write: the entry, what the clock and uuid.New give, and whether the two queries
-- succeed.
pub record WriteCall : Type 0 where
  pub entry : Entry
  pub now : ℕ
  pub new_id : ℕ
  pub load_ok : Bool
  pub insert_ok : Bool

pub record State : Type 0 where
  pub writer : Writer
  pub log : Log

-- The timestamp and the ID that the entry gets if it has none.
unfoldable pub stamped : WriteCall → Entry
stamped c =
    let e = c.entry in
    record e {
      timestamp = if e.timestamp == 0 then c.now else e.timestamp;
      id = if e.id == 0 then c.new_id else e.id;
    }

unfoldable pub chained : Formats → Text → Entry → Entry
chained f prev e = record e { prev_hash = prev; hash = row_hash f prev e }

-- A step of the gateway: a call of Write, or a restart, which forgets the writer.
pub data Event : Type 0 where
  writes : WriteCall → Event
  restarts : Event

module _ (f : Formats) (newest : Log → Option Entry) where
  -- GetLastHash, with the genesis hash where it reports ErrNoRows.
  unfoldable pub load_hash : Log → Text
  load_hash rows = elim (newest rows) [ none ↦ genesis_hash f | some e ↦ e.hash ]

  -- The lazy initialisation; `none` is a failed query.
  unfoldable pub initialize : Bool → State → Option Writer
  unfolding load_hash
  initialize load_ok s =
      if s.writer.initialized
      then some s.writer
      else if load_ok
      then some (record { last_hash = load_hash s.log; initialized = true })
      else none

  unfoldable pub append : WriteCall → Writer → Log → State × Option WriteError
  unfolding stamped chained
  append c w rows =
      let row = chained f w.last_hash (stamped c) in
      if c.insert_ok
      then (record { writer = record w { last_hash = row.hash }; log = row ∷ rows }, none)
      else (record { writer = w; log = rows }, some insert_failed)

  unfoldable pub write : WriteCall → State → State × Option WriteError
  unfolding initialize append
  write c s = elim (initialize c.load_ok s) [
    | none ↦ (s, some load_failed)
    | some w ↦ append c w s.log
  ]

  unfoldable pub step : Event → State → State
  unfolding write
  step (writes c) s = (write c s).0
  step restarts s = record s { writer = new_with_db }

  unfoldable pub run : List Event → State → State
  unfolding step
  run [] s = s
  run (e ∷ es) s = run es (step e s)
