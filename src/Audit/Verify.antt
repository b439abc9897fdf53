-- ===== src/Audit/Verify.antt =====
-- eami-api/internal/store/verify.go: VerifyAuditChain.
use eaim.Base.{
  ℕ, ◌+◌, List, [], ◌∷◌, map, Option, none, some, Bool, true, false, not, ◌&&◌, ◌||◌, ◌==◌, leb,
  if◌then◌else◌, Result, ok, ◌>>=◌, keep, ltb,
}
use eaim.Base.Text.{Text, text_eq}
use eaim.Audit.Entry.{Formats, Entry, row_hash, genesis_hash}
use eaim.Audit.Writer.{Log}

pub record AuditVerifyParams : Type 0 where
  pub org_id : ℕ
  pub from : Option ℕ
  pub to : Option ℕ

-- The texts that fmt.Sprintf makes.
pub data Message : Type 0 where
  no_rows : Message
  intact : ℕ → Message
  broken_at : Option ℕ → Message

pub record AuditVerifyResult : Type 0 where
  pub valid : Bool
  pub total_rows : ℕ
  pub first_broken_at : Option ℕ
  pub message : Message
  pub checked_from : Option ℕ
  pub checked_to : Option ℕ

pub record Progress : Type 0 where
  pub total : ℕ
  pub first_broken : Option ℕ
  pub first_ts : Option ℕ
  pub last_ts : Option ℕ

unfoldable pub is_some : Option ℕ → Bool
is_some none = false
is_some (some n) = true

-- The WHERE clause of the row query.
unfoldable pub from_ok : Option ℕ → ℕ → Bool
from_ok none t = true
from_ok (some a) t = leb a t

unfoldable pub to_ok : Option ℕ → ℕ → Bool
to_ok none t = true
to_ok (some b) t = leb t b

unfoldable pub selected : AuditVerifyParams → Entry → Bool
unfolding from_ok to_ok
selected p e = e.org_id == p.org_id && from_ok p.from e.timestamp && to_ok p.to e.timestamp

-- ORDER BY timestamp ASC.
unfoldable pub earlier : Entry → Entry → Bool
earlier e r = ltb e.timestamp r.timestamp

unfoldable pub hash_query : Log → List Text
hash_query rows = map (λ e. e.hash) rows

-- `order` is what Postgres makes of ORDER BY.
unfoldable pub row_query : (Log → Log) → AuditVerifyParams → Log → Log
unfolding selected
row_query order p rows = order (keep (selected p) rows)

unfoldable pub member : Text → List Text → Bool
member h [] = false
member h (k ∷ ks) = text_eq k h || member h ks

module _ (f : Formats) where
  unfoldable pub self_consistent : Entry → Bool
  self_consistent e = text_eq e.hash (row_hash f e.prev_hash e)

  unfoldable pub linked : List Text → Entry → Bool
  unfolding member
  linked existing e = member e.prev_hash existing || text_eq e.prev_hash (genesis_hash f)

  unfoldable pub intact_row : List Text → Entry → Bool
  unfolding self_consistent linked
  intact_row existing e = self_consistent e && linked existing e

  -- One round of the loop.
  unfoldable pub check_row : List Text → Progress → Entry → Progress
  unfolding intact_row is_some
  check_row existing s e = record {
    total = s.total + 1;
    first_ts = if is_some s.first_ts then s.first_ts else some e.timestamp;
    last_ts = some e.timestamp;
    first_broken =
        if is_some s.first_broken
        then s.first_broken
        else (if intact_row existing e then none else some e.id);
  }

  unfoldable pub check_rows : List Text → Progress → List Entry → Progress
  unfolding check_row
  check_rows existing s [] = s
  check_rows existing s (e ∷ es) = check_rows existing (check_row existing s e) es

  abbrev pub no_progress : Progress
  no_progress = record { total = 0; first_broken = none; first_ts = none; last_ts = none }

  unfoldable pub report : Progress → AuditVerifyResult
  unfolding is_some
  report s = record {
    valid = not (is_some s.first_broken);
    total_rows = s.total;
    first_broken_at = s.first_broken;
    message =
        if s.total == 0
        then no_rows
        else (if is_some s.first_broken then broken_at s.first_broken else intact s.total);
    checked_from = s.first_ts;
    checked_to = s.last_ts;
  }

  -- A query that fails ends the call with its error.
  unfoldable pub verify_audit_chain :
      {E : Type 0} → Result E (List Text) → Result E (List Entry) → Result E AuditVerifyResult
  unfolding check_rows report
  verify_audit_chain hashes rows = do
    existing ← hashes
    es ← rows
    ok (report (check_rows existing no_progress es))
