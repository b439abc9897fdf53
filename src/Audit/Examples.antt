-- ===== src/Audit/Examples.antt =====
-- The audit theorems at a small log. The formats stand for SHA-256, UUIDs and RFC 3339 by functions
-- that are injective and easy to read.
use eaim.Base.{
  ℕ, List, [], ◌∷◌, ◌++◌, Option, none, some, Bool, true, false, ◌≡◌, ◌≢◌, refl, ap, subst, inl,
  inr, In, arith, ok, ◌≤◌, map, ltb, if◌then◌else◌, length,
}
use eaim.Base.Text.{Text, codes}
use eaim.Base.Int.{pos}
use eaim.Base.Sort.{IsSort, IsWeakOrder, insertion_sort, insertion_sort-IsSort}
use eaim.Audit.Entry.{Formats, Entry, content, row_hash}
use eaim.Audit.Writer.{
  Log, IsNewest, new_with_db, WriteCall, load_hash, write, Event, writes, restarts, step, run,
}
use eaim.Audit.Verify.{
  AuditVerifyParams, AuditVerifyResult, earlier, hash_query, row_query, verify_audit_chain,
  selected,
}
use eaim.Audit.Chain.{Chain, run-Chain}
use eaim.Audit.Report.{Reports, verify_audit_chain-Reports}
use eaim.Audit.Lives.{run-valid}
use eaim.Audit.Limits.{verify-altered, verify-moved, moved, kept_apart, restart-forks}

abbrev plain : Formats
plain = record { sha256_hex = λ t. t; uuid_string = λ n. n ∷ []; rfc3339 = λ t. t ∷ [] }

abbrev latest_of : Entry → Log → Entry
latest_of e [] = e
latest_of e (r ∷ rows) = let m = latest_of r rows in if ltb e.timestamp m.timestamp then m else e

abbrev newest_row : Log → Option Entry
newest_row [] = none
newest_row (e ∷ rows) = some (latest_of e rows)

In-branch :
    (b : Bool) (m e : Entry) (rows : Log) → In m rows → In e rows → In (if b then m else e) rows
In-branch true m e rows p q = p
In-branch false m e rows p q = q

latest_of-In : (e : Entry) (rows : Log) → In (latest_of e rows) (e ∷ rows)
latest_of-In e [] = inl refl
latest_of-In e (r ∷ rows) =
    In-branch (ltb e.timestamp (latest_of r rows).timestamp) (latest_of r rows) e (e ∷ r ∷ rows)
      (inr (latest_of-In r rows)) (inl refl)

latest_of-le :
    (e : Entry) (rows : Log) (x : Entry)
    → In x (e ∷ rows)
    → x.timestamp ≤ (latest_of e rows).timestamp
latest_of-le e [] x (inl q) = omega (arith, ap (λ (y : Entry). y.timestamp) q)
latest_of-le e [] x (inr m) = absurd m
latest_of-le e (r ∷ rows) x (inl q) = let same = ap (λ (y : Entry). y.timestamp) q in ground arith
latest_of-le e (r ∷ rows) x (inr m) = let rest = latest_of-le r rows x m in ground arith

newest_row-IsNewest : IsNewest newest_row
newest_row-IsNewest = record {
  empty = refl;
  present = λ r rows. (latest_of r rows, refl);
  among = among;
  latest = latest;
}
  where
    among : (rows : Log) (e : Entry) → newest_row rows ≡ some e → In e rows
    among [] e q = absurd (cc)
    among (r ∷ rows) e q =
        let same : latest_of r rows ≡ e = ground arith in
        subst (λ y. In y (r ∷ rows)) same (latest_of-In r rows)

    latest :
        (rows : Log) (e r : Entry)
        → newest_row rows ≡ some e
        → In r rows
        → r.timestamp ≤ e.timestamp
    latest [] e r q m = absurd m
    latest (x ∷ rows) e r q m =
        let same : latest_of x rows ≡ e = ground arith in
        subst (λ y. r.timestamp ≤ y.timestamp) same (latest_of-le x rows r m)

earlier-IsWeakOrder : IsWeakOrder earlier
unfolding earlier
earlier-IsWeakOrder = record { asym = λ x y h. ground arith; step_up = λ x y z p q. ground arith }

abbrev by_time : Log → Log
by_time = insertion_sort earlier

by_time-IsSort : IsSort earlier by_time
by_time-IsSort = insertion_sort-IsSort earlier earlier-IsWeakOrder

abbrev blank : Entry
blank = record {
  id = 0;
  org_id = 1;
  agent_id = 7;
  agent_name = codes "bot";
  tool_name = codes "crm";
  action = codes "read";
  parameters = none;
  decision = codes "allowed";
  policy_id = [];
  approval_id = [];
  approved_by = [];
  latency_ms = pos 3;
  token_in = pos 0;
  token_out = pos 0;
  timestamp = 20;
  data_handling = [];
  workflow_run_id = 0;
  step_index = none;
  redacted_count = none;
  prev_hash = [];
  hash = [];
}

abbrev call_at : ℕ → ℕ → Bool → WriteCall
call_at t id fine = record {
  entry = record blank { timestamp = t };
  now = 9;
  new_id = id;
  load_ok = true;
  insert_ok = fine;
}

-- The second insert fails; the third entry was received before the first.
abbrev calls : List WriteCall
calls = call_at 20 101 true ∷ call_at 30 102 false ∷ call_at 10 103 true ∷ []

run-Chain_example :
    (new : Log) × ((run plain newest_row
        (map (λ c. writes c) calls)
        (record { writer = new_with_db; log = [] })).log
      ≡ new ++ [])
    × Chain plain (load_hash plain newest_row []) new
run-Chain_example = run-Chain plain newest_row [] calls

abbrev history : List Event
history = writes (call_at 20 101 true) ∷ restarts ∷ writes (call_at 10 103 true) ∷ []

abbrev whole : AuditVerifyParams
whole = record { org_id = 1; from = none; to = some 40 }

abbrev table : Log
table = (run plain newest_row history (record { writer = new_with_db; log = [] })).log

run-valid_example :
    (res : AuditVerifyResult) × (verify_audit_chain plain {E = Text}
        (ok (hash_query table))
        (ok (row_query by_time whole table))
      ≡ ok res)
    × (res.valid ≡ true)
run-valid_example =
    run-valid plain newest_row newest_row-IsNewest {E = Text} history by_time by_time-IsSort whole

verify_audit_chain-Reports_example :
    (res : AuditVerifyResult) × (verify_audit_chain plain {E = Text}
        (ok (hash_query table))
        (ok (row_query by_time whole table))
      ≡ ok res)
    × Reports plain whole table (length (row_query by_time whole table)) res
verify_audit_chain-Reports_example =
    verify_audit_chain-Reports plain {E = Text} by_time by_time-IsSort whole table

abbrev denied : Entry
denied = record blank { decision = codes "denied"; id = 101 }

-- The stored decision was changed from denied to allowed, and the hash left as it was.
abbrev forged : Entry
forged = record denied { decision = codes "allowed"; hash = row_hash plain [] denied }

verify-altered_example :
    (res : AuditVerifyResult) × (verify_audit_chain plain {E = Text}
        (ok (hash_query (forged ∷ [])))
        (ok (row_query by_time whole (forged ∷ [])))
      ≡ ok res)
    × (res.valid ≡ false)
unfolding content selected
verify-altered_example =
    verify-altered plain {E = Text} by_time by_time-IsSort whole (forged ∷ []) forged [] denied
      (λ a b e. e) (inl refl) refl refl (λ e. absurd (cc))

verify-moved_example :
    verify_audit_chain plain {E = Text}
      (ok [])
      (ok (moved (codes "bo") (codes "t") (codes "crm") blank ∷ []))
    ≡ verify_audit_chain plain
        (ok [])
        (ok (kept_apart (codes "bo") (codes "t") (codes "crm") blank ∷ []))
verify-moved_example =
    verify-moved plain {E = Text} [] [] [] (codes "bo") (codes "t") (codes "crm") blank

abbrev first_row : Entry
first_row = record blank { id = 101; timestamp = 20; hash = codes "first" }

abbrev last_row : Entry
last_row = record blank { id = 103; timestamp = 10; prev_hash = codes "first"; hash = codes "last" }

restart-forks_example :
    (row : Entry) × (y : Entry) × ((write plain newest_row (call_at 50 104 true) (
        step plain newest_row restarts
          (record { writer = new_with_db; log = last_row ∷ first_row ∷ [] }))).0.log
      ≡ row ∷ last_row ∷ first_row ∷ [])
    × In y (first_row ∷ [])
    × ((r : Entry) → In r (last_row ∷ first_row ∷ []) → r.timestamp ≤ y.timestamp)
    × (row.prev_hash ≡ y.hash)
    × (row.prev_hash ≢ codes "last")
restart-forks_example =
    restart-forks plain newest_row newest_row-IsNewest (call_at 50 104 true) last_row first_row
      (first_row ∷ []) new_with_db (inl refl) (omega arith) apart refl refl
  where
    differ : codes "first" ≢ codes "last"
    differ e = cc

    apart : (r : Entry) → In r (first_row ∷ []) → r.hash ≢ codes "last"
    apart r (inl q) = subst (λ (y : Entry). y.hash ≢ codes "last") q differ
    apart r (inr m) = absurd m
