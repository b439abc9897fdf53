-- ===== src/Audit/Report.antt =====
-- What VerifyAuditChain reports of a table, and that it accepts every table that the writer leaves.
use eaim.Base.{
  ℕ, List, none, some, true, false, not, ◌≡◌, refl, ◌∙◌, inl, inr, ◌↔◌, In, arith, ok, length, keep,
  In-keep, keep-In, ◌<◌,
}
use eaim.Base.Text.{Text}
use eaim.Base.Sort.{IsSort, In-sort, In-unsort, Ordered}
use eaim.Audit.Entry.{Formats, Entry}
use eaim.Audit.Writer.{Log}
use eaim.Audit.Verify.{
  AuditVerifyParams, AuditVerifyResult, is_some, selected, earlier, hash_query, row_query,
  intact_row, check_rows, no_progress, report, verify_audit_chain,
}
use eaim.Audit.Valid.{
  Intact, intact_row-Intact, Intact→intact_row, first_bad, check_rows-total, check_rows-finds,
  first_bad-cases,
}

module _ (f : Formats) where
  -- The report on the rows of the table that the query selects: valid exactly where all of them are
  -- intact, and else naming one that is not intact while all selected rows of an earlier time are.
  pub record Reports (p : AuditVerifyParams) (rows : Log) (count : ℕ) (res : AuditVerifyResult)
      : Type 0 where
    pub counts : res.total_rows ≡ count
    pub valid_iff :
        (res.valid ≡ true) ↔ ((e : Entry) → In e rows → selected p e ≡ true → Intact f rows e)
    pub names :
        res.valid ≡ false
        → (e : Entry) × In e rows
          × (selected p e ≡ true)
          × (¬ Intact f rows e)
          × (res.first_broken_at ≡ some e.id)
          × ((r : Entry)
              → In r rows
              → selected p r ≡ true
              → r.timestamp < e.timestamp
              → Intact f rows r)

  first_broken_lem :
      (existing : List Text) (es : List Entry)
      → (check_rows f existing (no_progress f) es).first_broken ≡ first_bad f existing es
  first_broken_lem existing es = check_rows-finds f existing (no_progress f) es refl

  module _ (order : Log → Log) (s : IsSort earlier order) (p : AuditVerifyParams) (rows : Log) where
    picked : (e : Entry) → In e (row_query order p rows) → In e rows × (selected p e ≡ true)
    unfolding row_query
    picked e m = keep-In (selected p) e rows (In-unsort s e (keep (selected p) rows) m)

    unpicked : (e : Entry) → In e rows → selected p e ≡ true → In e (row_query order p rows)
    unfolding row_query
    unpicked e m h = In-sort s e (keep (selected p) rows) (In-keep (selected p) e rows m h)

    sorted : Ordered earlier (row_query order p rows)
    unfolding row_query
    sorted = s.orders (keep (selected p) rows)

    not-Intact : (e : Entry) → intact_row f (hash_query rows) e ≡ false → ¬ Intact f rows e
    not-Intact e h i = let k = Intact→intact_row f rows e i in absurd (cc)

    reported : AuditVerifyResult
    reported = report f (check_rows f (hash_query rows) (no_progress f) (row_query order p rows))

    reported-Reports : Reports p rows (length (row_query order p rows)) reported
    unfolding reported report is_some
    reported-Reports =
        let es = row_query order p rows in
        let found = first_broken_lem (hash_query rows) es in
        elim (first_bad-cases f (hash_query rows) es sorted) [
          | inl (q, good) ↦ record {
            counts = omega (arith, check_rows-total f (hash_query rows) (no_progress f) es);
            valid_iff = (
              λ _ e m h. intact_row-Intact f rows e (good e (unpicked e m h)),
              λ _. rw (found ∙ q) refl,
            );
            names = λ h. let t : not (is_some none) ≡ false = rw (found ∙ q) at h in absurd (cc);
          }
          | inr (e, m, q, bad, before) ↦ record {
            counts = omega (arith, check_rows-total f (hash_query rows) (no_progress f) es);
            valid_iff = (
              λ h. let t : not (is_some (some e.id)) ≡ true = rw (found ∙ q) at h in absurd (cc),
              λ all. absurd (not-Intact e bad (all e (picked e m).0 (picked e m).1)),
            );
            names = λ _. (
              e,
              (picked e m).0,
              (picked e m).1,
              not-Intact e bad,
              found ∙ q,
              λ r n h lt. intact_row-Intact f rows r (before r (unpicked r n h) lt),
            );
          }
        ]

  -- For every order in which Postgres may give rows of one timestamp, VerifyAuditChain on a table
  -- reports no error, counts the selected rows, is valid exactly where every selected row is intact,
  -- and otherwise names a row that is not, with no earlier one among the selected.
  pub verify_audit_chain-Reports :
      {E : Type 0} (order : Log → Log)
      → IsSort earlier order
      → (p : AuditVerifyParams) (rows : Log)
      → (res : AuditVerifyResult) × (verify_audit_chain f {E = E}
            (ok (hash_query rows))
            (ok (row_query order p rows))
          ≡ ok res)
        × Reports p rows (length (row_query order p rows)) res
  unfolding verify_audit_chain reported
  verify_audit_chain-Reports order s p rows =
      (reported order s p rows, refl, reported-Reports order s p rows)
