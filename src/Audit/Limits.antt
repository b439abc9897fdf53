-- ===== src/Audit/Limits.antt =====
-- What the hash chain detects, and what it does not.
use mathlib.Core.List.{append_assoc}
use eaim.Base.{
  ◌&&◌, ◌||◌, List, [], ◌∷◌, ◌++◌, Option, some, true, false, ◌≡◌, ◌≢◌, refl, sym, ap, ◌∙◌, inl,
  inr, In, Bool-cases, arith, ok, ◌<◌, ◌≤◌,
}
use eaim.Base.Text.{Text, text_eq}
use eaim.Base.Sort.{IsSort}
use eaim.Audit.Entry.{Formats, Entry, content, row_hash, genesis_hash}
use eaim.Audit.Writer.{
  Log, IsNewest, Writer, new_with_db, WriteCall, State, load_hash, initialize, append, write,
  stamped, chained, restarts, step,
}
use eaim.Audit.Verify.{
  member, AuditVerifyParams, AuditVerifyResult, Progress, selected, earlier, hash_query, row_query,
  self_consistent, linked, intact_row, check_row, check_rows, verify_audit_chain,
}
use eaim.Audit.Valid.{Intact}
use eaim.Audit.Report.{verify_audit_chain-Reports}

-- The part of the agent's name that stands before `s`, with `s` moved to the front of the tool's.
abbrev pub moved : Text → Text → Text → Entry → Entry
moved a s t e = record e { agent_name = a; tool_name = s ++ t }

abbrev pub kept_apart : Text → Text → Text → Entry → Entry
kept_apart a s t e = record e { agent_name = a ++ s; tool_name = t }

module _ (f : Formats) where
  -- No two texts have one hash: what the chain relies on of SHA-256.
  abbrev pub IsCollisionFree : Type 0
  IsCollisionFree = (a b : Text) → f.sha256_hex a ≡ f.sha256_hex b → a ≡ b

  altered :
      (e : Entry) (prev : Text) (o : Entry) (rows : Log)
      → IsCollisionFree
      → e.hash ≡ row_hash f prev o
      → content f e.prev_hash e ≢ content f prev o
      → ¬ Intact f rows e
  unfolding row_hash
  altered e prev o rows free kept changed (self, link) =
      changed (free (content f e.prev_hash e) (content f prev o) (sym self ∙ kept))

  -- A selected row that carries the hash written for `o`, and whose hashed text is no longer that of
  -- `o`, makes the verification invalid, if the hash function is collision free.
  pub verify-altered :
      {E : Type 0} (order : Log → Log)
      → IsSort earlier order
      → (p : AuditVerifyParams) (rows : Log) (e : Entry) (prev : Text) (o : Entry) → IsCollisionFree
      → In e rows
      → selected p e ≡ true
      → e.hash ≡ row_hash f prev o
      → content f e.prev_hash e ≢ content f prev o
      → (res : AuditVerifyResult) × (verify_audit_chain f {E = E}
            (ok (hash_query rows))
            (ok (row_query order p rows))
          ≡ ok res)
        × (res.valid ≡ false)
  verify-altered order s p rows e prev o free m h kept changed =
      let (res, q, r) = verify_audit_chain-Reports f order s p rows in
      (
        res,
        q,
        elim (Bool-cases res.valid) [
          | inl t ↦ absurd (altered e prev o rows free kept changed (r.valid_iff.0 t e m h))
          | inr t ↦ t
        ],
      )

  regroup : (a s t r : Text) → a ++ ((s ++ t) ++ r) ≡ (a ++ s) ++ (t ++ r)
  regroup a s t r = simp append_assoc

  content-moved :
      (prev a s t : Text) (e : Entry)
      → content f prev (moved a s t e) ≡ content f prev (kept_apart a s t e)
  unfolding content
  content-moved prev a s t e =
      ap (λ (x : Text). prev ++ (f.uuid_string e.id ++ (f.uuid_string e.org_id ++ x)))
        (regroup a s t (e.action ++ (e.decision ++ f.rfc3339 e.timestamp)))

  intact_row-moved :
      (existing : List Text) (a s t : Text) (e : Entry)
      → intact_row f existing (moved a s t e) ≡ intact_row f existing (kept_apart a s t e)
  unfolding intact_row self_consistent linked row_hash
  intact_row-moved existing a s t e =
      ap
        (λ (x : Text).
          text_eq e.hash (f.sha256_hex x)
          && (member e.prev_hash existing || text_eq e.prev_hash (genesis_hash f)))
        (content-moved e.prev_hash a s t e)

  check_row-moved :
      (existing : List Text) (s' : Progress) (a s t : Text) (e : Entry)
      → check_row f existing s' (moved a s t e) ≡ check_row f existing s' (kept_apart a s t e)
  unfolding check_row
  check_row-moved existing s' a s t e = rw (intact_row-moved existing a s t e)

  check_rows-moved :
      (existing : List Text) (s' : Progress) (before after : List Entry) (a s t : Text) (e : Entry)
      → check_rows f existing s' (before ++ moved a s t e ∷ after)
        ≡ check_rows f existing s' (before ++ kept_apart a s t e ∷ after)
  unfolding check_rows
  check_rows-moved existing s' [] after a s t e =
      ap (λ (x : Progress). check_rows f existing x after) (check_row-moved existing s' a s t e)
  check_rows-moved existing s' (x ∷ before) after a s t e =
      check_rows-moved existing (check_row f existing s' x) before after a s t e

  -- The hashed fields are joined with nothing between them: moving the end of the agent's name to
  -- the front of the tool's name, in any row, changes nothing of what VerifyAuditChain reports.
  pub verify-moved :
      {E : Type 0} (existing : List Text) (before after : List Entry) (a s t : Text) (e : Entry)
      → verify_audit_chain f {E = E} (ok existing) (ok (before ++ moved a s t e ∷ after))
        ≡ verify_audit_chain f (ok existing) (ok (before ++ kept_apart a s t e ∷ after))
  unfolding verify_audit_chain
  verify-moved existing before after a s t e = rw (check_rows-moved existing _ before after a s t e)

  module _ (newest : Log → Option Entry) (n : IsNewest newest) where
    resumed :
        (c : WriteCall) (s : State) (w : Writer)
        → initialize f newest c.load_ok s ≡ some w
        → c.insert_ok ≡ true
        → (e : Entry) × ((write f newest c s).0.log ≡ e ∷ s.log) × (e.prev_hash ≡ w.last_hash)
    unfolding write append chained
    resumed c s w h i = (chained f w.last_hash (stamped c), rw (h, write, i) refl, refl)

    -- The row that a writer which starts on these rows follows.
    followed :
        (x e : Entry) (rows : Log)
        → In e rows
        → x.timestamp < e.timestamp
        → (y : Entry) × In y rows
          × ((r : Entry) → In r (x ∷ rows) → r.timestamp ≤ y.timestamp)
          × (load_hash f newest (x ∷ rows) ≡ y.hash)
    unfolding load_hash
    followed x e rows m lt = from (n.present x rows)
      where
        from :
            (y : Entry) × (newest (x ∷ rows) ≡ some y)
            → (y : Entry) × In y rows
              × ((r : Entry) → In r (x ∷ rows) → r.timestamp ≤ y.timestamp)
              × (load_hash f newest (x ∷ rows) ≡ y.hash)
        from (y, q) = (
          y,
          pick (n.among (x ∷ rows) y q),
          λ r k. n.latest (x ∷ rows) y r q k,
          rw (load_hash, q) refl,
        )
          where
            pick : In y (x ∷ rows) → In y rows
            pick (inr k) = k
            pick (inl k) = absurd (
                omega (arith, n.latest (x ∷ rows) y e q (inr m), ap (λ (z : Entry). z.timestamp) k))

    -- After a restart the chain goes on from a row of the latest timestamp, not from the row that
    -- was inserted last: where the last row `x` has an earlier timestamp than some row before it,
    -- and its hash is its own, the first row written after the restart follows one of the rows
    -- before `x`, of the latest timestamp of all, and does not follow `x`.
    pub restart-forks :
        (c : WriteCall) (x e : Entry) (rows : Log) (w : Writer)
        → In e rows
        → x.timestamp < e.timestamp
        → ((r : Entry) → In r rows → r.hash ≢ x.hash)
        → c.load_ok ≡ true
        → c.insert_ok ≡ true
        → let s = step f newest restarts (record { writer = w; log = x ∷ rows }) in
          (row : Entry) × (y : Entry) × ((write f newest c s).0.log ≡ row ∷ x ∷ rows)
          × In y rows
          × ((r : Entry) → In r (x ∷ rows) → r.timestamp ≤ y.timestamp)
          × (row.prev_hash ≡ y.hash)
          × (row.prev_hash ≢ x.hash)
    unfolding step
    restart-forks c x e rows w m lt apart l i =
        let s : State = record { writer = new_with_db; log = x ∷ rows } in
        let fresh : Writer = record {
          last_hash = load_hash f newest (x ∷ rows);
          initialized = true;
        } in
        let (row, q, p) = resumed c s fresh (unfold initialize in (rw l refl)) i in
        let (y, k, latest, same) = followed x e rows m lt in
        (row, y, q, k, latest, p ∙ same, λ z. apart y k (sym (p ∙ same) ∙ z))
