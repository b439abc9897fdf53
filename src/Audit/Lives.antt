-- ===== src/Audit/Lives.antt =====
-- Every table that the writer leaves is intact, whatever its restarts and failed writes.
use eaim.Base.{
  List, [], ◌∷◌, Option, some, Bool, true, false, ◌≡◌, refl, sym, subst, ◌⊎◌, inl, inr, In,
  Option-cases, ok,
}
use eaim.Base.Text.{Text}
use eaim.Base.Sort.{IsSort}
use eaim.Audit.Entry.{Formats, Entry, row_hash, genesis_hash}
use eaim.Audit.Writer.{
  Log, IsNewest, Writer, new_with_db, WriteCall, State, load_hash, initialize, append, Event,
  writes, restarts, step, run,
}
use eaim.Audit.Verify.{
  AuditVerifyParams, AuditVerifyResult, earlier, hash_query, row_query, verify_audit_chain,
}
use eaim.Audit.Chain.{append-cases, write-cases, initialize-cases}
use eaim.Audit.Valid.{Intact}
use eaim.Audit.Report.{verify_audit_chain-Reports}

module _ (f : Formats) (newest : Log → Option Entry) (n : IsNewest newest) where
  -- The hash can be named by a new row.
  abbrev Known : Log → Text → Type 0
  Known rows h = ((r : Entry) × In r rows × (r.hash ≡ h)) ⊎ (h ≡ genesis_hash f)

  record Good (s : State) : Type 0 where
    rows : (e : Entry) → In e s.log → Intact f s.log e
    named : s.writer.initialized ≡ true → Known s.log s.writer.last_hash

  Known-cons : (x : Entry) (rows : Log) (h : Text) → Known rows h → Known (x ∷ rows) h
  Known-cons x rows h (inl (r, m, e)) = inl (r, inr m, e)
  Known-cons x rows h (inr g) = inr g

  load_hash-Known : (rows : Log) → Known rows (load_hash f newest rows)
  unfolding load_hash
  load_hash-Known rows = elim (Option-cases (newest rows)) [
    | inl q ↦ rw (q, load_hash) (inr refl)
    | inr (e, q) ↦ rw (q, load_hash) (inl (e, n.among rows e q, refl))
  ]

  initialize-Known :
      (b : Bool) (s : State) (w : Writer)
      → Good s
      → initialize f newest b s ≡ some w
      → Known s.log w.last_hash
  initialize-Known b s w g h = from (initialize-cases f newest b s w h).1
    where
      from :
          ((s.writer.initialized ≡ true) × (w.last_hash ≡ s.writer.last_hash))
            ⊎ ((s.writer.initialized ≡ false) × (w.last_hash ≡ load_hash f newest s.log))
          → Known s.log w.last_hash
      from (inl (i, q)) = subst (Known s.log) (sym q) (g.named i)
      from (inr (i, q)) = subst (Known s.log) (sym q) (load_hash-Known s.log)

  append-Good :
      (c : WriteCall) (w : Writer) (s : State)
      → Good s
      → Known s.log w.last_hash
      → Good (append f newest c w s.log).0
  append-Good c w s g k = elim (append-cases f newest c w s.log) [
    | inl q ↦ subst Good (sym q) (record { rows = g.rows; named = λ _. k })
    | inr (e, q, p, h) ↦
        subst Good (sym q) (record { rows = grown e p h; named = λ _. inl (e, inl refl, refl) })
  ]
    where
      grown :
          (e : Entry)
          → e.prev_hash ≡ w.last_hash
          → e.hash ≡ row_hash f e.prev_hash e
          → (r : Entry) → In r (e ∷ s.log)
          → Intact f (e ∷ s.log) r
      grown e p h r (inl q) =
          subst (Intact f (e ∷ s.log)) q
            (h, Known-cons e s.log e.prev_hash (subst (Known s.log) (sym p) k))
      grown e p h r (inr m) =
          let (self, link) = g.rows r m in (self, Known-cons e s.log r.prev_hash link)

  step-Good : (e : Event) (s : State) → Good s → Good (step f newest e s)
  unfolding step
  step-Good (writes c) s g = elim (write-cases f newest c s) [
    | inl q ↦ subst Good (sym q) g
    | inr (w, h, q) ↦ subst Good (sym q) (append-Good c w s g (initialize-Known c.load_ok s w g h))
  ]
  step-Good restarts s g = record { rows = g.rows; named = λ i. absurd (cc) }

  run-Good : (es : List (Event)) (s : State) → Good s → Good (run f newest es s)
  unfolding run
  run-Good [] s g = g
  run-Good (e ∷ es) s g = run-Good es (step f newest e s) (step-Good e s g)

  abbrev empty_state : State
  empty_state = record { writer = new_with_db; log = [] }

  -- Starting from an empty table, after any sequence of writes, failed writes and restarts of the
  -- gateway, VerifyAuditChain reports every org and time range as valid.
  pub run-valid :
      {E : Type 0} (es : List (Event)) (order : Log → Log)
      → IsSort earlier order
      → (p : AuditVerifyParams)
      → let rows = (run f newest es (record { writer = new_with_db; log = [] })).log in
        (res : AuditVerifyResult) × (verify_audit_chain f {E = E}
            (ok (hash_query rows))
            (ok (row_query order p rows))
          ≡ ok res)
        × (res.valid ≡ true)
  run-valid es order s p =
      let rows = (run f newest es empty_state).log in
      let good =
        run-Good es empty_state (record { rows = λ e m. absurd m; named = λ i. absurd (cc) }) in
      let (res, e, r) = verify_audit_chain-Reports f order s p rows in
      (res, e, r.valid_iff.1 (λ x m _. good.rows x m))
