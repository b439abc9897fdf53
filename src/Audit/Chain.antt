-- ===== src/Audit/Chain.antt =====
-- What a sequence of writes leaves in the table: one chain for each life of the process.
use eaim.Base.{
  map, ◌++◌, subst, sym, ap, ◌∙◌, [], List, ◌∷◌, Option, some, Bool, true, false, ◌≡◌, refl, ◌⊎◌,
  inl, inr, Bool-cases, Option-cases, arith,
}
use eaim.Base.Text.{Text}
use eaim.Audit.Entry.{Formats, Entry, content, row_hash}
use eaim.Audit.Writer.{
  Log, Writer, new_with_db, WriteCall, State, load_hash, initialize, stamped, chained, append,
  write, writes, step, run,
}

module _ (f : Formats) where
  -- The hash that the row after these has to name.
  abbrev pub prev_of : Text → Log → Text
  prev_of h [] = h
  prev_of h (e ∷ es) = e.hash

  -- Each row names the hash of the row inserted before it and hashes its own fields.
  abbrev pub Chain : Text → Log → Type 0
  Chain h [] = Unit {0}
  Chain h (e ∷ es) = (e.prev_hash ≡ prev_of h es) × (e.hash ≡ row_hash f e.prev_hash e) × Chain h es

  chained-prev : (prev : Text) (e : Entry) → (chained f prev e).prev_hash ≡ prev
  unfolding chained
  chained-prev prev e = refl

  chained_self :
      (prev : Text) (e : Entry)
      → (chained f prev e).hash ≡ row_hash f (chained f prev e).prev_hash (chained f prev e)
  unfolding chained row_hash content
  chained_self prev e = refl

  module _ (newest : Log → Option Entry) where
    -- What `append` does, by whether the insert succeeds.
    pub append-cases :
        (c : WriteCall) (w : Writer) (rows : Log)
        → ((append f newest c w rows).0 ≡ record { writer = w; log = rows })
          ⊎ ((e : Entry) × ((append f newest c w rows).0
                ≡ record { writer = record w { last_hash = e.hash }; log = e ∷ rows })
              × (e.prev_hash ≡ w.last_hash)
              × (e.hash ≡ row_hash f e.prev_hash e))
    unfolding append
    append-cases c w rows = elim (Bool-cases c.insert_ok) [
      | inl h ↦ inr (
        chained f w.last_hash (stamped c),
        rw h refl,
        chained-prev w.last_hash (stamped c),
        chained_self w.last_hash (stamped c),
      )
      | inr h ↦ inl (rw h refl)
    ]

    -- What `write` does: nothing to the table and at most an initialisation, or one more row.
    pub write-cases :
        (c : WriteCall) (s : State)
        → ((write f newest c s).0 ≡ s)
          ⊎ ((w : Writer) × (initialize f newest c.load_ok s ≡ some w)
              × ((write f newest c s).0 ≡ (append f newest c w s.log).0))
    unfolding write
    write-cases c s = elim (Option-cases (initialize f newest c.load_ok s)) [
      | inl h ↦ inl (rw (h, write) refl)
      | inr (w, h) ↦ inr (w, h, rw (h, write) refl)
    ]

    pub initialize-cases :
        (b : Bool) (s : State) (w : Writer)
        → initialize f newest b s ≡ some w
        → (w.initialized ≡ true)
          × (((s.writer.initialized ≡ true) × (w.last_hash ≡ s.writer.last_hash))
              ⊎ ((s.writer.initialized ≡ false) × (w.last_hash ≡ load_hash f newest s.log)))
    unfolding initialize
    initialize-cases b s w h = ground arith

    -- Where a life of the process stands: `old` is the table at its start, `new` what it has added.
    record Life (old : Log) (s : State) (new : Log) : Type 0 where
      table : s.log ≡ new ++ old
      chain : Chain (load_hash f newest old) new
      holds :
          ((s.writer.initialized ≡ false) × (new ≡ []))
          ⊎ ((s.writer.initialized ≡ true)
              × (s.writer.last_hash ≡ prev_of (load_hash f newest old) new))

    -- An initialised writer names the hash that the next row has to name.
    Life-initialize :
        (old : Log) (s : State) (new : Log) (b : Bool) (w : Writer)
        → Life old s new
        → initialize f newest b s ≡ some w
        → (w.initialized ≡ true) × (w.last_hash ≡ prev_of (load_hash f newest old) new)
    Life-initialize old s new b w l h =
        let (i, how) = initialize-cases b s w h in (i, known l.holds how)
      where
        known :
            ((s.writer.initialized ≡ false) × (new ≡ []))
              ⊎ ((s.writer.initialized ≡ true)
                  × (s.writer.last_hash ≡ prev_of (load_hash f newest old) new))
            → ((s.writer.initialized ≡ true) × (w.last_hash ≡ s.writer.last_hash))
              ⊎ ((s.writer.initialized ≡ false) × (w.last_hash ≡ load_hash f newest s.log))
            → w.last_hash ≡ prev_of (load_hash f newest old) new
        known (inl (u, _)) (inl (v, _)) = absurd (cc)
        known (inr (u, q)) (inl (v, p)) = p ∙ q
        known (inr (u, _)) (inr (v, _)) = absurd (cc)
        known (inl (u, q)) (inr (v, p)) =
            p
            ∙ ap (load_hash f newest) (l.table ∙ ap (λ (x : Log). x ++ old) q)
            ∙ sym (ap (prev_of (load_hash f newest old)) q)

    write-Life :
        (old : Log) (s : State) (new : Log) (c : WriteCall)
        → Life old s new
        → (new' : Log) × Life old (write f newest c s).0 new'
    write-Life old s new c l = elim (write-cases c s) [
      | inl same ↦ (new, subst (λ t. Life old t new) (sym same) l)
      | inr (w, h, e) ↦
          let (i, prev) = Life-initialize old s new c.load_ok w l h in
          elim (append-cases c w s.log) [
            | inl q ↦ (
              new,
              subst (λ t. Life old t new) (sym (e ∙ q))
                  (record { table = l.table; chain = l.chain; holds = inr (i, prev) }),
            )
            | inr (row, q, p, k) ↦ (
              row ∷ new,
              subst (λ t. Life old t (row ∷ new)) (sym (e ∙ q))
                  (record {
                    table = ap (λ (x : Log). row ∷ x) l.table;
                    chain = (p ∙ prev, k, l.chain);
                    holds = inr (i, refl);
                  }),
            )
          ]
    ]

    run-Life :
        (old : Log) (calls : List WriteCall) (s : State) (new : Log)
        → Life old s new
        → (new' : Log) × Life old (run f newest (map (λ c. writes c) calls) s) new'
    unfolding run step
    run-Life old [] s new l = (new, l)
    run-Life old (c ∷ calls) s new l =
        let (new', l') = write-Life old s new c l in
        run-Life old calls (write f newest c s).0 new' l'

    -- A process that starts on a table and makes any calls of Write, failed ones among them, only
    -- adds rows, and what it adds is one chain: each row names the hash of the row before it, the
    -- first the hash that GetLastHash gave (genesis for an empty table), and hashes its own fields.
    pub run-Chain :
        (old : Log) (calls : List WriteCall)
        → (new : Log) × ((run f newest
              (map (λ c. writes c) calls)
              (record { writer = new_with_db; log = old })).log
            ≡ new ++ old)
          × Chain (load_hash f newest old) new
    run-Chain old calls =
        let start : Life old (record { writer = new_with_db; log = old }) [] = record {
          table = refl;
          chain = tt;
          holds = inl (refl, refl);
        } in
        let (new, l) = run-Life old calls (record { writer = new_with_db; log = old }) [] start in
        (new, l.table, l.chain)
