-- ===== src/Approval/Once.antt =====
-- The invariant of the steps of Hold and resolve in eami-gateway/internal/approval/router.go.
use eaim.Base.{
  List, [], ◌∷◌, ◌++◌, Option, none, some, true, ◌≡◌, refl, sym, ap, ◌∙◌, ◌⊎◌, inl, inr, subst, All,
  All-append,
}
use eaim.Base.Text.{Text, codes}
use eaim.Approval.Types.{Request, Call, Backend, Event, State, HoldError, HoldOutcome}
use eaim.Approval.Calls.{calls, calls-append, Resuming}
use eaim.Approval.Resume.{dispatch_approved}
use eaim.Approval.Resumption.{Resumes}
use eaim.Approval.Outcome.{unresolved}
use eaim.Approval.Outcomes.{
  approved_not_pending, Reports, unresolved-Reports, Decides, outcome_from_status-Decides,
}
use eaim.Approval.Hold.{
  Row, Holder, waiting, late, expiring, refetching, fetched, returned, Listener, idle, loaded, read,
  sending, Wait, hold, once_do,
}
use mathlib.Core.List.{append_assoc, append-nil}

-- What a snapshot of the row says holds still, unless it was pending.
abbrev pub Snapshot : Row → Row → Type 0
Snapshot row r = (r.status ≡ codes "pending") ⊎ (r ≡ row)

-- An outcome reports the row, and one without an error stands for a call.
pub record Fine (row : Row) (cs : List Call) (o : HoldOutcome) : Type 0 where
  pub reports : Reports row o
  pub made : o.error ≡ none → (c : Call) × (cs ≡ c ∷ []) × (o.resolved ≡ true)

abbrev pub FineOption : Row → List Call → Option HoldOutcome → Type 0
FineOption row cs none = Unit
FineOption row cs (some o) = Fine row cs o

abbrev pub FineListener : Row → List Call → Listener → Type 0
FineListener row cs idle = Unit
FineListener row cs loaded = Unit
FineListener row cs (read r) = Snapshot row r
FineListener row cs (sending o) = Fine row cs o

abbrev pub FineHolder : Row → List Call → Holder → Type 0
FineHolder row cs (fetched r) = Snapshot row r
FineHolder row cs (returned o) = Fine row cs o
FineHolder row cs waiting = Unit
FineHolder row cs (late why) = Unit
FineHolder row cs expiring = Unit
FineHolder row cs refetching = Unit

pub unresolved-Fine : (row : Row) (cs : List Call) (e : HoldError) → Fine row cs (unresolved e)
unresolved-Fine row cs e = record { reports = unresolved-Reports row e; made = λ h. absurd (cc) }

-- The move to another row and other calls: facts that hold of the old ones hold of the new.
pub record Moves (row row' : Row) (cs cs' : List Call) : Type 0 where
  pub fine : (o : HoldOutcome) → Fine row cs o → Fine row' cs' o
  pub snapshot : (r : Row) → Snapshot row r → Snapshot row' r

module _ {row row' : Row} {cs cs' : List Call} (m : Moves row row' cs cs') where
  Moves-option : (o : Option HoldOutcome) → FineOption row cs o → FineOption row' cs' o
  Moves-option none h = tt
  Moves-option (some o) h = m.fine o h

  Moves-listener : (l : Listener) → FineListener row cs l → FineListener row' cs' l
  Moves-listener idle h = tt
  Moves-listener loaded h = tt
  Moves-listener (read r) h = m.snapshot r h
  Moves-listener (sending o) h = m.fine o h

  Moves-holder : (l : Holder) → FineHolder row cs l → FineHolder row' cs' l
  Moves-holder (fetched r) h = m.snapshot r h
  Moves-holder (returned o) h = m.fine o h
  Moves-holder waiting h = tt
  Moves-holder (late why) h = tt
  Moves-holder expiring h = tt
  Moves-holder refetching h = tt

-- The row is decided while it is pending.
row-Moves : (row row' : Row) (cs : List Call) → row.status ≡ codes "pending" → Moves row row' cs cs
unfolding Reports
row-Moves row row' cs p = record {
  fine = λ o f. record { reports = λ h. absurd ((f.reports h).1 p); made = f.made };
  snapshot = λ r t. elim t [ inl q ↦ inl q | inr e ↦ inl (ap (λ x. x.status) e ∙ p) ];
}

-- Calls are made where there were none.
calls-Moves : (row : Row) (cs : List Call) → Moves row row [] cs
calls-Moves row cs = record {
  fine =
      λ o f. record { reports = f.reports; made = λ h. let (c, e, x) = f.made h in absurd (cc e) };
  snapshot = λ r t. t;
}

module _ (P : Call → Type 0) where
  -- One call, of an approved row, through the once.
  pub record Spent (row : Row) (once : Option HoldOutcome) (cs : List Call) : Type 0 where
    pub call : Call
    pub only : cs ≡ call ∷ []
    pub approved : row.status ≡ codes "approved"
    pub outcome : HoldOutcome
    pub by_once : once ≡ some outcome
    pub permitted : P call

module _ {W : Type 0} (P : Call → Type 0) (g : State W) where
  pub record Inv (s : Wait W) : Type 0 where
    pub es : List Event
    pub grows : s.gateway.log ≡ g.log ++ es
    pub resuming : All Resuming es
    pub used : (calls es ≡ []) ⊎ Spent P s.row s.once (calls es)
    pub unsigned : s.row.status ≡ codes "pending" → s.row.approved_by ≡ []
    pub once : FineOption s.row (calls es) s.once
    pub channel : FineOption s.row (calls es) s.channel
    pub listener : FineListener s.row (calls es) s.listener
    pub holder : FineHolder s.row (calls es) s.holder

  pub hold-Inv : (row : Row) → row.approved_by ≡ [] → Inv (hold row g)
  unfolding calls
  hold-Inv row h = record {
    es = [];
    grows = sym (append-nil g.log);
    resuming = tt;
    used = inl refl;
    unsigned = λ p. h;
    once = tt;
    channel = tt;
    listener = tt;
    holder = tt;
  }

  -- An outcome, and a state that it is fine in.
  unfoldable pub Done : HoldOutcome × Wait W → Type 0
  Done (o, s) = (i : Inv s) × Fine s.row (calls i.es) o

  -- The row changes while it is pending; nothing was called.
  pub row-Inv :
      (s : Wait W) (row : Row)
      → s.row.status ≡ codes "pending"
      → (row.status ≡ codes "pending" → row.approved_by ≡ [])
      → Inv s
      → Inv (record s { row = row })
  row-Inv s row p u i =
      let m = row-Moves s.row row (calls i.es) p in
      record {
        es = i.es;
        grows = i.grows;
        resuming = i.resuming;
        used = elim i.used [
          | inl n ↦ inl n
          | inr k ↦ absurd (approved_not_pending (sym k.approved ∙ p))
        ];
        unsigned = u;
        once = Moves-option m s.once i.once;
        channel = Moves-option m s.channel i.channel;
        listener = Moves-listener m s.listener i.listener;
        holder = Moves-holder m s.holder i.holder;
      }

  fresh-Fine :
      (r row : Row) (o : HoldOutcome) (cs cs' : List Call)
      → cs' ≡ cs
      → Snapshot row r
      → Reports r o
      → ((cs ≡ []) × ((e : HoldError) × (o.error ≡ some e)))
        ⊎ ((c : Call) × (cs ≡ c ∷ []) × (r.status ≡ codes "approved") × (o.resolved ≡ true) × P c)
      → Fine row cs' o
  unfolding Reports
  fresh-Fine r row o cs cs' q t rep d = record {
    reports = elim t [ inl p ↦ λ h. absurd ((rep h).1 p) | inr e ↦ subst (λ x. Reports x o) e rep ];
    made =
        λ h. elim d [ inl (n, (e, m)) ↦ absurd (cc (h, m)) | inr (c, m, a, y, p) ↦ (c, q ∙ m, y) ];
  }

  fresh-Spent :
      (r row : Row) (o : HoldOutcome) (cs cs' : List Call)
      → cs' ≡ cs
      → Snapshot row r
      → ((cs ≡ []) × ((e : HoldError) × (o.error ≡ some e)))
        ⊎ ((c : Call) × (cs ≡ c ∷ []) × (r.status ≡ codes "approved") × (o.resolved ≡ true) × P c)
      → (cs' ≡ []) ⊎ Spent P row (some o) cs'
  fresh-Spent r row o cs cs' q t (inl (n, e)) = inl (q ∙ n)
  fresh-Spent r row o cs cs' q t (inr (c, m, a, y, p)) = inr (record {
    call = c;
    only = q ∙ m;
    approved = elim t [
      | inl k ↦ absurd (approved_not_pending (sym a ∙ k))
      | inr e ↦ ap (λ x. x.status) (sym e) ∙ a
    ];
    outcome = o;
    by_once = refl;
    permitted = p;
  })

  -- The once runs where nothing was called.
  fresh-Done :
      (r : Row) (s : Wait W) (o : HoldOutcome) (g' : State W) (i : Inv s)
      → calls i.es ≡ []
      → Snapshot s.row r
      → Decides P s.gateway r (o, g')
      → Done (o, record s { once = some o; gateway = g' })
  unfolding Done Decides
  fresh-Done r s o g' i n t (es, k, quiet, rep, d) =
      let q : calls (i.es ++ es) ≡ calls es = calls-append i.es es ∙ ap (λ l. l ++ calls es) n in
      let m : Moves s.row s.row (calls i.es) (calls (i.es ++ es)) =
        subst (λ l. Moves s.row s.row l (calls (i.es ++ es))) (sym n)
          (calls-Moves s.row (calls (i.es ++ es))) in
      let f = fresh-Fine r s.row o (calls es) (calls (i.es ++ es)) q t rep d in
      (
        record {
          es = i.es ++ es;
          grows = k ∙ ap (λ l. l ++ es) i.grows ∙ append_assoc g.log i.es es;
          resuming = All-append Resuming i.es es i.resuming quiet;
          used = fresh-Spent r s.row o (calls es) (calls (i.es ++ es)) q t d;
          unsigned = i.unsigned;
          once = f;
          channel = Moves-option m s.channel i.channel;
          listener = Moves-listener m s.listener i.listener;
          holder = Moves-holder m s.holder i.holder;
        },
        f,
      )

  module _ (b : Backend W) (id : Text) (req : Request)
      (resumes : (s : State W) → Resumes P s.log (dispatch_approved b id req s)) where
    pub once_do-Done :
        (x : Option HoldOutcome) (r : Row) (s : Wait W)
        → s.once ≡ x
        → Inv s
        → Snapshot s.row r
        → Done (once_do b id req x r s)
    unfolding Done once_do
    once_do-Done (some o) r s e i t = (i, subst (FineOption s.row (calls i.es)) e i.once)
    once_do-Done none r s e i t =
        fresh-Done r s _ _ i (elim i.used [ inl n ↦ n | inr k ↦ absurd (cc (sym e ∙ k.by_once)) ]) t
          (outcome_from_status-Decides P s.gateway r b id req (resumes s.gateway))
