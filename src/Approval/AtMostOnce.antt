-- ===== src/Approval/AtMostOnce.antt =====
-- The steps of Hold and resolve in eami-gateway/internal/approval/router.go keep the invariant.
use eaim.Base.{
  List, [], ◌∷◌, ◌++◌, Option, none, some, Bool, true, false, ◌≡◌, refl, ap, ◌⊎◌, inl, inr, subst,
}
use eaim.Base.Text.{Text, codes, text_eq, text_neq}
use eaim.Approval.Types.{
  Request, Call, Backend, Event, State, hold_timed_out, hold_cancelled, fetch_failed, HoldOutcome,
}
use eaim.Approval.Calls.{calls}
use eaim.Approval.Resume.{dispatch_approved}
use eaim.Approval.Resumption.{Resumes, Permitted, Resumes-mono, dispatch_approved-Resumes}
use eaim.Approval.Outcome.{outcome_refused, outcome_from_status}
use eaim.Approval.Outcomes.{Reports}
use eaim.Approval.Hold.{
  Row, Holder, returned, Listener, idle, sending, Wait, decided, expired, Step, decides, moves_on,
  notified, reads, read_fails, resolves, sends, receives, ends, receives_late, gives_up, times_out,
  expires, expiry_fails, expiry_unconfirmed, loses, refetch_fails, refetches, honours, Reach, held,
  then,
}
use eaim.Approval.Once.{
  FineOption, FineListener, FineHolder, Fine, Inv, Done, unresolved-Fine, hold-Inv, row-Inv,
  once_do-Done,
}

pub decided_final :
    (approve : Bool) (t a : Text) → ¬ ((decided approve t a).status ≡ codes "pending")
decided_final true t a e = absurd (cc)
decided_final false t a e = absurd (cc)

pub expired_final : (row : Row) → ¬ ((expired row).status ≡ codes "pending")
unfolding text_eq
expired_final row = text_neq _ _ refl

module _ {W : Type 0} (P : Call → Type 0) (g : State W) where
  -- A step of one goroutine.
  listener-Inv :
      (s : Wait W) (l : Listener) (i : Inv P g s)
      → FineListener s.row (calls i.es) l
      → Inv P g (record s { listener = l })
  listener-Inv s l i f = record {
    es = i.es;
    grows = i.grows;
    resuming = i.resuming;
    used = i.used;
    unsigned = i.unsigned;
    once = i.once;
    channel = i.channel;
    listener = f;
    holder = i.holder;
  }

  holder-Inv :
      (s : Wait W) (h : Holder) (i : Inv P g s)
      → FineHolder s.row (calls i.es) h
      → Inv P g (record s { holder = h })
  holder-Inv s h i f = record {
    es = i.es;
    grows = i.grows;
    resuming = i.resuming;
    used = i.used;
    unsigned = i.unsigned;
    once = i.once;
    channel = i.channel;
    listener = i.listener;
    holder = f;
  }

  channel-Inv :
      (s : Wait W) (c : Option HoldOutcome) (i : Inv P g s)
      → FineOption s.row (calls i.es) c
      → Inv P g (record s { channel = c })
  channel-Inv s c i f = record {
    es = i.es;
    grows = i.grows;
    resuming = i.resuming;
    used = i.used;
    unsigned = i.unsigned;
    once = i.once;
    channel = f;
    listener = i.listener;
    holder = i.holder;
  }

  world-Inv :
      (s : Wait W) (w : W)
      → Inv P g s
      → Inv P g (record s { gateway = record s.gateway { world = w } })
  world-Inv s w i = record {
    es = i.es;
    grows = i.grows;
    resuming = i.resuming;
    used = i.used;
    unsigned = i.unsigned;
    once = i.once;
    channel = i.channel;
    listener = i.listener;
    holder = i.holder;
  }

  receive-Inv :
      (s : Wait W) (o : HoldOutcome)
      → s.channel ≡ some o
      → Inv P g s
      → Inv P g (record s { holder = returned o; channel = none })
  receive-Inv s o e i =
      channel-Inv (record s { holder = returned o }) none
        (holder-Inv s (returned o) i (subst (FineOption s.row (calls i.es)) e i.channel)) tt

  expire-Inv :
      (s : Wait W)
      → s.row.status ≡ codes "pending"
      → Inv P g s
      → Inv P g (record s { row = expired s.row })
  expire-Inv s p i = row-Inv P g s (expired s.row) p (λ e. absurd (expired_final s.row e)) i

  expired-Fine :
      (row : Row) (cs : List Call)
      → row.approved_by ≡ []
      → Fine (expired row) cs (outcome_refused (codes "expired") (codes "timed out") [])
  unfolding Reports outcome_refused text_eq
  expired-Fine row cs e = record {
    reports = λ h. (
      ap (λ a. record { status = codes "expired"; reason = codes "timed out"; approved_by = a }) e,
      expired_final row,
    );
    made = λ h. absurd (cc);
  }

  resolved-Inv :
      (d : HoldOutcome × Wait W) → Done P g d → Inv P g (record (d.1) { listener = sending d.0 })
  unfolding Done
  resolved-Inv (o, s) (i, f) = listener-Inv s (sending o) i f

  honoured-Inv :
      (d : HoldOutcome × Wait W) → Done P g d → Inv P g (record (d.1) { holder = returned d.0 })
  unfolding Done
  honoured-Inv (o, s) (i, f) = holder-Inv s (returned o) i f

  module _ (b : Backend W) (id : Text) (req : Request)
      (resumes : (s : State W) → Resumes P s.log (dispatch_approved b id req s)) where
    step-Inv : {s t : Wait W} → Step b id req s t → Inv P g s → Inv P g t
    unfolding outcome_from_status text_eq
    step-Inv {s} (decides approve x a p) i =
        row-Inv P g s _ p (λ e. absurd (decided_final approve x a e)) i
    step-Inv {s} (moves_on w) i = world-Inv s w i
    step-Inv {s} (notified e h) i = listener-Inv s _ i tt
    step-Inv {s} (reads e) i = listener-Inv s _ i (inr refl)
    step-Inv {s} (read_fails t e) i = listener-Inv s _ i (unresolved-Fine _ _ (fetch_failed t))
    step-Inv {s} (resolves r e) i = resolved-Inv _ (
        once_do-Done P g b id req resumes _ r s refl i
          (subst (FineListener s.row (calls i.es)) e i.listener))
    step-Inv {s} (sends o e c) i =
        listener-Inv (record s { channel = some o }) idle
          (channel-Inv s (some o) i (subst (FineListener s.row (calls i.es)) e i.listener)) tt
    step-Inv {s} (receives o e c) i = receive-Inv s o c i
    step-Inv {s} (ends why e) i = holder-Inv s _ i tt
    step-Inv {s} (receives_late why o e c) i = receive-Inv s o c i
    step-Inv {s} (gives_up e c) i = holder-Inv s _ i (unresolved-Fine _ _ hold_cancelled)
    step-Inv {s} (times_out e c) i = holder-Inv s _ i tt
    step-Inv {s} (expires e p) i =
        holder-Inv (record s { row = expired s.row }) _ (expire-Inv s p i)
          (expired-Fine s.row _ (i.unsigned p))
    step-Inv {s} (expiry_fails e) i = holder-Inv s _ i (unresolved-Fine _ _ hold_timed_out)
    step-Inv {s} (expiry_unconfirmed e p) i =
        holder-Inv (record s { row = expired s.row }) _ (expire-Inv s p i)
          (unresolved-Fine _ _ hold_timed_out)
    step-Inv {s} (loses e n) i = holder-Inv s _ i tt
    step-Inv {s} (refetch_fails e) i = holder-Inv s _ i (unresolved-Fine _ _ hold_timed_out)
    step-Inv {s} (refetches e) i = holder-Inv s _ i (inr refl)
    step-Inv {s} (honours r e) i = honoured-Inv _ (
        once_do-Done P g b id req resumes _ r s refl i
          (subst (FineHolder s.row (calls i.es)) e i.holder))

    Reach-Inv : {s : Wait W} → Reach b id req g s → Inv P g s
    Reach-Inv (held row p a) = hold-Inv P g row a
    Reach-Inv (then r st) = step-Inv st (Reach-Inv r)

module _ {W : Type 0} (b : Backend W) (req : Request) where
  -- A call that the gates and the pin let through in some state.
  unfoldable pub PermittedOnce : Call → Type 0
  unfolding Permitted
  PermittedOnce c = (w : W) × Permitted b w req c

module _ {W : Type 0} (b : Backend W) (id : Text) (req : Request) (g : State W) where
  pub permitted-Resumes :
      (s : State W) → Resumes (PermittedOnce b req) s.log (dispatch_approved b id req s)
  unfolding PermittedOnce
  permitted-Resumes s =
      Resumes-mono (Permitted b s.world req) (PermittedOnce b req) s.log _ (λ c p. (s.world, p))
        (dispatch_approved-Resumes b id req s)

  -- In every state that the goroutine of Hold, the listener and the decisions on the row lead to, in
  -- whatever order: no call was made, or exactly one, through the gates and to the destination that
  -- was pinned, and the row is approved.
  pub hold-AtMostOne :
      (s : Wait W)
      → Reach b id req g s
      → (es : List Event) × (s.gateway.log ≡ g.log ++ es)
        × ((calls es ≡ [])
            ⊎ ((c : Call) × (calls es ≡ c ∷ [])
                × (s.row.status ≡ codes "approved")
                × PermittedOnce b req c))
  hold-AtMostOne s r =
      let i = Reach-Inv (PermittedOnce b req) g b id req permitted-Resumes r in
      (
        i.es,
        i.grows,
        elim i.used [ inl n ↦ inl n | inr k ↦ inr (k.call, k.only, k.approved, k.permitted) ],
      )

  -- What Hold returns at the end of such steps: if it is resolved, the row is no longer pending, and
  -- its status, reason and approver are the row's; if it has no error, it is resolved and exactly one
  -- call was made.
  pub hold-Honest :
      (s : Wait W) (o : HoldOutcome)
      → Reach b id req g s
      → s.holder ≡ returned o
      → (es : List Event) × (s.gateway.log ≡ g.log ++ es)
        × Reports s.row o
        × (o.error ≡ none → (c : Call) × (calls es ≡ c ∷ []) × (o.resolved ≡ true))
  hold-Honest s o r e =
      let i = Reach-Inv (PermittedOnce b req) g b id req permitted-Resumes r in
      let f : Fine s.row (calls i.es) o = subst (FineHolder s.row (calls i.es)) e i.holder in
      (i.es, i.grows, f.reports, f.made)

  pub Reach-PermittedInv : {s : Wait W} → Reach b id req g s → Inv (PermittedOnce b req) g s
  Reach-PermittedInv = Reach-Inv (PermittedOnce b req) g b id req permitted-Resumes
