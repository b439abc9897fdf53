-- ===== src/Approval/Ticket.antt =====
-- What an approval promises, as a machine of its own: a row that is settled once, and a call that is
-- made at most once, of an approved row. The steps of Hold and resolve in
-- eami-gateway/internal/approval/router.go are seen through it.
use eaim.Base.{List, [], ◌∷◌, ◌++◌, Option, none, some, ◌≡◌, refl, sym, ap, subst, ◌∙◌, inl, inr}
use eaim.Base.Text.{Text, codes, text_eq}
use eaim.Approval.Types.{Request, Call, Backend, Event, State, HoldOutcome}
use eaim.Approval.Calls.{calls, calls-append}
use eaim.Approval.Outcome.{outcome_from_status}
use eaim.Approval.Outcomes.{approved_not_pending, Decides, outcome_from_status-Decides}
use eaim.Approval.Hold.{
  Row, Wait, once_do, Step, decides, moves_on, notified, reads, read_fails, resolves, sends,
  receives, ends, receives_late, gives_up, times_out, expires, expiry_fails, expiry_unconfirmed,
  loses, refetch_fails, refetches, honours, Reach,
}
use eaim.Approval.Once.{Snapshot, FineListener, FineHolder, Inv}
use eaim.Approval.AtMostOnce.{
  PermittedOnce, permitted-Resumes, Reach-PermittedInv, decided_final, expired_final,
}
use mathlib.Core.List.{append_assoc}

pub record Ticket : Type 0 where
  pub row : Row
  pub calls : List Call

pub data TicketStep (P : Call → Type 0) : Ticket → Ticket → Type 0 where
  stays : {t : Ticket} → TicketStep P t t
  settles :
      {t : Ticket} (row : Row)
      → t.row.status ≡ codes "pending"
      → ¬ (row.status ≡ codes "pending")
      → TicketStep P t (record t { row = row })
  goes_out :
      {t : Ticket} (c : Call)
      → t.row.status ≡ codes "approved"
      → t.calls ≡ []
      → P c
      → TicketStep P t (record t { calls = c ∷ [] })

append_cancel : (xs ys zs : List Event) → xs ++ ys ≡ xs ++ zs → ys ≡ zs
append_cancel [] ys zs e = e
append_cancel (x ∷ xs) ys zs e = append_cancel xs ys zs (ap tail_of e)
  where
    tail_of : List Event → List Event
    tail_of [] = []
    tail_of (x ∷ xs) = xs

module _ {W : Type 0} (b : Backend W) (id : Text) (req : Request) (g : State W) where
  -- The ticket shows the row, and the calls that were added to the log.
  pub record Shows (s : Wait W) (t : Ticket) : Type 0 where
    pub row : t.row ≡ s.row
    pub es : List Event
    pub grows : s.gateway.log ≡ g.log ++ es
    pub calls : calls es ≡ t.calls

  unfoldable pub Refines : Wait W → Ticket → Type 0
  Refines s t = (t' : Ticket) × TicketStep (PermittedOnce b req) t t' × Shows s t'

  same :
      (s s' : Wait W) (t : Ticket)
      → s'.row ≡ s.row
      → s'.gateway.log ≡ s.gateway.log
      → Shows s t
      → Refines s' t
  unfolding Refines
  same s s' t r l h =
      (t, stays, record { row = h.row ∙ sym r; es = h.es; grows = l ∙ h.grows; calls = h.calls })

  settled :
      (s s' : Wait W) (t : Ticket)
      → s.row.status ≡ codes "pending"
      → ¬ (s'.row.status ≡ codes "pending")
      → s'.gateway.log ≡ s.gateway.log
      → Shows s t
      → Refines s' t
  unfolding Refines
  settled s s' t p n l h = (
    record t { row = s'.row },
    settles s'.row (ap (λ r. r.status) h.row ∙ p) n,
    record { row = refl; es = h.es; grows = l ∙ h.grows; calls = h.calls },
  )

  unused :
      (s : Wait W) (t : Ticket)
      → s.once ≡ none
      → Inv (PermittedOnce b req) g s
      → Shows s t
      → t.calls ≡ []
  unused s t e i h = elim i.used [
    | inl n ↦ sym h.calls ∙ ap calls (append_cancel g.log h.es i.es (sym h.grows ∙ i.grows)) ∙ n
    | inr k ↦ absurd (cc (sym e ∙ k.by_once))
  ]

  -- The once runs, and the log grows by what one outcome adds.
  by_outcome :
      (r : Row) (s s' : Wait W) (t : Ticket) (d : HoldOutcome × State W)
      → t.calls ≡ []
      → Snapshot s.row r
      → s'.row ≡ s.row
      → s'.gateway.log ≡ d.1.log
      → Shows s t
      → Decides (PermittedOnce b req) s.gateway r d
      → Refines s' t
  unfolding Refines Decides
  by_outcome r s s' t (o, g') n f w l h (es, k, quiet, rep, d) =
      let grows = l ∙ k ∙ ap (λ x. x ++ es) h.grows ∙ append_assoc g.log h.es es in
      let added = calls-append h.es es ∙ ap (λ x. x ++ calls es) (h.calls ∙ n) in
      elim d [
        | inl (m, e) ↦ (
          t,
          stays,
          record { row = h.row ∙ sym w; es = h.es ++ es; grows = grows; calls = added ∙ m ∙ sym n },
        )
        | inr (c, m, a, y, p) ↦ (
          record t { calls = c ∷ [] },
          goes_out c
              (ap (λ x. x.status) h.row ∙ elim f [
                | inl q ↦ absurd (approved_not_pending (sym a ∙ q))
                | inr e ↦ ap (λ x. x.status) (sym e) ∙ a
              ])
              n p,
          record { row = h.row ∙ sym w; es = h.es ++ es; grows = grows; calls = added ∙ m },
        )
      ]

  by_once :
      (x : Option HoldOutcome) (r : Row) (s s' : Wait W) (t : Ticket)
      → s.once ≡ x
      → Inv (PermittedOnce b req) g s
      → Snapshot s.row r
      → s'.row ≡ (once_do b id req x r s).1.row
      → s'.gateway.log ≡ (once_do b id req x r s).1.gateway.log
      → Shows s t
      → Refines s' t
  unfolding once_do
  by_once (some o) r s s' t e i f w l h = same s s' t w l h
  by_once none r s s' t e i f w l h =
      by_outcome r s s' t (outcome_from_status b id req r.status r.reason r.approved_by s.gateway)
        (unused s t e i h) f w l h
        (outcome_from_status-Decides (PermittedOnce b req) s.gateway r b id req
          (permitted-Resumes b id req s.gateway s.gateway))

  -- Each step of Hold, of the listener or of the decision on the row, from a state that such steps
  -- lead to, is a step of the ticket that the state shows, or leaves it as it is: the row is settled
  -- once and for all, and a call goes out only where it is approved and none went out before.
  pub step-Refines :
      (s s' : Wait W) (t : Ticket)
      → Reach b id req g s
      → Step b id req s s'
      → Shows s t
      → Refines s' t
  unfolding outcome_from_status text_eq
  step-Refines s s' t r (decides approve x a p) h =
      settled s s' t p (decided_final approve x a) refl h
  step-Refines s s' t r (moves_on w) h = same s s' t refl refl h
  step-Refines s s' t r (notified e p) h = same s s' t refl refl h
  step-Refines s s' t r (reads e) h = same s s' t refl refl h
  step-Refines s s' t r (read_fails x e) h = same s s' t refl refl h
  step-Refines s s' t r (resolves q e) h =
      let i = Reach-PermittedInv b id req g r in
      by_once s.once q s s' t refl i (subst (FineListener s.row (calls i.es)) e i.listener) refl
        refl h
  step-Refines s s' t r (sends o e c) h = same s s' t refl refl h
  step-Refines s s' t r (receives o e c) h = same s s' t refl refl h
  step-Refines s s' t r (ends why e) h = same s s' t refl refl h
  step-Refines s s' t r (receives_late why o e c) h = same s s' t refl refl h
  step-Refines s s' t r (gives_up e c) h = same s s' t refl refl h
  step-Refines s s' t r (times_out e c) h = same s s' t refl refl h
  step-Refines s s' t r (expires e p) h = settled s s' t p (expired_final s.row) refl h
  step-Refines s s' t r (expiry_fails e) h = same s s' t refl refl h
  step-Refines s s' t r (expiry_unconfirmed e p) h = settled s s' t p (expired_final s.row) refl h
  step-Refines s s' t r (loses e n) h = same s s' t refl refl h
  step-Refines s s' t r (refetch_fails e) h = same s s' t refl refl h
  step-Refines s s' t r (refetches e) h = same s s' t refl refl h
  step-Refines s s' t r (honours q e) h =
      let i = Reach-PermittedInv b id req g r in
      by_once s.once q s s' t refl i (subst (FineHolder s.row (calls i.es)) e i.holder) refl refl h
