-- ===== src/Approval/Outcomes.antt =====
-- What the outcome of one status says and adds, for outcomeFromStatus of
-- eami-gateway/internal/approval/router.go.
use eaim.Base.{
  List, [], ◌∷◌, ◌++◌, some, true, false, ◌≡◌, refl, sym, ap, ◌∙◌, ◌⊎◌, inl, inr, Bool-cases, All,
}
use eaim.Base.Text.{Text, codes, text_eq, text_eq→eq, text_eq_refl}
use eaim.Approval.Types.{
  Request, Call, Backend, Event, State, Resumed, HoldError, resume_error, HoldOutcome,
}
use eaim.Approval.Calls.{calls, Resuming}
use eaim.Approval.Resume.{dispatch_approved}
use eaim.Approval.Resumption.{Resumes}
use eaim.Approval.Outcome.{unresolved, outcome_approved, outcome_refused, outcome_from_status}
use eaim.Approval.Hold.{Row}
use mathlib.Core.List.{append-nil}

pub approved_not_pending : ¬ (codes "approved" ≡ codes "pending")
approved_not_pending e = absurd (cc)

-- An outcome that is resolved reports the row, which is no longer pending.
unfoldable pub Reports : Row → HoldOutcome → Type 0
Reports r o =
    o.resolved ≡ true
    → (r ≡ record { status = o.status; reason = o.decision_reason; approved_by = o.approved_by })
      × ¬ (r.status ≡ codes "pending")

pub unresolved-Reports : (r : Row) (e : HoldError) → Reports r (unresolved e)
unfolding Reports
unresolved-Reports r e h = absurd (cc)

refused-Reports :
    (r : Row)
    → text_eq r.status (codes "pending") ≡ false
    → Reports r (outcome_refused r.status r.reason r.approved_by)
unfolding Reports outcome_refused
refused-Reports r n h = (
  refl,
  λ e.
      absurd (cc (sym n ∙ ap (λ t. text_eq t (codes "pending")) e, text_eq_refl (codes "pending"))),
)

approved-Reports :
    (r : Row) (a : Resumed)
    → r.status ≡ codes "approved"
    → Reports r (outcome_approved r.status r.reason r.approved_by a)
unfolding Reports outcome_approved
approved-Reports r a e h = (refl, λ p. approved_not_pending (sym e ∙ p))

module _ {W : Type 0} (P : Call → Type 0) (g : State W) (r : Row) where
  -- The log grows by events without a call, and the outcome is an error, or by those with one call,
  -- and the status is approved.
  unfoldable pub Decides : HoldOutcome × State W → Type 0
  unfolding calls Resuming
  Decides (o, s) =
      (es : List Event) × (s.log ≡ g.log ++ es)
      × All Resuming es
      × Reports r o
      × (((calls es ≡ []) × ((e : HoldError) × (o.error ≡ some e)))
          ⊎ ((c : Call) × (calls es ≡ c ∷ [])
              × (r.status ≡ codes "approved")
              × (o.resolved ≡ true)
              × P c))

  approved-Decides :
      (a : Resumed × State W)
      → r.status ≡ codes "approved"
      → Resumes P g.log a
      → Decides (outcome_approved r.status r.reason r.approved_by a.0, a.1)
  unfolding Decides Resumes outcome_approved
  approved-Decides (a, s) h (es, k, q, inl (n, (e, m))) =
      (es, k, q, approved-Reports r a h, inl (n, (resume_error e, rw m refl)))
  approved-Decides (a, s) h (es, k, q, inr (c, m, p)) =
      (es, k, q, approved-Reports r a h, inr (c, m, h, refl, p))

  refused-Decides :
      (o : HoldOutcome) (e : HoldError) → o.error ≡ some e → Reports r o → Decides (o, g)
  unfolding Decides calls
  refused-Decides o e h k = ([], sym (append-nil g.log), tt, k, inl (refl, (e, h)))

  pub outcome_from_status-Decides :
      (b : Backend W) (id : Text) (req : Request)
      → Resumes P g.log (dispatch_approved b id req g)
      → Decides (outcome_from_status b id req r.status r.reason r.approved_by g)
  unfolding outcome_from_status
  outcome_from_status-Decides b id req h = elim (Bool-cases (text_eq r.status (codes "approved"))) [
    | inl y ↦ rw (outcome_from_status, y) (approved-Decides _ (text_eq→eq _ _ y) h)
    | inr n ↦ elim (Bool-cases (text_eq r.status (codes "pending"))) [
      | inl y ↦ rw (outcome_from_status, n, y) (refused-Decides _ _ refl (unresolved-Reports r _))
      | inr m ↦ rw (outcome_from_status, n, m) (refused-Decides _ _ refl (refused-Reports r m))
    ]
  ]
