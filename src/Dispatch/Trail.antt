-- ===== src/Dispatch/Trail.antt =====
-- The rows that a dispatch of eami-gateway/cmd/gateway/dispatcher.go hands to the audit writer, each
-- with the error of its Write; the outcome carries that of the first as AuditWriteErr.
use eaim.Base.{List, Option, none, some, [], ◌∷◌, ◌≡◌, ◌⊎◌}
use eaim.Base.Text.{Text, codes}
use eaim.Mcp as Mcp
use eaim.Audit.Entry.{Entry}
use eaim.Dispatch.Types.{DispatchOutcome, Services}
use eaim.Dispatch.View.{View, written}
use eaim.Dispatch.Exits.{decision_of}
use eaim.Dispatch.Ends.{Failed, IsAbout}

module _ {W : Type 0} (sv : Services W) (ac : Mcp.ActionContext) where
  -- The rows that are handed to the audit writer, each with the error of its Write: one, which says
  -- how the dispatch ended or that it failed as it was escalated, or two, the second of which says
  -- how the escalation ended. The outcome carries the error of the first.
  pub data Trail (o : DispatchOutcome) : List (Entry × Option Text) → Type 0 where
    final :
        (e : Entry)
        → IsAbout sv ac e
        → e.decision ≡ decision_of o.error
        → Trail o ((e, o.audit_write_err) ∷ [])
    unresolved :
        (e : Entry)
        → IsAbout sv ac e
        → e.decision ≡ codes "escalated"
        → Failed o
        → Trail o ((e, o.audit_write_err) ∷ [])
    resolved :
        (e r : Entry) (x : Option Text)
        → IsAbout sv ac e
        → e.decision ≡ codes "escalated"
        → IsAbout sv ac r
        → r.decision ≡ decision_of o.error
        → Trail o ((e, o.audit_write_err) ∷ (r, x) ∷ [])

  -- Without an error of the first Write a row of the call stands in the table; with one, no row is
  -- there, or only that which says how the escalation ended.
  abbrev pub Kept : DispatchOutcome → List (Entry × Option Text) → Type 0
  Kept o xs =
      ((o.audit_write_err ≡ none)
        × ((e : Entry) × (rest : List Entry) × (written xs ≡ e ∷ rest) × IsAbout sv ac e))
      ⊎ ((x : Text) × (o.audit_write_err ≡ some x)
          × ((written xs ≡ [])
              ⊎ ((r : Entry) × (written xs ≡ r ∷ [])
                  × IsAbout sv ac r
                  × (r.decision ≡ decision_of o.error))))
