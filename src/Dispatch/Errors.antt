-- ===== src/Dispatch/Errors.antt =====
-- What the error of a dispatch of eami-gateway/cmd/gateway/dispatcher.go says of what was done.
use eaim.Base.{[], ◌∷◌, Option, none, some, ◌≡◌, refl, ap, ◌∙◌, ◌⊎◌, inl, inr, subst}
use eaim.Base.Text.{Text}
use eaim.Mcp as Mcp
use eaim.Audit.Entry.{Entry}
use eaim.Approval.Types.{Request, Call, State}
use eaim.Dispatch.Types.{
  OutcomeError, not_live, not_licensed, over_limit, contended, provider_unresolved,
  denied_by_policy, submit_failed, hold_failed, proxy_error, DispatchOutcome, Services,
}
use eaim.Dispatch.Target.{call_of}
use eaim.Dispatch.Gates.{dispatch}
use eaim.Dispatch.View.{View}
use eaim.Dispatch.Held.{IsHeld}
use eaim.Dispatch.Exits.{usage_list}
use eaim.Dispatch.Ends.{Failed, IsLate, IsAbout, EndsWith, EndsWith-mono}
use eaim.Dispatch.Safety.{allowed, escalated, Ended, dispatch-Ended}

-- The errors that tell a caller that nothing was sent.
abbrev pub IsEarly : OutcomeError → Type 0
IsEarly not_licensed = Unit
IsEarly over_limit = Unit
IsEarly contended = Unit
IsEarly (provider_unresolved t) = Unit
IsEarly (denied_by_policy r id) = Unit
IsEarly (submit_failed e) = Unit
IsEarly not_live = ⊥
IsEarly (hold_failed e) = ⊥
IsEarly (proxy_error t) = ⊥

IsEarly-not-IsLate : (e : OutcomeError) → IsEarly e → ¬ (IsLate (some e))
IsEarly-not-IsLate not_licensed h k = k
IsEarly-not-IsLate over_limit h k = k
IsEarly-not-IsLate contended h k = k
IsEarly-not-IsLate (provider_unresolved t) h k = k
IsEarly-not-IsLate (denied_by_policy r id) h k = k
IsEarly-not-IsLate (submit_failed e) h k = k
IsEarly-not-IsLate not_live h k = h
IsEarly-not-IsLate (hold_failed e) h k = h
IsEarly-not-IsLate (proxy_error t) h k = h

module _ {W : Type 0} (sv : Services W) (ac : Mcp.ActionContext) where
  -- An error of the first kind comes with one row for the audit writer, whose error the outcome
  -- carries, and nothing else.
  abbrev pub Harmless : DispatchOutcome → View → Type 0
  Harmless o v =
      (e : OutcomeError)
      → o.error ≡ some e
      → IsEarly e
      → (v.calls ≡ [])
        × (v.usages ≡ [])
        × ((a : Entry) × (v.audits ≡ (a, o.audit_write_err) ∷ []) × IsAbout sv ac a)

  Ended-Harmless : (w : W) (o : DispatchOutcome) (v : View) → Ended sv ac w o v → Harmless o v
  Ended-Harmless w o v (inl r) e z h = (
    ap (λ x. x.calls) r.seen,
    ap (λ x. x.usages) r.seen,
    (r.entry, ap (λ x. x.audits) r.seen, r.about),
  )
  Ended-Harmless w o v (inr (t, p, allowed n m x)) e z h =
      absurd (IsEarly-not-IsLate e h (subst IsLate z x.late))
  Ended-Harmless w o v (inr (t, p, escalated q (inl u))) e z h = (
    ap (λ x. x.calls) u.seen,
    ap (λ x. x.usages) u.seen,
    (u.entry, ap (λ x. x.audits) u.seen, u.about),
  )
  Ended-Harmless w o v (inr (t, p, escalated q (inr k))) e z h =
      absurd (IsEarly-not-IsLate e h (subst IsLate z k.late))

  -- No usage with an error, and else that of the result, with one call behind it.
  abbrev pub Metered : DispatchOutcome → View → Type 0
  Metered o v =
      ((v.usages ≡ []) × Failed o)
      ⊎ ((o.error ≡ none) × (v.usages ≡ o.result ∷ []) × ((c : Call) × (v.calls ≡ c ∷ [])))

  Metered-by :
      (o : DispatchOutcome) (v : View) (x : Option OutcomeError)
      → o.error ≡ x
      → v.usages ≡ usage_list o.error o.result
      → (o.error ≡ none → (c : Call) × (v.calls ≡ c ∷ []))
      → Metered o v
  Metered-by o v none z h c = inr (z, h ∙ ap (λ e. usage_list e o.result) z, c z)
  Metered-by o v (some e) z h c = inl (h ∙ ap (λ x. usage_list x o.result) z, (e, z))

  Ended-Metered : (w : W) (o : DispatchOutcome) (v : View) → Ended sv ac w o v → Metered o v
  Ended-Metered w o v (inl r) = inl (ap (λ x. x.usages) r.seen, r.failed)
  Ended-Metered w o v (inr (t, p, allowed n m x)) =
      Metered-by o v o.error refl (ap (λ y. y.usages) x.seen)
        (λ z. (call_of t ac, ap (λ y. y.calls) x.seen))
  Ended-Metered w o v (inr (t, p, escalated q (inl u))) = inl (ap (λ x. x.usages) u.seen, u.failed)
  Ended-Metered w o v (inr (t, p, escalated q (inr h))) =
      Metered-by o v o.error refl (ap (λ x. x.usages) h.seen) (λ z. elim h.made [
        | inl (n, (e, f)) ↦ absurd (cc (z, f))
        | inr (c, m, k, q) ↦ (c, ap (λ x. x.calls) h.seen ∙ m)
      ])

  module _
      (holds : (id : Text) (req : Request) (s : State W)
        → IsHeld sv.backend id req s (sv.hold id req s)) where
    -- Where Hold runs as its steps allow, a dispatch that ends with an error of the licence, of the
    -- usage limit, of the resolution of a provider, of the policy or of the submission made no call
    -- and recorded no usage; it handed exactly one row, of its call, to the audit writer, and the
    -- outcome carries the error of that Write, with which the row is lost.
    pub dispatch-Harmless : (s : State W) → EndsWith sv ac Harmless s (dispatch sv ac s)
    dispatch-Harmless s =
        EndsWith-mono sv ac (Ended sv ac s.world) Harmless s (dispatch sv ac s)
          (Ended-Harmless s.world) (dispatch-Ended sv ac holds s)

    -- Where Hold runs as its steps allow, a dispatch records token usage exactly if it has no error,
    -- once, of its result, and then exactly one call was made.
    pub dispatch-Metered : (s : State W) → EndsWith sv ac Metered s (dispatch sv ac s)
    dispatch-Metered s =
        EndsWith-mono sv ac (Ended sv ac s.world) Metered s (dispatch sv ac s)
          (Ended-Metered s.world) (dispatch-Ended sv ac holds s)
