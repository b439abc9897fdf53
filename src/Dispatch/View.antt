-- ===== src/Dispatch/View.antt =====
-- What a reader of the log sees of a dispatch of eami-gateway/cmd/gateway/dispatcher.go: the calls,
-- the audit rows that were handed to the writer, each with the error of its Write, and the token
-- usage, each in order.
use eaim.Base.{
  List, [], ◌∷◌, ◌++◌, Option, none, some, ◌≡◌, refl, sym, ap, ◌∙◌, All, Bool-cases, inl, inr,
}
use eaim.Base.Text.{Text}
use eaim.Audit.Entry.{Entry}
use eaim.Approval.Types.{
  LicenseChecker, Call, Event, called, resume_recorded, released, submitted, audited,
  usage_recorded, episode_recorded, State,
}
use eaim.Approval.Limits.{has_reserver, release_limit}
use eaim.Approval.Calls.{calls, Resuming}
use mathlib.Core.List.{append_assoc, append-nil}

pub record View : Type 0 where
  pub calls : List Call
  pub audits : List (Entry × Option Text)
  pub usages : List Text

abbrev pub nothing : View
nothing = record { calls = []; audits = []; usages = [] }

abbrev pub one_call : Call → View
one_call c = record { calls = c ∷ []; audits = []; usages = [] }

abbrev pub one_audit : Entry → Option Text → View
one_audit e x = record { calls = []; audits = (e, x) ∷ []; usages = [] }

-- The rows that are in the table of audit rows afterwards: those whose Write had no error.
unfoldable pub written : List (Entry × Option Text) → List Entry
written [] = []
written ((e, none) ∷ xs) = e ∷ written xs
written ((e, some x) ∷ xs) = written xs

abbrev pub one_usage : Text → View
one_usage t = record { calls = []; audits = []; usages = t ∷ [] }

abbrev pub calls_only : List Call → View
calls_only cs = record { calls = cs; audits = []; usages = [] }

infixr 30 ◌⊕◌
abbrev pub ◌⊕◌ : View → View → View
v ⊕ u = record {
  calls = v.calls ++ u.calls;
  audits = v.audits ++ u.audits;
  usages = v.usages ++ u.usages;
}

abbrev view_event : Event → View
view_event (called c) = one_call c
view_event (resume_recorded i o) = nothing
view_event (released o) = nothing
view_event (submitted i r) = nothing
view_event (audited e x) = one_audit e x
view_event (usage_recorded t) = one_usage t
view_event (episode_recorded st o) = nothing

unfoldable pub view : List Event → View
view [] = nothing
view (e ∷ es) = view_event e ⊕ view es

⊕_assoc : (a b c : View) → (a ⊕ b) ⊕ c ≡ a ⊕ (b ⊕ c)
⊕_assoc a b c = cc (
  append_assoc a.calls b.calls c.calls,
  append_assoc a.audits b.audits c.audits,
  append_assoc a.usages b.usages c.usages,
)

view-append : (xs ys : List Event) → view (xs ++ ys) ≡ view xs ⊕ view ys
unfolding view
view-append [] ys = refl
view-append (e ∷ es) ys =
    ap (λ v. view_event e ⊕ v) (view-append es ys)
    ∙ sym (⊕_assoc (view_event e) (view es) (view ys))

-- A resumption makes calls and writes no audit row.
pub view-Resuming : (es : List Event) → All Resuming es → view es ≡ calls_only (calls es)
unfolding view calls Resuming
view-Resuming [] h = refl
view-Resuming (called c ∷ es) h = ap (λ v. one_call c ⊕ v) (view-Resuming es h.1)
view-Resuming (resume_recorded i o ∷ es) h = view-Resuming es h.1
view-Resuming (released o ∷ es) h = view-Resuming es h.1
view-Resuming (submitted i r ∷ es) h = absurd h.0
view-Resuming (audited e x ∷ es) h = absurd h.0
view-Resuming (usage_recorded t ∷ es) h = absurd h.0
view-Resuming (episode_recorded st o ∷ es) h = absurd h.0

module _ {W : Type 0} where
  -- The log of the one state is that of the other with events of this view behind it.
  unfoldable pub Adds : State W → State W → View → Type 0
  Adds s t v = (es : List Event) × (t.log ≡ s.log ++ es) × (view es ≡ v)

  pub Adds-nothing : (s : State W) (t : State W) → t.log ≡ s.log → Adds s t nothing
  unfolding Adds view
  Adds-nothing s t e = ([], e ∙ sym (append-nil s.log), refl)

  pub Adds-event : (s t : State W) (e : Event) → t.log ≡ s.log ++ e ∷ [] → Adds s t (view_event e)
  unfolding Adds view
  Adds-event s t e h = (
    e ∷ [],
    h,
    cc (
      append-nil (view_event e).calls,
      append-nil (view_event e).audits,
      append-nil (view_event e).usages,
    ),
  )

  pub Adds-both : (s t r : State W) (v u : View) → Adds s t v → Adds t r u → Adds s r (v ⊕ u)
  unfolding Adds
  Adds-both s t r v u (es, h, p) (fs, k, q) = (
    es ++ fs,
    k ∙ ap (λ l. l ++ fs) h ∙ append_assoc s.log es fs,
    view-append es fs ∙ ap (λ x. x ⊕ view fs) p ∙ ap (λ x. v ⊕ x) q,
  )

  pub Adds-release_limit :
      (l : LicenseChecker W) (release : W → Text → W) (org_id : Text) (s : State W)
      → Adds s (release_limit l release org_id s) nothing
  unfolding release_limit
  Adds-release_limit l release org_id s = elim (Bool-cases (has_reserver l)) [
    | inl y ↦ rw (release_limit, y) (Adds-event s _ (released org_id) refl)
    | inr n ↦ rw (release_limit, n) (Adds-nothing s s refl)
  ]
