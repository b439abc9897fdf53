-- ===== src/Approval/Calls.antt =====
-- The calls in a log, and the events of a resumption.
use eaim.Base.{List, [], ◌∷◌, ◌++◌, ◌≡◌, refl, ap}
use eaim.Approval.Types.{
  Call, Event, called, resume_recorded, released, submitted, audited, usage_recorded,
  episode_recorded,
}

-- The calls of the systems behind the gateway.
unfoldable pub calls : List Event → List Call
calls [] = []
calls (called c ∷ es) = c ∷ calls es
calls (resume_recorded i o ∷ es) = calls es
calls (released o ∷ es) = calls es
calls (submitted i r ∷ es) = calls es
calls (audited e x ∷ es) = calls es
calls (usage_recorded t ∷ es) = calls es
calls (episode_recorded st o ∷ es) = calls es

pub calls-append : (xs ys : List Event) → calls (xs ++ ys) ≡ calls xs ++ calls ys
unfolding calls
calls-append [] ys = refl
calls-append (called c ∷ es) ys = ap (λ t. c ∷ t) (calls-append es ys)
calls-append (resume_recorded i o ∷ es) ys = calls-append es ys
calls-append (released o ∷ es) ys = calls-append es ys
calls-append (submitted i r ∷ es) ys = calls-append es ys
calls-append (audited e x ∷ es) ys = calls-append es ys
calls-append (usage_recorded t ∷ es) ys = calls-append es ys
calls-append (episode_recorded st o ∷ es) ys = calls-append es ys

-- An event of a resumption: a call, the record of its outcome, or the release of a reservation.
unfoldable pub Resuming : Event → Type 0
Resuming (called c) = Unit
Resuming (resume_recorded i o) = Unit
Resuming (released o) = Unit
Resuming (submitted i r) = ⊥
Resuming (audited e x) = ⊥
Resuming (usage_recorded t) = ⊥
Resuming (episode_recorded st o) = ⊥
