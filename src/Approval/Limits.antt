-- ===== src/Approval/Limits.antt =====
-- The optional interfaces of a licence checker: UsageLimitChecker and NearLimitReserver of
-- eami-gateway/internal/approval/router.go and eami-gateway/cmd/gateway/dispatcher.go.
use eaim.Base.{[], ◌∷◌, ◌++◌, none, some, Bool, true, false, if◌then◌else◌, Result, ok, err}
use eaim.Base.Text.{Text}
use eaim.Approval.Types.{LicenseChecker, released, State}

-- An error of a check refuses, like a negative answer.
abbrev said_yes : Result Text Bool → Bool
said_yes (ok b) = b
said_yes (err e) = false

module _ {W : Type 0} (l : LicenseChecker W) where
  unfoldable pub within_limit : W → Text → Bool
  within_limit w org_id = elim l.within_usage_limit [
    | none ↦ true
    | some within ↦ said_yes (within w org_id)
  ]

  unfoldable pub reserve_limit : W → Text → Bool × W
  reserve_limit w org_id = elim l.reserve_if_near_limit [
    | none ↦ (true, w)
    | some reserve ↦ let (r, w') = reserve w org_id in (said_yes r, w')
  ]

  unfoldable pub has_reserver : Bool
  has_reserver = elim l.reserve_if_near_limit [ none ↦ false | some reserve ↦ true ]

  -- releaseUsageReservation, a no-op without a reserver.
  unfoldable pub release_limit : (W → Text → W) → Text → State W → State W
  unfolding has_reserver
  release_limit release org_id s =
      if has_reserver
      then record { world = release s.world org_id; log = s.log ++ released org_id ∷ [] }
      else s
