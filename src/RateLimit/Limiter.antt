-- ===== src/RateLimit/Limiter.antt =====
-- rateLimiter with Allow and setRetryAfter. Both Go modules hold the same code. Instants and
-- durations are in nanoseconds; the mutex makes the calls one sequence.
use eaim.Base.{
  ℕ, ◌+◌, ◌-◌, ◌/◌, ◌%◌, List, [], ◌∷◌, ◌++◌, Bool, not, ◌==◌, ltb, if◌then◌else◌, length, keep,
}
use eaim.Base.Text.{Text, text_eq}
use eaim.Base.Int.{ℤ, pos, ltb_ℤ}

abbrev pub second : ℕ
second = 1000000000

-- The map from keys to the times of admitted attempts, oldest first; a missing key reads as nil.
abbrev pub Attempts : Type 0
Attempts = List (Text × List ℕ)

unfoldable pub lookup : Text → Attempts → List ℕ
lookup k [] = []
lookup k ((j, ts) ∷ m) = if text_eq j k then ts else lookup k m

unfoldable pub insert : Text → List ℕ → Attempts → Attempts
insert k ts [] = (k, ts) ∷ []
insert k ts ((j, us) ∷ m) = if text_eq j k then (k, ts) ∷ m else (j, us) ∷ insert k ts m

pub record RateLimiter : Type 0 where
  pub attempts : Attempts
  pub limit : ℤ
  pub window : ℕ

unfoldable pub new_rate_limiter : ℤ → ℕ → RateLimiter
new_rate_limiter limit window = record { attempts = []; limit = limit; window = window }

-- t.After(cutoff) for cutoff = now - window.
unfoldable pub alive : ℕ → ℕ → ℕ → Bool
alive window now t = ltb now (t + window)

unfoldable pub oldest : List ℕ → ℕ
oldest [] = 0
oldest (t ∷ ts) = t

-- The verdict: admitted, or refused with the time until the oldest attempt ages out.
pub data Verdict : Type 0 where
  admitted : Verdict
  refused : ℕ → Verdict

unfoldable pub at_least_second : ℕ → ℕ
at_least_second d = if ltb d second then second else d

-- Allow on the attempts that are still alive. The oldest of them is present: the limit is positive.
unfoldable pub decide : RateLimiter → ℕ → Text → List ℕ → RateLimiter × Verdict
unfolding oldest at_least_second
decide rl now key kept =
    if not (ltb_ℤ (pos (length kept)) rl.limit)
    then (
      record rl { attempts = insert key kept rl.attempts },
      refused (at_least_second (oldest kept + rl.window - now)),
    )
    else (record rl { attempts = insert key (kept ++ now ∷ []) rl.attempts }, admitted)

unfoldable pub allow : ℕ → Text → RateLimiter → RateLimiter × Verdict
unfolding decide alive
allow now key rl =
    if not (ltb_ℤ (pos 0) rl.limit)
    then (rl, refused rl.window)
    else decide rl now key (keep (alive rl.window now) (lookup key rl.attempts))

-- The whole seconds that setRetryAfter writes into the Retry-After header.
unfoldable pub retry_after_seconds : ℕ → ℕ
retry_after_seconds d =
    let secs = if d % second == 0 then d / second else d / second + 1 in
    if ltb secs 1 then 1 else secs
