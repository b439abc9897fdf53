-- ===== src/RateLimit/Return.antt =====
-- A refused caller that comes back, with Allow of eami-gateway/internal/workflow/ratelimit.go called
-- for other keys in the meantime.
use eaim.Base.{ℕ, ◌+◌, ◌*◌, ◌≤◌, ◌<◌, List, [], ◌∷◌, All, false, ◌≡◌, refl, ◌∙◌}
use eaim.Base.Text.{Text, text_eq}
use eaim.Base.Int.{pos_part}
use eaim.RateLimit.Limiter.{RateLimiter, admitted, refused, allow, retry_after_seconds, second}
use eaim.RateLimit.Retry.{Bounded, allow-other, allow-next}

-- The limiter behind these calls, each with its time and its key.
unfoldable pub after_calls : List (ℕ × Text) → RateLimiter → RateLimiter
after_calls [] rl = rl
after_calls ((now, key) ∷ calls) rl = after_calls calls (allow now key rl).0

-- Calls for other keys change no verdict on this one.
after_calls-others :
    (later : ℕ) (k : Text) (calls : List (ℕ × Text)) (rl : RateLimiter)
    → All (λ c. text_eq c.1 k ≡ false) calls
    → (allow later k (after_calls calls rl)).1 ≡ (allow later k rl).1
unfolding after_calls
after_calls-others later k [] rl h = refl
after_calls-others later k ((now, key) ∷ calls) rl h =
    after_calls-others later k calls (allow now key rl).0 h.1
    ∙ (allow-other now later key k rl h.0).1

-- Under a positive limit and with no key holding more attempts than the limit, as is so from a new
-- limiter on, a refused caller that comes back no sooner than Retry-After said is admitted, whatever
-- calls for other keys come in between.
pub allow-after_wait :
    (now later d : ℕ) (key : Text) (rl rl' : RateLimiter) (between : List (ℕ × Text))
    → Bounded rl
    → 0 < pos_part rl.limit
    → allow now key rl ≡ (rl', refused d)
    → now + retry_after_seconds d * second ≤ later
    → All (λ c. text_eq c.1 key ≡ false) between
    → (allow later key (after_calls between rl')).1 ≡ admitted
allow-after_wait now later d key rl rl' between v z e le others =
    after_calls-others later key between rl' others ∙ allow-next now later d key rl rl' v z e le
