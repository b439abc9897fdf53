-- ===== src/RateLimit/Examples.antt =====
-- The rate limiter theorems at a limiter of one attempt in five seconds.
use eaim.Base.{ℕ, ◌<◌, List, [], ◌∷◌, ◌≤◌, ◌+◌, ◌*◌, ◌⊎◌, arith, false, ◌≡◌, refl, length, keep}
use eaim.Base.Text.{Text, codes, text_eq}
use eaim.Base.Int.{pos, pos_part}
use eaim.RateLimit.Limiter.{
  second, RateLimiter, new_rate_limiter, lookup, insert, alive, decide, oldest, at_least_second,
  allow, admitted, refused, retry_after_seconds,
}
use eaim.Base.{Bool, true, some, ◌++◌}
use eaim.Base.Text.{is_empty}
use eaim.RateLimit.Middleware.{Request, has_comma, client_key}
use eaim.RateLimit.ClientKey.{client_key-appended}
use eaim.RateLimit.Login.{Attempt, served_at, served_at-bound}
use eaim.Base.{Option, none}
use eaim.RateLimit.RunGuard.{Claims, trim_prefix, bound_to, charged, rate_limit_run}
use eaim.RateLimit.Runs.{speaks_for, passed_at, passed_at-bound}
use eaim.RateLimit.Return.{after_calls, allow-after_wait}
use eaim.RateLimit.Call.{inside}
use eaim.RateLimit.Bound.{is_admitted, admissions, admissions-bound}
use eaim.RateLimit.Retry.{allow-Bounded, new_rate_limiter-Bounded, retry_after_seconds-round_up}

abbrev alice : Text
alice = codes "alice"

abbrev bob : Text
bob = codes "bob"

abbrev once : RateLimiter
once = new_rate_limiter (pos 1) 5000000000

abbrev used : RateLimiter
used = (allow 0 alice once).0

abbrev attempts_made : List (ℕ × Text)
attempts_made = (0, alice) ∷ (1000000000, alice) ∷ (2000000000, bob) ∷ (5000000000, alice) ∷ []

-- The second of the three attempts of alice is refused.
admissions-attempts_made : admissions alice attempts_made once ≡ 0 ∷ 5000000000 ∷ []
unfolding admissions is_admitted allow decide alive new_rate_limiter lookup insert text_eq keep
admissions-attempts_made = refl

admissions-bound_example :
    length (
      keep
        (inside 5000000000 5000000000)
        (admissions alice attempts_made (new_rate_limiter (pos 1) 5000000000)))
    ≤ pos_part (pos 1)
admissions-bound_example =
    admissions-bound (pos 1) 5000000000 attempts_made alice 5000000000
      (omega arith, (omega arith, (omega arith, (omega arith, tt))))

used-refuses : allow 1000000000 alice used ≡ ((allow 1000000000 alice used).0, refused 4000000000)
unfolding allow decide oldest at_least_second alive new_rate_limiter lookup insert text_eq keep
used-refuses = refl

round_up-wait : 1000000000 + retry_after_seconds 4000000000 * second ≤ 5000000000
unfolding retry_after_seconds
round_up-wait = omega arith

abbrev calls_of_bob : List (ℕ × Text)
calls_of_bob = (2000000000, bob) ∷ (3000000000, bob) ∷ []

not_alice : text_eq bob alice ≡ false
unfolding text_eq
not_alice = refl

allow-after_wait_example :
    (allow 5000000000 alice (after_calls calls_of_bob (allow 1000000000 alice used).0)).1 ≡ admitted
unfolding allow new_rate_limiter keep lookup
allow-after_wait_example =
    allow-after_wait 1000000000 5000000000 4000000000 alice used (allow 1000000000 alice used).0
      calls_of_bob (allow-Bounded 0 alice once (new_rate_limiter-Bounded (pos 1) 5000000000))
      (omega arith) used-refuses round_up-wait (not_alice, (not_alice, tt))

retry_after_seconds-round_up_example :
    (1500000000 ≤ retry_after_seconds 1500000000 * second)
    × (1 ≤ retry_after_seconds 1500000000)
    × ((retry_after_seconds 1500000000 * second < 1500000000 + second)
        ⊎ ((◌≡◌ {A = ℕ} 1500000000 0) × (retry_after_seconds 1500000000 ≡ 1)))
retry_after_seconds-round_up_example = retry_after_seconds-round_up 1500000000

abbrev is_proxy : Text → Bool
is_proxy peer = text_eq peer (codes "proxy")

abbrev untrimmed : Text → Text
untrimmed t = t

abbrev from_peer : Text → Request
from_peer peer = record {
  forwarded_for = [];
  remote_addr = peer;
  client_ip = codes "10.0.0.7";
  email = some alice;
}

abbrev logins : List Attempt
logins =
    record { now = 0; later = 1; request = from_peer (codes "proxy") }
    ∷ record { now = 2; later = 3; request = from_peer (codes "other") }
    ∷ []

served_at-bound_example :
    length (
      keep (inside 5000000000 3) (
        served_at untrimmed is_proxy alice logins
          (record { address = once; account = new_rate_limiter (pos 1) 5000000000 })))
    ≤ pos_part (pos 1)
served_at-bound_example =
    served_at-bound untrimmed is_proxy (pos 1) 5000000000 once alice logins 3
      (omega arith, (omega arith, tt))

proxy_peer : is_proxy (codes "proxy") ≡ true
unfolding text_eq
proxy_peer = refl

no_comma : has_comma (codes "192.0.2.1") ≡ false
unfolding has_comma
no_comma = refl

address_given : is_empty (untrimmed (codes "192.0.2.1")) ≡ false
unfolding is_empty
address_given = refl

client_key-appended_example :
    client_key untrimmed is_proxy (record (from_peer (codes "proxy")) {
      forwarded_for = codes "127.0.0.1" ++ b',' ∷ codes "192.0.2.1";
    })
    ≡ untrimmed (codes "192.0.2.1")
client_key-appended_example =
    client_key-appended untrimmed is_proxy (from_peer (codes "proxy")) (codes "127.0.0.1")
      (codes "192.0.2.1") proxy_peer no_comma address_given

abbrev claims_of : Text → Option Claims
claims_of token =
    some (record { subject = codes "agent:bot"; org_id = codes "o"; agent_uuid = token })

abbrev runs : List (ℕ × Option Text)
runs =
    (0, some (codes "bot"))
    ∷ (1000000000, some (codes "bot"))
    ∷ (2000000000, none)
    ∷ (5000000000, some (codes "bot"))
    ∷ []

abbrev only_bot : Text → Text → Option Text
only_bot name org = some (codes "bot")

-- The second run of the agent is refused, and the request without a token is not counted.
passed_at-runs : passed_at claims_of only_bot (codes "bot") runs once ≡ 0 ∷ 5000000000 ∷ []
unfolding passed_at speaks_for rate_limit_run charged trim_prefix bound_to is_empty text_eq allow
    decide alive new_rate_limiter lookup insert keep
passed_at-runs = refl

passed_at-bound_example :
    length (
      keep
        (inside 5000000000 5000000000)
        (passed_at claims_of only_bot (codes "bot") runs (new_rate_limiter (pos 1) 5000000000)))
    ≤ pos_part (pos 1)
passed_at-bound_example =
    passed_at-bound claims_of only_bot (pos 1) 5000000000 (codes "bot") runs 5000000000
      (omega arith, (omega arith, (omega arith, (omega arith, tt))))
