-- ===== src/RateLimit/RunGuard.antt =====
-- RateLimitRunMiddleware of eami-gateway/internal/workflow/ratelimit.go, with BoundTo of
-- eami-gateway/internal/identity/tokens.go. The validation of the token and the registry's lookup, of
-- a name in an organisation, are arguments: it takes both as interfaces or managers.
use eaim.Base.{◌==◌, ℕ, [], ◌∷◌, Option, none, some, Bool, not, ◌&&◌, if◌then◌else◌}
use eaim.Base.Text.{Text, codes, text_eq, is_empty}
use eaim.RateLimit.Limiter.{RateLimiter, admitted, refused, allow, retry_after_seconds}

-- What the guard reads of the claims of a token.
pub record Claims : Type 0 where
  pub subject : Text
  pub org_id : Text
  pub agent_uuid : Text

-- strings.TrimPrefix.
unfoldable pub trim_prefix : Text → Text → Text
trim_prefix prefix s = go prefix s
  where
    go : Text → Text → Text
    go [] t = t
    go (c ∷ p) [] = s
    go (c ∷ p) (d ∷ t) = if c == d then go p t else s

unfoldable pub bound_to : Claims → Text → Bool
bound_to c agent_uuid = not (is_empty c.agent_uuid) && text_eq c.agent_uuid agent_uuid

pub data RunGuard : Type 0 where
  passed : RunGuard
  too_many : ℕ → RunGuard

module _ (validate : Text → Option Claims) (lookup_agent : Text → Text → Option Text) where
  -- The agent whose bucket a request counts against, if any: the bearer token is valid, it names an
  -- organisation and an agent in it, and it is bound to that agent.
  unfoldable pub charged : Option Text → Option Text
  unfolding bound_to trim_prefix
  charged none = none
  charged (some token) = elim (validate token) [
    | none ↦ none
    | some c ↦
        if is_empty c.org_id
        then none
        else elim (lookup_agent (trim_prefix (codes "agent:") c.subject) c.org_id) [
          | none ↦ none
          | some id ↦ if bound_to c id then some id else none
        ]
  ]

  unfoldable pub rate_limit_run : ℕ → Option Text → RateLimiter → RunGuard × RateLimiter
  unfolding charged
  rate_limit_run now bearer rl = elim (charged bearer) [
    | none ↦ (passed, rl)
    | some id ↦
        let a = allow now id rl in
        elim a.1 [ admitted ↦ (passed, a.0) | refused d ↦ (too_many (retry_after_seconds d), a.0) ]
  ]
