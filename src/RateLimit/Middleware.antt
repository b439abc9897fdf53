-- ===== src/RateLimit/Middleware.antt =====
-- The key and the guard of the login route: clientKey and trustedProxyPeer of
-- eami-api/internal/api/ratelimit.go and rateLimitLogin of ratelimit_login.go beside it.
-- strings.TrimSpace, net and the decoding of the body are parameters.
use eaim.Base.{
  ℕ, List, [], ◌∷◌, Option, none, some, Bool, false, not, ◌&&◌, ◌||◌, ◌==◌, if◌then◌else◌,
}
use eaim.Base.Text.{Text, text_eq, is_empty, to_lower}
use eaim.RateLimit.Limiter.{RateLimiter, admitted, refused, allow, retry_after_seconds}

-- What the middleware reads of a request. The email is that of a body that decodes.
pub record Request : Type 0 where
  pub forwarded_for : Text
  pub remote_addr : Text
  pub client_ip : Text
  pub email : Option Text

unfoldable pub has_comma : Text → Bool
has_comma [] = false
has_comma (c ∷ s) = c == b',' || has_comma s

-- The last part of strings.Split(s, ",").
unfoldable pub last_part : Text → Text
last_part [] = []
last_part (c ∷ s) =
    let rest = last_part s in if has_comma s then rest else (if c == b',' then s else c ∷ s)

unfoldable pub address_listed : Text → List Text → Bool
address_listed host [] = false
address_listed host (ip ∷ ips) = text_eq ip host || address_listed host ips

-- The host of the address, or all of it, among the addresses of eami-proxy; `none` is a failed lookup.
unfoldable pub trusted_proxy_peer : (Text → Option Text) → Option (List Text) → Text → Bool
unfolding address_listed
trusted_proxy_peer split_host lookup remote_addr = elim lookup [
  | none ↦ false
  | some ips ↦ elim (split_host remote_addr) [
    | none ↦ address_listed remote_addr ips
    | some host ↦ address_listed host ips
  ]
]

unfoldable pub direct_key : Request → Text
direct_key r = if not (is_empty r.client_ip) then r.client_ip else r.remote_addr

module _ (trim_space : Text → Text) (trusted : Text → Bool) where
  unfoldable pub client_key : Request → Text
  unfolding direct_key last_part
  client_key r =
      if not (is_empty r.forwarded_for) && trusted r.remote_addr
      then (let last = trim_space (last_part r.forwarded_for) in
          if not (is_empty last) then last else direct_key r)
      else direct_key r

  unfoldable pub normalize_login_email : Text → Text
  normalize_login_email email = to_lower (trim_space email)

  -- The key of the account, where the body decodes to an email that is not empty.
  unfoldable pub account_key : Request → Option Text
  unfolding normalize_login_email
  account_key r = elim r.email [
    | none ↦ none
    | some email ↦ if is_empty email then none else some (normalize_login_email email)
  ]

pub data LoginOutcome : Type 0 where
  served : LoginOutcome
  limited_address : ℕ → LoginOutcome
  limited_account : ℕ → LoginOutcome

pub record LoginLimiters : Type 0 where
  pub address : RateLimiter
  pub account : RateLimiter

-- The second half of rateLimitLogin, behind the limit of the address.
unfoldable pub limit_account : ℕ → Option Text → LoginLimiters → LoginOutcome × LoginLimiters
limit_account now none s = (served, s)
limit_account now (some key) s =
    let b = allow now key s.account in
    elim b.1 [
      | admitted ↦ (served, record s { account = b.0 })
      | refused d ↦ (limited_account (retry_after_seconds d), record s { account = b.0 })
    ]

module _ (trim_space : Text → Text) (trusted : Text → Bool) where
  -- The two limiters read the clock one after the other.
  unfoldable pub rate_limit_login : ℕ → ℕ → Request → LoginLimiters → LoginOutcome × LoginLimiters
  unfolding limit_account client_key account_key
  rate_limit_login now later r s =
      let a = allow now (client_key trim_space trusted r) s.address in
      elim a.1 [
        | refused d ↦ (limited_address (retry_after_seconds d), record s { address = a.0 })
        | admitted ↦
            limit_account later (account_key trim_space trusted r) (record s { address = a.0 })
      ]
