-- ===== src/RateLimit/Login.antt =====
-- How often logins for one account pass the guard.
use eaim.Base.{
  ℕ, ◌≤◌, List, [], ◌∷◌, Option, none, some, Option-cases, Bool, true, false, Bool-cases, ◌&&◌,
  if◌then◌else◌, length, keep, ◌≡◌, refl, sym, ap, subst, inl, inr, ◌⊎◌,
}
use eaim.Base.Text.{Text, text_eq}
use eaim.Base.Int.{ℤ, pos_part}
use eaim.RateLimit.Limiter.{RateLimiter, new_rate_limiter, Verdict, admitted, refused, allow}
use eaim.RateLimit.Call.{inside}
use eaim.RateLimit.Bound.{is_admitted, admissions, Monotone, Monotone-earlier, admissions-bound}
use eaim.RateLimit.Middleware.{
  Request, client_key, account_key, LoginOutcome, served, LoginLimiters, limit_account,
  rate_limit_login,
}

-- A request with the two times at which the limiters read the clock.
pub record Attempt : Type 0 where
  pub now : ℕ
  pub later : ℕ
  pub request : Request

abbrev is_served : LoginOutcome → Bool
is_served served = true
is_served _ = false

abbrev is_key : Text → Option Text → Bool
is_key k none = false
is_key k (some key) = text_eq key k

pub Verdict-cases : (v : Verdict) → (v ≡ admitted) ⊎ ((d : ℕ) × (v ≡ refused d))
Verdict-cases admitted = inl refl
Verdict-cases (refused d) = inr (d, refl)

module _ (trim_space : Text → Text) (trusted : Text → Bool) where
  -- One attempt.
  abbrev pub tried : Attempt → LoginLimiters → LoginOutcome × LoginLimiters
  tried a = rate_limit_login trim_space trusted a.now a.later a.request

  -- The times at which attempts for the account pass the guard.
  unfoldable pub served_at : Text → List Attempt → LoginLimiters → List ℕ
  served_at k [] s = []
  served_at k (a ∷ as_) s =
      let rest = served_at k as_ (tried a s).1 in
      if is_served (tried a s).0 && is_key k (account_key trim_space trusted a.request)
      then a.later ∷ rest
      else rest

  -- The account limiter is called where the address is admitted and there is an account.
  abbrev call_of : Verdict → ℕ → Option Text → List (ℕ × Text) → List (ℕ × Text)
  call_of admitted later (some key) calls = (later, key) ∷ calls
  call_of _ later _ calls = calls

  unfoldable account_calls : List Attempt → LoginLimiters → List (ℕ × Text)
  account_calls [] s = []
  account_calls (a ∷ as_) s =
      call_of (allow a.now (client_key trim_space trusted a.request) s.address).1 a.later
        (account_key trim_space trusted a.request) (account_calls as_ (tried a s).1)

  served_at-admissions :
      (k : Text) (as_ : List Attempt) (s : LoginLimiters)
      → served_at k as_ s ≡ admissions k (account_calls as_ s) s.account
  unfolding served_at account_calls admissions rate_limit_login limit_account is_admitted
  served_at-admissions k [] s = refl
  served_at-admissions k (a ∷ as_) s =
      let s1 : LoginLimiters = record s {
        address = (allow a.now (client_key trim_space trusted a.request) s.address).0;
      } in
      elim (Verdict-cases (allow a.now (client_key trim_space trusted a.request) s.address).1) [
        | inr (d, v) ↦
            rw (served_at, account_calls, rate_limit_login, v) (served_at-admissions k as_ s1)
        | inl v ↦ elim (Option-cases (account_key trim_space trusted a.request)) [
          | inl n ↦
              rw (served_at, account_calls, rate_limit_login, v, n) (served_at-admissions k as_ s1)
          | inr (key, n) ↦
              let rest =
                served_at-admissions k as_
                  (record s1 { account = (allow a.later key s.account).0 }) in
              elim (Verdict-cases (allow a.later key s.account).1) [
                | inr (d, w) ↦
                    rw
                      (
                        served_at, account_calls, rate_limit_login, v, n, limit_account, admissions,
                        w,
                      )
                      rest
                | inl w ↦ elim (Bool-cases (text_eq key k)) [
                  | inl h ↦
                      rw
                        (
                          served_at, account_calls, rate_limit_login, v, n, limit_account,
                          admissions, w, h,
                        )
                        (ap (λ (x : List ℕ). a.later ∷ x) rest)
                  | inr h ↦
                      rw
                        (
                          served_at, account_calls, rate_limit_login, v, n, limit_account,
                          admissions, w, h,
                        )
                        rest
                ]
              ]
        ]
      ]

  -- The account limiter reads a clock that does not run backwards.
  abbrev pub InOrder : ℕ → List Attempt → Type 0
  InOrder last [] = Unit
  InOrder last (a ∷ as_) = (last ≤ a.later) × InOrder a.later as_

  call_of-Monotone :
      (v : Verdict) (last later : ℕ) (o : Option Text) (calls : List (ℕ × Text))
      → last ≤ later
      → Monotone later calls
      → Monotone last (call_of v later o calls)
  call_of-Monotone admitted last later (some key) calls le m = (le, m)
  call_of-Monotone admitted last later none calls le m = Monotone-earlier last later calls le m
  call_of-Monotone (refused d) last later o calls le m = Monotone-earlier last later calls le m

  account_calls-Monotone :
      (last : ℕ) (as_ : List Attempt) (s : LoginLimiters)
      → InOrder last as_
      → Monotone last (account_calls as_ s)
  unfolding account_calls
  account_calls-Monotone last [] s m = tt
  account_calls-Monotone last (a ∷ as_) s (le, m) =
      call_of-Monotone _ last a.later _ _ le (account_calls-Monotone a.later as_ (tried a s).1 m)

  -- With a new account limiter and a clock that does not run backwards, no more logins for one account
  -- pass the guard within any one window than the account limiter allows, from whatever addresses.
  pub served_at-bound :
      (limit : ℤ) (window : ℕ) (address : RateLimiter) (k : Text) (as_ : List Attempt) (now : ℕ)
      → InOrder 0 as_
      → length (
          keep (inside window now) (
            served_at k as_
              (record { address = address; account = new_rate_limiter limit window })))
        ≤ pos_part limit
  served_at-bound limit window address k as_ now m =
      let s : LoginLimiters = record {
        address = address;
        account = new_rate_limiter limit window;
      } in
      subst (λ (x : List ℕ). length (keep (inside window now) x) ≤ pos_part limit)
        (sym (served_at-admissions k as_ s))
        (admissions-bound limit window (account_calls as_ s) k now
          (account_calls-Monotone 0 as_ s m))
