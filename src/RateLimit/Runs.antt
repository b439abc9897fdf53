-- ===== src/RateLimit/Runs.antt =====
-- How often the runs of one agent pass the guard of eami-gateway/internal/workflow/ratelimit.go.
use eaim.Base.{
  ℕ, ◌≤◌, List, [], ◌∷◌, Option, none, some, Option-cases, Bool, true, false, Bool-cases, ◌&&◌, not,
  if◌then◌else◌, length, keep, ◌≡◌, refl, sym, ap, subst, inl, inr, arith,
}
use eaim.Base.Text.{Text, codes, text_eq, text_eq→eq, text_eq_refl, is_empty}
use eaim.Base.Int.{ℤ, pos_part}
use eaim.RateLimit.Limiter.{RateLimiter, new_rate_limiter, allow}
use eaim.RateLimit.Call.{inside}
use eaim.RateLimit.Bound.{is_admitted, admissions, Monotone, Monotone-earlier, admissions-bound}
use eaim.RateLimit.Login.{Verdict-cases}
use eaim.RateLimit.RunGuard.{
  Claims, trim_prefix, bound_to, RunGuard, passed, too_many, charged, rate_limit_run,
}

abbrev is_passed : RunGuard → Bool
is_passed passed = true
is_passed (too_many n) = false

abbrev pub is_found : Text → Option Text → Bool
is_found k none = false
is_found k (some id) = text_eq id k

-- The clock does not run backwards.
abbrev pub InTime : ℕ → List (ℕ × Option Text) → Type 0
InTime last [] = Unit
InTime last ((now, bearer) ∷ rs) = (last ≤ now) × InTime now rs

module _ (validate : Text → Option Claims) (lookup_agent : Text → Text → Option Text) where
  abbrev pub names : Text → Option Claims → Bool
  names k none = false
  names k (some c) =
      not (is_empty k)
      && text_eq c.agent_uuid k
      && not (is_empty c.org_id)
      && is_found k (lookup_agent (trim_prefix (codes "agent:") c.subject) c.org_id)

  -- The bearer token is valid and names an organisation; its agent's ID is `k`, and so is the ID
  -- under which the organisation has the agent of that name.
  unfoldable pub speaks_for : Text → Option Text → Bool
  speaks_for k none = false
  speaks_for k (some token) = names k (validate token)

  same_agent :
      (k uuid id : Text)
      → not (is_empty k) && text_eq uuid k && true && text_eq id k
        ≡ is_found k (if not (is_empty uuid) && text_eq uuid id then some id else none)
  same_agent k uuid id = elim (Bool-cases (text_eq id k)) [
    | inl h ↦
        let e = text_eq→eq id k h in
        subst
          (λ x.
            not (is_empty k) && text_eq uuid k && true && text_eq x k
            ≡ is_found k (if not (is_empty uuid) && text_eq uuid x then some x else none))
          (sym e)
          (elim (Bool-cases (text_eq uuid k)) [
            | inl g ↦
                subst
                  (λ x.
                    not (is_empty k) && text_eq x k && true && text_eq k k
                    ≡ is_found k (if not (is_empty x) && text_eq x k then some k else none))
                  (sym (text_eq→eq uuid k g)) (own (is_empty k))
            | inr g ↦ rw g (ground arith)
          ])
    | inr h ↦ elim (Bool-cases (not (is_empty uuid) && text_eq uuid id)) [
      | inl g ↦ rw (g, h) (ground arith)
      | inr g ↦ rw (g, h) (ground arith)
    ]
  ]
    where
      own :
          (b : Bool)
          → not b && text_eq k k && true && text_eq k k
            ≡ is_found k (if not b && text_eq k k then some k else none)
      own true = refl
      own false = rw (text_eq_refl k) (sym (text_eq_refl k))

  -- The bucket that is charged is that of the agent, and only for its own token.
  speaks_for-charged :
      (k : Text) (bearer : Option Text)
      → speaks_for k bearer ≡ is_found k (charged validate lookup_agent bearer)
  unfolding speaks_for charged bound_to
  speaks_for-charged k none = refl
  speaks_for-charged k (some token) = elim (Option-cases (validate token)) [
    | inl n ↦ rw (speaks_for, charged, n) refl
    | inr (c, v) ↦ elim (Bool-cases (is_empty c.org_id)) [
      | inl o ↦ rw (speaks_for, charged, v, o) (ground arith)
      | inr o ↦
          elim (Option-cases (lookup_agent (trim_prefix (codes "agent:") c.subject) c.org_id)) [
            | inl n ↦ rw (speaks_for, charged, v, o, n) (ground arith)
            | inr (id, l) ↦ rw (speaks_for, charged, v, o, l) (same_agent k c.agent_uuid id)
          ]
    ]
  ]

  -- The times at which runs of the agent pass the guard.
  unfoldable pub passed_at : Text → List (ℕ × Option Text) → RateLimiter → List ℕ
  unfolding speaks_for rate_limit_run
  passed_at k [] rl = []
  passed_at k ((now, bearer) ∷ rs) rl =
      let (g, rl') = rate_limit_run validate lookup_agent now bearer rl in
      let rest = passed_at k rs rl' in
      if is_passed g && speaks_for k bearer then now ∷ rest else rest

  abbrev counted : ℕ → Option Text → List (ℕ × Text) → List (ℕ × Text)
  counted now none calls = calls
  counted now (some id) calls = (now, id) ∷ calls

  -- The calls of Allow.
  unfoldable run_calls : List (ℕ × Option Text) → List (ℕ × Text)
  run_calls [] = []
  run_calls ((now, bearer) ∷ rs) = counted now (charged validate lookup_agent bearer) (run_calls rs)

  passed_at-admissions :
      (k : Text) (rs : List (ℕ × Option Text)) (rl : RateLimiter)
      → passed_at k rs rl ≡ admissions k (run_calls rs) rl
  unfolding passed_at run_calls admissions rate_limit_run is_admitted
  passed_at-admissions k [] rl = refl
  passed_at-admissions k ((now, bearer) ∷ rs) rl =
      let mine = speaks_for-charged k bearer in
      elim (Option-cases (charged validate lookup_agent bearer)) [
        | inl n ↦ rw (passed_at, run_calls, rate_limit_run, mine, n) (passed_at-admissions k rs rl)
        | inr (id, n) ↦
            let rest = passed_at-admissions k rs (allow now id rl).0 in
            elim (Verdict-cases (allow now id rl).1) [
              | inr (d, w) ↦ rw (passed_at, run_calls, rate_limit_run, mine, n, admissions, w) rest
              | inl w ↦ elim (Bool-cases (text_eq id k)) [
                | inl h ↦
                    rw (passed_at, run_calls, rate_limit_run, mine, n, admissions, w, h)
                      (ap (λ (x : List ℕ). now ∷ x) rest)
                | inr h ↦ rw (passed_at, run_calls, rate_limit_run, mine, n, admissions, w, h) rest
              ]
            ]
      ]

  counted-Monotone :
      (last now : ℕ) (o : Option Text) (calls : List (ℕ × Text))
      → last ≤ now
      → Monotone now calls
      → Monotone last (counted now o calls)
  counted-Monotone last now (some id) calls le m = (le, m)
  counted-Monotone last now none calls le m = Monotone-earlier last now calls le m

  run_calls-Monotone :
      (last : ℕ) (rs : List (ℕ × Option Text)) → InTime last rs → Monotone last (run_calls rs)
  unfolding run_calls
  run_calls-Monotone last [] m = tt
  run_calls-Monotone last ((now, bearer) ∷ rs) (le, m) =
      counted-Monotone last now _ (run_calls rs) le (run_calls-Monotone now rs m)

  -- With a new limiter and a clock that does not run backwards, no more workflow runs of one agent
  -- pass the guard within any one window than the limit allows: runs whose valid token holds the
  -- agent's ID, which is also the ID of the agent that it names in its organisation. What other
  -- tokens do, of agents of the same name too, does not matter.
  pub passed_at-bound :
      (limit : ℤ) (window : ℕ) (k : Text) (rs : List (ℕ × Option Text)) (now : ℕ)
      → InTime 0 rs
      → length (keep (inside window now) (passed_at k rs (new_rate_limiter limit window)))
        ≤ pos_part limit
  passed_at-bound limit window k rs now m =
      subst (λ (x : List ℕ). length (keep (inside window now) x) ≤ pos_part limit)
        (sym (passed_at-admissions k rs (new_rate_limiter limit window)))
        (admissions-bound limit window (run_calls rs) k now (run_calls-Monotone 0 rs m))
