-- ===== src/RateLimit/Retry.antt =====
-- What Allow tells a refused caller, and how the calls for one key bear on another.
use eaim.Base.{
  ℕ, ◌+◌, ◌-◌, ◌*◌, ◌≤◌, ◌<◌, List, [], ◌∷◌, ◌++◌, Bool, true, false, not, if◌then◌else◌, length,
  length-append, keep, keep-no, Bool-cases, ◌≡◌, refl, sym, ap, ◌∙◌, ◌⊎◌, inl, inr, arith, subst,
}
use eaim.Base.Text.{Text, text_eq, text_eq_refl}
use eaim.Base.Int.{ℤ, pos, pos_part, ltb_ℤ}
use eaim.RateLimit.Limiter.{
  lookup, RateLimiter, new_rate_limiter, alive, oldest, Verdict, admitted, refused, at_least_second,
  decide, allow, retry_after_seconds, second,
}
use eaim.RateLimit.Keep.{length-keep-le}
use eaim.RateLimit.Call.{
  lookup-insert, above_limit, kept_at, allow-cases, with_attempts, lookup-other, lookup-same,
}
use eaim.RateLimit.Bound.{allow-limit, allow-window}

lookup-allow_other :
    (now : ℕ) (key k : Text) (rl : RateLimiter)
    → text_eq key k ≡ false
    → lookup k (allow now key rl).0.attempts ≡ lookup k rl.attempts
lookup-allow_other now key k rl h = elim (allow-cases now key rl) [
  | inl (room, e) ↦
      ap (λ (r : RateLimiter × Verdict). lookup k r.0.attempts) e
      ∙ lookup-other k key (kept_at now key rl ++ now ∷ []) rl.attempts h
  | inr (inl (z, e)) ↦
      ap (λ (r : RateLimiter × Verdict). lookup k r.0.attempts) e
      ∙ lookup-other k key (kept_at now key rl) rl.attempts h
  | inr (inr (z, e)) ↦ ap (λ (r : RateLimiter × Verdict). lookup k r.0.attempts) e
]

-- The verdict by what it depends on.
judge : ℤ → ℕ → ℕ → List ℕ → Verdict
judge limit window now ts =
    if not (ltb_ℤ (pos 0) limit)
    then refused window
    else if not (ltb_ℤ (pos (length (keep (alive window now) ts))) limit)
    then refused (at_least_second (oldest (keep (alive window now) ts) + window - now))
    else admitted

allow-judge :
    (now : ℕ) (key : Text) (rl : RateLimiter)
    → (allow now key rl).1 ≡ judge rl.limit rl.window now (lookup key rl.attempts)
unfolding allow decide judge
allow-judge now key rl = elim (Bool-cases (ltb_ℤ (pos 0) rl.limit)) [
  | inl z ↦ elim (Bool-cases (ltb_ℤ (pos (length (kept_at now key rl))) rl.limit)) [
    | inl h ↦ rw (z, h) refl
    | inr h ↦ rw (z, h) refl
  ]
  | inr z ↦ rw z refl
]

-- A call for one key changes neither what is kept for another key nor any later verdict on it.
pub allow-other :
    (now later : ℕ) (key k : Text) (rl : RateLimiter)
    → text_eq key k ≡ false
    → (lookup k (allow now key rl).0.attempts ≡ lookup k rl.attempts)
      × ((allow later k (allow now key rl).0).1 ≡ (allow later k rl).1)
allow-other now later key k rl h = (
  lookup-allow_other now key k rl h,
  allow-judge later k (allow now key rl).0
      ∙ rw (lookup-allow_other now key k rl h, allow-limit now key rl, allow-window now key rl)
          (sym (allow-judge later k rl)),
)

-- No key holds more attempts than the limit.
unfoldable pub Bounded : RateLimiter → Type 0
Bounded rl = (k : Text) → length (lookup k rl.attempts) ≤ pos_part rl.limit

length-if :
    (n : ℕ) (b : Bool) (xs ys : List ℕ)
    → length xs ≤ n
    → length ys ≤ n
    → length (if b then xs else ys) ≤ n
length-if n true xs ys h l = h
length-if n false xs ys h l = l

with_attempts-Bounded :
    (key : Text) (ts : List ℕ) (rl : RateLimiter)
    → length ts ≤ pos_part rl.limit
    → Bounded rl
    → Bounded (with_attempts rl key ts)
unfolding Bounded
with_attempts-Bounded key ts rl h v k =
    rw (lookup-insert key k ts rl.attempts)
      (length-if (pos_part rl.limit) (text_eq key k) ts (lookup k rl.attempts) h (v k))

kept_at_le :
    (now : ℕ) (key : Text) (rl : RateLimiter)
    → Bounded rl
    → length (kept_at now key rl) ≤ pos_part rl.limit
unfolding Bounded
kept_at_le now key rl v =
    omega (arith, v key, length-keep-le (alive rl.window now) (lookup key rl.attempts))

-- Every limiter that Allow leaves behind keeps that, from a new one on.
pub allow-Bounded :
    (now : ℕ) (key : Text) (rl : RateLimiter) → Bounded rl → Bounded (allow now key rl).0
allow-Bounded now key rl v = elim (allow-cases now key rl) [
  | inl (room, e) ↦
      subst (λ (r : RateLimiter × Verdict). Bounded r.0) (sym e)
        (with_attempts-Bounded key (kept_at now key rl ++ now ∷ []) rl
          (omega (arith, room, length-append (kept_at now key rl) (now ∷ []), one now)) v)
  | inr (inl (z, e)) ↦
      subst (λ (r : RateLimiter × Verdict). Bounded r.0) (sym e)
        (with_attempts-Bounded key (kept_at now key rl) rl (kept_at_le now key rl v) v)
  | inr (inr (z, e)) ↦ subst (λ (r : RateLimiter × Verdict). Bounded r.0) (sym e) v
]
  where
    one : (t : ℕ) → length (t ∷ []) ≡ 1
    one t = refl

pub new_rate_limiter-Bounded : (limit : ℤ) (window : ℕ) → Bounded (new_rate_limiter limit window)
unfolding Bounded new_rate_limiter lookup
new_rate_limiter-Bounded limit window k = omega arith

-- Retry-After is the least number of whole seconds that is at least the wait, and at least one.
pub retry_after_seconds-round_up :
    (d : ℕ)
    → (d ≤ retry_after_seconds d * second)
      × (1 ≤ retry_after_seconds d)
      × ((retry_after_seconds d * second < d + second) ⊎ ((d ≡ 0) × (retry_after_seconds d ≡ 1)))
unfolding retry_after_seconds
retry_after_seconds-round_up d = ground arith

at_least_second_le : (d : ℕ) → d ≤ at_least_second d
unfolding at_least_second
at_least_second_le d = ground arith

-- Once the oldest of the kept attempts is out of the window, fewer than the limit are left.
expired :
    (window later n : ℕ) (kept : List ℕ)
    → oldest kept + window ≤ later
    → 0 < n
    → length kept ≤ n
    → length (keep (alive window later) kept) < n
unfolding oldest alive
expired window later n [] le z h = unfold keep in (omega (arith, z))
expired window later n (t ∷ ts) le z h =
    let dead : alive window later t ≡ false = ground (arith, le) in
    rw (keep-no (alive window later) t ts dead)
      (omega (arith, h, length-keep-le (alive window later) ts))

-- A call that finds room for the attempt is admitted.
admits :
    (later : ℕ) (key : Text) (rl : RateLimiter)
    → length (kept_at later key rl) < pos_part rl.limit
    → (allow later key rl).1 ≡ admitted
unfolding allow decide
admits later key rl h =
    rw
      (
        above_limit 0 rl.limit (omega (arith, h)),
        above_limit (length (kept_at later key rl)) rl.limit h,
      )
      refl

admitted-ne-refused : (d : ℕ) → admitted ≡ refused d → ⊥
admitted-ne-refused d e = cc

refused_wait : Verdict → ℕ
refused_wait admitted = 0
refused_wait (refused d) = d

waited :
    (now later : ℕ) (key : Text) (rl : RateLimiter)
    → Bounded rl
    → 0 < pos_part rl.limit
    → oldest (kept_at now key rl) + rl.window ≤ later
    → (allow later key (with_attempts rl key (kept_at now key rl))).1 ≡ admitted
waited now later key rl v z le = admits later key (with_attempts rl key (kept_at now key rl)) (
    rw (lookup-same key key (kept_at now key rl) rl.attempts (text_eq_refl key)) (
      expired rl.window later (pos_part rl.limit) (kept_at now key rl) le z
        (kept_at_le now key rl v)))

-- A refused caller that comes back with the next call of all is admitted.
pub allow-next :
    (now later d : ℕ) (key : Text) (rl rl' : RateLimiter)
    → Bounded rl
    → 0 < pos_part rl.limit
    → allow now key rl ≡ (rl', refused d)
    → now + retry_after_seconds d * second ≤ later
    → (allow later key rl').1 ≡ admitted
unfolding refused_wait
allow-next now later d key rl rl' v z e le = elim (allow-cases now key rl) [
  | inl (room, f) ↦ absurd (admitted-ne-refused d (ap (λ r. r.1) (sym f ∙ e)))
  | inr (inl (p, f)) ↦
      let same_rl =
        sym (ap (λ (r : RateLimiter × Verdict). r.0) f)
        ∙ ap (λ (r : RateLimiter × Verdict). r.0) e in
      let same_d : at_least_second (oldest (kept_at now key rl) + rl.window - now) ≡ d =
        sym (ap (λ (r : RateLimiter × Verdict). refused_wait r.1) f)
        ∙ ap (λ (r : RateLimiter × Verdict). refused_wait r.1) e in
      let rounded = (retry_after_seconds-round_up d).0 in
      let least = at_least_second_le (oldest (kept_at now key rl) + rl.window - now) in
      subst (λ r. (allow later key r).1 ≡ admitted) same_rl
        (waited now later key rl v z (omega (arith, le, same_d, rounded, least)))
  | inr (inr (p, f)) ↦ absurd (omega (arith, p, z))
]
