-- ===== src/RateLimit/Call.antt =====
-- One call of Allow: its outcomes, and what it does to the map and to the attempts that are alive.
use eaim.Base.{
  ℕ, ◌+◌, ◌-◌, ◌≤◌, ◌<◌, List, [], ◌∷◌, ◌++◌, Bool, true, false, ◌&&◌, ltb, leb, if◌then◌else◌,
  length, keep, Bool-cases, ◌≡◌, refl, ◌⊎◌, inl, inr, arith,
}
use eaim.Base.Text.{Text, text_eq, text_eq_iff}
use eaim.Base.Int.{ℤ, pos, negsuc, pos_part, ltb_ℤ}
use eaim.RateLimit.Limiter.{
  Attempts, lookup, insert, RateLimiter, alive, oldest, admitted, refused, at_least_second, decide,
  allow,
}

-- A write shows at its key and nowhere else.
pub lookup-insert :
    (k j : Text) (ts : List ℕ) (m : Attempts)
    → lookup j (insert k ts m) ≡ (if text_eq k j then ts else lookup j m)
unfolding lookup insert
lookup-insert k j ts [] = refl
lookup-insert k j ts ((i, us) ∷ m) =
    ground (arith, text_eq_iff k j, text_eq_iff i k, text_eq_iff i j, lookup-insert k j ts m)

-- The attempt falls into the window that ends at `now`.
abbrev pub inside : ℕ → ℕ → ℕ → Bool
inside window now t = leb t now && ltb now (t + window)

pub alive-later :
    (window t now x : ℕ) → t ≤ now → alive window now x ≡ true → alive window t x ≡ true
unfolding alive
alive-later window t now x h l = ground arith

pub inside-alive :
    (window t now x : ℕ) → t ≤ now → inside window now x ≡ true → alive window t x ≡ true
unfolding alive
inside-alive window t now x h l = ground arith

pub below_limit : (n : ℕ) (limit : ℤ) → ltb_ℤ (pos n) limit ≡ true → n < pos_part limit
below_limit n (pos k) h = ground arith
below_limit n (negsuc k) h = ground arith

no_limit : (limit : ℤ) → ltb_ℤ (pos 0) limit ≡ false → pos_part limit ≤ 0
no_limit (pos k) h = ground arith
no_limit (negsuc k) h = ground arith

pub above_limit : (n : ℕ) (limit : ℤ) → n < pos_part limit → ltb_ℤ (pos n) limit ≡ true
above_limit n (pos k) h = ground arith
above_limit n (negsuc k) h = ground arith

abbrev pub kept_at : ℕ → Text → RateLimiter → List ℕ
kept_at now key rl = keep (alive rl.window now) (lookup key rl.attempts)

-- The outcomes of one call: admitted below the limit, refused at it, refused by a limit of zero or less.
pub allow-cases :
    (now : ℕ) (key : Text) (rl : RateLimiter)
    → ((length (kept_at now key rl) < pos_part rl.limit)
        × (allow now key rl ≡ (
          record rl { attempts = insert key (kept_at now key rl ++ now ∷ []) rl.attempts },
          admitted,
        )))
      ⊎ ((0 < pos_part rl.limit)
          × (allow now key rl ≡ (
            record rl { attempts = insert key (kept_at now key rl) rl.attempts },
            refused (at_least_second (oldest (kept_at now key rl) + rl.window - now)),
          )))
      ⊎ ((pos_part rl.limit ≤ 0) × (allow now key rl ≡ (rl, refused rl.window)))
unfolding allow decide
allow-cases now key rl = elim (Bool-cases (ltb_ℤ (pos 0) rl.limit)) [
  | inl z ↦ elim (Bool-cases (ltb_ℤ (pos (length (kept_at now key rl))) rl.limit)) [
    | inl h ↦ inl (below_limit _ rl.limit h, rw (z, h) refl)
    | inr h ↦ inr (inl (below_limit 0 rl.limit z, rw (z, h) refl))
  ]
  | inr z ↦ inr (inr (no_limit rl.limit z, rw z refl))
]

abbrev pub with_attempts : RateLimiter → Text → List ℕ → RateLimiter
with_attempts rl key ts = record rl { attempts = insert key ts rl.attempts }

pub lookup-other :
    (k key : Text) (ts : List ℕ) (m : Attempts)
    → text_eq key k ≡ false
    → lookup k (insert key ts m) ≡ lookup k m
lookup-other k key ts m h = rw (lookup-insert key k ts m, h) refl

pub lookup-same :
    (k key : Text) (ts : List ℕ) (m : Attempts)
    → text_eq key k ≡ true
    → lookup k (insert key ts m) ≡ ts
lookup-same k key ts m h = rw (lookup-insert key k ts m, h) refl
