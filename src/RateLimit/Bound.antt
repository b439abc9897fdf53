-- ===== src/RateLimit/Bound.antt =====
-- Allow over a run of calls: the times at which it admits a key, counted in a window.
use eaim.Base.{
  ℕ, ◌≤◌, List, [], ◌∷◌, ◌++◌, Bool, true, false, ◌&&◌, if◌then◌else◌, length, keep, Bool-cases,
  ◌≡◌, refl, sym, ap, ◌∙◌, inl, inr, arith, subst,
}
use eaim.Base.Text.{Text, text_eq, text_eq_refl, text_eq→eq}
use eaim.Base.Int.{ℤ, pos_part}
use eaim.RateLimit.Limiter.{
  lookup, RateLimiter, new_rate_limiter, Verdict, admitted, refused, allow,
}
use mathlib.Core.List.{append-nil, append_assoc}
use eaim.RateLimit.Call.{inside, kept_at, allow-cases}
use eaim.RateLimit.Invariant.{Inv, Inv-other, Inv-later, Inv-refused, Inv-admitted}

unfoldable pub is_admitted : Verdict → Bool
is_admitted admitted = true
is_admitted (refused d) = false

-- The times at which a run of calls admits the key, oldest first.
unfoldable pub admissions : Text → List (ℕ × Text) → RateLimiter → List ℕ
unfolding is_admitted
admissions k [] rl = []
admissions k ((now, key) ∷ calls) rl =
    let rest = admissions k calls (allow now key rl).0 in
    if is_admitted (allow now key rl).1 && text_eq key k then now ∷ rest else rest

-- The clock does not run backwards.
abbrev pub Monotone : ℕ → List (ℕ × Text) → Type 0
Monotone last [] = Unit
Monotone last ((now, key) ∷ calls) = (last ≤ now) × Monotone now calls

pub Monotone-earlier :
    (t u : ℕ) (calls : List (ℕ × Text)) → t ≤ u → Monotone u calls → Monotone t calls
Monotone-earlier t u [] le m = tt
Monotone-earlier t u ((v, key) ∷ calls) le (l, m) = (omega (arith, le, l), m)

-- The admissions of the key by one call with this verdict.
abbrev admission : Text → ℕ → Text → Verdict → List ℕ
admission k now key d = if is_admitted d && text_eq key k then now ∷ [] else []

-- The invariant after a call that ends so.
abbrev After : Text → List ℕ → ℕ → Text → RateLimiter × Verdict → Type 0
After k old now key r = Inv k (old ++ admission k now key r.1) now r.0

unadmitted :
    {k : Text}
    → {old : List ℕ} → {now : ℕ} → {rl : RateLimiter} → Inv k old now rl
    → Inv k (old ++ []) now rl
unadmitted {k} {old} {now} {rl} = subst (λ (x : List ℕ). Inv k x now rl) (sym (append-nil old))

After-same :
    (k : Text) (old : List ℕ) (last now : ℕ) (rl : RateLimiter)
    → last ≤ now
    → Inv k old last rl
    → After k old now k (allow now k rl)
unfolding is_admitted
After-same k old last now rl le v = elim (allow-cases now k rl) [
  | inl (room, e) ↦
      subst (After k old now k) (sym e)
        (rw (text_eq_refl k) (Inv-admitted k k old last now rl le (text_eq_refl k) room v))
  | inr (inl (z, e)) ↦
      subst (After k old now k) (sym e)
        (unadmitted (Inv-refused k k old last now rl le (text_eq_refl k) v))
  | inr (inr (z, e)) ↦
      subst (After k old now k) (sym e) (unadmitted (Inv-later k old last now rl le v))
]

After-other :
    (k key : Text) (old : List ℕ) (last now : ℕ) (rl : RateLimiter)
    → last ≤ now
    → text_eq key k ≡ false
    → Inv k old last rl
    → After k old now key (allow now key rl)
unfolding is_admitted
After-other k key old last now rl le h v = elim (allow-cases now key rl) [
  | inl (room, e) ↦
      subst (After k old now key) (sym e) (
        rw h (unadmitted (Inv-other k key old (kept_at now key rl ++ now ∷ []) last now rl le h v)))
  | inr (inl (z, e)) ↦
      subst (After k old now key) (sym e)
        (unadmitted (Inv-other k key old (kept_at now key rl) last now rl le h v))
  | inr (inr (z, e)) ↦
      subst (After k old now key) (sym e) (unadmitted (Inv-later k old last now rl le v))
]

After-allow :
    (k key : Text) (old : List ℕ) (last now : ℕ) (rl : RateLimiter)
    → last ≤ now
    → Inv k old last rl
    → After k old now key (allow now key rl)
After-allow k key old last now rl le v = elim (Bool-cases (text_eq key k)) [
  | inl h ↦
      subst (λ j. After k old now j (allow now j rl)) (sym (text_eq→eq key k h))
        (After-same k old last now rl le v)
  | inr h ↦ After-other k key old last now rl le h v
]

admissions-cons :
    (k : Text) (now : ℕ) (key : Text) (calls : List (ℕ × Text)) (rl : RateLimiter)
    → admissions k ((now, key) ∷ calls) rl
      ≡ admission k now key (allow now key rl).1 ++ admissions k calls (allow now key rl).0
unfolding admissions
admissions-cons k now key calls rl =
    elim (Bool-cases (is_admitted (allow now key rl).1 && text_eq key k)) [
      | inl h ↦ rw h refl
      | inr h ↦ rw h refl
    ]

pub allow-limit : (now : ℕ) (key : Text) (rl : RateLimiter) → (allow now key rl).0.limit ≡ rl.limit
allow-limit now key rl = elim (allow-cases now key rl) [
  | inl (room, e) ↦ ap (λ (r : RateLimiter × Verdict). r.0.limit) e
  | inr (inl (z, e)) ↦ ap (λ (r : RateLimiter × Verdict). r.0.limit) e
  | inr (inr (z, e)) ↦ ap (λ (r : RateLimiter × Verdict). r.0.limit) e
]

pub allow-window :
    (now : ℕ) (key : Text) (rl : RateLimiter) → (allow now key rl).0.window ≡ rl.window
allow-window now key rl = elim (allow-cases now key rl) [
  | inl (room, e) ↦ ap (λ (r : RateLimiter × Verdict). r.0.window) e
  | inr (inl (z, e)) ↦ ap (λ (r : RateLimiter × Verdict). r.0.window) e
  | inr (inr (z, e)) ↦ ap (λ (r : RateLimiter × Verdict). r.0.window) e
]

abbrev Within : ℕ → ℤ → ℕ → List ℕ → Type 0
Within now limit window xs = length (keep (inside window now) xs) ≤ pos_part limit

-- The bound for a limiter in the middle of its life.
bounded :
    (k : Text) (old : List ℕ) (last : ℕ) (calls : List (ℕ × Text)) (rl : RateLimiter)
    → Monotone last calls
    → Inv k old last rl
    → (now : ℕ)
    → length (keep (inside rl.window now) (old ++ admissions k calls rl)) ≤ pos_part rl.limit
unfolding admissions
bounded k old last [] rl m v now = rw (append-nil old) (v.bound now)
bounded k old last ((t, key) ∷ calls) rl (le, m) v now =
    let rest =
      bounded k (old ++ admission k t key (allow t key rl).1) t calls (allow t key rl).0 m
        (After-allow k key old last t rl le v) now in
    let joined =
      append_assoc old (admission k t key (allow t key rl).1)
        (admissions k calls (allow t key rl).0)
      ∙ ap (λ (x : List ℕ). old ++ x) (sym (admissions-cons k t key calls rl)) in
    let all : List ℕ =
      old ++ admission k t key (allow t key rl).1 ++ admissions k calls (allow t key rl).0 in
    subst (Within now rl.limit rl.window) joined (
      subst (λ n. Within now n rl.window all) (allow-limit t key rl)
        (subst (λ w. Within now (allow t key rl).0.limit w all) (allow-window t key rl) rest))

-- While the clock does not run backwards, a new limiter admits no key more often than its limit
-- within any one window, wherever the window lies and whatever calls for other keys come between.
pub admissions-bound :
    (limit : ℤ) (window : ℕ) (calls : List (ℕ × Text)) (k : Text) (now : ℕ)
    → Monotone 0 calls
    → length (keep (inside window now) (admissions k calls (new_rate_limiter limit window)))
      ≤ pos_part limit
unfolding new_rate_limiter lookup
admissions-bound limit window calls k now m =
    bounded k [] 0 calls (new_rate_limiter limit window) m
      (record { stored = λ t l. refl; bound = λ t. unfold keep in (omega arith) }) now
