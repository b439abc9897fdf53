-- ===== src/RateLimit/Keep.antt =====
-- Lists cut down by `keep`, as the attempts of the limiter are.
use eaim.Base.{
  ℕ, ◌≤◌, List, [], ◌∷◌, ◌++◌, Bool, true, length, keep, keep-yes, keep-no, Bool-cases, ◌≡◌, refl,
  inl, inr, arith,
}

pub keep-append : (p : ℕ → Bool) (xs ys : List ℕ) → keep p (xs ++ ys) ≡ keep p xs ++ keep p ys
unfolding keep
keep-append p [] ys = refl
keep-append p (x ∷ xs) ys = ground (arith, keep-append p xs ys)

pub keep-keep :
    (p q : ℕ → Bool) (xs : List ℕ)
    → ((x : ℕ) → p x ≡ true → q x ≡ true)
    → keep p (keep q xs) ≡ keep p xs
keep-keep p q [] h = unfold keep in refl
keep-keep p q (x ∷ xs) h = elim (Bool-cases (q x)) [
  | inl k ↦ elim (Bool-cases (p x)) [
    | inl l ↦
        rw (keep-yes q x xs k, keep-yes p x (keep q xs) l, keep-yes p x xs l, keep-keep p q xs h)
    | inr l ↦
        rw (keep-yes q x xs k, keep-no p x (keep q xs) l, keep-no p x xs l, keep-keep p q xs h)
  ]
  | inr k ↦ elim (Bool-cases (p x)) [
    | inl l ↦ let t = h x l in absurd (cc)
    | inr l ↦ rw (keep-no q x xs k, keep-no p x xs l, keep-keep p q xs h)
  ]
]

pub length-keep_mono :
    (p q : ℕ → Bool) (xs : List ℕ)
    → ((x : ℕ) → p x ≡ true → q x ≡ true)
    → length (keep p xs) ≤ length (keep q xs)
unfolding keep
length-keep_mono p q [] h = omega arith
length-keep_mono p q (x ∷ xs) h =
    let rest = length-keep_mono p q xs h in let here = h x in ground (arith, here)

pub length-keep-le : (p : ℕ → Bool) (xs : List ℕ) → length (keep p xs) ≤ length xs
unfolding keep
length-keep-le p [] = omega arith
length-keep-le p (x ∷ xs) = ground (arith, length-keep-le p xs)
