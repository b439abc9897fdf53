-- ===== src/Base/Lists.antt =====
-- Lists measured by native numbers, membership and order by recursion.
use Prim.Native.Nat.{ℕ, suc, ◌+◌}
use mathlib.Core.Path.{◌≡◌, refl, sym, subst}
use package.eaim.Base.Tests.{Bool-cases}
use mathlib.Core.Logic.{◌⊎◌, inl, inr}
use mathlib.Core.Bool.{Bool, true, false}
use mathlib.Core.List.{List, [], ◌∷◌, ◌++◌}
use native.Mathlib.Omega.{arith}

module _ {ℓ} {A : Type ℓ} where
  abbrev pub length : List A → ℕ
  length [] = 0
  length (x ∷ xs) = suc (length xs)

  pub length-append : (xs ys : List A) → length (xs ++ ys) ≡ length xs + length ys
  length-append [] ys = omega arith
  length-append (x ∷ xs) ys = omega (arith, length-append xs ys)

  -- The elements for which the test holds, in order.
  unfoldable pub keep : (A → Bool) → List A → List A
  keep p [] = []
  keep p (x ∷ xs) = elim (p x) [ true ↦ x ∷ keep p xs | false ↦ keep p xs ]

  pub keep-yes : (p : A → Bool) (x : A) (xs : List A) → p x ≡ true → keep p (x ∷ xs) ≡ x ∷ keep p xs
  unfolding keep
  keep-yes p x xs h = ground arith

  pub keep-no : (p : A → Bool) (x : A) (xs : List A) → p x ≡ false → keep p (x ∷ xs) ≡ keep p xs
  unfolding keep
  keep-no p x xs h = ground arith

module _ {ℓ κ} {A : Type ℓ} (P : A → Type κ) where
  abbrev pub All : List A → Type κ
  All [] = Unit
  All (x ∷ xs) = P x × All xs

  pub All-append : (xs ys : List A) → All xs → All ys → All (xs ++ ys)
  All-append [] ys p q = q
  All-append (x ∷ xs) ys p q = (p.0, All-append xs ys p.1 q)

-- `a` stands in the list: a choice of its place, which proofs take apart.
abbrev pub In : {A : Type 0} → A → List A → Type 0
In a [] = ⊥
In a (x ∷ xs) = (x ≡ a) ⊎ In a xs

module _ {A : Type 0} (P : A → Type 0) where
  pub All-In : {a : A} (xs : List A) → All P xs → In a xs → P a
  All-In [] h m = absurd m
  All-In (x ∷ xs) h (inl e) = subst P e h.0
  All-In (x ∷ xs) h (inr m) = All-In xs h.1 m

  pub All-of_In : (xs : List A) → ((a : A) → In a xs → P a) → All P xs
  All-of_In [] h = tt
  All-of_In (x ∷ xs) h = (h x (inl refl), All-of_In xs (λ a m. h a (inr m)))

module _ {A : Type 0} (p : A → Bool) (a : A) where
  -- `keep p` holds exactly the elements of the list that pass.
  pub In-keep : (xs : List A) → In a xs → p a ≡ true → In a (keep p xs)
  In-keep [] m h = absurd m
  In-keep (x ∷ xs) (inl q) h = rw (keep-yes p x xs (subst (λ y. p y ≡ true) (sym q) h)) (inl q)
  In-keep (x ∷ xs) (inr m) h = elim (Bool-cases (p x)) [
    | inl k ↦ rw (keep-yes p x xs k) (inr (In-keep xs m h))
    | inr k ↦ rw (keep-no p x xs k) (In-keep xs m h)
  ]

  pub keep-In : (xs : List A) → In a (keep p xs) → In a xs × (p a ≡ true)
  unfolding keep
  keep-In [] m = absurd m
  keep-In (x ∷ xs) m = elim (Bool-cases (p x)) [
    | inl k ↦ elim (rw (keep-yes p x xs k) at m) [
      | inl q ↦ (inl q, subst (λ y. p y ≡ true) q k)
      | inr n ↦ let (n', h) = keep-In xs n in (inr n', h)
    ]
    | inr k ↦ let (n', h) = keep-In xs (rw (keep-no p x xs k) at m) in (inr n', h)
  ]
