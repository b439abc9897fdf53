-- ===== src/Base/Sort.antt =====
-- What Go's sort.Slice promises: a permutation of the slice in which no later element is less than
-- an earlier one. Elements that tie may come in any order, so the code's callers take the sorting
-- function as a parameter; insertion sort shows that the promise can be kept.
use mathlib.Core.Path.{◌≡◌, refl, sym, ◌∙◌}
use mathlib.Core.Bool.{Bool, true, false}
use mathlib.Core.Logic.{inl, inr}
use mathlib.Core.List.{List, [], ◌∷◌, Permᴰ}
use mathlib.Core.List.Permᴰ
use package.eaim.Base.Tests.{if◌then◌else◌, Bool-cases}
use package.eaim.Base.Lists.{All, In}

module _ {A : Type 0} (less : A → A → Bool) where
  abbrev pub Ordered : List A → Type 0
  Ordered [] = Unit
  Ordered (x ∷ xs) = All (λ y. less y x ≡ false) xs × Ordered xs

  pub record IsSort (sort : List A → List A) : Type 0 where
    pub permutes : (xs : List A) → Permᴰ xs (sort xs)
    pub orders : (xs : List A) → Ordered (sort xs)

  -- A strict weak order, which sort.Slice asks of its less function.
  pub record IsWeakOrder : Type 0 where
    pub asym : (x y : A) → less x y ≡ true → less y x ≡ false
    pub step_up : (x y z : A) → less y x ≡ false → less z y ≡ false → less z x ≡ false

  unfoldable pub insert : A → List A → List A
  insert x [] = x ∷ []
  insert x (y ∷ ys) = if less y x then y ∷ insert x ys else x ∷ y ∷ ys

  unfoldable pub insertion_sort : List A → List A
  unfolding insert
  insertion_sort [] = []
  insertion_sort (x ∷ xs) = insert x (insertion_sort xs)

  insert-perm : (x : A) (ys : List A) → Permᴰ (x ∷ ys) (insert x ys)
  unfolding insert
  insert-perm x [] = Permᴰ.refl (x ∷ [])
  insert-perm x (y ∷ ys) = elim (Bool-cases (less y x)) [
    | inl h ↦ rw h (Permᴰ.trans (Permᴰ.swap refl refl) (Permᴰ.cons refl (insert-perm x ys)))
    | inr h ↦ rw h (Permᴰ.refl (x ∷ y ∷ ys))
  ]

  insertion_sort-perm : (xs : List A) → Permᴰ xs (insertion_sort xs)
  unfolding insertion_sort
  insertion_sort-perm [] = Permᴰ.nil
  insertion_sort-perm (x ∷ xs) =
      Permᴰ.trans (Permᴰ.cons refl (insertion_sort-perm xs)) (insert-perm x (insertion_sort xs))

  All-insert : (P : A → Type 0) (x : A) (ys : List A) → P x → All P ys → All P (insert x ys)
  unfolding insert
  All-insert P x [] p q = (p, tt)
  All-insert P x (y ∷ ys) p q = elim (Bool-cases (less y x)) [
    | inl h ↦ rw h (q.0, All-insert P x ys p q.1)
    | inr h ↦ rw h (p, q)
  ]

  All-above :
      IsWeakOrder
      → (x y : A) (ys : List A) → less y x ≡ false
      → All (λ z. less z y ≡ false) ys
      → All (λ z. less z x ≡ false) ys
  All-above w x y [] h q = tt
  All-above w x y (z ∷ ys) h q = (w.step_up x y z h q.0, All-above w x y ys h q.1)

  insert-Ordered : IsWeakOrder → (x : A) (ys : List A) → Ordered ys → Ordered (insert x ys)
  unfolding insert
  insert-Ordered w x [] o = (tt, tt)
  insert-Ordered w x (y ∷ ys) o = elim (Bool-cases (less y x)) [
    | inl h ↦
        rw h (All-insert (λ z. less z y ≡ false) x ys (w.asym y x h) o.0, insert-Ordered w x ys o.1)
    | inr h ↦ rw h ((h, All-above w x y ys h o.0), o)
  ]

  insertion_sort-Ordered : IsWeakOrder → (xs : List A) → Ordered (insertion_sort xs)
  unfolding insertion_sort
  insertion_sort-Ordered w [] = tt
  insertion_sort-Ordered w (x ∷ xs) =
      insert-Ordered w x (insertion_sort xs) (insertion_sort-Ordered w xs)

  pub insertion_sort-IsSort : IsWeakOrder → IsSort insertion_sort
  insertion_sort-IsSort w = record {
    permutes = insertion_sort-perm;
    orders = insertion_sort-Ordered w;
  }

pub In-perm : {A : Type 0} (a : A) {xs ys : List A} → Permᴰ xs ys → In a xs → In a ys
In-perm a Permᴰ.nil m = m
In-perm a (Permᴰ.cons e p) (inl h) = inl (sym e ∙ h)
In-perm a (Permᴰ.cons e p) (inr m) = inr (In-perm a p m)
In-perm a (Permᴰ.swap e f) (inl h) = inr (inl (sym e ∙ h))
In-perm a (Permᴰ.swap e f) (inr (inl h)) = inl (sym f ∙ h)
In-perm a (Permᴰ.swap e f) (inr (inr m)) = inr (inr m)
In-perm a (Permᴰ.trans p q) m = In-perm a q (In-perm a p m)

module _ {A : Type 0} {less : A → A → Bool} {sort : List A → List A} (s : IsSort less sort) where
  -- Sorting loses no element and makes none up.
  pub In-sort : (a : A) (xs : List A) → In a xs → In a (sort xs)
  In-sort a xs m = In-perm a (s.permutes xs) m

  pub In-unsort : (a : A) (xs : List A) → In a (sort xs) → In a xs
  In-unsort a xs m = In-perm a (Permᴰ.symm (s.permutes xs)) m
