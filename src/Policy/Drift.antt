-- ===== src/Policy/Drift.antt =====
-- Scope drift and the order in which Go ranges over the map of tool categories.
use mathlib.Core.List.{Permᴰ}
use mathlib.Core.List.Permᴰ
use eaim.Base.{
  List, [], ◌∷◌, none, some, Bool, true, false, not, ◌&&◌, ◌||◌, ◌≡◌, refl, sym, ap, ◌∙◌, ◌⊎◌, inl,
  inr, Bool-cases, arith, In, ◌==◌, subst,
}
use eaim.Base.Sort.{In-perm}
use eaim.Base.Text.{Text, text_eq, text_eq→eq, has_prefix}
use eaim.Policy.Scope.{Categories, tool_categories, first_category}

abbrev pub Entry : Type 0
Entry = Text × List Text

abbrev pub Test : Type 0
Test = Text → List Text → Bool

abbrev pub passes : Test → Entry → Bool
passes p e = p e.0 e.1

-- first_category finds nothing, or the key of an entry that passes.
first_category-cases :
    (p : Test) (t : Categories)
    → ((first_category p t ≡ none) × ((e : Entry) → In e t → passes p e ≡ false))
      ⊎ ((e : Entry) × In e t × (passes p e ≡ true) × (first_category p t ≡ some e.0))
unfolding first_category
first_category-cases p [] = inl (refl, λ e m. absurd m)
first_category-cases p ((c, ts) ∷ t) = elim (Bool-cases (p c ts)) [
  | inl h ↦ inr ((c, ts), inl refl, h, rw (h, first_category))
  | inr h ↦ elim (first_category-cases p t) [
    | inl (q, no_entry) ↦ inl (
      rw h q,
      λ e m. elim m [ inl s ↦ subst (λ x. passes p x ≡ false) s h | inr n ↦ no_entry e n ],
    )
    | inr (e, m, k, q) ↦ inr (e, inr m, k, rw h q)
  ]
]

-- All entries of the table that pass have one key.
abbrev pub OneKey : Test → Type 0
OneKey p =
    (e e' : Entry)
    → In e tool_categories
    → In e' tool_categories
    → passes p e ≡ true
    → passes p e' ≡ true
    → e.0 ≡ e'.0

pub first_category-order :
    (p : Test) (t t' : Categories)
    → Permᴰ tool_categories t
    → Permᴰ tool_categories t'
    → OneKey p
    → first_category p t ≡ first_category p t'
first_category-order p t t' s s' u = joined (first_category-cases p t) (first_category-cases p t')
  where
    back : (e : Entry) → In e t → In e tool_categories
    back e m = In-perm e (Permᴰ.symm s) m

    back' : (e : Entry) → In e t' → In e tool_categories
    back' e m = In-perm e (Permᴰ.symm s') m

    joined :
        ((first_category p t ≡ none) × ((e : Entry) → In e t → passes p e ≡ false))
          ⊎ ((e : Entry) × In e t × (passes p e ≡ true) × (first_category p t ≡ some e.0))
        → ((first_category p t' ≡ none) × ((e : Entry) → In e t' → passes p e ≡ false))
          ⊎ ((e : Entry) × In e t' × (passes p e ≡ true) × (first_category p t' ≡ some e.0))
        → first_category p t ≡ first_category p t'
    joined (inl (q, _)) (inl (q', _)) = q ∙ sym q'
    joined (inl (q, quiet)) (inr (e, m, h, q')) =
        let k = quiet e (In-perm e s (back' e m)) in absurd (cc)
    joined (inr (e, m, h, q)) (inl (q', quiet)) =
        let k = quiet e (In-perm e s' (back e m)) in absurd (cc)
    joined (inr (e, m, h, q)) (inr (e', m', h', q')) =
        q ∙ ap some (u e e' (back e m) (back' e' m') h h') ∙ sym q'

-- No text begins with two different keys of the table.
differ : Text → Text → Bool
differ [] s = false
differ (c ∷ s) [] = false
differ (c ∷ s) (d ∷ t) = not (c == d) || differ s t

differ-prefix : (p q s : Text) → differ p q ≡ true → has_prefix p s ≡ true → has_prefix q s ≡ false
unfolding differ has_prefix
differ-prefix [] q s h k = absurd (cc)
differ-prefix (c ∷ p) [] s h k = absurd (cc)
differ-prefix (c ∷ p) (d ∷ q) [] h k = refl
differ-prefix (c ∷ p) (d ∷ q) (x ∷ s) h k = ground (arith, differ-prefix p q s)

same_or_differ : Text → Categories → Bool
unfolding differ text_eq
same_or_differ c [] = true
same_or_differ c ((d, _) ∷ t) = (text_eq c d || differ c d) && same_or_differ c t

all_apart : Categories → Categories → Bool
unfolding same_or_differ
all_apart [] u = true
all_apart ((c, _) ∷ t) u = same_or_differ c u && all_apart t u

same_or_differ-In :
    (c : Text) (t : Categories) (e : Entry)
    → same_or_differ c t ≡ true
    → In e t
    → (c ≡ e.0) ⊎ (differ c e.0 ≡ true)
unfolding same_or_differ
same_or_differ-In c [] e h m = absurd m
same_or_differ-In c ((d, ts) ∷ t) e h (inr m) = same_or_differ-In c t e (ground arith) m
same_or_differ-In c ((d, ts) ∷ t) e h (inl q) = elim (Bool-cases (text_eq c d)) [
  | inl k ↦ inl (text_eq→eq c d k ∙ ap (λ (x : Entry). x.0) q)
  | inr k ↦ inr (subst (λ (x : Entry). differ c x.0 ≡ true) q (ground arith))
]

all_apart-In :
    (t u : Categories) (e : Entry) → all_apart t u ≡ true → In e t → same_or_differ e.0 u ≡ true
unfolding all_apart
all_apart-In [] u e h m = absurd m
all_apart-In ((d, ts) ∷ t) u e h (inr m) = all_apart-In t u e (ground arith) m
all_apart-In ((d, ts) ∷ t) u e h (inl q) =
    subst (λ (x : Entry). same_or_differ x.0 u ≡ true) q (ground arith)

keys_apart : all_apart tool_categories tool_categories ≡ true
unfolding all_apart
keys_apart = refl

pub one_prefix : (name : Text) → OneKey (λ cat _. has_prefix cat name)
one_prefix name e e' m m' h h' =
    elim (same_or_differ-In e.0 tool_categories e' (all_apart-In _ _ e keys_apart m) m') [
      | inl q ↦ q
      | inr d ↦ let k = differ-prefix e.0 e'.0 name d h in absurd (cc)
    ]
