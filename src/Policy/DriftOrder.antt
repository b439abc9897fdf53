-- ===== src/Policy/DriftOrder.antt =====
-- When the outcome of detectScopeDrift depends on Go's map order, and when it does not.
use mathlib.Core.List.{Permᴰ}
use mathlib.Core.List.Permᴰ
use mathlib.Core.Path.{subst₂}
use eaim.Base.{
  In-keep, [], ◌≤◌, keep, In, length, sym, ap, List, ◌∷◌, ◌≡◌, refl, ◌∙◌, inl, inr, Bool-cases,
  arith, subst,
}
use eaim.Base.Text.{Text, to_lower, has_prefix, contains}
use eaim.Policy.Types.{ActionContext}
use eaim.Policy.Scope.{
  Categories, tool_categories, MapOrders, named_categories, scope_implies_categories, mentions_any,
  tool_category, in_categories, is_nil, category_drift, declared_scope, detect_scope_drift,
}
use eaim.Policy.Drift.{Entry, Test, passes, OneKey, first_category-order, one_prefix}

-- Three orders of the one table.
pub record IsOrders (o : MapOrders) : Type 0 where
  pub tool : Permᴰ tool_categories o.by_tool
  pub prefix : Permᴰ tool_categories o.by_prefix
  pub scope : Permᴰ tool_categories o.by_scope

-- The test of toolCategory's first loop.
abbrev pub mentions : Text → Test
mentions name = λ _ ts. mentions_any (to_lower name) ts

tool_category-order :
    (o o' : MapOrders) (name : Text)
    → IsOrders o
    → IsOrders o'
    → OneKey (mentions name)
    → tool_category o.by_tool o.by_prefix name ≡ tool_category o'.by_tool o'.by_prefix name
unfolding tool_category
tool_category-order o o' name s s' u = rw (
  first_category-order (mentions name) o.by_tool o'.by_tool s.tool s'.tool u,
  first_category-order (λ cat _. has_prefix cat (to_lower name)) o.by_prefix o'.by_prefix s.prefix
      s'.prefix (one_prefix (to_lower name)),
)

named-cons :
    (s : Text) (a : Entry) (t t' : Categories)
    → Permᴰ (named_categories t s) (named_categories t' s)
    → Permᴰ (named_categories (a ∷ t) s) (named_categories (a ∷ t') s)
unfolding named_categories
named-cons s a t t' p = elim (Bool-cases (contains s a.0)) [
  | inl h ↦ rw h (Permᴰ.cons refl p)
  | inr h ↦ rw h p
]

named-swap :
    (s : Text) (a b : Entry) (t : Categories)
    → Permᴰ (named_categories (a ∷ b ∷ t) s) (named_categories (b ∷ a ∷ t) s)
unfolding named_categories
named-swap s a b t = elim (Bool-cases (contains s a.0)) [
  | inl h ↦ elim (Bool-cases (contains s b.0)) [
    | inl k ↦ rw (h, k) (Permᴰ.swap refl refl)
    | inr k ↦ rw (h, k) (Permᴰ.refl _)
  ]
  | inr h ↦ rw h (Permᴰ.refl _)
]

named-perm :
    (s : Text) {t t' : Categories}
    → Permᴰ t t'
    → Permᴰ (named_categories t s) (named_categories t' s)
named-perm s Permᴰ.nil = Permᴰ.refl _
named-perm s (Permᴰ.cons {a} {l₁} {l₂} e p) =
    subst (λ x. Permᴰ (named_categories (a ∷ l₁) s) (named_categories (x ∷ l₂) s)) e
      (named-cons s a l₁ l₂ (named-perm s p))
named-perm s (Permᴰ.swap {a} {b} {a' = x'} {b' = y'} {l} e f) =
    subst₂ (λ x y. Permᴰ (named_categories (a ∷ b ∷ l) s) (named_categories (x ∷ y ∷ l) s)) f e
      (named-swap s a b l)
named-perm s (Permᴰ.trans p q) = Permᴰ.trans (named-perm s p) (named-perm s q)

in_categories-perm :
    (c : Text) {xs ys : List Text} → Permᴰ xs ys → in_categories c xs ≡ in_categories c ys
unfolding in_categories
in_categories-perm c Permᴰ.nil = refl
in_categories-perm c (Permᴰ.cons e p) = rw (e, in_categories-perm c p)
in_categories-perm c (Permᴰ.swap e f) = rw (e, f) (ground arith)
in_categories-perm c (Permᴰ.trans p q) = in_categories-perm c p ∙ in_categories-perm c q

is_nil-perm : {xs ys : List Text} → Permᴰ xs ys → is_nil xs ≡ is_nil ys
unfolding is_nil
is_nil-perm Permᴰ.nil = refl
is_nil-perm (Permᴰ.cons e p) = refl
is_nil-perm (Permᴰ.swap e f) = refl
is_nil-perm (Permᴰ.trans p q) = is_nil-perm p ∙ is_nil-perm q

implied-perm :
    (o o' : MapOrders) (scope : Text)
    → IsOrders o
    → IsOrders o'
    → Permᴰ (scope_implies_categories o.by_scope scope) (scope_implies_categories o'.by_scope scope)
unfolding scope_implies_categories
implied-perm o o' scope s s' =
    Permᴰ.append_right _ (named-perm (to_lower scope) (Permᴰ.trans (Permᴰ.symm s.scope) s'.scope))

category_drift-order :
    (o o' : MapOrders) (scope name : Text)
    → IsOrders o
    → IsOrders o'
    → OneKey (mentions name)
    → category_drift o scope name ≡ category_drift o' scope name
unfolding category_drift
category_drift-order o o' scope name s s' u = rw (
  tool_category-order o o' name s s' u,
  is_nil-perm (implied-perm o o' scope s s'),
  in_categories-perm (tool_category o'.by_tool o'.by_prefix name) (implied-perm o o' scope s s'),
)

-- The entries of the table with a tool that stands in the name.
unfoldable pub claims : Text → Categories → Categories
claims name t = keep (passes (mentions name)) t

In-one : (e e' : Entry) (t : Categories) → length t ≤ 1 → In e t → In e' t → e ≡ e'
In-one e e' [] n m m' = absurd m
In-one e e' (x ∷ []) n (inl q) (inl q') = sym q ∙ q'
In-one e e' (x ∷ []) n (inr m) m' = absurd m
In-one e e' (x ∷ []) n (inl q) (inr m') = absurd m'
In-one e e' (x ∷ y ∷ t) n m m' = absurd (omega arith)

OneKey-claims : (name : Text) → length (claims name tool_categories) ≤ 1 → OneKey (mentions name)
unfolding claims
OneKey-claims name n e e' m m' h h' =
    ap (λ (x : Entry). x.0)
      (In-one e e' (keep (passes (mentions name)) tool_categories) n
        (In-keep (passes (mentions name)) e tool_categories m h)
        (In-keep (passes (mentions name)) e' tool_categories m' h'))

-- Where the tools of at most one category stand in the tool's name, scope drift is the same for
-- every order in which the loops range over the map of categories.
pub detect_scope_drift-order :
    (o o' : MapOrders) (ac : ActionContext)
    → IsOrders o
    → IsOrders o'
    → length (claims ac.tool_name tool_categories) ≤ 1
    → detect_scope_drift o ac ≡ detect_scope_drift o' ac
unfolding detect_scope_drift
detect_scope_drift-order o o' ac s s' n =
    let u = OneKey-claims ac.tool_name n in
    let same = category_drift-order o o' (declared_scope ac) ac.tool_name s s' u in
    ground (arith, same)
