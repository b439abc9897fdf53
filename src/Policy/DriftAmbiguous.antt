-- ===== src/Policy/DriftAmbiguous.antt =====
-- Tool names that two categories claim: detectScopeDrift then depends on Go's map order.
use mathlib.Core.List.{Permᴰ}
use mathlib.Core.List.Permᴰ
use eaim.Base.{
  [], In, none, not, ◌&&◌, true, false, Bool, List, ◌∷◌, ◌≡◌, refl, inl, inr, arith, subst,
}
use eaim.Base.Text.{is_empty, Text}
use eaim.Policy.Types.{ActionContext}
use eaim.Policy.Scope.{
  scope_verb, first_category, Categories, tool_categories, MapOrders, scope_implies_categories,
  tool_category, in_categories, is_nil, category_drift, declared_scope, detect_scope_drift,
}
use eaim.Policy.Drift.{Entry, passes}
use eaim.Policy.DriftOrder.{IsOrders, mentions}

to_front : (e : Entry) (t : Categories) → In e t → (r : Categories) × Permᴰ t (e ∷ r)
to_front e [] m = absurd m
to_front e (x ∷ t) (inl q) = (t, Permᴰ.cons q (Permᴰ.refl t))
to_front e (x ∷ t) (inr m) =
    let (r, p) = to_front e t m in (x ∷ r, Permᴰ.trans (Permᴰ.cons refl p) (Permᴰ.swap refl refl))

keys_named : Categories → Bool
keys_named [] = true
keys_named ((c, _) ∷ t) = not (is_empty c) && keys_named t

keys_named-In : (t : Categories) (e : Entry) → keys_named t ≡ true → In e t → is_empty e.0 ≡ false
unfolding keys_named
keys_named-In [] e h m = absurd m
keys_named-In ((c, ts) ∷ t) e h (inr m) = keys_named-In t e (ground arith) m
keys_named-In ((c, ts) ∷ t) e h (inl q) =
    subst (λ (x : Entry). is_empty x.0 ≡ false) q (ground arith)

all_keys_named : keys_named tool_categories ≡ true
unfolding keys_named is_empty
all_keys_named = refl

-- The first loop meets `e` first, and the other loops run in the order of the source.
abbrev led_by : (e : Entry) → In e tool_categories → MapOrders
led_by e m = record {
  by_tool = e ∷ (to_front e tool_categories m).0;
  by_prefix = tool_categories;
  by_scope = tool_categories;
}

led_by-IsOrders : (e : Entry) (m : In e tool_categories) → IsOrders (led_by e m)
led_by-IsOrders e m = record {
  tool = (to_front e tool_categories m).1;
  prefix = Permᴰ.refl _;
  scope = Permᴰ.refl _;
}

tool_category-led :
    (e : Entry) (m : In e tool_categories) (name : Text)
    → passes (mentions name) e ≡ true
    → tool_category (led_by e m).by_tool tool_categories name ≡ e.0
unfolding tool_category first_category
tool_category-led e m name h = rw h

not_nil : (c : Text) (xs : List Text) → in_categories c xs ≡ true → is_nil xs ≡ false
unfolding in_categories is_nil
not_nil c [] h = absurd (cc)
not_nil c (x ∷ xs) h = refl

category_drift-led :
    (e : Entry) (m : In e tool_categories) (scope name : Text)
    → passes (mentions name) e ≡ true
    → is_nil (scope_implies_categories tool_categories scope) ≡ false
    → category_drift (led_by e m) scope name
      ≡ not (in_categories e.0 (scope_implies_categories tool_categories scope))
unfolding category_drift
category_drift-led e m scope name h n =
    rw (tool_category-led e m name h, keys_named-In tool_categories e all_keys_named m, n)

-- Where the tools of two categories stand in the tool's name and a keyword scope implies the one
-- category and not the other, the same call is a drift under one order of the map and none under
-- another.
pub detect_scope_drift-ambiguous :
    (ac : ActionContext) (e e' : Entry)
    → In e tool_categories
    → In e' tool_categories
    → passes (mentions ac.tool_name) e ≡ true
    → passes (mentions ac.tool_name) e' ≡ true
    → is_empty (declared_scope ac) ≡ false
    → scope_verb (declared_scope ac) ≡ none
    → in_categories e.0 (scope_implies_categories tool_categories (declared_scope ac)) ≡ true
    → in_categories e'.0 (scope_implies_categories tool_categories (declared_scope ac)) ≡ false
    → (o : MapOrders) × (o' : MapOrders) × IsOrders o
      × IsOrders o'
      × (detect_scope_drift o ac ≡ false)
      × (detect_scope_drift o' ac ≡ true)
unfolding detect_scope_drift
detect_scope_drift-ambiguous ac e e' m m' h h' s v i i' =
    let full = not_nil e.0 _ i in
    let calm = category_drift-led e m (declared_scope ac) ac.tool_name h full in
    let drift = category_drift-led e' m' (declared_scope ac) ac.tool_name h' full in
    (
      led_by e m,
      led_by e' m',
      led_by-IsOrders e m,
      led_by-IsOrders e' m',
      ground (arith, calm),
      ground (arith, drift),
    )
