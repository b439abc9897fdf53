-- ===== src/Policy/Ties.antt =====
-- What a decision depends on: neither the order that sort.Slice gives to ties that do not matter,
-- nor a rule that is bound to another org or workspace.
use eaim.Base.{
  ℕ, List, [], ◌∷◌, true, false, ok, ◌≡◌, refl, sym, ap, ◌∙◌, inl, inr, Bool-cases, arith, In, ◌++◌,
  ◌≢◌, ◌⊎◌,
}
use eaim.Base.Text.{Text, text_eq, text_eq→eq, is_empty}
use eaim.Base.Sort.{IsSort}
use eaim.Policy.Types.{ActionContext, Decision, Rule, EvaluatorConfig, Evaluator}
use eaim.Policy.Scope.{MapOrders}
use eaim.Policy.Structural.{matches_rule, org_matches, workspace_matches}
use eaim.Policy.Evaluator.{
  EvaluatorOption, apply_options, default_config, is_global, rule_less, new_evaluator,
  matched_decision, evaluate_rules, evaluate,
}
use eaim.Policy.FirstMatch.{fires, Decides, evaluate-new_evaluator}

tied :
    (r g : Rule)
    → rule_less r g ≡ false
    → rule_less g r ≡ false
    → (is_global r ≡ is_global g) × (r.priority ≡ g.priority)
unfolding rule_less
tied r g h k = ground arith

-- Two firing rules of the same kind (global or of a workspace) and priority are the same rule.
abbrev pub NoTies : (Rule → MapOrders) → EvaluatorConfig → ActionContext → List Rule → Type 0
NoTies orders cfg ac rules =
    (r g : Rule)
    → In r rules
    → In g rules
    → fires orders cfg ac r ≡ true
    → fires orders cfg ac g ≡ true
    → is_global r ≡ is_global g
    → r.priority ≡ g.priority
    → r ≡ g

Decides-unique :
    (orders : Rule → MapOrders) (cfg : EvaluatorConfig) (ac : ActionContext) (elapsed : ℕ)
    (rules : List Rule) (d d' : Decision)
    → NoTies orders cfg ac rules
    → Decides orders cfg ac elapsed rules d
    → Decides orders cfg ac elapsed rules d'
    → d ≡ d'
Decides-unique orders cfg ac elapsed rules d d' u (inl (r, m, f, l, p)) (inl (g, n, k, l', q)) =
    let (same, level) = tied r g (l' r m f) (l g n k) in
    p ∙ ap (matched_decision elapsed) (u r g m n f k same level) ∙ sym q
Decides-unique orders cfg ac elapsed rules d d' u (inl (r, m, f, l, p)) (inr (quiet, q)) =
    let still = quiet r m in absurd (cc)
Decides-unique orders cfg ac elapsed rules d d' u (inr (quiet, p)) (inl (g, n, k, l', q)) =
    let still = quiet g n in absurd (cc)
Decides-unique orders cfg ac elapsed rules d d' u (inr (quiet, p)) (inr (quiet', q)) = p ∙ sym q

-- Where no two firing rules tie, every order that sort.Slice may choose, and every order in which
-- the caller gives the same rules, leads to the same decision.
pub evaluate-ties :
    (sort sort' : List Rule → List Rule)
    → IsSort rule_less sort
    → IsSort rule_less sort'
    → (orders : Rule → MapOrders) (elapsed : ℕ) (rules : List Rule) (opts : List EvaluatorOption)
      (ac : ActionContext)
    → NoTies orders (apply_options default_config opts) ac rules
    → evaluate orders elapsed (new_evaluator sort rules opts) ac
      ≡ evaluate orders elapsed (new_evaluator sort' rules opts) ac
evaluate-ties sort sort' s s' orders elapsed rules opts ac u =
    let (d, e, by) = evaluate-new_evaluator sort s orders elapsed rules opts ac in
    let (d', e', by') = evaluate-new_evaluator sort' s' orders elapsed rules opts ac in
    e ∙ ap ok (Decides-unique orders _ ac elapsed rules d d' u by by') ∙ sym e'

-- A rule that is bound to another org than the caller's, or to another workspace.
abbrev pub IsForeign : ActionContext → Rule → Type 0
IsForeign ac r =
    ((r.org_id ≢ []) × (r.org_id ≢ ac.org_id))
    ⊎ ((r.workspace_id ≢ []) × (r.workspace_id ≢ ac.workspace_id))

is_empty-false : (t : Text) → t ≢ [] → is_empty t ≡ false
unfolding is_empty
is_empty-false [] h = absurd (h refl)
is_empty-false (c ∷ t) h = refl

text_eq-false : (s t : Text) → s ≢ t → text_eq s t ≡ false
text_eq-false s t h = elim (Bool-cases (text_eq s t)) [
  | inl e ↦ absurd (h (text_eq→eq s t e))
  | inr e ↦ e
]

foreign_quiet :
    (o : MapOrders) (ac : ActionContext) (r : Rule) → IsForeign ac r → matches_rule o ac r ≡ false
unfolding matches_rule org_matches workspace_matches
foreign_quiet o ac r (inl (n, m)) =
    let e = is_empty-false r.org_id n in let d = text_eq-false r.org_id ac.org_id m in ground arith
foreign_quiet o ac r (inr (n, m)) =
    let e = is_empty-false r.workspace_id n in
    let d = text_eq-false r.workspace_id ac.workspace_id m in ground arith

evaluate_rules-foreign :
    (orders : Rule → MapOrders) (elapsed : ℕ) (cfg : EvaluatorConfig) (ac : ActionContext)
    (r : Rule) (before after : List Rule)
    → IsForeign ac r
    → evaluate_rules orders elapsed cfg ac (before ++ r ∷ after)
      ≡ evaluate_rules orders elapsed cfg ac (before ++ after)
unfolding evaluate_rules
evaluate_rules-foreign orders elapsed cfg ac r [] after h =
    rw (foreign_quiet (orders r) ac r h) refl
evaluate_rules-foreign orders elapsed cfg ac r (x ∷ before) after h =
    rw (evaluate_rules-foreign orders elapsed cfg ac r before after h) refl

-- A rule with an org that is not the caller's, or with a workspace that is not, changes no decision
-- of an evaluator, wherever in its list it stands.
pub evaluate-foreign :
    (orders : Rule → MapOrders) (elapsed : ℕ) (e : Evaluator) (ac : ActionContext) (r : Rule)
    (before after : List Rule)
    → IsForeign ac r
    → evaluate orders elapsed (record e { rules = before ++ r ∷ after }) ac
      ≡ evaluate orders elapsed (record e { rules = before ++ after }) ac
unfolding evaluate
evaluate-foreign orders elapsed e ac r before after h =
    ap ok (evaluate_rules-foreign orders elapsed e.cfg ac r before after h)
