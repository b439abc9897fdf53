-- ===== src/Policy/Floor.antt =====
-- The org floor, tenant isolation, and what the order of ties can and cannot change.
use eaim.Base.{
  ℕ, ◌&&◌, List, [], Bool, true, false, ok, some, ◌≡◌, ◌⊎◌, inl, inr, Bool-cases, arith, In,
  and-elim, ap, ◌∙◌, ◌||◌,
}
use eaim.Base.Text.{Text, text_eq, text_eq→eq, is_empty, is_empty→eq}
use eaim.Base.Int.{◌≤ℤ◌}
use eaim.Base.Sort.{IsSort}
use eaim.Policy.Types.{ActionContext, Decision, Rule, EvaluatorConfig}
use eaim.Policy.Scope.{MapOrders}
use eaim.Policy.Structural.{matches_rule, org_matches, workspace_matches, conditions_match}
use eaim.Policy.Evaluator.{
  EvaluatorOption, apply_options, default_config, is_global, rule_less, new_evaluator,
  semantic_passes, matched_decision, default_decision, evaluate,
}
use eaim.Policy.FirstMatch.{fires, Decides, evaluate-new_evaluator}

not_less_global :
    (g r : Rule)
    → rule_less g r ≡ false
    → is_global g ≡ true
    → (is_global r ≡ true) × (r.priority ≤ℤ g.priority)
unfolding rule_less
not_less_global g r h k = ground arith

fires-disagree : (b : Bool) → b ≡ true → b ≡ false → ⊥
fires-disagree b h k = cc

-- Where a global rule of the set fires, the decision is that of a firing global rule of at least
-- its priority: no rule of a workspace is ever preferred to the org floor, whatever its priority.
pub evaluate-floor :
    (sort : List Rule → List Rule)
    → IsSort rule_less sort
    → (orders : Rule → MapOrders) (elapsed : ℕ) (rules : List Rule) (opts : List EvaluatorOption)
      (ac : ActionContext) (g : Rule)
    → In g rules
    → is_global g ≡ true
    → fires orders (apply_options default_config opts) ac g ≡ true
    → (r : Rule) × In r rules
      × (is_global r ≡ true)
      × (r.priority ≤ℤ g.priority)
      × (evaluate orders elapsed (new_evaluator sort rules opts) ac
          ≡ ok (matched_decision elapsed r))
evaluate-floor sort s orders elapsed rules opts ac g m top f =
    let (d, e, by) = evaluate-new_evaluator sort s orders elapsed rules opts ac in decided d e by
  where
    decided :
        (d : Decision)
        → evaluate orders elapsed (new_evaluator sort rules opts) ac ≡ ok d
        → Decides orders (apply_options default_config opts) ac elapsed rules d
        → (r : Rule) × In r rules
          × (is_global r ≡ true)
          × (r.priority ≤ℤ g.priority)
          × (evaluate orders elapsed (new_evaluator sort rules opts) ac
              ≡ ok (matched_decision elapsed r))
    decided d e (inl (r, n, _, least, q)) =
        let (up, le) = not_less_global g r (least g m f) top in (r, n, up, le, e ∙ ap ok q)
    decided d e (inr (quiet, q)) = absurd (fires-disagree _ f (quiet g m))

or_eq : (s t : Text) → (is_empty s || text_eq s t) ≡ true → (s ≡ []) ⊎ (s ≡ t)
or_eq s t h = elim (Bool-cases (is_empty s)) [
  | inl e ↦ inl (is_empty→eq s e)
  | inr e ↦ inr (text_eq→eq s t (rw e at h))
]

-- A stub answers no, so a rule that passes has no semantic condition.
semantic_passes→empty :
    (cfg : EvaluatorConfig) (ac : ActionContext) (r : Rule)
    → semantic_passes cfg ac r ≡ true
    → r.conditions.semantic_rule ≡ []
unfolding semantic_passes
semantic_passes→empty cfg ac r h = is_empty→eq _ (ground arith)

matches_rule-scope :
    (o : MapOrders) (ac : ActionContext) (r : Rule)
    → matches_rule o ac r ≡ true
    → ((r.org_id ≡ []) ⊎ (r.org_id ≡ ac.org_id))
      × ((r.workspace_id ≡ []) ⊎ (r.workspace_id ≡ ac.workspace_id))
unfolding matches_rule
matches_rule-scope o ac r h =
    let own = org_matches ac r && workspace_matches ac r in
    let (p, _) = and-elim own (conditions_match o ac r.conditions) h in
    let (q, w) = and-elim (org_matches ac r) (workspace_matches ac r) p in
    (or_eq _ _ q, or_eq _ _ w)

fires-scope :
    (orders : Rule → MapOrders) (cfg : EvaluatorConfig) (ac : ActionContext) (r : Rule)
    → fires orders cfg ac r ≡ true
    → ((r.org_id ≡ []) ⊎ (r.org_id ≡ ac.org_id))
      × ((r.workspace_id ≡ []) ⊎ (r.workspace_id ≡ ac.workspace_id))
      × (r.conditions.semantic_rule ≡ [])
fires-scope orders cfg ac r h =
    let (m, q) = and-elim (matches_rule (orders r) ac r) (semantic_passes cfg ac r) h in
    let (o, w) = matches_rule-scope (orders r) ac r m in (o, w, semantic_passes→empty cfg ac r q)

-- A decision that names a policy comes from a rule of the set with that id and action, of the
-- caller's org or of none, of the caller's workspace or of none, and with no semantic condition.
pub evaluate-tenant :
    (sort : List Rule → List Rule)
    → IsSort rule_less sort
    → (orders : Rule → MapOrders) (elapsed : ℕ) (rules : List Rule) (opts : List EvaluatorOption)
      (ac : ActionContext) (d : Decision) (id : Text)
    → evaluate orders elapsed (new_evaluator sort rules opts) ac ≡ ok d
    → d.policy_id ≡ some id
    → (r : Rule) × In r rules
      × (r.id ≡ id)
      × (d.action ≡ r.action)
      × ((r.org_id ≡ []) ⊎ (r.org_id ≡ ac.org_id))
      × ((r.workspace_id ≡ []) ⊎ (r.workspace_id ≡ ac.workspace_id))
      × (r.conditions.semantic_rule ≡ [])
unfolding matched_decision default_decision
evaluate-tenant sort s orders elapsed rules opts ac d id e named =
    let (d', e', by) = evaluate-new_evaluator sort s orders elapsed rules opts ac in
    decided d' (cc) by
  where
    decided :
        (d' : Decision)
        → d ≡ d'
        → Decides orders (apply_options default_config opts) ac elapsed rules d'
        → (r : Rule) × In r rules
          × (r.id ≡ id)
          × (d.action ≡ r.action)
          × ((r.org_id ≡ []) ⊎ (r.org_id ≡ ac.org_id))
          × ((r.workspace_id ≡ []) ⊎ (r.workspace_id ≡ ac.workspace_id))
          × (r.conditions.semantic_rule ≡ [])
    decided d' q (inl (r, n, f, _, p)) =
        let (o, w, c) = fires-scope orders _ ac r f in
        let same : d ≡ matched_decision elapsed r = q ∙ p in
        (r, n, ground arith, ground arith, o, w, c)
    decided d' q (inr (_, p)) =
        let same : d ≡ default_decision elapsed (apply_options default_config opts) = q ∙ p in
        absurd (ground arith)
