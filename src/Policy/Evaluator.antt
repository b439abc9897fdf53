-- ===== src/Policy/Evaluator.antt =====
-- eami-policy/evaluator.go and semantic.go: the sorted rule list and the first match.
use eaim.Base.{
  ℕ, List, [], ◌∷◌, none, some, Bool, true, false, ◌||◌, Result, ok, err, if◌then◌else◌,
}
use eaim.Base.Text.{Text, is_empty}
use eaim.Base.Int.{ltb_ℤ}
use eaim.Policy.Types.{
  ActionContext, Decision, matched_rule, no_matching_rule, Rule, EvaluatorConfig, Evaluator,
  action_allow,
}
use eaim.Policy.Scope.{MapOrders}
use eaim.Policy.Structural.{matches_rule}

pub data EvaluatorOption : Type 0 where
  with_default_decision : Text → EvaluatorOption
  with_semantic_llm : Text → Text → ℕ → EvaluatorOption

unfoldable pub apply_option : EvaluatorConfig → EvaluatorOption → EvaluatorConfig
apply_option cfg (with_default_decision action) = record cfg { default_action = action }
apply_option cfg (with_semantic_llm endpoint key timeout) = record cfg {
  semantic_endpoint = endpoint;
  semantic_api_key = key;
  semantic_timeout = timeout;
}

unfoldable pub apply_options : EvaluatorConfig → List EvaluatorOption → EvaluatorConfig
unfolding apply_option
apply_options cfg [] = cfg
apply_options cfg (o ∷ opts) = apply_options (apply_option cfg o) opts

-- The timeout is in milliseconds.
abbrev pub default_config : EvaluatorConfig
default_config = record {
  default_action = action_allow;
  semantic_endpoint = [];
  semantic_api_key = [];
  semantic_timeout = 2000;
}

unfoldable pub is_global : Rule → Bool
is_global r = is_empty r.workspace_id

-- The comparator that NewEvaluator hands to sort.Slice.
unfoldable pub rule_less : Rule → Rule → Bool
unfolding is_global
rule_less i j =
    if is_global i
    then (if is_global j then ltb_ℤ i.priority j.priority else true)
    else (if is_global j then false else ltb_ℤ i.priority j.priority)

-- `sort` is what sort.Slice makes of the copied slice under `rule_less`.
unfoldable pub new_evaluator :
    (List Rule → List Rule) → List Rule → List EvaluatorOption → Evaluator
unfolding apply_options
new_evaluator sort rules opts = record {
  rules = sort rules;
  cfg = apply_options default_config opts;
}

-- The stub: no semantic rule ever matches, and it never fails.
unfoldable pub evaluate_semantic : ActionContext → Text → EvaluatorConfig → Result Text Bool
evaluate_semantic ac rule cfg = ok false

abbrev answered_yes : Result Text Bool → Bool
answered_yes (ok matched) = matched
answered_yes (err e) = false

unfoldable pub semantic_passes : EvaluatorConfig → ActionContext → Rule → Bool
unfolding evaluate_semantic
semantic_passes cfg ac r =
    let rule = r.conditions.semantic_rule in
    is_empty rule || answered_yes (evaluate_semantic ac rule cfg)

unfoldable pub matched_decision : ℕ → Rule → Decision
matched_decision elapsed r = record {
  action = r.action;
  policy_id = some r.id;
  policy_name = some r.name;
  reason = matched_rule r.name r.priority;
  eval_time_ms = elapsed;
}

unfoldable pub default_decision : ℕ → EvaluatorConfig → Decision
default_decision elapsed cfg = record {
  action = cfg.default_action;
  policy_id = none;
  policy_name = none;
  reason = no_matching_rule;
  eval_time_ms = elapsed;
}

-- `orders` gives the map orders of each rule's check; `elapsed` is what the clock measures.
unfoldable pub evaluate_rules :
    (Rule → MapOrders) → ℕ → EvaluatorConfig → ActionContext → List Rule → Decision
unfolding semantic_passes matched_decision default_decision
evaluate_rules orders elapsed cfg ac [] = default_decision elapsed cfg
evaluate_rules orders elapsed cfg ac (r ∷ rules) =
    let rest = evaluate_rules orders elapsed cfg ac rules in
    if matches_rule (orders r) ac r
    then (if semantic_passes cfg ac r then matched_decision elapsed r else rest)
    else rest

unfoldable pub evaluate : (Rule → MapOrders) → ℕ → Evaluator → ActionContext → Result Text Decision
unfolding evaluate_rules
evaluate orders elapsed e ac = ok (evaluate_rules orders elapsed e.cfg ac e.rules)
