-- ===== src/Policy/Examples.antt =====
-- The policy theorems at one org with a floor rule, a workspace rule and a stranger's rule.
use mathlib.Core.List.Permᴰ
use eaim.Base.Int.{pos, negsuc, ◌≤ℤ◌}
use eaim.Base.Json.{end}
use eaim.Base.Sort.{IsSort, insertion_sort, insertion_sort-IsSort}
use eaim.Policy.Structural.{matches_rule, string_in_slice}
use eaim.Policy.Evaluator.{
  default_config, is_global, rule_less, new_evaluator, matched_decision, evaluate, semantic_passes,
  apply_options,
}
use eaim.Policy.FirstMatch.{fires, Decides, rule_less-IsWeakOrder, evaluate-new_evaluator}
use eaim.Policy.Floor.{evaluate-floor, evaluate-tenant}
use eaim.Policy.Ties.{NoTies, evaluate-ties, IsForeign, evaluate-foreign}
use eaim.Policy.Matching.{Listed, Matches, matches_rule_iff, string_in_slice_iff}
use eaim.Policy.DriftOrder.{IsOrders, claims, detect_scope_drift-order}
use eaim.Policy.DriftAmbiguous.{detect_scope_drift-ambiguous}
use eaim.Policy.Scope.{
  MapOrders, tool_categories, detect_scope_drift, declared_scope, scope_verb, in_categories,
  scope_implies_categories, mentions_any,
}
use eaim.Policy.Types.{
  ActionContext, Decision, Conditions, Rule, Evaluator, action_allow, action_deny,
}
use mathlib.Core.List.{reverse}
use eaim.Base.{
  sym, subst, ◌∙◌, List, [], ◌∷◌, true, false, ok, none, ◌≡◌, refl, ◌⊎◌, inl, inr, arith, In, keep,
  ◌↔◌,
}
use eaim.Base.Text.{codes, text_eq, is_empty, to_lower, before, contains, has_prefix}

abbrev any_call : Conditions
any_call = record {
  agent_name_pattern = [];
  tool_names = [];
  tool_server_ids = [];
  action_types = [];
  environments = [];
  record_count_gt = none;
  semantic_rule = [];
  scope_drift = false;
}

abbrev floor_rule : Rule
floor_rule = record {
  id = codes "r1";
  org_id = codes "acme";
  workspace_id = [];
  name = codes "no deletes";
  priority = pos 50;
  conditions = record any_call { action_types = codes "Delete" ∷ [] };
  action = action_deny;
  alert = true;
}

abbrev workspace_rule : Rule
workspace_rule = record {
  id = codes "r2";
  org_id = codes "acme";
  workspace_id = codes "lab";
  name = codes "lab may delete";
  priority = pos 1;
  conditions = any_call;
  action = action_allow;
  alert = false;
}

abbrev stranger_rule : Rule
stranger_rule = record floor_rule {
  id = codes "r3";
  org_id = codes "umbrella";
  priority = negsuc 4;
}

abbrev rule_set : List Rule
rule_set = workspace_rule ∷ stranger_rule ∷ floor_rule ∷ []

abbrev delete_call : ActionContext
delete_call = record {
  org_id = codes "acme";
  workspace_id = codes "lab";
  agent_id = codes "a1";
  agent_name = codes "cleaner";
  scope = codes "database assistant";
  agent_scope = [];
  model = [];
  owner = [];
  risk_tier = codes "low";
  tool_name = codes "shell_sql";
  action_type = codes "delete";
  action_verb = [];
  tool_server_id = [];
  parameters = end;
  environment = codes "production";
  estimated_record_count = pos 3;
  session_actions = [];
  timestamp = 0;
}

abbrev source_order : Rule → MapOrders
source_order _ = record {
  by_tool = tool_categories;
  by_prefix = tool_categories;
  by_scope = tool_categories;
}

abbrev by_insertion : List Rule → List Rule
by_insertion = insertion_sort rule_less

by_insertion-IsSort : IsSort rule_less by_insertion
by_insertion-IsSort = insertion_sort-IsSort rule_less rule_less-IsWeakOrder

floor_decides :
    evaluate source_order 0 (new_evaluator by_insertion rule_set []) delete_call
    ≡ ok (matched_decision 0 floor_rule)
unfolding evaluate new_evaluator insertion_sort rule_less matches_rule string_in_slice to_lower
    text_eq is_empty
floor_decides = refl

evaluate-new_evaluator_example :
    (d : Decision) × (evaluate source_order 0 (new_evaluator by_insertion rule_set []) delete_call
      ≡ ok d)
    × Decides source_order default_config delete_call 0 rule_set d
unfolding evaluate new_evaluator
evaluate-new_evaluator_example =
    evaluate-new_evaluator by_insertion by_insertion-IsSort source_order 0 rule_set [] delete_call

floor_fires : fires source_order default_config delete_call floor_rule ≡ true
unfolding matches_rule string_in_slice to_lower text_eq is_empty semantic_passes
floor_fires = refl

evaluate-floor_example :
    (r : Rule) × In r rule_set
    × (is_global r ≡ true)
    × (r.priority ≤ℤ pos 50)
    × (evaluate source_order 0 (new_evaluator by_insertion rule_set []) delete_call
        ≡ ok (matched_decision 0 r))
unfolding is_global is_empty apply_options
evaluate-floor_example =
    evaluate-floor by_insertion by_insertion-IsSort source_order 0 rule_set [] delete_call
      floor_rule (inr (inr (inl refl))) refl floor_fires

evaluate-tenant_example :
    (r : Rule) × In r rule_set
    × (r.id ≡ codes "r1")
    × (action_deny ≡ r.action)
    × ((r.org_id ≡ []) ⊎ (r.org_id ≡ codes "acme"))
    × ((r.workspace_id ≡ []) ⊎ (r.workspace_id ≡ codes "lab"))
    × (r.conditions.semantic_rule ≡ [])
unfolding matched_decision
evaluate-tenant_example =
    evaluate-tenant by_insertion by_insertion-IsSort source_order 0 rule_set [] delete_call
      (matched_decision 0 floor_rule) (codes "r1") floor_decides refl

-- A sort that puts equal elements in the opposite order: it reverses the list first.
abbrev by_reversed : List Rule → List Rule
by_reversed xs = by_insertion (reverse xs)

by_reversed-IsSort : IsSort rule_less by_reversed
by_reversed-IsSort = record {
  permutes =
      λ xs. Permᴰ.trans (Permᴰ.symm (Permᴰ.reverse xs)) (by_insertion-IsSort.permutes (reverse xs));
  orders = λ xs. by_insertion-IsSort.orders (reverse xs);
}

stranger_quiet : fires source_order default_config delete_call stranger_rule ≡ true → ⊥
unfolding matches_rule string_in_slice to_lower text_eq is_empty semantic_passes
stranger_quiet h = cc

no_ties : NoTies source_order (apply_options default_config []) delete_call rule_set
unfolding is_global is_empty apply_options matches_rule string_in_slice to_lower text_eq
    semantic_passes
no_ties r g (inl p) (inl q) f k s l = sym p ∙ q
no_ties r g (inr (inr (inl p))) (inr (inr (inl q))) f k s l = sym p ∙ q
no_ties r g (inl p) (inr (inr (inl q))) f k s l = absurd (cc)
no_ties r g (inr (inr (inl p))) (inl q) f k s l = absurd (cc)
no_ties r g (inr (inl p)) m f k s l =
    absurd (
      stranger_quiet
        (subst (λ x. fires source_order default_config delete_call x ≡ true) (sym p) f))
no_ties r g m (inr (inl q)) f k s l =
    absurd (
      stranger_quiet
        (subst (λ x. fires source_order default_config delete_call x ≡ true) (sym q) k))
no_ties r g (inr (inr (inr m))) n f k s l = absurd m
no_ties r g n (inr (inr (inr m))) f k s l = absurd m

evaluate-ties_example :
    evaluate source_order 0 (new_evaluator by_insertion rule_set []) delete_call
    ≡ evaluate source_order 0 (new_evaluator by_reversed rule_set []) delete_call
evaluate-ties_example =
    evaluate-ties by_insertion by_reversed by_insertion-IsSort by_reversed-IsSort source_order 0
      rule_set [] delete_call no_ties

abbrev unsorted : Evaluator
unsorted = record { rules = rule_set; cfg = default_config }

stranger-IsForeign : IsForeign delete_call stranger_rule
stranger-IsForeign = inl (λ e. absurd (cc e), λ e. absurd (cc e))

evaluate-foreign_example :
    evaluate source_order 0 (record unsorted { rules = rule_set }) delete_call
    ≡ evaluate source_order 0
        (record unsorted { rules = workspace_rule ∷ floor_rule ∷ [] })
        delete_call
evaluate-foreign_example =
    evaluate-foreign source_order 0 unsorted delete_call stranger_rule (workspace_rule ∷ [])
      (floor_rule ∷ []) stranger-IsForeign

matches_rule_iff_example :
    (matches_rule (source_order floor_rule) delete_call floor_rule ≡ true)
    ↔ Matches (source_order floor_rule) delete_call floor_rule
matches_rule_iff_example = matches_rule_iff (source_order floor_rule) delete_call floor_rule

string_in_slice_iff_example :
    (string_in_slice (codes "DELETE") (codes "Delete" ∷ []) ≡ true)
    ↔ Listed (codes "DELETE") (codes "Delete" ∷ [])
string_in_slice_iff_example = string_in_slice_iff (codes "DELETE") (codes "Delete" ∷ [])

abbrev read_call : ActionContext
read_call = record delete_call { tool_name = codes "Read_File"; action_type = codes "read" }

abbrev backwards : MapOrders
backwards = record {
  by_tool = reverse tool_categories;
  by_prefix = tool_categories;
  by_scope = reverse tool_categories;
}

source_order-IsOrders : IsOrders (source_order floor_rule)
source_order-IsOrders = record { tool = Permᴰ.refl _; prefix = Permᴰ.refl _; scope = Permᴰ.refl _ }

backwards-IsOrders : IsOrders backwards
backwards-IsOrders = record {
  tool = Permᴰ.symm (Permᴰ.reverse tool_categories);
  prefix = Permᴰ.refl _;
  scope = Permᴰ.symm (Permᴰ.reverse tool_categories);
}

detect_scope_drift-order_example :
    detect_scope_drift (source_order floor_rule) read_call ≡ detect_scope_drift backwards read_call
unfolding claims mentions_any to_lower text_eq contains has_prefix is_empty keep
detect_scope_drift-order_example =
    detect_scope_drift-order (source_order floor_rule) backwards read_call source_order-IsOrders
      backwards-IsOrders (omega arith)

-- "shell_sql" holds a tool of "database" and one of "code", and the scope is "database assistant".
detect_scope_drift-ambiguous_example :
    (o : MapOrders) × (o' : MapOrders) × IsOrders o
    × IsOrders o'
    × (detect_scope_drift o delete_call ≡ false)
    × (detect_scope_drift o' delete_call ≡ true)
unfolding mentions_any to_lower text_eq contains has_prefix is_empty declared_scope scope_verb
    before in_categories scope_implies_categories
detect_scope_drift-ambiguous_example =
    detect_scope_drift-ambiguous delete_call _ _ (inr (inr (inr (inr (inr (inl refl))))))
      (inr (inl refl)) refl refl refl refl refl refl
