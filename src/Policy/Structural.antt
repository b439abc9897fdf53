-- ===== src/Policy/Structural.antt =====
-- eami-policy/structural.go: matchesRule, one definition for each of its guards.
use eaim.Base.{List, [], ◌∷◌, Option, none, some, Bool, true, false, ◌&&◌, ◌||◌}
use eaim.Base.Text.{Text, text_eq, is_empty, to_lower}
use eaim.Base.Int.{ℤ, ltb_ℤ}
use eaim.Policy.Types.{ActionContext, Rule, Conditions}
use eaim.Policy.Glob.{path_match}
use eaim.Policy.Scope.{MapOrders, detect_scope_drift}

unfoldable pub lower_in : Text → List Text → Bool
lower_in s [] = false
lower_in s (item ∷ items) = text_eq (to_lower item) s || lower_in s items

unfoldable pub string_in_slice : Text → List Text → Bool
unfolding lower_in
string_in_slice s slice = lower_in (to_lower s) slice

unfoldable pub org_matches : ActionContext → Rule → Bool
org_matches ac r = is_empty r.org_id || text_eq r.org_id ac.org_id

unfoldable pub workspace_matches : ActionContext → Rule → Bool
workspace_matches ac r = is_empty r.workspace_id || text_eq r.workspace_id ac.workspace_id

unfoldable pub name_matches : ActionContext → Conditions → Bool
name_matches ac c = is_empty c.agent_name_pattern || path_match c.agent_name_pattern ac.agent_name

-- An empty set is no condition.
unfoldable pub set_matches : Text → List Text → Bool
set_matches s [] = true
set_matches s (item ∷ items) = string_in_slice s (item ∷ items)

unfoldable pub count_matches : ℤ → Option ℤ → Bool
count_matches n none = true
count_matches n (some limit) = ltb_ℤ limit n

unfoldable pub drift_matches : MapOrders → ActionContext → Bool → Bool
drift_matches o ac false = true
drift_matches o ac true = detect_scope_drift o ac

unfoldable pub conditions_match : MapOrders → ActionContext → Conditions → Bool
unfolding name_matches set_matches count_matches drift_matches
conditions_match o ac c =
    name_matches ac c
    && set_matches ac.tool_name c.tool_names
    && set_matches ac.tool_server_id c.tool_server_ids
    && set_matches ac.action_type c.action_types
    && set_matches ac.environment c.environments
    && count_matches ac.estimated_record_count c.record_count_gt
    && drift_matches o ac c.scope_drift

unfoldable pub matches_rule : MapOrders → ActionContext → Rule → Bool
unfolding org_matches workspace_matches conditions_match
matches_rule o ac r =
    org_matches ac r && workspace_matches ac r && conditions_match o ac r.conditions
