-- ===== src/Policy/Matching.antt =====
-- matchesRule against a declarative reading of the conditions, and string sets without case.
use eaim.Base.{
  List, [], ◌∷◌, Option, none, some, Bool, true, false, ◌||◌, ◌≡◌, refl, ap, ◌⊎◌, inl, inr, ◌↔◌,
  Bool-cases, arith, In, ◌∙◌,
}
use eaim.Base.Text.{Text, text_eq, text_eq→eq, text_eq_refl, is_empty, is_empty→eq, to_lower}
use eaim.Base.Int.{ℤ, ◌<ℤ◌}
use eaim.Policy.Types.{ActionContext, Rule, Conditions}
use eaim.Policy.Glob.{path_match}
use eaim.Policy.Scope.{MapOrders, detect_scope_drift}
use eaim.Policy.Structural.{
  lower_in, string_in_slice, org_matches, workspace_matches, name_matches, set_matches,
  count_matches, drift_matches, conditions_match, matches_rule,
}

-- Some item of the set is the text, up to case.
abbrev pub Listed : Text → List Text → Type 0
Listed s items = (item : Text) × In item items × (to_lower item ≡ to_lower s)

abbrev pub Allowed : Text → List Text → Type 0
Allowed s items = (items ≡ []) ⊎ Listed s items

-- What a rule asks of a call, condition by condition.
pub record Matches (o : MapOrders) (ac : ActionContext) (r : Rule) : Type 0 where
  pub org : (r.org_id ≡ []) ⊎ (r.org_id ≡ ac.org_id)
  pub workspace : (r.workspace_id ≡ []) ⊎ (r.workspace_id ≡ ac.workspace_id)
  pub agent_name :
      (r.conditions.agent_name_pattern ≡ [])
      ⊎ (path_match r.conditions.agent_name_pattern ac.agent_name ≡ true)
  pub tool : Allowed ac.tool_name r.conditions.tool_names
  pub tool_server : Allowed ac.tool_server_id r.conditions.tool_server_ids
  pub action_type : Allowed ac.action_type r.conditions.action_types
  pub environment : Allowed ac.environment r.conditions.environments
  pub record_count :
      (n : ℤ) → r.conditions.record_count_gt ≡ some n → n <ℤ ac.estimated_record_count
  pub drift : r.conditions.scope_drift ≡ true → detect_scope_drift o ac ≡ true

or_text_iff : (s t : Text) → ((is_empty s || text_eq s t) ≡ true) ↔ ((s ≡ []) ⊎ (s ≡ t))
or_text_iff s t = (to, from)
  where
    to : (is_empty s || text_eq s t) ≡ true → (s ≡ []) ⊎ (s ≡ t)
    to h = elim (Bool-cases (is_empty s)) [
      | inl e ↦ inl (is_empty→eq s e)
      | inr e ↦ inr (text_eq→eq s t (rw e at h))
    ]

    from : (s ≡ []) ⊎ (s ≡ t) → (is_empty s || text_eq s t) ≡ true
    from (inl e) = rw e (unfold is_empty in refl)
    from (inr e) = rw (← e, text_eq_refl s) (ground arith)

or_empty_iff : (s : Text) (b : Bool) → ((is_empty s || b) ≡ true) ↔ ((s ≡ []) ⊎ (b ≡ true))
unfolding is_empty
or_empty_iff [] b = (λ _. inl refl, λ _. refl)
or_empty_iff (c ∷ s) b = (inr, λ h. ground arith)

lower_in_sound :
    (s : Text) (items : List Text) → lower_in (to_lower s) items ≡ true → Listed s items
unfolding lower_in
lower_in_sound s [] h = absurd (cc)
lower_in_sound s (item ∷ items) h = elim (Bool-cases (text_eq (to_lower item) (to_lower s))) [
  | inl e ↦ (item, inl refl, text_eq→eq _ _ e)
  | inr e ↦ let (i, m, q) = lower_in_sound s items (rw e at h) in (i, inr m, q)
]

lower_in_complete :
    (s item : Text) (items : List Text)
    → In item items
    → to_lower item ≡ to_lower s
    → lower_in (to_lower s) items ≡ true
unfolding lower_in
lower_in_complete s item [] m e = absurd m
lower_in_complete s item (x ∷ items) (inl q) e =
    rw (ap to_lower q ∙ e, text_eq_refl (to_lower s)) refl
lower_in_complete s item (x ∷ items) (inr m) e =
    let rest = lower_in_complete s item items m e in ground arith

-- stringInSlice holds exactly where some item of the slice is the string, up to case.
pub string_in_slice_iff :
    (s : Text) (items : List Text) → (string_in_slice s items ≡ true) ↔ Listed s items
unfolding string_in_slice
string_in_slice_iff s items =
    (lower_in_sound s items, λ (item, m, e). lower_in_complete s item items m e)

set_matches_iff : (s : Text) (items : List Text) → (set_matches s items ≡ true) ↔ Allowed s items
unfolding set_matches
set_matches_iff s [] = (λ _. inl refl, λ _. refl)
set_matches_iff s (x ∷ items) = (λ h. inr ((string_in_slice_iff s (x ∷ items)).0 h), back)
  where
    back : Allowed s (x ∷ items) → string_in_slice s (x ∷ items) ≡ true
    back (inl e) = absurd (cc)
    back (inr l) = (string_in_slice_iff s (x ∷ items)).1 l

count_matches_iff :
    (n : ℤ) (limit : Option ℤ)
    → (count_matches n limit ≡ true) ↔ ((k : ℤ) → limit ≡ some k → k <ℤ n)
unfolding count_matches
count_matches_iff n none = (λ _ k e. absurd (cc), λ _. refl)
count_matches_iff n (some l) = (λ h k e. ground arith, λ h. let p = h l refl in ground arith)

drift_matches_iff :
    (o : MapOrders) (ac : ActionContext) (b : Bool)
    → (drift_matches o ac b ≡ true) ↔ (b ≡ true → detect_scope_drift o ac ≡ true)
unfolding drift_matches
drift_matches_iff o ac true = (λ h _. h, λ h. h refl)
drift_matches_iff o ac false = (λ _ e. absurd (cc), λ _. refl)

record Tests (o : MapOrders) (ac : ActionContext) (r : Rule) : Type 0 where
  org : org_matches ac r ≡ true
  workspace : workspace_matches ac r ≡ true
  agent_name : name_matches ac r.conditions ≡ true
  tool : set_matches ac.tool_name r.conditions.tool_names ≡ true
  tool_server : set_matches ac.tool_server_id r.conditions.tool_server_ids ≡ true
  action_type : set_matches ac.action_type r.conditions.action_types ≡ true
  environment : set_matches ac.environment r.conditions.environments ≡ true
  record_count : count_matches ac.estimated_record_count r.conditions.record_count_gt ≡ true
  drift : drift_matches o ac r.conditions.scope_drift ≡ true

matches_rule→Tests :
    (o : MapOrders) (ac : ActionContext) (r : Rule) → matches_rule o ac r ≡ true → Tests o ac r
unfolding matches_rule conditions_match
matches_rule→Tests o ac r h = record {
  org = ground arith;
  workspace = ground arith;
  agent_name = ground arith;
  tool = ground arith;
  tool_server = ground arith;
  action_type = ground arith;
  environment = ground arith;
  record_count = ground arith;
  drift = ground arith;
}

Tests→matches_rule :
    (o : MapOrders) (ac : ActionContext) (r : Rule) → Tests o ac r → matches_rule o ac r ≡ true
unfolding matches_rule conditions_match
Tests→matches_rule o ac r t = rw (
  t.org, t.workspace, t.agent_name, t.tool, t.tool_server, t.action_type, t.environment,
  t.record_count, t.drift,
)

-- matchesRule accepts exactly the calls that meet every condition of the rule: own org and
-- workspace, the name pattern, the four sets up to case, the record threshold and scope drift.
pub matches_rule_iff :
    (o : MapOrders) (ac : ActionContext) (r : Rule) → (matches_rule o ac r ≡ true) ↔ Matches o ac r
matches_rule_iff o ac r = (read, meet)
  where
    c : Conditions
    c = r.conditions

    read : matches_rule o ac r ≡ true → Matches o ac r
    read h =
        let t = matches_rule→Tests o ac r h in
        record {
          org = (or_text_iff _ _).0 (unfold org_matches in t.org);
          workspace = (or_text_iff _ _).0 (unfold workspace_matches in t.workspace);
          agent_name = (or_empty_iff _ _).0 (unfold name_matches in t.agent_name);
          tool = (set_matches_iff _ _).0 t.tool;
          tool_server = (set_matches_iff _ _).0 t.tool_server;
          action_type = (set_matches_iff _ _).0 t.action_type;
          environment = (set_matches_iff _ _).0 t.environment;
          record_count = (count_matches_iff _ _).0 t.record_count;
          drift = (drift_matches_iff o ac c.scope_drift).0 t.drift;
        }

    meet : Matches o ac r → matches_rule o ac r ≡ true
    meet m = Tests→matches_rule o ac r (record {
      org = unfold org_matches in ((or_text_iff _ _).1 m.org);
      workspace = unfold workspace_matches in ((or_text_iff _ _).1 m.workspace);
      agent_name = unfold name_matches in ((or_empty_iff _ _).1 m.agent_name);
      tool = (set_matches_iff _ _).1 m.tool;
      tool_server = (set_matches_iff _ _).1 m.tool_server;
      action_type = (set_matches_iff _ _).1 m.action_type;
      environment = (set_matches_iff _ _).1 m.environment;
      record_count = (count_matches_iff _ _).1 m.record_count;
      drift = (drift_matches_iff o ac c.scope_drift).1 m.drift;
    })
