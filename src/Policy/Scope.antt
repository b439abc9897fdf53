-- ===== src/Policy/Scope.antt =====
-- eami-policy/structural.go: scope drift. Go ranges over the map toolCategories in an order of its
-- own choice, so the table is an argument of what ranges over it.
use eaim.Base.{
  List, [], ◌∷◌, ◌++◌, Option, none, some, Bool, true, false, not, ◌&&◌, ◌||◌, if◌then◌else◌,
}
use eaim.Base.Text.{Text, codes, text_eq, is_empty, has_prefix, contains, to_lower, before}
use eaim.Policy.Types.{ActionContext}

abbrev pub Categories : Type 0
Categories = List (Text × List Text)

abbrev pub tool_categories : Categories
tool_categories =
    (
      codes "file",
      codes "read_file"
          ∷ codes "write_file"
          ∷ codes "delete_file"
          ∷ codes "list_files"
          ∷ codes "create_file"
          ∷ [],
    )
    ∷ (
      codes "code",
      codes "run_code"
          ∷ codes "execute_code"
          ∷ codes "bash"
          ∷ codes "shell"
          ∷ codes "python"
          ∷ codes "javascript"
          ∷ [],
    )
    ∷ (
      codes "web",
      codes "fetch_url"
          ∷ codes "browse"
          ∷ codes "search_web"
          ∷ codes "http_get"
          ∷ codes "http_post"
          ∷ [],
    )
    ∷ (
      codes "email",
      codes "send_email" ∷ codes "read_email" ∷ codes "draft_email" ∷ codes "reply_email" ∷ [],
    )
    ∷ (
      codes "calendar",
      codes "create_event" ∷ codes "delete_event" ∷ codes "list_events" ∷ codes "update_event" ∷ [],
    )
    ∷ (
      codes "database",
      codes "query_db"
          ∷ codes "insert_db"
          ∷ codes "delete_records"
          ∷ codes "update_records"
          ∷ codes "sql"
          ∷ [],
    )
    ∷ (codes "slack", codes "send_message" ∷ codes "read_channel" ∷ codes "create_channel" ∷ [])
    ∷ (
      codes "github",
      codes "create_pr" ∷ codes "merge_pr" ∷ codes "push_commit" ∷ codes "create_issue" ∷ [],
    )
    ∷ []

-- The categories that are keys of the table and stand in the text.
unfoldable pub named_categories : Categories → Text → List Text
named_categories [] s = []
named_categories ((cat, _) ∷ table) s =
    let rest = named_categories table s in if contains s cat then cat ∷ rest else rest

unfoldable pub alias_categories : Text → List Text
alias_categories s =
    (if contains s (codes "coding") || contains s (codes "developer")
      then codes "code" ∷ codes "github" ∷ []
      else [])
    ++ (if contains s (codes "communication") || contains s (codes "messaging")
        then codes "email" ∷ codes "slack" ∷ []
        else [])
    ++ (if contains s (codes "data") || contains s (codes "analyst")
        then codes "database" ∷ []
        else [])

-- The keys of the map `implied`; a repeated key stands for one entry.
unfoldable pub scope_implies_categories : Categories → Text → List Text
unfolding named_categories alias_categories
scope_implies_categories table scope =
    named_categories table (to_lower scope) ++ alias_categories (to_lower scope)

unfoldable pub mentions_any : Text → List Text → Bool
mentions_any tool [] = false
mentions_any tool (t ∷ ts) = (text_eq tool t || contains tool t) || mentions_any tool ts

-- The first entry for which the test holds.
unfoldable pub first_category : (Text → List Text → Bool) → Categories → Option Text
first_category p [] = none
first_category p ((cat, ts) ∷ table) = if p cat ts then some cat else first_category p table

unfoldable pub key_or : Option Text → Text → Text
key_or none other = other
key_or (some cat) other = cat

-- Each `range` takes an order of its own: one for the tools, one for the prefixes.
unfoldable pub tool_category : Categories → Categories → Text → Text
unfolding mentions_any first_category key_or
tool_category by_tool by_prefix name =
    key_or (first_category (λ _ ts. mentions_any (to_lower name) ts) by_tool)
      (key_or (first_category (λ cat _. has_prefix cat (to_lower name)) by_prefix) [])

unfoldable pub verb_scope_drift : Text → Text → Bool
verb_scope_drift scope_verb action_type =
    let action = to_lower action_type in
    if text_eq scope_verb (codes "read")
    then not (text_eq action (codes "read"))
    else if text_eq scope_verb (codes "write")
    then not (text_eq action (codes "read"))
      && not (text_eq action (codes "write"))
      && not (text_eq action (codes "create"))
    else false

unfoldable pub in_categories : Text → List Text → Bool
in_categories cat [] = false
in_categories cat (c ∷ cs) = text_eq c cat || in_categories cat cs

unfoldable pub is_nil : List Text → Bool
is_nil [] = true
is_nil (c ∷ cs) = false

-- The order in which each of the three loops over the table runs.
pub record MapOrders : Type 0 where
  pub by_tool : Categories
  pub by_prefix : Categories
  pub by_scope : Categories

unfoldable pub category_drift : MapOrders → Text → Text → Bool
unfolding in_categories is_nil
category_drift o scope tool =
    let cat = tool_category o.by_tool o.by_prefix tool in
    let implied = scope_implies_categories o.by_scope scope in
    if is_empty cat
    then false
    else if is_nil implied
    then false
    else not (in_categories cat implied)

-- The verb of a scope such as "read:crm": the text before the first colon, unless that is empty.
unfoldable pub scope_verb : Text → Option Text
scope_verb scope = elim (before b':' scope) [
  | none ↦ none
  | some [] ↦ none
  | some (c ∷ v) ↦ some (to_lower (c ∷ v))
]

unfoldable pub declared_scope : ActionContext → Text
declared_scope ac = if is_empty ac.scope then ac.agent_scope else ac.scope

unfoldable pub detect_scope_drift : MapOrders → ActionContext → Bool
unfolding declared_scope scope_verb
detect_scope_drift o ac =
    let scope = declared_scope ac in
    if is_empty scope then false else elim (scope_verb scope) [
      | some verb ↦ verb_scope_drift verb ac.action_type
      | none ↦ category_drift o scope ac.tool_name
    ]
