-- ===== src/Registry/Lookup.antt =====
-- LookupByNameAndOrg and checkStatus of eami-gateway/internal/registry/registry.go. The organisation
-- is compared as the UUID that its text stands for; a text that is none makes the query fail.
use eaim.Base.{
  ℕ, List, [], ◌∷◌, Option, none, some, Bool, not, ◌&&◌, ◌||◌, ◌==◌, if◌then◌else◌, Result, ok, err,
}
use eaim.Base.Text.{Text, codes, text_eq}
use eaim.Registry.Tables.{AgentRow, Tables}

pub data LookupError : Type 0 where
  agent_not_found : LookupError
  agent_suspended : LookupError
  lookup_query : LookupError

-- The row for LIMIT 1, which the unique key on organisation and name makes the only one.
unfoldable pub named_row : Text → ℕ → List AgentRow → Option AgentRow
named_row name oid [] = none
named_row name oid (row ∷ rows) =
    if text_eq row.name name && row.org_id == oid then some row else named_row name oid rows

unfoldable pub check_status : AgentRow → Result LookupError AgentRow
unfolding text_eq
check_status row =
    if text_eq row.status (codes "suspended") || text_eq row.status (codes "revoked")
    then err agent_suspended
    else ok row

module _ (parse_uuid : Text → Option ℕ) where
  unfoldable pub lookup_by_name_and_org : Bool → Tables → Text → Text → Result LookupError AgentRow
  unfolding named_row check_status
  lookup_by_name_and_org query_ok t name org_id = elim (parse_uuid org_id) [
    | none ↦ err lookup_query
    | some oid ↦
        if not query_ok then err lookup_query else elim (named_row name oid t.gateway_agents) [
          | none ↦ err agent_not_found
          | some row ↦ check_status row
        ]
  ]
