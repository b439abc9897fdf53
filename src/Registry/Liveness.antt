-- ===== src/Registry/Liveness.antt =====
-- CheckLive of eami-gateway/internal/registry/liveness.go. uuid.Parse is a parameter, and whether the
-- query succeeds an argument.
use eaim.Base.{
  ℕ, List, [], ◌∷◌, Option, none, some, Bool, false, not, ◌&&◌, ◌||◌, ◌==◌, if◌then◌else◌, Result,
  ok, err,
}
use eaim.Base.Text.{Text, codes, text_eq, is_empty}
use eaim.Registry.Tables.{AgentRow, KeyRow, Tables}

pub data Liveness : Type 0 where
  live : Liveness
  agent_not_active : Liveness
  token_revoked : Liveness

pub data CheckError : Type 0 where
  liveness_check : CheckError

-- The row that the query reads, if any.
unfoldable pub agent_row : ℕ → ℕ → List AgentRow → Option AgentRow
agent_row aid oid [] = none
agent_row aid oid (row ∷ rows) =
    if row.id == aid && row.org_id == oid then some row else agent_row aid oid rows

unfoldable pub token_listed : Text → List Text → Bool
token_listed jti [] = false
token_listed jti (t ∷ ts) = text_eq t jti || token_listed jti ts

unfoldable pub key_listed : ℕ → List KeyRow → Bool
key_listed key [] = false
key_listed key (k ∷ ks) = (k.id == key && k.revoked) || key_listed key ks

-- A NULL key equals no key.
unfoldable pub key_revoked : Option ℕ → List KeyRow → Bool
unfolding key_listed
key_revoked none ks = false
key_revoked (some key) ks = key_listed key ks

-- The second column of the query.
unfoldable pub revoked_column : Text → Option ℕ → Tables → Bool
unfolding token_listed key_revoked is_empty
revoked_column jti key t =
    (not (is_empty jti) && token_listed jti t.revoked_ai_tokens) || key_revoked key t.api_keys

unfoldable pub judge_row : Bool → AgentRow → Liveness
unfolding text_eq
judge_row revoked row =
    if not (text_eq row.status (codes "active"))
    then agent_not_active
    else if revoked
    then token_revoked
    else live

unfoldable pub query_live : Bool → Tables → ℕ → ℕ → Text → Option ℕ → Result CheckError Liveness
unfolding agent_row judge_row revoked_column
query_live query_ok t aid oid jti key =
    if not query_ok then err liveness_check else elim (agent_row aid oid t.gateway_agents) [
      | none ↦ ok agent_not_active
      | some row ↦ ok (judge_row (revoked_column jti key t) row)
    ]

module _ (parse_uuid : Text → Option ℕ) where
  -- The key ID: `none` where it is malformed, and NULL where the token carries none.
  unfoldable pub key_param : Text → Option (Option ℕ)
  unfolding is_empty
  key_param key_id =
      if is_empty key_id
      then some none
      else elim (parse_uuid key_id) [ none ↦ none | some k ↦ some (some k) ]

  unfoldable pub check_live : Bool → Tables → Text → Text → Text → Text → Result CheckError Liveness
  unfolding key_param query_live
  check_live query_ok t agent_id org_id jti key_id = elim (parse_uuid agent_id) [
    | none ↦ ok agent_not_active
    | some aid ↦ elim (parse_uuid org_id) [
      | none ↦ ok agent_not_active
      | some oid ↦ elim (key_param key_id) [
        | none ↦ ok token_revoked
        | some key ↦ query_live query_ok t aid oid jti key
      ]
    ]
  ]
