-- ===== src/Registry/Examples.antt =====
-- The registry theorems at one agent, a revoked token and a key.
use eaim.Base.{ℕ, [], ◌∷◌, Option, none, some, true, false, ok, ◌≡◌, ◌↔◌, refl, sym, ◌∙◌, inl, inr}
use eaim.Base.Text.{Text, codes, text_eq}
use eaim.Registry.Tables.{AgentRow, Tables}
use eaim.Registry.Liveness.{live, check_live}
use eaim.Registry.Lookup.{named_row, check_status, lookup_by_name_and_org}
use eaim.Registry.MayCall.{MayCall, PrimaryKey, check_live_iff}

abbrev bot : AgentRow
bot = record {
  id = 98;
  org_id = 111;
  name = codes "bot";
  scope = [];
  risk_tier = codes "low";
  status = codes "active";
  workspace_id = [];
}

abbrev tables : Tables
tables = record {
  gateway_agents = bot ∷ [];
  revoked_ai_tokens = codes "t0" ∷ [];
  api_keys = record { id = 107; revoked = false } ∷ [];
}

abbrev first_code : Text → Option ℕ
first_code [] = none
first_code (c ∷ t) = some c

tables-PrimaryKey : PrimaryKey tables.gateway_agents
tables-PrimaryKey r r' (inl e) (inl f) q = sym e ∙ f
tables-PrimaryKey r r' (inr m) n q = absurd m
tables-PrimaryKey r r' (inl e) (inr m) q = absurd m

check_live_iff_example :
    (check_live first_code true tables (codes "b") (codes "o") (codes "t1") (codes "k") ≡ ok live)
    ↔ ((true ≡ true) × MayCall first_code tables (codes "b") (codes "o") (codes "t1") (codes "k"))
check_live_iff_example =
    check_live_iff first_code true tables (codes "b") (codes "o") (codes "t1") (codes "k")
      tables-PrimaryKey

bot-found : lookup_by_name_and_org first_code true tables (codes "bot") (codes "o") ≡ ok bot
unfolding lookup_by_name_and_org named_row check_status text_eq
bot-found = refl
