-- ===== src/Registry/Scope.antt =====
-- Which rows LookupByNameAndOrg returns.
use eaim.Base.{
  ℕ, List, [], ◌∷◌, Option, some, Option-cases, Bool, Bool-cases, ◌&&◌, ◌||◌, ◌==◌, ==_iff,
  and-elim, ok, ok_injective, ◌≡◌, ◌≢◌, sym, ap, ◌∙◌, subst, In, inl, inr, arith,
}
use eaim.Base.Text.{Text, codes, text_eq, text_eq→eq, text_eq_iff}
use eaim.Registry.Tables.{AgentRow, Tables}
use eaim.Registry.Lookup.{named_row, check_status, lookup_by_name_and_org}

named_row-In :
    (name : Text) (oid : ℕ) (rows : List AgentRow) (row : AgentRow)
    → named_row name oid rows ≡ some row
    → In row rows × (row.name ≡ name) × (row.org_id ≡ oid)
unfolding named_row
named_row-In name oid [] row e = absurd (cc)
named_row-In name oid (r ∷ rows) row e =
    elim (Bool-cases (text_eq r.name name && r.org_id == oid)) [
      | inl h ↦
          let same : some r ≡ some row = rw (named_row, h) at e in
          let r-row : r ≡ row = cc in
          let (i, o) = and-elim (text_eq r.name name) (r.org_id == oid) h in
          (
            inl r-row,
            ap (λ (x : AgentRow). x.name) (sym r-row) ∙ text_eq→eq r.name name i,
            ap (λ (x : AgentRow). x.org_id) (sym r-row) ∙ (==_iff r.org_id oid).0 o,
          )
      | inr h ↦
          let (m, i, o) = named_row-In name oid rows row (rw (named_row, h) at e) in (inr m, i, o)
    ]

check_status-ok :
    (row row' : AgentRow)
    → check_status row ≡ ok row'
    → (row ≡ row') × (row.status ≢ codes "suspended") × (row.status ≢ codes "revoked")
unfolding check_status
check_status-ok row row' e =
    elim (Bool-cases
      (text_eq row.status (codes "suspended") || text_eq row.status (codes "revoked"))) [
        | inl h ↦ let e' = rw (check_status, h) at e in absurd (cc)
        | inr h ↦
            let s = text_eq_iff row.status (codes "suspended") in
            let r = text_eq_iff row.status (codes "revoked") in
            (
              ok_injective row row' (rw (check_status, h) at e),
              λ x. let b = s.1 x in ground (arith, h, b),
              λ x. let b = r.1 x in ground (arith, h, b),
            )
      ]

-- An agent that LookupByNameAndOrg returns is one of the table with that name and in that
-- organisation, and it is neither suspended nor revoked.
pub lookup_by_name_and_org-scope :
    (parse_uuid : Text → Option ℕ) (q : Bool) (t : Tables) (name org_id : Text) (row : AgentRow)
    → lookup_by_name_and_org parse_uuid q t name org_id ≡ ok row
    → In row t.gateway_agents
      × (row.name ≡ name)
      × (parse_uuid org_id ≡ some row.org_id)
      × (row.status ≢ codes "suspended")
      × (row.status ≢ codes "revoked")
unfolding lookup_by_name_and_org
lookup_by_name_and_org-scope parse_uuid q t name org_id row e =
    elim (Option-cases (parse_uuid org_id)) [
      | inl n ↦ let e' = rw (lookup_by_name_and_org, n) at e in absurd (cc)
      | inr (oid, o) ↦ elim (Bool-cases q) [
        | inr f ↦ let e' = rw (lookup_by_name_and_org, o, f) at e in absurd (cc)
        | inl f ↦ elim (Option-cases (named_row name oid t.gateway_agents)) [
          | inl n ↦ let e' = rw (lookup_by_name_and_org, o, f, n) at e in absurd (cc)
          | inr (found, r) ↦
              let (same, s, v) =
                check_status-ok found row (rw (lookup_by_name_and_org, o, f, r) at e) in
              let (m, i, j) = named_row-In name oid t.gateway_agents found r in
              subst
                (λ (x : AgentRow).
                  In x t.gateway_agents
                  × (x.name ≡ name)
                  × (parse_uuid org_id ≡ some x.org_id)
                  × (x.status ≢ codes "suspended")
                  × (x.status ≢ codes "revoked"))
                same (m, i, o ∙ ap some (sym j), s, v)
        ]
      ]
    ]
