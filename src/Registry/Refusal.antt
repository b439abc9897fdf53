-- ===== src/Registry/Refusal.antt =====
-- What the queries of CheckLive find, in terms of the tables.
use eaim.Base.{
  ℕ, List, [], ◌∷◌, some, true, false, Bool-cases, ◌&&◌, ◌==◌, ==_iff, and-elim, ◌≡◌, ◌↔◌, refl,
  sym, ap, ◌∙◌, In, inl, inr, ◌⊎◌, arith,
}
use eaim.Base.Text.{Text, text_eq_iff}
use eaim.Registry.Tables.{AgentRow, KeyRow}
use eaim.Registry.Liveness.{agent_row, token_listed, key_listed}

-- A row that the query reads is one of the table with that ID and organisation.
pub agent_row-In :
    (aid oid : ℕ) (rows : List AgentRow) (row : AgentRow)
    → agent_row aid oid rows ≡ some row
    → In row rows × (row.id ≡ aid) × (row.org_id ≡ oid)
unfolding agent_row
agent_row-In aid oid [] row e = absurd (cc)
agent_row-In aid oid (r ∷ rows) row e = elim (Bool-cases (r.id == aid && r.org_id == oid)) [
  | inl h ↦
      let same : some r ≡ some row = rw (agent_row, h) at e in
      let r-row : r ≡ row = cc in
      let (i, o) = and-elim (r.id == aid) (r.org_id == oid) h in
      (
        inl r-row,
        ap (λ (x : AgentRow). x.id) (sym r-row) ∙ (==_iff r.id aid).0 i,
        ap (λ (x : AgentRow). x.org_id) (sym r-row) ∙ (==_iff r.org_id oid).0 o,
      )
  | inr h ↦ let (m, i, o) = agent_row-In aid oid rows row (rw (agent_row, h) at e) in (inr m, i, o)
]

pub In-agent_row :
    (aid oid : ℕ) (rows : List AgentRow) (row : AgentRow)
    → In row rows
    → row.id ≡ aid
    → row.org_id ≡ oid
    → (found : AgentRow) × (agent_row aid oid rows ≡ some found)
unfolding agent_row
In-agent_row aid oid [] row m i o = absurd m
In-agent_row aid oid (r ∷ rows) row m i o = elim (Bool-cases (r.id == aid && r.org_id == oid)) [
  | inl h ↦ (r, rw h refl)
  | inr h ↦ elim m [
    | inl q ↦ absurd (clash q h)
    | inr n ↦ let (found, e) = In-agent_row aid oid rows row n i o in (found, rw h e)
  ]
]
  where
    clash : r ≡ row → (r.id == aid && r.org_id == oid) ≡ false → ⊥
    clash q h =
        let id_eq = ap (λ (x : AgentRow). x.id) q ∙ i in
        let org_eq = ap (λ (x : AgentRow). x.org_id) q ∙ o in ground (arith, h, id_eq, org_eq)

pub In-token_listed : (jti : Text) (ts : List Text) → (token_listed jti ts ≡ true) ↔ In jti ts
unfolding token_listed
In-token_listed jti [] = (λ h. absurd (cc), λ m. absurd m)
In-token_listed jti (t ∷ ts) = ground (arith, text_eq_iff t jti, In-token_listed jti ts)

-- Some row has the key and is revoked.
abbrev pub RevokedKey : ℕ → List KeyRow → Type 0
RevokedKey key [] = ⊥
RevokedKey key (k ∷ ks) = ((k.id ≡ key) × (k.revoked ≡ true)) ⊎ RevokedKey key ks

pub key_listed-RevokedKey :
    (key : ℕ) (ks : List KeyRow) → (key_listed key ks ≡ true) ↔ RevokedKey key ks
unfolding key_listed
key_listed-RevokedKey key [] = (λ h. absurd (cc), λ m. absurd m)
key_listed-RevokedKey key (k ∷ ks) = ground (arith, ==_iff k.id key, key_listed-RevokedKey key ks)
