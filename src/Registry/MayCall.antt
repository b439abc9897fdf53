-- ===== src/Registry/MayCall.antt =====
-- The agents and tokens that CheckLive lets call.
use eaim.Base.{
  ℕ, List, [], ◌∷◌, Option, none, some, Option-cases, Bool, true, false, Bool-cases, not, ◌&&◌,
  ◌||◌, ok, ok_injective, ◌≡◌, ◌↔◌, refl, sym, ap, ◌∙◌, subst, In, inl, inr, ◌⊎◌, arith,
}
use eaim.Base.Text.{Text, codes, text_eq, text_eq_iff, is_empty}
use eaim.Registry.Tables.{AgentRow, Tables}
use eaim.Registry.Liveness.{
  live, agent_row, token_listed, key_listed, key_revoked, revoked_column, judge_row, query_live,
  key_param, check_live,
}
use eaim.Registry.Refusal.{
  agent_row-In, In-agent_row, In-token_listed, RevokedKey, key_listed-RevokedKey,
}

-- The token has no ID or is not revoked.
abbrev pub TokenGood : Text → Tables → Type 0
TokenGood jti t = (jti ≡ []) ⊎ (In jti t.revoked_ai_tokens → ⊥)

unlisted-TokenGood :
    (jti : Text) (t : Tables)
    → ((not (is_empty jti) && token_listed jti t.revoked_ai_tokens) ≡ false) ↔ TokenGood jti t
unfolding is_empty
unlisted-TokenGood [] t = (λ h. inl refl, λ h. refl)
unlisted-TokenGood (c ∷ s) t =
    let listed = In-token_listed (c ∷ s) t.revoked_ai_tokens in
    (
      λ h. inr (λ m. let h' = listed.1 m in absurd (cc)),
      λ g. elim g [
        | inl e ↦ absurd (cc)
        | inr n ↦ elim (Bool-cases (token_listed (c ∷ s) t.revoked_ai_tokens)) [
          | inl l ↦ absurd (n (listed.0 l))
          | inr l ↦ l
        ]
      ],
    )

judge_row-live :
    (revoked : Bool) (row : AgentRow)
    → (judge_row revoked row ≡ live) ↔ ((row.status ≡ codes "active") × (revoked ≡ false))
unfolding judge_row
judge_row-live revoked row = elim (Bool-cases (text_eq row.status (codes "active"))) [
  | inl a ↦
      let active = (text_eq_iff row.status (codes "active")).0 a in
      elim (Bool-cases revoked) [
        | inl r ↦ (λ e. let e' = rw (judge_row, a, r) at e in absurd (cc), λ p. absurd (cc))
        | inr r ↦ (λ e. (active, r), λ p. rw (judge_row, a, r) refl)
      ]
  | inr a ↦
      let not_active = (text_eq_iff row.status (codes "active")).1 in
      (
        λ e. let e' = rw (judge_row, a) at e in absurd (cc),
        λ p. let b = not_active p.0 in absurd (cc),
      )
]

-- There is no key, or it is one that is not revoked.
abbrev pub KeyGood : (Text → Option ℕ) → Text → Tables → Type 0
KeyGood parse_uuid key_id t =
    (key_id ≡ []) ⊎ ((key : ℕ) × (parse_uuid key_id ≡ some key) × (RevokedKey key t.api_keys → ⊥))

some_injective : {A : Type 0} (a b : A) → some a ≡ some b → a ≡ b
some_injective a b e = cc

key_param-KeyGood :
    (parse_uuid : Text → Option ℕ) (key_id : Text) (t : Tables) (key : Option ℕ)
    → key_param parse_uuid key_id ≡ some key
    → key_revoked key t.api_keys ≡ false
    → KeyGood parse_uuid key_id t
unfolding key_param is_empty key_revoked
key_param-KeyGood parse_uuid [] t key e r = inl refl
key_param-KeyGood parse_uuid (c ∷ s) t key e r = elim (Option-cases (parse_uuid (c ∷ s))) [
  | inl p ↦ let e' = rw (key_param, p) at e in absurd (cc)
  | inr (k, p) ↦
      let same = some_injective (some k) key (rw (key_param, p) at e) in
      let unlisted : key_listed k t.api_keys ≡ false =
        subst (λ x. key_revoked x t.api_keys ≡ false) (sym same) r in
      inr (k, p, λ m. let l = (key_listed-RevokedKey k t.api_keys).1 m in absurd (cc))
]

KeyGood-key_param :
    (parse_uuid : Text → Option ℕ) (key_id : Text) (t : Tables)
    → KeyGood parse_uuid key_id t
    → (key : Option ℕ) × (key_param parse_uuid key_id ≡ some key)
      × (key_revoked key t.api_keys ≡ false)
unfolding key_param is_empty key_revoked
KeyGood-key_param parse_uuid [] t g = (none, refl, refl)
KeyGood-key_param parse_uuid (c ∷ s) t (inl e) = absurd (cc)
KeyGood-key_param parse_uuid (c ∷ s) t (inr (k, p, n)) = (some k, rw (key_param, p) refl, unlisted)
  where
    unlisted : key_listed k t.api_keys ≡ false
    unlisted = elim (Bool-cases (key_listed k t.api_keys)) [
      | inl l ↦ absurd (n ((key_listed-RevokedKey k t.api_keys).0 l))
      | inr l ↦ l
    ]

-- The organisation's agent is active, its token is good, and so is the API key of the token, if any.
pub record MayCall (parse_uuid : Text → Option ℕ) (t : Tables) (agent_id org_id jti key_id : Text)
    : Type 0 where
  pub aid : ℕ
  pub oid : ℕ
  pub row : AgentRow
  pub agent : parse_uuid agent_id ≡ some aid
  pub org : parse_uuid org_id ≡ some oid
  pub present : In row t.gateway_agents
  pub same_id : row.id ≡ aid
  pub same_org : row.org_id ≡ oid
  pub active : row.status ≡ codes "active"
  pub token_good : TokenGood jti t
  pub key_good : KeyGood parse_uuid key_id t

or_false : (a b : Bool) → (a || b) ≡ false → (a ≡ false) × (b ≡ false)
or_false a b h = ground arith

query_live-ok :
    (q : Bool) (t : Tables) (aid oid : ℕ) (jti : Text) (key : Option ℕ)
    → query_live q t aid oid jti key ≡ ok live
    → (q ≡ true)
      × (row : AgentRow) × (agent_row aid oid t.gateway_agents ≡ some row)
      × (row.status ≡ codes "active")
      × TokenGood jti t
      × (key_revoked key t.api_keys ≡ false)
unfolding query_live revoked_column
query_live-ok q t aid oid jti key e = elim (Bool-cases q) [
  | inr f ↦ let e' = rw (query_live, f) at e in absurd (cc)
  | inl f ↦ elim (Option-cases (agent_row aid oid t.gateway_agents)) [
    | inl n ↦ let e' = rw (query_live, f, n) at e in absurd (cc)
    | inr (row, r) ↦
        let judged = ok_injective _ _ (rw (query_live, f, r) at e) in
        let (a, v) = (judge_row-live (revoked_column jti key t) row).0 judged in
        let (tok, k) = or_false _ (key_revoked key t.api_keys) v in
        (f, row, r, a, (unlisted-TokenGood jti t).0 tok, k)
  ]
]

check_live-MayCall :
    (parse_uuid : Text → Option ℕ) (q : Bool) (t : Tables) (agent_id org_id jti key_id : Text)
    → check_live parse_uuid q t agent_id org_id jti key_id ≡ ok live
    → (q ≡ true) × MayCall parse_uuid t agent_id org_id jti key_id
unfolding check_live
check_live-MayCall parse_uuid q t agent_id org_id jti key_id e =
    elim (Option-cases (parse_uuid agent_id)) [
      | inl n ↦ let e' = rw (check_live, n) at e in absurd (cc)
      | inr (aid, a) ↦ elim (Option-cases (parse_uuid org_id)) [
        | inl n ↦ let e' = rw (check_live, a, n) at e in absurd (cc)
        | inr (oid, o) ↦ elim (Option-cases (key_param parse_uuid key_id)) [
          | inl n ↦ let e' = rw (check_live, a, o, n) at e in absurd (cc)
          | inr (key, k) ↦
              let (succeeds, row, r, active, tok, unrevoked) =
                query_live-ok q t aid oid jti key (rw (check_live, a, o, k) at e) in
              let (m, i, j) = agent_row-In aid oid t.gateway_agents row r in
              (
                succeeds,
                record {
                  aid = aid;
                  oid = oid;
                  row = row;
                  agent = a;
                  org = o;
                  present = m;
                  same_id = i;
                  same_org = j;
                  active = active;
                  token_good = tok;
                  key_good = key_param-KeyGood parse_uuid key_id t key k unrevoked;
                },
              )
        ]
      ]
    ]

-- The ID is the primary key of the table.
abbrev pub PrimaryKey : List AgentRow → Type 0
PrimaryKey rows = (r r' : AgentRow) → In r rows → In r' rows → r.id ≡ r'.id → r ≡ r'

MayCall-check_live :
    (parse_uuid : Text → Option ℕ) (t : Tables) (agent_id org_id jti key_id : Text)
    → PrimaryKey t.gateway_agents
    → MayCall parse_uuid t agent_id org_id jti key_id
    → check_live parse_uuid true t agent_id org_id jti key_id ≡ ok live
unfolding check_live query_live revoked_column
MayCall-check_live parse_uuid t agent_id org_id jti key_id p c =
    let (found, f) =
      In-agent_row c.aid c.oid t.gateway_agents c.row c.present c.same_id c.same_org in
    let (m, i, o) = agent_row-In c.aid c.oid t.gateway_agents found f in
    let same = p c.row found c.present m (c.same_id ∙ sym i) in
    let (key, k, unrevoked) = KeyGood-key_param parse_uuid key_id t c.key_good in
    let unlisted = (unlisted-TokenGood jti t).1 c.token_good in
    let column : revoked_column jti key t ≡ false = rw (revoked_column, unlisted) unrevoked in
    let judged =
      (judge_row-live (revoked_column jti key t) found).1
        (ap (λ (r : AgentRow). r.status) (sym same) ∙ c.active, column) in
    rw (check_live, c.agent, c.org, k, query_live, f) (ap ok judged)

-- CheckLive reports an agent as live exactly where the query succeeds, the agent is an active one of
-- the organisation, its token has no ID or is not revoked, and its API key, if the token names
-- one, is not revoked. It is assumed that the IDs of the agents are unique.
pub check_live_iff :
    (parse_uuid : Text → Option ℕ) (q : Bool) (t : Tables) (agent_id org_id jti key_id : Text)
    → PrimaryKey t.gateway_agents
    → (check_live parse_uuid q t agent_id org_id jti key_id ≡ ok live)
      ↔ ((q ≡ true) × MayCall parse_uuid t agent_id org_id jti key_id)
check_live_iff parse_uuid q t agent_id org_id jti key_id p = (
  check_live-MayCall parse_uuid q t agent_id org_id jti key_id,
  λ (f, c).
      subst (λ x. check_live parse_uuid x t agent_id org_id jti key_id ≡ ok live) (sym f)
        (MayCall-check_live parse_uuid t agent_id org_id jti key_id p c),
)
