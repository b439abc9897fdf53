-- ===== src/Approval/Pin.antt =====
-- What a pinned configuration hash of eami-gateway/internal/approval/router.go identifies.
use eaim.Base.{
  not, ◌&&◌, ◌==◌, and-elim, ==_iff, ℕ, [], ◌∷◌, ◌++◌, some, Bool, true, ◌≡◌, refl, sym, subst, ◌∙◌,
  ap, ◌↔◌,
}
use eaim.Base.Text.{Text, codes, is_empty}
use eaim.Workflow.Connector.{ToolRow}
use eaim.Approval.Types.{Request, Call, static_call, rest_call, provider_call, Backend}
use eaim.Approval.ConfigHash.{config_content, compute_config_hash}
use eaim.Approval.Resume.{
  ResolvedConnectorConfig, fetch_resolved_connector, config_hash, tool_request, rest_row,
  provider_row,
}
use eaim.Approval.Resumption.{Pinned, Destination, to_static, to_rest, to_provider}
use mathlib.Core.List.{append_assoc}

abbrev pub NulFree : Text → Type 0
NulFree [] = Unit
NulFree (c ∷ s) = ¬ (c ≡ 0) × NulFree s

abbrev pub nul_free : Text → Bool
nul_free [] = true
nul_free (c ∷ s) = not (c == 0) && nul_free s

pub nul_free-NulFree : (s : Text) → nul_free s ≡ true → NulFree s
nul_free-NulFree [] h = tt
nul_free-NulFree (c ∷ s) h =
    let (p, q) = and-elim (not (c == 0)) (nul_free s) h in
    (λ e. absurd (cc (p, (==_iff c 0).1 e)), nul_free-NulFree s q)

abbrev head_or : ℕ → Text → ℕ
head_or d [] = d
head_or d (c ∷ s) = c

abbrev tail_of : Text → Text
tail_of [] = []
tail_of (c ∷ s) = s

heads : (c d : ℕ) (s t : Text) → c ∷ s ≡ d ∷ t → c ≡ d
heads c d s t e = ap (head_or 0) e

tails : (c d : ℕ) (s t : Text) → c ∷ s ≡ d ∷ t → s ≡ t
tails c d s t e = ap tail_of e

-- The first NUL ends a field that has none.
first_field : (a b x y : Text) → NulFree a → NulFree b → a ++ 0 ∷ x ≡ b ++ 0 ∷ y → (a ≡ b) × (x ≡ y)
first_field [] [] x y h k e = (refl, tails 0 0 x y e)
first_field [] (d ∷ b) x y h k e = absurd (k.0 (sym (heads 0 d _ _ e)))
first_field (c ∷ a) [] x y h k e = absurd (h.0 (heads c 0 _ _ e))
first_field (c ∷ a) (d ∷ b) x y h k e =
    let (p, q) = first_field a b x y h.1 k.1 (tails c d _ _ e) in (cc (heads c d _ _ e, p), q)

nul_inside : (y r : Text) → ¬ (NulFree (y ++ 0 ∷ r))
nul_inside [] r h = h.0 refl
nul_inside (c ∷ y) r h = nul_inside y r h.1

-- The last NUL begins a field that has none, whatever stands before it.
last_field : (x y r t : Text) → NulFree r → NulFree t → x ++ 0 ∷ r ≡ y ++ 0 ∷ t → (x ≡ y) × (r ≡ t)
last_field [] [] r t h k e = (refl, tails 0 0 r t e)
last_field [] (d ∷ y) r t h k e = absurd (nul_inside y t (subst NulFree (tails 0 d _ _ e) h))
last_field (c ∷ x) [] r t h k e = absurd (nul_inside x r (subst NulFree (sym (tails c 0 _ _ e)) k))
last_field (c ∷ x) (d ∷ y) r t h k e =
    let (p, q) = last_field x y r t h k (tails c d _ _ e) in (cc (heads c d _ _ e, p), q)

last_fields :
    (x y a b r t : Text)
    → NulFree a
    → NulFree b
    → NulFree r
    → NulFree t
    → x ++ 0 ∷ (a ++ 0 ∷ r) ≡ y ++ 0 ∷ (b ++ 0 ∷ t)
    → (x ≡ y) × ((a ≡ b) × (r ≡ t))
last_fields x y a b r t ha hb hr ht e =
    let (p, q) =
      last_field (x ++ 0 ∷ a) (y ++ 0 ∷ b) r t hr ht
        (append_assoc x (0 ∷ a) (0 ∷ r) ∙ e ∙ sym (append_assoc y (0 ∷ b) (0 ∷ t))) in
    let (i, j) = last_field x y a b ha hb p in (i, (j, q))

-- The fields that are text of the database or JSON hold no NUL; the sealed credentials may.
pub record NoNul (c : ResolvedConnectorConfig) : Type 0 where
  pub tool_type : NulFree c.tool_type
  pub base : NulFree c.base_url_or_provider
  pub paths : NulFree c.action_paths
  pub rules : NulFree c.redaction_rules

pub record SameConfig (c d : ResolvedConnectorConfig) : Type 0 where
  pub tool_type : c.tool_type ≡ d.tool_type
  pub base : c.base_url_or_provider ≡ d.base_url_or_provider
  pub credentials : c.credentials_encrypted ≡ d.credentials_encrypted
  pub paths : c.action_paths ≡ d.action_paths
  pub rules : c.redaction_rules ≡ d.redaction_rules

abbrev pub content : ResolvedConnectorConfig → Text
unfolding config_content
content c =
    config_content c.tool_type c.base_url_or_provider c.credentials_encrypted c.action_paths
      c.redaction_rules

pub content-SameConfig :
    (c d : ResolvedConnectorConfig) → NoNul c → NoNul d → content c ≡ content d → SameConfig c d
unfolding config_content
content-SameConfig c d h k e =
    let (p, e₁) = first_field _ _ _ _ h.tool_type k.tool_type e in
    let (q, e₂) = first_field _ _ _ _ h.base k.base e₁ in
    let (r, (s, t)) = last_fields _ _ _ _ _ _ h.paths k.paths h.rules k.rules e₂ in
    record { tool_type = p; base = q; credentials = r; paths = s; rules = t }

module _ {W : Type 0} (b : Backend W) where
  -- Two connectors without a NUL in their type, base, action paths and redaction rules, between
  -- whose contents SHA-256 has no collision, have the same configuration hash exactly where these
  -- four fields and their credentials are the same.
  pub config_hash_iff :
      (c d : ResolvedConnectorConfig)
      → NoNul c
      → NoNul d
      → (b.sha256_hex (content c) ≡ b.sha256_hex (content d) → content c ≡ content d)
      → (config_hash b c ≡ config_hash b d) ↔ SameConfig c d
  unfolding config_hash compute_config_hash config_content
  config_hash_iff c d h k free = (
    λ e. content-SameConfig c d h k (free e),
    λ s. ap b.sha256_hex (cc (s.tool_type, s.base, s.credentials, s.paths, s.rules)),
  )

  -- A call goes where a connector of configuration `c` leads, or through the static proxy where the
  -- request names no connector.
  unfoldable pub SentTo : ResolvedConnectorConfig → Request → Call → Type 0
  SentTo c req (static_call t) = (is_empty req.resolved_tool_id ≡ true) × (t ≡ tool_request req)
  SentTo c req (rest_call row t) =
      (c.tool_type ≡ codes "rest_api")
      × (row.id ≡ req.resolved_tool_id)
      × (row.base_url ≡ some c.base_url_or_provider)
      × (row.credentials_encrypted ≡ c.credentials_encrypted)
      × (row.action_paths ≡ c.action_paths)
      × (t ≡ tool_request req)
  SentTo c req (provider_call row action params) =
      (c.tool_type ≡ codes "ai_provider")
      × (row.id ≡ req.resolved_tool_id)
      × (row.provider ≡ c.base_url_or_provider)
      × (row.credentials_encrypted ≡ c.credentials_encrypted)
      × (row.redaction_rules ≡ c.redaction_rules)
      × (action ≡ req.action)
      × (params ≡ req.parameters)

  pub Destination-SentTo :
      (w : W) (req : Request) (c : ResolvedConnectorConfig)
      → ((row : ToolRow) → Pinned b w req row → SameConfig (fetch_resolved_connector b row) c)
      → (call : Call) → Destination b w req call
      → SentTo c req call
  unfolding SentTo rest_row provider_row fetch_resolved_connector
  Destination-SentTo w req c same _ (to_static e) = (e, refl)
  Destination-SentTo w req c same _ (to_rest row p t) =
      let k = same row p in
      (sym k.tool_type ∙ t, refl, ap some k.base, k.credentials, k.paths, refl)
  Destination-SentTo w req c same _ (to_provider row p t) =
      let k = same row p in (sym k.tool_type ∙ t, refl, k.base, k.credentials, k.rules, refl, refl)
