-- ===== src/Approval/Slack.antt =====
-- The message to the approvers: notifySlack and escapeSlackText of
-- eami-gateway/internal/approval/router.go. The request that carries it is left out.
use eaim.Base.{
  ℕ, zero, suc, [], ◌∷◌, ◌++◌, Bool, true, false, ◌==◌, ==_iff, not, ◌&&◌, and-elim, if◌then◌else◌,
  ◌≡◌, refl, sym, subst, ap, ◌∙◌, inl, inr, Bool-cases, All, All-append,
}
use eaim.Base.Text.{Text, codes, has_prefix}
use eaim.Approval.Types.{Request}

-- strings.ReplaceAll for an old text of one byte.
unfoldable pub replace_code : ℕ → Text → Text → Text
replace_code c new [] = []
replace_code c new (d ∷ s) =
    let rest = replace_code c new s in if d == c then new ++ rest else d ∷ rest

unfoldable pub escape_slack_text : Text → Text
unfolding replace_code
escape_slack_text s =
    replace_code b'>' (codes "&gt;")
      (replace_code b'<' (codes "&lt;") (replace_code b'&' (codes "&amp;") s))

unfoldable pub slack_text : Text → Text → Request → Text
unfolding escape_slack_text
slack_text ui_base_url approval_id req =
    codes "*EAMI Gateway — Approval Required*\n*Agent:* "
    ++ escape_slack_text req.agent_name
    ++ codes "\n*Tool:* "
    ++ escape_slack_text req.tool
    ++ codes "\n*Action:* "
    ++ escape_slack_text req.action
    ++ codes "\n*Session:* "
    ++ escape_slack_text req.session_id
    ++ codes "\n<"
    ++ ui_base_url
    ++ codes "/approvals/"
    ++ approval_id
    ++ codes "|✅ Approve> | <"
    ++ ui_base_url
    ++ codes "/approvals/"
    ++ approval_id
    ++ codes "?action=deny|❌ Deny>"

-- How a reader of the message decodes it, with the number of characters that still belong to an
-- entity.
abbrev pub unescape : ℕ → Text → Text
unescape n [] = []
unescape (suc n) (c ∷ s) = unescape n s
unescape zero (c ∷ s) =
    let plain = unescape 0 s in
    let amp = unescape 4 s in
    let angle = unescape 3 s in
    if c == b'&'
    then (if has_prefix (codes "amp;") s
        then b'&' ∷ amp
        else if has_prefix (codes "lt;") s
        then b'<' ∷ angle
        else if has_prefix (codes "gt;") s
        then b'>' ∷ angle
        else c ∷ plain)
    else c ∷ plain

-- No character that begins or ends a link.
abbrev pub IsPlain : ℕ → Type 0
IsPlain c = ¬ (c ≡ b'<') × ¬ (c ≡ b'>')

escape_code : ℕ → Text
escape_code c =
    if c == b'&'
    then codes "&amp;"
    else if c == b'<'
    then codes "&lt;"
    else if c == b'>'
    then codes "&gt;"
    else c ∷ []

escape_slack_text-cons :
    (c : ℕ) (s : Text) → escape_slack_text (c ∷ s) ≡ escape_code c ++ escape_slack_text s
unfolding escape_slack_text escape_code replace_code
escape_slack_text-cons c s = elim (Bool-cases (c == b'&')) [
  | inl y ↦ rw y refl
  | inr n ↦ elim (Bool-cases (c == b'<')) [
    | inl y ↦ rw (n, y) refl
    | inr m ↦ elim (Bool-cases (c == b'>')) [
      | inl y ↦ rw (n, m, y) refl
      | inr k ↦ rw (n, m, k) refl
    ]
  ]
]

unescape-other : (c : ℕ) (s : Text) → (c == b'&') ≡ false → unescape 0 (c ∷ s) ≡ c ∷ unescape 0 s
unescape-other c s n = rw n refl

unescape-escape_code : (c : ℕ) (s : Text) → unescape 0 (escape_code c ++ s) ≡ c ∷ unescape 0 s
unfolding escape_code has_prefix
unescape-escape_code c s = elim (Bool-cases (c == b'&')) [
  | inl y ↦ rw y (ap (λ d. d ∷ unescape 0 s) (sym ((==_iff c b'&').0 y)))
  | inr n ↦ elim (Bool-cases (c == b'<')) [
    | inl y ↦ rw (n, y) (ap (λ d. d ∷ unescape 0 s) (sym ((==_iff c b'<').0 y)))
    | inr m ↦ elim (Bool-cases (c == b'>')) [
      | inl y ↦ rw (n, m, y) (ap (λ d. d ∷ unescape 0 s) (sym ((==_iff c b'>').0 y)))
      | inr k ↦ rw (n, m, k) (unescape-other c s n)
    ]
  ]
]

escape_code-IsPlain : (c : ℕ) → All IsPlain (escape_code c)
unfolding escape_code
escape_code-IsPlain c = elim (Bool-cases (c == b'&')) [
  | inl y ↦ rw y (entity (codes "&amp;") refl)
  | inr n ↦ elim (Bool-cases (c == b'<')) [
    | inl y ↦ rw (n, y) (entity (codes "&lt;") refl)
    | inr m ↦ elim (Bool-cases (c == b'>')) [
      | inl y ↦ rw (n, m, y) (entity (codes "&gt;") refl)
      | inr k ↦ rw (n, m, k) ((differs c b'<' m, differs c b'>' k), tt)
    ]
  ]
]
  where
    differs : (c d : ℕ) → (c == d) ≡ false → ¬ (c ≡ d)
    differs c d h e = absurd (cc (h, (==_iff c d).1 e))

    plain : Text → Bool
    plain [] = true
    plain (c ∷ s) = not (c == b'<') && (not (c == b'>') && plain s)

    entity : (t : Text) → plain t ≡ true → All IsPlain t
    entity [] h = tt
    entity (c ∷ s) h =
        let (p, q) = and-elim (not (c == b'<')) (not (c == b'>') && plain s) h in
        let (r, t) = and-elim (not (c == b'>')) (plain s) q in
        (
          (λ e. absurd (cc (p, (==_iff c b'<').1 e)), λ e. absurd (cc (r, (==_iff c b'>').1 e))),
          entity s t,
        )

-- Whatever text an agent sends, its escaped form holds no character that begins or ends a link, and
-- a reader who decodes the entities has the text back.
pub unescape-escape_slack_text :
    (s : Text) → All IsPlain (escape_slack_text s) × (unescape 0 (escape_slack_text s) ≡ s)
unfolding escape_slack_text replace_code
unescape-escape_slack_text [] = (tt, refl)
unescape-escape_slack_text (c ∷ s) =
    let (p, q) = unescape-escape_slack_text s in
    (
      subst (All IsPlain) (sym (escape_slack_text-cons c s))
          (All-append IsPlain (escape_code c) (escape_slack_text s) (escape_code-IsPlain c) p),
      ap (unescape 0) (escape_slack_text-cons c s)
          ∙ unescape-escape_code c (escape_slack_text s)
          ∙ ap (λ t. c ∷ t) q,
    )
