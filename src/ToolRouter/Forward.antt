-- ===== src/ToolRouter/Forward.antt =====
-- Forward of eami-gateway/internal/toolrouter/router.go. Decryption, the decoding of JSON and the check
-- of a URL are parameters, and so is client.Do of net/http, as a whole: the router sets no
-- CheckRedirect, so that Do follows redirects, to other URLs too, and returns the last response.
use eaim.Base.{
  ℕ, List, [], ◌∷◌, ◌++◌, Option, none, some, Bool, ◌&&◌, not, ◌==◌, leb, ◌-◌, if◌then◌else◌,
  Result, ok, err, ◌>>=◌, map,
}
use eaim.Base.Text.{Text, codes, text_eq, is_empty}
use eaim.Approval.Types.{ToolRequest, ToolResponse}

pub record ActionPathEntry : Type 0 where
  pub path : Text
  pub method : Text

pub record RegisteredTool : Type 0 where
  pub id : Text
  pub tool_type : Text
  pub base_url : Option Text
  pub credentials_encrypted : Text
  pub action_paths : List (Text × ActionPathEntry)

pub record Credentials : Type 0 where
  pub api_key : Text
  pub oauth_client_id : Text
  pub oauth_client_secret : Text

pub data Authorization : Type 0 where
  no_authorization : Authorization
  bearer : Text → Authorization
  basic_auth : Text → Text → Authorization

-- The request that is handed to the client, with the call that its body is marshalled from.
pub record HttpRequest : Type 0 where
  pub method : Text
  pub url : Text
  pub body : ToolRequest
  pub authorization : Authorization

pub data ForwardError : Type 0 where
  nil_row : ForwardError
  not_rest_api : Text → Text → ForwardError
  no_base_url : Text → ForwardError
  no_key : Text → ForwardError
  not_decrypted : Text → Text → ForwardError
  bad_credentials : Text → ForwardError
  unmapped_action : Text → Text → ForwardError
  bad_request : Text → ForwardError
  request_failed : Text → ForwardError
  downstream_status : ℕ → Text → ForwardError

-- strings.TrimLeft and strings.TrimRight for a cutset of one byte.
unfoldable pub trim_left : ℕ → Text → Text
trim_left c [] = []
trim_left c (d ∷ s) = let rest = trim_left c s in if d == c then rest else d ∷ s

unfoldable pub trim_right : ℕ → Text → Text
unfolding is_empty
trim_right c [] = []
trim_right c (d ∷ s) = let rest = trim_right c s in if d == c && is_empty rest then [] else d ∷ rest

unfoldable pub join_url_path : Text → Text → Text
unfolding trim_left trim_right
join_url_path base path = trim_right b'/' base ++ b'/' ∷ trim_left b'/' path

unfoldable pub action_path : Text → List (Text × ActionPathEntry) → Option ActionPathEntry
unfolding text_eq
action_path action [] = none
action_path action ((k, e) ∷ rest) =
    let later = action_path action rest in if text_eq k action then some e else later

upper_code : ℕ → ℕ
upper_code c = if leb b'a' c && leb c b'z' then c - 32 else c

unfoldable pub to_upper : Text → Text
unfolding upper_code
to_upper = map upper_code

-- The method and the URL: with action paths, that of the action, which must be one of them.
unfoldable pub target_of :
    Text → Text → Text → List (Text × ActionPathEntry) → Result ForwardError (Text × Text)
unfolding action_path to_upper join_url_path is_empty
target_of id base action [] = ok (codes "POST", base)
target_of id base action (p ∷ ps) = elim (action_path action (p ∷ ps)) [
  | none ↦ err (unmapped_action id action)
  | some e ↦
      ok (if is_empty e.method then codes "POST" else to_upper e.method, join_url_path base e.path)
]

-- Without stored credentials the zero value is used.
abbrev pub no_credentials : Credentials
no_credentials = record { api_key = []; oauth_client_id = []; oauth_client_secret = [] }

unfoldable pub authorization_of : Credentials → Authorization
unfolding is_empty
authorization_of c =
    if not (is_empty c.api_key)
    then bearer c.api_key
    else if not (is_empty c.oauth_client_id) && not (is_empty c.oauth_client_secret)
    then basic_auth c.oauth_client_id c.oauth_client_secret
    else no_authorization

-- The cipher is nil without a key. client_do is client.Do with the redirects that it follows; the
-- guard of the dialer, which it runs at each hop, is part of it.
pub record Router (W : Type 0) : Type 0 where
  pub cipher : Option (Text → Result Text Text)
  pub unmarshal : Text → Option Credentials
  pub valid_url : Text → Bool
  pub client_do : W → HttpRequest → Result Text ToolResponse × W

module _ {W : Type 0} (r : Router W) where
  unfoldable pub credentials_of : RegisteredTool → Result ForwardError Credentials
  unfolding is_empty
  credentials_of row =
      if is_empty row.credentials_encrypted then ok no_credentials else elim r.cipher [
        | none ↦ err (no_key row.id)
        | some decrypt ↦ elim (decrypt row.credentials_encrypted) [
          | err t ↦ err (not_decrypted row.id t)
          | ok plaintext ↦ elim (r.unmarshal plaintext) [
            | none ↦ err (bad_credentials row.id)
            | some c ↦ ok c
          ]
        ]
      ]

  -- The request from the parts that were found.
  unfoldable pub request_to :
      ToolRequest → Credentials → Text × Text → Result ForwardError HttpRequest
  unfolding authorization_of
  request_to req c (method, url) =
      if r.valid_url url
      then ok
          (record { method = method; url = url; body = req; authorization = authorization_of c })
      else err (bad_request url)

  unfoldable pub prepare : RegisteredTool → ToolRequest → Result ForwardError HttpRequest
  unfolding credentials_of target_of request_to text_eq is_empty
  prepare row req =
      if not (text_eq row.tool_type (codes "rest_api"))
      then err (not_rest_api row.id row.tool_type)
      else elim row.base_url [
        | none ↦ err (no_base_url row.id)
        | some base ↦
            if is_empty base
            then err (no_base_url row.id)
            else credentials_of row >>= λ c.
                target_of row.id base req.action row.action_paths >>= λ t. request_to req c t
      ]

  abbrev pub response_of : Result Text ToolResponse → Result ForwardError ToolResponse
  response_of (err t) = err (request_failed t)
  response_of (ok a) = if leb 400 a.status then err (downstream_status a.status a.body) else ok a

  unfoldable pub forward :
      Option RegisteredTool → ToolRequest → W → Result ForwardError ToolResponse × W
  unfolding prepare
  forward none req w = (err nil_row, w)
  forward (some row) req w = elim (prepare row req) [
    | err e ↦ (err e, w)
    | ok q ↦ let (a, w') = r.client_do w q in (response_of a, w')
  ]
