-- ===== src/ToolRouter/Prepared.antt =====
-- Which request eami-gateway/internal/toolrouter/router.go hands to its client, and with which
-- credentials. Where redirects lead it from there is the matter of net/http.
use eaim.Base.{ℕ, List, [], ◌∷◌, ◌++◌, some, ◌≡◌, In}
use eaim.Base.Text.{Text, codes}
use eaim.Approval.Types.{ToolRequest}
use eaim.ToolRouter.Forward.{
  ActionPathEntry, RegisteredTool, no_authorization, HttpRequest, trim_right, Router,
}

abbrev pub Begins : ℕ → Text → Type 0
Begins c [] = ⊥
Begins c (d ∷ s) = d ≡ c

-- The URL is that of the row, or lies below it by the path of the row's own entry for the action:
-- after the base without its last slashes comes one slash and a path that begins with none.
pub data Below (base action : Text) (ps : List (Text × ActionPathEntry)) : Text → Type 0 where
  at_base : ps ≡ [] → Below base action ps base
  by_path :
      (e : ActionPathEntry) (p : Text)
      → In (action, e) ps
      → ¬ (Begins b'/' p)
      → Below base action ps (trim_right b'/' base ++ b'/' ∷ p)

module _ {W : Type 0} (r : Router W) where
  -- What the request for the client carries.
  pub record Confined (row : RegisteredTool) (req : ToolRequest) (q : HttpRequest) : Type 0 where
    pub rest_api : row.tool_type ≡ codes "rest_api"
    pub base : Text
    pub of_row : row.base_url ≡ some base
    pub below : Below base req.action row.action_paths q.url
    pub same_body : q.body ≡ req
    pub no_secret : row.credentials_encrypted ≡ [] → q.authorization ≡ no_authorization
