-- ===== src/Oauth/Urls.antt =====
-- src/protocol.rs: `build_oauth_authorize_url`, and the form of src/oauth.rs. A URL is its address and its
-- query pairs before they are escaped.
use rcodex.Common.{Option, none, some, List, [], ◌∷◌, ◌++◌, Text, text}
use rcodex.Protocol.{oauth_client_id}
use rcodex.Oauth.{enroll_scope}

pub record OauthAuthorizeParams : Type 0 where
  pub account_id : Option Text
  pub code_challenge : Text
  pub originator : Text
  pub redirect_uri : Text
  pub state : Text

abbrev pub workspace_pairs : Option Text → List (Text × Text)
workspace_pairs none = []
workspace_pairs (some account_id) =
    (text "allowed_workspace_id", account_id) ∷ (text "current_workspace_id", account_id) ∷ []

unfoldable pub build_oauth_authorize_url : OauthAuthorizeParams → Text × List (Text × Text)
build_oauth_authorize_url p = (
  text "https://auth.openai.com/oauth/authorize",
  ((text "response_type", text "code")
        ∷ (text "client_id", oauth_client_id)
        ∷ (text "redirect_uri", p.redirect_uri)
        ∷ (text "scope", enroll_scope)
        ∷ (text "code_challenge", p.code_challenge)
        ∷ (text "code_challenge_method", text "S256")
        ∷ (text "state", p.state)
        ∷ (text "originator", p.originator)
        ∷ (text "reauth", text "remote_control")
        ∷ (text "max_age", text "0")
        ∷ (text "codex_cli_simplified_flow", text "true")
        ∷ [])
      ++ workspace_pairs p.account_id,
)

unfoldable pub exchange_form : (code redirect_uri verifier : Text) → List (Text × Text)
exchange_form code redirect_uri verifier =
    (text "grant_type", text "authorization_code")
    ∷ (text "code", code)
    ∷ (text "redirect_uri", redirect_uri)
    ∷ (text "client_id", oauth_client_id)
    ∷ (text "code_verifier", verifier)
    ∷ []
