-- ===== src/Auth/Loading.antt =====
-- Which credentials `load_codex_auth` of src/auth.rs gives out.
use rcodex.Common.{
  ◌%◌, ◌≡◌, refl, true, not, Option, some, arith, ◌==◌, Result, ok, Error, bail_if, context,
  >>=-eq-ok, bail_if-eq-ok, context-eq-ok, Text, Bytes, text_eq, text_eq_sound,
}
use mathlib.Core.Path.{subst}
use rcodex.Auth.{
  CodexAuth, AuthTokens, AuthDocument, AccessTokenClaims, AuthFile, or_else, unwrap_or, is_chatgpt,
  validate_secret, identify, decode_access_token, read_document, load_codex_auth,
}

-- What the claims of the access token say.
pub record IsIdentified (tokens : AuthTokens) (claims : AccessTokenClaims) (auth : CodexAuth)
    : Type 0 where
  pub access : auth.access_token ≡ tokens.access_token
  pub refresh : auth.refresh_token ≡ tokens.refresh_token
  pub account : or_else claims.auth.chatgpt_account_id claims.auth.account_id ≡ some auth.account_id
  pub user :
      or_else claims.auth.chatgpt_account_user_id claims.auth.account_user_id
      ≡ some auth.account_user_id
  pub expires : auth.expires_at ≡ claims.exp

identified :
    (tokens : AuthTokens) (claims : AccessTokenClaims) (account user claimed : Text)
    → or_else claims.auth.chatgpt_account_id claims.auth.account_id ≡ some claimed
    → account ≡ claimed
    → or_else claims.auth.chatgpt_account_user_id claims.auth.account_user_id ≡ some user
    → IsIdentified tokens claims (record {
      access_token = tokens.access_token;
      account_id = account;
      account_user_id = user;
      auth_user_id = claims.auth.user_id;
      expires_at = claims.exp;
      refresh_token = tokens.refresh_token;
    })
identified tokens claims account user claimed has_account same has_user = record {
  access = refl;
  refresh = refl;
  account = rw same has_account;
  user = has_user;
  expires = refl;
}

ok_injective : {a b : CodexAuth} → (let x : Result Error CodexAuth = ok a in x) ≡ ok b → a ≡ b
ok_injective e = cc e

identify-IsIdentified :
    (tokens : AuthTokens) (claims : AccessTokenClaims) (auth : CodexAuth)
    → identify tokens claims ≡ ok auth
    → IsIdentified tokens claims auth
unfolding identify
identify-IsIdentified tokens claims auth e =
    let account = or_else claims.auth.chatgpt_account_id claims.auth.account_id in
    let user = or_else claims.auth.chatgpt_account_user_id claims.auth.account_user_id in
    let (claimed, e₁, r₁) =
      >>=-eq-ok (context "Codex access token has no ChatGPT account ID" account) _ e in
    let chosen = unwrap_or tokens.account_id claimed in
    let (x, e₂, r₂) =
      >>=-eq-ok
        (bail_if (not (text_eq chosen claimed))
          "Codex auth account ID does not match its access token")
        _ r₁ in
    let (named, e₃, r₃) =
      >>=-eq-ok (context "Codex access token has no ChatGPT account user ID" user) _ r₂ in
    let differ =
      bail_if-eq-ok (not (text_eq chosen claimed))
        "Codex auth account ID does not match its access token" e₂ in
    let same : chosen ≡ claimed = text_eq_sound chosen claimed (ground (arith, differ)) in
    subst (λ r. IsIdentified tokens claims r) (ok_injective r₃)
      (identified tokens claims chosen named claimed
        (context-eq-ok "Codex access token has no ChatGPT account ID" account e₁) same
        (context-eq-ok "Codex access token has no ChatGPT account user ID" user e₃))

module _ (decode : Text → Option Bytes) (parse_claims : Bytes → Option AccessTokenClaims) where
  -- Credentials as a document and its access token have them.
  pub record IsRead (document : AuthDocument) (auth : CodexAuth) : Type 0 where
    pub tokens : AuthTokens
    pub claims : AccessTokenClaims
    pub found : document.tokens ≡ some tokens
    pub plain_access : validate_secret tokens.access_token ≡ ok tt
    pub plain_refresh : validate_secret tokens.refresh_token ≡ ok tt
    pub decoded : decode_access_token decode parse_claims tokens.access_token ≡ ok claims
    pub identified : IsIdentified tokens claims auth

  read_document-IsRead :
      (document : AuthDocument) (auth : CodexAuth)
      → read_document decode parse_claims document ≡ ok auth
      → (is_chatgpt document.auth_mode ≡ true) × IsRead document auth
  unfolding read_document
  read_document-IsRead document auth e =
      let refusal : Error = "rcodex requires Codex CLI ChatGPT subscription authentication" in
      let (u, e₁, r₁) = >>=-eq-ok (bail_if (not (is_chatgpt document.auth_mode)) refusal) _ e in
      let (tokens, e₂, r₂) =
        >>=-eq-ok (context "Codex auth file has no tokens" document.tokens) _ r₁ in
      let (v, e₃, r₃) = >>=-eq-ok (validate_secret tokens.access_token) _ r₂ in
      let (w, e₄, r₄) = >>=-eq-ok (validate_secret tokens.refresh_token) _ r₃ in
      let (claims, e₅, r₅) =
        >>=-eq-ok (decode_access_token decode parse_claims tokens.access_token) _ r₄ in
      let mode = bail_if-eq-ok (not (is_chatgpt document.auth_mode)) refusal e₁ in
      (
        ground (arith, mode),
        record {
          tokens = tokens;
          claims = claims;
          found = context-eq-ok "Codex auth file has no tokens" document.tokens e₂;
          plain_access = e₃;
          plain_refresh = e₄;
          decoded = e₅;
          identified = identify-IsIdentified tokens claims auth r₅;
        },
      )

  -- A file that only its owner may use, with a document that is parsed.
  pub record IsLoaded (parse_document : Bytes → Option AuthDocument) (path : Option AuthFile)
      (auth : CodexAuth) : Type 0 where
    pub file : AuthFile
    pub document : AuthDocument
    pub exists : path ≡ some file
    pub regular : file.is_file ≡ true
    pub private_to_owner : file.mode % 64 ≡ 0
    pub parsed : parse_document file.bytes ≡ some document
    pub mode : is_chatgpt document.auth_mode ≡ true
    pub is_read : IsRead document auth

  -- Credentials are loaded only from a regular file that no one but its owner may access, in the
  -- ChatGPT mode, with well-formed tokens; the account and its user are those of the decoded access
  -- token, and so is the time of expiry.
  pub load_codex_auth-IsLoaded :
      (parse_document : Bytes → Option AuthDocument) (path : Option AuthFile) (auth : CodexAuth)
      → load_codex_auth decode parse_claims parse_document path ≡ ok auth
      → IsLoaded parse_document path auth
  unfolding load_codex_auth
  load_codex_auth-IsLoaded parse_document path auth e =
      let (file, e₁, r₁) = >>=-eq-ok (context "inspect Codex auth file" path) _ e in
      let (u, e₂, r₂) =
        >>=-eq-ok (bail_if (not file.is_file) "Codex auth path is not a regular file") _ r₁ in
      let (v, e₃, r₃) =
        >>=-eq-ok
          (bail_if (not (file.mode % 64 == 0))
            "Codex auth file must not be accessible by group or others")
          _ r₂ in
      let (document, e₄, r₄) =
        >>=-eq-ok (context "parse Codex auth file" (parse_document file.bytes)) _ r₃ in
      let regular = bail_if-eq-ok (not file.is_file) "Codex auth path is not a regular file" e₂ in
      let closed =
        bail_if-eq-ok (not (file.mode % 64 == 0))
          "Codex auth file must not be accessible by group or others" e₃ in
      let (mode, is_read) = read_document-IsRead document auth r₄ in
      record {
        file = file;
        document = document;
        exists = context-eq-ok "inspect Codex auth file" path e₁;
        regular = ground arith;
        private_to_owner = ground arith;
        parsed = context-eq-ok "parse Codex auth file" (parse_document file.bytes) e₄;
        mode = mode;
        is_read = is_read;
      }
