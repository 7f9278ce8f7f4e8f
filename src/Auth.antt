-- ===== src/Auth.antt =====
-- src/auth.rs: the credentials of the Codex command line, their loading and the merge of a refresh.
-- An `i64` is the number that is added to -2^63. Base64 and the parsing of the JSON documents are
-- parameters.
pub mod Merging
pub mod Requests
pub mod Refresh
pub mod Loading
pub mod Tests
use rcodex.Common.{
  ℕ, ◌+◌, ◌-◌, ◌*◌, ◌%◌, ◌^◌, min, Bool, false, not, ◌||◌, Option, none, some, [], ◌∷◌, leb, ◌==◌,
  if◌then◌else◌, is_empty, any, Result, ok, Error, bail_if, context, Text, Bytes, text, text_eq,
  is_whitespace, trim, ◌>>=◌, ◌>>◌,
}
use rcodex.Json.{Value, Map, object, string, field, insert, as_object, and_then}

pub record CodexAuth : Type 0 where
  pub access_token : Text
  pub account_id : Text
  pub account_user_id : Text
  pub auth_user_id : Option Text
  pub expires_at : ℕ
  pub refresh_token : Text

pub record AuthTokens : Type 0 where
  pub access_token : Text
  pub account_id : Option Text
  pub refresh_token : Text

pub record AuthDocument : Type 0 where
  pub auth_mode : Option Text
  pub tokens : Option AuthTokens

pub record AccessTokenIdentity : Type 0 where
  pub account_id : Option Text
  pub account_user_id : Option Text
  pub chatgpt_account_id : Option Text
  pub chatgpt_account_user_id : Option Text
  pub user_id : Option Text

pub record AccessTokenClaims : Type 0 where
  pub exp : ℕ
  pub auth : AccessTokenIdentity

pub record RefreshResponse : Type 0 where
  pub access_token : Option Text
  pub id_token : Option Text
  pub refresh_token : Option Text

-- What the file system says of a path that exists.
pub record AuthFile : Type 0 where
  pub is_file : Bool
  pub mode : ℕ
  pub bytes : Bytes

-- `self.expires_at <= now_epoch.saturating_add(5 * 60)`.
unfoldable pub needs_refresh : CodexAuth → ℕ → Bool
needs_refresh auth now_epoch = leb auth.expires_at (min (now_epoch + 5 * 60) (2 ^ 64 - 1))

-- The name that the message quotes is left out of it.
unfoldable pub validate_secret : Text → Result Error (Unit {0})
validate_secret value =
    bail_if (is_empty value || not (text_eq (trim value) value) || any is_whitespace value)
      "Codex secret is empty or malformed"

-- `split('.').nth(1)`.
unfoldable pub until_dot : Text → Text
until_dot [] = []
until_dot (c ∷ s) = if c == b'.' then [] else c ∷ until_dot s

unfoldable pub second_part : Text → Option Text
unfolding until_dot
second_part [] = none
second_part (c ∷ s) = if c == b'.' then some (until_dot s) else second_part s

abbrev pub nonempty : Text → Option Text
nonempty part = if is_empty part then none else some part

-- `Option::or`.
abbrev pub or_else : Option Text → Option Text → Option Text
or_else none b = b
or_else (some a) b = some a

abbrev pub unwrap_or : Option Text → Text → Text
unwrap_or none b = b
unwrap_or (some a) b = a

abbrev pub is_chatgpt : Option Text → Bool
is_chatgpt none = false
is_chatgpt (some mode) = text_eq mode (text "chatgpt")

-- `load_codex_auth` from the claims of the access token on.
unfoldable pub identify : AuthTokens → AccessTokenClaims → Result Error CodexAuth
identify tokens claims = do
  claim_account_id ←
      context "Codex access token has no ChatGPT account ID"
        (or_else claims.auth.chatgpt_account_id claims.auth.account_id)
  let account_id = unwrap_or tokens.account_id claim_account_id
  bail_if (not (text_eq account_id claim_account_id))
      "Codex auth account ID does not match its access token"
  account_user_id ←
      context "Codex access token has no ChatGPT account user ID"
        (or_else claims.auth.chatgpt_account_user_id claims.auth.account_user_id)
  ok (record {
    access_token = tokens.access_token;
    account_id = account_id;
    account_user_id = account_user_id;
    auth_user_id = claims.auth.user_id;
    expires_at = claims.exp;
    refresh_token = tokens.refresh_token;
  })

module _ (decode : Text → Option Bytes) (parse_claims : Bytes → Option AccessTokenClaims) where
  unfoldable pub decode_access_token : Text → Result Error AccessTokenClaims
  unfolding second_part
  decode_access_token token = do
    payload ← context "Codex access token is not a JWT" (and_then (second_part token) nonempty)
    bytes ← context "Codex access token payload is not base64url" (decode payload)
    context "Codex access token payload is invalid" (parse_claims bytes)

  -- `load_codex_auth` from the parsed document on.
  unfoldable pub read_document : AuthDocument → Result Error CodexAuth
  read_document document = do
    bail_if (not (is_chatgpt document.auth_mode))
        "rcodex requires Codex CLI ChatGPT subscription authentication"
    tokens ← context "Codex auth file has no tokens" document.tokens
    validate_secret tokens.access_token
    validate_secret tokens.refresh_token
    claims ← decode_access_token tokens.access_token
    identify tokens claims

  -- `permissions().mode() & 0o077` is the remainder by 64. The file may be missing.
  unfoldable pub load_codex_auth :
      (Bytes → Option AuthDocument) → Option AuthFile → Result Error CodexAuth
  unfolding read_document
  load_codex_auth parse_document path = do
    file ← context "inspect Codex auth file" path
    bail_if (not file.is_file) "Codex auth path is not a regular file"
    bail_if (not (file.mode % 64 == 0)) "Codex auth file must not be accessible by group or others"
    document ← context "parse Codex auth file" (parse_document file.bytes)
    read_document document

  abbrev pub merge_access : Option Text → Map → Result Error Map
  merge_access none tokens = ok tokens
  merge_access (some token) tokens = do
    validate_secret token
    claims ← decode_access_token token
    ok (insert (text "access_token") (string token) tokens)

  abbrev pub merge_secret : Text → Option Text → Map → Result Error Map
  merge_secret key none tokens = ok tokens
  merge_secret key (some token) tokens = do
    validate_secret token
    ok (insert key (string token) tokens)

  unfoldable pub merge_refresh_response : Value → RefreshResponse → Text → Result Error Value
  merge_refresh_response document response refreshed_at = do
    m ← context "Codex auth document is not an object" (as_object document)
    tokens ←
        context "Codex auth document has no token object"
          (and_then (field (text "tokens") m) as_object)
    with_access ← merge_access response.access_token tokens
    with_id ← merge_secret (text "id_token") response.id_token with_access
    merged ← merge_secret (text "refresh_token") response.refresh_token with_id
    ok (
        object (
          insert (text "last_refresh") (string refreshed_at)
            (insert (text "tokens") (object merged) m)))
