-- ===== src/Auth/Tests.antt =====
-- Runs of src/auth.rs.
use rcodex.Common.{
  ◌≡◌, refl, true, false, Option, none, some, [], Bytes, text, text_eq, is_whitespace, trim,
}
use rcodex.Json.{Value, Map, empty, entry, object, string, field, insert}
use rcodex.Auth.{
  CodexAuth, AuthDocument, AccessTokenClaims, AuthFile, RefreshResponse, validate_secret,
  second_part, until_dot, identify, decode_access_token, read_document, load_codex_auth,
  merge_refresh_response, needs_refresh,
}
use rcodex.Auth.Merging.{IsMerged, merge_refresh_response-IsMerged}
use rcodex.Auth.Loading.{IsLoaded, load_codex_auth-IsLoaded}

abbrev claims : AccessTokenClaims
claims = record {
  exp = 1000;
  auth = record {
    account_id = some (text "acc");
    account_user_id = some (text "user");
    chatgpt_account_id = none;
    chatgpt_account_user_id = none;
    user_id = none;
  };
}

abbrev parse_claims : Bytes → Option AccessTokenClaims
parse_claims b = some claims

abbrev document : AuthDocument
document = record {
  auth_mode = some (text "chatgpt");
  tokens =
      some (record { access_token = text "h.p.s"; account_id = none; refresh_token = text "r" });
}

abbrev file : AuthFile
file = record { is_file = true; mode = 0x180; bytes = [] }

abbrev loaded : CodexAuth
loaded = record {
  access_token = text "h.p.s";
  account_id = text "acc";
  account_user_id = text "user";
  auth_user_id = none;
  expires_at = 1000;
  refresh_token = text "r";
}

load_codex_auth-IsLoaded_example :
    IsLoaded some parse_claims (λ b. some document) (some file) loaded
unfolding load_codex_auth read_document identify decode_access_token second_part until_dot
    validate_secret text text_eq trim is_whitespace
load_codex_auth-IsLoaded_example =
    load_codex_auth-IsLoaded some parse_claims (λ b. some document) (some file) loaded refl

abbrev stored : Map
stored =
    entry (text "auth_mode") (string (text "chatgpt")) (
      entry (text "tokens") (object (entry (text "refresh_token") (string (text "r")) empty)) empty)

abbrev response : RefreshResponse
response = record {
  access_token = some (text "h.p.t");
  id_token = none;
  refresh_token = some (text "q");
}

abbrev merged : Value
merged = object (
    entry (text "auth_mode") (string (text "chatgpt")) (
      entry (text "tokens")
        (object (
          entry (text "refresh_token") (string (text "q"))
            (entry (text "access_token") (string (text "h.p.t")) empty)))
        (entry (text "last_refresh") (string (text "now")) empty)))

merge_refresh_response-IsMerged_example :
    IsMerged some parse_claims stored response (text "now") merged
unfolding merge_refresh_response decode_access_token second_part until_dot validate_secret field
    insert text text_eq trim is_whitespace
merge_refresh_response-IsMerged_example =
    merge_refresh_response-IsMerged some parse_claims stored response (text "now") merged refl

refresh_tests : (needs_refresh loaded 699 ≡ false) × (needs_refresh loaded 700 ≡ true)
unfolding needs_refresh
refresh_tests = (refl, refl)
