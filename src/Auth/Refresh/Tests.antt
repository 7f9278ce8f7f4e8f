-- ===== src/Auth/Refresh/Tests.antt =====
-- Runs of `refresh_codex_auth` of src/auth.rs.
use rcodex.Common.{
  ◌≡◌, refl, true, none, some, [], ◌∷◌, if◌then◌else◌, ok, Bytes, text, text_eq, is_whitespace,
  trim_start, trim_end, trim,
}
use rcodex.Json.{object, empty, entry, field, insert}
use rcodex.Files.{FilePath, file, Files, update, call_with, call, calls, path_eq, read}
use rcodex.Files.Quiet.{quiet}
use rcodex.State.{install_state}
use rcodex.Auth.{
  AuthDocument, AccessTokenClaims, RefreshResponse, validate_secret, second_part, until_dot,
  identify, decode_access_token, read_document, load_codex_auth, merge_refresh_response,
}
use rcodex.Auth.Requests.{checked_response}
use rcodex.Auth.Refresh.{
  Refresher, load_auth, post_refresh, auth_file_matches_snapshot, save_auth_document, save_merged,
  finish_refresh, refresh_codex_auth,
}
use rcodex.Auth.Refresh.Snapshot.{Refreshes, refresh_codex_auth-Refreshes}

abbrev claims : AccessTokenClaims
claims = record {
  exp = 1000;
  auth = record {
    account_id = some (text "acc");
    account_user_id = some (text "user");
    chatgpt_account_id = none;
    chatgpt_account_user_id = none;
    user_id = none;
  };
}

abbrev document : AuthDocument
document = record {
  auth_mode = some (text "chatgpt");
  tokens =
      some (record { access_token = text "h.p.s"; account_id = none; refresh_token = text "r" });
}

abbrev response : RefreshResponse
response = record { access_token = none; id_token = none; refresh_token = some (text "r2") }

-- A file is parsed to the same document whatever its bytes.
abbrev refresher : (Files → Files) → Refresher
refresher meanwhile = record {
  decode = λ s. some s;
  parse_claims = λ b. some claims;
  parse_document = λ b. some document;
  from_slice = λ b. some (object (entry (text "tokens") (object empty) empty));
  to_vec_pretty = λ v. some (5 ∷ []);
  post = λ body. ok (true, ok response);
  meanwhile = meanwhile;
  refreshed_at = text "now";
}

abbrev path : FilePath
path = record { directory = text "codex"; stem = text "auth"; extension = some (text "json") }

abbrev holding : Bytes → Files
holding bytes p = if path_eq path p then some (file 0x180 bytes) else none

-- Nobody else writes the file.
refresh_run :
    (refresh_codex_auth (refresher (λ f. f)) path (quiet (holding (1 ∷ [])))).0
    ≡ quiet (update (holding (1 ∷ [])) path (some (file 0x180 (5 ∷ 10 ∷ []))))
unfolding refresh_codex_auth finish_refresh post_refresh checked_response auth_file_matches_snapshot
    save_merged save_auth_document install_state load_auth load_codex_auth read_document identify
    decode_access_token second_part until_dot validate_secret merge_refresh_response field insert
    read calls call call_with path_eq text_eq text trim trim_start trim_end is_whitespace
refresh_run = refl

-- Somebody else does, and that is left alone.
refresh_keeps_other :
    (refresh_codex_auth (refresher (λ f. holding (2 ∷ []))) path (quiet (holding (1 ∷ [])))).0
    ≡ quiet (holding (2 ∷ []))
unfolding refresh_codex_auth finish_refresh post_refresh checked_response auth_file_matches_snapshot
    load_auth load_codex_auth read_document identify decode_access_token second_part until_dot
    validate_secret read calls call call_with path_eq text_eq text trim trim_start trim_end
    is_whitespace
refresh_keeps_other = refl

refresh_codex_auth-Refreshes_example :
    Refreshes
      (refresher (λ f. f))
      path
      (holding (1 ∷ []))
      (refresh_codex_auth (refresher (λ f. f)) path (quiet (holding (1 ∷ []))))
refresh_codex_auth-Refreshes_example =
    refresh_codex_auth-Refreshes (refresher (λ f. f)) path (quiet (holding (1 ∷ [])))
