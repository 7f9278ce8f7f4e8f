-- ===== src/Auth/Refresh.antt =====
-- src/auth.rs: `refresh_codex_auth` and what it calls. The server, the clock, JSON, and what other
-- processes do to the files while the request is under way are parameters; they do nothing after it.
-- A link at the path is not followed.
pub mod Rewriting
pub mod Snapshot
pub mod Tests
use rcodex.Common.{
  Bool, true, false, Option, none, some, [], if◌then◌else◌, Result, Error, context, Text, Bytes,
  text, text_eq,
}
use rcodex.Protocol.{oauth_client_id}
use rcodex.Json.{Value, string, object, empty, entry}
use rcodex.Files.{
  FilePath, Node, file, other, Files, World, Action, pure, lift, ◌>>=◌, ◌>>◌, calls, read,
}
use rcodex.State.{install_state}
use rcodex.Auth.{
  CodexAuth, AuthDocument, AccessTokenClaims, AuthFile, RefreshResponse, load_codex_auth,
  merge_refresh_response,
}
use rcodex.Auth.Requests.{checked_response}

unfoldable pub build_refresh_request : CodexAuth → Value
build_refresh_request auth = object (
    entry (text "client_id") (string oauth_client_id) (
      entry (text "grant_type") (string (text "refresh_token"))
        (entry (text "refresh_token") (string auth.refresh_token) empty)))

-- `post` tells whether the status is a success, and gives the parsed answer.
pub record Refresher : Type 0 where
  pub decode : Text → Option Bytes
  pub parse_claims : Bytes → Option AccessTokenClaims
  pub parse_document : Bytes → Option AuthDocument
  pub from_slice : Bytes → Option Value
  pub to_vec_pretty : Value → Option Bytes
  pub post : Value → Result Error (Bool × Result Error RefreshResponse)
  pub meanwhile : Files → Files
  pub refreshed_at : Text

abbrev pub auth_file_of : Option Node → Option AuthFile
auth_file_of none = none
auth_file_of (some (file mode bytes)) = some (record { is_file = true; mode = mode; bytes = bytes })
auth_file_of (some other) = some (record { is_file = false; mode = 0; bytes = [] })

module _ (r : Refresher) (path : FilePath) where
  -- `load_codex_auth` on the file: its metadata and its bytes are asked for.
  unfoldable pub load_auth : Action CodexAuth
  load_auth = calls 2 >> λ w.
      (w, load_codex_auth r.decode r.parse_claims r.parse_document (auth_file_of (w.files path)))

  -- The request, and what happens in the meantime.
  unfoldable pub post_refresh : CodexAuth → Action RefreshResponse
  post_refresh before w = (
    record w { files = r.meanwhile w.files },
    checked_response (r.post (build_refresh_request before)),
  )

  unfoldable pub auth_file_matches_snapshot : Bytes → Action Bool
  auth_file_matches_snapshot expected = read path >>= λ bytes. pure (text_eq bytes expected)

  -- The steps are those of `save_controller_state`, without the creation of the directory.
  unfoldable pub save_auth_document : Value → Action (Unit {0})
  save_auth_document document =
      lift (context "serialize refreshed Codex auth" (r.to_vec_pretty document))
      >>= install_state path

  -- The end of `refresh_codex_auth`, for a file that is as it was.
  unfoldable pub save_merged : Value → RefreshResponse → Action CodexAuth
  save_merged document response = do
    updated ← lift (merge_refresh_response r.decode r.parse_claims document response r.refreshed_at)
    save_auth_document updated
    load_auth

  -- From the request on.
  unfoldable pub finish_refresh : Bytes → Value → CodexAuth → Action CodexAuth
  finish_refresh before_bytes document before = do
    response ← post_refresh before
    same ← auth_file_matches_snapshot before_bytes
    if same then save_merged document response else load_auth

  unfoldable pub refresh_codex_auth : Action CodexAuth
  refresh_codex_auth = do
    before_bytes ← read path
    document ← lift (context "parse Codex auth before refresh" (r.from_slice before_bytes))
    before ← load_auth
    finish_refresh before_bytes document before
