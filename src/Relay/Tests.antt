-- ===== src/Relay/Tests.antt =====
-- Runs of src/relay.rs.
use rcodex.Common.{
  ◌≡◌, refl, ◌↔◌, some, [], ◌∷◌, length, replicate, ok, err, text, text_eq, is_whitespace,
  trim_start, trim_end, trim,
}
use rcodex.Protocol.{
  ConnectionChallenge, session_scope, websocket_type, connection_payload, trim_slashes,
  relay_target, validate_nonce, validate_sha256, build_connection_signing_payload,
}
use rcodex.Protocol.Tests.{plain, enrollment}
use rcodex.Relay.{
  RemoteControlSession, Platform, validate_session_secret, difference, constant_time_equal,
  validate_remote_session, check_token, validate_and_build_connection_signing_payload,
}
use rcodex.Relay.Sessions.{IsSession, validate_remote_session-IsSession}
use rcodex.Protocol.Payloads.{IsConnectionFor}
use rcodex.Relay.Connections.{IsBound, validate_and_build_connection_signing_payload-IsBound}

-- The time of the tests is the length of its text.
abbrev pub platform : Platform
platform = record { encoding = plain; as_bytes = λ s. s; parse_from_rfc3339 = λ s. some (length s) }

abbrev pub session : RemoteControlSession
session = record {
  account_user_id = text "user";
  client_id = text "client";
  expires_at = text "2030-01-01";
  remote_control_token = text "secret";
  scopes = session_scope ∷ [];
}

abbrev challenge : ConnectionChallenge
challenge = record {
  account_user_id = text "user";
  audience = websocket_type;
  client_id = text "client";
  nonce = replicate 32 65;
  purpose = websocket_type;
  scopes = session_scope ∷ [];
  session_id = text "s";
  target_origin = text "https://chatgpt.com";
  target_path = text "/backend-api/codex/remote/control/client";
  token_expires_at = 10;
  token_sha256_base64url = replicate 32 6;
}

session_run : validate_remote_session platform enrollment session 9 ≡ ok 10
unfolding validate_remote_session validate_session_secret text text_eq trim trim_start trim_end
    is_whitespace
session_run = refl

session_expired :
    validate_remote_session platform enrollment session 10
    ≡ err "remote-control session is already expired"
unfolding validate_remote_session validate_session_secret text text_eq trim trim_start trim_end
    is_whitespace
session_expired = refl

connection_run :
    validate_and_build_connection_signing_payload platform enrollment session challenge 9
    ≡ ok (1 ∷ [])
unfolding validate_and_build_connection_signing_payload validate_remote_session
    validate_session_secret check_token constant_time_equal difference
    build_connection_signing_payload validate_nonce validate_sha256 relay_target trim_slashes text
    text_eq trim trim_start trim_end is_whitespace
connection_run = refl

validate_remote_session-IsSession_example :
    (validate_remote_session platform enrollment session 9 ≡ ok 10)
    ↔ IsSession platform enrollment session 9 10
validate_remote_session-IsSession_example =
    validate_remote_session-IsSession platform enrollment session 9 10

validate_and_build_connection_signing_payload-IsBound_example :
    IsBound platform enrollment session challenge 9
    × (plain.to_vec (connection_payload challenge) ≡ some (1 ∷ []))
    × IsConnectionFor enrollment challenge (connection_payload challenge)
validate_and_build_connection_signing_payload-IsBound_example =
    validate_and_build_connection_signing_payload-IsBound platform enrollment session challenge 9
      (1 ∷ []) connection_run
