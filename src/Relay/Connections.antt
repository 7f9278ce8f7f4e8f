-- ===== src/Relay/Connections.antt =====
-- Which connection challenges of the relay src/relay.rs and src/protocol.rs answer.
use rcodex.Common.{
  ℕ, ◌≡◌, sym, ap, ◌∙◌, true, false, not, some, [], ◌∷◌, ◌++◌, arith, ◌==◌, length, Result, ok,
  Error, ◌>>=◌, ◌>>◌, bail_if, context, >>=-eq-ok, bail_if-eq-ok, context-eq-ok, Text, Bytes, text,
  text_eq_iff,
}
use rcodex.Protocol.{
  EnrollmentRecord, ConnectionChallenge, Encoding, api_base, session_scope, websocket_type,
  trim_slashes, connection_payload, relay_target, validate_nonce, validate_sha256,
  is_other_contract, build_connection_signing_payload,
}
use rcodex.Protocol.Payloads.{IsConnectionFor, connection_payload-IsConnectionFor}
use rcodex.Protocol.Challenges.{HasNonce, IsTarget, validate_nonce-HasNonce, is_session_scope_iff}
use rcodex.Relay.{
  RemoteControlSession, Platform, constant_time_equal, validate_remote_session, is_other_session,
  check_token, validate_and_build_connection_signing_payload,
}
use rcodex.Relay.Bits.{constant_time_equal_iff}
use rcodex.Relay.Sessions.{IsSession, validate_remote_session-IsSession}

-- A challenge as the relay is expected to make it.
pub record IsContract (e : Encoding) (c : ConnectionChallenge) : Type 0 where
  pub nonce : HasNonce e c.nonce
  pub digest :
      (decoded : Bytes) × (e.url_safe_decode c.token_sha256_base64url ≡ some decoded)
      × (length decoded ≡ 32)
  pub target : IsTarget e (text "/codex/remote/control/client") c.target_origin c.target_path
  pub purpose : c.purpose ≡ websocket_type
  pub audience : c.audience ≡ websocket_type
  pub scopes : c.scopes ≡ session_scope ∷ []

validate_sha256-digest :
    (e : Encoding) (value : Text)
    → validate_sha256 e value ≡ ok tt
    → (decoded : Bytes) × (e.url_safe_decode value ≡ some decoded) × (length decoded ≡ 32)
unfolding validate_sha256
validate_sha256-digest e value h =
    let (decoded, one, two) =
      >>=-eq-ok (context "remote-control digest is not base64url" (e.url_safe_decode value))
        (λ d. bail_if (not (length d == 32)) "remote-control digest is not a SHA-256 value") h in
    (
      decoded,
      context-eq-ok "remote-control digest is not base64url" (e.url_safe_decode value) one,
      ground (
        arith,
        bail_if-eq-ok (not (length decoded == 32)) "remote-control digest is not a SHA-256 value"
            two,
      ),
    )

matches_contract :
    (e : Encoding) (c : ConnectionChallenge) (origin path : Text)
    → is_other_contract e c origin path ≡ false
    → (c.purpose ≡ websocket_type)
      × (c.audience ≡ websocket_type)
      × (c.target_origin ≡ origin)
      × (c.target_path ≡ path)
      × (c.scopes ≡ session_scope ∷ [])
matches_contract e c origin path h = (
  (text_eq_iff c.purpose websocket_type).0 (ground (arith, h)),
  (text_eq_iff c.audience websocket_type).0 (ground (arith, h)),
  (text_eq_iff c.target_origin origin).0 (ground (arith, h)),
  (text_eq_iff c.target_path path).0 (ground (arith, h)),
  (is_session_scope_iff c.scopes).0 (ground (arith, h)),
)

build_connection_signing_payload-IsContract :
    (e : Encoding) (c : ConnectionChallenge) (bytes : Bytes)
    → build_connection_signing_payload e c ≡ ok bytes
    → IsContract e c × (e.to_vec (connection_payload c) ≡ some bytes)
unfolding build_connection_signing_payload relay_target
build_connection_signing_payload-IsContract e c bytes h =
    let e1 : Error = "invalid relay URL" in
    let e2 : Error =
      "remote-control websocket challenge does not match the expected relay contract" in
    let e3 : Error = "serialize websocket signing payload" in
    let written = context e3 (e.to_vec (connection_payload c)) in
    let joined =
      e.join (api_base ++ text "/") (trim_slashes (text "/codex/remote/control/client")) in
    let tested =
      λ (origin path : Text). bail_if (is_other_contract e c origin path) e2 >> written in
    let end : Result Error Bytes = context e1 joined >>= λ (origin, path). tested origin path in
    let (_, nonce, h1) =
      >>=-eq-ok (validate_nonce e c.nonce) (λ _. validate_sha256 e c.token_sha256_base64url >> end)
        h in
    let (_, digest, h2) = >>=-eq-ok (validate_sha256 e c.token_sha256_base64url) (λ _. end) h1 in
    let ((origin, path), target, h3) =
      >>=-eq-ok (context e1 joined) (λ (origin, path). tested origin path) h2 in
    let (_, matched, h4) =
      >>=-eq-ok (bail_if (is_other_contract e c origin path) e2) (λ _. written) h3 in
    let (p, a, o, t, s) =
      matches_contract e c origin path
        (bail_if-eq-ok (is_other_contract e c origin path) e2 matched) in
    (
      record {
        nonce = (validate_nonce-HasNonce e c.nonce).0 nonce;
        digest = validate_sha256-digest e c.token_sha256_base64url digest;
        target = context-eq-ok e1 joined target ∙ cc;
        purpose = p;
        audience = a;
        scopes = s;
      },
      context-eq-ok e3 (e.to_vec (connection_payload c)) h4,
    )

-- A challenge that is bound to this session.
pub record IsBound (platform : Platform) (r : EnrollmentRecord) (s : RemoteControlSession)
    (c : ConnectionChallenge) (now_epoch : ℕ) : Type 0 where
  pub session : IsSession platform r s now_epoch c.token_expires_at
  pub client : c.client_id ≡ r.client_id
  pub account : c.account_user_id ≡ r.account_user_id
  pub token :
      platform.encoding.url_safe_decode c.token_sha256_base64url
      ≡ some (platform.encoding.sha256 (platform.as_bytes s.remote_control_token))
  pub contract : IsContract platform.encoding c

check_token-digest :
    (platform : Platform) (s : RemoteControlSession) (c : ConnectionChallenge) (bytes : Bytes)
    → check_token platform s c ≡ ok bytes
    → (platform.encoding.url_safe_decode c.token_sha256_base64url
        ≡ some (platform.encoding.sha256 (platform.as_bytes s.remote_control_token)))
      × (build_connection_signing_payload platform.encoding c ≡ ok bytes)
unfolding check_token
check_token-digest platform s c bytes h =
    let expected = platform.encoding.sha256 (platform.as_bytes s.remote_control_token) in
    let decoded = platform.encoding.url_safe_decode c.token_sha256_base64url in
    let e1 : Error = "remote-control websocket challenge token digest is invalid" in
    let e2 : Error = "remote-control websocket challenge is bound to a different session token" in
    let built = build_connection_signing_payload platform.encoding c in
    let (supplied, one, h1) =
      >>=-eq-ok (context e1 decoded)
        (λ supplied. bail_if (not (constant_time_equal expected supplied)) e2 >> built) h in
    let (_, two, h2) =
      >>=-eq-ok (bail_if (not (constant_time_equal expected supplied)) e2) (λ _. built) h1 in
    let passed : constant_time_equal expected supplied ≡ true =
      ground (arith, bail_if-eq-ok (not (constant_time_equal expected supplied)) e2 two) in
    let same = (constant_time_equal_iff expected supplied).0 passed in
    (context-eq-ok e1 decoded one ∙ ap some (sym same), h2)

-- A connection is signed only in a session of this enrollment that has not expired, and for a challenge
-- that is bound to it: for its client and account, good until the session expires, with the digest
-- of the session's token, and as the relay is expected to make it, at its own address and for the
-- one scope. What is signed is the payload of the challenge, which names the account and the client
-- of the record, the session, the digest of its token with its expiry, the nonce, the target, the
-- audience and the one scope.
pub validate_and_build_connection_signing_payload-IsBound :
    (platform : Platform) (r : EnrollmentRecord) (s : RemoteControlSession)
    (c : ConnectionChallenge) (now_epoch : ℕ) (bytes : Bytes)
    → validate_and_build_connection_signing_payload platform r s c now_epoch ≡ ok bytes
    → IsBound platform r s c now_epoch
      × (platform.encoding.to_vec (connection_payload c) ≡ some bytes)
      × IsConnectionFor r c (connection_payload c)
unfolding validate_and_build_connection_signing_payload
validate_and_build_connection_signing_payload-IsBound platform r s c now_epoch bytes h =
    let e1 : Error = "remote-control websocket challenge does not match the active session" in
    let (expires_at, valid, h1) =
      >>=-eq-ok (validate_remote_session platform r s now_epoch)
        (λ t. bail_if (is_other_session platform r c t now_epoch) e1 >> check_token platform s c)
        h in
    let (_, matched, h2) =
      >>=-eq-ok (bail_if (is_other_session platform r c expires_at now_epoch) e1)
        (λ _. check_token platform s c) h1 in
    let passed = bail_if-eq-ok (is_other_session platform r c expires_at now_epoch) e1 matched in
    let (token, h3) = check_token-digest platform s c bytes h2 in
    let (contract, written) =
      build_connection_signing_payload-IsContract platform.encoding c bytes h3 in
    let until : c.token_expires_at ≡ expires_at = ground (arith, passed) in
    let client = (text_eq_iff c.client_id r.client_id).0 (ground (arith, passed)) in
    let account = (text_eq_iff c.account_user_id r.account_user_id).0 (ground (arith, passed)) in
    (
      record {
        session =
            (validate_remote_session-IsSession platform r s now_epoch c.token_expires_at).0
              (valid ∙ ap ok (sym until));
        client = client;
        account = account;
        token = token;
        contract = contract;
      },
      written,
      connection_payload-IsConnectionFor r c account client contract.audience contract.scopes,
    )
