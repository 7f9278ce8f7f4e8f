-- ===== src/Relay.antt =====
-- src/relay.rs: the sessions of the relay and the answers to its challenges. A time is the number that
-- is added to -2^63; its text is read by a parameter.
pub mod Bits
pub mod Sessions
pub mod Connections
pub mod Tests
use rcodex.Common.{
  ℕ, ◌-◌, Bool, false, not, ◌||◌, Option, List, [], ◌∷◌, leb, ◌==◌, if◌then◌else◌, length, is_empty,
  any, Result, ok, Error, bail_if, context, Text, Bytes, text, text_eq, is_whitespace, trim, ◌>>=◌,
  ◌>>◌,
}
use Prim.Native.Nat.{bit_or, bit_xor}
use rcodex.Json.{Value, string, object, Map, empty, entry}
use rcodex.Protocol.{
  EnrollmentRecord, EnrollmentChallenge, ConnectionChallenge, Encoding, is_session_scope,
  build_connection_signing_payload,
}

pub record EnrollmentStartResponse : Type 0 where
  pub account_user_id : Text
  pub client_id : Text
  pub device_key_challenge : EnrollmentChallenge

pub record DeviceKeyProof : Type 0 where
  pub algorithm : Text
  pub challenge_token : Text
  pub key_id : Text
  pub signature_der_base64 : Text
  pub signed_payload_base64 : Text

pub record RemoteControlSession : Type 0 where
  pub account_user_id : Text
  pub client_id : Text
  pub expires_at : Text
  pub remote_control_token : Text
  pub scopes : List Text

unfoldable pub device_key_proof : Encoding → Text → Text → Bytes → Bytes → DeviceKeyProof
device_key_proof e challenge_token key_id signed_payload signature_der = record {
  algorithm = text "ecdsa_p256_sha256";
  challenge_token = challenge_token;
  key_id = key_id;
  signature_der_base64 = e.standard_encode signature_der;
  signed_payload_base64 = e.standard_encode signed_payload;
}

-- The `Serialize` of a proof.
unfoldable pub proof_value : DeviceKeyProof → Value
proof_value p = object (
    entry (text "algorithm") (string p.algorithm) (
      entry (text "challenge_token") (string p.challenge_token) (
        entry (text "key_id") (string p.key_id) (
          entry (text "signature_der_base64") (string p.signature_der_base64)
            (entry (text "signed_payload_base64") (string p.signed_payload_base64) empty)))))

unfoldable pub build_enroll_finish_body : EnrollmentRecord → Text → DeviceKeyProof → Value
build_enroll_finish_body r step_up_token proof = object (
    entry (text "client_id") (string r.client_id) (
      entry (text "step_up_token") (string step_up_token) (
        entry (text "device_identity")
          (object (
            entry (text "key_id") (string r.key_id) (
              entry (text "public_key_spki_der_base64") (string r.public_key_spki_der_base64) (
                entry (text "algorithm") (string r.algorithm)
                  (entry (text "protection_class") (string r.protection_class) empty)))))
          (entry (text "device_key_proof") (proof_value proof) empty))))

unfoldable pub build_refresh_finish_body : EnrollmentRecord → DeviceKeyProof → Value
build_refresh_finish_body r proof = object (
    entry (text "client_id") (string r.client_id)
      (entry (text "device_key_proof") (proof_value proof) empty))

unfoldable pub validate_session_secret : Text → Result Error (Unit {0})
validate_session_secret value =
    bail_if (is_empty value || not (text_eq (trim value) value) || any is_whitespace value)
      "remote-control session token is empty or malformed"

-- The fold of `constant_time_equal`, with the difference so far.
unfoldable pub difference : ℕ → Bytes → Bytes → ℕ
difference d [] right = d
difference d (l ∷ left) [] = d
difference d (l ∷ left) (r ∷ right) = difference (bit_or d (bit_xor l r)) left right

unfoldable pub constant_time_equal : Bytes → Bytes → Bool
constant_time_equal left right =
    if not (length left == length right) then false else difference 0 left right == 0

-- `as_bytes` is a parameter.
pub record Platform : Type 0 where
  pub encoding : Encoding
  pub as_bytes : Text → Bytes
  pub parse_from_rfc3339 : Text → Option ℕ

module _ (platform : Platform) where
  unfoldable pub validate_remote_session :
      EnrollmentRecord → RemoteControlSession → ℕ → Result Error ℕ
  validate_remote_session r s now_epoch = do
    bail_if
        (not (text_eq s.client_id r.client_id) || not (text_eq s.account_user_id r.account_user_id))
        "remote-control session does not match the local enrollment"
    bail_if (not (is_session_scope s.scopes)) "remote-control session has unexpected scopes"
    validate_session_secret s.remote_control_token
    expires_at ←
        context "remote-control session expiration is not RFC 3339"
          (platform.parse_from_rfc3339 s.expires_at)
    bail_if (leb expires_at now_epoch) "remote-control session is already expired"
    ok expires_at

  abbrev pub is_other_session : EnrollmentRecord → ConnectionChallenge → ℕ → ℕ → Bool
  is_other_session r c session_expiration now_epoch =
      not (text_eq c.client_id r.client_id)
      || not (text_eq c.account_user_id r.account_user_id)
      || not (c.token_expires_at == session_expiration)
      || leb c.token_expires_at now_epoch

  -- The end of the function below.
  unfoldable pub check_token : RemoteControlSession → ConnectionChallenge → Result Error Bytes
  check_token s c = do
    let expected = platform.encoding.sha256 (platform.as_bytes s.remote_control_token)
    supplied ←
        context "remote-control websocket challenge token digest is invalid"
          (platform.encoding.url_safe_decode c.token_sha256_base64url)
    bail_if (not (constant_time_equal expected supplied))
        "remote-control websocket challenge is bound to a different session token"
    build_connection_signing_payload platform.encoding c

  unfoldable pub validate_and_build_connection_signing_payload :
      EnrollmentRecord → RemoteControlSession → ConnectionChallenge → ℕ → Result Error Bytes
  validate_and_build_connection_signing_payload r s c now_epoch = do
    session_expiration ← validate_remote_session r s now_epoch
    bail_if (is_other_session r c session_expiration now_epoch)
        "remote-control websocket challenge does not match the active session"
    check_token s c
