-- ===== src/Protocol.antt =====
-- src/protocol.rs: the records of an enrollment, the challenges of the relay, and the payloads that
-- answer them. A time is the number that is added to -2^63. Base64, SHA-256, JSON and the joining of
-- URLs are parameters. An object is written with its keys in the order of the fields.
pub mod Challenges
pub mod Payloads
pub mod Tests
use rcodex.Common.{
  ℕ, ◌+◌, ◌-◌, ◌/◌, ◌^◌, Bool, true, false, not, ◌&&◌, ◌||◌, Option, none, some, List, [], ◌∷◌,
  ◌++◌, ltb, ◌==◌, if◌then◌else◌, length, Result, Error, bail_if, context, Text, Bytes, text,
  text_eq, ◌>>=◌, ◌>>◌,
}
use rcodex.Json.{
  Value, Items, nil, cons, Number, pos_int, neg_int, number, string, array, object, Map, empty,
  entry,
}

pub record EnrollmentRecord : Type 0 where
  pub account_user_id : Text
  pub algorithm : Text
  pub client_id : Text
  pub key_id : Text
  pub protection_class : Text
  pub public_key_spki_der_base64 : Text

pub record EnrollmentChallenge : Type 0 where
  pub account_user_id : Text
  pub audience : Text
  pub challenge_expires_at : ℕ
  pub challenge_id : Text
  pub challenge_token : Text
  pub client_id : Text
  pub device_identity_hash : Option Text
  pub nonce : Text
  pub purpose : Text
  pub target_origin : Text
  pub target_path : Text

pub record ConnectionChallenge : Type 0 where
  pub account_user_id : Text
  pub audience : Text
  pub client_id : Text
  pub nonce : Text
  pub purpose : Text
  pub scopes : List Text
  pub session_id : Text
  pub target_origin : Text
  pub target_path : Text
  pub token_expires_at : ℕ
  pub token_sha256_base64url : Text

-- `join` takes the base and the relative path to the origin and the path of the target. `expect_to_vec`
-- is the serialization of a record of texts, which cannot fail.
pub record Encoding : Type 0 where
  pub to_vec : Value → Option Bytes
  pub expect_to_vec : Value → Bytes
  pub standard_encode : Bytes → Text
  pub url_safe_encode : Bytes → Text
  pub url_safe_decode : Text → Option Bytes
  pub sha256 : Bytes → Bytes
  pub join : Text → Text → Option (Text × Text)

abbrev pub api_base : Text
api_base = text "https://chatgpt.com/backend-api"

abbrev pub oauth_client_id : Text
oauth_client_id = text "app_EMoamEEZ73f0CkXaXp7hrann"

abbrev pub session_scope : Text
session_scope = text "remote_control_controller_websocket"

abbrev pub signing_domain : Text
signing_domain = text "codex-device-key-sign-payload/v1"

-- An `i64` in JSON.
abbrev pub number_of : ℕ → Value
number_of n = number (if ltb n (2 ^ 63) then neg_int n else pos_int (n - 2 ^ 63))

abbrev pub items_of : List Text → Items
items_of [] = nil
items_of (s ∷ rest) = cons (string s) (items_of rest)

abbrev pub signing_envelope : Map → Value
signing_envelope payload =
    object (
      entry (text "domain") (string signing_domain) (entry (text "payload") (object payload) empty))

abbrev pub enrollment_type : Text
enrollment_type = text "remote_control_client_enrollment"

abbrev pub websocket_type : Text
websocket_type = text "remote_control_client_websocket"

-- `trim_start_matches('/')`.
unfoldable pub trim_slashes : Text → Text
trim_slashes [] = []
trim_slashes (c ∷ s) = let rest = trim_slashes s in if c == b'/' then rest else c ∷ s

unfoldable pub device_identity : EnrollmentRecord → Value
device_identity r = object (
    entry (text "algorithm") (string r.algorithm) (
      entry (text "keyId") (string r.key_id) (
        entry (text "protectionClass") (string r.protection_class)
          (entry (text "publicKeySpkiDerBase64") (string r.public_key_spki_der_base64) empty))))

unfoldable pub enrollment_payload : EnrollmentChallenge → Text → Value
enrollment_payload c hash = signing_envelope (
    entry (text "accountUserId") (string c.account_user_id) (
      entry (text "audience") (string enrollment_type) (
        entry (text "challengeExpiresAt") (number_of c.challenge_expires_at) (
          entry (text "challengeId") (string c.challenge_id) (
            entry (text "clientId") (string c.client_id) (
              entry (text "deviceIdentitySha256Base64url") (string hash) (
                entry (text "nonce") (string c.nonce) (
                  entry (text "targetOrigin") (string c.target_origin) (
                    entry (text "targetPath") (string c.target_path) (
                      entry (text "type") (string (text "remoteControlClientEnrollment"))
                        empty))))))))))

unfoldable pub connection_payload : ConnectionChallenge → Value
connection_payload c = signing_envelope (
    entry (text "accountUserId") (string c.account_user_id) (
      entry (text "audience") (string c.audience) (
        entry (text "clientId") (string c.client_id) (
          entry (text "nonce") (string c.nonce) (
            entry (text "scopes") (array (items_of c.scopes)) (
              entry (text "sessionId") (string c.session_id) (
                entry (text "targetOrigin") (string c.target_origin) (
                  entry (text "targetPath") (string c.target_path) (
                    entry (text "tokenExpiresAt") (number_of c.token_expires_at) (
                      entry (text "tokenSha256Base64url") (string c.token_sha256_base64url) (
                        entry (text "type") (string (text "remoteControlClientConnection"))
                          empty)))))))))))

-- `challenge.scopes != [SESSION_SCOPE]`, negated.
abbrev pub is_session_scope : List Text → Bool
is_session_scope [] = false
is_session_scope (s ∷ []) = text_eq s session_scope
is_session_scope (s ∷ t ∷ rest) = false

abbrev pub hash_or : Option Text → Text → Text
hash_or none local = local
hash_or (some hash) local = hash

abbrev pub is_none : Option Text → Bool
is_none none = true
is_none (some hash) = false

module _ (e : Encoding) where
  unfoldable pub device_identity_hash : EnrollmentRecord → Text
  device_identity_hash r = e.url_safe_encode (e.sha256 (e.expect_to_vec (device_identity r)))

  unfoldable pub relay_target : Text → Result Error (Text × Text)
  relay_target relative =
      context "invalid relay URL" (e.join (api_base ++ text "/") (trim_slashes relative))

  unfoldable pub validate_nonce : Text → Result Error (Unit {0})
  validate_nonce value = do
    decoded ← context "remote-control nonce is not base64url" (e.url_safe_decode value)
    bail_if (ltb (length decoded) 32) "remote-control nonce is too short"

  unfoldable pub validate_sha256 : Text → Result Error (Unit {0})
  validate_sha256 value = do
    decoded ← context "remote-control digest is not base64url" (e.url_safe_decode value)
    bail_if (not (length decoded == 32)) "remote-control digest is not a SHA-256 value"

  abbrev pub is_other_enrollment : EnrollmentRecord → EnrollmentChallenge → Text → Text → Bool
  is_other_enrollment r c origin path =
      not (text_eq c.purpose enrollment_type)
      || not (text_eq c.audience enrollment_type)
      || not (text_eq c.account_user_id r.account_user_id)
      || not (text_eq c.client_id r.client_id)
      || not (text_eq c.target_origin origin)
      || not (text_eq c.target_path path)

  -- The end of `build_enrollment_signing_payload`.
  unfoldable pub sign_identity : EnrollmentRecord → EnrollmentChallenge → Bool → Result Error Bytes
  sign_identity r c require_hash = do
    bail_if (require_hash && is_none c.device_identity_hash)
        "remote-control enrollment challenge is missing device identity hash"
    let hash = hash_or c.device_identity_hash (device_identity_hash r)
    bail_if (not (text_eq hash (device_identity_hash r)))
        "remote-control enrollment challenge does not match local device identity"
    context "serialize enrollment signing payload" (e.to_vec (enrollment_payload c hash))

  unfoldable pub build_enrollment_signing_payload :
      EnrollmentRecord → EnrollmentChallenge → Text → Bool → Result Error Bytes
  build_enrollment_signing_payload r c expected require_hash = do
    validate_nonce c.nonce
    (origin, path) ← relay_target expected
    bail_if (is_other_enrollment r c origin path)
        "remote-control enrollment challenge does not match the local enrollment"
    sign_identity r c require_hash

  abbrev pub is_other_contract : ConnectionChallenge → Text → Text → Bool
  is_other_contract c origin path =
      not (text_eq c.purpose websocket_type)
      || not (text_eq c.audience websocket_type)
      || not (text_eq c.target_origin origin)
      || not (text_eq c.target_path path)
      || not (is_session_scope c.scopes)

  unfoldable pub build_connection_signing_payload : ConnectionChallenge → Result Error Bytes
  build_connection_signing_payload c = do
    validate_nonce c.nonce
    validate_sha256 c.token_sha256_base64url
    (origin, path) ← relay_target (text "/codex/remote/control/client")
    bail_if (is_other_contract c origin path)
        "remote-control websocket challenge does not match the expected relay contract"
    context "serialize websocket signing payload" (e.to_vec (connection_payload c))
