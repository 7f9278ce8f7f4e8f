-- ===== src/Protocol/Payloads.antt =====
-- What the payloads say that src/protocol.rs gives to the device to sign.
use rcodex.Common.{◌≡◌, refl, ap, some, [], ◌∷◌, text, text_eq}
use rcodex.Json.{Value, Map, array, object, string, field, get}
use rcodex.Protocol.{
  EnrollmentRecord, EnrollmentChallenge, ConnectionChallenge, Encoding, number_of, items_of,
  enrollment_payload, connection_payload, device_identity_hash, session_scope, websocket_type,
}

-- What the payload of this enrollment and challenge says.
pub record IsPayloadFor (e : Encoding) (r : EnrollmentRecord) (c : EnrollmentChallenge)
    (payload : Value) : Type 0 where
  pub body : Map
  pub domain : get (text "domain") payload ≡ some (string (text "codex-device-key-sign-payload/v1"))
  pub holds : get (text "payload") payload ≡ some (object body)
  pub account : field (text "accountUserId") body ≡ some (string r.account_user_id)
  pub audience :
      field (text "audience") body ≡ some (string (text "remote_control_client_enrollment"))
  pub expires : field (text "challengeExpiresAt") body ≡ some (number_of c.challenge_expires_at)
  pub challenge : field (text "challengeId") body ≡ some (string c.challenge_id)
  pub client : field (text "clientId") body ≡ some (string r.client_id)
  pub identity :
      field (text "deviceIdentitySha256Base64url") body ≡ some (string (device_identity_hash e r))
  pub nonce : field (text "nonce") body ≡ some (string c.nonce)
  pub origin : field (text "targetOrigin") body ≡ some (string c.target_origin)
  pub path : field (text "targetPath") body ≡ some (string c.target_path)
  pub kind : field (text "type") body ≡ some (string (text "remoteControlClientEnrollment"))

pub enrollment_payload-IsPayloadFor :
    (e : Encoding) (r : EnrollmentRecord) (c : EnrollmentChallenge)
    → c.account_user_id ≡ r.account_user_id
    → c.client_id ≡ r.client_id
    → IsPayloadFor e r c (enrollment_payload c (device_identity_hash e r))
unfolding enrollment_payload get field text text_eq
enrollment_payload-IsPayloadFor e r c account client = record {
  body = _;
  domain = refl;
  holds = refl;
  account = ap (λ s. some (string s)) account;
  audience = refl;
  expires = refl;
  challenge = refl;
  client = ap (λ s. some (string s)) client;
  identity = refl;
  nonce = refl;
  origin = refl;
  path = refl;
  kind = refl;
}

-- What the payload of this record and of a challenge for a connection says.
pub record IsConnectionFor (r : EnrollmentRecord) (c : ConnectionChallenge) (payload : Value)
    : Type 0 where
  pub body : Map
  pub domain : get (text "domain") payload ≡ some (string (text "codex-device-key-sign-payload/v1"))
  pub holds : get (text "payload") payload ≡ some (object body)
  pub account : field (text "accountUserId") body ≡ some (string r.account_user_id)
  pub audience : field (text "audience") body ≡ some (string websocket_type)
  pub client : field (text "clientId") body ≡ some (string r.client_id)
  pub nonce : field (text "nonce") body ≡ some (string c.nonce)
  pub scopes : field (text "scopes") body ≡ some (array (items_of (session_scope ∷ [])))
  pub session : field (text "sessionId") body ≡ some (string c.session_id)
  pub origin : field (text "targetOrigin") body ≡ some (string c.target_origin)
  pub path : field (text "targetPath") body ≡ some (string c.target_path)
  pub expires : field (text "tokenExpiresAt") body ≡ some (number_of c.token_expires_at)
  pub digest : field (text "tokenSha256Base64url") body ≡ some (string c.token_sha256_base64url)
  pub kind : field (text "type") body ≡ some (string (text "remoteControlClientConnection"))

pub connection_payload-IsConnectionFor :
    (r : EnrollmentRecord) (c : ConnectionChallenge)
    → c.account_user_id ≡ r.account_user_id
    → c.client_id ≡ r.client_id
    → c.audience ≡ websocket_type
    → c.scopes ≡ session_scope ∷ []
    → IsConnectionFor r c (connection_payload c)
unfolding connection_payload get field text text_eq
connection_payload-IsConnectionFor r c account client audience scopes = record {
  body = _;
  domain = refl;
  holds = refl;
  account = ap (λ s. some (string s)) account;
  audience = ap (λ s. some (string s)) audience;
  client = ap (λ s. some (string s)) client;
  nonce = refl;
  scopes = ap (λ s. some (array (items_of s))) scopes;
  session = refl;
  origin = refl;
  path = refl;
  expires = refl;
  digest = refl;
  kind = refl;
}
