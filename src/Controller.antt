-- ===== src/Controller.antt =====
-- src/controller.rs: the enrollment of this device and its sessions. The relay, the step-up of the
-- credentials, the clock and the key store of the platform are parameters; which keys there are is state.
pub mod Enrollment
pub mod Answers
pub mod Made
pub mod Enrolled
pub mod Tests
use rcodex.Common.{
  ℕ, ◌-◌, ◌/◌, Bool, true, false, not, ◌||◌, Option, none, some, leb, Result, ok, Error, bail_if,
  map_err, Text, Bytes, text, text_eq, ◌>>=◌, ◌>>◌,
}
use rcodex.Json.{Value}
use rcodex.Auth.{CodexAuth}
use rcodex.Protocol.{
  EnrollmentRecord, EnrollmentChallenge, Encoding, device_identity_hash,
  build_enrollment_signing_payload,
}
use rcodex.Relay.{
  EnrollmentStartResponse, RemoteControlSession, Platform, device_key_proof,
  build_enroll_finish_body, build_refresh_finish_body, validate_remote_session,
}

-- What the creation of a key gives.
pub record DeviceKeyIdentity : Type 0 where
  pub algorithm : Text
  pub key_id : Text
  pub protection_class : Text
  pub public_key_spki_der_base64 : Text

pub record Services : Type 0 where
  pub platform : Platform
  pub auth : Result Error CodexAuth
  pub enroll_start : Result Error EnrollmentStartResponse
  pub enroll_finish : Value → Result Error RemoteControlSession
  pub refresh_start : EnrollmentRecord → Result Error EnrollmentStartResponse
  pub refresh_finish : Value → Result Error RemoteControlSession
  pub request_step_up_token : Text → Text → Result Error Text
  pub create_os_protected_device_key : Result Error DeviceKeyIdentity
  pub sign_with_os_protected_device_key : Text → Bytes → Result Error Bytes
  pub delete_os_protected_device_key : Text → Result Error (Unit {0})
  pub started_at : ℕ
  pub finished_at : ℕ

-- `CodexAuth::matches_relay_account_user_id`.
abbrev pub matches_relay_account_user_id : CodexAuth → Text → Bool
matches_relay_account_user_id auth candidate =
    text_eq candidate auth.account_user_id
    || elim auth.auth_user_id [ none ↦ false | some id ↦ text_eq candidate id ]

abbrev pub is_other_account : CodexAuth → EnrollmentStartResponse → Bool
is_other_account auth start =
    not (matches_relay_account_user_id auth start.account_user_id)
    || not (text_eq start.device_key_challenge.account_user_id start.account_user_id)
    || not (text_eq start.device_key_challenge.client_id start.client_id)

abbrev pub enrollment_of : EnrollmentStartResponse → DeviceKeyIdentity → EnrollmentRecord
enrollment_of start key = record {
  account_user_id = start.account_user_id;
  algorithm = key.algorithm;
  client_id = start.client_id;
  key_id = key.key_id;
  protection_class = key.protection_class;
  public_key_spki_der_base64 = key.public_key_spki_der_base64;
}

abbrev pub is_other_refresh : EnrollmentRecord → EnrollmentStartResponse → Bool
is_other_refresh r start =
    not (text_eq start.account_user_id r.account_user_id)
    || not (text_eq start.client_id r.client_id)
    || not (text_eq start.device_key_challenge.account_user_id r.account_user_id)
    || not (text_eq start.device_key_challenge.client_id r.client_id)

abbrev pub is_hash : Option Text → Text → Bool
is_hash none hash = false
is_hash (some h) hash = text_eq h hash

module _ (services : Services) where
  -- `enroll` up to the creation of the key.
  unfoldable pub begin_enrollment : Result Error (CodexAuth × EnrollmentStartResponse)
  begin_enrollment = do
    auth ← services.auth
    start ← services.enroll_start
    bail_if (is_other_account auth start)
        "remote-control enrollment start does not match the current ChatGPT account"
    bail_if (leb start.device_key_challenge.challenge_expires_at services.started_at)
        "remote-control enrollment challenge is already expired"
    ok (auth, start)

  -- The session that the relay gives must be of this enrollment.
  unfoldable pub checked_session :
      EnrollmentRecord → Result Error RemoteControlSession → Result Error RemoteControlSession
  checked_session r given = do
    session ← given
    expires_at ← validate_remote_session services.platform r session services.finished_at
    ok session

  -- `enroll` with a key, up to the saving of the state.
  unfoldable pub finish_enrollment :
      CodexAuth → EnrollmentStartResponse → DeviceKeyIdentity → Result Error RemoteControlSession
  finish_enrollment auth start key = do
    let r = enrollment_of start key
    let challenge = start.device_key_challenge
    payload ←
        build_enrollment_signing_payload services.platform.encoding r challenge
          (text "/codex/remote/control/client/enroll/finish") false
    signature ← services.sign_with_os_protected_device_key r.key_id payload
    let proof =
        device_key_proof services.platform.encoding challenge.challenge_token r.key_id payload
          signature
    token ← services.request_step_up_token auth.account_id auth.account_user_id
    checked_session r (services.enroll_finish (build_enroll_finish_body r token proof))

  -- `refresh_session` past its tests.
  unfoldable pub answer_refresh :
      EnrollmentRecord → EnrollmentChallenge → Result Error RemoteControlSession
  answer_refresh r challenge = do
    payload ←
        build_enrollment_signing_payload services.platform.encoding r challenge
          (text "/codex/remote/control/client/refresh/finish") true
    signature ←
        map_err "authorize remote-control session refresh"
          (services.sign_with_os_protected_device_key r.key_id payload)
    let proof =
        device_key_proof services.platform.encoding challenge.challenge_token r.key_id payload
          signature
    checked_session r (services.refresh_finish (build_refresh_finish_body r proof))

  unfoldable pub refresh_session : EnrollmentRecord → Result Error RemoteControlSession
  refresh_session r = do
    start ← services.refresh_start r
    bail_if (is_other_refresh r start)
        "remote-control refresh challenge does not match the local enrollment"
    bail_if
        (not (
          is_hash start.device_key_challenge.device_identity_hash
            (device_identity_hash services.platform.encoding r)))
        "remote-control refresh challenge has the wrong device identity"
    bail_if (leb start.device_key_challenge.challenge_expires_at services.started_at)
        "remote-control refresh challenge is already expired"
    answer_refresh r start.device_key_challenge
