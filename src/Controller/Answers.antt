-- ===== src/Controller/Answers.antt =====
-- What src/controller.rs has checked when the relay's answers are accepted.
use rcodex.Common.{
  ℕ, ◌<◌, ◌≡◌, false, arith, leb, Result, ok, err, Error, ◌>>=◌, ◌>>◌, bail_if, >>=-eq-ok,
  bail_if-eq-ok, Text, Bytes, text,
}
use mathlib.Core.Path.{subst}
use rcodex.Auth.{CodexAuth}
use rcodex.Protocol.{EnrollmentRecord, build_enrollment_signing_payload}
use rcodex.Relay.{
  EnrollmentStartResponse, RemoteControlSession, device_key_proof, build_enroll_finish_body,
  validate_remote_session,
}
use rcodex.Relay.Sessions.{IsSession, validate_remote_session-IsSession}
use rcodex.Controller.{
  DeviceKeyIdentity, Services, is_other_account, enrollment_of, begin_enrollment, checked_session,
  finish_enrollment,
}

-- A session of the enrollment that has not expired.
abbrev pub IsAlive : Services → EnrollmentRecord → RemoteControlSession → Type 0
IsAlive services r session =
    (expires_at : ℕ) × IsSession services.platform r session services.finished_at expires_at

pub checked_session-IsAlive :
    (services : Services) (r : EnrollmentRecord) (given : Result Error RemoteControlSession)
    (session : RemoteControlSession)
    → checked_session services r given ≡ ok session
    → IsAlive services r session
unfolding checked_session
checked_session-IsAlive services r (err e) session h = cc
checked_session-IsAlive services r (ok s) session h =
    let (expires_at, valid, same) =
      >>=-eq-ok (validate_remote_session services.platform r s services.finished_at) (λ _. ok s)
        h in
    let one : s ≡ session = cc in
    let alive : IsAlive services r s = (
      expires_at,
      (validate_remote_session-IsSession services.platform r s services.finished_at expires_at).0
          valid,
    ) in
    subst (IsAlive services r) one alive

pub finish_enrollment-IsAlive :
    (services : Services) (auth : CodexAuth) (start : EnrollmentStartResponse)
    (key : DeviceKeyIdentity) (session : RemoteControlSession)
    → finish_enrollment services auth start key ≡ ok session
    → IsAlive services (enrollment_of start key) session
unfolding finish_enrollment
finish_enrollment-IsAlive services auth start key session h =
    let r = enrollment_of start key in
    let challenge = start.device_key_challenge in
    let proof = λ (payload signature : Bytes).
      device_key_proof services.platform.encoding challenge.challenge_token r.key_id payload
        signature in
    let end = λ (payload signature : Bytes) (token : Text).
      checked_session services r
        (services.enroll_finish (build_enroll_finish_body r token (proof payload signature))) in
    let stepped = services.request_step_up_token auth.account_id auth.account_user_id in
    let built =
      build_enrollment_signing_payload services.platform.encoding r challenge
        (text "/codex/remote/control/client/enroll/finish") false in
    let (payload, _, h1) =
      >>=-eq-ok built
        (λ payload. services.sign_with_os_protected_device_key r.key_id payload >>= λ signature.
          stepped >>= λ token. end payload signature token)
        h in
    let (signature, _, h2) =
      >>=-eq-ok (services.sign_with_os_protected_device_key r.key_id payload)
        (λ signature. stepped >>= λ token. end payload signature token) h1 in
    let (token, _, h3) = >>=-eq-ok stepped (λ token. end payload signature token) h2 in
    checked_session-IsAlive services r
      (services.enroll_finish (build_enroll_finish_body r token (proof payload signature))) session
      h3

-- The start of an enrollment for the account of the credentials, before the challenge expires.
pub record IsStarted (services : Services) (auth : CodexAuth) (start : EnrollmentStartResponse)
    : Type 0 where
  pub credentials : services.auth ≡ ok auth
  pub answer : services.enroll_start ≡ ok start
  pub account : is_other_account auth start ≡ false
  pub alive : services.started_at < start.device_key_challenge.challenge_expires_at

pub begin_enrollment-IsStarted :
    (services : Services) (auth : CodexAuth) (start : EnrollmentStartResponse)
    → begin_enrollment services ≡ ok (auth, start)
    → IsStarted services auth start
unfolding begin_enrollment
begin_enrollment-IsStarted services auth start h =
    let e1 : Error = "remote-control enrollment start does not match the current ChatGPT account" in
    let e2 : Error = "remote-control enrollment challenge is already expired" in
    let late = λ (s : EnrollmentStartResponse).
      leb s.device_key_challenge.challenge_expires_at services.started_at in
    let tested = λ (a : CodexAuth) (s : EnrollmentStartResponse).
      bail_if (is_other_account a s) e1 >> (bail_if (late s) e2 >> ok (a, s)) in
    let (a, one, h1) = >>=-eq-ok services.auth (λ a. services.enroll_start >>= λ s. tested a s) h in
    let (s, two, h2) = >>=-eq-ok services.enroll_start (λ s. tested a s) h1 in
    let (_, three, h3) =
      >>=-eq-ok (bail_if (is_other_account a s) e1) (λ _. bail_if (late s) e2 >> ok (a, s)) h2 in
    let (_, four, h4) = >>=-eq-ok (bail_if (late s) e2) (λ _. ok (a, s)) h3 in
    let same_auth : a ≡ auth = cc in
    let same_start : s ≡ start = cc in
    let fresh = bail_if-eq-ok (late s) e2 four in
    let started : IsStarted services a s = record {
      credentials = one;
      answer = two;
      account = bail_if-eq-ok (is_other_account a s) e1 three;
      alive = ground (arith, fresh);
    } in
    subst (λ x. IsStarted services x start) same_auth
      (subst (IsStarted services a) same_start started)
