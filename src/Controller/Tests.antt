-- ===== src/Controller/Tests.antt =====
-- Runs of src/controller.rs and src/state.rs.
use rcodex.Common.{
  ◌≡◌, refl, none, some, [], ◌∷◌, ◌++◌, Result, ok, err, Error, Text, text, text_eq, is_whitespace,
  trim_start, trim_end, trim,
}
use rcodex.Auth.{CodexAuth}
use rcodex.Files.{FilePath, file, Files, update, call_with, call, calls}
use rcodex.Files.Quiet.{quiet}
use rcodex.Protocol.{
  trim_slashes, relay_target, validate_nonce, sign_identity, device_identity_hash,
  build_enrollment_signing_payload,
}
use rcodex.Protocol.Tests.{enrollment, challenge_for}
use rcodex.Relay.{validate_session_secret, validate_remote_session}
use rcodex.Relay.Tests.{platform, session}
use rcodex.State.{StateCodec, load_controller_state, install_state, save_controller_state}
use rcodex.State.Saving.{save_controller_state-load}
use rcodex.Controller.{
  DeviceKeyIdentity, Services, begin_enrollment, checked_session, finish_enrollment,
}
use rcodex.Controller.Enrollment.{Device, exists, before_key, with_key, with_new_key, enroll}
use rcodex.Controller.Enrolled.{Enrolls, enroll-Enrolls}

abbrev auth : CodexAuth
auth = record {
  access_token = text "a";
  account_id = text "account";
  account_user_id = text "user";
  auth_user_id = none;
  expires_at = 100;
  refresh_token = text "r";
}

abbrev key : DeviceKeyIdentity
key = record {
  algorithm = text "ecdsa_p256_sha256";
  key_id = text "key";
  protection_class = text "os";
  public_key_spki_der_base64 = text "spki";
}

abbrev services : Result Error Text → Services
services step_up = record {
  platform = platform;
  auth = ok auth;
  enroll_start = ok (record {
    account_user_id = text "user";
    client_id = text "client";
    device_key_challenge =
        challenge_for (text "/backend-api/codex/remote/control/client/enroll/finish");
  });
  enroll_finish = λ body. ok session;
  refresh_start = λ r. err "offline";
  refresh_finish = λ body. err "offline";
  request_step_up_token = λ account user. step_up;
  create_os_protected_device_key = ok key;
  sign_with_os_protected_device_key = λ id payload. ok (3 ∷ []);
  delete_os_protected_device_key = λ id. ok tt;
  started_at = 9;
  finished_at = 9;
}

-- A state is written as the identifier of its key.
abbrev codec : StateCodec
codec = record {
  to_vec = λ s. some s.enrollment.key_id;
  from_slice = λ bytes. some (record { enrollment = enrollment });
}

abbrev state_path : FilePath
state_path = record {
  directory = text "state";
  stem = text "state";
  extension = some (text "json");
}

abbrev empty_files : Files
empty_files p = none

abbrev fresh : Device
fresh = record { world = quiet empty_files; keys = [] }

abbrev saved_files : Files
saved_files = update empty_files state_path (some (file 0x180 (text "key" ++ 10 ∷ [])))

enroll_run : enroll (services (ok (text "t"))) codec state_path fresh ≡ (
  record { world = quiet saved_files; keys = text "key" ∷ [] },
  ok (record { enrollment = enrollment }, session),
)
unfolding enroll before_key exists with_new_key with_key begin_enrollment finish_enrollment
    checked_session save_controller_state install_state validate_remote_session
    validate_session_secret build_enrollment_signing_payload validate_nonce relay_target
    sign_identity device_identity_hash trim_slashes calls call call_with text text_eq trim
    trim_start trim_end is_whitespace
enroll_run = refl

-- Without the step-up token the key is gone again.
enroll_cleans_up :
    enroll (services (err "no token")) codec state_path fresh ≡ (fresh, err "no token")
unfolding enroll before_key exists with_new_key with_key begin_enrollment finish_enrollment
    checked_session build_enrollment_signing_payload validate_nonce relay_target sign_identity
    device_identity_hash trim_slashes calls call call_with text text_eq
enroll_cleans_up = refl

enroll-Enrolls_example :
    Enrolls
      (services (ok (text "t")))
      codec
      state_path
      fresh
      (enroll (services (ok (text "t"))) codec state_path fresh)
enroll-Enrolls_example = enroll-Enrolls (services (ok (text "t"))) codec state_path fresh

save_run :
    save_controller_state codec state_path (record { enrollment = enrollment }) (quiet empty_files)
    ≡ (quiet saved_files, ok tt)
unfolding save_controller_state install_state calls call call_with text
save_run = refl

save_controller_state-load_example :
    load_controller_state codec state_path (quiet saved_files)
    ≡ (quiet saved_files, ok (record { enrollment = enrollment }))
save_controller_state-load_example =
    save_controller_state-load codec state_path (record { enrollment = enrollment })
      (quiet empty_files) saved_files (λ bytes made. refl) save_run
