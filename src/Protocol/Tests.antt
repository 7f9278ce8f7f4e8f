-- ===== src/Protocol/Tests.antt =====
-- Runs of src/protocol.rs.
use rcodex.Common.{
  ◌≡◌, refl, ◌↔◌, true, false, none, some, [], ◌∷◌, ◌++◌, length, replicate, ok, err, Text, text,
  text_eq,
}
use rcodex.Protocol.{
  EnrollmentRecord, EnrollmentChallenge, Encoding, enrollment_type, trim_slashes,
  enrollment_payload, device_identity_hash, relay_target, validate_nonce, sign_identity,
  build_enrollment_signing_payload,
}
use rcodex.Protocol.Payloads.{IsPayloadFor}
use rcodex.Protocol.Challenges.{IsForEnrollment, build_enrollment_signing_payload-IsForEnrollment}

-- Bytes are written as the texts with these code points, and digests are of the length alone.
abbrev pub plain : Encoding
plain = record {
  to_vec = λ v. some (1 ∷ []);
  expect_to_vec = λ v. 1 ∷ 2 ∷ [];
  standard_encode = λ b. b;
  url_safe_encode = λ b. b;
  url_safe_decode = λ s. some s;
  sha256 = λ b. replicate 32 (length b);
  join = λ base relative. some (text "https://chatgpt.com", text "/backend-api/" ++ relative);
}

abbrev pub enrollment : EnrollmentRecord
enrollment = record {
  account_user_id = text "user";
  algorithm = text "ecdsa_p256_sha256";
  client_id = text "client";
  key_id = text "key";
  protection_class = text "os";
  public_key_spki_der_base64 = text "spki";
}

abbrev pub challenge_for : Text → EnrollmentChallenge
challenge_for path = record {
  account_user_id = text "user";
  audience = enrollment_type;
  challenge_expires_at = 100;
  challenge_id = text "id";
  challenge_token = text "token";
  client_id = text "client";
  device_identity_hash = none;
  nonce = replicate 32 65;
  purpose = enrollment_type;
  target_origin = text "https://chatgpt.com";
  target_path = path;
}

build_run :
    build_enrollment_signing_payload plain enrollment
      (challenge_for (text "/backend-api/a/b"))
      (text "/a/b")
      false
    ≡ ok (1 ∷ [])
unfolding build_enrollment_signing_payload validate_nonce relay_target sign_identity
    device_identity_hash trim_slashes text text_eq
build_run = refl

build_refuses_no_hash :
    build_enrollment_signing_payload plain enrollment
      (challenge_for (text "/backend-api/a/b"))
      (text "/a/b")
      true
    ≡ err "remote-control enrollment challenge is missing device identity hash"
unfolding build_enrollment_signing_payload validate_nonce relay_target sign_identity
    device_identity_hash trim_slashes text text_eq
build_refuses_no_hash = refl

build_enrollment_signing_payload-IsForEnrollment_example :
    (build_enrollment_signing_payload plain enrollment
        (challenge_for (text "/backend-api/a/b"))
        (text "/a/b")
        false
      ≡ ok (1 ∷ []))
    ↔ (IsForEnrollment plain enrollment
          (challenge_for (text "/backend-api/a/b"))
          (text "/a/b")
          false
        × (plain.to_vec (
              enrollment_payload
                (challenge_for (text "/backend-api/a/b"))
                (device_identity_hash plain enrollment))
            ≡ some (1 ∷ []))
        × IsPayloadFor plain enrollment (challenge_for (text "/backend-api/a/b")) (
            enrollment_payload
              (challenge_for (text "/backend-api/a/b"))
              (device_identity_hash plain enrollment)))
build_enrollment_signing_payload-IsForEnrollment_example =
    build_enrollment_signing_payload-IsForEnrollment plain enrollment
      (challenge_for (text "/backend-api/a/b")) (text "/a/b") false (1 ∷ [])
