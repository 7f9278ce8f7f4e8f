-- ===== src/Protocol/Challenges.antt =====
-- Which challenges of the relay src/protocol.rs answers, and with what.
use rcodex.Common.{
  ◌≤◌, ◌≡◌, refl, ap, ◌∙◌, ◌↔◌, ◌⊎◌, inl, inr, Bool, true, false, not, ◌&&◌, Option, none, some,
  List, [], ◌∷◌, ◌++◌, arith, ltb, ltb→le, le→ltb, length, Result, ok, Error, ◌>>=◌, ◌>>◌, bail_if,
  context, >>=-eq-ok, bail_if-eq-ok, context-eq-ok, Text, Bytes, text, text_eq, text_eq_sound,
  text_eq_iff,
}
use rcodex.Protocol.Payloads.{IsPayloadFor, enrollment_payload-IsPayloadFor}
use rcodex.Protocol.{
  EnrollmentRecord, EnrollmentChallenge, Encoding, api_base, session_scope, enrollment_type,
  trim_slashes, enrollment_payload, is_session_scope, hash_or, is_none, device_identity_hash,
  relay_target, validate_nonce, is_other_enrollment, sign_identity,
  build_enrollment_signing_payload,
}

abbrev pub HasNonce : Encoding → Text → Type 0
HasNonce e value =
    (decoded : Bytes) × (e.url_safe_decode value ≡ some decoded) × (32 ≤ length decoded)

abbrev pub IsTarget : Encoding → Text → Text → Text → Type 0
IsTarget e relative origin path =
    e.join (api_base ++ text "/") (trim_slashes relative) ≡ some (origin, path)

pub validate_nonce-HasNonce :
    (e : Encoding) (value : Text) → (validate_nonce e value ≡ ok tt) ↔ HasNonce e value
unfolding validate_nonce
validate_nonce-HasNonce e value = (
  λ h.
      let (decoded, one, two) =
        >>=-eq-ok (context "remote-control nonce is not base64url" (e.url_safe_decode value))
          (λ d. bail_if (ltb (length d) 32) "remote-control nonce is too short") h in
      (
        decoded,
        context-eq-ok "remote-control nonce is not base64url" (e.url_safe_decode value) one,
        ltb→le (length decoded) 32
            (bail_if-eq-ok (ltb (length decoded) 32) "remote-control nonce is too short" two),
      ),
  λ (decoded, one, two). rw one (rw (le→ltb (length decoded) 32 two) refl),
)

-- A challenge for this enrollment, under the path that is expected.
pub record IsForEnrollment (e : Encoding) (r : EnrollmentRecord) (c : EnrollmentChallenge)
    (expected : Text) (require_hash : Bool) : Type 0 where
  pub nonce : HasNonce e c.nonce
  pub target : IsTarget e expected c.target_origin c.target_path
  pub purpose : c.purpose ≡ enrollment_type
  pub audience : c.audience ≡ enrollment_type
  pub account : c.account_user_id ≡ r.account_user_id
  pub client : c.client_id ≡ r.client_id
  pub identity :
      (c.device_identity_hash ≡ some (device_identity_hash e r))
      ⊎ ((c.device_identity_hash ≡ none) × (require_hash ≡ false))

hash_case :
    (o : Option Text) (local : Text) (require_hash : Bool)
    → (((require_hash && is_none o) ≡ false) × (hash_or o local ≡ local))
      ↔ ((o ≡ some local) ⊎ ((o ≡ none) × (require_hash ≡ false)))
hash_case none local true = (λ (h, _). cc, λ h. elim h [ inl bad ↦ cc | inr (_, bad) ↦ cc ])
hash_case none local false = (λ h. inr (refl, refl), λ h. (refl, refl))
hash_case (some hash) local require_hash = (
  λ (_, same). inl (ap some same),
  λ h. elim h [ inl same ↦ (ground arith, cc) | inr (bad, _) ↦ cc ],
)

sign_identity_iff :
    (e : Encoding) (r : EnrollmentRecord) (c : EnrollmentChallenge) (require_hash : Bool)
    (bytes : Bytes)
    → (sign_identity e r c require_hash ≡ ok bytes) ↔ (
        ((c.device_identity_hash ≡ some (device_identity_hash e r))
          ⊎ ((c.device_identity_hash ≡ none) × (require_hash ≡ false)))
        × (e.to_vec (enrollment_payload c (device_identity_hash e r)) ≡ some bytes))
unfolding sign_identity
sign_identity_iff e r c require_hash bytes =
    let local = device_identity_hash e r in
    let hash = hash_or c.device_identity_hash local in
    let missing = require_hash && is_none c.device_identity_hash in
    let e1 : Error = "remote-control enrollment challenge is missing device identity hash" in
    let e2 : Error = "remote-control enrollment challenge does not match local device identity" in
    let e3 : Error = "serialize enrollment signing payload" in
    let signed = λ (h : Text). context e3 (e.to_vec (enrollment_payload c h)) in
    let cases = hash_case c.device_identity_hash local require_hash in
    (
      λ h.
          let (_, one, h1) =
            >>=-eq-ok (bail_if missing e1)
              (λ _. bail_if (not (text_eq hash local)) e2 >> signed hash) h in
          let (_, two, h2) =
            >>=-eq-ok (bail_if (not (text_eq hash local)) e2) (λ _. signed hash) h1 in
          let passed : text_eq hash local ≡ true =
            ground (arith, bail_if-eq-ok (not (text_eq hash local)) e2 two) in
          let same = text_eq_sound hash local passed in
          (
            cases.0 (bail_if-eq-ok missing e1 one, same),
            context-eq-ok e3 (e.to_vec (enrollment_payload c local)) (rw same at h2),
          ),
      λ (identity, written).
          let (present, same) = cases.1 identity in
          let passed : not (text_eq hash local) ≡ false =
            ground (arith, text_eq_iff hash local, same) in
          ap (λ b. bail_if b e1 >> (bail_if (not (text_eq hash local)) e2 >> signed hash)) present
          ∙ ap (λ b. bail_if b e2 >> signed hash) passed
          ∙ ap signed same
          ∙ ap (context e3) written,
    )

matches_enrollment :
    (e : Encoding) (r : EnrollmentRecord) (c : EnrollmentChallenge) (origin path : Text)
    → (is_other_enrollment e r c origin path ≡ false) ↔ (
        (c.purpose ≡ enrollment_type)
        × (c.audience ≡ enrollment_type)
        × (c.account_user_id ≡ r.account_user_id)
        × (c.client_id ≡ r.client_id)
        × (c.target_origin ≡ origin)
        × (c.target_path ≡ path))
matches_enrollment e r c origin path =
    let purpose = text_eq_iff c.purpose enrollment_type in
    let audience = text_eq_iff c.audience enrollment_type in
    let account = text_eq_iff c.account_user_id r.account_user_id in
    let client = text_eq_iff c.client_id r.client_id in
    let at_origin = text_eq_iff c.target_origin origin in
    let at_path = text_eq_iff c.target_path path in
    (
      λ h. (
        purpose.0 (ground arith),
        audience.0 (ground arith),
        account.0 (ground arith),
        client.0 (ground arith),
        at_origin.0 (ground arith),
        at_path.0 (ground arith),
      ),
      λ (p, a, u, l, o, t).
          let one = purpose.1 p in
          let two = audience.1 a in
          let three = account.1 u in
          let four = client.1 l in
          let five = at_origin.1 o in let six = at_path.1 t in ground arith,
    )

-- A payload for an enrollment is built exactly for a challenge that is addressed to it: with a nonce
-- of 32 bytes or more, for the account and the client of the record, at the path that is expected on
-- the relay, with the identity of the device or, where none is required, without one. The payload
-- that is written names the account and the client of the record, the challenge with its nonce,
-- expiry and target, and always the identity of the device.
pub build_enrollment_signing_payload-IsForEnrollment :
    (e : Encoding) (r : EnrollmentRecord) (c : EnrollmentChallenge) (expected : Text)
    (require_hash : Bool) (bytes : Bytes)
    → (build_enrollment_signing_payload e r c expected require_hash ≡ ok bytes) ↔ (
        IsForEnrollment e r c expected require_hash
        × (e.to_vec (enrollment_payload c (device_identity_hash e r)) ≡ some bytes)
        × IsPayloadFor e r c (enrollment_payload c (device_identity_hash e r)))
unfolding build_enrollment_signing_payload relay_target
build_enrollment_signing_payload-IsForEnrollment e r c expected require_hash bytes =
    let e1 : Error = "remote-control enrollment challenge does not match the local enrollment" in
    let e2 : Error = "invalid relay URL" in
    let joined = e.join (api_base ++ text "/") (trim_slashes expected) in
    let end = λ (origin path : Text).
      bail_if (is_other_enrollment e r c origin path) e1 >> sign_identity e r c require_hash in
    (
      λ h.
          let (_, nonce, h1) =
            >>=-eq-ok (validate_nonce e c.nonce)
              (λ _. context e2 joined >>= λ (origin, path). end origin path) h in
          let ((origin, path), target, h2) =
            >>=-eq-ok (context e2 joined) (λ (origin, path). end origin path) h1 in
          let (_, matched, h3) =
            >>=-eq-ok (bail_if (is_other_enrollment e r c origin path) e1)
              (λ _. sign_identity e r c require_hash) h2 in
          let (p, a, u, l, o, t) =
            (matches_enrollment e r c origin path).0
              (bail_if-eq-ok (is_other_enrollment e r c origin path) e1 matched) in
          let (identity, written) = (sign_identity_iff e r c require_hash bytes).0 h3 in
          (
            record {
              nonce = (validate_nonce-HasNonce e c.nonce).0 nonce;
              target = context-eq-ok e2 joined target ∙ cc;
              purpose = p;
              audience = a;
              account = u;
              client = l;
              identity = identity;
            },
            written,
            enrollment_payload-IsPayloadFor e r c u l,
          ),
      λ (h, written, _).
          let matched =
            (matches_enrollment e r c c.target_origin c.target_path).1
              (h.purpose, h.audience, h.account, h.client, refl, refl) in
          ap
            (λ (o : Result Error (Unit {0})).
              o >>= λ _. context e2 joined >>= λ (origin, path). end origin path)
            ((validate_nonce-HasNonce e c.nonce).1 h.nonce)
          ∙ ap (λ o. context e2 o >>= λ (origin, path). end origin path) h.target
          ∙ ap (λ b. bail_if b e1 >> sign_identity e r c require_hash) matched
          ∙ (sign_identity_iff e r c require_hash bytes).1 (h.identity, written),
    )

pub is_session_scope_iff :
    (scopes : List Text) → (is_session_scope scopes ≡ true) ↔ (scopes ≡ session_scope ∷ [])
is_session_scope_iff [] = (λ h. cc, λ h. cc)
is_session_scope_iff (s ∷ []) = (
  λ h. ap (λ t. t ∷ []) (text_eq_sound s session_scope h),
  λ h. let same : s ≡ session_scope = cc in (text_eq_iff s session_scope).1 same,
)
is_session_scope_iff (s ∷ t ∷ rest) = (λ h. cc, λ h. cc)
