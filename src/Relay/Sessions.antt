-- ===== src/Relay/Sessions.antt =====
-- Which sessions src/relay.rs accepts, and which challenges of the relay it answers.
use rcodex.Common.{
  ℕ, ◌<◌, ◌≡◌, ap, ◌∙◌, ◌↔◌, false, not, ◌||◌, Option, none, some, [], ◌∷◌, arith, leb, is_empty,
  any, Result, ok, Error, ◌>>=◌, ◌>>◌, bail_if, context, >>=-eq-ok, bail_if-eq-ok, Text, text_eq,
  text_eq_iff, is_whitespace, trim,
}
use rcodex.Protocol.{EnrollmentRecord, session_scope, is_session_scope}
use rcodex.Protocol.Challenges.{is_session_scope_iff}
use rcodex.Relay.{RemoteControlSession, Platform, validate_session_secret, validate_remote_session}

-- A token that is there and has no white space.
pub record IsSecret (value : Text) : Type 0 where
  pub not_empty : is_empty value ≡ false
  pub trimmed : trim value ≡ value
  pub solid : any is_whitespace value ≡ false

validate_session_secret-IsSecret :
    (value : Text) → (validate_session_secret value ≡ ok tt) ↔ IsSecret value
unfolding validate_session_secret
validate_session_secret-IsSecret value =
    let refused = is_empty value || not (text_eq (trim value) value) || any is_whitespace value in
    let e : Error = "remote-control session token is empty or malformed" in
    let same = text_eq_iff (trim value) value in
    (
      λ h.
          let passed = bail_if-eq-ok refused e h in
          record {
            not_empty = ground (arith, passed);
            trimmed = same.0 (ground (arith, passed));
            solid = ground (arith, passed);
          },
      λ h.
          let one = h.not_empty in
          let two = same.1 h.trimmed in
          let three = h.solid in
          let passed : refused ≡ false = ground (arith, one, two, three) in
          ap (λ b. bail_if b e) passed,
    )

-- A session of this enrollment that is good until a time after this one.
pub record IsSession (platform : Platform) (r : EnrollmentRecord) (s : RemoteControlSession)
    (now_epoch expires_at : ℕ) : Type 0 where
  pub client : s.client_id ≡ r.client_id
  pub account : s.account_user_id ≡ r.account_user_id
  pub scopes : s.scopes ≡ session_scope ∷ []
  pub secret : IsSecret s.remote_control_token
  pub expiration : platform.parse_from_rfc3339 s.expires_at ≡ some expires_at
  pub alive : now_epoch < expires_at

matches_session :
    (r : EnrollmentRecord) (s : RemoteControlSession)
    → ((not (text_eq s.client_id r.client_id) || not (text_eq s.account_user_id r.account_user_id))
        ≡ false)
      ↔ ((s.client_id ≡ r.client_id) × (s.account_user_id ≡ r.account_user_id))
matches_session r s =
    ground
      (arith, text_eq_iff s.client_id r.client_id, text_eq_iff s.account_user_id r.account_user_id)

-- The end of the validation.
alive_case :
    (o : Option ℕ) (e e' : Error) (now_epoch expires_at : ℕ)
    → ((context e o >>= λ t. bail_if (leb t now_epoch) e' >> ok t) ≡ ok expires_at)
      ↔ ((o ≡ some expires_at) × (now_epoch < expires_at))
alive_case none e e' now_epoch expires_at = (λ h. cc, λ (h, _). cc)
alive_case (some t) e e' now_epoch expires_at = (
  λ h.
      let (_, passed, same) = >>=-eq-ok (bail_if (leb t now_epoch) e') (λ _. ok t) h in
      let later = bail_if-eq-ok (leb t now_epoch) e' passed in
      let one : t ≡ expires_at = cc in (ap some one, ground (arith, later, one)),
  λ (same, later).
      let one : t ≡ expires_at = cc in
      let passed : leb t now_epoch ≡ false = ground (arith, later, one) in
      ap (λ b. bail_if b e' >> ok t) passed ∙ ap ok one,
)

-- A session is accepted exactly if it is for the enrollment, has the one scope and a solid token, and
-- expires later than now, and then with the time of its expiration.
pub validate_remote_session-IsSession :
    (platform : Platform) (r : EnrollmentRecord) (s : RemoteControlSession)
    (now_epoch expires_at : ℕ)
    → (validate_remote_session platform r s now_epoch ≡ ok expires_at)
      ↔ IsSession platform r s now_epoch expires_at
unfolding validate_remote_session
validate_remote_session-IsSession platform r s now_epoch expires_at =
    let other =
      not (text_eq s.client_id r.client_id) || not (text_eq s.account_user_id r.account_user_id) in
    let e1 : Error = "remote-control session does not match the local enrollment" in
    let e2 : Error = "remote-control session has unexpected scopes" in
    let e3 : Error = "remote-control session expiration is not RFC 3339" in
    let e4 : Error = "remote-control session is already expired" in
    let scope = not (is_session_scope s.scopes) in
    let scoped = is_session_scope_iff s.scopes in
    let end : Result Error ℕ = context e3 (platform.parse_from_rfc3339 s.expires_at) >>= λ t.
    bail_if (leb t now_epoch) e4 >> ok t in
    let ends = alive_case (platform.parse_from_rfc3339 s.expires_at) e3 e4 now_epoch expires_at in
    (
      λ h.
          let (_, one, h1) =
            >>=-eq-ok (bail_if other e1)
              (λ _. bail_if scope e2 >> (validate_session_secret s.remote_control_token >> end))
              h in
          let (_, two, h2) =
            >>=-eq-ok (bail_if scope e2)
              (λ _. validate_session_secret s.remote_control_token >> end) h1 in
          let (_, three, h3) =
            >>=-eq-ok (validate_session_secret s.remote_control_token) (λ _. end) h2 in
          let (client, account) = (matches_session r s).0 (bail_if-eq-ok other e1 one) in
          let (expiration, alive) = ends.0 h3 in
          record {
            client = client;
            account = account;
            scopes = scoped.0 (ground (arith, bail_if-eq-ok scope e2 two));
            secret = (validate_session_secret-IsSecret s.remote_control_token).0 three;
            expiration = expiration;
            alive = alive;
          },
      λ h.
          let good = scoped.1 h.scopes in
          let passed : scope ≡ false = ground (arith, good) in
          ap
            (λ b.
              bail_if b e1
              >> (bail_if scope e2 >> (validate_session_secret s.remote_control_token >> end)))
            ((matches_session r s).1 (h.client, h.account))
          ∙ ap (λ b. bail_if b e2 >> (validate_session_secret s.remote_control_token >> end)) passed
          ∙ ap (λ (o : Result Error (Unit {0})). o >> end)
              ((validate_session_secret-IsSecret s.remote_control_token).1 h.secret)
          ∙ ends.1 (h.expiration, h.alive),
    )
