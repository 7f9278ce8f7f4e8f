-- ===== src/Oauth/Stepped.antt =====
-- What stands behind a token that `request_step_up_token` of src/oauth.rs returns.
use rcodex.Common.{
  ℕ, ◌+◌, ◌-◌, ◌≤◌, ◌≡◌, refl, ap, ◌∙◌, ◌≢◌, inl, inr, true, false, not, Option, none, some, List,
  [], ◌∷◌, arith, ltb, if◌then◌else◌, Bool-cases, is_empty, All, Result, ok, Error, ◌>>=◌, ◌>>◌,
  bail_if, context, >>=-eq-ok, bail_if-eq-ok, context-eq-ok, Text, Bytes, text, text_eq,
  text_eq_sound,
}
use mathlib.Core.List.{Memᴰ}
use mathlib.Core.Path.{subst}
use rcodex.Auth.{or_else}
use rcodex.Oauth.{
  StepUpClaims, enroll_scope, all_scopes, sort, dedup, is_enroll_only, is_stale, millis,
  step_up_claims, check_claims, validate_step_up_token,
}
use rcodex.Oauth.Scopes.{enroll_only-All}
use rcodex.Oauth.Urls.{exchange_form}
use rcodex.Oauth.Callback.{
  Connection, Browser, callback_path, parameter, is_value, is_given, nonempty_code, read_callback,
  accept_callback, receive_callback, Flow, bind_callback, exchange_code, request_step_up_token,
  redirect_uri, authorize_url,
}

-- A fresh token of the account for the one scope.
pub record IsStepUp (decode : Text → Option Bytes) (parse_claims : Bytes → Option StepUpClaims)
    (token account : Text) (now : ℕ) : Type 0 where
  pub claims : StepUpClaims
  pub decoded : step_up_claims decode parse_claims token ≡ ok claims
  pub user : or_else claims.auth.chatgpt_account_user_id claims.auth.account_user_id ≡ some account
  pub issued : claims.iat ≤ now + 60
  pub fresh : now ≤ claims.iat + 300
  pub password : millis now ≤ claims.pwd_auth_time + 300000
  pub scopes : All (λ s. s ≡ enroll_scope) (all_scopes claims)
  pub some_scope : all_scopes claims ≢ []

module _ (decode : Text → Option Bytes) (parse_claims : Bytes → Option StepUpClaims) where
  validate_step_up_token-IsStepUp :
      (token account : Text) (now : ℕ)
      → validate_step_up_token decode parse_claims token account now ≡ ok tt
      → IsStepUp decode parse_claims token account now
  unfolding validate_step_up_token check_claims
  validate_step_up_token-IsStepUp token account now h =
      let e1 : Error = "remote-control step-up token has no account user ID" in
      let e2 : Error = "remote-control step-up token belongs to a different account" in
      let e3 : Error = "remote-control step-up token is not fresh" in
      let e4 : Error = "remote-control step-up token has no fresh password authentication" in
      let e5 : Error = "remote-control step-up token has unexpected authorization scopes" in
      let who =
        λ (c : StepUpClaims). or_else c.auth.chatgpt_account_user_id c.auth.account_user_id in
      let late = λ (c : StepUpClaims). ltb 300000 (millis now - c.pwd_auth_time) in
      let wide = λ (c : StepUpClaims). not (is_enroll_only (dedup (sort (all_scopes c)))) in
      let (c, decoded, h1) =
        >>=-eq-ok (step_up_claims decode parse_claims token)
          (λ c. check_claims decode parse_claims c account now) h in
      let (user, known, h2) =
        >>=-eq-ok (context e1 (who c))
          (λ user.
            bail_if (not (text_eq user account)) e2
            >> (bail_if (is_stale c.iat now) e3 >> (bail_if (late c) e4 >> bail_if (wide c) e5)))
          h1 in
      let (_, same, h3) =
        >>=-eq-ok (bail_if (not (text_eq user account)) e2)
          (λ _. bail_if (is_stale c.iat now) e3 >> (bail_if (late c) e4 >> bail_if (wide c) e5))
          h2 in
      let (_, fresh, h4) =
        >>=-eq-ok (bail_if (is_stale c.iat now) e3)
          (λ _. bail_if (late c) e4 >> bail_if (wide c) e5) h3 in
      let (_, timely, h5) = >>=-eq-ok (bail_if (late c) e4) (λ _. bail_if (wide c) e5) h4 in
      let matched : text_eq user account ≡ true =
        ground (arith, bail_if-eq-ok (not (text_eq user account)) e2 same) in
      let not_stale = bail_if-eq-ok (is_stale c.iat now) e3 fresh in
      let not_late = bail_if-eq-ok (late c) e4 timely in
      let narrow : is_enroll_only (dedup (sort (all_scopes c))) ≡ true =
        ground (arith, bail_if-eq-ok (wide c) e5 h5) in
      let (scopes, some_scope) = enroll_only-All (all_scopes c) narrow in
      record {
        claims = c;
        decoded = decoded;
        user = context-eq-ok e1 (who c) known ∙ ap some (text_eq_sound user account matched);
        issued = ground (arith, not_stale);
        fresh = ground (arith, not_stale);
        password = millis_le (millis now) c.pwd_auth_time not_late;
        scopes = scopes;
        some_scope = some_scope;
      }
    where
      millis_le : (m p : ℕ) → ltb 300000 (m - p) ≡ false → m ≤ p + 300000
      millis_le m p h = ground (arith, h)

-- A request for the callback with this state and this code, and no error.
pub record IsCallback (b : Browser) (state code : Text) (c : Connection) : Type 0 where
  pub parameters : List (Text × Text)
  pub read : read_callback b c ≡ ok (callback_path, parameters)
  pub right_state : parameter (text "state") parameters ≡ some state
  pub no_error : parameter (text "error") parameters ≡ none
  pub right_code : parameter (text "code") parameters ≡ some code
  pub some_code : is_empty code ≡ false

is_value_iff : (o : Option Text) (expected : Text) → is_value o expected ≡ true → o ≡ some expected
is_value_iff none expected h = cc
is_value_iff (some v) expected h = ap some (text_eq_sound v expected h)

not_given : (o : Option Text) → is_given o ≡ false → o ≡ none
not_given none h = refl
not_given (some v) h = cc

given_code :
    (o : Option Text) (code : Text)
    → nonempty_code o ≡ some code
    → (o ≡ some code) × (is_empty code ≡ false)
given_code none code h = cc
given_code (some v) code h = elim (Bool-cases (is_empty v)) [
  | inl gone ↦ let bad = rw gone at h in cc
  | inr there ↦
      let h' = rw there at h in let same : v ≡ code = cc in (ap some same, rw same at there)
]

module _ (b : Browser) (state code : Text) where
  accept_callback-IsCallback :
      (c : Connection) (path : Text) (parameters : List (Text × Text))
      → read_callback b c ≡ ok (path, parameters)
      → path ≡ callback_path
      → accept_callback b state c parameters ≡ ok code
      → IsCallback b state code c
  unfolding accept_callback
  accept_callback-IsCallback c path parameters read_in same h =
      let e1 : Error = "remote-control OAuth callback state did not match" in
      let e2 : Error = "remote-control authorization failed" in
      let e3 : Error = "remote-control OAuth callback has no code" in
      let wrong = not (is_value (parameter (text "state") parameters) state) in
      let failed = is_given (parameter (text "error") parameters) in
      let given = nonempty_code (parameter (text "code") parameters) in
      let end : Result Error Text = context e3 given >>= λ code. c.written >>= λ done. ok code in
      let (_, one, h1) = >>=-eq-ok (bail_if wrong e1) (λ _. bail_if failed e2 >> end) h in
      let (_, two, h2) = >>=-eq-ok (bail_if failed e2) (λ _. end) h1 in
      let (found, three, h3) =
        >>=-eq-ok (context e3 given) (λ code. c.written >>= λ done. ok code) h2 in
      let (_, _, h4) = >>=-eq-ok c.written (λ done. ok found) h3 in
      let same_code : found ≡ code = cc in
      let (here, there) =
        given_code (parameter (text "code") parameters) code
          (context-eq-ok e3 given three ∙ ap some same_code) in
      let right : is_value (parameter (text "state") parameters) state ≡ true =
        ground (arith, bail_if-eq-ok wrong e1 one) in
      record {
        parameters = parameters;
        read = read_in ∙ ap (λ p. ok (p, parameters)) same;
        right_state = is_value_iff (parameter (text "state") parameters) state right;
        no_error = not_given (parameter (text "error") parameters) (bail_if-eq-ok failed e2 two);
        right_code = here;
        some_code = there;
      }

  receive_callback-IsCallback :
      (connections : List Connection)
      → receive_callback b state connections ≡ ok code
      → (c : Connection) × Memᴰ c connections × IsCallback b state code c
  unfolding receive_callback
  receive_callback-IsCallback [] h = cc
  receive_callback-IsCallback (c ∷ rest) h =
      let next = λ (path : Text) (parameters : List (Text × Text)).
        (if text_eq path callback_path
          then accept_callback b state c parameters
          else c.written >> receive_callback b state rest) in
      let ((path, parameters), read_in, h1) =
        >>=-eq-ok (read_callback b c) (λ (path, parameters). next path parameters) h in
      elim (Bool-cases (text_eq path callback_path)) [
        | inl same ↦
            let accepted = rw same at h1 in
            (
              c,
              Memᴰ.head refl,
              accept_callback-IsCallback c path parameters read_in
                  (text_eq_sound path callback_path same) accepted,
            )
        | inr apart ↦
            let h2 = rw apart at h1 in
            let (_, _, h3) = >>=-eq-ok c.written (λ _. receive_callback b state rest) h2 in
            let (d, listed, found) = receive_callback-IsCallback rest h3 in
            (d, Memᴰ.tail listed, found)
      ]

exchange_code-IsStepUp :
    (f : Flow) (account : Text) (port : ℕ) (code token : Text)
    → exchange_code f account port code ≡ ok token
    → (f.exchange (exchange_form code (redirect_uri f port) f.verifier) ≡ ok (true, ok token))
      × IsStepUp f.decode f.parse_claims token account f.now
unfolding exchange_code
exchange_code-IsStepUp f account port code token h =
    let e : Error = "remote-control authorization exchange failed" in
    let sent = f.exchange (exchange_form code (redirect_uri f port) f.verifier) in
    let tested =
      λ (t : Text). validate_step_up_token f.decode f.parse_claims t account f.now >> ok t in
    let ((success, answer), came, h1) =
      >>=-eq-ok sent (λ (success, answer). bail_if (not success) e >> (answer >>= tested)) h in
    let (_, good, h2) = >>=-eq-ok (bail_if (not success) e) (λ _. answer >>= tested) h1 in
    let (t, given, h3) = >>=-eq-ok answer tested h2 in
    let (_, valid, h4) =
      >>=-eq-ok (validate_step_up_token f.decode f.parse_claims t account f.now) (λ _. ok t) h3 in
    let same : t ≡ token = cc in
    let passed : success ≡ true = ground (arith, bail_if-eq-ok (not success) e good) in
    (
      came ∙ ap (λ s. ok (s, answer)) passed ∙ ap (λ a. ok (true, a)) (given ∙ ap ok same),
      subst (λ x. IsStepUp f.decode f.parse_claims x account f.now) same
          (validate_step_up_token-IsStepUp f.decode f.parse_claims t account f.now valid),
    )

-- The exchange that gave a token: for the code of a callback of this flow, with its verifier.
pub record IsExchanged (f : Flow) (token : Text) : Type 0 where
  pub port : ℕ
  pub connection : Connection
  pub code : Text
  pub arrived : Memᴰ connection f.connections
  pub callback : IsCallback f.browser f.state code connection
  pub given : f.exchange (exchange_form code (redirect_uri f port) f.verifier) ≡ ok (true, ok token)

-- A step-up token is returned only after a request to the callback that has the state of this flow, a
-- code and no error, and only if it was given with success for that code and the verifier of the
-- flow; it is of the expected account, was issued at most 300 seconds before and 60 seconds after
-- now, with a password given at most 300 seconds before, and it is for the scope of the enrollment
-- and no other.
pub request_step_up_token-IsStepUp :
    (f : Flow) (account_id account token : Text)
    → request_step_up_token f account_id account ≡ ok token
    → IsExchanged f token × IsStepUp f.decode f.parse_claims token account f.now
unfolding request_step_up_token
request_step_up_token-IsStepUp f account_id account token h =
    let received = receive_callback f.browser f.state f.connections in
    let (port, _, h1) =
      >>=-eq-ok (bind_callback f.can_bind (1455 ∷ 1457 ∷ []))
        (λ port.
          f.open_browser (authorize_url f account_id port)
          >> (received >>= exchange_code f account port))
        h in
    let (_, _, h2) =
      >>=-eq-ok (f.open_browser (authorize_url f account_id port))
        (λ _. received >>= exchange_code f account port) h1 in
    let (code, came, h3) = >>=-eq-ok received (exchange_code f account port) h2 in
    let (c, listed, found) =
      receive_callback-IsCallback f.browser f.state code f.connections came in
    let (given, valid) = exchange_code-IsStepUp f account port code token h3 in
    (
      record {
        port = port;
        connection = c;
        code = code;
        arrived = listed;
        callback = found;
        given = given;
      },
      valid,
    )
