-- ===== src/Oauth/Tests.antt =====
-- Runs of src/oauth.rs.
use rcodex.Common.{
  ◌+◌, ◌^◌, ◌≡◌, refl, true, Option, none, some, [], ◌∷◌, ◌==◌, if◌then◌else◌, ok, err, Text, Bytes,
  text, text_eq, is_whitespace,
}
use rcodex.Auth.{second_part, until_dot}
use rcodex.Oauth.{
  StepUpClaims, enroll_scope, split_whitespace, text_le, insert_text, sort, dedup, step_up_claims,
  check_claims, validate_step_up_token,
}
use rcodex.Oauth.Callback.{
  Connection, Browser, Flow, first_line, parameter, read_callback, accept_callback,
  receive_callback, bind_callback, exchange_code, request_step_up_token,
}
use rcodex.Oauth.Stepped.{IsExchanged, IsStepUp, request_step_up_token-IsStepUp}

-- The password was given 200 seconds before, and the scope comes twice.
abbrev claims : StepUpClaims
claims = record {
  iat = 2 ^ 63 + 1000;
  pwd_auth_time = 2 ^ 63 + 800000;
  scope = some (text " codex.remote_control.enroll ");
  scp = enroll_scope ∷ [];
  auth = record { account_user_id = some (text "user"); chatgpt_account_user_id = none };
}

abbrev parse_claims : Bytes → Option StepUpClaims
parse_claims bytes = some claims

abbrev connection : Text → Connection
connection request = record { bytes = ok request; written = ok tt }

-- A target is a path, or the path of the callback with the query of the tests.
abbrev browser : Browser
browser = record {
  from_utf8 = λ bytes. some bytes;
  parse_url = λ target. some (
    if text_eq target (text "/c") then text "/auth/callback" else target,
    (text "state", text "s") ∷ (text "code", text "1") ∷ [],
  );
}

abbrev flow : Flow
flow = record {
  browser = browser;
  can_bind = λ port. port == 1457;
  state = text "s";
  display = λ n. text "1457";
  verifier = text "v";
  challenge_of = λ v. v;
  open_browser = λ url. ok tt;
  connections = connection (text "GET /favicon.ico") ∷ connection (text "GET /c HTTP/1.1") ∷ [];
  exchange = λ form. ok (true, ok (text "h.p.s"));
  decode = λ s. some s;
  parse_claims = parse_claims;
  now = 2 ^ 63 + 1000;
}

step_up_run : request_step_up_token flow (text "acc") (text "user") ≡ ok (text "h.p.s")
unfolding request_step_up_token bind_callback receive_callback read_callback accept_callback
    exchange_code validate_step_up_token step_up_claims check_claims split_whitespace first_line
    parameter sort insert_text dedup text_le second_part until_dot text text_eq is_whitespace
step_up_run = refl

step_up_too_late :
    validate_step_up_token (λ s. some s) parse_claims (text "h.p.s") (text "user") (2 ^ 63 + 1301)
    ≡ err "remote-control step-up token is not fresh"
unfolding validate_step_up_token step_up_claims check_claims second_part until_dot text text_eq
step_up_too_late = refl

step_up_wrong_state :
    receive_callback browser (text "t") (connection (text "GET /c HTTP/1.1") ∷ [])
    ≡ err "remote-control OAuth callback state did not match"
unfolding receive_callback read_callback accept_callback split_whitespace first_line parameter text
    text_eq is_whitespace
step_up_wrong_state = refl

request_step_up_token-IsStepUp_example :
    IsExchanged flow (text "h.p.s")
    × IsStepUp flow.decode parse_claims (text "h.p.s") (text "user") (2 ^ 63 + 1000)
request_step_up_token-IsStepUp_example =
    request_step_up_token-IsStepUp flow (text "acc") (text "user") (text "h.p.s") step_up_run
