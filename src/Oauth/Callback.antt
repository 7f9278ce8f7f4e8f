-- ===== src/Oauth/Callback.antt =====
-- src/oauth.rs: `receive_callback` and `request_step_up_token`. The connections that arrive are a list;
-- after the last the wait times out.
use rcodex.Common.{
  ℕ, Bool, true, false, not, Option, none, some, List, [], ◌∷◌, ◌++◌, ◌==◌, if◌then◌else◌, is_empty,
  Result, ok, err, Error, ◌>>=◌, ◌>>◌, bail_if, context, Text, Bytes, text, text_eq,
}
use rcodex.Oauth.{StepUpClaims, split_whitespace, validate_step_up_token}
use rcodex.Oauth.Urls.{build_oauth_authorize_url, exchange_form}

-- What `read` gives, and whether an answer can be written.
pub record Connection : Type 0 where
  pub bytes : Result Error Bytes
  pub written : Result Error (Unit {0})

-- `parse_url` takes the target of a request to the path and the query pairs.
pub record Browser : Type 0 where
  pub from_utf8 : Bytes → Option Text
  pub parse_url : Text → Option (Text × List (Text × Text))

abbrev pub callback_path : Text
callback_path = text "/auth/callback"

-- `lines().next()`.
unfoldable pub first_line : Text → Text
first_line [] = []
first_line (c ∷ s) = let rest = first_line s in if c == b'\n' then [] else c ∷ rest

abbrev pub second_word : List Text → Option Text
second_word [] = none
second_word (w ∷ []) = none
second_word (w ∷ v ∷ rest) = some v

-- `get` on the pairs collected to a map: the last one counts.
unfoldable pub parameter : Text → List (Text × Text) → Option Text
parameter key [] = none
parameter key ((k, v) ∷ rest) = elim (parameter key rest) [
  | some w ↦ some w
  | none ↦ if text_eq k key then some v else none
]

abbrev pub is_value : Option Text → Text → Bool
is_value none expected = false
is_value (some v) expected = text_eq v expected

abbrev pub is_given : Option Text → Bool
is_given none = false
is_given (some v) = true

abbrev pub nonempty_code : Option Text → Option Text
nonempty_code none = none
nonempty_code (some code) = if is_empty code then none else some code

module _ (b : Browser) where
  unfoldable pub read_callback : Connection → Result Error (Text × List (Text × Text))
  read_callback c = do
    bytes ← c.bytes
    request ← context "OAuth callback is not UTF-8" (b.from_utf8 bytes)
    target ←
        context "OAuth callback request is malformed"
          (second_word (split_whitespace (first_line request)))
    context "OAuth callback URL is invalid" (b.parse_url target)

  -- The answer to the callback itself.
  unfoldable pub accept_callback : Text → Connection → List (Text × Text) → Result Error Text
  accept_callback expected_state c parameters = do
    bail_if (not (is_value (parameter (text "state") parameters) expected_state))
        "remote-control OAuth callback state did not match"
    bail_if (is_given (parameter (text "error") parameters)) "remote-control authorization failed"
    code ←
        context "remote-control OAuth callback has no code"
          (nonempty_code (parameter (text "code") parameters))
    done ← c.written
    ok code

  -- The loop. An answer that cannot be written is an error, as the one that it goes with.
  unfoldable pub receive_callback : Text → List Connection → Result Error Text
  receive_callback expected_state [] = err "timed out waiting for remote-control authorization"
  receive_callback expected_state (c ∷ rest) = do
    (path, parameters) ← read_callback c
    if text_eq path callback_path
        then accept_callback expected_state c parameters
        else c.written >> receive_callback expected_state rest

-- The rest of the flow: the ports that can be bound, how a port is written, what is random, the
-- browser, and the exchange of a form, with the success of its status and its answer.
pub record Flow : Type 0 where
  pub browser : Browser
  pub can_bind : ℕ → Bool
  pub display : ℕ → Text
  pub verifier : Text
  pub challenge_of : Text → Text
  pub state : Text
  pub open_browser : Text × List (Text × Text) → Result Error (Unit {0})
  pub connections : List Connection
  pub exchange : List (Text × Text) → Result Error (Bool × Result Error Text)
  pub decode : Text → Option Bytes
  pub parse_claims : Bytes → Option StepUpClaims
  pub now : ℕ

-- `bind_callback`.
unfoldable pub bind_callback : (ℕ → Bool) → List ℕ → Result Error ℕ
bind_callback can_bind [] = err "remote-control OAuth callback ports 1455 and 1457 are both in use"
bind_callback can_bind (port ∷ rest) =
    let later = bind_callback can_bind rest in if can_bind port then ok port else later

abbrev pub redirect_uri : Flow → ℕ → Text
redirect_uri f port = text "http://localhost:" ++ f.display port ++ callback_path

abbrev pub authorize_url : Flow → Text → ℕ → Text × List (Text × Text)
authorize_url f account_id port = build_oauth_authorize_url (record {
  account_id = some account_id;
  code_challenge = f.challenge_of f.verifier;
  originator = text "codex_desktop";
  redirect_uri = redirect_uri f port;
  state = f.state;
})

-- The code is exchanged for a token, which is tested.
unfoldable pub exchange_code : Flow → Text → ℕ → Text → Result Error Text
exchange_code f account_user_id port code = do
  (success, answer) ← f.exchange (exchange_form code (redirect_uri f port) f.verifier)
  bail_if (not success) "remote-control authorization exchange failed"
  token ← answer
  validate_step_up_token f.decode f.parse_claims token account_user_id f.now
  ok token

unfoldable pub request_step_up_token :
    Flow → (account_id account_user_id : Text) → Result Error Text
request_step_up_token f account_id account_user_id = do
  port ← bind_callback f.can_bind (1455 ∷ 1457 ∷ [])
  f.open_browser (authorize_url f account_id port)
  code ← receive_callback f.browser f.state f.connections
  exchange_code f account_user_id port code
