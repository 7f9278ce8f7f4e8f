-- ===== src/Broker/Service.antt =====
-- src/main.rs: `run_broker`, which answers the requests of a user interface one by one, and what it
-- calls for each. Writing to the output does not fail here, but for the limit on a response. The
-- rest of the program is the parameter `Remote`, one for each request.
pub mod Answers
pub mod Connections
pub mod Tests
use rcodex.Common.{
  ℕ, not, ◌||◌, Option, none, some, List, [], ◌∷◌, map, ltb, if◌then◌else◌, length, find_first,
  Result, ok, err, Error, bail_if, context, map_err, Text, Bytes, text, to_ascii_lowercase,
  contains, ◌>>=◌, ◌>>◌,
}
use rcodex.Api.Environment.{RemoteEnvironment, has_id}
use rcodex.Broker.Pairing.{BrokerProtocolError}
use rcodex.Broker.Hosts.{BrokerHost, try_from}
use rcodex.Broker.Session.{
  BrokerRequest, BrokerResponse, BrokerAction, BrokerErrorCode, BrokerSession, Admitted,
  authentication_required, enrollment_required, invalid_request, incompatible_version,
  host_not_found, host_offline, relay_unavailable, hosts, paired, ready, respond, request_id,
  error_response, broker_protocol_version, max_broker_frame_bytes, accept, decode_request,
}

-- What the rest of the program answers during one request. An error is its message.
pub record Remote : Type 0 where
  pub ensure_session : Result Text Text
  pub auth : Result Text (Unit {0})
  pub pair_client : Text → Text → Result Text (Unit {0})
  pub list_environments : Text → Result Text (List RemoteEnvironment)
  pub inspect_stock_codex : Result Text Text
  pub verify_remote_codex_version : Text → RemoteEnvironment → Result Text (Unit {0})
  pub connect : Text → Text → Result Text (Unit {0})

unfoldable pub classify_broker_error : Text → BrokerErrorCode
classify_broker_error error =
    let message = map to_ascii_lowercase error in
    if contains (text "auth") message
      || contains (text "login") message
      || contains (text "account") message
    then authentication_required
    else if contains (text "enroll") message || contains (text "keychain") message
    then enrollment_required
    else if contains (text "version") message || contains (text "pinned") message
    then incompatible_version
    else relay_unavailable

-- `map_err(|error| classify_broker_error(&error))`.
abbrev pub classified {ℓ} : {A : Type ℓ} → Result Text A → Result BrokerErrorCode A
classified (ok a) = ok a
classified (err e) = err (classify_broker_error e)

-- `map(BrokerHost::try_from).collect()`.
unfoldable pub hosts_of : List RemoteEnvironment → Result BrokerProtocolError (List BrokerHost)
hosts_of [] = ok []
hosts_of (e ∷ es) = do h ← try_from e; hs ← hosts_of es; ok (h ∷ hs)

unfoldable pub broker_hosts_for_client : Remote → Text → Result BrokerErrorCode (List BrokerHost)
broker_hosts_for_client remote client_id = do
  environments ← classified (remote.list_environments client_id)
  bail_if (ltb 100 (length environments)) relay_unavailable
  map_err relay_unavailable (hosts_of environments)

unfoldable pub list_broker_hosts : Remote → Result BrokerErrorCode (List BrokerHost)
list_broker_hosts remote = do
  client_id ← classified remote.ensure_session
  broker_hosts_for_client remote client_id

unfoldable pub pair_and_list_hosts : Remote → Text → Result BrokerErrorCode (List BrokerHost)
pair_and_list_hosts remote pairing_code = do
  client_id ← classified remote.ensure_session
  classified (remote.pair_client client_id pairing_code)
  broker_hosts_for_client remote client_id

unfoldable pub open_remote_app_server : Remote → Text → Result BrokerErrorCode (Unit {0})
open_remote_app_server remote environment_id = do
  local_version ← map_err incompatible_version remote.inspect_stock_codex
  client_id ← classified remote.ensure_session
  classified remote.auth
  environments ← classified (remote.list_environments client_id)
  environment ← context host_not_found (find_first (has_id environment_id) environments)
  bail_if (not environment.online) host_offline
  map_err incompatible_version (remote.verify_remote_codex_version local_version environment)
  classified (remote.connect client_id environment_id)

-- The response to a request, and the host to which the broker now connects its streams.
abbrev pub Answer : Type 0
Answer = BrokerResponse × Option Text

abbrev pub answer_hosts :
    ℕ
    → (ℕ → ℕ → List BrokerHost → BrokerResponse)
    → Result BrokerErrorCode (List BrokerHost)
    → Answer
answer_hosts id respond_with (ok found) = (respond_with broker_protocol_version id found, none)
answer_hosts id respond_with (err code) = (error_response id code, none)

abbrev pub answer_open : ℕ → Text → Result BrokerErrorCode (Unit {0}) → Answer
answer_open id environment_id (ok u) =
    (ready broker_protocol_version id environment_id, some environment_id)
answer_open id environment_id (err code) = (error_response id code, none)

unfoldable pub perform : Remote → BrokerAction → Answer
perform remote (respond response) = (response, none)
perform remote (BrokerAction.pair id code) =
    answer_hosts id paired (pair_and_list_hosts remote code)
perform remote (BrokerAction.list_hosts id) = answer_hosts id hosts (list_broker_hosts remote)
perform remote (BrokerAction.open_app_server id environment_id) =
    answer_open id environment_id (open_remote_app_server remote environment_id)

unfoldable pub answer_admitted : Remote → ℕ → Admitted → BrokerSession × Answer
unfolding perform
answer_admitted remote id (s, err code) = (s, (error_response id code, none))
answer_admitted remote id (s, ok action) = (s, perform remote action)

-- A frame that was read, and the rest of the program while it is answered.
pub record Turn : Type 0 where
  pub frame : Bytes
  pub remote : Remote

unfoldable pub answer_decoded :
    BrokerSession → Remote → Result BrokerProtocolError BrokerRequest → BrokerSession × Answer
unfolding answer_admitted
answer_decoded s remote (err e) = (s, (error_response 0 invalid_request, none))
answer_decoded s remote (ok request) =
    answer_admitted remote (request_id request) (accept s request)

-- How the loop ends: at the end of the input, with an error, or with the streams handed over.
pub data Ending : Type 0 where
  finished : Ending
  failed : Error → Ending
  bridged : Text → Ending

pub record Run : Type 0 where
  pub responses : List BrokerResponse
  pub ending : Ending

-- What the loop does with an answer, given the writing of its response and the rest of the loop.
unfoldable pub after_write : Answer → Run → Result Error (Unit {0}) → Run
after_write answer rest (err e) = record { responses = []; ending = failed e }
after_write (response, none) rest (ok u) = record {
  responses = response ∷ rest.responses;
  ending = rest.ending;
}
after_write (response, some environment_id) rest (ok u) = record {
  responses = response ∷ [];
  ending = bridged environment_id;
}

-- `parse` and `to_vec` are `serde_json` for requests and responses.
module _ (parse : Bytes → Option BrokerRequest) (to_vec : BrokerResponse → Option Bytes) where
  unfoldable pub write_broker_response : BrokerResponse → Result Error (Unit {0})
  write_broker_response response = do
    bytes ← context "serialize relay broker response" (to_vec response)
    bail_if (ltb max_broker_frame_bytes (length bytes))
        "relay broker response exceeded the safety limit"

  -- The `loop`, which ends with the input.
  unfoldable pub run_broker : BrokerSession → List Turn → Run
  unfolding answer_decoded
  run_broker s [] = record { responses = []; ending = finished }
  run_broker s (t ∷ ts) =
      let (s', answer) = answer_decoded s t.remote (decode_request parse t.frame) in
      after_write answer (run_broker s' ts) (write_broker_response answer.0)
