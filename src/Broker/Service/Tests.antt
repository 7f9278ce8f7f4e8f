-- ===== src/Broker/Service/Tests.antt =====
-- Runs of the broker on a few frames.
use rcodex.Common.{
  ◌≡◌, refl, ◌↔◌, true, false, Option, none, some, List, [], ◌∷◌, ◌==◌, if◌then◌else◌, length, ok,
  err, Bytes, text, text_eq, str_len, is_control, to_ascii_lowercase, trim, contains,
}
use rcodex.Api.Environment.{RemoteEnvironment, display_name}
use rcodex.Broker.Hosts.{
  host_of, Describes, try_from, IsPresentable, try_from-IsPresentable, validate_text,
  validate_optional_text,
}
use rcodex.Broker.Session.{
  BrokerRequest, BrokerResponse, new_session, accept, accept_new, decode_request, ready, hosts,
  handshake_response, error_response, invalid_request, enrollment_required,
}
use rcodex.Broker.Session.Admission.{
  IsAdmission, IsGreeted, IsFresh, admitted, accept-IsAdmission, admitted-IsGreeted,
}
use rcodex.Broker.Service.{
  Remote, Turn, bridged, run_broker, answer_decoded, after_write, write_broker_response, perform,
  answer_admitted, open_remote_app_server, list_broker_hosts, broker_hosts_for_client, hosts_of,
  pair_and_list_hosts, classify_broker_error,
}
use rcodex.Broker.Service.Answers.{
  Answers, Closes, IsGuarded, run_broker-Answers, run_broker-IsGuarded,
}
use rcodex.Broker.Service.Connections.{
  IsOpen, IsListing, open_remote_app_server-IsOpen, list_broker_hosts-IsListing,
}

abbrev host : RemoteEnvironment
host = record {
  app_server_version = some (text "1.2.3");
  arch = none;
  busy = false;
  client_type = none;
  display_label = none;
  env_id = text "a";
  host_label = none;
  installation_id = none;
  kind = none;
  last_seen_at = none;
  name = some (text "n");
  online = true;
  os = none;
}

abbrev remote : Remote
remote = record {
  ensure_session = ok (text "c");
  auth = ok tt;
  pair_client = λ c code. err (text "Enrollment is missing");
  list_environments = λ c. ok (host ∷ []);
  inspect_stock_codex = ok (text "1.2.3");
  verify_remote_codex_version = λ v e. ok tt;
  connect = λ c id. ok tt;
}

shown : try_from host ≡ ok (host_of host)
unfolding try_from validate_text validate_optional_text display_name text trim str_len is_control
shown = refl

try_from-IsPresentable_example :
    (try_from host ≡ ok (host_of host))
    ↔ (Describes host (host_of host) × IsPresentable (host_of host))
try_from-IsPresentable_example = try_from-IsPresentable host (host_of host)

opens : open_remote_app_server remote (text "a") ≡ ok tt
unfolding open_remote_app_server text text_eq
opens = refl

open_remote_app_server-IsOpen_example : IsOpen remote (text "a")
open_remote_app_server-IsOpen_example = open_remote_app_server-IsOpen remote (text "a") opens

lists : list_broker_hosts remote ≡ ok (host_of host ∷ [])
unfolding list_broker_hosts broker_hosts_for_client hosts_of
lists = rw shown refl

list_broker_hosts-IsListing_example : IsListing remote (host_of host ∷ [])
list_broker_hosts-IsListing_example = list_broker_hosts-IsListing remote (host_of host ∷ []) lists

-- The first byte of a frame names its request, the second is the identifier.
abbrev parse : Bytes → Option BrokerRequest
parse (kind ∷ id ∷ []) =
    if kind == 0
    then some (BrokerRequest.handshake 1 id 1 1)
    else if kind == 1
    then some (BrokerRequest.list_hosts 1 id)
    else if kind == 2
    then some (BrokerRequest.open_app_server 1 id (text "a"))
    else some (BrokerRequest.pair 1 id (text "ABCD-1234"))
parse _ = none

abbrev print : BrokerResponse → Option Bytes
print r = some []

abbrev turn : Bytes → Turn
turn b = record { frame = b; remote = remote }

-- A listing too early, a greeting, nonsense, a listing, a repeated identifier, a pairing, and a
-- connection.
abbrev turns : List Turn
turns =
    turn (1 ∷ 5 ∷ [])
    ∷ turn (0 ∷ 6 ∷ [])
    ∷ turn (9 ∷ [])
    ∷ turn (1 ∷ 7 ∷ [])
    ∷ turn (1 ∷ 7 ∷ [])
    ∷ turn (3 ∷ 8 ∷ [])
    ∷ turn (2 ∷ 9 ∷ [])
    ∷ []

run_test : run_broker parse print new_session turns ≡ record {
  responses =
      error_response 5 invalid_request
      ∷ handshake_response 6
      ∷ error_response 0 invalid_request
      ∷ hosts 1 7 (host_of host ∷ [])
      ∷ error_response 7 invalid_request
      ∷ error_response 8 enrollment_required
      ∷ ready 1 9 (text "a")
      ∷ [];
  ending = bridged (text "a");
}
unfolding run_broker answer_decoded answer_admitted perform accept accept_new decode_request
    after_write write_broker_response list_broker_hosts broker_hosts_for_client hosts_of
    pair_and_list_hosts open_remote_app_server classify_broker_error validate_text
    validate_optional_text try_from display_name text text_eq trim contains to_ascii_lowercase
    str_len is_control
run_test = refl

run_broker-Answers_example :
    Answers parse print turns (run_broker parse print new_session turns).responses
    × Closes parse print
        (run_broker parse print new_session turns).ending
        7
        (length (run_broker parse print new_session turns).responses)
run_broker-Answers_example = run_broker-Answers parse print new_session turns

run_broker-IsGuarded_example : IsGuarded false (run_broker parse print new_session turns).responses
run_broker-IsGuarded_example = run_broker-IsGuarded parse print new_session turns

abbrev requests : List BrokerRequest
requests =
    BrokerRequest.list_hosts 1 5
    ∷ BrokerRequest.handshake 1 6 1 1
    ∷ BrokerRequest.list_hosts 1 6
    ∷ BrokerRequest.list_hosts 1 7
    ∷ []

admitted-IsGreeted_example :
    IsGreeted false (admitted new_session requests) × IsFresh [] (admitted new_session requests)
admitted-IsGreeted_example = admitted-IsGreeted new_session requests

accept-IsAdmission_example :
    IsAdmission new_session
      (BrokerRequest.handshake 1 6 1 1)
      (accept new_session (BrokerRequest.handshake 1 6 1 1))
accept-IsAdmission_example = accept-IsAdmission new_session (BrokerRequest.handshake 1 6 1 1)
