-- ===== src/Broker/Session.antt =====
-- src/broker.rs: the requests of a user interface, how one is decoded, and `BrokerSession`, which
-- admits them.
pub mod Admission
use rcodex.Common.{
  ℕ, ◌*◌, Bool, true, false, not, ◌&&◌, Option, List, [], ◌∷◌, ltb, leb, ◌==◌, if◌then◌else◌,
  length, is_empty, any, Result, ok, err, bail_if, context, Text, Bytes, text, ◌>>=◌, ◌>>◌,
}
use rcodex.Broker.Pairing.{BrokerProtocolError, empty_frame, frame_too_large, malformed_frame}
use rcodex.Broker.Hosts.{BrokerHost, validate_text, max_host_id_bytes}

abbrev pub broker_protocol_version : ℕ
broker_protocol_version = 1

abbrev pub max_broker_frame_bytes : ℕ
max_broker_frame_bytes = 16 * 1024

-- The fields in the order of the source: version, id, and those of the kind. A pairing code is the
-- normalized text.
pub data BrokerRequest : Type 0 where
  handshake : ℕ → ℕ → ℕ → ℕ → BrokerRequest
  pair : ℕ → ℕ → Text → BrokerRequest
  list_hosts : ℕ → ℕ → BrokerRequest
  open_app_server : ℕ → ℕ → Text → BrokerRequest

abbrev pub request_id : BrokerRequest → ℕ
request_id (BrokerRequest.handshake version id minimum maximum) = id
request_id (BrokerRequest.pair version id code) = id
request_id (BrokerRequest.list_hosts version id) = id
request_id (BrokerRequest.open_app_server version id environment_id) = id

pub data BrokerCapability : Type 0 where
  pair list_hosts open_app_server : BrokerCapability

pub data BrokerErrorCode : Type 0 where
  authentication_required enrollment_required invalid_request : BrokerErrorCode
  incompatible_version host_not_found host_offline relay_unavailable internal : BrokerErrorCode

-- Version and id first, as above.
pub data BrokerResponse : Type 0 where
  handshake : ℕ → ℕ → Text → List BrokerCapability → BrokerResponse
  hosts : ℕ → ℕ → List BrokerHost → BrokerResponse
  paired : ℕ → ℕ → List BrokerHost → BrokerResponse
  ready : ℕ → ℕ → Text → BrokerResponse
  error : ℕ → ℕ → BrokerErrorCode → BrokerResponse

-- `BrokerResponse::handshake`, with `CARGO_PKG_VERSION` of Cargo.toml.
abbrev pub handshake_response : ℕ → BrokerResponse
handshake_response id =
    BrokerResponse.handshake broker_protocol_version id (text "0.2.0")
      (BrokerCapability.pair ∷ BrokerCapability.list_hosts ∷ BrokerCapability.open_app_server ∷ [])

abbrev pub error_response : ℕ → BrokerErrorCode → BrokerResponse
error_response id code = error broker_protocol_version id code

pub data BrokerAction : Type 0 where
  respond : BrokerResponse → BrokerAction
  pair : ℕ → Text → BrokerAction
  list_hosts : ℕ → BrokerAction
  open_app_server : ℕ → Text → BrokerAction

-- `request_ids` is a set; its order is not observed.
pub record BrokerSession : Type 0 where
  pub initialized : Bool
  pub request_ids : List ℕ

abbrev pub new_session : BrokerSession
new_session = record { initialized = false; request_ids = [] }

abbrev pub is_seen : ℕ → List ℕ → Bool
is_seen id ids = any (λ n. n == id) ids

abbrev seen : ℕ → BrokerSession → BrokerSession
seen id s = record s { request_ids = id ∷ s.request_ids }

abbrev pub Admitted : Type 0
Admitted = BrokerSession × Result BrokerErrorCode BrokerAction

-- The `match` on a request with a new identifier.
unfoldable pub accept_new : BrokerSession → BrokerRequest → Admitted
accept_new s (BrokerRequest.handshake version id minimum maximum) =
    if not s.initialized
    then (
      record { initialized = true; request_ids = id ∷ s.request_ids },
      ok (respond (handshake_response id)),
    )
    else (s, err invalid_request)
accept_new s (BrokerRequest.pair version id code) =
    if s.initialized then (seen id s, ok (BrokerAction.pair id code)) else (s, err invalid_request)
accept_new s (BrokerRequest.list_hosts version id) =
    if s.initialized then (seen id s, ok (BrokerAction.list_hosts id)) else (s, err invalid_request)
accept_new s (BrokerRequest.open_app_server version id environment_id) =
    if s.initialized
    then (seen id s, ok (BrokerAction.open_app_server id environment_id))
    else (s, err invalid_request)

unfoldable pub accept : BrokerSession → BrokerRequest → Admitted
unfolding accept_new
accept s request =
    if is_seen (request_id request) s.request_ids
    then (s, err invalid_request)
    else accept_new s request

-- The `match` on the versions.
abbrev pub is_compatible : BrokerRequest → Bool
is_compatible (BrokerRequest.handshake version id minimum maximum) =
    version == broker_protocol_version
    && leb minimum broker_protocol_version
    && leb broker_protocol_version maximum
is_compatible (BrokerRequest.pair version id code) = version == broker_protocol_version
is_compatible (BrokerRequest.list_hosts version id) = version == broker_protocol_version
is_compatible (BrokerRequest.open_app_server version id environment_id) =
    version == broker_protocol_version

abbrev pub validate_request : BrokerRequest → Result BrokerProtocolError (Unit {0})
validate_request (BrokerRequest.open_app_server version id environment_id) =
    validate_text environment_id max_host_id_bytes false
validate_request _ = ok tt

-- `parse` is `serde_json::from_slice` for a request.
unfoldable pub decode_request :
    (Bytes → Option BrokerRequest) → Bytes → Result BrokerProtocolError BrokerRequest
decode_request parse bytes = do
  bail_if (is_empty bytes) empty_frame
  bail_if (ltb max_broker_frame_bytes (length bytes)) frame_too_large
  request ← context malformed_frame (parse bytes)
  bail_if (not (is_compatible request)) BrokerProtocolError.incompatible_version
  validate_request request
  ok request
