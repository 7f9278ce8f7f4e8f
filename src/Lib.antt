-- ===== src/Lib.antt =====
-- rcodex: a client that connects a local Codex application to a host behind a relay.
--
-- The program's parts, and the files that model them:
--   src/transport.rs, the client's end of the relay: Transport. An outgoing message gets its envelope
--     and number and is cut into frames; an incoming envelope is tested for its receiver, put together
--     from segments, put in order and handed over.
--     Transport/Fields: the limits and the typed fields of an envelope.
--     Transport/Reassembly: `ServerMessageReassembler`; `observe` is split into the reading of a
--       segment (`read_segment`) and what it does to the state (`accept_segment`, `join`, `place`,
--       `store`, `finish`).
--     Transport/Segments: `segment_client_message`.
--     Transport/Stream: `RelayTransport`, its `outgoing_app_segments` and `observe_server_envelope`, and
--       `client_message_envelope` of src/protocol.rs. Transport/Stream/Incoming, Order, Requests,
--       Answers and Outgoing: its receivers, numbers, waiting requests and frames.
--   src/api.rs, the calls of the relay's HTTP interface: Api.
--     Api/Environment: `RemoteEnvironment` and its names; `select_environment` of src/shim.rs. Api/Names
--       and Api/Choice: which name is shown, and which environment is chosen.
--     Api/Pages: `list_environments` and `accept_environment_page`.
--     Api/Retry: `send_with_status_policy` and `parse_retry_after`.
--   src/broker.rs, the machine protocol for a controller's user interface: Broker.
--     Broker/Pairing: `PairingCode`, and `build_manual_pairing_body` of src/api.rs.
--     Broker/Hosts: `BrokerHost` and the limits on its texts.
--     Broker/Session: requests, responses, `decode_request`, and `BrokerSession`, whose `accept` admits
--       a request or refuses it.
--     Broker/Frames: `read_broker_frame` of src/main.rs.
--     Broker/Service: `run_broker` of src/main.rs, which decodes each frame, asks the session, does what
--       was admitted and writes one response, and the functions that it calls for hosts and connections.
--   src/auth.rs, the credentials of the Codex command line: Auth.
--     Auth/Loading, Auth/Merging: `load_codex_auth`, and `merge_refresh_response`.
--     Auth/Refresh: `refresh_codex_auth`; other processes act on the files during its request.
--   src/compatibility.rs, versions and their comparison: Compatibility.
--   src/protocol.rs, the records and payloads that are exchanged with the relay: Protocol.
--     Protocol: both challenges, `build_enrollment_signing_payload`, `build_connection_signing_payload`.
--     Protocol/Challenges, Protocol/Payloads: which challenges are answered, and what is signed.
--   src/relay.rs, the sessions of the relay: Relay.
--     Relay/Sessions, Relay/Connections: `validate_remote_session`, and
--       `validate_and_build_connection_signing_payload` with `constant_time_equal` (Relay/Bits).
--   src/state.rs, the file with the enrollment: State, State/Saving.
--   src/controller.rs, the enrollment of this device: Controller. Its state is the file system and the
--     identifiers in the key store.
--     Controller/Enrollment: `enroll` and `ensure_session`; Controller/Answers and Controller/Enrolled:
--       what was checked, and what an enrollment leaves.
--   src/oauth.rs, the step-up of the credentials in the browser: Oauth.
--     Oauth/Urls, Oauth/Callback: the addresses and forms, `receive_callback`, `request_step_up_token`;
--       the connections are a list, and the loop over them ends with it. Oauth/Scopes, Oauth/Stepped:
--       what stands behind a token.
--   src/update.rs, signed updates: Update.
--     Update/Writing, Update/Installation: `atomic_write`, and `Installation` with its lock, `replace`
--       and `rollback`.
--     Update/Manifest: `ReleaseManifest`, its validation and `select`.
--     Update/Releases: `download` and `Repository`; the loop of `find` is `first_offer`, its body `offer`.
--     Update/Settings: `UpdateSettings`.
--     Update/Commands: `run_update` and `automatic_update` of src/main.rs; other processes act on the
--       files between its two readings of the settings.
--   Files: the file system that Update and State act on. Each call of the system may fail; the world
--     holds the outcomes of the next calls. Files/Rules: proofs on chains of calls.
--   Json: JSON values and their accessors. Common: results, texts, lists, association lists.
--
-- State is passed in and returned. An error is a value of `Result`, and a function that can change its
-- state before it fails returns both. Texts are lists of code points, numbers are the native ℕ; `usize`
-- and `u64` have 64 bits, and saturating sums are written out. A hash map is an association list with
-- one entry for each key.
--
-- Parameters: printing and parsing of JSON and base64 (`Codec`), the decimal text of a number
-- (`Display`), the HTTP server, the refresh of the credentials, the identifier of a new stream, and what
-- the rest of the program answers to the broker (`Remote`); versions and their order (`Semver`), the
-- answers of the releases' server with the check of provenance (`Repository`), digests, base64 and the
-- joining of URLs (`Encoding`), the clock, and the key store and the step-up (`Services`).
--
-- Fuel: the loop of `list_environments` gets 33 rounds, since a page without a new cursor ends it and at
-- most 32 cursors are taken; the loop of `send_with_status_policy` gets 5, for one refresh and three
-- retries; the loop of `segment_client_message` gets 102400, its first chunk size, where pieces of 8 KiB
-- fit into frames: the chunk size falls in each round.
--
-- Not modelled: sockets, processes, the key store itself, terminal output, and the parts of the program
-- not named above. The texts that error messages quote are left out of them. A temporary file is not
-- seen under its own name, and its removal is not a change.
pub mod Common
pub mod Json
pub mod Transport
pub mod Api
pub mod Broker
pub mod Auth
pub mod Compatibility
pub mod Controller
pub mod Files
pub mod Oauth
pub mod Protocol
pub mod Relay
pub mod State
pub mod Update
