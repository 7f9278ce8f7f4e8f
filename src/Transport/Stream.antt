-- ===== src/Transport/Stream.antt =====
-- src/transport.rs: the state of `RelayTransport` and what it does to each envelope that goes out or
-- comes in; src/protocol.rs: `client_message_envelope`. The socket is left to the bridge loops. A new
-- stream identifier (`Uuid::new_v4`) is an argument.
pub mod Answers
pub mod Incoming
pub mod Order
pub mod Outgoing
pub mod Requests
use rcodex.Common.{
  ℕ, ◌+◌, ◌-◌, ◌%◌, ◌^◌, Bool, true, false, not, ◌&&◌, ◌||◌, Option, none, some, List, [], ◌∷◌,
  ◌++◌, leb, ◌==◌, if◌then◌else◌, Result, ok, err, Error, bail_if, context, Text, text, text_eq,
  ◌>>=◌, ◌>>◌,
}
use rcodex.Json.{
  Value, Number, pos_int, neg_int, float, Map, empty, entry, object, string, number, bool, field,
  insert, remove, get, has_str, as_str, as_u64, as_object, and_then, Codec,
}
use rcodex.Transport.Fields.{saturating_add, string_field}
use rcodex.Transport.Reassembly.{Reassembler, default, Display, observe}
use rcodex.Transport.Segments.{segment_client_message}

pub record RelayTransport : Type 0 where
  pub client_id : Text
  pub environment_id : Text
  pub next_client_sequence : ℕ
  pub pending_request_ids : List Value
  pub reassembler : Reassembler
  pub seen_server_sequence : Option ℕ
  pub stream_id : Text

-- The literal `{"key": value, …}` of `json!`.
abbrev pub json_object : List (Text × Value) → Map
json_object [] = empty
json_object ((k, v) ∷ m) = entry k v (json_object m)

unfoldable pub client_message_envelope : Text → Text → Text → ℕ → Value → Value
client_message_envelope client env stream seq message = object (
    json_object (
      (text "type", string (text "client_message"))
      ∷ (text "client_id", string client)
      ∷ (text "seq_id", number (pos_int seq))
      ∷ (text "stream_id", string stream)
      ∷ (text "env_id", string env)
      ∷ (text "skip_history", bool false)
      ∷ (text "message", message)
      ∷ []))

-- `id.is_string() || id.is_number()`.
abbrev pub is_request_id : Value → Bool
is_request_id (string s) = true
is_request_id (number n) = true
is_request_id _ = false

-- The fields that `initialize` starts anew.
unfoldable pub restart : Text → RelayTransport → RelayTransport
restart stream t = record t {
  stream_id = stream;
  next_client_sequence = 1;
  seen_server_sequence = none;
  pending_request_ids = [];
  reassembler = default;
}

unfoldable pub begin : Text → Value → RelayTransport → RelayTransport
unfolding restart
begin stream message t =
    if has_str (text "method") (text "initialize") message then restart stream t else t

-- The request identifiers that wait for an answer.
unfoldable pub push_request_id : Option Value → List Value → List Value
push_request_id none ids = ids
push_request_id (some id) ids = if is_request_id id then ids ++ id ∷ [] else ids

-- The envelope of a message and the state in which it is cut.
unfoldable pub outgoing_envelope : Text → Value → RelayTransport → RelayTransport × Value
unfolding begin push_request_id client_message_envelope
outgoing_envelope stream message t =
    let s = begin stream message t in
    (
      record s {
        pending_request_ids = push_request_id (get (text "id") message) s.pending_request_ids;
        next_client_sequence = saturating_add s.next_client_sequence 1;
      },
      client_message_envelope s.client_id s.environment_id s.stream_id s.next_client_sequence
          message,
    )

unfoldable pub outgoing_app_segments :
    Codec → ℕ → Text → Value → RelayTransport → RelayTransport × Option (Result Error (List Value))
unfolding outgoing_envelope
outgoing_app_segments c fuel stream message t =
    let (s, envelope) = outgoing_envelope stream message t in
    (s, segment_client_message c fuel envelope)

unfoldable pub server_envelope_targets_active_stream :
    Value → Text → Text → Text → Result Error Bool
server_envelope_targets_active_stream envelope client env stream = do
  m ← context "remote-control server envelope is not an object" (as_object envelope)
  its_client ← string_field m (text "client_id")
  its_env ← elim (text_eq its_client client) [
    | true ↦ string_field m (text "env_id")
    | false ↦ ok []
  ]
  bail_if (not (text_eq its_client client) || not (text_eq its_env env))
      "remote-control server envelope targets a different client or host"
  its_stream ← string_field m (text "stream_id")
  ok (text_eq its_stream stream)

-- JSON numbers are finite, so floats are equal if their bits are, or if both are zeros.
abbrev pub number_eq : Number → Number → Bool
number_eq (pos_int a) (pos_int b) = a == b
number_eq (neg_int a) (neg_int b) = a == b
number_eq (float a) (float b) = a == b || a % 2 ^ 63 == 0 && b % 2 ^ 63 == 0
number_eq _ _ = false

-- `pending == id`, for a pending identifier, which is a string or a number.
unfoldable pub id_eq : Value → Value → Bool
id_eq (string a) (string b) = text_eq a b
id_eq (number a) (number b) = number_eq a b
id_eq _ _ = false

-- `iter().position(|pending| pending == id)` and the removal at that position.
unfoldable pub remove_first : Value → List Value → List Value
remove_first id [] = []
remove_first id (p ∷ ps) = if id_eq p id then ps else p ∷ remove_first id ps

abbrev pub Received : Type 0
Received = RelayTransport × Result Error (Option Value)

-- An error of the relay without an identifier answers the oldest request.
unfoldable pub answer_oldest : RelayTransport → List Value → Value → Received
answer_oldest t [] message = (t, err "remote-control error has no pending request")
answer_oldest t (id ∷ ids) message =
    let s : RelayTransport = record t { pending_request_ids = ids } in
    elim (as_object message) [
      | none ↦ (s, err "remote-control error payload is not an object")
      | some m ↦ (
        s,
        ok (
            some (
              object (
                json_object
                  ((text "id", id) ∷ (text "error", object (remove (text "type") m)) ∷ [])))),
      )
    ]

unfoldable pub answer : RelayTransport → Value → Option Value → Received
unfolding answer_oldest
answer t message none =
    if has_str (text "type") (text "error") message
    then answer_oldest t t.pending_request_ids message
    else (t, ok (some message))
answer t message (some id) =
    (record t { pending_request_ids = remove_first id t.pending_request_ids }, ok (some message))

unfoldable pub deliver_message : RelayTransport → Option Value → Received
unfolding answer
deliver_message t none = (t, err "server message has no app-server payload")
deliver_message t (some message) = answer t message (get (text "id") message)

-- A number that was seen, or that is not the next one.
unfoldable pub is_old : Option ℕ → ℕ → Bool
is_old none sequence = false
is_old (some seen) sequence = leb sequence seen

unfoldable pub is_gap : Option ℕ → ℕ → Bool
is_gap none sequence = false
is_gap (some seen) sequence = not (sequence == saturating_add seen 1)

unfoldable pub deliver : RelayTransport → Value → Option ℕ → Received
unfolding is_old is_gap deliver_message
deliver t envelope none = (t, err "server message has no sequence ID")
deliver t envelope (some sequence) =
    if is_old t.seen_server_sequence sequence
    then (t, ok none)
    else if is_gap t.seen_server_sequence sequence
    then (t, err "remote-control server message sequence gap")
    else deliver_message (record t { seen_server_sequence = some sequence })
        (get (text "message") envelope)

unfoldable pub sequence_of : Value → Option ℕ
sequence_of envelope = and_then (get (text "seq_id") envelope) as_u64

unfoldable pub after_reassembly : RelayTransport → Result Error (Option Value) → Received
unfolding deliver
after_reassembly t (err e) = (t, err e)
after_reassembly t (ok none) = (t, ok none)
after_reassembly t (ok (some envelope)) = deliver t envelope (sequence_of envelope)

-- The kinds of envelope that are read; acknowledgements, pongs and unknown kinds are not.
abbrev pub is_server_message : Value → Bool
is_server_message envelope =
    has_str (text "type") (text "server_message") envelope
    || has_str (text "type") (text "server_message_chunk") envelope

module _ (c : Codec) (d : Display) where
  unfoldable pub observe_targeted : RelayTransport → Value → Result Error Bool → Received
  unfolding after_reassembly
  observe_targeted t envelope (err e) = (t, err e)
  observe_targeted t envelope (ok false) = (t, ok none)
  observe_targeted t envelope (ok true) =
      let (r, result) = observe c d t.reassembler envelope in
      after_reassembly (record t { reassembler = r }) result

  unfoldable pub observe_server_envelope : RelayTransport → Value → Received
  unfolding observe_targeted
  observe_server_envelope t envelope =
      if is_server_message envelope
      then observe_targeted t envelope
          (server_envelope_targets_active_stream envelope t.client_id t.environment_id t.stream_id)
      else (t, ok none)
