-- ===== src/Transport/Tests.antt =====
-- Runs of src/transport.rs on small inputs. The codec of the tests prints a text as itself, every
-- object in no bytes, and parses bytes into an object that holds them.
use rcodex.Common.{
  ℕ, ◌≡◌, refl, ◌⊎◌, Option, none, some, List, [], ◌∷◌, flatten, arith, All, ok, Bytes, text,
  text_eq,
}
use rcodex.Common.Assoc.{lookup}
use rcodex.Json.{
  Value, Map, Codec, empty, entry, object, string, number, pos_int, get, field, has_str, remove,
}
use rcodex.Transport.Reassembly.{
  Segment, Display, default, accept_segment, observe, complete_message,
}
use rcodex.Transport.Reassembly.Joining.{IsValid}
use rcodex.Transport.Reassembly.Invariant.{observe-IsValid}
use rcodex.Transport.Reassembly.RoundTrip.{feed, feed-round_trip, IsQuiet}
use rcodex.Transport.Fields.{saturating_add, string_field}
use rcodex.Transport.Segments.{segment_client_message, segment_serialized}
use rcodex.Transport.Stream.{
  RelayTransport, observe_targeted, after_reassembly, deliver, deliver_message, answer,
  answer_oldest, remove_first, id_eq, is_old, is_gap, sequence_of,
  server_envelope_targets_active_stream, observe_server_envelope, outgoing_app_segments, begin,
  restart, client_message_envelope, json_object,
}
use rcodex.Transport.Stream.Incoming.{IsTargeted, IsIgnored, observe_server_envelope-IsTargeted}
use rcodex.Transport.Stream.Order.{received, IsConsecutive, received-IsConsecutive}
use rcodex.Transport.Stream.Outgoing.{IsRouted, outgoing_app_segments-IsRouted}

abbrev print : Value → Option Bytes
print (string s) = some s
print _ = some []

abbrev codec : Codec
codec = record {
  to_vec = print;
  from_slice = λ b. some (object (entry (text "x") (string b) empty));
  encode = λ b. b;
  decode = some;
}

abbrev display : Display
display = record { decimal = λ n. n ∷ [] }

abbrev num : ℕ → Value
num n = number (pos_int n)

abbrev chunk_envelope : ℕ → ℕ → Bytes → Value
chunk_envelope seq id b = object (
    json_object (
      (text "type", string (text "server_message_chunk"))
      ∷ (text "client_id", string (text "c"))
      ∷ (text "env_id", string (text "e"))
      ∷ (text "stream_id", string (text "s"))
      ∷ (text "seq_id", num seq)
      ∷ (text "segment_id", num id)
      ∷ (text "segment_count", num 2)
      ∷ (text "message_size_bytes", num 4)
      ∷ (text "message_chunk_base64", string b)
      ∷ []))

default-IsValid : IsValid default
default-IsValid = record {
  each = tt;
  distinct = tt;
  limited = omega arith;
  counted = refl;
  bounded = omega arith;
}

observe-IsValid_example :
    IsValid (observe codec display default (chunk_envelope 1 0 (1 ∷ 2 ∷ []))).0
observe-IsValid_example =
    observe-IsValid codec display default (chunk_envelope 1 0 (1 ∷ 2 ∷ [])) default-IsValid

abbrev transport : RelayTransport
transport = record {
  client_id = text "c";
  environment_id = text "e";
  next_client_sequence = 1;
  pending_request_ids = [];
  reassembler = default;
  seen_server_sequence = none;
  stream_id = text "s";
}

observe_server_envelope-IsTargeted_example :
    IsTargeted transport (chunk_envelope 1 0 (1 ∷ 2 ∷ []))
    ⊎ IsIgnored codec display transport
        (observe_server_envelope codec display transport (chunk_envelope 1 0 (1 ∷ 2 ∷ [])))
observe_server_envelope-IsTargeted_example =
    observe_server_envelope-IsTargeted codec display transport (chunk_envelope 1 0 (1 ∷ 2 ∷ []))

-- Two requests wait, and the second is answered; then the relay has an error for the first.
abbrev asked : RelayTransport
asked = record transport { pending_request_ids = num 4 ∷ string (text "five") ∷ [] }

abbrev message_envelope : ℕ → Value → Value
message_envelope seq message = object (
    json_object (
      (text "type", string (text "server_message"))
      ∷ (text "client_id", string (text "c"))
      ∷ (text "env_id", string (text "e"))
      ∷ (text "stream_id", string (text "s"))
      ∷ (text "seq_id", num seq)
      ∷ (text "message", message)
      ∷ []))

abbrev reply : Value
reply = object (json_object ((text "id", string (text "five")) ∷ []))

abbrev relay_error : Value
relay_error =
    object (json_object ((text "type", string (text "error")) ∷ (text "code", num 7) ∷ []))

answers_tests :
    ((observe_server_envelope codec display asked (message_envelope 1 reply)).0.pending_request_ids
      ≡ num 4 ∷ [])
    × ((observe_server_envelope codec display asked (message_envelope 1 relay_error)).1
        ≡ ok (
            some (
              object (
                json_object (
                  (text "id", num 4)
                  ∷ (text "error", object (json_object ((text "code", num 7) ∷ [])))
                  ∷ [])))))
unfolding observe_server_envelope observe_targeted after_reassembly deliver deliver_message answer
    answer_oldest remove_first remove id_eq is_old is_gap sequence_of observe
    server_envelope_targets_active_stream string_field has_str get field text text_eq
answers_tests = (refl, refl)

-- Two messages of two segments each, one of them late.
abbrev envelopes : List Value
envelopes =
    chunk_envelope 1 1 (3 ∷ 4 ∷ [])
    ∷ chunk_envelope 1 0 (1 ∷ 2 ∷ [])
    ∷ chunk_envelope 3 0 (1 ∷ 2 ∷ [])
    ∷ chunk_envelope 2 0 (5 ∷ 6 ∷ [])
    ∷ chunk_envelope 2 1 (7 ∷ 8 ∷ [])
    ∷ []

received-IsConsecutive_example :
    IsConsecutive codec display none (received codec display transport envelopes)
received-IsConsecutive_example = received-IsConsecutive codec display transport envelopes

abbrev segment : ℕ → Bytes → Segment
segment id b = record {
  head = entry (text "seq_id") (num 7) empty;
  segment_id = id;
  segment_count = 2;
  message_size = 4;
  key = text "k";
  chunk = b;
}

abbrev pieces : List Bytes
pieces = (1 ∷ 2 ∷ []) ∷ (3 ∷ 4 ∷ []) ∷ []

abbrev early : List Segment
early = segment 1 (3 ∷ 4 ∷ []) ∷ segment 1 (3 ∷ 4 ∷ []) ∷ []

abbrev last : Segment
last = segment 0 (1 ∷ 2 ∷ [])

abbrev whole : Map
whole = entry (text "x") (string (1 ∷ 2 ∷ 3 ∷ 4 ∷ [])) empty

feed-round_trip_example :
    All IsQuiet (feed codec default early).1
    × ((accept_segment codec (feed codec default early).0 last).1
        ≡ ok (some (complete_message (segment 1 (3 ∷ 4 ∷ [])).head (object whole))))
    × (get (text "message") (complete_message (segment 1 (3 ∷ 4 ∷ [])).head (object whole))
        ≡ some (object whole))
    × (get (text "seq_id") (complete_message (segment 1 (3 ∷ 4 ∷ [])).head (object whole))
        ≡ some (num 7))
unfolding field text text_eq flatten lookup
feed-round_trip_example =
    feed-round_trip codec (text "k") pieces default (segment 1 (3 ∷ 4 ∷ []))
      (segment 1 (3 ∷ 4 ∷ []) ∷ []) last whole (num 7)
      (record { absent = refl; open_slot = omega arith; room = omega arith })
      (
        record { same_key = refl; count = refl; size = refl; piece = refl },
        (record { same_key = refl; count = refl; size = refl; piece = refl }, tt),
      )
      (record { same_key = refl; count = refl; size = refl; piece = refl }) refl refl refl refl

abbrev initialize : Value
initialize =
    object (json_object ((text "method", string (text "initialize")) ∷ (text "id", num 0) ∷ []))

abbrev initialize_envelope : Value
initialize_envelope = client_message_envelope (text "c") (text "e") (text "t") 1 initialize

outgoing_app_segments-IsRouted_example :
    All (IsRouted (text "c") (text "e") (text "t") 1) (initialize_envelope ∷ [])
    × (2 ≡ saturating_add 1 1)
    × (text "t" ≡ text "t")
    × (text "c" ≡ text "c")
    × (text "e" ≡ text "e")
unfolding outgoing_app_segments begin restart has_str get field text text_eq segment_client_message
    segment_serialized
outgoing_app_segments-IsRouted_example =
    outgoing_app_segments-IsRouted codec 1 (text "t") initialize transport
      (initialize_envelope ∷ []) refl
