-- ===== src/Transport/Stream/Answers.antt =====
-- What an envelope delivers, and which of the waiting requests it answers, in
-- `observe_server_envelope` of src/transport.rs.
use rcodex.Common.{ℕ, ◌≤◌, ◌≡◌, Option, some, Result, ok, Error, text}
use rcodex.Json.{Value, Codec, get}
use rcodex.Transport.Fields.{u64_max}
use rcodex.Transport.Reassembly.{Display, observe}
use rcodex.Transport.Stream.Incoming.{IsTargeted}
use rcodex.Transport.Stream.Order.{Follows}
use rcodex.Transport.Stream.{RelayTransport, sequence_of}

-- The message of the envelope that the reassembly gave.
abbrev pub CameIn : Result Error (Option Value) → Value → Type 0
CameIn r m =
    (envelope : Value) × (r ≡ ok (some envelope)) × (get (text "message") envelope ≡ some m)

-- The envelope has a message and the next number, one of 64 bits.
abbrev pub IsNumbered : Option ℕ → Option ℕ → Value → Type 0
IsNumbered seen sequence envelope =
    (n : ℕ) × (message : Value) × (sequence ≡ some n)
    × Follows seen n
    × (n ≤ u64_max)
    × (get (text "message") envelope ≡ some message)

-- The reassembly gave such an envelope.
abbrev pub IsGiven : Option ℕ → Result Error (Option Value) → Type 0
IsGiven seen r =
    (envelope : Value) × (r ≡ ok (some envelope)) × IsNumbered seen (sequence_of envelope) envelope

module _ (c : Codec) (d : Display) where
  -- The message that the reassembly of this envelope with those before it gave.
  abbrev pub IsMessage : RelayTransport → Value → Value → Type 0
  IsMessage t v = CameIn (observe c d t.reassembler v).1

  -- The envelope is for this client, host and stream, and brings a message with the next number.
  abbrev pub IsNext : RelayTransport → Value → Type 0
  IsNext t v = IsTargeted t v × IsGiven t.seen_server_sequence (observe c d t.reassembler v).1
