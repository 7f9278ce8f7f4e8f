-- ===== src/Transport/Segments.antt =====
-- src/transport.rs: `segment_client_message`, which cuts a large client message into frames.
pub mod Chunks
pub mod Frames
pub mod Termination
pub mod Tests
use rcodex.Common.{
  ℕ, zero, suc, ◌-◌, max, Bool, false, not, Option, none, some, List, [], ◌∷◌, ltb, leb, ◌==◌,
  if◌then◌else◌, length, take, drop, all, Result, ok, err, Error, bail_if, context, Bytes, text,
  ◌>>=◌, ◌>>◌,
}
use rcodex.Json.{
  Value, Map, empty, object, string, number, pos_int, get, has_str, insert, remove, as_object,
  Codec,
}
use rcodex.Transport.Fields.{
  segment_target_bytes, max_frame_bytes, max_message_bytes, div_ceil, saturating_add,
}

-- `slice::chunks`, on fuel; each round takes at least one byte if the size is positive.
unfoldable pub chunks_on : ℕ → ℕ → Bytes → List Bytes
chunks_on zero size bytes = []
chunks_on (suc f) size [] = []
chunks_on (suc f) size (b ∷ bytes) =
    take size (b ∷ bytes) ∷ chunks_on f size (drop size (b ∷ bytes))

-- The fuel is the length: no slice has more pieces than bytes.
unfoldable pub chunks : ℕ → Bytes → List Bytes
chunks size bytes = chunks_on (length bytes) size bytes

abbrev pub count_value : ℕ → Value
count_value n = number (pos_int n)

module _ (c : Codec) where
  -- The envelope of one segment: `message` is replaced by the chunk and its place.
  unfoldable pub make_segment : Value → ℕ → ℕ → ℕ → Bytes → Value
  make_segment envelope size count id chunk = object (
      insert (text "message_chunk_base64") (string (c.encode chunk)) (
        insert (text "message_size_bytes") (count_value size) (
          insert (text "segment_count") (count_value count) (
            insert (text "segment_id") (count_value id) (
              remove (text "message") (
                insert (text "type") (string (text "client_message_chunk"))
                  (elim (as_object envelope) [ none ↦ empty | some m ↦ m ])))))))

  -- `chunks.into_iter().enumerate().map(…)`, from the index `id` on.
  unfoldable pub make_segments : Value → ℕ → ℕ → ℕ → List Bytes → List Value
  make_segments envelope size count id [] = []
  make_segments envelope size count id (p ∷ ps) =
      make_segment envelope size count id p ∷ make_segments envelope size count (suc id) ps

  -- `to_vec(segment).is_ok_and(|bytes| bytes.len() <= MAX_FRAME_BYTES)`.
  unfoldable pub fits_frame : Value → Bool
  fits_frame v = elim (c.to_vec v) [ none ↦ false | some b ↦ leb (length b) max_frame_bytes ]

  unfoldable pub cut : Value → Bytes → ℕ → List Value
  cut envelope bytes size =
      let pieces = chunks size bytes in
      make_segments envelope (length bytes) (length pieces) 0 pieces

  -- The `loop` on fuel; `none` says that it has not returned yet.
  unfoldable pub segment_loop : ℕ → Value → Bytes → ℕ → Option (Result Error (List Value))
  segment_loop zero envelope bytes segment_count = none
  segment_loop (suc f) envelope bytes segment_count =
      let chunk_size = max (div_ceil (length bytes) segment_count) 1 in
      let segments = cut envelope bytes chunk_size in
      let again =
        segment_loop f envelope bytes (saturating_add (length (chunks chunk_size bytes)) 1) in
      if all fits_frame segments
      then some (ok segments)
      else if chunk_size == 1
      then some (err "relay segment metadata exceeds the frame size limit")
      else again

  -- The guards before the loop: the message bytes, or what is returned at once.
  unfoldable pub message_to_cut : Value → Result Error Bytes
  message_to_cut envelope = do
    bail_if (not (has_str (text "type") (text "client_message") envelope))
        "only client_message envelopes can be segmented"
    message ← context "client message envelope has no message" (get (text "message") envelope)
    bytes ← context "serialize app-server message" (c.to_vec message)
    bail_if (ltb max_message_bytes (length bytes)) "app-server message exceeds the relay size limit"
    ok bytes

  unfoldable pub run_loop : ℕ → Value → Result Error Bytes → Option (Result Error (List Value))
  run_loop fuel envelope (ok bytes) =
      segment_loop fuel envelope bytes (max (div_ceil (length bytes) segment_target_bytes) 1)
  run_loop fuel envelope (err e) = some (err e)

  unfoldable pub segment_serialized : ℕ → Value → Option Bytes → Option (Result Error (List Value))
  unfolding run_loop
  segment_serialized fuel envelope none = some (err "serialize relay client envelope")
  segment_serialized fuel envelope (some serialized) =
      if leb (length serialized) segment_target_bytes
      then some (ok (envelope ∷ []))
      else run_loop fuel envelope (message_to_cut envelope)

  unfoldable pub segment_client_message : ℕ → Value → Option (Result Error (List Value))
  unfolding segment_serialized
  segment_client_message fuel envelope = segment_serialized fuel envelope (c.to_vec envelope)
