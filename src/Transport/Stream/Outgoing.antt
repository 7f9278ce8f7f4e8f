-- ===== src/Transport/Stream/Outgoing.antt =====
-- The routing of what a transport sends: every frame of a message names its client, host, stream
-- and number.
use rcodex.Common.{
  ℕ, suc, ◌≡◌, refl, inl, inr, Option, none, some, List, [], ◌∷◌, leb, if◌then◌else◌, Bool-cases,
  length, All, Result, ok, err, Error, Text, Bytes, text, text_eq,
}
use rcodex.Json.{
  Value, Codec, object, string, number, pos_int, field, get, has_str, field-insert, field-remove,
}
use rcodex.Transport.Fields.{saturating_add, segment_target_bytes}
use rcodex.Transport.Segments.{
  make_segment, make_segments, cut, chunks, segment_client_message, segment_serialized, run_loop,
  message_to_cut,
}
use rcodex.Transport.Segments.Frames.{segment_loop-cut}
use rcodex.Transport.Stream.{
  RelayTransport, client_message_envelope, begin, restart, outgoing_envelope, outgoing_app_segments,
}

-- What names the receiver of a frame and its message.
pub record IsRouted (client_id environment_id stream_id : Text) (sequence : ℕ) (v : Value)
    : Type 0 where
  pub client : get (text "client_id") v ≡ some (string client_id)
  pub host : get (text "env_id") v ≡ some (string environment_id)
  pub stream : get (text "stream_id") v ≡ some (string stream_id)
  pub numbered : get (text "seq_id") v ≡ some (number (pos_int sequence))

client_message_envelope-IsRouted :
    (client host stream : Text) (n : ℕ) (m : Value)
    → IsRouted client host stream n (client_message_envelope client host stream n m)
unfolding client_message_envelope get field text text_eq
client_message_envelope-IsRouted client host stream n m = record {
  client = refl;
  host = refl;
  stream = refl;
  numbered = refl;
}

module _ (c : Codec) (client host stream : Text) (n : ℕ) where
  make_segment-IsRouted :
      (envelope : Value) (size count id : ℕ) (chunk : Bytes)
      → IsRouted client host stream n envelope
      → IsRouted client host stream n (make_segment c envelope size count id chunk)
  unfolding make_segment get text text_eq
  make_segment-IsRouted (object m) size count id chunk h = record {
    client = simp field-insert (simp field-remove (simp field-insert h.client));
    host = simp field-insert (simp field-remove (simp field-insert h.host));
    stream = simp field-insert (simp field-remove (simp field-insert h.stream));
    numbered = simp field-insert (simp field-remove (simp field-insert h.numbered));
  }
  make_segment-IsRouted _ size count id chunk h = absurd (cc h.client)

  make_segments-IsRouted :
      (envelope : Value) (size count id : ℕ) (ps : List Bytes)
      → IsRouted client host stream n envelope
      → All (IsRouted client host stream n) (make_segments c envelope size count id ps)
  unfolding make_segments
  make_segments-IsRouted envelope size count id [] h = tt
  make_segments-IsRouted envelope size count id (p ∷ ps) h = (
    make_segment-IsRouted envelope size count id p h,
    make_segments-IsRouted envelope size count (suc id) ps h,
  )

  run_loop-IsRouted :
      (fuel : ℕ) (envelope : Value) (m : Result Error Bytes) (segments : List Value)
      → IsRouted client host stream n envelope
      → run_loop c fuel envelope m ≡ some (ok segments)
      → All (IsRouted client host stream n) segments
  unfolding run_loop cut
  run_loop-IsRouted fuel envelope (err e) segments h r = cc
  run_loop-IsRouted fuel envelope (ok bytes) segments h r =
      let (size, pos, same, fit) = segment_loop-cut c fuel envelope bytes _ segments r in
      rw same (
        make_segments-IsRouted envelope (length bytes) (length (chunks size bytes)) 0
          (chunks size bytes) h)

  segment_serialized-IsRouted :
      (fuel : ℕ) (envelope : Value) (printed : Option Bytes) (segments : List Value)
      → IsRouted client host stream n envelope
      → segment_serialized c fuel envelope printed ≡ some (ok segments)
      → All (IsRouted client host stream n) segments
  unfolding segment_serialized
  segment_serialized-IsRouted fuel envelope none segments h r = cc
  segment_serialized-IsRouted fuel envelope (some b) segments h r =
      elim (Bool-cases (leb (length b) segment_target_bytes)) [
        | inl short ↦
            let same : envelope ∷ [] ≡ segments = cc (rw short at r) in rw (← same) (h, tt)
        | inr long ↦
            run_loop-IsRouted fuel envelope (message_to_cut c envelope) segments h (rw long at r)
      ]

  pub segment_client_message-IsRouted :
      (fuel : ℕ) (envelope : Value) (segments : List Value)
      → IsRouted client host stream n envelope
      → segment_client_message c fuel envelope ≡ some (ok segments)
      → All (IsRouted client host stream n) segments
  unfolding segment_client_message
  segment_client_message-IsRouted fuel envelope segments h r =
      segment_serialized-IsRouted fuel envelope (c.to_vec envelope) segments h r

-- Whatever frames a message goes out in, one or many, each names this client, its host, the stream
-- and one number, and the state keeps the next number. The stream is the new one and the number is 1
-- if the message is an `initialize` request, and they are the state's own if it is not.
pub outgoing_app_segments-IsRouted :
    (c : Codec) (fuel : ℕ) (stream : Text) (message : Value) (t : RelayTransport)
    (segments : List Value)
    → (outgoing_app_segments c fuel stream message t).1 ≡ some (ok segments)
    → let t' = (outgoing_app_segments c fuel stream message t).0 in
      let first = has_str (text "method") (text "initialize") message in
      let n = if first then 1 else t.next_client_sequence in
      All (IsRouted t'.client_id t'.environment_id t'.stream_id n) segments
      × (t'.next_client_sequence ≡ saturating_add n 1)
      × (t'.stream_id ≡ (if first then stream else t.stream_id))
      × (t'.client_id ≡ t.client_id)
      × (t'.environment_id ≡ t.environment_id)
unfolding outgoing_app_segments outgoing_envelope begin restart
outgoing_app_segments-IsRouted c fuel stream message t segments r =
    let s = begin stream message t in
    let routed =
      segment_client_message-IsRouted c s.client_id s.environment_id s.stream_id
        s.next_client_sequence fuel _ segments
        (client_message_envelope-IsRouted s.client_id s.environment_id s.stream_id
          s.next_client_sequence message)
        r in
    elim (Bool-cases (has_str (text "method") (text "initialize") message)) [
      | inl first ↦ rw first (rw (first, begin) at routed, refl, refl, refl, refl)
      | inr later ↦ rw later (rw (later, begin) at routed, refl, refl, refl, refl)
    ]
