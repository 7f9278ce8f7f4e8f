-- ===== src/Transport/Reassembly/Invariant.antt =====
-- What a reassembler keeps true of its assemblies and of its byte count, on every segment.
use rcodex.Common.{
  ◌≡◌, refl, inl, inr, not, ◌||◌, Option, none, some, arith, ltb, leb, ◌==◌, Bool-cases,
  Option-cases, length, get_elem?, any, Result, ok, err, Error, Text, Bytes, text, text_eq,
}
use rcodex.Common.Assoc.{lookup, All-restore}
use rcodex.Json.{Value, Codec, has_str}
use rcodex.Transport.Fields.{max_concurrent_assemblies, max_buffered_assembly_bytes, saturating_add}
use rcodex.Transport.Reassembly.{
  Assembly, Reassembler, Segment, Display, is_none, new_assembly, bad_metadata, read_segment,
  finish, store, place, join, accept_segment, observe_segment, observe,
}
use rcodex.Transport.Reassembly.Joining.{
  IsWaiting, IsValid, IsJoining, IsGood, stored, empty_slot, dropped-IsValid,
  remove_assembly_joining-IsValid, stored-IsJoining, new-IsJoining, old-IsJoining,
}

module _ (c : Codec) where
  finish-IsValid :
      (r : Reassembler) (key : Text) (a : Assembly)
      → IsJoining r key a
      → IsValid (finish c r key a).0
  unfolding finish
  finish-IsValid r key a h = elim (Bool-cases (any is_none a.chunks)) [
    | inl waits ↦ rw waits (record {
      each =
          All-restore IsWaiting key a r.assemblies h.entry
            (record { is_counted = h.this; waits = waits }) h.others;
      distinct = h.distinct;
      limited = h.limited;
      counted = h.counted;
      bounded = h.bounded;
    })
    | inr full ↦ rw full (dropped-IsValid r key a h)
  ]

  store-IsValid :
      (r : Reassembler) (s : Segment) (a : Assembly)
      → IsJoining r s.key a
      → get_elem? a.chunks s.segment_id ≡ some none
      → IsValid (store c r s a).0
  unfolding store stored
  store-IsValid r s a h free =
      elim (Bool-cases (
        ltb a.message_size (saturating_add a.received_bytes (length s.chunk))
        || ltb max_buffered_assembly_bytes (saturating_add r.buffered_bytes (length s.chunk)))) [
          | inl over ↦ rw over (remove_assembly_joining-IsValid r s.key a h)
          | inr under ↦ rw under (
              finish-IsValid _ s.key _
                (stored-IsJoining r s a h free (ground (arith, h.this.sized)) (ground arith)))
        ]

  place-IsValid :
      (r : Reassembler) (s : Segment) (a : Assembly) (slot : Option Bytes)
      → IsJoining r s.key a
      → (slot ≡ none → get_elem? a.chunks s.segment_id ≡ some none)
      → IsValid (place c r s a slot).0
  unfolding place
  place-IsValid r s a none h free = store-IsValid r s a h (free refl)
  place-IsValid r s a (some b) h free = elim (Bool-cases (text_eq b s.chunk)) [
    | inl same ↦ rw same (finish-IsValid r s.key a h)
    | inr changed ↦ rw changed (remove_assembly_joining-IsValid r s.key a h)
  ]

  join-IsValid :
      (r : Reassembler) (s : Segment) (a : Assembly)
      → IsJoining r s.key a
      → IsGood s
      → IsValid (join c r s a).0
  unfolding join
  join-IsValid r s a h g =
      elim (Bool-cases
        (not (length a.chunks == s.segment_count) || not (a.message_size == s.message_size))) [
          | inl changed ↦ rw changed (remove_assembly_joining-IsValid r s.key a h)
          | inr same ↦ rw same (
              place-IsValid r s a _ h
                (empty_slot a.chunks s.segment_id (ground (arith, g.indexed))))
        ]

  pub accept_segment-IsValid :
      (r : Reassembler) (s : Segment) → IsValid r → IsGood s → IsValid (accept_segment c r s).0
  unfolding accept_segment
  accept_segment-IsValid r s v g = elim (Option-cases (lookup s.key r.assemblies)) [
    | inr (a, e) ↦ rw (e, accept_segment) (join-IsValid r s a (old-IsJoining r s.key a v e) g)
    | inl e ↦ elim (Bool-cases (leb max_concurrent_assemblies (length r.assemblies))) [
      | inl full ↦ rw (e, accept_segment) (rw full v)
      | inr room ↦
          rw (e, accept_segment)
            (rw room (join-IsValid _ s (new_assembly s) (new-IsJoining r s v g e (ground arith)) g))
    ]
  ]

read_segment-IsGood :
    (c : Codec) (d : Display) (v : Value) (s : Segment) → read_segment c d v ≡ ok s → IsGood s
unfolding read_segment bad_metadata
read_segment-IsGood c d v s e = ground arith

observe_segment-IsValid :
    (c : Codec) (r : Reassembler) (m : Result Error Segment)
    → IsValid r
    → ((s : Segment) → m ≡ ok s → IsGood s)
    → IsValid (observe_segment c r m).0
unfolding observe_segment
observe_segment-IsValid c r (ok s) v g = accept_segment-IsValid c r s v (g s refl)
observe_segment-IsValid c r (err e) v g = v

-- Whatever arrives, a segment, another envelope or nonsense, and whether it is taken or refused, a
-- valid reassembler stays valid: its byte count is the sum over at most eight assemblies under
-- distinct keys, it is at most the buffer limit, and each assembly counts the bytes that it holds,
-- no more than its message has, and still waits for a chunk.
pub observe-IsValid :
    (c : Codec) (d : Display) (r : Reassembler) (envelope : Value)
    → IsValid r
    → IsValid (observe c d r envelope).0
unfolding observe
observe-IsValid c d r envelope v =
    elim (Bool-cases (has_str (text "type") (text "server_message_chunk") envelope)) [
      | inl segment ↦ rw segment (
          observe_segment-IsValid c r (read_segment c d envelope) v
            (read_segment-IsGood c d envelope))
      | inr other ↦ rw other v
    ]
