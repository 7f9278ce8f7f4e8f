-- ===== src/Transport/Reassembly/RoundTrip.antt =====
-- A message comes out of its segments: `ServerMessageReassembler::observe` of src/transport.rs, past
-- the reading of the segments, over a list of them.
use rcodex.Common.{
  ℕ, zero, suc, ◌≡◌, refl, ◌∙◌, ◌⊎◌, inl, inr, Bool, true, false, Option, none, some, List, [], ◌∷◌,
  flatten, arith, ◌==◌, Bool-cases, Option-cases, length, set, any, All, length-set, Result, ok,
  Error, Text, Bytes, text, text_eq, text_eq_iff,
}
use rcodex.Json.{Value, Map, Codec, empty, object, field, get, insert, field-insert}
use rcodex.Transport.Reassembly.{
  Reassembler, Segment, accept_segment, assemble, complete_message, copy_fields, copied_fields,
}
use rcodex.Transport.Reassembly.Slots.{complete, joined-shown}
use rcodex.Transport.Reassembly.Delivery.{
  IsPartOf, part, HasPart, HasRoom, blank, accept_segment-Taken, accept_segment_first-Taken,
}

-- The outcomes of a list of segments, in their order.
unfoldable pub feed :
    Codec → Reassembler → List Segment → Reassembler × List (Result Error (Option Value))
feed c r [] = (r, [])
feed c r (s ∷ ss) =
    let (r', result) = accept_segment c r s in
    let (end, results) = feed c r' ss in (end, result ∷ results)

-- The places that a list of segments fills.
abbrev pub fill : List Segment → List Bool → List Bool
fill [] m = m
fill (s ∷ ss) m = fill ss (set m s.segment_id true)

complete-set : (m : List Bool) (i : ℕ) → complete m ≡ true → complete (set m i true) ≡ true
complete-set [] i h = refl
complete-set (b ∷ m) zero h = ground arith
complete-set (true ∷ m) (suc i) h = complete-set m i h
complete-set (false ∷ m) (suc i) h = cc

complete-fill :
    (ss : List Segment) (m : List Bool) → complete m ≡ true → complete (fill ss m) ≡ true
complete-fill [] m h = h
complete-fill (s ∷ ss) m h =
    complete-fill ss (set m s.segment_id true) (complete-set m s.segment_id h)

incomplete_before :
    (ss : List Segment) (m : List Bool) → complete (fill ss m) ≡ false → complete m ≡ false
incomplete_before ss m h = elim (Bool-cases (complete m)) [
  | inl full ↦ cc (complete-fill ss m full)
  | inr gap ↦ gap
]

-- A field that one of the copies brings over.
field-copy_fields :
    (k : Text) (ks : List Text) (from to : Map) (v : Value)
    → field k from ≡ some v
    → any (λ j. text_eq j k) ks ≡ true ⊎ (field k to ≡ some v)
    → field k (copy_fields ks from to) ≡ some v
unfolding copy_fields
field-copy_fields k [] from to v e (inl h) = cc
field-copy_fields k [] from to v e (inr h) = h
field-copy_fields k (j ∷ ks) from to v e h = elim (Option-cases (field j from)) [
  | inl missing ↦
      rw (missing, copy_fields)
        (field-copy_fields k ks from to v e (ground (arith, text_eq_iff j k)))
  | inr (w, found) ↦
      rw (found, copy_fields)
        (field-copy_fields k ks from (insert j w to) v e
          (ground (arith, text_eq_iff j k, field-insert j k w to)))
]

complete_message-fields :
    (first : Map) (message v : Value)
    → field (text "seq_id") first ≡ some v
    → (get (text "message") (complete_message first message) ≡ some message)
      × (get (text "seq_id") (complete_message first message) ≡ some v)
unfolding complete_message get text text_eq
complete_message-fields first message v e = (
  simp field-insert,
  simp field-insert (field-copy_fields (text "seq_id") copied_fields first empty v e (inl refl)),
)

-- Nothing has come out yet.
abbrev pub IsQuiet : Result Error (Option Value) → Type 0
IsQuiet result = result ≡ ok none

module _ (c : Codec) (key : Text) (pieces : List Bytes) where
  feed-HasPart :
      (r : Reassembler) (ss : List Segment) (m : List Bool) (head : Map)
      → HasPart c key pieces r m head
      → All (IsPartOf c key pieces) ss
      → complete (fill ss m) ≡ false
      → All IsQuiet (feed c r ss).1 × HasPart c key pieces (feed c r ss).0 (fill ss m) head
  unfolding feed
  feed-HasPart r [] m head h ps gap = (tt, h)
  feed-HasPart r (s ∷ ss) m head h (p, ps) gap =
      let m' = set m s.segment_id true in
      let (quiet, next) =
        (accept_segment-Taken c key pieces r s m head h p).0 (incomplete_before ss m' gap) in
      let (rest, end) = feed-HasPart (accept_segment c r s).0 ss m' head next ps gap in
      ((quiet, rest), end)

  assemble_whole :
      (m : List Bool) (head message : Map)
      → length m ≡ length pieces
      → complete m ≡ true
      → c.from_slice (flatten pieces) ≡ some (object message)
      → assemble c (part c key pieces m head) ≡ ok (complete_message head (object message))
  unfolding assemble
  assemble_whole m head message same full parsed =
      let size : (length (flatten pieces) == length (flatten pieces)) ≡ true = ground arith in
      rw (joined-shown m pieces same full) (rw size (rw parsed))

  -- A message is cut into pieces, and segments with these pieces arrive in any order, any of them
  -- more than once, at a reassembler that has room for the message. As long as a piece is missing
  -- nothing comes out; the segment that fills the last gap brings out the message, parsed from
  -- the pieces joined in order of their indexes, under the number of the first segment.
  pub feed-round_trip :
      (r : Reassembler) (s : Segment) (ss : List Segment) (last : Segment) (message : Map)
      (sequence : Value)
      → HasRoom c key pieces r
      → All (IsPartOf c key pieces) (s ∷ ss)
      → IsPartOf c key pieces last
      → complete (fill (s ∷ ss) (blank c key pieces)) ≡ false
      → complete (set (fill (s ∷ ss) (blank c key pieces)) last.segment_id true) ≡ true
      → c.from_slice (flatten pieces) ≡ some (object message)
      → field (text "seq_id") s.head ≡ some sequence
      → let (r', results) = feed c r (s ∷ ss) in
        All IsQuiet results
        × ((accept_segment c r' last).1 ≡ ok (some (complete_message s.head (object message))))
        × (get (text "message") (complete_message s.head (object message)) ≡ some (object message))
        × (get (text "seq_id") (complete_message s.head (object message)) ≡ some sequence)
  unfolding feed
  feed-round_trip r s ss last message sequence room (p, ps) q gap full parsed numbered =
      let m = set (blank c key pieces) s.segment_id true in
      let m' = fill ss m in
      let (quiet, has) =
        (accept_segment_first-Taken c key pieces r s room p).0 (incomplete_before ss m gap) in
      let (rest, end) = feed-HasPart (accept_segment c r s).0 ss m s.head has ps gap in
      let out =
        (accept_segment-Taken c key pieces (feed c (accept_segment c r s).0 ss).0 last m' s.head end
            q).1
          full in
      let whole =
        assemble_whole (set m' last.segment_id true) s.head message
          (length-set m' last.segment_id true ∙ end.aligned) full parsed in
      let (content, place) = complete_message-fields s.head (object message) sequence numbered in
      ((quiet, rest), rw whole at out, content, place)
