-- ===== src/Transport/Reassembly/Delivery.antt =====
-- The segments of a message, taken in any order and with repetitions, give back the message.
use rcodex.Common.{
  ℕ, ◌+◌, ◌≤◌, ◌<◌, ◌≡◌, refl, ap, ◌∙◌, inl, inr, Bool, true, false, not, ◌||◌, none, some, List,
  flatten, arith, ltb, leb, ◌==◌, Bool-cases, length, get_elem?, set, replicate, any, length-set,
  length-replicate, ok, ◌>>=◌, Text, Bytes, text_eq_refl,
}
use rcodex.Common.Assoc.{lookup, put, lookup-put_self}
use rcodex.Json.{Map, Codec}
use rcodex.Transport.Fields.{max_concurrent_assemblies, max_buffered_assembly_bytes, saturating_add}
use rcodex.Transport.Reassembly.{
  Assembly, Reassembler, Segment, Outcome, is_none, new_assembly, chunk_at, finish, store, place,
  join, accept_segment, assemble,
}
use rcodex.Transport.Reassembly.Joining.{arrived, arrived-replicate}
use rcodex.Transport.Reassembly.Slots.{
  shown, complete, any_none-shown, length-shown, arrived-shown_le, Slot, slot, shown-blank,
}

limits :
    (a b n t x : ℕ)
    → a + n ≤ t
    → b + t ≤ x + a
    → (ltb t (saturating_add a n) || ltb x (saturating_add b n)) ≡ false
limits a b n t x h k = ground arith

module _ (c : Codec) (key : Text) (pieces : List Bytes) where
  abbrev pub total : ℕ
  total = length (flatten pieces)

  -- A segment with one of the pieces.
  pub record IsPartOf (s : Segment) : Type 0 where
    pub same_key : s.key ≡ key
    pub count : s.segment_count ≡ length pieces
    pub size : s.message_size ≡ total
    pub piece : get_elem? pieces s.segment_id ≡ some s.chunk

  -- The assembly that has the pieces which the mask shows.
  abbrev pub part : List Bool → Map → Assembly
  part m head = record {
    chunks = shown m pieces;
    first = head;
    message_size = total;
    received_bytes = arrived (shown m pieces);
  }

  -- The reassembler has that assembly, and room for the rest of the message.
  pub record HasPart (r : Reassembler) (m : List Bool) (head : Map) : Type 0 where
    pub entry : lookup key r.assemblies ≡ some (part m head)
    pub aligned : length m ≡ length pieces
    pub room : r.buffered_bytes + total ≤ max_buffered_assembly_bytes + arrived (shown m pieces)

  -- What a segment leaves: a gap, and no message yet; or the whole message.
  abbrev pub Taken : Outcome → List Bool → Map → Type 0
  Taken (r, result) m head =
      (complete m ≡ false → (result ≡ ok none) × HasPart r m head)
      × (complete m ≡ true → result ≡ (assemble c (part m head) >>= λ v. ok (some v)))

  finish-Taken :
      (r : Reassembler) (m : List Bool) (head : Map)
      → HasPart r m head
      → Taken (finish c r key (part m head)) m head
  unfolding finish
  finish-Taken r m head h = elim (Bool-cases (complete m)) [
    | inl full ↦
        let over : any is_none (shown m pieces) ≡ false =
          any_none-shown m pieces h.aligned ∙ ap not full in
        rw over (λ e. cc, λ e. refl)
    | inr gap ↦
        let waits : any is_none (shown m pieces) ≡ true =
          any_none-shown m pieces h.aligned ∙ ap not gap in
        rw waits (λ e. (refl, h), λ e. cc)
  ]

  stored-HasPart :
      (r : Reassembler) (m m' : List Bool) (head : Map) (n : ℕ)
      → HasPart r m head
      → length m' ≡ length m
      → arrived (shown m' pieces) ≡ arrived (shown m pieces) + n
      → HasPart
          (record {
            assemblies = put key (part m' head) r.assemblies;
            buffered_bytes = r.buffered_bytes + n;
          })
          m'
          head
  stored-HasPart r m m' head n h same more = record {
    entry = lookup-put_self key (part m' head) r.assemblies;
    aligned = same ∙ h.aligned;
    room = omega (arith, more, h.room);
  }

  store-Taken :
      (r : Reassembler) (s : Segment) (m : List Bool) (head : Map)
      → HasPart r m head
      → IsPartOf s
      → (set (shown m pieces) s.segment_id (some s.chunk) ≡ shown (set m s.segment_id true) pieces)
      → (arrived (shown (set m s.segment_id true) pieces)
          ≡ arrived (shown m pieces) + length s.chunk)
      → Taken (store c r s (part m head)) (set m s.segment_id true) head
  unfolding store
  store-Taken r s m head h p filled more =
      let m' = set m s.segment_id true in
      let next =
        stored-HasPart r m m' head (length s.chunk) h (length-set m s.segment_id true) more in
      let whole = arrived-shown_le m' pieces in
      let fits : (ltb total (saturating_add (arrived (shown m pieces)) (length s.chunk))
            || ltb max_buffered_assembly_bytes (saturating_add r.buffered_bytes (length s.chunk)))
          ≡ false =
        limits (arrived (shown m pieces)) r.buffered_bytes (length s.chunk) total
          max_buffered_assembly_bytes (omega (arith, whole, more)) h.room in
      rw fits (rw filled (rw (← more) (rw p.same_key (finish-Taken _ m' head next))))

  place-Taken :
      (r : Reassembler) (s : Segment) (m : List Bool) (head : Map)
      → HasPart r m head
      → IsPartOf s
      → Slot m pieces s.segment_id s.chunk
      → Taken
          (place c r s (part m head) (chunk_at (shown m pieces) s.segment_id))
          (set m s.segment_id true)
          head
  unfolding place
  place-Taken r s m head h p (inl (at, same)) =
      rw at (rw (text_eq_refl s.chunk) (rw same (rw p.same_key (finish-Taken r m head h))))
  place-Taken r s m head h p (inr (gap, filled, more)) =
      rw gap (store-Taken r s m head h p filled more)

  join-Taken :
      (r : Reassembler) (s : Segment) (m : List Bool) (head : Map)
      → HasPart r m head
      → IsPartOf s
      → Taken (join c r s (part m head)) (set m s.segment_id true) head
  unfolding join
  join-Taken r s m head h p =
      let same : (not (length (shown m pieces) == s.segment_count) || not (total == s.message_size))
          ≡ false =
        ground (arith, length-shown m pieces h.aligned, p.count, p.size) in
      rw same (place-Taken r s m head h p (slot m pieces s.segment_id s.chunk h.aligned p.piece))

  pub accept_segment-Taken :
      (r : Reassembler) (s : Segment) (m : List Bool) (head : Map)
      → HasPart r m head
      → IsPartOf s
      → Taken (accept_segment c r s) (set m s.segment_id true) head
  unfolding accept_segment
  accept_segment-Taken r s m head h p =
      let found : lookup s.key r.assemblies ≡ some (part m head) = rw p.same_key h.entry in
      rw (found, accept_segment) (join-Taken r s m head h p)

  -- Nothing of the message has arrived.
  abbrev pub blank : List Bool
  blank = replicate (length pieces) false

  -- A reassembler that can take the message in.
  pub record HasRoom (r : Reassembler) : Type 0 where
    pub absent : lookup key r.assemblies ≡ none
    pub open_slot : length r.assemblies < max_concurrent_assemblies
    pub room : r.buffered_bytes + total ≤ max_buffered_assembly_bytes

  new-part : (s : Segment) → IsPartOf s → new_assembly s ≡ part blank s.head
  new-part s p = rw (p.count, p.size, shown-blank pieces, arrived-replicate (length pieces))

  new-HasPart :
      (r : Reassembler) (s : Segment)
      → HasRoom r
      → HasPart (record r { assemblies = put key (part blank s.head) r.assemblies }) blank s.head
  new-HasPart r s h = record {
    entry = lookup-put_self key (part blank s.head) r.assemblies;
    aligned = length-replicate (length pieces) false;
    room = omega (arith, h.room);
  }

  accept_segment_absent :
      (r : Reassembler) (s : Segment)
      → lookup s.key r.assemblies ≡ none
      → leb max_concurrent_assemblies (length r.assemblies) ≡ false
      → accept_segment c r s
        ≡ join c
            (record r { assemblies = put s.key (new_assembly s) r.assemblies })
            s
            (new_assembly s)
  unfolding accept_segment
  accept_segment_absent r s absent open_slot = rw (absent, accept_segment) (rw open_slot)

  pub accept_segment_first-Taken :
      (r : Reassembler) (s : Segment)
      → HasRoom r
      → IsPartOf s
      → Taken (accept_segment c r s) (set blank s.segment_id true) s.head
  accept_segment_first-Taken r s h p =
      let absent : lookup s.key r.assemblies ≡ none = rw p.same_key h.absent in
      let open_slot : leb max_concurrent_assemblies (length r.assemblies) ≡ false =
        ground (arith, h.open_slot) in
      let fresh : new_assembly s ≡ part blank s.head = new-part s p in
      let entered : put s.key (new_assembly s) r.assemblies
          ≡ put key (part blank s.head) r.assemblies =
        cc (p.same_key, fresh) in
      rw (accept_segment_absent r s absent open_slot)
        (rw entered (rw fresh (join-Taken _ s blank s.head (new-HasPart r s h) p)))
