-- ===== src/Transport/Reassembly.antt =====
-- src/transport.rs: `ServerMessageReassembler`, which collects the segments of server messages.
-- `self` is passed in and returned, also with an error, since an error can drop an assembly.
pub mod Joining
pub mod Invariant
pub mod Slots
pub mod Delivery
pub mod RoundTrip
use rcodex.Common.{
  ℕ, zero, suc, ◌+◌, ◌-◌, Bool, true, false, not, ◌||◌, Option, none, some, List, [], ◌∷◌, ◌++◌,
  ltb, leb, ◌==◌, if◌then◌else◌, length, set, replicate, is_empty, any, Result, ok, err, Error,
  ◌>>=◌, ◌>>◌, bail_if, context, Text, Bytes, text, text_eq,
}
use rcodex.Common.Assoc.{lookup, put, delete}
use rcodex.Json.{
  Value, Map, empty, object, string, field, insert, has_str, as_object, is_object, Codec,
}
use rcodex.Transport.Fields.{
  max_frame_bytes, max_message_bytes, max_segments, max_concurrent_assemblies,
  max_buffered_assembly_bytes, saturating_add, string_field, usize_field,
}

pub record Assembly : Type 0 where
  pub chunks : List (Option Bytes)
  pub first : Map
  pub message_size : ℕ
  pub received_bytes : ℕ

-- `HashMap<String, Assembly>` as an association list with one entry for each key.
abbrev pub Assemblies : Type 0
Assemblies = List (Text × Assembly)

pub record Reassembler : Type 0 where
  pub assemblies : Assemblies
  pub buffered_bytes : ℕ

-- `ServerMessageReassembler::default()`.
abbrev pub default : Reassembler
default = record { assemblies = []; buffered_bytes = 0 }

-- `chunks[i]`. An index out of range would panic; the test on the metadata has excluded it.
abbrev pub chunk_at : List (Option Bytes) → ℕ → Option Bytes
chunk_at [] i = none
chunk_at (x ∷ cs) zero = x
chunk_at (x ∷ cs) (suc i) = chunk_at cs i

-- The bytes of a chunk that has arrived.
abbrev pub chunk_bytes : Option Bytes → Bytes
chunk_bytes none = []
chunk_bytes (some b) = b

abbrev pub is_none : Option Bytes → Bool
is_none none = true
is_none (some b) = false

-- `chunks.into_iter().flatten().flatten()`.
unfoldable pub joined : List (Option Bytes) → Bytes
joined [] = []
joined (c ∷ cs) = chunk_bytes c ++ joined cs

-- What `observe` reads of a segment before it touches `self`.
pub record Segment : Type 0 where
  pub head : Map
  pub segment_id : ℕ
  pub segment_count : ℕ
  pub message_size : ℕ
  pub key : Text
  pub chunk : Bytes

-- `Display` of a `usize`; only the text of a key depends on it.
pub record Display : Type 0 where
  pub decimal : ℕ → Text

module _ (c : Codec) (d : Display) where
  check_size : Value → Result Error (Unit {0})
  check_size envelope = do
    bytes ← context "serialize" (c.to_vec envelope)
    bail_if (ltb max_frame_bytes (length bytes))
        "remote-control server segment exceeds the frame limit"

  -- The `bail!` on the metadata.
  unfoldable pub bad_metadata : ℕ → ℕ → ℕ → Bool
  bad_metadata id count size =
      leb count 1
      || ltb max_segments count
      || leb count id
      || size == 0
      || ltb max_message_bytes size

  segment_key : Map → Result Error Text
  segment_key m = do
    env ← string_field m (text "env_id")
    stream ← string_field m (text "stream_id")
    seq ← usize_field m (text "seq_id")
    ok (env ++ (text ":" ++ (stream ++ (text ":" ++ d.decimal seq))))

  decode_chunk : Map → Result Error Bytes
  decode_chunk m = do
    encoded ← string_field m (text "message_chunk_base64")
    context "remote-control server segment is not base64" (c.decode encoded)

  unfoldable pub read_segment : Value → Result Error Segment
  unfolding check_size segment_key decode_chunk
  read_segment envelope = do
    check_size envelope
    m ← context "remote-control server segment is not an object" (as_object envelope)
    id ← usize_field m (text "segment_id")
    count ← usize_field m (text "segment_count")
    size ← usize_field m (text "message_size_bytes")
    bail_if (bad_metadata id count size) "remote-control server segment metadata is invalid"
    key ← segment_key m
    chunk ← decode_chunk m
    bail_if (is_empty chunk || ltb size (length chunk))
        "remote-control server segment has an invalid decoded size"
    ok (record {
      head = m;
      segment_id = id;
      segment_count = count;
      message_size = size;
      key = key;
      chunk = chunk;
    })

abbrev pub Outcome : Type 0
Outcome = Reassembler × Result Error (Option Value)

unfoldable pub remove_assembly : Reassembler → Text → Reassembler
unfolding lookup delete
remove_assembly r key = elim (lookup key r.assemblies) [
  | none ↦ r
  | some a ↦ record {
    assemblies = delete key r.assemblies;
    buffered_bytes = r.buffered_bytes - a.received_bytes;
  }
]

-- The loop that copies the listed fields of the first segment.
unfoldable pub copy_fields : List Text → Map → Map → Map
copy_fields [] from to = to
copy_fields (k ∷ ks) from to = elim (field k from) [
  | none ↦ copy_fields ks from to
  | some v ↦ copy_fields ks from (insert k v to)
]

abbrev pub copied_fields : List Text
copied_fields =
    text "client_id"
    ∷ text "seq_id"
    ∷ text "stream_id"
    ∷ text "cursor"
    ∷ text "env_id"
    ∷ text "skip_history"
    ∷ []

-- The `server_message` that stands for all the segments.
unfoldable pub complete_message : Map → Value → Value
complete_message first message = object (
    insert (text "message") message (
      insert (text "type") (string (text "server_message"))
        (copy_fields copied_fields first empty)))

-- `vec![None; segment_count]` and the rest of a new assembly.
abbrev pub new_assembly : Segment → Assembly
new_assembly s = record {
  chunks = replicate s.segment_count none;
  first = s.head;
  message_size = s.message_size;
  received_bytes = 0;
}

module _ (c : Codec) where
  -- The bytes of a full assembly, parsed and put into its envelope.
  unfoldable pub assemble : Assembly → Result Error Value
  assemble a = do
    let bytes = joined a.chunks
    bail_if (not (length bytes == a.message_size))
        "reassembled remote-control message has the wrong size"
    message ← context "reassembled app-server message is invalid" (c.from_slice bytes)
    bail_if (not (is_object message)) "reassembled app-server message is not an object"
    ok (complete_message a.first message)

  -- From `if assembly.chunks.iter().any(Option::is_none)` on. `a` is the entry for `key`.
  finish : Reassembler → Text → Assembly → Outcome
  finish r key a = if any is_none a.chunks then (r, ok none) else (
    record {
      assemblies = delete key r.assemblies;
      buffered_bytes = r.buffered_bytes - a.received_bytes;
    },
    assemble a >>= λ v. ok (some v),
  )

  -- The new chunk's share of the limits.
  store : Reassembler → Segment → Assembly → Outcome
  unfolding finish
  store r s a =
      let size = length s.chunk in
      let a' : Assembly = record a {
        chunks = set a.chunks s.segment_id (some s.chunk);
        received_bytes = a.received_bytes + size;
      } in
      if ltb a.message_size (saturating_add a.received_bytes size)
        || ltb max_buffered_assembly_bytes (saturating_add r.buffered_bytes size)
      then (
        remove_assembly r s.key,
        err "remote-control server segments exceed the reassembly size limit",
      )
      else finish
          (record {
            assemblies = put s.key a' r.assemblies;
            buffered_bytes = r.buffered_bytes + size;
          })
          s.key a'

  -- `assembly.chunks[segment_id]` holds a chunk, or not yet.
  place : Reassembler → Segment → Assembly → Option Bytes → Outcome
  unfolding finish store
  place r s a (some existing) =
      if text_eq existing s.chunk
      then finish r s.key a
      else (remove_assembly r s.key, err "remote-control server segment changed when repeated")
  place r s a none = store r s a

  join : Reassembler → Segment → Assembly → Outcome
  unfolding place
  join r s a =
      if not (length a.chunks == s.segment_count) || not (a.message_size == s.message_size)
      then (
        remove_assembly r s.key,
        err "remote-control server segment metadata changed mid-message",
      )
      else place r s a (chunk_at a.chunks s.segment_id)

  -- `entry(key).or_insert_with(…)`, behind the limit on assemblies.
  unfoldable pub accept_segment : Reassembler → Segment → Outcome
  unfolding join
  accept_segment r s = elim (lookup s.key r.assemblies) [
    | some a ↦ join r s a
    | none ↦
        if leb max_concurrent_assemblies (length r.assemblies)
        then (r, err "too many incomplete remote-control server messages")
        else join (record r { assemblies = put s.key (new_assembly s) r.assemblies }) s
            (new_assembly s)
  ]

  unfoldable pub observe_segment : Reassembler → Result Error Segment → Outcome
  unfolding accept_segment
  observe_segment r (ok s) = accept_segment r s
  observe_segment r (err e) = (r, err e)

  -- `ServerMessageReassembler::observe`.
  unfoldable pub observe : Display → Reassembler → Value → Outcome
  unfolding observe_segment
  observe d r envelope =
      if has_str (text "type") (text "server_message_chunk") envelope
      then observe_segment r (read_segment c d envelope)
      else (r, ok (some envelope))
