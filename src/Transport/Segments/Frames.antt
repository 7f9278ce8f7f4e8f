-- ===== src/Transport/Segments/Frames.antt =====
-- What the frames of a cut message say: their order, their number, and the bytes that they carry.
use rcodex.Common.{
  ℕ, zero, suc, ◌≤◌, ◌<◌, max, ◌≡◌, refl, sym, inl, inr, true, none, some, List, [], ◌∷◌, flatten,
  arith, ◌==◌, Bool-cases, Option-cases, length, all, All, Result, ok, err, Error, Bytes, text,
  text_eq, All-map,
}
use rcodex.Json.{Value, string, get, as_str, and_then, field-insert, field-remove, Codec, IsCodec}
use rcodex.Transport.Fields.{segment_target_bytes, max_frame_bytes, div_ceil}
use rcodex.Transport.Segments.{
  chunks, count_value, make_segment, make_segments, fits_frame, cut, segment_loop,
  segment_serialized, message_to_cut, run_loop, segment_serialized, segment_client_message,
}
use rcodex.Transport.Segments.Chunks.{flatten-chunks, chunks-IsPiece}

-- One frame as its receiver reads it: its place, the totals, and the chunk.
pub record IsSegment (c : Codec) (size count id : ℕ) (chunk : Bytes) (v : Value) : Type 0 where
  pub kind : get (text "type") v ≡ some (string (text "client_message_chunk"))
  pub place : get (text "segment_id") v ≡ some (count_value id)
  pub total : get (text "segment_count") v ≡ some (count_value count)
  pub bytes : get (text "message_size_bytes") v ≡ some (count_value size)
  pub content :
      and_then (and_then (get (text "message_chunk_base64") v) as_str) c.decode ≡ some chunk
  pub bare : get (text "message") v ≡ none

-- Frame by frame, from the index `id` on, the pieces of a message.
abbrev pub Carries : Codec → ℕ → ℕ → ℕ → List Bytes → List Value → Type 0
Carries c size count id [] [] = Unit
Carries c size count id (p ∷ ps) (v ∷ vs) =
    IsSegment c size count id p v × Carries c size count (suc id) ps vs
Carries c size count id _ _ = ⊥

module _ (c : Codec) (law : IsCodec c) where
  make_segment-IsSegment :
      (envelope : Value) (size count id : ℕ) (chunk : Bytes)
      → IsSegment c size count id chunk (make_segment c envelope size count id chunk)
  unfolding make_segment get text text_eq
  make_segment-IsSegment envelope size count id chunk = record {
    kind = simp field-insert (simp field-remove (simp field-insert));
    place = simp field-insert;
    total = simp field-insert;
    bytes = simp field-insert;
    content = simp field-insert (law.decode-encode chunk);
    bare = simp field-insert (simp field-remove);
  }

  make_segments-Carries :
      (envelope : Value) (size count id : ℕ) (ps : List Bytes)
      → Carries c size count id ps (make_segments c envelope size count id ps)
  unfolding make_segments
  make_segments-Carries envelope size count id [] = tt
  make_segments-Carries envelope size count id (p ∷ ps) = (
    make_segment-IsSegment envelope size count id p,
    make_segments-Carries envelope size count (suc id) ps,
  )

-- What a run of the loop that returns frames has returned.
pub segment_loop-cut :
    (c : Codec) (f : ℕ) (envelope : Value) (bytes : Bytes) (n : ℕ) (segments : List Value)
    → segment_loop c f envelope bytes n ≡ some (ok segments)
    → (size : ℕ) × (0 < size)
      × (segments ≡ cut c envelope bytes size)
      × (all (fits_frame c) segments ≡ true)
unfolding segment_loop
segment_loop-cut c zero envelope bytes n segments e = cc
segment_loop-cut c (suc f) envelope bytes n segments e =
    let size = max (div_ceil (length bytes) n) 1 in
    elim (Bool-cases (all (fits_frame c) (cut c envelope bytes size))) [
      | inl fit ↦
          let same : cut c envelope bytes size ≡ segments = cc (rw fit at e) in
          (size, omega arith, sym same, rw (← same) fit)
      | inr unfit ↦ elim (Bool-cases (size == 1)) [
        | inl one ↦ cc (rw one at (rw unfit at e))
        | inr more ↦ segment_loop-cut c f envelope bytes _ segments (rw more at (rw unfit at e))
      ]
    ]

message_to_cut-eq-ok :
    (c : Codec) (envelope : Value) (bytes : Bytes)
    → message_to_cut c envelope ≡ ok bytes
    → (message : Value) × (get (text "message") envelope ≡ some message)
      × (c.to_vec message ≡ some bytes)
unfolding message_to_cut
message_to_cut-eq-ok c envelope bytes e = ground arith

run_loop-Carries :
    (c : Codec) (f : ℕ) (envelope : Value) (m : Result Error Bytes) (segments : List Value)
    → IsCodec c
    → run_loop c f envelope m ≡ some (ok segments)
    → (bytes : Bytes) × (pieces : List Bytes) × (m ≡ ok bytes)
      × (flatten pieces ≡ bytes)
      × All (λ p. 0 < length p) pieces
      × Carries c (length bytes) (length pieces) 0 pieces segments
      × (all (fits_frame c) segments ≡ true)
unfolding run_loop cut
run_loop-Carries c f envelope (err e) segments law h = cc
run_loop-Carries c f envelope (ok bytes) segments law h =
    let (size, pos, same, fit) = segment_loop-cut c f envelope bytes _ segments h in
    let pieces = chunks size bytes in
    (
      bytes,
      pieces,
      refl,
      flatten-chunks size bytes pos,
      All-map (λ p h. h.0) pieces (chunks-IsPiece size bytes pos),
      rw same (make_segments-Carries c law envelope (length bytes) (length pieces) 0 pieces),
      fit,
    )

-- A frame that the relay accepts.
abbrev pub IsInFrame : Codec → Value → Type 0
IsInFrame c v = (b : Bytes) × (c.to_vec v ≡ some b) × (length b ≤ max_frame_bytes)

fits_frame-IsInFrame : (c : Codec) (v : Value) → fits_frame c v ≡ true → IsInFrame c v
unfolding fits_frame
fits_frame-IsInFrame c v e = elim (Option-cases (c.to_vec v)) [
  | inl h ↦ cc (rw (h, fits_frame) at e)
  | inr (b, h) ↦ (b, h, ground arith)
]

all_fit : (c : Codec) (vs : List Value) → all (fits_frame c) vs ≡ true → All (IsInFrame c) vs
all_fit c [] e = tt
all_fit c (v ∷ vs) e = (fits_frame-IsInFrame c v (ground arith), all_fit c vs (ground arith))

-- When the printed envelope is longer than the target and the call returns frames, they carry the
-- printed message: joined in order, the decoded chunks are its bytes, none is empty, each frame has
-- its own index, the number of frames and the message's length, none has the message itself, and
-- each prints in at most 150 KiB.
pub segment_client_message-Carries :
    (c : Codec) (fuel : ℕ) (envelope : Value) (serialized : Bytes) (segments : List Value)
    → IsCodec c
    → c.to_vec envelope ≡ some serialized
    → segment_target_bytes < length serialized
    → segment_client_message c fuel envelope ≡ some (ok segments)
    → (message : Value) × (bytes : Bytes) × (pieces : List Bytes) × (get (text "message") envelope
        ≡ some message)
      × (c.to_vec message ≡ some bytes)
      × (flatten pieces ≡ bytes)
      × All (λ p. 0 < length p) pieces
      × Carries c (length bytes) (length pieces) 0 pieces segments
      × All (IsInFrame c) segments
unfolding segment_client_message
segment_client_message-Carries c fuel envelope serialized segments law e long h =
    let h' : segment_serialized c fuel envelope (some serialized) ≡ some (ok segments) =
      rw e at h in
    let run : run_loop c fuel envelope (message_to_cut c envelope) ≡ some (ok segments) =
      ground arith in
    let (bytes, pieces, cut_ok, whole, filled, carried, fit) =
      run_loop-Carries c fuel envelope (message_to_cut c envelope) segments law run in
    let (message, found, printed) = message_to_cut-eq-ok c envelope bytes cut_ok in
    (message, bytes, pieces, found, printed, whole, filled, carried, all_fit c segments fit)
