-- ===== src/Transport/Segments/Termination.antt =====
-- When the loop of `segment_client_message` returns, and when it never does.
use rcodex.Common.{
  ℕ, zero, suc, ◌+◌, ◌-◌, ◌*◌, ◌≤◌, ◌<◌, max, ◌≡◌, refl, sym, ◌∙◌, inl, inr, true, false, none,
  some, List, arith, leb, ◌==◌, le→ltb, Bool-cases, length, all, ok, Bytes, text,
}
use native.Mathlib.Decide.{dec_lt}
use native.Mathlib.Nat.{
  mul-suc, le-mul_of_pos_right, div-le_of_le-mul, div-lt_iff_lt-mul, le-div_iff_mul-le, mul-le-mul,
  mul-le-mul_left, mul-le-mul_right,
}
use rcodex.Json.{Value, Codec, has_str, get}
use rcodex.Transport.Fields.{segment_target_bytes, max_message_bytes, div_ceil, saturating_add}
use rcodex.Transport.Segments.{
  chunks, fits_frame, cut, segment_loop, message_to_cut, run_loop, segment_serialized,
  segment_client_message,
}
use rcodex.Transport.Segments.Chunks.{length-chunks_bounds}

abbrev chunk_size_for : Bytes → ℕ → ℕ
chunk_size_for bytes count = max (div_ceil (length bytes) count) 1

squeeze : (a p q len s : ℕ) → a ≤ p → p + s ≤ q → q < len + s → len ≤ a → ⊥
squeeze a p q len s h i j k = omega arith

halves : (p size m len : ℕ) → 2 * m ≤ p → p + size < len + size → 4 ≤ len → suc m + 1 < len
halves p size m len h e k = omega arith

div_ceil-le : (len count : ℕ) → 0 < count → div_ceil len count ≤ len + 1
div_ceil-le len zero h = elim h [ ]
div_ceil-le len (suc j) h =
    let wide : j ≤ j * (len + 1) = le-mul_of_pos_right j (omega arith) in
    div-le_of_le-mul (suc j) (omega arith)

-- With pieces of more than `b` bytes there are fewer pieces than bytes in one.
count-lt-size : (size n len b : ℕ) → b < size → len ≤ b * b → size * n < len + size → n < size
count-lt-size zero n len b h small pieces = absurd (omega arith)
count-lt-size (suc k) n len b h small pieces = elim (dec_lt n (suc k)) [
  | yes p ↦ p
  | no q ↦
      let wide : suc k * suc k ≤ suc k * n = mul-le-mul_left (suc k) (omega arith) in
      let square : b * b ≤ suc k * k =
        mul-le-mul {n₁ = b} {m₁ = b} {n₂ = suc k} {m₂ = k} (omega arith) (omega arith) in
      absurd (
        squeeze (b * b) (suc k * k) (suc k * n) len (suc k) square (rw mul-suc at wide) pieces
          small)
]

-- Pieces of two bytes or more are so few that one more is still fewer than the bytes.
pieces_few :
    (size n len : ℕ) → 2 ≤ size → 4 ≤ len → len ≤ size * n → size * n < len + size → n + 1 < len
pieces_few size zero len h long low high = omega arith
pieces_few size (suc m) len h long low high =
    let wide : 2 * m ≤ size * m = mul-le-mul_right m h in
    let rest : size * m + size < len + size = rw mul-suc at high in
    halves (size * m) size m len wide rest long

-- One more piece than needed makes the pieces smaller.
div_ceil-lt : (size n len : ℕ) → n < size → len ≤ size * n → div_ceil len (n + 1) < size
div_ceil-lt size n len h e =
    (div-lt_iff_lt-mul {k = n + 1} {x = len + (n + 1) - 1} {y = size} (omega arith)).1 (omega arith)

module _ (c : Codec) (envelope : Value) (bytes : Bytes) where
  -- Pieces of at most `b` bytes go into frames.
  abbrev pub FitsUpTo : ℕ → Type 0
  FitsUpTo b =
      (size : ℕ) → 0 < size → size ≤ b → all (fits_frame c) (cut c envelope bytes size) ≡ true

  -- No cut goes into frames.
  abbrev pub NeverFits : Type 0
  NeverFits = (size : ℕ) → 0 < size → all (fits_frame c) (cut c envelope bytes size) ≡ false

  segment_loop_ends :
      (b f count : ℕ)
      → 0 < b
      → length bytes ≤ b * b
      → length bytes ≤ max_message_bytes
      → FitsUpTo b
      → 0 < count
      → chunk_size_for bytes count ≤ f
      → (segments : List Value) × (segment_loop c f envelope bytes count ≡ some (ok segments))
  unfolding segment_loop
  segment_loop_ends b zero count pos small big fits some_count enough = absurd (omega arith)
  segment_loop_ends b (suc f) count pos small big fits some_count enough =
      let size = chunk_size_for bytes count in
      elim (Bool-cases (all (fits_frame c) (cut c envelope bytes size))) [
        | inl fit ↦ (cut c envelope bytes size, rw fit)
        | inr unfit ↦
            let large : b < size = elim (dec_lt b size) [
              | yes p ↦ p
              | no q ↦ cc (sym unfit ∙ fits size (omega arith) (omega arith))
            ] in
            let (low, high) = length-chunks_bounds size bytes (omega arith) in
            let n = length (chunks size bytes) in
            let fewer = count-lt-size size n (length bytes) b large small high in
            let smaller = div_ceil-lt size n (length bytes) fewer low in
            let next : saturating_add n 1 ≡ n + 1 =
              omega (arith, fewer, div_ceil-le (length bytes) count some_count) in
            let one : (size == 1) ≡ false = ground arith in
            rw unfit (
              rw one (
                rw next
                  (segment_loop_ends b f (n + 1) pos small big fits (omega arith) (omega arith))))
      ]

  pub segment_loop_never :
      (f count : ℕ)
      → 4 ≤ length bytes
      → length bytes ≤ max_message_bytes
      → NeverFits
      → 0 < count
      → count < length bytes
      → segment_loop c f envelope bytes count ≡ none
  unfolding segment_loop
  segment_loop_never zero count long big never some_count few = refl
  segment_loop_never (suc f) count long big never some_count few =
      let size = chunk_size_for bytes count in
      let two : 2 ≤ div_ceil (length bytes) count =
        (le-div_iff_mul-le some_count).1 (omega arith) in
      let one : (size == 1) ≡ false = ground arith in
      let (low, high) = length-chunks_bounds size bytes (omega arith) in
      let n = length (chunks size bytes) in
      let fewer = pieces_few size n (length bytes) (omega arith) long low high in
      let next : saturating_add n 1 ≡ n + 1 = omega arith in
      rw (never size (omega arith))
        (rw one (rw next (segment_loop_never f (n + 1) long big never (omega arith) fewer)))

-- An envelope that is too long to go out in one piece, and whose message may be cut.
pub record IsCuttable (c : Codec) (envelope : Value) (bytes : Bytes) : Type 0 where
  pub serialized : Bytes
  pub printed : c.to_vec envelope ≡ some serialized
  pub long : segment_target_bytes < length serialized
  pub kind : has_str (text "type") (text "client_message") envelope ≡ true
  pub message : Value
  pub found : get (text "message") envelope ≡ some message
  pub message_printed : c.to_vec message ≡ some bytes
  pub limited : length bytes ≤ max_message_bytes

message_to_cut-IsCuttable :
    (c : Codec) (envelope : Value) (bytes : Bytes)
    → IsCuttable c envelope bytes
    → message_to_cut c envelope ≡ ok bytes
unfolding message_to_cut
message_to_cut-IsCuttable c envelope bytes h =
    rw (h.kind, h.found, h.message_printed, le→ltb max_message_bytes (length bytes) h.limited)

abbrev first_count : Bytes → ℕ
first_count bytes = max (div_ceil (length bytes) segment_target_bytes) 1

-- Past the guards, the call is its loop.
segment_client_message-segment_loop :
    (c : Codec) (fuel : ℕ) (envelope : Value) (bytes : Bytes)
    → IsCuttable c envelope bytes
    → segment_client_message c fuel envelope
      ≡ segment_loop c fuel envelope bytes (first_count bytes)
unfolding segment_client_message segment_serialized run_loop
segment_client_message-segment_loop c fuel envelope bytes h =
    let short : leb (length h.serialized) segment_target_bytes ≡ false = ground (arith, h.long) in
    rw h.printed (rw short (rw (message_to_cut-IsCuttable c envelope bytes h)))

first_size :
    (len : ℕ)
    → max (div_ceil len (max (div_ceil len segment_target_bytes) 1)) 1 ≤ segment_target_bytes
first_size len =
    let k = max (div_ceil len segment_target_bytes) 1 in
    let small : div_ceil len k < segment_target_bytes + 1 =
      (div-lt_iff_lt-mul {k = k} {x = len + k - 1} {y = segment_target_bytes + 1} (omega arith)).1
        (omega arith) in
    omega (arith, small)

-- A message that is to be cut is cut, and the call returns frames, whenever pieces of up to 8 KiB
-- fit into frames with the envelope's other fields. At most 102400 rounds are made.
pub segment_client_message_ends :
    (c : Codec) (envelope : Value) (bytes : Bytes)
    → IsCuttable c envelope bytes
    → FitsUpTo c envelope bytes 8192
    → (segments : List Value) × (segment_client_message c segment_target_bytes envelope
        ≡ some (ok segments))
segment_client_message_ends c envelope bytes h fits =
    rw (segment_client_message-segment_loop c segment_target_bytes envelope bytes h) (
      segment_loop_ends c envelope bytes 8192 segment_target_bytes (first_count bytes) (omega arith)
        (omega (arith, h.limited)) h.limited fits (omega arith) (first_size (length bytes)))

-- When no cut of a message of four bytes or more fits into frames, the loop never returns, neither
-- frames nor the error that the code has for this case: however many rounds it makes, it goes on.
pub segment_client_message_never :
    (c : Codec) (envelope : Value) (bytes : Bytes)
    → IsCuttable c envelope bytes
    → 4 ≤ length bytes
    → NeverFits c envelope bytes
    → (fuel : ℕ) → segment_client_message c fuel envelope ≡ none
segment_client_message_never c envelope bytes h long never fuel =
    rw (segment_client_message-segment_loop c fuel envelope bytes h) (
      segment_loop_never c envelope bytes fuel (first_count bytes) long h.limited never
        (omega arith) (omega arith))
