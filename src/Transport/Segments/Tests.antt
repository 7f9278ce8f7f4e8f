-- ===== src/Transport/Segments/Tests.antt =====
-- Runs of `segment_client_message` of src/transport.rs.
use rcodex.Common.{
  ℕ, suc, ◌<◌, ◌≡◌, refl, true, false, none, some, List, [], ◌∷◌, flatten, arith, leb, length,
  replicate, all, All, length-replicate, ok, Bytes, text, text_eq,
}
use rcodex.Json.{
  Value, Codec, IsCodec, empty, entry, object, string, get, has_str, field, insert, remove,
}
use rcodex.Transport.Fields.{segment_target_bytes, max_frame_bytes}
use rcodex.Transport.Segments.{
  chunks, chunks_on, make_segment, make_segments, fits_frame, cut, segment_loop, run_loop,
  message_to_cut, segment_serialized, segment_client_message,
}
use rcodex.Transport.Segments.Frames.{Carries, IsInFrame, segment_client_message-Carries}
use rcodex.Transport.Segments.Termination.{
  IsCuttable, FitsUpTo, NeverFits, segment_client_message_ends, segment_client_message_never,
}

abbrev message_bytes : Bytes
message_bytes = 1 ∷ 2 ∷ 3 ∷ 4 ∷ 5 ∷ []

abbrev envelope : Value
envelope = object (
    entry (text "type") (string (text "client_message"))
      (entry (text "message") (string message_bytes) empty))

-- More than the target, less than a frame.
unfoldable long_print : Bytes
long_print = replicate 102401 0

-- More than a frame.
unfoldable huge_print : Bytes
huge_print = replicate 200000 0

length-long_print : length long_print ≡ 102401
unfolding long_print
length-long_print = length-replicate {A = ℕ} 102401 0

length-huge_print : length huge_print ≡ 200000
unfolding huge_print
length-huge_print = length-replicate {A = ℕ} 200000 0

-- A text as itself, an object with a text in its second place in many bytes, any other in none.
abbrev print : Value → Bytes → Bytes → Bytes
print (string s) long short = s
print (object (entry j v (entry k (string s) m))) long short = long
print _ long short = short

abbrev codec : Bytes → Bytes → Codec
codec long short = record {
  to_vec = λ v. some (print v long short);
  from_slice = λ b. none;
  encode = λ b. b;
  decode = some;
}

abbrev roomy : Codec
roomy = codec long_print []

abbrev cramped : Codec
cramped = codec huge_print huge_print

roomy-IsCodec : IsCodec roomy
roomy-IsCodec = record { decode-encode = λ b. refl }

has_kind : has_str (text "type") (text "client_message") envelope ≡ true
unfolding has_str get field text text_eq
has_kind = refl

has_message : get (text "message") envelope ≡ some (string message_bytes)
unfolding get field text text_eq
has_message = refl

roomy-IsCuttable : IsCuttable roomy envelope message_bytes
roomy-IsCuttable = record {
  serialized = long_print;
  printed = refl;
  long = omega (arith, length-long_print);
  kind = has_kind;
  message = string message_bytes;
  found = has_message;
  message_printed = refl;
  limited = omega arith;
}

cramped-IsCuttable : IsCuttable cramped envelope message_bytes
cramped-IsCuttable = record {
  serialized = huge_print;
  printed = refl;
  long = omega (arith, length-huge_print);
  kind = has_kind;
  message = string message_bytes;
  found = has_message;
  message_printed = refl;
  limited = omega arith;
}

make_segments-roomy :
    (size count id : ℕ) (ps : List Bytes)
    → all (fits_frame roomy) (make_segments roomy envelope size count id ps) ≡ true
unfolding make_segments make_segment fits_frame insert remove text text_eq
make_segments-roomy size count id [] = refl
make_segments-roomy size count id (p ∷ ps) = make_segments-roomy size count (suc id) ps

roomy-FitsUpTo : FitsUpTo roomy envelope message_bytes 8192
unfolding cut
roomy-FitsUpTo size h k =
    make_segments-roomy (length message_bytes) (length (chunks size message_bytes)) 0
      (chunks size message_bytes)

cramped-NeverFits : NeverFits cramped envelope message_bytes
unfolding cut chunks chunks_on make_segments make_segment fits_frame insert remove text text_eq
cramped-NeverFits size h =
    let over : leb (length huge_print) max_frame_bytes ≡ false =
      ground (arith, length-huge_print) in
    rw over

segment_client_message_ends_example :
    (segments : List Value) × (segment_client_message roomy segment_target_bytes envelope
      ≡ some (ok segments))
segment_client_message_ends_example =
    segment_client_message_ends roomy envelope message_bytes roomy-IsCuttable roomy-FitsUpTo

segment_client_message_never_example : segment_client_message cramped 1000 envelope ≡ none
segment_client_message_never_example =
    segment_client_message_never cramped envelope message_bytes cramped-IsCuttable (omega arith)
      cramped-NeverFits 1000

-- The one frame that the message goes out in.
abbrev frames : List Value
frames = cut roomy envelope message_bytes 5

sent : segment_client_message roomy 1 envelope ≡ some (ok frames)
unfolding segment_client_message segment_serialized run_loop message_to_cut segment_loop cut
sent =
    let long : leb (length long_print) segment_target_bytes ≡ false =
      ground (arith, length-long_print) in
    let fit = make_segments-roomy 5 (length (chunks 5 message_bytes)) 0 (chunks 5 message_bytes) in
    rw long (rw has_kind (rw has_message (rw fit)))

segment_client_message-Carries_example :
    (message : Value) × (bytes : Bytes) × (pieces : List Bytes) × (get (text "message") envelope
      ≡ some message)
    × (roomy.to_vec message ≡ some bytes)
    × (flatten pieces ≡ bytes)
    × All (λ p. 0 < length p) pieces
    × Carries roomy (length bytes) (length pieces) 0 pieces frames
    × All (IsInFrame roomy) frames
segment_client_message-Carries_example =
    segment_client_message-Carries roomy 1 envelope long_print frames roomy-IsCodec refl
      (omega (arith, length-long_print)) sent
