-- ===== src/Broker/Tests.antt =====
-- Runs of the readers of pairing codes and of frames.
use rcodex.Common.{◌≤◌, ◌<◌, ◌≡◌, refl, some, [], ◌∷◌, arith, ok, err, text, trim}
use rcodex.Broker.Frames.{
  read_broker_frame, pop_ends, read_broker_frame_line, read_broker_frame_bounds,
}
use rcodex.Broker.Session.{max_broker_frame_bytes}
use rcodex.Broker.Pairing.{
  pairing_code, compact_loop, build_manual_pairing_body, pairing_body,
  build_manual_pairing_body-pairing_code, invalid_pairing_code,
}

build_manual_pairing_body-pairing_code_example :
    build_manual_pairing_body (text "c") (text "ab-cd 1234")
    ≡ pairing_body (text "c") (pairing_code (text "ab-cd 1234"))
unfolding text trim
build_manual_pairing_body-pairing_code_example =
    build_manual_pairing_body-pairing_code (text "c") (text "ab-cd 1234") refl

pairing_code_tests :
    (pairing_code (text "abcd123") ≡ err invalid_pairing_code)
    × (pairing_code (text "abcd_1234") ≡ err invalid_pairing_code)
unfolding text pairing_code compact_loop
pairing_code_tests = (refl, refl)

read_broker_frame_line_example :
    read_broker_frame (1 ∷ 2 ∷ 10 ∷ 7 ∷ []) ≡ ok (some (1 ∷ 2 ∷ []), 7 ∷ [])
unfolding pop_ends
read_broker_frame_line_example =
    read_broker_frame_line (1 ∷ 2 ∷ []) (7 ∷ []) (refl, (refl, tt)) refl (omega arith)

read_broker_frame_bounds_example : (2 ≤ max_broker_frame_bytes) × (1 < 4)
read_broker_frame_bounds_example =
    read_broker_frame_bounds (1 ∷ 2 ∷ 10 ∷ 7 ∷ []) (1 ∷ 2 ∷ []) (7 ∷ [])
      read_broker_frame_line_example
