-- ===== src/Broker/Frames.antt =====
-- src/main.rs: `read_broker_frame`, which reads a line of the input. The input is the bytes that are
-- still to come; reading does not fail.
use rcodex.Common.{
  ℕ, zero, suc, ◌+◌, ◌≤◌, ◌<◌, ◌≡◌, refl, inl, inr, Bool, false, ◌&&◌, ◌||◌, Option, none, some, [],
  ◌∷◌, ◌++◌, arith, ltb, ◌==◌, if◌then◌else◌, Bool-cases, length, is_empty, All, length-append,
  Result, ok, err, Error, Bytes,
}
use rcodex.Broker.Session.{max_broker_frame_bytes}

-- `take(limit).read_until(b'\n', …)`: what was read, and what is left.
unfoldable pub read_until : ℕ → Bytes → Bytes × Bytes
read_until zero input = ([], input)
read_until (suc limit) [] = ([], [])
read_until (suc limit) (b ∷ input) =
    let (line, left) = read_until limit input in
    if b == 10 then (b ∷ [], input) else (b ∷ line, left)

-- 1 for `frame.ends_with(b"\n")`.
unfoldable pub line_end : Bytes → ℕ
line_end [] = 0
line_end (b ∷ []) = if b == 10 then 1 else 0
line_end (a ∷ b ∷ s) = line_end (b ∷ s)

abbrev pub is_end : ℕ → Bool
is_end b = b == 10 || b == 13

-- `while matches!(frame.last(), Some(b'\n' | b'\r')) { frame.pop(); }`.
unfoldable pub pop_ends : Bytes → Bytes
pop_ends [] = []
pop_ends (b ∷ s) = let rest = pop_ends s in if is_empty rest && is_end b then [] else b ∷ rest

-- The tests on what was read. A frame comes with what is left of the input.
unfoldable pub check_frame : Bytes → Bytes → Result Error (Option Bytes × Bytes)
unfolding line_end
check_frame frame left =
    if is_empty frame
    then ok (none, left)
    else if ltb (max_broker_frame_bytes + line_end frame) (length frame)
    then err "relay broker request exceeded the safety limit"
    else ok (some (pop_ends frame), left)

unfoldable pub read_broker_frame : Bytes → Result Error (Option Bytes × Bytes)
unfolding read_until check_frame
read_broker_frame input =
    let (frame, left) = read_until (max_broker_frame_bytes + 2) input in check_frame frame left

-- A byte that does not end a line.
abbrev pub IsInner : ℕ → Type 0
IsInner b = (b == 10) ≡ false

read_until_line :
    (f left : Bytes) (limit : ℕ)
    → All IsInner f
    → length f < limit
    → read_until limit (f ++ 10 ∷ left) ≡ (f ++ 10 ∷ [], left)
unfolding read_until
read_until_line f left zero h few = absurd (omega arith)
read_until_line [] left (suc limit) h few = refl
read_until_line (b ∷ f) left (suc limit) (inner, h) few =
    rw inner (rw (read_until_line f left limit h (omega arith)) refl)

line_end_line : (f : Bytes) → line_end (f ++ 10 ∷ []) ≡ 1
unfolding line_end
line_end_line [] = refl
line_end_line (a ∷ []) = refl
line_end_line (a ∷ b ∷ f) = line_end_line (b ∷ f)

pop_ends_line : (f : Bytes) → pop_ends (f ++ 10 ∷ []) ≡ pop_ends f
unfolding pop_ends
pop_ends_line [] = refl
pop_ends_line (b ∷ f) = rw (pop_ends_line f) refl

is_empty_line : (f left : Bytes) → is_empty (f ++ 10 ∷ left) ≡ false
is_empty_line [] left = refl
is_empty_line (b ∷ f) left = refl

-- A line that is short enough and whose frame has no line end in it or after it is read as its frame,
-- and the rest of the input is left.
pub read_broker_frame_line :
    (f left : Bytes)
    → All IsInner f
    → pop_ends f ≡ f
    → length f ≤ max_broker_frame_bytes
    → read_broker_frame (f ++ 10 ∷ left) ≡ ok (some f, left)
unfolding read_broker_frame check_frame
read_broker_frame_line f left h plain few =
    let short : ltb (max_broker_frame_bytes + 1) (length (f ++ 10 ∷ [])) ≡ false =
      ground (arith, length-append f (10 ∷ [])) in
    rw (read_until_line f left (max_broker_frame_bytes + 2) h (omega arith)) (
      rw (is_empty_line f [])
        (rw (line_end_line f) (rw short (rw (pop_ends_line f) (rw plain refl)))))

line_end_le : (s : Bytes) → line_end s ≤ 1
unfolding line_end
line_end_le [] = omega arith
line_end_le (b ∷ []) = ground arith
line_end_le (a ∷ b ∷ s) = line_end_le (b ∷ s)

pop_ends_le : (s : Bytes) → length (pop_ends s) + line_end s ≤ length s
unfolding pop_ends line_end
pop_ends_le [] = omega arith
pop_ends_le (b ∷ []) = ground arith
pop_ends_le (a ∷ b ∷ s) = ground (arith, pop_ends_le (b ∷ s))

length-read_until :
    (limit : ℕ) (input : Bytes)
    → length (read_until limit input).0 + length (read_until limit input).1 ≡ length input
unfolding read_until
length-read_until zero input = omega arith
length-read_until (suc limit) [] = refl
length-read_until (suc limit) (b ∷ input) = ground (arith, length-read_until limit input)

check_frame_bounds :
    (frame rest f left : Bytes)
    → check_frame frame rest ≡ ok (some f, left)
    → (length f ≤ max_broker_frame_bytes) × (0 < length frame) × (rest ≡ left)
unfolding check_frame
check_frame_bounds [] rest f left e = cc
check_frame_bounds (b ∷ s) rest f left e =
    elim (Bool-cases (ltb (max_broker_frame_bytes + line_end (b ∷ s)) (length (b ∷ s)))) [
      | inl long ↦ cc (rw long at e)
      | inr short ↦
          let e' : ok (some (pop_ends (b ∷ s)), rest) ≡ ok (some f, left) = rw short at e in
          let same : pop_ends (b ∷ s) ≡ f = cc e' in
          (rw (← same) (ground (arith, pop_ends_le (b ∷ s))), omega arith, cc e')
    ]

-- A frame that is read is within the limit, and takes at least a byte from the input.
pub read_broker_frame_bounds :
    (input f left : Bytes)
    → read_broker_frame input ≡ ok (some f, left)
    → (length f ≤ max_broker_frame_bytes) × (length left < length input)
unfolding read_broker_frame
read_broker_frame_bounds input f left e =
    let (frame, rest) = read_until (max_broker_frame_bytes + 2) input in
    let total = length-read_until (max_broker_frame_bytes + 2) input in
    let (few, read, same) = check_frame_bounds frame rest f left e in
    let shorter : length rest < length input = omega (arith, total, read) in
    (few, rw same at shorter)
