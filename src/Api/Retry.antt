-- ===== src/Api/Retry.antt =====
-- src/api.rs: `send_with_status_policy`, with its refresh after a 401 and its retries, and
-- `parse_retry_after`. The server and the refresh of the credentials are functions of the number of
-- the request; the sleeps are recorded, in milliseconds.
use rcodex.Common.{
  Result-cases, ℕ, zero, suc, ◌+◌, ◌-◌, ◌*◌, ◌^◌, ◌≤◌, ◌<◌, min, ◌≡◌, refl, ◌⊎◌, inl, inr, Bool,
  true, false, not, ◌&&◌, ◌||◌, Option, none, some, List, [], ◌∷◌, arith, ltb, leb, ◌==◌,
  if◌then◌else◌, Bool-cases, Option-cases, All, Result, ok, err, Error, Text, is_ascii_digit, trim,
}

pub record Reply : Type 0 where
  pub status : ℕ
  pub retry_after : Option Text

-- `str::parse::<u64>`: a plus sign is allowed, and a number of more than 64 bits is an error.
parse_digits : ℕ → Text → Option ℕ
parse_digits acc [] = some acc
parse_digits acc (c ∷ s) =
    let next = acc * 10 + (c - b'0') in
    let rest = parse_digits next s in if is_ascii_digit c && ltb next (2 ^ 64) then rest else none

parse_unsigned : Text → Option ℕ
parse_unsigned [] = none
parse_unsigned (c ∷ s) = parse_digits 0 (c ∷ s)

unfoldable pub parse_u64 : Text → Option ℕ
unfolding parse_digits parse_unsigned is_ascii_digit
parse_u64 [] = none
parse_u64 (c ∷ s) = if c == b'+' then parse_unsigned s else parse_unsigned (c ∷ s)

-- The seconds of the `Duration`.
unfoldable pub parse_retry_after : Text → Option ℕ
unfolding parse_u64
parse_retry_after value = elim (parse_u64 (trim value)) [ none ↦ none | some n ↦ some (min n 30) ]

abbrev pub is_success : ℕ → Bool
is_success s = leb 200 s && ltb s 300

abbrev pub is_server_error : ℕ → Bool
is_server_error s = leb 500 s && ltb s 600

abbrev pub is_busy : ℕ → Bool
is_busy s = s == 429 || is_server_error s

-- `Retry-After`, or 250 ms doubled with each retry.
unfoldable pub delay : Reply → ℕ → ℕ
delay r retry_count = elim r.retry_after [
  | none ↦ 250 * 2 ^ retry_count
  | some value ↦ elim (parse_retry_after value) [ none ↦ 250 * 2 ^ retry_count | some n ↦ n * 1000 ]
]

-- What a call has done so far: its answer, or none yet, and the sleeps before it.
pub record Sent : Type 0 where
  pub requests : ℕ
  pub sleeps : List ℕ
  pub answer : Option (Result Error Reply)

abbrev one_more : Sent → Sent
one_more s = record s { requests = suc s.requests }

abbrev slept : ℕ → Sent → Sent
slept d s = record s { sleeps = d ∷ s.sleeps }

abbrev done : Result Error Reply → Sent
done a = record { requests = 0; sleeps = []; answer = some a }

module _ (allow_not_found : Bool) (server : ℕ → Result Error Reply)
    (refresh : ℕ → Result Error (Unit {0})) where
  finish : Reply → Sent
  finish r =
      if not (is_success r.status || allow_not_found && r.status == 404)
      then done (err "remote-control request failed")
      else done (ok r)

  -- The loop on fuel. `n` counts the requests before this one.
  send_loop : ℕ → ℕ → Bool → ℕ → Sent
  unfolding finish
  send_loop zero n refreshed retry_count = record { requests = 0; sleeps = []; answer = none }
  send_loop (suc f) n refreshed retry_count =
      let again = send_loop f (suc n) true retry_count in
      let later = send_loop f (suc n) refreshed (suc retry_count) in
      elim (server n) [
        | err e ↦ one_more (done (err "send remote-control request"))
        | ok r ↦
            if r.status == 401 && not refreshed
            then elim (refresh n) [ err e ↦ one_more (done (err e)) | ok u ↦ one_more again ]
            else if is_busy r.status && ltb retry_count 3
            then one_more (slept (delay r retry_count) later)
            else one_more (finish r)
      ]

  unfoldable pub send : ℕ → Sent
  unfolding send_loop
  send fuel = send_loop fuel 0 false 0

-- A reply that the caller may read, or an error.
abbrev pub IsReadable : Bool → Result Error Reply → Type 0
IsReadable allow_not_found (err e) = Unit
IsReadable allow_not_found (ok r) =
    (is_success r.status ≡ true) ⊎ ((allow_not_found ≡ true) × (r.status ≡ 404))

abbrev pub IsAnswer : Bool → Sent → Type 0
IsAnswer allow_not_found s =
    (result : Result Error Reply) × (s.answer ≡ some result) × IsReadable allow_not_found result

-- No request waits for more than the longest `Retry-After` that is obeyed.
abbrev pub IsPatient : Sent → Type 0
IsPatient s = All (λ d. d ≤ 30 * 1000) s.sleeps

backoff : (k : ℕ) → k < 3 → 250 * 2 ^ k ≤ 1000
backoff zero h = omega arith
backoff (suc zero) h = omega arith
backoff (suc (suc zero)) h = omega arith
backoff (suc (suc (suc k))) h = absurd (omega arith)

parse_retry_after_le : (value : Text) (n : ℕ) → parse_retry_after value ≡ some n → n ≤ 30
unfolding parse_retry_after
parse_retry_after_le value n e = ground arith

delay_le : (r : Reply) (k : ℕ) → k < 3 → delay r k ≤ 30 * 1000
unfolding delay
delay_le r k h = elim (Option-cases r.retry_after) [
  | inl e ↦ rw (e, delay) (omega (arith, backoff k h))
  | inr (v, e) ↦ elim (Option-cases (parse_retry_after v)) [
    | inl e' ↦ rw (e, delay) (rw e' (omega (arith, backoff k h)))
    | inr (n, e') ↦ rw (e, delay) (rw e' (omega (arith, parse_retry_after_le v n e')))
  ]
]

-- The refreshes and retries that are left.
budget : Bool → ℕ → ℕ
budget refreshed retry_count = (if refreshed then 0 else 1) + (3 - retry_count)

module _ (allow : Bool) (server : ℕ → Result Error Reply)
    (refresh : ℕ → Result Error (Unit {0})) where
  -- The call has returned, within the budget, and what it returned may be read.
  abbrev Ends : ℕ → Sent → Type 0
  Ends left s = IsAnswer allow s × IsPatient s × (s.requests ≤ suc left)

  finish-Ends : (r : Reply) (left : ℕ) → Ends left (one_more (finish allow server refresh r))
  unfolding finish
  finish-Ends r left = elim (Bool-cases (not (is_success r.status || allow && r.status == 404))) [
    | inl refused ↦ rw refused ((err "remote-control request failed", refl, tt), tt, omega arith)
    | inr fine ↦ rw fine ((ok r, refl, ground arith), tt, omega arith)
  ]

  send_loop-Ends :
      (f n : ℕ) (refreshed : Bool) (k : ℕ)
      → budget refreshed k < f
      → Ends (budget refreshed k) (send_loop allow server refresh f n refreshed k)
  unfolding send_loop budget
  send_loop-Ends zero n refreshed k h = absurd (omega arith)
  send_loop-Ends (suc f) n refreshed k h = elim (Result-cases (server n)) [
    | inl (e, failed) ↦
        rw (failed, send_loop) ((err "send remote-control request", refl, tt), tt, omega arith)
    | inr (r, replied) ↦ elim (Bool-cases (r.status == 401 && not refreshed)) [
      | inl unauthorized ↦ elim (Result-cases (refresh n)) [
        | inl (e, refused) ↦
            rw (replied, send_loop)
              (rw unauthorized (rw refused ((err e, refl, tt), tt, omega arith)))
        | inr (u, renewed) ↦
            let stale : refreshed ≡ false = ground arith in
            let (answer, patient, few) = send_loop-Ends f (suc n) true k (ground arith) in
            rw (replied, send_loop) (rw unauthorized (rw renewed (answer, patient, ground arith)))
      ]
      | inr authorized ↦ elim (Bool-cases (is_busy r.status && ltb k 3)) [
        | inl busy ↦
            let (answer, patient, few) =
              send_loop-Ends f (suc n) refreshed (suc k) (ground arith) in
            rw (replied, send_loop)
              (rw authorized
                (rw busy (answer, (delay_le r k (ground arith), patient), ground arith)))
        | inr calm ↦
            rw (replied, send_loop) (rw authorized (rw calm (finish-Ends r (budget refreshed k))))
      ]
    ]
  ]

  -- Whatever the server and the refresh answer, a call returns after at most five requests: the
  -- first, one after a refresh, and three retries. It never sleeps for more than 30 seconds between
  -- two of them, and it gives its caller no reply but a success, or a 404 where that is allowed.
  pub send_ends :
      IsAnswer allow (send allow server refresh 5)
      × IsPatient (send allow server refresh 5)
      × ((send allow server refresh 5).requests ≤ 5)
  unfolding send budget
  send_ends = send_loop-Ends 5 0 false 0 (omega arith)
