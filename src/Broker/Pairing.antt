-- ===== src/Broker/Pairing.antt =====
-- src/broker.rs: `PairingCode`; src/api.rs: `build_manual_pairing_body`, which reads the same codes.
-- A text is walked by its code points: all the bytes of one beyond ASCII are refused, as it is.
use rcodex.Common.{
  ℕ, ◌≡◌, refl, sym, ap, ◌∙◌, inl, inr, Bool, true, false, not, ◌||◌, [], ◌∷◌, ◌++◌, arith, ◌==◌,
  if◌then◌else◌, ==_iff, Bool-cases, length, take, drop, all, All, take-append-drop, Result, ok,
  err, Error, ◌>>=◌, ◌>>◌, bail_if, Text, text, str_len, is_ascii_whitespace, is_ascii_alphanumeric,
  to_ascii_uppercase, All-take, All-drop,
}
use mathlib.Core.List.{append-nil, append_assoc}
use rcodex.Json.{Value, empty, entry, object, string}
use rcodex.Api.Environment.{is_blank}

pub data BrokerProtocolError : Type 0 where
  empty_frame frame_too_large malformed_frame incompatible_version : BrokerProtocolError
  invalid_pairing_code invalid_host_metadata : BrokerProtocolError

-- A space or a dash between the letters and digits.
unfoldable pub is_separator : ℕ → Bool
unfolding is_ascii_whitespace
is_separator b = is_ascii_whitespace b || b == b'-'

-- The loop over the bytes, with the `compact` that it fills.
unfoldable pub compact_loop : Text → Text → Result BrokerProtocolError Text
unfolding is_separator is_ascii_alphanumeric to_ascii_uppercase
compact_loop [] compact = ok compact
compact_loop (b ∷ s) compact = elim (is_separator b) [
  | true ↦ compact_loop s compact
  | false ↦ elim (is_ascii_alphanumeric b) [
    | true ↦ compact_loop s (compact ++ to_ascii_uppercase b ∷ [])
    | false ↦ err invalid_pairing_code
  ]
]

-- Two groups of four with a dash between them.
abbrev pub grouped : Text → Text
grouped compact = take 4 compact ++ (b'-' ∷ drop 4 compact)

-- `PairingCode::new`, which gives the normalized text.
unfoldable pub pairing_code : Text → Result BrokerProtocolError Text
pairing_code value = do
  compact ← compact_loop value []
  bail_if (not (length compact == 8)) invalid_pairing_code
  ok (grouped compact)

-- `chars().filter(…).collect::<String>().to_ascii_uppercase()`.
unfoldable pub compact_code : Text → Text
unfolding is_separator to_ascii_uppercase
compact_code [] = []
compact_code (b ∷ s) =
    if is_separator b then compact_code s else to_ascii_uppercase b ∷ compact_code s

unfoldable pub build_manual_pairing_body : Text → Text → Result Error Value
build_manual_pairing_body client_id code = do
  bail_if (is_blank client_id) "rcodex client ID is empty"
  let compact = compact_code code
  bail_if (not (str_len compact == 8) || not (all is_ascii_alphanumeric compact))
      "manual pairing code must contain exactly eight letters or digits"
  ok (
      object (
        entry (text "client_id") (string client_id)
          (entry (text "manual_pairing_code") (string (grouped compact)) empty)))

upper_alphanumeric :
    (b : ℕ) → is_ascii_alphanumeric (to_ascii_uppercase b) ≡ is_ascii_alphanumeric b
unfolding is_ascii_alphanumeric to_ascii_uppercase
upper_alphanumeric b = ground arith

-- The collected text, or the error, as the filter of src/api.rs gives it.
abbrev collected : Text → Text → Result BrokerProtocolError Text
collected compact rest =
    if all is_ascii_alphanumeric rest then ok (compact ++ rest) else err invalid_pairing_code

taken :
    (u : ℕ) (s compact : Text)
    → is_ascii_alphanumeric u ≡ true
    → compact_loop s (compact ++ u ∷ []) ≡ collected (compact ++ u ∷ []) (compact_code s)
    → compact_loop s (compact ++ u ∷ []) ≡ collected compact (u ∷ compact_code s)
taken u s compact good h = rw good (rw append_assoc at h)

refused :
    (u : ℕ) (s compact : Text)
    → is_ascii_alphanumeric u ≡ false
    → err invalid_pairing_code ≡ collected compact (u ∷ compact_code s)
refused u s compact bad = rw bad

-- What the loop has collected, or that it met something else.
compact_loop-compact_code :
    (s compact : Text) → compact_loop s compact ≡ collected compact (compact_code s)
unfolding compact_loop compact_code
compact_loop-compact_code [] compact = ap ok (sym (append-nil compact))
compact_loop-compact_code (b ∷ s) compact = elim (Bool-cases (is_separator b)) [
  | inl skip ↦ rw (skip, compact_loop) (compact_loop-compact_code s compact)
  | inr keep ↦ elim (Bool-cases (is_ascii_alphanumeric b)) [
    | inl good ↦
        rw (keep, compact_loop)
          (rw (good, compact_loop)
            (taken (to_ascii_uppercase b) s compact (upper_alphanumeric b ∙ good)
              (compact_loop-compact_code s (compact ++ to_ascii_uppercase b ∷ []))))
    | inr bad ↦
        rw (keep, compact_loop)
          (rw (bad, compact_loop)
            (refused (to_ascii_uppercase b) s compact (upper_alphanumeric b ∙ bad)))
  ]
]

str_len-alphanumeric : (s : Text) → all is_ascii_alphanumeric s ≡ true → str_len s ≡ length s
unfolding str_len is_ascii_alphanumeric
str_len-alphanumeric [] h = refl
str_len-alphanumeric (b ∷ s) h = ground (arith, str_len-alphanumeric s)

-- The body for a code that `PairingCode` reads.
abbrev pub pairing_body : Text → Result BrokerProtocolError Text → Result Error Value
pairing_body client_id (ok code) = ok (
    object (
      entry (text "client_id") (string client_id)
        (entry (text "manual_pairing_code") (string code) empty)))
pairing_body client_id (err e) =
    err "manual pairing code must contain exactly eight letters or digits"

-- The two readers of a pairing code, the broker's loop over bytes and the filter of the command
-- line's request, accept the same texts and give the same normalized code.
pub build_manual_pairing_body-pairing_code :
    (client_id code : Text)
    → is_blank client_id ≡ false
    → build_manual_pairing_body client_id code ≡ pairing_body client_id (pairing_code code)
unfolding build_manual_pairing_body pairing_code
build_manual_pairing_body-pairing_code client_id code named =
    let loop = compact_loop-compact_code code [] in
    elim (Bool-cases (all is_ascii_alphanumeric (compact_code code))) [
      | inl good ↦
          let size = str_len-alphanumeric (compact_code code) good in
          let read : compact_loop code [] ≡ ok (compact_code code) = rw good at loop in
          elim (Bool-cases (length (compact_code code) == 8)) [
            | inl eight ↦ rw named (rw read (rw size (rw good (rw eight))))
            | inr other ↦ rw named (rw read (rw size (rw good (rw other))))
          ]
      | inr bad ↦
          let failed : compact_loop code [] ≡ err invalid_pairing_code = rw bad at loop in
          rw named (rw failed (rw bad (ground arith)))
    ]

-- The letters and digits of a code, in upper case.
abbrev pub IsUpper : Text → Type 0
IsUpper s = All (λ b. (to_ascii_uppercase b ≡ b) × (is_ascii_alphanumeric b ≡ true)) s

upper_upper : (b : ℕ) → to_ascii_uppercase (to_ascii_uppercase b) ≡ to_ascii_uppercase b
unfolding to_ascii_uppercase
upper_upper b = ground arith

separator_free : (b : ℕ) → is_ascii_alphanumeric b ≡ true → is_separator b ≡ false
unfolding is_ascii_alphanumeric is_separator
separator_free b h = ground arith

compact_code-IsUpper :
    (s : Text) → all is_ascii_alphanumeric (compact_code s) ≡ true → IsUpper (compact_code s)
unfolding compact_code
compact_code-IsUpper [] h = tt
compact_code-IsUpper (b ∷ s) h = elim (Bool-cases (is_separator b)) [
  | inl skip ↦ rw skip (compact_code-IsUpper s (rw (skip, compact_code) at h))
  | inr keep ↦
      let h' : all is_ascii_alphanumeric (to_ascii_uppercase b ∷ compact_code s) ≡ true =
        rw (keep, compact_code) at h in
      rw keep ((upper_upper b, ground arith), compact_code-IsUpper s (ground arith))
]

-- Letters and digits in upper case are kept as they are, and a dash is skipped.
compact_code-append : (s t : Text) → IsUpper s → compact_code (s ++ t) ≡ s ++ compact_code t
unfolding compact_code
compact_code-append [] t h = refl
compact_code-append (b ∷ s) t ((same, good), h) =
    rw (separator_free b good) (rw same (ap (◌∷◌ b) (compact_code-append s t h)))

compact_code_upper : (s : Text) → IsUpper s → compact_code s ≡ s
unfolding compact_code
compact_code_upper [] h = refl
compact_code_upper (b ∷ s) ((same, good), h) =
    rw (separator_free b good) (rw same (ap (◌∷◌ b) (compact_code_upper s h)))

compact_code-dash : (s : Text) → compact_code (b'-' ∷ s) ≡ compact_code s
unfolding compact_code is_separator
compact_code-dash s = refl

all_alphanumeric : (s : Text) → IsUpper s → all is_ascii_alphanumeric s ≡ true
all_alphanumeric [] h = refl
all_alphanumeric (b ∷ s) ((same, good), h) = rw good (all_alphanumeric s h)

-- Eight letters and digits in upper case, in two groups of four with a dash between them.
pub record IsNormal (code : Text) : Type 0 where
  pub compact : Text
  pub upper : IsUpper compact
  pub eight : length compact ≡ 8
  pub groups : code ≡ grouped compact

pairing_code-IsNormal : (value code : Text) → pairing_code value ≡ ok code → IsNormal code
unfolding pairing_code
pairing_code-IsNormal value code e =
    let loop = compact_loop-compact_code value [] in
    let c = compact_code value in
    elim (Bool-cases (all is_ascii_alphanumeric c)) [
      | inr bad ↦
          let failed : compact_loop value [] ≡ err invalid_pairing_code = rw bad at loop in
          cc (rw failed at e)
      | inl good ↦
          let read : compact_loop value [] ≡ ok c = rw good at loop in
          elim (Bool-cases (length c == 8)) [
            | inr other ↦ cc (rw other at (rw read at e))
            | inl eight ↦
                let same : grouped c ≡ code = ground (arith, rw eight at (rw read at e)) in
                record {
                  compact = c;
                  upper = compact_code-IsUpper value good;
                  eight = (==_iff (length c) 8).0 eight;
                  groups = sym same;
                }
          ]
    ]

compact_code-grouped : (c : Text) → IsUpper c → compact_code (grouped c) ≡ c
compact_code-grouped c h =
    let P = λ (b : ℕ). (to_ascii_uppercase b ≡ b) × (is_ascii_alphanumeric b ≡ true) in
    compact_code-append (take 4 c) (b'-' ∷ drop 4 c) (All-take P 4 c h)
    ∙ ap (◌++◌ (take 4 c))
        (compact_code-dash (drop 4 c) ∙ compact_code_upper (drop 4 c) (All-drop P 4 c h))
    ∙ take-append-drop 4 c

pairing_code_normal : (code : Text) → IsNormal code → pairing_code code ≡ ok code
unfolding pairing_code
pairing_code_normal code n =
    let c = n.compact in
    let again = compact_code-grouped c n.upper in
    let loop = compact_loop-compact_code (grouped c) [] in
    let good = all_alphanumeric c n.upper in
    let read : compact_loop (grouped c) [] ≡ ok c = rw good at (rw again at loop) in
    rw n.groups (rw read (rw n.eight))

-- An accepted code has a normal form, and the normal form of a code is accepted and is its own.
pub pairing_code_idempotent :
    (value code : Text)
    → pairing_code value ≡ ok code
    → IsNormal code × (pairing_code code ≡ ok code)
pairing_code_idempotent value code e =
    let n = pairing_code-IsNormal value code e in (n, pairing_code_normal code n)
