-- ===== src/Transport/Stream/Order.antt =====
-- The order in which server messages reach the local application.
use rcodex.Common.{
  ℕ, ◌+◌, ◌≡◌, refl, ◌≢◌, ◌⊎◌, inl, inr, Bool, true, false, Option, none, some, List, [], ◌∷◌,
  arith, Bool-cases, Result, ok, err, Error, text,
}
use rcodex.Json.{Value, Codec, get}
use rcodex.Transport.Reassembly.{Display, observe}
use rcodex.Transport.Stream.{
  RelayTransport, Received, observe_server_envelope, observe_targeted, after_reassembly, deliver,
  sequence_of, is_old, is_gap, deliver_message, answer, is_server_message,
}

-- The sequence number after the one that was seen.
abbrev pub Follows : Option ℕ → ℕ → Type 0
Follows none n = Unit
Follows (some seen) n = n ≡ seen + 1

-- Answering a message leaves the number that was seen.
answer-seen :
    (t : RelayTransport) (m : Value) (id : Option Value)
    → (answer t m id).0.seen_server_sequence ≡ t.seen_server_sequence
unfolding answer
answer-seen t m id = ground arith

deliver_message-seen :
    (t : RelayTransport) (m : Option Value)
    → (deliver_message t m).0.seen_server_sequence ≡ t.seen_server_sequence
unfolding deliver_message
deliver_message-seen t none = refl
deliver_message-seen t (some m) = answer-seen t m (get (text "id") m)

answer-ne-none : (t : RelayTransport) (m : Value) (id : Option Value) → (answer t m id).1 ≢ ok none
unfolding answer
answer-ne-none t m id = ground arith

deliver_message-ne-none :
    (t : RelayTransport) (m : Option Value) → (deliver_message t m).1 ≢ ok none
unfolding deliver_message
deliver_message-ne-none t none = λ e. cc
deliver_message-ne-none t (some m) = answer-ne-none t m (get (text "id") m)

-- The number that the new state remembers follows the one before, and a message is delivered or an
-- error is met; or the state remembers what it did, and nothing is delivered.
abbrev pub Advances : Option ℕ → Received → Type 0
Advances seen (t, result) =
    ((n : ℕ) × (t.seen_server_sequence ≡ some n) × Follows seen n × (result ≢ ok none))
    ⊎ ((t.seen_server_sequence ≡ seen) × ((m : Value) → result ≢ ok (some m)))

next_number :
    (seen : Option ℕ) (n : ℕ) → is_old seen n ≡ false → is_gap seen n ≡ false → Follows seen n
unfolding is_old is_gap
next_number none n old gap = tt
next_number (some seen) n old gap = ground arith

-- A message that `deliver` hands over is numbered next.
deliver-Advances :
    (t : RelayTransport) (envelope : Value) (sequence : Option ℕ)
    → Advances t.seen_server_sequence (deliver t envelope sequence)
unfolding deliver
deliver-Advances t envelope none = inr (refl, λ m e. cc)
deliver-Advances t envelope (some n) = elim (Bool-cases (is_old t.seen_server_sequence n)) [
  | inl old ↦ rw old (inr (refl, λ m e. cc))
  | inr new ↦ elim (Bool-cases (is_gap t.seen_server_sequence n)) [
    | inl gap ↦ rw new (rw gap (inr (refl, λ m e. cc)))
    | inr next ↦ rw new (
        rw next (
          inl (
            n,
            deliver_message-seen (record t { seen_server_sequence = some n })
                (get (text "message") envelope),
            next_number t.seen_server_sequence n new next,
            deliver_message-ne-none (record t { seen_server_sequence = some n })
                (get (text "message") envelope),
          )))
  ]
]

after_reassembly-Advances :
    (t : RelayTransport) (r : Result Error (Option Value))
    → Advances t.seen_server_sequence (after_reassembly t r)
unfolding after_reassembly
after_reassembly-Advances t (err e) = inr (refl, λ m e. cc)
after_reassembly-Advances t (ok none) = inr (refl, λ m e. cc)
after_reassembly-Advances t (ok (some v)) = deliver-Advances t v (sequence_of v)

module _ (c : Codec) (d : Display) where
  observe_targeted-Advances :
      (t : RelayTransport) (envelope : Value) (target : Result Error Bool)
      → Advances t.seen_server_sequence (observe_targeted c d t envelope target)
  unfolding observe_targeted
  observe_targeted-Advances t envelope (err e) = inr (refl, λ m e. cc)
  observe_targeted-Advances t envelope (ok false) = inr (refl, λ m e. cc)
  observe_targeted-Advances t envelope (ok true) =
      let (r, result) = observe c d t.reassembler envelope in
      after_reassembly-Advances (record t { reassembler = r }) result

  pub observe_server_envelope-Advances :
      (t : RelayTransport) (envelope : Value)
      → Advances t.seen_server_sequence (observe_server_envelope c d t envelope)
  unfolding observe_server_envelope
  observe_server_envelope-Advances t envelope = elim (Bool-cases (is_server_message envelope)) [
    | inl read ↦ rw read (observe_targeted-Advances t envelope _)
    | inr skipped ↦ rw skipped (inr (refl, λ m e. cc))
  ]

  -- What the bridge hands to the local application from a list of envelopes, each message with the
  -- number that the state then remembers. The first error ends the bridge.
  unfoldable pub received : RelayTransport → List Value → List (Option ℕ × Value)
  received t [] = []
  received t (v ∷ vs) =
      let (t', result) = observe_server_envelope c d t v in
      let rest = received t' vs in
      elim result [
        | err e ↦ []
        | ok none ↦ rest
        | ok (some m) ↦ (t'.seen_server_sequence, m) ∷ rest
      ]

  -- Consecutive numbers from `seen` on.
  abbrev pub IsConsecutive : Option ℕ → List (Option ℕ × Value) → Type 0
  IsConsecutive seen [] = Unit
  IsConsecutive seen ((o, m) ∷ ms) = ((n : ℕ) × (o ≡ some n) × Follows seen n) × IsConsecutive o ms

  step :
      (seen : Option ℕ) (t' : RelayTransport) (result : Result Error (Option Value))
      (vs : List Value)
      → Advances seen (t', result)
      → IsConsecutive t'.seen_server_sequence (received t' vs)
      → IsConsecutive seen (elim result [
        | err e ↦ []
        | ok none ↦ received t' vs
        | ok (some m) ↦ (t'.seen_server_sequence, m) ∷ received t' vs
      ])
  step seen t' (err e) vs a h = tt
  step seen t' (ok (some m)) vs (inl (n, at_n, follows, _)) h = ((n, at_n, follows), h)
  step seen t' (ok (some m)) vs (inr (same, quiet)) h = absurd (quiet m refl)
  step seen t' (ok none) vs (inl (n, at_n, follows, loud)) h = absurd (loud refl)
  step seen t' (ok none) vs (inr (same, quiet)) h = rw (← same) h

  -- Whatever envelopes the relay sends, repeated, late, in pieces, for other streams or malformed,
  -- the messages that reach the local application are numbered without a gap and without a
  -- repetition, from the number that was seen last on.
  pub received-IsConsecutive :
      (t : RelayTransport) (envelopes : List Value)
      → IsConsecutive t.seen_server_sequence (received t envelopes)
  unfolding received
  received-IsConsecutive t [] = tt
  received-IsConsecutive t (v ∷ vs) =
      let (t', result) = observe_server_envelope c d t v in
      step t.seen_server_sequence t' result vs (observe_server_envelope-Advances t v)
        (received-IsConsecutive t' vs)
