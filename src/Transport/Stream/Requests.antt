-- ===== src/Transport/Stream/Requests.antt =====
-- What the message of an envelope does to the requests that wait for an answer, in
-- `observe_server_envelope` of src/transport.rs.
use rcodex.Common.{
  ◌≡◌, refl, ap, ◌⊎◌, inl, inr, true, false, Option, none, some, List, [], ◌∷◌, ◌++◌, if◌then◌else◌,
  Bool-cases, Result, ok, err, Error, Text, text, text_eq,
}
use rcodex.Json.{Value, Map, object, string, field, remove, get, has_str, field-remove}
use rcodex.Transport.Stream.Incoming.{has_str-eq-true}
use rcodex.Transport.Stream.{
  RelayTransport, Received, deliver_message, answer, answer_oldest, remove_first, id_eq,
  json_object,
}

-- No waiting request has this identifier.
abbrev pub AreOthers : Value → List Value → Type 0
AreOthers id [] = Unit
AreOthers id (p ∷ ps) = (id_eq p id ≡ false) × AreOthers id ps

remove_first-cases :
    (id : Value) (ps : List Value)
    → (AreOthers id ps × (remove_first id ps ≡ ps))
      ⊎ ((before : List Value) × (p : Value) × (after : List Value) × (ps ≡ before ++ (p ∷ after))
          × (remove_first id ps ≡ before ++ after)
          × (id_eq p id ≡ true)
          × AreOthers id before)
unfolding remove_first
remove_first-cases id [] = inl (tt, refl)
remove_first-cases id (p ∷ ps) = elim (Bool-cases (id_eq p id)) [
  | inl hit ↦ rw hit (inr ([], p, ps, refl, refl, hit, tt))
  | inr miss ↦ elim (remove_first-cases id ps) [
    | inl (others, same) ↦ rw miss (inl ((refl, others), ap (λ xs. p ∷ xs) same))
    | inr (before, q, after, split, rest, hit, others) ↦ rw miss (
        inr (
          p ∷ before,
          q,
          after,
          ap (λ xs. p ∷ xs) split,
          ap (λ xs. p ∷ xs) rest,
          hit,
          (miss, others),
        ))
  ]
]

-- A message without an identifier that is not an error of the relay, or with one that no waiting
-- request has.
abbrev pub IsUnasked : List Value → Value → Type 0
IsUnasked waiting m =
    ((get (text "id") m ≡ none) × (has_str (text "type") (text "error") m ≡ false))
    ⊎ ((id : Value) × (get (text "id") m ≡ some id) × AreOthers id waiting)

-- An error of the relay that no request waits for.
abbrev pub IsOrphan : (Value → Type 0) → List Value → Type 0
IsOrphan P waiting =
    (payload : Value) × P payload
    × (get (text "id") payload ≡ none)
    × (get (text "type") payload ≡ some (string (text "error")))
    × (waiting ≡ [])

-- Nothing is delivered, for this reason or since no request waits for the error; or a message is
-- that answers no request.
abbrev pub IsUnanswering :
    (Value → Type 0) → Type 0 → List Value → Result Error (Option Value) → Type 0
IsUnanswering P U waiting (err e) = U ⊎ IsOrphan P waiting
IsUnanswering P U waiting (ok none) = U
IsUnanswering P U waiting (ok (some m)) = P m × IsUnasked waiting m

-- All requests go on waiting.
abbrev pub IsIdle : (Value → Type 0) → Type 0 → List Value → Received → Type 0
IsIdle P U waiting o = (o.0.pending_request_ids ≡ waiting) × IsUnanswering P U waiting o.1

-- The message is delivered as it came; the first request with its identifier waits no more.
pub record IsReply (P : Value → Type 0) (waiting : List Value) (o : Received) : Type 0 where
  pub message : Value
  pub id : Value
  pub request : Value
  pub before : List Value
  pub after : List Value
  pub came : P message
  pub delivered : o.1 ≡ ok (some message)
  pub named : get (text "id") message ≡ some id
  pub same_id : id_eq request id ≡ true
  pub earlier : AreOthers id before
  pub waited : waiting ≡ before ++ (request ∷ after)
  pub left : o.0.pending_request_ids ≡ before ++ after

-- An error of the relay, which names no request, is delivered as the answer to the oldest one, with
-- its fields but the type.
pub record IsRelayError (P : Value → Type 0) (waiting : List Value) (o : Received) : Type 0 where
  pub payload : Map
  pub request : Value
  pub message : Value
  pub error : Map
  pub came : P (object payload)
  pub unnamed : get (text "id") (object payload) ≡ none
  pub kind : get (text "type") (object payload) ≡ some (string (text "error"))
  pub waited : waiting ≡ request ∷ o.0.pending_request_ids
  pub delivered : o.1 ≡ ok (some message)
  pub answered : get (text "id") message ≡ some request
  pub explained : get (text "error") message ≡ some (object error)
  pub fields :
      (k : Text) → field k error ≡ (if text_eq (text "type") k then none else field k payload)

-- What can come of the requests, where nothing is delivered only for this reason.
abbrev pub Settles : (Value → Type 0) → Type 0 → List Value → Received → Type 0
Settles P U waiting o = IsIdle P U waiting o ⊎ IsReply P waiting o ⊎ IsRelayError P waiting o

module _ (P : Value → Type 0) (U : Type 0) (t : RelayTransport) where
  relay_error-Settles :
      (payload : Map) (request : Value) (waiting : List Value)
      → t.pending_request_ids ≡ request ∷ waiting
      → P (object payload)
      → get (text "id") (object payload) ≡ none
      → get (text "type") (object payload) ≡ some (string (text "error"))
      → Settles P U t.pending_request_ids (answer_oldest t (request ∷ waiting) (object payload))
  unfolding answer_oldest get field text text_eq
  relay_error-Settles payload request waiting waits came unnamed kind = inr (
      inr (record {
        payload = payload;
        request = request;
        message = object (
            json_object
              ((text "id", request) ∷ (text "error", object (remove (text "type") payload)) ∷ []));
        error = remove (text "type") payload;
        came = came;
        unnamed = unnamed;
        kind = kind;
        waited = waits;
        delivered = refl;
        answered = refl;
        explained = refl;
        fields = λ k. field-remove (text "type") k payload;
      }))

  oldest-Settles :
      (message : Value) (waiting : List Value)
      → t.pending_request_ids ≡ waiting
      → P message
      → get (text "id") message ≡ none
      → get (text "type") message ≡ some (string (text "error"))
      → Settles P U t.pending_request_ids (answer_oldest t waiting message)
  unfolding answer_oldest get
  oldest-Settles message [] waits came unnamed kind =
      inl (refl, inr (message, came, unnamed, kind, waits))
  oldest-Settles (object payload) (p ∷ ps) waits came unnamed kind =
      relay_error-Settles payload p ps waits came unnamed kind
  oldest-Settles _ (p ∷ ps) waits came unnamed kind = cc

  named-Settles :
      (message id : Value)
      → P message
      → get (text "id") message ≡ some id
      → Settles P U t.pending_request_ids (answer t message (some id))
  unfolding answer
  named-Settles message id came named = elim (remove_first-cases id t.pending_request_ids) [
    | inl (others, same) ↦ inl (same, (came, inr (id, named, others)))
    | inr (before, p, after, split, rest, hit, others) ↦ inr (
        inl (record {
          message = message;
          id = id;
          request = p;
          before = before;
          after = after;
          came = came;
          delivered = refl;
          named = named;
          same_id = hit;
          earlier = others;
          waited = split;
          left = rest;
        }))
  ]

  unnamed-Settles :
      (message : Value)
      → P message
      → get (text "id") message ≡ none
      → Settles P U t.pending_request_ids (answer t message none)
  unfolding answer
  unnamed-Settles message came unnamed =
      elim (Bool-cases (has_str (text "type") (text "error") message)) [
        | inl failed ↦ rw failed (
            oldest-Settles message t.pending_request_ids refl came unnamed
              (has_str-eq-true (text "type") (text "error") message failed))
        | inr plain ↦ rw plain (inl (refl, (came, inl (unnamed, plain))))
      ]

  answer-Settles :
      (message : Value) (id : Option Value)
      → P message
      → get (text "id") message ≡ id
      → Settles P U t.pending_request_ids (answer t message id)
  answer-Settles message none came found = unnamed-Settles message came found
  answer-Settles message (some id) came found = named-Settles message id came found

  pub deliver_message-Settles :
      (message : Option Value)
      → (message ≡ none → U)
      → ((m : Value) → message ≡ some m → P m)
      → Settles P U t.pending_request_ids (deliver_message t message)
  unfolding deliver_message
  deliver_message-Settles none missing came = inl (refl, inl (missing refl))
  deliver_message-Settles (some m) missing came =
      answer-Settles m (get (text "id") m) (came m refl) refl
