-- ===== src/Transport/Stream/Incoming.antt =====
-- Which envelopes of the relay a transport takes in, and what they leave of its state.
use rcodex.Common.{
  ◌≡◌, refl, ◌≢◌, ◌⊎◌, inl, inr, Bool, true, false, not, ◌||◌, none, some, [], arith, Bool-cases,
  Option-cases, Result, ok, err, Error, bail_if, >>=-eq-ok, Text, text, text_eq, text_eq_sound,
  text_eq_refl, ap, ◌∙◌,
}
use rcodex.Json.{Value, Codec, Map, object, string, field, get, as_str, has_str}
use rcodex.Transport.Fields.{string_field}
use rcodex.Transport.Reassembly.{Display}
use rcodex.Transport.Stream.{
  RelayTransport, Received, observe_server_envelope, observe_targeted, is_server_message,
  server_envelope_targets_active_stream,
}

-- The envelope is a server message for this client, host and stream.
pub record IsTargeted (t : RelayTransport) (v : Value) : Type 0 where
  pub kind :
      (get (text "type") v ≡ some (string (text "server_message")))
      ⊎ (get (text "type") v ≡ some (string (text "server_message_chunk")))
  pub client : get (text "client_id") v ≡ some (string t.client_id)
  pub host : get (text "env_id") v ≡ some (string t.environment_id)
  pub stream : get (text "stream_id") v ≡ some (string t.stream_id)

string_of :
    (t : Text) (w : Value)
    → elim (as_str w) [ none ↦ false | some u ↦ text_eq u t ] ≡ true
    → w ≡ string t
string_of t (string u) e = ap string (text_eq_sound u t e)
string_of t _ e = cc

pub has_str-eq-true : (k t : Text) (v : Value) → has_str k t v ≡ true → get k v ≡ some (string t)
unfolding has_str
has_str-eq-true k t v e = elim (Option-cases (get k v)) [
  | inl missing ↦ cc (rw (missing, has_str) at e)
  | inr (w, found) ↦ found ∙ ap some (string_of t w (rw (found, has_str) at e))
]

is_server_message-eq-true :
    (v : Value)
    → is_server_message v ≡ true
    → (get (text "type") v ≡ some (string (text "server_message")))
      ⊎ (get (text "type") v ≡ some (string (text "server_message_chunk")))
is_server_message-eq-true v e =
    elim (Bool-cases (has_str (text "type") (text "server_message") v)) [
      | inl one ↦ inl (has_str-eq-true (text "type") (text "server_message") v one)
      | inr other ↦
          inr (has_str-eq-true (text "type") (text "server_message_chunk") v (rw other at e))
    ]

string_field-eq-ok :
    (m : Map) (name s : Text) → string_field m name ≡ ok s → field name m ≡ some (string s)
unfolding string_field
string_field-eq-ok m name s e = ground arith

module _ (m : Map) (client env stream : Text) where
  targets_object :
      server_envelope_targets_active_stream (object m) client env stream ≡ ok true
      → (field (text "client_id") m ≡ some (string client))
        × (field (text "env_id") m ≡ some (string env))
        × (field (text "stream_id") m ≡ some (string stream))
  unfolding server_envelope_targets_active_stream
  targets_object e =
      let (its_client, e₁, r₁) = >>=-eq-ok (string_field m (text "client_id")) _ e in
      let reads : Result Error Text = elim (text_eq its_client client) [
        | true ↦ string_field m (text "env_id")
        | false ↦ ok []
      ] in
      let (its_env, e₂, r₂) = >>=-eq-ok reads _ r₁ in
      let (u, e₃, r₃) =
        >>=-eq-ok
          (bail_if (not (text_eq its_client client) || not (text_eq its_env env))
            "remote-control server envelope targets a different client or host")
          _ r₂ in
      let (its_stream, e₄, r₄) = >>=-eq-ok (string_field m (text "stream_id")) _ r₃ in
      let same_client : text_eq its_client client ≡ true = ground arith in
      let same_env : text_eq its_env env ≡ true = ground arith in
      let env_read : string_field m (text "env_id") ≡ ok its_env = ground arith in
      (
        string_field-eq-ok m (text "client_id") client
            (rw (text_eq_sound its_client client same_client) at e₁),
        string_field-eq-ok m (text "env_id") env
            (rw (text_eq_sound its_env env same_env) at env_read),
        string_field-eq-ok m (text "stream_id") stream
            (rw (text_eq_sound its_stream stream (ground arith)) at e₄),
      )

targets-eq-true :
    (v : Value) (client env stream : Text)
    → server_envelope_targets_active_stream v client env stream ≡ ok true
    → (get (text "client_id") v ≡ some (string client))
      × (get (text "env_id") v ≡ some (string env))
      × (get (text "stream_id") v ≡ some (string stream))
unfolding server_envelope_targets_active_stream get
targets-eq-true (object m) client env stream e = targets_object m client env stream e
targets-eq-true _ client env stream e = cc

has_str-string : (k t : Text) (v : Value) → get k v ≡ some (string t) → has_str k t v ≡ true
unfolding has_str
has_str-string k t v e = rw (e, has_str) (text_eq_refl t)

pub is_server_message-IsKind :
    (t : RelayTransport) (v : Value) → IsTargeted t v → is_server_message v ≡ true
is_server_message-IsKind t v h = elim h.kind [
  | inl one ↦ rw (has_str-string (text "type") (text "server_message") v one) refl
  | inr chunk ↦ ground (arith, has_str-string (text "type") (text "server_message_chunk") v chunk)
]

targets_fields :
    (m : Map) (client env stream : Text)
    → field (text "client_id") m ≡ some (string client)
    → field (text "env_id") m ≡ some (string env)
    → field (text "stream_id") m ≡ some (string stream)
    → server_envelope_targets_active_stream (object m) client env stream ≡ ok true
unfolding server_envelope_targets_active_stream string_field
targets_fields m client env stream c e s =
    rw (c, text_eq_refl client, e, text_eq_refl env, s, text_eq_refl stream) refl

targets_of :
    (v : Value) (client env stream : Text)
    → get (text "client_id") v ≡ some (string client)
    → get (text "env_id") v ≡ some (string env)
    → get (text "stream_id") v ≡ some (string stream)
    → server_envelope_targets_active_stream v client env stream ≡ ok true
unfolding get
targets_of (object m) client env stream c e s = targets_fields m client env stream c e s
targets_of _ client env stream c e s = cc

pub targets-IsTargeted :
    (t : RelayTransport) (v : Value)
    → IsTargeted t v
    → server_envelope_targets_active_stream v t.client_id t.environment_id t.stream_id ≡ ok true
targets-IsTargeted t v h =
    targets_of v t.client_id t.environment_id t.stream_id h.client h.host h.stream

module _ (c : Codec) (d : Display) where
  -- Nothing was delivered, and the state is the one before.
  abbrev pub IsIgnored : RelayTransport → Received → Type 0
  IsIgnored t (t', result) = (t' ≡ t) × ((m : Value) → result ≢ ok (some m))

  observe_targeted-IsTargeted :
      (t : RelayTransport) (v : Value) (target : Result Error Bool)
      → (target ≡ ok true → IsTargeted t v)
      → IsTargeted t v ⊎ IsIgnored t (observe_targeted c d t v target)
  unfolding observe_targeted
  observe_targeted-IsTargeted t v (err e) h = inr (refl, λ m e. cc)
  observe_targeted-IsTargeted t v (ok false) h = inr (refl, λ m e. cc)
  observe_targeted-IsTargeted t v (ok true) h = inl (h refl)

  -- An envelope delivers a message or changes the state in any way only if it is a server message,
  -- or a part of one, that names this client, this host and the active stream. Any other is
  -- ignored, or is an error that leaves the state as it was.
  pub observe_server_envelope-IsTargeted :
      (t : RelayTransport) (v : Value)
      → IsTargeted t v ⊎ IsIgnored t (observe_server_envelope c d t v)
  unfolding observe_server_envelope
  observe_server_envelope-IsTargeted t v = elim (Bool-cases (is_server_message v)) [
    | inl read ↦ rw read (
        observe_targeted-IsTargeted t v _ λ target.
          let (client, host, stream) =
            targets-eq-true v t.client_id t.environment_id t.stream_id target in
          record {
            kind = is_server_message-eq-true v read;
            client = client;
            host = host;
            stream = stream;
          })
    | inr skipped ↦ rw skipped (inr (refl, λ m e. cc))
  ]
