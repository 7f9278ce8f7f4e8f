-- ===== src/Broker/Service/Answers.antt =====
-- What `run_broker` of src/main.rs writes, response by response.
use rcodex.Common.{
  ℕ, suc, ◌≤◌, ◌<◌, ◌≡◌, refl, ap, inl, inr, Bool, true, false, not, Option, none, some, List, [],
  ◌∷◌, arith, ltb, Bool-cases, Option-cases, length, Result, ok, err, Error, Text, Bytes,
}
use rcodex.Broker.Pairing.{BrokerProtocolError}
use rcodex.Broker.Hosts.{BrokerHost}
use rcodex.Broker.Session.{
  BrokerRequest, BrokerResponse, BrokerErrorCode, BrokerSession, request_id, max_broker_frame_bytes,
  decode_request, hosts, paired, ready, error,
}
use rcodex.Broker.Session.Admission.{is_handshake, action_for, accept-IsAdmission}
use rcodex.Broker.Service.{
  Remote, Turn, Answer, Ending, Run, finished, failed, bridged, answer_hosts, answer_open, perform,
  answer_admitted, answer_decoded, after_write, write_broker_response, run_broker,
  pair_and_list_hosts, list_broker_hosts, open_remote_app_server,
}

abbrev pub response_id : BrokerResponse → ℕ
response_id (BrokerResponse.handshake version id broker capabilities) = id
response_id (hosts version id found) = id
response_id (paired version id found) = id
response_id (ready version id environment_id) = id
response_id (error version id code) = id

-- The identifier to answer under: that of the request, or 0 if it cannot be read.
abbrev pub decoded_id : Result BrokerProtocolError BrokerRequest → ℕ
decoded_id (err e) = 0
decoded_id (ok request) = request_id request

-- How a response may follow: a greeting once, hosts and connections only after it, errors always.
-- The second truth value says whether the greeting has been given then.
abbrev pub Follows : Bool → BrokerResponse → Bool → Type 0
Follows greeted (BrokerResponse.handshake version id broker capabilities) now =
    (greeted ≡ false) × (now ≡ true)
Follows greeted (error version id code) now = now ≡ greeted
Follows greeted _ now = (greeted ≡ true) × (now ≡ true)

abbrev pub IsGuarded : Bool → List BrokerResponse → Type 0
IsGuarded greeted [] = Unit
IsGuarded greeted (r ∷ rs) = (now : Bool) × Follows greeted r now × IsGuarded now rs

-- A response under the identifier that is due, at a place where it may stand.
abbrev pub IsDue : Bool → ℕ → Bool → BrokerResponse → Type 0
IsDue greeted id now r = (response_id r ≡ id) × Follows greeted r now

answer_hosts_listed :
    (id : ℕ) (found : Result BrokerErrorCode (List BrokerHost))
    → IsDue true id true (answer_hosts id hosts found).0
answer_hosts_listed id (ok found) = (refl, (refl, refl))
answer_hosts_listed id (err code) = (refl, refl)

answer_hosts_paired :
    (id : ℕ) (found : Result BrokerErrorCode (List BrokerHost))
    → IsDue true id true (answer_hosts id paired found).0
answer_hosts_paired id (ok found) = (refl, (refl, refl))
answer_hosts_paired id (err code) = (refl, refl)

answer_open-IsDue :
    (id : ℕ) (environment_id : Text) (connected : Result BrokerErrorCode (Unit {0}))
    → IsDue true id true (answer_open id environment_id connected).0
answer_open-IsDue id environment_id (ok u) = (refl, (refl, refl))
answer_open-IsDue id environment_id (err code) = (refl, refl)

perform-IsDue :
    (remote : Remote) (r : BrokerRequest) (greeted : Bool)
    → is_handshake r ≡ not greeted
    → IsDue greeted (request_id r) true (perform remote (action_for r)).0
unfolding perform
perform-IsDue remote (BrokerRequest.handshake version id minimum maximum) false e =
    (refl, (refl, refl))
perform-IsDue remote (BrokerRequest.handshake version id minimum maximum) true e = cc
perform-IsDue remote (BrokerRequest.pair version id code) true e =
    answer_hosts_paired id (pair_and_list_hosts remote code)
perform-IsDue remote (BrokerRequest.list_hosts version id) true e =
    answer_hosts_listed id (list_broker_hosts remote)
perform-IsDue remote (BrokerRequest.open_app_server version id environment_id) true e =
    answer_open-IsDue id environment_id (open_remote_app_server remote environment_id)
perform-IsDue remote (BrokerRequest.pair version id code) false e = cc
perform-IsDue remote (BrokerRequest.list_hosts version id) false e = cc
perform-IsDue remote (BrokerRequest.open_app_server version id environment_id) false e = cc

answer_decoded-IsDue :
    (s : BrokerSession) (remote : Remote) (d : Result BrokerProtocolError BrokerRequest)
    → let (s', answer) = answer_decoded s remote d in
      IsDue s.initialized (decoded_id d) s'.initialized answer.0
unfolding answer_decoded answer_admitted
answer_decoded-IsDue s remote (err e) = (refl, refl)
answer_decoded-IsDue s remote (ok r) = elim (accept-IsAdmission s r) [
  | inl ((new, kind), e) ↦ rw e (perform-IsDue remote r s.initialized kind)
  | inr (refused, e) ↦ rw e (refl, refl)
]

module _ (parse : Bytes → Option BrokerRequest) (to_vec : BrokerResponse → Option Bytes) where
  -- A response that goes into a frame.
  abbrev pub IsWritten : BrokerResponse → Type 0
  IsWritten r = (b : Bytes) × (to_vec r ≡ some b) × (length b ≤ max_broker_frame_bytes)

  -- One written response for each frame, in order and under its identifier, as long as they go.
  abbrev pub Answers : List Turn → List BrokerResponse → Type 0
  Answers ts [] = Unit
  Answers [] (r ∷ rs) = ⊥
  Answers (t ∷ ts) (r ∷ rs) =
      (response_id r ≡ decoded_id (decode_request parse t.frame)) × IsWritten r × Answers ts rs

  -- The loop ends with the input when every frame has its response, by handing the streams over after
  -- a response, and with an error instead of one.
  abbrev pub Closes : Ending → ℕ → ℕ → Type 0
  Closes finished frames responses = responses ≡ frames
  Closes (failed e) frames responses = responses < frames
  Closes (bridged environment_id) frames responses = (0 < responses) × (responses ≤ frames)

  write-IsWritten :
      (r : BrokerResponse) → write_broker_response parse to_vec r ≡ ok tt → IsWritten r
  unfolding write_broker_response
  write-IsWritten r e = elim (Option-cases (to_vec r)) [
    | inl h ↦ cc (rw h at e)
    | inr (b, h) ↦ elim (Bool-cases (ltb max_broker_frame_bytes (length b))) [
      | inl over ↦ cc (rw over at (rw h at e))
      | inr fits ↦ (b, h, ground arith)
    ]
  ]

  Closes-suc : (e : Ending) (n m : ℕ) → Closes e n m → Closes e (suc n) (suc m)
  Closes-suc finished n m h = ap suc h
  Closes-suc (failed e) n m h = omega arith
  Closes-suc (bridged environment_id) n m h = (omega arith, omega arith)

  after_write-Answers :
      (t : Turn) (ts : List Turn) (answer : Answer) (rest : Run) (written : Result Error (Unit {0}))
      → (written ≡ ok tt → IsWritten answer.0)
      → response_id answer.0 ≡ decoded_id (decode_request parse t.frame)
      → Answers ts rest.responses × Closes rest.ending (length ts) (length rest.responses)
      → Answers (t ∷ ts) (after_write answer rest written).responses
        × Closes
            (after_write answer rest written).ending
            (length (t ∷ ts))
            (length (after_write answer rest written).responses)
  unfolding after_write
  after_write-Answers t ts answer rest (err e) fits due (done, closed) = (tt, omega arith)
  after_write-Answers t ts (r, none) rest (ok u) fits due (done, closed) =
      ((due, fits refl, done), Closes-suc rest.ending (length ts) (length rest.responses) closed)
  after_write-Answers t ts (r, some environment_id) rest (ok u) fits due (done, closed) =
      ((due, fits refl, tt), (omega arith, omega arith))

  -- Whatever frames a user interface sends and whatever the rest of the program does, the broker
  -- writes one response for each, in order, under the identifier of the request or 0 if there is no
  -- valid one, and within 16 KiB. It ends at the end of the input with all frames answered, with the
  -- streams handed over after a response, or with an error before one.
  pub run_broker-Answers :
      (s : BrokerSession) (ts : List Turn)
      → let run = run_broker parse to_vec s ts in
        Answers ts run.responses × Closes run.ending (length ts) (length run.responses)
  unfolding run_broker
  run_broker-Answers s [] = (tt, refl)
  run_broker-Answers s (t ∷ ts) =
      let d = decode_request parse t.frame in
      let (s', answer) = answer_decoded s t.remote d in
      after_write-Answers t ts answer (run_broker parse to_vec s' ts)
        (write_broker_response parse to_vec answer.0) (write-IsWritten answer.0)
        (answer_decoded-IsDue s t.remote d).0 (run_broker-Answers s' ts)

  after_write-IsGuarded :
      (greeted now : Bool) (answer : Answer) (rest : Run) (written : Result Error (Unit {0}))
      → Follows greeted answer.0 now
      → IsGuarded now rest.responses
      → IsGuarded greeted (after_write answer rest written).responses
  unfolding after_write
  after_write-IsGuarded greeted now answer rest (err e) f g = tt
  after_write-IsGuarded greeted now (r, none) rest (ok u) f g = (now, f, g)
  after_write-IsGuarded greeted now (r, some environment_id) rest (ok u) f g = (now, f, tt)

  -- The broker writes one greeting at most, none if its session has had one, and a list of hosts or
  -- a word that it is connected only after a greeting.
  pub run_broker-IsGuarded :
      (s : BrokerSession) (ts : List Turn)
      → IsGuarded s.initialized (run_broker parse to_vec s ts).responses
  unfolding run_broker
  run_broker-IsGuarded s [] = tt
  run_broker-IsGuarded s (t ∷ ts) =
      let d = decode_request parse t.frame in
      let (s', answer) = answer_decoded s t.remote d in
      after_write-IsGuarded s.initialized s'.initialized answer (run_broker parse to_vec s' ts)
        (write_broker_response parse to_vec answer.0) (answer_decoded-IsDue s t.remote d).1
        (run_broker-IsGuarded s' ts)
