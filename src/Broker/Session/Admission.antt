-- ===== src/Broker/Session/Admission.antt =====
-- Which requests a `BrokerSession` of src/broker.rs admits, one by one and in a row.
use rcodex.Common.{
  ℕ, ◌≡◌, refl, ◌⊎◌, inl, inr, Bool, true, false, not, List, [], ◌∷◌, Bool-cases, ok, err,
}
use rcodex.Broker.Session.{
  BrokerRequest, BrokerAction, BrokerSession, Admitted, request_id, respond, handshake_response,
  invalid_request, is_seen, accept, accept_new,
}

abbrev pub is_handshake : BrokerRequest → Bool
is_handshake (BrokerRequest.handshake version id minimum maximum) = true
is_handshake _ = false

-- What an admitted request asks for.
abbrev pub action_for : BrokerRequest → BrokerAction
action_for (BrokerRequest.handshake version id minimum maximum) = respond (handshake_response id)
action_for (BrokerRequest.pair version id code) = BrokerAction.pair id code
action_for (BrokerRequest.list_hosts version id) = BrokerAction.list_hosts id
action_for (BrokerRequest.open_app_server version id environment_id) =
    BrokerAction.open_app_server id environment_id

abbrev pub opened : BrokerSession → BrokerRequest → BrokerSession
opened s r = record { initialized = true; request_ids = request_id r ∷ s.request_ids }

-- A new identifier, on a greeting to a session that has had none, or on another request after it.
abbrev pub IsAdmissible : BrokerSession → BrokerRequest → Type 0
IsAdmissible s r =
    (is_seen (request_id r) s.request_ids ≡ false) × (is_handshake r ≡ not s.initialized)

abbrev pub IsAdmission : BrokerSession → BrokerRequest → Admitted → Type 0
IsAdmission s r o =
    (IsAdmissible s r × (o ≡ (opened s r, ok (action_for r))))
    ⊎ ((¬ IsAdmissible s r) × (o ≡ (s, err invalid_request)))

accept_new-IsAdmission :
    (s : BrokerSession) (r : BrokerRequest)
    → is_seen (request_id r) s.request_ids ≡ false
    → IsAdmission s r (accept_new s r)
unfolding accept_new
accept_new-IsAdmission s (BrokerRequest.handshake version id minimum maximum) new =
    elim (Bool-cases s.initialized) [
      | inl e ↦ rw e (inr (λ h. cc, refl))
      | inr e ↦ rw e (inl ((new, refl), refl))
    ]
accept_new-IsAdmission s (BrokerRequest.pair version id code) new =
    elim (Bool-cases s.initialized) [
      | inl e ↦ rw e (inl ((new, refl), refl))
      | inr e ↦ rw e (inr (λ h. cc, refl))
    ]
accept_new-IsAdmission s (BrokerRequest.list_hosts version id) new =
    elim (Bool-cases s.initialized) [
      | inl e ↦ rw e (inl ((new, refl), refl))
      | inr e ↦ rw e (inr (λ h. cc, refl))
    ]
accept_new-IsAdmission s (BrokerRequest.open_app_server version id environment_id) new =
    elim (Bool-cases s.initialized) [
      | inl e ↦ rw e (inl ((new, refl), refl))
      | inr e ↦ rw e (inr (λ h. cc, refl))
    ]

accept_old :
    (s : BrokerSession) (r : BrokerRequest)
    → is_seen (request_id r) s.request_ids ≡ true
    → accept s r ≡ (s, err invalid_request)
unfolding accept
accept_old s r old = rw old refl

accept-accept_new :
    (s : BrokerSession) (r : BrokerRequest)
    → is_seen (request_id r) s.request_ids ≡ false
    → accept s r ≡ accept_new s r
unfolding accept
accept-accept_new s r new = rw new refl

-- A session admits a request exactly if its identifier is new and it is the greeting of a session
-- that has had none, or another request after it. It then notes the identifier and asks for what
-- the request says; otherwise it stays as it is and reports an invalid request.
pub accept-IsAdmission : (s : BrokerSession) (r : BrokerRequest) → IsAdmission s r (accept s r)
accept-IsAdmission s r = elim (Bool-cases (is_seen (request_id r) s.request_ids)) [
  | inl old ↦ inr (λ h. cc (old, h.0), accept_old s r old)
  | inr new ↦ rw (accept-accept_new s r new) (accept_new-IsAdmission s r new)
]

-- The requests of a list that are admitted, in their order.
unfoldable pub admitted : BrokerSession → List BrokerRequest → List BrokerRequest
admitted s [] = []
admitted s (r ∷ rs) =
    let (s', result) = accept s r in
    let rest = admitted s' rs in elim result [ err e ↦ rest | ok a ↦ r ∷ rest ]

admitted_more :
    (s : BrokerSession) (r : BrokerRequest) (rs : List BrokerRequest)
    → accept s r ≡ (opened s r, ok (action_for r))
    → admitted s (r ∷ rs) ≡ r ∷ admitted (opened s r) rs
unfolding admitted
admitted_more s r rs e = rw (e, admitted) (rw e refl)

admitted_less :
    (s : BrokerSession) (r : BrokerRequest) (rs : List BrokerRequest)
    → accept s r ≡ (s, err invalid_request)
    → admitted s (r ∷ rs) ≡ admitted s rs
unfolding admitted
admitted_less s r rs e = rw (e, admitted) (rw e refl)

-- From an open session on there is no greeting, from another one it comes first.
abbrev pub IsGreeted : Bool → List BrokerRequest → Type 0
IsGreeted initialized [] = Unit
IsGreeted initialized (r ∷ rs) = (is_handshake r ≡ not initialized) × IsGreeted true rs

-- No identifier is in the list or comes twice.
abbrev pub IsFresh : List ℕ → List BrokerRequest → Type 0
IsFresh ids [] = Unit
IsFresh ids (r ∷ rs) = (is_seen (request_id r) ids ≡ false) × IsFresh (request_id r ∷ ids) rs

-- Of any requests, those that a session admits begin with the one greeting, if it has had none, and
-- have identifiers that it has not seen, each of them once.
pub admitted-IsGreeted :
    (s : BrokerSession) (rs : List BrokerRequest)
    → IsGreeted s.initialized (admitted s rs) × IsFresh s.request_ids (admitted s rs)
unfolding admitted
admitted-IsGreeted s [] = (tt, tt)
admitted-IsGreeted s (r ∷ rs) = elim (accept-IsAdmission s r) [
  | inl ((new, kind), e) ↦
      let (greeted, fresh) = admitted-IsGreeted (opened s r) rs in
      rw (admitted_more s r rs e) ((kind, greeted), (new, fresh))
  | inr (refused, e) ↦ rw (admitted_less s r rs e) (admitted-IsGreeted s rs)
]
