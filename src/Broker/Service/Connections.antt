-- ===== src/Broker/Service/Connections.antt =====
-- What the hosts are that `list_broker_hosts` and `open_remote_app_server` of src/main.rs give out.
use rcodex.Common.{
  ◌≤◌, ◌≡◌, true, not, List, [], ◌∷◌, arith, ltb, length, find_first, Result, ok, err, bail_if,
  context, map_err, >>=-eq-ok, bail_if-eq-ok, context-eq-ok, Text, text_eq_sound,
}
use rcodex.Api.Environment.{RemoteEnvironment, has_id, IsListed, find_first-IsListed}
use rcodex.Broker.Hosts.{BrokerHost, Describes, try_from, IsPresentable, try_from-IsPresentable}
use rcodex.Broker.Session.{incompatible_version, host_not_found, host_offline, relay_unavailable}
use rcodex.Broker.Service.{
  Remote, classified, hosts_of, broker_hosts_for_client, list_broker_hosts, open_remote_app_server,
}

classified-eq-ok {ℓ} : {A : Type ℓ} (m : Result Text A) (a : A) → classified m ≡ ok a → m ≡ ok a
classified-eq-ok (ok x) a e = cc
classified-eq-ok (err x) a e = cc

map_err-eq-ok {ℓ} :
    {D E : Type 0} {A : Type ℓ} (x : E) (m : Result D A) (a : A) → map_err x m ≡ ok a → m ≡ ok a
map_err-eq-ok x (ok b) a e = cc
map_err-eq-ok x (err d) a e = cc

-- The host that a connection goes to.
pub record IsOpen (remote : Remote) (environment_id : Text) : Type 0 where
  pub client_id : Text
  pub environments : List RemoteEnvironment
  pub environment : RemoteEnvironment
  pub local_version : Text
  pub session : remote.ensure_session ≡ ok client_id
  pub answered : remote.list_environments client_id ≡ ok environments
  pub listed : IsListed environment environments
  pub asked : environment.env_id ≡ environment_id
  pub online : environment.online ≡ true
  pub inspected : remote.inspect_stock_codex ≡ ok local_version
  pub verified : remote.verify_remote_codex_version local_version environment ≡ ok tt
  pub connected : remote.connect client_id environment_id ≡ ok tt

-- A connection is opened only to a host that the relay lists for this client under the requested
-- identifier, that is online, and whose version was verified against the local one.
pub open_remote_app_server-IsOpen :
    (remote : Remote) (environment_id : Text)
    → open_remote_app_server remote environment_id ≡ ok tt
    → IsOpen remote environment_id
unfolding open_remote_app_server
open_remote_app_server-IsOpen remote id e =
    let (local_version, e₁, r₁) =
      >>=-eq-ok (map_err incompatible_version remote.inspect_stock_codex) _ e in
    let (client_id, e₂, r₂) = >>=-eq-ok (classified remote.ensure_session) _ r₁ in
    let (u, e₃, r₃) = >>=-eq-ok (classified remote.auth) _ r₂ in
    let (es, e₄, r₄) = >>=-eq-ok (classified (remote.list_environments client_id)) _ r₃ in
    let (host, e₅, r₅) = >>=-eq-ok (context host_not_found (find_first (has_id id) es)) _ r₄ in
    let (v, e₆, r₆) = >>=-eq-ok (bail_if (not host.online) host_offline) _ r₅ in
    let (w, e₇, r₇) =
      >>=-eq-ok
        (map_err incompatible_version (remote.verify_remote_codex_version local_version host)) _
        r₆ in
    let found = context-eq-ok host_not_found (find_first (has_id id) es) e₅ in
    let (listed, match) = find_first-IsListed (has_id id) es host found in
    let offline = bail_if-eq-ok (not host.online) host_offline e₆ in
    record {
      client_id = client_id;
      environments = es;
      environment = host;
      local_version = local_version;
      session = classified-eq-ok remote.ensure_session client_id e₂;
      answered = classified-eq-ok (remote.list_environments client_id) es e₄;
      listed = listed;
      asked = text_eq_sound host.env_id id match;
      online = ground arith;
      inspected = map_err-eq-ok incompatible_version remote.inspect_stock_codex local_version e₁;
      verified =
          map_err-eq-ok incompatible_version (remote.verify_remote_codex_version local_version host)
            w e₇;
      connected = classified-eq-ok (remote.connect client_id id) tt r₇;
    }

-- Host by host, what may be shown of an environment.
abbrev pub Shows : List RemoteEnvironment → List BrokerHost → Type 0
Shows [] [] = Unit
Shows (e ∷ es) (h ∷ hs) = Describes e h × IsPresentable h × Shows es hs
Shows _ _ = ⊥

hosts_of-Shows :
    (es : List RemoteEnvironment) (hs : List BrokerHost) → hosts_of es ≡ ok hs → Shows es hs
unfolding hosts_of
hosts_of-Shows [] [] e = tt
hosts_of-Shows [] (h ∷ hs) e = cc
hosts_of-Shows (v ∷ es) hs e =
    let (h, e₁, r₁) = >>=-eq-ok (try_from v) _ e in
    let (rest, e₂, r₂) = >>=-eq-ok (hosts_of es) _ r₁ in
    let (agrees, presentable) = (try_from-IsPresentable v h).0 e₁ in
    let all_of : hs ≡ h ∷ rest = cc in rw all_of (agrees, presentable, hosts_of-Shows es rest e₂)

pub record IsListing (remote : Remote) (found : List BrokerHost) : Type 0 where
  pub client_id : Text
  pub environments : List RemoteEnvironment
  pub session : remote.ensure_session ≡ ok client_id
  pub answered : remote.list_environments client_id ≡ ok environments
  pub few : length environments ≤ 100
  pub shows : Shows environments found

-- A list of hosts that the broker gives out shows the environments that the relay lists for this
-- client, one by one, at most 100 of them, and each may be shown.
pub list_broker_hosts-IsListing :
    (remote : Remote) (found : List BrokerHost)
    → list_broker_hosts remote ≡ ok found
    → IsListing remote found
unfolding list_broker_hosts broker_hosts_for_client
list_broker_hosts-IsListing remote found e =
    let (client_id, e₁, r₁) = >>=-eq-ok (classified remote.ensure_session) _ e in
    let (es, e₂, r₂) = >>=-eq-ok (classified (remote.list_environments client_id)) _ r₁ in
    let (u, e₃, r₃) = >>=-eq-ok (bail_if (ltb 100 (length es)) relay_unavailable) _ r₂ in
    let many = bail_if-eq-ok (ltb 100 (length es)) relay_unavailable e₃ in
    record {
      client_id = client_id;
      environments = es;
      session = classified-eq-ok remote.ensure_session client_id e₁;
      answered = classified-eq-ok (remote.list_environments client_id) es e₂;
      few = ground arith;
      shows = hosts_of-Shows es found (map_err-eq-ok relay_unavailable (hosts_of es) found r₃);
    }
