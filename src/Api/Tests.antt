-- ===== src/Api/Tests.antt =====
-- Runs of src/api.rs and of the choice of a host.
use rcodex.Common.{
  ℕ, ◌≤◌, ◌≡◌, refl, ◌↔◌, Bool, true, false, Option, none, some, List, [], ◌∷◌, Result, ok, err,
  Error, Text, text, text_eq, trim,
}
use rcodex.Api.Environment.{
  RemoteEnvironment, select_found, select_only, online_only, select_environment, display_name,
  host_name,
}
use rcodex.Api.Choice.{IsChoice, select_environment-IsChoice}
use rcodex.Api.Pages.{EnvironmentList, list_environments, Ends, list_environments-Ends}
use rcodex.Api.Retry.{Reply, send, send_ends, IsAnswer, IsPatient, parse_retry_after, delay}

abbrev host : Text → Bool → RemoteEnvironment
host id online = record {
  app_server_version = none;
  arch = none;
  busy = false;
  client_type = none;
  display_label = none;
  env_id = id;
  host_label = none;
  installation_id = none;
  kind = none;
  last_seen_at = none;
  name = none;
  online = online;
  os = none;
}

abbrev hosts : List RemoteEnvironment
hosts = host (text "a") false ∷ host (text "b") true ∷ []

-- Two that are online, two with one identifier, and only one online.
select_environment_tests :
    (select_environment (host (text "a") true ∷ hosts) none
      ≡ err "multiple Codex hosts are online; choose one with --device <ENV_ID>")
    × (select_environment (host (text "b") false ∷ hosts) (some (text "b"))
        ≡ err "remote-control environment is offline")
    × (select_environment hosts (some (text "b")) ≡ ok (host (text "b") true))
unfolding select_environment select_found select_only online_only text text_eq
select_environment_tests = (refl, refl, refl)

select_environment-IsChoice_example :
    (select_environment hosts none ≡ ok (host (text "b") true))
    ↔ ((true ≡ true) × IsChoice hosts none (host (text "b") true))
select_environment-IsChoice_example = select_environment-IsChoice hosts none (host (text "b") true)

-- A server that hands out a longer cursor for ever.
abbrev endless : Option Text → Result Error EnvironmentList
endless none = ok (record { cursor = some (text "x"); items = hosts })
endless (some c) = ok (record { cursor = some (b'x' ∷ c); items = hosts })

list_environments-Ends_example : Ends (list_environments endless 33)
list_environments-Ends_example = list_environments-Ends endless

abbrev busy : ℕ → Result Error Reply
busy n = ok (record { status = 503; retry_after = none })

send_ends_example :
    IsAnswer false (send false busy (λ n. ok tt) 5)
    × IsPatient (send false busy (λ n. ok tt) 5)
    × ((send false busy (λ n. ok tt) 5).requests ≤ 5)
send_ends_example = send_ends false busy (λ n. ok tt)

send_tests :
    (send false busy (λ n. ok tt) 5 ≡ record {
      requests = 4;
      sleeps = 250 ∷ 500 ∷ 1000 ∷ [];
      answer = some (err "remote-control request failed");
    })
    × (parse_retry_after (text " 7 ") ≡ some 7)
    × (parse_retry_after (text "31") ≡ some 30)
    × (parse_retry_after (text "soon") ≡ none)
unfolding send delay parse_retry_after text trim
send_tests = (refl, refl, refl, refl)

abbrev labelled : RemoteEnvironment
labelled = record (host (text "a") true) {
  display_label = some (text " ");
  name = some (text "n");
  host_label = some (text "h");
}

names_tests : (display_name labelled ≡ text "n") × (host_name labelled ≡ text "h")
unfolding display_name host_name text trim
names_tests = (refl, refl)
