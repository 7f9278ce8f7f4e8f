-- ===== src/Compatibility/Tests.antt =====
-- Runs of src/compatibility.rs.
use rcodex.Common.{
  ◌≡◌, refl, ◌↔◌, true, false, none, some, ok, err, text, text_eq, is_ascii_whitespace, is_control,
  is_ascii_digit, is_ascii_alphanumeric, trim,
}
use rcodex.Api.Environment.{RemoteEnvironment}
use rcodex.Compatibility.{
  split_ascii_whitespace, parse_version_token, parse_stock_codex_version,
  verify_remote_codex_version, is_version_char,
}
use rcodex.Compatibility.Versions.{IsParity, verify_remote_codex_version-IsParity}

abbrev host : RemoteEnvironment
host = record {
  app_server_version = some (text "0.162.0 (linux)");
  arch = none;
  busy = false;
  client_type = none;
  display_label = none;
  env_id = text "a";
  host_label = none;
  installation_id = none;
  kind = none;
  last_seen_at = none;
  name = none;
  online = true;
  os = none;
}

version_tests :
    (parse_stock_codex_version (text "codex-cli 0.162.0") ≡ ok (text "0.162.0"))
    × (parse_version_token (text " 0.162.0 (linux)") ≡ ok (text "0.162.0"))
    × (parse_version_token (text "v1") ≡ err "version token is malformed")
    × (parse_version_token (text " ") ≡ err "version is empty")
unfolding parse_stock_codex_version parse_version_token split_ascii_whitespace is_version_char text
    text_eq trim is_control is_ascii_whitespace is_ascii_digit is_ascii_alphanumeric
version_tests = (refl, refl, refl, refl)

verify_remote_codex_version-IsParity_example :
    (verify_remote_codex_version (text "0.162.0") host ≡ ok tt) ↔ IsParity (text "0.162.0") host
verify_remote_codex_version-IsParity_example =
    verify_remote_codex_version-IsParity (text "0.162.0") host
