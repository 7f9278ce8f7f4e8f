-- ===== src/Compatibility.antt =====
-- src/compatibility.rs: versions of the Codex command line, and the test that both ends run the same.
pub mod Versions
pub mod Tests
use rcodex.Common.{
  ℕ, ◌+◌, ◌-◌, Bool, true, false, not, ◌||◌, Option, none, some, List, [], ◌∷◌, ◌==◌, if◌then◌else◌,
  any, all, Result, ok, Error, bail_if, context, map_err, Text, text, text_eq, is_ascii_whitespace,
  is_control, is_ascii_digit, is_ascii_alphanumeric, trim, contains, ◌>>=◌, ◌>>◌,
}
use rcodex.Api.Environment.{RemoteEnvironment}

-- `str::split_ascii_whitespace`.
abbrev pub ends_word : Text → Bool
ends_word [] = true
ends_word (c ∷ s) = is_ascii_whitespace c

abbrev pub prepend : ℕ → List Text → List Text
prepend c [] = (c ∷ []) ∷ []
prepend c (w ∷ ws) = (c ∷ w) ∷ ws

unfoldable pub split_ascii_whitespace : Text → List Text
split_ascii_whitespace [] = []
split_ascii_whitespace (c ∷ s) =
    let rest = split_ascii_whitespace s in
    if is_ascii_whitespace c then rest else if ends_word s then (c ∷ []) ∷ rest else prepend c rest

abbrev pub first : List Text → Option Text
first [] = none
first (w ∷ ws) = some w

abbrev pub second : List Text → Option Text
second [] = none
second (w ∷ ws) = first ws

abbrev pub is_first : Text → List Text → Bool
is_first t [] = false
is_first t (w ∷ ws) = text_eq w t

abbrev pub starts_with_digit : Text → Bool
starts_with_digit [] = false
starts_with_digit (c ∷ s) = is_ascii_digit c

unfoldable pub is_version_char : ℕ → Bool
is_version_char c = is_ascii_alphanumeric c || c == b'.' || c == b'+' || c == b'-'

unfoldable pub parse_version_token : Text → Result Error Text
parse_version_token value = do
  let trimmed = trim value
  bail_if (any is_control trimmed) "version contains control characters"
  version ← context "version is empty" (first (split_ascii_whitespace trimmed))
  bail_if (not (starts_with_digit version) || not (all is_version_char version))
      "version token is malformed"
  ok version

unfoldable pub parse_stock_codex_version : Text → Result Error Text
unfolding parse_version_token
parse_stock_codex_version version_output = do
  let output = trim version_output
  bail_if (any is_control output) "stock Codex CLI reported a malformed version"
  let fields = split_ascii_whitespace output
  bail_if (not (is_first (text "codex-cli") fields))
      "stock Codex CLI version must start with `codex-cli`"
  version ← context "stock Codex CLI did not report a version" (second fields)
  map_err "stock Codex CLI reported an invalid version" (parse_version_token version)

-- The names and versions that the messages quote are left out of them.
unfoldable pub verify_remote_codex_version : Text → RemoteEnvironment → Result Error (Unit {0})
unfolding parse_version_token
verify_remote_codex_version local environment = do
  local_version ← map_err "local Codex CLI version is invalid" (parse_version_token local)
  remote_output ←
      context "remote host does not report a Codex App Server version"
        environment.app_server_version
  remote_version ←
      map_err "remote host reported an invalid Codex App Server version"
        (parse_version_token remote_output)
  bail_if (not (text_eq remote_version local_version))
      "remote host runs another Codex App Server version than the local Codex CLI"
