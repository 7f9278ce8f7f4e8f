-- ===== src/Compatibility/Versions.antt =====
-- What counts as a version, and when the two ends agree on one.
use rcodex.Common.{
  ℕ, ◌≡◌, refl, ◌↔◌, true, false, not, ◌||◌, some, [], ◌∷◌, ◌++◌, arith, any, all, Result, ok, err,
  bail_if, context, map_err, >>=-eq-ok, bail_if-eq-ok, context-eq-ok, Text, text_eq, text_eq_sound,
  text_eq_refl, is_ascii_whitespace, is_whitespace, is_control, is_ascii_digit, is_ascii_uppercase,
  is_ascii_lowercase, is_ascii_alphanumeric, trim_start, trim_end, trim,
}
use mathlib.Core.List.{reverse, reverse-cons, reverse-reverse}
use rcodex.Api.Environment.{RemoteEnvironment}
use rcodex.Compatibility.{
  split_ascii_whitespace, ends_word, first, starts_with_digit, is_version_char, parse_version_token,
  verify_remote_codex_version,
}

-- A digit, and then letters, digits, dots, pluses and dashes.
pub record IsVersion (v : Text) : Type 0 where
  pub leads : starts_with_digit v ≡ true
  pub plain : all is_version_char v ≡ true

version_char :
    (c : ℕ)
    → is_version_char c ≡ true
    → (is_ascii_whitespace c ≡ false) × (is_whitespace c ≡ false) × (is_control c ≡ false)
unfolding is_version_char is_ascii_alphanumeric is_ascii_digit is_ascii_uppercase is_ascii_lowercase
    is_ascii_whitespace is_whitespace is_control
version_char c h = (ground arith, ground arith, ground arith)

any_control : (v : Text) → all is_version_char v ≡ true → any is_control v ≡ false
any_control [] h = refl
any_control (c ∷ s) h =
    let good : is_version_char c ≡ true = ground arith in
    let (_, _, allowed) = version_char c good in rw allowed (any_control s (ground arith))

ends_plain : (c : ℕ) (s : Text) → all is_version_char (c ∷ s) ≡ true → ends_word (c ∷ s) ≡ false
ends_plain c s h = (version_char c (ground arith)).0

-- A version is one word.
split_version :
    (c : ℕ) (s : Text)
    → all is_version_char (c ∷ s) ≡ true
    → split_ascii_whitespace (c ∷ s) ≡ (c ∷ s) ∷ []
unfolding split_ascii_whitespace
split_version c [] h = rw (ends_plain c [] h) refl
split_version c (d ∷ s) h =
    let tail : all is_version_char (d ∷ s) ≡ true = ground arith in
    rw (split_version d s tail) (rw (ends_plain c (d ∷ s) h) (rw (ends_plain d s tail) refl))

all-append :
    (s t : Text)
    → all is_version_char s ≡ true
    → all is_version_char t ≡ true
    → all is_version_char (s ++ t) ≡ true
all-append [] t h k = k
all-append (c ∷ s) t h k = ground (arith, all-append s t)

all-reverse : (s : Text) → all is_version_char s ≡ true → all is_version_char (reverse s) ≡ true
all-reverse [] h = refl
all-reverse (c ∷ s) h =
    rw (reverse-cons c s)
      (all-append (reverse s) (c ∷ []) (all-reverse s (ground arith)) (ground arith))

trim_start_version : (s : Text) → all is_version_char s ≡ true → trim_start s ≡ s
unfolding trim_start
trim_start_version [] h = refl
trim_start_version (c ∷ s) h =
    let good : is_version_char c ≡ true = ground arith in
    let (_, inner, _) = version_char c good in rw inner refl

trim_version : (s : Text) → all is_version_char s ≡ true → trim s ≡ s
unfolding trim trim_end
trim_version s h =
    rw (trim_start_version s h)
      (rw (trim_start_version (reverse s) (all-reverse s h)) (reverse-reverse s))

parse_version_token-IsVersion : (value v : Text) → parse_version_token value ≡ ok v → IsVersion v
unfolding parse_version_token
parse_version_token-IsVersion value v e =
    let (a, e₁, r₁) =
      >>=-eq-ok (bail_if (any is_control (trim value)) "version contains control characters") _ e in
    let (w, e₂, r₂) =
      >>=-eq-ok (context "version is empty" (first (split_ascii_whitespace (trim value)))) _ r₁ in
    let (b, e₃, r₃) =
      >>=-eq-ok
        (bail_if (not (starts_with_digit w) || not (all is_version_char w))
          "version token is malformed")
        _ r₂ in
    let fine =
      bail_if-eq-ok (not (starts_with_digit w) || not (all is_version_char w))
        "version token is malformed" e₃ in
    let same : w ≡ v = cc r₃ in rw (← same) (record { leads = ground arith; plain = ground arith })

parse_version_token_version : (v : Text) → IsVersion v → parse_version_token v ≡ ok v
unfolding parse_version_token
parse_version_token_version [] h = cc h.leads
parse_version_token_version (c ∷ s) h = rw (trim_version (c ∷ s) h.plain) (
    rw (any_control (c ∷ s) h.plain)
      (rw (split_version c s h.plain) (rw h.leads (rw h.plain refl))))

-- What is read as a version starts with a digit and has only letters, digits, dots, pluses and dashes,
-- and is read as itself.
pub parse_version_token_idempotent :
    (value v : Text)
    → parse_version_token value ≡ ok v
    → IsVersion v × (parse_version_token v ≡ ok v)
parse_version_token_idempotent value v e =
    let h = parse_version_token-IsVersion value v e in (h, parse_version_token_version v h)

-- The two ends run the same version.
pub record IsParity (local : Text) (environment : RemoteEnvironment) : Type 0 where
  pub version : Text
  pub remote_output : Text
  pub local_reads : parse_version_token local ≡ ok version
  pub reported : environment.app_server_version ≡ some remote_output
  pub remote_reads : parse_version_token remote_output ≡ ok version

map_err_ok {ℓ} :
    {D E : Type 0} {A : Type ℓ} (x : E) (m : Result D A) (a : A) → map_err x m ≡ ok a → m ≡ ok a
map_err_ok x (ok b) a e = cc
map_err_ok x (err d) a e = cc

-- A remote host passes exactly if it reports a version and the same version is read from its report
-- and from the local one.
pub verify_remote_codex_version-IsParity :
    (local : Text) (environment : RemoteEnvironment)
    → (verify_remote_codex_version local environment ≡ ok tt) ↔ IsParity local environment
unfolding verify_remote_codex_version
verify_remote_codex_version-IsParity local environment = (
  λ e.
      let (v, e₁, r₁) =
        >>=-eq-ok (map_err "local Codex CLI version is invalid" (parse_version_token local)) _ e in
      let (out, e₂, r₂) =
        >>=-eq-ok
          (context "remote host does not report a Codex App Server version"
            environment.app_server_version)
          _ r₁ in
      let (w, e₃, r₃) =
        >>=-eq-ok
          (map_err "remote host reported an invalid Codex App Server version"
            (parse_version_token out))
          _ r₂ in
      let differ =
        bail_if-eq-ok (not (text_eq w v))
          "remote host runs another Codex App Server version than the local Codex CLI" r₃ in
      let same : w ≡ v = text_eq_sound w v (ground arith) in
      record {
        version = v;
        remote_output = out;
        local_reads =
            map_err_ok "local Codex CLI version is invalid" (parse_version_token local) v e₁;
        reported =
            context-eq-ok "remote host does not report a Codex App Server version"
              environment.app_server_version e₂;
        remote_reads = rw same at (
            map_err_ok "remote host reported an invalid Codex App Server version"
              (parse_version_token out) w e₃);
      },
  λ h. rw h.local_reads (rw h.reported (rw h.remote_reads (rw (text_eq_refl h.version) refl))),
)
