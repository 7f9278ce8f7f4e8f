-- ===== src/Broker/Hosts.antt =====
-- src/broker.rs: the text limits of the protocol, and `BrokerHost`, what a user interface is told of
-- a remote environment.
use mathlib.Core.Path.{subst}
use rcodex.Common.{
  ℕ, ◌≤◌, ◌≡◌, refl, sym, ap, ◌∙◌, ◌↔◌, Bool, true, false, ◌||◌, Option, none, some, arith, ltb,
  if◌then◌else◌, length, any, Result, ok, err, ◌>>◌, bail_if, Text, str_len, is_control,
}
use rcodex.Api.Environment.{RemoteEnvironment, display_name, is_blank}
use rcodex.Api.Names.{IsDisplayName, display_name-IsDisplayName, IsDisplayName-display_name}
use rcodex.Broker.Pairing.{BrokerProtocolError, invalid_host_metadata}

abbrev pub max_host_id_bytes : ℕ
max_host_id_bytes = 128

abbrev pub max_host_label_chars : ℕ
max_host_label_chars = 256

abbrev pub max_metadata_chars : ℕ
max_metadata_chars = 128

abbrev pub text_size : Bool → Text → ℕ
text_size count_chars value = if count_chars then length value else str_len value

unfoldable pub validate_text : Text → ℕ → Bool → Result BrokerProtocolError (Unit {0})
validate_text value maximum count_chars =
    bail_if (is_blank value || ltb maximum (text_size count_chars value) || any is_control value)
      invalid_host_metadata

unfoldable pub validate_optional_text : Option Text → ℕ → Result BrokerProtocolError (Unit {0})
validate_optional_text none maximum = ok tt
validate_optional_text (some value) maximum = validate_text value maximum true

pub record BrokerHost : Type 0 where
  pub id : Text
  pub label : Text
  pub online : Bool
  pub busy : Bool
  pub app_server_version : Option Text
  pub os : Option Text
  pub arch : Option Text

-- The struct that `try_from` ends in.
abbrev pub host_of : RemoteEnvironment → BrokerHost
host_of e = record {
  id = e.env_id;
  label = display_name e;
  online = e.online;
  busy = e.busy;
  app_server_version = e.app_server_version;
  os = e.os;
  arch = e.arch;
}

-- `BrokerHost::try_from`.
unfoldable pub try_from : RemoteEnvironment → Result BrokerProtocolError BrokerHost
try_from e = do
  validate_text e.env_id max_host_id_bytes false
  validate_text (display_name e) max_host_label_chars true
  validate_optional_text e.app_server_version max_metadata_chars
  validate_optional_text e.os max_metadata_chars
  validate_optional_text e.arch max_metadata_chars
  ok (host_of e)

-- A text that may be shown: not blank, short enough, without control characters.
pub record IsShowable (count_chars : Bool) (maximum : ℕ) (value : Text) : Type 0 where
  pub filled : is_blank value ≡ false
  pub short : text_size count_chars value ≤ maximum
  pub plain : any is_control value ≡ false

abbrev pub IsShowableOption : ℕ → Option Text → Type 0
IsShowableOption maximum none = Unit
IsShowableOption maximum (some value) = IsShowable true maximum value

pub record IsPresentable (h : BrokerHost) : Type 0 where
  pub id : IsShowable false max_host_id_bytes h.id
  pub label : IsShowable true max_host_label_chars h.label
  pub version : IsShowableOption max_metadata_chars h.app_server_version
  pub os : IsShowableOption max_metadata_chars h.os
  pub arch : IsShowableOption max_metadata_chars h.arch

pub validate_text-IsShowable :
    (value : Text) (maximum : ℕ) (count_chars : Bool)
    → (validate_text value maximum count_chars ≡ ok tt) ↔ IsShowable count_chars maximum value
unfolding validate_text
validate_text-IsShowable value maximum count_chars = (
  λ e. record { filled = ground arith; short = ground arith; plain = ground arith },
  λ h. ground (arith, h.filled, h.short, h.plain),
)

validate_optional_text-IsShowable :
    (value : Option Text) (maximum : ℕ)
    → (validate_optional_text value maximum ≡ ok tt) ↔ IsShowableOption maximum value
unfolding validate_optional_text
validate_optional_text-IsShowable none maximum = (λ e. tt, λ h. refl)
validate_optional_text-IsShowable (some value) maximum = validate_text-IsShowable value maximum true

-- A guard that has passed.
passed :
    {A : Type 0} (m : Result BrokerProtocolError (Unit {0})) (rest : Result BrokerProtocolError A)
    {a : A}
    → (m >> rest) ≡ ok a
    → (m ≡ ok tt) × (rest ≡ ok a)
passed (ok tt) rest e = (refl, e)
passed (err x) rest e = cc

-- What a user interface is told agrees with the environment, field by field.
pub record Describes (e : RemoteEnvironment) (h : BrokerHost) : Type 0 where
  pub id : h.id ≡ e.env_id
  pub label : IsDisplayName e h.label
  pub online : h.online ≡ e.online
  pub busy : h.busy ≡ e.busy
  pub version : h.app_server_version ≡ e.app_server_version
  pub os : h.os ≡ e.os
  pub arch : h.arch ≡ e.arch

host_of-Describes : (e : RemoteEnvironment) → IsPresentable (host_of e) → Describes e (host_of e)
host_of-Describes e h = record {
  id = refl;
  label = display_name-IsDisplayName e h.label.filled;
  online = refl;
  busy = refl;
  version = refl;
  os = refl;
  arch = refl;
}

Describes-host_of : (e : RemoteEnvironment) (h : BrokerHost) → Describes e h → h ≡ host_of e
Describes-host_of e h d =
    let same : BrokerHost = record {
      id = h.id;
      label = h.label;
      online = h.online;
      busy = h.busy;
      app_server_version = h.app_server_version;
      os = h.os;
      arch = h.arch;
    } in
    let eta : h ≡ same = refl in
    eta
    ∙ rw
        (
          d.id,
          IsDisplayName-display_name e h.label d.label,
          d.online,
          d.busy,
          d.version,
          d.os,
          d.arch,
        )
        refl

-- The tests of `try_from`, one by one.
try_from_tests :
    (e : RemoteEnvironment) (h : BrokerHost)
    → try_from e ≡ ok h
    → (host_of e ≡ h) × IsPresentable (host_of e)
unfolding try_from
try_from_tests e h r =
    let (a, r₁) = passed (validate_text e.env_id max_host_id_bytes false) _ r in
    let (b, r₂) = passed (validate_text (display_name e) max_host_label_chars true) _ r₁ in
    let (c, r₃) = passed (validate_optional_text e.app_server_version max_metadata_chars) _ r₂ in
    let (d, r₄) = passed (validate_optional_text e.os max_metadata_chars) _ r₃ in
    let (f, r₅) = passed (validate_optional_text e.arch max_metadata_chars) _ r₄ in
    (
      cc,
      record {
        id = (validate_text-IsShowable e.env_id max_host_id_bytes false).0 a;
        label = (validate_text-IsShowable (display_name e) max_host_label_chars true).0 b;
        version = (validate_optional_text-IsShowable e.app_server_version max_metadata_chars).0 c;
        os = (validate_optional_text-IsShowable e.os max_metadata_chars).0 d;
        arch = (validate_optional_text-IsShowable e.arch max_metadata_chars).0 f;
      },
    )

try_from-host_of : (e : RemoteEnvironment) → IsPresentable (host_of e) → try_from e ≡ ok (host_of e)
unfolding try_from
try_from-host_of e shown =
    rw
      (
        (validate_text-IsShowable e.env_id max_host_id_bytes false).1 shown.id,
        (validate_text-IsShowable (display_name e) max_host_label_chars true).1 shown.label,
        (validate_optional_text-IsShowable e.app_server_version max_metadata_chars).1 shown.version,
        (validate_optional_text-IsShowable e.os max_metadata_chars).1 shown.os,
        (validate_optional_text-IsShowable e.arch max_metadata_chars).1 shown.arch,
      )
      refl

-- An environment is shown as a host exactly if each text of the host may be shown and the host
-- agrees with the environment: in its identifier, in being online and busy, in its version, system
-- and architecture, and with a label that is the first text that is not blank of its own label, its
-- name, that of its host and its identifier.
pub try_from-IsPresentable :
    (e : RemoteEnvironment) (h : BrokerHost)
    → (try_from e ≡ ok h) ↔ (Describes e h × IsPresentable h)
try_from-IsPresentable e h = (
  λ r.
      let (same, shown) = try_from_tests e h r in
      subst (λ g. Describes e g × IsPresentable g) same (host_of-Describes e shown, shown),
  λ (agrees, shown).
      let same = Describes-host_of e h agrees in
      try_from-host_of e (subst IsPresentable same shown) ∙ ap ok (sym same),
)
