-- ===== src/Update/Settings.antt =====
-- src/update.rs: `UpdateSettings`. JSON is a parameter.
pub mod Saving
pub mod Loading
use rcodex.Common.{
  ℕ, ◌-◌, ◌*◌, Bool, true, false, ◌&&◌, Option, none, some, ltb, leb, length, ok, err, context,
  Bytes,
}
use rcodex.Files.{
  FilePath, Node, file, other, Action, pure, lift, refuse_if, ◌>>=◌, ◌>>◌, call, symlink_metadata,
  bytes_of, read,
}
use rcodex.Update.Writing.{reject_symlink, regular_file, atomic_write}

pub record UpdateSettings : Type 0 where
  pub enabled : Bool
  pub last_checked : Option ℕ

abbrev pub default_settings : UpdateSettings
default_settings = record { enabled = false; last_checked = none }

-- `serde_json` on settings.
pub record SettingsCodec : Type 0 where
  pub to_vec : UpdateSettings → Bytes
  pub from_slice : Bytes → Option UpdateSettings

abbrev pub max_settings_bytes : ℕ
max_settings_bytes = 256 * 1024

-- `fs::metadata`, for its length.
unfoldable pub metadata_len : FilePath → Action ℕ
metadata_len p =
    call >> λ w. (w, elim (bytes_of (w.files p)) [ err e ↦ err e | ok bytes ↦ ok (length bytes) ])

-- `load` of a path where something is.
unfoldable pub load_existing : SettingsCodec → FilePath → Action UpdateSettings
load_existing codec path = do
  regular_file path
  size ← metadata_len path
  refuse_if (ltb max_settings_bytes size) "update settings too large"
  bytes ← read path
  lift (context "parse update settings" (codec.from_slice bytes))

abbrev pub load_node : SettingsCodec → FilePath → Option Node → Action UpdateSettings
load_node codec path none = pure default_settings
load_node codec path (some node) = load_existing codec path

unfoldable pub load : SettingsCodec → FilePath → Action UpdateSettings
load codec path = symlink_metadata path >>= load_node codec path

-- The first call is `create_dir_all`.
unfoldable pub save : SettingsCodec → UpdateSettings → FilePath → Action (Unit {0})
save codec settings path =
    call >> (reject_symlink path >> atomic_write path (codec.to_vec settings) 0x180)

abbrev pub is_past : ℕ → Option ℕ → Bool
is_past now none = true
is_past now (some last) = leb 86400 (now - last)

abbrev pub due : UpdateSettings → ℕ → Bool
due settings now = settings.enabled && is_past now settings.last_checked
