-- ===== src/Update/Settings/Saving.antt =====
-- Settings of src/update.rs that are saved and loaded.
use rcodex.Common.{
  ℕ, ◌≤◌, ◌≡◌, refl, ap, ◌∙◌, false, some, ltb, if◌then◌else◌, le→ltb, length, ok, err, Error,
  context, Bytes,
}
use rcodex.Files.{
  FilePath, file, Files, update, refuse_if, lift, ◌>>=◌, ◌>>◌, call_with, call, path_eq_refl, read,
  bytes_of, symlink_metadata,
}
use rcodex.Files.Rules.{bind_ok}
use rcodex.Update.Writing.{reject_symlink, regular_file, atomic_write, is_other}
use rcodex.Files.Quiet.{quiet, read-quiet, symlink_metadata-quiet}
use rcodex.Update.Installation.Rollback.{regular_file-quiet, atomic_write-quiet}
use rcodex.Update.Settings.{
  UpdateSettings, SettingsCodec, max_settings_bytes, metadata_len, load_existing, load_node, load,
  save,
}

metadata_len-quiet :
    (p : FilePath) (files : Files) (mode : ℕ) (bytes : Bytes)
    → files p ≡ some (file mode bytes)
    → metadata_len p (quiet files) ≡ (quiet files, ok (length bytes))
unfolding metadata_len call call_with
metadata_len-quiet p files mode bytes here =
    ap (λ n. (quiet files, elim (bytes_of n) [ err e ↦ err e | ok b ↦ ok (length b) ])) here

reject_symlink-quiet :
    (p : FilePath) (files : Files)
    → is_other (files p) ≡ false
    → reject_symlink p (quiet files) ≡ (quiet files, ok tt)
unfolding reject_symlink symlink_metadata call call_with
reject_symlink-quiet p files plain = rw plain refl

load_existing-quiet :
    (codec : SettingsCodec) (p : FilePath) (files : Files) (mode : ℕ) (bytes : Bytes)
    (settings : UpdateSettings)
    → files p ≡ some (file mode bytes)
    → length bytes ≤ max_settings_bytes
    → codec.from_slice bytes ≡ some settings
    → load_existing codec p (quiet files) ≡ (quiet files, ok settings)
unfolding load_existing
load_existing-quiet codec p files mode bytes settings here small parsed =
    let e : Error = "update settings too large" in
    let e' : Error = "parse update settings" in
    let end = λ (b : Bytes). lift (context e' (codec.from_slice b)) in
    let sized = λ (size : ℕ). refuse_if (ltb max_settings_bytes size) e >> (read p >>= end) in
    bind_ok (regular_file p) (λ _. metadata_len p >>= sized) (quiet files) (quiet files) tt
      (regular_file-quiet p files mode bytes here)
    ∙ bind_ok (metadata_len p) sized (quiet files) (quiet files) (length bytes)
        (metadata_len-quiet p files mode bytes here)
    ∙ bind_ok (refuse_if (ltb max_settings_bytes (length bytes)) e) (λ _. read p >>= end)
        (quiet files) (quiet files) tt
        (ap (λ b. refuse_if b e (quiet files)) (le→ltb max_settings_bytes (length bytes) small))
    ∙ bind_ok (read p) end (quiet files) (quiet files) bytes (read-quiet p files mode bytes here)
    ∙ ap (λ o. lift (context e' o) (quiet files)) parsed

load-quiet :
    (codec : SettingsCodec) (p : FilePath) (files : Files) (mode : ℕ) (bytes : Bytes)
    (settings : UpdateSettings)
    → files p ≡ some (file mode bytes)
    → length bytes ≤ max_settings_bytes
    → codec.from_slice bytes ≡ some settings
    → load codec p (quiet files) ≡ (quiet files, ok settings)
unfolding load
load-quiet codec p files mode bytes settings here small parsed =
    bind_ok (symlink_metadata p) (load_node codec p) (quiet files) (quiet files) (files p)
      (symlink_metadata-quiet p files)
    ∙ ap (λ n. load_node codec p n (quiet files)) here
    ∙ load_existing-quiet codec p files mode bytes settings here small parsed

save-quiet :
    (codec : SettingsCodec) (settings : UpdateSettings) (p : FilePath) (files : Files)
    → is_other (files p) ≡ false
    → save codec settings p (quiet files)
      ≡ (quiet (update files p (some (file 0x180 (codec.to_vec settings)))), ok tt)
unfolding save call call_with
save-quiet codec settings p files plain =
    bind_ok (reject_symlink p) (λ _. atomic_write p (codec.to_vec settings) 0x180) (quiet files)
      (quiet files) tt (reject_symlink-quiet p files plain)
    ∙ atomic_write-quiet p files 0x180 (codec.to_vec settings)

-- Where no link, directory or device is in the way and no call of the system fails, settings are
-- saved, and loading gives them back: their JSON must be within 256 KiB and read as it was written.
pub save-load :
    (codec : SettingsCodec) (settings : UpdateSettings) (p : FilePath) (files : Files)
    → length (codec.to_vec settings) ≤ max_settings_bytes
    → codec.from_slice (codec.to_vec settings) ≡ some settings
    → is_other (files p) ≡ false
    → (save codec settings p >> load codec p) (quiet files)
      ≡ (quiet (update files p (some (file 0x180 (codec.to_vec settings)))), ok settings)
save-load codec settings p files small parsed plain =
    let saved = update files p (some (file 0x180 (codec.to_vec settings))) in
    bind_ok (save codec settings p) (λ _. load codec p) (quiet files) (quiet saved) tt
      (save-quiet codec settings p files plain)
    ∙ load-quiet codec p saved 0x180 (codec.to_vec settings) settings
        (ap (λ b. if b then some (file 0x180 (codec.to_vec settings)) else files p)
          (path_eq_refl p))
        small parsed
