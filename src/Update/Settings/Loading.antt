-- ===== src/Update/Settings/Loading.antt =====
-- What `UpdateSettings::load` of src/update.rs reads.
use rcodex.Common.{
  ℕ, ◌≡◌, refl, ap, ◌∙◌, ◌⊎◌, inl, inr, none, some, ltb, length, Result, ok, err, Error, context,
  context-eq-ok, Bytes,
}
use rcodex.Files.{
  FilePath, Files, World, lift, refuse_if, ◌>>=◌, ◌>>◌, call, read, symlink_metadata, bytes_of,
}
use rcodex.Files.Rules.{
  Looks, Looks-weaken, look_rule, kept_rule, call-Looks, read-Looks, symlink_metadata-Looks,
  lift-Looks,
}
use rcodex.Update.Writing.{regular_file, regular_file-Looks, IsRegular, refuse_if-Looks}
use rcodex.Update.Settings.{
  UpdateSettings, SettingsCodec, default_settings, max_settings_bytes, metadata_len, load_existing,
  load_node, load,
}

-- The settings are the default ones, or those of the file.
abbrev pub IsLoaded : SettingsCodec → FilePath → Files → UpdateSettings → Type 0
IsLoaded codec p files settings =
    (settings ≡ default_settings)
    ⊎ ((bytes : Bytes) × (bytes_of (files p) ≡ ok bytes) × (codec.from_slice bytes ≡ some settings))

metadata_len-Looks : (p : FilePath) (w : World) → Looks w.files (λ _. Unit {0}) (metadata_len p w)
unfolding metadata_len
metadata_len-Looks p w =
    look_rule (Looks w.files (λ _. Unit {0})) call
      (λ _ later.
        (later, elim (bytes_of (later.files p)) [ err e ↦ err e | ok bytes ↦ ok (length bytes) ]))
      w (λ _. Unit {0}) (call-Looks w) (λ later e kept. (kept, inl (e, refl)))
      (λ later u kept _. measured later kept (bytes_of (later.files p)))
  where
    measured :
        (later : World)
        → later.files ≡ w.files
        → (o : Result Error Bytes)
        → Looks w.files
            (λ (n : ℕ). Unit {0})
            (later, elim o [ err e ↦ err e | ok bytes ↦ ok (length bytes) ])
    measured later kept (err e) = (kept, inl (e, refl))
    measured later kept (ok bytes) = (kept, inr (length bytes, refl, tt))

load_existing-Looks :
    (codec : SettingsCodec) (p : FilePath) (files : Files) (w : World)
    → w.files ≡ files
    → Looks files (IsLoaded codec p files) (load_existing codec p w)
unfolding load_existing
load_existing-Looks codec p files w kept =
    let e : Error = "update settings too large" in
    let e' : Error = "parse update settings" in
    let Q = IsLoaded codec p files in
    let end = λ (b : Bytes). lift (context e' (codec.from_slice b)) in
    let sized = λ (size : ℕ). refuse_if (ltb max_settings_bytes size) e >> (read p >>= end) in
    kept_rule (regular_file p) (λ _. metadata_len p >>= sized) w files (λ _. IsRegular (w.files p))
      Q kept (regular_file-Looks p w)
      (λ one _ k _.
        kept_rule (metadata_len p) sized one files (λ _. Unit {0}) Q k (metadata_len-Looks p one)
          (λ two size k' _.
            kept_rule (refuse_if (ltb max_settings_bytes size) e) (λ _. read p >>= end) two files
              (λ _. Unit {0}) Q k'
              (refuse_if-Looks two.files (Unit {0}) (ltb max_settings_bytes size) e two refl
                (λ _. tt))
              (λ three _ k'' _.
                kept_rule (read p) end three files (λ b. bytes_of (three.files p) ≡ ok b) Q k''
                  (read-Looks p three)
                  (λ four bytes k''' found.
                    let parsed = context e' (codec.from_slice bytes) in
                    let (same, outcome) =
                      Looks-weaken four.files (λ s. parsed ≡ ok s) Q (lift parsed four)
                        (lift-Looks parsed four)
                        (λ s h. inr (
                          bytes,
                          rw (ap (λ (f : Files). f p) k'') at found,
                          context-eq-ok e' (codec.from_slice bytes) h,
                        )) in
                    (same ∙ k''', outcome)))))

pub load-Looks :
    (codec : SettingsCodec) (p : FilePath) (w : World)
    → Looks w.files (IsLoaded codec p w.files) (load codec p w)
unfolding load
load-Looks codec p w =
    kept_rule (symlink_metadata p) (load_node codec p) w w.files (λ n. n ≡ w.files p)
      (IsLoaded codec p w.files) refl (symlink_metadata-Looks p w)
      (λ later node.
        elim node
          as (λ n.
            later.files ≡ w.files
            → n ≡ w.files p
            → Looks w.files (IsLoaded codec p w.files) (load_node codec p n later)) [
              | none ↦ λ kept _. (kept, inr (default_settings, refl, inl refl))
              | some n ↦ λ kept _. load_existing-Looks codec p w.files later kept
            ])
