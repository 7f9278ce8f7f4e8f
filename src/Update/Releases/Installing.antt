-- ===== src/Update/Releases/Installing.antt =====
-- What the installation of a release can do to the executable, in src/update.rs.
use rcodex.Common.{
  ◌≡◌, ap, ◌∙◌, ◌⊎◌, inl, inr, false, Option, some, if◌then◌else◌, Result, ok, Error, Text, Bytes,
}
use rcodex.Files.{
  FilePath, Node, file, Files, update, World, lift, ◌>>◌, call, path_eq, path_eq_refl,
}
use rcodex.Files.Rules.{Spares, Looks-Spares, chain-Spares, call-Keeps, lift-Looks, look_rule}
use rcodex.Update.Writing.{
  reject_symlink, atomic_write, reject_symlink-Looks, is_other, atomic_write-Writes,
}
use rcodex.Update.Installation.{ReleaseAsset, Installation, backup_path, replace}
use rcodex.Update.Installation.Locking.{update_elsewhere}
use rcodex.Update.Installation.Outcomes.{IsVerified, replace-IsReplacement}
use rcodex.Update.Manifest.{ReleaseManifest}
use rcodex.Update.Releases.{Repository, tag_of, asset_url, download}
use rcodex.Update.Releases.Search.{verify_bytes, install}
use rcodex.Update.Releases.Offers.{verify_bytes-Looks}
use rcodex.Update.Settings.{UpdateSettings, SettingsCodec, save}

pub save-Spares :
    (codec : SettingsCodec) (settings : UpdateSettings) (p q : FilePath) (w : World)
    → path_eq p q ≡ false
    → Spares q w (save codec settings p w)
unfolding save
save-Spares codec settings p q w apart =
    chain-Spares q call (λ _. reject_symlink p >> atomic_write p (codec.to_vec settings) 0x180) w
      (ap (λ (f : Files). f q) (call-Keeps w))
      (λ one _.
        chain-Spares q (reject_symlink p) (λ _. atomic_write p (codec.to_vec settings) 0x180) one
          (Looks-Spares (λ _. is_other (one.files p) ≡ false) q one (reject_symlink p one)
            (reject_symlink-Looks p one))
          (λ two _. elim (atomic_write-Writes p (codec.to_vec settings) 0x180 two) [
            | inl (same, _, _) ↦ ap (λ (f : Files). f q) same
            | inr written ↦
                ap (λ (f : Files). f q) written
                ∙ update_elsewhere two.files p q (some (file 0x180 (codec.to_vec settings))) apart
          ]))

-- The bytes of an asset that were signed for this manifest's tag.
abbrev pub IsBinary : (Bytes → Text) → Repository → ReleaseManifest × ReleaseAsset → Bytes → Type 0
IsBinary sha256 r (m, a) bytes =
    (download r (asset_url r m a) a.size ≡ ok bytes)
    × (r.verify bytes (tag_of m) ≡ ok tt)
    × IsVerified sha256 bytes a

-- The file is as it was, or it holds the bytes of the asset.
abbrev pub Installs :
    {A : Type 0}
    → (Bytes → Text)
    → Repository
    → ReleaseManifest × ReleaseAsset
    → FilePath
    → Option Node
    → World × Result Error A
    → Type 0
Installs sha256 r found executable node o =
    (o.0.files executable ≡ node)
    ⊎ ((bytes : Bytes) × IsBinary sha256 r found bytes
        × (o.0.files executable ≡ some (file 0x1ed bytes)))

replace-Installs :
    (sha256 : Bytes → Text) (r : Repository) (m : ReleaseManifest) (a : ReleaseAsset)
    (i : Installation) (bytes : Bytes) (w : World)
    → path_eq (backup_path i) i.executable ≡ false
    → download r (asset_url r m a) a.size ≡ ok bytes
    → r.verify bytes (tag_of m) ≡ ok tt
    → Installs sha256 r (m, a) i.executable (w.files i.executable) (replace sha256 i bytes a w)
replace-Installs sha256 r m a i bytes w apart came good =
    elim (replace-IsReplacement sha256 i bytes a w) [
      | inl (same, _) ↦ inl (ap (λ (f : Files). f i.executable) same)
      | inr (held, verified, regular, inl (same, _)) ↦ inl (ap (λ (f : Files). f i.executable) same)
      | inr (held, verified, regular, inr (old, here, inl (same, _))) ↦ inl (
          ap (λ (f : Files). f i.executable) same
          ∙ update_elsewhere w.files (backup_path i) i.executable (some (file 0x1c0 old)) apart)
      | inr (held, verified, regular, inr (old, here, inr same)) ↦ inr (
        bytes,
        (came, good, verified),
        ap (λ (f : Files). f i.executable) same
            ∙ ap
                (λ b.
                  if b
                  then some (file 0x1ed bytes)
                  else update w.files (backup_path i) (some (file 0x1c0 old)) i.executable)
                (path_eq_refl i.executable),
      )
    ]

pub install-Installs :
    (sha256 : Bytes → Text) (r : Repository) (m : ReleaseManifest) (a : ReleaseAsset)
    (i : Installation) (w : World)
    → path_eq (backup_path i) i.executable ≡ false
    → Installs sha256 r (m, a) i.executable (w.files i.executable) (install sha256 r m a i w)
unfolding install
install-Installs sha256 r m a i w apart =
    let Q = Installs sha256 r (m, a) i.executable (w.files i.executable) in
    let at = λ (f : Files). f i.executable in
    let came = download r (asset_url r m a) a.size in
    look_rule Q (lift came) (λ bytes. verify_bytes r bytes (tag_of m) >> replace sha256 i bytes a) w
      (λ bytes. came ≡ ok bytes) (lift-Looks came w) (λ later e kept. inl (ap at kept))
      (λ one bytes kept got.
        look_rule Q (verify_bytes r bytes (tag_of m)) (λ _. replace sha256 i bytes a) one
          (λ _. r.verify bytes (tag_of m) ≡ ok tt) (verify_bytes-Looks r bytes (tag_of m) one)
          (λ later e kept'. inl (ap at (kept' ∙ kept)))
          (λ two _ kept' good.
            rw (ap at (kept' ∙ kept)) at
              (replace-Installs sha256 r m a i bytes two apart got good)))
