-- ===== src/Update/Installation/Outcomes.antt =====
-- What `Installation::replace` of src/update.rs can leave, whichever calls of the system fail.
use rcodex.Common.{
  ◌≡◌, refl, ap, ◌∙◌, ◌⊎◌, inl, inr, true, false, not, some, arith, length, Result, ok, err, Error,
  Text, Bytes, text_eq, text_eq_sound,
}
use rcodex.Files.{file, Files, update, World, bytes_of, refuse_if, ◌>>◌, read}
use rcodex.Files.Rules.{look_rule, refuse_rule, bind_rule, read-Looks}
use rcodex.Update.Writing.{
  atomic_write, regular_file, reject_symlink, IsRegular, is_other, atomic_write-Writes,
  regular_file-Looks, reject_symlink-Looks,
}
use rcodex.Update.Installation.{
  ReleaseAsset, Installation, backup_path, verified, swap, swap_checked, replace,
}

-- The files after the backup, and after both writes.
abbrev pub backed_up : Installation → Bytes → Files → Files
backed_up i old files = update files (backup_path i) (some (file 0x1c0 old))

abbrev pub replaced : Installation → Bytes → Bytes → Files → Files
replaced i old bytes files = update (backed_up i old files) i.executable (some (file 0x1ed bytes))

abbrev pub IsRefused : World × Result Error (Unit {0}) → Type 0
IsRefused (later, result) = (e : Error) × (result ≡ err e)

-- Nothing has happened; the backup is there; or the new executable is, and the backup.
abbrev pub Swaps : Files → Installation → Bytes → World × Result Error (Unit {0}) → Type 0
Swaps files i bytes (later, result) =
    ((later.files ≡ files) × IsRefused (later, result))
    ⊎ ((old : Bytes) × (bytes_of (files i.executable) ≡ ok old)
        × (((later.files ≡ backed_up i old files) × IsRefused (later, result))
            ⊎ (later.files ≡ replaced i old bytes files)))

write_executable :
    (files : Files) (i : Installation) (old bytes : Bytes) (w : World)
    → bytes_of (files i.executable) ≡ ok old
    → w.files ≡ backed_up i old files
    → Swaps files i bytes (atomic_write i.executable bytes 0x1ed w)
write_executable files i old bytes w found kept =
    elim (atomic_write-Writes i.executable bytes 0x1ed w) [
      | inl (same, e, refused) ↦ inr (old, found, inl (same ∙ kept, (e, refused)))
      | inr written ↦ inr (
        old,
        found,
        inr (written ∙ ap (λ f. update f i.executable (some (file 0x1ed bytes))) kept),
      )
    ]

-- After the backup was written, or was not.
write_both :
    (files : Files) (i : Installation) (old bytes : Bytes) (w : World)
    → bytes_of (files i.executable) ≡ ok old
    → w.files ≡ files
    → Swaps files i bytes
        ((atomic_write (backup_path i) old 0x1c0 >> atomic_write i.executable bytes 0x1ed) w)
write_both files i old bytes w found kept =
    let moved = λ (o : World × Result Error (Unit {0})).
      λ (same : atomic_write (backup_path i) old 0x1c0 w ≡ o).
        rw same at (atomic_write-Writes (backup_path i) old 0x1c0 w) in
    bind_rule (Swaps files i bytes) (atomic_write (backup_path i) old 0x1c0)
      (λ done. atomic_write i.executable bytes 0x1ed) w
      (λ later e same. elim (moved (later, err e) same) [
        | inl (unchanged, e', refused) ↦ inl (unchanged ∙ kept, (e, refl))
        | inr written ↦ inr (old, found, inl (written ∙ ap (backed_up i old) kept, (e, refl)))
      ])
      (λ later u same. elim (moved (later, ok u) same) [
        | inl (unchanged, e, refused) ↦ cc
        | inr written ↦
            write_executable files i old bytes later found (written ∙ ap (backed_up i old) kept)
      ])

swap-Swaps :
    (files : Files) (i : Installation) (bytes : Bytes) (w : World)
    → w.files ≡ files
    → Swaps files i bytes (swap i bytes w)
unfolding swap
swap-Swaps files i bytes w kept =
    look_rule (Swaps files i bytes) (read i.executable)
      (λ old. atomic_write (backup_path i) old 0x1c0 >> atomic_write i.executable bytes 0x1ed) w
      (λ old. bytes_of (w.files i.executable) ≡ ok old) (read-Looks i.executable w)
      (λ later e same. inl (same ∙ kept, (e, refl)))
      (λ later old same found.
        write_both files i old bytes later (rw (ap (λ (f : Files). f i.executable) kept) at found)
          (same ∙ kept))

-- The test on the bytes was passed.
pub record IsVerified (sha256 : Bytes → Text) (bytes : Bytes) (asset : ReleaseAsset) : Type 0 where
  pub size : length bytes ≡ asset.size
  pub digest : sha256 bytes ≡ asset.sha256

verified-IsVerified :
    (sha256 : Bytes → Text) (bytes : Bytes) (asset : ReleaseAsset)
    → verified sha256 bytes asset ≡ true
    → IsVerified sha256 bytes asset
verified-IsVerified sha256 bytes asset e =
    let digest : text_eq (sha256 bytes) asset.sha256 ≡ true = ground arith in
    record { size = ground arith; digest = text_eq_sound (sha256 bytes) asset.sha256 digest }

-- Refused, with all files as they were; or begun under an exclusive lock with verified bytes.
abbrev pub IsReplacement :
    (Bytes → Text)
    → Installation
    → Bytes
    → ReleaseAsset
    → Files
    → World × Result Error (Unit {0})
    → Type 0
IsReplacement sha256 i bytes asset files o =
    ((o.0.files ≡ files) × IsRefused o)
    ⊎ ((i.exclusive ≡ true)
        × IsVerified sha256 bytes asset
        × IsRegular (files i.executable)
        × Swaps files i bytes o)

-- The tests on the paths, and what follows.
replace_paths :
    (sha256 : Bytes → Text) (i : Installation) (bytes : Bytes) (asset : ReleaseAsset) (w : World)
    → i.exclusive ≡ true
    → IsVerified sha256 bytes asset
    → IsReplacement sha256 i bytes asset w.files (swap_checked i bytes w)
unfolding swap_checked
replace_paths sha256 i bytes asset w exclusive good =
    look_rule (IsReplacement sha256 i bytes asset w.files) (regular_file i.executable)
      (λ done. reject_symlink (backup_path i) >> swap i bytes) w
      (λ _. IsRegular (w.files i.executable)) (regular_file-Looks i.executable w)
      (λ later e kept. inl (kept, (e, refl)))
      (λ later u kept regular.
        look_rule (IsReplacement sha256 i bytes asset w.files) (reject_symlink (backup_path i))
          (λ done. swap i bytes) later (λ _. is_other (later.files (backup_path i)) ≡ false)
          (reject_symlink-Looks (backup_path i) later) (λ last e same. inl (same ∙ kept, (e, refl)))
          (λ last u' same plain.
            inr (exclusive, good, regular, swap-Swaps w.files i bytes last (same ∙ kept))))

-- Whichever calls of the system fail, a replacement leaves one of four states of the files: all as
-- they were; the old executable in place, with or without its copy as the backup; or the new
-- executable in place, whole, with the old one as the backup. It changes a file only under an
-- exclusive lock, with bytes of the size and digest of the asset, and it succeeds only in the last state.
pub replace-IsReplacement :
    (sha256 : Bytes → Text) (i : Installation) (bytes : Bytes) (asset : ReleaseAsset) (w : World)
    → IsReplacement sha256 i bytes asset w.files (replace sha256 i bytes asset w)
unfolding replace
replace-IsReplacement sha256 i bytes asset w =
    let Q = IsReplacement sha256 i bytes asset w.files in
    refuse_rule Q (not i.exclusive) "installation requires an exclusive lock"
      (refuse_if (not (verified sha256 bytes asset))
          "update binary failed size or SHA-256 verification"
        >> swap_checked i bytes)
      w (λ e. inl (refl, ("installation requires an exclusive lock", refl)))
      (λ e.
        refuse_rule Q (not (verified sha256 bytes asset))
          "update binary failed size or SHA-256 verification" (swap_checked i bytes) w
          (λ e'. inl (refl, ("update binary failed size or SHA-256 verification", refl)))
          (λ e'.
            replace_paths sha256 i bytes asset w (ground (arith, e))
              (verified-IsVerified sha256 bytes asset (ground (arith, e')))))
