-- ===== src/Update/Installation/Rollback.antt =====
-- `Installation::rollback` of src/update.rs after `Installation::replace`.
use rcodex.Common.{
  ℕ, ◌≡◌, refl, sym, ap, ◌∙◌, inl, inr, Bool, true, false, not, some, List, [], if◌then◌else◌, ok,
  Error, Text, Bytes,
}
use rcodex.Files.{
  FilePath, file, Files, update, World, Action, bytes_of, refuse_if, path_eq, path_eq_refl, ◌>>◌,
  call, calls, call_with, read, symlink_metadata,
}
use rcodex.Files.Quiet.{quiet, read-quiet}
use rcodex.Files.Rules.{bind_ok}
use rcodex.Update.Writing.{
  atomic_write, regular_file, reject_symlink, is_file, is_other, is_regular,
}
use rcodex.Update.Installation.{ReleaseAsset, Installation, backup_path, replace, restore, rollback}
use rcodex.Update.Installation.Outcomes.{IsReplacement, backed_up, replaced, replace-IsReplacement}

pub regular_file-quiet :
    (p : FilePath) (files : Files) (mode : ℕ) (bytes : Bytes)
    → files p ≡ some (file mode bytes)
    → regular_file p (quiet files) ≡ (quiet files, ok tt)
unfolding regular_file reject_symlink is_file symlink_metadata call call_with
regular_file-quiet p files mode bytes here = rw (ap is_other here) (rw (ap is_regular here) refl)

pub atomic_write-quiet :
    (p : FilePath) (files : Files) (mode : ℕ) (bytes : Bytes)
    → atomic_write p bytes mode (quiet files)
      ≡ (quiet (update files p (some (file mode bytes))), ok tt)
unfolding atomic_write calls call call_with
atomic_write-quiet p files mode bytes = refl

restore-quiet :
    (i : Installation) (files : Files) (mode : ℕ) (old : Bytes)
    → files (backup_path i) ≡ some (file mode old)
    → restore i (quiet files) ≡ (quiet (update files i.executable (some (file 0x1ed old))), ok tt)
unfolding restore
restore-quiet i files mode old backup =
    bind_ok (read (backup_path i)) (λ bytes. atomic_write i.executable bytes 0x1ed) (quiet files)
      (quiet files) old (read-quiet (backup_path i) files mode old backup)
    ∙ atomic_write-quiet i.executable files 0x1ed old

rollback-quiet :
    (i : Installation) (files : Files) (old bytes : Bytes) (mode mode' : ℕ)
    → i.exclusive ≡ true
    → files (backup_path i) ≡ some (file mode old)
    → files i.executable ≡ some (file mode' bytes)
    → rollback i (quiet files) ≡ (quiet (update files i.executable (some (file 0x1ed old))), ok tt)
unfolding rollback
rollback-quiet i files old bytes mode mode' held backup here =
    let e : Error = "rollback requires an exclusive lock" in
    let restored : Action (Unit {0}) = regular_file i.executable >> restore i in
    bind_ok (refuse_if (not i.exclusive) e) (λ done. regular_file (backup_path i) >> restored)
      (quiet files) (quiet files) tt (ap (λ b. refuse_if (not b) e (quiet files)) held)
    ∙ bind_ok (regular_file (backup_path i)) (λ done. restored) (quiet files) (quiet files) tt
        (regular_file-quiet (backup_path i) files mode old backup)
    ∙ bind_ok (regular_file i.executable) (λ done. restore i) (quiet files) (quiet files) tt
        (regular_file-quiet i.executable files mode' bytes here)
    ∙ restore-quiet i files mode old backup

-- What a successful replacement has left.
abbrev IsDone : Installation → Bytes → Files → Files → Type 0
IsDone i bytes files later =
    (i.exclusive ≡ true)
    × ((old : Bytes) × (bytes_of (files i.executable) ≡ ok old)
        × (later ≡ replaced i old bytes files))

replace-IsDone :
    (i : Installation) (sha256 : Bytes → Text) (bytes : Bytes) (asset : ReleaseAsset)
    (files later : Files) (faults : List Bool)
    → IsReplacement sha256 i bytes asset files (record { files = later; faults = faults }, ok tt)
    → IsDone i bytes files later
replace-IsDone i sha256 bytes asset files later faults (inl (same, (e, refused))) = cc
replace-IsDone i sha256 bytes asset files later faults
      (inr (exclusive, good, regular, inl (same, (e, refused)))) =
    cc
replace-IsDone i sha256 bytes asset files later faults
      (inr (exclusive, good, regular, inr (old, found, inl (same, (e, refused))))) =
    cc
replace-IsDone i sha256 bytes asset files later faults
      (inr (exclusive, good, regular, inr (old, found, inr same))) =
    (exclusive, (old, found, same))

replaced_backup :
    (i : Installation) (old bytes : Bytes) (files : Files)
    → path_eq i.executable (backup_path i) ≡ false
    → replaced i old bytes files (backup_path i) ≡ some (file 0x1c0 old)
replaced_backup i old bytes files apart =
    ap (λ b. if b then some (file 0x1ed bytes) else backed_up i old files (backup_path i)) apart
    ∙ ap (λ b. if b then some (file 0x1c0 old) else files (backup_path i))
        (path_eq_refl (backup_path i))

replaced_executable :
    (i : Installation) (old bytes : Bytes) (files : Files)
    → replaced i old bytes files i.executable ≡ some (file 0x1ed bytes)
replaced_executable i old bytes files =
    ap (λ b. if b then some (file 0x1ed bytes) else backed_up i old files i.executable)
      (path_eq_refl i.executable)

-- After a replacement that succeeded, and if no call of the system fails, a rollback under the same
-- lock succeeds and the executable has the bytes it had before the replacement. The executable is
-- not itself named as the backup.
pub replace-rollback :
    (sha256 : Bytes → Text) (i : Installation) (bytes : Bytes) (asset : ReleaseAsset) (w : World)
    (files : Files)
    → path_eq i.executable (backup_path i) ≡ false
    → replace sha256 i bytes asset w ≡ (quiet files, ok tt)
    → (later : Files) × (rollback i (quiet files) ≡ (quiet later, ok tt))
      × (bytes_of (later i.executable) ≡ bytes_of (w.files i.executable))
replace-rollback sha256 i bytes asset w files apart went =
    let done : IsReplacement sha256 i bytes asset w.files (quiet files, ok tt) =
      rw went at (replace-IsReplacement sha256 i bytes asset w) in
    let (held, (old, found, same)) = replace-IsDone i sha256 bytes asset w.files files [] done in
    (
      update files i.executable (some (file 0x1ed old)),
      rollback-quiet i files old bytes 0x1c0 0x1ed held
          (ap (λ (f : Files). f (backup_path i)) same ∙ replaced_backup i old bytes w.files apart)
          (ap (λ (f : Files). f i.executable) same ∙ replaced_executable i old bytes w.files),
      ap (λ b. bytes_of (if b then some (file 0x1ed old) else files i.executable))
            (path_eq_refl i.executable)
          ∙ sym found,
    )
