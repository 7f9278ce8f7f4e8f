-- ===== src/Update/Tests.antt =====
-- Runs of the update code of src/update.rs.
use rcodex.Common.{
  ◌≡◌, refl, true, false, none, some, [], ◌∷◌, ◌==◌, if◌then◌else◌, any, ok, err, Text, Bytes, text,
  text_eq,
}
use rcodex.Files.{
  FilePath, file, Files, update, path_eq, bytes_of, call_with, call, calls, symlink_metadata, read,
}
use rcodex.Update.Writing.{reject_symlink, is_file, regular_file, atomic_write}
use rcodex.Update.Installation.{
  ReleaseAsset, Installation, open_lock, lock, swap, swap_checked, replace, rollback,
}
use rcodex.Update.Installation.Outcomes.{IsReplacement, replaced, replace-IsReplacement}
use rcodex.Files.Quiet.{quiet}
use rcodex.Update.Installation.Rollback.{replace-rollback}

abbrev executable : FilePath
executable = record { directory = text "bin"; stem = text "rcodex"; extension = none }

abbrev installation : Installation
installation = record { executable = executable; exclusive = true }

-- Only the executable is there.
abbrev before : Files
before p = if path_eq executable p then some (file 0x1ed (1 ∷ 2 ∷ [])) else none

abbrev asset : ReleaseAsset
asset = record { name = text "rcodex"; target = text "t"; sha256 = text "d"; size = 3 }

-- A digest that is enough to tell the bytes of the tests apart.
abbrev digest : Bytes → Text
digest bytes = if any (λ b. b == 7) bytes then text "d" else text "e"

abbrev after : Files
after = replaced installation (1 ∷ 2 ∷ []) (7 ∷ 8 ∷ 9 ∷ []) before

replace_run :
    replace digest installation (7 ∷ 8 ∷ 9 ∷ []) asset (quiet before) ≡ (quiet after, ok tt)
unfolding replace swap_checked swap regular_file reject_symlink is_file atomic_write
    symlink_metadata read calls call call_with path_eq text_eq text
replace_run = refl

replace_refuses_other_bytes :
    replace digest installation (8 ∷ 8 ∷ 9 ∷ []) asset (quiet before)
    ≡ (quiet before, err "update binary failed size or SHA-256 verification")
unfolding replace text_eq text
replace_refuses_other_bytes = refl

lock_creates_its_file : lock executable true (quiet before) ≡ (
  quiet (
      update before
        (record executable { extension = some (text "update-lock") })
        (some (file 0x180 []))),
  ok installation,
)
unfolding lock open_lock regular_file reject_symlink is_file symlink_metadata call call_with path_eq
    text_eq text
lock_creates_its_file = refl

replace-IsReplacement_example : IsReplacement digest installation (7 ∷ 8 ∷ 9 ∷ []) asset before (
    replace digest installation
      (7 ∷ 8 ∷ 9 ∷ [])
      asset
      (record { files = before; faults = false ∷ false ∷ false ∷ false ∷ true ∷ [] }))
replace-IsReplacement_example =
    replace-IsReplacement digest installation (7 ∷ 8 ∷ 9 ∷ []) asset
      (record { files = before; faults = false ∷ false ∷ false ∷ false ∷ true ∷ [] })

replace-rollback_example :
    (later : Files) × (rollback installation (quiet after) ≡ (quiet later, ok tt))
    × (bytes_of (later executable) ≡ bytes_of (before executable))
unfolding path_eq text_eq text
replace-rollback_example =
    replace-rollback digest installation (7 ∷ 8 ∷ 9 ∷ []) asset (quiet before) after refl
      replace_run
