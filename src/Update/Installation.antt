-- ===== src/Update/Installation.antt =====
-- src/update.rs: `Installation`, which replaces the executable and restores the one before. The
-- digest is a parameter.
pub mod Outcomes
pub mod Rollback
pub mod Locking
use rcodex.Common.{
  ℕ, ◌-◌, Bool, not, ◌&&◌, none, some, [], ◌==◌, length, ok, Text, Bytes, text, text_eq,
}
use rcodex.Files.{
  FilePath, Node, file, other, Files, with_extension, World, Action, pure, refuse_if, ◌>>=◌, ◌>>◌,
  call, read, write_node,
}
use rcodex.Update.Writing.{reject_symlink, regular_file, atomic_write}

pub record ReleaseAsset : Type 0 where
  pub name : Text
  pub target : Text
  pub sha256 : Text
  pub size : ℕ

-- The lock is held as long as the value lives.
pub record Installation : Type 0 where
  pub executable : FilePath
  pub exclusive : Bool

-- `open` with `create(true)`: an empty file of mode 0o600, if there is none.
unfoldable pub open_lock : FilePath → Action (Unit {0})
open_lock p = call >> λ w. elim (w.files p) [
  | none ↦ write_node p (some (file 0x180 [])) w
  | some node ↦ (w, ok tt)
]

-- `Installation::lock`. The last call is `try_lock_exclusive` or `try_lock_shared`.
unfoldable pub lock : FilePath → Bool → Action Installation
lock executable exclusive =
    regular_file executable
    >> (reject_symlink (with_extension executable (text "update-lock"))
        >> (open_lock (with_extension executable (text "update-lock"))
            >> (call >> pure (record { executable = executable; exclusive = exclusive }))))

abbrev pub backup_path : Installation → FilePath
backup_path i = with_extension i.executable (text "previous")

abbrev pub verified : (Bytes → Text) → Bytes → ReleaseAsset → Bool
verified sha256 bytes asset = length bytes == asset.size && text_eq (sha256 bytes) asset.sha256

-- The two writes at the end of `replace`.
unfoldable pub swap : Installation → Bytes → Action (Unit {0})
swap i bytes = do
  old ← read i.executable
  atomic_write (backup_path i) old 0x1c0
  atomic_write i.executable bytes 0x1ed

-- `replace` past the tests on the lock and the bytes.
unfoldable pub swap_checked : Installation → Bytes → Action (Unit {0})
swap_checked i bytes = do regular_file i.executable; reject_symlink (backup_path i); swap i bytes

unfoldable pub replace : (Bytes → Text) → Installation → Bytes → ReleaseAsset → Action (Unit {0})
replace sha256 i bytes asset = do
  refuse_if (not i.exclusive) "installation requires an exclusive lock"
  refuse_if (not (verified sha256 bytes asset)) "update binary failed size or SHA-256 verification"
  swap_checked i bytes

-- The end of `rollback`.
unfoldable pub restore : Installation → Action (Unit {0})
restore i = do old ← read (backup_path i); atomic_write i.executable old 0x1ed

unfoldable pub rollback : Installation → Action (Unit {0})
rollback i = do
  refuse_if (not i.exclusive) "rollback requires an exclusive lock"
  regular_file (backup_path i)
  regular_file i.executable
  restore i
