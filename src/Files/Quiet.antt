-- ===== src/Files/Quiet.antt =====
-- The file system where no call fails.
use rcodex.Common.{ℕ, ◌≡◌, refl, ap, some, [], ok, Bytes}
use rcodex.Files.{FilePath, file, Files, World, bytes_of, call_with, call, symlink_metadata, read}

-- No call fails.
abbrev pub quiet : Files → World
quiet files = record { files = files; faults = [] }

pub symlink_metadata-quiet :
    (p : FilePath) (files : Files) → symlink_metadata p (quiet files) ≡ (quiet files, ok (files p))
unfolding symlink_metadata call call_with
symlink_metadata-quiet p files = refl

pub read-quiet :
    (p : FilePath) (files : Files) (mode : ℕ) (bytes : Bytes)
    → files p ≡ some (file mode bytes)
    → read p (quiet files) ≡ (quiet files, ok bytes)
unfolding read call call_with
read-quiet p files mode bytes here = rw (ap bytes_of here) refl
