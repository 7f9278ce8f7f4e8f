-- ===== src/Update/Writing.antt =====
-- src/update.rs: `reject_symlink`, `regular_file` and `atomic_write`.
use rcodex.Common.{
  ℕ, ◌≡◌, refl, ap, ◌∙◌, ◌⊎◌, inl, inr, Bool, true, false, not, ◌&&◌, Option, none, some, arith,
  Result, ok, err, Error, is_ok, Bytes,
}
use rcodex.Files.{
  FilePath, Node, file, other, Files, update, World, Action, refuse_if, ◌>>=◌, ◌>>◌, call, calls,
  symlink_metadata, write_node,
}
use rcodex.Files.Rules.{look_rule, Looks, call-Looks, calls-Looks, symlink_metadata-Looks}

abbrev pub is_other : Option Node → Bool
is_other (some other) = true
is_other _ = false

abbrev pub is_regular : Option Node → Bool
is_regular (some (file mode bytes)) = true
is_regular _ = false

unfoldable pub reject_symlink : FilePath → Action (Unit {0})
reject_symlink p =
    symlink_metadata p >>= λ node. refuse_if (is_other node) "update path is not a regular file"

-- `Path::is_file`, which takes a failed call for a missing file.
unfoldable pub is_file : FilePath → Action Bool
is_file p w =
    let (later, result) = call w in (later, ok (is_ok result && is_regular (later.files p)))

unfoldable pub regular_file : FilePath → Action (Unit {0})
regular_file p =
    reject_symlink p >> (is_file p >>= λ found. refuse_if (not found) "update file does not exist")

-- The creation, the writing, the mode and the flush of the temporary file and the rename may fail,
-- then the opening and the flush of the directory.
unfoldable pub atomic_write : FilePath → Bytes → ℕ → Action (Unit {0})
atomic_write p bytes mode = calls 5 >> (write_node p (some (file mode bytes)) >> calls 2)

abbrev pub IsRegular : Option Node → Type 0
IsRegular node = (mode : ℕ) × (bytes : Bytes) × (node ≡ some (file mode bytes))

pub refuse_if-Looks :
    (files : Files) (P : Type 0) (b : Bool) (e : Error) (w : World)
    → w.files ≡ files
    → (b ≡ false → P)
    → Looks files (λ _. P) (refuse_if b e w)
refuse_if-Looks files P true e w kept h = (kept, inl (e, refl))
refuse_if-Looks files P false e w kept h = (kept, inr (tt, refl, h refl))

pub reject_symlink-Looks :
    (p : FilePath) (w : World)
    → Looks w.files (λ _. is_other (w.files p) ≡ false) (reject_symlink p w)
unfolding reject_symlink
reject_symlink-Looks p w =
    look_rule (Looks w.files (λ _. is_other (w.files p) ≡ false)) (symlink_metadata p)
      (λ node. refuse_if (is_other node) "update path is not a regular file") w
      (λ node. node ≡ w.files p) (symlink_metadata-Looks p w)
      (λ later e kept. (kept, inl (e, refl)))
      (λ later node kept same.
        refuse_if-Looks w.files (is_other (w.files p) ≡ false) (is_other node)
          "update path is not a regular file" later kept (λ e. rw same at e))

is_regular-IsRegular : (node : Option Node) → is_regular node ≡ true → IsRegular node
is_regular-IsRegular none e = cc
is_regular-IsRegular (some (file mode bytes)) e = (mode, bytes, refl)
is_regular-IsRegular (some other) e = cc

is_right : (a b : Bool) → (a && b) ≡ true → b ≡ true
is_right true b e = e
is_right false b e = cc

is_file-Looks :
    (p : FilePath) (w : World)
    → Looks w.files (λ found. found ≡ true → IsRegular (w.files p)) (is_file p w)
unfolding is_file
is_file-Looks p w =
    let (later, result) = call w in
    let (kept, _) = call-Looks w in
    (
      kept,
      inr (
        is_ok result && is_regular (later.files p),
        refl,
        λ e. is_regular-IsRegular (w.files p) (
            rw (ap (λ (f : Files). f p) kept) at
              (is_right (is_ok result) (is_regular (later.files p)) e)),
      ),
    )

refuse_missing :
    (p : FilePath) (files : Files) (w : World)
    → w.files ≡ files
    → Looks files
        (λ _. IsRegular (files p))
        ((is_file p >>= λ found. refuse_if (not found) "update file does not exist") w)
refuse_missing p files w kept =
    look_rule (Looks files (λ _. IsRegular (files p))) (is_file p)
      (λ found. refuse_if (not found) "update file does not exist") w
      (λ found. found ≡ true → IsRegular (w.files p)) (is_file-Looks p w)
      (λ later e same. (same ∙ kept, inl (e, refl)))
      (λ later found same regular.
        refuse_if-Looks files (IsRegular (files p)) (not found) "update file does not exist" later
          (same ∙ kept) (λ e. rw (ap (λ (f : Files). f p) kept) at (regular (ground (arith, e)))))

pub regular_file-Looks :
    (p : FilePath) (w : World) → Looks w.files (λ _. IsRegular (w.files p)) (regular_file p w)
unfolding regular_file
regular_file-Looks p w =
    look_rule (Looks w.files (λ _. IsRegular (w.files p))) (reject_symlink p)
      (λ done. is_file p >>= λ found. refuse_if (not found) "update file does not exist") w
      (λ _. is_other (w.files p) ≡ false) (reject_symlink-Looks p w)
      (λ later e kept. (kept, inl (e, refl)))
      (λ later u kept plain. refuse_missing p w.files later kept)

-- The file is the new one, whole, or nothing has happened.
abbrev pub Writes : Files → FilePath → Bytes → ℕ → World × Result Error (Unit {0}) → Type 0
Writes files p bytes mode (later, result) =
    ((later.files ≡ files) × (e : Error) × (result ≡ err e))
    ⊎ (later.files ≡ update files p (some (file mode bytes)))

after_write-Writes :
    (files : Files) (p : FilePath) (bytes : Bytes) (mode : ℕ) (w : World)
    → w.files ≡ files
    → Writes files p bytes mode ((write_node p (some (file mode bytes)) >> calls 2) w)
after_write-Writes files p bytes mode w kept =
    let written : World = record w { files = update w.files p (some (file mode bytes)) } in
    let (same, _) = calls-Looks 2 written in
    inr (same ∙ ap (λ f. update f p (some (file mode bytes))) kept)

pub atomic_write-Writes :
    (p : FilePath) (bytes : Bytes) (mode : ℕ) (w : World)
    → Writes w.files p bytes mode (atomic_write p bytes mode w)
unfolding atomic_write
atomic_write-Writes p bytes mode w =
    look_rule (Writes w.files p bytes mode) (calls 5)
      (λ done. write_node p (some (file mode bytes)) >> calls 2) w (λ _. Unit {0}) (calls-Looks 5 w)
      (λ later e kept. inl (kept, e, refl))
      (λ later u kept p'. after_write-Writes w.files p bytes mode later kept)
