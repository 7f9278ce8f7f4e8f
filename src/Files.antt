-- ===== src/Files.antt =====
-- The file system as src/update.rs and src/state.rs use it. A path is taken apart as `Path` does, and
-- has a parent; a file that is written under a temporary name is not seen before it is renamed.
-- Each call of the system may fail: the world holds the outcomes of the next calls.
pub mod Rules
pub mod Quiet
use rcodex.Common.{
  ℕ, zero, suc, ◌-◌, ◌≡◌, refl, inl, inr, Bool, true, false, not, ◌&&◌, Option, none, some, List,
  [], ◌∷◌, if◌then◌else◌, Option-cases, Result, ok, err, Error, bail_if, Text, Bytes, text_eq,
  text_eq_refl,
}

pub record FilePath : Type 0 where
  pub directory : Text
  pub stem : Text
  pub extension : Option Text

-- `Path::with_extension`.
abbrev pub with_extension : FilePath → Text → FilePath
with_extension p e = record p { extension = some e }

abbrev pub extension_eq : Option Text → Option Text → Bool
extension_eq none none = true
extension_eq (some a) (some b) = text_eq a b
extension_eq _ _ = false

unfoldable pub path_eq : FilePath → FilePath → Bool
path_eq p q =
    text_eq p.directory q.directory && text_eq p.stem q.stem && extension_eq p.extension q.extension

-- A regular file with its mode and bytes, or a link, a directory or a device.
pub data Node : Type 0 where
  file : ℕ → Bytes → Node
  other : Node

abbrev pub Files : Type 0
Files = FilePath → Option Node

abbrev pub update : Files → FilePath → Option Node → Files
update files p node q = if path_eq p q then node else files q

-- `true` stands for a call that fails; after the last outcome no call fails.
pub record World : Type 0 where
  pub files : Files
  pub faults : List Bool

abbrev pub Action {ℓ} : Type ℓ → Type ℓ
Action A = World → World × Result Error A

abbrev pub pure {ℓ} : {A : Type ℓ} → A → Action A
pure a w = (w, ok a)

abbrev pub lift {ℓ} : {A : Type ℓ} → Result Error A → Action A
lift r w = (w, r)

abbrev pub refuse_if : Bool → Error → Action (Unit {0})
refuse_if b e = lift (bail_if b e)

infixl 5 ◌>>=◌ ◌>>◌
abbrev pub ◌>>=◌ {ℓ κ} : {A : Type ℓ} {B : Type κ} → Action A → (A → Action B) → Action B
◌>>=◌ act next w =
    let (later, result) = act w in
    elim result [ err e ↦ (later, err e) | ok value ↦ next value later ]

abbrev pub ◌>>◌ {ℓ} : {B : Type ℓ} → Action (Unit {0}) → Action B → Action B
act >> next = act >>= λ done. next

unfoldable pub call_with : World → List Bool → World × Result Error (Unit {0})
call_with w [] = (w, ok tt)
call_with w (true ∷ rest) = (record w { faults = rest }, err "the system call failed")
call_with w (false ∷ rest) = (record w { faults = rest }, ok tt)

-- One call of the system that changes no visible file.
unfoldable pub call : Action (Unit {0})
unfolding call_with
call w = call_with w w.faults

-- So many calls, up to the first that fails.
unfoldable pub calls : ℕ → Action (Unit {0})
calls zero = pure tt
calls (suc n) = call >> calls n

-- `symlink_metadata`, with a missing file as `none`.
unfoldable pub symlink_metadata : FilePath → Action (Option Node)
symlink_metadata p = call >> λ w. (w, ok (w.files p))

abbrev pub bytes_of : Option Node → Result Error Bytes
bytes_of none = err "the file does not exist"
bytes_of (some (file mode bytes)) = ok bytes
bytes_of (some other) = err "the path is not a file"

-- `fs::read`, which does not follow a link here.
unfoldable pub read : FilePath → Action Bytes
read p = call >> λ w. (w, bytes_of (w.files p))

-- A rename, a creation or a removal that the system carries out.
abbrev pub write_node : FilePath → Option Node → Action (Unit {0})
write_node p node w = (record w { files = update w.files p node }, ok tt)

pub path_eq_refl : (p : FilePath) → path_eq p p ≡ true
unfolding path_eq
path_eq_refl p = elim (Option-cases p.extension) [
  | inl e ↦ rw e (rw (text_eq_refl p.directory) (rw (text_eq_refl p.stem) refl))
  | inr (x, e) ↦ rw e (rw (text_eq_refl p.directory) (rw (text_eq_refl p.stem) (text_eq_refl x)))
]
