-- ===== src/Update/Installation/Locking.antt =====
-- What `Installation::lock` of src/update.rs touches.
use rcodex.Common.{
  ◌≡◌, refl, sym, ap, ◌∙◌, Bool, false, Option, none, some, [], if◌then◌else◌, Result, ok, Error,
  text,
}
use rcodex.Files.{
  FilePath, Node, file, Files, update, with_extension, World, Action, pure, ◌>>=◌, ◌>>◌, call,
  path_eq, write_node,
}
use rcodex.Files.Rules.{Looks-Spares, bind_rule, Spares, chain-Spares, call-Keeps}
use rcodex.Update.Writing.{
  regular_file, reject_symlink, regular_file-Looks, reject_symlink-Looks, IsRegular, is_other,
}
use rcodex.Update.Installation.{Installation, open_lock, lock}

-- A write elsewhere.
pub update_elsewhere :
    (files : Files) (p q : FilePath) (node : Option Node)
    → path_eq p q ≡ false
    → update files p node q ≡ files q
update_elsewhere files p q node apart = ap (λ b. if b then node else files q) apart

open_lock-Spares : (p q : FilePath) (w : World) → path_eq p q ≡ false → Spares q w (open_lock p w)
unfolding open_lock
open_lock-Spares p q w apart =
    chain-Spares q call (created p) w (ap (λ (f : Files). f q) (call-Keeps w))
      (λ later u. opened later (later.files p))
  where
    created : FilePath → Unit {0} → Action (Unit {0})
    created p u w = elim (w.files p) [
      | none ↦ write_node p (some (file 0x180 [])) w
      | some node ↦ (w, ok tt)
    ]

    opened :
        (later : World) (n : Option Node)
        → (let o : World × Result Error (Unit {0}) = elim n [
          | none ↦ write_node p (some (file 0x180 [])) later
          | some node ↦ (later, ok tt)
        ] in
            o.0.files q)
          ≡ later.files q
    opened later none = update_elsewhere later.files p q (some (file 0x180 [])) apart
    opened later (some node) = refl

-- The value that a lock gives, with a file that is not its own spared.
abbrev pub Locks :
    FilePath → Bool → FilePath → Option Node → World × Result Error Installation → Type 0
Locks executable exclusive q node (later, result) =
    (later.files q ≡ node)
    × ((i : Installation)
        → result ≡ ok i
        → i ≡ record { executable = executable; exclusive = exclusive })

pub lock-Locks :
    (executable q : FilePath) (exclusive : Bool) (w : World)
    → path_eq (with_extension executable (text "update-lock")) q ≡ false
    → Locks executable exclusive q (w.files q) (lock executable exclusive w)
unfolding lock
lock-Locks executable q exclusive w apart =
    let Q = Locks executable exclusive q (w.files q) in
    let p = with_extension executable (text "update-lock") in
    let made : Installation = record { executable = executable; exclusive = exclusive } in
    step (regular_file executable) (λ _. reject_symlink p >> (open_lock p >> (call >> pure made))) w
      (Looks-Spares (λ _. IsRegular (w.files executable)) q w (regular_file executable w)
        (regular_file-Looks executable w))
      (λ one _ k.
        step (reject_symlink p) (λ _. open_lock p >> (call >> pure made)) one
          (Looks-Spares (λ _. is_other (one.files p) ≡ false) q one (reject_symlink p one)
              (reject_symlink-Looks p one)
            ∙ k)
          (λ two _ k'.
            step (open_lock p) (λ _. call >> pure made) two (open_lock-Spares p q two apart ∙ k')
              (λ three _ k''.
                step call (λ _. pure made) three (ap (λ (f : Files). f q) (call-Keeps three) ∙ k'')
                  (λ four _ k'''. (k''', λ i e. cc)))))
  where
    step :
        {A : Type 0} (act : Action A) (next : A → Action Installation) (v : World)
        → (act v).0.files q ≡ w.files q
        → ((later : World) (a : A)
            → later.files q ≡ w.files q
            → Locks executable exclusive q (w.files q) (next a later))
        → Locks executable exclusive q (w.files q) ((act >>= next) v)
    step act next v same rest =
        bind_rule (Locks executable exclusive q (w.files q)) act next v
          (λ later e here. (ap (λ o. o.0.files q) (sym here) ∙ same, λ i bad. cc))
          (λ later a here. rest later a (ap (λ o. o.0.files q) (sym here) ∙ same))
