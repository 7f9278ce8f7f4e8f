-- ===== src/State/Saving.antt =====
-- What `save_controller_state` of src/state.rs leaves, and that it can be loaded.
use rcodex.Common.{
  ℕ, ◌≡◌, refl, ap, ◌∙◌, ◌⊎◌, inl, inr, false, Option, some, [], ◌∷◌, ◌++◌, if◌then◌else◌, Result,
  ok, err, Error, context, context-eq-ok, Bytes,
}
use rcodex.Files.{
  FilePath, Node, file, Files, update, World, lift, refuse_if, ◌>>=◌, ◌>>◌, call, calls,
  path_eq_refl, read, symlink_metadata, write_node,
}
use rcodex.Files.Rules.{look_rule, bind_ok, call-Looks, call-Keeps, calls-Looks, lift-Looks}
use rcodex.Files.Quiet.{quiet, read-quiet, symlink_metadata-quiet}
use rcodex.State.{
  ControllerState, StateCodec, is_open, read_state, load_node, load_controller_state, install_state,
  save_controller_state,
}

-- An error and no file is changed, or the file is written.
abbrev pub Saves :
    StateCodec → FilePath → ControllerState → Files → World × Result Error (Unit {0}) → Type 0
Saves codec path state files (later, result) =
    ((later.files ≡ files) × ((e : Error) × (result ≡ err e)))
    ⊎ ((bytes : Bytes) × (codec.to_vec state ≡ some bytes)
        × (result ≡ ok tt)
        × (later.files ≡ update files path (some (file 0x180 (bytes ++ b'\n' ∷ [])))))

-- Without the two cases, for the file itself.
abbrev pub Installs : FilePath → Bytes → Files → World × Result Error (Unit {0}) → Type 0
Installs path bytes files (later, result) =
    ((later.files ≡ files) × ((e : Error) × (result ≡ err e)))
    ⊎ ((result ≡ ok tt)
        × (later.files ≡ update files path (some (file 0x180 (bytes ++ b'\n' ∷ [])))))

cleanup_case :
    (path : FilePath) (bytes : Bytes) (files : Files) (o : World × Result Error (Unit {0}))
    → Installs path bytes files o
    → Installs path bytes files (
        let cleaned : World × Result Error (Unit {0}) = elim o.1 [
          | ok done ↦ (o.0, ok done)
          | err e ↦ ((call o.0).0, err e)
        ] in
        cleaned)
cleanup_case path bytes files (later, ok tt) h = h
cleanup_case path bytes files (later, err e) (inl (same, _)) =
    inl (call-Keeps later ∙ same, (e, refl))
cleanup_case path bytes files (later, err e) (inr (bad, _)) = cc

pub install_state-Installs :
    (path : FilePath) (bytes : Bytes) (w : World)
    → Installs path bytes w.files (install_state path bytes w)
unfolding install_state
install_state-Installs path bytes w =
    let node : Option Node = some (file 0x180 (bytes ++ b'\n' ∷ [])) in
    cleanup_case path bytes w.files ((calls 6 >> write_node path node) w) (
      look_rule (Installs path bytes w.files) (calls 6) (λ _. write_node path node) w
        (λ _. Unit {0}) (calls-Looks 6 w) (λ later e same. inl (same, (e, refl)))
        (λ later u same _. inr (refl, ap (λ f. update f path node) same)))

pub save_controller_state-Saves :
    (codec : StateCodec) (path : FilePath) (state : ControllerState) (w : World)
    → Saves codec path state w.files (save_controller_state codec path state w)
unfolding save_controller_state
save_controller_state-Saves codec path state w =
    let written = context "serialize rcodex state" (codec.to_vec state) in
    let Q = Saves codec path state w.files in
    look_rule Q call (λ _. lift written >>= install_state path) w (λ _. Unit {0}) (call-Looks w)
      (λ later e same. inl (same, (e, refl)))
      (λ one _ same _.
        look_rule Q (lift written) (install_state path) one (λ bytes. written ≡ ok bytes)
          (lift-Looks written one) (λ later e same'. inl (same' ∙ same, (e, refl)))
          (λ two bytes same' made. elim (install_state-Installs path bytes two) [
            | inl (kept, refused) ↦ inl (kept ∙ same' ∙ same, refused)
            | inr (done, after) ↦ inr (
              bytes,
              context-eq-ok "serialize rcodex state" (codec.to_vec state) made,
              done,
              after
                  ∙ ap (λ f. update f path (some (file 0x180 (bytes ++ b'\n' ∷ []))))
                      (same' ∙ same),
            )
          ]))

load_controller_state-quiet :
    (codec : StateCodec) (path : FilePath) (files : Files) (mode : ℕ) (bytes : Bytes)
    (state : ControllerState)
    → files path ≡ some (file mode bytes)
    → is_open mode ≡ false
    → codec.from_slice bytes ≡ some state
    → load_controller_state codec path (quiet files) ≡ (quiet files, ok state)
unfolding load_controller_state read_state
load_controller_state-quiet codec path files mode bytes state here closed parsed =
    let e : Error = "rcodex state file must not be accessible by group or others" in
    let e' : Error = "parse rcodex state" in
    bind_ok (symlink_metadata path) (load_node codec path) (quiet files) (quiet files) (files path)
      (symlink_metadata-quiet path files)
    ∙ ap (λ n. load_node codec path n (quiet files)) here
    ∙ bind_ok (refuse_if (is_open mode) e) (λ _. read_state codec path) (quiet files) (quiet files)
        tt (ap (λ b. refuse_if b e (quiet files)) closed)
    ∙ bind_ok (read path) (λ b. lift (context e' (codec.from_slice b))) (quiet files) (quiet files)
        bytes (read-quiet path files mode bytes here)
    ∙ ap (λ o. lift (context e' o) (quiet files)) parsed

-- A state that was saved, whatever calls failed before that, is loaded again as long as no call
-- fails: the text of a state must read as the state, with the line end that follows it.
pub save_controller_state-load :
    (codec : StateCodec) (path : FilePath) (state : ControllerState) (w : World) (files : Files)
    → ((bytes : Bytes)
        → codec.to_vec state ≡ some bytes
        → codec.from_slice (bytes ++ b'\n' ∷ []) ≡ some state)
    → save_controller_state codec path state w ≡ (quiet files, ok tt)
    → load_controller_state codec path (quiet files) ≡ (quiet files, ok state)
save_controller_state-load codec path state w files reads saved =
    let after : Saves codec path state w.files (quiet files, ok tt) =
      rw saved at (save_controller_state-Saves codec path state w) in
    elim after [
      | inl (_, (e, bad)) ↦ cc
      | inr (bytes, made, _, written) ↦
          load_controller_state-quiet codec path files 0x180 (bytes ++ b'\n' ∷ []) state
            (ap (λ (f : Files). f path) written
              ∙ ap (λ b. if b then some (file 0x180 (bytes ++ b'\n' ∷ [])) else w.files path)
                  (path_eq_refl path))
            refl (reads bytes made)
    ]
