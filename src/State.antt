-- ===== src/State.antt =====
-- src/state.rs: the file that holds the enrollment. JSON is a parameter.
pub mod Saving
use rcodex.Common.{
  ℕ, ◌+◌, ◌%◌, Bool, not, Option, none, some, [], ◌∷◌, ◌++◌, ◌==◌, ok, err, context, Bytes,
}
use rcodex.Files.{
  FilePath, Node, file, other, World, Action, pure, lift, refuse_if, ◌>>=◌, ◌>>◌, call, calls,
  symlink_metadata, read, write_node,
}
use rcodex.Protocol.{EnrollmentRecord}

pub record ControllerState : Type 0 where
  pub enrollment : EnrollmentRecord

-- `serde_json` on the state.
pub record StateCodec : Type 0 where
  pub to_vec : ControllerState → Option Bytes
  pub from_slice : Bytes → Option ControllerState

-- `permissions().mode() & 0o077` is the remainder by 64.
abbrev pub is_open : ℕ → Bool
is_open mode = not (mode % 64 == 0)

-- `load_controller_state` past the test on the mode.
unfoldable pub read_state : StateCodec → FilePath → Action ControllerState
read_state codec path = do
  bytes ← read path
  lift (context "parse rcodex state" (codec.from_slice bytes))

abbrev pub load_node : StateCodec → FilePath → Option Node → Action ControllerState
load_node codec path none = lift (err "inspect rcodex state file")
load_node codec path (some other) = lift (err "rcodex state path is not a regular file")
load_node codec path (some (file mode bytes)) =
    refuse_if (is_open mode) "rcodex state file must not be accessible by group or others"
    >> read_state codec path

unfoldable pub load_controller_state : StateCodec → FilePath → Action ControllerState
load_controller_state codec path = symlink_metadata path >>= load_node codec path

-- `if result.is_err() { … }`: the temporary file is removed, whether that succeeds or not.
abbrev pub with_cleanup : Action (Unit {0}) → Action (Unit {0})
with_cleanup act w =
    let (later, result) = act w in
    elim result [ ok done ↦ (later, ok done) | err e ↦ ((call later).0, err e) ]

-- The creation, the two writes, the flush and the mode of the temporary file and the rename may fail.
unfoldable pub install_state : FilePath → Bytes → Action (Unit {0})
install_state path bytes =
    with_cleanup (calls 6 >> write_node path (some (file 0x180 (bytes ++ b'\n' ∷ []))))

-- The first call is `create_dir_all`.
unfoldable pub save_controller_state : StateCodec → FilePath → ControllerState → Action (Unit {0})
save_controller_state codec path state = do
  call
  bytes ← lift (context "serialize rcodex state" (codec.to_vec state))
  install_state path bytes
