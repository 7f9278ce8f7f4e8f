-- ===== src/Controller/Enrollment.antt =====
-- src/controller.rs: `enroll` and `ensure_session`, which read and write the state file and the keys.
use rcodex.Common.{
  Bool, true, false, ◌&&◌, Option, none, some, List, ◌∷◌, if◌then◌else◌, Result, ok, err, Error,
  is_ok, Text,
}
use rcodex.Auth.{CodexAuth}
use rcodex.Files.{FilePath, Node, World, Action, pure, lift, refuse_if, ◌>>=◌, ◌>>◌, call}
use rcodex.Relay.{EnrollmentStartResponse, RemoteControlSession}
use rcodex.State.{ControllerState, StateCodec, load_controller_state, save_controller_state}
use rcodex.Controller.{
  DeviceKeyIdentity, Services, enrollment_of, begin_enrollment, finish_enrollment, refresh_session,
}

-- The files, and the identifiers of the keys in the key store.
pub record Device : Type 0 where
  pub world : World
  pub keys : List Text

abbrev pub is_there : Option Node → Bool
is_there none = false
is_there (some node) = true

-- `Path::exists`, which takes a failed call for a missing file. A link is taken to lead somewhere.
unfoldable pub exists : FilePath → Action Bool
exists p w = let (later, result) = call w in (later, ok (is_ok result && is_there (later.files p)))

module _ (services : Services) (codec : StateCodec) (state_path : FilePath) where
  -- `enroll` before the key.
  unfoldable pub before_key : Action (CodexAuth × EnrollmentStartResponse)
  before_key = do
    there ← exists state_path
    refuse_if there "rcodex is already enrolled; remove its state explicitly before re-enrolling"
    lift (begin_enrollment services)

  -- The asynchronous block of `enroll`.
  unfoldable pub with_key :
      CodexAuth
      → EnrollmentStartResponse
      → DeviceKeyIdentity
      → Action (ControllerState × RemoteControlSession)
  with_key auth start key = do
    session ← lift (finish_enrollment services auth start key)
    save_controller_state codec state_path (record { enrollment = enrollment_of start key })
    pure (record { enrollment = enrollment_of start key }, session)

  -- The keys after the key was deleted, or could not be.
  abbrev pub keys_after : Text → List Text → List Text
  keys_after key_id keys =
      if is_ok (services.delete_os_protected_device_key key_id) then keys else key_id ∷ keys

  unfoldable pub with_new_key :
      CodexAuth
      → EnrollmentStartResponse
      → Device
      → Device × Result Error (ControllerState × RemoteControlSession)
  with_new_key auth start d = elim services.create_os_protected_device_key [
    | err e ↦ (d, err e)
    | ok key ↦
        let (later, result) = with_key auth start key d.world in
        elim result [
          | ok made ↦ (record { world = later; keys = key.key_id ∷ d.keys }, ok made)
          | err e ↦ (record { world = later; keys = keys_after key.key_id d.keys }, err e)
        ]
  ]

  unfoldable pub enroll : Device → Device × Result Error (ControllerState × RemoteControlSession)
  enroll d =
      let (later, result) = before_key d.world in
      elim result [
        | err e ↦ (record d { world = later }, err e)
        | ok (auth, start) ↦ with_new_key auth start (record d { world = later })
      ]

  -- `ensure_session` where there is a state.
  unfoldable pub resume : Action (ControllerState × RemoteControlSession)
  resume = do
    state ← load_controller_state codec state_path
    session ← lift (refresh_session services state.enrollment)
    pure (state, session)

  unfoldable pub ensure_session :
      Device → Device × Result Error (ControllerState × RemoteControlSession)
  ensure_session d =
      let (later, there) = exists state_path d.world in
      elim there [
        | err e ↦ (record d { world = later }, err e)
        | ok present ↦
            if present
            then (let (last, result) = resume later in (record d { world = last }, result))
            else enroll (record d { world = later })
      ]
