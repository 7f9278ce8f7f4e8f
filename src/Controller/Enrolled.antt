-- ===== src/Controller/Enrolled.antt =====
-- What `enroll` of src/controller.rs leaves, however it ends.
use rcodex.Common.{
  ◌≡◌, refl, ap, ◌∙◌, ◌⊎◌, inl, inr, false, some, ◌∷◌, if◌then◌else◌, Bool-cases, Result, ok, err,
  Error, is_ok, Bytes,
}
use mathlib.Core.Path.{subst}
use rcodex.Auth.{CodexAuth}
use rcodex.Files.{FilePath, World}
use rcodex.Files.Rules.{Looks}
use rcodex.Relay.{EnrollmentStartResponse, RemoteControlSession}
use rcodex.State.{ControllerState, StateCodec}
use rcodex.Controller.{DeviceKeyIdentity, Services}
use rcodex.Controller.Answers.{IsAlive, IsStarted}
use rcodex.Controller.Enrollment.{Device, before_key, with_key, keys_after, with_new_key, enroll}
use rcodex.Controller.Made.{state_of, with_state, IsMade, with_key-IsMade, before_key-Looks}

module _ (services : Services) (codec : StateCodec) (path : FilePath) where
  -- What an enrollment leaves that made it to the end.
  pub record IsEnrolled (d later : Device) (state : ControllerState)
      (session : RemoteControlSession) : Type 0 where
    pub credentials : CodexAuth
    pub start : EnrollmentStartResponse
    pub key : DeviceKeyIdentity
    pub bytes : Bytes
    pub started : IsStarted services credentials start
    pub created : services.create_os_protected_device_key ≡ ok key
    pub kept : later.keys ≡ key.key_id ∷ d.keys
    pub is_state : state ≡ state_of start key
    pub serialized : codec.to_vec state ≡ some bytes
    pub saved : later.world.files ≡ with_state path bytes d.world.files
    pub alive : IsAlive services state.enrollment session

  -- A key that was created, and could not be deleted.
  abbrev pub IsLeft : Device → Device → Type 0
  IsLeft d later =
      (key : DeviceKeyIdentity) × (services.create_os_protected_device_key ≡ ok key)
      × (is_ok (services.delete_os_protected_device_key key.key_id) ≡ false)
      × (later.keys ≡ key.key_id ∷ d.keys)

  abbrev pub Enrolls :
      Device → Device × Result Error (ControllerState × RemoteControlSession) → Type 0
  Enrolls d (later, result) =
      ((later.world.files ≡ d.world.files)
        × ((e : Error) × (result ≡ err e))
        × ((later.keys ≡ d.keys) ⊎ IsLeft d later))
      ⊎ ((state : ControllerState) × (session : RemoteControlSession) × (result
            ≡ ok (state, session))
          × IsEnrolled d later state session)

  -- After the key was deleted, or could not be.
  created-IsLeft :
      (d later : Device) (key : DeviceKeyIdentity)
      → services.create_os_protected_device_key ≡ ok key
      → later.keys ≡ keys_after services codec path key.key_id d.keys
      → (later.keys ≡ d.keys) ⊎ IsLeft d later
  created-IsLeft d later key created kept =
      elim (Bool-cases (is_ok (services.delete_os_protected_device_key key.key_id))) [
        | inl gone ↦ inl (kept ∙ ap (λ b. if b then d.keys else key.key_id ∷ d.keys) gone)
        | inr left ↦
            inr
              (key, created, left, kept ∙ ap (λ b. if b then d.keys else key.key_id ∷ d.keys) left)
      ]

  -- After the block of `enroll`.
  made_case :
      (d : Device) (auth : CodexAuth) (start : EnrollmentStartResponse) (key : DeviceKeyIdentity)
      (o : World × Result Error (ControllerState × RemoteControlSession))
      → IsStarted services auth start
      → services.create_os_protected_device_key ≡ ok key
      → IsMade services codec path start key d.world.files o
      → Enrolls d (
          let ended : Device × Result Error (ControllerState × RemoteControlSession) = elim o.1 [
            | ok made ↦ (record { world = o.0; keys = key.key_id ∷ d.keys }, ok made)
            | err e ↦ (
              record { world = o.0; keys = keys_after services codec path key.key_id d.keys },
              err e,
            )
          ] in
          ended)
  made_case d auth start key (later, err e) started created (inl (same, _)) =
      let last : Device = record {
        world = later;
        keys = keys_after services codec path key.key_id d.keys;
      } in
      inl (same, (e, refl), created-IsLeft d last key created refl)
  made_case d auth start key (later, ok made) started created (inl (same, (e, bad))) = cc
  made_case d auth start key (later, err e) started created (inr (session, bytes, bad, _, _, _)) =
      cc
  made_case d auth start key (later, ok made) started created
        (inr (session, bytes, same, alive, written, after)) =
      inr (
        state_of start key,
        session,
        same,
        record {
          credentials = auth;
          start = start;
          key = key;
          bytes = bytes;
          started = started;
          created = created;
          kept = refl;
          is_state = refl;
          serialized = written;
          saved = after;
          alive = alive;
        },
      )

  with_new_key-Enrolls :
      (d : Device) (auth : CodexAuth) (start : EnrollmentStartResponse)
      → IsStarted services auth start
      → Enrolls d (with_new_key services codec path auth start d)
  unfolding with_new_key
  with_new_key-Enrolls d auth start started = new_case services.create_os_protected_device_key refl
    where
      new_case :
          (o : Result Error DeviceKeyIdentity)
          → services.create_os_protected_device_key ≡ o
          → Enrolls d (
              let ended : Device × Result Error (ControllerState × RemoteControlSession) = elim o [
                | err e ↦ (d, err e)
                | ok key ↦
                    let (later, result) = with_key services codec path auth start key d.world in
                    elim result [
                      | ok made ↦ (record { world = later; keys = key.key_id ∷ d.keys }, ok made)
                      | err e ↦ (
                        record {
                          world = later;
                          keys = keys_after services codec path key.key_id d.keys;
                        },
                        err e,
                      )
                    ]
              ] in
              ended)
      new_case (err e) created = inl (refl, (e, refl), inl refl)
      new_case (ok key) created =
          made_case d auth start key (with_key services codec path auth start key d.world) started
            created (with_key-IsMade services codec path auth start key d.world)

  -- After the tests that come before the key.
  begun_enroll :
      (d : Device) (o : World × Result Error (CodexAuth × EnrollmentStartResponse))
      → Looks d.world.files (λ started. IsStarted services started.0 started.1) o
      → Enrolls d (
          let ended : Device × Result Error (ControllerState × RemoteControlSession) = elim o.1 [
            | err e ↦ (record d { world = o.0 }, err e)
            | ok (auth, start) ↦
                with_new_key services codec path auth start (record d { world = o.0 })
          ] in
          ended)
  begun_enroll d (later, err e) (kept, _) = inl (kept, (e, refl), inl refl)
  begun_enroll d (later, ok started) (kept, inl (e, bad)) = cc
  begun_enroll d (later, ok (auth, start)) (kept, inr ((a, s), same, begun)) =
      let there : Device = record d { world = later } in
      let same_auth : a ≡ auth = cc in
      let same_start : s ≡ start = cc in
      let good =
        subst (λ x. IsStarted services x start) same_auth
          (subst (IsStarted services a) same_start begun) in
      elim (with_new_key-Enrolls there auth start good) [
        | inl (unchanged, refused, left) ↦ inl (unchanged ∙ kept, refused, left)
        | inr (state, session, made, h) ↦ inr (
          state,
          session,
          made,
          record {
            credentials = h.credentials;
            start = h.start;
            key = h.key;
            bytes = h.bytes;
            started = h.started;
            created = h.created;
            kept = h.kept;
            is_state = h.is_state;
            serialized = h.serialized;
            saved = h.saved ∙ ap (with_state path h.bytes) kept;
            alive = h.alive;
          },
        )
      ]

  -- An enrollment that fails changes no file and leaves no new key, unless the key could not be
  -- deleted. One that succeeds has started for the account of the credentials and before its
  -- challenge expired; it leaves the new key, and the state with the record of this key in its file,
  -- and its session is of this enrollment, with the one scope, and has not expired.
  pub enroll-Enrolls : (d : Device) → Enrolls d (enroll services codec path d)
  unfolding enroll
  enroll-Enrolls d =
      begun_enroll d (before_key services codec path d.world)
        (before_key-Looks services codec path d.world)
