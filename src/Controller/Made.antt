-- ===== src/Controller/Made.antt =====
-- What the block of `enroll` of src/controller.rs makes, and what comes before the key.
use rcodex.Common.{
  ◌≡◌, refl, ◌⊎◌, inl, inr, ◌&&◌, some, [], ◌∷◌, ◌++◌, Result, ok, err, Error, is_ok, Bytes,
}
use mathlib.Core.Path.{subst}
use rcodex.Auth.{CodexAuth}
use rcodex.Files.{FilePath, file, Files, update, World, pure, lift, refuse_if, ◌>>◌, call}
use rcodex.Files.Rules.{Looks, look_rule, lift-Looks, chain_rule, call-Looks}
use rcodex.Relay.{EnrollmentStartResponse, RemoteControlSession}
use rcodex.Update.Writing.{refuse_if-Looks}
use rcodex.State.{ControllerState, StateCodec, save_controller_state}
use rcodex.State.Saving.{Saves, save_controller_state-Saves}
use rcodex.Controller.{
  DeviceKeyIdentity, Services, enrollment_of, begin_enrollment, finish_enrollment,
}
use rcodex.Controller.Answers.{
  IsAlive, IsStarted, finish_enrollment-IsAlive, begin_enrollment-IsStarted,
}
use rcodex.Controller.Enrollment.{is_there, exists, before_key, with_key}

-- The state that an enrollment makes, and the file with it.
abbrev pub state_of : EnrollmentStartResponse → DeviceKeyIdentity → ControllerState
state_of start key = record { enrollment = enrollment_of start key }

abbrev pub with_state : FilePath → Bytes → Files → Files
with_state path bytes files = update files path (some (file 0x180 (bytes ++ b'\n' ∷ [])))

module _ (services : Services) (codec : StateCodec) (path : FilePath) where
  -- Refused with the files as they were, or a session and the state in its file.
  abbrev pub IsMade :
      EnrollmentStartResponse
      → DeviceKeyIdentity
      → Files
      → World × Result Error (ControllerState × RemoteControlSession)
      → Type 0
  IsMade start key files (later, result) =
      ((later.files ≡ files) × ((e : Error) × (result ≡ err e)))
      ⊎ ((session : RemoteControlSession) × (bytes : Bytes) × (result
            ≡ ok (state_of start key, session))
          × IsAlive services (enrollment_of start key) session
          × (codec.to_vec (state_of start key) ≡ some bytes)
          × (later.files ≡ with_state path bytes files))

  save_case :
      (start : EnrollmentStartResponse) (key : DeviceKeyIdentity) (files : Files)
      (session : RemoteControlSession) (o : World × Result Error (Unit {0}))
      → IsAlive services (enrollment_of start key) session
      → Saves codec path (state_of start key) files o
      → IsMade start key files (
          let made : World × Result Error (ControllerState × RemoteControlSession) = elim o.1 [
            | err e ↦ (o.0, err e)
            | ok done ↦ pure (state_of start key, session) o.0
          ] in
          made)
  save_case start key files session (later, err e) alive (inl (same, _)) = inl (same, (e, refl))
  save_case start key files session (later, ok tt) alive (inl (same, (e, bad))) = cc
  save_case start key files session (later, err e) alive (inr (bytes, made, bad, after)) = cc
  save_case start key files session (later, ok tt) alive (inr (bytes, made, _, after)) =
      inr (session, bytes, refl, alive, made, after)

  pub with_key-IsMade :
      (auth : CodexAuth) (start : EnrollmentStartResponse) (key : DeviceKeyIdentity) (w : World)
      → IsMade start key w.files (with_key services codec path auth start key w)
  unfolding with_key
  with_key-IsMade auth start key w =
      let finished = finish_enrollment services auth start key in
      look_rule (IsMade start key w.files) (lift finished)
        (λ session.
          save_controller_state codec path (state_of start key)
          >> pure (state_of start key, session))
        w (λ session. finished ≡ ok session) (lift-Looks finished w)
        (λ later e same. inl (same, (e, refl)))
        (λ later session same good.
          let alive = finish_enrollment-IsAlive services auth start key session good in
          let act =
            save_controller_state codec path (state_of start key)
            >> pure (state_of start key, session) in
          subst (λ files. IsMade start key files (act later)) same
            (save_case start key later.files session
              (save_controller_state codec path (state_of start key) later) alive
              (save_controller_state-Saves codec path (state_of start key) later)))

  exists-Looks : (w : World) → Looks w.files (λ _. Unit {0}) (exists path w)
  unfolding exists
  exists-Looks w =
      let (later, result) = call w in
      let (kept, _) = call-Looks w in
      (kept, inr (is_ok result && is_there (later.files path), refl, tt))

  pub before_key-Looks :
      (w : World)
      → Looks w.files
          (λ started. IsStarted services started.0 started.1)
          (before_key services codec path w)
  unfolding before_key
  before_key-Looks w =
      let Q =
        λ (started : CodexAuth × EnrollmentStartResponse). IsStarted services started.0 started.1 in
      let e : Error =
        "rcodex is already enrolled; remove its state explicitly before re-enrolling" in
      let begun = begin_enrollment services in
      chain_rule (exists path) (λ there. refuse_if there e >> lift begun) w (λ _. Unit {0}) Q
        (exists-Looks w)
        (λ later there _.
          chain_rule (refuse_if there e) (λ _. lift begun) later (λ _. Unit {0}) Q
            (refuse_if-Looks later.files (Unit {0}) there e later refl (λ _. tt))
            (λ last _ _. begun_case last begun (λ a s. begin_enrollment-IsStarted services a s)))
    where
      begun_case :
          (last : World) (o : Result Error (CodexAuth × EnrollmentStartResponse))
          → ((a : CodexAuth) (s : EnrollmentStartResponse) → o ≡ ok (a, s) → IsStarted services a s)
          → Looks last.files (λ started. IsStarted services started.0 started.1) (lift o last)
      begun_case last (err e) h = (refl, inl (e, refl))
      begun_case last (ok (a, s)) h = (refl, inr ((a, s), refl, h a s refl))
