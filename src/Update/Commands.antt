-- ===== src/Update/Commands.antt =====
-- src/main.rs: `run_update` and `automatic_update`. What other parts of the program answer, the clock,
-- and the check of the GitHub command line are parameters, and so is what other processes do to the
-- files (`meanwhile`) between the two readings of the settings in `automatic_update`.
pub mod Guarded
pub mod Tests
use rcodex.Common.{
  ℕ, Bool, true, false, not, Option, none, some, List, Result, ok, err, Error, context, Text, Bytes,
}
use rcodex.Api.Environment.{RemoteEnvironment, select_environment}
use rcodex.Files.{FilePath, Files, World, Action, pure, lift, refuse_if, ◌>>=◌, ◌>>◌, call}
use rcodex.Update.Installation.{ReleaseAsset, Installation, lock, rollback}
use rcodex.Update.Manifest.{Semver, ReleaseManifest}
use rcodex.Update.Releases.{Repository}
use rcodex.Update.Releases.Search.{target, check, install}
use rcodex.Update.Settings.{UpdateSettings, SettingsCodec, load, save, due}

pub record Updater : Type 1 where
  pub semver : Semver
  pub repository : Repository
  pub codec : SettingsCodec
  pub sha256 : Bytes → Text
  pub os : Text
  pub arch : Text
  pub current : Text
  pub settings_path : FilePath
  pub executable : FilePath
  pub gh_status : Result Error Bool
  pub inspect_stock_codex : Result Error Text
  pub environments : Result Error (List RemoteEnvironment)
  pub meanwhile : Files → Files

pub data UpdateAction : Type 0 where
  check_release install_release enable disable restore_previous : UpdateAction

-- What is printed, without the wording.
pub data Report : Type 0 where
  no_newer : Report
  compatible installed : Text → Report
  automatic : Bool → Report
  restored : Report

module _ (u : Updater) where
  -- `Installation::lock(&std::env::current_exe()?, …)`.
  unfoldable pub lock_current : Action Installation
  lock_current = call >> lock u.executable true

  unfoldable pub enable_updates : UpdateSettings → Action Report
  enable_updates settings = do
    t ← lift (target u.os u.arch)
    success ← lift u.gh_status
    refuse_if (not success) "GitHub CLI must support `gh attestation verify`"
    save u.codec (record settings { enabled = true; last_checked = none }) u.settings_path
    pure (automatic true)

  unfoldable pub disable_updates : UpdateSettings → Action Report
  disable_updates settings = do
    save u.codec (record settings { enabled = false }) u.settings_path
    pure (automatic false)

  -- Disabled first.
  unfoldable pub restore_executable : Installation → UpdateSettings → Action Report
  restore_executable i settings = do
    save u.codec (record settings { enabled = false }) u.settings_path
    rollback i
    pure restored

  unfoldable pub find_update : Text → Text → Action (Option (ReleaseManifest × ReleaseAsset))
  find_update local remote = check u.semver u.repository u.os u.arch u.current local remote

  unfoldable pub install_found : ReleaseManifest → ReleaseAsset → Installation → Action (Unit {0})
  install_found m a i = install u.sha256 u.repository m a i

  -- After the check of the installation or the installation itself.
  unfoldable pub report_found : Bool → Option (ReleaseManifest × ReleaseAsset) → Action Report
  report_found installing none = pure no_newer
  report_found false (some (m, a)) = pure (compatible m.version)
  report_found true (some (m, a)) = do
    i ← lock_current
    install_found m a i
    pure (installed m.version)

  unfoldable pub check_update : Bool → Option Text → Action Report
  check_update installing device = do
    local ← lift u.inspect_stock_codex
    environments ← lift u.environments
    remote ← lift (select_environment environments device)
    version ← lift (context "remote Codex version is unknown" remote.app_server_version)
    found ← find_update local version
    report_found installing found

  -- The three actions under the lock.
  unfoldable pub configure : (Installation → UpdateSettings → Action Report) → Action Report
  configure act = do i ← lock_current; settings ← load u.codec u.settings_path; act i settings

  unfoldable pub run_update : UpdateAction → Option Text → Action Report
  run_update enable device = configure (λ i settings. enable_updates settings)
  run_update disable device = configure (λ i settings. disable_updates settings)
  run_update restore_previous device = configure restore_executable
  run_update check_release device = check_update false device
  run_update install_release device = check_update true device

  -- The end of `automatic_update`.
  unfoldable pub install_automatically :
      Installation → Option (ReleaseManifest × ReleaseAsset) → Action Bool
  install_automatically i none = pure false
  install_automatically i (some (m, a)) = install_found m a i >> pure true

  -- `automatic_update` past its tests.
  unfoldable pub update_now :
      (checked : ℕ) (local remote : Text) → Installation → UpdateSettings → Action Bool
  update_now checked local remote i settings = do
    save u.codec (record settings { last_checked = some checked }) u.settings_path
    found ← find_update local remote
    install_automatically i found

  -- With the settings that were read again, given two readings of the clock.
  unfoldable pub update_if_due :
      (again checked : ℕ) (local remote : Text) → Installation → UpdateSettings → Action Bool
  update_if_due again checked local remote i settings = elim (due settings again) [
    | false ↦ pure false
    | true ↦ update_now checked local remote i settings
  ]

  -- `automatic_update` from the lock on.
  unfoldable pub update_locked : (again checked : ℕ) (local remote : Text) → Action Bool
  update_locked again checked local remote w =
      let (later, locked) = lock u.executable true w in
      elim locked [
        | err e ↦ (later, ok false)
        | ok i ↦ (load u.codec u.settings_path >>= update_if_due again checked local remote i) later
      ]

  -- Another process may act between the first reading of the settings and the lock.
  abbrev pub others_act : Action (Unit {0})
  others_act w = (record w { files = u.meanwhile w.files }, ok tt)

  unfoldable pub automatic_update : (now again checked : ℕ) (local remote : Text) → Action Bool
  automatic_update now again checked local remote = do
    settings ← load u.codec u.settings_path
    elim (due settings now) [
      | false ↦ pure false
      | true ↦ others_act >> (call >> update_locked again checked local remote)
    ]
