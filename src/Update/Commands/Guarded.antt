-- ===== src/Update/Commands/Guarded.antt =====
-- What `automatic_update` of src/main.rs can do to the executable.
use rcodex.Common.{
  ℕ, ◌≡◌, refl, sym, ap, ◌∙◌, ◌⊎◌, inl, inr, Bool, true, false, Option, none, some, Result, ok, err,
  Error, Text, Bytes, text,
}
use rcodex.Files.{
  FilePath, Node, file, with_extension, World, Action, pure, lift, ◌>>=◌, ◌>>◌, call, path_eq,
  bytes_of,
}
use rcodex.Files.Rules.{
  Looks, bind_rule, Spares, look_rule, call-Looks, lift-Looks, chain_rule, Looks-weaken,
}
use rcodex.Update.Installation.{ReleaseAsset, Installation, backup_path, lock}
use rcodex.Update.Installation.Locking.{Locks, lock-Locks}
use rcodex.Update.Manifest.{ReleaseManifest}
use rcodex.Update.Releases.Search.{target, check, find}
use rcodex.Update.Releases.Offers.{MayBe}
use rcodex.Update.Releases.Found.{IsFound, find-IsFound}
use rcodex.Update.Releases.Installing.{IsBinary, install-Installs, save-Spares}
use rcodex.Update.Settings.{UpdateSettings, load, save, due}
use rcodex.Update.Settings.Loading.{IsLoaded, load-Looks}
use rcodex.Update.Commands.{
  Updater, find_update, install_found, install_automatically, update_now, update_if_due,
  update_locked, others_act, automatic_update,
}

module _ (u : Updater) (local remote : Text) where
  -- An update that the search found, for the system that the program was built for.
  abbrev pub IsAvailable : ReleaseManifest × ReleaseAsset → Type 0
  IsAvailable found =
      (t : Text) × (target u.os u.arch ≡ ok t)
      × IsFound u.semver u.repository u.current local remote t found

  find_update-Looks : (w : World) → Looks w.files (MayBe IsAvailable) (find_update u local remote w)
  unfolding find_update check
  find_update-Looks w =
      chain_rule (lift (target u.os u.arch))
        (λ t. find u.semver u.repository u.current local remote t) w
        (λ t. target u.os u.arch ≡ ok t) (MayBe IsAvailable) (lift-Looks (target u.os u.arch) w)
        (λ later t e.
          Looks-weaken later.files (MayBe (IsFound u.semver u.repository u.current local remote t))
            (MayBe IsAvailable) (find u.semver u.repository u.current local remote t later)
            (find-IsFound u.semver u.repository u.current local remote t later)
            (λ o.
              elim o
                as (λ k.
                  MayBe (IsFound u.semver u.repository u.current local remote t) k
                  → MayBe IsAvailable k) [ none ↦ λ _. tt | some found ↦ λ h. (t, e, h) ]))

  -- The executable is as it was, or it holds the signed bytes of an update that was found, and the
  -- condition is met.
  abbrev pub Updates : {A : Type 0} → Type 0 → Option Node → World × Result Error A → Type 0
  Updates G old o =
      (o.0.files u.executable ≡ old)
      ⊎ (G
          × ((found : ReleaseManifest × ReleaseAsset) × (bytes : Bytes) × IsAvailable found
              × IsBinary u.sha256 u.repository found bytes
              × (o.0.files u.executable ≡ some (file 0x1ed bytes))))

  -- The lock that `lock` gives.
  abbrev pub own : Installation
  own = record { executable = u.executable; exclusive = true }

  -- A first step that spares the executable.
  spare_step :
      {A B : Type 0} (G : Type 0) (act : Action A) (next : A → Action B) (w : World)
      (old : Option Node)
      → Spares u.executable w (act w)
      → w.files u.executable ≡ old
      → ((later : World) (a : A) → later.files u.executable ≡ old → Updates G old (next a later))
      → Updates G old ((act >>= next) w)
  spare_step G act next w old spared kept rest =
      bind_rule (Updates G old) act next w
        (λ later e same. inl (ap (λ o. o.0.files u.executable) (sym same) ∙ spared ∙ kept))
        (λ later a same. rest later a (ap (λ o. o.0.files u.executable) (sym same) ∙ spared ∙ kept))

  module _ (G : Type 0) (g : G) (old : Option Node)
      (apart : path_eq (backup_path own) u.executable ≡ false) where
    install_automatically-Updates :
        (o : Option (ReleaseManifest × ReleaseAsset)) (w : World)
        → w.files u.executable ≡ old
        → MayBe IsAvailable o
        → Updates G old (install_automatically u own o w)
    unfolding install_automatically install_found
    install_automatically-Updates none w kept h = inl kept
    install_automatically-Updates (some (m, a)) w kept available =
        let act = install_found u m a own in
        let installed : Updates G old (act w) =
          elim (install-Installs u.sha256 u.repository m a own w apart) [
            | inl same ↦ inl (same ∙ kept)
            | inr (bytes, binary, written) ↦ inr (g, ((m, a), bytes, available, binary, written))
          ] in
        bind_rule (Updates G old) act (λ _. pure true) w (λ later e same. rw same at installed)
          (λ later _ same. rw same at installed)

    update_now-Updates :
        (checked : ℕ) (settings : UpdateSettings) (w : World)
        → path_eq u.settings_path u.executable ≡ false
        → w.files u.executable ≡ old
        → Updates G old (update_now u checked local remote own settings w)
    unfolding update_now
    update_now-Updates checked settings w other kept =
        let noted : UpdateSettings = record settings { last_checked = some checked } in
        spare_step G (save u.codec noted u.settings_path)
          (λ _. find_update u local remote >>= install_automatically u own) w old
          (save-Spares u.codec noted u.settings_path u.executable w other) kept
          (λ one _ kept'.
            look_rule (Updates G old) (find_update u local remote) (install_automatically u own) one
              (MayBe IsAvailable) (find_update-Looks one)
              (λ later e same. inl (ap (λ f. f u.executable) same ∙ kept'))
              (λ two o same available.
                install_automatically-Updates o two (ap (λ f. f u.executable) same ∙ kept')
                  available))

  -- The settings of the file ask for an update at this time.
  abbrev pub IsDue : (FilePath → Option Node) → ℕ → Type 0
  IsDue files now =
      (settings : UpdateSettings) × (bytes : Bytes) × (bytes_of (files u.settings_path) ≡ ok bytes)
      × (u.codec.from_slice bytes ≡ some settings)
      × (due settings now ≡ true)

  loaded-IsDue :
      (files : FilePath → Option Node) (settings : UpdateSettings) (now : ℕ)
      → IsLoaded u.codec u.settings_path files settings
      → due settings now ≡ true
      → IsDue files now
  loaded-IsDue files settings now (inl none_read) e = let impossible = rw none_read at e in cc
  loaded-IsDue files settings now (inr (bytes, here, parsed)) e = (settings, bytes, here, parsed, e)

  -- The four paths are apart.
  pub record HasPaths : Type 0 where
    pub lock_executable :
        path_eq (with_extension u.executable (text "update-lock")) u.executable ≡ false
    pub lock_settings :
        path_eq (with_extension u.executable (text "update-lock")) u.settings_path ≡ false
    pub settings_executable : path_eq u.settings_path u.executable ≡ false
    pub backup_executable : path_eq (backup_path own) u.executable ≡ false

  -- The settings asked for an update at both readings, of these files and of those.
  abbrev pub IsDueTwice : (before files : FilePath → Option Node) → ℕ → ℕ → Type 0
  IsDueTwice before files now again = IsDue before now × IsDue files again

  -- What a test of the settings leads to.
  due_case :
      (Q : World × Result Error Bool → Type 0) (b : Bool) (act : Action Bool) (w : World)
      → Q (w, ok false)
      → (b ≡ true → Q (act w))
      → Q (let chosen : Action Bool = elim b [ false ↦ pure false | true ↦ act ] in chosen w)
  due_case Q true act w kept h = h refl
  due_case Q false act w kept h = kept

  module _ (paths : HasPaths) (before files : FilePath → Option Node) (now again checked : ℕ) where
    reload-Updates :
        (w : World)
        → IsDue before now
        → w.files u.executable ≡ files u.executable
        → w.files u.settings_path ≡ files u.settings_path
        → Updates
            (IsDueTwice before files now again)
            (files u.executable)
            ((load u.codec u.settings_path >>= update_if_due u again checked local remote own) w)
    unfolding update_if_due
    reload-Updates w first kept here =
        look_rule (Updates (IsDueTwice before files now again) (files u.executable))
          (load u.codec u.settings_path) (update_if_due u again checked local remote own) w
          (IsLoaded u.codec u.settings_path w.files) (load-Looks u.codec u.settings_path w)
          (λ later e same. inl (ap (λ f. f u.executable) same ∙ kept))
          (λ later settings same loaded.
            let kept' = ap (λ f. f u.executable) same ∙ kept in
            due_case (Updates (IsDueTwice before files now again) (files u.executable))
              (due settings again) (update_now u checked local remote own settings) later
              (inl kept')
              (λ e.
                let (s, bytes, read, parsed, is_due) =
                  loaded-IsDue w.files settings again loaded e in
                let second : IsDue files again = (s, bytes, rw here at read, parsed, is_due) in
                update_now-Updates (IsDueTwice before files now again) (first, second)
                  (files u.executable) paths.backup_executable checked settings later
                  paths.settings_executable kept'))

    locked_case :
        (o : World × Result Error Installation)
        → IsDue before now
        → Locks u.executable true u.executable (files u.executable) o
        → Locks u.executable true u.settings_path (files u.settings_path) o
        → Updates (IsDueTwice before files now again) (files u.executable) (
            let chosen : World × Result Error Bool = elim o.1 [
              | err e ↦ (o.0, ok false)
              | ok i ↦
                  (load u.codec u.settings_path >>= update_if_due u again checked local remote i)
                    o.0
            ] in
            chosen)
    locked_case (later, err e) first (kept, _) other = inl kept
    locked_case (later, ok i) first (kept, same) (here, _) =
        rw (same i refl) (reload-Updates later first kept here)

    update_locked-Updates :
        (w : World)
        → IsDue before now
        → w.files ≡ files
        → Updates
            (IsDueTwice before files now again)
            (files u.executable)
            (update_locked u again checked local remote w)
    unfolding update_locked
    update_locked-Updates w first kept =
        let one = lock-Locks u.executable u.executable true w paths.lock_executable in
        let two = lock-Locks u.executable u.settings_path true w paths.lock_settings in
        locked_case (lock u.executable true w) first (one.0 ∙ ap (λ f. f u.executable) kept, one.1)
          (two.0 ∙ ap (λ f. f u.settings_path) kept, two.1)

  -- Whichever calls of the system fail, and whatever other processes do to the files between the two
  -- readings of the settings, an automatic update leaves the executable as it was or as they left it,
  -- or with the whole of an asset: one that the search found, of the size and digest of its entry,
  -- and whose bytes were signed for the tag of its release. It writes the executable only if the
  -- settings in their file asked for an update before, and those in the file as the other processes
  -- left it did so again. The settings, the lock, the backup and the executable have paths of their
  -- own.
  pub automatic_update-Updates :
      (now again checked : ℕ) (w : World)
      → HasPaths
      → (let o = automatic_update u now again checked local remote w in
          (o.0.files u.executable ≡ w.files u.executable)
          ⊎ Updates
              (IsDueTwice w.files (u.meanwhile w.files) now again)
              (u.meanwhile w.files u.executable)
              o)
  unfolding automatic_update
  automatic_update-Updates now again checked w paths =
      let new = u.meanwhile w.files in
      let G = IsDueTwice w.files new now again in
      let Q : World × Result Error Bool → Type 0 =
        λ o. (o.0.files u.executable ≡ w.files u.executable) ⊎ Updates G (new u.executable) o in
      let locked = update_locked u again checked local remote in
      look_rule Q (load u.codec u.settings_path)
        (λ settings. elim (due settings now) [
          | false ↦ pure false
          | true ↦ others_act u >> (call >> locked)
        ])
        w (IsLoaded u.codec u.settings_path w.files) (load-Looks u.codec u.settings_path w)
        (λ later e same. inl (ap (λ f. f u.executable) same))
        (λ later settings same loaded.
          due_case Q (due settings now) (others_act u >> (call >> locked)) later
            (inl (ap (λ f. f u.executable) same))
            (λ e.
              let one : World = record later { files = u.meanwhile later.files } in
              let left = ap u.meanwhile same in
              look_rule Q call (λ _. locked) one (λ _. Unit {0}) (call-Looks one)
                (λ last e' same'. inr (inl (ap (λ f. f u.executable) (same' ∙ left))))
                (λ last _ same' _. inr (
                  update_locked-Updates paths w.files new now again checked last
                    (loaded-IsDue w.files settings now loaded e) (same' ∙ left)))))
