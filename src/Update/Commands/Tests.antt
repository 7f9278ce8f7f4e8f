-- ===== src/Update/Commands/Tests.antt =====
-- Runs of the search for releases of src/update.rs, and of the commands of src/main.rs.
use rcodex.Common.{
  ℕ, ◌≡◌, refl, ◌⊎◌, ◌↔◌, Bool, true, false, not, Option, none, some, List, [], ◌∷◌, arith, ltb,
  ◌==◌, if◌then◌else◌, replicate, is_empty, any, Result, ok, err, Error, bail_if, Text, Bytes, text,
  text_eq, str_len, is_whitespace, is_ascii_digit, is_ascii_uppercase, trim_start, trim_end, trim,
  strip_prefix, len_utf8,
}
use rcodex.Update.Commands.{
  Updater, find_update, install_found, install_automatically, update_now, update_if_due,
  update_locked, automatic_update,
}
use rcodex.Update.Settings.{UpdateSettings, SettingsCodec, metadata_len, load_existing, load, save}
use rcodex.Update.Releases.Search.{
  verify_bytes, install, offer, first_offer, find_from, find, target, check,
}
use rcodex.Update.Releases.{
  GithubRelease, Repository, collect, download, kept_version, retain, insert_release, sort_releases,
  choose,
}
use rcodex.Update.Installation.{ReleaseAsset, open_lock, lock, swap, swap_checked, replace}
use rcodex.Update.Writing.{reject_symlink, is_file, regular_file, atomic_write}
use rcodex.Files.{
  FilePath, file, Files, path_eq, call_with, call, calls, symlink_metadata, read, ◌>>◌, update,
}
use rcodex.Files.Rules.{Looks}
use rcodex.Files.Quiet.{quiet}
use rcodex.Update.Manifest.{
  Semver, Ordering, less, equal, greater, ReleaseManifest, is_bad_asset, validate_assets,
  stable_version, all_stable, validate, select_asset, select, parse_codex_version,
}
use rcodex.Update.Manifest.Validity.{IsValid, validate-IsValid}
use rcodex.Update.Manifest.Choice.{IsOffered, select-IsOffered}
use rcodex.Update.Releases.Downloads.{IsDownload, download-IsDownload}
use rcodex.Update.Releases.Offers.{MayBe}
use rcodex.Update.Releases.Found.{IsFound, find-IsFound}
use rcodex.Update.Settings.Saving.{save-load}
use rcodex.Update.Commands.Guarded.{Updates, HasPaths, IsDueTwice, automatic_update-Updates}

-- The versions of the tests are texts in the order of their code points.
abbrev compare_texts : Text → Text → Ordering
compare_texts [] [] = equal
compare_texts [] (d ∷ t) = less
compare_texts (c ∷ s) [] = greater
compare_texts (c ∷ s) (d ∷ t) =
    let rest = compare_texts s t in if ltb c d then less else if ltb d c then greater else rest

abbrev semver : Semver
semver = record {
  Version = Text;
  parse = λ s. if is_empty s then none else some s;
  pre_is_empty = λ v. not (any (λ c. c == 45) v);
  build_is_empty = λ v. not (any (λ c. c == 43) v);
  cmp = compare_texts;
}

abbrev arm : Text
arm = text "aarch64-apple-darwin"

abbrev asset : ReleaseAsset
asset = record {
  name = text "rcodex-2.0.0-aarch64-apple-darwin";
  target = arm;
  sha256 = replicate 64 97;
  size = 3;
}

abbrev manifest : ReleaseManifest
manifest = record {
  schema_version = 1;
  version = text "2.0.0";
  codex_versions = text "0.9.0" ∷ [];
  assets = asset ∷ [];
}

validate_run : validate semver manifest ≡ ok tt
unfolding validate stable_version all_stable validate_assets is_bad_asset text text_eq str_len
    len_utf8 is_ascii_digit is_ascii_uppercase
validate_run = refl

validate-IsValid_example : (validate semver manifest ≡ ok tt) ↔ IsValid semver manifest
validate-IsValid_example = validate-IsValid semver manifest

select_run :
    select semver manifest (text "1.0.0") (text "0.9.0") (text "0.9.0") arm ≡ ok (some asset)
unfolding select select_asset validate stable_version all_stable validate_assets is_bad_asset text
    text_eq str_len len_utf8 is_ascii_digit is_ascii_uppercase
select_run = refl

select_is_not_newer :
    select semver manifest (text "2.0.0") (text "0.9.0") (text "0.9.0") arm ≡ ok none
unfolding select select_asset validate stable_version all_stable validate_assets is_bad_asset text
    text_eq str_len len_utf8 is_ascii_digit is_ascii_uppercase
select_is_not_newer = refl

select-IsOffered_example :
    (select semver manifest (text "1.0.0") (text "0.9.0") (text "0.9.0") arm ≡ ok (some asset))
    ↔ IsOffered semver manifest (text "1.0.0") (text "0.9.0") (text "0.9.0") arm asset
select-IsOffered_example =
    select-IsOffered semver manifest (text "1.0.0") (text "0.9.0") (text "0.9.0") arm asset

parse_codex_version_run : parse_codex_version semver (text "codex-cli 0.9.0 ") ≡ ok (text "0.9.0")
unfolding parse_codex_version stable_version strip_prefix trim trim_start trim_end is_whitespace
    text
parse_codex_version_run = refl

-- The listing has a draft and a release; the latter has a signed manifest and its binary.
abbrev release : Bool → GithubRelease
release draft = record {
  tag_name = text "v2.0.0";
  draft = draft;
  prerelease = false;
  assets = text "rcodex-update.json" ∷ asset.name ∷ [];
}

abbrev answer : Text → Result Error (Option ℕ × List (Result Error Bytes))
answer url =
    if text_eq url (text "u")
    then ok (none, ok (1 ∷ []) ∷ [])
    else if text_eq url (text "b/v2.0.0/rcodex-update.json")
    then ok (some 2, ok (2 ∷ []) ∷ ok (2 ∷ []) ∷ [])
    else ok (some 3, ok (7 ∷ 8 ∷ []) ∷ ok (9 ∷ []) ∷ [])

abbrev repository : Repository
repository = record {
  get = answer;
  releases_url = text "u";
  asset_base = text "b";
  verify = λ bytes tag. bail_if (not (text_eq tag (text "v2.0.0"))) "not signed";
  parse_releases = λ bytes. ok (release true ∷ release false ∷ []);
  parse_manifest = λ bytes. ok manifest;
}

download_run : download repository (text "b/a") 3 ≡ ok (7 ∷ 8 ∷ 9 ∷ [])
unfolding download collect text text_eq
download_run = refl

download_too_long : download repository (text "b/a") 2 ≡ err "update download exceeds size limit"
unfolding download collect text text_eq
download_too_long = refl

download-IsDownload_example :
    (download repository (text "b/a") 3 ≡ ok (7 ∷ 8 ∷ 9 ∷ []))
    ↔ IsDownload repository (text "b/a") 3 (7 ∷ 8 ∷ 9 ∷ [])
download-IsDownload_example = download-IsDownload repository (text "b/a") 3 (7 ∷ 8 ∷ 9 ∷ [])

abbrev executable : FilePath
executable = record { directory = text "bin"; stem = text "rcodex"; extension = none }

abbrev settings_path : FilePath
settings_path = record {
  directory = text "state";
  stem = text "update";
  extension = some (text "json");
}

abbrev files : Files
files p =
    if path_eq executable p
    then some (file 0x1ed (1 ∷ []))
    else if path_eq settings_path p
    then some (file 0x180 (1 ∷ []))
    else none

find-IsFound_example :
    Looks files
      (MayBe (IsFound semver repository (text "1.0.0") (text "0.9.0") (text "0.9.0") arm))
      (find semver repository (text "1.0.0") (text "0.9.0") (text "0.9.0") arm (quiet files))
find-IsFound_example =
    find-IsFound semver repository (text "1.0.0") (text "0.9.0") (text "0.9.0") arm (quiet files)

-- Settings as a byte that enables them and the time of the last check.
abbrev codec : SettingsCodec
codec = record {
  to_vec = λ s. (if s.enabled then 1 else 0) ∷ elim s.last_checked [ none ↦ [] | some t ↦ t ∷ [] ];
  from_slice = λ bytes. elim bytes [
    | [] ↦ none
    | b ∷ rest ↦
        some
          (record { enabled = b == 1; last_checked = elim rest [ [] ↦ none | t ∷ more ↦ some t ] })
  ];
}

abbrev settings : UpdateSettings
settings = record { enabled = true; last_checked = some 5 }

save-load_example :
    (save codec settings settings_path >> load codec settings_path) (quiet files)
    ≡ (quiet (update files settings_path (some (file 0x180 (1 ∷ 5 ∷ [])))), ok settings)
unfolding path_eq text_eq text
save-load_example = save-load codec settings settings_path files (ground arith) refl refl

abbrev updater : Updater
updater = record {
  semver = semver;
  repository = repository;
  codec = codec;
  sha256 = λ bytes. replicate 64 97;
  os = text "macos";
  arch = text "aarch64";
  current = text "1.0.0";
  settings_path = settings_path;
  executable = executable;
  gh_status = ok true;
  inspect_stock_codex = ok (text "0.9.0");
  environments = ok [];
  meanwhile = λ f. f;
}

paths : HasPaths updater (text "0.9.0") (text "0.9.0")
unfolding path_eq text_eq text
paths = record {
  lock_executable = refl;
  lock_settings = refl;
  settings_executable = refl;
  backup_executable = refl;
}

automatic_update-Updates_example :
    (let o =
        automatic_update updater 90000 90001 90002 (text "0.9.0") (text "0.9.0") (quiet files) in
      (o.0.files executable ≡ files executable)
      ⊎ Updates updater
          (text "0.9.0")
          (text "0.9.0")
          (IsDueTwice updater (text "0.9.0") (text "0.9.0") files files 90000 90001)
          (files executable)
          o)
automatic_update-Updates_example =
    automatic_update-Updates updater (text "0.9.0") (text "0.9.0") 90000 90001 90002 (quiet files)
      paths

-- Another invocation has checked in between.
automatic_update_after_other :
    (automatic_update
      (record updater {
        meanwhile = λ f. update f settings_path (some (file 0x180 (1 ∷ 90000 ∷ [])));
      })
      90000
      90001
      90002
      (text "0.9.0")
      (text "0.9.0")
      (quiet files)).1
    ≡ ok false
unfolding automatic_update update_locked update_if_due update_now find_update install_found lock
    open_lock load load_existing metadata_len regular_file reject_symlink is_file symlink_metadata
    read calls call call_with path_eq text text_eq
automatic_update_after_other = refl

automatic_update_run :
    (automatic_update updater 90000 90001 90002 (text "0.9.0") (text "0.9.0") (quiet files)).1
    ≡ ok true
unfolding automatic_update update_locked update_if_due update_now find_update install_found
    install_automatically check target find find_from first_offer offer verify_bytes install choose
    sort_releases insert_release retain kept_version download collect select select_asset validate
    stable_version all_stable validate_assets is_bad_asset replace swap_checked swap lock open_lock
    load load_existing metadata_len save regular_file reject_symlink is_file atomic_write
    symlink_metadata read calls call call_with path_eq text text_eq str_len len_utf8 is_ascii_digit
    is_ascii_uppercase strip_prefix
automatic_update_run = refl
