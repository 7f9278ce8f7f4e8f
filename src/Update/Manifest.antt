-- ===== src/Update/Manifest.antt =====
-- src/update.rs: `stable_version`, and `ReleaseManifest` with its validation and the choice of an
-- asset. The crate `semver` is a parameter: parsing, the two tests, and the order of versions.
pub mod Assets
pub mod Validity
pub mod Choice
use rcodex.Common.{
  ℕ, ◌+◌, ◌-◌, ◌*◌, Bool, true, false, not, ◌&&◌, ◌||◌, Option, none, List, [], ◌∷◌, ◌++◌, ltb, leb,
  ◌==◌, if◌then◌else◌, length, is_empty, any, all, find_first, Result, ok, Error, bail_if, context,
  Text, text, text_eq, str_len, is_ascii_digit, is_ascii_uppercase, trim, strip_prefix, ◌>>=◌, ◌>>◌,
}
use rcodex.Update.Installation.{ReleaseAsset}

pub data Ordering : Type 0 where
  less equal greater : Ordering

abbrev pub is_greater : Ordering → Bool
is_greater greater = true
is_greater _ = false

pub record Semver : Type 1 where
  pub Version : Type 0
  pub parse : Text → Option Version
  pub pre_is_empty : Version → Bool
  pub build_is_empty : Version → Bool
  pub cmp : Version → Version → Ordering

pub record ReleaseManifest : Type 0 where
  pub schema_version : ℕ
  pub version : Text
  pub codex_versions : List Text
  pub assets : List ReleaseAsset

abbrev pub max_binary_bytes : ℕ
max_binary_bytes = 128 * 1024 * 1024

abbrev pub is_target : Text → Bool
is_target t = text_eq t (text "aarch64-apple-darwin") || text_eq t (text "x86_64-apple-darwin")

-- `is_ascii_hexdigit`.
abbrev pub is_ascii_hexdigit : ℕ → Bool
is_ascii_hexdigit c = is_ascii_digit c || leb 65 c && leb c 70 || leb 97 c && leb c 102

-- `HashSet::contains` on the targets before.
abbrev pub is_in : Text → List Text → Bool
is_in t ts = any (λ u. text_eq u t) ts

abbrev pub asset_name : Text → Text → Text
asset_name version target = text "rcodex-" ++ version ++ text "-" ++ target

-- The test on one asset, given the targets before it.
unfoldable pub is_bad_asset : Text → List Text → ReleaseAsset → Bool
is_bad_asset version targets a =
    not (is_target a.target)
    || is_in a.target targets
    || not (text_eq a.name (asset_name version a.target))
    || not (str_len a.sha256 == 64)
    || not (all (λ c. is_ascii_hexdigit c && not (is_ascii_uppercase c)) a.sha256)
    || (a.size == 0)
    || ltb max_binary_bytes a.size

unfoldable pub validate_assets : Text → List Text → List ReleaseAsset → Result Error (Unit {0})
validate_assets version targets [] = ok tt
validate_assets version targets (a ∷ rest) = do
  bail_if (is_bad_asset version targets a) "invalid or duplicate update asset"
  validate_assets version (a.target ∷ targets) rest

abbrev pub has_bad_shape : ReleaseManifest → Bool
has_bad_shape m =
    not (m.schema_version == 1)
    || is_empty m.codex_versions
    || ltb 32 (length m.codex_versions)
    || is_empty m.assets
    || ltb 2 (length m.assets)

module _ (semver : Semver) where
  unfoldable pub stable_version : Text → Result Error semver.Version
  stable_version value = do
    version ← context "invalid stable version" (semver.parse value)
    bail_if (not (semver.pre_is_empty version) || not (semver.build_is_empty version))
        "updates require a stable version without build metadata"
    ok version

  unfoldable pub all_stable : List Text → Result Error (Unit {0})
  all_stable [] = ok tt
  all_stable (v ∷ rest) = do version ← stable_version v; all_stable rest

  unfoldable pub validate : ReleaseManifest → Result Error (Unit {0})
  validate m = do
    version ← stable_version m.version
    bail_if (has_bad_shape m) "invalid update manifest shape or schema version"
    all_stable m.codex_versions
    validate_assets m.version [] m.assets

  -- `select` past the validation, with the versions that were read.
  unfoldable pub select_asset :
      ReleaseManifest → semver.Version → semver.Version → Text → Text → Text → Option ReleaseAsset
  select_asset m version installed local remote target =
      if not (is_greater (semver.cmp version installed))
        || not (text_eq local remote)
        || not (any (λ v. text_eq v local) m.codex_versions)
      then none
      else find_first (λ a. text_eq a.target target) m.assets

  unfoldable pub select :
      ReleaseManifest → Text → Text → Text → Text → Result Error (Option ReleaseAsset)
  select m current local remote target = do
    validate m
    version ← stable_version m.version
    installed ← stable_version current
    ok (select_asset m version installed local remote target)

  unfoldable pub parse_codex_version : Text → Result Error Text
  parse_codex_version output = do
    version ←
        context "unrecognized Codex version output" (strip_prefix (text "codex-cli ") (trim output))
    stable ← stable_version version
    ok version
