-- ===== src/Update/Releases.antt =====
-- src/update.rs: `download`, and the releases that `Repository::find` considers, in their order.
-- Parameters are the answers of the network, `gh attestation verify`, and the JSON parser; the
-- repository's two addresses are given.
pub mod Downloads
pub mod Choosing
pub mod Search
pub mod Offers
pub mod Found
pub mod Installing
use rcodex.Common.{
  ℕ, ◌+◌, ◌-◌, ◌*◌, ◌/◌, Bool, true, false, not, ◌||◌, Option, none, some, List, [], ◌∷◌, ◌++◌, ltb,
  if◌then◌else◌, length, any, Result, ok, err, Error, ◌>>◌, bail_if, Text, Bytes, text, text_eq,
  strip_prefix, ◌>>=◌,
}
use rcodex.Update.Installation.{ReleaseAsset}
use rcodex.Update.Manifest.{
  Semver, Ordering, less, equal, greater, is_greater, ReleaseManifest, stable_version, select,
}

pub record GithubRelease : Type 0 where
  pub tag_name : Text
  pub draft : Bool
  pub prerelease : Bool
  pub assets : List Text

-- An answer is the length that it announces and the chunks of its body, each of which may fail.
pub record Repository : Type 0 where
  pub get : Text → Result Error (Option ℕ × List (Result Error Bytes))
  pub releases_url : Text
  pub asset_base : Text
  pub verify : Bytes → Text → Result Error (Unit {0})
  pub parse_releases : Bytes → Result Error (List GithubRelease)
  pub parse_manifest : Bytes → Result Error ReleaseManifest

abbrev pub max_metadata_bytes : ℕ
max_metadata_bytes = 256 * 1024

abbrev pub manifest_name : Text
manifest_name = text "rcodex-update.json"

abbrev pub exceeds : ℕ → Option ℕ → Bool
exceeds limit none = false
exceeds limit (some n) = ltb limit n

-- The loop of `download`.
unfoldable pub collect : ℕ → Bytes → List (Result Error Bytes) → Result Error Bytes
collect limit bytes [] = ok bytes
collect limit bytes (err e ∷ rest) = err e
collect limit bytes (ok chunk ∷ rest) =
    let e : Error = "update download exceeds size limit" in
    let later = collect limit (bytes ++ chunk) rest in
    if ltb limit (length bytes + length chunk) then err e else later

unfoldable pub download : Repository → Text → ℕ → Result Error Bytes
download r url limit = do
  (announced, chunks) ← r.get url
  bail_if (exceeds limit announced) "update download exceeds size limit"
  collect limit [] chunks

abbrev pub lists : GithubRelease → Text → Bool
lists release name = any (λ listed. text_eq listed name) release.assets

abbrev pub manifest_url : Repository → GithubRelease → Text
manifest_url r release = r.asset_base ++ text "/" ++ release.tag_name ++ text "/" ++ manifest_name

abbrev pub tag_of : ReleaseManifest → Text
tag_of m = text "v" ++ m.version

abbrev pub asset_url : Repository → ReleaseManifest → ReleaseAsset → Text
asset_url r m a = r.asset_base ++ text "/" ++ tag_of m ++ text "/" ++ a.name

-- The asset that was selected, if any, must be listed.
abbrev pub listed_choice :
    GithubRelease
    → ReleaseManifest
    → Option ReleaseAsset
    → Result Error (Option (ReleaseManifest × ReleaseAsset))
listed_choice release m none = ok none
listed_choice release m (some a) =
    bail_if (not (lists release a.name)) "signed binary is missing from release" >> ok (some (m, a))

module _ (semver : Semver) where
  -- The version in a tag, for a release that `retain` keeps.
  unfoldable pub kept_version : semver.Version → GithubRelease → Option semver.Version
  kept_version installed release =
      if release.draft || release.prerelease
      then none
      else elim (strip_prefix (text "v") release.tag_name) [
        | none ↦ none
        | some value ↦ elim (stable_version semver value) [
          | err e ↦ none
          | ok version ↦ if is_greater (semver.cmp version installed) then some version else none
        ]
      ]

  -- `retain`, which keeps the versions for the sort.
  unfoldable pub retain :
      semver.Version → List GithubRelease → List (semver.Version × GithubRelease)
  retain installed [] = []
  retain installed (release ∷ rest) =
      let later = retain installed rest in
      elim (kept_version installed release) [
        | none ↦ later
        | some version ↦ (version, release) ∷ later
      ]

  abbrev pub is_less : Ordering → Bool
  is_less less = true
  is_less _ = false

  -- The stable sort with the latest version first.
  unfoldable pub insert_release :
      semver.Version × GithubRelease
      → List (semver.Version × GithubRelease)
      → List (semver.Version × GithubRelease)
  insert_release (v, release) [] = (v, release) ∷ []
  insert_release (v, release) ((w, other) ∷ rest) =
      let later = insert_release (v, release) rest in
      if is_less (semver.cmp v w) then (w, other) ∷ later else (v, release) ∷ (w, other) ∷ rest

  unfoldable pub sort_releases :
      List (semver.Version × GithubRelease) → List (semver.Version × GithubRelease)
  sort_releases [] = []
  sort_releases (x ∷ rest) = insert_release x (sort_releases rest)

  -- The end of the loop's body; `none` goes on with the next release.
  unfoldable pub choose :
      (current local remote target : Text)
      → GithubRelease
      → ReleaseManifest
      → Result Error (Option (ReleaseManifest × ReleaseAsset))
  choose current local remote target release m = do
    bail_if (not (text_eq release.tag_name (tag_of m))) "signed manifest does not match release tag"
    selected ← select semver m current local remote target
    listed_choice release m selected
