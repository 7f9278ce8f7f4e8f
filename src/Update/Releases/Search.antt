-- ===== src/Update/Releases/Search.antt =====
-- src/update.rs: `Repository` with its search for a release and the installation of one, and `check`.
use rcodex.Common.{
  true, false, not, ◌&&◌, Option, none, some, List, [], ◌∷◌, ltb, if◌then◌else◌, length, Result, ok,
  err, Error, Text, Bytes, text, text_eq,
}
use rcodex.Files.{Action, pure, lift, refuse_if, ◌>>=◌, ◌>>◌, calls}
use rcodex.Update.Installation.{ReleaseAsset, Installation, replace}
use rcodex.Update.Manifest.{Semver, ReleaseManifest, stable_version}
use rcodex.Update.Releases.{
  GithubRelease, Repository, max_metadata_bytes, manifest_name, download, lists, manifest_url,
  tag_of, asset_url, retain, sort_releases, choose,
}

-- The temporary file is created, written and flushed.
unfoldable pub verify_bytes : Repository → Bytes → Text → Action (Unit {0})
verify_bytes r bytes tag = calls 3 >> lift (r.verify bytes tag)

unfoldable pub install :
    (Bytes → Text) → Repository → ReleaseManifest → ReleaseAsset → Installation → Action (Unit {0})
install sha256 r m a i = do
  bytes ← lift (download r (asset_url r m a) a.size)
  verify_bytes r bytes (tag_of m)
  replace sha256 i bytes a

module _ (semver : Semver) (r : Repository) (current local remote target : Text) where
  -- The loop's body for a release that has a manifest.
  unfoldable pub offer : GithubRelease → Action (Option (ReleaseManifest × ReleaseAsset))
  offer release = do
    bytes ← lift (download r (manifest_url r release) max_metadata_bytes)
    verify_bytes r bytes release.tag_name
    m ← lift (r.parse_manifest bytes)
    lift (choose semver current local remote target release m)

  -- The loop over the releases.
  unfoldable pub first_offer :
      List (semver.Version × GithubRelease) → Action (Option (ReleaseManifest × ReleaseAsset))
  first_offer [] = pure none
  first_offer ((version, release) ∷ rest) =
      let later = first_offer rest in
      elim (lists release manifest_name) [
        | false ↦ later
        | true ↦ offer release >>= λ o. elim o [ none ↦ later | some found ↦ pure (some found) ]
      ]

  -- `find` past its first two tests, with the version that was read.
  unfoldable pub find_from : semver.Version → Action (Option (ReleaseManifest × ReleaseAsset))
  find_from installed = do
    bytes ← lift (download r r.releases_url max_metadata_bytes)
    releases ← lift (r.parse_releases bytes)
    refuse_if (ltb 20 (length releases)) "too many releases in update response"
    first_offer (sort_releases semver (retain semver installed releases))

  unfoldable pub find : Action (Option (ReleaseManifest × ReleaseAsset))
  find = do
    installed ← lift (stable_version semver current)
    refuse_if (not (text_eq local remote))
        "local and remote Codex must match before updating rcodex"
    find_from installed

-- The operating system and the processor that the program was built for.
unfoldable pub target : Text → Text → Result Error Text
target os arch =
    let e : Error = "binary updates are available only for macOS" in
    if text_eq os (text "macos") && text_eq arch (text "aarch64")
    then ok (text "aarch64-apple-darwin")
    else if text_eq os (text "macos") && text_eq arch (text "x86_64")
    then ok (text "x86_64-apple-darwin")
    else err e

-- `check`, with the repository that it builds.
unfoldable pub check :
    Semver
    → Repository
    → (os arch current local remote : Text) → Action (Option (ReleaseManifest × ReleaseAsset))
check semver r os arch current local remote = do
  t ← lift (target os arch)
  find semver r current local remote t
