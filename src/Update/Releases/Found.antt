-- ===== src/Update/Releases/Found.antt =====
-- `Repository::find` and `check` of src/update.rs.
use rcodex.Common.{
  ◌≤◌, ◌≡◌, refl, false, not, Option, none, some, List, ltb, ltb→le, length, ok, Error, Text, Bytes,
  text_eq,
}
use mathlib.Core.List.{Memᴰ}
use rcodex.Files.{World, lift, refuse_if, ◌>>=◌, ◌>>◌}
use rcodex.Files.Rules.{Looks, Looks-weaken, lift-Looks, chain_rule}
use rcodex.Update.Writing.{refuse_if-Looks}
use rcodex.Update.Installation.{ReleaseAsset}
use rcodex.Update.Manifest.{Semver, ReleaseManifest, stable_version}
use rcodex.Update.Releases.{
  GithubRelease, Repository, max_metadata_bytes, download, retain, sort_releases,
}
use rcodex.Update.Releases.Search.{first_offer, find_from, find}
use rcodex.Update.Releases.Offers.{
  IsCandidate, IsFrom, MayBe, first_offer-Looks, retain-All, sort_releases-All, All-self,
}

module _ (semver : Semver) (r : Repository) (current local remote target : Text) where
  -- The releases that the repository lists.
  abbrev pub IsListing : List GithubRelease → Type 0
  IsListing releases =
      (bytes : Bytes) × (download r r.releases_url max_metadata_bytes ≡ ok bytes)
      × (r.parse_releases bytes ≡ ok releases)
      × (length releases ≤ 20)

  -- An update from one of the releases that the repository lists.
  abbrev pub IsFound : ReleaseManifest × ReleaseAsset → Type 0
  IsFound found =
      (releases : List GithubRelease) × (release : GithubRelease) × IsListing releases
      × IsCandidate releases release
      × IsFrom semver r current local remote target release found

  found_case :
      (releases : List GithubRelease) (o : Option (ReleaseManifest × ReleaseAsset))
      → IsListing releases
      → MayBe
          (λ found.
            (release : GithubRelease) × IsCandidate releases release
            × IsFrom semver r current local remote target release found)
          o
      → MayBe IsFound o
  found_case releases none listing h = tt
  found_case releases (some found) listing (release, candidate, from) =
      (releases, release, listing, candidate, from)

  listed_offer :
      (installed : semver.Version) (releases : List GithubRelease) (w : World)
      → IsListing releases
      → Looks w.files (MayBe IsFound) (
          first_offer semver r current local remote target
            (sort_releases semver (retain semver installed releases))
            w)
  listed_offer installed releases w listing =
      let sorted = sort_releases semver (retain semver installed releases) in
      let P = IsCandidate releases in
      let candidates = sort_releases-All semver P (retain semver installed releases) (
        retain-All semver installed (λ release. Memᴰ release releases) releases
          (All-self releases)) in
      Looks-weaken w.files
        (MayBe (λ found.
          (release : GithubRelease) × P release
          × IsFrom semver r current local remote target release found))
        (MayBe IsFound) (first_offer semver r current local remote target sorted w)
        (first_offer-Looks semver r current local remote target P sorted w candidates)
        (λ o h. found_case releases o listing h)

  find_from-Looks :
      (installed : semver.Version) (w : World)
      → Looks w.files (MayBe IsFound) (find_from semver r current local remote target installed w)
  unfolding find_from
  find_from-Looks installed w =
      let Q = MayBe IsFound in
      let got = download r r.releases_url max_metadata_bytes in
      let end = λ (releases : List GithubRelease).
        first_offer semver r current local remote target
          (sort_releases semver (retain semver installed releases)) in
      let few = λ (releases : List GithubRelease). ltb 20 (length releases) in
      let e : Error = "too many releases in update response" in
      chain_rule (lift got)
        (λ bytes.
          lift (r.parse_releases bytes) >>= λ releases. refuse_if (few releases) e >> end releases)
        w (λ bytes. got ≡ ok bytes) Q (lift-Looks got w)
        (λ later bytes came.
          chain_rule (lift (r.parse_releases bytes))
            (λ releases. refuse_if (few releases) e >> end releases) later
            (λ releases. r.parse_releases bytes ≡ ok releases) Q
            (lift-Looks (r.parse_releases bytes) later)
            (λ later' releases read.
              chain_rule (refuse_if (few releases) e) (λ _. end releases) later'
                (λ _. length releases ≤ 20) Q
                (refuse_if-Looks later'.files (length releases ≤ 20) (few releases) e later' refl
                  (λ h. ltb→le 20 (length releases) h))
                (λ last u bounded.
                  listed_offer installed releases last (bytes, came, read, bounded))))

  -- The search changes no file. What it finds is from one of at most 20 releases that the repository
  -- lists, neither a draft nor a pre-release; the manifest was signed for the release's tag and names
  -- its version; the manifest offers the asset for this target and these versions, and the release
  -- lists it.
  pub find-IsFound :
      (w : World) → Looks w.files (MayBe IsFound) (find semver r current local remote target w)
  unfolding find
  find-IsFound w =
      let Q = MayBe IsFound in
      let e : Error = "local and remote Codex must match before updating rcodex" in
      let apart = not (text_eq local remote) in
      chain_rule (lift (stable_version semver current))
        (λ installed. refuse_if apart e >> find_from semver r current local remote target installed)
        w (λ installed. stable_version semver current ≡ ok installed) Q
        (lift-Looks (stable_version semver current) w)
        (λ later installed stable.
          chain_rule (refuse_if apart e)
            (λ _. find_from semver r current local remote target installed) later
            (λ _. apart ≡ false) Q
            (refuse_if-Looks later.files (apart ≡ false) apart e later refl (λ h. h))
            (λ last u same. find_from-Looks installed last))
