-- ===== src/Update/Releases/Choosing.antt =====
-- The tests of `Repository::find` of src/update.rs on a release whose manifest was verified.
use rcodex.Common.{
  ◌≡◌, ap, ◌∙◌, true, not, Option, none, some, arith, ok, Error, ◌>>=◌, bail_if, >>=-eq-ok,
  bail_if-eq-ok, Text, text_eq, text_eq_sound,
}
use rcodex.Update.Installation.{ReleaseAsset}
use rcodex.Update.Manifest.{Semver, ReleaseManifest, select}
use rcodex.Update.Manifest.Choice.{IsOffered, select-IsOffered}
use rcodex.Update.Releases.{GithubRelease, lists, tag_of, listed_choice, choose}

listed_case :
    (release : GithubRelease) (m m' : ReleaseManifest) (selected : Option ReleaseAsset)
    (a : ReleaseAsset)
    → listed_choice release m selected ≡ ok (some (m', a))
    → (m ≡ m') × (selected ≡ some a) × (lists release a.name ≡ true)
listed_case release m m' none a e = cc
listed_case release m m' (some b) a e =
    let (u, listed, same) =
      >>=-eq-ok (bail_if (not (lists release b.name)) "signed binary is missing from release")
        (λ _. ok (some (m, b))) e in
    let one : b ≡ a = cc in
    let here : lists release b.name ≡ true = ground (
      arith,
      bail_if-eq-ok (not (lists release b.name)) "signed binary is missing from release" listed,
    ) in
    (cc, ap some one, rw one at here)

pub choose-IsOffered :
    (semver : Semver) (current local remote target : Text) (release : GithubRelease)
    (m m' : ReleaseManifest) (a : ReleaseAsset)
    → choose semver current local remote target release m ≡ ok (some (m', a))
    → (m ≡ m')
      × (release.tag_name ≡ tag_of m')
      × IsOffered semver m' current local remote target a
      × (lists release a.name ≡ true)
unfolding choose
choose-IsOffered semver current local remote target release m m' a e =
    let refused : Error = "signed manifest does not match release tag" in
    let (u, tagged, e1) =
      >>=-eq-ok (bail_if (not (text_eq release.tag_name (tag_of m))) refused)
        (λ _. select semver m current local remote target >>= listed_choice release m) e in
    let (selected, chosen, e2) =
      >>=-eq-ok (select semver m current local remote target) (listed_choice release m) e1 in
    let (same, here, listed) = listed_case release m m' selected a e2 in
    let matched : text_eq release.tag_name (tag_of m) ≡ true =
      ground (arith, bail_if-eq-ok (not (text_eq release.tag_name (tag_of m))) refused tagged) in
    let tag = text_eq_sound release.tag_name (tag_of m) matched in
    let offered =
      (select-IsOffered semver m current local remote target a).0 (chosen ∙ ap ok here) in
    (same, tag ∙ ap tag_of same, rw same at offered, listed)
