-- ===== src/Update/Releases/Offers.antt =====
-- What `Repository::find` of src/update.rs can find.
use rcodex.Common.{
  ◌≡◌, refl, inl, inr, Bool, true, false, ◌||◌, Option, none, some, List, [], ◌∷◌, arith,
  Bool-cases, Option-cases, All, Result, ok, Error, Text, Bytes, All-map,
}
use mathlib.Core.List.{Memᴰ}
use rcodex.Files.{World, Action, pure, lift, calls, ◌>>=◌, ◌>>◌}
use rcodex.Files.Rules.{Looks, Looks-weaken, lift-Looks, chain_rule, calls-Looks}
use rcodex.Update.Installation.{ReleaseAsset}
use rcodex.Update.Manifest.{Semver, ReleaseManifest}
use rcodex.Update.Manifest.Choice.{IsOffered}
use rcodex.Update.Releases.{
  GithubRelease, Repository, max_metadata_bytes, manifest_name, download, lists, manifest_url,
  tag_of, kept_version, retain, insert_release, sort_releases, is_less, choose,
}
use rcodex.Update.Releases.Choosing.{choose-IsOffered}
use rcodex.Update.Releases.Search.{verify_bytes, offer, first_offer}

pub verify_bytes-Looks :
    (r : Repository) (bytes : Bytes) (tag : Text) (w : World)
    → Looks w.files (λ _. r.verify bytes tag ≡ ok tt) (verify_bytes r bytes tag w)
unfolding verify_bytes
verify_bytes-Looks r bytes tag w =
    chain_rule (calls 3) (λ _. lift (r.verify bytes tag)) w (λ _. Unit {0})
      (λ _. r.verify bytes tag ≡ ok tt) (calls-Looks 3 w)
      (λ later u _. lift-Looks (r.verify bytes tag) later)

-- The manifest of a release: signed for its tag, of the version that the tag names.
abbrev pub IsSigned : Repository → GithubRelease → ReleaseManifest → Type 0
IsSigned r release m =
    (bytes : Bytes) × (download r (manifest_url r release) max_metadata_bytes ≡ ok bytes)
    × (r.verify bytes release.tag_name ≡ ok tt)
    × (r.parse_manifest bytes ≡ ok m)

-- A result that is there has the property.
abbrev pub MayBe :
    (ReleaseManifest × ReleaseAsset → Type 0) → Option (ReleaseManifest × ReleaseAsset) → Type 0
MayBe P none = Unit
MayBe P (some found) = P found

module _ (semver : Semver) (r : Repository) (current local remote target : Text) where
  -- A manifest and its asset that may be installed, from this release.
  abbrev pub IsFrom : GithubRelease → ReleaseManifest × ReleaseAsset → Type 0
  IsFrom release (m, a) =
      IsSigned r release m
      × (release.tag_name ≡ tag_of m)
      × IsOffered semver m current local remote target a
      × (lists release a.name ≡ true)

  chosen_case :
      (release : GithubRelease) (m : ReleaseManifest) (o : Option (ReleaseManifest × ReleaseAsset))
      → IsSigned r release m
      → choose semver current local remote target release m ≡ ok o
      → MayBe (IsFrom release) o
  chosen_case release m none signed e = tt
  chosen_case release m (some (m', a)) signed e =
      let (same, tag, offered, listed) =
        choose-IsOffered semver current local remote target release m m' a e in
      (rw same at signed, tag, offered, listed)

  offer-Looks :
      (release : GithubRelease) (w : World)
      → Looks w.files
          (MayBe (IsFrom release))
          (offer semver r current local remote target release w)
  unfolding offer
  offer-Looks release w =
      let end =
        λ (m : ReleaseManifest). lift (choose semver current local remote target release m) in
      let Q = MayBe (IsFrom release) in
      chain_rule (lift (download r (manifest_url r release) max_metadata_bytes))
        (λ bytes. verify_bytes r bytes release.tag_name >> (lift (r.parse_manifest bytes) >>= end))
        w (λ bytes. download r (manifest_url r release) max_metadata_bytes ≡ ok bytes) Q
        (lift-Looks (download r (manifest_url r release) max_metadata_bytes) w)
        (λ later bytes got.
          chain_rule (verify_bytes r bytes release.tag_name)
            (λ _. lift (r.parse_manifest bytes) >>= end) later
            (λ _. r.verify bytes release.tag_name ≡ ok tt) Q
            (verify_bytes-Looks r bytes release.tag_name later)
            (λ later' u good.
              chain_rule (lift (r.parse_manifest bytes)) end later'
                (λ m. r.parse_manifest bytes ≡ ok m) Q (lift-Looks (r.parse_manifest bytes) later')
                (λ last m read.
                  let chosen = choose semver current local remote target release m in
                  Looks-weaken last.files (λ o. chosen ≡ ok o) Q (lift chosen last)
                    (lift-Looks chosen last)
                    (λ o e. chosen_case release m o (bytes, got, good, read) e))))

  test_rule :
      {A : Type 0} (Q : World × Result Error A → Type 0) (b : Bool) (one other : Action A)
      (w : World)
      → Q (one w)
      → Q (other w)
      → Q (let chosen : Action A = elim b [ false ↦ other | true ↦ one ] in chosen w)
  test_rule Q true one other w y n = y
  test_rule Q false one other w y n = n

  pub first_offer-Looks :
      (P : GithubRelease → Type 0) (releases : List (semver.Version × GithubRelease)) (w : World)
      → All (λ x. P x.1) releases
      → Looks w.files
          (MayBe (λ found. (release : GithubRelease) × P release × IsFrom release found))
          (first_offer semver r current local remote target releases w)
  unfolding first_offer
  first_offer-Looks P [] w h = (refl, inr (none, refl, tt))
  first_offer-Looks P ((version, release) ∷ rest) w (p, ps) =
      let Q = MayBe (λ found. (release : GithubRelease) × P release × IsFrom release found) in
      let later = first_offer semver r current local remote target rest in
      let next : Option (ReleaseManifest × ReleaseAsset)
          → Action (Option (ReleaseManifest × ReleaseAsset)) =
        λ o. elim o [ none ↦ later | some found ↦ pure (some found) ] in
      test_rule (Looks w.files Q) (lists release manifest_name)
        (offer semver r current local remote target release >>= next) later w
        (chain_rule (offer semver r current local remote target release) next w
          (MayBe (IsFrom release)) Q (offer-Looks release w)
          (λ later' o.
            elim o as (λ k. MayBe (IsFrom release) k → Looks later'.files Q (next k later')) [
              | none ↦ λ from. first_offer-Looks P rest later' ps
              | some found ↦ λ from. (refl, inr (some found, refl, (release, p, from)))
            ]))
        (first_offer-Looks P rest w ps)

-- A release of the list that is neither a draft nor a pre-release.
abbrev pub IsCandidate : List GithubRelease → GithubRelease → Type 0
IsCandidate releases release =
    Memᴰ release releases × (release.draft ≡ false) × (release.prerelease ≡ false)

kept_plain :
    (semver : Semver) (installed version : semver.Version) (release : GithubRelease)
    → kept_version semver installed release ≡ some version
    → (release.draft ≡ false) × (release.prerelease ≡ false)
unfolding kept_version
kept_plain semver installed version release e =
    elim (Bool-cases (release.draft || release.prerelease)) [
      | inl out ↦ let impossible = rw out at e in cc
      | inr stays ↦ (ground (arith, stays), ground (arith, stays))
    ]

pub retain-All :
    (semver : Semver) (installed : semver.Version) (P : GithubRelease → Type 0)
    (releases : List GithubRelease)
    → All P releases
    → All
        (λ x. P x.1 × (x.1.draft ≡ false) × (x.1.prerelease ≡ false))
        (retain semver installed releases)
unfolding retain
retain-All semver installed P [] h = tt
retain-All semver installed P (release ∷ rest) (p, ps) =
    let later = retain-All semver installed P rest ps in
    elim (Option-cases (kept_version semver installed release)) [
      | inl e ↦ rw (e, retain) later
      | inr (version, e) ↦
          let (published, final) = kept_plain semver installed version release e in
          rw (e, retain) ((p, published, final), later)
    ]

insert_release-All :
    (semver : Semver) (P : GithubRelease → Type 0) (x : semver.Version × GithubRelease)
    (sorted : List (semver.Version × GithubRelease))
    → P x.1
    → All (λ y. P y.1) sorted
    → All (λ y. P y.1) (insert_release semver x sorted)
unfolding insert_release
insert_release-All semver P (v, release) [] p h = (p, tt)
insert_release-All semver P (v, release) ((w, other) ∷ rest) p (q, qs) =
    elim (Bool-cases (is_less semver (semver.cmp v w))) [
      | inl later ↦
          rw (later, insert_release) (q, insert_release-All semver P (v, release) rest p qs)
      | inr before ↦ rw (before, insert_release) (p, (q, qs))
    ]

pub sort_releases-All :
    (semver : Semver) (P : GithubRelease → Type 0)
    (releases : List (semver.Version × GithubRelease))
    → All (λ y. P y.1) releases
    → All (λ y. P y.1) (sort_releases semver releases)
unfolding sort_releases
sort_releases-All semver P [] h = tt
sort_releases-All semver P (x ∷ rest) (p, ps) =
    insert_release-All semver P x (sort_releases semver rest) p (sort_releases-All semver P rest ps)

pub All-self : {A : Type 0} (xs : List A) → All (λ x. Memᴰ x xs) xs
All-self [] = tt
All-self (x ∷ xs) = (Memᴰ.head refl, All-map (λ y m. Memᴰ.tail m) xs (All-self xs))
