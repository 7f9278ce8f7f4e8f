-- ===== src/Update/Manifest/Choice.antt =====
-- What `ReleaseManifest::select` of src/update.rs offers.
use rcodex.Common.{
  ◌≡◌, refl, sym, ap, ◌∙◌, ◌↔◌, inl, inr, Bool, true, false, not, ◌||◌, Option, none, some, List,
  [], ◌∷◌, arith, if◌then◌else◌, Bool-cases, find_first, Result, ok, Error, ◌>>=◌, >>=-eq-ok, Text,
  text_eq, text_eq_sound, text_eq_refl, text_eq_iff,
}
use mathlib.Core.List.{Memᴰ}
use rcodex.Update.Installation.{ReleaseAsset}
use rcodex.Update.Manifest.{
  Semver, Ordering, less, equal, greater, is_greater, ReleaseManifest, is_in, stable_version,
  validate, select_asset, select,
}
use rcodex.Update.Manifest.Assets.{HasDistinctTargets, is_in_iff}
use rcodex.Update.Manifest.Validity.{IsValid, IsStable, validate-IsValid, stable_version_iff}

-- The asset that is for the target, of a release that is newer than what is installed and made for
-- the version of Codex on both sides.
pub record IsOffered (semver : Semver) (m : ReleaseManifest) (current local remote target : Text)
    (asset : ReleaseAsset) : Type 0 where
  pub valid : IsValid semver m
  pub newer :
      (version : semver.Version) × (installed : semver.Version) × IsStable semver m.version version
      × IsStable semver current installed
      × (semver.cmp version installed ≡ greater)
  pub parity : local ≡ remote
  pub supported : Memᴰ local m.codex_versions
  pub listed : Memᴰ asset m.assets
  pub fits : asset.target ≡ target

distinct_outside :
    (targets : List Text) (assets : List ReleaseAsset) (a : ReleaseAsset)
    → HasDistinctTargets targets assets
    → Memᴰ a assets
    → ¬ Memᴰ a.target targets
distinct_outside targets [] a h d m = elim d [ ]
distinct_outside targets (b ∷ rest) a (fresh, distinct) (Memᴰ.head e) m = fresh (rw e at m)
distinct_outside targets (b ∷ rest) a (fresh, distinct) (Memᴰ.tail d) m =
    distinct_outside (b.target ∷ targets) rest a distinct d (Memᴰ.tail m)

-- With one asset for a target at most, the first is the only one.
find_only :
    (targets : List Text) (assets : List ReleaseAsset) (a : ReleaseAsset)
    → HasDistinctTargets targets assets
    → Memᴰ a assets
    → find_first (λ b. text_eq b.target a.target) assets ≡ some a
find_only targets [] a h d = elim d [ ]
find_only targets (b ∷ rest) a (fresh, distinct) (Memᴰ.head e) =
    rw e (rw (text_eq_refl b.target, find_first) refl)
find_only targets (b ∷ rest) a (fresh, distinct) (Memᴰ.tail d) =
    let outside = distinct_outside (b.target ∷ targets) rest a distinct d in
    elim (Bool-cases (text_eq b.target a.target)) [
      | inl same ↦ elim (outside (Memᴰ.head (sym (text_eq_sound b.target a.target same)))) [ ]
      | inr apart ↦ rw (apart, find_first) (find_only (b.target ∷ targets) rest a distinct d)
    ]

found_listed :
    (target : Text) (assets : List ReleaseAsset) (a : ReleaseAsset)
    → find_first (λ b. text_eq b.target target) assets ≡ some a
    → Memᴰ a assets × (a.target ≡ target)
found_listed target [] a e = cc
found_listed target (b ∷ rest) a e = elim (Bool-cases (text_eq b.target target)) [
  | inl same ↦
      let e' = rw (same, find_first) at e in
      let one : b ≡ a = cc in (Memᴰ.head (sym one), rw one at (text_eq_sound b.target target same))
  | inr apart ↦
      let (listed, fits) = found_listed target rest a (rw (apart, find_first) at e) in
      (Memᴰ.tail listed, fits)
]

is_greater_iff : (o : Ordering) → (is_greater o ≡ true) ↔ (o ≡ greater)
is_greater_iff less = (λ e. cc, λ e. cc)
is_greater_iff equal = (λ e. cc, λ e. cc)
is_greater_iff greater = (λ e. refl, λ e. refl)

if_some {ℓ} :
    {A : Type ℓ} (b : Bool) (o : Option A) (a : A)
    → (if b then none else o) ≡ some a
    → (b ≡ false) × (o ≡ some a)
if_some true o a e = cc
if_some false o a e = (refl, e)

select_asset_iff :
    (semver : Semver) (m : ReleaseManifest) (version installed : semver.Version)
    (local remote target : Text) (asset : ReleaseAsset)
    → HasDistinctTargets [] m.assets
    → (select_asset semver m version installed local remote target ≡ some asset) ↔ (
        (semver.cmp version installed ≡ greater)
        × (local ≡ remote)
        × Memᴰ local m.codex_versions
        × Memᴰ asset m.assets
        × (asset.target ≡ target))
unfolding select_asset
select_asset_iff semver m version installed local remote target asset distinct =
    let later = is_greater_iff (semver.cmp version installed) in
    let parity = text_eq_iff local remote in
    let supported = is_in_iff local m.codex_versions in
    let refused =
      not (is_greater (semver.cmp version installed))
      || not (text_eq local remote)
      || not (is_in local m.codex_versions) in
    (
      λ e.
          let (passed, found) =
            if_some refused (find_first (λ a. text_eq a.target target) m.assets) asset e in
          let (listed, fits) = found_listed target m.assets asset found in
          (
            later.0 (ground arith),
            parity.0 (ground arith),
            supported.0 (ground arith),
            listed,
            fits,
          ),
      λ (newer, same, codex, listed, fits).
          let one = later.1 newer in
          let two = parity.1 same in
          let three = supported.1 codex in
          let passed : refused ≡ false = ground arith in
          rw passed (rw (sym fits) (find_only [] m.assets asset distinct listed)),
    )

-- The steps of the selection that are left.
abbrev after_version :
    (semver : Semver)
    → ReleaseManifest
    → semver.Version
    → Text
    → Text
    → Text
    → Text
    → Result Error (Option ReleaseAsset)
after_version semver m version current local remote target =
    stable_version semver current >>= λ installed.
    ok (select_asset semver m version installed local remote target)

abbrev after_validate :
    Semver → ReleaseManifest → Text → Text → Text → Text → Result Error (Option ReleaseAsset)
after_validate semver m current local remote target = stable_version semver m.version >>= λ version.
    after_version semver m version current local remote target

-- An asset is selected exactly if it is the one that the manifest, a valid one, lists for the target,
-- the release is newer than what is installed, both of stable versions, and the versions of Codex on
-- both sides are one that the release was made for.
pub select-IsOffered :
    (semver : Semver) (m : ReleaseManifest) (current local remote target : Text)
    (asset : ReleaseAsset)
    → (select semver m current local remote target ≡ ok (some asset))
      ↔ IsOffered semver m current local remote target asset
unfolding select
select-IsOffered semver m current local remote target asset = (
  λ e.
      let (u, checked, e1) =
        >>=-eq-ok (validate semver m) (λ _. after_validate semver m current local remote target)
          e in
      let (version, stable, e2) =
        >>=-eq-ok (stable_version semver m.version)
          (λ version. after_version semver m version current local remote target) e1 in
      let (installed, stable', e3) =
        >>=-eq-ok (stable_version semver current)
          (λ installed. ok (select_asset semver m version installed local remote target)) e2 in
      let valid = (validate-IsValid semver m).0 checked in
      let found : select_asset semver m version installed local remote target ≡ some asset = cc in
      let (later, parity, supported, listed, fits) =
        (select_asset_iff semver m version installed local remote target asset valid.distinct).0
          found in
      record {
        valid = valid;
        newer = (
          version,
          installed,
          (stable_version_iff semver m.version version).0 stable,
          (stable_version_iff semver current installed).0 stable',
          later,
        );
        parity = parity;
        supported = supported;
        listed = listed;
        fits = fits;
      },
  λ h.
      let (version, installed, stable, stable', later) = h.newer in
      ap
        (λ (o : Result Error (Unit {0})).
          o >>= λ _. after_validate semver m current local remote target)
        ((validate-IsValid semver m).1 h.valid)
      ∙ ap
          (λ (o : Result Error semver.Version).
            o >>= λ v. after_version semver m v current local remote target)
          ((stable_version_iff semver m.version version).1 stable)
      ∙ ap
          (λ (o : Result Error semver.Version).
            o >>= λ v. ok (select_asset semver m version v local remote target))
          ((stable_version_iff semver current installed).1 stable')
      ∙ ap ok (
          (select_asset_iff semver m version installed local remote target asset h.valid.distinct).1
            (later, h.parity, h.supported, h.listed, h.fits)),
)
