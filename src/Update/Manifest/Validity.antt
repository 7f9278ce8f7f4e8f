-- ===== src/Update/Manifest/Validity.antt =====
-- When `ReleaseManifest::validate` of src/update.rs passes.
use rcodex.Common.{
  ◌≤◌, ◌≡◌, refl, ap, ◌∙◌, ◌↔◌, Bool, true, false, not, ◌||◌, Option, none, some, List, [], ◌∷◌,
  arith, length, is_empty, All, Result, ok, Error, ◌>>=◌, ◌>>◌, bail_if, context, >>=-eq-ok,
  bail_if-eq-ok, Text,
}
use rcodex.Update.Manifest.{
  Semver, ReleaseManifest, validate_assets, has_bad_shape, stable_version, all_stable, validate,
}
use rcodex.Update.Manifest.Assets.{IsAsset, HasDistinctTargets, validate_assets_iff}

-- A version without a pre-release and build metadata.
abbrev pub IsStable : (semver : Semver) → Text → semver.Version → Type 0
IsStable semver value version =
    (semver.parse value ≡ some version)
    × (semver.pre_is_empty version ≡ true)
    × (semver.build_is_empty version ≡ true)

abbrev pub HasStable : Semver → Text → Type 0
HasStable semver value = (version : semver.Version) × IsStable semver value version

stable_case :
    {V : Type 0} (o : Option V) (pre build : V → Bool) (e e' : Error) (version : V)
    → ((context e o >>= λ v. bail_if (not (pre v) || not (build v)) e' >> ok v) ≡ ok version)
      ↔ ((o ≡ some version) × (pre version ≡ true) × (build version ≡ true))
stable_case none pre build e e' version = (λ h. cc, λ (h, _, _). cc)
stable_case (some v) pre build e e' version = (
  λ h.
      let (u, passed, same) =
        >>=-eq-ok (bail_if (not (pre v) || not (build v)) e') (λ done. ok v) h in
      let tested = bail_if-eq-ok (not (pre v) || not (build v)) e' passed in
      let one : v ≡ version = cc in
      let p : pre v ≡ true = ground (arith, tested) in
      let b : build v ≡ true = ground (arith, tested) in (ap some one, rw one at p, rw one at b),
  λ (same, p, b). let one : v ≡ version = cc in rw one (rw p (rw b refl)),
)

pub stable_version_iff :
    (semver : Semver) (value : Text) (version : semver.Version)
    → (stable_version semver value ≡ ok version) ↔ IsStable semver value version
unfolding stable_version
stable_version_iff semver value version =
    stable_case (semver.parse value) semver.pre_is_empty semver.build_is_empty
      "invalid stable version" "updates require a stable version without build metadata" version

-- What a release's manifest must be.
pub record IsValid (semver : Semver) (m : ReleaseManifest) : Type 0 where
  pub stable : HasStable semver m.version
  pub schema : m.schema_version ≡ 1
  pub some_codex : 1 ≤ length m.codex_versions
  pub few_codex : length m.codex_versions ≤ 32
  pub some_assets : 1 ≤ length m.assets
  pub few_assets : length m.assets ≤ 2
  pub codex_stable : All (HasStable semver) m.codex_versions
  pub assets : All (IsAsset m.version) m.assets
  pub distinct : HasDistinctTargets [] m.assets

all_stable_iff :
    (semver : Semver) (values : List Text)
    → (all_stable semver values ≡ ok tt) ↔ All (HasStable semver) values
unfolding all_stable
all_stable_iff semver [] = (λ e. tt, λ h. refl)
all_stable_iff semver (v ∷ rest) =
    let later = all_stable_iff semver rest in
    (
      λ e.
          let (version, here, e') =
            >>=-eq-ok (stable_version semver v) (λ _. all_stable semver rest) e in
          ((version, (stable_version_iff semver v version).0 here), later.0 e'),
      λ ((version, stable), stables).
          ap (λ (o : Result Error semver.Version). o >>= λ _. all_stable semver rest)
            ((stable_version_iff semver v version).1 stable)
          ∙ later.1 stables,
    )

is_empty_iff : {A : Type 0} (xs : List A) → (is_empty xs ≡ false) ↔ (1 ≤ length xs)
is_empty_iff [] = ground arith
is_empty_iff (x ∷ xs) = ground arith

shape_iff :
    (m : ReleaseManifest)
    → (has_bad_shape m ≡ false) ↔ (
        (m.schema_version ≡ 1)
        × ((1 ≤ length m.codex_versions) × (length m.codex_versions ≤ 32))
        × ((1 ≤ length m.assets) × (length m.assets ≤ 2)))
shape_iff m =
    let codex = is_empty_iff m.codex_versions in
    let assets = is_empty_iff m.assets in ground (arith, codex, assets)

-- The steps of the validation that are left.
abbrev after_shape : Semver → ReleaseManifest → Result Error (Unit {0})
after_shape semver m = all_stable semver m.codex_versions >> validate_assets m.version [] m.assets

abbrev after_version : Semver → ReleaseManifest → Result Error (Unit {0})
after_version semver m =
    bail_if (has_bad_shape m) "invalid update manifest shape or schema version"
    >> after_shape semver m

-- A manifest is accepted exactly if it has schema 1, a stable version and stable versions of Codex,
-- one to 32 of them, and one or two assets: each for a known target that no other is for, named
-- after the version and the target, with 64 lower-case hexadecimal digits and a size from 1 byte to
-- 128 MiB.
pub validate-IsValid :
    (semver : Semver) (m : ReleaseManifest) → (validate semver m ≡ ok tt) ↔ IsValid semver m
unfolding validate
validate-IsValid semver m = (
  λ e.
      let (version, stable, e1) =
        >>=-eq-ok (stable_version semver m.version) (λ _. after_version semver m) e in
      let (u, shape, e2) =
        >>=-eq-ok (bail_if (has_bad_shape m) "invalid update manifest shape or schema version")
          (λ _. after_shape semver m) e1 in
      let (u', codex, e3) =
        >>=-eq-ok (all_stable semver m.codex_versions) (λ _. validate_assets m.version [] m.assets)
          e2 in
      let (assets, distinct) = (validate_assets_iff m.version [] m.assets).0 e3 in
      let (schema, (some_codex, few_codex), (some_assets, few_assets)) =
        (shape_iff m).0 (
          bail_if-eq-ok (has_bad_shape m) "invalid update manifest shape or schema version"
            shape) in
      record {
        stable = (version, (stable_version_iff semver m.version version).0 stable);
        schema = schema;
        some_codex = some_codex;
        few_codex = few_codex;
        some_assets = some_assets;
        few_assets = few_assets;
        codex_stable = (all_stable_iff semver m.codex_versions).0 codex;
        assets = assets;
        distinct = distinct;
      },
  λ h.
      let (version, stable) = h.stable in
      ap (λ (o : Result Error semver.Version). o >>= λ _. after_version semver m)
        ((stable_version_iff semver m.version version).1 stable)
      ∙ ap
          (λ b. bail_if b "invalid update manifest shape or schema version" >> after_shape semver m)
          ((shape_iff m).1 (h.schema, (h.some_codex, h.few_codex), (h.some_assets, h.few_assets)))
      ∙ ap (λ o. o >>= λ _. validate_assets m.version [] m.assets)
          ((all_stable_iff semver m.codex_versions).1 h.codex_stable)
      ∙ (validate_assets_iff m.version [] m.assets).1 (h.assets, h.distinct),
)
