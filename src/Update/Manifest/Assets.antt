-- ===== src/Update/Manifest/Assets.antt =====
-- When an asset passes the tests of `ReleaseManifest::validate` of src/update.rs.
use rcodex.Common.{
  ℕ, ◌≤◌, ◌≡◌, refl, sym, ◌≢◌, ◌↔◌, ◌⊎◌, inl, inr, true, false, not, ◌&&◌, List, [], ◌∷◌, arith,
  Bool-cases, all, All, ok, Text, text, text_eq, text_eq_sound, text_eq_iff, str_len,
  is_ascii_digit, is_ascii_uppercase,
}
use mathlib.Core.List.{Memᴰ}
use mathlib.Core.List.Memᴰ
use rcodex.Update.Installation.{ReleaseAsset}
use rcodex.Update.Manifest.{
  max_binary_bytes, is_target, is_ascii_hexdigit, is_in, asset_name, is_bad_asset, validate_assets,
}

abbrev pub IsTarget : Text → Type 0
IsTarget t = (t ≡ text "aarch64-apple-darwin") ⊎ (t ≡ text "x86_64-apple-darwin")

abbrev pub IsHexDigit : ℕ → Type 0
IsHexDigit c = ((48 ≤ c) × (c ≤ 57)) ⊎ ((97 ≤ c) × (c ≤ 102))

-- An asset of a release of this version.
pub record IsAsset (version : Text) (a : ReleaseAsset) : Type 0 where
  pub target : IsTarget a.target
  pub name : a.name ≡ asset_name version a.target
  pub digest_length : str_len a.sha256 ≡ 64
  pub digest_digits : All IsHexDigit a.sha256
  pub not_empty : a.size ≢ 0
  pub bounded : a.size ≤ max_binary_bytes

-- No target is in the list or comes twice.
abbrev pub HasDistinctTargets : List Text → List ReleaseAsset → Type 0
HasDistinctTargets targets [] = Unit
HasDistinctTargets targets (a ∷ rest) =
    ¬ Memᴰ a.target targets × HasDistinctTargets (a.target ∷ targets) rest

pub is_target_iff : (t : Text) → (is_target t ≡ true) ↔ IsTarget t
is_target_iff t =
    ground (
      arith,
      text_eq_iff t (text "aarch64-apple-darwin"),
      text_eq_iff t (text "x86_64-apple-darwin"),
    )

pub is_in_iff : (t : Text) (ts : List Text) → (is_in t ts ≡ true) ↔ Memᴰ t ts
is_in_iff t [] = (λ e. cc, λ d. elim (Memᴰ.not-nil d) [ ])
is_in_iff t (u ∷ ts) = (
  λ e. elim (Bool-cases (text_eq u t)) [
    | inl same ↦ Memᴰ.head (sym (text_eq_sound u t same))
    | inr apart ↦ Memᴰ.tail ((is_in_iff t ts).0 (ground arith))
  ],
  λ d. elim (Memᴰ.cases_cons d) [
    | inl same ↦ ground (arith, text_eq_iff u t)
    | inr m ↦ let h = (is_in_iff t ts).1 m in ground arith
  ],
)

IsHexDigit-iff :
    (c : ℕ) → ((is_ascii_hexdigit c && not (is_ascii_uppercase c)) ≡ true) ↔ IsHexDigit c
unfolding is_ascii_digit is_ascii_uppercase
IsHexDigit-iff c = ground arith

All-IsHexDigit :
    (s : Text)
    → (all (λ c. is_ascii_hexdigit c && not (is_ascii_uppercase c)) s ≡ true) ↔ All IsHexDigit s
All-IsHexDigit [] = (λ e. tt, λ h. refl)
All-IsHexDigit (c ∷ s) = ground (arith, IsHexDigit-iff c, All-IsHexDigit s)

IsAsset-iff :
    (version : Text) (targets : List Text) (a : ReleaseAsset)
    → (is_bad_asset version targets a ≡ false) ↔ (IsAsset version a × ¬ Memᴰ a.target targets)
unfolding is_bad_asset
IsAsset-iff version targets a =
    let digits = All-IsHexDigit a.sha256 in
    let name = text_eq_iff a.name (asset_name version a.target) in
    let known = is_target_iff a.target in
    let seen = is_in_iff a.target targets in
    (
      λ e. (
        record {
          target = known.0 (ground arith);
          name = name.0 (ground arith);
          digest_length = ground arith;
          digest_digits = digits.0 (ground arith);
          not_empty = ground arith;
          bounded = ground arith;
        },
        λ m. let bad = seen.1 m in ground arith,
      ),
      λ (good, fresh).
          let one = known.1 good.target in
          let two = name.1 good.name in
          let three = digits.1 good.digest_digits in
          let four : is_in a.target targets ≡ false = elim (Bool-cases (is_in a.target targets)) [
            | inl bad ↦ elim (fresh (seen.0 bad)) [ ]
            | inr e ↦ e
          ] in
          let five = good.digest_length in
          let six = good.not_empty in let seven = good.bounded in ground arith,
    )

pub validate_assets_iff :
    (version : Text) (targets : List Text) (assets : List ReleaseAsset)
    → (validate_assets version targets assets ≡ ok tt)
      ↔ (All (IsAsset version) assets × HasDistinctTargets targets assets)
unfolding validate_assets
validate_assets_iff version targets [] = (λ e. (tt, tt), λ h. refl)
validate_assets_iff version targets (a ∷ rest) =
    let here = IsAsset-iff version targets a in
    let later = validate_assets_iff version (a.target ∷ targets) rest in
    elim (Bool-cases (is_bad_asset version targets a)) [
      | inl bad ↦ (
        λ e. let impossible = rw bad at e in cc,
        λ ((good, goods), (fresh, distinct)). let e = here.1 (good, fresh) in cc,
      )
      | inr passed ↦
          let (good, fresh) = here.0 passed in
          rw (passed, validate_assets)
            (
              λ e. let (goods, distinct) = later.0 e in ((good, goods), (fresh, distinct)),
              λ ((_, goods), (_, distinct)). later.1 (goods, distinct),
            )
    ]
