-- ===== src/Api/Names.antt =====
-- src/api.rs: which of its names an environment is shown under.
use rcodex.Common.{
  ◌≡◌, refl, sym, ap, ◌∙◌, inl, inr, true, false, Option, none, some, List, [], ◌∷◌, ◌++◌,
  Bool-cases, Text, trim_start, trim_end, trim,
}
use rcodex.Api.Environment.{RemoteEnvironment, is_blank, first_nonempty, display_name}

-- Nothing but missing and blank texts.
abbrev pub AreBlank : List (Option Text) → Type 0
AreBlank [] = Unit
AreBlank (none ∷ vs) = AreBlank vs
AreBlank (some s ∷ vs) = (is_blank s ≡ true) × AreBlank vs

-- The first of these texts that is there and not blank.
abbrev pub IsFirst : List (Option Text) → Text → Type 0
IsFirst vs s =
    (before after : List (Option Text)) × (vs ≡ before ++ (some s ∷ after))
    × AreBlank before
    × (is_blank s ≡ false)

-- Its own label comes first, then its name, that of its host, and at last its identifier.
abbrev pub IsDisplayName : RemoteEnvironment → Text → Type 0
IsDisplayName e = IsFirst (e.display_label ∷ e.name ∷ e.host_label ∷ some e.env_id ∷ [])

first_nonempty-IsFirst :
    (vs : List (Option Text))
    → is_blank (first_nonempty vs) ≡ false
    → IsFirst vs (first_nonempty vs)
unfolding first_nonempty trim trim_start trim_end
first_nonempty-IsFirst [] h = cc
first_nonempty-IsFirst (none ∷ vs) h =
    let (before, after, e, blank, filled) = first_nonempty-IsFirst vs h in
    (none ∷ before, after, ap (λ xs. none ∷ xs) e, blank, filled)
first_nonempty-IsFirst (some s ∷ vs) h = elim (Bool-cases (is_blank s)) [
  | inl empty ↦
      let (before, after, e, blank, filled) = first_nonempty-IsFirst vs (rw empty at h) in
      rw empty (some s ∷ before, after, ap (λ xs. some s ∷ xs) e, (empty, blank), filled)
  | inr here ↦ rw here ([], vs, refl, tt, here)
]

first_nonempty-append :
    (before after : List (Option Text)) (s : Text)
    → AreBlank before
    → is_blank s ≡ false
    → first_nonempty (before ++ (some s ∷ after)) ≡ s
unfolding first_nonempty
first_nonempty-append [] after s blank filled = rw filled refl
first_nonempty-append (none ∷ vs) after s blank filled =
    first_nonempty-append vs after s blank filled
first_nonempty-append (some t ∷ vs) after s (empty, blank) filled =
    rw empty (first_nonempty-append vs after s blank filled)

pub display_name-IsDisplayName :
    (e : RemoteEnvironment) → is_blank (display_name e) ≡ false → IsDisplayName e (display_name e)
unfolding display_name
display_name-IsDisplayName e h =
    first_nonempty-IsFirst (e.display_label ∷ e.name ∷ e.host_label ∷ some e.env_id ∷ []) h

pub IsDisplayName-display_name :
    (e : RemoteEnvironment) (s : Text) → IsDisplayName e s → s ≡ display_name e
unfolding display_name
IsDisplayName-display_name e s (before, after, same, blank, filled) =
    sym (ap first_nonempty same ∙ first_nonempty-append before after s blank filled)
