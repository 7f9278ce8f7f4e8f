-- ===== src/Api/Choice.antt =====
-- Which environment `select_environment` of src/shim.rs chooses.
use rcodex.Common.{
  ◌≡◌, refl, ap, ◌∙◌, ◌≢◌, ◌↔◌, inl, inr, true, false, Option, none, some, List, [], ◌∷◌, ◌++◌,
  arith, if◌then◌else◌, Bool-cases, find_first, ok, err, Text, text_eq_sound, text_eq_iff,
}
use rcodex.Api.Environment.{
  RemoteEnvironment, has_id, online_only, select_found, select_only, select_environment,
}

select_only-eq-ok :
    (es : List RemoteEnvironment) (e : RemoteEnvironment) → select_only es ≡ ok e → es ≡ e ∷ []
unfolding select_only
select_only-eq-ok [] e h = cc
select_only-eq-ok (f ∷ []) e h = ground arith
select_only-eq-ok (f ∷ g ∷ es) e h = cc

-- None of these environments is online.
abbrev pub AreOffline : List RemoteEnvironment → Type 0
AreOffline [] = Unit
AreOffline (e ∷ es) = (e.online ≡ false) × AreOffline es

-- All environments before this one and after it are offline.
abbrev pub IsAlone : List RemoteEnvironment → RemoteEnvironment → Type 0
IsAlone es e =
    (before after : List RemoteEnvironment) × (es ≡ before ++ (e ∷ after))
    × AreOffline before
    × AreOffline after

online_only-AreOffline : (es : List RemoteEnvironment) → online_only es ≡ [] → AreOffline es
unfolding online_only
online_only-AreOffline [] h = tt
online_only-AreOffline (f ∷ es) h = elim (Bool-cases f.online) [
  | inl on ↦ cc (rw on at h)
  | inr off ↦ (off, online_only-AreOffline es (rw off at h))
]

online_only-IsAlone :
    (es : List RemoteEnvironment) (e : RemoteEnvironment)
    → online_only es ≡ e ∷ []
    → (e.online ≡ true) × IsAlone es e
unfolding online_only
online_only-IsAlone [] e h = cc
online_only-IsAlone (f ∷ es) e h = elim (Bool-cases f.online) [
  | inl on ↦
      let taken : f ∷ online_only es ≡ e ∷ [] = simp on at h in
      let same : f ≡ e = cc in
      let rest : online_only es ≡ [] = cc in
      let offline = online_only-AreOffline es rest in
      (rw (← same) on, ([], es, ap (λ g. g ∷ es) same, tt, offline))
  | inr off ↦
      let (on, (before, after, e', left, right)) = online_only-IsAlone es e (rw off at h) in
      (on, (f ∷ before, after, ap (λ xs. f ∷ xs) e', (off, left), right))
]

AreOffline-online_only : (es : List RemoteEnvironment) → AreOffline es → online_only es ≡ []
unfolding online_only
AreOffline-online_only [] h = refl
AreOffline-online_only (f ∷ es) (off, rest) = rw off (AreOffline-online_only es rest)

IsAlone-online_only :
    (before after : List RemoteEnvironment) (e : RemoteEnvironment)
    → AreOffline before
    → AreOffline after
    → e.online ≡ true
    → online_only (before ++ (e ∷ after)) ≡ e ∷ []
unfolding online_only
IsAlone-online_only [] after e left right on =
    ap (λ b. if b then e ∷ online_only after else online_only after) on
    ∙ ap (λ xs. e ∷ xs) (AreOffline-online_only after right)
IsAlone-online_only (f ∷ before) after e (off, left) right on =
    rw off (IsAlone-online_only before after e left right on)

-- Without a request, a host is chosen exactly if it is online and every other one is offline.
select_environment-IsAlone :
    (es : List RemoteEnvironment) (e : RemoteEnvironment)
    → (select_environment es none ≡ ok e) ↔ ((e.online ≡ true) × IsAlone es e)
unfolding select_environment select_only
select_environment-IsAlone es e = (
  λ h. online_only-IsAlone es e (select_only-eq-ok (online_only es) e h),
  λ (on, (before, after, same, left, right)).
      ap (λ xs. select_only (online_only xs)) same
      ∙ ap select_only (IsAlone-online_only before after e left right on),
)

-- Other environments before this one have other identifiers.
abbrev pub AreOthers : Text → List RemoteEnvironment → Type 0
AreOthers id [] = Unit
AreOthers id (e ∷ es) = (e.env_id ≢ id) × AreOthers id es

-- The first environment with this identifier.
abbrev pub IsNamed : List RemoteEnvironment → Text → RemoteEnvironment → Type 0
IsNamed es id e =
    (before after : List RemoteEnvironment) × (es ≡ before ++ (e ∷ after))
    × AreOthers id before
    × (e.env_id ≡ id)

find_first-IsNamed :
    (es : List RemoteEnvironment) (id : Text) (e : RemoteEnvironment)
    → find_first (has_id id) es ≡ some e
    → IsNamed es id e
find_first-IsNamed [] id e h = cc
find_first-IsNamed (f ∷ es) id e h = elim (Bool-cases (has_id id f)) [
  | inl hit ↦
      let same : f ≡ e = cc (rw (hit, find_first) at h) in
      ([], es, ap (λ g. g ∷ es) same, tt, rw (← same) (text_eq_sound f.env_id id hit))
  | inr miss ↦
      let (before, after, e', others, named) =
        find_first-IsNamed es id e (rw (miss, find_first) at h) in
      (
        f ∷ before,
        after,
        ap (λ xs. f ∷ xs) e',
        (λ same. cc ((text_eq_iff f.env_id id).1 same, miss), others),
        named,
      )
]

find_first-append :
    (before after : List RemoteEnvironment) (id : Text) (e : RemoteEnvironment)
    → AreOthers id before
    → e.env_id ≡ id
    → find_first (has_id id) (before ++ (e ∷ after)) ≡ some e
find_first-append [] after id e others named =
    rw ((text_eq_iff e.env_id id).1 named, find_first) refl
find_first-append (f ∷ before) after id e (other, others) named = elim (Bool-cases (has_id id f)) [
  | inl hit ↦ absurd (other (text_eq_sound f.env_id id hit))
  | inr miss ↦ rw (miss, find_first) (find_first-append before after id e others named)
]

select_found-eq-ok :
    (o : Option RemoteEnvironment) (e : RemoteEnvironment)
    → select_found o ≡ ok e
    → (o ≡ some e) × (e.online ≡ true)
unfolding select_found
select_found-eq-ok none e h = cc
select_found-eq-ok (some f) e h = elim (Bool-cases f.online) [
  | inl on ↦ let same : f ≡ e = cc (rw on at h) in (ap some same, rw (← same) on)
  | inr off ↦ cc (rw off at h)
]

-- With a request, a host is chosen exactly if it is the first with this identifier and online.
select_environment-IsNamed :
    (es : List RemoteEnvironment) (id : Text) (e : RemoteEnvironment)
    → (select_environment es (some id) ≡ ok e) ↔ ((e.online ≡ true) × IsNamed es id e)
unfolding select_environment select_found
select_environment-IsNamed es id e = (
  λ h.
      let (found, on) = select_found-eq-ok (find_first (has_id id) es) e h in
      (on, find_first-IsNamed es id e found),
  λ (on, (before, after, same, others, named)).
      ap (λ xs. select_found (find_first (has_id id) xs)) same
      ∙ ap select_found (find_first-append before after id e others named)
      ∙ ap (λ b. if b then ok e else err "remote-control environment is offline") on,
)

-- The host that was asked for; the only one that is online, if none was.
abbrev pub IsChoice : List RemoteEnvironment → Option Text → RemoteEnvironment → Type 0
IsChoice es (some id) e = IsNamed es id e
IsChoice es none e = IsAlone es e

-- A host is chosen exactly if it is in the list and online and, where one was asked for, it is the
-- first with that identifier or, where none was, all others in the list are offline.
pub select_environment-IsChoice :
    (es : List RemoteEnvironment) (requested : Option Text) (e : RemoteEnvironment)
    → (select_environment es requested ≡ ok e) ↔ ((e.online ≡ true) × IsChoice es requested e)
select_environment-IsChoice es (some id) e = select_environment-IsNamed es id e
select_environment-IsChoice es none e = select_environment-IsAlone es e
