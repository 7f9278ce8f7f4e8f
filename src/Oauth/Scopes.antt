-- ===== src/Oauth/Scopes.antt =====
-- When the scopes of a step-up token are the one that src/oauth.rs asks for.
use rcodex.Common.{
  ◌≡◌, ap, ◌∙◌, ◌≢◌, inl, inr, true, List, [], ◌∷◌, Bool-cases, All, Text, text_eq, text_eq_sound,
}
use rcodex.Oauth.{enroll_scope, text_le, insert_text, sort, dedup, is_enroll_only}

is_enroll_only_iff : (ts : List Text) → is_enroll_only ts ≡ true → ts ≡ enroll_scope ∷ []
is_enroll_only_iff [] h = cc
is_enroll_only_iff (s ∷ []) h = ap (λ t. t ∷ []) (text_eq_sound s enroll_scope h)
is_enroll_only_iff (s ∷ t ∷ rest) h = cc

dedup_cons : (t : Text) (us : List Text) → dedup (t ∷ us) ≢ []
unfolding dedup
dedup_cons t [] h = cc
dedup_cons t (u ∷ us) h = elim (Bool-cases (text_eq t u)) [
  | inl same ↦ dedup_cons u us (rw (same, dedup) at h)
  | inr apart ↦ let bad = rw (apart, dedup) at h in cc
]

-- What one text is left of has no other.
dedup-All : (x : Text) (ts : List Text) → dedup ts ≡ x ∷ [] → All (λ t. t ≡ x) ts
unfolding dedup
dedup-All x [] h = cc
dedup-All x (t ∷ []) h = let same : t ≡ x = cc in (same, tt)
dedup-All x (t ∷ u ∷ us) h = elim (Bool-cases (text_eq t u)) [
  | inl same ↦
      let (first, rest) = dedup-All x (u ∷ us) (rw (same, dedup) at h) in
      (text_eq_sound t u same ∙ first, (first, rest))
  | inr apart ↦
      let h' = rw (apart, dedup) at h in
      let none_left : dedup (u ∷ us) ≡ [] = cc in elim (dedup_cons u us none_left) [ ]
]

insert_text-All :
    (P : Text → Type 0) (t : Text) (us : List Text) → All P (insert_text t us) → P t × All P us
unfolding insert_text
insert_text-All P t [] (p, _) = (p, tt)
insert_text-All P t (u ∷ us) h = elim (Bool-cases (text_le t u)) [
  | inl before ↦ let (p, rest) = rw (before, insert_text) at h in (p, rest)
  | inr after ↦
      let (q, rest) = rw (after, insert_text) at h in
      let (p, qs) = insert_text-All P t us rest in (p, (q, qs))
]

sort-All : (P : Text → Type 0) (ts : List Text) → All P (sort ts) → All P ts
unfolding sort
sort-All P [] h = tt
sort-All P (t ∷ ts) h = let (p, ps) = insert_text-All P t (sort ts) h in (p, sort-All P ts ps)

-- Only this scope, and not none.
pub enroll_only-All :
    (ts : List Text)
    → is_enroll_only (dedup (sort ts)) ≡ true
    → All (λ t. t ≡ enroll_scope) ts × (ts ≢ [])
unfolding sort dedup
enroll_only-All [] h = cc
enroll_only-All (t ∷ ts) h = (
  sort-All (λ s. s ≡ enroll_scope) (t ∷ ts)
      (dedup-All enroll_scope (sort (t ∷ ts)) (is_enroll_only_iff (dedup (sort (t ∷ ts))) h)),
  λ bad. cc,
)
