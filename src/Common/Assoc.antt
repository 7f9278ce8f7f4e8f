-- ===== src/Common/Assoc.antt =====
-- Hash maps with text keys, as association lists that hold each key once.
use Prim.Native.Nat.{ℕ, suc, ◌+◌}
use mathlib.Core.Path.{◌≡◌, refl}
use mathlib.Core.Logic.{inl, inr}
use mathlib.Core.Option.{Option, none, some}
use mathlib.Core.List.{List, [], ◌∷◌}
use native.Mathlib.Omega.{arith}
use rcodex.Common.Tests.{if◌then◌else◌, Bool-cases}
use rcodex.Common.Lists.{length, All, sum_of}
use rcodex.Common.Texts.{Text, text_eq, text_eq_iff, text_eq_refl}

module _ {ℓ} {V : Type ℓ} where
  unfoldable pub lookup : Text → List (Text × V) → Option V
  lookup k [] = none
  lookup k ((j, v) ∷ m) = if text_eq j k then some v else lookup k m

  -- The entry is replaced where it stands, or new.
  unfoldable pub put : Text → V → List (Text × V) → List (Text × V)
  put k v [] = (k, v) ∷ []
  put k v ((j, w) ∷ m) = if text_eq j k then (k, v) ∷ m else (j, w) ∷ put k v m

  unfoldable pub delete : Text → List (Text × V) → List (Text × V)
  delete k [] = []
  delete k ((j, w) ∷ m) = if text_eq j k then m else (j, w) ∷ delete k m

  abbrev pub HasDistinctKeys : List (Text × V) → Type ℓ
  HasDistinctKeys [] = Unit
  HasDistinctKeys ((j, w) ∷ m) = (lookup j m ≡ none) × HasDistinctKeys m

  pub lookup-put :
      (k j : Text) (v : V) (m : List (Text × V))
      → lookup j (put k v m) ≡ (if text_eq k j then some v else lookup j m)
  unfolding lookup put
  lookup-put k j v [] = refl
  lookup-put k j v ((i, w) ∷ m) =
      ground (arith, text_eq_iff k j, text_eq_iff i k, text_eq_iff i j, lookup-put k j v m)

  pub lookup-put_self : (k : Text) (v : V) (m : List (Text × V)) → lookup k (put k v m) ≡ some v
  lookup-put_self k v m = rw (lookup-put k k v m, text_eq_refl k)

  pub lookup-delete :
      (k j : Text) (m : List (Text × V))
      → HasDistinctKeys m
      → lookup j (delete k m) ≡ (if text_eq k j then none else lookup j m)
  unfolding lookup delete
  lookup-delete k j [] h = ground arith
  lookup-delete k j ((i, w) ∷ m) h =
      ground (arith, text_eq_iff k j, text_eq_iff i k, text_eq_iff i j, lookup-delete k j m h.1)

  pub delete-put : (k : Text) (v : V) (m : List (Text × V)) → delete k (put k v m) ≡ delete k m
  unfolding put delete
  delete-put k v [] = rw (text_eq_refl k)
  delete-put k v ((j, w) ∷ m) = ground (arith, text_eq_refl k, delete-put k v m)

  pub delete_absent : (k : Text) (m : List (Text × V)) → lookup k m ≡ none → delete k m ≡ m
  unfolding lookup delete
  delete_absent k [] h = refl
  delete_absent k ((j, w) ∷ m) h = ground (arith, delete_absent k m)

  pub HasDistinctKeys-put :
      (k : Text) (v : V) (m : List (Text × V)) → HasDistinctKeys m → HasDistinctKeys (put k v m)
  unfolding lookup put
  HasDistinctKeys-put k v [] h = (refl, tt)
  HasDistinctKeys-put k v ((j, w) ∷ m) h =
      ground
        (arith, text_eq_iff j k, text_eq_iff k j, lookup-put k j v m, HasDistinctKeys-put k v m h.1)

  pub HasDistinctKeys-delete :
      (k : Text) (m : List (Text × V)) → HasDistinctKeys m → HasDistinctKeys (delete k m)
  unfolding lookup delete
  HasDistinctKeys-delete k [] h = tt
  HasDistinctKeys-delete k ((j, w) ∷ m) h =
      ground (arith, lookup-delete k j m h.1, HasDistinctKeys-delete k m h.1)

  pub All-delete {κ} :
      (P : Text × V → Type κ) (k : Text) (m : List (Text × V)) → All P m → All P (delete k m)
  unfolding delete
  All-delete P k [] h = tt
  All-delete P k ((j, w) ∷ m) (h, hs) = elim (Bool-cases (text_eq j k)) [
    | inl e ↦ rw e hs
    | inr e ↦ rw e (h, All-delete P k m hs)
  ]

  -- The entry of a key, told apart from the others.
  pub All-restore {κ} :
      (P : V → Type κ) (k : Text) (v : V) (m : List (Text × V))
      → lookup k m ≡ some v
      → P v
      → All (λ e. P e.1) (delete k m)
      → All (λ e. P e.1) m
  unfolding lookup delete
  All-restore P k v [] e p h = tt
  All-restore P k v ((j, w) ∷ m) e p h = elim (Bool-cases (text_eq j k)) [
    | inl same ↦ let kept : w ≡ v = ground arith in (rw kept p, rw (same, delete) at h)
    | inr other ↦
        let (q, qs) : P w × All (λ e. P e.1) (delete k m) = rw (other, delete) at h in
        (q, All-restore P k v m (ground arith) p qs)
  ]

  pub All-lookup {κ} :
      (P : V → Type κ) (k : Text) (v : V) (m : List (Text × V))
      → lookup k m ≡ some v
      → All (λ e. P e.1) m
      → P v
  unfolding lookup
  All-lookup P k v [] e h = cc
  All-lookup P k v ((j, w) ∷ m) e (h, hs) = elim (Bool-cases (text_eq j k)) [
    | inl same ↦ let kept : w ≡ v = ground arith in rw (← kept) h
    | inr other ↦ All-lookup P k v m (ground arith) hs
  ]

  pub length-delete :
      (k : Text) (v : V) (m : List (Text × V))
      → lookup k m ≡ some v
      → length m ≡ suc (length (delete k m))
  unfolding lookup delete
  length-delete k v [] e = cc
  length-delete k v ((j, w) ∷ m) e = ground (arith, length-delete k v m)

  pub sum_of-delete :
      (f : V → ℕ) (k : Text) (v : V) (m : List (Text × V))
      → lookup k m ≡ some v
      → sum_of (λ e. f e.1) m ≡ f v + sum_of (λ e. f e.1) (delete k m)
  unfolding lookup delete
  sum_of-delete f k v [] e = cc
  sum_of-delete f k v ((j, w) ∷ m) e = ground (arith, sum_of-delete f k v m)
