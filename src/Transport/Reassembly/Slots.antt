-- ===== src/Transport/Reassembly/Slots.antt =====
-- The slots of an assembly that has some pieces of a message: src/transport.rs, `Assembly::chunks`.
use rcodex.Common.{
  ℕ, zero, suc, ◌+◌, ◌≤◌, ◌≡◌, refl, ap, ◌⊎◌, inl, inr, Bool, true, false, not, Option, none, some,
  List, [], ◌∷◌, flatten, arith, length, get_elem?, set, replicate, any, all, length-append, Bytes,
}
use rcodex.Transport.Reassembly.{is_none, joined, chunk_at}
use rcodex.Transport.Reassembly.Joining.{arrived}

-- The slots of an assembly: the pieces that the mask shows, and gaps.
abbrev pub shown : List Bool → List Bytes → List (Option Bytes)
shown (true ∷ m) (p ∷ ps) = some p ∷ shown m ps
shown (false ∷ m) (p ∷ ps) = none ∷ shown m ps
shown _ _ = []

abbrev pub complete : List Bool → Bool
complete m = all (λ b. b) m

pub any_none-shown :
    (m : List Bool) (ps : List Bytes)
    → length m ≡ length ps
    → any is_none (shown m ps) ≡ not (complete m)
any_none-shown [] [] e = refl
any_none-shown [] (p ∷ ps) e = absurd (omega arith)
any_none-shown (b ∷ m) [] e = absurd (omega arith)
any_none-shown (true ∷ m) (p ∷ ps) e = any_none-shown m ps (omega arith)
any_none-shown (false ∷ m) (p ∷ ps) e = refl

pub joined-shown :
    (m : List Bool) (ps : List Bytes)
    → length m ≡ length ps
    → complete m ≡ true
    → joined (shown m ps) ≡ flatten ps
unfolding joined flatten
joined-shown [] [] e h = refl
joined-shown [] (p ∷ ps) e h = absurd (omega arith)
joined-shown (b ∷ m) [] e h = absurd (omega arith)
joined-shown (true ∷ m) (p ∷ ps) e h = rw (joined-shown m ps (omega arith) h)
joined-shown (false ∷ m) (p ∷ ps) e h = cc

pub length-shown :
    (m : List Bool) (ps : List Bytes) → length m ≡ length ps → length (shown m ps) ≡ length ps
length-shown [] [] e = refl
length-shown [] (p ∷ ps) e = absurd (omega arith)
length-shown (b ∷ m) [] e = absurd (omega arith)
length-shown (true ∷ m) (p ∷ ps) e = ap suc (length-shown m ps (omega arith))
length-shown (false ∷ m) (p ∷ ps) e = ap suc (length-shown m ps (omega arith))

pub arrived-shown_le :
    (m : List Bool) (ps : List Bytes) → arrived (shown m ps) ≤ length (flatten ps)
unfolding flatten
arrived-shown_le [] [] = omega arith
arrived-shown_le [] (p ∷ ps) = omega arith
arrived-shown_le (true ∷ m) [] = omega arith
arrived-shown_le (false ∷ m) [] = omega arith
arrived-shown_le (true ∷ m) (p ∷ ps) =
    omega (arith, length-append p (flatten ps), arrived-shown_le m ps)
arrived-shown_le (false ∷ m) (p ∷ ps) =
    omega (arith, length-append p (flatten ps), arrived-shown_le m ps)

-- A slot holds its piece, and nothing changes; or it is a gap, which the piece fills.
abbrev pub Slot : List Bool → List Bytes → ℕ → Bytes → Type 0
Slot m ps i p =
    ((chunk_at (shown m ps) i ≡ some p) × (set m i true ≡ m))
    ⊎ ((chunk_at (shown m ps) i ≡ none)
        × (set (shown m ps) i (some p) ≡ shown (set m i true) ps)
        × (arrived (shown (set m i true) ps) ≡ arrived (shown m ps) + length p))

pub slot :
    (m : List Bool) (ps : List Bytes) (i : ℕ) (p : Bytes)
    → length m ≡ length ps
    → get_elem? ps i ≡ some p
    → Slot m ps i p
slot m [] i p e h = cc
slot [] (q ∷ ps) i p e h = absurd (omega arith)
slot (true ∷ m) (q ∷ ps) zero p e h = inl (h, refl)
slot (false ∷ m) (q ∷ ps) zero p e h =
    let same : q ≡ p = cc in inr (refl, cc, rw same (omega arith))
slot (true ∷ m) (q ∷ ps) (suc i) p e h = elim (slot m ps i p (omega arith) h) [
  | inl (at, same) ↦ inl (at, ap (◌∷◌ true) same)
  | inr (gap, filled, more) ↦ inr (gap, ap (◌∷◌ (some q)) filled, omega (arith, more))
]
slot (false ∷ m) (q ∷ ps) (suc i) p e h = elim (slot m ps i p (omega arith) h) [
  | inl (at, same) ↦ inl (at, ap (◌∷◌ false) same)
  | inr (gap, filled, more) ↦ inr (gap, ap (◌∷◌ none) filled, omega (arith, more))
]

pub shown-blank :
    (ps : List Bytes) → shown (replicate (length ps) false) ps ≡ replicate (length ps) none
shown-blank [] = refl
shown-blank (p ∷ ps) = ap (◌∷◌ none) (shown-blank ps)
