-- ===== src/Transport/Segments/Chunks.antt =====
-- Facts on `slice::chunks`: the pieces join to the slice, each is as long as it may be, and how many
-- there are.
use rcodex.Common.{
  ℕ, zero, suc, ◌+◌, ◌-◌, ◌*◌, ◌≤◌, ◌<◌, ◌≡◌, refl, ◌⊎◌, inl, inr, [], ◌∷◌, flatten, arith, length,
  drop, All, length-take, length-drop, take-append-drop, Bytes,
}
use rcodex.Transport.Segments.{chunks_on, chunks}

flatten-chunks_on :
    (f size : ℕ) (bytes : Bytes)
    → 0 < size
    → length bytes ≤ f
    → flatten (chunks_on f size bytes) ≡ bytes
unfolding chunks_on flatten
flatten-chunks_on zero size [] h e = refl
flatten-chunks_on zero size (b ∷ bytes) h e = absurd (omega arith)
flatten-chunks_on (suc f) size [] h e = refl
flatten-chunks_on (suc f) size (b ∷ bytes) h e =
    rw
      (flatten-chunks_on f size (drop size (b ∷ bytes)) h
        (omega (arith, length-drop size (b ∷ bytes))))
      (take-append-drop size (b ∷ bytes))

-- Each piece has a byte, and at most `size` of them.
abbrev pub IsPiece : ℕ → Bytes → Type 0
IsPiece size p = (0 < length p) × (length p ≤ size)

chunks_on-IsPiece :
    (f size : ℕ) (bytes : Bytes) → 0 < size → All (IsPiece size) (chunks_on f size bytes)
unfolding chunks_on
chunks_on-IsPiece zero size bytes h = tt
chunks_on-IsPiece (suc f) size [] h = tt
chunks_on-IsPiece (suc f) size (b ∷ bytes) h = (
  omega (arith, length-take size (b ∷ bytes)),
  chunks_on-IsPiece f size (drop size (b ∷ bytes)) h,
)

product_cases : (a n : ℕ) → (a * n ≡ 0) ⊎ (a ≤ a * n)
product_cases a zero = inl (omega arith)
product_cases a (suc n) = inr (omega arith)

bounds_step :
    (size total rest n : ℕ)
    → 0 < total
    → rest ≡ total - size
    → rest ≤ size * n
    → size * n < rest + size
    → (total ≤ size * suc n) × (size * suc n < total + size)
bounds_step size total rest n p e low high =
    (omega (arith, low, e), omega (arith, high, e, product_cases size n))

-- All the pieces but the last are full, so there is no room for one more or one less.
length-chunks_on_bounds :
    (f size : ℕ) (bytes : Bytes)
    → 0 < size
    → length bytes ≤ f
    → (length bytes ≤ size * length (chunks_on f size bytes))
      × (size * length (chunks_on f size bytes) < length bytes + size)
unfolding chunks_on
length-chunks_on_bounds zero size [] h e = (omega arith, omega arith)
length-chunks_on_bounds zero size (b ∷ bytes) h e = absurd (omega arith)
length-chunks_on_bounds (suc f) size [] h e = (omega arith, omega arith)
length-chunks_on_bounds (suc f) size (b ∷ bytes) h e =
    let rest = drop size (b ∷ bytes) in
    let shorter = length-drop size (b ∷ bytes) in
    let (low, high) = length-chunks_on_bounds f size rest h (omega (arith, shorter)) in
    bounds_step size (suc (length bytes)) (length rest) (length (chunks_on f size rest))
      (omega arith) shorter low high

pub flatten-chunks : (size : ℕ) (bytes : Bytes) → 0 < size → flatten (chunks size bytes) ≡ bytes
unfolding chunks
flatten-chunks size bytes h = flatten-chunks_on (length bytes) size bytes h (omega arith)

pub chunks-IsPiece : (size : ℕ) (bytes : Bytes) → 0 < size → All (IsPiece size) (chunks size bytes)
unfolding chunks
chunks-IsPiece size bytes h = chunks_on-IsPiece (length bytes) size bytes h

pub length-chunks_bounds :
    (size : ℕ) (bytes : Bytes)
    → 0 < size
    → (length bytes ≤ size * length (chunks size bytes))
      × (size * length (chunks size bytes) < length bytes + size)
unfolding chunks
length-chunks_bounds size bytes h =
    length-chunks_on_bounds (length bytes) size bytes h (omega arith)
