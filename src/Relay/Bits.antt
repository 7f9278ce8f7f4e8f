-- ===== src/Relay/Bits.antt =====
-- `constant_time_equal` of src/relay.rs tells equal bytes from others.
use rcodex.Common.{
  ℕ, zero, suc, ◌/◌, ◌%◌, ◌≤◌, max, ◌≡◌, refl, sym, ap, ◌∙◌, ◌↔◌, inl, inr, true, [], ◌∷◌, arith,
  ◌==◌, if◌then◌else◌, Bool-cases, length, Bytes,
}
use Prim.Native.Nat.{bit_or, bit_xor, digits, differ, bit_or-bitwise, bit_xor-bitwise}
use rcodex.Relay.{difference, constant_time_equal}

differ_zero : (a b : ℕ) → differ a b ≡ 0 → a ≡ b
differ_zero zero b h = sym h
differ_zero (suc a) zero h = cc
differ_zero (suc a) (suc b) h = ap suc (differ_zero a b h)

differ_self : (a : ℕ) → differ a a ≡ 0
differ_self zero = refl
differ_self (suc a) = differ_self a

digits-differ_zero : (n a b : ℕ) → a ≤ n → digits (λ b. b) differ n a b ≡ 0 → a ≡ b
digits-differ_zero zero a b small h = omega arith
digits-differ_zero (suc n) zero b small h = sym h
digits-differ_zero (suc n) (suc a) b small h =
    let halves = digits-differ_zero n (suc a / 2) (b / 2) (omega arith) (omega arith) in
    let rests = differ_zero (suc a % 2) (b % 2) (omega arith) in omega arith

digits-differ_self : (n a : ℕ) → a ≤ n → digits (λ b. b) differ n a a ≡ 0
digits-differ_self zero a small = omega arith
digits-differ_self (suc n) zero small = refl
digits-differ_self (suc n) (suc a) small =
    let halves = digits-differ_self n (suc a / 2) (omega arith) in
    let rests = differ_self (suc a % 2) in omega arith

digits-max_zero : (n a b : ℕ) → a ≤ n → digits (λ b. b) max n a b ≡ 0 → (a ≡ 0) × (b ≡ 0)
digits-max_zero zero a b small h = (omega arith, h)
digits-max_zero (suc n) zero b small h = (refl, h)
digits-max_zero (suc n) (suc a) b small h =
    let (left, right) = digits-max_zero n (suc a / 2) (b / 2) (omega arith) (omega arith) in
    let rests : max (suc a % 2) (b % 2) ≡ 0 = omega arith in (omega arith, omega arith)

bit_xor_iff : (a b : ℕ) → (bit_xor a b ≡ 0) ↔ (a ≡ b)
bit_xor_iff a b =
    let written : bit_xor a b ≡ digits (λ b. b) differ a a b = bit_xor-bitwise a b in
    (
      λ h. digits-differ_zero a a b (omega arith) (sym written ∙ h),
      λ same.
          written
          ∙ ap (digits (λ b. b) differ a a) (sym same)
          ∙ digits-differ_self a a (omega arith),
    )

bit_or_iff : (a b : ℕ) → (bit_or a b ≡ 0) ↔ ((a ≡ 0) × (b ≡ 0))
bit_or_iff a b =
    let written : bit_or a b ≡ digits (λ b. b) max a a b = bit_or-bitwise a b in
    (
      λ h. digits-max_zero a a b (omega arith) (sym written ∙ h),
      λ (one, two). written ∙ ap (λ n. digits (λ b. b) max n n b) one ∙ two,
    )

difference_iff :
    (d : ℕ) (left right : Bytes)
    → length left ≡ length right
    → (difference d left right ≡ 0) ↔ ((d ≡ 0) × (left ≡ right))
unfolding difference
difference_iff d [] [] same = (λ h. (h, refl), λ (h, _). h)
difference_iff d [] (r ∷ right) same = (λ h. cc, λ (_, bad). cc)
difference_iff d (l ∷ left) [] same = (λ h. cc, λ (_, bad). cc)
difference_iff d (l ∷ left) (r ∷ right) same =
    let rest = difference_iff (bit_or d (bit_xor l r)) left right (omega (arith, same)) in
    (
      λ h.
          let (both, equal) = rest.0 h in
          let (before, here) = (bit_or_iff d (bit_xor l r)).0 both in
          let first = (bit_xor_iff l r).0 here in (before, rw first (rw equal refl)),
      λ (before, equal).
          let first : l ≡ r = cc in
          let others : left ≡ right = cc in
          rest.1 ((bit_or_iff d (bit_xor l r)).1 (before, (bit_xor_iff l r).1 first), others),
    )

pub constant_time_equal_iff :
    (left right : Bytes) → (constant_time_equal left right ≡ true) ↔ (left ≡ right)
unfolding constant_time_equal
constant_time_equal_iff left right = elim (Bool-cases (length left == length right)) [
  | inl same ↦
      let lengths : length left ≡ length right = ground (arith, same) in
      let cases = difference_iff 0 left right lengths in
      rw (same, if◌then◌else◌)
        (
          λ h. (cases.0 (ground (arith, h))).1,
          λ h. let zero_left = cases.1 (refl, h) in ground (arith, zero_left),
        )
  | inr apart ↦ (
    λ h. ground (arith, h, apart),
    λ h. let lengths = ap length h in ground (arith, apart, lengths),
  )
]
