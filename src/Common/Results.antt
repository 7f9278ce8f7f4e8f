-- ===== src/Common/Results.antt =====
-- Fallible code: a result with an error type of its own, the `?` operator as a bind, and a guard for
-- `if … { bail!(…) }`. An `anyhow` error is its outermost message.
use Prim.Native.String.{String}
use mathlib.Core.Path.{◌≡◌, refl}
use mathlib.Core.Logic.{◌⊎◌, inl, inr}
use mathlib.Core.Bool.{Bool, true, false}
use mathlib.Core.Option.{Option, none, some}

pub data Result {ℓ} (E : Type 0) (A : Type ℓ) : Type ℓ where
  ok : A → Result E A
  err : E → Result E A

-- The message that `to_string` of an `anyhow` error gives.
abbrev pub Error : Type 0
Error = String

infixl 5 ◌>>=◌ ◌>>◌
-- The `?` operator: an error skips what follows.
abbrev pub ◌>>=◌ {ℓ κ} :
    {E : Type 0} {A : Type ℓ} {B : Type κ} → Result E A → (A → Result E B) → Result E B
err failure >>= next = err failure
ok value >>= next = next value

-- `if refused { bail!(e) }`.
abbrev pub bail_if : {E : Type 0} → Bool → E → Result E (Unit {0})
bail_if true e = err e
bail_if false e = ok tt

-- A guard and what follows it.
abbrev pub ◌>>◌ {ℓ} : {E : Type 0} {B : Type ℓ} → Result E (Unit {0}) → Result E B → Result E B
test >> rest = test >>= λ passed. rest

-- `Option::context`, `ok_or`.
abbrev pub context {ℓ} : {E : Type 0} {A : Type ℓ} → E → Option A → Result E A
context e none = err e
context e (some a) = ok a

-- `Result::map_err` with a constant error, and `Result::context`.
abbrev pub map_err {ℓ} : {D E : Type 0} {A : Type ℓ} → E → Result D A → Result E A
map_err e (ok a) = ok a
map_err e (err d) = err e

abbrev pub is_ok {ℓ} : {E : Type 0} {A : Type ℓ} → Result E A → Bool
is_ok (ok a) = true
is_ok (err e) = false

-- A chain that succeeds has succeeded at its first step and gone on from there.
pub >>=-eq-ok {ℓ κ} :
    {E : Type 0} {A : Type ℓ} {B : Type κ} (first : Result E A) (next : A → Result E B) {end : B}
    → (first >>= next) ≡ ok end
    → (value : A) × (first ≡ ok value) × (next value ≡ ok end)
>>=-eq-ok (err failure) next reached = cc
>>=-eq-ok (ok value) next reached = (value, refl, reached)

pub bail_if-eq-ok : {E : Type 0} (b : Bool) (e : E) {u : Unit {0}} → bail_if b e ≡ ok u → b ≡ false
bail_if-eq-ok true e h = cc
bail_if-eq-ok false e h = refl

pub context-eq-ok {ℓ} :
    {E : Type 0} {A : Type ℓ} (e : E) (o : Option A) {a : A} → context e o ≡ ok a → o ≡ some a
context-eq-ok e none h = cc
context-eq-ok e (some x) h = cc

pub Result-cases {ℓ} :
    {E : Type 0} {A : Type ℓ} (m : Result E A) → ((e : E) × (m ≡ err e)) ⊎ ((a : A) × (m ≡ ok a))
Result-cases (ok a) = inr (a, refl)
Result-cases (err e) = inl (e, refl)
