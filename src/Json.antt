-- ===== src/Json.antt =====
-- JSON values as `serde_json` holds them, and the accessors that src/transport.rs, src/auth.rs and
-- src/protocol.rs call. An object is its entries, one for each key; their order is not observed.
-- Printing, parsing and base64 are third-party code: the record `Codec` has them as parameters.
use rcodex.Common.{
  ℕ, ◌≡◌, refl, Bool, true, false, Option, none, some, arith, if◌then◌else◌, Text, Bytes, text_eq,
  text_eq_iff,
}

-- `PosInt(u64)`, `NegInt(i64)` as the number that is added to -2^63, `Float(f64)` as its bits.
pub data Number : Type 0 where
  pos_int neg_int float : ℕ → Number

mutual
  pub data Value : Type 0 where
    null : Value
    bool : Bool → Value
    number : Number → Value
    string : Text → Value
    array : Items → Value
    object : Map → Value

  pub data Items : Type 0 where
    nil : Items
    cons : Value → Items → Items

  pub data Map : Type 0 where
    empty : Map
    entry : Text → Value → Map → Map

-- `Map::get`.
unfoldable pub field : Text → Map → Option Value
field k empty = none
field k (entry j v m) = if text_eq j k then some v else field k m

-- `Map::insert`.
unfoldable pub insert : Text → Value → Map → Map
insert k v empty = entry k v empty
insert k v (entry j w m) = if text_eq j k then entry k v m else entry j w (insert k v m)

-- `Map::remove`, for its effect.
unfoldable pub remove : Text → Map → Map
remove k empty = empty
remove k (entry j w m) = if text_eq j k then remove k m else entry j w (remove k m)

abbrev pub as_str : Value → Option Text
as_str (string s) = some s
as_str _ = none

abbrev pub as_u64 : Value → Option ℕ
as_u64 (number (pos_int n)) = some n
as_u64 _ = none

abbrev pub as_object : Value → Option Map
as_object (object m) = some m
as_object _ = none

abbrev pub is_object : Value → Bool
is_object (object m) = true
is_object _ = false

-- `Option::and_then`.
abbrev pub and_then {ℓ κ} : {A : Type ℓ} {B : Type κ} → Option A → (A → Option B) → Option B
and_then none f = none
and_then (some a) f = f a

-- `Value::get` by a key.
unfoldable pub get : Text → Value → Option Value
unfolding field
get k v = and_then (as_object v) (field k)

-- `value.get(k).and_then(Value::as_str) == Some(s)`.
unfoldable pub has_str : Text → Text → Value → Bool
unfolding get
has_str k s v = elim (and_then (get k v) as_str) [ none ↦ false | some t ↦ text_eq t s ]

-- `serde_json::to_vec`, `serde_json::from_slice` and the two directions of a base64 engine.
pub record Codec : Type 0 where
  pub to_vec : Value → Option Bytes
  pub from_slice : Bytes → Option Value
  pub encode : Bytes → Text
  pub decode : Text → Option Bytes

-- What the documentation of the base64 engine promises.
pub record IsCodec (c : Codec) : Type 0 where
  pub decode-encode : (b : Bytes) → c.decode (c.encode b) ≡ some b

pub field-insert :
    (k j : Text) (v : Value) (m : Map)
    → field j (insert k v m) ≡ (if text_eq k j then some v else field j m)
unfolding field insert
field-insert k j v empty = refl
field-insert k j v (entry i w m) =
    ground (arith, text_eq_iff k j, text_eq_iff i k, text_eq_iff i j, field-insert k j v m)

pub field-remove :
    (k j : Text) (m : Map) → field j (remove k m) ≡ (if text_eq k j then none else field j m)
unfolding field remove
field-remove k j empty = ground arith
field-remove k j (entry i w m) =
    ground (arith, text_eq_iff k j, text_eq_iff i k, text_eq_iff i j, field-remove k j m)
