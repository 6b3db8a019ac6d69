-- ===== src/Types/Value/Compare.antt =====
-- Comparison of values: `to_double`, `compare`, `operator==` and `hash` of src/types/value.cpp.
pub mod Order
use Prim.Native.Nat.{compare, Ordering, bit_xor}
use lattice_db_next_gen_dbms.Prelude.{
  ℕ, ◌+◌, ◌*◌, ◌/◌, ◌%◌, ◌^◌, ◌<◌, ◌≡◌, Bool, true, false, not, ◌&&◌, ◌||◌, List, [], ◌∷◌,
}
use lattice_db_next_gen_dbms.Prelude.Tests.{◌==◌, ltb, if◌then◌else◌}
use lattice_db_next_gen_dbms.Prelude.Lists.{length}
use lattice_db_next_gen_dbms.Types.Value.{
  ValueType, null_type, boolean, tinyint, smallint, integer, bigint, decimal, real, double, varchar,
  text, timestamp, date, time, blob, vector, type_code, ValueData, Value, Try, ok, throws, ◌>>=◌,
  cannot_convert, incomparable, get_bool, get_int8, get_int16, get_int32, get_int64, get_double,
  get_string, get_blob, get_vector, is_numeric,
}

-- The sign of the `int` that a comparison returns, which is what its callers read.
pub data Sign : Type 0 where
  less : Sign
  equal : Sign
  greater : Sign

abbrev pub flip : Sign → Sign
flip less = greater
flip equal = equal
flip greater = less

-- What the code takes from the platform: floating point numbers, by their bits, and `std::hash`.
pub record Platform : Type 0 where
  -- `a < b`, `a == b` and `fabs(a - b) < 1e-9`.
  pub double_lt : ℕ → ℕ → Bool
  pub double_eq : ℕ → ℕ → Bool
  pub near : ℕ → ℕ → Bool
  -- `static_cast<double>` of an integer of so many bytes, and back.
  pub to_real : ℕ → ℕ → ℕ
  pub of_real : ℕ → ℕ → ℕ
  -- `llround(d * 1e6)` as 64 bits.
  pub micros : ℕ → ℕ
  -- `std::hash` of an integer of so many bytes, and of a string.
  pub hash_number : ℕ → ℕ → ℕ
  pub hash_string : List ℕ → ℕ

-- `(a > b) - (a < b)`.
abbrev pub sign_of : Bool → Bool → Sign
sign_of gt lt = if gt then (if lt then equal else greater) else if lt then less else equal

abbrev pub sign_of_ordering : Ordering → Sign
sign_of_ordering Ordering.lt = less
sign_of_ordering Ordering.eq = equal
sign_of_ordering Ordering.gt = greater

-- The order of two's-complement patterns of `w` bytes.
abbrev pub signed_sign : ℕ → ℕ → ℕ → Sign
signed_sign w x y =
    let half = 256 ^ w / 2 in
    sign_of_ordering (compare ((x + half) % 256 ^ w) ((y + half) % 256 ^ w))

abbrev pub bool_sign : Bool → Bool → Sign
bool_sign a b = if a then (if b then equal else greater) else if b then less else equal

-- `std::string::compare`, and the order of byte vectors.
unfoldable pub bytes_sign : List ℕ → List ℕ → Sign
bytes_sign [] [] = equal
bytes_sign [] (y ∷ ys) = less
bytes_sign (x ∷ xs) [] = greater
bytes_sign (x ∷ xs) (y ∷ ys) = elim (compare x y) [
  | Ordering.lt ↦ less
  | Ordering.gt ↦ greater
  | Ordering.eq ↦ bytes_sign xs ys
]

-- `==` of strings and of byte vectors.
unfoldable pub bytes_equal : List ℕ → List ℕ → Bool
bytes_equal [] [] = true
bytes_equal [] (y ∷ ys) = false
bytes_equal (x ∷ xs) [] = false
bytes_equal (x ∷ xs) (y ∷ ys) = x == y && bytes_equal xs ys

abbrev pub is_text : ValueType → Bool
is_text varchar = true
is_text text = true
is_text other = false

abbrev pub same_type : ValueType → ValueType → Bool
same_type s t = type_code s == type_code t

-- The loop of `hash` over a blob.
unfoldable pub hash_blob : List ℕ → ℕ → ℕ
hash_blob [] h = h
hash_blob (b ∷ bs) h = hash_blob bs ((h * 131 + b) % 2 ^ 64)

module _ (p : Platform) where
  -- `a == b` and `a < b` of vectors of doubles.
  unfoldable pub vector_eq : List ℕ → List ℕ → Bool
  vector_eq [] [] = true
  vector_eq [] (y ∷ ys) = false
  vector_eq (x ∷ xs) [] = false
  vector_eq (x ∷ xs) (y ∷ ys) = p.double_eq x y && vector_eq xs ys

  unfoldable pub vector_lt : List ℕ → List ℕ → Bool
  vector_lt xs [] = false
  vector_lt [] (y ∷ ys) = true
  vector_lt (x ∷ xs) (y ∷ ys) =
      if p.double_lt x y then true else if p.double_lt y x then false else vector_lt xs ys

  unfoldable pub vector_sign : List ℕ → List ℕ → Sign
  vector_sign a b = if vector_eq a b then equal else if vector_lt a b then less else greater

  abbrev pub double_sign : ℕ → ℕ → Sign
  double_sign x y = sign_of (p.double_lt y x) (p.double_lt x y)

  -- `to_double`.
  unfoldable pub to_double : ValueType → ValueData → Try ℕ
  to_double tinyint d = get_int8 d >>= λ x. ok (p.to_real 1 x)
  to_double smallint d = get_int16 d >>= λ x. ok (p.to_real 2 x)
  to_double integer d = get_int32 d >>= λ x. ok (p.to_real 4 x)
  to_double bigint d = get_int64 d >>= λ x. ok (p.to_real 8 x)
  to_double decimal d = get_double d
  to_double real d = get_double d
  to_double double d = get_double d
  to_double boolean d = get_bool d >>= λ b. ok (p.to_real 4 (if b then 1 else 0))
  to_double other d = throws cannot_convert

  -- The switch of `compare` for two values of one type.
  unfoldable pub compare_same : ValueType → ValueData → ValueData → Try Sign
  compare_same null_type a b = ok equal
  compare_same boolean a b = get_bool a >>= λ x. get_bool b >>= λ y. ok (bool_sign x y)
  compare_same tinyint a b = get_int8 a >>= λ x. get_int8 b >>= λ y. ok (signed_sign 1 x y)
  compare_same smallint a b = get_int16 a >>= λ x. get_int16 b >>= λ y. ok (signed_sign 2 x y)
  compare_same integer a b = get_int32 a >>= λ x. get_int32 b >>= λ y. ok (signed_sign 4 x y)
  compare_same bigint a b = get_int64 a >>= λ x. get_int64 b >>= λ y. ok (signed_sign 8 x y)
  compare_same decimal a b = get_double a >>= λ x. get_double b >>= λ y. ok (double_sign x y)
  compare_same real a b = get_double a >>= λ x. get_double b >>= λ y. ok (double_sign x y)
  compare_same double a b = get_double a >>= λ x. get_double b >>= λ y. ok (double_sign x y)
  compare_same blob a b = get_blob a >>= λ x. get_blob b >>= λ y. ok (bytes_sign x y)
  compare_same vector a b = get_vector a >>= λ x. get_vector b >>= λ y. ok (vector_sign x y)
  compare_same string_type a b = get_string a >>= λ x. get_string b >>= λ y. ok (bytes_sign x y)

  -- `compare`.
  unfoldable pub compare_values : Value → Value → Try Sign
  compare_values a b =
      if same_type a.type b.type
      then compare_same a.type a.content b.content
      else if is_numeric a.type && is_numeric b.type
      then (to_double a.type a.content >>= λ x.
          to_double b.type b.content >>= λ y. ok (double_sign x y))
      else if is_text a.type && is_text b.type
      then (get_string a.content >>= λ x. get_string b.content >>= λ y. ok (bytes_sign x y))
      else throws incomparable

  -- The switch of `operator==` for two values of one type.
  unfoldable pub equal_same : ValueType → ValueData → ValueData → Try Bool
  equal_same null_type a b = ok true
  equal_same boolean a b = get_bool a >>= λ x. get_bool b >>= λ y. ok (if x then y else not y)
  equal_same tinyint a b = get_int8 a >>= λ x. get_int8 b >>= λ y. ok (x == y)
  equal_same smallint a b = get_int16 a >>= λ x. get_int16 b >>= λ y. ok (x == y)
  equal_same integer a b = get_int32 a >>= λ x. get_int32 b >>= λ y. ok (x == y)
  equal_same bigint a b = get_int64 a >>= λ x. get_int64 b >>= λ y. ok (x == y)
  equal_same decimal a b = get_double a >>= λ x. get_double b >>= λ y. ok (p.near x y)
  equal_same real a b = get_double a >>= λ x. get_double b >>= λ y. ok (p.near x y)
  equal_same double a b = get_double a >>= λ x. get_double b >>= λ y. ok (p.near x y)
  equal_same blob a b = get_blob a >>= λ x. get_blob b >>= λ y. ok (bytes_equal x y)
  equal_same vector a b = get_vector a >>= λ x. get_vector b >>= λ y. ok (vector_eq x y)
  equal_same string_type a b = get_string a >>= λ x. get_string b >>= λ y. ok (bytes_equal x y)

  -- `operator==`.
  unfoldable pub equal_values : Value → Value → Try Bool
  equal_values a b =
      if same_type a.type b.type
      then equal_same a.type a.content b.content
      else if is_numeric a.type && is_numeric b.type
      then (to_double a.type a.content >>= λ x. to_double b.type b.content >>= λ y. ok (p.near x y))
      else if is_text a.type && is_text b.type
      then (get_string a.content >>= λ x. get_string b.content >>= λ y. ok (bytes_equal x y))
      else ok false

  -- The loop of `hash` over a vector.
  unfoldable pub hash_vector : List ℕ → ℕ → ℕ
  hash_vector [] h = h
  hash_vector (d ∷ ds) h =
      let mixed = (p.micros d + 0x9e37_79b9_7f4a_7c15 + h * 64 % 2 ^ 64 + h / 4) % 2 ^ 64 in
      hash_vector ds (bit_xor h (p.hash_number 8 mixed))

  -- `hash`.
  unfoldable pub hash : Value → Try ℕ
  hash v = elim v.type [
    | null_type ↦ ok 0
    | boolean ↦ get_bool v.content >>= λ b. ok (p.hash_number 1 (if b then 1 else 0))
    | tinyint ↦ get_int8 v.content >>= λ x. ok (p.hash_number 1 x)
    | smallint ↦ get_int16 v.content >>= λ x. ok (p.hash_number 2 x)
    | integer ↦ get_int32 v.content >>= λ x. ok (p.hash_number 4 x)
    | bigint ↦ get_int64 v.content >>= λ x. ok (p.hash_number 8 x)
    | decimal ↦ get_double v.content >>= λ x. ok (p.hash_number 8 (p.micros x))
    | real ↦ get_double v.content >>= λ x. ok (p.hash_number 8 (p.micros x))
    | double ↦ get_double v.content >>= λ x. ok (p.hash_number 8 (p.micros x))
    | blob ↦ get_blob v.content >>= λ b. ok (hash_blob b 0)
    | vector ↦ get_vector v.content >>= λ d. ok (hash_vector d 0)
    | _ ↦ get_string v.content >>= λ s. ok (p.hash_string s)
  ]
