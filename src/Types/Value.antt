-- ===== src/Types/Value.antt =====
-- `Value` of src/types/value.h: a type tag and a variant of data. Integers are their two's-complement
-- patterns, doubles their 64 bits, strings and blobs their bytes.
pub mod Bytes
pub mod Held
pub mod Payload
pub mod RoundTrip
pub mod Compare
pub mod Cast
use lattice_db_next_gen_dbms.Prelude.{
  ℕ, ◌+◌, ◌*◌, ◌%◌, ◌^◌, ◌<◌, ◌≡◌, Bool, true, false, not, ◌&&◌, ◌||◌, List, [], ◌∷◌,
}
use lattice_db_next_gen_dbms.Prelude.Tests.{◌==◌, if◌then◌else◌}
use lattice_db_next_gen_dbms.Prelude.Lists.{length}

pub data ValueType : Type 0 where
  null_type : ValueType
  boolean : ValueType
  tinyint : ValueType
  smallint : ValueType
  integer : ValueType
  bigint : ValueType
  decimal : ValueType
  real : ValueType
  double : ValueType
  varchar : ValueType
  text : ValueType
  timestamp : ValueType
  date : ValueType
  time : ValueType
  blob : ValueType
  vector : ValueType

-- `static_cast<uint8_t>(type)`.
abbrev pub type_code : ValueType → ℕ
type_code null_type = 0
type_code boolean = 1
type_code tinyint = 2
type_code smallint = 3
type_code integer = 4
type_code bigint = 5
type_code decimal = 6
type_code real = 7
type_code double = 8
type_code varchar = 9
type_code text = 10
type_code timestamp = 11
type_code date = 12
type_code time = 13
type_code blob = 14
type_code vector = 15

pub data ValueData : Type 0 where
  monostate : ValueData
  bool_data : Bool → ValueData
  int8_data : ℕ → ValueData
  int16_data : ℕ → ValueData
  int32_data : ℕ → ValueData
  int64_data : ℕ → ValueData
  double_data : ℕ → ValueData
  string_data : List ℕ → ValueData
  blob_data : List ℕ → ValueData
  vector_data : List ℕ → ValueData

pub record Value : Type 0 where
  pub content : ValueData
  pub type : ValueType

-- What an operation on values throws: `std::bad_variant_access` or `ConversionException`.
pub data Thrown : Type 0 where
  bad_variant_access : Thrown
  out_of_range : Thrown
  cannot_convert : Thrown
  incomparable : Thrown
  incompatible_cast : Thrown
  unsupported_cast : Thrown

pub data Try {ℓ} (A : Type ℓ) : Type ℓ where
  ok : A → Try A
  throws : Thrown → Try A

infixl 5 ◌>>=◌
abbrev pub ◌>>=◌ {ℓ κ} : {A : Type ℓ} {B : Type κ} → Try A → (A → Try B) → Try B
ok a >>= f = f a
throws e >>= f = throws e

-- `std::get<T>(data_)`.
abbrev pub get_bool : ValueData → Try Bool
get_bool (bool_data b) = ok b
get_bool other = throws bad_variant_access

abbrev pub get_int8 : ValueData → Try ℕ
get_int8 (int8_data x) = ok x
get_int8 other = throws bad_variant_access

abbrev pub get_int16 : ValueData → Try ℕ
get_int16 (int16_data x) = ok x
get_int16 other = throws bad_variant_access

abbrev pub get_int32 : ValueData → Try ℕ
get_int32 (int32_data x) = ok x
get_int32 other = throws bad_variant_access

abbrev pub get_int64 : ValueData → Try ℕ
get_int64 (int64_data x) = ok x
get_int64 other = throws bad_variant_access

abbrev pub get_double : ValueData → Try ℕ
get_double (double_data x) = ok x
get_double other = throws bad_variant_access

abbrev pub get_string : ValueData → Try (List ℕ)
get_string (string_data s) = ok s
get_string other = throws bad_variant_access

abbrev pub get_blob : ValueData → Try (List ℕ)
get_blob (blob_data s) = ok s
get_blob other = throws bad_variant_access

abbrev pub get_vector : ValueData → Try (List ℕ)
get_vector (vector_data s) = ok s
get_vector other = throws bad_variant_access

-- `Value()` and the constructors that fix the type.
abbrev pub null_value : Value
null_value = record { content = monostate; type = null_type }

abbrev pub of_string : List ℕ → ValueType → Value
of_string s t = record { content = string_data s; type = t }

-- Every entry is below the bound.
abbrev pub AllBelow : ℕ → List ℕ → Type 0
AllBelow w [] = Unit {0}
AllBelow w (x ∷ xs) = (x < w) × AllBelow w xs

-- The alternative that the data holds is the one that the type tag reads, each integer and double
-- fits its width, and a length fits the 32 bits that are stored of it.
pub data IsTyped : ValueType → ValueData → Type 0 where
  typed_null : IsTyped null_type monostate
  typed_boolean : (b : Bool) → IsTyped boolean (bool_data b)
  typed_tinyint : (x : ℕ) → x < 256 → IsTyped tinyint (int8_data x)
  typed_smallint : (x : ℕ) → x < 256 ^ 2 → IsTyped smallint (int16_data x)
  typed_integer : (x : ℕ) → x < 256 ^ 4 → IsTyped integer (int32_data x)
  typed_bigint : (x : ℕ) → x < 256 ^ 8 → IsTyped bigint (int64_data x)
  typed_decimal : (x : ℕ) → x < 256 ^ 8 → IsTyped decimal (double_data x)
  typed_real : (x : ℕ) → x < 256 ^ 8 → IsTyped real (double_data x)
  typed_double : (x : ℕ) → x < 256 ^ 8 → IsTyped double (double_data x)
  typed_varchar : (s : List ℕ) → length s < 256 ^ 4 → IsTyped varchar (string_data s)
  typed_text : (s : List ℕ) → length s < 256 ^ 4 → IsTyped text (string_data s)
  typed_timestamp : (s : List ℕ) → length s < 256 ^ 4 → IsTyped timestamp (string_data s)
  typed_date : (s : List ℕ) → length s < 256 ^ 4 → IsTyped date (string_data s)
  typed_time : (s : List ℕ) → length s < 256 ^ 4 → IsTyped time (string_data s)
  typed_blob : (s : List ℕ) → length s < 256 ^ 4 → IsTyped blob (blob_data s)
  typed_vector :
      (v : List ℕ) → length v < 256 ^ 4 → AllBelow (256 ^ 8) v → IsTyped vector (vector_data v)

-- `is_numeric`.
abbrev pub is_numeric : ValueType → Bool
is_numeric tinyint = true
is_numeric smallint = true
is_numeric integer = true
is_numeric bigint = true
is_numeric decimal = true
is_numeric real = true
is_numeric double = true
is_numeric other = false
