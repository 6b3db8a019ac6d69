-- ===== src/Types/Value/Cast.antt =====
-- Casts of values: `to_string`, `cast_to` and `is_compatible_type` of src/types/value.cpp.
use lattice_db_next_gen_dbms.Prelude.{ℕ, ◌≡◌, Bool, true, false, ◌&&◌, List, [], ◌∷◌, ◌++◌, arith}
use lattice_db_next_gen_dbms.Prelude.Tests.{if◌then◌else◌}
use lattice_db_next_gen_dbms.Prelude.Lists.{length}
use lattice_db_next_gen_dbms.Types.Value.{
  ValueType, null_type, boolean, tinyint, smallint, integer, bigint, decimal, real, double, varchar,
  text, blob, vector, ValueData, bool_data, int8_data, int16_data, int32_data, int64_data,
  double_data, Value, Try, ok, throws, ◌>>=◌, incompatible_cast, unsupported_cast, cannot_convert,
  get_bool, get_int8, get_int16, get_int32, get_int64, get_double, get_string, get_blob, get_vector,
  of_string, is_numeric, IsTyped, typed_null,
}
use lattice_db_next_gen_dbms.Types.Value.Compare.{
  Platform, less, equal, greater, is_text, same_type, to_double, compare_values,
}

-- `ostringstream <<` of an integer of so many bytes, of a double and of a size.
pub record Printer : Type 0 where
  pub show_number : ℕ → ℕ → List ℕ
  pub show_double : ℕ → List ℕ
  pub show_size : ℕ → List ℕ

-- `is_compatible_type`.
unfoldable pub is_compatible_type : ValueType → ValueType → Bool
is_compatible_type t target =
    if same_type t target
    then true
    else if is_numeric t && is_numeric target
    then true
    else if is_text t && is_numeric target
    then true
    else if is_numeric t && is_text target
    then true
    else false

module _ (p : Platform) (out : Printer) where
  -- `to_string`; the texts are ASCII.
  unfoldable pub to_string : Value → Try (List ℕ)
  to_string v = elim v.type [
    | null_type ↦ ok (b'N' ∷ b'U' ∷ b'L' ∷ b'L' ∷ [])
    | boolean ↦ get_bool v.content >>= λ b.
        ok (if b then b'T' ∷ b'R' ∷ b'U' ∷ b'E' ∷ [] else b'F' ∷ b'A' ∷ b'L' ∷ b'S' ∷ b'E' ∷ [])
    | tinyint ↦ get_int8 v.content >>= λ x. ok (out.show_number 1 x)
    | smallint ↦ get_int16 v.content >>= λ x. ok (out.show_number 2 x)
    | integer ↦ get_int32 v.content >>= λ x. ok (out.show_number 4 x)
    | bigint ↦ get_int64 v.content >>= λ x. ok (out.show_number 8 x)
    | decimal ↦ get_double v.content >>= λ x. ok (out.show_double x)
    | real ↦ get_double v.content >>= λ x. ok (out.show_double x)
    | double ↦ get_double v.content >>= λ x. ok (out.show_double x)
    | blob ↦ get_blob v.content >>= λ b.
        ok (b'<' ∷ b'B' ∷ b'L' ∷ b'O' ∷ b'B' ∷ b':' ∷ (out.show_size (length b) ++ b'>' ∷ []))
    | vector ↦ get_vector v.content >>= λ d. ok (
        b'<'
        ∷ b'V'
        ∷ b'E'
        ∷ b'C'
        ∷ b'T'
        ∷ b'O'
        ∷ b'R'
        ∷ b':'
        ∷ (out.show_size (length d) ++ b'>' ∷ []))
    | _ ↦ get_string v.content
  ]

  -- The cases of `cast_to` behind its checks. `Value(0)` is an INTEGER.
  unfoldable pub cast_switch : Value → ValueType → Try Value
  cast_switch v boolean =
      compare_values p v (record { content = int32_data 0; type = integer }) >>= λ s. ok (record {
        content = bool_data (elim s [ equal ↦ false | less ↦ true | greater ↦ true ]);
        type = boolean;
      })
  cast_switch v tinyint = to_double p v.type v.content >>= λ x.
      ok (record { content = int8_data (p.of_real 1 x); type = tinyint })
  cast_switch v smallint = to_double p v.type v.content >>= λ x.
      ok (record { content = int16_data (p.of_real 2 x); type = smallint })
  cast_switch v integer = to_double p v.type v.content >>= λ x.
      ok (record { content = int32_data (p.of_real 4 x); type = integer })
  cast_switch v bigint = to_double p v.type v.content >>= λ x.
      ok (record { content = int64_data (p.of_real 8 x); type = bigint })
  cast_switch v double =
      to_double p v.type v.content >>= λ x. ok (record { content = double_data x; type = double })
  cast_switch v varchar = to_string v >>= λ s. ok (of_string s varchar)
  cast_switch v text = to_string v >>= λ s. ok (of_string s varchar)
  cast_switch v other = throws unsupported_cast

  -- `cast_to`.
  unfoldable pub cast_to : Value → ValueType → Try Value
  cast_to v target =
      if same_type v.type target
      then ok v
      else if is_compatible_type v.type target
      then cast_switch v target
      else throws incompatible_cast

-- The type of the value that a cast gives, or what it throws.
abbrev pub type_of_result : Try Value → Try ValueType
type_of_result (ok v) = ok v.type
type_of_result (throws e) = throws e

-- The targets that a number is converted to.
abbrev pub is_converted : ValueType → Bool
is_converted tinyint = true
is_converted smallint = true
is_converted integer = true
is_converted bigint = true
is_converted double = true
is_converted other = false

-- Which casts work, by the two types alone.
abbrev pub cast_table : ValueType → ValueType → Try ValueType
cast_table from target =
    if same_type from target
    then ok from
    else if is_numeric from
    then (if is_converted target
        then ok target
        else if is_text target
        then ok varchar
        else if is_numeric target
        then throws unsupported_cast
        else throws incompatible_cast)
    else if is_text from && is_numeric target
    then (if is_converted target then throws cannot_convert else throws unsupported_cast)
    else throws incompatible_cast

-- A cast of a value whose data fits its type ends as the table says: only numbers are converted, to
-- integers, DOUBLE and strings, TEXT becomes VARCHAR; a string is never converted to a number, and
-- DECIMAL and REAL are no targets, although `is_compatible_type` accepts them.
pub cast_to_lem :
    (p : Platform) (out : Printer) (t target : ValueType) (d : ValueData)
    → IsTyped t d
    → type_of_result (cast_to p out (record { content = d; type = t }) target) ≡ cast_table t target
unfolding cast_to is_compatible_type cast_switch to_string to_double
cast_to_lem p out _ target _ typed_null = ground arith
cast_to_lem p out _ target _ typed = ground arith
