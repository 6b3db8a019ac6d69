-- ===== src/Types/Tests.antt =====
-- Values and tuples at small inputs.
use lattice_db_next_gen_dbms.Prelude.{ℕ, ◌+◌, ◌<◌, ◌≤◌, ◌≡◌, refl, ◌⊎◌, false, [], ◌∷◌, map, arith}
use lattice_db_next_gen_dbms.Prelude.Tests.{◌==◌, ltb}
use lattice_db_next_gen_dbms.Prelude.Lists.{length}
use lattice_db_next_gen_dbms.Prelude.Bytes.{Memory}
use lattice_db_next_gen_dbms.Types.Value.{
  integer, text, vector, int32_data, string_data, vector_data, Value, ok, typed_integer, typed_text,
  typed_vector,
}
use lattice_db_next_gen_dbms.Types.Value.Bytes.{serialize, serialize_size, deserialize}
use lattice_db_next_gen_dbms.Types.Value.RoundTrip.{deserialize-serialize}
use lattice_db_next_gen_dbms.Types.Value.Payload.{stored}
use lattice_db_next_gen_dbms.Types.Value.Compare.{
  Platform, Sign, less, flip, compare_values, compare_same, vector_sign, vector_eq, vector_lt,
}
use lattice_db_next_gen_dbms.Types.Value.Compare.Order.{IsIeee, compare_values-flip}
use lattice_db_next_gen_dbms.Types.Value.Cast.{
  Printer, cast_to, cast_to_lem, type_of_result, cast_table,
}
use lattice_db_next_gen_dbms.Types.Tuple.{Tuple, of_values, of_bytes, serialize_to}
use lattice_db_next_gen_dbms.Types.Tuple.RoundTrip.{of_bytes-serialize_to}

abbrev blank : Memory
blank i = 0

abbrev three_hundred : Value
three_hundred = record { content = int32_data 300; type = integer }

abbrev hi : Value
hi = record { content = string_data (b'h' ∷ b'i' ∷ []); type = text }

deserialize-serialize_example :
    (after : Memory) × (n : ℕ) × (serialize hi blank 7 ≡ ok after)
    × (serialize_size hi ≡ ok n)
    × (deserialize after 7 ≡ (stored hi, 7 + n))
    × ((i : ℕ) → (i < 7) ⊎ (7 + n ≤ i) → after i ≡ blank i)
deserialize-serialize_example =
    deserialize-serialize hi blank 7 (typed_text (b'h' ∷ b'i' ∷ []) (omega arith))

of_bytes-serialize_to_example :
    (t : Tuple) × (of_values blank (three_hundred ∷ hi ∷ []) ≡ ok t)
    × (t.values ≡ three_hundred ∷ hi ∷ [])
    × ((target other : Memory) (at : ℕ)
        → (of_bytes other (serialize_to t target at) at t.size).values
          ≡ map stored (three_hundred ∷ hi ∷ []))
of_bytes-serialize_to_example =
    of_bytes-serialize_to blank (three_hundred ∷ hi ∷ []) (omega arith)
      (typed_integer 300 (omega arith), (typed_text (b'h' ∷ b'i' ∷ []) (omega arith), tt))

-- A platform with the natural numbers in the place of the doubles.
abbrev pub whole_numbers : Platform
whole_numbers = record {
  double_lt = ltb;
  double_eq = ◌==◌;
  near = ◌==◌;
  to_real = λ w x. x;
  of_real = λ w x. x;
  micros = λ x. x;
  hash_number = λ w x. x;
  hash_string = λ s. length s;
}

whole_numbers-IsIeee : IsIeee whole_numbers (λ x. false)
whole_numbers-IsIeee = record {
  eq_comm = λ x y. ground arith;
  not_lt_of_eq = λ x y h. ground arith;
  lt_total = λ x y nx ny h. ground arith;
}

abbrev low_vector : Value
low_vector = record { content = vector_data (1 ∷ 2 ∷ []); type = vector }

abbrev high_vector : Value
high_vector = record { content = vector_data (1 ∷ 3 ∷ []); type = vector }

compare_values-flip_example :
    (s : Sign) × (compare_values whole_numbers low_vector high_vector ≡ ok s)
    × (compare_values whole_numbers high_vector low_vector ≡ ok (flip s))
compare_values-flip_example =
    compare_values-flip whole_numbers (λ x. false) whole_numbers-IsIeee low_vector high_vector
      (typed_vector (1 ∷ 2 ∷ []) (omega arith) (omega arith))
      (typed_vector (1 ∷ 3 ∷ []) (omega arith) (omega arith)) (refl, (refl, tt)) (refl, (refl, tt))

compare_test : compare_values whole_numbers low_vector high_vector ≡ ok less
unfolding compare_values compare_same vector_sign vector_eq vector_lt
compare_test = refl

abbrev plain : Printer
plain = record { show_number = λ w x. x ∷ []; show_double = λ x. x ∷ []; show_size = λ x. x ∷ [] }

-- A string is not cast to a number, and a number not to REAL.
cast_to_lem_example :
    type_of_result (cast_to whole_numbers plain hi integer) ≡ cast_table text integer
cast_to_lem_example =
    cast_to_lem whole_numbers plain text integer (string_data (b'h' ∷ b'i' ∷ []))
      (typed_text (b'h' ∷ b'i' ∷ []) (omega arith))
