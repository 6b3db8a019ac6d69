-- ===== src/Types/Tuple.antt =====
-- `Tuple` of src/types/tuple.cpp: values, and the bytes that they are kept as.
pub mod RoundTrip
use lattice_db_next_gen_dbms.Prelude.{
  ℕ, zero, suc, ◌+◌, ◌%◌, ◌^◌, ◌-◌, Bool, true, false, Option, none, some, List, [], ◌∷◌, ◌++◌,
}
use lattice_db_next_gen_dbms.Prelude.Tests.{ltb, ◌==◌, if◌then◌else◌}
use lattice_db_next_gen_dbms.Prelude.Lists.{length, get_elem?, set, replicate}
use lattice_db_next_gen_dbms.Prelude.Bytes.{Memory, read_bytes, write_bytes, to_le}
use lattice_db_next_gen_dbms.Types.Value.{Value, Try, ok, throws, out_of_range, ◌>>=◌, null_value}
use lattice_db_next_gen_dbms.Types.Value.Compare.{Platform, equal_values}
use lattice_db_next_gen_dbms.Types.Value.Cast.{Printer, to_string}
use lattice_db_next_gen_dbms.Types.Value.Bytes.{serialize_size, serialize, deserialize, number_at}

-- `data_` is `none` for a default tuple; `size_` bytes of it belong to the tuple.
pub record Tuple : Type 0 where
  pub values : List Value
  pub allocated : Bool
  pub buffer : Option Memory
  pub size : ℕ

-- The first loop of `Tuple::serialize`.
unfoldable pub total_size : List Value → ℕ → Try ℕ
total_size [] sz = ok sz
total_size (v ∷ vs) sz = serialize_size v >>= λ n. total_size vs (sz + n)

-- Its second loop.
unfoldable pub write_values : List Value → Memory → ℕ → Try Memory
write_values [] m off = ok m
write_values (v ∷ vs) m off =
    serialize_size v >>= λ n. serialize v m off >>= λ after. write_values vs after (off + n)

-- `Tuple::serialize`; `fresh` is what `new uint8_t[sz]` holds.
unfoldable pub serialize_tuple : Memory → Tuple → Try Tuple
serialize_tuple fresh t = total_size t.values 4 >>= λ sz.
    let counted = write_bytes fresh 0 (to_le 4 (length t.values % 256 ^ 4)) in
    write_values t.values counted 4 >>= λ m.
    ok (record t { allocated = true; buffer = some m; size = sz })

-- `Tuple(std::vector<Value>)`.
unfoldable pub of_values : Memory → List Value → Try Tuple
of_values fresh vs =
    serialize_tuple fresh (record { values = vs; allocated = false; buffer = none; size = 0 })

-- The loop of `Tuple::deserialize`.
unfoldable pub read_values : ℕ → Memory → ℕ → List Value
read_values zero m off = []
read_values (suc count) m off = let (v, next) = deserialize m off in v ∷ read_values count m next

-- `Tuple::deserialize`.
unfoldable pub deserialize_tuple : Tuple → Tuple
deserialize_tuple t = elim t.buffer [
  | none ↦ t
  | some m ↦ record t { values = read_values (number_at m 0 4) m 4 }
]

-- `Tuple(const uint8_t*, size_t)` and `deserialize_from`: a copy of `n` bytes, then `deserialize`.
unfoldable pub of_bytes : Memory → Memory → ℕ → ℕ → Tuple
of_bytes fresh source at n = deserialize_tuple (record {
  values = [];
  allocated = true;
  buffer = some (write_bytes fresh 0 (read_bytes source at n));
  size = n;
})

-- `serialize_to`; a tuple with no bytes copies none.
unfoldable pub serialize_to : Tuple → Memory → ℕ → Memory
serialize_to t target at = elim t.buffer [
  | none ↦ target
  | some m ↦ write_bytes target at (read_bytes m 0 t.size)
]

-- `get_value`: `at` throws out of range.
unfoldable pub get_value : Tuple → ℕ → Try Value
get_value t column = elim (get_elem? t.values column) [ some v ↦ ok v | none ↦ throws out_of_range ]

-- `values_.resize(column_idx + 1)` where it is short.
abbrev pub grown : List Value → ℕ → List Value
grown vs column =
    if ltb column (length vs) then vs else vs ++ replicate (column + 1 - length vs) null_value

-- `set_value`.
unfoldable pub set_value : Memory → Tuple → ℕ → Value → Try Tuple
set_value fresh t column v =
    serialize_tuple fresh (record t { values = set (grown t.values column) column v })

-- The loop of `operator==`, for tuples of one length.
unfoldable pub equal_lists : Platform → List Value → List Value → Try Bool
equal_lists p [] bs = ok true
equal_lists p (a ∷ as') [] = ok true
equal_lists p (a ∷ as') (b ∷ bs) = equal_values p a b >>= λ same.
    let rest = equal_lists p as' bs in if same then rest else ok false

-- `operator==`.
unfoldable pub equal_tuples : Platform → Tuple → Tuple → Try Bool
equal_tuples p t u =
    if length t.values == length u.values then equal_lists p t.values u.values else ok false

-- The loop of `to_string`, behind the first value.
unfoldable pub joined : Platform → Printer → List Value → List ℕ → Try (List ℕ)
joined p out [] s = ok s
joined p out (v ∷ vs) s =
    to_string p out v >>= λ shown. joined p out vs (s ++ b',' ∷ (b' ' ∷ shown))

-- `to_string`.
unfoldable pub tuple_to_string : Platform → Printer → Tuple → Try (List ℕ)
tuple_to_string p out t = elim t.values [
  | [] ↦ ok []
  | v ∷ vs ↦ to_string p out v >>= λ shown. joined p out vs shown
]
