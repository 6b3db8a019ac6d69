-- ===== src/Types/Value/Bytes.antt =====
-- The bytes of a value: `serialize_size`, `serialize` and `deserialize` of src/types/value.cpp.
use lattice_db_next_gen_dbms.Prelude.{
  ℕ, zero, suc, ◌+◌, ◌*◌, ◌%◌, ◌^◌, not, Option, none, some, List, [], ◌∷◌, ◌++◌,
}
use lattice_db_next_gen_dbms.Prelude.Tests.{◌==◌, if◌then◌else◌}
use lattice_db_next_gen_dbms.Prelude.Lists.{length, take, get_elem?}
use lattice_db_next_gen_dbms.Prelude.Bytes.{Memory, read_bytes, write_bytes, to_le, of_le}
use lattice_db_next_gen_dbms.Types.Value.{
  ValueType, null_type, boolean, tinyint, smallint, integer, bigint, decimal, real, double, varchar,
  text, timestamp, date, time, blob, vector, type_code, ValueData, bool_data, int8_data, int16_data,
  int32_data, int64_data, double_data, blob_data, vector_data, Value, Try, ok, ◌>>=◌, get_bool,
  get_int8, get_int16, get_int32, get_int64, get_double, get_string, get_blob, get_vector,
  null_value, of_string,
}

-- `serialize_size`.
unfoldable pub serialize_size : Value → Try ℕ
serialize_size v = elim v.type [
  | null_type ↦ ok 1
  | boolean ↦ ok (1 + 1)
  | tinyint ↦ ok (1 + 1)
  | smallint ↦ ok (1 + 2)
  | integer ↦ ok (1 + 4)
  | bigint ↦ ok (1 + 8)
  | decimal ↦ ok (1 + 8)
  | real ↦ ok (1 + 8)
  | double ↦ ok (1 + 8)
  | varchar ↦ get_string v.content >>= λ s. ok (1 + 4 + length s)
  | text ↦ get_string v.content >>= λ s. ok (1 + 4 + length s)
  | timestamp ↦ get_string v.content >>= λ s. ok (1 + 4 + length s)
  | date ↦ get_string v.content >>= λ s. ok (1 + 4 + length s)
  | time ↦ get_string v.content >>= λ s. ok (1 + 4 + length s)
  | blob ↦ get_blob v.content >>= λ b. ok (1 + 4 + length b)
  | vector ↦ get_vector v.content >>= λ d. ok (1 + 4 + length d * 8)
]

-- The bytes of `n` doubles from the front of an array.
unfoldable pub doubles_bytes : ℕ → List ℕ → List ℕ
doubles_bytes zero xs = []
doubles_bytes (suc n) [] = []
doubles_bytes (suc n) (x ∷ xs) = to_le 8 x ++ doubles_bytes n xs

-- What `serialize` copies behind the tag of a string or a blob: the length as a `uint32_t`, and as
-- many bytes as that says.
abbrev pub sized : List ℕ → List ℕ
sized s = let len = length s % 256 ^ 4 in to_le 4 len ++ take len s

abbrev pub sized_doubles : List ℕ → List ℕ
sized_doubles v = let len = length v % 256 ^ 4 in to_le 4 len ++ doubles_bytes len v

-- The bytes that the cases of `serialize` put at `buffer + 1`.
unfoldable pub payload : ValueType → ValueData → Try (List ℕ)
payload null_type d = ok []
payload boolean d = get_bool d >>= λ b. ok ((if b then 1 else 0) ∷ [])
payload tinyint d = get_int8 d >>= λ x. ok (x ∷ [])
payload smallint d = get_int16 d >>= λ x. ok (to_le 2 x)
payload integer d = get_int32 d >>= λ x. ok (to_le 4 x)
payload bigint d = get_int64 d >>= λ x. ok (to_le 8 x)
payload decimal d = get_double d >>= λ x. ok (to_le 8 x)
payload real d = get_double d >>= λ x. ok (to_le 8 x)
payload double d = get_double d >>= λ x. ok (to_le 8 x)
payload varchar d = get_string d >>= λ s. ok (sized s)
payload text d = get_string d >>= λ s. ok (sized s)
payload timestamp d = get_string d >>= λ s. ok (sized s)
payload date d = get_string d >>= λ s. ok (sized s)
payload time d = get_string d >>= λ s. ok (sized s)
payload blob d = get_blob d >>= λ s. ok (sized s)
payload vector d = get_vector d >>= λ v. ok (sized_doubles v)

-- `serialize(buffer)`: the tag at `buffer[0]`, the payload behind it.
unfoldable pub serialize : Value → Memory → ℕ → Try Memory
serialize v m buffer =
    payload v.type v.content >>= λ bytes. ok (write_bytes m buffer (type_code v.type ∷ bytes))

-- `static_cast<ValueType>(byte)`, where a byte above 15 is no case of the switch.
abbrev pub type_of_code : ℕ → Option ValueType
type_of_code = get_elem? (
    null_type ∷ boolean ∷ tinyint ∷ smallint ∷ integer ∷ bigint ∷ decimal ∷ real ∷ double ∷ varchar
    ∷ text ∷ timestamp ∷ date ∷ time ∷ blob ∷ vector ∷ [])

-- `memcpy` of a `w`-byte number from the buffer.
abbrev pub number_at : Memory → ℕ → ℕ → ℕ
number_at m off w = of_le (read_bytes m off w)

unfoldable pub doubles_at : Memory → ℕ → ℕ → List ℕ
doubles_at m off zero = []
doubles_at m off (suc n) = number_at m off 8 ∷ doubles_at m (off + 8) n

abbrev string_at : Memory → ℕ → Value × ℕ
string_at m off =
    let len = number_at m off 4 in (of_string (read_bytes m (off + 4) len) varchar, off + 4 + len)

abbrev double_at : Memory → ℕ → Value × ℕ
double_at m off = (record { content = double_data (number_at m off 8); type = double }, off + 8)

-- The cases of `deserialize`, with the offset behind the tag; the value and the offset afterwards.
unfoldable pub read_payload : ValueType → Memory → ℕ → Value × ℕ
read_payload null_type m off = (null_value, off)
read_payload boolean m off =
    (record { content = bool_data (not (m off == 0)); type = boolean }, off + 1)
read_payload tinyint m off = (record { content = int8_data (m off); type = tinyint }, off + 1)
read_payload smallint m off =
    (record { content = int16_data (number_at m off 2); type = smallint }, off + 2)
read_payload integer m off =
    (record { content = int32_data (number_at m off 4); type = integer }, off + 4)
read_payload bigint m off =
    (record { content = int64_data (number_at m off 8); type = bigint }, off + 8)
read_payload decimal m off = double_at m off
read_payload real m off = double_at m off
read_payload double m off = double_at m off
read_payload varchar m off = string_at m off
read_payload text m off = string_at m off
read_payload timestamp m off = string_at m off
read_payload date m off = string_at m off
read_payload time m off = string_at m off
read_payload blob m off =
    let len = number_at m off 4 in
    (record { content = blob_data (read_bytes m (off + 4) len); type = blob }, off + 4 + len)
read_payload vector m off =
    let len = number_at m off 4 in
    (
      record { content = vector_data (doubles_at m (off + 4) len); type = vector },
      off + 4 + len * 8,
    )

-- `deserialize(buffer, offset)`.
unfoldable pub deserialize : Memory → ℕ → Value × ℕ
unfolding read_payload
deserialize m off = elim (type_of_code (m off)) [
  | some t ↦ read_payload t m (off + 1)
  | none ↦ (null_value, off + 1)
]
