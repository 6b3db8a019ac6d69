-- ===== src/Types/Value/RoundTrip.antt =====
-- Reading back what `Value::serialize` of src/types/value.cpp writes.
use lattice_db_next_gen_dbms.Prelude.{ℕ, ◌+◌, ◌<◌, ◌≤◌, ◌≡◌, refl, ◌⊎◌, List, ◌∷◌, arith}
use lattice_db_next_gen_dbms.Prelude.Lists.{length}
use lattice_db_next_gen_dbms.Prelude.Bytes.{Memory, write_bytes, write_bytes_outside}
use lattice_db_next_gen_dbms.Types.Value.{type_code, Value, ok, IsTyped}
use lattice_db_next_gen_dbms.Types.Value.Bytes.{serialize_size, serialize, deserialize}
use lattice_db_next_gen_dbms.Types.Value.Held.{Holds, write_bytes-Holds}
use lattice_db_next_gen_dbms.Types.Value.Payload.{
  IsPayload, IsPayload-of_IsTyped, stored, type_of_code_lem,
}

-- Memory that holds the tag and the payload of a value reads as the stored value.
pub deserialize_of_Holds :
    (v : Value) (bytes : List ℕ) (m : Memory) (off : ℕ)
    → IsPayload v bytes
    → Holds m off (type_code v.type ∷ bytes)
    → deserialize m off ≡ (stored v, off + (1 + length bytes))
unfolding deserialize
deserialize_of_Holds v bytes m off p held =
    let same : off + 1 + length bytes ≡ off + (1 + length bytes) = omega arith in
    rw (deserialize, held.0, type_of_code_lem v.type, p.read_back m (off + 1) held.1, same) refl

-- A value whose data fits its type is written, the bytes around it stay, and reading at the same
-- place gives the value, with its type replaced by the type of its family that is stored, and moves
-- the offset by `serialize_size`.
pub deserialize-serialize :
    (v : Value) (m : Memory) (off : ℕ)
    → IsTyped v.type v.content
    → (after : Memory) × (n : ℕ) × (serialize v m off ≡ ok after)
      × (serialize_size v ≡ ok n)
      × (deserialize after off ≡ (stored v, off + n))
      × ((i : ℕ) → (i < off) ⊎ (off + n ≤ i) → after i ≡ m i)
unfolding serialize
deserialize-serialize v m off typed =
    let (bytes, p) = IsPayload-of_IsTyped v.type v.content typed in
    let after = write_bytes m off (type_code v.type ∷ bytes) in
    (
      after,
      1 + length bytes,
      rw (p.written) refl,
      p.sized_so,
      deserialize_of_Holds v bytes after off p (write_bytes-Holds m off (type_code v.type ∷ bytes)),
      λ i h. write_bytes_outside m off (type_code v.type ∷ bytes) i (omega arith),
    )
