-- ===== src/Types/Tuple/RoundTrip.antt =====
-- The bytes of a tuple of src/types/tuple.cpp, written and read back.
use lattice_db_next_gen_dbms.Prelude.{
  ℕ, zero, suc, ◌+◌, ◌%◌, ◌^◌, ◌<◌, ◌≤◌, ◌≡◌, refl, ap, ◌∙◌, inl, true, some, List, [], ◌∷◌, map,
  arith,
}
use lattice_db_next_gen_dbms.Prelude.Lists.{length}
use lattice_db_next_gen_dbms.Prelude.Bytes.{
  Memory, read_bytes, write_bytes, to_le, length-to_le, write_bytes_outside, read_bytes-write_bytes,
  length-read_bytes,
}
use lattice_db_next_gen_dbms.Types.Value.{Value, ok, type_code, IsTyped}
use lattice_db_next_gen_dbms.Types.Value.Bytes.{serialize, number_at}
use lattice_db_next_gen_dbms.Types.Value.RoundTrip.{deserialize_of_Holds}
use lattice_db_next_gen_dbms.Types.Value.Payload.{stored, IsPayload-of_IsTyped}
use lattice_db_next_gen_dbms.Types.Value.Held.{
  Holds, Holds-agree, write_bytes-Holds, number_at-to_le,
}
use lattice_db_next_gen_dbms.Types.Tuple.{
  Tuple, total_size, write_values, serialize_tuple, of_values, read_values, deserialize_tuple,
  of_bytes, serialize_to,
}

abbrev pub AllTyped : List Value → Type 0
AllTyped [] = Unit {0}
AllTyped (v ∷ vs) = IsTyped v.type v.content × AllTyped vs

-- What writing the values from the offset on leaves: `used` bytes, from which they are read.
pub record IsWritten (vs : List Value) (m : Memory) (off : ℕ) (after : Memory) (used : ℕ)
    : Type 0 where
  pub writes : write_values vs m off ≡ ok after
  pub counts : (sz : ℕ) → total_size vs sz ≡ ok (sz + used)
  pub before : (i : ℕ) → i < off → after i ≡ m i
  -- Also from any memory that agrees on these bytes.
  pub reads :
      (copy : Memory)
      → ((i : ℕ) → off ≤ i → i < off + used → copy i ≡ after i)
      → read_values (length vs) copy off ≡ map stored vs

pub values-IsWritten :
    (vs : List Value) (m : Memory) (off : ℕ)
    → AllTyped vs
    → (after : Memory) × (used : ℕ) × IsWritten vs m off after used
unfolding write_values total_size read_values serialize
values-IsWritten [] m off typed = (
  m,
  0,
  record {
    writes = refl;
    counts = λ sz. ap ok (omega arith);
    before = λ i h. refl;
    reads = λ copy same. refl;
  },
)
values-IsWritten (v ∷ vs) m off typed =
    let (bytes, p) = IsPayload-of_IsTyped v.type v.content typed.0 in
    let all = type_code v.type ∷ bytes in
    let first = write_bytes m off all in
    let (after, used, rest) = values-IsWritten vs first (off + (1 + length bytes)) typed.1 in
    (
      after,
      1 + length bytes + used,
      record {
        writes = rw (p.sized_so, p.written) rest.writes;
        counts =
            λ sz. rw (p.sized_so) (rest.counts (sz + (1 + length bytes)) ∙ ap ok (omega arith));
        before = λ i h. rest.before i (omega arith) ∙ write_bytes_outside m off all i (inl h);
        reads = λ copy same.
            let held : Holds copy off all =
              Holds-agree copy first off all
                (λ i lo hi. same i lo (omega arith) ∙ rest.before i (omega arith))
                (write_bytes-Holds m off all) in
            rw (deserialize_of_Holds v bytes copy off p held) (
              ap (◌∷◌ (stored v))
                (rest.reads copy (λ i lo hi. same i (omega arith) (omega arith))));
      },
    )

-- A copied range holds what it was copied from.
write_bytes-read_bytes :
    (f m : Memory) (off n i : ℕ)
    → off ≤ i
    → i < off + n
    → write_bytes f off (read_bytes m off n) i ≡ m i
unfolding write_bytes read_bytes
write_bytes-read_bytes f m off zero i lo hi = absurd (omega arith)
write_bytes-read_bytes f m off (suc n) i lo hi =
    ground (arith, write_bytes-read_bytes f m (off + 1) n i)

-- The count in front and the values behind it, in any memory that agrees on the bytes of the tuple.
values_read :
    (t : Tuple) (vs : List Value) (counted after copy : Memory) (used : ℕ)
    → length vs < 256 ^ 4
    → Holds counted 0 (to_le 4 (length vs))
    → IsWritten vs counted 4 after used
    → ((i : ℕ) → i < 4 + used → copy i ≡ after i)
    → t.buffer ≡ some copy
    → (deserialize_tuple t).values ≡ map stored vs
unfolding deserialize_tuple
values_read t vs counted after copy used short held written same e =
    let count : number_at copy 0 4 ≡ length vs = number_at-to_le copy 0 4 (length vs) short (
      Holds-agree copy counted 0 (to_le 4 (length vs))
        (λ i lo hi.
          let inside : i < 4 = omega (arith, length-to_le 4 (length vs)) in
          same i (omega arith) ∙ written.before i inside)
        held) in
    rw (e, deserialize_tuple, count) (written.reads copy (λ i lo hi. same i hi))

-- A tuple of values whose data fits their types, fewer than 2 ^ 32 of them, is built; the bytes
-- that `serialize_to` copies from it, at any place of any memory, are read by `deserialize_from` as
-- a tuple with the same values in their stored types.
pub of_bytes-serialize_to :
    (fresh : Memory) (vs : List Value)
    → length vs < 256 ^ 4
    → AllTyped vs
    → (t : Tuple) × (of_values fresh vs ≡ ok t)
      × (t.values ≡ vs)
      × ((target other : Memory) (at : ℕ)
          → (of_bytes other (serialize_to t target at) at t.size).values ≡ map stored vs)
unfolding of_values serialize_tuple of_bytes serialize_to
of_bytes-serialize_to fresh vs short typed =
    let fits : length vs % 256 ^ 4 ≡ length vs = omega arith in
    let counted = write_bytes fresh 0 (to_le 4 (length vs)) in
    let (after, used, written) = values-IsWritten vs counted 4 typed in
    let sz = 4 + used in
    let t : Tuple = record { values = vs; allocated = true; buffer = some after; size = sz } in
    (
      t,
      rw (written.counts 4, fits, written.writes) refl,
      refl,
      λ target other at.
          let copied = write_bytes other 0 (read_bytes after 0 sz) in
          let source : read_bytes (write_bytes target at (read_bytes after 0 sz)) at sz
              ≡ read_bytes after 0 sz =
            read_bytes-write_bytes target at sz (read_bytes after 0 sz)
              (length-read_bytes after 0 sz) in
          rw source (
            values_read (record { values = []; allocated = true; buffer = some copied; size = sz })
              vs counted after copied used short (write_bytes-Holds fresh 0 (to_le 4 (length vs)))
              written (λ i h. write_bytes-read_bytes other after 0 sz i (omega arith) (omega arith))
              refl),
    )
