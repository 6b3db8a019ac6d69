-- ===== src/Types/Value/Payload.antt =====
-- The payload of each type of value of src/types/value.cpp: what is written, how long it is, and what
-- is read.
use lattice_db_next_gen_dbms.Prelude.{
  ℕ, ◌+◌, ◌*◌, ◌%◌, ◌^◌, ◌<◌, ◌≡◌, refl, ap, subst, ◌∙◌, true, false, not, some, List, [], ◌∷◌,
  ◌++◌, arith,
}
use mathlib.Core.Path.{ap₂}
use lattice_db_next_gen_dbms.Prelude.Tests.{◌==◌, if◌then◌else◌}
use lattice_db_next_gen_dbms.Prelude.Lists.{length, take, length-append}
use lattice_db_next_gen_dbms.Prelude.Bytes.{Memory, read_bytes, to_le, length-to_le}
use lattice_db_next_gen_dbms.Types.Value.{
  ValueType, null_type, boolean, tinyint, smallint, integer, bigint, decimal, real, double, varchar,
  text, timestamp, date, time, blob, vector, type_code, ValueData, bool_data, double_data,
  string_data, Value, ok, null_value, of_string, IsTyped, typed_null, typed_boolean, typed_tinyint,
  typed_smallint, typed_integer, typed_bigint, typed_decimal, typed_real, typed_double,
  typed_varchar, typed_text, typed_timestamp, typed_date, typed_time, typed_blob, typed_vector,
  AllBelow,
}
use lattice_db_next_gen_dbms.Types.Value.Bytes.{
  serialize_size, payload, read_payload, type_of_code, doubles_bytes, doubles_at, number_at, sized,
}
use lattice_db_next_gen_dbms.Types.Value.Held.{
  Holds, Holds-append, number_at-to_le, read_bytes_of_Holds,
}

pub take-length : (xs : List ℕ) → take (length xs) xs ≡ xs
take-length [] = refl
take-length (x ∷ xs) = ap (◌∷◌ x) (take-length xs)

-- What `sized` writes, for a length that fits.
pub sized_lem : (s : List ℕ) → length s < 256 ^ 4 → sized s ≡ to_le 4 (length s) ++ s
sized_lem s h =
    let fits : length s % 256 ^ 4 ≡ length s = omega arith in rw (fits, take-length) refl

pub length-doubles_bytes : (v : List ℕ) → length (doubles_bytes (length v) v) ≡ length v * 8
unfolding doubles_bytes
length-doubles_bytes [] = refl
length-doubles_bytes (x ∷ v) = omega (
  arith,
  length-append (to_le 8 x) (doubles_bytes (length v) v),
  length-to_le 8 x,
  length-doubles_bytes v,
)

pub doubles_at-doubles_bytes :
    (m : Memory) (off : ℕ) (v : List ℕ)
    → AllBelow (256 ^ 8) v
    → Holds m off (doubles_bytes (length v) v)
    → doubles_at m off (length v) ≡ v
unfolding doubles_bytes doubles_at
doubles_at-doubles_bytes m off [] below h = refl
doubles_at-doubles_bytes m off (x ∷ v) below h =
    let parts = Holds-append m off (to_le 8 x) (doubles_bytes (length v) v) h in
    let rest =
      subst (λ n. Holds m (off + n) (doubles_bytes (length v) v)) (length-to_le 8 x) parts.1 in
    ap₂ ◌∷◌ (number_at-to_le m off 8 x below.0 parts.0)
      (doubles_at-doubles_bytes m (off + 8) v below.1 rest)

-- The type that a value has after it was written and read: one of each family.
abbrev pub stored_type : ValueType → ValueType
stored_type decimal = double
stored_type real = double
stored_type text = varchar
stored_type timestamp = varchar
stored_type date = varchar
stored_type time = varchar
stored_type other = other

abbrev pub stored : Value → Value
stored v = record { content = v.content; type = stored_type v.type }

-- These bytes are the payload of the value, the size counts them and the tag, and memory that holds
-- them reads as the stored value.
pub record IsPayload (v : Value) (bytes : List ℕ) : Type 0 where
  pub written : payload v.type v.content ≡ ok bytes
  pub sized_so : serialize_size v ≡ ok (1 + length bytes)
  pub read_back :
      (m : Memory) (off : ℕ)
      → Holds m off bytes
      → read_payload v.type m off ≡ (stored v, off + length bytes)

-- A length and the bytes that it counts.
pub sized_parts :
    (m : Memory) (off : ℕ) (len : ℕ) (bs : List ℕ)
    → len < 256 ^ 4
    → Holds m off (to_le 4 len ++ bs)
    → (number_at m off 4 ≡ len) × Holds m (off + 4) bs
sized_parts m off len bs h held =
    let parts = Holds-append m off (to_le 4 len) bs held in
    (
      number_at-to_le m off 4 len h parts.0,
      subst (λ n. Holds m (off + n) bs) (length-to_le 4 len) parts.1,
    )

pub length_sized : (len : ℕ) (bs : List ℕ) → length (to_le 4 len ++ bs) ≡ 4 + length bs
length_sized len bs = omega (arith, length-append (to_le 4 len) bs, length-to_le 4 len)

pub string_back :
    (m : Memory) (off : ℕ) (s : List ℕ)
    → length s < 256 ^ 4
    → Holds m off (to_le 4 (length s) ++ s)
    → (number_at m off 4 ≡ length s) × (read_bytes m (off + 4) (length s) ≡ s)
string_back m off s h held =
    let parts = sized_parts m off (length s) s h held in
    (parts.0, read_bytes_of_Holds m (off + 4) s parts.1)

pub type_of_code_lem : (t : ValueType) → type_of_code (type_code t) ≡ some t
type_of_code_lem t = elim t as (λ k. type_of_code (type_code k) ≡ some k) [
  | null_type ↦ refl
  | boolean ↦ refl
  | tinyint ↦ refl
  | smallint ↦ refl
  | integer ↦ refl
  | bigint ↦ refl
  | decimal ↦ refl
  | real ↦ refl
  | double ↦ refl
  | varchar ↦ refl
  | text ↦ refl
  | timestamp ↦ refl
  | date ↦ refl
  | time ↦ refl
  | blob ↦ refl
  | vector ↦ refl
]

abbrev pub value : ValueType → ValueData → Value
value t d = record { content = d; type = t }

-- The five string types, by what their cases compute to.
pub string_payload :
    (t : ValueType) (s : List ℕ)
    → length s < 256 ^ 4
    → payload t (string_data s) ≡ ok (sized s)
    → serialize_size (value t (string_data s)) ≡ ok (1 + 4 + length s)
    → ((m : Memory) (off : ℕ)
        → read_payload t m off ≡ (
          of_string (read_bytes m (off + 4) (number_at m off 4)) varchar,
          off + 4 + number_at m off 4,
        ))
    → stored_type t ≡ varchar
    → IsPayload (value t (string_data s)) (to_le 4 (length s) ++ s)
string_payload t s h writes size reads stays = record {
  written = writes ∙ ap ok (sized_lem s h);
  sized_so = size ∙ ap ok (omega (arith, length_sized (length s) s));
  read_back = λ m off held.
      let parts = string_back m off s h held in
      let end : off + 4 + length s ≡ off + length (to_le 4 (length s) ++ s) =
        omega (arith, length_sized (length s) s) in
      reads m off ∙ rw (parts.0, parts.1, stays, end) refl;
}

pub double_payload :
    (t : ValueType) (x : ℕ)
    → x < 256 ^ 8
    → payload t (double_data x) ≡ ok (to_le 8 x)
    → serialize_size (value t (double_data x)) ≡ ok (1 + 8)
    → ((m : Memory) (off : ℕ)
        → read_payload t m off
          ≡ (record { content = double_data (number_at m off 8); type = double }, off + 8))
    → stored_type t ≡ double
    → IsPayload (value t (double_data x)) (to_le 8 x)
double_payload t x h writes size reads stays = record {
  written = writes;
  sized_so = size ∙ ap ok (omega (arith, length-to_le 8 x));
  read_back = λ m off held.
      reads m off ∙ rw (number_at-to_le m off 8 x h held, stays, length-to_le 8 x) refl;
}

pub IsPayload-of_IsTyped :
    (t : ValueType) (d : ValueData) → IsTyped t d → (bytes : List ℕ) × IsPayload (value t d) bytes
unfolding payload serialize_size read_payload
IsPayload-of_IsTyped _ _ typed_null = (
  [],
  record {
    written = refl;
    sized_so = refl;
    read_back = λ m off held. ap (λ n. (null_value, n)) (omega arith);
  },
)
IsPayload-of_IsTyped _ _ (typed_boolean b) = (
  (if b then 1 else 0) ∷ [],
  record {
    written = refl;
    sized_so = ap ok (omega arith);
    read_back = λ m off held.
        elim b
            as (λ c.
              m off ≡ (if c then 1 else 0)
              → (record { content = bool_data (not (m off == 0)); type = boolean }, off + 1)
                ≡ (value boolean (bool_data c), off + 1)) [
                  | true ↦ λ e. rw e refl
                  | false ↦ λ e. rw e refl
                ]
          held.0;
  },
)
IsPayload-of_IsTyped _ _ (typed_tinyint x h) = (
  x ∷ [],
  record {
    written = refl;
    sized_so = ap ok (omega arith);
    read_back = λ m off held. rw (held.0) refl;
  },
)
IsPayload-of_IsTyped _ _ (typed_smallint x h) = (
  to_le 2 x,
  record {
    written = refl;
    sized_so = ap ok (omega (arith, length-to_le 2 x));
    read_back = λ m off held. rw (number_at-to_le m off 2 x h held, length-to_le 2 x) refl;
  },
)
IsPayload-of_IsTyped _ _ (typed_integer x h) = (
  to_le 4 x,
  record {
    written = refl;
    sized_so = ap ok (omega (arith, length-to_le 4 x));
    read_back = λ m off held. rw (number_at-to_le m off 4 x h held, length-to_le 4 x) refl;
  },
)
IsPayload-of_IsTyped _ _ (typed_bigint x h) = (
  to_le 8 x,
  record {
    written = refl;
    sized_so = ap ok (omega (arith, length-to_le 8 x));
    read_back = λ m off held. rw (number_at-to_le m off 8 x h held, length-to_le 8 x) refl;
  },
)
IsPayload-of_IsTyped _ _ (typed_decimal x h) =
    (to_le 8 x, double_payload decimal x h refl refl (λ m off. refl) refl)
IsPayload-of_IsTyped _ _ (typed_real x h) =
    (to_le 8 x, double_payload real x h refl refl (λ m off. refl) refl)
IsPayload-of_IsTyped _ _ (typed_double x h) =
    (to_le 8 x, double_payload double x h refl refl (λ m off. refl) refl)
IsPayload-of_IsTyped _ _ (typed_varchar s h) =
    (_, string_payload varchar s h refl refl (λ m off. refl) refl)
IsPayload-of_IsTyped _ _ (typed_text s h) =
    (_, string_payload text s h refl refl (λ m off. refl) refl)
IsPayload-of_IsTyped _ _ (typed_timestamp s h) =
    (_, string_payload timestamp s h refl refl (λ m off. refl) refl)
IsPayload-of_IsTyped _ _ (typed_date s h) =
    (_, string_payload date s h refl refl (λ m off. refl) refl)
IsPayload-of_IsTyped _ _ (typed_time s h) =
    (_, string_payload time s h refl refl (λ m off. refl) refl)
IsPayload-of_IsTyped _ _ (typed_blob s h) = (
  to_le 4 (length s) ++ s,
  record {
    written = ap ok (sized_lem s h);
    sized_so = ap ok (omega (arith, length_sized (length s) s));
    read_back = λ m off held.
        let parts = string_back m off s h held in
        let end : off + 4 + length s ≡ off + length (to_le 4 (length s) ++ s) =
          omega (arith, length_sized (length s) s) in
        rw (parts.0, parts.1, end) refl;
  },
)
IsPayload-of_IsTyped _ _ (typed_vector v h below) =
    let words = doubles_bytes (length v) v in
    let fits : length v % 256 ^ 4 ≡ length v = omega arith in
    (
      to_le 4 (length v) ++ words,
      record {
        written = rw fits refl;
        sized_so = ap ok (omega (arith, length_sized (length v) words, length-doubles_bytes v));
        read_back = λ m off held.
            let parts = sized_parts m off (length v) words h held in
            let end : off + 4 + length v * 8 ≡ off + length (to_le 4 (length v) ++ words) =
              omega (arith, length_sized (length v) words, length-doubles_bytes v) in
            rw (parts.0, doubles_at-doubles_bytes m (off + 4) v below parts.1, end) refl;
      },
    )
