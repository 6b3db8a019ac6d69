-- ===== src/Recovery/LogManager/Content.antt =====
-- What the log holds, in the file and in the buffer of src/recovery/log_manager.cpp.
use mathlib.Core.List.{append_assoc, append-nil}
use lattice_db_next_gen_dbms.Prelude.{
  ℕ, zero, suc, ◌+◌, ◌*◌, ◌%◌, ◌^◌, ◌≤◌, ◌<◌, ◌≡◌, inl, inr, refl, sym, ap, ◌∙◌, true, false, List,
  [], ◌∷◌, ◌++◌, arith,
}
use lattice_db_next_gen_dbms.Prelude.Tests.{◌==◌, ltb, if◌then◌else◌, Bool-cases, lt→ltb}
use lattice_db_next_gen_dbms.Prelude.Lists.{length, length-append}
use lattice_db_next_gen_dbms.Prelude.Bytes.{
  Memory, read_bytes, write_bytes, to_le, read_bytes-write_bytes, read_bytes-write_bytes_apart,
}
use lattice_db_next_gen_dbms.Locking.Queue.{Rid}
use lattice_db_next_gen_dbms.Recovery.LogRecord.{
  LogRecord, insert_record, Header, get_size, serialize_to, set_lsn, record_bytes, images,
}
use lattice_db_next_gen_dbms.Recovery.LogManager.{
  LogManager, log_buffer_size, flush_helper, append_log_record,
}

-- The bytes in the file and those that wait in the buffer.
abbrev pub contents : LogManager → List ℕ
contents l = l.file ++ read_bytes l.log_buffer 0 l.flush_buffer_size

-- Every image has the size of a `Value` object.
abbrev pub AreImages : ℕ → List (List ℕ) → Type 0
AreImages width [] = Unit {0}
AreImages width (v ∷ vs) = (length v ≡ width) × AreImages width vs

read_bytes-add :
    (m : Memory) (off a b : ℕ)
    → read_bytes m off (a + b) ≡ read_bytes m off a ++ read_bytes m (off + a) b
unfolding read_bytes
read_bytes-add m off zero b =
    let e : 0 + b ≡ b = omega arith in let f : off + 0 ≡ off = omega arith in rw (e, f) refl
read_bytes-add m off (suc a) b =
    let e : suc a + b ≡ suc (a + b) = omega arith in
    let f : off + suc a ≡ off + 1 + a = omega arith in
    rw (e, f) (ap (◌∷◌ (m off)) (read_bytes-add m (off + 1) a b))

-- Bytes written behind what is in use.
read_bytes-behind :
    (m : Memory) (used n : ℕ) (bs : List ℕ)
    → length bs ≡ n
    → read_bytes (write_bytes m used bs) 0 (used + n) ≡ read_bytes m 0 used ++ bs
read_bytes-behind m used n bs h =
    let e : 0 + used ≡ used = omega arith in
    rw
      (
        read_bytes-add (write_bytes m used bs) 0 used n,
        e,
        read_bytes-write_bytes_apart m used bs 0 used (inl (omega arith)),
        read_bytes-write_bytes m used n bs h,
      )
      refl

length-images :
    (width : ℕ) (vs : List (List ℕ)) → AreImages width vs → length (images vs) ≡ length vs * width
unfolding images
length-images width [] h = omega arith
length-images width (v ∷ vs) h =
    grind (arith, length-append v (images vs), length-images width vs h.1)

length-insert_record :
    (width : ℕ) (h : Header) (rid : Rid) (vs : List (List ℕ))
    → AreImages width vs
    → length (record_bytes (insert_record h rid vs)) ≡ 28 + length vs * width
unfolding record_bytes to_le
length-insert_record width h rid vs images_fit = omega (arith, length-images width vs images_fit)

flush_helper-contents : (l : LogManager) → contents (flush_helper l) ≡ contents l
unfolding flush_helper
flush_helper-contents l = elim (Bool-cases (l.flush_buffer_size == 0)) [
  | inl empty ↦ rw (flush_helper, empty) refl
  | inr some_bytes ↦ rw (flush_helper, some_bytes) (unfold read_bytes in append-nil _)
]

-- Serializing a record behind the bytes in use.
written : LogManager → LogRecord → ℕ → LogManager
written l r size = record l {
  log_buffer = serialize_to r l.log_buffer l.flush_buffer_size;
  flush_buffer_size = l.flush_buffer_size + size;
}

written-contents :
    (l : LogManager) (r : LogRecord) (size : ℕ)
    → length (record_bytes r) ≡ size
    → contents (written l r size) ≡ contents l ++ record_bytes r
unfolding written
written-contents l r size h =
    rw (read_bytes-behind l.log_buffer l.flush_buffer_size size (record_bytes r) h)
      (sym (append_assoc l.file (read_bytes l.log_buffer 0 l.flush_buffer_size) (record_bytes r)))

-- The state in which a record is serialized.
room_for : ℕ → LogManager → LogManager
room_for size l =
    let counted : LogManager = record l { next_lsn = (l.next_lsn + 1) % 2 ^ 32 } in
    if ltb log_buffer_size ((l.flush_buffer_size + size) % 2 ^ 32)
    then flush_helper counted
    else counted

append_on :
    (width : ℕ) (l : LogManager) (r : LogRecord)
    → l.enable_logging ≡ true
    → append_log_record width l r ≡ (
      written
          (room_for (get_size width (set_lsn l.next_lsn r)) l)
          (set_lsn l.next_lsn r)
          (get_size width (set_lsn l.next_lsn r)),
      l.next_lsn,
    )
unfolding append_log_record written room_for
append_on width l r on = rw (append_log_record, on) refl

flush_helper_empties : (l : LogManager) → (flush_helper l).flush_buffer_size ≡ 0
unfolding flush_helper
flush_helper_empties l = ground arith

room_for-contents : (size : ℕ) (l : LogManager) → contents (room_for size l) ≡ contents l
unfolding room_for
room_for-contents size l =
    let counted : LogManager = record l { next_lsn = (l.next_lsn + 1) % 2 ^ 32 } in
    elim (Bool-cases (ltb log_buffer_size ((l.flush_buffer_size + size) % 2 ^ 32))) [
      | inl full ↦ rw (room_for, full) (flush_helper-contents counted)
      | inr fits ↦ rw (room_for, fits) refl
    ]

room_for_bound :
    (size : ℕ) (l : LogManager)
    → l.flush_buffer_size ≤ log_buffer_size
    → size ≤ log_buffer_size
    → (room_for size l).flush_buffer_size + size ≤ log_buffer_size
unfolding room_for
room_for_bound size l bound fits =
    let counted : LogManager = record l { next_lsn = (l.next_lsn + 1) % 2 ^ 32 } in
    elim (Bool-cases (ltb log_buffer_size ((l.flush_buffer_size + size) % 2 ^ 32))) [
      | inl full ↦ rw (room_for, full) (omega (arith, flush_helper_empties counted))
      | inr room ↦ rw (room_for, room) (ground arith)
    ]

-- With logging on, a buffer within its bounds and an insertion record that fits an empty buffer,
-- `append_log_record` adds exactly the bytes of the record, under the number that it returns, to
-- what the file and the buffer hold together, and the buffer stays within its bounds.
pub append_log_record-contents :
    (width : ℕ) (l : LogManager) (h : Header) (rid : Rid) (vs : List (List ℕ))
    → l.enable_logging ≡ true
    → l.flush_buffer_size ≤ log_buffer_size
    → AreImages width vs
    → 28 + length vs * width ≤ log_buffer_size
    → let (after, lsn) = append_log_record width l (insert_record h rid vs) in
      (lsn ≡ l.next_lsn)
      × (contents after ≡ contents l ++ record_bytes (set_lsn lsn (insert_record h rid vs)))
      × (after.flush_buffer_size ≤ log_buffer_size)
unfolding get_size
append_log_record-contents width l h rid vs on bound images_fit fits =
    let r = insert_record h rid vs in
    let numbered = set_lsn l.next_lsn r in
    let size = get_size width numbered in
    let whole : length (record_bytes numbered) ≡ size =
      omega (arith, length-insert_record width (record h { lsn = l.next_lsn }) rid vs images_fit) in
    rw (append_on width l r on) (
      refl,
      written-contents (room_for size l) numbered size whole
          ∙ ap (λ c. c ++ record_bytes numbered) (room_for-contents size l),
      unfold written in room_for_bound size l bound (omega arith),
    )

-- With logging on, a record that finds the buffer in use and does not fit behind it makes the
-- buffer go to the file first. Then `persistent_lsn_` is the number of this record, although the
-- file holds the older bytes only.
pub append_log_record-persistent_lsn :
    (width : ℕ) (l : LogManager) (r : LogRecord)
    → l.enable_logging ≡ true
    → l.next_lsn < 2 ^ 32
    → 0 < l.flush_buffer_size
    → log_buffer_size < (l.flush_buffer_size + get_size width (set_lsn l.next_lsn r)) % 2 ^ 32
    → let (after, lsn) = append_log_record width l r in
      (after.persistent_lsn ≡ lsn) × (after.file ≡ contents l)
unfolding room_for flush_helper written
append_log_record-persistent_lsn width l r on small used over =
    let in_use : (l.flush_buffer_size == 0) ≡ false = ground arith in
    rw (append_on width l r on, written, room_for, lt→ltb _ _ over, flush_helper, in_use)
      (omega arith, refl)
