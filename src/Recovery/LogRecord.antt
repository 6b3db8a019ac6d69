-- ===== src/Recovery/LogRecord.antt =====
-- The log records of src/recovery/log_manager.h and log_manager.cpp. A `Value` is logged as the raw
-- bytes of the object, all of one length.
use lattice_db_next_gen_dbms.Prelude.{
  ℕ, zero, suc, ◌+◌, ◌-◌, ◌*◌, ◌%◌, ◌^◌, Bool, ◌&&◌, Option, none, some, List, [], ◌∷◌, ◌++◌,
}
use lattice_db_next_gen_dbms.Prelude.Tests.{ltb, leb, if◌then◌else◌}
use lattice_db_next_gen_dbms.Prelude.Outcome.{Outcome, returns, faults, ◌>>=◌}
use lattice_db_next_gen_dbms.Prelude.Lists.{length}
use lattice_db_next_gen_dbms.Prelude.Bytes.{Memory, read_bytes, write_bytes, to_le, of_le}
use lattice_db_next_gen_dbms.Locking.Queue.{Rid, no_rid}

pub data LogRecordType : Type 0 where
  invalid : LogRecordType
  insert : LogRecordType
  delete : LogRecordType
  update : LogRecordType
  begin : LogRecordType
  commit : LogRecordType
  abort : LogRecordType
  newpage : LogRecordType
  clr : LogRecordType

abbrev pub log_type_code : LogRecordType → ℕ
log_type_code invalid = 0
log_type_code insert = 1
log_type_code delete = 2
log_type_code update = 3
log_type_code begin = 4
log_type_code commit = 5
log_type_code abort = 6
log_type_code newpage = 7
log_type_code clr = 8

abbrev pub invalid_lsn : ℕ
invalid_lsn = 2 ^ 32 - 1

abbrev pub invalid_txn_id : ℕ
invalid_txn_id = 2 ^ 32 - 1

-- The members of the base class; a constructor with arguments sets the type to that of its class.
pub record Header : Type 0 where
  pub log_record_type : ℕ
  pub lsn : ℕ
  pub prev_lsn : ℕ
  pub txn_id : ℕ

-- The members of a record of the default constructor.
abbrev pub blank_header : Header
blank_header = record {
  log_record_type = log_type_code invalid;
  lsn = invalid_lsn;
  prev_lsn = invalid_lsn;
  txn_id = invalid_txn_id;
}

-- The class of a record and its members. The values of a tuple are images of `Value` objects.
pub data LogRecord : Type 0 where
  insert_record : Header → Rid → List (List ℕ) → LogRecord
  delete_record : Header → Rid → List (List ℕ) → LogRecord
  update_record : Header → Rid → List (List ℕ) → List (List ℕ) → LogRecord

abbrev pub header_of : LogRecord → Header
header_of (insert_record h rid vs) = h
header_of (delete_record h rid vs) = h
header_of (update_record h rid old new) = h

abbrev pub rid_of : LogRecord → Rid
rid_of (insert_record h rid vs) = rid
rid_of (delete_record h rid vs) = rid
rid_of (update_record h rid old new) = rid

-- `set_lsn`.
abbrev pub set_lsn : ℕ → LogRecord → LogRecord
set_lsn lsn (insert_record h rid vs) = insert_record (record h { lsn = lsn }) rid vs
set_lsn lsn (delete_record h rid vs) = delete_record (record h { lsn = lsn }) rid vs
set_lsn lsn (update_record h rid old new) = update_record (record h { lsn = lsn }) rid old new

-- `InsertLogRecord::get_size`, for a `Value` object of `width` bytes and a tuple of so many values.
abbrev pub insert_size : ℕ → ℕ → ℕ
insert_size width values = (4 + 4 * 2 + 4 + 4 * 2 + 4 + values * width) % 2 ^ 32

-- `DeleteLogRecord::get_size`.
abbrev pub delete_size : ℕ → ℕ → ℕ
delete_size width values = (4 + 4 * 2 + 4 + 4 * 2 + 4 + values * width) % 2 ^ 32

-- `UpdateLogRecord::get_size`.
abbrev pub update_size : ℕ → ℕ → ℕ → ℕ
update_size width old new = (4 + 4 * 2 + 4 + 4 * 2 + 4 * 2 + old * width + new * width) % 2 ^ 32

-- The virtual `get_size`.
unfoldable pub get_size : ℕ → LogRecord → ℕ
get_size width (insert_record h rid vs) = insert_size width (length vs)
get_size width (delete_record h rid vs) = delete_size width (length vs)
get_size width (update_record h rid old new) = update_size width (length old) (length new)

-- The four words in front of every record.
abbrev pub header_bytes : Header → List ℕ
header_bytes h =
    to_le 4 h.log_record_type ++ (to_le 4 h.lsn ++ (to_le 4 h.prev_lsn ++ to_le 4 h.txn_id))

unfoldable pub images : List (List ℕ) → List ℕ
images [] = []
images (v ∷ vs) = v ++ images vs

-- The bytes that `InsertLogRecord::serialize_to` writes, one behind the other.
abbrev pub insert_bytes : Header → Rid → List (List ℕ) → List ℕ
insert_bytes h rid vs =
    header_bytes h
    ++ (to_le 4 rid.page_id
        ++ (to_le 4 rid.slot_num ++ (to_le 4 (length vs % 2 ^ 32) ++ images vs)))

-- `DeleteLogRecord::serialize_to`.
abbrev pub delete_bytes : Header → Rid → List ℕ
delete_bytes h rid = header_bytes h ++ (to_le 4 rid.page_id ++ to_le 4 rid.slot_num)

-- `UpdateLogRecord::serialize_to`: the header alone.
abbrev pub update_bytes : Header → List ℕ
update_bytes h = header_bytes h

-- The virtual `serialize_to`.
unfoldable pub record_bytes : LogRecord → List ℕ
record_bytes (insert_record h rid vs) = insert_bytes h rid vs
record_bytes (delete_record h rid vs) = delete_bytes h rid
record_bytes (update_record h rid old new) = update_bytes h

abbrev pub serialize_to : LogRecord → Memory → ℕ → Memory
serialize_to r m at = write_bytes m at (record_bytes r)

abbrev pub word_at : Memory → ℕ → ℕ
word_at m off = of_le (read_bytes m off 4)

abbrev pub header_at : Memory → ℕ → Header
header_at m off = record {
  log_record_type = word_at m off;
  lsn = word_at m (off + 4);
  prev_lsn = word_at m (off + 8);
  txn_id = word_at m (off + 12);
}

abbrev pub rid_at : Memory → ℕ → Rid
rid_at m off = record { page_id = word_at m (off + 16); slot_num = word_at m (off + 20) }

-- The loop that reads the values of an insertion, `n` to go, from a buffer of `limit` bytes. A read
-- behind the end of the buffer, and a copy of bytes that are not those of a `Value`, fault.
unfoldable pub images_at : ℕ → (List ℕ → Bool) → ℕ → Memory → ℕ → ℕ → Outcome (List (List ℕ))
images_at width is_value limit m off zero = returns []
images_at width is_value limit m off (suc n) =
    let image = read_bytes m off width in
    let rest = images_at width is_value limit m (off + width) n in
    if leb (off + width) limit && is_value image
    then (rest >>= λ vs. returns (image ∷ vs))
    else faults

-- `InsertLogRecord::deserialize_from`, of the start of a buffer of `limit` bytes.
unfoldable pub deserialize_insert :
    ℕ → (List ℕ → Bool) → ℕ → Memory → ℕ → Outcome (Option LogRecord)
deserialize_insert width is_value limit m size =
    if ltb size (4 + 4 * 2 + 4)
    then returns none
    else (images_at width is_value limit m 28 (word_at m 24) >>= λ vs.
        returns (some (insert_record (header_at m 0) (rid_at m 0) vs)))

-- `DeleteLogRecord::deserialize_from`; the tuple stays empty.
unfoldable pub deserialize_delete : Memory → Option LogRecord
deserialize_delete m = some (delete_record (header_at m 0) (rid_at m 0) [])

-- `UpdateLogRecord::deserialize_from` leaves the record as it was constructed.
unfoldable pub deserialize_update : Option LogRecord
deserialize_update = some (update_record blank_header no_rid [] [])
