-- ===== src/Recovery/LogManager.antt =====
-- `LogManager` of src/recovery/log_manager.cpp: records go to a buffer, and the buffer to the file.
pub mod Content
use lattice_db_next_gen_dbms.Prelude.{
  ℕ, zero, suc, ◌+◌, ◌-◌, ◌*◌, ◌%◌, ◌^◌, Bool, true, false, List, [], ◌∷◌, ◌++◌,
}
use lattice_db_next_gen_dbms.Prelude.Tests.{◌==◌, ltb, if◌then◌else◌}
use lattice_db_next_gen_dbms.Prelude.Bytes.{Memory, read_bytes}
use lattice_db_next_gen_dbms.Recovery.LogRecord.{
  LogRecord, invalid_lsn, get_size, serialize_to, set_lsn,
}

-- `LOG_BUFFER_SIZE`.
abbrev pub log_buffer_size : ℕ
log_buffer_size = 1024 * 1024

-- The buffer, how many of its bytes are in use, and the bytes in the file.
pub record LogManager : Type 0 where
  pub next_lsn : ℕ
  pub persistent_lsn : ℕ
  pub log_buffer : Memory
  pub flush_buffer_size : ℕ
  pub file : List ℕ
  pub enable_logging : Bool

-- `flush_helper`.
unfoldable pub flush_helper : LogManager → LogManager
flush_helper l = if l.flush_buffer_size == 0 then l else record l {
  file = l.file ++ read_bytes l.log_buffer 0 l.flush_buffer_size;
  persistent_lsn = (l.next_lsn + 2 ^ 32 - 1) % 2 ^ 32;
  flush_buffer_size = 0;
}

-- `append_log_record`, for a `Value` object of `width` bytes; the result is the record's number.
unfoldable pub append_log_record : ℕ → LogManager → LogRecord → LogManager × ℕ
append_log_record width l r =
    let lsn = l.next_lsn in
    let numbered = set_lsn lsn r in
    let size = get_size width numbered in
    let counted = record l { next_lsn = (lsn + 1) % 2 ^ 32 } in
    let room =
      if ltb log_buffer_size ((l.flush_buffer_size + size) % 2 ^ 32)
      then flush_helper counted
      else counted in
    if l.enable_logging
    then (
      record room {
        log_buffer = serialize_to numbered room.log_buffer room.flush_buffer_size;
        flush_buffer_size = room.flush_buffer_size + size;
      },
      lsn,
    )
    else (l, invalid_lsn)

-- `flush`.
unfoldable pub flush : LogManager → LogManager
flush l = if l.enable_logging then flush_helper l else l
