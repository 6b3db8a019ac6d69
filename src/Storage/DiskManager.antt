-- ===== src/Storage/DiskManager.antt =====
-- `DiskManager` of src/storage/disk_manager.h and disk_manager.cpp. `file` gives the byte at each
-- offset of the database file, 0 past its end: a short read is filled with zeros, and a write past
-- the end leaves zeros before it. `db_io_mutex_` is held for one call at a time. The stream is taken
-- to be open, and no operation on it to fail.
use lattice_db_next_gen_dbms.Prelude.{
  ℕ, ◌+◌, ◌*◌, ◌/◌, ◌%◌, ◌^◌, ◌≡◌, ◌≢◌, List, inl, inr, arith, ◌⊎◌, ◌≤◌,
}
use lattice_db_next_gen_dbms.Prelude.Tests.{◌==◌, if◌then◌else◌, Bool-cases, ==_iff}
use lattice_db_next_gen_dbms.Prelude.Lists.{length}
use lattice_db_next_gen_dbms.Prelude.Bytes.{
  Memory, read_bytes, write_bytes, length-read_bytes, read_bytes-write_bytes,
  read_bytes-write_bytes_apart,
}
use lattice_db_next_gen_dbms.Storage.Page.{page_size}

pub record DiskManager : Type 0 where
  pub file : Memory
  pub next_page_id : ℕ
  pub num_writes : ℕ
  pub num_flushes : ℕ

abbrev pub u32 : ℕ
u32 = 2 ^ 32

-- The constructor, over the file's contents and its size (0 for a file that it creates).
unfoldable pub init : Memory → ℕ → DiskManager
init file file_size =
    let pages = file_size % u32 / page_size in
    record {
      file = file;
      next_page_id = if pages == 0 then 1 else pages;
      num_writes = 0;
      num_flushes = 0;
    }

unfoldable pub page_offset : ℕ → ℕ
page_offset page_id = page_id * page_size

unfoldable pub read_page : DiskManager → ℕ → List ℕ
unfolding page_offset
read_page d page_id = read_bytes d.file (page_offset page_id) page_size

unfoldable pub force_flush : DiskManager → DiskManager
force_flush d = record d { num_flushes = (d.num_flushes + 1) % u32 }

unfoldable pub write_page : DiskManager → ℕ → List ℕ → DiskManager
unfolding page_offset force_flush
write_page d page_id bytes =
    let written = record d {
      file = write_bytes d.file (page_offset page_id) bytes;
      num_writes = (d.num_writes + 1) % u32;
    } in
    if written.num_writes % 100 == 0 then force_flush written else written

unfoldable pub allocate_page : DiskManager → DiskManager × ℕ
allocate_page d = (record d { next_page_id = (d.next_page_id + 1) % u32 }, d.next_page_id)

pub length-read_page : (d : DiskManager) (i : ℕ) → length (read_page d i) ≡ page_size
unfolding read_page
length-read_page d i = length-read_bytes d.file (i * page_size) page_size

pub file-write_page :
    (d : DiskManager) (i : ℕ) (bytes : List ℕ)
    → (write_page d i bytes).file ≡ write_bytes d.file (i * page_size) bytes
unfolding write_page
file-write_page d i bytes = ground arith

-- Two pages do not overlap in the file.
apart :
    (i j : ℕ) (bytes : List ℕ)
    → length bytes ≡ page_size
    → i ≢ j
    → (j * page_size + page_size ≤ i * page_size) ⊎ (i * page_size + length bytes ≤ j * page_size)
apart i j bytes h n = rw h (grind arith)

-- A page that is written whole is read back, and no other page changes.
pub read_page-write_page :
    (d : DiskManager) (i j : ℕ) (bytes : List ℕ)
    → length bytes ≡ page_size
    → read_page (write_page d i bytes) j ≡ (if i == j then bytes else read_page d j)
unfolding read_page
read_page-write_page d i j bytes h = rw (file-write_page d i bytes) (elim (Bool-cases (i == j)) [
  | inl same ↦ rw (same, (==_iff i j).0 same) (read_bytes-write_bytes d.file _ page_size bytes h)
  | inr other ↦ rw other (
      read_bytes-write_bytes_apart d.file (i * page_size) bytes (j * page_size) page_size
        (apart i j bytes h (λ e. ground arith)))
])
