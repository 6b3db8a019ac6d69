-- ===== src/Buffer/BufferPool/Eviction.antt =====
-- What happens to a page that is flushed.
use lattice_db_next_gen_dbms.Prelude.{ℕ, ◌≡◌, true, false, List, Option, none, some, arith}
use lattice_db_next_gen_dbms.Prelude.Tests.{◌==◌, if◌then◌else◌}
use lattice_db_next_gen_dbms.Prelude.Dict.{lookup}
use lattice_db_next_gen_dbms.Storage.DiskManager.{DiskManager, read_page, read_page-write_page}
use lattice_db_next_gen_dbms.Buffer.BufferPool.{BufferPool, flush_page}
use lattice_db_next_gen_dbms.Buffer.BufferPool.Invariant.{IsConsistent}

-- What a pool's disk holds.
abbrev pub on_disk : {R : Type 0} → BufferPool R → ℕ → Option (List ℕ)
on_disk p i = elim p.disk_manager [ none ↦ none | some d ↦ some (read_page d i) ]

module _ {R : Type 0} where
  -- A page that is resident and dirty is on the disk after `flush_page`, its frame is clean and
  -- keeps its bytes, and no other page of the disk changes.
  pub flush_page_durable :
      (p : BufferPool R) (i fid j : ℕ) (d : DiskManager)
      → IsConsistent p
      → lookup i p.page_table ≡ some fid
      → p.disk_manager ≡ some d
      → (p.pages fid).is_dirty ≡ true
      → let q = (flush_page p i).0 in
        (on_disk q j ≡ some (if i == j then (p.pages fid).bytes else read_page d j))
        × ((q.pages fid).is_dirty ≡ false)
        × ((q.pages fid).bytes ≡ (p.pages fid).bytes)
  unfolding flush_page
  flush_page_durable p i fid j d c e o dirty =
      let rest = read_page-write_page d i j (p.pages fid).bytes (c.whole fid) in
      (ground (arith, rest), ground arith, ground arith)
