-- ===== src/Storage/Tests.antt =====
-- Runs of the storage layer on one page.
use lattice_db_next_gen_dbms.Prelude.{ℕ, ◌≡◌}
use lattice_db_next_gen_dbms.Prelude.Tests.{◌==◌, if◌then◌else◌}
use lattice_db_next_gen_dbms.Prelude.Lists.{replicate, length-replicate}
use lattice_db_next_gen_dbms.Storage.Page.{page_size}
use lattice_db_next_gen_dbms.Storage.DiskManager.{
  DiskManager, init, read_page, write_page, read_page-write_page,
}

abbrev empty_file : DiskManager
empty_file = init (λ _. 0) 0

read_page-write_page_example :
    read_page (write_page empty_file 3 (replicate page_size 7)) 4
    ≡ (if 3 == 4 then replicate page_size 7 else read_page empty_file 4)
read_page-write_page_example =
    read_page-write_page empty_file 3 4 (replicate page_size 7)
      (length-replicate {A = ℕ} page_size 7)
