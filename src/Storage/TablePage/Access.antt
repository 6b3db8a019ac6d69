-- ===== src/Storage/TablePage/Access.antt =====
-- The operations of src/storage/table_page.cpp with the bounds of a page: an access that is not inside
-- the page's bytes faults.
use lattice_db_next_gen_dbms.Prelude.{ℕ, ◌+◌, ◌%◌, Bool, ◌&&◌, List}
use lattice_db_next_gen_dbms.Prelude.Tests.{◌==◌, leb, if◌then◌else◌}
use lattice_db_next_gen_dbms.Prelude.Lists.{length}
use lattice_db_next_gen_dbms.Prelude.Bytes.{Memory}
use lattice_db_next_gen_dbms.Prelude.Outcome.{Outcome, returns, faults}
use lattice_db_next_gen_dbms.Storage.Page.{page_size}
use lattice_db_next_gen_dbms.Storage.TablePage.{
  u32, slot_ptr, next_tuple_offset, get_tuple_offset_at_slot, is_tuple_deleted, get_tuple_size,
  find_free_slot, has_enough_space, insert_tuple, mark_delete, update_tuple, rollback_delete,
}

-- So many bytes from an offset on are in the page.
abbrev pub in_page : ℕ → ℕ → Bool
in_page offset size = leb (offset + size) page_size

abbrev pub slot_in_page : ℕ → Bool
slot_in_page slot_num = in_page (slot_ptr slot_num) 4

-- `insert_tuple`. The slots that `find_free_slot` reads lie behind the one that it gives.
unfoldable pub insert_in_page : Memory → List ℕ → Outcome Memory
insert_in_page m tuple =
    if has_enough_space m (length tuple % u32)
    then if slot_in_page (find_free_slot m) && in_page (next_tuple_offset m) (4 + length tuple)
      then returns (insert_tuple m tuple).0
      else faults
    else returns m

-- `mark_delete`.
unfoldable pub mark_delete_in_page : Memory → ℕ → Outcome Memory
mark_delete_in_page m slot_num =
    let offset = get_tuple_offset_at_slot m slot_num in
    if slot_in_page slot_num
    then if offset == 0
      then returns m
      else if in_page offset 4
      then returns (mark_delete m slot_num).0
      else faults
    else faults

-- `update_tuple` without a place for the old tuple.
unfoldable pub update_in_page : Memory → List ℕ → ℕ → Outcome Memory
update_in_page m tuple slot_num =
    let offset = get_tuple_offset_at_slot m slot_num in
    let size = length tuple % u32 in
    let updated = (update_tuple m tuple slot_num).0 in
    if slot_in_page slot_num
    then if offset == 0
      then returns m
      else if in_page offset 4
      then if is_tuple_deleted m offset
        then returns m
        else if size == get_tuple_size m offset
        then if in_page (offset + 4) (length tuple) then returns updated else faults
        else if has_enough_space m size
        then if in_page (next_tuple_offset m) (4 + length tuple) then returns updated else faults
        else returns m
      else faults
    else faults

-- `rollback_delete`.
unfoldable pub rollback_in_page : Memory → ℕ → Outcome Memory
rollback_in_page m slot_num =
    let offset = get_tuple_offset_at_slot m slot_num in
    if slot_in_page slot_num
    then if offset == 0
      then returns m
      else if in_page offset 4
      then returns (rollback_delete m slot_num)
      else faults
    else faults
