-- ===== src/Catalog/Tests.antt =====
-- Tables at small inputs.
use lattice_db_next_gen_dbms.Prelude.{
  ℕ, ◌+◌, ◌≡◌, ◌≢◌, refl, true, false, none, some, List, [], ◌∷◌, arith,
}
use lattice_db_next_gen_dbms.Prelude.Dict.{lookup, insert}
use lattice_db_next_gen_dbms.Prelude.Lists.{length, take, drop}
use lattice_db_next_gen_dbms.Types.Tuple.{Tuple}
use lattice_db_next_gen_dbms.Types.Tests.{whole_numbers}
use lattice_db_next_gen_dbms.Types.Value.{Value, integer, int32_data, ok, typed_integer}
use lattice_db_next_gen_dbms.Catalog.Constraints.{
  list_of, all_valid, add_primary_key, add_unique, validate_insert,
}
use lattice_db_next_gen_dbms.Catalog.Constraints.History.{
  no_constraints, start, adds_unique, adds_primary_key,
}
use lattice_db_next_gen_dbms.Catalog.Constraints.Insert.{validate_insert_lem}
use lattice_db_next_gen_dbms.Catalog.TableHeap.{
  Store, slots_of, begin, make_heap, insert_tuple, mark_delete, on_page, deleted_slot,
}
use lattice_db_next_gen_dbms.Prelude.Bytes.{of_le, to_le, read_bytes, write_bytes}
use lattice_db_next_gen_dbms.Storage.TablePage
use lattice_db_next_gen_dbms.Storage.TablePage.{
  put_word, word, has_enough_space, get_free_space_remaining, find_free_slot,
}
use lattice_db_next_gen_dbms.Storage.TablePage.Access.{insert_in_page, mark_delete_in_page}
use lattice_db_next_gen_dbms.Storage.Page.{invalid_page_id}
use lattice_db_next_gen_dbms.Prelude.Outcome.{returns}
use lattice_db_next_gen_dbms.Catalog.TableHeap.View.{
  step, live_view, Request, insert_request, delete_request, get_request,
}
use lattice_db_next_gen_dbms.Catalog.TableHeap.Refines.{run, Behaves, Ended, run-Behaves}
use lattice_db_next_gen_dbms.Catalog.TableHeap.Scan.{scan, live_tuples, scan-begin}

abbrev no_bytes : Tuple
no_bytes = record { values = []; allocated = false; buffer = none; size = 0 }

-- Heap 4 has two slots, the first of them deleted.
abbrev two_slots : Store
two_slots = record {
  tables = (4, record { tuples = no_bytes ∷ no_bytes ∷ []; deleted = true ∷ false ∷ [] }) ∷ [];
  pages = λ i. returns none;
}

-- The heap of a new page 4.
abbrev new_heap : Store
new_heap =
    (make_heap (record { tables = []; pages = λ i. returns none }) invalid_page_id (some 4)).0

abbrev calls : List Request
calls =
    insert_request no_bytes
    ∷ delete_request (record { page_id = 4; slot_num = 0 })
    ∷ get_request (record { page_id = 4; slot_num = 0 })
    ∷ []

run-Behaves_example :
    let (final, replies) = run new_heap 4 calls in
    Behaves 4 (live_view new_heap 4) (take (length replies) calls) replies (live_view final 4)
    × Ended final 4 (drop (length replies) calls)
    × ((other : ℕ) → 4 ≢ other → slots_of final other ≡ slots_of new_heap other)
unfolding insert
run-Behaves_example =
    run-Behaves new_heap 4 calls (unfold make_heap in unfold slots_of in unfold lookup in refl)
      (unfold make_heap in unfold slots_of in unfold lookup in omega arith)

-- All three calls are answered.
all_answered_test : length (run new_heap 4 calls).1 ≡ 3
unfolding run step make_heap insert_tuple mark_delete on_page insert_in_page mark_delete_in_page
    slots_of lookup insert deleted_slot TablePage.init put_word word has_enough_space
    get_free_space_remaining find_free_slot TablePage.insert_tuple TablePage.put_tuple
    TablePage.free_slot_from of_le to_le read_bytes write_bytes
all_answered_test = refl

scan-begin_example :
    scan (length (slots_of two_slots 4).tuples + 1) two_slots 4 (begin two_slots 4)
    ≡ some (live_tuples (slots_of two_slots 4) 0 (length (slots_of two_slots 4).tuples))
scan-begin_example =
    scan-begin two_slots 4 (unfold slots_of in unfold lookup in refl) (omega arith)
      (unfold slots_of in unfold lookup in omega arith)

-- A row, and a manager with a PRIMARY KEY and a UNIQUE constraint on table 1.
abbrev one_row : List Value
one_row = record { type = integer; content = int32_data 7 } ∷ []

validate_insert_lem_example :
    let m = add_unique (add_primary_key no_constraints 1 (0 ∷ [])) 1 (0 ∷ []) in
    validate_insert whole_numbers m 1 one_row
    ≡ ok (all_valid (list_of 1 m.table_constraints) one_row)
validate_insert_lem_example =
    let m = add_unique (add_primary_key no_constraints 1 (0 ∷ [])) 1 (0 ∷ []) in
    validate_insert_lem whole_numbers m 1 one_row
      (adds_unique 1 (0 ∷ []) (adds_primary_key 1 (0 ∷ []) start))
      (typed_integer 7 (omega arith), tt)
