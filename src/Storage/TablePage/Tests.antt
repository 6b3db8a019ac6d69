-- ===== src/Storage/TablePage/Tests.antt =====
-- A page with a tuple.
use lattice_db_next_gen_dbms.Prelude.{
  ℕ, ◌≡◌, ◌≢◌, ◌<◌, refl, true, List, [], ◌∷◌, none, some, arith,
}
use lattice_db_next_gen_dbms.Prelude.Bytes.{Memory, read_bytes, write_bytes, to_le, of_le}
use lattice_db_next_gen_dbms.Storage.TablePage.{
  init, insert_tuple, get_tuple, mark_delete, rollback_delete, word, put_word, put_tuple,
  find_free_slot, free_slot_from, has_enough_space, get_free_space_remaining,
}
use lattice_db_next_gen_dbms.Storage.TablePage.Valid.{IsValid, slots, init-IsValid}
use lattice_db_next_gen_dbms.Storage.TablePage.Delete.{mark_delete_lem}
use lattice_db_next_gen_dbms.Storage.TablePage.Insert.{
  InsertResult, insert_tuple_lem, InsertResult-IsValid,
}

abbrev empty_page : Memory
empty_page = init (λ _. 7)

abbrev three_bytes : List ℕ
three_bytes = 1 ∷ 2 ∷ 3 ∷ []

insert_tuple_lem_example : InsertResult empty_page three_bytes (insert_tuple empty_page three_bytes)
insert_tuple_lem_example =
    insert_tuple_lem empty_page three_bytes (init-IsValid (λ _. 7)).0 (omega arith)

abbrev one_tuple : Memory
one_tuple = (insert_tuple empty_page three_bytes).0

one_tuple-IsValid : IsValid one_tuple
one_tuple-IsValid =
    InsertResult-IsValid empty_page three_bytes (insert_tuple empty_page three_bytes)
      (init-IsValid (λ _. 7)).0 insert_tuple_lem_example

get_tuple_test : get_tuple one_tuple 0 ≡ some three_bytes
unfolding insert_tuple init get_tuple word put_word put_tuple find_free_slot free_slot_from
    has_enough_space get_free_space_remaining read_bytes write_bytes to_le of_le
get_tuple_test = refl

mark_delete_lem_example :
    let (t, ok) = mark_delete one_tuple 0 in
    (ok ≡ true)
    × (get_tuple t 0 ≡ none)
    × ((j : ℕ) → j < slots one_tuple → 0 ≢ j → get_tuple t j ≡ get_tuple one_tuple j)
    × ((j : ℕ) → j < slots one_tuple → get_tuple (rollback_delete t 0) j ≡ get_tuple one_tuple j)
unfolding insert_tuple init word put_word put_tuple find_free_slot free_slot_from has_enough_space
    get_free_space_remaining read_bytes write_bytes to_le of_le
mark_delete_lem_example =
    mark_delete_lem one_tuple 0 one_tuple-IsValid (omega arith) refl (omega arith)
