-- ===== src/Index/LeafPage/Tests.antt =====
-- Leaves with numbers for keys.
use lattice_db_next_gen_dbms.Prelude.{ℕ, ◌+◌, ◌<◌, ◌≤◌, ◌≡◌, refl, some, arith}
use lattice_db_next_gen_dbms.Prelude.Tests.{◌==◌, ltb, if◌then◌else◌}
use lattice_db_next_gen_dbms.Index.LeafPage.{
  Sign, negative, nil, positive, LeafPage, insert, lookup, remove_and_delete_record, move_half_to,
  move_all_to,
}
use lattice_db_next_gen_dbms.Index.LeafPage.Contents.{lookup-insert, remove-insert, merge-split}
use lattice_db_next_gen_dbms.Index.LeafPage.Order.{IsOrder, IsSorted, insert-IsSorted}

abbrev compare_keys : ℕ → ℕ → Sign
compare_keys a b = if ltb a b then negative else if a == b then nil else positive

compare_keys-IsOrder : IsOrder compare_keys
compare_keys-IsOrder = record { flips = λ a b. ground arith; trans = λ a b c h k. ground arith }

-- The keys 10, 11 and 12.
abbrev three_keys : LeafPage ℕ ℕ
three_keys = record {
  page_id = 1;
  parent_page_id = 0;
  max_size = 8;
  size = 3;
  next_page_id = 2;
  array = λ i. (i + 10, i);
}

abbrev no_keys : LeafPage ℕ ℕ
no_keys = record three_keys { size = 0 }

three_keys-IsSorted : IsSorted compare_keys three_keys
three_keys-IsSorted i j h l = ground arith

lookup-insert_example :
    (lookup compare_keys (insert compare_keys three_keys 11 5).0 11 ≡ some 5)
    × ((insert compare_keys three_keys 11 5).0.size ≡ three_keys.size + 1)
lookup-insert_example = lookup-insert compare_keys three_keys 11 5 refl

remove-insert_example :
    let (q, size) =
      remove_and_delete_record compare_keys (insert compare_keys three_keys 11 5).0 11 in
    (q.size ≡ three_keys.size)
    × (size ≡ three_keys.size)
    × ((j : ℕ) → j < three_keys.size → q.array j ≡ three_keys.array j)
remove-insert_example = remove-insert compare_keys three_keys 11 5 refl

insert-IsSorted_example : IsSorted compare_keys (insert compare_keys three_keys 11 5).0
insert-IsSorted_example =
    insert-IsSorted compare_keys three_keys 11 5 compare_keys-IsOrder three_keys-IsSorted

merge-split_example :
    let (q, r) = move_half_to three_keys no_keys in
    let (_, merged) = move_all_to r q in
    (merged.size ≡ three_keys.size)
    × ((j : ℕ) → j < three_keys.size → merged.array j ≡ three_keys.array j)
    × (r.size ≤ q.size)
    × (q.size ≤ r.size + 1)
merge-split_example = merge-split three_keys no_keys refl
