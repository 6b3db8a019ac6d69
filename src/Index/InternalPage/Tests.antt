-- ===== src/Index/InternalPage/Tests.antt =====
-- An internal page with numbers for keys.
use lattice_db_next_gen_dbms.Prelude.{ℕ, ◌+◌, ◌<◌, ◌≡◌, refl, arith}
use lattice_db_next_gen_dbms.Prelude.Tests.{◌==◌, ltb, if◌then◌else◌}
use lattice_db_next_gen_dbms.Index.LeafPage.{Sign, negative, nil, positive}
use lattice_db_next_gen_dbms.Index.InternalPage.{
  InternalPage, key_at, value_at, lookup, move_half_to, move_all_to,
}
use lattice_db_next_gen_dbms.Index.InternalPage.Children.{lookup_lem, merge-split_internal}

abbrev compare_keys : ℕ → ℕ → Sign
compare_keys a b = if ltb a b then negative else if a == b then nil else positive

-- Children 0, 1 and 2 with the separators 11 and 12.
abbrev three_children : InternalPage ℕ ℕ
three_children = record {
  page_id = 1;
  parent_page_id = 0;
  max_size = 8;
  size = 3;
  array = λ i. (i + 10, i);
}

abbrev no_children : InternalPage ℕ ℕ
no_children = record three_children { size = 0 }

lookup_lem_example : lookup compare_keys three_children 11 ≡ value_at three_children 1
lookup_lem_example =
    lookup_lem compare_keys three_children 11 1 (omega arith) (λ k lo hi. ground arith)
      (λ k lo hi. ground arith)

merge-split_internal_example :
    let (q, r) = move_half_to three_children no_children in
    let (_, merged) = move_all_to r q (key_at r 0) in
    (merged.size ≡ three_children.size)
    × ((j : ℕ) → j < three_children.size → merged.array j ≡ three_children.array j)
merge-split_internal_example = merge-split_internal three_children no_children refl (omega arith)
