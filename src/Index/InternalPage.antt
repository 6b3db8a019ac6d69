-- ===== src/Index/InternalPage.antt =====
-- `BPlusTreeInternalPage` of src/index/b_plus_tree_page.h and b_plus_tree_page.cpp. `same` is `==` on
-- values and `no_key` is `KeyType{}`. Where the code would read before the array or leave a negative
-- size, the model `faults`.
pub mod Children
mod Tests
use lattice_db_next_gen_dbms.Prelude.{ℕ, zero, suc, ◌+◌, ◌-◌, ◌/◌, Bool, true, false}
use lattice_db_next_gen_dbms.Prelude.Tests.{◌==◌, if◌then◌else◌}
use lattice_db_next_gen_dbms.Prelude.Outcome.{Outcome, returns, faults}
use lattice_db_next_gen_dbms.Index.Entries.{put, shift_right, shift_left, copy}
use lattice_db_next_gen_dbms.Index.LeafPage.{Sign, positive}

pub record InternalPage (K V : Type 0) : Type 0 where
  pub page_id : ℕ
  pub parent_page_id : ℕ
  pub max_size : ℕ
  pub size : ℕ
  pub array : ℕ → K × V

-- `comparator(…) <= 0`.
abbrev pub is_at_most : Sign → Bool
is_at_most positive = false
is_at_most _ = true

module _ {K V : Type 0} where
  unfoldable pub init : ℕ → ℕ → ℕ → InternalPage K V → InternalPage K V
  init page_id parent_id max_size p = record p {
    page_id = page_id;
    parent_page_id = parent_id;
    max_size = max_size;
    size = 0;
  }

  abbrev pub key_at : InternalPage K V → ℕ → K
  key_at p i = (p.array i).0

  abbrev pub value_at : InternalPage K V → ℕ → V
  value_at p i = (p.array i).1

  -- The loop of `lookup` from `i`, with `n` entries to go.
  unfoldable pub child_from : (K → K → Sign) → InternalPage K V → K → ℕ → ℕ → ℕ
  child_from comparator p key i zero = i
  child_from comparator p key i (suc n) =
      let rest = child_from comparator p key (i + 1) n in
      if is_at_most (comparator (key_at p i) key) then rest else i

  unfoldable pub lookup : (K → K → Sign) → InternalPage K V → K → V
  lookup comparator p key = value_at p (child_from comparator p key 1 (p.size - 1) - 1)

  unfoldable pub populate_new_root : K → InternalPage K V → V → K → V → InternalPage K V
  populate_new_root no_key p old_value new_key new_value = record p {
    array = put (put p.array 0 (no_key, old_value)) 1 (new_key, new_value);
    size = 2;
  }

  -- The loop of `insert_node_after` from `i`, with `n` entries to go.
  unfoldable pub value_index_from : (V → V → Bool) → InternalPage K V → V → ℕ → ℕ → ℕ
  value_index_from same p value i zero = i
  value_index_from same p value i (suc n) =
      let rest = value_index_from same p value (i + 1) n in
      if same (value_at p i) value then i else rest

  -- The size is returned too.
  unfoldable pub insert_node_after :
      (V → V → Bool) → InternalPage K V → V → K → V → InternalPage K V × ℕ
  insert_node_after same p old_value new_key new_value =
      let i = value_index_from same p old_value 0 p.size in
      let q = record p {
        array = put (shift_right p.array (i + 1) (p.size - (i + 1))) (i + 1) (new_key, new_value);
        size = p.size + 1;
      } in
      (q, q.size)

  unfoldable pub remove : InternalPage K V → ℕ → Outcome (InternalPage K V)
  remove p index =
      if p.size == 0
      then faults
      else returns
          (record p { array = shift_left p.array index (p.size - 1 - index); size = p.size - 1 })

  unfoldable pub remove_and_return_only_child : InternalPage K V → InternalPage K V × V
  remove_and_return_only_child p = (record p { size = 0 }, value_at p 0)

  -- The moves give this page and the recipient.
  unfoldable pub move_half_to :
      InternalPage K V → InternalPage K V → InternalPage K V × InternalPage K V
  move_half_to p recipient =
      let half = p.size / 2 in
      let start = p.size - half in
      (
        record p { size = start },
        record recipient {
          array = copy recipient.array recipient.size p.array start half;
          size = recipient.size + half;
        },
      )

  unfoldable pub move_all_to :
      InternalPage K V → InternalPage K V → K → InternalPage K V × InternalPage K V
  move_all_to p recipient middle_key =
      let separated = put recipient.array recipient.size (middle_key, value_at p 0) in
      (
        record p { size = 0 },
        record recipient {
          array = copy separated (recipient.size + 1) p.array 1 (p.size - 1);
          size = recipient.size + 1 + p.size - 1;
        },
      )

  unfoldable pub move_first_to_end_of :
      InternalPage K V → InternalPage K V → K → Outcome (InternalPage K V × InternalPage K V)
  move_first_to_end_of p recipient middle_key =
      if p.size == 0
      then faults
      else returns (
        record p { array = shift_left p.array 0 (p.size - 1); size = p.size - 1 },
        record recipient {
          array = put recipient.array recipient.size (middle_key, value_at p 0);
          size = recipient.size + 1;
        },
      )

  unfoldable pub move_last_to_front_of :
      InternalPage K V → InternalPage K V → K → Outcome (InternalPage K V × InternalPage K V)
  move_last_to_front_of p recipient middle_key =
      if p.size == 0
      then faults
      else returns (
        record p { size = p.size - 1 },
        record recipient {
          array =
              put (shift_right recipient.array 0 recipient.size) 0
                (middle_key, value_at p (p.size - 1));
          size = recipient.size + 1;
        },
      )
