-- ===== src/Index/LeafPage.antt =====
-- `BPlusTreeLeafPage` of src/index/b_plus_tree_page.h and b_plus_tree_page.cpp, with the fields of
-- `BPlusTreePage`. The comparator is a parameter, as in the template; what counts of its result is
-- the sign.
pub mod Contents
pub mod Order
mod Tests
use lattice_db_next_gen_dbms.Prelude.{
  ℕ, zero, suc, ◌+◌, ◌-◌, ◌/◌, ◌^◌, Bool, true, false, Option, none, some,
}
use lattice_db_next_gen_dbms.Prelude.Tests.{◌==◌, if◌then◌else◌}
use lattice_db_next_gen_dbms.Prelude.Outcome.{Outcome, returns, faults}
use lattice_db_next_gen_dbms.Index.Entries.{put, shift_right, shift_left, copy}

-- The sign of `comparator(a, b)`.
pub data Sign : Type 0 where
  negative nil positive : Sign

abbrev pub is_zero : Sign → Bool
is_zero nil = true
is_zero _ = false

abbrev pub is_negative : Sign → Bool
is_negative negative = true
is_negative _ = false

pub record LeafPage (K V : Type 0) : Type 0 where
  pub page_id : ℕ
  pub parent_page_id : ℕ
  pub max_size : ℕ
  pub size : ℕ
  pub next_page_id : ℕ
  pub array : ℕ → K × V

module _ {K V : Type 0} where
  unfoldable pub init : ℕ → ℕ → ℕ → LeafPage K V → LeafPage K V
  init page_id parent_id max_size p = record p {
    page_id = page_id;
    parent_page_id = parent_id;
    max_size = max_size;
    size = 0;
    next_page_id = 2 ^ 32 - 1;
  }

  abbrev pub key_at : LeafPage K V → ℕ → K
  key_at p i = (p.array i).0

  module _ (comparator : K → K → Sign) where
    -- The loop of `key_index` from `i`, with `n` entries to go.
    unfoldable pub key_index_from : LeafPage K V → K → ℕ → ℕ → ℕ
    key_index_from p key i zero = i
    key_index_from p key i (suc n) =
        let rest = key_index_from p key (i + 1) n in
        if is_negative (comparator (key_at p i) key) then rest else i

    unfoldable pub key_index : LeafPage K V → K → ℕ
    key_index p key = key_index_from p key 0 p.size

    -- The loop of `lookup` and of `remove_and_delete_record`.
    unfoldable pub find_from : LeafPage K V → K → ℕ → ℕ → Option ℕ
    find_from p key i zero = none
    find_from p key i (suc n) =
        let rest = find_from p key (i + 1) n in
        if is_zero (comparator (key_at p i) key) then some i else rest

    -- The size is returned too.
    unfoldable pub insert : LeafPage K V → K → V → LeafPage K V × ℕ
    insert p key value =
        let idx = key_index p key in
        let q = record p {
          array = put (shift_right p.array idx (p.size - idx)) idx (key, value);
          size = p.size + 1;
        } in
        (q, q.size)

    unfoldable pub lookup : LeafPage K V → K → Option V
    lookup p key = elim (find_from p key 0 p.size) [ none ↦ none | some i ↦ some (p.array i).1 ]

    unfoldable pub remove_and_delete_record : LeafPage K V → K → LeafPage K V × ℕ
    remove_and_delete_record p key = elim (find_from p key 0 p.size) [
      | none ↦ (p, p.size)
      | some i ↦
          let q = record p { array = shift_left p.array i (p.size - 1 - i); size = p.size - 1 } in
          (q, q.size)
    ]

  -- The moves give this page and the recipient.
  unfoldable pub move_half_to : LeafPage K V → LeafPage K V → LeafPage K V × LeafPage K V
  move_half_to p recipient =
      let half = p.size / 2 in
      let start = p.size - half in
      (
        record p { size = start },
        record recipient {
          array = copy recipient.array recipient.size p.array start half;
          size = recipient.size + half;
        },
      )

  unfoldable pub move_all_to : LeafPage K V → LeafPage K V → LeafPage K V × LeafPage K V
  move_all_to p recipient = (
    record p { size = 0 },
    record recipient {
      array = copy recipient.array recipient.size p.array 0 p.size;
      size = recipient.size + p.size;
    },
  )

  unfoldable pub move_first_to_end_of : LeafPage K V → LeafPage K V → LeafPage K V × LeafPage K V
  move_first_to_end_of p recipient = if p.size == 0 then (p, recipient) else (
    record p { array = shift_left p.array 0 (p.size - 1); size = p.size - 1 },
    record recipient {
      array = put recipient.array recipient.size (p.array 0);
      size = recipient.size + 1;
    },
  )

  -- The guard asks for the recipient's size: from an empty page it reads `array_[-1]`.
  unfoldable pub move_last_to_front_of :
      LeafPage K V → LeafPage K V → Outcome (LeafPage K V × LeafPage K V)
  move_last_to_front_of p recipient =
      if recipient.size == 0
      then returns (p, recipient)
      else if p.size == 0
      then faults
      else returns (
        record p { size = p.size - 1 },
        record recipient {
          array = put (shift_right recipient.array 0 recipient.size) 0 (p.array (p.size - 1));
          size = recipient.size + 1;
        },
      )
