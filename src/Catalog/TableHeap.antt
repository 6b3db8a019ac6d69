-- ===== src/Catalog/TableHeap.antt =====
-- `TableHeap` and `TableIterator` of src/catalog/table_heap.cpp. A table is two vectors in static
-- maps, keyed by the first page of the heap, and a copy of its tuples in that page.
pub mod View
pub mod Entries
pub mod Refines
pub mod Scan
use lattice_db_next_gen_dbms.Prelude.{
  ℕ, zero, suc, ◌+◌, ◌-◌, ◌%◌, ◌^◌, Bool, true, false, Option, none, some, List, [], ◌∷◌, ◌++◌,
  ◌&&◌, not, ◌||◌,
}
use lattice_db_next_gen_dbms.Prelude.Tests.{◌==◌, ltb, leb, if◌then◌else◌}
use lattice_db_next_gen_dbms.Prelude.Lists.{length, get_elem?, get_or, set}
use lattice_db_next_gen_dbms.Prelude.Dict.{lookup, insert}
use lattice_db_next_gen_dbms.Prelude.Bytes.{Memory, read_bytes}
use lattice_db_next_gen_dbms.Storage.Page.{invalid_page_id}
use lattice_db_next_gen_dbms.Storage.TablePage
use lattice_db_next_gen_dbms.Storage.TablePage.Access.{
  insert_in_page, mark_delete_in_page, update_in_page, rollback_in_page,
}
use lattice_db_next_gen_dbms.Prelude.Outcome.{Outcome, returns, ◌>>=◌}
use lattice_db_next_gen_dbms.Locking.Queue.{Rid, no_rid}
use lattice_db_next_gen_dbms.Types.Tuple.{Tuple}

-- The entries of `table_data_` and `tuple_deleted_` for one heap.
pub record Slots : Type 0 where
  pub tuples : List Tuple
  pub deleted : List Bool

-- The static maps, and what `fetch_page` gives for a page: its bytes, or an invalid guard; or the call
-- does not come back. `next_rid_slot_` is written and never read.
pub record Store : Type 0 where
  pub tables : List (ℕ × Slots)
  pub pages : ℕ → Outcome (Option Memory)

-- `map[id]`, which makes an empty entry for an absent key.
unfoldable pub slots_of : Store → ℕ → Slots
slots_of s id = elim (lookup id s.tables) [
  | some slots ↦ slots
  | none ↦ record { tuples = []; deleted = [] }
]

abbrev pub put_slots : Store → ℕ → Slots → Store
put_slots s id slots = record s { tables = insert id slots s.tables }

-- `fetch_page`, an operation on the page, `mark_dirty`; nothing for an invalid guard.
unfoldable pub on_page : Store → ℕ → (Memory → Outcome Memory) → Outcome Store
on_page s id change = s.pages id >>= λ fetched. elim fetched [
  | none ↦ returns s
  | some m ↦ change m >>= λ after.
      returns (record s { pages = λ i. if i == id then returns (some after) else s.pages i })
]

-- What `serialize_to` copies from a tuple.
abbrev pub bytes_of : Tuple → List ℕ
bytes_of t = elim t.buffer [ none ↦ [] | some m ↦ read_bytes m 0 t.size ]

-- The constructor; `allocated` is the page that `new_page_guarded` gives, if any. The result is the
-- heap's `first_page_id_`.
unfoldable pub make_heap : Store → ℕ → Option ℕ → Store × ℕ
make_heap s first allocated =
    let empty : Slots = record { tuples = []; deleted = [] } in
    if first == invalid_page_id
    then elim allocated [
      | none ↦ (s, first)
      | some id ↦ (
        record (put_slots s id empty) {
          pages = λ i. if i == id then returns (some (TablePage.init (λ j. 0))) else s.pages i;
        },
        id,
      )
    ]
    else elim (lookup first s.tables) [
      | none ↦ (put_slots s first empty, first)
      | some slots ↦ (s, first)
    ]

-- The loop of `insert_tuple`: the first deleted slot from `i` on.
unfoldable pub deleted_slot : List Bool → ℕ → Option ℕ
deleted_slot [] i = none
deleted_slot (d ∷ ds) i = let rest = deleted_slot ds (i + 1) in if d then some i else rest

-- `insert_tuple`. A tuple that takes a deleted slot is not written to the page.
unfoldable pub insert_tuple : Store → ℕ → Tuple → Outcome (Store × Rid)
insert_tuple s id t =
    let old = slots_of s id in
    elim (deleted_slot old.deleted 0) [
      | some i ↦ returns (
        put_slots s id (record { tuples = set old.tuples i t; deleted = set old.deleted i false }),
        record { page_id = id; slot_num = i % 2 ^ 32 },
      )
      | none ↦
          let grown =
            put_slots s id
              (record { tuples = old.tuples ++ t ∷ []; deleted = old.deleted ++ false ∷ [] }) in
          on_page grown id (λ m. insert_in_page m (bytes_of t)) >>= λ after.
          returns (after, record { page_id = id; slot_num = length old.tuples % 2 ^ 32 })
    ]

-- `mark_delete`.
unfoldable pub mark_delete : Store → ℕ → Rid → Outcome (Store × Bool)
mark_delete s id rid =
    let old = slots_of s id in
    if not (rid.page_id == id)
    then returns (s, false)
    else if leb (length old.deleted) rid.slot_num
    then returns (s, false)
    else if get_or old.deleted rid.slot_num false
    then returns (s, false)
    else (on_page (put_slots s id (record old { deleted = set old.deleted rid.slot_num true })) id
          (λ m. mark_delete_in_page m rid.slot_num)
        >>= λ after. returns (after, true))

-- `update_tuple`.
unfoldable pub update_tuple : Store → ℕ → Tuple → Rid → Outcome (Store × Bool)
update_tuple s id t rid =
    let old = slots_of s id in
    if not (rid.page_id == id)
    then returns (s, false)
    else if leb (length old.tuples) rid.slot_num
    then returns (s, false)
    else if get_or old.deleted rid.slot_num false
    then returns (s, false)
    else (on_page (put_slots s id (record old { tuples = set old.tuples rid.slot_num t })) id
          (λ m. update_in_page m (bytes_of t) rid.slot_num)
        >>= λ after. returns (after, true))

-- `apply_delete`.
unfoldable pub apply_delete : Store → ℕ → Rid → Outcome Store
apply_delete s id rid = mark_delete s id rid >>= λ r. returns r.0

-- `rollback_delete`.
unfoldable pub rollback_delete : Store → ℕ → Rid → Outcome Store
rollback_delete s id rid =
    let old = slots_of s id in
    let back =
      if ltb rid.slot_num (length old.deleted)
      then put_slots s id (record old { deleted = set old.deleted rid.slot_num false })
      else s in
    if not (rid.page_id == id)
    then returns s
    else on_page back id (λ m. rollback_in_page m rid.slot_num)

-- `get_tuple`.
unfoldable pub get_tuple : Store → ℕ → Rid → Option Tuple
get_tuple s id rid =
    let old = slots_of s id in
    if not (rid.page_id == id)
    then none
    else if leb (length old.tuples) rid.slot_num
    then none
    else if get_or old.deleted rid.slot_num false
    then none
    else get_elem? old.tuples rid.slot_num

-- The loops of `begin` and `operator++`: the first slot from `i` on that is not deleted, `n` to go.
unfoldable pub live_slot : List Bool → ℕ → ℕ → Option ℕ
live_slot deleted i zero = none
live_slot deleted i (suc n) =
    let rest = live_slot deleted (i + 1) n in if get_or deleted i false then rest else some i

abbrev pub rid_or_end : ℕ → Option ℕ → Rid
rid_or_end id none = no_rid
rid_or_end id (some i) = record { page_id = id; slot_num = i % 2 ^ 32 }

-- `begin`: the position of the iterator.
unfoldable pub begin : Store → ℕ → Rid
begin s id = let old = slots_of s id in rid_or_end id (live_slot old.deleted 0 (length old.tuples))

-- `TableIterator::operator++`.
unfoldable pub advance : Store → Rid → Rid
advance s rid =
    let old = slots_of s rid.page_id in
    let next = rid.slot_num + 1 in
    if rid.page_id == invalid_page_id
    then rid
    else rid_or_end rid.page_id (live_slot old.deleted next (length old.tuples - next))

-- `TableIterator::is_end`.
unfoldable pub is_end : Rid → Bool
is_end rid = rid.page_id == invalid_page_id

-- `TableIterator::operator*`; `none` stands for the empty `Tuple()`.
unfoldable pub current : Store → ℕ → Rid → Option Tuple
current s id rid = if is_end rid then none else get_tuple s id rid
