-- ===== src/Catalog/TableHeap/View.antt =====
-- A heap of src/catalog/table_heap.cpp seen as a partial map from slots to tuples.
use lattice_db_next_gen_dbms.Prelude.{
  ℕ, suc, ◌+◌, ◌<◌, ◌≡◌, ◌≢◌, ◌⊎◌, inl, inr, refl, Bool, true, false, Option, none, some, List, [],
  ◌∷◌, arith,
}
use lattice_db_next_gen_dbms.Prelude.Tests.{◌==◌, if◌then◌else◌}
use lattice_db_next_gen_dbms.Prelude.Lists.{length, get_elem?, get_or}
use lattice_db_next_gen_dbms.Prelude.Dict.{lookup-insert}
use lattice_db_next_gen_dbms.Prelude.Bytes.{Memory}
use lattice_db_next_gen_dbms.Locking.Queue.{Rid}
use lattice_db_next_gen_dbms.Types.Tuple.{Tuple}
use lattice_db_next_gen_dbms.Prelude.Outcome.{
  Outcome, returns, blocks, faults, ◌>>=◌, Outcome-cases,
}
use lattice_db_next_gen_dbms.Storage.TablePage.Access.{
  insert_in_page, mark_delete_in_page, update_in_page,
}
use lattice_db_next_gen_dbms.Catalog.TableHeap.{
  bytes_of, Slots, Store, slots_of, put_slots, on_page, deleted_slot, insert_tuple, mark_delete,
  update_tuple, get_tuple,
}

-- A table is a partial map from slots to tuples.
abbrev pub Table : Type 0
Table = ℕ → Option Tuple

abbrev pub view : Slots → Table
view s i = if get_or s.deleted i true then none else get_elem? s.tuples i

abbrev pub live_view : Store → ℕ → Table
live_view s id = view (slots_of s id)

-- Both vectors have an entry for each slot.
abbrev pub IsAligned : Slots → Type 0
IsAligned s = length s.tuples ≡ length s.deleted

pub data Request : Type 0 where
  insert_request : Tuple → Request
  delete_request : Rid → Request
  update_request : Tuple → Rid → Request
  get_request : Rid → Request

pub data Reply : Type 0 where
  placed : Rid → Reply
  done : Bool → Reply
  found : Option Tuple → Reply

-- One call of the heap whose first page is `id`.
unfoldable pub step : Store → ℕ → Request → Outcome (Store × Reply)
step s id (insert_request t) = insert_tuple s id t >>= λ r. returns (r.0, placed r.1)
step s id (delete_request rid) = mark_delete s id rid >>= λ r. returns (r.0, done r.1)
step s id (update_request t rid) = update_tuple s id t rid >>= λ r. returns (r.0, done r.1)
step s id (get_request rid) = returns (s, found (get_tuple s id rid))

-- What a call does to the page of the heap, if it uses it.
abbrev pub page_call : Request → Memory → Outcome Memory
page_call (insert_request t) m = insert_in_page m (bytes_of t)
page_call (delete_request rid) m = mark_delete_in_page m rid.slot_num
page_call (update_request t rid) m = update_in_page m (bytes_of t) rid.slot_num
page_call (get_request rid) m = returns m

-- The page cannot serve a call: `fetch_page` does not come back, or the call leaves the page's bytes.
abbrev pub Stuck : Store → ℕ → Request → Type 0
Stuck s id req = (on_page s id (page_call req) ≡ blocks) ⊎ (on_page s id (page_call req) ≡ faults)

-- The entry of one slot is replaced, the others stay.
abbrev pub Replaces : Table → Table → ℕ → Option Tuple → Type 0
Replaces before after slot entry = (i : ℕ) → after i ≡ (if slot == i then entry else before i)

-- The identifier names no tuple of the table.
abbrev pub Missing : ℕ → Table → Rid → Type 0
Missing id t rid = (rid.page_id ≢ id) ⊎ (t rid.slot_num ≡ none)

-- What a table promises of one call: an insertion takes a slot that was free, a deletion and an
-- update work exactly on a tuple that is there, and a read gives what the slot has.
pub data Allowed (id : ℕ) (before after : Table) : Request → Reply → Type 0 where
  inserts :
      (t : Tuple) (rid : Rid)
      → rid.page_id ≡ id
      → before rid.slot_num ≡ none
      → Replaces before after rid.slot_num (some t)
      → Allowed id before after (insert_request t) (placed rid)
  deletes :
      (rid : Rid) (old : Tuple)
      → rid.page_id ≡ id
      → before rid.slot_num ≡ some old
      → Replaces before after rid.slot_num none
      → Allowed id before after (delete_request rid) (done true)
  deletes_nothing :
      (rid : Rid)
      → Missing id before rid
      → ((i : ℕ) → after i ≡ before i)
      → Allowed id before after (delete_request rid) (done false)
  updates :
      (t : Tuple) (rid : Rid) (old : Tuple)
      → rid.page_id ≡ id
      → before rid.slot_num ≡ some old
      → Replaces before after rid.slot_num (some t)
      → Allowed id before after (update_request t rid) (done true)
  updates_nothing :
      (t : Tuple) (rid : Rid)
      → Missing id before rid
      → ((i : ℕ) → after i ≡ before i)
      → Allowed id before after (update_request t rid) (done false)
  gets :
      (rid : Rid)
      → ((i : ℕ) → after i ≡ before i)
      → Allowed id before after
          (get_request rid)
          (found (if rid.page_id == id then before rid.slot_num else none))

pub deleted_slot_lem :
    (ds : List Bool) (i k : ℕ)
    → deleted_slot ds i ≡ some k
    → (j : ℕ) × (k ≡ i + j) × (j < length ds) × (get_or ds j true ≡ true)
unfolding deleted_slot
deleted_slot_lem [] i k h = cc
deleted_slot_lem (true ∷ ds) i k h = (0, ground arith, omega arith, refl)
deleted_slot_lem (false ∷ ds) i k h =
    let (j, e, inside, set_) = deleted_slot_lem ds (i + 1) k h in
    (suc j, omega arith, omega arith, set_)

pub slots_of-put_slots :
    (s : Store) (id other : ℕ) (x : Slots)
    → slots_of (put_slots s id x) other ≡ (if id == other then x else slots_of s other)
unfolding slots_of
slots_of-put_slots s id other x = ground (arith, lookup-insert id other x s.tables)

-- A change of the vectors and then of the page: it comes back with the new vectors, or the page cannot
-- serve the call.
pub put_on_page :
    (s : Store) (id : ℕ) (x : Slots) (change : Memory → Outcome Memory)
    → ((after : Store) × (on_page (put_slots s id x) id change ≡ returns after)
        × ((other : ℕ) → slots_of after other ≡ (if id == other then x else slots_of s other)))
      ⊎ (((on_page (put_slots s id x) id change ≡ blocks) × (on_page s id change ≡ blocks))
          ⊎ ((on_page (put_slots s id x) id change ≡ faults) × (on_page s id change ≡ faults)))
unfolding on_page
put_on_page s id x change = elim (Outcome-cases (s.pages id)) [
  | inr (inl no_return) ↦ inr (inl (ground (arith, no_return), ground (arith, no_return)))
  | inr (inr fault) ↦ inr (inr (ground (arith, fault), ground (arith, fault)))
  | inl (none, fetched) ↦
      inl (put_slots s id x, ground (arith, fetched), λ other. slots_of-put_slots s id other x)
  | inl (some m, fetched) ↦ elim (Outcome-cases (change m)) [
    | inr (inl no_return) ↦
        inr (inl (ground (arith, fetched, no_return), ground (arith, fetched, no_return)))
    | inr (inr fault) ↦ inr (inr (ground (arith, fetched, fault), ground (arith, fetched, fault)))
    | inl (after, changed) ↦ inl (
      record (put_slots s id x) {
        pages = λ i. if i == id then returns (some after) else s.pages i;
      },
      ground (arith, fetched, changed),
      λ other. unfold slots_of in slots_of-put_slots s id other x,
    )
  ]
]
