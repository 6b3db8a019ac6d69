-- ===== src/Catalog/TableHeap/Scan.antt =====
-- The loop over a table by `begin`, `operator++` and `operator*` of src/catalog/table_heap.cpp.
use lattice_db_next_gen_dbms.Prelude.{
  ℕ, zero, suc, ◌+◌, ◌-◌, ◌%◌, ◌^◌, ◌<◌, ◌≡◌, ◌≢◌, inl, inr, refl, ap, ◌∙◌, Bool, false, Option,
  none, some, List, [], ◌∷◌, arith,
}
use mathlib.Core.Option
use lattice_db_next_gen_dbms.Prelude.Tests.{if◌then◌else◌, Bool-cases, ==_refl, ==_ne}
use lattice_db_next_gen_dbms.Prelude.Lists.{length, get_or}
use lattice_db_next_gen_dbms.Storage.Page.{invalid_page_id}
use lattice_db_next_gen_dbms.Locking.Queue.{Rid}
use lattice_db_next_gen_dbms.Types.Tuple.{Tuple}
use lattice_db_next_gen_dbms.Catalog.TableHeap.{
  Slots, Store, slots_of, live_slot, rid_or_end, begin, advance, is_end, current,
}
use lattice_db_next_gen_dbms.Catalog.TableHeap.View.{view, IsAligned}
use lattice_db_next_gen_dbms.Catalog.TableHeap.Refines.{get_tuple-live_view}
use lattice_db_next_gen_dbms.Catalog.TableHeap.Entries.{view_dead, view_live}

-- `for (auto it = begin(); !it.is_end(); ++it)` with the slot and the tuple of each round; `none`
-- if the fuel runs out.
unfoldable pub scan : ℕ → Store → ℕ → Rid → Option (List (ℕ × Option Tuple))
scan zero s id rid = none
scan (suc fuel) s id rid =
    let rest = scan fuel s id (advance s rid) in
    if is_end rid
    then some []
    else Option.map (λ found. (rid.slot_num, current s id rid) ∷ found) rest

-- The tuples of the table from slot `i` on, `n` slots far.
unfoldable pub live_tuples : Slots → ℕ → ℕ → List (ℕ × Option Tuple)
live_tuples s i zero = []
live_tuples s i (suc n) =
    let rest = live_tuples s (i + 1) n in
    elim (view s i) [ none ↦ rest | some t ↦ (i, some t) ∷ rest ]

live_tuples_dead :
    (s : Slots) (i n : ℕ) → view s i ≡ none → live_tuples s i (suc n) ≡ live_tuples s (i + 1) n
unfolding live_tuples
live_tuples_dead s i n h = ground arith

live_tuples_live :
    (s : Slots) (i n : ℕ) (t : Tuple)
    → view s i ≡ some t
    → live_tuples s i (suc n) ≡ (i, some t) ∷ live_tuples s (i + 1) n
unfolding live_tuples
live_tuples_live s i n t h = ground arith

live_slot_lem :
    (deleted : List Bool) (i n : ℕ)
    → live_slot deleted i (suc n)
      ≡ (if get_or deleted i false then live_slot deleted (i + 1) n else some i)
unfolding live_slot
live_slot_lem deleted i n = refl

-- One round of the loop that is not the last.
scan_round :
    (fuel : ℕ) (s : Store) (id : ℕ) (rid : Rid) (rest : List (ℕ × Option Tuple))
    → is_end rid ≡ false
    → scan fuel s id (advance s rid) ≡ some rest
    → scan (suc fuel) s id rid ≡ some ((rid.slot_num, current s id rid) ∷ rest)
unfolding scan
scan_round fuel s id rid rest going e = rw (going, e) refl

module _ (s : Store) (id : ℕ) (aligned : IsAligned (slots_of s id)) (named : id ≢ invalid_page_id)
    (room : length (slots_of s id).tuples < 2 ^ 32) where
  abbrev slots : Slots
  slots = slots_of s id

  scan_from :
      (fuel n i : ℕ)
      → n < fuel
      → i + n ≡ length slots.tuples
      → scan fuel s id (rid_or_end id (live_slot slots.deleted i n)) ≡ some (live_tuples slots i n)
  scan_from zero n i h e = absurd (omega arith)
  scan_from (suc fuel) zero i h e =
      unfold scan in unfold live_slot in unfold live_tuples in unfold is_end in refl
  scan_from (suc fuel) (suc n) i h e = elim (Bool-cases (get_or slots.deleted i false)) [
    | inl dead ↦
        rw
          (
            live_slot_lem slots.deleted i n,
            dead,
            live_tuples_dead slots i n (view_dead slots aligned i dead),
          )
          (scan_from (suc fuel) n (i + 1) (omega arith) (omega arith))
    | inr live ↦
        let (t, seen, _, _) = view_live slots aligned i (omega arith) live in
        let slot : i % 2 ^ 32 ≡ i = omega arith in
        let left : length slots.tuples - (i + 1) ≡ n = omega arith in
        let here : Rid = record { page_id = id; slot_num = i } in
        let away = ==_ne id invalid_page_id named in
        let next : advance s here ≡ rid_or_end id (live_slot slots.deleted (i + 1) n) =
          unfold advance in rw (away, left) refl in
        let found : current s id here ≡ some t =
          unfold current in
          unfold is_end in rw away (get_tuple-live_view s id aligned here ∙ rw (==_refl id) seen) in
        let rest = scan_from fuel n (i + 1) (omega arith) (omega arith) in
        rw (live_slot_lem slots.deleted i n, live, slot, live_tuples_live slots i n t seen)
          (scan_round fuel s id here (live_tuples slots (i + 1) n) (unfold is_end in away)
              (ap (scan fuel s id) next ∙ rest)
            ∙ ap (λ c. some ((i, c) ∷ live_tuples slots (i + 1) n)) found)
  ]

  -- A heap with aligned vectors, a valid first page and fewer than 2 ^ 32 slots: the loop from
  -- `begin` ends within one round more than there are slots, and it visits exactly the slots that
  -- hold a tuple, in ascending order, each with its tuple.
  pub scan-begin :
      scan (length slots.tuples + 1) s id (begin s id)
      ≡ some (live_tuples slots 0 (length slots.tuples))
  unfolding begin
  scan-begin =
      scan_from (length slots.tuples + 1) (length slots.tuples) 0 (omega arith) (omega arith)
