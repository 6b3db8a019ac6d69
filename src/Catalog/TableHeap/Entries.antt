-- ===== src/Catalog/TableHeap/Entries.antt =====
-- Single slots of a heap of src/catalog/table_heap.cpp after a write.
use lattice_db_next_gen_dbms.Prelude.{
  ℕ, ◌<◌, ◌≤◌, ◌≡◌, ◌∙◌, true, false, none, some, [], ◌∷◌, ◌++◌, arith,
}
use lattice_db_next_gen_dbms.Prelude.Tests.{◌==◌, if◌then◌else◌}
use lattice_db_next_gen_dbms.Prelude.Lists.{length, get_elem?, get_or, set}
use lattice_db_next_gen_dbms.Prelude.Updates.{
  get_or-set, get_elem?-set, get_or-snoc, get_elem?-snoc, get_or_default, get_or_beyond,
  get_elem?-within,
}
use lattice_db_next_gen_dbms.Types.Tuple.{Tuple}
use lattice_db_next_gen_dbms.Catalog.TableHeap.{Slots}
use lattice_db_next_gen_dbms.Catalog.TableHeap.View.{view, IsAligned}

module _ (s : Slots) (aligned : IsAligned s) where
  pub view_append :
      (t : Tuple) (i : ℕ)
      → view (record { tuples = s.tuples ++ t ∷ []; deleted = s.deleted ++ false ∷ [] }) i
        ≡ (if length s.tuples == i then some t else view s i)
  view_append t i = ground (arith, get_or-snoc s.deleted i false true, get_elem?-snoc s.tuples i t)

  pub view_reuse :
      (k : ℕ) (t : Tuple) (i : ℕ)
      → k < length s.deleted
      → view (record { tuples = set s.tuples k t; deleted = set s.deleted k false }) i
        ≡ (if k == i then some t else view s i)
  view_reuse k t i h =
      ground (arith, get_or-set s.deleted k i false true, get_elem?-set s.tuples k i t)

  pub view_delete :
      (k i : ℕ)
      → k < length s.deleted
      → view (record s { deleted = set s.deleted k true }) i ≡ (if k == i then none else view s i)
  view_delete k i h = ground (arith, get_or-set s.deleted k i true true)

  pub view_update :
      (k : ℕ) (t : Tuple) (i : ℕ)
      → k < length s.tuples
      → get_or s.deleted k true ≡ false
      → view (record s { tuples = set s.tuples k t }) i ≡ (if k == i then some t else view s i)
  view_update k t i h live = ground (arith, get_elem?-set s.tuples k i t)

  -- A slot in range that is not deleted has a tuple.
  pub view_live :
      (k : ℕ)
      → k < length s.tuples
      → get_or s.deleted k false ≡ false
      → (t : Tuple) × (view s k ≡ some t)
        × (get_or s.deleted k true ≡ false)
        × (get_elem? s.tuples k ≡ some t)
  view_live k h live =
      let (t, e) = get_elem?-within s.tuples k h in
      let same = get_or_default s.deleted k true false (omega arith) ∙ live in
      (t, rw same e, same, e)

  pub view_dead : (k : ℕ) → get_or s.deleted k false ≡ true → view s k ≡ none
  view_dead k h =
      ground (arith, get_or_default s.deleted k true false, get_or_beyond s.deleted k false)

  pub view_beyond : (k : ℕ) → length s.tuples ≤ k → view s k ≡ none
  view_beyond k h = ground (arith, get_or_beyond s.deleted k true)
