-- ===== src/Catalog/Constraints/History.antt =====
-- What the calls of a constraint manager of src/catalog/constraint_manager.cpp leave recorded, one
-- after the other.
use Prim.Native.String.{String}
use lattice_db_next_gen_dbms.Prelude.{
  ℕ, ◌≡◌, inl, inr, refl, Bool, true, List, [], ◌∷◌, ◌++◌, arith,
}
use lattice_db_next_gen_dbms.Prelude.Tests.{◌==◌, Bool-cases}
use lattice_db_next_gen_dbms.Prelude.Dict.{lookup, lookup-erase}
use lattice_db_next_gen_dbms.Types.Value.{Value, ok}
use lattice_db_next_gen_dbms.Types.Value.Compare.{Platform}
use lattice_db_next_gen_dbms.Catalog.Constraints.{
  KeySet, ForeignKey, ConstraintManager, list_of, validate_update, add_primary_key, add_foreign_key,
  add_unique, add_not_null, add_check, drop_table_constraints,
}
use lattice_db_next_gen_dbms.Catalog.Constraints.Keys.{
  IsKeyless, AllEmpty-append, IsKeyless-primary, IsKeyless-unique, list_of-erase,
  validate_update-IsKeyless,
}

abbrev pub no_constraints : ConstraintManager
no_constraints = record {
  table_constraints = [];
  primary_keys = [];
  foreign_keys = [];
  unique_constraints = [];
}

module _ (p : Platform) where
  -- The calls that answer yes, one after the other; a call of `validate_insert` or
  -- `validate_delete` changes nothing.
  pub data Reach (m : ConstraintManager) : ConstraintManager → Type 0 where
    start : Reach m m
    adds_primary_key :
        {a : ConstraintManager} (id : ℕ) (columns : List ℕ)
        → Reach m a
        → Reach m (add_primary_key a id columns)
    adds_foreign_key :
        {a : ConstraintManager} (id : ℕ) (fk : ForeignKey)
        → Reach m a
        → Reach m (add_foreign_key a id fk)
    adds_unique :
        {a : ConstraintManager} (id : ℕ) (columns : List ℕ)
        → Reach m a
        → Reach m (add_unique a id columns)
    adds_not_null :
        {a : ConstraintManager} (id column : ℕ) → Reach m a → Reach m (add_not_null a id column)
    adds_check :
        {a : ConstraintManager} (id : ℕ) (text : String) (test : List Value → Bool)
        → Reach m a
        → Reach m (add_check a id text test)
    drops : {a : ConstraintManager} (id : ℕ) → Reach m a → Reach m (drop_table_constraints a id)
    updates :
        {a b : ConstraintManager} (id : ℕ) (old new : List Value)
        → Reach m a
        → validate_update p a id old new ≡ ok (b, true)
        → Reach m b

  -- Recording the set of a new constraint, and dropping those of a table.
  add_unique-IsKeyless :
      (m : ConstraintManager) (id : ℕ) (columns : List ℕ)
      → IsKeyless m
      → IsKeyless (add_unique m id columns)
  unfolding add_unique
  add_unique-IsKeyless m id columns h =
      let k : KeySet = record { columns = columns; existing = [] } in
      let sets = IsKeyless-unique m id (list_of id m.unique_constraints ++ k ∷ []) h (
        AllEmpty-append (list_of id m.unique_constraints) (k ∷ []) (h.unique_sets id) (refl, tt)) in
      record { primary = sets.primary; unique_sets = sets.unique_sets }

  add_primary_key-IsKeyless :
      (m : ConstraintManager) (id : ℕ) (columns : List ℕ)
      → IsKeyless m
      → IsKeyless (add_primary_key m id columns)
  unfolding add_primary_key
  add_primary_key-IsKeyless m id columns h =
      let sets = IsKeyless-primary m id (record { columns = columns; existing = [] }) h refl in
      record { primary = sets.primary; unique_sets = sets.unique_sets }

  drop_table_constraints-IsKeyless :
      (m : ConstraintManager) (id : ℕ) → IsKeyless m → IsKeyless (drop_table_constraints m id)
  unfolding drop_table_constraints
  drop_table_constraints-IsKeyless m id h = record {
    primary =
        λ other k found. ground (arith, lookup-erase id other m.primary_keys, h.primary other k);
    unique_sets = λ other.
        rw (list_of-erase id other m.unique_constraints) (elim (Bool-cases (id == other)) [
          | inl here ↦ rw here tt
          | inr there ↦ rw there (h.unique_sets other)
        ]);
  }

  pub Reach-IsKeyless : (m : ConstraintManager) → Reach no_constraints m → IsKeyless m
  unfolding add_foreign_key add_not_null add_check lookup
  Reach-IsKeyless _ start = record {
    primary = λ id pk found. absurd (ground (arith, found));
    unique_sets = λ id. tt;
  }
  Reach-IsKeyless _ (adds_primary_key {a} id columns r) =
      add_primary_key-IsKeyless a id columns (Reach-IsKeyless a r)
  Reach-IsKeyless _ (adds_foreign_key {a} id fk r) =
      let h = Reach-IsKeyless a r in record { primary = h.primary; unique_sets = h.unique_sets }
  Reach-IsKeyless _ (adds_unique {a} id columns r) =
      add_unique-IsKeyless a id columns (Reach-IsKeyless a r)
  Reach-IsKeyless _ (adds_not_null {a} id column r) =
      let h = Reach-IsKeyless a r in record { primary = h.primary; unique_sets = h.unique_sets }
  Reach-IsKeyless _ (adds_check {a} id written test r) =
      let h = Reach-IsKeyless a r in record { primary = h.primary; unique_sets = h.unique_sets }
  Reach-IsKeyless _ (drops {a} id r) = drop_table_constraints-IsKeyless a id (Reach-IsKeyless a r)
  Reach-IsKeyless m (updates {a} id old new r e) =
      validate_update-IsKeyless p a m id old new (Reach-IsKeyless a r) e
