-- ===== src/Catalog/Constraints/Insert.antt =====
-- What `validate_insert` of src/catalog/constraint_manager.cpp answers.
use lattice_db_next_gen_dbms.Prelude.{
  ℕ, zero, suc, ◌≡◌, inl, inr, refl, subst, true, some, List, [], ◌∷◌, arith,
}
use lattice_db_next_gen_dbms.Prelude.Tests.{Bool-cases, Option-cases}
use lattice_db_next_gen_dbms.Prelude.Lists.{get_elem?}
use lattice_db_next_gen_dbms.Prelude.Dict.{lookup}
use lattice_db_next_gen_dbms.Prelude.Members.{contains}
use lattice_db_next_gen_dbms.Types.Value.{
  ValueType, ValueData, Value, ok, IsTyped, typed_null, typed_boolean, typed_tinyint,
  typed_smallint, typed_integer, typed_bigint, typed_decimal, typed_real, typed_double,
  typed_varchar, typed_text, typed_timestamp, typed_date, typed_time, typed_blob, typed_vector,
}
use lattice_db_next_gen_dbms.Types.Value.Compare.{Platform, hash}
use lattice_db_next_gen_dbms.Types.Tuple.RoundTrip.{AllTyped}
use lattice_db_next_gen_dbms.Catalog.Constraints.{
  KeySet, ConstraintManager, list_of, all_valid, all_absent, key_hash, mix, check_duplicate,
  check_unique, all_unique, validate_insert,
}
use lattice_db_next_gen_dbms.Catalog.Constraints.{mix}
use lattice_db_next_gen_dbms.Catalog.Constraints.Keys.{AllEmpty}
use lattice_db_next_gen_dbms.Catalog.Constraints.History.{Reach, Reach-IsKeyless, no_constraints}

module _ (p : Platform) where
  hash_total :
      (t : ValueType) (d : ValueData)
      → IsTyped t d
      → (n : ℕ) × (hash p (record { type = t; content = d }) ≡ ok n)
  unfolding hash
  hash_total _ _ typed_null = (_, refl)
  hash_total _ _ (typed_boolean x) = (_, refl)
  hash_total _ _ (typed_tinyint x y) = (_, refl)
  hash_total _ _ (typed_smallint x y) = (_, refl)
  hash_total _ _ (typed_integer x y) = (_, refl)
  hash_total _ _ (typed_bigint x y) = (_, refl)
  hash_total _ _ (typed_decimal x y) = (_, refl)
  hash_total _ _ (typed_real x y) = (_, refl)
  hash_total _ _ (typed_double x y) = (_, refl)
  hash_total _ _ (typed_varchar x y) = (_, refl)
  hash_total _ _ (typed_text x y) = (_, refl)
  hash_total _ _ (typed_timestamp x y) = (_, refl)
  hash_total _ _ (typed_date x y) = (_, refl)
  hash_total _ _ (typed_time x y) = (_, refl)
  hash_total _ _ (typed_blob x y) = (_, refl)
  hash_total _ _ (typed_vector x y z) = (_, refl)

  get_elem-IsTyped :
      (values : List Value) (c : ℕ) (v : Value)
      → AllTyped values
      → get_elem? values c ≡ some v
      → IsTyped v.type v.content
  get_elem-IsTyped [] c v h e = absurd (ground (arith, e))
  get_elem-IsTyped (x ∷ xs) zero v h e =
      subst (λ (w : Value). IsTyped w.type w.content) (ground (arith, e)) h.0
  get_elem-IsTyped (x ∷ xs) (suc c) v h e = get_elem-IsTyped xs c v h.1 e

  key_hash_total :
      (values : List Value) (cs : List ℕ) (h : ℕ)
      → AllTyped values
      → (n : ℕ) × (key_hash p values cs h ≡ ok n)
  unfolding key_hash
  key_hash_total values [] h typed = (h, refl)
  key_hash_total values (c ∷ cs) h typed = elim (Option-cases (get_elem? values c)) [
    | inl absent ↦ let (n, e) = key_hash_total values cs h typed in (n, rw (key_hash, absent) e)
    | inr (v, found) ↦
        let (x, one) = hash_total v.type v.content (get_elem-IsTyped values c v typed found) in
        let (n, e) = key_hash_total values cs (mix h x) typed in (n, rw (key_hash, found, one) e)
  ]

  all_unique_empty :
      (ks : List KeySet) (values : List Value)
      → AllTyped values
      → AllEmpty ks
      → all_unique p ks values ≡ ok true
  unfolding all_unique check_unique contains
  all_unique_empty [] values typed h = refl
  all_unique_empty (k ∷ ks) values typed h =
      let rest = all_unique_empty ks values typed h.1 in
      let (n, e) = key_hash_total values k.columns 0 typed in
      elim (Bool-cases (all_absent values k.columns)) [
        | inl none_there ↦ rw (none_there, rest) refl
        | inr some_there ↦ rw (some_there, e, h.0, rest) refl
      ]

  -- Whatever tables, constraints, drops and accepted updates came before, `validate_insert` of a
  -- tuple of well-typed values returns, and its answer is that of the constraints' own `validate`:
  -- the PRIMARY KEY and UNIQUE tests never refuse a tuple.
  pub validate_insert_lem :
      (m : ConstraintManager) (id : ℕ) (values : List Value)
      → Reach p no_constraints m
      → AllTyped values
      → validate_insert p m id values ≡ ok (all_valid (list_of id m.table_constraints) values)
  unfolding validate_insert check_duplicate contains
  validate_insert_lem m id values r typed =
      let h = Reach-IsKeyless p m r in
      let uniques =
        all_unique_empty (list_of id m.unique_constraints) values typed (h.unique_sets id) in
      elim (Bool-cases (all_valid (list_of id m.table_constraints) values)) [
        | inr refused ↦ rw refused refl
        | inl valid ↦ elim (Option-cases (lookup id m.primary_keys)) [
          | inl absent ↦ rw (valid, absent, uniques) refl
          | inr (pk, found) ↦
              let (n, e) = key_hash_total values pk.columns 0 typed in
              rw (valid, found, e, h.primary id pk found, uniques) refl
        ]
      ]
