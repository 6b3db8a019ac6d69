-- ===== src/Catalog/Constraints/Keys.antt =====
-- Which keys a constraint manager of src/catalog/constraint_manager.cpp has recorded.
use lattice_db_next_gen_dbms.Prelude.{
  ℕ, ◌≡◌, ◌⊎◌, inl, inr, refl, sym, ap, subst, ◌∙◌, true, false, some, List, [], ◌∷◌, ◌++◌, arith,
}
use lattice_db_next_gen_dbms.Prelude.Tests.{◌==◌, if◌then◌else◌, Bool-cases, Option-cases}
use lattice_db_next_gen_dbms.Prelude.Dict.{lookup, insert, erase, lookup-insert, lookup-erase}
use lattice_db_next_gen_dbms.Prelude.Members.{remove_first}
use lattice_db_next_gen_dbms.Types.Value.{Value, Try, ok, throws, Thrown}
use lattice_db_next_gen_dbms.Types.Value.Compare.{Platform}
use lattice_db_next_gen_dbms.Catalog.Constraints.{
  KeySet, ConstraintManager, list_of, key_hash, remove_key, add_key, add_value, validate_insert,
  change_keys, change_primary, change_uniques, validate_update,
}

abbrev pub AllEmpty : List KeySet → Type 0
AllEmpty [] = Unit {0}
AllEmpty (k ∷ ks) = (k.existing ≡ []) × AllEmpty ks

-- No key is recorded.
pub record IsKeyless (m : ConstraintManager) : Type 0 where
  pub primary : (id : ℕ) (pk : KeySet) → lookup id m.primary_keys ≡ some pk → pk.existing ≡ []
  pub unique_sets : (id : ℕ) → AllEmpty (list_of id m.unique_constraints)

Try-cases {ℓ} : {A : Type ℓ} (r : Try A) → ((a : A) × (r ≡ ok a)) ⊎ ((e : Thrown) × (r ≡ throws e))
Try-cases (ok a) = inl (a, refl)
Try-cases (throws e) = inr (e, refl)

pub AllEmpty-append : (ks xs : List KeySet) → AllEmpty ks → AllEmpty xs → AllEmpty (ks ++ xs)
AllEmpty-append [] xs h e = e
AllEmpty-append (k ∷ ks) xs h e = (h.0, AllEmpty-append ks xs h.1 e)

-- A manager with one entry of each map replaced.
pub IsKeyless-primary :
    (m : ConstraintManager) (id : ℕ) (pk : KeySet)
    → IsKeyless m
    → pk.existing ≡ []
    → IsKeyless (record m { primary_keys = insert id pk m.primary_keys })
IsKeyless-primary m id pk h e = record {
  primary =
      λ other k found. ground (arith, lookup-insert id other pk m.primary_keys, h.primary other k);
  unique_sets = h.unique_sets;
}

list_of_lem {ℓ} :
    {A : Type ℓ} (id : ℕ) (xs : List A) (m : List (ℕ × List A))
    → lookup id m ≡ some xs
    → list_of id m ≡ xs
list_of_lem id xs m found = rw (list_of, found) refl

list_of-insert :
    (id other : ℕ) (ks : List KeySet) (m : List (ℕ × List KeySet))
    → list_of other (insert id ks m) ≡ (if id == other then ks else list_of other m)
list_of-insert id other ks m = ground (arith, lookup-insert id other ks m)

pub list_of-erase :
    (id other : ℕ) (m : List (ℕ × List KeySet))
    → list_of other (erase id m) ≡ (if id == other then [] else list_of other m)
list_of-erase id other m = ground (arith, lookup-erase id other m)

pub IsKeyless-unique :
    (m : ConstraintManager) (id : ℕ) (ks : List KeySet)
    → IsKeyless m
    → AllEmpty ks
    → IsKeyless (record m { unique_constraints = insert id ks m.unique_constraints })
IsKeyless-unique m id ks h e = record {
  primary = h.primary;
  unique_sets = λ other.
      rw (list_of-insert id other ks m.unique_constraints) (elim (Bool-cases (id == other)) [
        | inl here ↦ rw here e
        | inr there ↦ rw there (h.unique_sets other)
      ]);
}

remove_first-nil : (h : ℕ) → remove_first h [] ≡ []
unfolding remove_first
remove_first-nil h = refl

ok_inj {ℓ} : {A : Type ℓ} (a b : A) → ok a ≡ ok b → a ≡ b
ok_inj a b h = cc

module _ (p : Platform) where
  remove_key_empty :
      (k x : KeySet) (values : List Value)
      → k.existing ≡ []
      → remove_key p k values ≡ ok x
      → x.existing ≡ []
  unfolding remove_key
  remove_key_empty k x values empty e = elim (Try-cases (key_hash p values k.columns 0)) [
    | inl (h, hashed) ↦ ground (arith, hashed, remove_first-nil h)
    | inr (t, thrown) ↦ absurd (ground (arith, thrown))
  ]

  change_keys_empty :
      (ks xs : List KeySet) (values : List Value)
      → AllEmpty ks
      → change_keys p (remove_key p) ks values ≡ ok xs
      → AllEmpty xs
  unfolding change_keys
  change_keys_empty [] xs values empty e = subst AllEmpty (ok_inj [] xs e) tt
  change_keys_empty (k ∷ ks) xs values empty e = elim (Try-cases (remove_key p k values)) [
    | inr (t, thrown) ↦ absurd (ground (arith, thrown))
    | inl (x, one) ↦ elim (Try-cases (change_keys p (remove_key p) ks values)) [
      | inr (t, thrown) ↦ absurd (ground (arith, one, thrown))
      | inl (rest, others) ↦
          subst AllEmpty (ok_inj (x ∷ rest) xs (sym (rw (one, others) refl) ∙ e)) (
            remove_key_empty k x values empty.0 one,
            change_keys_empty ks rest values empty.1 others,
          )
    ]
  ]

  change_primary-IsKeyless :
      (m a : ConstraintManager) (id : ℕ) (values : List Value)
      → IsKeyless m
      → change_primary p (remove_key p) m id values ≡ ok a
      → IsKeyless a
  unfolding change_primary
  change_primary-IsKeyless m a id values h e = elim (Option-cases (lookup id m.primary_keys)) [
    | inl absent ↦ subst IsKeyless (ok_inj m a (rw (change_primary, absent) at e)) h
    | inr (pk, found) ↦ elim (Try-cases (remove_key p pk values)) [
      | inr (t, thrown) ↦ absurd (ground (arith, found, thrown))
      | inl (x, one) ↦
          subst IsKeyless (ok_inj _ a (rw (change_primary, found, one) at e))
            (IsKeyless-primary m id x h (remove_key_empty pk x values (h.primary id pk found) one))
    ]
  ]

  change_uniques-IsKeyless :
      (m a : ConstraintManager) (id : ℕ) (values : List Value)
      → IsKeyless m
      → change_uniques p (remove_key p) m id values ≡ ok a
      → IsKeyless a
  unfolding change_uniques
  change_uniques-IsKeyless m a id values h e =
      elim (Option-cases (lookup id m.unique_constraints)) [
        | inl absent ↦ subst IsKeyless (ok_inj m a (rw (change_uniques, absent) at e)) h
        | inr (ks, found) ↦ elim (Try-cases (change_keys p (remove_key p) ks values)) [
          | inr (t, thrown) ↦ absurd (ground (arith, found, thrown))
          | inl (xs, all) ↦
              let empty : AllEmpty ks =
                subst AllEmpty (list_of_lem id ks m.unique_constraints found) (h.unique_sets id) in
              subst IsKeyless (ok_inj _ a (rw (change_uniques, found, all) at e))
                (IsKeyless-unique m id xs h (change_keys_empty ks xs values empty all))
        ]
      ]

  -- The manager that an accepted update leaves.
  kept :
      (m after : ConstraintManager) (id : ℕ) (old new : List Value) (a b : ConstraintManager)
      → change_primary p (remove_key p) m id old ≡ ok a
      → change_uniques p (remove_key p) a id old ≡ ok b
      → validate_update p m id old new ≡ ok (after, true)
      → b ≡ after
  unfolding validate_update
  kept m after id old new a b one two e = elim (Try-cases (validate_insert p b id new)) [
    | inr (t, thrown) ↦ absurd (ground (arith, one, two, thrown))
    | inl (true, valid) ↦ ap (λ r. r.0) (ok_inj (b, true) (after, true) (rw (one, two, valid) at e))
    | inl (false, refused) ↦ elim (Try-cases (change_primary p (add_key p) b id old)) [
      | inr (t, thrown) ↦ absurd (ground (arith, one, two, refused, thrown))
      | inl (c, three) ↦ elim (Try-cases (change_uniques p (add_value p) c id old)) [
        | inr (t, thrown) ↦ absurd (ground (arith, one, two, refused, three, thrown))
        | inl (d, four) ↦ absurd (ground (arith, one, two, refused, three, four))
      ]
    ]
  ]

  -- An update that is accepted records nothing.
  pub validate_update-IsKeyless :
      (m after : ConstraintManager) (id : ℕ) (old new : List Value)
      → IsKeyless m
      → validate_update p m id old new ≡ ok (after, true)
      → IsKeyless after
  unfolding validate_update
  validate_update-IsKeyless m after id old new h e =
      elim (Try-cases (change_primary p (remove_key p) m id old)) [
        | inr (t, thrown) ↦ absurd (ground (arith, thrown))
        | inl (a, one) ↦ elim (Try-cases (change_uniques p (remove_key p) a id old)) [
          | inr (t, thrown) ↦ absurd (ground (arith, one, thrown))
          | inl (b, two) ↦
              subst IsKeyless (kept m after id old new a b one two e) (
                change_uniques-IsKeyless a b id old (change_primary-IsKeyless m a id old h one) two)
        ]
      ]
