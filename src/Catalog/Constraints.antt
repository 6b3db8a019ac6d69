-- ===== src/Catalog/Constraints.antt =====
-- `ConstraintManager` of src/catalog/constraint_manager.cpp: constraints of tables, and the keys that
-- are in use, by their hashes. A tuple is its values; the schema is passed on to CHECK constraints only.
pub mod Keys
pub mod History
pub mod Insert
use Prim.Native.Nat.{bit_xor}
use Prim.Native.String.{String}
use lattice_db_next_gen_dbms.Prelude.{
  ℕ, ◌+◌, ◌*◌, ◌/◌, ◌%◌, ◌^◌, Bool, true, false, not, Option, none, some, List, [], ◌∷◌, ◌++◌,
}
use lattice_db_next_gen_dbms.Prelude.Tests.{◌==◌, ltb, if◌then◌else◌}
use lattice_db_next_gen_dbms.Prelude.Lists.{get_elem?}
use lattice_db_next_gen_dbms.Prelude.Dict.{lookup, insert, erase}
use lattice_db_next_gen_dbms.Prelude.Members.{contains, remove_first}
use lattice_db_next_gen_dbms.Types.Value.{Value, null_type, type_code, Try, ok, throws, ◌>>=◌}
use lattice_db_next_gen_dbms.Types.Value.Compare.{Platform, hash}

-- The columns of a PRIMARY KEY or UNIQUE constraint, and the hashes of the keys in use.
pub record KeySet : Type 0 where
  pub columns : List ℕ
  pub existing : List ℕ

pub record ForeignKey : Type 0 where
  pub foreign_columns : List ℕ
  pub referenced_table : ℕ
  pub referenced_columns : List ℕ
  pub cascade_delete : Bool
  pub cascade_update : Bool

-- A constraint among those of a table. The keys of the copies that stand here are never read.
pub data Constraint : Type 0 where
  primary_key : List ℕ → Constraint
  foreign_key : ForeignKey → Constraint
  unique : List ℕ → Constraint
  not_null : ℕ → Constraint
  check : String → (List Value → Bool) → Constraint

pub record ConstraintManager : Type 0 where
  pub table_constraints : List (ℕ × List Constraint)
  pub primary_keys : List (ℕ × KeySet)
  pub foreign_keys : List (ℕ × List ForeignKey)
  pub unique_constraints : List (ℕ × List KeySet)

-- `is_null`, and a column that is missing or NULL.
abbrev pub is_null : Value → Bool
is_null v = type_code v.type == 0

abbrev pub is_absent : List Value → ℕ → Bool
is_absent values column = elim (get_elem? values column) [ none ↦ true | some v ↦ is_null v ]

-- `PrimaryKeyConstraint::validate`.
unfoldable pub all_present : List Value → List ℕ → Bool
all_present values [] = true
all_present values (c ∷ cs) =
    let rest = all_present values cs in if is_absent values c then false else rest

-- `ForeignKeyConstraint::validate`.
unfoldable pub all_in_range : List Value → List ℕ → Bool
all_in_range values [] = true
all_in_range values (c ∷ cs) =
    let rest = all_in_range values cs in elim (get_elem? values c) [ none ↦ false | some v ↦ rest ]

-- `validate` of the five kinds.
unfoldable pub validate : Constraint → List Value → Bool
validate (primary_key columns) values = all_present values columns
validate (foreign_key fk) values = all_in_range values fk.foreign_columns
validate (unique columns) values = true
validate (not_null column) values = not (is_absent values column)
validate (check text test) values = test values

-- The loop of `UniqueConstraint::check_unique` that looks for a value.
unfoldable pub all_absent : List Value → List ℕ → Bool
all_absent values [] = true
all_absent values (c ∷ cs) =
    let rest = all_absent values cs in if is_absent values c then rest else false

-- The first loop of `validate_insert`.
unfoldable pub all_valid : List Constraint → List Value → Bool
all_valid [] values = true
all_valid (c ∷ cs) values =
    let rest = all_valid cs values in if validate c values then rest else false

abbrev pub list_of {ℓ} : {A : Type ℓ} → ℕ → List (ℕ × List A) → List A
list_of id m = elim (lookup id m) [ none ↦ [] | some xs ↦ xs ]

-- `map[id].push_back(x)`.
abbrev pub push {ℓ} : {A : Type ℓ} → ℕ → A → List (ℕ × List A) → List (ℕ × List A)
push id x m = insert id (list_of id m ++ x ∷ []) m

abbrev pub add_constraint : ConstraintManager → ℕ → Constraint → ConstraintManager
add_constraint m id c = record m { table_constraints = push id c m.table_constraints }

-- `add_primary_key`, `add_foreign_key`, `add_unique`, `add_not_null` and `add_check`.
unfoldable pub add_primary_key : ConstraintManager → ℕ → List ℕ → ConstraintManager
add_primary_key m id columns =
    add_constraint
      (record m {
        primary_keys = insert id (record { columns = columns; existing = [] }) m.primary_keys;
      })
      id (primary_key columns)

unfoldable pub add_foreign_key : ConstraintManager → ℕ → ForeignKey → ConstraintManager
add_foreign_key m id fk =
    add_constraint (record m { foreign_keys = push id fk m.foreign_keys }) id (foreign_key fk)

unfoldable pub add_unique : ConstraintManager → ℕ → List ℕ → ConstraintManager
add_unique m id columns =
    add_constraint
      (record m {
        unique_constraints =
            push id (record { columns = columns; existing = [] }) m.unique_constraints;
      })
      id (unique columns)

unfoldable pub add_not_null : ConstraintManager → ℕ → ℕ → ConstraintManager
add_not_null m id column = add_constraint m id (not_null column)

unfoldable pub add_check : ConstraintManager → ℕ → String → (List Value → Bool) → ConstraintManager
add_check m id text test = add_constraint m id (check text test)

-- `drop_table_constraints`.
unfoldable pub drop_table_constraints : ConstraintManager → ℕ → ConstraintManager
drop_table_constraints m id = record {
  table_constraints = erase id m.table_constraints;
  primary_keys = erase id m.primary_keys;
  foreign_keys = erase id m.foreign_keys;
  unique_constraints = erase id m.unique_constraints;
}

-- `unordered_set::insert`.
abbrev pub put_key : ℕ → List ℕ → List ℕ
put_key h keys = if contains h keys then keys else h ∷ keys

-- `hash ^= values[col_idx].hash() + 0x9e3779b9 + (hash << 6) + (hash >> 2)`.
abbrev pub mix : ℕ → ℕ → ℕ
mix h n = bit_xor h ((n + 0x9e37_79b9 + h * 64 % 2 ^ 64 + h / 4) % 2 ^ 64)

module _ (p : Platform) where
  -- The loop of `compute_key_hash` and of `compute_value_hash`.
  unfoldable pub key_hash : List Value → List ℕ → ℕ → Try ℕ
  key_hash values [] h = ok h
  key_hash values (c ∷ cs) h = elim (get_elem? values c) [
    | none ↦ key_hash values cs h
    | some v ↦ hash p v >>= λ n. key_hash values cs (mix h n)
  ]

  -- `check_duplicate`, `add_key` and `remove_key` of a PRIMARY KEY.
  unfoldable pub check_duplicate : KeySet → List Value → Try Bool
  check_duplicate k values = key_hash values k.columns 0 >>= λ h. ok (contains h k.existing)

  unfoldable pub add_key : KeySet → List Value → Try KeySet
  add_key k values =
      key_hash values k.columns 0 >>= λ h. ok (record k { existing = put_key h k.existing })

  unfoldable pub remove_key : KeySet → List Value → Try KeySet
  remove_key k values =
      key_hash values k.columns 0 >>= λ h. ok (record k { existing = remove_first h k.existing })

  -- `check_unique` and `add_value` of a UNIQUE constraint; `remove_value` is as `remove_key`.
  unfoldable pub check_unique : KeySet → List Value → Try Bool
  check_unique k values =
      if all_absent values k.columns
      then ok true
      else (key_hash values k.columns 0 >>= λ h. ok (not (contains h k.existing)))

  unfoldable pub add_value : KeySet → List Value → Try KeySet
  unfolding add_key
  add_value k values = if all_absent values k.columns then ok k else add_key k values

  -- The last loop of `validate_insert`.
  unfoldable pub all_unique : List KeySet → List Value → Try Bool
  all_unique [] values = ok true
  all_unique (k ∷ ks) values =
      let rest = all_unique ks values in
      check_unique k values >>= λ free. if free then rest else ok false

  -- `validate_insert`.
  unfoldable pub validate_insert : ConstraintManager → ℕ → List Value → Try Bool
  validate_insert m id values =
      let uniques = all_unique (list_of id m.unique_constraints) values in
      if all_valid (list_of id m.table_constraints) values
      then elim (lookup id m.primary_keys) [
        | none ↦ uniques
        | some pk ↦ check_duplicate pk values >>= λ taken. if taken then ok false else uniques
      ]
      else ok false

  -- A loop over the UNIQUE constraints of a table that changes each.
  unfoldable pub change_keys :
      (KeySet → List Value → Try KeySet) → List KeySet → List Value → Try (List KeySet)
  change_keys change [] values = ok []
  change_keys change (k ∷ ks) values =
      change k values >>= λ x. change_keys change ks values >>= λ xs. ok (x ∷ xs)

  -- The keys of a tuple taken out of, or put back into, the sets of a table.
  unfoldable pub change_primary :
      (KeySet → List Value → Try KeySet)
      → ConstraintManager
      → ℕ
      → List Value
      → Try ConstraintManager
  change_primary change m id values = elim (lookup id m.primary_keys) [
    | none ↦ ok m
    | some pk ↦
        change pk values >>= λ x. ok (record m { primary_keys = insert id x m.primary_keys })
  ]

  unfoldable pub change_uniques :
      (KeySet → List Value → Try KeySet)
      → ConstraintManager
      → ℕ
      → List Value
      → Try ConstraintManager
  change_uniques change m id values = elim (lookup id m.unique_constraints) [
    | none ↦ ok m
    | some ks ↦ change_keys change ks values >>= λ xs.
        ok (record m { unique_constraints = insert id xs m.unique_constraints })
  ]

  -- `validate_update`.
  unfoldable pub validate_update :
      ConstraintManager → ℕ → List Value → List Value → Try (ConstraintManager × Bool)
  validate_update m id old new = change_primary remove_key m id old >>= λ a.
      change_uniques remove_key a id old >>= λ b. validate_insert b id new >>= λ valid.
      if valid
      then ok (b, true)
      else (change_primary add_key b id old >>= λ c.
          change_uniques add_value c id old >>= λ d. ok (d, false))

-- `check_can_delete`, which is not implemented yet.
unfoldable pub check_can_delete : ForeignKey → List Value → Bool
check_can_delete fk values = true

-- The inner and the outer loop of `validate_delete`.
unfoldable pub all_can_delete : ℕ → List ForeignKey → List Value → Bool
all_can_delete id [] values = true
all_can_delete id (fk ∷ fks) values =
    let rest = all_can_delete id fks values in
    if fk.referenced_table == id then (if check_can_delete fk values then rest else false) else rest

unfoldable pub all_tables_can_delete : ℕ → List (ℕ × List ForeignKey) → List Value → Bool
all_tables_can_delete id [] values = true
all_tables_can_delete id (entry ∷ entries) values =
    let rest = all_tables_can_delete id entries values in
    if all_can_delete id entry.1 values then rest else false

-- `validate_delete`.
unfoldable pub validate_delete : ConstraintManager → ℕ → List Value → Bool
validate_delete m id values = all_tables_can_delete id m.foreign_keys values
