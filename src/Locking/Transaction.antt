-- ===== src/Locking/Transaction.antt =====
-- `Transaction` of src/transaction/transaction.h: its state and its lock sets, and what the lock
-- manager reads and writes of them. A set of table or row identifiers is its membership test.
use lattice_db_next_gen_dbms.Prelude.{ℕ, ◌≡◌, refl, Bool, true, false, ◌&&◌, ◌||◌, arith}
use lattice_db_next_gen_dbms.Prelude.Tests.{◌==◌, if◌then◌else◌}
use lattice_db_next_gen_dbms.Locking.Modes.{
  LockMode, exclusive, intention_exclusive, shared_intention_exclusive, mode_eq,
}
use lattice_db_next_gen_dbms.Locking.Queue.{Rid, rid_eq}

pub data TransactionState : Type 0 where
  growing shrinking committed aborted : TransactionState

pub record Transaction : Type 0 where
  pub state : TransactionState
  pub shared_tables : ℕ → Bool
  pub exclusive_tables : ℕ → Bool
  pub intention_shared_tables : ℕ → Bool
  pub intention_exclusive_tables : ℕ → Bool
  pub shared_intention_exclusive_tables : ℕ → Bool
  pub shared_rows : ℕ → Rid → Bool
  pub exclusive_rows : ℕ → Rid → Bool

abbrev pub new_transaction : Transaction
new_transaction = record {
  state = growing;
  shared_tables = λ _. false;
  exclusive_tables = λ _. false;
  intention_shared_tables = λ _. false;
  intention_exclusive_tables = λ _. false;
  shared_intention_exclusive_tables = λ _. false;
  shared_rows = λ _ _. false;
  exclusive_rows = λ _ _. false;
}

abbrev pub add : ℕ → (ℕ → Bool) → ℕ → Bool
add o s p = if p == o then true else s p

abbrev pub discard : ℕ → (ℕ → Bool) → ℕ → Bool
discard o s p = if p == o then false else s p

abbrev pub add_row : ℕ → Rid → (ℕ → Rid → Bool) → ℕ → Rid → Bool
add_row o r s p q = if p == o && rid_eq q r then true else s p q

abbrev pub discard_row : ℕ → Rid → (ℕ → Rid → Bool) → ℕ → Rid → Bool
discard_row o r s p q = if p == o && rid_eq q r then false else s p q

-- "Record lock in transaction", for a table and for a row.
unfoldable pub record_table_lock : LockMode → ℕ → Transaction → Transaction
unfolding mode_eq
record_table_lock mode oid x =
    if mode_eq mode exclusive
      || mode_eq mode intention_exclusive
      || mode_eq mode shared_intention_exclusive
    then record x { exclusive_tables = add oid x.exclusive_tables }
    else record x { shared_tables = add oid x.shared_tables }

unfoldable pub record_row_lock : LockMode → ℕ → Rid → Transaction → Transaction
unfolding mode_eq rid_eq
record_row_lock mode oid rid x =
    if mode_eq mode exclusive
    then record x { exclusive_rows = add_row oid rid x.exclusive_rows }
    else record x { shared_rows = add_row oid rid x.shared_rows }

unfoldable pub has_table_lock : LockMode → ℕ → Transaction → Bool
unfolding mode_eq
has_table_lock mode oid x =
    if mode_eq mode exclusive
    then x.exclusive_tables oid
      || x.intention_exclusive_tables oid
      || x.shared_intention_exclusive_tables oid
    else x.shared_tables oid
      || x.intention_shared_tables oid
      || x.shared_intention_exclusive_tables oid

-- "Update transaction state".
unfoldable pub shrink : Bool → Transaction → Transaction
shrink force x = elim x.state [
  | growing ↦ if force then x else record x { state = shrinking }
  | _ ↦ x
]

-- What `unlock_table` and `unlock_row` do to the transaction.
unfoldable pub after_table_unlock : ℕ → Transaction → Transaction
unfolding shrink
after_table_unlock oid x =
    let y = shrink false x in
    record y {
      exclusive_tables = discard oid y.exclusive_tables;
      shared_tables = discard oid y.shared_tables;
    }

unfoldable pub after_row_unlock : Bool → ℕ → Rid → Transaction → Transaction
unfolding shrink rid_eq
after_row_unlock force oid rid x =
    let y = shrink force x in
    record y {
      exclusive_rows = discard_row oid rid y.exclusive_rows;
      shared_rows = discard_row oid rid y.shared_rows;
    }

pub data StateCase (s : TransactionState) : Type 0 where
  is_growing : s ≡ growing → StateCase s
  is_shrinking : s ≡ shrinking → StateCase s
  is_committed : s ≡ committed → StateCase s
  is_aborted : s ≡ aborted → StateCase s

pub TransactionState-cases : (s : TransactionState) → StateCase s
TransactionState-cases growing = is_growing refl
TransactionState-cases shrinking = is_shrinking refl
TransactionState-cases committed = is_committed refl
TransactionState-cases aborted = is_aborted refl

pub record_table_lock_state :
    (mode : LockMode) (oid : ℕ) (x : Transaction) → (record_table_lock mode oid x).state ≡ x.state
unfolding record_table_lock
record_table_lock_state mode oid x = ground arith

pub record_row_lock_state :
    (mode : LockMode) (oid : ℕ) (rid : Rid) (x : Transaction)
    → (record_row_lock mode oid rid x).state ≡ x.state
unfolding record_row_lock
record_row_lock_state mode oid rid x = ground arith
