-- ===== src/Locking/Context.antt =====
-- `TransactionContext` of src/transaction/transaction.h and transaction.cpp. A transaction belongs to
-- its entry of `running`: `commit` and `abort` set its state and then destroy it with the entry. The
-- isolation level is kept by the transaction and read by nothing.
pub mod Freshness
mod Tests
use lattice_db_next_gen_dbms.Prelude.{ℕ, ◌+◌, ◌%◌, ◌^◌, List, [], ◌∷◌, Option}
use lattice_db_next_gen_dbms.Prelude.Dict.{lookup, insert, erase}
use lattice_db_next_gen_dbms.Locking.Transaction.{Transaction, new_transaction}

pub record TransactionContext : Type 0 where
  pub running : List (ℕ × Transaction)
  pub next_txn_id : ℕ

abbrev pub new_context : TransactionContext
new_context = record { running = []; next_txn_id = 0 }

unfoldable pub begin : TransactionContext → TransactionContext × ℕ
begin c =
    let id = c.next_txn_id in
    (record { running = insert id new_transaction c.running; next_txn_id = (id + 1) % 2 ^ 32 }, id)

unfoldable pub remove_txn : TransactionContext → ℕ → TransactionContext
remove_txn c id = record c { running = erase id c.running }

unfoldable pub get_transaction : TransactionContext → ℕ → Option Transaction
get_transaction c id = lookup id c.running

pub data Request : Type 0 where
  begins : Request
  commits aborts : (id : ℕ) → Request

unfoldable pub handle : TransactionContext → Request → TransactionContext
handle c begins = (begin c).0
handle c (commits id) = remove_txn c id
handle c (aborts id) = remove_txn c id

unfoldable pub handle_all : TransactionContext → List Request → TransactionContext
handle_all c [] = c
handle_all c (r ∷ rs) = handle_all (handle c r) rs
