-- ===== src/Locking/Context/Tests.antt =====
-- A short history of transactions.
use lattice_db_next_gen_dbms.Prelude.{◌≡◌, List, [], ◌∷◌, none, some, arith}
use lattice_db_next_gen_dbms.Prelude.Tests.{◌==◌, if◌then◌else◌}
use lattice_db_next_gen_dbms.Locking.Transaction.{new_transaction}
use lattice_db_next_gen_dbms.Locking.Context.{
  new_context, begin, get_transaction, Request, begins, commits, handle_all,
}
use lattice_db_next_gen_dbms.Locking.Context.Freshness.{begin_lem}

abbrev requests : List Request
requests = begins ∷ begins ∷ commits 0 ∷ []

begin_lem_example :
    let c = handle_all new_context requests in
    let (d, id) = begin c in
    (get_transaction c id ≡ none)
    × (get_transaction d id ≡ some new_transaction)
    × (get_transaction d 1 ≡ (if id == 1 then some new_transaction else get_transaction c 1))
begin_lem_example = begin_lem requests 1 (omega arith)
