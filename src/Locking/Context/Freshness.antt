-- ===== src/Locking/Context/Freshness.antt =====
-- The identifiers that `begin` of src/transaction/transaction.cpp gives.
use lattice_db_next_gen_dbms.Prelude.{
  ℕ, ◌+◌, ◌^◌, ◌<◌, ◌≤◌, ◌≡◌, List, [], ◌∷◌, none, some, arith, refl,
}
use lattice_db_next_gen_dbms.Prelude.Tests.{◌==◌, if◌then◌else◌}
use lattice_db_next_gen_dbms.Prelude.Lists.{length}
use lattice_db_next_gen_dbms.Prelude.Dict.{lookup, lookup-insert, lookup-erase}
use lattice_db_next_gen_dbms.Locking.Transaction.{new_transaction}
use lattice_db_next_gen_dbms.Locking.Context.{
  TransactionContext, new_context, begin, remove_txn, get_transaction, Request, begins, commits,
  aborts, handle, handle_all,
}

-- Every identifier from the next one on is free.
abbrev IsFree : TransactionContext → Type 0
IsFree c = (id : ℕ) → c.next_txn_id ≤ id → get_transaction c id ≡ none

begin-IsFree : (c : TransactionContext) → c.next_txn_id + 1 < 2 ^ 32 → IsFree c → IsFree (begin c).0
unfolding begin get_transaction
begin-IsFree c h f id l =
    ground (arith, f id, lookup-insert c.next_txn_id id new_transaction c.running)

remove_txn-IsFree : (c : TransactionContext) (i : ℕ) → IsFree c → IsFree (remove_txn c i)
unfolding remove_txn get_transaction
remove_txn-IsFree c i f id l = ground (arith, f id, lookup-erase i id c.running)

next_after : (c : TransactionContext) (r : Request) → (handle c r).next_txn_id ≤ c.next_txn_id + 1
unfolding handle begin remove_txn
next_after c begins = omega arith
next_after c (commits id) = omega arith
next_after c (aborts id) = omega arith

handle-IsFree :
    (c : TransactionContext) (r : Request)
    → c.next_txn_id + 1 < 2 ^ 32
    → IsFree c
    → IsFree (handle c r)
unfolding handle
handle-IsFree c begins h f = begin-IsFree c h f
handle-IsFree c (commits id) h f = remove_txn-IsFree c id f
handle-IsFree c (aborts id) h f = remove_txn-IsFree c id f

handle_all-IsFree :
    (c : TransactionContext) (rs : List Request)
    → c.next_txn_id + length rs < 2 ^ 32
    → IsFree c
    → IsFree (handle_all c rs)
unfolding handle_all
handle_all-IsFree c [] h f = f
handle_all-IsFree c (r ∷ rs) h f =
    handle_all-IsFree (handle c r) rs (omega (arith, next_after c r))
      (handle-IsFree c r (omega arith) f)

-- After fewer than 2 ^ 32 requests from an empty context: the identifier that `begin` gives belongs
-- to no running transaction, afterwards it belongs to a new one, and every other identifier belongs
-- to the same transaction as before.
pub begin_lem :
    (rs : List Request) (other : ℕ)
    → length rs < 2 ^ 32
    → let c = handle_all new_context rs in
      let (d, id) = begin c in
      (get_transaction c id ≡ none)
      × (get_transaction d id ≡ some new_transaction)
      × (get_transaction d other
          ≡ (if id == other then some new_transaction else get_transaction c other))
unfolding begin get_transaction lookup
begin_lem rs other h =
    let c = handle_all new_context rs in
    let id = c.next_txn_id in
    (
      handle_all-IsFree new_context rs (omega arith) (λ i l. refl) id (omega arith),
      ground (arith, lookup-insert id id new_transaction c.running),
      lookup-insert id other new_transaction c.running,
    )
