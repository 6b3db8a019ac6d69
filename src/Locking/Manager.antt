-- ===== src/Locking/Manager.antt =====
-- `LockManager` of src/concurrency/lock_manager.h and lock_manager.cpp, and the lock sets of
-- `Transaction` (src/transaction/transaction.h). A call runs under the queue's mutex up to its end
-- or to `cv_.wait`, where it leaves a `Wait`; `wake` is what it does when it has the mutex again,
-- which may be at any time. An interleaving of threads is a list of such steps. `commit` and
-- `abort` of `TransactionContext` write the state of a transaction at any time. A queue that is
-- not in a map is a new one.
pub mod Safety
pub mod TwoPhase
pub mod Upgrade
mod Tests
use lattice_db_next_gen_dbms.Prelude.{
  ℕ, ◌+◌, Bool, true, false, not, ◌&&◌, ◌||◌, List, [], ◌∷◌, ◌++◌, Option, none, some,
}
use lattice_db_next_gen_dbms.Prelude.Tests.{◌==◌, if◌then◌else◌}
use lattice_db_next_gen_dbms.Locking.Modes.{
  LockMode, shared, exclusive, intention_exclusive, shared_intention_exclusive, mode_eq,
  can_lock_upgrade,
}
use lattice_db_next_gen_dbms.Locking.Transaction.{
  TransactionState, growing, shrinking, committed, aborted, Transaction, new_transaction,
  record_table_lock, record_row_lock, has_table_lock, after_table_unlock, after_row_unlock,
}
use lattice_db_next_gen_dbms.Locking.Queue.{
  Rid, no_rid, rid_eq, LockRequest, LockRequestQueue, empty_queue, invalid_txn_id, find_if, at,
  modify, erase_request, grant_lock, release,
}

-- What a queue is for.
pub data LockTarget : Type 0 where
  table : ℕ → LockTarget
  row : Rid → LockTarget

unfoldable pub target_eq : LockTarget → LockTarget → Bool
unfolding rid_eq
target_eq (table a) (table b) = a == b
target_eq (row a) (row b) = rid_eq a b
target_eq _ _ = false

-- `table_lock_map_` and `row_lock_map_` together; `next_address` is where the next request goes.
pub record LockManager : Type 0 where
  pub queues : LockTarget → LockRequestQueue
  pub txns : ℕ → Transaction
  pub next_address : ℕ

abbrev pub init : LockManager
init = record { queues = λ _. empty_queue; txns = λ _. new_transaction; next_address = 0 }

abbrev pub set_queue : LockTarget → LockRequestQueue → LockManager → LockManager
set_queue t q m = record m { queues = λ u. if target_eq u t then q else m.queues u }

abbrev pub edit_txn : ℕ → (Transaction → Transaction) → LockManager → LockManager
edit_txn i f m = record m { txns = λ j. if j == i then f (m.txns j) else m.txns j }

abbrev pub set_state : ℕ → TransactionState → LockManager → LockManager
set_state i s = edit_txn i (λ x. record x { state = s })

-- A call at `cv_.wait`: an upgrade, or a new request.
pub data Wait : Type 0 where
  upgrade_wait : (txn oid address : ℕ) → Wait
  table_wait : (txn oid address : ℕ) → LockMode → Wait
  row_wait : (txn oid address : ℕ) → Rid → LockMode → Wait

pub data Reply : Type 0 where
  done : Bool → Reply
  waits : Wait → Reply

abbrev pub of_txn : ℕ → LockRequest → Bool
of_txn i r = r.txn_id == i

abbrev pub is_granted_at : ℕ → List LockRequest → Bool
is_granted_at a rs = elim (find_if (at a) rs) [ none ↦ false | some r ↦ r.granted ]

-- "Create new lock request", and the first attempt to grant it.
unfoldable pub enqueue : LockTarget → ℕ → LockMode → ℕ → Rid → LockManager → LockManager
unfolding target_eq
enqueue t i mode oid rid m =
    let request : LockRequest = record {
      address = m.next_address;
      txn_id = i;
      lock_mode = mode;
      oid = oid;
      rid = rid;
      granted = false;
    } in
    let q = m.queues t in
    let pushed : LockRequestQueue = record q { request_queue = q.request_queue ++ request ∷ [] } in
    record (set_queue t (grant_lock m.next_address pushed) m) { next_address = m.next_address + 1 }

-- The loop "Wait if not granted" of `lock_table` and `lock_row`: one round of it, for the request at
-- `address`, where `recorded` notes the lock. A transaction calls from one thread: while it waits it
-- does not take its own request out of the queue.
unfoldable pub await :
    LockTarget → ℕ → ℕ → (Transaction → Transaction) → Wait → LockManager → LockManager × Reply
unfolding target_eq
await t i address recorded w m =
    let q = m.queues t in
    if is_granted_at address q.request_queue
    then (edit_txn i recorded m, done true)
    else elim (m.txns i).state [
      | aborted ↦ (
        set_queue t (record q { request_queue = erase_request address q.request_queue }) m,
        done false,
      )
      | _ ↦ (m, waits w)
    ]

-- The loop of an upgrade.
unfoldable pub await_upgrade : ℕ → ℕ → ℕ → LockManager → LockManager × Reply
unfolding target_eq
await_upgrade i oid address m =
    let q = m.queues (table oid) in
    let over = set_queue (table oid) (record q { upgrading = invalid_txn_id }) m in
    if is_granted_at address q.request_queue then (over, done true) else elim (m.txns i).state [
      | aborted ↦ (over, done false)
      | _ ↦ (m, waits (upgrade_wait i oid address))
    ]

-- A transaction that holds or waits for a lock on the table asks for one again.
unfoldable pub relock_table : ℕ → LockMode → ℕ → LockRequest → LockManager → LockManager × Reply
unfolding await_upgrade target_eq
relock_table i mode oid req m =
    let q = m.queues (table oid) in
    let begun : LockRequestQueue = record {
      request_queue =
          modify req.address (λ r. record r { lock_mode = mode; granted = false }) q.request_queue;
      upgrading = i;
    } in
    if mode_eq req.lock_mode mode
    then (m, done true)
    else if can_lock_upgrade req.lock_mode mode
    then if not (q.upgrading == invalid_txn_id)
      then (set_state i aborted m, done false)
      else await_upgrade i oid req.address (set_queue (table oid) begun m)
    else (set_state i aborted m, done false)

unfoldable pub lock_table_growing : ℕ → LockMode → ℕ → LockManager → LockManager × Reply
lock_table_growing i mode oid m = elim (find_if (of_txn i) (m.queues (table oid)).request_queue) [
  | some req ↦ relock_table i mode oid req m
  | none ↦
      await (table oid) i m.next_address (record_table_lock mode oid)
        (table_wait i oid m.next_address mode) (enqueue (table oid) i mode oid no_rid m)
]

unfoldable pub lock_table : ℕ → LockMode → ℕ → LockManager → LockManager × Reply
lock_table i mode oid m = elim (m.txns i).state [
  | aborted ↦ (m, done false)
  | shrinking ↦ (set_state i aborted m, done false)
  | _ ↦ lock_table_growing i mode oid m
]

unfoldable pub lock_row_growing : ℕ → LockMode → ℕ → Rid → LockManager → LockManager × Reply
lock_row_growing i mode oid rid m =
    if has_table_lock mode oid (m.txns i)
    then await (row rid) i m.next_address (record_row_lock mode oid rid)
        (row_wait i oid m.next_address rid mode) (enqueue (row rid) i mode oid rid m)
    else (set_state i aborted m, done false)

unfoldable pub lock_row : ℕ → LockMode → ℕ → Rid → LockManager → LockManager × Reply
lock_row i mode oid rid m = elim (m.txns i).state [
  | aborted ↦ (m, done false)
  | shrinking ↦ (set_state i aborted m, done false)
  | _ ↦ lock_row_growing i mode oid rid m
]

unfoldable pub unlock_table : ℕ → ℕ → LockManager → LockManager × Bool
unfolding target_eq after_table_unlock
unlock_table i oid m =
    let q = m.queues (table oid) in
    elim (find_if (λ r. of_txn i r && r.granted) q.request_queue) [
      | none ↦ (m, false)
      | some req ↦ (
        set_queue (table oid) (release req.address q) (edit_txn i (after_table_unlock oid) m),
        true,
      )
    ]

unfoldable pub unlock_row : ℕ → ℕ → Rid → Bool → LockManager → LockManager × Bool
unfolding target_eq after_row_unlock rid_eq
unlock_row i oid rid force m =
    let q = m.queues (row rid) in
    elim (find_if (λ r. of_txn i r && r.oid == oid && rid_eq r.rid rid && r.granted)
      q.request_queue) [
        | none ↦ (m, false)
        | some req ↦ (
          set_queue (row rid) (release req.address q)
              (edit_txn i (after_row_unlock force oid rid) m),
          true,
        )
      ]

unfoldable pub wake : Wait → LockManager → LockManager × Reply
wake (upgrade_wait i oid a) m = await_upgrade i oid a m
wake (table_wait i oid a mode) m =
    await (table oid) i a (record_table_lock mode oid) (table_wait i oid a mode) m
wake (row_wait i oid a rid mode) m =
    await (row rid) i a (record_row_lock mode oid rid) (row_wait i oid a rid mode) m

pub data Event : Type 0 where
  locks_table : (txn : ℕ) → LockMode → (oid : ℕ) → Event
  locks_row : (txn : ℕ) → LockMode → (oid : ℕ) → Rid → Event
  unlocks_table : (txn oid : ℕ) → Event
  unlocks_row : (txn oid : ℕ) → Rid → (force : Bool) → Event
  wakes : Wait → Event
  aborts commits : (txn : ℕ) → Event

-- An event. `commit` and `abort` also take the transaction out of the context's map, which is in
-- Locking/Context; here its state stays to be read.
unfoldable pub step : LockManager → Event → LockManager
step m (locks_table i mode oid) = (lock_table i mode oid m).0
step m (locks_row i mode oid rid) = (lock_row i mode oid rid m).0
step m (unlocks_table i oid) = (unlock_table i oid m).0
step m (unlocks_row i oid rid force) = (unlock_row i oid rid force m).0
step m (wakes w) = (wake w m).0
step m (aborts i) = set_state i aborted m
step m (commits i) = set_state i committed m

unfoldable pub run : LockManager → List Event → LockManager
run m [] = m
run m (e ∷ es) = run (step m e) es
