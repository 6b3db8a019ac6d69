-- ===== src/Locking/Manager/Safety.antt =====
-- The locks granted in an interleaving of calls of src/concurrency/lock_manager.cpp.
use lattice_db_next_gen_dbms.Prelude.{ℕ, refl, Bool, List, [], ◌∷◌, ◌&&◌, inl, inr}
use lattice_db_next_gen_dbms.Prelude.Tests.{◌==◌, Option-cases, Bool-cases}
use lattice_db_next_gen_dbms.Locking.Modes.{LockMode, mode_eq, can_lock_upgrade}
use lattice_db_next_gen_dbms.Locking.Queue.{
  Rid, no_rid, LockRequest, LockRequestQueue, invalid_txn_id, find_if, rid_eq,
}
use lattice_db_next_gen_dbms.Locking.Queue.Safety.{
  Fits, NoConflict, Fits-NoConflict, erase_request-Fits, modify_waiting-Fits, append_waiting-Fits,
  grant_lock-Fits, release-Fits,
}
use lattice_db_next_gen_dbms.Locking.Transaction.{
  Transaction, has_table_lock, after_table_unlock, after_row_unlock, TransactionState-cases,
  is_growing, is_shrinking, is_committed, is_aborted,
}
use lattice_db_next_gen_dbms.Locking.Manager.{
  LockTarget, table, row, target_eq, LockManager, init, set_queue, edit_txn, of_txn, is_granted_at,
  Wait, upgrade_wait, table_wait, row_wait, enqueue, await, await_upgrade, relock_table,
  lock_table_growing, lock_table, lock_row_growing, lock_row, unlock_table, unlock_row, wake, Event,
  locks_table, locks_row, unlocks_table, unlocks_row, wakes, aborts, commits, step, run,
}

abbrev AllFit : LockManager → Type 0
AllFit m = (t : LockTarget) → Fits (m.queues t).request_queue

set_queue-AllFit :
    (t : LockTarget) (q : LockRequestQueue) (m : LockManager)
    → Fits q.request_queue
    → AllFit m
    → AllFit (set_queue t q m)
set_queue-AllFit t q m f a u = elim (Bool-cases (target_eq u t)) [
  | inl same ↦ rw same f
  | inr other ↦ rw other (a u)
]

enqueue-AllFit :
    (t : LockTarget) (i : ℕ) (mode : LockMode) (oid : ℕ) (rid : Rid) (m : LockManager)
    → AllFit m
    → AllFit (enqueue t i mode oid rid m)
unfolding enqueue
enqueue-AllFit t i mode oid rid m a =
    set_queue-AllFit t _ m
      (grant_lock-Fits m.next_address _
        (append_waiting-Fits _ (m.queues t).request_queue refl (a t)))
      a

await-AllFit :
    (t : LockTarget) (i address : ℕ) (f : Transaction → Transaction) (w : Wait) (m : LockManager)
    → AllFit m
    → AllFit (await t i address f w m).0
unfolding await
await-AllFit t i address f w m a =
    elim (Bool-cases (is_granted_at address (m.queues t).request_queue)) [
      | inl g ↦ rw (g, await) a
      | inr g ↦ elim (TransactionState-cases (m.txns i).state) [
        | is_aborted e ↦
            rw (g, await, e)
              (set_queue-AllFit t _ m (erase_request-Fits address (m.queues t).request_queue (a t))
                a)
        | is_growing e ↦ rw (g, await, e) a
        | is_shrinking e ↦ rw (g, await, e) a
        | is_committed e ↦ rw (g, await, e) a
      ]
    ]

await_upgrade-AllFit :
    (i oid address : ℕ) (m : LockManager) → AllFit m → AllFit (await_upgrade i oid address m).0
unfolding await_upgrade
await_upgrade-AllFit i oid address m a =
    let over =
      set_queue-AllFit (table oid) (record (m.queues (table oid)) { upgrading = invalid_txn_id }) m
        (a (table oid)) a in
    elim (Bool-cases (is_granted_at address (m.queues (table oid)).request_queue)) [
      | inl g ↦ rw (g, await_upgrade) over
      | inr g ↦ elim (TransactionState-cases (m.txns i).state) [
        | is_aborted e ↦ rw (g, await_upgrade, e) over
        | is_growing e ↦ rw (g, await_upgrade, e) a
        | is_shrinking e ↦ rw (g, await_upgrade, e) a
        | is_committed e ↦ rw (g, await_upgrade, e) a
      ]
    ]

relock_table-AllFit :
    (i : ℕ) (mode : LockMode) (oid : ℕ) (req : LockRequest) (m : LockManager)
    → AllFit m
    → AllFit (relock_table i mode oid req m).0
unfolding relock_table
relock_table-AllFit i mode oid req m a = elim (Bool-cases (mode_eq req.lock_mode mode)) [
  | inl e ↦ rw (e, relock_table) a
  | inr e ↦ elim (Bool-cases (can_lock_upgrade req.lock_mode mode)) [
    | inr c ↦ rw (e, relock_table, c) a
    | inl c ↦ elim (Bool-cases ((m.queues (table oid)).upgrading == invalid_txn_id)) [
      | inr u ↦ rw (e, relock_table, c, u) a
      | inl u ↦
          rw (e, relock_table, c, u)
            (await_upgrade-AllFit i oid req.address _ (
              set_queue-AllFit (table oid) _ m
                (modify_waiting-Fits _ req.address _ (λ r. refl) (a (table oid))) a))
    ]
  ]
]

lock_table_growing-AllFit :
    (i : ℕ) (mode : LockMode) (oid : ℕ) (m : LockManager)
    → AllFit m
    → AllFit (lock_table_growing i mode oid m).0
unfolding lock_table_growing
lock_table_growing-AllFit i mode oid m a =
    elim (Option-cases (find_if (of_txn i) (m.queues (table oid)).request_queue)) [
      | inr (req, e) ↦ rw (e, lock_table_growing) (relock_table-AllFit i mode oid req m a)
      | inl e ↦
          rw (e, lock_table_growing)
            (await-AllFit (table oid) i m.next_address _ _ _
              (enqueue-AllFit (table oid) i mode oid no_rid m a))
    ]

lock_table-AllFit :
    (i : ℕ) (mode : LockMode) (oid : ℕ) (m : LockManager)
    → AllFit m
    → AllFit (lock_table i mode oid m).0
unfolding lock_table
lock_table-AllFit i mode oid m a =
    let go = lock_table_growing-AllFit i mode oid m a in
    elim (TransactionState-cases (m.txns i).state) [
      | is_aborted e ↦ rw (e, lock_table) a
      | is_growing e ↦ rw (e, lock_table) go
      | is_shrinking e ↦ rw (e, lock_table) a
      | is_committed e ↦ rw (e, lock_table) go
    ]

lock_row_growing-AllFit :
    (i : ℕ) (mode : LockMode) (oid : ℕ) (rid : Rid) (m : LockManager)
    → AllFit m
    → AllFit (lock_row_growing i mode oid rid m).0
unfolding lock_row_growing
lock_row_growing-AllFit i mode oid rid m a =
    elim (Bool-cases (has_table_lock mode oid (m.txns i))) [
      | inl h ↦
          rw (h, lock_row_growing)
            (await-AllFit (row rid) i m.next_address _ _ _
              (enqueue-AllFit (row rid) i mode oid rid m a))
      | inr h ↦ rw (h, lock_row_growing) a
    ]

lock_row-AllFit :
    (i : ℕ) (mode : LockMode) (oid : ℕ) (rid : Rid) (m : LockManager)
    → AllFit m
    → AllFit (lock_row i mode oid rid m).0
unfolding lock_row
lock_row-AllFit i mode oid rid m a =
    let go = lock_row_growing-AllFit i mode oid rid m a in
    elim (TransactionState-cases (m.txns i).state) [
      | is_aborted e ↦ rw (e, lock_row) a
      | is_growing e ↦ rw (e, lock_row) go
      | is_shrinking e ↦ rw (e, lock_row) a
      | is_committed e ↦ rw (e, lock_row) go
    ]

unlock_table-AllFit : (i oid : ℕ) (m : LockManager) → AllFit m → AllFit (unlock_table i oid m).0
unfolding unlock_table
unlock_table-AllFit i oid m a =
    elim (Option-cases
      (find_if (λ r. of_txn i r && r.granted) (m.queues (table oid)).request_queue)) [
        | inl e ↦ rw (e, unlock_table) a
        | inr (req, e) ↦
            rw (e, unlock_table)
              (set_queue-AllFit (table oid) _ (edit_txn i (after_table_unlock oid) m)
                (release-Fits req.address _ (a (table oid))) a)
      ]

unlock_row-AllFit :
    (i oid : ℕ) (rid : Rid) (force : Bool) (m : LockManager)
    → AllFit m
    → AllFit (unlock_row i oid rid force m).0
unfolding unlock_row
unlock_row-AllFit i oid rid force m a =
    elim (Option-cases (
      find_if (λ r. of_txn i r && r.oid == oid && rid_eq r.rid rid && r.granted)
        (m.queues (row rid)).request_queue)) [
          | inl e ↦ rw (e, unlock_row) a
          | inr (req, e) ↦
              rw (e, unlock_row)
                (set_queue-AllFit (row rid) _ (edit_txn i (after_row_unlock force oid rid) m)
                  (release-Fits req.address _ (a (row rid))) a)
        ]

step-AllFit : (m : LockManager) (e : Event) → AllFit m → AllFit (step m e)
unfolding step wake
step-AllFit m (locks_table i mode oid) a = lock_table-AllFit i mode oid m a
step-AllFit m (locks_row i mode oid rid) a = lock_row-AllFit i mode oid rid m a
step-AllFit m (unlocks_table i oid) a = unlock_table-AllFit i oid m a
step-AllFit m (unlocks_row i oid rid force) a = unlock_row-AllFit i oid rid force m a
step-AllFit m (wakes (upgrade_wait i oid p)) a = await_upgrade-AllFit i oid p m a
step-AllFit m (wakes (table_wait i oid p mode)) a = await-AllFit (table oid) i p _ _ m a
step-AllFit m (wakes (row_wait i oid p rid mode)) a = await-AllFit (row rid) i p _ _ m a
step-AllFit m (aborts i) a = a
step-AllFit m (commits i) a = a

run-AllFit : (m : LockManager) (es : List Event) → AllFit m → AllFit (run m es)
unfolding run
run-AllFit m [] a = a
run-AllFit m (e ∷ es) a = run-AllFit (step m e) es (step-AllFit m e a)

-- After any interleaving of calls, wakings, aborts and commits, from the constructor on: any two
-- requests of a table's or a row's queue that are granted to different transactions have modes
-- that `are_locks_compatible` allows together.
pub run-NoConflict :
    (es : List Event) (t : LockTarget) → NoConflict ((run init es).queues t).request_queue
run-NoConflict es t = Fits-NoConflict _ (run-AllFit init es (λ u. tt) t)
