-- ===== src/Locking/Manager/TwoPhase.antt =====
-- The phases of a transaction under `LockManager` of src/concurrency/lock_manager.cpp.
use lattice_db_next_gen_dbms.Prelude.{ℕ, ◌≡◌, ◌≢◌, Bool, true, false, List, [], ◌∷◌, arith}
use lattice_db_next_gen_dbms.Locking.Modes.{LockMode}
use lattice_db_next_gen_dbms.Locking.Queue.{Rid, LockRequest}
use lattice_db_next_gen_dbms.Locking.Transaction.{
  TransactionState, growing, shrinking, committed, aborted, Transaction, record_row_lock,
  after_table_unlock, after_row_unlock, record_table_lock_state, record_row_lock_state,
}
use lattice_db_next_gen_dbms.Locking.Manager.{
  LockTarget, table, row, LockManager, Wait, upgrade_wait, table_wait, row_wait, done, enqueue,
  await, await_upgrade, relock_table, lock_table_growing, lock_table, lock_row_growing, lock_row,
  unlock_table, unlock_row, wake, Event, locks_table, locks_row, unlocks_table, unlocks_row, wakes,
  aborts, commits, step, run,
}

-- The states after the first unlock.
abbrev pub is_past : TransactionState → Bool
is_past growing = false
is_past shrinking = true
is_past committed = false
is_past aborted = true

abbrev pub IsPast : ℕ → LockManager → Type 0
IsPast j m = is_past (m.txns j).state ≡ true

module _ (j : ℕ) where
  await-IsPast :
      (t : LockTarget) (i address : ℕ) (f : Transaction → Transaction) (w : Wait) (m : LockManager)
      → ((x : Transaction) → (f x).state ≡ x.state)
      → IsPast j m
      → IsPast j (await t i address f w m).0
  unfolding await
  await-IsPast t i address f w m same p = ground (arith, same (m.txns j))

  await_upgrade-IsPast :
      (i oid address : ℕ) (m : LockManager)
      → IsPast j m
      → IsPast j (await_upgrade i oid address m).0
  unfolding await_upgrade
  await_upgrade-IsPast i oid address m p = ground arith

  enqueue-IsPast :
      (t : LockTarget) (i : ℕ) (mode : LockMode) (oid : ℕ) (rid : Rid) (m : LockManager)
      → IsPast j m
      → IsPast j (enqueue t i mode oid rid m)
  unfolding enqueue
  enqueue-IsPast t i mode oid rid m p = p

  relock_table-IsPast :
      (i : ℕ) (mode : LockMode) (oid : ℕ) (req : LockRequest) (m : LockManager)
      → IsPast j m
      → IsPast j (relock_table i mode oid req m).0
  unfolding relock_table
  relock_table-IsPast i mode oid req m p = ground arith

  lock_table-IsPast :
      (i : ℕ) (mode : LockMode) (oid : ℕ) (m : LockManager)
      → IsPast j m
      → IsPast j (lock_table i mode oid m).0
  unfolding lock_table lock_table_growing
  lock_table-IsPast i mode oid m p =
      grind (arith, relock_table-IsPast, await-IsPast, enqueue-IsPast, record_table_lock_state)

  lock_row-IsPast :
      (i : ℕ) (mode : LockMode) (oid : ℕ) (rid : Rid) (m : LockManager)
      → IsPast j m
      → IsPast j (lock_row i mode oid rid m).0
  unfolding lock_row lock_row_growing
  lock_row-IsPast i mode oid rid m p = ground (
    arith,
    await-IsPast (row rid) i m.next_address (record_row_lock mode oid rid)
        (row_wait i oid m.next_address rid mode) (enqueue (row rid) i mode oid rid m)
        (record_row_lock_state mode oid rid) (enqueue-IsPast (row rid) i mode oid rid m p),
  )

  after_table_unlock_past :
      (oid : ℕ) (x : Transaction)
      → is_past x.state ≡ true
      → is_past (after_table_unlock oid x).state ≡ true
  unfolding after_table_unlock
  after_table_unlock_past oid x p = ground arith

  after_row_unlock_past :
      (force : Bool) (oid : ℕ) (rid : Rid) (x : Transaction)
      → is_past x.state ≡ true
      → is_past (after_row_unlock force oid rid x).state ≡ true
  unfolding after_row_unlock
  after_row_unlock_past force oid rid x p = ground arith

  unlock_table-IsPast :
      (i oid : ℕ) (m : LockManager) → IsPast j m → IsPast j (unlock_table i oid m).0
  unfolding unlock_table
  unlock_table-IsPast i oid m p = ground (arith, after_table_unlock_past oid (m.txns j) p)

  unlock_row-IsPast :
      (i oid : ℕ) (rid : Rid) (force : Bool) (m : LockManager)
      → IsPast j m
      → IsPast j (unlock_row i oid rid force m).0
  unfolding unlock_row
  unlock_row-IsPast i oid rid force m p =
      ground (arith, after_row_unlock_past force oid rid (m.txns j) p)

  step-IsPast : (m : LockManager) (e : Event) → e ≢ commits j → IsPast j m → IsPast j (step m e)
  unfolding step wake
  step-IsPast m (locks_table i mode oid) n p = lock_table-IsPast i mode oid m p
  step-IsPast m (locks_row i mode oid rid) n p = lock_row-IsPast i mode oid rid m p
  step-IsPast m (unlocks_table i oid) n p = unlock_table-IsPast i oid m p
  step-IsPast m (unlocks_row i oid rid force) n p = unlock_row-IsPast i oid rid force m p
  step-IsPast m (wakes (upgrade_wait i oid a)) n p = await_upgrade-IsPast i oid a m p
  step-IsPast m (wakes (table_wait i oid a mode)) n p =
      await-IsPast (table oid) i a _ _ m (record_table_lock_state mode oid) p
  step-IsPast m (wakes (row_wait i oid a rid mode)) n p =
      await-IsPast (row rid) i a _ _ m (record_row_lock_state mode oid rid) p
  step-IsPast m (aborts i) n p = ground arith
  step-IsPast m (commits i) n p = ground arith

  abbrev pub NoCommit : List Event → Type 0
  NoCommit [] = Unit {0}
  NoCommit (e ∷ es) = (e ≢ commits j) × NoCommit es

  run-IsPast : (m : LockManager) (es : List Event) → NoCommit es → IsPast j m → IsPast j (run m es)
  unfolding run
  run-IsPast m [] n p = p
  run-IsPast m (e ∷ es) n p = run-IsPast (step m e) es n.1 (step-IsPast m e n.0 p)

  refuses_table :
      (m : LockManager) (mode : LockMode) (oid : ℕ)
      → IsPast j m
      → (lock_table j mode oid m).1 ≡ done false
  unfolding lock_table
  refuses_table m mode oid p = ground arith

  refuses_row :
      (m : LockManager) (mode : LockMode) (oid : ℕ) (rid : Rid)
      → IsPast j m
      → (lock_row j mode oid rid m).1 ≡ done false
  unfolding lock_row
  refuses_row m mode oid rid p = ground arith

  unlocked-IsPast :
      (m : LockManager) (oid : ℕ)
      → (m.txns j).state ≢ committed
      → (unlock_table j oid m).1 ≡ true
      → IsPast j (unlock_table j oid m).0
  unfolding unlock_table
  unlocked-IsPast m oid n u = ground arith

  -- Once `unlock_table` of a transaction that is not committed has succeeded, every later
  -- `lock_table` and `lock_row` of that transaction fails, whatever the threads do in between short
  -- of committing it.
  pub two_phase :
      (m : LockManager) (oid : ℕ) (es : List Event)
      → (m.txns j).state ≢ committed
      → (unlock_table j oid m).1 ≡ true
      → NoCommit es
      → (mode : LockMode) (oid' : ℕ) (rid : Rid)
      → let after = run (unlock_table j oid m).0 es in
        ((lock_table j mode oid' after).1 ≡ done false)
        × ((lock_row j mode oid' rid after).1 ≡ done false)
  two_phase m oid es n u c mode oid' rid =
      let p = run-IsPast (unlock_table j oid m).0 es c (unlocked-IsPast m oid n u) in
      (refuses_table _ mode oid' p, refuses_row _ mode oid' rid p)
