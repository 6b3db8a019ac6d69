-- ===== src/Locking/Manager/Tests.antt =====
-- Runs of the lock manager on small histories.
use lattice_db_next_gen_dbms.Prelude.{◌≡◌, refl, true, false, List, [], ◌∷◌, arith}
use lattice_db_next_gen_dbms.Locking.Modes.{shared, exclusive, mode_eq, can_lock_upgrade}
use lattice_db_next_gen_dbms.Locking.Queue.{
  Rid, no_rid, LockRequest, find_if, grant_lock, can_grant, fits_granted, no_earlier_waiter, modify,
}
use lattice_db_next_gen_dbms.Locking.Queue.Safety.{NoConflict}
use lattice_db_next_gen_dbms.Locking.Transaction.{record_table_lock}
use lattice_db_next_gen_dbms.Locking.Manager.{
  LockManager, init, table, Event, locks_table, aborts, run, done, waits, lock_table, lock_row,
  unlock_table, lock_table_growing, enqueue, await, wake, upgrade_wait,
}
use lattice_db_next_gen_dbms.Locking.Manager.Safety.{run-NoConflict}
use lattice_db_next_gen_dbms.Locking.Manager.TwoPhase.{two_phase}
use lattice_db_next_gen_dbms.Locking.Manager.Upgrade.{sole_holder_upgrade_waits}

abbrev three_lockers : List Event
three_lockers = locks_table 1 shared 7 ∷ locks_table 2 shared 7 ∷ locks_table 3 exclusive 7 ∷ []

run-NoConflict_example : NoConflict ((run init three_lockers).queues (table 7)).request_queue
run-NoConflict_example = run-NoConflict three_lockers (table 7)

-- Transaction 1 holds a shared lock on table 7.
abbrev one_holder : LockManager
one_holder = (lock_table 1 shared 7 init).0

abbrev holder_request : LockRequest
holder_request = record {
  address = 0;
  txn_id = 1;
  lock_mode = shared;
  oid = 7;
  rid = no_rid;
  granted = true;
}

abbrev first_row : Rid
first_row = record { page_id = 3; slot_num = 0 }

two_phase_example :
    let after = run (unlock_table 1 7 one_holder).0 (locks_table 2 exclusive 7 ∷ []) in
    ((lock_table 1 shared 8 after).1 ≡ done false)
    × ((lock_row 1 shared 8 first_row after).1 ≡ done false)
unfolding lock_table lock_table_growing enqueue await record_table_lock unlock_table find_if
    grant_lock can_grant fits_granted no_earlier_waiter modify
two_phase_example =
    two_phase 1 one_holder 7 (locks_table 2 exclusive 7 ∷ []) (λ e. ground arith) refl
      (λ e. ground arith, tt) shared 8 first_row

sole_holder_upgrade_waits_example :
    (wake
      (upgrade_wait 1 7 0)
      (run (lock_table 1 exclusive 7 one_holder).0 (locks_table 2 shared 7 ∷ aborts 2 ∷ []))).1
    ≡ waits (upgrade_wait 1 7 0)
unfolding lock_table lock_table_growing enqueue await record_table_lock find_if grant_lock mode_eq
    can_lock_upgrade can_grant fits_granted no_earlier_waiter modify
sole_holder_upgrade_waits_example =
    sole_holder_upgrade_waits 1 7 one_holder holder_request exclusive
      (locks_table 2 shared 7 ∷ aborts 2 ∷ []) (omega arith) refl refl refl refl (omega arith) refl
      refl (λ e. omega arith, (λ e. omega arith, tt))
