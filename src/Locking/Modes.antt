-- ===== src/Locking/Modes.antt =====
-- `LockMode` of src/common/config.h, and the two tables of src/concurrency/lock_manager.cpp over it.
use lattice_db_next_gen_dbms.Prelude.{◌≡◌, Bool, true, false, not, ◌||◌, arith}

pub data LockMode : Type 0 where
  shared exclusive intention_shared intention_exclusive shared_intention_exclusive : LockMode

unfoldable pub mode_eq : LockMode → LockMode → Bool
mode_eq shared shared = true
mode_eq exclusive exclusive = true
mode_eq intention_shared intention_shared = true
mode_eq intention_exclusive intention_exclusive = true
mode_eq shared_intention_exclusive shared_intention_exclusive = true
mode_eq _ _ = false

unfoldable pub are_locks_compatible : LockMode → LockMode → Bool
unfolding mode_eq
are_locks_compatible shared m = mode_eq m shared || mode_eq m intention_shared
are_locks_compatible exclusive m = false
are_locks_compatible intention_shared m = not (mode_eq m exclusive)
are_locks_compatible intention_exclusive m =
    mode_eq m intention_shared || mode_eq m intention_exclusive
are_locks_compatible shared_intention_exclusive m = mode_eq m intention_shared

unfoldable pub can_lock_upgrade : LockMode → LockMode → Bool
unfolding mode_eq
can_lock_upgrade intention_shared target =
    mode_eq target shared
    || mode_eq target exclusive
    || mode_eq target intention_exclusive
    || mode_eq target shared_intention_exclusive
can_lock_upgrade shared target =
    mode_eq target exclusive || mode_eq target shared_intention_exclusive
can_lock_upgrade intention_exclusive target =
    mode_eq target exclusive || mode_eq target shared_intention_exclusive
can_lock_upgrade shared_intention_exclusive target = mode_eq target exclusive
can_lock_upgrade exclusive target = false

pub are_locks_compatible_comm :
    (a b : LockMode) → are_locks_compatible a b ≡ are_locks_compatible b a
unfolding are_locks_compatible
are_locks_compatible_comm a b = ground arith
