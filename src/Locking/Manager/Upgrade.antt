-- ===== src/Locking/Manager/Upgrade.antt =====
-- An upgrade by the only holder of a table lock (`lock_table` of src/concurrency/lock_manager.cpp).
use lattice_db_next_gen_dbms.Prelude.{
  ℕ, ◌+◌, ◌≤◌, ◌<◌, ◌≡◌, ◌≢◌, refl, Bool, true, false, List, [], ◌∷◌, ◌++◌, ◌&&◌, ◌⊎◌, inl, inr,
  none, some, arith,
}
use lattice_db_next_gen_dbms.Prelude.Tests.{Option-cases, Bool-cases}
use lattice_db_next_gen_dbms.Locking.Modes.{LockMode, mode_eq, can_lock_upgrade}
use lattice_db_next_gen_dbms.Locking.Queue.{
  Rid, no_rid, LockRequest, LockRequestQueue, invalid_txn_id, find_if, at, modify, erase_request,
  can_grant, grant_lock,
}
use lattice_db_next_gen_dbms.Locking.Transaction.{
  TransactionState, growing, committed, aborted, Transaction, has_table_lock,
  record_table_lock_state, record_row_lock_state, TransactionState-cases, is_growing, is_shrinking,
  is_committed, is_aborted,
}
use lattice_db_next_gen_dbms.Locking.Manager.{
  table, row, LockManager, set_state, of_txn, is_granted_at, Wait, upgrade_wait, table_wait,
  row_wait, waits, enqueue, await, await_upgrade, relock_table, lock_table_growing, lock_table,
  lock_row_growing, lock_row, unlock_table, unlock_row, wake, Event, locks_table, locks_row,
  unlocks_table, unlocks_row, wakes, aborts, commits, step, run,
}

-- Nothing in the queue is granted, and every request was made before `n`.
abbrev pub AllWait : ℕ → List LockRequest → Type 0
AllWait n [] = Unit {0}
AllWait n (r ∷ rs) = (r.granted ≡ false) × (r.address < n) × AllWait n rs

AllWait-mono : (m n : ℕ) (rs : List LockRequest) → m ≤ n → AllWait m rs → AllWait n rs
AllWait-mono m n [] h w = tt
AllWait-mono m n (r ∷ rs) h w = (w.0, omega arith, AllWait-mono m n rs h w.2)

AllWait-erase : (n a : ℕ) (rs : List LockRequest) → AllWait n rs → AllWait n (erase_request a rs)
unfolding erase_request
AllWait-erase n a [] w = tt
AllWait-erase n a (r ∷ rs) w = ground (arith, AllWait-erase n a rs w.2)

AllWait-append :
    (n : ℕ) (r : LockRequest) (rs : List LockRequest)
    → r.granted ≡ false
    → r.address ≡ n
    → AllWait n rs
    → AllWait (n + 1) (rs ++ r ∷ [])
AllWait-append n r [] g e w = (g, omega arith, tt)
AllWait-append n r (x ∷ xs) g e w = (w.0, omega arith, AllWait-append n r xs g e w.2)

find_if-append :
    (n : ℕ) (r : LockRequest) (rs : List LockRequest)
    → r.address ≡ n
    → AllWait n rs
    → find_if (at n) (rs ++ r ∷ []) ≡ some r
unfolding find_if
find_if-append n r [] e w = ground arith
find_if-append n r (x ∷ xs) e w = ground (arith, find_if-append n r xs e w.2)

not_granted_at : (n a : ℕ) (rs : List LockRequest) → AllWait n rs → is_granted_at a rs ≡ false
unfolding find_if
not_granted_at n a [] w = refl
not_granted_at n a (x ∷ xs) w = ground (arith, not_granted_at n a xs w.2)

no_holder :
    (n : ℕ) (test : LockRequest → Bool) (rs : List LockRequest)
    → ((r : LockRequest) → r.granted ≡ false → test r ≡ false)
    → AllWait n rs
    → find_if test rs ≡ none
unfolding find_if
no_holder n test [] h w = refl
no_holder n test (x ∷ xs) h w = ground (arith, h x w.0, no_holder n test xs h w.2)

-- Transaction `i` waits for its upgrade on a table where nobody holds a lock.
pub record IsStuck (i oid : ℕ) (m : LockManager) : Type 0 where
  pub upgrading : (m.queues (table oid)).upgrading ≡ i
  pub valid : i ≢ invalid_txn_id
  pub waiting : AllWait m.next_address (m.queues (table oid)).request_queue
  pub alive : (m.txns i).state ≢ aborted

-- What the threads of other transactions may do meanwhile. No upgrade of another transaction
-- waits on the table, since the queue has one upgrade at a time.
abbrev pub Bystander : ℕ → ℕ → Event → Type 0
Bystander i oid (locks_table k mode o) = k ≢ i
Bystander i oid (locks_row k mode o rid) = k ≢ i
Bystander i oid (unlocks_table k o) = k ≢ i
Bystander i oid (unlocks_row k o rid force) = k ≢ i
Bystander i oid (wakes (upgrade_wait k o a)) = (o ≢ oid) ⊎ (k ≡ i)
Bystander i oid (wakes (table_wait k o a mode)) = Unit
Bystander i oid (wakes (row_wait k o a rid mode)) = Unit
Bystander i oid (aborts k) = k ≢ i
Bystander i oid (commits k) = k ≢ i

module _ (i oid : ℕ) where
  await_table-IsStuck :
      (o k a : ℕ) (f : Transaction → Transaction) (w : Wait) (m : LockManager)
      → ((x : Transaction) → (f x).state ≡ x.state)
      → IsStuck i oid m
      → IsStuck i oid (await (table o) k a f w m).0
  unfolding await
  await_table-IsStuck o k a f w m same s = record {
    upgrading = ground (arith, s.upgrading);
    valid = s.valid;
    waiting = ground (
      arith,
      s.waiting,
      AllWait-erase m.next_address a (m.queues (table oid)).request_queue s.waiting,
    );
    alive = ground (arith, s.alive, same (m.txns i));
  }

  await_row-IsStuck :
      (rid : Rid) (k a : ℕ) (f : Transaction → Transaction) (w : Wait) (m : LockManager)
      → ((x : Transaction) → (f x).state ≡ x.state)
      → IsStuck i oid m
      → IsStuck i oid (await (row rid) k a f w m).0
  unfolding await
  await_row-IsStuck rid k a f w m same s = record {
    upgrading = ground (arith, s.upgrading);
    valid = s.valid;
    waiting = ground (arith, s.waiting);
    alive = ground (arith, s.alive, same (m.txns i));
  }

  await_upgrade-IsStuck :
      (k o a : ℕ) (m : LockManager)
      → (o ≢ oid) ⊎ (k ≡ i)
      → IsStuck i oid m
      → IsStuck i oid (await_upgrade k o a m).0
  unfolding await_upgrade
  await_upgrade-IsStuck k o a m b s = record {
    upgrading = ground (
      arith,
      s.upgrading,
      not_granted_at m.next_address a (m.queues (table oid)).request_queue s.waiting,
    );
    valid = s.valid;
    waiting = ground (arith, s.waiting);
    alive = ground (arith, s.alive);
  }

  -- While `i` upgrades, the request of another transaction is not granted.
  grant_lock_refused :
      (q : LockRequestQueue) (r : LockRequest) (n : ℕ)
      → q.upgrading ≡ i
      → i ≢ invalid_txn_id
      → r.txn_id ≢ i
      → r.address ≡ n
      → AllWait n q.request_queue
      → grant_lock n (record q { request_queue = q.request_queue ++ r ∷ [] })
        ≡ record q { request_queue = q.request_queue ++ r ∷ [] }
  unfolding grant_lock can_grant
  grant_lock_refused q r n u v k e w = ground (arith, find_if-append n r q.request_queue e w)

  enqueue_table-IsStuck :
      (o k : ℕ) (mode : LockMode) (rid : Rid) (m : LockManager)
      → k ≢ i
      → IsStuck i oid m
      → IsStuck i oid (enqueue (table o) k mode o rid m)
  unfolding enqueue
  enqueue_table-IsStuck o k mode rid m n s =
      let request : LockRequest = record {
        address = m.next_address;
        txn_id = k;
        lock_mode = mode;
        oid = o;
        rid = rid;
        granted = false;
      } in
      let refused =
        grant_lock_refused (m.queues (table oid)) request m.next_address s.upgrading s.valid n refl
          s.waiting in
      let longer =
        AllWait-append m.next_address request (m.queues (table oid)).request_queue refl refl
          s.waiting in
      let kept =
        AllWait-mono m.next_address (m.next_address + 1) (m.queues (table oid)).request_queue
          (omega arith) s.waiting in
      record {
        upgrading = ground (arith, s.upgrading, refused);
        valid = s.valid;
        waiting = ground (arith, refused, longer, kept);
        alive = s.alive;
      }

  enqueue_row-IsStuck :
      (o k : ℕ) (mode : LockMode) (rid : Rid) (m : LockManager)
      → IsStuck i oid m
      → IsStuck i oid (enqueue (row rid) k mode o rid m)
  unfolding enqueue
  enqueue_row-IsStuck o k mode rid m s = record {
    upgrading = s.upgrading;
    valid = s.valid;
    waiting = AllWait-mono m.next_address (m.next_address + 1) _ (omega arith) s.waiting;
    alive = s.alive;
  }

  relock_table-IsStuck :
      (k o : ℕ) (mode : LockMode) (req : LockRequest) (m : LockManager)
      → k ≢ i
      → IsStuck i oid m
      → IsStuck i oid (relock_table k mode o req m).0
  unfolding relock_table
  relock_table-IsStuck k o mode req m n s = record {
    upgrading = ground (arith, s.upgrading, s.valid);
    valid = s.valid;
    waiting = ground (arith, s.upgrading, s.valid, s.waiting);
    alive = ground (arith, s.alive);
  }

  set_state-IsStuck :
      (k : ℕ) (x : TransactionState) (m : LockManager)
      → k ≢ i
      → IsStuck i oid m
      → IsStuck i oid (set_state k x m)
  set_state-IsStuck k x m n s = record {
    upgrading = s.upgrading;
    valid = s.valid;
    waiting = s.waiting;
    alive = ground (arith, s.alive);
  }

  lock_table_growing-IsStuck :
      (k o : ℕ) (mode : LockMode) (m : LockManager)
      → k ≢ i
      → IsStuck i oid m
      → IsStuck i oid (lock_table_growing k mode o m).0
  unfolding lock_table_growing
  lock_table_growing-IsStuck k o mode m n s =
      elim (Option-cases (find_if (of_txn k) (m.queues (table o)).request_queue)) [
        | inr (req, e) ↦ rw (e, lock_table_growing) (relock_table-IsStuck k o mode req m n s)
        | inl e ↦
            rw (e, lock_table_growing)
              (await_table-IsStuck o k m.next_address _ _ _ (record_table_lock_state mode o)
                (enqueue_table-IsStuck o k mode no_rid m n s))
      ]

  lock_row_growing-IsStuck :
      (k o : ℕ) (mode : LockMode) (rid : Rid) (m : LockManager)
      → k ≢ i
      → IsStuck i oid m
      → IsStuck i oid (lock_row_growing k mode o rid m).0
  unfolding lock_row_growing
  lock_row_growing-IsStuck k o mode rid m n s =
      elim (Bool-cases (has_table_lock mode o (m.txns k))) [
        | inl h ↦
            rw (h, lock_row_growing)
              (await_row-IsStuck rid k m.next_address _ _ _ (record_row_lock_state mode o rid)
                (enqueue_row-IsStuck o k mode rid m s))
        | inr h ↦ rw (h, lock_row_growing) (set_state-IsStuck k aborted m n s)
      ]

  lock_table-IsStuck :
      (k o : ℕ) (mode : LockMode) (m : LockManager)
      → k ≢ i
      → IsStuck i oid m
      → IsStuck i oid (lock_table k mode o m).0
  unfolding lock_table
  lock_table-IsStuck k o mode m n s =
      let go = lock_table_growing-IsStuck k o mode m n s in
      elim (TransactionState-cases (m.txns k).state) [
        | is_aborted e ↦ rw (e, lock_table) s
        | is_growing e ↦ rw (e, lock_table) go
        | is_shrinking e ↦ rw (e, lock_table) (set_state-IsStuck k aborted m n s)
        | is_committed e ↦ rw (e, lock_table) go
      ]

  lock_row-IsStuck :
      (k o : ℕ) (mode : LockMode) (rid : Rid) (m : LockManager)
      → k ≢ i
      → IsStuck i oid m
      → IsStuck i oid (lock_row k mode o rid m).0
  unfolding lock_row
  lock_row-IsStuck k o mode rid m n s =
      let go = lock_row_growing-IsStuck k o mode rid m n s in
      elim (TransactionState-cases (m.txns k).state) [
        | is_aborted e ↦ rw (e, lock_row) s
        | is_growing e ↦ rw (e, lock_row) go
        | is_shrinking e ↦ rw (e, lock_row) (set_state-IsStuck k aborted m n s)
        | is_committed e ↦ rw (e, lock_row) go
      ]

  -- Nobody holds a lock on the table, so nobody can unlock it.
  unlock_table-IsStuck :
      (k o : ℕ) (m : LockManager) → k ≢ i → IsStuck i oid m → IsStuck i oid (unlock_table k o m).0
  unfolding unlock_table
  unlock_table-IsStuck k o m n s =
      let none_held =
        no_holder m.next_address (λ r. of_txn k r && r.granted) (m.queues (table oid)).request_queue
          (λ r g. ground arith) s.waiting in
      record {
        upgrading = ground (arith, s.upgrading, none_held);
        valid = s.valid;
        waiting = ground (arith, s.waiting, none_held);
        alive = ground (arith, s.alive);
      }

  unlock_row-IsStuck :
      (k o : ℕ) (rid : Rid) (force : Bool) (m : LockManager)
      → k ≢ i
      → IsStuck i oid m
      → IsStuck i oid (unlock_row k o rid force m).0
  unfolding unlock_row
  unlock_row-IsStuck k o rid force m n s = record {
    upgrading = ground (arith, s.upgrading);
    valid = s.valid;
    waiting = ground (arith, s.waiting);
    alive = ground (arith, s.alive);
  }

  step-IsStuck :
      (m : LockManager) (e : Event) → Bystander i oid e → IsStuck i oid m → IsStuck i oid (step m e)
  unfolding step wake
  step-IsStuck m (locks_table k mode o) b s = lock_table-IsStuck k o mode m b s
  step-IsStuck m (locks_row k mode o rid) b s = lock_row-IsStuck k o mode rid m b s
  step-IsStuck m (unlocks_table k o) b s = unlock_table-IsStuck k o m b s
  step-IsStuck m (unlocks_row k o rid force) b s = unlock_row-IsStuck k o rid force m b s
  step-IsStuck m (wakes (upgrade_wait k o a)) b s = await_upgrade-IsStuck k o a m b s
  step-IsStuck m (wakes (table_wait k o a mode)) b s =
      await_table-IsStuck o k a _ _ m (record_table_lock_state mode o) s
  step-IsStuck m (wakes (row_wait k o a rid mode)) b s =
      await_row-IsStuck rid k a _ _ m (record_row_lock_state mode o rid) s
  step-IsStuck m (aborts k) b s = set_state-IsStuck k aborted m b s
  step-IsStuck m (commits k) b s = set_state-IsStuck k committed m b s

  abbrev pub Bystanders : List Event → Type 0
  Bystanders [] = Unit {0}
  Bystanders (e ∷ es) = Bystander i oid e × Bystanders es

  run-IsStuck :
      (m : LockManager) (es : List Event)
      → Bystanders es
      → IsStuck i oid m
      → IsStuck i oid (run m es)
  unfolding run
  run-IsStuck m [] b s = s
  run-IsStuck m (e ∷ es) b s = run-IsStuck (step m e) es b.1 (step-IsStuck m e b.0 s)

  stuck_waits :
      (m : LockManager) (a : ℕ)
      → IsStuck i oid m
      → (wake (upgrade_wait i oid a) m).1 ≡ waits (upgrade_wait i oid a)
  unfolding wake await_upgrade
  stuck_waits m a s = ground (
    arith,
    s.alive,
    not_granted_at m.next_address a (m.queues (table oid)).request_queue s.waiting,
  )

  upgrade_begins :
      (m : LockManager) (req : LockRequest) (mode : LockMode)
      → i ≢ invalid_txn_id
      → (m.txns i).state ≡ growing
      → (m.queues (table oid)).request_queue ≡ req ∷ []
      → (m.queues (table oid)).upgrading ≡ invalid_txn_id
      → req.txn_id ≡ i
      → req.address < m.next_address
      → mode_eq req.lock_mode mode ≡ false
      → can_lock_upgrade req.lock_mode mode ≡ true
      → IsStuck i oid (lock_table i mode oid m).0
  unfolding lock_table lock_table_growing relock_table find_if modify
  upgrade_begins m req mode v g q u t a e c = record {
    upgrading = ground arith;
    valid = v;
    waiting = ground arith;
    alive = ground arith;
  }

  -- A transaction that is alone in a table's queue and asks for a stronger mode waits for ever:
  -- whatever the other transactions do, each time it looks again it has to go on waiting, unless it
  -- is aborted itself.
  pub sole_holder_upgrade_waits :
      (m : LockManager) (req : LockRequest) (mode : LockMode) (es : List Event)
      → i ≢ invalid_txn_id
      → (m.txns i).state ≡ growing
      → (m.queues (table oid)).request_queue ≡ req ∷ []
      → (m.queues (table oid)).upgrading ≡ invalid_txn_id
      → req.txn_id ≡ i
      → req.address < m.next_address
      → mode_eq req.lock_mode mode ≡ false
      → can_lock_upgrade req.lock_mode mode ≡ true
      → Bystanders es
      → let w = upgrade_wait i oid req.address in
        (wake w (run (lock_table i mode oid m).0 es)).1 ≡ waits w
  sole_holder_upgrade_waits m req mode es v g q u t a e c b =
      stuck_waits _ req.address (run-IsStuck _ es b (upgrade_begins m req mode v g q u t a e c))
