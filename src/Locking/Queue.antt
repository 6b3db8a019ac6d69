-- ===== src/Locking/Queue.antt =====
-- `LockRequest`, `LockRequestQueue` and `grant_lock` of src/concurrency/lock_manager.h and
-- lock_manager.cpp. A request is a shared pointer: `address` tells requests apart.
pub mod Safety
use lattice_db_next_gen_dbms.Prelude.{
  ℕ, ◌-◌, ◌^◌, Bool, true, false, not, ◌&&◌, List, [], ◌∷◌, ◌++◌, Option, none, some, map,
}
use lattice_db_next_gen_dbms.Prelude.Tests.{◌==◌, if◌then◌else◌}
use lattice_db_next_gen_dbms.Locking.Modes.{LockMode, are_locks_compatible}

abbrev pub invalid_txn_id : ℕ
invalid_txn_id = 2 ^ 32 - 1

pub record Rid : Type 0 where
  pub page_id : ℕ
  pub slot_num : ℕ

unfoldable pub rid_eq : Rid → Rid → Bool
rid_eq a b = a.page_id == b.page_id && a.slot_num == b.slot_num

-- `RID()`: the row of a table lock.
abbrev pub no_rid : Rid
no_rid = record { page_id = 2 ^ 32 - 1; slot_num = 2 ^ 32 - 1 }

pub record LockRequest : Type 0 where
  pub address : ℕ
  pub txn_id : ℕ
  pub lock_mode : LockMode
  pub oid : ℕ
  pub rid : Rid
  pub granted : Bool

pub record LockRequestQueue : Type 0 where
  pub request_queue : List LockRequest
  pub upgrading : ℕ

abbrev pub empty_queue : LockRequestQueue
empty_queue = record { request_queue = []; upgrading = invalid_txn_id }

-- The first request that passes a test.
unfoldable pub find_if : (LockRequest → Bool) → List LockRequest → Option LockRequest
find_if test [] = none
find_if test (r ∷ rs) = if test r then some r else find_if test rs

abbrev pub at : ℕ → LockRequest → Bool
at a r = r.address == a

-- A write through the pointer `a`.
unfoldable pub modify : ℕ → (LockRequest → LockRequest) → List LockRequest → List LockRequest
modify a f [] = []
modify a f (r ∷ rs) = if r.address == a then f r ∷ rs else r ∷ modify a f rs

unfoldable pub erase_request : ℕ → List LockRequest → List LockRequest
erase_request a [] = []
erase_request a (r ∷ rs) = if r.address == a then rs else r ∷ erase_request a rs

abbrev pub grant : LockRequest → LockRequest
grant r = record r { granted = true }

-- "Check compatibility with granted locks".
unfoldable pub fits_granted : LockRequest → List LockRequest → Bool
fits_granted r [] = true
fits_granted r (req ∷ reqs) =
    if req.granted
      && not (req.txn_id == r.txn_id)
      && not (are_locks_compatible req.lock_mode r.lock_mode)
    then false
    else fits_granted r reqs

-- "Check for earlier waiting requests".
unfoldable pub no_earlier_waiter : LockRequest → List LockRequest → Bool
no_earlier_waiter r [] = true
no_earlier_waiter r (req ∷ reqs) =
    if req.address == r.address
    then true
    else if not req.granted && not (req.txn_id == r.txn_id)
    then false
    else no_earlier_waiter r reqs

unfoldable pub can_grant : LockRequest → LockRequestQueue → Bool
can_grant r q =
    not (not (q.upgrading == invalid_txn_id) && not (r.txn_id == q.upgrading))
    && fits_granted r q.request_queue
    && no_earlier_waiter r q.request_queue

-- `grant_lock` of the request at an address.
unfoldable pub grant_lock : ℕ → LockRequestQueue → LockRequestQueue
grant_lock a q = elim (find_if (at a) q.request_queue) [
  | none ↦ q
  | some r ↦
      if can_grant r q then record q { request_queue = modify a grant q.request_queue } else q
]

abbrev pub address_of : LockRequest → ℕ
address_of r = r.address

-- "Grant waiting locks": the loop at the end of `unlock_table` and `unlock_row`, and one round of it.
unfoldable pub grant_if_waiting : ℕ → LockRequestQueue → LockRequestQueue
grant_if_waiting a q = elim (find_if (at a) q.request_queue) [
  | none ↦ q
  | some r ↦ if r.granted then q else grant_lock a q
]

unfoldable pub grant_waiting : List ℕ → LockRequestQueue → LockRequestQueue
grant_waiting [] q = q
grant_waiting (a ∷ rest) q = grant_waiting rest (grant_if_waiting a q)

-- The granted request of a transaction leaves, and the others are looked at in turn.
unfoldable pub release : ℕ → LockRequestQueue → LockRequestQueue
release a q =
    let rest = erase_request a q.request_queue in
    grant_waiting (map address_of rest) (record q { request_queue = rest })
