-- ===== src/Locking/Deadlock/Tests.antt =====
-- Cycle detection on small graphs.
use lattice_db_next_gen_dbms.Prelude.{ℕ, ◌≡◌, refl, Bool, true, false, some, List, [], ◌∷◌}
use lattice_db_next_gen_dbms.Prelude.Tests.{if◌then◌else◌}
use lattice_db_next_gen_dbms.Prelude.Dict.{lookup}
use lattice_db_next_gen_dbms.Prelude.Members.{contains, remove_first}
use lattice_db_next_gen_dbms.Locking.Modes.{exclusive}
use lattice_db_next_gen_dbms.Locking.Queue.{LockRequest, LockRequestQueue, no_rid}
use lattice_db_next_gen_dbms.Locking.Deadlock.{
  Graph, Search, has_cycle, search_from, dfs, visit_neighbors, add, universe, run_cycle_detection,
}
use lattice_db_next_gen_dbms.Locking.Deadlock.Walks.{Walk}
use lattice_db_next_gen_dbms.Locking.Deadlock.Correct.{Blames}
use lattice_db_next_gen_dbms.Locking.Deadlock.Detection.{has_cycle_lem, run_cycle_detection_empty}

-- 1 waits for 2 and 3, 3 waits for 4, 4 waits for 1.
abbrev ring : Graph
ring = (1, 2 ∷ 3 ∷ []) ∷ (3, 4 ∷ []) ∷ (4, 1 ∷ []) ∷ []

has_cycle_lem_example :
    (s : Search) × (has_cycle ring ≡ some s)
    × (if s.found then Blames ring s else ((v : ℕ) → ¬ Walk ring v v))
has_cycle_lem_example = has_cycle_lem ring

ring_test :
    has_cycle ring
    ≡ some (record {
      visited = 4 ∷ 3 ∷ 2 ∷ 1 ∷ [];
      rec_stack = 4 ∷ 3 ∷ 1 ∷ [];
      victim = some 4;
      found = true;
    })
unfolding has_cycle search_from dfs visit_neighbors add universe contains remove_first lookup
ring_test = refl

-- Two transactions that each hold a row and wait for the other's.
abbrev request : ℕ → ℕ → Bool → LockRequest
request address txn granted = record {
  address = address;
  txn_id = txn;
  lock_mode = exclusive;
  oid = 1;
  rid = no_rid;
  granted = granted;
}

abbrev deadlock : List LockRequestQueue
deadlock =
    record { request_queue = request 10 1 true ∷ request 11 2 false ∷ []; upgrading = 0 }
    ∷ record { request_queue = request 12 2 true ∷ request 13 1 false ∷ []; upgrading = 0 }
    ∷ []

run_cycle_detection_empty_example : run_cycle_detection [] (deadlock ∷ deadlock ∷ []) ≡ some []
run_cycle_detection_empty_example = run_cycle_detection_empty (deadlock ∷ deadlock ∷ [])
