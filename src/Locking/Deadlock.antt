-- ===== src/Locking/Deadlock.antt =====
-- The waits-for graph and the cycle detection of src/concurrency/lock_manager.cpp. A set is a list
-- without repetition, visited in its order.
pub mod Walks
pub mod Correct
pub mod Detection
mod Tests
use lattice_db_next_gen_dbms.Prelude.{
  ℕ, zero, suc, ◌+◌, Bool, true, false, not, ◌&&◌, Option, none, some, List, [], ◌∷◌, ◌++◌, max,
}
use lattice_db_next_gen_dbms.Prelude.Tests.{◌==◌, if◌then◌else◌}
use lattice_db_next_gen_dbms.Prelude.Lists.{length}
use lattice_db_next_gen_dbms.Prelude.Dict.{lookup, insert, erase}
use lattice_db_next_gen_dbms.Prelude.Members.{contains, remove_first}
use lattice_db_next_gen_dbms.Locking.Modes.{are_locks_compatible}
use lattice_db_next_gen_dbms.Locking.Queue.{LockRequest, LockRequestQueue}

-- `waits_for_`.
abbrev pub Graph : Type 0
Graph = List (ℕ × List ℕ)

abbrev pub targets : Graph → ℕ → List ℕ
targets g u = elim (lookup u g) [ none ↦ [] | some vs ↦ vs ]

-- `insert` into an unordered set.
unfoldable pub add : ℕ → List ℕ → List ℕ
add k xs = if contains k xs then xs else k ∷ xs

-- `add_edge`.
unfoldable pub add_edge : Graph → ℕ → ℕ → Graph
add_edge g t1 t2 = insert t1 (add t2 (targets g t1)) g

-- `remove_edge`.
unfoldable pub remove_edge : Graph → ℕ → ℕ → Graph
remove_edge g t1 t2 = elim (lookup t1 g) [
  | none ↦ g
  | some vs ↦ elim (remove_first t2 vs) [ [] ↦ erase t1 g | v ∷ rest ↦ insert t1 (v ∷ rest) g ]
]

-- The visited set, the recursion stack as a set, the victim, and whether a cycle was found.
pub record Search : Type 0 where
  pub visited : List ℕ
  pub rec_stack : List ℕ
  pub victim : Option ℕ
  pub found : Bool

infixl 5 ◌>>=◌
abbrev pub ◌>>=◌ : Option Search → (Search → Option Search) → Option Search
none >>= f = none
some s >>= f = f s

-- The loop of `dfs` over the neighbours of `current`; `call` is the recursive call.
unfoldable pub visit_neighbors : (ℕ → Search → Option Search) → ℕ → List ℕ → Search → Option Search
visit_neighbors call current [] s = some s
visit_neighbors call current (n ∷ ns) s = elim (contains n s.rec_stack) [
  | true ↦ some (record s { victim = some (max current n); found = true })
  | false ↦ elim (contains n s.visited) [
    | true ↦ visit_neighbors call current ns s
    | false ↦
        call n s >>= λ t. elim t.found [ true ↦ some t | false ↦ visit_neighbors call current ns t ]
  ]
]

-- `dfs`, at most `fuel` calls deep; `none` if the fuel runs out.
unfoldable pub dfs : ℕ → Graph → ℕ → Search → Option Search
dfs zero g current s = none
dfs (suc fuel) g current s =
    let entered : Search = record s {
      visited = add current s.visited;
      rec_stack = add current s.rec_stack;
    } in
    visit_neighbors (dfs fuel g) current (targets g current) entered >>= λ t.
    some (elim t.found [
      | true ↦ t
      | false ↦ record t { rec_stack = remove_first current t.rec_stack }
    ])

-- The loop of `has_cycle` over the transactions that wait.
unfoldable pub search_from : ℕ → Graph → List (ℕ × List ℕ) → Search → Option Search
search_from fuel g [] s = some s
search_from fuel g ((txn, _) ∷ rest) s = elim (contains txn s.visited) [
  | true ↦ search_from fuel g rest s
  | false ↦
      dfs fuel g txn s >>= λ t. elim t.found [ true ↦ some t | false ↦ search_from fuel g rest t ]
]

abbrev pub new_search : Search
new_search = record { visited = []; rec_stack = []; victim = none; found = false }

-- Every transaction that waits or is waited for.
unfoldable pub universe : Graph → List ℕ
universe [] = []
universe ((u, vs) ∷ g) = u ∷ (vs ++ universe g)

-- `has_cycle`, with fuel for a chain of calls through all transactions.
unfoldable pub has_cycle : Graph → Option Search
has_cycle g = search_from (length (universe g)) g g new_search

-- The targets of one entry, and `get_edge_list`.
abbrev pub edges_from : ℕ → List ℕ → List (ℕ × ℕ)
edges_from u [] = []
edges_from u (v ∷ vs) = (u, v) ∷ edges_from u vs

unfoldable pub get_edge_list : Graph → List (ℕ × ℕ)
get_edge_list [] = []
get_edge_list ((u, vs) ∷ g) = edges_from u vs ++ get_edge_list g

-- The loop of `remove_transaction_edges`.
unfoldable pub without_target : ℕ → Graph → Graph
without_target t [] = []
without_target t ((u, vs) ∷ g) = (u, remove_first t vs) ∷ without_target t g

-- `remove_transaction_edges`.
unfoldable pub remove_transaction_edges : Graph → ℕ → Graph
remove_transaction_edges g t = without_target t (erase t g)

-- The inner loop of `build_edges_for_queue`: the holders that one waiter waits for.
unfoldable pub edges_of_waiter : LockRequest → List LockRequest → Graph → Graph
edges_of_waiter waiter [] g = g
edges_of_waiter waiter (holder ∷ rest) g = edges_of_waiter waiter rest (
    if holder.granted
      && not (holder.txn_id == waiter.txn_id)
      && not (are_locks_compatible holder.lock_mode waiter.lock_mode)
    then add_edge g waiter.txn_id holder.txn_id
    else g)

-- Its outer loop, over the requests that wait.
unfoldable pub edges_of_waiters : List LockRequest → List LockRequest → Graph → Graph
edges_of_waiters [] all g = g
edges_of_waiters (waiter ∷ rest) all g =
    edges_of_waiters rest all (if waiter.granted then g else edges_of_waiter waiter all g)

-- `build_edges_for_queue`.
unfoldable pub build_edges_for_queue : LockRequestQueue → Graph → Graph
build_edges_for_queue q g = edges_of_waiters q.request_queue q.request_queue g

-- `build_wait_for_graph` over the queues of the tables, then those of the rows.
unfoldable pub build_edges : List LockRequestQueue → Graph → Graph
build_edges [] g = g
build_edges (q ∷ qs) g = build_edges qs (build_edges_for_queue q g)

unfoldable pub build_wait_for_graph : List LockRequestQueue → Graph
build_wait_for_graph queues = build_edges queues []

-- One round of `run_cycle_detection` with the queues that it sees: the graph afterwards.
unfoldable pub detection_round : Graph → List LockRequestQueue → Option Graph
detection_round g queues =
    let built = build_wait_for_graph queues in
    elim (has_cycle g) [
      | none ↦ none
      | some s ↦ elim s.found [
        | false ↦ some g
        | true ↦ elim (has_cycle built) [
          | none ↦ none
          | some again ↦ elim (if again.found then again.victim else none) [
            | none ↦ some built
            | some victim ↦ some (remove_transaction_edges built victim)
          ]
        ]
      ]
    ]

-- The thread, over the queues of successive rounds.
unfoldable pub run_cycle_detection : Graph → List (List LockRequestQueue) → Option Graph
run_cycle_detection g [] = some g
run_cycle_detection g (queues ∷ rounds) = elim (detection_round g queues) [
  | none ↦ none
  | some after ↦ run_cycle_detection after rounds
]
