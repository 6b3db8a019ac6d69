-- ===== src/Locking/Deadlock/Detection.antt =====
-- `has_cycle` and the detection thread of src/concurrency/lock_manager.cpp.
use lattice_db_next_gen_dbms.Prelude.{
  ℕ, ◌≤◌, ◌≡◌, inl, inr, refl, ◌∙◌, subst, true, Option, none, some, List, [], ◌∷◌, arith,
}
use lattice_db_next_gen_dbms.Prelude.Tests.{
  ◌==◌, if◌then◌else◌, Bool-cases, Option-cases, ==_iff, ==_refl,
}
use lattice_db_next_gen_dbms.Prelude.Lists.{length}
use lattice_db_next_gen_dbms.Prelude.Members.{contains, contains-append}
use lattice_db_next_gen_dbms.Prelude.Dict.{lookup}
use lattice_db_next_gen_dbms.Locking.Queue.{LockRequestQueue}
use lattice_db_next_gen_dbms.Locking.Deadlock.{
  Graph, targets, Search, ◌>>=◌, search_from, new_search, universe, has_cycle, detection_round,
  run_cycle_detection,
}
use lattice_db_next_gen_dbms.Locking.Deadlock.Walks.{
  Walk, Dead, dead, unvisited, unvisited_empty, Dead-no_cycle,
}
use lattice_db_next_gen_dbms.Locking.Deadlock.Correct.{IsFine, Ends, Blames, dfs_ends}

-- The entries name transactions of the universe.
abbrev AllKnown : Graph → Graph → Type 0
AllKnown g [] = Unit {0}
AllKnown g ((u, vs) ∷ rest) = (contains u (universe g) ≡ true) × AllKnown g rest

abbrev AllDead : Graph → Graph → Type 0
AllDead g [] = Unit {0}
AllDead g ((u, vs) ∷ rest) = Dead g u × AllDead g rest

not_in_nil : (x : ℕ) → ¬ (contains x [] ≡ true)
unfolding contains
not_in_nil x h = cc

-- The entries behind one whose transaction is dead.
also :
    {g : Graph} (u : ℕ) (vs : List ℕ) (rest : Graph) (s t : Search) (r : Option Search)
    → t.rec_stack ≡ s.rec_stack
    → unvisited (universe g) t.visited ≤ unvisited (universe g) s.visited
    → Dead g u
    → Ends g t r (AllDead g rest)
    → Ends g s r (AllDead g ((u, vs) ∷ rest))
also u vs rest s t r same less d e =
    let shrunk = e.shrinks in
    record {
      search = e.search;
      ends = e.ends;
      shrinks = omega arith;
      verdict = elim e.verdict [
        | inl blamed ↦ inl blamed
        | inr (kept, fine, deads) ↦ inr (kept ∙ same, fine, (d, deads))
      ];
    }

search_from_ends :
    (fuel : ℕ) (g rest : Graph) (s : Search)
    → AllKnown g rest
    → s.rec_stack ≡ []
    → IsFine g s
    → unvisited (universe g) s.visited ≤ fuel
    → Ends g s (search_from fuel g rest s) (AllDead g rest)
unfolding search_from
search_from_ends fuel g [] s known empty fine enough = record {
  search = s;
  ends = refl;
  shrinks = omega arith;
  verdict = inr (refl, fine, tt);
}
search_from_ends fuel g ((u, vs) ∷ rest) s known empty fine enough =
    elim (Bool-cases (contains u s.visited)) [
      | inl seen ↦
          let d : Dead g u = fine.left_dead u seen (rw empty (unfold contains in refl)) in
          rw (search_from, seen)
            (also u vs rest s s _ refl (omega arith) d
              (search_from_ends fuel g rest s known.1 empty fine enough))
      | inr unseen ↦
          let first =
            dfs_ends fuel g u s
              (record {
                known = known.0;
                unseen = unseen;
                off_stack = rw empty (unfold contains in refl);
                on_path = λ x h. absurd (not_in_nil x (rw empty at h));
                fine = fine;
              })
              enough in
          let less = first.shrinks in
          rw (search_from, unseen, first.ends)
            (elim first.verdict [
              | inl (found, blamed) ↦
                  rw (◌>>=◌, found)
                    (record {
                      search = first.search;
                      ends = refl;
                      shrinks = less;
                      verdict = inl (found, blamed);
                    })
              | inr (same, fine', d) ↦
                  rw (◌>>=◌, fine'.open_search)
                    (also u vs rest s first.search _ same less d (
                      search_from_ends fuel g rest first.search known.1 (same ∙ empty) fine'
                        (omega arith)))
            ])
    ]

AllKnown-tail :
    (g rest : Graph)
    → ((x : ℕ) → contains x (universe rest) ≡ true → contains x (universe g) ≡ true)
    → AllKnown g rest
unfolding universe
AllKnown-tail g [] h = tt
AllKnown-tail g ((u, vs) ∷ rest) h = (
  h u (unfold contains in rw (==_refl u) refl),
  AllKnown-tail g rest
      (λ x i. h x (unfold contains in ground (arith, contains-append x vs (universe rest)))),
)

Dead-lookup :
    (g rest : Graph) (v : ℕ) (vs : List ℕ) → AllDead g rest → lookup v rest ≡ some vs → Dead g v
unfolding lookup
Dead-lookup g [] v vs deads h = cc
Dead-lookup g ((u, us) ∷ rest) v vs deads h = elim (Bool-cases (u == v)) [
  | inl here ↦ subst (Dead g) ((==_iff u v).0 here) deads.0
  | inr there ↦ Dead-lookup g rest v vs deads.1 (rw there at h)
]

targets_absent : (g : Graph) (v : ℕ) → lookup v g ≡ none → targets g v ≡ []
targets_absent g v h = ground arith

all_dead : (g : Graph) (v : ℕ) → AllDead g g → Dead g v
all_dead g v deads = elim (Option-cases (lookup v g)) [
  | inl absent ↦ dead v (λ w e.
      absurd (not_in_nil w (subst (λ vs. contains w vs ≡ true) (targets_absent g v absent) e)))
  | inr (vs, present) ↦ Dead-lookup g g v vs deads present
]

-- For every waits-for graph `has_cycle` ends: with as many nested calls allowed as the graph has
-- entries and edges, the search does not run out. It answers yes only if a cycle exists, and then
-- its victim lies on a cycle; it answers no only if no transaction waits for itself, directly or
-- through others.
pub has_cycle_lem :
    (g : Graph)
    → (s : Search) × (has_cycle g ≡ some s)
      × (if s.found then Blames g s else ((v : ℕ) → ¬ Walk g v v))
unfolding has_cycle
has_cycle_lem g =
    let e =
      search_from_ends (length (universe g)) g g new_search (AllKnown-tail g g (λ x h. h)) refl
        (record { open_search = refl; left_dead = λ x seen off. absurd (not_in_nil x seen) })
        (unvisited_empty (universe g)) in
    (
      e.search,
      e.ends,
      elim e.verdict [
        | inl (found, blamed) ↦ rw found blamed
        | inr (_, fine, deads) ↦
            rw (fine.open_search) (λ v w. Dead-no_cycle v (all_dead g v deads) w)
      ],
    )

-- The detection thread never leaves the empty graph with which the lock manager starts: it builds
-- the graph from the queues only after a cycle was found in the old one. So whatever the queues of
-- its rounds hold, deadlocks included, it finds no cycle.
pub run_cycle_detection_empty :
    (rounds : List (List LockRequestQueue)) → run_cycle_detection [] rounds ≡ some []
unfolding run_cycle_detection
run_cycle_detection_empty [] = refl
run_cycle_detection_empty (queues ∷ rounds) =
    let idle : detection_round [] queues ≡ some [] =
      unfold detection_round in unfold has_cycle in unfold search_from in refl in
    rw (run_cycle_detection, idle) (run_cycle_detection_empty rounds)
