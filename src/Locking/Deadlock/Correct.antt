-- ===== src/Locking/Deadlock/Correct.antt =====
-- The depth-first search of src/concurrency/lock_manager.cpp against the cycles of the graph.
use lattice_db_next_gen_dbms.Prelude.{
  ℕ, zero, suc, ◌≤◌, ◌≡◌, ◌⊎◌, inl, inr, refl, ap, sym, ◌∙◌, subst, true, false, Option, some, List,
  [], ◌∷◌, max, arith,
}
use lattice_db_next_gen_dbms.Prelude.Tests.{◌==◌, ltb, if◌then◌else◌, Bool-cases, ==_iff, ==_refl}
use lattice_db_next_gen_dbms.Prelude.Members.{contains, remove_first}
use lattice_db_next_gen_dbms.Locking.Deadlock.{
  Graph, targets, add, Search, visit_neighbors, dfs, universe,
}
use lattice_db_next_gen_dbms.Locking.Deadlock.Walks.{
  Edge, Walk, one, more, Dead, dead, join, unvisited, unvisited-lt, targets-universe,
}

-- What was visited and left is dead.
pub record IsFine (g : Graph) (s : Search) : Type 0 where
  pub open_search : s.found ≡ false
  pub left_dead : (x : ℕ) → contains x s.visited ≡ true → contains x s.rec_stack ≡ false → Dead g x

-- The victim lies on a cycle.
abbrev pub Blames : Graph → Search → Type 0
Blames g s = (v : ℕ) × (s.victim ≡ some v) × Walk g v v

-- A search that goes on from `s` ends, visits no less, and has found a cycle, or it restores the
-- stack and leaves more behind.
pub record Ends (g : Graph) (s : Search) (r : Option Search) (Left : Type 0) : Type 0 where
  pub search : Search
  pub ends : r ≡ some search
  pub shrinks : unvisited (universe g) search.visited ≤ unvisited (universe g) s.visited
  pub verdict :
      ((search.found ≡ true) × Blames g search)
      ⊎ ((search.rec_stack ≡ s.rec_stack) × IsFine g search × Left)

-- What a call on `n` is given.
pub record IsEntry (g : Graph) (n : ℕ) (s : Search) : Type 0 where
  pub known : contains n (universe g) ≡ true
  pub unseen : contains n s.visited ≡ false
  pub off_stack : contains n s.rec_stack ≡ false
  pub on_path : (x : ℕ) → contains x s.rec_stack ≡ true → Walk g x n
  pub fine : IsFine g s

max_cases : (a b : ℕ) → (max a b ≡ a) ⊎ (max a b ≡ b)
max_cases a b = elim (Bool-cases (ltb a b)) [
  | inl below ↦ inr (ground arith)
  | inr above ↦ inl (ground arith)
]

head_in : (n : ℕ) (ns : List ℕ) → contains n (n ∷ ns) ≡ true
unfolding contains
head_in n ns = rw (==_refl n) refl

not_head :
    (n v : ℕ) (ns : List ℕ) → (n == v) ≡ false → contains v (n ∷ ns) ≡ true → contains v ns ≡ true
unfolding contains
not_head n v ns there h = rw there at h

tail_in : (n v : ℕ) (ns : List ℕ) → contains v ns ≡ true → contains v (n ∷ ns) ≡ true
unfolding contains
tail_in n v ns h = ground arith

-- The rest of the neighbours after one that is dead, in a search that has gone on from `s` to `t`.
with_head :
    {g : Graph} (n : ℕ) (ns : List ℕ) (s t : Search) (r : Option Search)
    → t.rec_stack ≡ s.rec_stack
    → unvisited (universe g) t.visited ≤ unvisited (universe g) s.visited
    → Dead g n
    → Ends g t r ((v : ℕ) → contains v ns ≡ true → Dead g v)
    → Ends g s r ((v : ℕ) → contains v (n ∷ ns) ≡ true → Dead g v)
with_head {g} n ns s t r same less d e =
    let shrunk = e.shrinks in
    record {
      search = e.search;
      ends = e.ends;
      shrinks = omega arith;
      verdict = elim e.verdict [
        | inl cycle ↦ inl cycle
        | inr (kept, fine, rest) ↦ inr (
          kept ∙ same,
          fine,
          λ v h. elim (Bool-cases (n == v)) [
            | inl here ↦ subst (Dead g) ((==_iff n v).0 here) d
            | inr there ↦ rest v (not_head n v ns there h)
          ],
        )
      ];
    }

module _ (g : Graph) (fuel current : ℕ) (call : ℕ → Search → Option Search)
    (call_ends : (n : ℕ) (s : Search)
      → IsEntry g n s
      → unvisited (universe g) s.visited ≤ fuel
      → Ends g s (call n s) (Dead g n)) where
  -- The walk from an entry of the stack to a neighbour of `current`.
  step_on :
      (stack : List ℕ) (n x : ℕ)
      → Edge g current n
      → ((y : ℕ) → contains y stack ≡ true → (y ≡ current) ⊎ Walk g y current)
      → contains x stack ≡ true
      → Walk g x n
  step_on stack n x e path h = elim (path x h) [
    | inl same ↦ subst (λ y. Walk g y n) (sym same) (one e)
    | inr w ↦ more w e
  ]

  -- A neighbour on the stack closes a cycle through itself and `current`.
  victim_on_cycle :
      (s : Search) (n : ℕ)
      → Edge g current n
      → ((y : ℕ) → contains y s.rec_stack ≡ true → (y ≡ current) ⊎ Walk g y current)
      → contains n s.rec_stack ≡ true
      → Blames g (record s { victim = some (max current n); found = true })
  victim_on_cycle s n e path h =
      let through_n : Walk g n n = step_on s.rec_stack n n e path h in
      let through : Walk g current current = elim (path n h) [
        | inl same ↦ subst (λ y. Walk g y y) same through_n
        | inr w ↦ join (one e) w
      ] in
      elim (max_cases current n) [
        | inl is_current ↦ (current, ap some is_current, through)
        | inr is_n ↦ (n, ap some is_n, through_n)
      ]

  visit_neighbors_ends :
      (ns : List ℕ) (s : Search)
      → ((v : ℕ) → contains v ns ≡ true → Edge g current v)
      → ((y : ℕ) → contains y s.rec_stack ≡ true → (y ≡ current) ⊎ Walk g y current)
      → IsFine g s
      → unvisited (universe g) s.visited ≤ fuel
      → Ends g s (visit_neighbors call current ns s) ((v : ℕ) → contains v ns ≡ true → Dead g v)
  unfolding visit_neighbors
  visit_neighbors_ends [] s edges path fine enough = record {
    search = s;
    ends = refl;
    shrinks = omega arith;
    verdict = inr (refl, fine, λ v h. unfold contains in cc);
  }
  visit_neighbors_ends (n ∷ ns) s edges path fine enough =
      elim (Bool-cases (contains n s.rec_stack)) [
        | inl on_stack ↦
            rw (visit_neighbors, on_stack)
              (record {
                search = record s { victim = some (max current n); found = true };
                ends = refl;
                shrinks = omega arith;
                verdict = inl (refl, victim_on_cycle s n (edges n (head_in n ns)) path on_stack);
              })
        | inr off ↦ elim (Bool-cases (contains n s.visited)) [
          | inl seen ↦
              rw (visit_neighbors, off, seen)
                (with_head n ns s s _ refl (omega arith) (fine.left_dead n seen off)
                  (visit_neighbors_ends ns s (λ v h. edges v (tail_in n v ns h)) path fine enough))
          | inr unseen ↦
              let first =
                call_ends n s
                  (record {
                    known = targets-universe g current n (edges n (head_in n ns));
                    unseen = unseen;
                    off_stack = off;
                    on_path = λ x h. step_on s.rec_stack n x (edges n (head_in n ns)) path h;
                    fine = fine;
                  })
                  enough in
              let less = first.shrinks in
              rw (visit_neighbors, off, unseen, first.ends)
                (elim first.verdict [
                  | inl (found, cycle) ↦ rw found (record {
                    search = first.search;
                    ends = refl;
                    shrinks = less;
                    verdict = inl (found, cycle);
                  })
                  | inr (same, fine', dead_n) ↦ rw (fine'.open_search) (
                      with_head n ns s first.search _ same less dead_n (
                        visit_neighbors_ends ns first.search (λ v h. edges v (tail_in n v ns h))
                          (rw same path) fine' (omega arith)))
                ])
        ]
      ]

remove_first_head : (k : ℕ) (xs : List ℕ) → remove_first k (k ∷ xs) ≡ xs
unfolding remove_first
remove_first_head k xs = rw (==_refl k) refl

contains-cons :
    (k x : ℕ) (xs : List ℕ) → contains k (x ∷ xs) ≡ (if x == k then true else contains k xs)
unfolding contains
contains-cons k x xs = refl

-- The state in which the neighbours are visited.
abbrev entered : ℕ → Search → Search
entered current s = record s { visited = current ∷ s.visited; rec_stack = current ∷ s.rec_stack }

entered_path :
    {g : Graph} (n : ℕ) (s : Search)
    → IsEntry g n s
    → (y : ℕ) → contains y (entered n s).rec_stack ≡ true
    → (y ≡ n) ⊎ Walk g y n
entered_path n s entry y h = elim (Bool-cases (n == y)) [
  | inl here ↦ inl (sym ((==_iff n y).0 here))
  | inr there ↦ inr (entry.on_path y (not_head n y s.rec_stack there h))
]

entered-IsFine : {g : Graph} (n : ℕ) (s : Search) → IsEntry g n s → IsFine g (entered n s)
entered-IsFine n s entry = record {
  open_search = entry.fine.open_search;
  left_dead = λ x seen off.
      let ne : (n == x) ≡ false = ground (arith, contains-cons x n s.rec_stack) in
      entry.fine.left_dead x (not_head n x s.visited ne seen)
        (ground (arith, contains-cons x n s.rec_stack));
}

-- Without the current transaction, whose walks end, the stack is as before.
left-IsFine :
    {g : Graph} (n : ℕ) (s t : Search)
    → t.rec_stack ≡ n ∷ s.rec_stack
    → IsFine g t
    → Dead g n
    → IsFine g (record t { rec_stack = s.rec_stack })
left-IsFine {g} n s t same fine d = record {
  open_search = fine.open_search;
  left_dead = λ x seen off. elim (Bool-cases (n == x)) [
    | inl here ↦ subst (Dead g) ((==_iff n x).0 here) d
    | inr there ↦ fine.left_dead x seen (rw same (contains-cons x n s.rec_stack ∙ rw there off))
  ];
}

pub dfs_ends :
    (fuel : ℕ) (g : Graph) (n : ℕ) (s : Search)
    → IsEntry g n s
    → unvisited (universe g) s.visited ≤ fuel
    → Ends g s (dfs fuel g n s) (Dead g n)
unfolding dfs add
dfs_ends zero g n s entry enough =
    absurd (omega (arith, unvisited-lt (universe g) s.visited n entry.known entry.unseen))
dfs_ends (suc fuel) g n s entry enough =
    let less = unvisited-lt (universe g) s.visited n entry.known entry.unseen in
    let all =
      visit_neighbors_ends g fuel n (dfs fuel g) (dfs_ends fuel g) (targets g n) (entered n s)
        (λ v h. h) (entered_path n s entry) (entered-IsFine n s entry) (omega arith) in
    let shrunk = all.shrinks in
    rw (dfs, entry.unseen, entry.off_stack, all.ends)
      (elim all.verdict [
        | inl (found, cycle) ↦ rw found (record {
          search = all.search;
          ends = refl;
          shrinks = omega arith;
          verdict = inl (found, cycle);
        })
        | inr (same, fine, deads) ↦
            let gone : remove_first n all.search.rec_stack ≡ s.rec_stack =
              rw same (remove_first_head n s.rec_stack) in
            rw (fine.open_search) (record {
              search = record (all.search) { rec_stack = remove_first n all.search.rec_stack };
              ends = refl;
              shrinks = omega arith;
              verdict = inr (
                gone,
                rw gone (left-IsFine n s all.search same fine (dead n deads)),
                dead n deads,
              );
            })
      ])
