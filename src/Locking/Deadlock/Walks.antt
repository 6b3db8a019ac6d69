-- ===== src/Locking/Deadlock/Walks.antt =====
-- Walks and cycles of the waits-for graph of src/concurrency/lock_manager.cpp.
use lattice_db_next_gen_dbms.Prelude.{
  ℕ, suc, ◌≤◌, ◌<◌, ◌≡◌, ◌⊎◌, inl, inr, true, false, List, [], ◌∷◌, arith,
}
use lattice_db_next_gen_dbms.Prelude.Tests.{if◌then◌else◌, ==_iff}
use lattice_db_next_gen_dbms.Prelude.Lists.{length}
use lattice_db_next_gen_dbms.Prelude.Dict.{lookup}
use lattice_db_next_gen_dbms.Prelude.Members.{contains, contains-append}
use lattice_db_next_gen_dbms.Locking.Deadlock.{Graph, targets, universe}

-- The first transaction waits for the second.
abbrev pub Edge : Graph → ℕ → ℕ → Type 0
Edge g u v = contains v (targets g u) ≡ true

-- One edge or more.
pub data Walk (g : Graph) (u : ℕ) : ℕ → Type 0 where
  one : {v : ℕ} → Edge g u v → Walk g u v
  more : {v w : ℕ} → Walk g u v → Edge g v w → Walk g u w

-- Every walk from the transaction ends.
pub data Dead (g : Graph) : ℕ → Type 0 where
  dead : (u : ℕ) → ((v : ℕ) → Edge g u v → Dead g v) → Dead g u

-- How many entries of the list were not visited.
unfoldable pub unvisited : List ℕ → List ℕ → ℕ
unvisited [] seen = 0
unvisited (x ∷ xs) seen = if contains x seen then unvisited xs seen else suc (unvisited xs seen)

pub unvisited-le : (xs seen : List ℕ) (k : ℕ) → unvisited xs (k ∷ seen) ≤ unvisited xs seen
unfolding unvisited contains
unvisited-le [] seen k = omega arith
unvisited-le (x ∷ xs) seen k = ground (arith, unvisited-le xs seen k)

pub unvisited-lt :
    (xs seen : List ℕ) (k : ℕ)
    → contains k xs ≡ true
    → contains k seen ≡ false
    → unvisited xs (k ∷ seen) < unvisited xs seen
unfolding unvisited contains
unvisited-lt [] seen k h new = cc
unvisited-lt (x ∷ xs) seen k h new =
    ground (arith, unvisited-le xs seen k, unvisited-lt xs seen k, ==_iff x k)

pub unvisited_empty : (xs : List ℕ) → unvisited xs [] ≤ length xs
unfolding unvisited contains
unvisited_empty [] = omega arith
unvisited_empty (x ∷ xs) = omega (arith, unvisited_empty xs)

-- The targets of an edge belong to the universe.
pub targets-universe : (g : Graph) (u v : ℕ) → Edge g u v → contains v (universe g) ≡ true
unfolding universe lookup contains
targets-universe [] u v h = cc
targets-universe ((at, vs) ∷ g) u v h =
    ground (arith, contains-append v vs (universe g), targets-universe g u v)

pub join : {g : Graph} {u v w : ℕ} → Walk g u v → Walk g v w → Walk g u w
join a (one e) = more a e
join a (more b e) = more (join a b) e

-- The first step of a walk, and what is left of it.
first_step :
    {g : Graph} {u w : ℕ} → Walk g u w → (Edge g u w) ⊎ ((v : ℕ) × (Edge g u v) × (Walk g v w))
first_step (one e) = inl e
first_step {w} (more a e) = elim (first_step a) [
  | inl d ↦ inr (_, d, one e)
  | inr (v, d, rest) ↦ inr (v, d, more rest e)
]

pub Dead-no_cycle : {g : Graph} (u : ℕ) → Dead g u → ¬ Walk g u u
Dead-no_cycle _ (dead u f) w = elim (first_step w) [
  | inl e ↦ Dead-no_cycle u (f u e) w
  | inr (v, e, rest) ↦ Dead-no_cycle v (f v e) (more rest e)
]
