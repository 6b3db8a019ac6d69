-- ===== src/Prelude/Members.antt =====
-- Lists of identifiers as sets: membership, removal, and lists without a repetition.
use Prim.Native.Nat.{ℕ, zero, suc, ◌-◌, ◌≤◌, ◌<◌}
use mathlib.Core.Path.{◌≡◌, refl}
use mathlib.Core.Bool.{Bool, true, false}
use mathlib.Core.List.{List, [], ◌∷◌, ◌++◌, reverse, reverse-cons}
use native.Mathlib.Omega.{arith}
use lattice_db_next_gen_dbms.Prelude.Tests.{◌==◌, if◌then◌else◌}
use lattice_db_next_gen_dbms.Prelude.Lists.{length, take}

unfoldable pub contains : ℕ → List ℕ → Bool
contains k [] = false
contains k (x ∷ xs) = if x == k then true else contains k xs

-- The first occurrence goes.
unfoldable pub remove_first : ℕ → List ℕ → List ℕ
remove_first k [] = []
remove_first k (x ∷ xs) = if x == k then xs else x ∷ remove_first k xs

unfoldable pub last_or : ℕ → List ℕ → ℕ
last_or d [] = d
last_or d (x ∷ xs) = last_or x xs

unfoldable pub pop_back : List ℕ → List ℕ
pop_back [] = []
pop_back (x ∷ []) = []
pop_back (x ∷ y ∷ ys) = x ∷ pop_back (y ∷ ys)

abbrev pub Distinct : List ℕ → Type 0
Distinct [] = Unit {0}
Distinct (x ∷ xs) = (contains x xs ≡ false) × Distinct xs

pub contains-pos : (k : ℕ) (xs : List ℕ) → contains k xs ≡ true → 0 < length xs
unfolding contains
contains-pos k [] h = cc
contains-pos k (x ∷ xs) h = omega arith

contains-last_or : (x : ℕ) (xs : List ℕ) → contains (last_or x xs) (x ∷ xs) ≡ true
unfolding contains last_or
contains-last_or x [] = ground arith
contains-last_or x (y ∷ ys) = ground (arith, contains-last_or y ys)

pub last_or-ne :
    (x : ℕ) (xs : List ℕ) → 0 < length xs → contains x xs ≡ false → (last_or x xs == x) ≡ false
unfolding contains last_or
last_or-ne x [] m h = absurd (omega arith)
last_or-ne x (y ∷ ys) m h = ground (arith, contains-last_or y ys)

pub contains-remove_first :
    (k j : ℕ) (xs : List ℕ)
    → Distinct xs
    → contains j (remove_first k xs) ≡ (if k == j then false else contains j xs)
unfolding contains remove_first
contains-remove_first k j [] d = ground arith
contains-remove_first k j (x ∷ xs) d = ground (arith, contains-remove_first k j xs d.1)

pub remove_first-Distinct : (k : ℕ) (xs : List ℕ) → Distinct xs → Distinct (remove_first k xs)
unfolding contains remove_first
remove_first-Distinct k [] d = tt
remove_first-Distinct k (x ∷ xs) d =
    ground (arith, contains-remove_first k x xs d.1, remove_first-Distinct k xs d.1)

pub length-remove_first :
    (k : ℕ) (xs : List ℕ)
    → length (remove_first k xs) ≡ (if contains k xs then length xs - 1 else length xs)
unfolding contains remove_first
length-remove_first k [] = refl
length-remove_first k (x ∷ xs) = ground (arith, length-remove_first k xs, contains-pos k xs)

pub remove_first_absent : (k : ℕ) (xs : List ℕ) → contains k xs ≡ false → remove_first k xs ≡ xs
unfolding contains remove_first
remove_first_absent k [] h = refl
remove_first_absent k (x ∷ xs) h = ground (arith, remove_first_absent k xs)

-- The last entry is the one that `pop_back` drops.
pub contains-pop_back :
    (x : ℕ) (xs : List ℕ) (j : ℕ)
    → Distinct (x ∷ xs)
    → contains j (pop_back (x ∷ xs)) ≡ (if last_or x xs == j then false else contains j (x ∷ xs))
unfolding contains pop_back last_or
contains-pop_back x [] j d = ground arith
contains-pop_back x (y ∷ ys) j d =
    ground
      (arith, contains-pop_back y ys j d.1, contains-pop_back y ys x d.1, contains-last_or y ys)

pub pop_back-Distinct : (x : ℕ) (xs : List ℕ) → Distinct (x ∷ xs) → Distinct (pop_back (x ∷ xs))
unfolding pop_back
pop_back-Distinct x [] d = tt
pop_back-Distinct x (y ∷ ys) d =
    ground (arith, pop_back-Distinct y ys d.1, contains-pop_back y ys x d.1)

pub length-pop_back : (x : ℕ) (xs : List ℕ) → length (pop_back (x ∷ xs)) ≡ length xs
unfolding pop_back
length-pop_back x [] = refl
length-pop_back x (y ∷ ys) = omega (arith, length-pop_back y ys)

pub pop_back-take : (x : ℕ) (xs : List ℕ) → pop_back (x ∷ xs) ≡ take (length xs) (x ∷ xs)
unfolding pop_back
pop_back-take x [] = refl
pop_back-take x (y ∷ ys) = ground (arith, pop_back-take y ys)

pub take_of_length-le : (n : ℕ) (xs : List ℕ) → length xs ≤ n → take n xs ≡ xs
take_of_length-le zero [] h = refl
take_of_length-le zero (b ∷ bs) h = absurd (omega arith)
take_of_length-le (suc n) [] h = refl
take_of_length-le (suc n) (b ∷ bs) h = ground (arith, take_of_length-le n bs)

pub contains-append :
    (k : ℕ) (xs ys : List ℕ)
    → contains k (xs ++ ys) ≡ (if contains k xs then true else contains k ys)
unfolding contains
contains-append k [] ys = refl
contains-append k (x ∷ xs) ys = ground (arith, contains-append k xs ys)

pub contains-reverse : (k : ℕ) (xs : List ℕ) → contains k (reverse xs) ≡ contains k xs
unfolding contains
contains-reverse k [] = refl
contains-reverse k (x ∷ xs) =
    rw (reverse-cons x xs, contains-append k (reverse xs) (x ∷ []))
      (ground (arith, contains-reverse k xs))

pub snoc-Distinct :
    (k : ℕ) (xs : List ℕ) → Distinct xs → contains k xs ≡ false → Distinct (xs ++ k ∷ [])
unfolding contains
snoc-Distinct k [] d h = (refl, tt)
snoc-Distinct k (x ∷ xs) d h = ground (arith, snoc-Distinct k xs d.1, contains-append x xs (k ∷ []))
