-- ===== src/Prelude/Dict.antt =====
-- `std::unordered_map` keyed by a 32-bit identifier: an association list with one entry for a key.
use Prim.Native.Nat.{ℕ}
use mathlib.Core.Path.{◌≡◌, refl}
use mathlib.Core.List.{List, [], ◌∷◌}
use mathlib.Core.Option.{Option, none, some}
use native.Mathlib.Omega.{arith}
use lattice_db_next_gen_dbms.Prelude.Tests.{◌==◌, if◌then◌else◌}

module _ {ℓ} {A : Type ℓ} where
  -- `find`.
  unfoldable pub lookup : ℕ → List (ℕ × A) → Option A
  lookup key [] = none
  lookup key ((at, a) ∷ rest) = if at == key then some a else lookup key rest

  -- `m[key] = a`.
  unfoldable pub insert : ℕ → A → List (ℕ × A) → List (ℕ × A)
  insert key a [] = (key, a) ∷ []
  insert key a ((at, old) ∷ rest) =
      if at == key then (key, a) ∷ rest else (at, old) ∷ insert key a rest

  -- `erase(key)`: a key stands at most once, and every entry of the key goes.
  unfoldable pub erase : ℕ → List (ℕ × A) → List (ℕ × A)
  erase key [] = []
  erase key ((at, a) ∷ rest) = if at == key then erase key rest else (at, a) ∷ erase key rest

  pub lookup-insert :
      (key other : ℕ) (a : A) (entries : List (ℕ × A))
      → lookup other (insert key a entries)
        ≡ (if key == other then some a else lookup other entries)
  unfolding lookup insert
  lookup-insert key other a [] = refl
  lookup-insert key other a (e ∷ rest) = ground (arith, lookup-insert key other a rest)

  pub lookup-erase :
      (key other : ℕ) (entries : List (ℕ × A))
      → lookup other (erase key entries) ≡ (if key == other then none else lookup other entries)
  unfolding lookup erase
  lookup-erase key other [] = ground arith
  lookup-erase key other (e ∷ rest) = ground (arith, lookup-erase key other rest)
