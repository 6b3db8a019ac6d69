-- ===== src/Prelude/Names.antt =====
-- `std::string` keys: equality, sets of names, and `std::unordered_map` keyed by a name, as an
-- association list with one entry for a key.
use Prim.Native.String.{String}
use text.Mathlib.Text.{◌==◌ as str_eq}
use text.Mathlib.TextEquality.{eq_iff}
use mathlib.Core.Path.{◌≡◌, refl}
use mathlib.Core.Logic.{◌↔◌}
use mathlib.Core.Bool.{Bool, true, false, ◌||◌}
use mathlib.Core.List.{List, [], ◌∷◌}
use mathlib.Core.Option.{Option, none, some}
use native.Mathlib.Omega.{arith}
use lattice_db_next_gen_dbms.Prelude.Tests.{if◌then◌else◌}

unfoldable pub same : String → String → Bool
same = str_eq

pub same_iff : (a b : String) → (same a b ≡ true) ↔ (a ≡ b)
unfolding same
same_iff = eq_iff

pub same_refl : (a : String) → same a a ≡ true
same_refl a = (same_iff a a).1 refl

-- `std::unordered_set<std::string>`.
unfoldable pub holds : String → List String → Bool
holds k [] = false
holds k (x ∷ xs) = same x k || holds k xs

unfoldable pub add : String → List String → List String
unfolding holds
add k xs = if holds k xs then xs else k ∷ xs

unfoldable pub remove : String → List String → List String
remove k [] = []
remove k (x ∷ xs) = if same x k then remove k xs else x ∷ remove k xs

module _ {ℓ} {A : Type ℓ} where
  -- `find`.
  unfoldable pub lookup : String → List (String × A) → Option A
  lookup key [] = none
  lookup key ((at, a) ∷ rest) = if same at key then some a else lookup key rest

  -- `m[key] = a`.
  unfoldable pub insert : String → A → List (String × A) → List (String × A)
  insert key a [] = (key, a) ∷ []
  insert key a ((at, old) ∷ rest) =
      if same at key then (key, a) ∷ rest else (at, old) ∷ insert key a rest

  -- `erase(key)`.
  unfoldable pub erase : String → List (String × A) → List (String × A)
  erase key [] = []
  erase key ((at, a) ∷ rest) = if same at key then erase key rest else (at, a) ∷ erase key rest

  pub lookup-insert :
      (key other : String) (a : A) (entries : List (String × A))
      → lookup other (insert key a entries)
        ≡ (if same key other then some a else lookup other entries)
  unfolding lookup insert
  lookup-insert key other a [] = refl
  lookup-insert key other a ((at, old) ∷ rest) = ground (
    arith,
    same_iff key other,
    same_iff at key,
    same_iff at other,
    lookup-insert key other a rest,
  )

  pub lookup-erase :
      (key other : String) (entries : List (String × A))
      → lookup other (erase key entries) ≡ (if same key other then none else lookup other entries)
  unfolding lookup erase
  lookup-erase key other [] = ground arith
  lookup-erase key other ((at, old) ∷ rest) =
      ground
        (arith, same_iff key other, same_iff at key, same_iff at other, lookup-erase key other rest)
