-- ===== src/Index/Entries.antt =====
-- The array of entries of an index page, with the loops that move entries, of
-- src/index/b_plus_tree_page.cpp. The array is declared with one element and is the rest of the page:
-- no operation checks the page's end, and neither does the model.
use lattice_db_next_gen_dbms.Prelude.{ℕ, zero, suc, ◌+◌, ◌-◌, ◌≡◌, ◌&&◌, arith}
use lattice_db_next_gen_dbms.Prelude.Tests.{◌==◌, ltb, leb, if◌then◌else◌}

module _ {E : Type 0} where
  abbrev pub put : (ℕ → E) → ℕ → E → ℕ → E
  put a i e j = if i == j then e else a j

  -- `for (i = lo + n; i > lo; --i) array_[i] = array_[i - 1]`.
  unfoldable pub shift_right : (ℕ → E) → ℕ → ℕ → ℕ → E
  shift_right a lo zero = a
  shift_right a lo (suc n) = shift_right (put a (lo + n + 1) (a (lo + n))) lo n

  -- `for (j = lo; j < lo + n; ++j) array_[j] = array_[j + 1]`.
  unfoldable pub shift_left : (ℕ → E) → ℕ → ℕ → ℕ → E
  shift_left a lo zero = a
  shift_left a lo (suc n) = shift_left (put a lo (a (lo + 1))) (lo + 1) n

  -- `for (i = 0; i < n; ++i) to[at + i] = from[start + i]`, the two arrays being different ones.
  unfoldable pub copy : (ℕ → E) → ℕ → (ℕ → E) → ℕ → ℕ → ℕ → E
  copy to at from start zero = to
  copy to at from start (suc n) = copy (put to at (from start)) (at + 1) from (start + 1) n

  pub shift_right_lem :
      (a : ℕ → E) (lo n j : ℕ)
      → shift_right a lo n j ≡ (if ltb lo j && leb j (lo + n) then a (j - 1) else a j)
  unfolding shift_right
  shift_right_lem a lo zero j = ground arith
  shift_right_lem a lo (suc n) j =
      ground (arith, shift_right_lem (put a (lo + n + 1) (a (lo + n))) lo n j)

  pub shift_left_lem :
      (a : ℕ → E) (lo n j : ℕ)
      → shift_left a lo n j ≡ (if leb lo j && ltb j (lo + n) then a (j + 1) else a j)
  unfolding shift_left
  shift_left_lem a lo zero j = ground arith
  shift_left_lem a lo (suc n) j =
      ground (arith, shift_left_lem (put a lo (a (lo + 1))) (lo + 1) n j)

  pub copy_lem :
      (to : ℕ → E) (at : ℕ) (from : ℕ → E) (start n j : ℕ)
      → copy to at from start n j
        ≡ (if leb at j && ltb j (at + n) then from (start + (j - at)) else to j)
  unfolding copy
  copy_lem to at from start zero j = ground arith
  copy_lem to at from start (suc n) j =
      ground (arith, copy_lem (put to at (from start)) (at + 1) from (start + 1) n j)
