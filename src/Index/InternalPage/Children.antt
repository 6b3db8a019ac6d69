-- ===== src/Index/InternalPage/Children.antt =====
-- Which child a key is sent to, and what a merge holds.
use lattice_db_next_gen_dbms.Prelude.{
  ℕ, zero, suc, ◌+◌, ◌-◌, ◌/◌, ◌<◌, ◌≤◌, ◌≡◌, refl, true, false, arith,
}
use lattice_db_next_gen_dbms.Index.Entries.{put, copy, copy_lem}
use lattice_db_next_gen_dbms.Index.LeafPage.{Sign}
use lattice_db_next_gen_dbms.Index.InternalPage.{
  InternalPage, is_at_most, key_at, value_at, child_from, lookup, move_half_to, move_all_to,
}

module _ {K V : Type 0} (comparator : K → K → Sign) where
  child_from_lem :
      (p : InternalPage K V) (key : K) (i n j : ℕ)
      → i ≤ j
      → j ≤ i + n
      → ((k : ℕ) → i ≤ k → k < j → is_at_most (comparator (key_at p k) key) ≡ true)
      → ((k : ℕ) → j ≤ k → k < i + n → is_at_most (comparator (key_at p k) key) ≡ false)
      → child_from comparator p key i n ≡ j
  unfolding child_from
  child_from_lem p key i zero j lo hi f g = omega arith
  child_from_lem p key i (suc n) j lo hi f g =
      ground (arith, f i, g i, child_from_lem p key (i + 1) n j)

  -- A key is sent to the child `c` whose separator is not above the key, with every separator before
  -- it, while every separator behind it is above the key. The first entry has no separator.
  pub lookup_lem :
      (p : InternalPage K V) (key : K) (c : ℕ)
      → c < p.size
      → ((k : ℕ) → 1 ≤ k → k ≤ c → is_at_most (comparator (key_at p k) key) ≡ true)
      → ((k : ℕ) → c < k → k < p.size → is_at_most (comparator (key_at p k) key) ≡ false)
      → lookup comparator p key ≡ value_at p c
  unfolding lookup
  lookup_lem p key c h f g =
      let found : child_from comparator p key 1 (p.size - 1) ≡ c + 1 =
        child_from_lem p key 1 (p.size - 1) (c + 1) (omega arith) (omega arith)
          (λ k lo hi. f k lo (omega arith)) (λ k lo hi. g k (omega arith) (omega arith)) in
      let place : c + 1 - 1 ≡ c = omega arith in rw (found, place) refl

module _ {K V : Type 0} where
  -- Splitting a page of at least two entries into an empty one and merging the two again, with the
  -- separator that the second one began with, gives the entries from before, in their places.
  pub merge-split_internal :
      (p empty : InternalPage K V)
      → empty.size ≡ 0
      → 2 ≤ p.size
      → let (q, r) = move_half_to p empty in
        let (_, merged) = move_all_to r q (key_at r 0) in
        (merged.size ≡ p.size) × ((j : ℕ) → j < p.size → merged.array j ≡ p.array j)
  unfolding move_half_to move_all_to
  merge-split_internal p empty e h =
      let half = p.size / 2 in
      let start = p.size - half in
      let split = copy empty.array empty.size p.array start half in
      (
        omega arith,
        λ j l. ground (
          arith,
          copy_lem (put p.array start (split 0)) (start + 1) split 1 (empty.size + half - 1) j,
          copy_lem empty.array empty.size p.array start half (j - start),
          copy_lem empty.array empty.size p.array start half 0,
        ),
      )
