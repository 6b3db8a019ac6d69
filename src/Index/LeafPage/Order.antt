-- ===== src/Index/LeafPage/Order.antt =====
-- The order of the keys of a leaf (src/index/b_plus_tree_page.cpp).
use lattice_db_next_gen_dbms.Prelude.{
  ℕ, zero, suc, ◌+◌, ◌-◌, ◌<◌, ◌≤◌, ◌≡◌, Bool, true, false, arith, inl, inr,
}
use lattice_db_next_gen_dbms.Prelude.Tests.{◌==◌, Bool-cases}
use lattice_db_next_gen_dbms.Index.LeafPage.{
  Sign, negative, nil, positive, is_negative, LeafPage, key_at, key_index_from, key_index, insert,
}
use lattice_db_next_gen_dbms.Index.LeafPage.Contents.{
  insert_array, insert_size, key_index_bound, key_index_from_below,
}

abbrev pub opposite : Sign → Sign
opposite negative = positive
opposite nil = nil
opposite positive = negative

abbrev pub is_positive : Sign → Bool
is_positive positive = true
is_positive _ = false

-- What the tree asks of its comparator.
pub record IsOrder {K : Type 0} (comparator : K → K → Sign) : Type 0 where
  pub flips : (a b : K) → comparator b a ≡ opposite (comparator a b)
  pub trans :
      (a b c : K)
      → is_positive (comparator a b) ≡ false
      → is_positive (comparator b c) ≡ false
      → is_positive (comparator a c) ≡ false

module _ {K V : Type 0} (comparator : K → K → Sign) where
  abbrev pub IsSorted : LeafPage K V → Type 0
  IsSorted p =
      (i j : ℕ) → i < j → j < p.size → is_positive (comparator (key_at p i) (key_at p j)) ≡ false

  key_index_from_stops :
      (p : LeafPage K V) (key : K) (i n : ℕ)
      → key_index_from comparator p key i n < i + n
      → is_negative (comparator (key_at p (key_index_from comparator p key i n)) key) ≡ false
  unfolding key_index_from
  key_index_from_stops p key i zero h = absurd (omega arith)
  key_index_from_stops p key i (suc n) h = ground (arith, key_index_from_stops p key (i + 1) n)

  -- Every entry from the new place on has a key that is not below the new one.
  not_below :
      (p : LeafPage K V) (key : K) (j : ℕ)
      → IsOrder comparator
      → IsSorted p
      → key_index comparator p key ≤ j
      → j < p.size
      → is_positive (comparator key (key_at p j)) ≡ false
  unfolding key_index
  not_below p key j o s lo hi =
      let idx = key_index_from comparator p key 0 p.size in
      let at_idx : is_positive (comparator key (key_at p idx)) ≡ false =
        ground (arith, o.flips (key_at p idx) key, key_index_from_stops p key 0 p.size) in
      elim (Bool-cases (idx == j)) [
        | inl same ↦ ground (arith, at_idx)
        | inr other ↦ o.trans key (key_at p idx) (key_at p j) at_idx (s idx j (ground arith) hi)
      ]

  below_index :
      (p : LeafPage K V) (key : K) (i : ℕ)
      → i < key_index comparator p key
      → is_negative (comparator (key_at p i) key) ≡ true
  unfolding key_index
  below_index p key i h = key_index_from_below comparator p key 0 p.size i (omega arith) h

  -- With a comparator that is an order, `insert` keeps the keys in order.
  pub insert-IsSorted :
      (p : LeafPage K V) (key : K) (value : V)
      → IsOrder comparator
      → IsSorted p
      → IsSorted (insert comparator p key value).0
  insert-IsSorted p key value o s i j below within = ground (
    arith,
    insert_size comparator p key value,
    insert_array comparator p key value i,
    insert_array comparator p key value j,
    key_index_bound comparator p key,
    s i j,
    s i (j - 1),
    s (i - 1) (j - 1),
    not_below p key (j - 1) o s,
    below_index p key i,
  )
