-- ===== src/Index/LeafPage/Contents.antt =====
-- What a leaf holds after an operation.
use lattice_db_next_gen_dbms.Prelude.{
  ℕ, zero, suc, ◌+◌, ◌-◌, ◌/◌, ◌<◌, ◌≤◌, ◌≡◌, refl, ap, true, false, some, arith,
}
use lattice_db_next_gen_dbms.Prelude.Tests.{◌==◌, ltb, if◌then◌else◌}
use lattice_db_next_gen_dbms.Index.Entries.{copy, shift_right_lem, shift_left_lem, copy_lem}
use lattice_db_next_gen_dbms.Index.LeafPage.{
  Sign, nil, is_zero, is_negative, LeafPage, key_at, key_index_from, key_index, find_from, insert,
  lookup, remove_and_delete_record, move_half_to, move_all_to,
}

module _ {K V : Type 0} (comparator : K → K → Sign) where
  -- Where the first entry is whose key is not below the new one.
  key_index_from_bounds :
      (p : LeafPage K V) (key : K) (i n : ℕ)
      → (i ≤ key_index_from comparator p key i n) × (key_index_from comparator p key i n ≤ i + n)
  unfolding key_index_from
  key_index_from_bounds p key i zero = (omega arith, omega arith)
  key_index_from_bounds p key i (suc n) = ground (arith, key_index_from_bounds p key (i + 1) n)

  pub key_index_from_below :
      (p : LeafPage K V) (key : K) (i n j : ℕ)
      → i ≤ j
      → j < key_index_from comparator p key i n
      → is_negative (comparator (key_at p j) key) ≡ true
  unfolding key_index_from
  key_index_from_below p key i zero j h l = absurd (omega arith)
  key_index_from_below p key i (suc n) j h l =
      ground (arith, key_index_from_below p key (i + 1) n j)

  find_from_first :
      (p : LeafPage K V) (key : K) (i n j : ℕ)
      → i ≤ j
      → j < i + n
      → is_zero (comparator (key_at p j) key) ≡ true
      → ((k : ℕ) → i ≤ k → k < j → is_zero (comparator (key_at p k) key) ≡ false)
      → find_from comparator p key i n ≡ some j
  unfolding find_from
  find_from_first p key i zero j lo hi z f = absurd (omega arith)
  find_from_first p key i (suc n) j lo hi z f =
      ground (arith, f i, find_from_first p key (i + 1) n j)

  -- The entries after an insertion: those below keep their place, the others move up by one.
  pub insert_array :
      (p : LeafPage K V) (key : K) (value : V) (j : ℕ)
      → j < p.size + 1
      → (insert comparator p key value).0.array j ≡ (
          if ltb j (key_index comparator p key)
          then p.array j
          else if j == key_index comparator p key
          then (key, value)
          else p.array (j - 1))
  unfolding insert key_index
  insert_array p key value j h =
      let idx = key_index comparator p key in
      ground
        (arith, shift_right_lem p.array idx (p.size - idx) j, key_index_from_bounds p key 0 p.size)

  pub key_index_bound : (p : LeafPage K V) (key : K) → key_index comparator p key ≤ p.size
  unfolding key_index
  key_index_bound p key = omega (arith, key_index_from_bounds p key 0 p.size)

  pub insert_size :
      (p : LeafPage K V) (key : K) (value : V) → (insert comparator p key value).0.size ≡ p.size + 1
  unfolding insert
  insert_size p key value = refl

  -- The new key is found at the place where it was put, whatever stood there before.
  insert_found :
      (p : LeafPage K V) (key : K) (value : V)
      → comparator key key ≡ nil
      → let q = (insert comparator p key value).0 in
        find_from comparator q key 0 q.size ≡ some (key_index comparator p key)
  unfolding key_index
  insert_found p key value same =
      let q = (insert comparator p key value).0 in
      let idx = key_index comparator p key in
      let bounds = key_index_from_bounds p key 0 p.size in
      find_from_first q key 0 q.size idx (omega arith)
        (omega (arith, bounds, insert_size p key value))
        (ground (arith, same, insert_array p key value idx, bounds))
        (λ k lo hi.
          ground (arith, insert_array p key value k, bounds, key_index_from_below p key 0 p.size k))

  -- With a comparator that finds the key equal to itself: a key is looked up, right after its
  -- insertion, with the value it was inserted with, also if it stood in the leaf before; the leaf
  -- has one entry more.
  pub lookup-insert :
      (p : LeafPage K V) (key : K) (value : V)
      → comparator key key ≡ nil
      → (lookup comparator (insert comparator p key value).0 key ≡ some value)
        × ((insert comparator p key value).0.size ≡ p.size + 1)
  unfolding lookup
  lookup-insert p key value same =
      let idx = key_index comparator p key in
      let entry : (insert comparator p key value).0.array idx ≡ (key, value) =
        ground (arith, insert_array p key value idx, key_index_bound p key) in
      (
        rw (lookup, insert_found p key value same) (ap (λ (e : K × V). some e.1) entry),
        insert_size p key value,
      )

  -- With such a comparator: removing a key right after its insertion gives back the entries from
  -- before, in their places, and the size from before.
  pub remove-insert :
      (p : LeafPage K V) (key : K) (value : V)
      → comparator key key ≡ nil
      → let (q, size) = remove_and_delete_record comparator (insert comparator p key value).0 key in
        (q.size ≡ p.size) × (size ≡ p.size) × ((j : ℕ) → j < p.size → q.array j ≡ p.array j)
  unfolding remove_and_delete_record
  remove-insert p key value same =
      let q = (insert comparator p key value).0 in
      let idx = key_index comparator p key in
      rw (remove_and_delete_record, insert_found p key value same)
        (
          omega (arith, insert_size p key value),
          omega (arith, insert_size p key value),
          λ j h. ground (
            arith,
            shift_left_lem q.array idx (q.size - 1 - idx) j,
            insert_size p key value,
            key_index_bound p key,
            insert_array p key value j,
            insert_array p key value (j + 1),
          ),
        )

module _ {K V : Type 0} where
  -- Splitting a leaf into an empty one and merging the two again gives the entries from before, in
  -- their places; in between, no leaf has more than half of them, rounded up.
  pub merge-split :
      (p empty : LeafPage K V)
      → empty.size ≡ 0
      → let (q, r) = move_half_to p empty in
        let (_, merged) = move_all_to r q in
        (merged.size ≡ p.size)
        × ((j : ℕ) → j < p.size → merged.array j ≡ p.array j)
        × (r.size ≤ q.size)
        × (q.size ≤ r.size + 1)
  unfolding move_half_to move_all_to
  merge-split p empty e =
      let half = p.size / 2 in
      (
        omega arith,
        λ j h. ground (
          arith,
          copy_lem p.array (p.size - half)
              (copy empty.array empty.size p.array (p.size - half) half) 0 (empty.size + half) j,
          copy_lem empty.array empty.size p.array (p.size - half) half (j - (p.size - half)),
        ),
        omega arith,
        omega arith,
      )
