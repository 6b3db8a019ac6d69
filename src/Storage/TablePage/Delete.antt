-- ===== src/Storage/TablePage/Delete.antt =====
-- `mark_delete`, and `rollback_delete` after it.
use lattice_db_next_gen_dbms.Prelude.{
  ℕ, ◌+◌, ◌-◌, ◌%◌, ◌<◌, ◌≤◌, ◌≡◌, ◌≢◌, refl, sym, ap, ◌∙◌, ◌⊎◌, inl, inr, true, false, none, arith,
}
use lattice_db_next_gen_dbms.Prelude.Tests.{◌==◌, ltb, leb, Bool-cases, ==_iff}
use lattice_db_next_gen_dbms.Prelude.Bytes.{Memory, of_le, read_bytes}
use lattice_db_next_gen_dbms.Storage.TablePage.{
  u32, deleted_bit, word, put_word, num_tuples, num_deleted_tuples, slot_ptr,
  get_tuple_offset_at_slot, is_tuple_deleted, set_tuple_deleted, mark_delete, get_tuple,
  rollback_delete,
}
use lattice_db_next_gen_dbms.Storage.TablePage.Words.{
  word-put_word, word-put_word_apart, read_bytes-put_word_apart,
}
use lattice_db_next_gen_dbms.Storage.TablePage.Valid.{slots, IsValid, get_tuple_cong}

-- A change of a tuple's word and of the two counts.
abbrev relabelled : Memory → (offset w tuples deleted : ℕ) → Memory
relabelled m offset w tuples deleted = put_word (put_word (put_word m offset w) 12 deleted) 8 tuples

module _ (m : Memory) (o w n d : ℕ) (above : 16 ≤ o) where
  word-relabelled : w < u32 → word (relabelled m o w n d) o ≡ w
  word-relabelled h =
      word-put_word_apart _ 8 n o (omega arith)
      ∙ word-put_word_apart _ 12 d o (omega arith)
      ∙ word-put_word m o w h

  relabelled_bytes :
      (p k : ℕ)
      → 16 ≤ p
      → (p + k ≤ o) ⊎ (o + 4 ≤ p)
      → read_bytes (relabelled m o w n d) p k ≡ read_bytes m p k
  relabelled_bytes p k low apart =
      read_bytes-put_word_apart _ 8 n p k (omega arith)
      ∙ read_bytes-put_word_apart _ 12 d p k (omega arith)
      ∙ read_bytes-put_word_apart m o w p k apart

  relabelled_elsewhere :
      (p : ℕ) → 16 ≤ p → (p + 4 ≤ o) ⊎ (o + 4 ≤ p) → word (relabelled m o w n d) p ≡ word m p
  unfolding word
  relabelled_elsewhere p low apart = ap of_le (relabelled_bytes p 4 low apart)

  relabelled_counts :
      n < u32
      → d < u32
      → (num_tuples (relabelled m o w n d) ≡ n) × (num_deleted_tuples (relabelled m o w n d) ≡ d)
  relabelled_counts h k =
      (word-put_word _ 8 n h, word-put_word_apart _ 8 n 12 (omega arith) ∙ word-put_word _ 12 d k)

-- A live tuple in slot `i` of a valid page.
module _ (m : Memory) (i : ℕ) (v : IsValid m) (taken : i < slots m)
    (live : is_tuple_deleted m (get_tuple_offset_at_slot m i) ≡ false)
    (some_tuples : 0 < num_tuples m) where
  abbrev offset : ℕ
  offset = get_tuple_offset_at_slot m i

  abbrev marked : Memory
  marked =
      relabelled m offset (word m offset + deleted_bit) (num_tuples m - 1)
        (num_deleted_tuples m + 1)

  small : word m offset < deleted_bit
  small = ground (arith, live)

  mark_delete_runs : mark_delete m i ≡ (marked, true)
  unfolding mark_delete set_tuple_deleted
  mark_delete_runs =
      let low = v.start i taken in
      let held : (offset == 0) ≡ false = ground arith in
      let deleted : num_deleted_tuples (put_word m offset (word m offset + deleted_bit))
          ≡ num_deleted_tuples m =
        word-put_word_apart m offset (word m offset + deleted_bit) 12 (omega arith) in
      let tuples : num_tuples (
            put_word (put_word m offset (word m offset + deleted_bit)) 12
              (num_deleted_tuples m + 1))
          ≡ num_tuples m =
        word-put_word_apart _ 12 (num_deleted_tuples m + 1) 8 (omega arith)
        ∙ word-put_word_apart m offset (word m offset + deleted_bit) 8 (omega arith) in
      let counted : ltb 0 (num_tuples m) ≡ true = ground arith in
      rw (live, held, deleted, tuples, counted) refl

  -- Slots and other tuples read as before.
  marked_offset :
      (j : ℕ) → j < slots m → get_tuple_offset_at_slot marked j ≡ get_tuple_offset_at_slot m j
  marked_offset j h =
      relabelled_elsewhere m offset _ _ _ (v.start i taken) (slot_ptr j)
        (omega (arith, v.above, v.below)) (inr (omega (arith, v.end i taken, v.below)))

  marked_other : (j : ℕ) → j < slots m → i ≢ j → get_tuple marked j ≡ get_tuple m j
  marked_other j h ne =
      let far = v.apart i j taken h ne in
      get_tuple_cong m marked j j (marked_offset j h)
        (relabelled_elsewhere m offset _ _ _ (v.start i taken) (get_tuple_offset_at_slot m j)
          (v.start j h) (omega (arith, far)))
        (relabelled_bytes m offset _ _ _ (v.start i taken) (get_tuple_offset_at_slot m j + 4) _
          (omega (arith, v.start j h)) (omega (arith, far)))

  marked-word : word marked offset ≡ word m offset + deleted_bit
  marked-word = word-relabelled m offset _ _ _ (v.start i taken) (omega (arith, small))

  get_tuple-marked : get_tuple marked i ≡ none
  unfolding get_tuple
  get_tuple-marked =
      let gone : leb deleted_bit (word m offset + deleted_bit) ≡ true = ground arith in
      rw (marked_offset i taken, marked-word, gone) (ground arith)

  abbrev rolled : Memory
  rolled =
      put_word (put_word (put_word marked offset (word m offset)) 8 (num_tuples m)) 12
        (num_deleted_tuples m)

  rolled_bytes :
      (p k : ℕ)
      → 16 ≤ p
      → (p + k ≤ offset) ⊎ (offset + 4 ≤ p)
      → read_bytes rolled p k ≡ read_bytes m p k
  rolled_bytes p k low apart =
      read_bytes-put_word_apart _ 12 (num_deleted_tuples m) p k (omega arith)
      ∙ read_bytes-put_word_apart _ 8 (num_tuples m) p k (omega arith)
      ∙ read_bytes-put_word_apart marked offset (word m offset) p k apart
      ∙ relabelled_bytes m offset _ _ _ (v.start i taken) p k low apart

  rolled_elsewhere :
      (p : ℕ) → 16 ≤ p → (p + 4 ≤ offset) ⊎ (offset + 4 ≤ p) → word rolled p ≡ word m p
  unfolding word
  rolled_elsewhere p low apart = ap of_le (rolled_bytes p 4 low apart)

  rolled-word : word rolled offset ≡ word m offset
  rolled-word =
      let low = v.start i taken in
      word-put_word_apart _ 12 (num_deleted_tuples m) offset (omega arith)
      ∙ word-put_word_apart _ 8 (num_tuples m) offset (omega arith)
      ∙ word-put_word marked offset (word m offset) (omega (arith, small))

  rolled_offset :
      (j : ℕ) → j < slots m → get_tuple_offset_at_slot rolled j ≡ get_tuple_offset_at_slot m j
  rolled_offset j h =
      rolled_elsewhere (slot_ptr j) (omega (arith, v.above, v.below))
        (inr (omega (arith, v.end i taken, v.below)))

  rolled_same : get_tuple rolled i ≡ get_tuple m i
  rolled_same =
      get_tuple_cong m rolled i i (rolled_offset i taken) rolled-word
        (rolled_bytes (offset + 4) _ (omega (arith, v.start i taken)) (inr (omega arith)))

  rolled_other : (j : ℕ) → j < slots m → i ≢ j → get_tuple rolled j ≡ get_tuple m j
  rolled_other j h ne =
      let far = v.apart i j taken h ne in
      get_tuple_cong m rolled j j (rolled_offset j h)
        (rolled_elsewhere (get_tuple_offset_at_slot m j) (v.start j h) (omega (arith, far)))
        (rolled_bytes (get_tuple_offset_at_slot m j + 4) _ (omega (arith, v.start j h))
          (omega (arith, far)))

  rollback_delete_runs : rollback_delete marked i ≡ rolled
  unfolding rollback_delete
  rollback_delete_runs =
      let low = v.start i taken in
      let counts =
        relabelled_counts m offset (word m offset + deleted_bit) (num_tuples m - 1)
          (num_deleted_tuples m + 1) low (omega (arith, v.below)) (omega (arith, v.below)) in
      let held : (offset == 0) ≡ false = ground arith in
      let gone : leb deleted_bit (word m offset + deleted_bit) ≡ true = ground arith in
      let bare : (word m offset + deleted_bit) % deleted_bit ≡ word m offset =
        omega (arith, small) in
      let cleared = put_word marked offset (word m offset) in
      let tuples : num_tuples cleared + 1 ≡ num_tuples m =
        omega (arith, counts, word-put_word_apart marked offset (word m offset) 8 (omega arith)) in
      let deleted : num_deleted_tuples (put_word cleared 8 (num_tuples m))
          ≡ num_deleted_tuples m + 1 =
        word-put_word_apart cleared 8 (num_tuples m) 12 (omega arith)
        ∙ word-put_word_apart marked offset (word m offset) 12 (omega arith)
        ∙ counts.1 in
      let counted : ltb 0 (num_deleted_tuples m + 1) ≡ true = ground arith in
      let back : num_deleted_tuples m + 1 - 1 ≡ num_deleted_tuples m = omega arith in
      rw (marked_offset i taken, held, marked-word, gone, bare, tuples, deleted, counted, back) refl

-- For a slot of a valid page whose tuple is not deleted, where the page counts some tuple:
-- `mark_delete` answers true, `get_tuple` then gives no tuple for the slot and for every other slot
-- what it gave before, and after `rollback_delete` it gives for every slot what it gave before.
pub mark_delete_lem :
    (m : Memory) (i : ℕ)
    → IsValid m
    → i < slots m
    → is_tuple_deleted m (get_tuple_offset_at_slot m i) ≡ false
    → 0 < num_tuples m
    → let (t, ok) = mark_delete m i in
      (ok ≡ true)
      × (get_tuple t i ≡ none)
      × ((j : ℕ) → j < slots m → i ≢ j → get_tuple t j ≡ get_tuple m j)
      × ((j : ℕ) → j < slots m → get_tuple (rollback_delete t i) j ≡ get_tuple m j)
mark_delete_lem m i v taken live n =
    rw (mark_delete_runs m i v taken live n, rollback_delete_runs m i v taken live n)
      (
        refl,
        get_tuple-marked m i v taken live n,
        marked_other m i v taken live n,
        λ j h. elim (Bool-cases (i == j)) [
          | inl same ↦ rw (sym ((==_iff i j).0 same)) (rolled_same m i v taken live n)
          | inr other ↦ rolled_other m i v taken live n j h (λ e. ground (arith, e))
        ],
      )
