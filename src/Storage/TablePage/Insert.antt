-- ===== src/Storage/TablePage/Insert.antt =====
-- `insert_tuple` of src/storage/table_page.cpp on a well-formed page.
use lattice_db_next_gen_dbms.Prelude.{
  ℕ, zero, suc, ◌+◌, ◌-◌, ◌*◌, ◌%◌, ◌<◌, ◌≤◌, ◌≡◌, ◌≢◌, refl, ◌∙◌, ◌⊎◌, inl, inr, true, false, List,
  Option, none, some, arith,
}
use lattice_db_next_gen_dbms.Prelude.Tests.{◌==◌, leb, Bool-cases, leb→le, ==_iff}
use lattice_db_next_gen_dbms.Prelude.Lists.{length}
use lattice_db_next_gen_dbms.Prelude.Bytes.{Memory, write_bytes}
use lattice_db_next_gen_dbms.Storage.Page.{page_size}
use lattice_db_next_gen_dbms.Storage.TablePage.{
  u32, deleted_bit, word, put_word, next_tuple_offset, num_tuples, slot_ptr, slot_high_water,
  get_tuple_offset_at_slot, get_free_space_remaining, get_tuple_size, free_slot_from,
  find_free_slot, has_enough_space, put_tuple, insert_tuple, get_tuple,
}
use lattice_db_next_gen_dbms.Storage.TablePage.Valid.{
  slots, IsValid, Apart, get_tuple_cong, get_tuple_at,
}
use lattice_db_next_gen_dbms.Storage.TablePage.Writes.{
  inserted, kept, kept_word, inserted_next, inserted_slot, inserted_size, inserted_bytes,
  inserted_outside,
}
use lattice_db_next_gen_dbms.Storage.TablePage.Words.{
  word-put_word, word-put_word_apart, word-write_bytes_apart,
}

free_slot_from_lem :
    (m : Memory) (i n : ℕ)
    → ((j : ℕ) → j < i + n → 16 ≤ get_tuple_offset_at_slot m j)
    → free_slot_from m i n ≡ i + n
unfolding free_slot_from
free_slot_from_lem m i zero h = omega arith
free_slot_from_lem m i (suc n) h = ground (arith, h i, free_slot_from_lem m (i + 1) n)

find_free_slot_lem : (m : Memory) → IsValid m → find_free_slot m ≡ slots m
unfolding find_free_slot
find_free_slot_lem m v =
    let whole : slot_high_water m ≡ slots m = omega (arith, v.below) in
    rw whole (free_slot_from_lem m 0 (slots m) (λ j h. v.start j (omega arith)) ∙ omega arith)

free_space_lem :
    (m : Memory)
    → IsValid m
    → get_free_space_remaining m ≡ page_size - 4 * slots m - next_tuple_offset m
unfolding get_free_space_remaining
free_space_lem m v = ground (arith, v.below)

-- The page `t` is `m` with the tuple in `slot`.
pub record Inserted (m t : Memory) (tuple : List ℕ) (slot : ℕ) : Type 0 where
  pub valid : IsValid t
  pub one_more : slots t ≡ slot + 1
  pub found : get_tuple t slot ≡ some tuple
  pub others : (i : ℕ) → i < slots m → get_tuple t i ≡ get_tuple m i
  pub outside : (i : ℕ) → page_size ≤ i → t i ≡ m i

module _ (m : Memory) (tuple : List ℕ) (v : IsValid m)
    (room : 8 + length tuple ≤ page_size - 4 * slots m - next_tuple_offset m) where
  abbrev after : Memory
  after = inserted m tuple (slot_ptr (slots m)) (next_tuple_offset m) (num_tuples m)

  fits : next_tuple_offset m + 4 + length tuple ≤ slot_ptr (slots m)
  fits = omega arith

  in_page : slot_ptr (slots m) + 4 ≤ page_size
  in_page = omega (arith, v.below)

  word_kept :
      (p : ℕ)
      → 12 ≤ p
      → (p + 4 ≤ next_tuple_offset m) ⊎ (slot_ptr (slots m) + 4 ≤ p)
      → word after p ≡ word m p
  word_kept =
      kept_word m tuple (slot_ptr (slots m)) (next_tuple_offset m) (num_tuples m) v.above fits
        in_page

  slot_taken : slots after ≡ slots m + 1
  slot_taken =
      let counted : num_tuples after ≡ num_tuples m + 1 =
        word-put_word _ 8 (num_tuples m + 1) (omega (arith, v.below)) in
      omega (arith, counted, word_kept 12 (omega arith) (inl (omega (arith, v.above))))

  after_offset :
      (i : ℕ) → i < slots m → get_tuple_offset_at_slot after i ≡ get_tuple_offset_at_slot m i
  after_offset i h = word_kept (slot_ptr i) (omega arith) (inr (omega (arith, v.below)))

  after_size :
      (i : ℕ)
      → i < slots m
      → word after (get_tuple_offset_at_slot m i) ≡ word m (get_tuple_offset_at_slot m i)
  after_size i h =
      word_kept (get_tuple_offset_at_slot m i) (omega (arith, v.start i h))
        (inl (omega (arith, v.end i h)))

  new_offset : get_tuple_offset_at_slot after (slots m) ≡ next_tuple_offset m
  new_offset =
      inserted_slot m tuple (slot_ptr (slots m)) (next_tuple_offset m) (num_tuples m) v.above fits
        in_page

  new_size : word after (next_tuple_offset m) ≡ length tuple
  new_size =
      inserted_size m tuple (slot_ptr (slots m)) (next_tuple_offset m) (num_tuples m) v.above fits
        in_page

  new_next : next_tuple_offset after ≡ next_tuple_offset m + 4 + length tuple
  new_next =
      inserted_next m tuple (slot_ptr (slots m)) (next_tuple_offset m) (num_tuples m) v.above fits
        in_page

  after_start : (i : ℕ) → i < slots after → 16 ≤ get_tuple_offset_at_slot after i
  after_start i h = elim (Bool-cases (i == slots m)) [
    | inl last ↦ rw ((==_iff i (slots m)).0 last, new_offset) v.above
    | inr earlier ↦
        let before : i < slots m = ground (arith, slot_taken) in
        rw (after_offset i before) (v.start i before)
  ]

  after_end :
      (i : ℕ)
      → i < slots after
      → get_tuple_offset_at_slot after i
          + 4
          + get_tuple_size after (get_tuple_offset_at_slot after i)
        ≤ next_tuple_offset after
  after_end i h = elim (Bool-cases (i == slots m)) [
    | inl last ↦ rw ((==_iff i (slots m)).0 last, new_offset, new_size, new_next) (omega arith)
    | inr earlier ↦
        let before : i < slots m = ground (arith, slot_taken) in
        rw (after_offset i before, after_size i before, new_next) (omega (arith, v.end i before))
  ]

  after-Apart :
      (i j : ℕ)
      → i < slots after
      → j < slots after
      → i ≢ j
      → Apart after (get_tuple_offset_at_slot after i) (get_tuple_offset_at_slot after j)
  after-Apart i j h k ne = elim (Bool-cases (i == slots m)) [
    | inl i_last ↦
        let j_before : j < slots m = ground (arith, slot_taken) in
        rw
          (
            (==_iff i (slots m)).0 i_last,
            new_offset,
            after_offset j j_before,
            after_size j j_before,
          )
          (inr (v.end j j_before))
    | inr i_early ↦
        let i_before : i < slots m = ground (arith, slot_taken) in
        elim (Bool-cases (j == slots m)) [
          | inl j_last ↦
              rw
                (
                  (==_iff j (slots m)).0 j_last,
                  new_offset,
                  after_offset i i_before,
                  after_size i i_before,
                )
                (inl (v.end i i_before))
          | inr j_early ↦
              let j_before : j < slots m = ground (arith, slot_taken) in
              rw
                (
                  after_offset i i_before,
                  after_offset j j_before,
                  after_size i i_before,
                  after_size j j_before,
                )
                (v.apart i j i_before j_before ne)
        ]
  ]

  after-Inserted : Inserted m after tuple (slots m)
  after-Inserted = record {
    valid = record {
      above = omega (arith, new_next);
      below = omega (arith, new_next, slot_taken);
      start = after_start;
      end = after_end;
      apart = after-Apart;
    };
    one_more = slot_taken;
    found =
        get_tuple_at after (slots m) (next_tuple_offset m) (length tuple) tuple new_offset new_size
          (inserted_bytes m tuple (slot_ptr (slots m)) (next_tuple_offset m) (num_tuples m) v.above
            fits in_page)
          (omega (arith, v.above)) (omega arith);
    others = λ i h. get_tuple_cong m after i i (after_offset i h) (after_size i h) (
        kept m tuple (slot_ptr (slots m)) (next_tuple_offset m) (num_tuples m)
          (get_tuple_offset_at_slot m i + 4) (get_tuple_size m (get_tuple_offset_at_slot m i))
          (omega (arith, v.start i h)) (inl (omega (arith, v.end i h)))
          (inl (omega (arith, v.end i h, v.below))));
    outside =
        inserted_outside m tuple (slot_ptr (slots m)) (next_tuple_offset m) (num_tuples m) v.above
          fits in_page;
  }

pub data InsertResult (m : Memory) (tuple : List ℕ) (r : Memory × Option ℕ) : Type 0 where
  stored :
      (t : Memory)
      → 8 + length tuple ≤ page_size - 4 * slots m - next_tuple_offset m
      → r ≡ (t, some (slots m))
      → Inserted m t tuple (slots m)
      → InsertResult m tuple r
  full :
      page_size - 4 * slots m - next_tuple_offset m < 8 + length tuple
      → r ≡ (m, none)
      → InsertResult m tuple r

pub InsertResult-IsValid :
    (m : Memory) (tuple : List ℕ) (r : Memory × Option ℕ)
    → IsValid m
    → InsertResult m tuple r
    → IsValid r.0
InsertResult-IsValid m tuple r v (stored t room e new) = rw e new.valid
InsertResult-IsValid m tuple r v (full short e) = rw e v

-- The branch that stores: the writes are those of `inserted`.
insert_tuple_runs :
    (m : Memory) (tuple : List ℕ)
    → IsValid m
    → 8 + length tuple ≤ page_size - 4 * slots m - next_tuple_offset m
    → insert_tuple m tuple
      ≡ (inserted m tuple (slot_ptr (slots m)) (next_tuple_offset m) (num_tuples m), some (slots m))
unfolding insert_tuple has_enough_space put_tuple
insert_tuple_runs m tuple v room =
    let whole : length tuple % u32 ≡ length tuple = omega arith in
    let small : length tuple % deleted_bit ≡ length tuple = omega arith in
    let enough : leb ((8 + length tuple) % u32) (page_size - 4 * slots m - next_tuple_offset m)
        ≡ true =
      ground arith in
    let next = next_tuple_offset m in
    let pointed = put_word m (slot_ptr (slots m)) next in
    let sized = put_word pointed next (length tuple) in
    let count : word (put_word (write_bytes sized (next + 4) tuple) 4 (next + 4 + length tuple)) 8
        ≡ num_tuples m =
      word-put_word_apart _ 4 (next + 4 + length tuple) 8 (omega arith)
      ∙ word-write_bytes_apart sized (next + 4) 8 tuple (omega (arith, v.above))
      ∙ word-put_word_apart pointed next (length tuple) 8 (omega (arith, v.above))
      ∙ word-put_word_apart m (slot_ptr (slots m)) next 8 (omega (arith, v.above, v.below)) in
    rw (whole, find_free_slot_lem m v, free_space_lem m v, enough, small, count) refl

insert_tuple_full :
    (m : Memory) (tuple : List ℕ)
    → IsValid m
    → 8 + length tuple < u32
    → page_size - 4 * slots m - next_tuple_offset m < 8 + length tuple
    → insert_tuple m tuple ≡ (m, none)
unfolding insert_tuple has_enough_space
insert_tuple_full m tuple v fits_u32 h =
    let whole : length tuple % u32 ≡ length tuple = omega arith in
    let refused : leb ((8 + length tuple) % u32) (page_size - 4 * slots m - next_tuple_offset m)
        ≡ false =
      ground arith in
    rw (whole, free_space_lem m v, refused) refl

-- On a valid page, for a tuple of less than 2 ^ 32 - 8 bytes: if the bytes between the tuples and
-- the slots hold the tuple, a size word and a slot, `insert_tuple` takes the next slot,
-- `get_tuple` of that slot gives the tuple, `get_tuple` of every other slot what it gave before,
-- the page stays valid and no byte outside the page is written; otherwise the page does not change
-- and there is no slot.
pub insert_tuple_lem :
    (m : Memory) (tuple : List ℕ)
    → IsValid m
    → 8 + length tuple < u32
    → InsertResult m tuple (insert_tuple m tuple)
insert_tuple_lem m tuple v small =
    elim (Bool-cases (leb (8 + length tuple) (page_size - 4 * slots m - next_tuple_offset m))) [
      | inl enough ↦
          let room = leb→le _ _ enough in
          stored _ room (insert_tuple_runs m tuple v room) (after-Inserted m tuple v room)
      | inr short ↦
          let room : page_size - 4 * slots m - next_tuple_offset m < 8 + length tuple =
            ground arith in
          full room (insert_tuple_full m tuple v small room)
    ]
