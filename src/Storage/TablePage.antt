-- ===== src/Storage/TablePage.antt =====
-- `TablePage` of src/storage/table_page.h and table_page.cpp: four words of header, tuples from offset
-- 16 upwards, each behind a word with its size and its deleted bit, and a directory of slots from the
-- end of the page downwards. A tuple is the bytes that `serialize_to` writes, and what `get_tuple`
-- gives is what `deserialize_from` is given.
pub mod Words
pub mod Valid
pub mod Writes
pub mod Insert
pub mod Delete
pub mod Access
mod Tests
use lattice_db_next_gen_dbms.Prelude.{
  ℕ, zero, suc, ◌+◌, ◌-◌, ◌*◌, ◌%◌, ◌^◌, Bool, true, false, not, ◌&&◌, List, Option, none, some,
}
use lattice_db_next_gen_dbms.Prelude.Tests.{◌==◌, ltb, leb, if◌then◌else◌}
use lattice_db_next_gen_dbms.Prelude.Lists.{length}
use lattice_db_next_gen_dbms.Prelude.Bytes.{Memory, read_bytes, write_bytes, to_le, of_le}
use lattice_db_next_gen_dbms.Storage.Page.{page_size}

abbrev pub u32 : ℕ
u32 = 2 ^ 32

-- `TUPLE_DELETED_MASK`: the bit above the size.
abbrev pub deleted_bit : ℕ
deleted_bit = 2 ^ 31

-- `*reinterpret_cast<uint32_t*>(get_data() + offset)`, read and written.
unfoldable pub word : Memory → ℕ → ℕ
word m offset = of_le (read_bytes m offset 4)

unfoldable pub put_word : Memory → ℕ → ℕ → Memory
put_word m offset v = write_bytes m offset (to_le 4 v)

abbrev pub next_tuple_offset : Memory → ℕ
next_tuple_offset m = word m 4

abbrev pub num_tuples : Memory → ℕ
num_tuples m = word m 8

abbrev pub num_deleted_tuples : Memory → ℕ
num_deleted_tuples m = word m 12

-- The place of a slot from the start of the page on, as a difference of addresses: a slot above 1023
-- lies in front of the page.
abbrev pub slot_ptr : ℕ → ℕ
slot_ptr slot_num = (2 ^ 64 + page_size - (slot_num + 1) % u32 * 4) % 2 ^ 64

abbrev pub slot_high_water : Memory → ℕ
slot_high_water m = (num_tuples m + num_deleted_tuples m) % u32

abbrev pub get_tuple_offset_at_slot : Memory → ℕ → ℕ
get_tuple_offset_at_slot m slot_num = word m (slot_ptr slot_num)

-- The four words of an empty page.
unfoldable pub init : Memory → Memory
init m = put_word (put_word (put_word (put_word m 0 16) 4 16) 8 0) 12 0

unfoldable pub get_free_space_remaining : Memory → ℕ
get_free_space_remaining m =
    let slot_bytes = slot_high_water m * 4 % u32 in
    if ltb page_size slot_bytes
    then 0
    else if ltb (page_size - slot_bytes) (next_tuple_offset m)
    then 0
    else page_size - slot_bytes - next_tuple_offset m

abbrev pub is_tuple_deleted : Memory → ℕ → Bool
is_tuple_deleted m offset = leb deleted_bit (word m offset)

abbrev pub get_tuple_size : Memory → ℕ → ℕ
get_tuple_size m offset = word m offset % deleted_bit

unfoldable pub set_tuple_deleted : Memory → ℕ → Memory
set_tuple_deleted m offset =
    put_word m offset
      (if is_tuple_deleted m offset then word m offset else word m offset + deleted_bit)

unfoldable pub set_tuple_size : Memory → ℕ → ℕ → Memory
set_tuple_size m offset size =
    put_word m offset
      (if is_tuple_deleted m offset then size % deleted_bit + deleted_bit else size % deleted_bit)

-- The loop of `find_free_slot` from slot `i`, with `n` slots to go.
unfoldable pub free_slot_from : Memory → ℕ → ℕ → ℕ
free_slot_from m i zero = i
free_slot_from m i (suc n) =
    if get_tuple_offset_at_slot m i == 0 then i else free_slot_from m (i + 1) n

unfoldable pub find_free_slot : Memory → ℕ
find_free_slot m = free_slot_from m 0 (slot_high_water m)

unfoldable pub has_enough_space : Memory → ℕ → Bool
has_enough_space m tuple_size = leb ((8 + tuple_size) % u32) (get_free_space_remaining m)

-- A tuple and the word before it.
unfoldable pub put_tuple : Memory → ℕ → ℕ → List ℕ → Memory
put_tuple m offset size tuple =
    write_bytes (put_word m offset (size % deleted_bit)) (offset + 4) tuple

-- The slot, if there is room.
unfoldable pub insert_tuple : Memory → List ℕ → Memory × Option ℕ
insert_tuple m tuple =
    let size = length tuple % u32 in
    let slot = find_free_slot m in
    let offset = next_tuple_offset m in
    let pointed = put_word m (slot_ptr slot) offset in
    let written = put_tuple pointed offset size tuple in
    let moved = put_word written 4 (offset + 4 + size) in
    if has_enough_space m size
    then (put_word moved 8 (num_tuples moved + 1), some slot)
    else (m, none)

unfoldable pub mark_delete : Memory → ℕ → Memory × Bool
unfolding set_tuple_deleted
mark_delete m slot_num =
    let offset = get_tuple_offset_at_slot m slot_num in
    let marked = set_tuple_deleted m offset in
    let counted = put_word marked 12 (num_deleted_tuples marked + 1) in
    if offset == 0
    then (m, false)
    else if is_tuple_deleted m offset
    then (m, true)
    else if ltb 0 (num_tuples counted)
    then (put_word counted 8 (num_tuples counted - 1), true)
    else (counted, true)

-- In place if the size is the same, else behind the other tuples.
unfoldable pub update_tuple : Memory → List ℕ → ℕ → Memory × Bool
unfolding set_tuple_size put_tuple has_enough_space
update_tuple m tuple slot_num =
    let offset = get_tuple_offset_at_slot m slot_num in
    let size = length tuple % u32 in
    let next = next_tuple_offset m in
    let moved = put_word (put_tuple m next size tuple) 4 (next + 4 + size) in
    if offset == 0
    then (m, false)
    else if is_tuple_deleted m offset
    then (m, false)
    else if size == get_tuple_size m offset
    then (set_tuple_size (write_bytes m (offset + 4) tuple) offset size, true)
    else if has_enough_space m size
    then (put_word moved (slot_ptr slot_num) next, true)
    else (m, false)

unfoldable pub get_tuple : Memory → ℕ → Option (List ℕ)
get_tuple m slot_num =
    let offset = get_tuple_offset_at_slot m slot_num in
    if offset == 0
    then none
    else if is_tuple_deleted m offset
    then none
    else some (read_bytes m (offset + 4) (get_tuple_size m offset))

-- The first slot from `i` on that holds a tuple, with `n` slots to go.
unfoldable pub live_slot_from : Memory → ℕ → ℕ → Option ℕ
live_slot_from m i zero = none
live_slot_from m i (suc n) =
    let offset = get_tuple_offset_at_slot m i in
    if not (offset == 0) && not (is_tuple_deleted m offset)
    then some i
    else live_slot_from m (i + 1) n

unfoldable pub get_first_tuple_rid : Memory → Option ℕ
unfolding live_slot_from
get_first_tuple_rid m = live_slot_from m 0 (slot_high_water m)

unfoldable pub get_next_tuple_rid : Memory → ℕ → Option ℕ
unfolding live_slot_from
get_next_tuple_rid m slot_num =
    let i = (slot_num + 1) % u32 in live_slot_from m i (slot_high_water m - i)

unfoldable pub rollback_delete : Memory → ℕ → Memory
rollback_delete m slot_num =
    let offset = get_tuple_offset_at_slot m slot_num in
    let cleared = put_word m offset (word m offset % deleted_bit) in
    let counted = put_word cleared 8 (num_tuples cleared + 1) in
    if offset == 0
    then m
    else if is_tuple_deleted m offset
    then if ltb 0 (num_deleted_tuples counted)
      then put_word counted 12 (num_deleted_tuples counted - 1)
      else counted
    else m
