-- ===== src/Storage/TablePage/Valid.antt =====
-- When a page is well formed, and what `get_tuple` reads of it.
use lattice_db_next_gen_dbms.Prelude.{
  ℕ, ◌+◌, ◌*◌, ◌%◌, ◌<◌, ◌≤◌, ◌≡◌, ◌≢◌, refl, ◌∙◌, ◌⊎◌, List, some, arith,
}
use lattice_db_next_gen_dbms.Prelude.Bytes.{Memory, read_bytes}
use lattice_db_next_gen_dbms.Storage.Page.{page_size}
use lattice_db_next_gen_dbms.Storage.TablePage.{
  deleted_bit, init, word, next_tuple_offset, num_tuples, num_deleted_tuples,
  get_tuple_offset_at_slot, get_tuple_size, get_tuple,
}
use lattice_db_next_gen_dbms.Storage.TablePage.Words.{word-put_word, word-put_word_apart}

-- How many slots are taken.
abbrev pub slots : Memory → ℕ
slots m = num_tuples m + num_deleted_tuples m

-- Two tuples, with the words before them, do not overlap.
abbrev pub Apart : Memory → ℕ → ℕ → Type 0
Apart m a b = (a + 4 + get_tuple_size m a ≤ b) ⊎ (b + 4 + get_tuple_size m b ≤ a)

-- The tuples lie between the header and `next_tuple_offset`, the slots behind it,
-- and the tuples do not overlap.
pub record IsValid (m : Memory) : Type 0 where
  pub above : 16 ≤ next_tuple_offset m
  pub below : next_tuple_offset m + 4 * slots m ≤ page_size
  pub start : (i : ℕ) → i < slots m → 16 ≤ get_tuple_offset_at_slot m i
  pub end :
      (i : ℕ)
      → i < slots m
      → get_tuple_offset_at_slot m i + 4 + get_tuple_size m (get_tuple_offset_at_slot m i)
        ≤ next_tuple_offset m
  pub apart :
      (i j : ℕ)
      → i < slots m
      → j < slots m
      → i ≢ j
      → Apart m (get_tuple_offset_at_slot m i) (get_tuple_offset_at_slot m j)

-- `get_tuple` reads the slot, the word at its offset and the bytes behind.
pub get_tuple_cong :
    (m t : Memory) (i j : ℕ)
    → get_tuple_offset_at_slot t i ≡ get_tuple_offset_at_slot m j
    → word t (get_tuple_offset_at_slot m j) ≡ word m (get_tuple_offset_at_slot m j)
    → let o = get_tuple_offset_at_slot m j in
      read_bytes t (o + 4) (get_tuple_size m o) ≡ read_bytes m (o + 4) (get_tuple_size m o)
      → get_tuple t i ≡ get_tuple m j
unfolding get_tuple
get_tuple_cong m t i j e f g = rw (e, f, g) refl

pub get_tuple_at :
    (t : Memory) (i o size : ℕ) (tuple : List ℕ)
    → get_tuple_offset_at_slot t i ≡ o
    → word t o ≡ size
    → read_bytes t (o + 4) size ≡ tuple
    → o ≢ 0
    → size < deleted_bit
    → get_tuple t i ≡ some tuple
unfolding get_tuple
get_tuple_at t i o size tuple e f g ne small =
    let exact : size % deleted_bit ≡ size = omega arith in rw (e, f, exact, g) (ground arith)

init_words :
    (m : Memory)
    → (next_tuple_offset (init m) ≡ 16)
      × (num_tuples (init m) ≡ 0)
      × (num_deleted_tuples (init m) ≡ 0)
unfolding init
init_words m = (
  word-put_word_apart _ 12 0 4 (omega arith)
      ∙ word-put_word_apart _ 8 0 4 (omega arith)
      ∙ word-put_word _ 4 16 (omega arith),
  word-put_word_apart _ 12 0 8 (omega arith) ∙ word-put_word _ 8 0 (omega arith),
  word-put_word _ 12 0 (omega arith),
)

-- `init` leaves a valid page without tuples, whatever the bytes were before.
pub init-IsValid : (m : Memory) → IsValid (init m) × (slots (init m) ≡ 0)
init-IsValid m =
    let (next, tuples, deleted) = init_words m in
    let none_taken : slots (init m) ≡ 0 = omega (arith, tuples, deleted) in
    (
      record {
        above = omega (arith, next);
        below = omega (arith, next, none_taken);
        start = λ i h. absurd (omega (arith, none_taken, h));
        end = λ i h. absurd (omega (arith, none_taken, h));
        apart = λ i j h. absurd (omega (arith, none_taken, h));
      },
      none_taken,
    )
