-- ===== src/Storage/TablePage/Writes.antt =====
-- The bytes that `insert_tuple` writes, and those that it leaves.
use lattice_db_next_gen_dbms.Prelude.{ℕ, ◌+◌, ◌≤◌, ◌≡◌, refl, ap, ◌∙◌, ◌⊎◌, List, arith}
use lattice_db_next_gen_dbms.Prelude.Lists.{length}
use lattice_db_next_gen_dbms.Prelude.Bytes.{
  Memory, of_le, read_bytes, write_bytes, to_le, length-to_le, read_bytes-write_bytes,
  read_bytes-write_bytes_apart, write_bytes_outside,
}
use lattice_db_next_gen_dbms.Storage.Page.{page_size}
use lattice_db_next_gen_dbms.Storage.TablePage.{word, put_word}
use lattice_db_next_gen_dbms.Storage.TablePage.Words.{
  word-put_word, word-put_word_apart, word-write_bytes_apart, read_bytes-put_word_apart,
}

-- The writes of `insert_tuple`, for a slot at `sp` and a tuple at `next`.
module _ (m : Memory) (tuple : List ℕ) (sp next count : ℕ) where
  abbrev size : ℕ
  size = length tuple

  abbrev pub inserted : Memory
  inserted =
      put_word
        (put_word (write_bytes (put_word (put_word m sp next) next size) (next + 4) tuple) 4
          (next + 4 + size))
        8 (count + 1)

  -- What lies apart from them reads as before.
  pub kept :
      (p n : ℕ)
      → 12 ≤ p
      → (p + n ≤ next) ⊎ (next + 4 + size ≤ p)
      → (p + n ≤ sp) ⊎ (sp + 4 ≤ p)
      → read_bytes inserted p n ≡ read_bytes m p n
  kept p n low mid slot =
      read_bytes-put_word_apart _ 8 (count + 1) p n (omega arith)
      ∙ read_bytes-put_word_apart _ 4 (next + 4 + size) p n (omega arith)
      ∙ read_bytes-write_bytes_apart _ (next + 4) tuple p n (omega arith)
      ∙ read_bytes-put_word_apart _ next size p n (omega arith)
      ∙ read_bytes-put_word_apart m sp next p n (omega arith)

  module _ (above : 16 ≤ next) (room : next + 4 + size ≤ sp) (within : sp + 4 ≤ page_size) where
    pub kept_word : (p : ℕ) → 12 ≤ p → (p + 4 ≤ next) ⊎ (sp + 4 ≤ p) → word inserted p ≡ word m p
    unfolding word
    kept_word p low apart = ap of_le (kept p 4 low (omega arith) (omega arith))

    pub inserted_next : word inserted 4 ≡ next + 4 + size
    inserted_next =
        word-put_word_apart _ 8 (count + 1) 4 (omega arith)
        ∙ word-put_word _ 4 (next + 4 + size) (omega arith)

    pub inserted_slot : word inserted sp ≡ next
    inserted_slot =
        word-put_word_apart _ 8 (count + 1) sp (omega arith)
        ∙ word-put_word_apart _ 4 (next + 4 + size) sp (omega arith)
        ∙ word-write_bytes_apart _ (next + 4) sp tuple (omega arith)
        ∙ word-put_word_apart _ next size sp (omega arith)
        ∙ word-put_word m sp next (omega arith)

    pub inserted_size : word inserted next ≡ size
    inserted_size =
        word-put_word_apart _ 8 (count + 1) next (omega arith)
        ∙ word-put_word_apart _ 4 (next + 4 + size) next (omega arith)
        ∙ word-write_bytes_apart _ (next + 4) next tuple (omega arith)
        ∙ word-put_word _ next size (omega arith)

    pub inserted_bytes : read_bytes inserted (next + 4) size ≡ tuple
    inserted_bytes =
        read_bytes-put_word_apart _ 8 (count + 1) (next + 4) size (omega arith)
        ∙ read_bytes-put_word_apart _ 4 (next + 4 + size) (next + 4) size (omega arith)
        ∙ read_bytes-write_bytes _ (next + 4) size tuple refl

    pub inserted_outside : (i : ℕ) → page_size ≤ i → inserted i ≡ m i
    unfolding put_word
    inserted_outside i h =
        write_bytes_outside _ 8 (to_le 4 (count + 1)) i (omega (arith, length-to_le 4 (count + 1)))
        ∙ write_bytes_outside _ 4 (to_le 4 (next + 4 + size)) i
            (omega (arith, length-to_le 4 (next + 4 + size)))
        ∙ write_bytes_outside _ (next + 4) tuple i (omega arith)
        ∙ write_bytes_outside _ next (to_le 4 size) i (omega (arith, length-to_le 4 size))
        ∙ write_bytes_outside m sp (to_le 4 next) i (omega (arith, length-to_le 4 next))
