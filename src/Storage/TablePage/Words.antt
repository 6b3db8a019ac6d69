-- ===== src/Storage/TablePage/Words.antt =====
-- Words of a page, read and written.
use lattice_db_next_gen_dbms.Prelude.{ℕ, ◌+◌, ◌<◌, ◌≤◌, ◌≡◌, ap, ◌∙◌, ◌⊎◌, List, arith}
use lattice_db_next_gen_dbms.Prelude.Lists.{length}
use lattice_db_next_gen_dbms.Prelude.Bytes.{
  Memory, read_bytes, write_bytes, to_le, of_le, length-to_le, of_le-to_le, read_bytes-write_bytes,
  read_bytes-write_bytes_apart,
}
use lattice_db_next_gen_dbms.Storage.TablePage.{word, put_word, u32}

-- The word just written.
pub word-put_word : (m : Memory) (o v : ℕ) → v < u32 → word (put_word m o v) o ≡ v
unfolding word put_word
word-put_word m o v h =
    ap of_le (read_bytes-write_bytes m o 4 (to_le 4 v) (length-to_le 4 v))
    ∙ of_le-to_le 4 v (omega arith)

-- A word that lies apart from it.
pub word-put_word_apart :
    (m : Memory) (o v p : ℕ) → (p + 4 ≤ o) ⊎ (o + 4 ≤ p) → word (put_word m o v) p ≡ word m p
unfolding word put_word
word-put_word_apart m o v p h =
    ap of_le (read_bytes-write_bytes_apart m o (to_le 4 v) p 4 (omega (arith, length-to_le 4 v)))

pub word-write_bytes_apart :
    (m : Memory) (o p : ℕ) (bs : List ℕ)
    → (p + 4 ≤ o) ⊎ (o + length bs ≤ p)
    → word (write_bytes m o bs) p ≡ word m p
unfolding word
word-write_bytes_apart m o p bs h = ap of_le (read_bytes-write_bytes_apart m o bs p 4 h)

pub read_bytes-put_word_apart :
    (m : Memory) (o v p n : ℕ)
    → (p + n ≤ o) ⊎ (o + 4 ≤ p)
    → read_bytes (put_word m o v) p n ≡ read_bytes m p n
unfolding put_word
read_bytes-put_word_apart m o v p n h =
    read_bytes-write_bytes_apart m o (to_le 4 v) p n (omega (arith, length-to_le 4 v))
