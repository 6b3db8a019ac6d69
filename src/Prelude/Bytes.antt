-- ===== src/Prelude/Bytes.antt =====
-- Memory and files as bytes at offsets, and little-endian numbers, as `memcpy` of a fixed-width
-- integer leaves them on the platforms that the build files name.
use native.Mathlib.Nat.{pow-suc}
use Prim.Native.Nat.{ℕ, zero, suc, ◌+◌, ◌*◌, ◌/◌, ◌%◌, ◌^◌, ◌≤◌, ◌<◌}
use mathlib.Core.Path.{◌≡◌, refl, ap₂, ◌∙◌}
use mathlib.Core.Logic.{◌⊎◌}
use mathlib.Core.List.{List, [], ◌∷◌}
use native.Mathlib.Omega.{arith}
use lattice_db_next_gen_dbms.Prelude.Tests.{◌==◌, if◌then◌else◌}
use lattice_db_next_gen_dbms.Prelude.Lists.{length}

abbrev pub Memory : Type 0
Memory = ℕ → ℕ

unfoldable pub read_bytes : Memory → ℕ → ℕ → List ℕ
read_bytes m off zero = []
read_bytes m off (suc n) = m off ∷ read_bytes m (off + 1) n

unfoldable pub write_bytes : Memory → ℕ → List ℕ → Memory
write_bytes m off [] i = m i
write_bytes m off (b ∷ bs) i = if i == off then b else write_bytes m (off + 1) bs i

pub length-read_bytes : (m : Memory) (off n : ℕ) → length (read_bytes m off n) ≡ n
unfolding read_bytes
length-read_bytes m off zero = refl
length-read_bytes m off (suc n) = omega (arith, length-read_bytes m (off + 1) n)

pub read_bytes_cong :
    (f g : Memory) (off n : ℕ)
    → ((i : ℕ) → off ≤ i → i < off + n → f i ≡ g i)
    → read_bytes f off n ≡ read_bytes g off n
unfolding read_bytes
read_bytes_cong f g off zero h = refl
read_bytes_cong f g off (suc n) h =
    ap₂ ◌∷◌ (h off (omega arith) (omega arith))
      (read_bytes_cong f g (off + 1) n (λ i lo hi. h i (omega arith) (omega arith)))

pub write_bytes_outside :
    (m : Memory) (off : ℕ) (bs : List ℕ) (i : ℕ)
    → (i < off) ⊎ (off + length bs ≤ i)
    → write_bytes m off bs i ≡ m i
unfolding write_bytes
write_bytes_outside m off [] i h = refl
write_bytes_outside m off (b ∷ bs) i h = ground (arith, write_bytes_outside m (off + 1) bs i)

-- What was written is read back.
pub read_bytes-write_bytes :
    (m : Memory) (off n : ℕ) (bs : List ℕ)
    → length bs ≡ n
    → read_bytes (write_bytes m off bs) off n ≡ bs
unfolding read_bytes write_bytes
read_bytes-write_bytes m off zero [] h = refl
read_bytes-write_bytes m off (suc n) [] h = absurd (omega arith)
read_bytes-write_bytes m off zero (b ∷ bs) h = absurd (omega arith)
read_bytes-write_bytes m off (suc n) (b ∷ bs) h = ap₂ ◌∷◌ (ground arith) (
    read_bytes_cong _ (write_bytes m (off + 1) bs) (off + 1) n (λ i lo hi. ground arith)
    ∙ read_bytes-write_bytes m (off + 1) n bs (omega arith))

-- A range that the write does not touch reads as before.
pub read_bytes-write_bytes_apart :
    (m : Memory) (off : ℕ) (bs : List ℕ) (o n : ℕ)
    → (o + n ≤ off) ⊎ (off + length bs ≤ o)
    → read_bytes (write_bytes m off bs) o n ≡ read_bytes m o n
read_bytes-write_bytes_apart m off bs o n h =
    read_bytes_cong _ m o n (λ i lo hi. write_bytes_outside m off bs i (omega arith))

-- The low `w` bytes of a number, least significant first.
unfoldable pub to_le : ℕ → ℕ → List ℕ
to_le zero x = []
to_le (suc w) x = x % 256 ∷ to_le w (x / 256)

unfoldable pub of_le : List ℕ → ℕ
of_le [] = 0
of_le (b ∷ bs) = b + 256 * of_le bs

pub length-to_le : (w x : ℕ) → length (to_le w x) ≡ w
unfolding to_le
length-to_le zero x = refl
length-to_le (suc w) x = omega (arith, length-to_le w (x / 256))

pub of_le-to_le : (w x : ℕ) → x < 256 ^ w → of_le (to_le w x) ≡ x
unfolding of_le to_le
of_le-to_le zero x h = omega arith
of_le-to_le (suc w) x h =
    let low : x / 256 < 256 ^ w = omega (arith, pow-suc 256 w) in
    omega (arith, of_le-to_le w (x / 256) low)
