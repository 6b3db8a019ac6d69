-- ===== src/Types/Value/Held.antt =====
-- Memory that holds given bytes, and the numbers that `memcpy` reads from it, for
-- src/types/value.cpp.
use lattice_db_next_gen_dbms.Prelude.{
  ℕ, suc, ◌+◌, ◌^◌, ◌<◌, ◌≤◌, ◌≡◌, refl, ap, subst, ◌∙◌, List, [], ◌∷◌, ◌++◌, arith,
}
use mathlib.Core.Path.{ap₂}
use lattice_db_next_gen_dbms.Prelude.Lists.{length}
use lattice_db_next_gen_dbms.Prelude.Bytes.{
  Memory, read_bytes, write_bytes, to_le, of_le, length-to_le, of_le-to_le,
}
use lattice_db_next_gen_dbms.Types.Value.Bytes.{number_at}

-- The memory has these bytes from the offset on.
abbrev pub Holds : Memory → ℕ → List ℕ → Type 0
Holds m off [] = Unit {0}
Holds m off (b ∷ bs) = (m off ≡ b) × Holds m (off + 1) bs

pub Holds-append :
    (m : Memory) (off : ℕ) (xs ys : List ℕ)
    → Holds m off (xs ++ ys)
    → Holds m off xs × Holds m (off + length xs) ys
Holds-append m off [] ys h =
    let same : off ≡ off + 0 = omega arith in (tt, subst (λ i. Holds m i ys) same h)
Holds-append m off (x ∷ xs) ys h =
    let parts = Holds-append m (off + 1) xs ys h.1 in
    let same : off + 1 + length xs ≡ off + suc (length xs) = omega arith in
    ((h.0, parts.0), subst (λ i. Holds m i ys) same parts.1)

pub Holds-agree :
    (f g : Memory) (off : ℕ) (bs : List ℕ)
    → ((i : ℕ) → off ≤ i → i < off + length bs → f i ≡ g i)
    → Holds g off bs
    → Holds f off bs
Holds-agree f g off [] same h = tt
Holds-agree f g off (b ∷ bs) same h = (
  same off (omega arith) (omega arith) ∙ h.0,
  Holds-agree f g (off + 1) bs (λ i lo hi. same i (omega arith) (omega arith)) h.1,
)

pub write_bytes-Holds : (m : Memory) (off : ℕ) (bs : List ℕ) → Holds (write_bytes m off bs) off bs
unfolding write_bytes
write_bytes-Holds m off [] = tt
write_bytes-Holds m off (b ∷ bs) = (
  ground arith,
  Holds-agree _ (write_bytes m (off + 1) bs) (off + 1) bs (λ i lo hi. ground arith)
      (write_bytes-Holds m (off + 1) bs),
)

pub read_bytes_of_Holds :
    (m : Memory) (off : ℕ) (bs : List ℕ) → Holds m off bs → read_bytes m off (length bs) ≡ bs
unfolding read_bytes
read_bytes_of_Holds m off [] h = refl
read_bytes_of_Holds m off (b ∷ bs) h = ap₂ ◌∷◌ h.0 (read_bytes_of_Holds m (off + 1) bs h.1)

-- A number of `w` bytes reads back.
pub number_at-to_le :
    (m : Memory) (off w x : ℕ) → x < 256 ^ w → Holds m off (to_le w x) → number_at m off w ≡ x
number_at-to_le m off w x h held =
    let bytes : read_bytes m off w ≡ to_le w x =
      subst (λ n. read_bytes m off n ≡ to_le w x) (length-to_le w x)
        (read_bytes_of_Holds m off (to_le w x) held) in
    ap of_le bytes ∙ of_le-to_le w x h
