-- ===== src/Compression/Rle.antt =====
-- `RLECompression` of src/compression/compression_engine.cpp: pairs of a byte and a count.
pub mod RoundTrip
use lattice_db_next_gen_dbms.Prelude.{
  ℕ, zero, suc, ◌+◌, ◌*◌, ◌%◌, Bool, true, false, ◌&&◌, List, [], ◌∷◌, ◌++◌,
}
use lattice_db_next_gen_dbms.Prelude.Tests.{◌==◌, ltb, if◌then◌else◌}
use lattice_db_next_gen_dbms.Prelude.Lists.{length, replicate}
use lattice_db_next_gen_dbms.Compression.Algorithm.{Algorithm, CompressionMetadata, rle, set_sizes}

-- The inner loop: how far the run of `v` goes, `count` bytes of it being behind, and what follows.
unfoldable pub take_run : ℕ → ℕ → List ℕ → ℕ × List ℕ
take_run v count [] = (count, [])
take_run v count (x ∷ xs) =
    let longer = take_run v (count + 1) xs in
    if x == v && ltb count 255 then longer else (count, x ∷ xs)

-- The outer loop, on fuel.
unfoldable pub encode_from : ℕ → List ℕ → List ℕ
unfolding take_run
encode_from zero bytes = []
encode_from (suc fuel) [] = []
encode_from (suc fuel) (v ∷ rest) =
    let (count, after) = take_run v 1 rest in v ∷ count % 256 ∷ encode_from fuel after

-- Each round of the loop takes a byte, so there are at most as many rounds as bytes.
unfoldable pub encode : List ℕ → List ℕ
unfolding encode_from
encode bytes = encode_from (length bytes) bytes

unfoldable pub decode : List ℕ → List ℕ
decode (v ∷ count ∷ rest) = replicate count v ++ decode rest
decode _ = []

-- Empty input leaves the metadata as they are.
unfoldable pub compress : List ℕ → CompressionMetadata → List ℕ × CompressionMetadata
unfolding encode
compress [] m = ([], m)
compress (b ∷ bs) m = let out = encode (b ∷ bs) in (out, set_sizes (length (b ∷ bs)) (length out) m)

unfoldable pub rle_algorithm : Algorithm
unfolding compress decode
rle_algorithm = record { get_type = rle; compress = compress; decompress = λ bytes _. decode bytes }

-- `calculate_repetition_ratio` counts the bytes that repeat the one before.
unfoldable pub repetitions : ℕ → List ℕ → ℕ
repetitions before [] = 0
repetitions before (b ∷ bs) = (if b == before then 1 else 0) + repetitions b bs

-- `ratio > 0.2` for the ratio of two numbers below 2 ^ 50: their quotient in `double` is above the
-- `double` nearest to 0.2 exactly if the true quotient is above 0.2.
unfoldable pub is_suitable_for_data : List ℕ → Bool
unfolding repetitions
is_suitable_for_data [] = false
is_suitable_for_data (b ∷ []) = false
is_suitable_for_data (b ∷ c ∷ bs) = ltb (length (b ∷ c ∷ bs)) (5 * repetitions b (c ∷ bs))
