-- ===== src/Compression/Rle/RoundTrip.antt =====
-- The two directions of `RLECompression` of src/compression/compression_engine.cpp together.
use mathlib.Core.List.{append_assoc}
use native.Mathlib.Numerals.{add-one}
use lattice_db_next_gen_dbms.Prelude.{
  ℕ, zero, suc, ◌+◌, ◌*◌, ◌%◌, ◌≤◌, ◌≡◌, refl, ap, sym, ◌∙◌, List, [], ◌∷◌, ◌++◌, arith,
}
use lattice_db_next_gen_dbms.Prelude.Lists.{length, replicate, take, take_append}
use lattice_db_next_gen_dbms.Compression.Algorithm.{CompressionMetadata, IsLossless}
use lattice_db_next_gen_dbms.Compression.Rle.{
  take_run, encode_from, encode, decode, compress, rle_algorithm,
}

replicate-suc : (v n : ℕ) (xs : List ℕ) → replicate (suc n) v ++ xs ≡ replicate n v ++ v ∷ xs
replicate-suc v zero xs = refl
replicate-suc v (suc n) xs = ap (◌∷◌ v) (replicate-suc v n xs)

replicate_add_one : (v n : ℕ) (xs : List ℕ) → replicate (n + 1) v ++ xs ≡ replicate n v ++ v ∷ xs
replicate_add_one v n xs = rw (add-one n) (replicate-suc v n xs)

-- The run and what follows it are the input; the run has at most 255 bytes, and what follows is no
-- longer than the input.
take_run_lem :
    (v count : ℕ) (xs : List ℕ)
    → count ≤ 255
    → (replicate (take_run v count xs).0 v ++ (take_run v count xs).1 ≡ replicate count v ++ xs)
      × ((take_run v count xs).0 ≤ 255)
      × (count ≤ (take_run v count xs).0)
      × (length (take_run v count xs).1 ≤ length xs)
unfolding take_run
take_run_lem v count [] h = (refl, h, omega arith, omega arith)
take_run_lem v count (x ∷ xs) h =
    ground (arith, take_run_lem v (count + 1) xs, replicate_add_one v count xs)

encode_from_lem :
    (fuel : ℕ) (bytes : List ℕ) → length bytes ≤ fuel → decode (encode_from fuel bytes) ≡ bytes
unfolding encode_from decode
encode_from_lem zero [] h = refl
encode_from_lem zero (b ∷ bs) h = absurd (omega arith)
encode_from_lem (suc fuel) [] h = refl
encode_from_lem (suc fuel) (v ∷ rest) h =
    let run = take_run_lem v 1 rest (omega arith) in
    let (count, after) = take_run v 1 rest in
    let whole : count % 256 ≡ count = omega arith in
    ground (arith, run, whole, encode_from_lem fuel after)

pub length-encode_from :
    (fuel : ℕ) (bytes : List ℕ) → length (encode_from fuel bytes) ≤ 2 * length bytes
unfolding encode_from
length-encode_from zero bytes = omega arith
length-encode_from (suc fuel) [] = omega arith
length-encode_from (suc fuel) (v ∷ rest) =
    let run = take_run_lem v 1 rest (omega arith) in
    omega (arith, length-encode_from fuel (take_run v 1 rest).1)

-- Decoding what `compress` returns gives the input back, for every input, and the output is at
-- most twice as long as the input.
pub decode-encode :
    (bytes : List ℕ) → (decode (encode bytes) ≡ bytes) × (length (encode bytes) ≤ 2 * length bytes)
unfolding encode
decode-encode bytes =
    (encode_from_lem (length bytes) bytes (omega arith), length-encode_from (length bytes) bytes)

-- What stands behind a whole encoding is decoded after it.
decode_append-encode_from :
    (fuel : ℕ) (bytes tail : List ℕ)
    → decode (encode_from fuel bytes ++ tail) ≡ decode (encode_from fuel bytes) ++ decode tail
unfolding encode_from decode
decode_append-encode_from zero bytes tail = refl
decode_append-encode_from (suc fuel) [] tail = refl
decode_append-encode_from (suc fuel) (v ∷ rest) tail =
    let (count, after) = take_run v 1 rest in
    ap (◌++◌ (replicate (count % 256) v)) (decode_append-encode_from fuel after tail)
    ∙ sym (append_assoc (replicate (count % 256) v) (decode (encode_from fuel after)) (decode tail))

pub decode_append-encode :
    (bytes tail : List ℕ) → decode (encode bytes ++ tail) ≡ bytes ++ decode tail
unfolding encode
decode_append-encode bytes tail =
    decode_append-encode_from (length bytes) bytes tail
    ∙ ap (λ xs. xs ++ decode tail) (decode-encode bytes).0

pub compress-encode :
    (bytes : List ℕ) (m : CompressionMetadata) → (compress bytes m).0 ≡ encode bytes
unfolding compress
compress-encode [] m = refl
compress-encode (b ∷ bs) m = refl

compress_type : (bytes : List ℕ) (m : CompressionMetadata) → (compress bytes m).1.type ≡ m.type
unfolding compress
compress_type [] m = refl
compress_type (b ∷ bs) m = refl

pub rle-IsLossless : IsLossless rle_algorithm
unfolding rle_algorithm
rle-IsLossless = record {
  keeps_type = compress_type;
  round_trip = λ bytes m n. ap decode (compress-encode bytes m) ∙ (decode-encode bytes).0;
  prefix = λ bytes tail m n.
      ap (λ out. take (length bytes) (decode (out ++ tail))) (compress-encode bytes m)
      ∙ ap (take (length bytes)) (decode_append-encode bytes tail)
      ∙ take_append bytes (decode tail);
}
