-- ===== src/Compression/Algorithm.antt =====
-- `CompressionType`, `CompressionMetadata` and `class CompressionAlgorithm` of
-- src/compression/compression_engine.h. The metadata's ratio (a `double`), dictionary size and time
-- stamp are left out: nothing reads them back. Data are lists of bytes.
use lattice_db_next_gen_dbms.Prelude.{ℕ, ◌%◌, ◌^◌, ◌≡◌, refl, Bool, true, false, List, ◌++◌}
use lattice_db_next_gen_dbms.Prelude.Lists.{length, take, take_append}

pub data CompressionType : Type 0 where
  uncompressed rle dictionary bit_packing delta lz4 zstd snappy adaptive : CompressionType

unfoldable pub type_eq : CompressionType → CompressionType → Bool
type_eq uncompressed uncompressed = true
type_eq rle rle = true
type_eq dictionary dictionary = true
type_eq bit_packing bit_packing = true
type_eq delta delta = true
type_eq lz4 lz4 = true
type_eq zstd zstd = true
type_eq snappy snappy = true
type_eq adaptive adaptive = true
type_eq _ _ = false

pub record CompressionMetadata : Type 0 where
  pub type : CompressionType
  pub original_size : ℕ
  pub compressed_size : ℕ

abbrev pub new_metadata : CompressionType → CompressionMetadata
new_metadata t = record { type = t; original_size = 0; compressed_size = 0 }

abbrev pub set_sizes : ℕ → ℕ → CompressionMetadata → CompressionMetadata
set_sizes original compressed m = record m {
  original_size = original % 2 ^ 32;
  compressed_size = compressed % 2 ^ 32;
}

pub record Algorithm : Type 0 where
  pub get_type : CompressionType
  pub compress : List ℕ → CompressionMetadata → List ℕ × CompressionMetadata
  pub decompress : List ℕ → CompressionMetadata → List ℕ

-- What the engine relies on.
pub record IsLossless (a : Algorithm) : Type 0 where
  pub keeps_type : (bytes : List ℕ) (m : CompressionMetadata) → (a.compress bytes m).1.type ≡ m.type
  pub round_trip :
      (bytes : List ℕ) (m n : CompressionMetadata) → a.decompress (a.compress bytes m).0 n ≡ bytes
  -- What stands behind the compressed bytes only adds bytes behind the data.
  pub prefix :
      (bytes tail : List ℕ) (m n : CompressionMetadata)
      → take (length bytes) (a.decompress ((a.compress bytes m).0 ++ tail) n) ≡ bytes

-- `DictionaryCompression`, `DeltaCompression`, `BitPackingCompression`, `LZ4Compression` and
-- `ZSTDCompression` all copy their input.
unfoldable pub passthrough : CompressionType → Algorithm
passthrough t = record {
  get_type = t;
  compress = λ bytes m. (bytes, set_sizes (length bytes) (length bytes) m);
  decompress = λ bytes _. bytes;
}

pub passthrough-IsLossless : (t : CompressionType) → IsLossless (passthrough t)
unfolding passthrough
passthrough-IsLossless t = record {
  keeps_type = λ _ _. refl;
  round_trip = λ _ _ _. refl;
  prefix = λ bytes tail _ _. take_append bytes tail;
}
