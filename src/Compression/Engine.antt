-- ===== src/Compression/Engine.antt =====
-- `CompressionEngine` of src/compression/compression_engine.cpp. Its configuration is read by no
-- operation, and the average ratio of its statistics (a `double`) by none either: both are left out.
-- `algorithms` and `usage` are the two maps, a missing entry of `usage` being 0.
pub mod RoundTrip
pub mod Batch
use lattice_db_next_gen_dbms.Prelude.{
  ℕ, ◌+◌, ◌%◌, ◌^◌, Bool, true, false, List, [], ◌∷◌, ◌++◌, Option, none, some,
}
use lattice_db_next_gen_dbms.Prelude.Tests.{leb, if◌then◌else◌}
use lattice_db_next_gen_dbms.Prelude.Lists.{length, take, drop}
use lattice_db_next_gen_dbms.Storage.Page.{Page, page_size}
use lattice_db_next_gen_dbms.Compression.Algorithm.{
  CompressionType, uncompressed, rle, dictionary, bit_packing, delta, lz4, zstd, snappy, adaptive,
  type_eq, CompressionMetadata, new_metadata, set_sizes, Algorithm, passthrough,
}
use lattice_db_next_gen_dbms.Compression.Rle.{rle_algorithm, is_suitable_for_data}

pub record CompressionStats : Type 0 where
  pub total_compressions : ℕ
  pub total_decompressions : ℕ
  pub bytes_compressed : ℕ
  pub bytes_decompressed : ℕ
  pub usage : CompressionType → ℕ

pub record CompressionEngine : Type 0 where
  pub algorithms : CompressionType → Option Algorithm
  pub stats : CompressionStats

unfoldable pub default_algorithms : CompressionType → Option Algorithm
default_algorithms rle = some rle_algorithm
default_algorithms dictionary = some (passthrough dictionary)
default_algorithms delta = some (passthrough delta)
default_algorithms bit_packing = some (passthrough bit_packing)
default_algorithms lz4 = some (passthrough lz4)
default_algorithms zstd = some (passthrough zstd)
default_algorithms _ = none

unfoldable pub reset_stats : CompressionStats
reset_stats = record {
  total_compressions = 0;
  total_decompressions = 0;
  bytes_compressed = 0;
  bytes_decompressed = 0;
  usage = λ _. 0;
}

unfoldable pub init : CompressionEngine
init = record { algorithms = default_algorithms; stats = reset_stats }

unfoldable pub reset_statistics : CompressionEngine → CompressionEngine
reset_statistics e = record e { stats = reset_stats }

unfoldable pub register_algorithm : Algorithm → CompressionEngine → CompressionEngine
unfolding type_eq
register_algorithm a e = record e {
  algorithms = λ t. if type_eq t a.get_type then some a else e.algorithms t;
}

unfoldable pub is_algorithm_available : CompressionEngine → CompressionType → Bool
is_algorithm_available e t = elim (e.algorithms t) [ none ↦ false | some _ ↦ true ]

unfoldable pub select_best_algorithm : List ℕ → CompressionType
select_best_algorithm bytes = if is_suitable_for_data bytes then rle else uncompressed

-- `uint64_t` counters.
unfoldable pub counted : ℕ → ℕ → ℕ
counted c n = (c + n) % 2 ^ 64

unfoldable pub update_statistics :
    CompressionType → ℕ → ℕ → Bool → CompressionEngine → CompressionEngine
update_statistics t original compressed is_compression e =
    let s = e.stats in
    record e {
      stats = record {
        total_compressions =
            if is_compression then counted s.total_compressions 1 else s.total_compressions;
        total_decompressions =
            if is_compression then s.total_decompressions else counted s.total_decompressions 1;
        bytes_compressed = counted s.bytes_compressed original;
        bytes_decompressed = counted s.bytes_decompressed compressed;
        usage = λ u. if type_eq u t then counted (s.usage u) 1 else s.usage u;
      };
    }

-- Which algorithm the hint stands for: the data choose for `ADAPTIVE`, and an algorithm that is
-- not there counts as `NONE`.
unfoldable pub chosen_type : CompressionEngine → List ℕ → CompressionType → CompressionType
chosen_type e bytes hint =
    let t = if type_eq hint adaptive then select_best_algorithm bytes else hint in
    if is_algorithm_available e t then t else uncompressed

-- `out` copied as it is, with the metadata that say so.
unfoldable pub stored :
    CompressionEngine
    → List ℕ
    → CompressionMetadata
    → CompressionEngine × List ℕ × CompressionMetadata
stored e bytes m =
    (e, bytes, set_sizes (length bytes) (length bytes) (record m { type = uncompressed }))

unfoldable pub compress_with :
    CompressionEngine
    → CompressionType
    → List ℕ
    → CompressionMetadata
    → CompressionEngine × List ℕ × CompressionMetadata
compress_with e t bytes m = elim (e.algorithms t) [
  | none ↦ stored e bytes m
  | some a ↦
      let (out, filled) = a.compress bytes (record m { type = t }) in
      (update_statistics t (length bytes) (length out) true e, out, filled)
]

unfoldable pub compress_data :
    CompressionEngine
    → List ℕ
    → CompressionMetadata
    → CompressionType
    → CompressionEngine × List ℕ × CompressionMetadata
compress_data e bytes m hint =
    let t = chosen_type e bytes hint in
    if type_eq t uncompressed then stored e bytes m else compress_with e t bytes m

unfoldable pub decompress_with :
    CompressionEngine → Option Algorithm → List ℕ → CompressionMetadata → CompressionEngine × List ℕ
decompress_with e none bytes m = (e, bytes)
decompress_with e (some a) bytes m =
    let out = a.decompress bytes m in
    (update_statistics m.type (length out) (length bytes) false e, out)

unfoldable pub decompress_data :
    CompressionEngine → List ℕ → CompressionMetadata → CompressionEngine × List ℕ
decompress_data e bytes m =
    if type_eq m.type uncompressed
    then (e, bytes)
    else decompress_with e (e.algorithms m.type) bytes m

-- `memcpy(page->get_data(), out, …)`: what stands behind the copied bytes stays.
unfoldable pub overwrite : List ℕ → Page → Page
overwrite out p = record p { bytes = out ++ drop (length out) p.bytes }

unfoldable pub compress_page :
    CompressionEngine → Page → CompressionType → CompressionEngine × Page × Bool
compress_page e p hint =
    let (after, out, _) = compress_data e p.bytes (new_metadata hint) hint in
    if leb (length out) page_size then (after, overwrite out p, true) else (after, p, false)

unfoldable pub decompress_page :
    CompressionEngine → Page → CompressionMetadata → CompressionEngine × Page
decompress_page e p m =
    let (after, out) = decompress_data e p.bytes m in (after, overwrite (take page_size out) p)

-- The metadata put out are the ones the hint made: `compress_page` fills its own.
unfoldable pub compress_pages_batch :
    CompressionEngine
    → List Page
    → CompressionType
    → CompressionEngine × List Page × List CompressionMetadata
compress_pages_batch e [] hint = (e, [], [])
compress_pages_batch e (p ∷ ps) hint =
    let (after, q, _) = compress_page e p hint in
    let (last, qs, ms) = compress_pages_batch after ps hint in
    (last, q ∷ qs, new_metadata hint ∷ ms)
