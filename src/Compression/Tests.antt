-- ===== src/Compression/Tests.antt =====
-- Runs of the codecs and of the engine on small inputs.
use mathlib.Core.Option.{some-injective, none-ne-some}
use lattice_db_next_gen_dbms.Prelude.{
  zero, suc, ap, sym, ◌∙◌, ℕ, ◌*◌, ◌≤◌, ◌≡◌, refl, false, List, [], ◌∷◌,
}
use lattice_db_next_gen_dbms.Prelude.Tests.{if◌then◌else◌}
use lattice_db_next_gen_dbms.Prelude.Lists.{length, replicate, length-replicate}
use lattice_db_next_gen_dbms.Storage.Page.{Page, page_size}
use lattice_db_next_gen_dbms.Compression.Algorithm.{new_metadata, rle, adaptive}
use lattice_db_next_gen_dbms.Compression.Rle.{encode, decode}
use lattice_db_next_gen_dbms.Compression.Rle.RoundTrip.{decode-encode}
use lattice_db_next_gen_dbms.Compression.Engine.{
  init, default_algorithms, compress_data, decompress_data, compress_page, decompress_page,
  compress_pages_batch,
}
use lattice_db_next_gen_dbms.Compression.Engine.Batch.{AreWhole, batch_not_restored}
use lattice_db_next_gen_dbms.Compression.Engine.RoundTrip.{
  init-AreLossless, decompress_data-compress_data, decompress_page-compress_page,
}

abbrev two_runs : List ℕ
two_runs = 5 ∷ 5 ∷ 5 ∷ 8 ∷ []

encode_test : encode two_runs ≡ 5 ∷ 3 ∷ 8 ∷ 1 ∷ []
unfolding encode
encode_test = refl

decode-encode_example :
    (decode (encode two_runs) ≡ two_runs) × (length (encode two_runs) ≤ 2 * length two_runs)
decode-encode_example = decode-encode two_runs

decompress_data-compress_data_example :
    let (after, out, filled) = compress_data init two_runs (new_metadata rle) rle in
    (after.algorithms ≡ init.algorithms) × ((decompress_data after out filled).1 ≡ two_runs)
decompress_data-compress_data_example =
    decompress_data-compress_data init two_runs (new_metadata rle) rle init-AreLossless

abbrev sevens : Page
sevens = record {
  bytes = replicate page_size 7;
  page_id = 9;
  pin_count = 0;
  is_dirty = false;
  is_deleted = false;
}

decompress_page-compress_page_example :
    let (after, q, ok) = compress_page init sevens adaptive in
    let (_, _, filled) = compress_data init sevens.bytes (new_metadata adaptive) adaptive in
    (if ok then (decompress_page after q filled).1 else q) ≡ sevens
decompress_page-compress_page_example =
    decompress_page-compress_page init sevens adaptive init-AreLossless
      (length-replicate {A = ℕ} page_size 7)

sevens_batch-AreWhole : AreWhole (sevens ∷ [])
sevens_batch-AreWhole zero p e =
    ap (λ (q : Page). length q.bytes) (sym (some-injective _ _ e))
    ∙ length-replicate {A = ℕ} page_size 7
sevens_batch-AreWhole (suc i) p e = absurd (none-ne-some _ e)

batch_not_restored_example :
    decompress_page init (compress_page init sevens adaptive).1 (new_metadata adaptive)
    ≡ (init, (compress_page init sevens adaptive).1)
unfolding compress_pages_batch init default_algorithms
batch_not_restored_example =
    batch_not_restored init init (sevens ∷ []) 0 (compress_page init sevens adaptive).1
      (new_metadata adaptive) sevens_batch-AreWhole refl refl refl
