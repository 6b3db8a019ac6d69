-- ===== src/Compression/Engine/Batch.antt =====
-- `compress_pages_batch`, and what its metadata are worth.
use mathlib.Core.List.{append-nil}
use mathlib.Core.Path.{subst}
use mathlib.Core.Option.{some-injective}
use lattice_db_next_gen_dbms.Prelude.{
  ℕ, zero, suc, ◌≡◌, refl, ap, sym, ◌∙◌, List, [], ◌∷◌, none, some, arith, inl, inr,
}
use lattice_db_next_gen_dbms.Prelude.Tests.{leb, leb→le, Bool-cases}
use lattice_db_next_gen_dbms.Prelude.Lists.{
  length, get_elem?, take, drop, length-append, take_append,
}
use lattice_db_next_gen_dbms.Storage.Page.{Page, page_size}
use lattice_db_next_gen_dbms.Compression.Algorithm.{
  CompressionType, adaptive, type_eq, CompressionMetadata, new_metadata,
}
use lattice_db_next_gen_dbms.Compression.Engine.{
  CompressionEngine, compress_data, decompress_with, decompress_data, overwrite, compress_page,
  decompress_page, compress_pages_batch,
}
use lattice_db_next_gen_dbms.Compression.Engine.RoundTrip.{length-drop, overwrite_back}

-- Without an algorithm for `ADAPTIVE`, bytes that are said to be of that type stay as they are.
undone_nothing :
    (e : CompressionEngine) (p : Page)
    → e.algorithms adaptive ≡ none
    → length p.bytes ≡ page_size
    → decompress_page e p (new_metadata adaptive) ≡ (e, p)
unfolding decompress_page decompress_data decompress_with type_eq overwrite
undone_nothing e p h whole =
    let all : take page_size p.bytes ≡ p.bytes =
      ap (λ n. take n p.bytes) (sym whole)
      ∙ ap (take (length p.bytes)) (sym (append-nil p.bytes))
      ∙ take_append p.bytes [] in
    rw (h, all) (ap (λ (q : Page). (e, q)) (overwrite_back p [] p.bytes (omega arith) refl))

length-compress_page :
    (e : CompressionEngine) (p : Page) (hint : CompressionType)
    → length p.bytes ≡ page_size
    → length (compress_page e p hint).1.bytes ≡ page_size
unfolding compress_page overwrite
length-compress_page e p hint whole =
    let (_, out, _) = compress_data e p.bytes (new_metadata hint) hint in
    elim (Bool-cases (leb (length out) page_size)) [
      | inl fits ↦ rw fits (
          omega (
            arith,
            leb→le _ _ fits,
            length-append out (drop (length out) p.bytes),
            length-drop (length out) p.bytes,
          ))
      | inr large ↦ rw large whole
    ]

abbrev pub AreWhole : List Page → Type 0
AreWhole ps = (i : ℕ) (p : Page) → get_elem? ps i ≡ some p → length p.bytes ≡ page_size

-- For pages of 4096 bytes and the hint `ADAPTIVE`: `decompress_page` of a page of the batch with the
-- metadata that `compress_pages_batch` put out for it, by an engine with no algorithm for `ADAPTIVE`
-- (as the constructor leaves it), changes nothing, whatever the compression did to the page.
pub batch_not_restored :
    (e x : CompressionEngine) (ps : List Page) (i : ℕ) (q : Page) (m : CompressionMetadata)
    → AreWhole ps
    → x.algorithms adaptive ≡ none
    → get_elem? (compress_pages_batch e ps adaptive).1 i ≡ some q
    → get_elem? (compress_pages_batch e ps adaptive).2 i ≡ some m
    → decompress_page x q m ≡ (x, q)
unfolding compress_pages_batch
batch_not_restored e x [] i q m w h f g = cc
batch_not_restored e x (p ∷ ps) zero q m w h f g =
    let whole : length (compress_page e p adaptive).1.bytes ≡ page_size =
      length-compress_page e p adaptive (w 0 p refl) in
    subst (λ (r : CompressionMetadata). decompress_page x q r ≡ (x, q)) (some-injective _ _ g)
      (subst (λ (r : Page). decompress_page x r (new_metadata adaptive) ≡ (x, r))
        (some-injective _ _ f) (undone_nothing x (compress_page e p adaptive).1 h whole))
batch_not_restored e x (p ∷ ps) (suc i) q m w h f g =
    batch_not_restored (compress_page e p adaptive).0 x ps i q m (λ k r l. w (suc k) r l) h f g
