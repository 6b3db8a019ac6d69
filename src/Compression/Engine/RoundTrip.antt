-- ===== src/Compression/Engine/RoundTrip.antt =====
-- Compression and decompression of `CompressionEngine` one after the other, of bytes and of a page
-- (src/compression/compression_engine.cpp).
use lattice_db_next_gen_dbms.Prelude.{
  ℕ, zero, suc, ◌-◌, ◌≤◌, ◌≡◌, refl, ap, sym, ◌∙◌, Bool, true, false, List, [], ◌∷◌, ◌++◌, arith,
  inl, inr, Option, some,
}
use mathlib.Core.List.{append-nil}
use mathlib.Core.Path.{subst}
use mathlib.Core.Option.{some-injective, none-ne-some}
use lattice_db_next_gen_dbms.Prelude.Tests.{leb, leb→le, if◌then◌else◌, Bool-cases, Option-cases}
use lattice_db_next_gen_dbms.Prelude.Lists.{length, take, drop, take_append, length-append}
use lattice_db_next_gen_dbms.Storage.Page.{Page, page_size}
use lattice_db_next_gen_dbms.Compression.Algorithm.{
  CompressionType, uncompressed, rle, dictionary, bit_packing, delta, lz4, zstd, snappy, adaptive,
  type_eq, CompressionMetadata, new_metadata, Algorithm, IsLossless, passthrough-IsLossless,
}
use lattice_db_next_gen_dbms.Compression.Rle.RoundTrip.{rle-IsLossless}
use lattice_db_next_gen_dbms.Compression.Engine.{
  CompressionEngine, init, default_algorithms, update_statistics, register_algorithm, chosen_type,
  stored, compress_with, compress_data, decompress_with, decompress_data, overwrite, compress_page,
  decompress_page,
}

-- Every algorithm the engine holds is lossless.
pub AreLossless : CompressionEngine → Type 0
AreLossless e = (t : CompressionType) (a : Algorithm) → e.algorithms t ≡ some a → IsLossless a

held : (a b : Algorithm) → some a ≡ some b → IsLossless a → IsLossless b
held a b e = subst IsLossless (some-injective a b e)

default_algorithms-IsLossless :
    (t : CompressionType) (a : Algorithm) → default_algorithms t ≡ some a → IsLossless a
unfolding default_algorithms
default_algorithms-IsLossless rle a h = held _ a h rle-IsLossless
default_algorithms-IsLossless uncompressed a h = absurd (none-ne-some _ h)
default_algorithms-IsLossless dictionary a h = held _ a h (passthrough-IsLossless dictionary)
default_algorithms-IsLossless bit_packing a h = held _ a h (passthrough-IsLossless bit_packing)
default_algorithms-IsLossless delta a h = held _ a h (passthrough-IsLossless delta)
default_algorithms-IsLossless lz4 a h = held _ a h (passthrough-IsLossless lz4)
default_algorithms-IsLossless zstd a h = held _ a h (passthrough-IsLossless zstd)
default_algorithms-IsLossless snappy a h = absurd (none-ne-some _ h)
default_algorithms-IsLossless adaptive a h = absurd (none-ne-some _ h)

pub init-AreLossless : AreLossless init
unfolding init AreLossless
init-AreLossless = default_algorithms-IsLossless

held_one_of :
    (c : Bool) (a b : Algorithm) (o : Option Algorithm)
    → IsLossless a
    → (o ≡ some b → IsLossless b)
    → (if c then some a else o) ≡ some b
    → IsLossless b
held_one_of true a b o ok h e = held a b e ok
held_one_of false a b o ok h e = h e

pub register-AreLossless :
    (a : Algorithm) (e : CompressionEngine)
    → IsLossless a
    → AreLossless e
    → AreLossless (register_algorithm a e)
unfolding register_algorithm AreLossless
register-AreLossless a e ok h t b eq =
    held_one_of (type_eq t a.get_type) a b (e.algorithms t) ok (h t b) eq

-- What the engine's decompression of `out` owes to `bytes`, whatever stands behind `out`.
abbrev Restores : CompressionEngine → List ℕ → CompressionMetadata → List ℕ → Type 0
Restores e out m bytes =
    ((decompress_data e out m).1 ≡ bytes)
    × ((tail : List ℕ) → take (length bytes) (decompress_data e (out ++ tail) m).1 ≡ bytes)

stored-Restores :
    (e : CompressionEngine) (bytes : List ℕ) (m : CompressionMetadata)
    → let (after, out, filled) = stored e bytes m in Restores after out filled bytes
unfolding decompress_data stored type_eq
stored-Restores e bytes m = (refl, λ tail. take_append bytes tail)

decompress_data-held :
    (e : CompressionEngine) (t : CompressionType) (a : Algorithm) (out : List ℕ)
    (m : CompressionMetadata)
    → m.type ≡ t
    → type_eq t uncompressed ≡ false
    → e.algorithms t ≡ some a
    → (decompress_data e out m).1 ≡ a.decompress out m
unfolding decompress_data decompress_with
decompress_data-held e t a out m kept ne held_by =
    let first : type_eq m.type uncompressed ≡ false = rw kept ne in
    let second : e.algorithms m.type ≡ some a = rw kept held_by in rw (first, second) refl

-- A type that is not `NONE`.
compress_with_lem :
    (e : CompressionEngine) (t : CompressionType) (bytes : List ℕ) (m : CompressionMetadata)
    → AreLossless e
    → type_eq t uncompressed ≡ false
    → let (after, out, filled) = compress_with e t bytes m in
      (after.algorithms ≡ e.algorithms) × Restores after out filled bytes
unfolding AreLossless compress_with update_statistics stored
compress_with_lem e t bytes m h ne = elim (Option-cases (e.algorithms t)) [
  | inl n ↦ rw (compress_with, n) (refl, stored-Restores e bytes m)
  | inr (a, s) ↦
      let before = record m { type = t } in
      let filled = (a.compress bytes before).1 in
      let kept = (h t a s).keeps_type bytes before in
      let counts = update_statistics t (length bytes) (length (a.compress bytes before).0) true e in
      let shown = λ (out : List ℕ). decompress_data-held counts t a out filled kept ne s in
      rw (compress_with, s)
        (
          refl,
          (
            shown _ ∙ (h t a s).round_trip bytes before filled,
            λ tail. ap (take (length bytes)) (shown _) ∙ (h t a s).prefix bytes tail before filled,
          ),
        )
]

compress_data_lem :
    (e : CompressionEngine) (bytes : List ℕ) (m : CompressionMetadata) (hint : CompressionType)
    → AreLossless e
    → let (after, out, filled) = compress_data e bytes m hint in
      (after.algorithms ≡ e.algorithms) × Restores after out filled bytes
unfolding compress_data stored
compress_data_lem e bytes m hint h =
    elim (Bool-cases (type_eq (chosen_type e bytes hint) uncompressed)) [
      | inl none_chosen ↦ rw none_chosen (refl, stored-Restores e bytes m)
      | inr some_chosen ↦
          rw some_chosen (compress_with_lem e (chosen_type e bytes hint) bytes m h some_chosen)
    ]

-- For every engine whose algorithms are lossless, every input and every hint: `decompress_data`
-- on what `compress_data` returned, with the metadata it filled in, gives the input back, and the
-- engine's algorithms are the same as before.
pub decompress_data-compress_data :
    (e : CompressionEngine) (bytes : List ℕ) (m : CompressionMetadata) (hint : CompressionType)
    → AreLossless e
    → let (after, out, filled) = compress_data e bytes m hint in
      (after.algorithms ≡ e.algorithms) × ((decompress_data after out filled).1 ≡ bytes)
decompress_data-compress_data e bytes m hint h =
    let (kept, (back, _)) = compress_data_lem e bytes m hint h in (kept, back)

pub length-drop : (n : ℕ) (xs : List ℕ) → length (drop n xs) ≡ length xs - n
length-drop zero xs = omega arith
length-drop (suc n) [] = omega arith
length-drop (suc n) (x ∷ xs) = omega (arith, length-drop n xs)

drop_all : (n : ℕ) (xs : List ℕ) → length xs ≤ n → drop n xs ≡ []
drop_all zero [] h = refl
drop_all zero (x ∷ xs) h = absurd (omega arith)
drop_all (suc n) [] h = refl
drop_all (suc n) (x ∷ xs) h = drop_all n xs (omega arith)

-- Copying the page's own bytes over what `overwrite` left of the page gives the page.
pub overwrite_back :
    (p : Page) (out bytes : List ℕ)
    → length out ≤ length p.bytes
    → bytes ≡ p.bytes
    → overwrite bytes (overwrite out p) ≡ p
unfolding overwrite
overwrite_back p out bytes h e =
    let behind = drop (length out) p.bytes in
    let whole : length (out ++ behind) ≤ length bytes =
      rw e (omega (arith, length-append out behind, length-drop (length out) p.bytes)) in
    ap (λ (b : List ℕ). record p { bytes = b })
      (ap (λ (b : List ℕ). bytes ++ b) (drop_all (length bytes) (out ++ behind) whole)
        ∙ append-nil bytes
        ∙ e)

-- For every engine whose algorithms are lossless, every page of 4096 bytes and every hint: when
-- `compress_page` answers true, `decompress_page` with the metadata that its call of
-- `compress_data` filled in restores the page, although the page keeps its old bytes behind the
-- compressed ones and all 4096 are decompressed. When it answers false the page is as it was.
pub decompress_page-compress_page :
    (e : CompressionEngine) (p : Page) (hint : CompressionType)
    → AreLossless e
    → length p.bytes ≡ page_size
    → let (after, q, ok) = compress_page e p hint in
      let (_, _, filled) = compress_data e p.bytes (new_metadata hint) hint in
      (if ok then (decompress_page after q filled).1 else q) ≡ p
unfolding compress_page decompress_page overwrite
decompress_page-compress_page e p hint h whole =
    let (after, out, filled) = compress_data e p.bytes (new_metadata hint) hint in
    let (_, (_, framed)) = compress_data_lem e p.bytes (new_metadata hint) hint h in
    elim (Bool-cases (leb (length out) page_size)) [
      | inl fits ↦ rw fits (
          overwrite_back p out _ (rw whole (leb→le _ _ fits)) (
            ap (λ n. take n (decompress_data after (overwrite out p).bytes filled).1) (sym whole)
            ∙ framed (drop (length out) p.bytes)))
      | inr large ↦ rw large refl
    ]
