-- ===== src/Buffer/BufferPool/Tests.antt =====
-- Runs of a pool over an `LRUReplacer`, and of one over a `ClockReplacer` whose only frame is in use.
use lattice_db_next_gen_dbms.Prelude.{ℕ, ◌≡◌, refl, ◌⊎◌, true, false, List, [], ◌∷◌, some, arith}
use lattice_db_next_gen_dbms.Prelude.Tests.{◌==◌, if◌then◌else◌}
use lattice_db_next_gen_dbms.Prelude.Lists.{length, replicate, length-replicate}
use lattice_db_next_gen_dbms.Prelude.Dict.{lookup}
use lattice_db_next_gen_dbms.Prelude.Members.{contains}
use lattice_db_next_gen_dbms.Prelude.Outcome.{returns, blocks}
use lattice_db_next_gen_dbms.Storage.Page.{page_size}
use lattice_db_next_gen_dbms.Storage.DiskManager
use lattice_db_next_gen_dbms.Storage.DiskManager.{DiskManager, read_page}
use lattice_db_next_gen_dbms.Buffer.Replacer.{unknown}
use lattice_db_next_gen_dbms.Buffer.LruReplacer
use lattice_db_next_gen_dbms.Buffer.LruReplacer.{LruReplacer, lru}
use lattice_db_next_gen_dbms.Buffer.LruReplacer.Invariant.{init-IsValid}
use lattice_db_next_gen_dbms.Buffer.ClockReplacer.{ClockReplacer}
use lattice_db_next_gen_dbms.Buffer.BufferPool.{BufferPool, init, fetch_page, flush_page}
use lattice_db_next_gen_dbms.Buffer.BufferPool.Invariant.{IsConsistent, Inv}
use lattice_db_next_gen_dbms.Buffer.BufferPool.Fetch.{FetchResult, fetch_page_lem}
use lattice_db_next_gen_dbms.Buffer.BufferPool.Steps.{
  Request, fetches, creates, unpins, deletes, step, run, StepResult, step_lem, init-IsConsistent,
}
use lattice_db_next_gen_dbms.Buffer.BufferPool.LruPool.{lru_stalls, lru_history}
use lattice_db_next_gen_dbms.Buffer.BufferPool.Eviction.{on_disk, flush_page_durable}

abbrev empty_file : DiskManager
empty_file = DiskManager.init (λ _. 0) 0

abbrev two_free : BufferPool LruReplacer
two_free = init 2 (some empty_file) (LruReplacer.init 2) 1

two_free-Inv : Inv lru_stalls two_free
unfolding init lru_stalls
two_free-Inv = record {
  consistent = init-IsConsistent 2 (some empty_file) (LruReplacer.init 2) 1;
  good = init-IsValid 2;
}

fetch_page_lem_example : FetchResult lru_stalls two_free 4 (fetch_page lru two_free 4)
fetch_page_lem_example = fetch_page_lem lru_stalls two_free 4 two_free-Inv

step_lem_example : StepResult lru_stalls two_free (step lru two_free creates)
step_lem_example = step_lem lru_stalls two_free creates two_free-Inv

abbrev requests : List Request
requests = fetches 4 ∷ creates ∷ unpins 4 true unknown ∷ fetches 6 ∷ deletes 4 ∷ []

lru_history_example :
    ((q : BufferPool LruReplacer) × (run lru
          (init 2 (some empty_file) (LruReplacer.init 2) 1)
          requests
        ≡ returns q)
      × Inv lru_stalls q)
    ⊎ (run lru (init 2 (some empty_file) (LruReplacer.init 2) 1) requests ≡ blocks)
lru_history_example = lru_history 2 (some empty_file) 1 requests

-- One slot, with frame 0, which may be evicted.
abbrev one_slot : ClockReplacer
one_slot = record {
  clock = λ _. record { frame_id = 0; reference_bit = false; is_evictable = true };
  frame_to_idx = (0, 0) ∷ [];
  clock_hand = 0;
  capacity = 1;
  count = 1;
}

-- The only frame holds page 9, changed.
abbrev one_dirty : BufferPool ClockReplacer
one_dirty = record {
  pool_size = 1;
  pages = λ _. record {
    bytes = replicate page_size 7;
    page_id = 9;
    pin_count = 0;
    is_dirty = true;
    is_deleted = false;
  };
  disk_manager = some empty_file;
  replacer = one_slot;
  free_list = [];
  page_table = (9, 0) ∷ [];
  next_id = 10;
}

whole_page : length (replicate {A = ℕ} page_size 7) ≡ page_size
whole_page = length-replicate {A = ℕ} page_size 7

one_dirty-IsConsistent : IsConsistent one_dirty
unfolding lookup contains
one_dirty-IsConsistent = record {
  free_distinct = tt;
  free_range = λ k h. ground arith;
  free_blank = λ k h. absurd (ground arith);
  mapped_range = λ i fid h. ground arith;
  mapped_used = λ i fid h. refl;
  mapped_id = λ i fid h. ground arith;
  whole = λ fid. whole_page;
}

flush_page_durable_example :
    let q = (flush_page one_dirty 9).0 in
    (on_disk q 9 ≡ some (if 9 == 9 then (one_dirty.pages 0).bytes else read_page empty_file 9))
    × ((q.pages 0).is_dirty ≡ false)
    × ((q.pages 0).bytes ≡ (one_dirty.pages 0).bytes)
unfolding lookup
flush_page_durable_example =
    flush_page_durable one_dirty 9 0 9 empty_file one_dirty-IsConsistent refl refl refl
