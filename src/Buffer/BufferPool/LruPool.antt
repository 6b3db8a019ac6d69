-- ===== src/Buffer/BufferPool/LruPool.antt =====
-- The pool that `BufferPoolManager`'s constructor builds: one over an `LRUReplacer`.
use lattice_db_next_gen_dbms.Prelude.{ℕ, ◌≡◌, false, List, Option, ◌⊎◌}
use lattice_db_next_gen_dbms.Prelude.Outcome.{returns, blocks}
use lattice_db_next_gen_dbms.Storage.DiskManager.{DiskManager}
use lattice_db_next_gen_dbms.Buffer.LruReplacer
use lattice_db_next_gen_dbms.Buffer.LruReplacer.{LruReplacer, lru}
use lattice_db_next_gen_dbms.Buffer.LruReplacer.Invariant.{IsValid, init-IsValid, set_evictable_lem}
use lattice_db_next_gen_dbms.Buffer.LruReplacer.Recency.{any_evictable, victim_lem, unpin_lem}
use lattice_db_next_gen_dbms.Buffer.BufferPool.{BufferPool, init}
use lattice_db_next_gen_dbms.Buffer.BufferPool.Invariant.{Stalls, Inv}
use lattice_db_next_gen_dbms.Buffer.BufferPool.Steps.{Request, run, run_lem, init-IsConsistent}

unfoldable pub lru_stalls : Stalls lru
unfolding LruReplacer.pin LruReplacer.record_access
lru_stalls = record {
  Good = IsValid;
  stuck = λ r. any_evictable r.lru_hash r.lru_list;
  victim_lem = victim_lem;
  pin_lem = λ r fid g. set_evictable_lem r fid false g;
  unpin_lem = λ r fid g. let (t, e, w, _, _) = unpin_lem r fid g in (t, e, w);
  record_access_lem = λ r fid _ g. let (t, e, w, _, _) = unpin_lem r fid g in (t, e, w);
}

-- From the constructor on, a history of requests of a pool over an `LRUReplacer` either ends with
-- the free list, the page table and the frames in agreement, or has a request that never comes back.
pub lru_history :
    (pool_size : ℕ) (disk : Option DiskManager) (next_id : ℕ) (rs : List Request)
    → ((q : BufferPool LruReplacer) × (run lru
            (init pool_size disk (LruReplacer.init pool_size) next_id)
            rs
          ≡ returns q)
        × Inv lru_stalls q)
      ⊎ (run lru (init pool_size disk (LruReplacer.init pool_size) next_id) rs ≡ blocks)
unfolding init lru_stalls
lru_history n disk next_id rs =
    run_lem lru_stalls (init n disk (LruReplacer.init n) next_id) rs (record {
      consistent = init-IsConsistent n disk (LruReplacer.init n) next_id;
      good = init-IsValid n;
    })
