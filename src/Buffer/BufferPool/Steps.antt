-- ===== src/Buffer/BufferPool/Steps.antt =====
-- Every request that a client makes of the pool, and histories of requests.
use lattice_db_next_gen_dbms.Prelude.{
  ℕ, zero, suc, ◌+◌, ◌≤◌, ◌<◌, ◌≡◌, refl, sym, ◌∙◌, subst, Bool, true, List, [], ◌∷◌, Option, none,
  some, arith, inl, inr, ◌⊎◌,
}
use lattice_db_next_gen_dbms.Prelude.Tests.{if◌then◌else◌, Option-cases, Bool-cases}
use lattice_db_next_gen_dbms.Prelude.Lists.{length, List-cases}
use lattice_db_next_gen_dbms.Prelude.Dict.{lookup}
use lattice_db_next_gen_dbms.Prelude.Members.{contains, Distinct}
use lattice_db_next_gen_dbms.Prelude.Outcome.{Outcome, returns, blocks, ◌>>=◌}
use lattice_db_next_gen_dbms.Storage.Page
use lattice_db_next_gen_dbms.Storage.Page.{
  Page, page_size, zero_bytes, length-zero_bytes, set_dirty, drop_guard,
}
use lattice_db_next_gen_dbms.Storage.DiskManager.{DiskManager}
use lattice_db_next_gen_dbms.Buffer.Replacer.{Replacer, AccessType}
use lattice_db_next_gen_dbms.Buffer.BufferPool.{
  BufferPool, init, frames_from, edit, place, find_replacement, fetch_page, next_page_id, new_page,
  unpin_page, flush_page, flush_frame, flush_entries, flush_all_pages, delete_page,
}
use lattice_db_next_gen_dbms.Buffer.BufferPool.Invariant.{
  Stalls, Inv, IsConsistent, SameFrames, SameFrames-IsConsistent, place-IsConsistent,
  flush_page-IsConsistent, flush_entries-IsConsistent, delete_page-IsConsistent,
}
use lattice_db_next_gen_dbms.Buffer.BufferPool.Fetch.{
  FetchResult, hit, loaded, refused, blocked, fetch_page_lem,
}

-- `writes` and `drops_guard` act on a frame that the client has a pointer to.
pub data Request : Type 0 where
  fetches flushes deletes : ℕ → Request
  creates flushes_all : Request
  unpins : ℕ → Bool → AccessType → Request
  drops_guard : ℕ → Bool → Request
  writes : (fid : ℕ) (bytes : List ℕ) → length bytes ≡ page_size → Request

abbrev state_of {ℓ} : {A : Type 0} {B : Type ℓ} → Outcome (A × B) → Outcome A
state_of o = o >>= λ r. returns r.0

module _ {R : Type 0} (rep : Replacer R) where
  pub step : BufferPool R → Request → Outcome (BufferPool R)
  step p (fetches i) = state_of (fetch_page rep p i)
  step p creates = state_of (new_page rep p)
  step p (unpins i dirty access) = state_of (unpin_page rep p i dirty access)
  step p (flushes i) = returns (flush_page p i).0
  step p flushes_all = returns (flush_all_pages p)
  step p (deletes i) = returns (delete_page p i).0
  step p (drops_guard fid dirty) = returns (edit p fid (drop_guard dirty))
  step p (writes fid bytes _) = returns (edit p fid (λ page. record page { bytes = bytes }))

  pub run : BufferPool R → List Request → Outcome (BufferPool R)
  run p [] = returns p
  run p (r ∷ rs) = step p r >>= λ q. run q rs

abbrev unpinned : Bool → Page → Page
unpinned dirty page = Page.unpin (if dirty then set_dirty true page else page)

unpinned_id : (d : Bool) (g : Page) → (unpinned d g).page_id ≡ g.page_id
unfolding Page.unpin
unpinned_id d g = ground arith

unpinned_whole :
    (d : Bool) (g : Page) → length g.bytes ≡ page_size → length (unpinned d g).bytes ≡ page_size
unfolding Page.unpin
unpinned_whole d g h = ground arith

drop_guard_id : (d : Bool) (g : Page) → (drop_guard d g).page_id ≡ g.page_id
unfolding drop_guard
drop_guard_id d g = ground arith

drop_guard_whole :
    (d : Bool) (g : Page) → length g.bytes ≡ page_size → length (drop_guard d g).bytes ≡ page_size
unfolding drop_guard
drop_guard_whole d g h = ground arith

frames_from_bounds : (i n k : ℕ) → contains k (frames_from i n) ≡ true → (i ≤ k) × (k < i + n)
unfolding frames_from contains
frames_from_bounds i zero k h = cc
frames_from_bounds i (suc n) k h = ground (arith, frames_from_bounds (i + 1) n k)

frames_from-Distinct : (i n : ℕ) → Distinct (frames_from i n)
unfolding frames_from
frames_from-Distinct i zero = tt
frames_from-Distinct i (suc n) =
    (ground (arith, frames_from_bounds (i + 1) n i), frames_from-Distinct (i + 1) n)

pub init-IsConsistent :
    {R : Type 0} (n : ℕ) (disk : Option DiskManager) (r : R) (next_id : ℕ)
    → IsConsistent (init n disk r next_id)
unfolding init lookup Page.reset
init-IsConsistent n disk r next_id = record {
  free_distinct = frames_from-Distinct 0 n;
  free_range = λ k h. omega (arith, frames_from_bounds 0 n k h);
  free_blank = λ k h. refl;
  mapped_range = λ i f h. cc;
  mapped_used = λ i f h. cc;
  mapped_id = λ i f h. cc;
  whole = λ k. length-zero_bytes;
}

module _ {R : Type 0} {rep : Replacer R} (st : Stalls rep) where
  -- A request that comes back leaves a consistent pool; the others find the free list empty.
  pub data StepResult (p : BufferPool R) (o : Outcome (BufferPool R)) : Type 0 where
    goes : (q : BufferPool R) → o ≡ returns q → Inv st q → StepResult p o
    stops : p.free_list ≡ [] → st.stuck p.replacer ≡ true → o ≡ blocks → StepResult p o

  fetches_lem :
      (p : BufferPool R) (i : ℕ)
      → FetchResult st p i (fetch_page rep p i)
      → Inv st p
      → StepResult p (step rep p (fetches i))
  unfolding step
  fetches_lem p i (hit fid q e o v h) w = goes q (rw o) v
  fetches_lem p i (loaded fid rest q e f o v h) w = goes q (rw o) v
  fetches_lem p i (refused e f s o) w = goes p (rw o) w
  fetches_lem p i (blocked e f s o) w = stops f s (rw o)

  next_page_id-SameFrames : (p : BufferPool R) → SameFrames p (next_page_id p).0
  unfolding next_page_id
  next_page_id-SameFrames p = record {
    free_list = ground arith;
    page_table = ground arith;
    pool_size = ground arith;
    page_id = λ k. ground arith;
    bytes = λ k. ground arith;
  }

  next_page_id_rest :
      (p : BufferPool R) (rest : List ℕ)
      → next_page_id (record p { free_list = rest })
        ≡ (record ((next_page_id p).0) { free_list = rest }, (next_page_id p).1)
  unfolding next_page_id
  next_page_id_rest p rest = ground arith

  next_page_id_replacer : (p : BufferPool R) → (next_page_id p).0.replacer ≡ p.replacer
  unfolding next_page_id
  next_page_id_replacer p = ground arith

  -- The pool after `new_page` on a frame of the free list.
  abbrev created : BufferPool R → ℕ → List ℕ → R → BufferPool R
  created p fid rest r =
      record (place (record ((next_page_id p).0) { free_list = rest }) fid (next_page_id p).1
        zero_bytes) { replacer = r }

  created_runs :
      (p : BufferPool R) (fid : ℕ) (rest : List ℕ) (r : R)
      → p.free_list ≡ fid ∷ rest
      → rep.pin p.replacer fid ≡ returns r
      → new_page rep p ≡ returns (created p fid rest r, some (fid, (next_page_id p).1))
  unfolding new_page find_replacement place edit
  created_runs p fid rest r f pinned =
      ground (arith, next_page_id_rest p rest, next_page_id_replacer p)

  created-IsConsistent :
      (p : BufferPool R) (fid : ℕ) (rest : List ℕ) (r : R)
      → IsConsistent p
      → p.free_list ≡ fid ∷ rest
      → IsConsistent (created p fid rest r)
  created-IsConsistent p fid rest r c f =
      let s = next_page_id-SameFrames p in
      SameFrames-IsConsistent
        (record {
          free_list = refl;
          page_table = refl;
          pool_size = refl;
          page_id = λ k. refl;
          bytes = λ k. refl;
        })
        (place-IsConsistent (next_page_id p).0 fid rest (next_page_id p).1 zero_bytes
          (SameFrames-IsConsistent s c) (s.free_list ∙ f) length-zero_bytes)

  new_page_full :
      (p : BufferPool R)
      → Inv st p
      → p.free_list ≡ []
      → new_page rep p ≡ (if st.stuck p.replacer then blocks else returns (p, none))
  unfolding new_page find_replacement
  new_page_full p v f = ground (arith, st.victim_lem p.replacer v.good)

  creates_lem : (p : BufferPool R) → Inv st p → StepResult p (step rep p creates)
  unfolding step
  creates_lem p v = elim (List-cases p.free_list) [
    | inr (fid, rest, f) ↦
        let (r, pinned, good) = st.pin_lem p.replacer fid v.good in
        goes (created p fid rest r) (rw (created_runs p fid rest r f pinned))
          (record { consistent = created-IsConsistent p fid rest r v.consistent f; good = good })
    | inl f ↦ elim (Bool-cases (st.stuck p.replacer)) [
      | inl s ↦ stops f s (ground (arith, new_page_full p v f))
      | inr s ↦ goes p (ground (arith, new_page_full p v f)) v
    ]
  ]

  -- Changes of one page that keep its id and the length of its bytes.
  edit-IsConsistent :
      (p : BufferPool R) (fid : ℕ) (f : Page → Page)
      → ((g : Page) → ((f g).page_id ≡ g.page_id))
      → ((g : Page) → length g.bytes ≡ page_size → length (f g).bytes ≡ page_size)
      → IsConsistent p
      → IsConsistent (edit p fid f)
  unfolding edit
  edit-IsConsistent p fid f same whole c = record {
    free_distinct = c.free_distinct;
    free_range = c.free_range;
    free_blank = λ k h. ground (arith, c.free_blank k, same (p.pages k));
    mapped_range = c.mapped_range;
    mapped_used = c.mapped_used;
    mapped_id = λ i k h. ground (arith, c.mapped_id i k, same (p.pages k));
    whole = λ k. ground (arith, c.whole k, whole (p.pages k));
  }

  unpins_lem :
      (p : BufferPool R) (i : ℕ) (dirty : Bool) (access : AccessType)
      → Inv st p
      → StepResult p (step rep p (unpins i dirty access))
  unfolding step unpin_page
  unpins_lem p i dirty access v = elim (Option-cases (lookup i p.page_table)) [
    | inl e ↦ goes p (ground arith) v
    | inr (fid, e) ↦
        let (r, o, good) = st.unpin_lem p.replacer fid v.good in
        let (r', o', good') = st.record_access_lem r fid access good in
        goes (record (edit p fid (unpinned dirty)) { replacer = r' }) (ground arith)
          (record {
            consistent =
                SameFrames-IsConsistent
                  (record {
                    free_list = refl;
                    page_table = refl;
                    pool_size = refl;
                    page_id = λ k. refl;
                    bytes = λ k. refl;
                  })
                  (edit-IsConsistent p fid (unpinned dirty) (unpinned_id dirty)
                    (unpinned_whole dirty) v.consistent);
            good = good';
          })
  ]

  edit_replacer :
      (p : BufferPool R) (fid : ℕ) (f : Page → Page) → (edit p fid f).replacer ≡ p.replacer
  unfolding edit
  edit_replacer p fid f = refl

  flush_page_replacer : (p : BufferPool R) (i : ℕ) → (flush_page p i).0.replacer ≡ p.replacer
  unfolding flush_page
  flush_page_replacer p i = ground arith

  flush_frame_replacer :
      (p : BufferPool R) (i fid : ℕ) → (flush_frame p i fid).replacer ≡ p.replacer
  unfolding flush_frame
  flush_frame_replacer p i fid = ground arith

  flush_entries_replacer :
      (entries : List (ℕ × ℕ)) (p : BufferPool R) → (flush_entries entries p).replacer ≡ p.replacer
  unfolding flush_entries
  flush_entries_replacer [] p = refl
  flush_entries_replacer ((i, fid) ∷ rest) p =
      flush_entries_replacer rest (flush_frame p (p.pages fid).page_id fid)
      ∙ flush_frame_replacer p (p.pages fid).page_id fid

  delete_page_replacer : (p : BufferPool R) (i : ℕ) → (delete_page p i).0.replacer ≡ p.replacer
  unfolding delete_page
  delete_page_replacer p i = ground arith

  after :
      (p : BufferPool R) (r : Request) (rs : List Request)
      → StepResult p (step rep p r)
      → ((q : BufferPool R)
          → Inv st q
          → ((q' : BufferPool R) × (run rep q rs ≡ returns q') × Inv st q')
            ⊎ (run rep q rs ≡ blocks))
      → ((q : BufferPool R) × (run rep p (r ∷ rs) ≡ returns q) × Inv st q)
        ⊎ (run rep p (r ∷ rs) ≡ blocks)
  unfolding run
  after p r rs (goes q o v) rest = rw (o, run) (rest q v)
  after p r rs (stops f s o) rest = inr (rw (o, run))

  -- Each request on a consistent pool comes back with a consistent pool, or finds no free frame and
  -- waits for ever on the replacer.
  pub step_lem : (p : BufferPool R) (r : Request) → Inv st p → StepResult p (step rep p r)
  unfolding step flush_all_pages
  step_lem p (fetches i) v = fetches_lem p i (fetch_page_lem st p i v) v
  step_lem p creates v = creates_lem p v
  step_lem p (unpins i dirty access) v = unpins_lem p i dirty access v
  step_lem p (flushes i) v = goes (flush_page p i).0 refl (record {
    consistent = flush_page-IsConsistent p i v.consistent;
    good = subst st.Good (sym (flush_page_replacer p i)) v.good;
  })
  step_lem p flushes_all v = goes (flush_all_pages p) refl (record {
    consistent = flush_entries-IsConsistent p.page_table p v.consistent;
    good = subst st.Good (sym (flush_entries_replacer p.page_table p)) v.good;
  })
  step_lem p (deletes i) v = goes (delete_page p i).0 refl (record {
    consistent = delete_page-IsConsistent p i v.consistent;
    good = subst st.Good (sym (delete_page_replacer p i)) v.good;
  })
  step_lem p (drops_guard fid dirty) v = goes (edit p fid (drop_guard dirty)) refl (record {
    consistent =
        edit-IsConsistent p fid (drop_guard dirty) (drop_guard_id dirty) (drop_guard_whole dirty)
          v.consistent;
    good = subst st.Good (sym (edit_replacer p fid (drop_guard dirty))) v.good;
  })
  step_lem p (writes fid bytes h) v =
      let f : Page → Page = λ page. record page { bytes = bytes } in
      goes (edit p fid f) refl (record {
        consistent = edit-IsConsistent p fid f (λ g. refl) (λ g _. h) v.consistent;
        good = subst st.Good (sym (edit_replacer p fid f)) v.good;
      })

  -- A history of requests on a consistent pool ends in a consistent pool, or waits for ever.
  pub run_lem :
      (p : BufferPool R) (rs : List Request)
      → Inv st p
      → ((q : BufferPool R) × (run rep p rs ≡ returns q) × Inv st q) ⊎ (run rep p rs ≡ blocks)
  unfolding run
  run_lem p [] v = inl (p, refl, v)
  run_lem p (r ∷ rs) v = after p r rs (step_lem p r v) (λ q w. run_lem q rs w)
