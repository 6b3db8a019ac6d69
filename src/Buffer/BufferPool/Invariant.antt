-- ===== src/Buffer/BufferPool/Invariant.antt =====
-- The free list, the page table and the frames agree. What is asked of the replacer is `Stalls`: its
-- `victim` never hands out a frame, and its other calls come back. `LRUReplacer` is such a replacer.
use lattice_db_next_gen_dbms.Prelude.{
  ℕ, ◌<◌, ◌≡◌, sym, ◌∙◌, ap, subst, Bool, true, false, List, [], ◌∷◌, none, some, arith, inl, inr,
}
use lattice_db_next_gen_dbms.Prelude.Tests.{if◌then◌else◌, Option-cases}
use lattice_db_next_gen_dbms.Prelude.Lists.{length}
use lattice_db_next_gen_dbms.Prelude.Dict.{lookup, lookup-insert, lookup-erase}
use lattice_db_next_gen_dbms.Prelude.Members.{contains, Distinct, contains-append, snoc-Distinct}
use lattice_db_next_gen_dbms.Prelude.Outcome.{returns, blocks}
use lattice_db_next_gen_dbms.Storage.Page.{page_size, invalid_page_id, length-zero_bytes}
use lattice_db_next_gen_dbms.Storage.DiskManager.{length-read_page}
use lattice_db_next_gen_dbms.Buffer.Replacer.{Replacer, AccessType}
use lattice_db_next_gen_dbms.Buffer.BufferPool.{
  BufferPool, write_back, page_from_disk, place, flush_frame, flush_page, flush_entries,
  delete_page,
}

pub record Stalls {R : Type 0} (rep : Replacer R) : Type 1 where
  pub Good : R → Type 0
  pub stuck : R → Bool
  pub victim_lem : (r : R) → Good r → rep.victim r ≡ (if stuck r then blocks else returns (r, none))
  pub pin_lem : (r : R) (fid : ℕ) → Good r → (r' : R) × (rep.pin r fid ≡ returns r') × Good r'
  pub unpin_lem : (r : R) (fid : ℕ) → Good r → (r' : R) × (rep.unpin r fid ≡ returns r') × Good r'
  pub record_access_lem :
      (r : R) (fid : ℕ) (access : AccessType)
      → Good r
      → (r' : R) × (rep.record_access r fid access ≡ returns r') × Good r'

pub record IsConsistent {R : Type 0} (p : BufferPool R) : Type 0 where
  pub free_distinct : Distinct p.free_list
  pub free_range : (k : ℕ) → contains k p.free_list ≡ true → k < p.pool_size
  pub free_blank : (k : ℕ) → contains k p.free_list ≡ true → (p.pages k).page_id ≡ invalid_page_id
  pub mapped_range : (i fid : ℕ) → lookup i p.page_table ≡ some fid → fid < p.pool_size
  pub mapped_used :
      (i fid : ℕ) → lookup i p.page_table ≡ some fid → contains fid p.free_list ≡ false
  pub mapped_id : (i fid : ℕ) → lookup i p.page_table ≡ some fid → (p.pages fid).page_id ≡ i
  pub whole : (fid : ℕ) → length (p.pages fid).bytes ≡ page_size

module _ {R : Type 0} where
  pub length-page_from_disk : (p : BufferPool R) (i : ℕ) → length (page_from_disk p i) ≡ page_size
  unfolding page_from_disk
  length-page_from_disk p i = elim (Option-cases p.disk_manager) [
    | inl e ↦ rw (e, page_from_disk) length-zero_bytes
    | inr (d, e) ↦ rw (e, page_from_disk) (length-read_page d i)
  ]

  -- What the frames hold and the tables are the same: pins, dirty marks and the replacer may differ.
  pub record SameFrames (p q : BufferPool R) : Type 0 where
    pub free_list : q.free_list ≡ p.free_list
    pub page_table : q.page_table ≡ p.page_table
    pub pool_size : q.pool_size ≡ p.pool_size
    pub page_id : (k : ℕ) → (q.pages k).page_id ≡ (p.pages k).page_id
    pub bytes : (k : ℕ) → (q.pages k).bytes ≡ (p.pages k).bytes

  pub SameFrames-IsConsistent :
      {p q : BufferPool R} → SameFrames p q → IsConsistent p → IsConsistent q
  SameFrames-IsConsistent {p} {q} s c = record {
    free_distinct = subst Distinct (sym s.free_list) c.free_distinct;
    free_range = λ k h. ground (arith, c.free_range k, s.free_list, s.pool_size);
    free_blank = λ k h. ground (arith, c.free_blank k, s.free_list, s.page_id k);
    mapped_range = λ i f h. ground (arith, c.mapped_range i f, s.page_table, s.pool_size);
    mapped_used = λ i f h. ground (arith, c.mapped_used i f, s.page_table, s.free_list);
    mapped_id = λ i f h. ground (arith, c.mapped_id i f, s.page_table, s.page_id f);
    whole = λ k. ap length (s.bytes k) ∙ c.whole k;
  }

  pub write_back-SameFrames : (p : BufferPool R) (fid : ℕ) → SameFrames p (write_back p fid)
  unfolding write_back
  write_back-SameFrames p fid = record {
    free_list = ground arith;
    page_table = ground arith;
    pool_size = ground arith;
    page_id = λ k. ground arith;
    bytes = λ k. ground arith;
  }

  pub flush_frame-SameFrames :
      (p : BufferPool R) (page_id fid : ℕ) → SameFrames p (flush_frame p page_id fid)
  unfolding flush_frame
  flush_frame-SameFrames p page_id fid = record {
    free_list = ground arith;
    page_table = ground arith;
    pool_size = ground arith;
    page_id = λ k. ground arith;
    bytes = λ k. ground arith;
  }

  pub flush_page-IsConsistent :
      (p : BufferPool R) (i : ℕ) → IsConsistent p → IsConsistent (flush_page p i).0
  unfolding flush_page
  flush_page-IsConsistent p i c = elim (Option-cases (lookup i p.page_table)) [
    | inl e ↦ rw (e, flush_page) c
    | inr (fid, e) ↦ rw (e, flush_page) (SameFrames-IsConsistent (flush_frame-SameFrames p i fid) c)
  ]

  pub flush_entries-IsConsistent :
      (entries : List (ℕ × ℕ)) (p : BufferPool R)
      → IsConsistent p
      → IsConsistent (flush_entries entries p)
  unfolding flush_entries
  flush_entries-IsConsistent [] p c = c
  flush_entries-IsConsistent ((i, fid) ∷ rest) p c =
      flush_entries-IsConsistent rest (flush_frame p (p.pages fid).page_id fid)
        (SameFrames-IsConsistent (flush_frame-SameFrames p (p.pages fid).page_id fid) c)

  pub delete_page-IsConsistent :
      (p : BufferPool R) (i : ℕ) → IsConsistent p → IsConsistent (delete_page p i).0
  unfolding delete_page contains
  delete_page-IsConsistent p i c = elim (Option-cases (lookup i p.page_table)) [
    | inl e ↦ rw (e, delete_page) c
    | inr (fid, e) ↦ record {
      free_distinct =
          ground (arith, c.free_distinct, c.mapped_used i fid e, snoc-Distinct fid p.free_list);
      free_range = λ k h.
          ground (
            arith,
            c.free_range k,
            c.mapped_range i fid e,
            contains-append k p.free_list (fid ∷ []),
          );
      free_blank = λ k h. ground (arith, c.free_blank k, contains-append k p.free_list (fid ∷ []));
      mapped_range = λ j f h. ground (arith, c.mapped_range j f, lookup-erase i j p.page_table);
      mapped_used = λ j f h. ground (
        arith,
        c.mapped_used j f,
        c.mapped_id j f,
        c.mapped_id i fid,
        lookup-erase i j p.page_table,
        contains-append f p.free_list (fid ∷ []),
      );
      mapped_id = λ j f h.
          ground (arith, c.mapped_id j f, c.mapped_id i fid, lookup-erase i j p.page_table);
      whole = λ k. ground (arith, c.whole k, length-zero_bytes);
    }
  ]

  -- A frame taken off the free list is given a page.
  pub place-IsConsistent :
      (p : BufferPool R) (fid : ℕ) (rest : List ℕ) (page_id : ℕ) (bytes : List ℕ)
      → IsConsistent p
      → p.free_list ≡ fid ∷ rest
      → length bytes ≡ page_size
      → IsConsistent (place (record p { free_list = rest }) fid page_id bytes)
  unfolding place contains
  place-IsConsistent p fid rest page_id bytes c e b =
      let d : Distinct (fid ∷ rest) = subst Distinct e c.free_distinct in
      record {
        free_distinct = d.1;
        free_range = λ k h. ground (arith, c.free_range k);
        free_blank = λ k h. ground (arith, d.0, c.free_blank k);
        mapped_range = λ i f h.
            ground (
              arith,
              c.free_range fid,
              c.mapped_range i f,
              lookup-insert page_id i fid p.page_table,
            );
        mapped_used = λ i f h.
            ground (arith, d.0, c.mapped_used i f, lookup-insert page_id i fid p.page_table);
        mapped_id = λ i f h.
            ground
              (arith, c.mapped_used i f, c.mapped_id i f, lookup-insert page_id i fid p.page_table);
        whole = λ k. ground (arith, c.whole k);
      }

module _ {R : Type 0} {rep : Replacer R} (st : Stalls rep) where
  pub record Inv (p : BufferPool R) : Type 0 where
    pub consistent : IsConsistent p
    pub good : st.Good p.replacer
