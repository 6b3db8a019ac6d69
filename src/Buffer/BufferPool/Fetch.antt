-- ===== src/Buffer/BufferPool/Fetch.antt =====
-- What `fetch_page` does, in every case.
use lattice_db_next_gen_dbms.Prelude.{
  ℕ, ◌+◌, ◌≡◌, refl, true, false, List, [], ◌∷◌, Option, none, some, arith, inl, inr,
}
use lattice_db_next_gen_dbms.Prelude.Tests.{if◌then◌else◌, Option-cases, Bool-cases}
use lattice_db_next_gen_dbms.Prelude.Lists.{List-cases}
use lattice_db_next_gen_dbms.Prelude.Dict.{lookup, lookup-insert}
use lattice_db_next_gen_dbms.Prelude.Members.{contains}
use lattice_db_next_gen_dbms.Prelude.Outcome.{Outcome, returns, blocks}
use lattice_db_next_gen_dbms.Storage.Page
use lattice_db_next_gen_dbms.Storage.Page.{Page, guard_page}
use lattice_db_next_gen_dbms.Buffer.Replacer.{Replacer}
use lattice_db_next_gen_dbms.Buffer.BufferPool.{
  BufferPool, edit, write_back, page_from_disk, place, pin_frame, load_page, fetch_page_impl,
  find_replacement, fetch_page,
}
use lattice_db_next_gen_dbms.Buffer.BufferPool.Invariant.{
  Stalls, Inv, IsConsistent, SameFrames, SameFrames-IsConsistent, place-IsConsistent,
  length-page_from_disk,
}

-- The frame `fid` of `q` holds page `i` with these bytes, pinned `pins` times.
pub record Holds {R : Type 0} (q : BufferPool R) (i fid : ℕ) (bytes : List ℕ) (pins : ℕ)
    : Type 0 where
  pub entered : lookup i q.page_table ≡ some fid
  pub page_id : (q.pages fid).page_id ≡ i
  pub content : (q.pages fid).bytes ≡ bytes
  pub pin_count : (q.pages fid).pin_count ≡ pins

module _ {R : Type 0} {rep : Replacer R} (st : Stalls rep) where
  pub data FetchResult (p : BufferPool R) (i : ℕ) (o : Outcome (BufferPool R × Option ℕ))
      : Type 0 where
    hit :
        (fid : ℕ) (q : BufferPool R)
        → lookup i p.page_table ≡ some fid
        → o ≡ returns (q, some fid)
        → Inv st q
        → Holds q i fid (p.pages fid).bytes ((p.pages fid).pin_count + 2)
        → FetchResult p i o
    loaded :
        (fid : ℕ) (rest : List ℕ) (q : BufferPool R)
        → lookup i p.page_table ≡ none
        → p.free_list ≡ fid ∷ rest
        → o ≡ returns (q, some fid)
        → Inv st q
        → Holds q i fid (page_from_disk p i) 2
        → FetchResult p i o
    refused :
        lookup i p.page_table ≡ none
        → p.free_list ≡ []
        → st.stuck p.replacer ≡ false
        → o ≡ returns (p, none)
        → FetchResult p i o
    blocked :
        lookup i p.page_table ≡ none
        → p.free_list ≡ []
        → st.stuck p.replacer ≡ true
        → o ≡ blocks
        → FetchResult p i o

  abbrev guarded : BufferPool R → ℕ → R → BufferPool R
  guarded p fid r = edit (record p { replacer = r }) fid guard_page

  guarded-SameFrames : (p : BufferPool R) (fid : ℕ) (r : R) → SameFrames p (guarded p fid r)
  unfolding edit guard_page
  guarded-SameFrames p fid r = record {
    free_list = refl;
    page_table = refl;
    pool_size = refl;
    page_id = λ k. ground arith;
    bytes = λ k. ground arith;
  }

  edit_pin-SameFrames : (p : BufferPool R) (fid : ℕ) → SameFrames p (edit p fid Page.pin)
  unfolding edit Page.pin
  edit_pin-SameFrames p fid = record {
    free_list = refl;
    page_table = refl;
    pool_size = refl;
    page_id = λ k. ground arith;
    bytes = λ k. ground arith;
  }

  fetch_hit_runs :
      (p : BufferPool R) (i fid : ℕ) (r : R)
      → lookup i p.page_table ≡ some fid
      → rep.pin p.replacer fid ≡ returns r
      → fetch_page rep p i ≡ returns (guarded (edit p fid Page.pin) fid r, some fid)
  unfolding fetch_page fetch_page_impl pin_frame edit
  fetch_hit_runs p i fid r e pinned = ground arith

  fetch_hit :
      (p : BufferPool R) (i fid : ℕ)
      → Inv st p
      → lookup i p.page_table ≡ some fid
      → FetchResult p i (fetch_page rep p i)
  unfolding edit Page.pin guard_page
  fetch_hit p i fid v e =
      let (r, pinned, good) = st.pin_lem p.replacer fid v.good in
      hit fid (guarded (edit p fid Page.pin) fid r) e (fetch_hit_runs p i fid r e pinned)
        (record {
          consistent =
              SameFrames-IsConsistent (guarded-SameFrames (edit p fid Page.pin) fid r)
                (SameFrames-IsConsistent (edit_pin-SameFrames p fid) v.consistent);
          good = good;
        })
        (record {
          entered = e;
          page_id = ground (arith, v.consistent.mapped_id i fid e);
          content = ground arith;
          pin_count = ground arith;
        })

  -- A frame on the free list holds no page, so nothing is written back.
  write_back_free :
      (p : BufferPool R) (fid : ℕ) (rest : List ℕ)
      → IsConsistent p
      → p.free_list ≡ fid ∷ rest
      → write_back (record p { free_list = rest }) fid ≡ record p { free_list = rest }
  unfolding write_back contains
  write_back_free p fid rest c e = ground (arith, c.free_blank fid)

  fetch_load_runs :
      (p : BufferPool R) (i fid : ℕ) (rest : List ℕ) (r : R)
      → IsConsistent p
      → lookup i p.page_table ≡ none
      → p.free_list ≡ fid ∷ rest
      → rep.pin p.replacer fid ≡ returns r
      → fetch_page rep p i
        ≡ returns (
          guarded (place (record p { free_list = rest }) fid i (page_from_disk p i)) fid r,
          some fid,
        )
  unfolding fetch_page fetch_page_impl find_replacement load_page pin_frame place edit
      page_from_disk
  fetch_load_runs p i fid rest r c e f pinned = ground (arith, write_back_free p fid rest c f)

  fetch_load :
      (p : BufferPool R) (i fid : ℕ) (rest : List ℕ)
      → Inv st p
      → lookup i p.page_table ≡ none
      → p.free_list ≡ fid ∷ rest
      → FetchResult p i (fetch_page rep p i)
  unfolding place guard_page
  fetch_load p i fid rest v e f =
      let bytes : List ℕ = page_from_disk p i in
      let placed : BufferPool R = place (record p { free_list = rest }) fid i bytes in
      let (r, pinned, good) = st.pin_lem p.replacer fid v.good in
      loaded fid rest (guarded placed fid r) e f
        (fetch_load_runs p i fid rest r v.consistent e f pinned)
        (record {
          consistent =
              SameFrames-IsConsistent (guarded-SameFrames placed fid r)
                (place-IsConsistent p fid rest i bytes v.consistent f (length-page_from_disk p i));
          good = good;
        })
        (record {
          entered = ground (arith, lookup-insert i i fid p.page_table);
          page_id = ground arith;
          content = ground arith;
          pin_count = ground arith;
        })

  fetch_full :
      (p : BufferPool R) (i : ℕ)
      → Inv st p
      → lookup i p.page_table ≡ none
      → p.free_list ≡ []
      → fetch_page rep p i ≡ (if st.stuck p.replacer then blocks else returns (p, none))
  unfolding fetch_page fetch_page_impl find_replacement
  fetch_full p i v e f = ground (arith, st.victim_lem p.replacer v.good)

  -- `fetch_page` on a consistent pool: a page of the table is pinned and found as it is; any other
  -- takes a frame of the free list, if there is one, and is read from the disk; with no free frame
  -- the call gives no page, or never comes back if some frame may be evicted. A page that is given
  -- is pinned once by the pool and once by its guard, and the pool stays consistent.
  pub fetch_page_lem : (p : BufferPool R) (i : ℕ) → Inv st p → FetchResult p i (fetch_page rep p i)
  fetch_page_lem p i v = elim (Option-cases (lookup i p.page_table)) [
    | inr (fid, e) ↦ fetch_hit p i fid v e
    | inl e ↦ elim (List-cases p.free_list) [
      | inr (fid, rest, f) ↦ fetch_load p i fid rest v e f
      | inl f ↦ elim (Bool-cases (st.stuck p.replacer)) [
        | inl s ↦ blocked e f s (ground (arith, fetch_full p i v e f))
        | inr s ↦ refused e f s (ground (arith, fetch_full p i v e f))
      ]
    ]
  ]
