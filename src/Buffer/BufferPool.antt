-- ===== src/Buffer/BufferPool.antt =====
-- `BufferPoolManager` of src/buffer/buffer_pool_manager.h and buffer_pool_manager.cpp, over any
-- `Replacer`. Every public call holds `latch_` from its start to its end and makes none of the calls
-- that take it, so a call is one step; it does not come back if the replacer's does not. A pointer
-- to a page is the index of its frame. `next_id` is the `static` counter of `new_page`.
pub mod Invariant
pub mod Fetch
pub mod Steps
pub mod Eviction
pub mod LruPool
mod Tests
use lattice_db_next_gen_dbms.Prelude.{
  ℕ, zero, suc, ◌+◌, ◌%◌, Bool, true, false, not, ◌&&◌, List, [], ◌∷◌, ◌++◌, Option, none, some,
}
use lattice_db_next_gen_dbms.Prelude.Tests.{◌==◌, if◌then◌else◌}
use lattice_db_next_gen_dbms.Prelude.Lists.{length}
use lattice_db_next_gen_dbms.Prelude.Dict.{lookup, insert, erase}
use lattice_db_next_gen_dbms.Prelude.Outcome.{Outcome, returns, ◌>>=◌}
use lattice_db_next_gen_dbms.Storage.Page
use lattice_db_next_gen_dbms.Storage.Page.{
  Page, invalid_page_id, zero_bytes, is_pinned, set_dirty, guard_page,
}
use lattice_db_next_gen_dbms.Storage.DiskManager.{
  DiskManager, u32, read_page, write_page, allocate_page,
}
use lattice_db_next_gen_dbms.Buffer.Replacer.{Replacer, AccessType}

pub record BufferPool (R : Type 0) : Type 0 where
  pub pool_size : ℕ
  pub pages : ℕ → Page
  pub disk_manager : Option DiskManager
  pub replacer : R
  pub free_list : List ℕ
  pub page_table : List (ℕ × ℕ)
  pub next_id : ℕ

unfoldable pub frames_from : ℕ → ℕ → List ℕ
frames_from i zero = []
frames_from i (suc n) = i ∷ frames_from (i + 1) n

module _ {R : Type 0} where
  unfoldable pub init : ℕ → Option DiskManager → R → ℕ → BufferPool R
  unfolding frames_from
  init pool_size disk replacer next_id = record {
    pool_size = pool_size;
    pages = λ _. Page.reset;
    disk_manager = disk;
    replacer = replacer;
    free_list = frames_from 0 pool_size;
    page_table = [];
    next_id = next_id;
  }

  -- A change of one frame's page.
  unfoldable pub edit : BufferPool R → ℕ → (Page → Page) → BufferPool R
  edit p fid f = record p { pages = λ i. if i == fid then f (p.pages i) else p.pages i }

  -- "If frame had a valid page and dirty, flush".
  unfoldable pub write_back : BufferPool R → ℕ → BufferPool R
  unfolding edit
  write_back p fid = elim p.disk_manager [
    | none ↦ p
    | some d ↦
        let page = p.pages fid in
        if not (page.page_id == invalid_page_id) && page.is_dirty
        then record (edit p fid (set_dirty false)) {
          disk_manager = some (write_page d page.page_id page.bytes);
        }
        else p
  ]

  -- What `read_page` leaves in a page that was reset.
  unfoldable pub page_from_disk : BufferPool R → ℕ → List ℕ
  page_from_disk p page_id = elim p.disk_manager [
    | none ↦ zero_bytes
    | some d ↦ read_page d page_id
  ]

  -- The frame is reset, given the bytes and the page id, pinned, and entered in the page table.
  unfoldable pub place : BufferPool R → ℕ → ℕ → List ℕ → BufferPool R
  unfolding edit Page.reset Page.pin
  place p fid page_id bytes =
      let placed =
        edit p fid (λ _. Page.pin (record Page.reset { bytes = bytes; page_id = page_id })) in
      record placed { page_table = insert page_id fid p.page_table }

  -- `allocate_page`, or the static counter where there is no disk manager.
  unfoldable pub next_page_id : BufferPool R → BufferPool R × ℕ
  unfolding allocate_page
  next_page_id p = elim p.disk_manager [
    | none ↦ (record p { next_id = (p.next_id + 1) % u32 }, p.next_id)
    | some d ↦ let (e, i) = allocate_page d in (record p { disk_manager = some e }, i)
  ]

  module _ (rep : Replacer R) where
    unfoldable pub find_replacement : BufferPool R → Outcome (BufferPool R × Option ℕ)
    find_replacement p = elim p.free_list [
      | fid ∷ rest ↦ returns (record p { free_list = rest }, some fid)
      | [] ↦ do (r, found) ← rep.victim p.replacer; returns (record p { replacer = r }, found)
    ]

    -- `replacer_->pin(fid)`, then the frame.
    unfoldable pub pin_frame : BufferPool R → ℕ → Outcome (BufferPool R × Option ℕ)
    pin_frame p fid = do r ← rep.pin p.replacer fid; returns (record p { replacer = r }, some fid)

    unfoldable pub load_page : BufferPool R → ℕ → ℕ → Outcome (BufferPool R × Option ℕ)
    load_page p page_id fid =
        let flushed = write_back p fid in
        pin_frame (place flushed fid page_id (page_from_disk flushed page_id)) fid

    unfoldable pub fetch_page_impl : BufferPool R → ℕ → Outcome (BufferPool R × Option ℕ)
    fetch_page_impl p page_id = elim (lookup page_id p.page_table) [
      | some fid ↦ pin_frame (edit p fid Page.pin) fid
      | none ↦ do
        (q, found) ← find_replacement p
        elim found [ none ↦ returns (q, none) | some fid ↦ load_page q page_id fid ]
    ]

    -- `PageGuard(fetch_page_impl(page_id))`.
    unfoldable pub fetch_page : BufferPool R → ℕ → Outcome (BufferPool R × Option ℕ)
    fetch_page p page_id = do
      (q, found) ← fetch_page_impl p page_id
      elim found [ none ↦ returns (q, none) | some fid ↦ returns (edit q fid guard_page, some fid) ]

    -- The frame, with the page id beside it.
    unfoldable pub new_page : BufferPool R → Outcome (BufferPool R × Option (ℕ × ℕ))
    new_page p = do
      (q, found) ← find_replacement p
      elim found [
        | none ↦ returns (q, none)
        | some fid ↦
            let (q', page_id) = next_page_id q in
            let placed = place q' fid page_id zero_bytes in
            do
              r ← rep.pin placed.replacer fid
              returns (record placed { replacer = r }, some (fid, page_id))
      ]

    unfoldable pub unpin_page : BufferPool R → ℕ → Bool → AccessType → Outcome (BufferPool R × Bool)
    unfolding edit Page.unpin
    unpin_page p page_id dirty access = elim (lookup page_id p.page_table) [
      | none ↦ returns (p, false)
      | some fid ↦
          let q = edit p fid (λ page. Page.unpin (if dirty then set_dirty true page else page)) in
          do
            r ← rep.unpin q.replacer fid
            r' ← rep.record_access r fid access
            returns (record q { replacer = r' }, true)
    ]

  -- The body of `flush_page` and of the loop of `flush_all_pages`.
  unfoldable pub flush_frame : BufferPool R → ℕ → ℕ → BufferPool R
  unfolding edit
  flush_frame p page_id fid = elim p.disk_manager [
    | none ↦ p
    | some d ↦
        if (p.pages fid).is_dirty
        then record (edit p fid (set_dirty false)) {
          disk_manager = some (write_page d page_id (p.pages fid).bytes);
        }
        else p
  ]

  unfoldable pub flush_page : BufferPool R → ℕ → BufferPool R × Bool
  unfolding flush_frame
  flush_page p page_id = elim (lookup page_id p.page_table) [
    | none ↦ (p, false)
    | some fid ↦ (flush_frame p page_id fid, true)
  ]

  unfoldable pub flush_entries : List (ℕ × ℕ) → BufferPool R → BufferPool R
  flush_entries [] p = p
  flush_entries ((_, fid) ∷ rest) p = flush_entries rest (flush_frame p (p.pages fid).page_id fid)

  unfoldable pub flush_all_pages : BufferPool R → BufferPool R
  unfolding flush_entries
  flush_all_pages p = flush_entries p.page_table p

  unfoldable pub delete_page : BufferPool R → ℕ → BufferPool R × Bool
  unfolding edit Page.reset
  delete_page p page_id = elim (lookup page_id p.page_table) [
    | none ↦ (p, true)
    | some fid ↦ if is_pinned (p.pages fid) then (p, false) else (
      record (edit p fid (λ _. Page.reset)) {
        page_table = erase page_id p.page_table;
        free_list = p.free_list ++ fid ∷ [];
      },
      true,
    )
  ]

  abbrev reset_memory : BufferPool R → BufferPool R
  unfolding frames_from
  reset_memory p = record p { page_table = []; free_list = frames_from 0 p.pool_size }

  unfoldable pub get_free_list_size : BufferPool R → ℕ
  get_free_list_size p = length p.free_list % u32
