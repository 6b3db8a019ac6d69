-- ===== src/Storage/Page.antt =====
-- `Page` and `PageGuard` of src/storage/page.h. `pin_count` is never negative between two calls.
use lattice_db_next_gen_dbms.Prelude.{ℕ, ◌+◌, ◌-◌, ◌^◌, ◌≡◌, Bool, true, false, List, arith}
use lattice_db_next_gen_dbms.Prelude.Tests.{◌==◌, ltb, if◌then◌else◌}
use lattice_db_next_gen_dbms.Prelude.Lists.{length, replicate, length-replicate}

abbrev pub page_size : ℕ
page_size = 4096

abbrev pub invalid_page_id : ℕ
invalid_page_id = 2 ^ 32 - 1

pub record Page : Type 0 where
  pub bytes : List ℕ
  pub page_id : ℕ
  pub pin_count : ℕ
  pub is_dirty : Bool
  pub is_deleted : Bool

-- `memset(data_, 0, PAGE_SIZE)`.
unfoldable pub zero_bytes : List ℕ
zero_bytes = replicate page_size 0

pub length-zero_bytes : length zero_bytes ≡ page_size
unfolding zero_bytes
length-zero_bytes = length-replicate {A = ℕ} page_size 0

unfoldable pub reset : Page
reset = record {
  bytes = zero_bytes;
  page_id = invalid_page_id;
  pin_count = 0;
  is_dirty = false;
  is_deleted = false;
}

unfoldable pub pin : Page → Page
pin p = record p { pin_count = p.pin_count + 1 }

unfoldable pub unpin : Page → Page
unpin p = record p { pin_count = if p.pin_count == 0 then 0 else p.pin_count - 1 }

abbrev pub is_pinned : Page → Bool
is_pinned p = ltb 0 p.pin_count

abbrev pub set_dirty : Bool → Page → Page
set_dirty d p = record p { is_dirty = d }

abbrev set_deleted : Bool → Page → Page
set_deleted d p = record p { is_deleted = d }

abbrev pub set_page_id : ℕ → Page → Page
set_page_id i p = record p { page_id = i }

-- `PageGuard(page, is_dirty)` pins the page again, and `~PageGuard` gives that pin back.
unfoldable pub guard_page : Page → Page
unfolding pin
guard_page p = pin p

unfoldable pub drop_guard : Bool → Page → Page
unfolding unpin
drop_guard dirty p = unpin (if dirty then set_dirty true p else p)

-- A guard leaves the pins of its page as it found them.
pub drop_guard-guard_page :
    (d : Bool) (p : Page)
    → ((drop_guard d (guard_page p)).pin_count ≡ p.pin_count)
      × ((drop_guard d (guard_page p)).bytes ≡ p.bytes)
unfolding drop_guard guard_page
drop_guard-guard_page d p = ground arith
