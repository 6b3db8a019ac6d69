-- ===== src/Buffer/Replacer.antt =====
-- `class Replacer` of src/buffer/replacer.h: the interface that the buffer pool calls. An operation
-- takes the replacer's mutex, so it is an `Outcome`.
use lattice_db_next_gen_dbms.Prelude.{ℕ, Bool, Option}
use lattice_db_next_gen_dbms.Prelude.Outcome.{Outcome}

pub data AccessType : Type 0 where
  unknown scan index : AccessType
  lookup : AccessType

pub record Replacer (R : Type 0) : Type 0 where
  pub victim : R → Outcome (R × Option ℕ)
  pub pin : R → ℕ → Outcome R
  pub unpin : R → ℕ → Outcome R
  pub record_access : R → ℕ → AccessType → Outcome R
  pub set_evictable : R → ℕ → Bool → Outcome R
  pub remove : R → ℕ → Outcome R
  pub size : R → Outcome (R × ℕ)
