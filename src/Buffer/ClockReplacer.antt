-- ===== src/Buffer/ClockReplacer.antt =====
-- `ClockReplacer` of src/buffer/replacer.h and replacer.cpp. No operation calls another one while it
-- holds `latch_`, so the mutex is left out. `clock` is the array `clock_` of `capacity` slots.
pub mod Passing
pub mod Sweep
mod Tests
use lattice_db_next_gen_dbms.Prelude.{
  ℕ, zero, suc, ◌+◌, ◌-◌, ◌%◌, ◌^◌, Bool, true, false, not, ◌&&◌, List, [], Option, none, some,
}
use lattice_db_next_gen_dbms.Prelude.Tests.{◌==◌, ltb, if◌then◌else◌}
use lattice_db_next_gen_dbms.Prelude.Dict.{lookup, insert, erase}
use lattice_db_next_gen_dbms.Prelude.Outcome.{Outcome, returns, faults}
use lattice_db_next_gen_dbms.Buffer.Replacer.{AccessType, Replacer}

-- `static_cast<frame_id_t>(-1)`.
abbrev pub invalid_frame_id : ℕ
invalid_frame_id = 2 ^ 32 - 1

pub record ClockFrame : Type 0 where
  pub frame_id : ℕ
  pub reference_bit : Bool
  pub is_evictable : Bool

pub record ClockReplacer : Type 0 where
  pub clock : ℕ → ClockFrame
  pub frame_to_idx : List (ℕ × ℕ)
  pub clock_hand : ℕ
  pub capacity : ℕ
  pub count : ℕ

unfoldable pub init : ℕ → ClockReplacer
init num_pages = record {
  clock = λ _. record { frame_id = invalid_frame_id; reference_bit = false; is_evictable = true };
  frame_to_idx = [];
  clock_hand = 0;
  capacity = num_pages;
  count = 0;
}

abbrev pub put : ClockReplacer → ℕ → ClockFrame → ClockReplacer
put s i f = record s { clock = λ j. if i == j then f else s.clock j }

unfoldable pub advance_hand : ClockReplacer → ClockReplacer
advance_hand s = record s { clock_hand = (s.clock_hand + 1) % s.capacity }

-- The slot under the hand gives its frame up.
unfoldable pub take_frame : ClockReplacer → ClockReplacer
unfolding advance_hand
take_frame s =
    let slot = s.clock s.clock_hand in
    let freed = record (put s s.clock_hand (record slot { frame_id = invalid_frame_id })) {
      frame_to_idx = erase slot.frame_id s.frame_to_idx;
      count = s.count - 1;
    } in
    advance_hand freed

-- The loop of `victim`, `n` slots being left to examine.
unfoldable pub sweep : ℕ → ClockReplacer → ClockReplacer × Option ℕ
unfolding advance_hand take_frame
sweep zero s = (s, none)
sweep (suc n) s =
    let slot = s.clock s.clock_hand in
    let cleared = put s s.clock_hand (record slot { reference_bit = false }) in
    let after_clear = sweep n (advance_hand cleared) in
    let after_skip = sweep n (advance_hand s) in
    if slot.is_evictable && slot.reference_bit
    then after_clear
    else if slot.is_evictable && not (slot.frame_id == invalid_frame_id)
    then (take_frame s, some slot.frame_id)
    else after_skip

unfoldable pub victim : ClockReplacer → ClockReplacer × Option ℕ
unfolding sweep
victim s = if s.count == 0 then (s, none) else sweep s.capacity s

unfoldable pub pin : ClockReplacer → ℕ → ClockReplacer
pin s fid = elim (lookup fid s.frame_to_idx) [
  | none ↦ s
  | some i ↦ put s i (record (s.clock i) { is_evictable = false; reference_bit = true })
]

-- The first free slot from the hand on, `n` places being left to look at; the hand's slot if there
-- is none.
unfoldable pub find_empty_slot : ClockReplacer → ℕ → ℕ
find_empty_slot s zero = s.clock_hand
find_empty_slot s (suc n) =
    let idx = (s.clock_hand + (s.capacity - suc n)) % s.capacity in
    let rest = find_empty_slot s n in
    if (s.clock idx).frame_id == invalid_frame_id then idx else rest

-- `clock_[idx]` is out of range only when there is no slot at all.
unfoldable pub unpin : ClockReplacer → ℕ → Outcome ClockReplacer
unfolding find_empty_slot
unpin s fid = elim (lookup fid s.frame_to_idx) [
  | none ↦
      let idx = find_empty_slot s s.capacity in
      let added =
        put s idx (record { frame_id = fid; reference_bit = true; is_evictable = true }) in
      if ltb idx s.capacity
      then returns
          (record added { frame_to_idx = insert fid idx s.frame_to_idx; count = s.count + 1 })
      else faults
  | some i ↦ returns (put s i (record (s.clock i) { is_evictable = true; reference_bit = true }))
]

unfoldable pub record_access : ClockReplacer → ℕ → AccessType → Outcome ClockReplacer
unfolding unpin
record_access s fid _ = unpin s fid

unfoldable pub set_evictable : ClockReplacer → ℕ → Bool → ClockReplacer
set_evictable s fid e = elim (lookup fid s.frame_to_idx) [
  | none ↦ s
  | some i ↦ put s i (record (s.clock i) { is_evictable = e })
]

unfoldable pub remove : ClockReplacer → ℕ → ClockReplacer
remove s fid = elim (lookup fid s.frame_to_idx) [
  | none ↦ s
  | some i ↦ record (put s i (record (s.clock i) { frame_id = invalid_frame_id })) {
    frame_to_idx = erase fid s.frame_to_idx;
    count = s.count - 1;
  }
]

abbrev pub clock_replacer : Replacer ClockReplacer
clock_replacer = record {
  victim = λ s. returns (victim s);
  pin = λ s fid. returns (pin s fid);
  unpin = unpin;
  record_access = record_access;
  set_evictable = λ s fid e. returns (set_evictable s fid e);
  remove = λ s fid. returns (remove s fid);
  size = λ s. returns (s, s.count);
}
