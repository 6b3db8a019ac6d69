-- ===== src/Buffer/ClockReplacer/Tests.antt =====
-- A run of the clock.
use lattice_db_next_gen_dbms.Prelude.{true, false, [], ◌∷◌, arith}
use lattice_db_next_gen_dbms.Prelude.Tests.{◌==◌, if◌then◌else◌}
use lattice_db_next_gen_dbms.Buffer.ClockReplacer.{ClockReplacer, invalid_frame_id, victim}
use lattice_db_next_gen_dbms.Buffer.ClockReplacer.Sweep.{Turn, victim-Swept}

-- Frame 5 in the first of three slots, given back and passed by the hand once; frame 6 is in use.
abbrev two_frames : ClockReplacer
two_frames = record {
  clock = λ i.
      if i == 0
      then record { frame_id = 5; reference_bit = false; is_evictable = true }
      else if i == 1
      then record { frame_id = 6; reference_bit = true; is_evictable = false }
      else record { frame_id = invalid_frame_id; reference_bit = false; is_evictable = true };
  frame_to_idx = (6, 1) ∷ (5, 0) ∷ [];
  clock_hand = 1;
  capacity = 3;
  count = 2;
}

victim-Swept_example :
    Turn (two_frames.count == 0) two_frames (victim two_frames).0 (victim two_frames).1
victim-Swept_example = victim-Swept two_frames (omega arith)
