-- ===== src/Buffer/LruReplacer/Tests.antt =====
-- Runs of the replacer on small histories.
use lattice_db_next_gen_dbms.Prelude.{◌≡◌, refl, true, ◌∷◌, none, some}
use lattice_db_next_gen_dbms.Prelude.Tests.{if◌then◌else◌}
use lattice_db_next_gen_dbms.Prelude.Dict.{lookup}
use lattice_db_next_gen_dbms.Prelude.Members.{remove_first}
use lattice_db_next_gen_dbms.Prelude.Outcome.{returns, blocks}
use lattice_db_next_gen_dbms.Buffer.LruReplacer.{LruReplacer, init, add_to_head, unpin, victim}
use lattice_db_next_gen_dbms.Buffer.LruReplacer.Invariant.{
  IsValid, init-IsValid, add_to_head-IsValid,
}
use lattice_db_next_gen_dbms.Buffer.LruReplacer.Recency.{
  most_recent, any_evictable, victim_lem, unpin_lem, removes, call, call-IsValid,
}

-- Frame 5 was given back to a replacer of two places.
abbrev one_frame : LruReplacer
one_frame = add_to_head (init 2) 5

one_frame-IsValid : IsValid one_frame
unfolding init lookup
one_frame-IsValid = add_to_head-IsValid 5 (init-IsValid 2) refl

victim_lem_example : victim one_frame ≡ (
    if any_evictable one_frame.lru_hash one_frame.lru_list
    then blocks
    else returns (one_frame, none))
victim_lem_example = victim_lem one_frame one_frame-IsValid

unpin_lem_example :
    (t : LruReplacer) × (unpin one_frame 6 ≡ returns t)
    × IsValid t
    × (t.lru_list ≡ most_recent one_frame.max_size (6 ∷ remove_first 6 one_frame.lru_list))
    × (lookup 6 t.lru_hash ≡ some (some true))
unpin_lem_example = unpin_lem one_frame 6 one_frame-IsValid

call-IsValid_example : (t : LruReplacer) × (call one_frame (removes 5) ≡ returns t) × IsValid t
call-IsValid_example = call-IsValid one_frame (removes 5) one_frame-IsValid
