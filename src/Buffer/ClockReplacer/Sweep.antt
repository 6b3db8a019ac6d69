-- ===== src/Buffer/ClockReplacer/Sweep.antt =====
-- What the clock's hand of src/buffer/replacer.cpp finds within one turn.
use lattice_db_next_gen_dbms.Prelude.{
  ℕ, zero, suc, ◌<◌, ◌≤◌, ◌≡◌, ◌≢◌, ◌⊎◌, inl, inr, refl, sym, ap, ◌∙◌, Bool, true, false, Option,
  none, some, arith,
}
use lattice_db_next_gen_dbms.Prelude.Tests.{◌==◌, ltb, if◌then◌else◌, Bool-cases, ==_refl, ==_ne}
use lattice_db_next_gen_dbms.Buffer.ClockReplacer.{
  ClockReplacer, invalid_frame_id, put, advance_hand, take_frame, sweep, victim,
}
use lattice_db_next_gen_dbms.Buffer.ClockReplacer.Passing.{
  nth_slot, is_ripe, passed, emptied, Found, Swept, IsPassed, mod_next, hand_inside, extend,
}

taken_slots :
    (s : ClockReplacer) (d : ℕ)
    → s.clock_hand < s.capacity
    → d < s.capacity
    → (take_frame s).clock (nth_slot s d) ≡ (
        if ltb d 0
        then passed (s.clock (nth_slot s d))
        else if d == 0
        then emptied (s.clock (nth_slot s d))
        else s.clock (nth_slot s d))
unfolding take_frame advance_hand
taken_slots s zero inside below =
    let first : nth_slot s 0 ≡ s.clock_hand = ground arith in rw (first, ==_refl s.clock_hand) refl
taken_slots s (suc d) inside below =
    let away : s.clock_hand ≢ nth_slot s (suc d) = ground arith in
    rw (==_ne s.clock_hand (nth_slot s (suc d)) away) (ground arith)

frame_taken :
    (n : ℕ) (s : ClockReplacer)
    → s.clock_hand < s.capacity
    → is_ripe (s.clock s.clock_hand) ≡ true
    → Found (suc n) s (take_frame s) (s.clock s.clock_hand).frame_id
unfolding take_frame advance_hand
frame_taken n s inside ripe =
    let first : nth_slot s 0 ≡ s.clock_hand = ground arith in
    record {
      steps = 0;
      within = omega arith;
      earlier = λ d none_before. absurd (omega arith);
      ripe = rw first ripe;
      frame = rw first refl;
      slots = λ d below. taken_slots s d inside below;
      hand = mod_next s.clock_hand s.capacity inside ∙ ground arith;
      places = refl;
      counted = refl;
      same_capacity = refl;
    }

-- A slot that is passed without a change.
passed_same :
    (s : ClockReplacer) (j : ℕ)
    → passed (s.clock s.clock_hand) ≡ s.clock s.clock_hand
    → s.clock j ≡ (if s.clock_hand == j then passed (s.clock s.clock_hand) else s.clock j)
passed_same s j e = elim (Bool-cases (s.clock_hand == j)) [
  | inr away ↦ rw away refl
  | inl here ↦ let same : s.clock_hand ≡ j = ground arith in rw here (sym (e ∙ ap s.clock same))
]

-- A round of the loop: the hand's frame is taken, or the hand goes on from a slot that it passed.
round :
    (n : ℕ) (s : ClockReplacer)
    → ((is_ripe (s.clock s.clock_hand) ≡ true)
        × (sweep (suc n) s ≡ (take_frame s, some (s.clock s.clock_hand).frame_id)))
      ⊎ ((is_ripe (s.clock s.clock_hand) ≡ false)
          × (s' : ClockReplacer) × IsPassed s s'
          × (sweep (suc n) s ≡ sweep n s'))
unfolding sweep advance_hand
round n s =
    let slot = s.clock s.clock_hand in
    elim (Bool-cases slot.is_evictable) [
      | inr fixed ↦ inr (
        ground (arith, fixed),
        advance_hand s,
        record {
          clocks = λ j. passed_same s j (rw (passed, fixed) refl);
          next_hand = refl;
          table = refl;
          counts = refl;
          size = refl;
        },
        ground (arith, fixed),
      )
      | inl evictable ↦ elim (Bool-cases slot.reference_bit) [
        | inl referenced ↦ inr (
          ground (arith, referenced),
          advance_hand (put s s.clock_hand (record slot { reference_bit = false })),
          record {
            clocks = λ j. rw (passed, evictable) refl;
            next_hand = refl;
            table = refl;
            counts = refl;
            size = refl;
          },
          ground (arith, evictable, referenced),
        )
        | inr unreferenced ↦ elim (Bool-cases (slot.frame_id == invalid_frame_id)) [
          | inl free ↦ inr (
            ground (arith, free),
            advance_hand s,
            record {
              clocks = λ j. passed_same s j (rw (passed, evictable, unreferenced) refl);
              next_hand = refl;
              table = refl;
              counts = refl;
              size = refl;
            },
            ground (arith, evictable, unreferenced, free),
          )
          | inr taken ↦ inl (
            ground (arith, evictable, unreferenced, taken),
            ground (arith, evictable, unreferenced, taken),
          )
        ]
      ]
    ]

sweep_lem :
    (n : ℕ) (s : ClockReplacer)
    → s.clock_hand < s.capacity
    → n ≤ s.capacity
    → Swept n s (sweep n s).0 (sweep n s).1
sweep_lem zero s inside room =
    unfold sweep in
    record {
      no_ripe = λ d below. absurd (omega arith);
      all_passed = λ d below. ground arith;
      moved_hand = ground arith;
      same_places = refl;
      same_count = refl;
      capacity_kept = refl;
    }
sweep_lem (suc n) s inside room = elim (round n s) [
  | inl (ripe, taken) ↦ rw taken (frame_taken n s inside ripe)
  | inr (unripe, s', h, goes_on) ↦
      let size = h.size in
      let rest = sweep_lem n s' (hand_inside s s' h inside) (omega arith) in
      rw goes_on (extend s s' h inside unripe n (sweep n s').0 (sweep n s').1 (omega arith) rest)
]

-- What a call of `victim` does, by whether no frame is tracked.
abbrev pub Turn : Bool → ClockReplacer → ClockReplacer → Option ℕ → Type 0
Turn true s t r = (t ≡ s) × (r ≡ none)
Turn false s t r = Swept s.capacity s t r

-- With the hand inside the clock, a call of `victim` looks at each slot once at most, from the hand
-- on. With no frame tracked it gives none and changes nothing. Otherwise it gives the frame of the
-- first slot whose frame is evictable, not referenced and valid: that slot is emptied, the frame is
-- no longer tracked, the count drops by one, the evictable slots before it lose their reference bit,
-- all other slots stay, and the hand stands behind it. If there is no such slot it gives none, each
-- evictable slot has lost its reference bit, and the hand is back in its place.
pub victim-Swept :
    (s : ClockReplacer)
    → s.clock_hand < s.capacity
    → Turn (s.count == 0) s (victim s).0 (victim s).1
unfolding victim
victim-Swept s inside = elim (Bool-cases (s.count == 0)) [
  | inl empty ↦ rw empty (refl, refl)
  | inr tracked ↦ rw tracked (sweep_lem s.capacity s inside (omega arith))
]
