-- ===== src/Buffer/ClockReplacer/Passing.antt =====
-- What a turn of the clock's hand of src/buffer/replacer.cpp may find, and how a slot that it passed
-- is added in front of the rest of the turn.
use native.Mathlib.Nat.{mod_self, mod-eq_of_lt}
use lattice_db_next_gen_dbms.Prelude.{
  ℕ, zero, suc, ◌+◌, ◌-◌, ◌%◌, ◌<◌, ◌≡◌, ◌≢◌, inl, inr, refl, sym, ap, ◌∙◌, Bool, true, false, not,
  ◌&&◌, Option, none, some, arith,
}
use lattice_db_next_gen_dbms.Prelude.Tests.{◌==◌, ltb, if◌then◌else◌, Bool-cases, ==_refl, ==_ne}
use lattice_db_next_gen_dbms.Prelude.Dict.{erase}
use lattice_db_next_gen_dbms.Buffer.ClockReplacer.{ClockFrame, ClockReplacer, invalid_frame_id}

-- The slot that the hand reaches after `d` steps, for `d` up to a whole turn.
abbrev pub nth_slot : ClockReplacer → ℕ → ℕ
nth_slot s d =
    if ltb (s.clock_hand + d) s.capacity then s.clock_hand + d else s.clock_hand + d - s.capacity

-- A frame that may be handed out at once.
abbrev pub is_ripe : ClockFrame → Bool
is_ripe f = f.is_evictable && (not f.reference_bit && not (f.frame_id == invalid_frame_id))

-- A slot that the hand passed, and one that gave its frame up.
abbrev pub passed : ClockFrame → ClockFrame
passed f = record f { reference_bit = not f.is_evictable && f.reference_bit }

abbrev pub emptied : ClockFrame → ClockFrame
emptied f = record f { frame_id = invalid_frame_id }

-- The first of the `n` slots from the hand on with a ripe frame gives it up.
pub record Found (n : ℕ) (s t : ClockReplacer) (fid : ℕ) : Type 0 where
  pub steps : ℕ
  pub within : steps < n
  pub earlier : (d : ℕ) → d < steps → is_ripe (s.clock (nth_slot s d)) ≡ false
  pub ripe : is_ripe (s.clock (nth_slot s steps)) ≡ true
  pub frame : (s.clock (nth_slot s steps)).frame_id ≡ fid
  pub slots :
      (d : ℕ)
      → d < s.capacity
      → t.clock (nth_slot s d) ≡ (
          if ltb d steps
          then passed (s.clock (nth_slot s d))
          else if d == steps
          then emptied (s.clock (nth_slot s d))
          else s.clock (nth_slot s d))
  pub hand : t.clock_hand ≡ nth_slot s (steps + 1)
  pub places : t.frame_to_idx ≡ erase fid s.frame_to_idx
  pub counted : t.count ≡ s.count - 1
  pub same_capacity : t.capacity ≡ s.capacity

-- None of the `n` slots from the hand on has a ripe frame.
pub record NotFound (n : ℕ) (s t : ClockReplacer) : Type 0 where
  pub no_ripe : (d : ℕ) → d < n → is_ripe (s.clock (nth_slot s d)) ≡ false
  pub all_passed :
      (d : ℕ)
      → d < s.capacity
      → t.clock (nth_slot s d)
        ≡ (if ltb d n then passed (s.clock (nth_slot s d)) else s.clock (nth_slot s d))
  pub moved_hand : t.clock_hand ≡ nth_slot s n
  pub same_places : t.frame_to_idx ≡ s.frame_to_idx
  pub same_count : t.count ≡ s.count
  pub capacity_kept : t.capacity ≡ s.capacity

abbrev pub Swept : ℕ → ClockReplacer → ClockReplacer → Option ℕ → Type 0
Swept n s t none = NotFound n s t
Swept n s t (some fid) = Found n s t fid

-- The hand's slot passed, and the hand at the next one.
pub record IsPassed (s s' : ClockReplacer) : Type 0 where
  pub clocks :
      (j : ℕ)
      → s'.clock j ≡ (if s.clock_hand == j then passed (s.clock s.clock_hand) else s.clock j)
  pub next_hand : s'.clock_hand ≡ (s.clock_hand + 1) % s.capacity
  pub table : s'.frame_to_idx ≡ s.frame_to_idx
  pub counts : s'.count ≡ s.count
  pub size : s'.capacity ≡ s.capacity

pub mod_next : (i n : ℕ) → i < n → (i + 1) % n ≡ (if ltb (i + 1) n then i + 1 else 0)
mod_next i n h = elim (Bool-cases (ltb (i + 1) n)) [
  | inl more ↦ rw more (mod-eq_of_lt (ground arith))
  | inr last ↦ let e : i + 1 ≡ n = ground arith in rw (last, e) (mod_self n)
]

module _ (s s' : ClockReplacer) (h : IsPassed s s') (inside : s.clock_hand < s.capacity) where
  pub hand_inside : s'.clock_hand < s'.capacity
  hand_inside = ground (arith, h.next_hand, h.size, mod_next s.clock_hand s.capacity inside)

  nth_slot_next : (d : ℕ) → d < s.capacity → nth_slot s' d ≡ nth_slot s (d + 1)
  nth_slot_next d below =
      ground (arith, h.next_hand, h.size, mod_next s.clock_hand s.capacity inside)

  -- A slot behind the hand's is as before.
  clock_kept :
      (d : ℕ) → d + 1 < s.capacity → s'.clock (nth_slot s' d) ≡ s.clock (nth_slot s (d + 1))
  clock_kept d below =
      let away : s.clock_hand ≢ nth_slot s (d + 1) = ground arith in
      ap s'.clock (nth_slot_next d (omega arith))
      ∙ h.clocks (nth_slot s (d + 1))
      ∙ rw (==_ne s.clock_hand (nth_slot s (d + 1)) away) refl

  first_slot : nth_slot s 0 ≡ s.clock_hand
  first_slot = ground arith

  -- The hand's slot is the last one of the turn that starts behind it.
  clock_first : s'.clock (nth_slot s 0) ≡ passed (s.clock (nth_slot s 0))
  clock_first = rw first_slot (h.clocks s.clock_hand ∙ rw (==_refl s.clock_hand) refl)

  turned : nth_slot s' (s.capacity - 1) ≡ nth_slot s 0
  turned =
      let e : s.capacity - 1 + 1 ≡ s.capacity = omega arith in
      nth_slot_next (s.capacity - 1) (omega arith) ∙ rw e (ground arith)

  -- What happens to each slot, counted from the hand's next place and from here.
  shift_slots :
      (t : ClockReplacer) (before after : ℕ → ClockFrame → ClockFrame)
      → ((d : ℕ) → d < s.capacity → t.clock (nth_slot s' d) ≡ after d (s'.clock (nth_slot s' d)))
      → ((f : ClockFrame) → after (s.capacity - 1) f ≡ f)
      → ((f : ClockFrame) → before 0 f ≡ passed f)
      → ((d : ℕ) (f : ClockFrame) → before (suc d) f ≡ after d f)
      → (d : ℕ) → d < s.capacity
      → t.clock (nth_slot s d) ≡ before d (s.clock (nth_slot s d))
  shift_slots t before after known last first others zero below =
      ap t.clock (sym turned)
      ∙ known (s.capacity - 1) (omega arith)
      ∙ last (s'.clock (nth_slot s' (s.capacity - 1)))
      ∙ ap s'.clock turned
      ∙ clock_first
      ∙ sym (first (s.clock (nth_slot s 0)))
  shift_slots t before after known last first others (suc d) below =
      let e : suc d ≡ d + 1 = omega arith in
      ap t.clock (rw e (sym (nth_slot_next d (omega arith))))
      ∙ known d (omega arith)
      ∙ ap (after d) (clock_kept d (omega arith) ∙ rw e refl)
      ∙ sym (others d (s.clock (nth_slot s (suc d))))

  module _ (unripe : is_ripe (s.clock s.clock_hand) ≡ false) where
    unripe_before :
        (n : ℕ)
        → n < s.capacity
        → ((d : ℕ) → d < n → is_ripe (s'.clock (nth_slot s' d)) ≡ false)
        → (d : ℕ) → d < suc n
        → is_ripe (s.clock (nth_slot s d)) ≡ false
    unripe_before n room rest zero below = rw first_slot unripe
    unripe_before n room rest (suc d) below =
        let e : suc d ≡ d + 1 = omega arith in
        let kept = clock_kept d (omega arith) in rw (e, ← kept) (rest d (omega arith))

    extend-NotFound :
        (n : ℕ) (t : ClockReplacer) → n < s.capacity → NotFound n s' t → NotFound (suc n) s t
    extend-NotFound n t room r = record {
      no_ripe = unripe_before n room r.no_ripe;
      all_passed =
          shift_slots t (λ d f. if ltb d (suc n) then passed f else f)
            (λ d f. if ltb d n then passed f else f)
            (λ d below. r.all_passed d (ground (arith, h.size))) (λ f. ground arith)
            (λ f. ground arith) (λ d f. ground arith);
      moved_hand = r.moved_hand ∙ nth_slot_next n room ∙ ground arith;
      same_places = r.same_places ∙ h.table;
      same_count = r.same_count ∙ h.counts;
      capacity_kept = r.capacity_kept ∙ h.size;
    }

    extend-Found :
        (n : ℕ) (t : ClockReplacer) (fid : ℕ)
        → n < s.capacity
        → Found n s' t fid
        → Found (suc n) s t fid
    extend-Found n t fid room r =
        let e : suc r.steps ≡ r.steps + 1 = omega arith in
        let w = r.within in
        let here = clock_kept r.steps (omega (arith, w)) in
        record {
          steps = suc r.steps;
          within = omega (arith, w);
          earlier = unripe_before r.steps (omega (arith, w)) r.earlier;
          ripe = rw (e, ← here) r.ripe;
          frame = rw (e, ← here) r.frame;
          slots =
              shift_slots t
                (λ d f.
                  if ltb d (suc r.steps)
                  then passed f
                  else if d == suc r.steps
                  then emptied f
                  else f)
                (λ d f. if ltb d r.steps then passed f else if d == r.steps then emptied f else f)
                (λ d below. r.slots d (ground (arith, h.size))) (λ f. ground (arith, w))
                (λ f. ground arith) (λ d f. ground arith);
          hand = r.hand ∙ nth_slot_next (r.steps + 1) (omega (arith, w)) ∙ ground arith;
          places = r.places ∙ ap (erase fid) h.table;
          counted = r.counted ∙ ap (λ c. c - 1) h.counts;
          same_capacity = r.same_capacity ∙ h.size;
        }

    pub extend :
        (n : ℕ) (t : ClockReplacer) (found : Option ℕ)
        → n < s.capacity
        → Swept n s' t found
        → Swept (suc n) s t found
    extend n t none room r = extend-NotFound n t room r
    extend n t (some fid) room r = extend-Found n t fid room r
