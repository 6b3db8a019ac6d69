-- ===== src/Catalog/TableHeap/Refines.antt =====
-- The calls of src/catalog/table_heap.cpp against the table as a partial map.
use lattice_db_next_gen_dbms.Prelude.{
  ℕ, ◌+◌, ◌%◌, ◌^◌, ◌<◌, ◌≤◌, ◌≡◌, ◌≢◌, ◌⊎◌, inl, inr, refl, sym, ◌∙◌, true, false, none, List, [],
  ◌∷◌, ◌++◌, arith,
}
use lattice_db_next_gen_dbms.Prelude.Tests.{
  ◌==◌, leb, if◌then◌else◌, Bool-cases, Option-cases, ==_refl, ==_ne,
}
use lattice_db_next_gen_dbms.Prelude.Lists.{
  length, take, drop, get_or, set, length-append, length-set,
}
use lattice_db_next_gen_dbms.Prelude.Outcome.{Outcome, returns, blocks, faults, ◌>>=◌}
use lattice_db_next_gen_dbms.Locking.Queue.{Rid}
use lattice_db_next_gen_dbms.Types.Tuple.{Tuple}
use lattice_db_next_gen_dbms.Catalog.TableHeap.{
  Slots, Store, slots_of, put_slots, on_page, deleted_slot, insert_tuple, mark_delete, update_tuple,
  get_tuple,
}
use lattice_db_next_gen_dbms.Catalog.TableHeap.View.{
  Table, view, live_view, IsAligned, Request, insert_request, delete_request, update_request,
  get_request, Reply, placed, done, step, Allowed, inserts, deletes, deletes_nothing, updates,
  updates_nothing, gets, deleted_slot_lem, slots_of-put_slots, put_on_page, page_call, Stuck,
  page_call, Stuck,
}
use lattice_db_next_gen_dbms.Catalog.TableHeap.Entries.{
  view_append, view_beyond, view_dead, view_delete, view_live, view_reuse, view_update,
}

-- A call that the table allows; the vectors stay aligned, grow by one entry at most, and other
-- heaps keep theirs.
pub record IsFaithful (s : Store) (id : ℕ) (req : Request) (after : Store) (reply : Reply)
    : Type 0 where
  pub allowed : Allowed id (live_view s id) (live_view after id) req reply
  pub aligned : IsAligned (slots_of after id)
  pub growth : length (slots_of after id).tuples ≤ length (slots_of s id).tuples + 1
  pub others : (other : ℕ) → id ≢ other → slots_of after other ≡ slots_of s other

-- The two ends of a call: its own result, and the reply that is made of it.
abbrev give : {V : Type 0} → V → Store → Outcome (Store × V)
give v after = returns (after, v)

abbrev reply_by : {V : Type 0} → (V → Reply) → Store × V → Outcome (Store × Reply)
reply_by reply r = returns (r.0, reply r.1)

-- A call is answered as the table allows, or it ends because the page cannot serve it.
data Answers (s : Store) (id : ℕ) (req : Request) : Outcome (Store × Reply) → Type 0 where
  answered :
      (after : Store) (reply : Reply)
      → IsFaithful s id req after reply
      → Answers s id req (returns (after, reply))
  blocked : on_page s id (page_call req) ≡ blocks → Answers s id req blocks
  faulted : on_page s id (page_call req) ≡ faults → Answers s id req faults

module _ (s : Store) (id : ℕ) (aligned : IsAligned (slots_of s id)) where
  -- A call that puts new vectors in the place of the old.
  faithful :
      (after : Store) (x : Slots) (req : Request) (reply : Reply)
      → ((other : ℕ) → slots_of after other ≡ (if id == other then x else slots_of s other))
      → Allowed id (live_view s id) (view x) req reply
      → IsAligned x
      → length x.tuples ≤ length (slots_of s id).tuples + 1
      → IsFaithful s id req after reply
  faithful after x req reply stored allowed even growth =
      let e = stored id ∙ rw (==_refl id) refl in
      record {
        allowed = rw e allowed;
        aligned = rw e even;
        growth = rw e growth;
        others = λ other ne. stored other ∙ rw (==_ne id other ne) refl;
      }

  unchanged :
      (req : Request) (reply : Reply)
      → Allowed id (live_view s id) (live_view s id) req reply
      → Answers s id req (returns (s, reply))
  unchanged req reply allowed = answered s reply (record {
    allowed = allowed;
    aligned = aligned;
    growth = omega arith;
    others = λ other ne. refl;
  })

  -- A call that changes the vectors and then the page.
  written :
      {V : Type 0} (x : Slots) (req : Request) (v : V) (reply : V → Reply)
      → Allowed id (live_view s id) (view x) req (reply v)
      → IsAligned x
      → length x.tuples ≤ length (slots_of s id).tuples + 1
      → Answers s id req
          (on_page (put_slots s id x) id (page_call req) >>= give v >>= reply_by reply)
  written x req v reply allowed even growth = elim (put_on_page s id x (page_call req)) [
    | inl (after, done_, stored) ↦
        rw done_
          (answered after (reply v) (faithful after x req (reply v) stored allowed even growth))
    | inr (inl (e, stuck)) ↦ rw e (blocked stuck)
    | inr (inr (e, stuck)) ↦ rw e (faulted stuck)
  ]

  abbrev old : Slots
  old = slots_of s id

  insert_tuple-Answers :
      (t : Tuple)
      → length old.tuples < 2 ^ 32
      → Answers s id (insert_request t) (step s id (insert_request t))
  unfolding insert_tuple step
  insert_tuple-Answers t room = elim (Option-cases (deleted_slot old.deleted 0)) [
    | inl full ↦
        rw (full, insert_tuple)
          (let x : Slots = record {
            tuples = old.tuples ++ t ∷ [];
            deleted = old.deleted ++ false ∷ [];
          } in
            let slot : length old.tuples % 2 ^ 32 ≡ length old.tuples = omega arith in
            written x (insert_request t) _ placed
              (inserts t _ refl
                (rw slot (view_beyond old aligned (length old.tuples) (omega arith)))
                (λ i. rw slot (view_append old aligned t i)))
              (omega
                (arith, length-append old.tuples (t ∷ []), length-append old.deleted (false ∷ [])))
              (omega (arith, length-append old.tuples (t ∷ []))))
    | inr (k, e) ↦
        rw (e, insert_tuple)
          (let (j, here, inside, free) = deleted_slot_lem old.deleted 0 k e in
            let x : Slots = record {
              tuples = set old.tuples k t;
              deleted = set old.deleted k false;
            } in
            let slot : k % 2 ^ 32 ≡ k = omega arith in
            let same : k ≡ j = omega arith in
            answered _ _ (
              faithful _ x _ _ (λ other. slots_of-put_slots s id other x)
                (inserts t _ refl (rw (slot, same, free) refl)
                  (λ i. rw slot (view_reuse old aligned k t i (omega arith))))
                (omega (arith, length-set old.tuples k t, length-set old.deleted k false))
                (omega (arith, length-set old.tuples k t))))
  ]

  -- What a call finds behind an identifier.
  position :
      (rid : Rid)
      → ((rid.page_id == id) ≡ false)
        ⊎ (((rid.page_id == id) ≡ true)
            × ((leb (length old.tuples) rid.slot_num ≡ true)
                ⊎ ((leb (length old.tuples) rid.slot_num ≡ false)
                    × ((get_or old.deleted rid.slot_num false ≡ true)
                        ⊎ (get_or old.deleted rid.slot_num false ≡ false)))))
  position rid = elim (Bool-cases (rid.page_id == id)) [
    | inr away ↦ inl away
    | inl here ↦ inr (
      here,
      elim (Bool-cases (leb (length old.tuples) rid.slot_num)) [
        | inl beyond ↦ inl beyond
        | inr within ↦ inr (within, Bool-cases (get_or old.deleted rid.slot_num false))
      ],
    )
  ]

  mark_delete-Answers :
      (rid : Rid) → Answers s id (delete_request rid) (step s id (delete_request rid))
  unfolding mark_delete step
  mark_delete-Answers rid = elim (position rid) [
    | inl away ↦
        rw (away, mark_delete)
          (unchanged _ _ (deletes_nothing rid (inl (ground arith)) (λ i. refl)))
    | inr (here, inl beyond) ↦
        rw (mark_delete, here, ← aligned, beyond)
          (unchanged _ _ (
            deletes_nothing rid (inr (view_beyond old aligned rid.slot_num (ground arith)))
              (λ i. refl)))
    | inr (here, inr (within, inl dead)) ↦
        rw (mark_delete, here, ← aligned, within, dead)
          (unchanged _ _
            (deletes_nothing rid (inr (view_dead old aligned rid.slot_num dead)) (λ i. refl)))
    | inr (here, inr (within, inr live)) ↦
        let inside : rid.slot_num < length old.tuples = ground arith in
        let (t, e, _, _) = view_live old aligned rid.slot_num inside live in
        let x : Slots = record old { deleted = set old.deleted rid.slot_num true } in
        rw (mark_delete, here, ← aligned, within, live)
          (written x (delete_request rid) true done
            (deletes rid t (ground arith) e
              (λ i. view_delete old aligned rid.slot_num i (omega arith)))
            (omega (arith, length-set old.deleted rid.slot_num true)) (omega arith))
  ]

  update_tuple-Answers :
      (t : Tuple) (rid : Rid)
      → Answers s id (update_request t rid) (step s id (update_request t rid))
  unfolding update_tuple step
  update_tuple-Answers t rid = elim (position rid) [
    | inl away ↦
        rw (update_tuple, away)
          (unchanged _ _ (updates_nothing t rid (inl (ground arith)) (λ i. refl)))
    | inr (here, inl beyond) ↦
        rw (update_tuple, here, beyond)
          (unchanged _ _ (
            updates_nothing t rid (inr (view_beyond old aligned rid.slot_num (ground arith)))
              (λ i. refl)))
    | inr (here, inr (within, inl dead)) ↦
        rw (update_tuple, here, within, dead)
          (unchanged _ _
            (updates_nothing t rid (inr (view_dead old aligned rid.slot_num dead)) (λ i. refl)))
    | inr (here, inr (within, inr live)) ↦
        let inside : rid.slot_num < length old.tuples = ground arith in
        let (was, e, alive, _) = view_live old aligned rid.slot_num inside live in
        let x : Slots = record old { tuples = set old.tuples rid.slot_num t } in
        rw (update_tuple, here, within, live)
          (written x (update_request t rid) true done
            (updates t rid was (ground arith) e
              (λ i. view_update old aligned rid.slot_num t i inside alive))
            (omega (arith, length-set old.tuples rid.slot_num t))
            (omega (arith, length-set old.tuples rid.slot_num t)))
  ]

  pub get_tuple-live_view :
      (rid : Rid)
      → get_tuple s id rid ≡ (if rid.page_id == id then live_view s id rid.slot_num else none)
  unfolding get_tuple
  get_tuple-live_view rid = elim (position rid) [
    | inl away ↦ rw (get_tuple, away) refl
    | inr (here, inl beyond) ↦
        rw (get_tuple, here, beyond) (sym (view_beyond old aligned rid.slot_num (ground arith)))
    | inr (here, inr (within, inl dead)) ↦
        rw (get_tuple, here, within, dead) (sym (view_dead old aligned rid.slot_num dead))
    | inr (here, inr (within, inr live)) ↦
        let inside : rid.slot_num < length old.tuples = ground arith in
        let (t, e, _, is) = view_live old aligned rid.slot_num inside live in
        rw (get_tuple, here, within, live) (is ∙ sym e)
  ]

  step-Answers : (req : Request) → length old.tuples < 2 ^ 32 → Answers s id req (step s id req)
  unfolding step
  step-Answers (insert_request t) room = insert_tuple-Answers t room
  step-Answers (delete_request rid) room = mark_delete-Answers rid
  step-Answers (update_request t rid) room = update_tuple-Answers t rid
  step-Answers (get_request rid) room =
      rw (get_tuple-live_view rid) (unchanged _ _ (gets rid (λ i. refl)))

-- A history of calls of one heap, and the replies; it ends with a call that does not come back.
unfoldable pub run : Store → ℕ → List Request → Store × List Reply
run s id [] = (s, [])
run s id (req ∷ reqs) = elim (step s id req) [
  | blocks ↦ (s, [])
  | faults ↦ (s, [])
  | returns (after, reply) ↦ let (final, replies) = run after id reqs in (final, reply ∷ replies)
]

-- The table gives these replies, one call after the other, and ends so.
pub data Behaves (id : ℕ) : Table → List Request → List Reply → Table → Type 0 where
  stops : {before : Table} → Behaves id before [] [] before
  goes_on :
      {before after end : Table} {req : Request} {reqs : List Request} {reply : Reply}
      {replies : List Reply}
      → Allowed id before after req reply
      → Behaves id after reqs replies end
      → Behaves id before (req ∷ reqs) (reply ∷ replies) end

-- The first of the calls that are left, if there is one, is a call that the page cannot serve.
abbrev pub Ended : Store → ℕ → List Request → Type 0
Ended s id [] = Unit {0}
Ended s id (req ∷ reqs) = Stuck s id req

-- A run as the table allows, to its end or to a call that the page cannot serve.
abbrev Served : Store → ℕ → List Request → Type 0
Served s id reqs =
    let (final, replies) = run s id reqs in
    Behaves id (live_view s id) (take (length replies) reqs) replies (live_view final id)
    × Ended final id (drop (length replies) reqs)
    × ((other : ℕ) → id ≢ other → slots_of final other ≡ slots_of s other)

after_step :
    (s : Store) (id : ℕ) (req : Request) (reqs : List Request) (o : Outcome (Store × Reply))
    → step s id req ≡ o
    → Answers s id req o
    → ((after : Store)
        → IsAligned (slots_of after id)
        → length (slots_of after id).tuples ≤ length (slots_of s id).tuples + 1
        → Served after id reqs)
    → Served s id (req ∷ reqs)
unfolding run
after_step s id req reqs _ e (answered after reply h) rest =
    let (behaves, ended, others) = rest after h.aligned h.growth in
    rw (run, e) (goes_on h.allowed behaves, ended, λ other ne. others other ne ∙ h.others other ne)
after_step s id req reqs _ e (blocked stuck) rest = rw (run, e) (stops, inl stuck, λ other ne. refl)
after_step s id req reqs _ e (faulted stuck) rest = rw (run, e) (stops, inr stuck, λ other ne. refl)

-- A heap whose two vectors have the same length, and fewer than 2 ^ 32 slots however many of the
-- calls insert, answers a history of insertions, deletions, updates and reads as a partial map from
-- slots to tuples: an insertion takes a free slot and leaves the others, a deletion and an update
-- succeed exactly for a tuple that is there, a read gives the tuple that is there. The history is
-- answered to its end, or up to a call for which fetching the page does not come back or the page's
-- own operation leaves the bytes of the page. The vectors of other heaps stay as they were.
pub run-Behaves :
    (s : Store) (id : ℕ) (reqs : List Request)
    → IsAligned (slots_of s id)
    → length (slots_of s id).tuples + length reqs ≤ 2 ^ 32
    → let (final, replies) = run s id reqs in
      Behaves id (live_view s id) (take (length replies) reqs) replies (live_view final id)
      × Ended final id (drop (length replies) reqs)
      × ((other : ℕ) → id ≢ other → slots_of final other ≡ slots_of s other)
unfolding run
run-Behaves s id [] aligned room = (stops, tt, λ other ne. refl)
run-Behaves s id (req ∷ reqs) aligned room =
    after_step s id req reqs (step s id req) refl (step-Answers s id aligned req (omega arith))
      (λ after even growth. run-Behaves after id reqs even (omega arith))
