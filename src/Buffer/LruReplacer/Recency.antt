-- ===== src/Buffer/LruReplacer/Recency.antt =====
-- The order of the list, and what a search for a victim comes to.
use mathlib.Core.List.{reverse, reverse-cons}
use lattice_db_next_gen_dbms.Prelude.{
  ℕ, ◌≡◌, refl, sym, Bool, true, false, List, [], ◌∷◌, ◌++◌, Option, none, some, arith,
}
use lattice_db_next_gen_dbms.Prelude.Tests.{◌==◌, if◌then◌else◌}
use lattice_db_next_gen_dbms.Prelude.Lists.{take}
use lattice_db_next_gen_dbms.Prelude.Dict.{lookup, insert, lookup-insert, lookup-erase}
use lattice_db_next_gen_dbms.Prelude.Members.{
  contains, remove_first, remove_first_absent, length-remove_first, take_of_length-le,
  pop_back-take, contains-reverse, last_or, last_or-ne, contains-pos,
}
use lattice_db_next_gen_dbms.Prelude.Outcome.{Outcome, returns, blocks}
use lattice_db_next_gen_dbms.Buffer.LruReplacer.{
  LruReplacer, LruNode, add_to_head, victim_scan, victim, unpin, remove, pin, record_access,
  set_evictable,
}
use lattice_db_next_gen_dbms.Buffer.Replacer.{AccessType}
use lattice_db_next_gen_dbms.Buffer.LruReplacer.Invariant.{
  IsValid, is_node, moved, moved-IsValid, unpin_tracked, unpin_untracked, add_to_head-IsValid,
  remove_lem, set_evictable_lem,
}

-- The `max` frames at the front; a maximum of 0 is no limit.
abbrev pub most_recent : ℕ → List ℕ → List ℕ
most_recent max xs = if max == 0 then xs else take max xs

abbrev pub is_evictable : Option LruNode → Bool
is_evictable none = false
is_evictable (some none) = false
is_evictable (some (some e)) = e

pub any_evictable : List (ℕ × LruNode) → List ℕ → Bool
any_evictable hash [] = false
any_evictable hash (fid ∷ rest) =
    if is_evictable (lookup fid hash) then true else any_evictable hash rest

any_evictable-append :
    (hash : List (ℕ × LruNode)) (xs ys : List ℕ)
    → any_evictable hash (xs ++ ys)
      ≡ (if any_evictable hash xs then true else any_evictable hash ys)
unfolding any_evictable
any_evictable-append hash [] ys = refl
any_evictable-append hash (x ∷ xs) ys = ground (arith, any_evictable-append hash xs ys)

any_evictable-reverse :
    (hash : List (ℕ × LruNode)) (xs : List ℕ)
    → any_evictable hash (reverse xs) ≡ any_evictable hash xs
unfolding any_evictable
any_evictable-reverse hash [] = refl
any_evictable-reverse hash (x ∷ xs) =
    rw (reverse-cons x xs, any_evictable-append hash (reverse xs) (x ∷ []))
      (ground (arith, any_evictable-reverse hash xs))

-- Over frames that are all tracked the scan leaves the hash alone, and stops at an evictable one.
abbrev Scanned : List (ℕ × LruNode) → Bool → List (ℕ × LruNode) × Option ℕ → Type 0
Scanned hash false r = r ≡ (hash, none)
Scanned hash true r = (fid : ℕ) × (r ≡ (hash, some fid)) × (lookup fid hash ≡ some (some true))

data NodeCase (o : Option LruNode) : Type 0 where
  missing : o ≡ none → NodeCase o
  null : o ≡ some none → NodeCase o
  pinned : o ≡ some (some false) → NodeCase o
  evictable : o ≡ some (some true) → NodeCase o

LruNode-cases : (o : Option LruNode) → NodeCase o
LruNode-cases none = missing refl
LruNode-cases (some none) = null refl
LruNode-cases (some (some false)) = pinned refl
LruNode-cases (some (some true)) = evictable refl

victim_scan_lem :
    (hash : List (ℕ × LruNode)) (xs : List ℕ)
    → ((k : ℕ) → contains k xs ≡ true → is_node (lookup k hash) ≡ true)
    → Scanned hash (any_evictable hash xs) (victim_scan xs hash)
unfolding victim_scan any_evictable contains
victim_scan_lem hash [] h = refl
victim_scan_lem hash (x ∷ xs) h =
    let rest = victim_scan_lem hash xs (λ k m. h k (ground arith)) in
    elim (LruNode-cases (lookup x hash)) [
      | missing e ↦ absurd (ground (arith, h x))
      | null e ↦ rw (e, victim_scan) rest
      | pinned e ↦ rw (e, victim_scan) rest
      | evictable e ↦ rw (e, victim_scan) (x, refl, e)
    ]

victim_of_scan :
    (s : LruReplacer)
    → IsValid s
    → (b : Bool) → Scanned s.lru_hash b (victim_scan (reverse s.lru_list) s.lru_hash)
    → victim s ≡ (if b then blocks else returns (s, none))
unfolding victim
victim_of_scan s v false e = ground arith
victim_of_scan s v true (fid, e, h) = ground arith

-- The mutex is never free inside `victim`, and the frame found is given to `remove`, which locks
-- it again: the call comes back exactly if no frame may be evicted, and then finds none.
pub victim_lem :
    (s : LruReplacer)
    → IsValid s
    → victim s ≡ (if any_evictable s.lru_hash s.lru_list then blocks else returns (s, none))
unfolding victim
victim_lem s v = victim_of_scan s v (any_evictable s.lru_hash s.lru_list) (
    rw (sym (any_evictable-reverse s.lru_hash s.lru_list)) (
      victim_scan_lem s.lru_hash (reverse s.lru_list)
        (λ k m. ground (arith, v.tracked k, contains-reverse k s.lru_list))))

moved_order :
    (s : LruReplacer) (fid : ℕ)
    → IsValid s
    → contains fid s.lru_list ≡ true
    → (moved s fid).lru_list ≡ most_recent s.max_size (fid ∷ remove_first fid s.lru_list)
moved_order s fid v h = ground (
  arith,
  v.bounded,
  contains-pos fid s.lru_list,
  length-remove_first fid s.lru_list,
  take_of_length-le s.max_size (fid ∷ remove_first fid s.lru_list),
)

add_to_head_order :
    (s : LruReplacer) (fid : ℕ)
    → IsValid s
    → lookup fid s.lru_hash ≡ none
    → (add_to_head s fid).lru_list ≡ most_recent s.max_size (fid ∷ remove_first fid s.lru_list)
unfolding add_to_head
add_to_head_order s fid v h = ground (
  arith,
  v.bounded,
  v.tracked fid,
  remove_first_absent fid s.lru_list,
  pop_back-take fid s.lru_list,
  take_of_length-le s.max_size (fid ∷ s.lru_list),
)

add_to_head_tracked :
    (s : LruReplacer) (fid : ℕ)
    → IsValid s
    → lookup fid s.lru_hash ≡ none
    → lookup fid (add_to_head s fid).lru_hash ≡ some (some true)
unfolding add_to_head contains
add_to_head_tracked s fid v h = ground (
  arith,
  v.tracked fid,
  last_or-ne fid s.lru_list,
  lookup-insert fid fid (some true) s.lru_hash,
  lookup-erase (last_or fid s.lru_list) fid (insert fid (some true) s.lru_hash),
)

-- `unpin` of any frame, tracked or not, comes back with the frame in front of the others, whose order
-- stays, cut to the maximal size; the frame is evictable, and the replacer is valid.
pub unpin_lem :
    (s : LruReplacer) (fid : ℕ)
    → IsValid s
    → (t : LruReplacer) × (unpin s fid ≡ returns t)
      × IsValid t
      × (t.lru_list ≡ most_recent s.max_size (fid ∷ remove_first fid s.lru_list))
      × (lookup fid t.lru_hash ≡ some (some true))
unfolding contains
unpin_lem s fid v = elim (LruNode-cases (lookup fid s.lru_hash)) [
  | missing e ↦ (
    add_to_head s fid,
    unpin_untracked fid v e,
    add_to_head-IsValid fid v e,
    add_to_head_order s fid v e,
    add_to_head_tracked s fid v e,
  )
  | null e ↦ absurd (v.nodes fid e)
  | pinned e ↦ (
    moved s fid,
    unpin_tracked fid false v e,
    moved-IsValid fid false v e,
    moved_order s fid v (ground (arith, v.tracked fid)),
    ground (arith, lookup-insert fid fid (some true) s.lru_hash),
  )
  | evictable e ↦ (
    moved s fid,
    unpin_tracked fid true v e,
    moved-IsValid fid true v e,
    moved_order s fid v (ground (arith, v.tracked fid)),
    ground (arith, lookup-insert fid fid (some true) s.lru_hash),
  )
]

-- The calls that do not look for a victim.
pub data Call : Type 0 where
  pins unpins removes : ℕ → Call
  records : ℕ → AccessType → Call
  sets_evictable : ℕ → Bool → Call

pub call : LruReplacer → Call → Outcome LruReplacer
call s (pins fid) = pin s fid
call s (unpins fid) = unpin s fid
call s (removes fid) = remove s fid
call s (records fid access) = record_access s fid access
call s (sets_evictable fid e) = set_evictable s fid e

-- On a valid replacer every such call comes back, with a valid replacer.
pub call-IsValid :
    (s : LruReplacer) (c : Call)
    → IsValid s
    → (t : LruReplacer) × (call s c ≡ returns t) × IsValid t
unfolding call pin record_access
call-IsValid s (pins fid) v = set_evictable_lem s fid false v
call-IsValid s (unpins fid) v = let (t, e, w, _, _) = unpin_lem s fid v in (t, e, w)
call-IsValid s (removes fid) v = remove_lem s fid v
call-IsValid s (records fid access) v = let (t, e, w, _, _) = unpin_lem s fid v in (t, e, w)
call-IsValid s (sets_evictable fid b) v = set_evictable_lem s fid b v
