-- ===== src/Buffer/LruReplacer.antt =====
-- `LRUReplacer` of src/buffer/replacer.h and replacer.cpp. `latched` is the state of `latch_`, a
-- `std::mutex`. A node's `list_iter` is the place of its frame in `lru_list`, so an erasure at it
-- drops that frame's entry. A null node is `none`.
pub mod Invariant
pub mod Recency
mod Tests
use mathlib.Core.List.{reverse}
use lattice_db_next_gen_dbms.Prelude.{
  ℕ, ◌<◌, Bool, true, false, not, ◌&&◌, List, [], ◌∷◌, Option, none, some,
}
use lattice_db_next_gen_dbms.Prelude.Tests.{◌==◌, ltb, if◌then◌else◌}
use lattice_db_next_gen_dbms.Prelude.Lists.{length}
use lattice_db_next_gen_dbms.Prelude.Dict.{lookup, insert, erase}
use lattice_db_next_gen_dbms.Prelude.Members.{remove_first, last_or, pop_back}
use lattice_db_next_gen_dbms.Prelude.Outcome.{Outcome, returns, blocks, faults, ◌>>=◌}
use lattice_db_next_gen_dbms.Buffer.Replacer.{AccessType, Replacer}

-- `LRUNode`: the flag `is_evictable`.
abbrev pub LruNode : Type 0
LruNode = Option Bool

pub record LruReplacer : Type 0 where
  pub lru_list : List ℕ
  pub lru_hash : List (ℕ × LruNode)
  pub latched : Bool
  pub max_size : ℕ

unfoldable pub init : ℕ → LruReplacer
init num_pages = record { lru_list = []; lru_hash = []; latched = false; max_size = num_pages }

-- `std::lock_guard<std::mutex> l(latch_)`, and its destructor.
unfoldable pub latch : LruReplacer → Outcome LruReplacer
latch s = if s.latched then blocks else returns (record s { latched = true })

abbrev pub unlatch : LruReplacer → LruReplacer
unlatch s = record s { latched = false }

unfoldable pub remove_from_list : LruReplacer → ℕ → Outcome LruReplacer
remove_from_list s fid = elim (lookup fid s.lru_hash) [
  | none ↦ returns s
  | some node ↦ elim node [
    | none ↦ faults
    | some _ ↦ returns (record s { lru_list = remove_first fid s.lru_list })
  ]
]

unfoldable pub move_to_head : LruReplacer → ℕ → Outcome LruReplacer
unfolding remove_from_list
move_to_head s fid = elim (lookup fid s.lru_hash) [
  | none ↦ returns s
  | some _ ↦ do t ← remove_from_list s fid; returns (record t { lru_list = fid ∷ t.lru_list })
]

unfoldable pub add_to_head : LruReplacer → ℕ → LruReplacer
add_to_head s fid =
    let grown = fid ∷ s.lru_list in
    let hash = insert fid (some true) s.lru_hash in
    if not (s.max_size == 0) && ltb s.max_size (length grown)
    then record s { lru_list = pop_back grown; lru_hash = erase (last_or fid s.lru_list) hash }
    else record s { lru_list = grown; lru_hash = hash }

-- `remove`: takes the mutex itself.
unfoldable pub remove : LruReplacer → ℕ → Outcome LruReplacer
unfolding latch remove_from_list
remove s fid = do
  locked ← latch s
  t ← remove_from_list locked fid
  returns (unlatch (record t { lru_hash = erase fid t.lru_hash }))

-- The loop of `victim`, from the back of the list: the hash after the `lru_hash_[fid]` of each
-- round, and the frame found.
unfoldable pub victim_scan : List ℕ → List (ℕ × LruNode) → List (ℕ × LruNode) × Option ℕ
victim_scan [] hash = (hash, none)
victim_scan (fid ∷ rest) hash = elim (lookup fid hash) [
  | none ↦ victim_scan rest (insert fid none hash)
  | some node ↦ elim node [
    | none ↦ victim_scan rest hash
    | some evictable ↦ elim evictable [ true ↦ (hash, some fid) | false ↦ victim_scan rest hash ]
  ]
]

unfoldable pub victim : LruReplacer → Outcome (LruReplacer × Option ℕ)
unfolding latch remove
victim s = do
  locked ← latch s
  let (hash, found) = victim_scan (reverse locked.lru_list) locked.lru_hash
  elim found [
    | none ↦ returns (unlatch (record locked { lru_hash = hash }), none)
    | some fid ↦ do
      t ← remove (record locked { lru_hash = hash }) fid
      returns (unlatch t, some fid)
  ]

unfoldable pub set_evictable : LruReplacer → ℕ → Bool → Outcome LruReplacer
unfolding latch
set_evictable s fid evictable = do
  locked ← latch s
  returns (
      unlatch (elim (lookup fid locked.lru_hash) [
        | none ↦ locked
        | some node ↦ elim node [
          | none ↦ locked
          | some _ ↦ record locked { lru_hash = insert fid (some evictable) locked.lru_hash }
        ]
      ]))

-- `pin` has the body of `set_evictable` at `false`.
unfoldable pub pin : LruReplacer → ℕ → Outcome LruReplacer
unfolding set_evictable
pin s fid = set_evictable s fid false

unfoldable pub unpin : LruReplacer → ℕ → Outcome LruReplacer
unfolding latch add_to_head move_to_head
unpin s fid = do
  locked ← latch s
  t ← elim (lookup fid locked.lru_hash) [
    | none ↦ returns (add_to_head locked fid)
    | some node ↦ elim node [
      | none ↦ returns (add_to_head locked fid)
      | some _ ↦
          move_to_head (record locked { lru_hash = insert fid (some true) locked.lru_hash }) fid
    ]
  ]
  returns (unlatch t)

unfoldable pub record_access : LruReplacer → ℕ → AccessType → Outcome LruReplacer
unfolding unpin
record_access s fid _ = unpin s fid

unfoldable pub size : LruReplacer → Outcome (LruReplacer × ℕ)
unfolding latch
size s = do locked ← latch s; returns (unlatch locked, length locked.lru_hash)

abbrev pub lru : Replacer LruReplacer
lru = record {
  victim = victim;
  pin = pin;
  unpin = unpin;
  record_access = record_access;
  set_evictable = set_evictable;
  remove = remove;
  size = size;
}
