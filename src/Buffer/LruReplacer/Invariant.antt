-- ===== src/Buffer/LruReplacer/Invariant.antt =====
-- When the list and the hash of an `LRUReplacer` (src/buffer/replacer.cpp) agree.
use lattice_db_next_gen_dbms.Prelude.{
  ℕ, ◌≤◌, ◌<◌, ◌≡◌, refl, ◌≢◌, Bool, true, false, ◌∷◌, Option, none, some, arith, inl, inr,
}
use lattice_db_next_gen_dbms.Prelude.Lists.{length}
use lattice_db_next_gen_dbms.Prelude.Dict.{lookup, insert, erase, lookup-insert, lookup-erase}
use lattice_db_next_gen_dbms.Prelude.Tests.{Option-cases}
use lattice_db_next_gen_dbms.Prelude.Members.{
  contains, remove_first, last_or, Distinct, contains-remove_first, remove_first-Distinct,
  remove_first_absent, length-remove_first, contains-pop_back, pop_back-Distinct, length-pop_back,
}
use lattice_db_next_gen_dbms.Prelude.Outcome.{returns}
use lattice_db_next_gen_dbms.Buffer.LruReplacer.{
  LruReplacer, LruNode, init, add_to_head, remove, set_evictable, unpin,
}

abbrev pub is_node : Option LruNode → Bool
is_node none = false
is_node (some _) = true

pub record IsValid (s : LruReplacer) : Type 0 where
  pub unlatched : s.latched ≡ false
  pub distinct : Distinct s.lru_list
  pub tracked : (k : ℕ) → is_node (lookup k s.lru_hash) ≡ contains k s.lru_list
  pub nodes : (k : ℕ) → lookup k s.lru_hash ≢ some none
  pub bounded : 0 < s.max_size → length s.lru_list ≤ s.max_size

pub init-IsValid : (n : ℕ) → IsValid (init n)
unfolding init contains lookup
init-IsValid n = record {
  unlatched = refl;
  distinct = tt;
  tracked = λ k. refl;
  nodes = λ k h. cc;
  bounded = λ h. omega arith;
}

-- A frame of the list moves to the front.
abbrev pub moved : LruReplacer → ℕ → LruReplacer
moved s fid = record s {
  lru_list = fid ∷ remove_first fid s.lru_list;
  lru_hash = insert fid (some true) s.lru_hash;
}

pub unpin_tracked :
    {s : LruReplacer} (fid : ℕ) (e : Bool)
    → IsValid s
    → lookup fid s.lru_hash ≡ some (some e)
    → unpin s fid ≡ returns (moved s fid)
unfolding unpin
unpin_tracked {s} fid e v h = ground (arith, lookup-insert fid fid (some true) s.lru_hash)

pub moved-IsValid :
    {s : LruReplacer} (fid : ℕ) (e : Bool)
    → IsValid s
    → lookup fid s.lru_hash ≡ some (some e)
    → IsValid (moved s fid)
unfolding contains
moved-IsValid {s} fid e v h = record {
  unlatched = v.unlatched;
  distinct = ground (
    arith,
    contains-remove_first fid fid s.lru_list v.distinct,
    remove_first-Distinct fid s.lru_list v.distinct,
  );
  tracked = λ k. ground (
    arith,
    v.tracked k,
    lookup-insert fid k (some true) s.lru_hash,
    contains-remove_first fid k s.lru_list v.distinct,
  );
  nodes = λ k n. ground (arith, v.nodes k, lookup-insert fid k (some true) s.lru_hash);
  bounded = λ m. ground (arith, v.bounded m, v.tracked fid, length-remove_first fid s.lru_list);
}

pub unpin_untracked :
    {s : LruReplacer} (fid : ℕ)
    → IsValid s
    → lookup fid s.lru_hash ≡ none
    → unpin s fid ≡ returns (add_to_head s fid)
unfolding unpin
unpin_untracked {s} fid v h = ground arith

pub add_to_head-IsValid :
    {s : LruReplacer} (fid : ℕ)
    → IsValid s
    → lookup fid s.lru_hash ≡ none
    → IsValid (add_to_head s fid)
unfolding add_to_head contains
add_to_head-IsValid {s} fid v h = record {
  unlatched = ground arith;
  distinct = ground (arith, v.tracked fid, pop_back-Distinct fid s.lru_list);
  tracked = λ k. ground (
    arith,
    v.tracked k,
    v.tracked fid,
    lookup-insert fid k (some true) s.lru_hash,
    lookup-erase (last_or fid s.lru_list) k (insert fid (some true) s.lru_hash),
    contains-pop_back fid s.lru_list k,
  );
  nodes = λ k n. ground (
    arith,
    v.nodes k,
    lookup-insert fid k (some true) s.lru_hash,
    lookup-erase (last_or fid s.lru_list) k (insert fid (some true) s.lru_hash),
  );
  bounded = λ m. ground (arith, v.bounded, length-pop_back fid s.lru_list);
}

-- The replacer without a frame.
abbrev dropped : LruReplacer → ℕ → LruReplacer
dropped s fid = record s { lru_list = remove_first fid s.lru_list; lru_hash = erase fid s.lru_hash }

remove_dropped : (s : LruReplacer) (fid : ℕ) → IsValid s → remove s fid ≡ returns (dropped s fid)
unfolding remove
remove_dropped s fid v =
    ground (arith, v.tracked fid, v.nodes fid, remove_first_absent fid s.lru_list)

dropped-IsValid : (s : LruReplacer) (fid : ℕ) → IsValid s → IsValid (dropped s fid)
dropped-IsValid s fid v = record {
  unlatched = v.unlatched;
  distinct = remove_first-Distinct fid s.lru_list v.distinct;
  tracked = λ k. ground (
    arith,
    v.tracked k,
    lookup-erase fid k s.lru_hash,
    contains-remove_first fid k s.lru_list v.distinct,
  );
  nodes = λ k n. ground (arith, v.nodes k, lookup-erase fid k s.lru_hash);
  bounded = λ m. ground (arith, v.bounded m, length-remove_first fid s.lru_list);
}

pub remove_lem :
    (s : LruReplacer) (fid : ℕ)
    → IsValid s
    → (t : LruReplacer) × (remove s fid ≡ returns t) × IsValid t
remove_lem s fid v = (dropped s fid, remove_dropped s fid v, dropped-IsValid s fid v)

-- The replacer with the flag of a tracked frame written.
abbrev flagged : LruReplacer → ℕ → Bool → LruReplacer
flagged s fid b = record s { lru_hash = insert fid (some b) s.lru_hash }

flagged-IsValid :
    (s : LruReplacer) (fid : ℕ) (b : Bool)
    → IsValid s
    → is_node (lookup fid s.lru_hash) ≡ true
    → IsValid (flagged s fid b)
flagged-IsValid s fid b v h = record {
  unlatched = v.unlatched;
  distinct = v.distinct;
  tracked =
      λ k. ground (arith, v.tracked k, v.tracked fid, lookup-insert fid k (some b) s.lru_hash);
  nodes = λ k n. ground (arith, v.nodes k, lookup-insert fid k (some b) s.lru_hash);
  bounded = v.bounded;
}

pub set_evictable_lem :
    (s : LruReplacer) (fid : ℕ) (b : Bool)
    → IsValid s
    → (t : LruReplacer) × (set_evictable s fid b ≡ returns t) × IsValid t
unfolding set_evictable
set_evictable_lem s fid b v = elim (Option-cases (lookup fid s.lru_hash)) [
  | inl e ↦ (s, ground arith, v)
  | inr (node, e) ↦
      (flagged s fid b, ground (arith, v.nodes fid), flagged-IsValid s fid b v (ground arith))
]
