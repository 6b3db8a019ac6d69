-- ===== src/Recovery/RecoveryManager/Undo.antt =====
-- The undo phase of src/recovery/recovery_manager.cpp.
use lattice_db_next_gen_dbms.Prelude.Outcome.{Outcome, returns, faults, blocks, ◌>>=◌}
use lattice_db_next_gen_dbms.Prelude.{
  ◌⊎◌, none, Option, Bool, ℕ, suc, ◌+◌, ◌^◌, ◌<◌, ◌≡◌, inl, inr, refl, ap, some, List, [], ◌∷◌,
  arith, false,
}
use lattice_db_next_gen_dbms.Prelude.Tests.{◌==◌, ltb, leb, Bool-cases}
use lattice_db_next_gen_dbms.Prelude.Lists.{length}
use lattice_db_next_gen_dbms.Prelude.Bytes.{Memory}
use lattice_db_next_gen_dbms.Prelude.Dict.{lookup, insert}
use lattice_db_next_gen_dbms.Recovery.LogRecord.{header_of, LogRecord, invalid_lsn, invalid_txn_id}
use lattice_db_next_gen_dbms.Recovery.RecoveryManager.{
  RecoveryManager, track, free_records, insert_sorted, analyse, analysis, read_log_file, redo,
  redo_each, sort_lsns, highest, undo, recover,
}

-- The numbers of the table fit the 32 bits of `lsn_t`.
abbrev pub AreLsns : List (ℕ × ℕ) → Type 0
AreLsns [] = Unit {0}
AreLsns ((txn, lsn) ∷ rest) = (lsn < 2 ^ 32) × AreLsns rest

highest_none :
    (table : List (ℕ × ℕ))
    → AreLsns table
    → (highest table invalid_txn_id invalid_lsn).0 ≡ invalid_txn_id
unfolding highest
highest_none [] h = refl
highest_none ((txn, lsn) ∷ rest) h =
    let never : ltb invalid_lsn lsn ≡ false = ground arith in
    rw (highest, never) (highest_none rest h.1)

-- The undo loop ends in its first round and changes nothing, for every table of active
-- transactions: no number is above `INVALID_LSN`, from which the search for the highest starts.
undo_idle :
    (fuel : ℕ) (s : RecoveryManager)
    → AreLsns s.active_txn_table
    → undo (suc fuel) s ≡ returns (some s)
unfolding undo
undo_idle fuel s h =
    let none_found = highest_none s.active_txn_table h in ground (arith, none_found)

insert_nonempty :
    {A : Type 0} (k : ℕ) (a : A) (m : List (ℕ × A))
    → (e : ℕ × A) × (rest : List (ℕ × A)) × (insert k a m ≡ e ∷ rest)
unfolding insert
insert_nonempty k a [] = ((k, a), [], refl)
insert_nonempty k a ((at, old) ∷ rest) = elim (Bool-cases (at == k)) [
  | inl here ↦ ((k, a), rest, rw (insert, here) refl)
  | inr away ↦ ((at, old), insert k a rest, rw (insert, away) refl)
]

-- Once a record is read the map has an entry.
analyse_nonempty :
    (rs : List LogRecord) (s : RecoveryManager) (e : ℕ × Option LogRecord)
    (rest : List (ℕ × Option LogRecord))
    → s.lsn_mapping ≡ e ∷ rest
    → (e' : ℕ × Option LogRecord) × (rest' : List (ℕ × Option LogRecord)) × ((analyse rs
          s).lsn_mapping
        ≡ e' ∷ rest')
unfolding analyse
analyse_nonempty [] s e rest h = (e, rest, h)
analyse_nonempty (r ∷ rs) s e rest h =
    let (e', rest', g) = insert_nonempty (header_of r).lsn (some r) (track r s).lsn_mapping in
    analyse_nonempty rs (record (track r s) { lsn_mapping = _ }) e' rest' g

insert_sorted_nonempty :
    (x : ℕ) (xs : List ℕ) → (y : ℕ) × (ys : List ℕ) × (insert_sorted x xs ≡ y ∷ ys)
unfolding insert_sorted
insert_sorted_nonempty x [] = (x, [], refl)
insert_sorted_nonempty x (y ∷ ys) = elim (Bool-cases (leb x y)) [
  | inl before ↦ (x, y ∷ ys, rw (insert_sorted, before) refl)
  | inr behind ↦ (y, insert_sorted x ys, rw (insert_sorted, behind) refl)
]

lookup-free_records :
    (lsn : ℕ) (m : List (ℕ × Option LogRecord))
    → (lookup lsn (free_records m) ≡ none) ⊎ (lookup lsn (free_records m) ≡ some none)
unfolding lookup free_records
lookup-free_records lsn [] = inl refl
lookup-free_records lsn ((at, r) ∷ rest) = elim (Bool-cases (at == lsn)) [
  | inl here ↦ inr (rw (lookup, here) refl)
  | inr away ↦ rw (lookup, away) (lookup-free_records lsn rest)
]

-- `redo` uses a record that was freed, if there is an entry at all.
redo_freed :
    (s : RecoveryManager) (e : ℕ × Option LogRecord) (rest : List (ℕ × Option LogRecord))
    → s.lsn_mapping ≡ e ∷ rest
    → redo (record s { lsn_mapping = free_records s.lsn_mapping }) ≡ faults
unfolding redo sort_lsns free_records redo_each
redo_freed s e rest h =
    let (lsn, lsns, sorted) = insert_sorted_nonempty e.0 (sort_lsns (free_records rest)) in
    elim (lookup-free_records lsn (e ∷ rest)) [
      | inl absent ↦ rw (h, sorted, redo_each, absent) refl
      | inr freed ↦ rw (h, sorted, redo_each, freed) refl
    ]

-- What follows analysis of the records that were read.
recover_read :
    (rs : List LogRecord) (s : RecoveryManager)
    → s.lsn_mapping ≡ []
    → AreLsns s.active_txn_table
    → (redo (record (analyse rs s) { lsn_mapping = free_records (analyse rs s).lsn_mapping })
        >>= λ redone. undo (length redone.active_txn_table + 1) redone)
      ≡ (elim rs [ [] ↦ returns (some s) | r ∷ rest ↦ faults ])
unfolding analyse redo redo_each free_records sort_lsns
recover_read [] s fresh h =
    let one_more : length s.active_txn_table + 1 ≡ suc (length s.active_txn_table) = omega arith in
    let same : record s { lsn_mapping = free_records s.lsn_mapping } ≡ s =
      ap (λ m. record s { lsn_mapping = m }) (rw fresh refl) in
    rw (same, fresh, one_more)
      (undo_idle (length s.active_txn_table) (record s { lsn_mapping = [] }) h)
recover_read (r ∷ rs) s fresh h =
    let (e, rest, g) = insert_nonempty (header_of r).lsn (some r) (track r s).lsn_mapping in
    let (e', rest', g') = analyse_nonempty rs (record (track r s) { lsn_mapping = _ }) e rest g in
    rw (redo_freed (analyse (r ∷ rs) s) e' rest' g') refl

bind_cases :
    {A B C : Type 0} (o : Outcome A) (f : A → B) (k : B → Outcome C) (g : A → Outcome C)
    → ((a : A) → k (f a) ≡ g a)
    → (o >>= (λ a. returns (f a)) >>= k) ≡ (o >>= g)
bind_cases (returns a) f k g h = h a
bind_cases blocks f k g h = refl
bind_cases faults f k g h = refl

-- For a manager as constructed, of whose table of active transactions the numbers fit 32 bits:
-- recovery returns, with nothing changed, if reading the log file gives no record. If it gives a
-- record of any type, redo uses a record that analysis has freed. If reading the file faults, so does
-- recovery.
pub recover_lem :
    (width : ℕ) (is_value : List ℕ → Bool) (file : List ℕ) (buffer : Memory) (s : RecoveryManager)
    → s.lsn_mapping ≡ []
    → AreLsns s.active_txn_table
    → recover width is_value file buffer s ≡ (
        read_log_file width is_value file buffer >>= λ rs. elim rs [
          | [] ↦ returns (some s)
          | r ∷ rest ↦ faults
        ])
unfolding recover analysis
recover_lem width is_value file buffer s fresh h =
    bind_cases (read_log_file width is_value file buffer) _ _ _ (λ rs. recover_read rs s fresh h)
