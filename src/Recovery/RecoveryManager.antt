-- ===== src/Recovery/RecoveryManager.antt =====
-- `RecoveryManager` of src/recovery/recovery_manager.cpp: analysis of the log file, redo, undo. What a
-- record does to a page is to set its log sequence number. A use of a record that is freed, of a null
-- pointer, or of memory behind the buffer faults. The file is not among the sources of the build.
pub mod Undo
use lattice_db_next_gen_dbms.Prelude.{
  ℕ, zero, suc, ◌+◌, ◌%◌, ◌^◌, Bool, true, false, ◌&&◌, ◌||◌, Option, none, some, List, [], ◌∷◌,
  ◌++◌,
}
use mathlib.Core.List.{reverse}
use lattice_db_next_gen_dbms.Prelude.Tests.{◌==◌, ltb, leb, if◌then◌else◌}
use lattice_db_next_gen_dbms.Prelude.Lists.{length, take, drop}
use lattice_db_next_gen_dbms.Prelude.Dict.{lookup, insert, erase}
use lattice_db_next_gen_dbms.Prelude.Bytes.{Memory, write_bytes, of_le}
use lattice_db_next_gen_dbms.Prelude.Outcome.{Outcome, returns, faults, ◌>>=◌}
use lattice_db_next_gen_dbms.Locking.Queue.{Rid, rid_eq}
use lattice_db_next_gen_dbms.Recovery.LogRecord.{
  LogRecord, invalid_lsn, invalid_txn_id, header_of, rid_of, deserialize_insert, deserialize_delete,
  deserialize_update,
}

-- `lsn_mapping_` has pointers: a record that is alive, or `none` once it is freed. `page_lsn` is what
-- `fetch_page` gives for a page: its number, if the pool has a frame for it.
pub record RecoveryManager : Type 0 where
  pub active_txn_table : List (ℕ × ℕ)
  pub lsn_mapping : List (ℕ × Option LogRecord)
  pub dirty_pages : List Rid
  pub page_lsn : ℕ → Outcome (Option ℕ)

-- `get_size` of the record of a type as constructed, with an empty tuple; other types are skipped.
abbrev pub empty_size : ℕ → Option ℕ
empty_size type =
    if type == 1
    then some 28
    else if type == 2
    then some 28
    else if type == 3
    then some 32
    else none

-- `char buffer[4096]`.
abbrev pub buffer_size : ℕ
buffer_size = 4096

-- The virtual `deserialize_from` of the record that was made for the type.
abbrev pub deserialize_from : ℕ → (List ℕ → Bool) → ℕ → Memory → ℕ → Outcome (Option LogRecord)
deserialize_from width is_value type m size =
    if type == 1
    then deserialize_insert width is_value buffer_size m size
    else if type == 2
    then returns (deserialize_delete m)
    else returns deserialize_update

-- The loop of `read_log_file` over what is left of the file, with its buffer; a record that is cut
-- off ends the stream. Each round takes four bytes at least.
unfoldable pub read_records : ℕ → ℕ → (List ℕ → Bool) → List ℕ → Memory → Outcome (List LogRecord)
read_records zero width is_value file buffer = returns []
read_records (suc fuel) width is_value file buffer =
    let type = of_le (take 4 file) in
    elim (ltb (length file) 4) [
      | true ↦ returns []
      | false ↦ elim (empty_size type) [
        | none ↦ read_records fuel width is_value (drop 4 file) (write_bytes buffer 0 (take 4 file))
        | some size ↦ elim (ltb (length file) size) [
          | true ↦ returns []
          | false ↦
              let filled = write_bytes buffer 0 (take size file) in
              let rest = read_records fuel width is_value (drop size file) filled in
              deserialize_from width is_value type filled size >>= λ read. elim read [
                | none ↦ rest
                | some r ↦ rest >>= λ rs. returns (r ∷ rs)
              ]
        ]
      ]
    ]

unfoldable pub read_log_file : ℕ → (List ℕ → Bool) → List ℕ → Memory → Outcome (List LogRecord)
read_log_file width is_value file buffer = read_records (length file) width is_value file buffer

unfoldable pub has_rid : Rid → List Rid → Bool
has_rid rid [] = false
has_rid rid (x ∷ xs) = if rid_eq x rid then true else has_rid rid xs

-- INSERT, DELETE and UPDATE among the types.
abbrev pub is_data : ℕ → Bool
is_data type = type == 1 || (type == 2 || type == 3)

-- The `switch` of `analysis`.
unfoldable pub track : LogRecord → RecoveryManager → RecoveryManager
track r s =
    let type = (header_of r).log_record_type in
    let txn = (header_of r).txn_id in
    if type == 4
    then record s { active_txn_table = insert txn (header_of r).lsn s.active_txn_table }
    else if type == 5 || type == 6
    then record s { active_txn_table = erase txn s.active_txn_table }
    else if is_data type
    then record s {
      dirty_pages =
          if has_rid (rid_of r) s.dirty_pages then s.dirty_pages else rid_of r ∷ s.dirty_pages;
    }
    else s

-- The loop of `analysis`.
unfoldable pub analyse : List LogRecord → RecoveryManager → RecoveryManager
analyse [] s = s
analyse (r ∷ rs) s =
    let tracked = track r s in
    analyse rs
      (record tracked { lsn_mapping = insert (header_of r).lsn (some r) tracked.lsn_mapping })

-- The end of `analysis`, where the vector that owns the records goes out of scope.
unfoldable pub free_records : List (ℕ × Option LogRecord) → List (ℕ × Option LogRecord)
free_records [] = []
free_records ((lsn, r) ∷ rest) = (lsn, none) ∷ free_records rest

-- `analysis`.
unfoldable pub analysis :
    ℕ → (List ℕ → Bool) → List ℕ → Memory → RecoveryManager → Outcome RecoveryManager
analysis width is_value file buffer s = read_log_file width is_value file buffer >>= λ rs.
    let analysed = analyse rs s in
    returns (record analysed { lsn_mapping = free_records analysed.lsn_mapping })

-- `update_page_lsn`, which `apply_*` and `undo_*` come down to.
unfoldable pub update_page_lsn : RecoveryManager → ℕ → ℕ → Outcome RecoveryManager
update_page_lsn s page lsn = s.page_lsn page >>= λ found. elim found [
  | none ↦ returns s
  | some old ↦
      returns (record s { page_lsn = λ i. if i == page then returns (some lsn) else s.page_lsn i })
]

-- `redo_log_record` and `undo_log_record`.
unfoldable pub redo_log_record : RecoveryManager → LogRecord → Outcome RecoveryManager
redo_log_record s r =
    if is_data (header_of r).log_record_type
    then update_page_lsn s (rid_of r).page_id (header_of r).lsn
    else returns s

unfoldable pub undo_log_record : RecoveryManager → LogRecord → Outcome RecoveryManager
undo_log_record s r =
    if is_data (header_of r).log_record_type
    then update_page_lsn s (rid_of r).page_id (header_of r).lsn
    else returns s

-- `std::sort` of the numbers.
unfoldable pub insert_sorted : ℕ → List ℕ → List ℕ
insert_sorted x [] = x ∷ []
insert_sorted x (y ∷ ys) = if leb x y then x ∷ (y ∷ ys) else y ∷ insert_sorted x ys

unfoldable pub sort_lsns : List (ℕ × Option LogRecord) → List ℕ
sort_lsns [] = []
sort_lsns ((lsn, r) ∷ rest) = insert_sorted lsn (sort_lsns rest)

-- The second loop of `redo`; `lsn_mapping_[lsn]` of an absent key is a null pointer.
unfoldable pub redo_each : List ℕ → RecoveryManager → Outcome RecoveryManager
redo_each [] s = returns s
redo_each (lsn ∷ lsns) s = elim (lookup lsn s.lsn_mapping) [
  | none ↦ faults
  | some none ↦ faults
  | some (some r) ↦ redo_log_record s r >>= redo_each lsns
]

-- `redo`.
unfoldable pub redo : RecoveryManager → Outcome RecoveryManager
redo s = redo_each (sort_lsns s.lsn_mapping) s

-- The loop of `undo` that looks for the transaction with the highest number.
unfoldable pub highest : List (ℕ × ℕ) → ℕ → ℕ → ℕ × ℕ
highest [] max_txn max_lsn = (max_txn, max_lsn)
highest ((txn, lsn) ∷ rest) max_txn max_lsn =
    highest rest (if ltb max_lsn lsn then txn else max_txn)
      (if ltb max_lsn lsn then lsn else max_lsn)

-- The records of one transaction, in the order of the list.
unfoldable pub undo_txn :
    List (ℕ × Option LogRecord) → ℕ → RecoveryManager → Outcome RecoveryManager
undo_txn [] txn s = returns s
undo_txn ((lsn, none) ∷ rest) txn s = faults
undo_txn ((lsn, some r) ∷ rest) txn s =
    (if (header_of r).txn_id == txn then undo_log_record s r else returns s) >>= undo_txn rest txn

-- The `while` loop of `undo`; `none` if the fuel runs out.
unfoldable pub undo : ℕ → RecoveryManager → Outcome (Option RecoveryManager)
undo zero s = returns none
undo (suc fuel) s =
    let (max_txn, _) = highest s.active_txn_table invalid_txn_id invalid_lsn in
    elim s.active_txn_table [
      | [] ↦ returns (some s)
      | entry ∷ entries ↦ elim (max_txn == invalid_txn_id) [
        | true ↦ returns (some s)
        | false ↦ undo_txn (reverse s.lsn_mapping) max_txn s >>= λ undone.
            undo fuel (record undone { active_txn_table = erase max_txn undone.active_txn_table })
      ]
    ]

-- `recover`, with fuel for a round of `undo` for each active transaction and one more.
unfoldable pub recover :
    ℕ → (List ℕ → Bool) → List ℕ → Memory → RecoveryManager → Outcome (Option RecoveryManager)
recover width is_value file buffer s = analysis width is_value file buffer s >>= λ analysed.
    redo analysed >>= λ redone. undo (length redone.active_txn_table + 1) redone
