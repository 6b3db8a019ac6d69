-- ===== src/Recovery/Tests.antt =====
-- The log and recovery at small inputs.
use lattice_db_next_gen_dbms.Prelude.{ℕ, ◌≡◌, ◌≤◌, refl, ◌++◌, true, some, List, [], ◌∷◌, arith}
use lattice_db_next_gen_dbms.Prelude.Bytes.{Memory}
use lattice_db_next_gen_dbms.Locking.Queue.{Rid}
use lattice_db_next_gen_dbms.Recovery.LogRecord.{
  Header, insert_record, set_lsn, get_size, record_bytes,
}
use lattice_db_next_gen_dbms.Recovery.LogManager.{LogManager, append_log_record, log_buffer_size}
use lattice_db_next_gen_dbms.Recovery.LogManager.Content.{
  contents, append_log_record-contents, append_log_record-persistent_lsn,
}
use lattice_db_next_gen_dbms.Recovery.RecoveryManager.{RecoveryManager, read_log_file, recover}
use lattice_db_next_gen_dbms.Prelude.Outcome.{returns, faults, ◌>>=◌}
use mathlib.Core.List.{replicate}
use lattice_db_next_gen_dbms.Recovery.RecoveryManager.Undo.{recover_lem}

abbrev zeros : Memory
zeros i = 0

abbrev header : Header
header = record { log_record_type = 1; lsn = 0; prev_lsn = 0; txn_id = 7 }

abbrev row_id : Rid
row_id = record { page_id = 3; slot_num = 1 }

-- One value of two bytes.
abbrev images_of_row : List (List ℕ)
images_of_row = (8 ∷ 9 ∷ []) ∷ []

abbrev running : ℕ → LogManager
running used = record {
  next_lsn = 5;
  persistent_lsn = 4;
  log_buffer = zeros;
  flush_buffer_size = used;
  file = [];
  enable_logging = true;
}

append_log_record-contents_example :
    let (after, lsn) =
      append_log_record 2 (running 0) (insert_record header row_id images_of_row) in
    (lsn ≡ (running 0).next_lsn)
    × (contents after
        ≡ contents (running 0)
          ++ record_bytes (set_lsn lsn (insert_record header row_id images_of_row)))
    × (after.flush_buffer_size ≤ log_buffer_size)
append_log_record-contents_example =
    append_log_record-contents 2 (running 0) header row_id images_of_row refl (omega arith)
      (refl, tt) (omega arith)

-- The buffer is full but for ten bytes.
append_log_record-persistent_lsn_example :
    let (after, lsn) =
      append_log_record 2 (running 1048566) (insert_record header row_id images_of_row) in
    (after.persistent_lsn ≡ lsn) × (after.file ≡ contents (running 1048566))
append_log_record-persistent_lsn_example =
    append_log_record-persistent_lsn 2 (running 1048566) (insert_record header row_id images_of_row)
      refl (omega arith) (omega arith) (unfold get_size in omega arith)

abbrev restarted : RecoveryManager
restarted = record {
  active_txn_table = (7, 5) ∷ [];
  lsn_mapping = [];
  dirty_pages = [];
  page_lsn = λ i. returns (some 0);
}

-- A log file with one update.
abbrev one_update : List ℕ
one_update = 3 ∷ replicate 31 0

recover_lem_example : recover 2 (λ image. true) one_update zeros restarted ≡ (
    read_log_file 2 (λ image. true) one_update zeros >>= λ rs. elim rs [
      | [] ↦ returns (some restarted)
      | r ∷ rest ↦ faults
    ])
recover_lem_example =
    recover_lem 2 (λ image. true) one_update zeros restarted refl (omega arith, tt)
