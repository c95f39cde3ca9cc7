-- ===== src/Database/History.antt =====
-- The functions of src/service/database_manager.cpp that write the tables, each in one transaction. The
-- mutex is held throughout, so they run one after another.
use winpinator.Prelude.{
  ℕ, suc, Bool, true, false, not, ◌&&◌, ◌||◌, List, [], ◌∷◌, ◌++◌, Text, text_eq, if◌then◌else◌,
}
use winpinator.Prelude.Int.{ℤ}
use winpinator.Transfers.Types.{TransferElement, Transfer, TargetInfo}
use winpinator.Database.Tables.{
  TransferRow, PathRow, Tables, element_code, status_code, type_code, c_string, to_int, id_is,
  same_int,
}
use winpinator.Database.Session.{
  Sqlite, Session, sqlite_ok, begin_transaction, end_transaction, step, exec, on_tables,
}

unfoldable pub row_of : ℕ → Transfer → TransferRow
unfolding status_code type_code c_string
row_of id t = record {
  id = id;
  target_id = c_string t.target_id;
  single_name = c_string t.single_element_name;
  transfer_type = type_code t.transfer_type;
  transfer_timestamp = t.transfer_timestamp;
  file_count = t.file_count;
  folder_count = t.folder_count;
  total_size_bytes = t.total_size_bytes;
  outgoing = t.outgoing;
  status = status_code t.status;
}

unfoldable pub path_of : ℕ → ℤ → TransferElement → PathRow
unfolding element_code c_string
path_of id transfer_id e = record {
  id = id;
  transfer_id = transfer_id;
  element_name = c_string e.element_name;
  element_type = element_code e.element_type;
  relative_path = c_string e.relative_path;
  absolute_path = c_string e.absolute_path;
}

unfoldable pub insert_transfer : Transfer → Session → Session
unfolding row_of
insert_transfer t s =
    let id = suc s.tables.last_transfer in
    record s {
      tables = record s.tables {
        transfers = s.tables.transfers ++ row_of id t ∷ [];
        last_transfer = id;
      };
      last_insert = id;
    }

unfoldable pub insert_path : ℤ → TransferElement → Session → Session
unfolding path_of
insert_path transfer_id e s =
    let id = suc s.tables.last_path in
    record s {
      tables = record s.tables {
        transfer_paths = s.tables.transfer_paths ++ path_of id transfer_id e ∷ [];
        last_path = id;
      };
      last_insert = id;
    }

-- The rows that satisfy a test.
unfoldable pub keep_rows : {A : Type 0} → (A → Bool) → List A → List A
keep_rows test [] = []
keep_rows test (r ∷ rs) = let rest = keep_rows test rs in if test r then r ∷ rest else rest

unfoldable pub delete_transfers : (TransferRow → Bool) → Tables → Tables
unfolding keep_rows
delete_transfers test t = record t {
  transfers = keep_rows (λ (r : TransferRow). not (test r)) t.transfers;
}

unfoldable pub delete_paths : (PathRow → Bool) → Tables → Tables
unfolding keep_rows
delete_paths test t = record t {
  transfer_paths = keep_rows (λ (r : PathRow). not (test r)) t.transfer_paths;
}

unfoldable pub delete_targets : (TargetInfo → Bool) → Tables → Tables
unfolding keep_rows
delete_targets test t = record t {
  targets = keep_rows (λ (r : TargetInfo). not (test r)) t.targets;
}

-- The path belongs to a transfer with the host, by the inner join.
unfoldable pub is_joined : Text → List TransferRow → PathRow → Bool
unfolding id_is
is_joined target [] p = false
is_joined target (r ∷ rs) p =
    (id_is p.transfer_id r.id && text_eq r.target_id target) || is_joined target rs p

unfoldable pub delete_joined : Text → Tables → Tables
unfolding delete_paths is_joined
delete_joined target t = delete_paths (is_joined target t.transfers) t

unfoldable pub bound_target : TargetInfo → TargetInfo
unfolding c_string
bound_target info = record {
  target_id = c_string info.target_id;
  full_name = c_string info.full_name;
  hostname = c_string info.hostname;
  ip = c_string info.ip;
  os = c_string info.os;
}

-- `INSERT OR REPLACE`
unfoldable pub replace_target : TargetInfo → Tables → Tables
unfolding delete_targets
replace_target info t =
    let others = delete_targets (λ (r : TargetInfo). text_eq r.target_id info.target_id) t in
    record others { targets = others.targets ++ info ∷ [] }

module _ (sqlite : Sqlite) where
  unfoldable pub insert_elements : ℤ → List TransferElement → ℕ × Session → ℕ × Session
  unfolding step insert_path
  insert_elements transfer_id [] rs = rs
  insert_elements transfer_id (e ∷ es) rs =
      insert_elements transfer_id es (step sqlite (insert_path transfer_id e) rs)

  -- What stands between the test of `m_dbOpen` with `beginTransaction` and `endTransaction`.
  unfoldable pub within : (ℕ × Session → ℕ × Session) → Session → Bool × Session
  unfolding begin_transaction end_transaction
  within body s =
      let (results, done) = body (sqlite_ok, begin_transaction sqlite s) in
      end_transaction sqlite results done

  unfoldable pub if_open : (ℕ × Session → ℕ × Session) → Session → Bool × Session
  unfolding within
  if_open body s = if not s.db_open then (false, s) else within body s

  unfoldable pub add_transfer_body : Transfer → ℕ × Session → ℕ × Session
  unfolding insert_elements step insert_transfer to_int
  add_transfer_body t rs =
      let inserted = step sqlite (insert_transfer t) rs in
      insert_elements (to_int inserted.1.last_insert) t.elements inserted

  unfoldable pub add_transfer : Transfer → Session → Bool × Session
  unfolding if_open add_transfer_body
  add_transfer t s = if_open (add_transfer_body t) s

  unfoldable pub clear_all_body : ℕ × Session → ℕ × Session
  unfolding exec on_tables delete_transfers delete_paths
  clear_all_body rs =
      exec sqlite (on_tables (delete_paths (λ r. true)))
        (exec sqlite (on_tables (delete_transfers (λ r. true))) rs)

  unfoldable pub clear_all_transfers : Session → Bool × Session
  unfolding if_open clear_all_body
  clear_all_transfers s = if_open clear_all_body s

  -- The paths of the transfers with the host, then the transfers.
  unfoldable pub clear_remote : Text → ℕ × Session → ℕ × Session
  unfolding step on_tables delete_joined delete_transfers
  clear_remote remote_id rs =
      step sqlite (on_tables (delete_transfers (λ r. text_eq r.target_id remote_id)))
        (step sqlite (on_tables (delete_joined remote_id)) rs)

  unfoldable pub clear_all_transfers_for_remote : Text → Session → Bool × Session
  unfolding if_open clear_remote c_string
  clear_all_transfers_for_remote remote_id s = if_open (clear_remote (c_string remote_id)) s

  unfoldable pub delete_body : ℤ → ℕ × Session → ℕ × Session
  unfolding step on_tables delete_transfers delete_paths same_int id_is
  delete_body id rs =
      step sqlite (on_tables (delete_paths (λ r. same_int r.transfer_id id)))
        (step sqlite (on_tables (delete_transfers (λ r. id_is id r.id))) rs)

  unfoldable pub delete_transfer : ℤ → Session → Bool × Session
  unfolding if_open delete_body
  delete_transfer id s = if_open (delete_body id) s

  unfoldable pub update_target : TargetInfo → Session → Bool × Session
  unfolding if_open step on_tables replace_target bound_target
  update_target info s = if_open (step sqlite (on_tables (replace_target (bound_target info)))) s

  unfoldable pub remove_body : Text → ℕ × Session → ℕ × Session
  unfolding step on_tables delete_targets clear_remote
  remove_body target_id rs =
      clear_remote target_id
        (step sqlite (on_tables (delete_targets (λ r. text_eq r.target_id target_id))) rs)

  -- The last two do not look at `m_dbOpen`.
  unfoldable pub remove_target : Text → Session → Bool × Session
  unfolding within remove_body c_string
  remove_target target_id s = within (remove_body (c_string target_id)) s

  unfoldable pub remove_all_body : ℕ × Session → ℕ × Session
  unfolding step on_tables delete_targets delete_paths delete_transfers
  remove_all_body rs = step sqlite (on_tables (delete_transfers (λ r. true))) (
      step sqlite (on_tables (delete_paths (λ r. true)))
        (step sqlite (on_tables (delete_targets (λ r. true))) rs))

  unfoldable pub remove_all_targets : Session → Bool × Session
  unfolding within remove_all_body
  remove_all_targets s = within remove_all_body s

-- The calls of the functions above.
pub data Call : Type 0 where
  add_one : Transfer → Call
  clear_all : Call
  clear_for_remote : Text → Call
  delete_one : ℤ → Call
  update_one : TargetInfo → Call
  remove_one : Text → Call
  remove_all : Call

unfoldable pub perform : Sqlite → Call → Session → Bool × Session
unfolding add_transfer clear_all_transfers clear_all_transfers_for_remote delete_transfer
    update_target remove_target remove_all_targets
perform sqlite (add_one t) s = add_transfer sqlite t s
perform sqlite clear_all s = clear_all_transfers sqlite s
perform sqlite (clear_for_remote remote_id) s = clear_all_transfers_for_remote sqlite remote_id s
perform sqlite (delete_one id) s = delete_transfer sqlite id s
perform sqlite (update_one info) s = update_target sqlite info s
perform sqlite (remove_one target_id) s = remove_target sqlite target_id s
perform sqlite remove_all s = remove_all_targets sqlite s
