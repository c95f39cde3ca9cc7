-- ===== src/Database/Atomic.antt =====
-- The transactions of src/service/database_manager.cpp: what has been refused has changed nothing.
use winpinator.Prelude.{
  ℕ, suc, ◌≡◌, refl, ap, ◌∙◌, Bool, true, false, not, List, [], ◌∷◌, Text, text_eq, some, ◌==◌,
  if_cases,
}
use winpinator.Transfers.Types.{TransferElement, Transfer}
use winpinator.Prelude.Int.{ℤ}
use winpinator.Database.Tables.{Tables, c_string, to_int, id_is, same_int}
use winpinator.Database.Session.{
  Sqlite, Session, sqlite_ok, sqlite_done, begin_transaction, commit, rollback, end_transaction,
  after_failure, run_statement, step, exec, on_tables,
}
use winpinator.Database.History.{
  insert_transfer, insert_path, insert_elements, within, if_open, add_transfer_body, clear_all_body,
  clear_remote, delete_body, remove_body, remove_all_body, delete_transfers, delete_paths,
  delete_targets, delete_joined, replace_target, bound_target, Call, add_one, clear_all,
  clear_for_remote, delete_one, update_one, remove_one, remove_all, perform, add_transfer,
  clear_all_transfers, clear_all_transfers_for_remote, delete_transfer, update_target,
  remove_target, remove_all_targets,
}

-- BEGIN, COMMIT and ROLLBACK succeed, and a statement that fails leaves its transaction open.
pub record Controlled (sqlite : Sqlite) : Type 0 where
  pub control : (n : ℕ) → sqlite.control n ≡ sqlite_ok
  pub stays : (n : ℕ) → sqlite.rolls_back n ≡ false

-- The statement leaves the transaction as it is.
abbrev KeepsSaved : (Session → Session) → Type 0
KeepsSaved write = (s : Session) → (write s).saved ≡ s.saved

abbrev BodyKeeps : (ℕ × Session → ℕ × Session) → Type 0
BodyKeeps body = (rs : ℕ × Session) → (body rs).1.saved ≡ rs.1.saved

module _ (sqlite : Sqlite) (controlled : Controlled sqlite) where
  run-saved :
      (success : ℕ) (codes : ℕ → ℕ) (write : Session → Session)
      → KeepsSaved write
      → (s : Session) → (run_statement success codes sqlite.rolls_back write s).1.saved ≡ s.saved
  unfolding run_statement after_failure
  run-saved success codes write k s =
      let next = record s { steps = suc s.steps } in
      rw (controlled.stays s.steps) (
        if_cases (λ (t : Session). t.saved ≡ s.saved) (codes s.steps == success) (write next) next
          (λ e. k next) (λ e. refl))

  step-saved : (write : Session → Session) → KeepsSaved write → BodyKeeps (step sqlite write)
  unfolding step
  step-saved write k rs = run-saved sqlite_done sqlite.answers write k rs.1

  exec-saved : (write : Session → Session) → KeepsSaved write → BodyKeeps (exec sqlite write)
  unfolding exec
  exec-saved write k rs = run-saved sqlite_ok sqlite.execs write k rs.1

  tables-saved : (change : Tables → Tables) → KeepsSaved (on_tables change)
  unfolding on_tables
  tables-saved change s = refl

  transfer-saved : (t : Transfer) → KeepsSaved (insert_transfer t)
  unfolding insert_transfer
  transfer-saved t s = refl

  path-saved : (id : ℤ) (e : TransferElement) → KeepsSaved (insert_path id e)
  unfolding insert_path
  path-saved id e s = refl

  elements-saved : (id : ℤ) (es : List TransferElement) → BodyKeeps (insert_elements sqlite id es)
  unfolding insert_elements
  elements-saved id [] rs = refl
  elements-saved id (e ∷ es) rs =
      elements-saved id es (step sqlite (insert_path id e) rs)
      ∙ step-saved (insert_path id e) (path-saved id e) rs

  step_tables : (change : Tables → Tables) → BodyKeeps (step sqlite (on_tables change))
  step_tables change = step-saved (on_tables change) (tables-saved change)

  exec_tables : (change : Tables → Tables) → BodyKeeps (exec sqlite (on_tables change))
  exec_tables change = exec-saved (on_tables change) (tables-saved change)

  add-saved : (t : Transfer) → BodyKeeps (add_transfer_body sqlite t)
  unfolding add_transfer_body
  add-saved t rs =
      let inserted = step sqlite (insert_transfer t) rs in
      elements-saved (to_int inserted.1.last_insert) t.elements inserted
      ∙ step-saved (insert_transfer t) (transfer-saved t) rs

  clear_all-saved : BodyKeeps (clear_all_body sqlite)
  unfolding clear_all_body
  clear_all-saved rs =
      exec_tables (delete_paths (λ r. true))
        (exec sqlite (on_tables (delete_transfers (λ r. true))) rs)
      ∙ exec_tables (delete_transfers (λ r. true)) rs

  clear_remote-saved : (target : Text) → BodyKeeps (clear_remote sqlite target)
  unfolding clear_remote
  clear_remote-saved target rs =
      step_tables (delete_transfers (λ r. text_eq r.target_id target))
        (step sqlite (on_tables (delete_joined target)) rs)
      ∙ step_tables (delete_joined target) rs

  delete-saved : (id : ℤ) → BodyKeeps (delete_body sqlite id)
  unfolding delete_body
  delete-saved id rs =
      step_tables (delete_paths (λ r. same_int r.transfer_id id))
        (step sqlite (on_tables (delete_transfers (λ r. id_is id r.id))) rs)
      ∙ step_tables (delete_transfers (λ r. id_is id r.id)) rs

  remove-saved : (target : Text) → BodyKeeps (remove_body sqlite target)
  unfolding remove_body
  remove-saved target rs =
      let change = delete_targets (λ r. text_eq r.target_id target) in
      clear_remote-saved target (step sqlite (on_tables change) rs) ∙ step_tables change rs

  remove_all-saved : BodyKeeps (remove_all_body sqlite)
  unfolding remove_all_body
  remove_all-saved rs =
      let first = step sqlite (on_tables (delete_targets (λ r. true))) rs in
      step_tables (delete_transfers (λ r. true))
        (step sqlite (on_tables (delete_paths (λ r. true))) first)
      ∙ step_tables (delete_paths (λ r. true)) first
      ∙ step_tables (delete_targets (λ r. true)) rs

  begin_saves :
      (s : Session)
      → begin_transaction sqlite s ≡ record s { controls = suc s.controls; saved = some s.tables }
  unfolding begin_transaction
  begin_saves s = rw (controlled.control s.controls) refl

  rollback_restores :
      (s : Session) (before : Tables) → s.saved ≡ some before → (rollback sqlite s).tables ≡ before
  unfolding rollback
  rollback_restores s before e = rw (controlled.control s.controls) (rw e refl)

  end-tables :
      (results : ℕ) (s : Session) (before : Tables)
      → s.saved ≡ some before
      → (end_transaction sqlite results s).0 ≡ false
      → (end_transaction sqlite results s).1.tables ≡ before
  unfolding end_transaction
  end-tables results s before e =
      if_cases (λ (r : Bool × Session). r.0 ≡ false → r.1.tables ≡ before) (results == sqlite_ok)
        (true, commit sqlite s) (false, rollback sqlite s) (λ ok. λ r. cc)
        (λ bad. λ r. rollback_restores s before e)

  within-unchanged :
      (body : ℕ × Session → ℕ × Session) (s : Session)
      → BodyKeeps body
      → (within sqlite body s).0 ≡ false
      → (within sqlite body s).1.tables ≡ s.tables
  unfolding within
  within-unchanged body s k refused =
      let begun = begin_transaction sqlite s in
      let done = body (sqlite_ok, begun) in
      end-tables done.0 done.1 s.tables
        (k (sqlite_ok, begun) ∙ ap (λ (t : Session). t.saved) (begin_saves s)) refused

  open-unchanged :
      (body : ℕ × Session → ℕ × Session) (s : Session)
      → BodyKeeps body
      → (if_open sqlite body s).0 ≡ false
      → (if_open sqlite body s).1.tables ≡ s.tables
  unfolding if_open
  open-unchanged body s k =
      if_cases (λ (r : Bool × Session). r.0 ≡ false → r.1.tables ≡ s.tables) (not s.db_open)
        (false, s) (within sqlite body s) (λ closed. λ r. refl)
        (λ opened. within-unchanged body s k)

  -- Where BEGIN, COMMIT and ROLLBACK succeed and no statement that fails rolls back the transaction by
  -- itself: whatever SQLite answers to the other statements, a call that reports a failure has left
  -- every table as it was.
  pub perform-unchanged :
      (call : Call) (s : Session)
      → (perform sqlite call s).0 ≡ false
      → (perform sqlite call s).1.tables ≡ s.tables
  unfolding perform add_transfer clear_all_transfers clear_all_transfers_for_remote delete_transfer
      update_target remove_target remove_all_targets
  perform-unchanged (add_one t) s = open-unchanged (add_transfer_body sqlite t) s (add-saved t)
  perform-unchanged clear_all s = open-unchanged (clear_all_body sqlite) s clear_all-saved
  perform-unchanged (clear_for_remote remote_id) s =
      open-unchanged (clear_remote sqlite (c_string remote_id)) s
        (clear_remote-saved (c_string remote_id))
  perform-unchanged (delete_one id) s = open-unchanged (delete_body sqlite id) s (delete-saved id)
  perform-unchanged (update_one info) s =
      let change = replace_target (bound_target info) in
      open-unchanged (step sqlite (on_tables change)) s (step_tables change)
  perform-unchanged (remove_one target_id) s =
      within-unchanged (remove_body sqlite (c_string target_id)) s
        (remove-saved (c_string target_id))
  perform-unchanged remove_all s = within-unchanged (remove_all_body sqlite) s remove_all-saved
