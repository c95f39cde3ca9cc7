-- ===== src/Database/Reading.antt =====
-- What `addTransfer` of src/service/database_manager.cpp has stored, `getTransfer` reads.
use winpinator.Prelude.{ℕ, ◌≡◌, List, ◌++◌}
use winpinator.Transfers.Types.{TransferElement}
use winpinator.Prelude.Int.{ℤ}
use winpinator.Database.Session.{Sqlite, Session, sqlite_ok}
use winpinator.Database.Linked.{Succeeds}
use winpinator.Database.Rows.{path_rows}

module _ (sqlite : Sqlite) (ok : Succeeds sqlite) where
  -- The tables that the loop over the elements leaves.
  record Filled (id : ℤ) (es : List TransferElement) (s : Session) (after : ℕ × Session)
      : Type 0 where
    accepted : after.0 ≡ sqlite_ok
    transfers : after.1.tables.transfers ≡ s.tables.transfers
    paths :
        after.1.tables.transfer_paths
        ≡ s.tables.transfer_paths ++ path_rows s.tables.last_path id es
    same_open : after.1.db_open ≡ s.db_open
