-- ===== src/Database/Tests.antt =====
-- A transfer of one file, an empty database, and SQLite with fixed answers.
use winpinator.Prelude.{
  ℕ, ◌≤◌, ◌≡◌, refl, true, false, List, [], ◌∷◌, codes, none, ◌==◌, if◌then◌else◌, arith,
}
use winpinator.Prelude.Int.{pos}
use winpinator.Transfers.Types.{
  TransferElementType, TransferElement, TransferStatus, TransferType, Transfer,
}
use winpinator.Database.Tables.{PathRow, Tables}
use mathlib.Core.List.{Perm}
use mathlib.Core.List.Perm
use winpinator.Database.Session.{Sqlite, Session, sqlite_ok, sqlite_done}
use winpinator.Database.History.{add_transfer, add_one, delete_one, perform, delete_transfer}
use winpinator.Database.Atomic.{Controlled, perform-unchanged}
use winpinator.Database.Linked.{Succeeds, IsValid}
use winpinator.Database.Integrity.{perform-IsValid}
use winpinator.Database.Partial.{sqlite_busy, add_transfer-partial}
use winpinator.Database.Migration.{Answers, Updating, enforce_integrity}
use winpinator.Database.Rounds.{
  Accepts, Reaches, sqlite_cantopen, enforce_integrity-new, enforce_integrity-stuck,
}

abbrev element : TransferElement
element = record {
  element_type = TransferElementType.file;
  element_name = codes "a.txt";
  relative_path = codes "a.txt";
  absolute_path = codes "C:/in/a.txt";
}

abbrev transfer : Transfer
transfer = record {
  target_id = codes "PEER";
  single_element_name = codes "a.txt";
  transfer_type = TransferType.single_file;
  transfer_timestamp = 1700000000;
  file_count = 1;
  folder_count = 0;
  total_size_bytes = pos 12;
  outgoing = false;
  status = TransferStatus.succeeded;
  elements = element ∷ [];
}

abbrev no_rows : Tables
no_rows = record {
  transfers = [];
  transfer_paths = [];
  targets = [];
  last_transfer = 0;
  last_path = 0;
}

abbrev session : Session
session = record {
  tables = no_rows;
  saved = none;
  db_open = true;
  controls = 0;
  steps = 0;
  last_insert = 0;
}

abbrev working : Sqlite
working = record {
  control = λ n. sqlite_ok;
  answers = λ n. sqlite_done;
  execs = λ n. sqlite_ok;
  rolls_back = λ n. false;
}

working-Succeeds : Succeeds working
working-Succeeds = record { control = λ n. refl; answers = λ n. refl; execs = λ n. refl }

no_rows-IsValid : IsValid no_rows
no_rows-IsValid = record { ids = tt; linked = tt }

abbrev as_stored : List PathRow → List PathRow
as_stored rows = rows

perform-IsValid_example :
    ((perform working (add_one transfer) session).0 ≡ true)
    × IsValid (perform working (add_one transfer) session).1.tables
perform-IsValid_example =
    perform-IsValid working working-Succeeds (add_one transfer) session refl (omega arith)
      no_rows-IsValid

-- The first statement is refused.
abbrev locked : Sqlite
locked = record {
  control = λ n. sqlite_ok;
  answers = λ n. if n == 0 then sqlite_busy else sqlite_done;
  execs = λ n. sqlite_ok;
  rolls_back = λ n. false;
}

-- No statement is accepted.
abbrev refusing : Sqlite
refusing = record {
  control = λ n. sqlite_ok;
  answers = λ n. sqlite_busy;
  execs = λ n. sqlite_busy;
  rolls_back = λ n. false;
}

refusing-Controlled : Controlled refusing
refusing-Controlled = record { control = λ n. refl; stays = λ n. refl }

locked-Controlled : Controlled locked
locked-Controlled = record { control = λ n. refl; stays = λ n. refl }

refused : (perform refusing (delete_one (pos 3)) session).0 ≡ false
unfolding perform delete_transfer
refused = refl

perform-unchanged_example : (perform refusing (delete_one (pos 3)) session).1.tables ≡ no_rows
perform-unchanged_example =
    perform-unchanged refusing refusing-Controlled (delete_one (pos 3)) session refused

later_done : (n : ℕ) → 1 ≤ n → locked.answers n ≡ sqlite_done
later_done n h = ground arith

add_transfer-partial_example :
    ((add_transfer locked transfer session).0 ≡ true)
    × ((add_transfer locked transfer session).1.tables.transfers ≡ [])
add_transfer-partial_example =
    add_transfer-partial locked locked-Controlled transfer element [] session refl refl refl
      later_done

abbrev empty_file : Updating
empty_file = record { schema = record { objects = []; version = none }; commands = 0; queries = 0 }

abbrev accepting : Answers
accepting = record { command_code = λ n. 0; has_row = λ n. true }

abbrev unwritable : Answers
unwritable = record { command_code = λ n. sqlite_cantopen; has_row = λ n. false }

accepting-Accepts : Accepts accepting
accepting-Accepts = record { command_code = λ n. refl; has_row = λ n. refl }

enforce_integrity-new_example : Reaches accepting accepting-Accepts 4 0 empty_file
enforce_integrity-new_example = enforce_integrity-new accepting accepting-Accepts 0 empty_file refl

enforce_integrity-stuck_example : enforce_integrity unwritable 100 0 empty_file ≡ none
enforce_integrity-stuck_example = enforce_integrity-stuck unwritable (λ n. refl) 100 empty_file refl
