-- ===== src/Database/Session.antt =====
-- The connection of src/service/database_manager.cpp: SQLite's answers, transactions, and the results
-- that its macros collect. SQLite is a parameter: two functions that give the result code of each
-- statement in turn, and whether one that fails also rolls its transaction back, as SQLite may where the
-- disk is full or cannot be read. What a statement does is read from its SQL; it does nothing else when it
-- fails, and after a transaction has been rolled back, the next statements run without one.
use Prim.Native.Nat.{bit_or}
use winpinator.Prelude.{ℕ, suc, Bool, true, false, Option, none, some, ◌==◌, if◌then◌else◌}
use winpinator.Database.Tables.{Tables}

abbrev pub sqlite_ok : ℕ
sqlite_ok = 0

abbrev pub sqlite_done : ℕ
sqlite_done = 101

-- The code of a statement by its number: `control` answers BEGIN, COMMIT and ROLLBACK, `answers` each
-- `sqlite3_step`, and `execs` each other `sqlite3_exec`.
pub record Sqlite : Type 0 where
  pub control : ℕ → ℕ
  pub answers : ℕ → ℕ
  pub execs : ℕ → ℕ
  pub rolls_back : ℕ → Bool

pub record Session : Type 0 where
  pub tables : Tables
  -- what ROLLBACK restores, while a transaction is open
  pub saved : Option Tables
  pub db_open : Bool
  -- how many statements have been run, of the first kind and of the other two
  pub controls : ℕ
  pub steps : ℕ
  -- `sqlite3_last_insert_rowid`
  pub last_insert : ℕ

-- `FIX_RESULTS`
unfoldable pub fix_results : ℕ → ℕ
fix_results res = if res == sqlite_done then sqlite_ok else res

-- `results |= …` and `FIX_RESULTS( results )`
unfoldable pub collect_result : ℕ → ℕ → ℕ
unfolding fix_results
collect_result results code = fix_results (bit_or results code)

abbrev restored : Option Tables → Tables → Tables
restored none now = now
restored (some before) now = before

-- What a statement that fails leaves.
unfoldable pub after_failure : Bool → Session → Session
after_failure false s = s
after_failure true s = record s { tables = restored s.saved s.tables; saved = none }

-- One `sqlite3_step` of a statement that writes, or `sqlite3_exec`, with the code of success.
unfoldable pub run_statement :
    ℕ → (ℕ → ℕ) → (ℕ → Bool) → (Session → Session) → Session → ℕ × Session
unfolding after_failure
run_statement success codes rolls_back write s =
    let next = record s { steps = suc s.steps } in
    let code = codes s.steps in
    (code, if code == success then write next else after_failure (rolls_back s.steps) next)

module _ (sqlite : Sqlite) where
  unfoldable pub begin_transaction : Session → Session
  begin_transaction s =
      let next = record s { controls = suc s.controls } in
      if sqlite.control s.controls == sqlite_ok then record next { saved = some s.tables } else next

  unfoldable pub commit : Session → Session
  commit s =
      let next = record s { controls = suc s.controls } in
      if sqlite.control s.controls == sqlite_ok then record next { saved = none } else next

  unfoldable pub rollback : Session → Session
  rollback s =
      let next = record s { controls = suc s.controls } in
      if sqlite.control s.controls == sqlite_ok
      then record next { tables = restored s.saved s.tables; saved = none }
      else next

  unfoldable pub end_transaction : ℕ → Session → Bool × Session
  unfolding commit rollback
  end_transaction result s = if result == sqlite_ok then (true, commit s) else (false, rollback s)

  -- The statement as the functions run it: the code goes into the results.
  unfoldable pub step : (Session → Session) → ℕ × Session → ℕ × Session
  unfolding run_statement collect_result
  step write (results, s) =
      let (code, next) = run_statement sqlite_done sqlite.answers sqlite.rolls_back write s in
      (collect_result results code, next)

  unfoldable pub exec : (Session → Session) → ℕ × Session → ℕ × Session
  unfolding run_statement collect_result
  exec write (results, s) =
      let (code, next) = run_statement sqlite_ok sqlite.execs sqlite.rolls_back write s in
      (collect_result results code, next)

-- A statement that changes rows, and inserts none.
unfoldable pub on_tables : (Tables → Tables) → Session → Session
on_tables change s = record s { tables = change s.tables }
