-- ===== src/Database/Migration.antt =====
-- The versions of the database, `enforceIntegrity` and `performUpdate` of
-- src/service/database_manager.cpp. SQLite answers each command with a code, and each query for the version
-- with a row or without; both are parameters. BEGIN, COMMIT and ROLLBACK succeed here.
use Prim.Native.Nat.{bit_or}
use winpinator.Prelude.{
  ℕ, zero, suc, Bool, List, [], ◌∷◌, Text, codes, Option, none, some, ltb, ◌==◌, if◌then◌else◌,
}

-- The tables, indexes and views, and the version in the table `meta`, if there is one.
pub record Schema : Type 0 where
  pub objects : List Text
  pub version : Option ℕ

pub data Command : Type 0 where
  create : Text → Command
  insert_version : ℕ → Command
  set_version : ℕ → Command

-- What a command that succeeds does.
unfoldable pub apply_command : Command → Schema → Schema
apply_command (create name) s = record s { objects = name ∷ s.objects }
apply_command (insert_version n) s = record s { version = some n }
apply_command (set_version n) s = elim s.version [
  | none ↦ s
  | some v ↦ record s { version = some n }
]

abbrev pub after_meta : List Command
after_meta =
    create (codes "transfers")
    ∷ create (codes "idx_transfer_target")
    ∷ create (codes "transfer_paths")
    ∷ create (codes "idx_path_foreign_key")
    ∷ create (codes "dbg_transfers")
    ∷ insert_version 1
    ∷ []

abbrev pub update_from_ver0 : List Command
update_from_ver0 = create (codes "meta") ∷ after_meta

abbrev pub update_from_ver1 : List Command
update_from_ver1 = create (codes "targets") ∷ set_version 2 ∷ []

abbrev pub update_from_ver2 : List Command
update_from_ver2 = create (codes "target_view") ∷ set_version 3 ∷ []

-- `m_updFunctions`, by the version that is updated
abbrev pub upd_functions : ℕ → Option (List Command)
upd_functions zero = some update_from_ver0
upd_functions (suc zero) = some update_from_ver1
upd_functions (suc (suc zero)) = some update_from_ver2
upd_functions (suc (suc (suc n))) = none

abbrev pub target_db_ver : ℕ
target_db_ver = 3

-- The answers, by how many commands and queries have been run.
pub record Answers : Type 0 where
  pub command_code : ℕ → ℕ
  pub has_row : ℕ → Bool

pub record Updating : Type 0 where
  pub schema : Schema
  pub commands : ℕ
  pub queries : ℕ

-- COMMIT, or ROLLBACK to the schema before.
unfoldable pub finish_update : Schema → ℕ × Updating → Updating
finish_update before (results, u) = if results == 0 then u else record u { schema = before }

module _ (answers : Answers) where
  -- `UPD_EXEC`
  unfoldable pub upd_exec : Command → ℕ × Updating → ℕ × Updating
  unfolding apply_command
  upd_exec c (results, u) =
      let code = answers.command_code u.commands in
      let next = record u { commands = suc u.commands } in
      (
        bit_or results code,
        if code == 0 then record next { schema = apply_command c u.schema } else next,
      )

  unfoldable pub run_commands : List Command → ℕ × Updating → ℕ × Updating
  unfolding upd_exec
  run_commands [] ru = ru
  run_commands (c ∷ cs) ru = run_commands cs (upd_exec c ru)

  -- A transaction around the commands: all of them, or none.
  unfoldable pub perform_update : ℕ → Updating → Updating
  unfolding run_commands finish_update
  perform_update level u = elim (upd_functions level) [
    | none ↦ u
    | some cs ↦ finish_update u.schema (run_commands cs (0, u))
  ]

  unfoldable pub read_version : ℕ → Updating → ℕ
  read_version current u = elim u.schema.version [
    | none ↦ current
    | some v ↦ if answers.has_row u.queries then v else current
  ]

  -- The loop of `enforceIntegrity`, for at most so many rounds.
  unfoldable pub enforce_integrity : ℕ → ℕ → Updating → Option Updating
  unfolding read_version perform_update
  enforce_integrity zero current u = none
  enforce_integrity (suc rounds) current u =
      let version = read_version current u in
      let asked = record u { queries = suc u.queries } in
      let again = enforce_integrity rounds version (perform_update version asked) in
      if ltb version target_db_ver then again else some asked
