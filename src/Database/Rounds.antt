-- ===== src/Database/Rounds.antt =====
-- The loop of `enforceIntegrity` in src/service/database_manager.cpp: it ends where the updates succeed,
-- and not where they fail.
use winpinator.Prelude.{
  ℕ, zero, suc, ◌≡◌, refl, sym, ap, ◌∙◌, true, false, List, [], ◌∷◌, Text, codes, none, some, subst,
  ltb,
}
use winpinator.Database.Migration.{
  Schema, Command, create, set_version, apply_command, after_meta, update_from_ver0,
  update_from_ver1, update_from_ver2, upd_functions, target_db_ver, Answers, Updating, upd_exec,
  run_commands, finish_update, perform_update, read_version, enforce_integrity,
}

abbrev apply_all : List Command → Schema → Schema
apply_all [] s = s
apply_all (c ∷ cs) s = apply_all cs (apply_command c s)

-- Every command succeeds, and the version is found where there is one.
pub record Accepts (answers : Answers) : Type 0 where
  pub command_code : (n : ℕ) → answers.command_code n ≡ 0
  pub has_row : (n : ℕ) → answers.has_row n ≡ true

-- The code of a file that cannot be opened, which the constructor takes for an open database.
abbrev pub sqlite_cantopen : ℕ
sqlite_cantopen = 14

finish_accepts :
    (before : Schema) (ru : ℕ × Updating)
    → ru.0 ≡ 0
    → (finish_update before ru).schema ≡ ru.1.schema
unfolding finish_update
finish_accepts before ru e = rw e refl

finish_refuses :
    (before : Schema) (ru : ℕ × Updating)
    → ru.0 ≡ sqlite_cantopen
    → (finish_update before ru).schema ≡ before
unfolding finish_update
finish_refuses before ru e = rw e refl

module _ (answers : Answers) where
  -- A round that finds an old version updates it and goes on.
  round_on :
      (rounds current v : ℕ) (u : Updating)
      → read_version answers current u ≡ v
      → ltb v target_db_ver ≡ true
      → enforce_integrity answers (suc rounds) current u
        ≡ enforce_integrity answers rounds v
            (perform_update answers v (record u { queries = suc u.queries }))
  unfolding enforce_integrity
  round_on rounds current v u e old = rw e (rw old refl)

  round_ends :
      (rounds current : ℕ) (u : Updating)
      → ltb (read_version answers current u) target_db_ver ≡ false
      → enforce_integrity answers (suc rounds) current u
        ≡ some (record u { queries = suc u.queries })
  unfolding enforce_integrity
  round_ends rounds current u new = rw new refl

  module _ (ok : Accepts answers) where
    command_done :
        (c : Command) (u : Updating)
        → upd_exec answers c (0, u)
          ≡ (0, record u { commands = suc u.commands; schema = apply_command c u.schema })
    unfolding upd_exec
    command_done c u = rw (ok.command_code u.commands) refl

    commands_done :
        (cs : List Command) (u : Updating)
        → ((run_commands answers cs (0, u)).0 ≡ 0)
          × ((run_commands answers cs (0, u)).1.schema ≡ apply_all cs u.schema)
    unfolding run_commands
    commands_done [] u = (refl, refl)
    commands_done (c ∷ cs) u =
        let next = record u { commands = suc u.commands; schema = apply_command c u.schema } in
        subst
          (λ ru.
            ((run_commands answers cs ru).0 ≡ 0)
            × ((run_commands answers cs ru).1.schema ≡ apply_all cs next.schema))
          (sym (command_done c u)) (commands_done cs next)

    update_done :
        (level : ℕ) (cs : List Command) (u : Updating)
        → upd_functions level ≡ some cs
        → (perform_update answers level u).schema ≡ apply_all cs u.schema
    unfolding perform_update
    update_done level cs u e =
        let (fine, now) = commands_done cs u in
        rw (e, perform_update) (finish_accepts u.schema (run_commands answers cs (0, u)) fine ∙ now)

    version_read :
        (current v : ℕ) (u : Updating)
        → u.schema.version ≡ some v
        → read_version answers current u ≡ v
    unfolding read_version
    version_read current v u e = rw (e, read_version) (rw (ok.has_row u.queries) refl)

    -- The loop ends, with the tables of the version that the code wants.
    abbrev pub Reaches : ℕ → ℕ → Updating → Type 0
    Reaches rounds current u =
        (d : Updating) × (enforce_integrity answers rounds current u ≡ some d)
        × (d.schema.version ≡ some target_db_ver)

    from_three :
        (rounds current : ℕ) (u : Updating)
        → u.schema.version ≡ some 3
        → Reaches (suc rounds) current u
    from_three rounds current u e =
        let found = version_read current 3 u e in
        (record u { queries = suc u.queries }, round_ends rounds current u (rw found refl), e)

    after_round :
        (rounds current v : ℕ) (cs : List Command) (u : Updating)
        → read_version answers current u ≡ v
        → ltb v target_db_ver ≡ true
        → upd_functions v ≡ some cs
        → ((w : Updating) → w.schema ≡ apply_all cs u.schema → Reaches rounds v w)
        → Reaches (suc rounds) current u
    after_round rounds current v cs u e old these rest =
        let asked = record u { queries = suc u.queries } in
        let (d, runs, done) =
          rest (perform_update answers v asked) (update_done v cs asked these) in
        (d, round_on rounds current v u e old ∙ runs, done)

    updated :
        (name : Text) (v n : ℕ) (s : Schema)
        → s.version ≡ some v
        → (apply_all (create name ∷ set_version n ∷ []) s).version ≡ some n
    unfolding apply_command
    updated name v n s e = rw (e, apply_command) refl

    from_two :
        (rounds current : ℕ) (u : Updating)
        → u.schema.version ≡ some 2
        → Reaches (suc (suc rounds)) current u
    from_two rounds current u e =
        after_round (suc rounds) current 2 update_from_ver2 u (version_read current 2 u e) refl refl
          (λ w. λ same.
            from_three rounds 2 w
              (ap (λ (s : Schema). s.version) same ∙ updated (codes "target_view") 2 3 u.schema e))

    from_one :
        (rounds current : ℕ) (u : Updating)
        → u.schema.version ≡ some 1
        → Reaches (suc (suc (suc rounds))) current u
    from_one rounds current u e =
        after_round (suc (suc rounds)) current 1 update_from_ver1 u (version_read current 1 u e)
          refl refl
          (λ w. λ same.
            from_two rounds 1 w
              (ap (λ (s : Schema). s.version) same ∙ updated (codes "targets") 1 2 u.schema e))

    -- Where every command succeeds and a stored version is found, the loop ends after four rounds on a
    -- database that had no version, with the last version stored.
    pub enforce_integrity-new :
        (rounds : ℕ) (u : Updating)
        → u.schema.version ≡ none
        → Reaches (suc (suc (suc (suc rounds)))) 0 u
    enforce_integrity-new rounds u e =
        after_round (suc (suc (suc rounds))) 0 0 update_from_ver0 u
          (unfold read_version in rw (e, read_version) refl) refl refl
          (λ w. λ same.
            from_one rounds 0 w
              (ap (λ (s : Schema). s.version) same ∙ (unfold apply_command in refl)))

module _ (answers : Answers) (cantopen : (n : ℕ) → answers.command_code n ≡ sqlite_cantopen) where
  commands_fail :
      (cs : List Command) (u : Updating)
      → (run_commands answers cs (sqlite_cantopen, u)).0 ≡ sqlite_cantopen
  unfolding run_commands
  commands_fail [] u = refl
  commands_fail (c ∷ cs) u =
      let next = record u { commands = suc u.commands } in
      let failed : upd_exec answers c (sqlite_cantopen, u) ≡ (sqlite_cantopen, next) =
        unfold upd_exec in rw (cantopen u.commands) refl in
      subst (λ ru. (run_commands answers cs ru).0 ≡ sqlite_cantopen) (sym failed)
        (commands_fail cs next)

  first_fails :
      (c : Command) (cs : List Command) (u : Updating)
      → (run_commands answers (c ∷ cs) (0, u)).0 ≡ sqlite_cantopen
  unfolding run_commands
  first_fails c cs u =
      let next = record u { commands = suc u.commands } in
      let failed : upd_exec answers c (0, u) ≡ (sqlite_cantopen, next) =
        unfold upd_exec in rw (cantopen u.commands) refl in
      subst (λ ru. (run_commands answers cs ru).0 ≡ sqlite_cantopen) (sym failed)
        (commands_fail cs next)

  update_fails : (u : Updating) → (perform_update answers 0 u).schema ≡ u.schema
  unfolding perform_update
  update_fails u =
      finish_refuses u.schema (run_commands answers update_from_ver0 (0, u))
        (first_fails (create (codes "meta")) after_meta u)

  -- Where every command fails as the file cannot be opened, which the constructor takes for an open
  -- database, and there is no version, no number of rounds is enough.
  pub enforce_integrity-stuck :
      (rounds : ℕ) (u : Updating)
      → u.schema.version ≡ none
      → enforce_integrity answers rounds 0 u ≡ none
  unfolding enforce_integrity
  enforce_integrity-stuck zero u e = refl
  enforce_integrity-stuck (suc rounds) u e =
      let found : read_version answers 0 u ≡ 0 = unfold read_version in rw (e, read_version) refl in
      let asked = record u { queries = suc u.queries } in
      round_on answers rounds 0 0 u found refl
      ∙ enforce_integrity-stuck rounds (perform_update answers 0 asked)
          (ap (λ (s : Schema). s.version) (update_fails asked) ∙ e)
