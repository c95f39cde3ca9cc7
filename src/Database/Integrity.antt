-- ===== src/Database/Integrity.antt =====
-- The calls of src/service/database_manager.cpp keep the tables together when every statement succeeds.
use winpinator.Prelude.{
  ℕ, suc, ◌≤◌, ◌<◌, ◌%◌, ◌^◌, ltb, ◌≡◌, refl, sym, ap, ◌∙◌, Bool, true, false, not, List, [], ◌∷◌,
  ◌++◌, Text, text_eq, some, subst, All-append, All-map, arith, if_cases,
}
use winpinator.Transfers.Types.{TransferElement, Transfer}
use winpinator.Prelude.Int.{ℤ, pos}
use winpinator.Database.Tables.{TransferRow, PathRow, Tables, c_string, to_int, id_is, same_int}
use winpinator.Database.Session.{
  Sqlite, Session, sqlite_ok, begin_transaction, commit, end_transaction, run_statement, step, exec,
  on_tables, collect_result, fix_results,
}
use winpinator.Database.History.{
  row_of, path_of, insert_transfer, insert_path, insert_elements, delete_transfers, delete_paths,
  delete_joined, within, if_open, add_transfer_body, clear_all_body, clear_remote, delete_body,
  remove_body, remove_all_body, delete_targets, replace_target, bound_target, Call, add_one,
  clear_all, clear_for_remote, delete_one, update_one, remove_one, remove_all, perform,
  add_transfer, clear_all_transfers, clear_all_transfers_for_remote, delete_transfer, update_target,
  remove_target, remove_all_targets,
}
use winpinator.Database.Linked.{
  Succeeds, owned, IsValid, owned-append, owned_last, targets-IsValid, replaced-IsValid,
  pathless-IsValid, deleted-IsValid, unjoined-IsValid,
}

-- The identifier that the call gives to a transfer is an `int`.
abbrev pub HasRoom : Call → Tables → Type 0
HasRoom (add_one t) tables = suc tables.last_transfer < 2 ^ 31
HasRoom _ tables = Unit

-- The session in a transaction.
abbrev started : Session → Session
started s = record s { controls = suc s.controls; saved = some s.tables }

small_mod : (n : ℕ) → n < 2 ^ 31 → n % 2 ^ 32 ≡ n
small_mod n room = omega arith

below : (n : ℕ) → n < 2 ^ 31 → ltb n (2 ^ 31) ≡ true
below n room = ground arith

pub to_int_lem : (n : ℕ) → n < 2 ^ 31 → to_int n ≡ pos n
unfolding to_int
to_int_lem n room = rw (small_mod n room, below n room) refl

id_is-to_int : (n : ℕ) → n < 2 ^ 31 → id_is (to_int n) n ≡ true
unfolding id_is
id_is-to_int n room = rw (to_int_lem n room) (ground arith)

module _ (sqlite : Sqlite) (ok : Succeeds sqlite) where
  pub step_done :
      (write : Session → Session) (s : Session)
      → step sqlite write (sqlite_ok, s) ≡ (sqlite_ok, write (record s { steps = suc s.steps }))
  unfolding step run_statement collect_result fix_results
  step_done write s = rw (ok.answers s.steps) refl

  exec_done :
      (write : Session → Session) (s : Session)
      → exec sqlite write (sqlite_ok, s) ≡ (sqlite_ok, write (record s { steps = suc s.steps }))
  unfolding exec run_statement collect_result fix_results
  exec_done write s = rw (ok.execs s.steps) refl

  -- What a body makes of valid tables, when nothing fails.
  record Good (after : ℕ × Session) : Type 0 where
    accepted : after.0 ≡ sqlite_ok
    valid : IsValid after.1.tables

  abbrev GoodAt : (ℕ × Session → ℕ × Session) → Session → Type 0
  GoodAt body s = Good (body (sqlite_ok, s))

  abbrev GoodBody : (ℕ × Session → ℕ × Session) → Type 0
  GoodBody body = (s : Session) → IsValid s.tables → Good (body (sqlite_ok, s))

  record Accepted (answer : Bool × Session) : Type 0 where
    accepted : answer.0 ≡ true
    valid : IsValid answer.1.tables

  end-Accepted : (rs : ℕ × Session) → Good rs → Accepted (end_transaction sqlite rs.0 rs.1)
  unfolding end_transaction commit
  end-Accepted (results, s) g =
      rw (g.accepted, ok.control s.controls) record { accepted = refl; valid = g.valid }

  within-Accepted :
      (body : ℕ × Session → ℕ × Session) (s : Session)
      → GoodAt body (record s { controls = suc s.controls; saved = some s.tables })
      → Accepted (within sqlite body s)
  unfolding within begin_transaction
  within-Accepted body s good =
      let begun = begin_transaction sqlite s in
      let same : begun ≡ record s { controls = suc s.controls; saved = some s.tables } =
        rw (ok.control s.controls) refl in
      end-Accepted (body (sqlite_ok, begun)) (subst (GoodAt body) (sym same) good)

  open-Accepted :
      (body : ℕ × Session → ℕ × Session) (s : Session)
      → s.db_open ≡ true
      → GoodAt body (record s { controls = suc s.controls; saved = some s.tables })
      → Accepted (if_open sqlite body s)
  unfolding if_open
  open-Accepted body s opened good =
      if_cases Accepted (not s.db_open) (false, s) (within sqlite body s)
        (λ shut. absurd (ground arith)) (λ open_now. within-Accepted body s good)

  inserted-IsValid :
      (t : Transfer) (s : Session) → IsValid s.tables → IsValid (insert_transfer t s).tables
  unfolding insert_transfer row_of
  inserted-IsValid t s v =
      let id = suc s.tables.last_transfer in
      let rows = s.tables.transfers in
      record {
        ids =
            All-append (λ (r : TransferRow). r.id ≤ id) rows (row_of id t ∷ [])
              (All-map (λ (r : TransferRow). r.id ≤ s.tables.last_transfer)
                (λ (r : TransferRow). r.id ≤ id) rows (λ r. λ h. omega arith) v.ids)
              (omega arith, tt);
        linked =
            All-map (λ (p : PathRow). owned p.transfer_id rows ≡ true)
              (λ (p : PathRow). owned p.transfer_id (rows ++ row_of id t ∷ []) ≡ true)
              s.tables.transfer_paths
              (λ p. λ h. owned-append p.transfer_id rows (row_of id t ∷ []) h) v.linked;
      }

  inserted_owned :
      (t : Transfer) (s : Session)
      → suc s.tables.last_transfer < 2 ^ 31
      → owned (to_int (insert_transfer t s).last_insert) (insert_transfer t s).tables.transfers
        ≡ true
  unfolding insert_transfer row_of
  inserted_owned t s room =
      let id = suc s.tables.last_transfer in
      owned_last (to_int id) s.tables.transfers (row_of id t) (id_is-to_int id room)

  path-owned :
      (id : ℤ) (e : TransferElement) (s : Session) (known : ℤ)
      → owned known s.tables.transfers ≡ true
      → owned known (insert_path id e s).tables.transfers ≡ true
  unfolding insert_path
  path-owned id e s known h = h

  path-IsValid :
      (id : ℤ) (e : TransferElement) (s : Session)
      → owned id s.tables.transfers ≡ true
      → IsValid s.tables
      → IsValid (insert_path id e s).tables
  unfolding insert_path path_of
  path-IsValid id e s known v = record {
    ids = v.ids;
    linked =
        All-append (λ (p : PathRow). owned p.transfer_id s.tables.transfers ≡ true)
          s.tables.transfer_paths (path_of (suc s.tables.last_path) id e ∷ []) v.linked (known, tt);
  }

  elements-Good :
      (id : ℤ) (es : List TransferElement) (s : Session)
      → owned id s.tables.transfers ≡ true
      → IsValid s.tables
      → Good (insert_elements sqlite id es (sqlite_ok, s))
  unfolding insert_elements
  elements-Good id [] s known v = record { accepted = refl; valid = v }
  elements-Good id (e ∷ es) s known v =
      let next = record s { steps = suc s.steps } in
      rw (step_done (insert_path id e) s) (
        elements-Good id es (insert_path id e next) (path-owned id e next id known)
          (path-IsValid id e next known v))

  -- One statement after others that have succeeded.
  then_step :
      (change : Tables → Tables) (rs : ℕ × Session)
      → rs.0 ≡ sqlite_ok
      → ((step sqlite (on_tables change) rs).0 ≡ sqlite_ok)
        × ((step sqlite (on_tables change) rs).1.tables ≡ change rs.1.tables)
  unfolding on_tables
  then_step change (results, s) e = rw (e, step_done (on_tables change) s) (refl, refl)

  then_exec :
      (change : Tables → Tables) (rs : ℕ × Session)
      → rs.0 ≡ sqlite_ok
      → ((exec sqlite (on_tables change) rs).0 ≡ sqlite_ok)
        × ((exec sqlite (on_tables change) rs).1.tables ≡ change rs.1.tables)
  unfolding on_tables
  then_exec change (results, s) e = rw (e, exec_done (on_tables change) s) (refl, refl)

  tables-Good :
      (after : ℕ × Session) (t : Tables)
      → (after.0 ≡ sqlite_ok) × (after.1.tables ≡ t)
      → IsValid t
      → Good after
  tables-Good after t (accepted, same) v = record { accepted = accepted; valid = rw same v }

  step_good :
      (f : Tables → Tables) (rs : ℕ × Session) (t : Tables)
      → (rs.0 ≡ sqlite_ok) × (rs.1.tables ≡ t)
      → ((step sqlite (on_tables f) rs).0 ≡ sqlite_ok)
        × ((step sqlite (on_tables f) rs).1.tables ≡ f t)
  step_good f rs t (e, same) = let (done, now) = then_step f rs e in (done, now ∙ ap f same)

  add-Good :
      (t : Transfer) (s : Session)
      → suc s.tables.last_transfer < 2 ^ 31
      → IsValid s.tables
      → Good (add_transfer_body sqlite t (sqlite_ok, s))
  unfolding add_transfer_body
  add-Good t s room v =
      let inserted = insert_transfer t (record s { steps = suc s.steps }) in
      subst (λ rs. Good (insert_elements sqlite (to_int rs.1.last_insert) t.elements rs))
        (sym (step_done (insert_transfer t) s))
        (elements-Good (to_int inserted.last_insert) t.elements inserted
          (inserted_owned t (record s { steps = suc s.steps }) room)
          (inserted-IsValid t (record s { steps = suc s.steps }) v))

  clear_remote-steps :
      (target : Text) (rs : ℕ × Session) (t : Tables)
      → (rs.0 ≡ sqlite_ok) × (rs.1.tables ≡ t)
      → ((clear_remote sqlite target rs).0 ≡ sqlite_ok)
        × ((clear_remote sqlite target rs).1.tables
            ≡ delete_transfers (λ r. text_eq r.target_id target) (delete_joined target t))
  unfolding clear_remote
  clear_remote-steps target rs t h =
      step_good (delete_transfers (λ r. text_eq r.target_id target))
        (step sqlite (on_tables (delete_joined target)) rs) (delete_joined target t)
        (step_good (delete_joined target) rs t h)

  clear_remote-Good : (target : Text) → GoodBody (clear_remote sqlite target)
  clear_remote-Good target s v =
      tables-Good (clear_remote sqlite target (sqlite_ok, s)) _
        (clear_remote-steps target (sqlite_ok, s) s.tables (refl, refl))
        (unjoined-IsValid target s.tables v)

  delete-Good : (id : ℤ) → GoodBody (delete_body sqlite id)
  unfolding delete_body
  delete-Good id s v =
      let first = delete_transfers (λ r. id_is id r.id) in
      tables-Good (delete_body sqlite id (sqlite_ok, s)) _
        (step_good (delete_paths (λ r. same_int r.transfer_id id))
          (step sqlite (on_tables first) (sqlite_ok, s)) (first s.tables)
          (step_good first (sqlite_ok, s) s.tables (refl, refl)))
        (deleted-IsValid id s.tables v)

  clear_all-Good : GoodBody (clear_all_body sqlite)
  unfolding clear_all_body
  clear_all-Good s v =
      let first = delete_transfers (λ r. true) in
      let (e, same) = then_exec first (sqlite_ok, s) refl in
      let (done, now) =
        then_exec (delete_paths (λ r. true)) (exec sqlite (on_tables first) (sqlite_ok, s)) e in
      tables-Good (clear_all_body sqlite (sqlite_ok, s)) _
        (done, now ∙ ap (delete_paths (λ r. true)) same) (pathless-IsValid (λ r. true) s.tables v)

  remove-Good : (target : Text) → GoodBody (remove_body sqlite target)
  unfolding remove_body
  remove-Good target s v =
      let first = delete_targets (λ r. text_eq r.target_id target) in
      tables-Good (remove_body sqlite target (sqlite_ok, s)) _
        (clear_remote-steps target (step sqlite (on_tables first) (sqlite_ok, s)) (first s.tables)
          (step_good first (sqlite_ok, s) s.tables (refl, refl)))
        (unjoined-IsValid target (first s.tables)
          (targets-IsValid (λ r. text_eq r.target_id target) s.tables v))

  remove_all-Good : GoodBody (remove_all_body sqlite)
  unfolding remove_all_body delete_paths delete_transfers
  remove_all-Good s v =
      let first = delete_targets (λ r. true) in
      let second = delete_paths (λ r. true) in
      let last = delete_transfers (λ r. true) in
      let one = step sqlite (on_tables first) (sqlite_ok, s) in
      tables-Good (remove_all_body sqlite (sqlite_ok, s)) (last (second (first s.tables)))
        (step_good last (step sqlite (on_tables second) one) (second (first s.tables)) (
          step_good second one (first s.tables)
            (step_good first (sqlite_ok, s) s.tables (refl, refl))))
        (pathless-IsValid (λ r. true) (first s.tables) (targets-IsValid (λ r. true) s.tables v))

  perform-Accepted :
      (call : Call) (s : Session)
      → s.db_open ≡ true
      → HasRoom call s.tables
      → IsValid s.tables
      → Accepted (perform sqlite call s)
  unfolding perform add_transfer clear_all_transfers clear_all_transfers_for_remote delete_transfer
      update_target remove_target remove_all_targets
  perform-Accepted (add_one t) s o room v =
      open-Accepted (add_transfer_body sqlite t) s o (add-Good t (started s) room v)
  perform-Accepted clear_all s o room v =
      open-Accepted (clear_all_body sqlite) s o (clear_all-Good (started s) v)
  perform-Accepted (clear_for_remote remote_id) s o room v =
      open-Accepted (clear_remote sqlite (c_string remote_id)) s o
        (clear_remote-Good (c_string remote_id) (started s) v)
  perform-Accepted (delete_one id) s o room v =
      open-Accepted (delete_body sqlite id) s o (delete-Good id (started s) v)
  perform-Accepted (update_one info) s o room v =
      let change = replace_target (bound_target info) in
      let body = step sqlite (on_tables change) in
      open-Accepted body s o (
        tables-Good (body (sqlite_ok, started s)) _
          (step_good change (sqlite_ok, started s) s.tables (refl, refl))
          (replaced-IsValid (bound_target info) s.tables v))
  perform-Accepted (remove_one target_id) s o room v =
      within-Accepted (remove_body sqlite (c_string target_id)) s
        (remove-Good (c_string target_id) (started s) v)
  perform-Accepted remove_all s o room v =
      within-Accepted (remove_all_body sqlite) s (remove_all-Good (started s) v)

  -- Where every statement succeeds, the database is open, and the identifier of a transfer that is added
  -- is below 2 ^ 31: each call reports success and keeps the tables together: every path belongs to a
  -- stored transfer, and no identifier is above the counter.
  pub perform-IsValid :
      (call : Call) (s : Session)
      → s.db_open ≡ true
      → HasRoom call s.tables
      → IsValid s.tables
      → ((perform sqlite call s).0 ≡ true) × IsValid (perform sqlite call s).1.tables
  perform-IsValid call s opened room v =
      let a = perform-Accepted call s opened room v in (a.accepted, a.valid)
