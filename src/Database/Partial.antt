-- ===== src/Database/Partial.antt =====
-- `FIX_RESULTS` of src/service/database_manager.cpp looks at all the codes so far at once, joined by `|`:
-- a failure whose bits SQLITE_DONE has is taken for success when a later statement succeeds.
use winpinator.Prelude.{
  ℕ, suc, ◌≤◌, ◌≡◌, refl, sym, Bool, true, false, not, List, [], ◌∷◌, some, subst, arith, if_cases,
}
use winpinator.Transfers.Types.{TransferElement, Transfer}
use winpinator.Prelude.Int.{ℤ}
use winpinator.Database.Tables.{TransferRow, to_int}
use winpinator.Database.Session.{
  Sqlite, Session, sqlite_ok, sqlite_done, begin_transaction, end_transaction, commit,
  after_failure, run_statement, step, collect_result, fix_results,
}
use winpinator.Database.History.{
  insert_transfer, insert_path, insert_elements, within, if_open, add_transfer_body, add_transfer,
}
use winpinator.Database.Atomic.{Controlled}

-- The database is locked by another process.
abbrev pub sqlite_busy : ℕ
sqlite_busy = 5

module _ (sqlite : Sqlite) where
  -- The statements from a number on succeed.
  abbrev pub Done : ℕ → Type 0
  Done k = (n : ℕ) → k ≤ n → sqlite.answers n ≡ sqlite_done

  step_from :
      (write : Session → Session) (s : Session)
      → sqlite.answers s.steps ≡ sqlite_done
      → step sqlite write (sqlite_ok, s) ≡ (sqlite_ok, write (record s { steps = suc s.steps }))
  unfolding step run_statement collect_result fix_results
  step_from write s e = rw e refl

  -- The statement after the one that was refused.
  step_after_busy :
      (write : Session → Session) (s : Session)
      → sqlite.answers s.steps ≡ sqlite_done
      → step sqlite write (sqlite_busy, s) ≡ (sqlite_ok, write (record s { steps = suc s.steps }))
  unfolding step run_statement collect_result fix_results
  step_after_busy write s e = rw e refl

  step_busy :
      (write : Session → Session) (s : Session)
      → sqlite.answers s.steps ≡ sqlite_busy
      → sqlite.rolls_back s.steps ≡ false
      → step sqlite write (sqlite_ok, s) ≡ (sqlite_busy, record s { steps = suc s.steps })
  unfolding step run_statement collect_result fix_results after_failure
  step_busy write s e stays = rw (e, stays) refl

  record Passed (rows : List TransferRow) (after : ℕ × Session) : Type 0 where
    accepted : after.0 ≡ sqlite_ok
    same : after.1.tables.transfers ≡ rows

  rest-Passed :
      (id : ℤ) (es : List TransferElement) (s : Session)
      → Done s.steps
      → Passed s.tables.transfers (insert_elements sqlite id es (sqlite_ok, s))
  unfolding insert_elements
  rest-Passed id [] s d = record { accepted = refl; same = refl }
  rest-Passed id (e ∷ es) s d =
      let next = insert_path id e (record s { steps = suc s.steps }) in
      let f : Passed s.tables.transfers (insert_elements sqlite id es (sqlite_ok, next)) =
        unfold insert_path in rest-Passed id es next (λ n. λ h. d n (omega arith)) in
      rw (step_from (insert_path id e) s (d s.steps (omega arith))) f

  body-Passed :
      (t : Transfer) (e : TransferElement) (es : List TransferElement) (s : Session)
      → t.elements ≡ e ∷ es
      → sqlite.answers s.steps ≡ sqlite_busy
      → sqlite.rolls_back s.steps ≡ false
      → Done (suc s.steps)
      → Passed s.tables.transfers (add_transfer_body sqlite t (sqlite_ok, s))
  unfolding add_transfer_body
  body-Passed t e es s has busy stays d =
      let next = record s { steps = suc s.steps } in
      let id = to_int next.last_insert in
      let last = insert_path id e (record next { steps = suc next.steps }) in
      let rest : Passed s.tables.transfers (insert_elements sqlite id es (sqlite_ok, last)) =
        unfold insert_path in rest-Passed id es last (λ n. λ h. d n (omega arith)) in
      let second = step_after_busy (insert_path id e) next (d next.steps (omega arith)) in
      let looped : Passed s.tables.transfers
          (insert_elements sqlite id (e ∷ es) (sqlite_busy, next)) =
        unfold insert_elements in
        subst (λ rs. Passed s.tables.transfers (insert_elements sqlite id es rs)) (sym second)
          rest in
      subst
        (λ rs.
          Passed s.tables.transfers
            (insert_elements sqlite (to_int rs.1.last_insert) t.elements rs))
        (sym (step_busy (insert_transfer t) s busy stays))
        (subst (λ xs. Passed s.tables.transfers (insert_elements sqlite id xs (sqlite_busy, next)))
          (sym has) looped)

  module _ (controlled : Controlled sqlite) where
    end-Passed :
        (rows : List TransferRow) (rs : ℕ × Session)
        → Passed rows rs
        → ((end_transaction sqlite rs.0 rs.1).0 ≡ true)
          × ((end_transaction sqlite rs.0 rs.1).1.tables.transfers ≡ rows)
    unfolding end_transaction commit
    end-Passed rows rs p = rw (p.accepted, controlled.control rs.1.controls) (refl, p.same)

    -- Where BEGIN, COMMIT and ROLLBACK succeed, a statement that fails leaves the transaction open, and
    -- the database is open: of a transfer with elements
    -- SQLite refuses its own row as it is busy, and accepts every statement after that. The call reports
    -- success, though the transfers are as before.
    pub add_transfer-partial :
        (t : Transfer) (e : TransferElement) (es : List TransferElement) (s : Session)
        → t.elements ≡ e ∷ es
        → s.db_open ≡ true
        → sqlite.answers s.steps ≡ sqlite_busy
        → Done (suc s.steps)
        → ((add_transfer sqlite t s).0 ≡ true)
          × ((add_transfer sqlite t s).1.tables.transfers ≡ s.tables.transfers)
    unfolding add_transfer if_open within begin_transaction
    add_transfer-partial t e es s has opened busy d =
        let started = record s { controls = suc s.controls; saved = some s.tables } in
        let begun : begin_transaction sqlite s ≡ started =
          rw (controlled.control s.controls) refl in
        let p = body-Passed t e es started has busy (controlled.stays s.steps) d in
        let kept : Passed s.tables.transfers
            (add_transfer_body sqlite t (sqlite_ok, begin_transaction sqlite s)) =
          subst (λ b. Passed s.tables.transfers (add_transfer_body sqlite t (sqlite_ok, b)))
            (sym begun) p in
        if_cases
          (λ (r : Bool × Session). (r.0 ≡ true) × (r.1.tables.transfers ≡ s.tables.transfers))
          (not s.db_open) (false, s) (within sqlite (add_transfer_body sqlite t) s)
          (λ shut. absurd (ground arith))
          (λ open_now.
            end-Passed s.tables.transfers
              (add_transfer_body sqlite t (sqlite_ok, begin_transaction sqlite s)) kept)
