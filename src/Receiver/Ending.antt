-- ===== src/Receiver/Ending.antt =====
-- The end of a call in `OnDone` of src/service/transfer_manager_reactor.cpp.
use winpinator.Prelude.{ℕ, ◌≡◌, refl, ap, ◌∙◌, true, ◌∷◌, Text, some, arith, if◌then◌else◌}
use winpinator.Prelude.Int.{pos, negsuc, ◌+ℤ◌, +ℤ_parts, eq_of_parts}
use winpinator.Transfers.Types.{
  OpStatus, TransferStatus, TransferOp, Transfer, remove_transfer, toast_succeeded, add_record,
  update_transfer,
}
use winpinator.Transfers.State.{Env, Manager, emit, get_transfer_info}
use winpinator.Transfers.Finish.{
  get_op_status, is_succeeded, make_record, store_target, finish_op, do_finish_transfer,
}
use winpinator.Transfers.Lookup.{find_id_congr}
use winpinator.Sender.Files.{shows_progress}
use winpinator.Receiver.Progress.{update_progress, on_done_begin, on_done_end}

shows-succeeded :
    (s : OpStatus) → shows_progress s ≡ true → get_op_status s ≡ TransferStatus.succeeded
unfolding shows_progress get_op_status
shows-succeeded s h = ground arith

-- What the last report of the progress leaves, in the fields that the end of the transfer reads.
record Reported (r : Text) (p : ℕ) (m n : Manager) (told : TransferOp) : Type 0 where
  counted : told.sent_bytes ≡ (m.ops p).total_size
  same_status : (n.ops p).status ≡ (m.ops p).status
  same_total : (n.ops p).total_size ≡ (m.ops p).total_size
  sent : (n.ops p).sent_bytes ≡ told.sent_bytes
  same_id : (q : ℕ) → (n.ops q).id ≡ (m.ops q).id
  same_lists : n.transfers ≡ m.transfers
  told_of : n.effects ≡ update_transfer r told ∷ m.effects

last-Reported :
    (env : Env) (r : Text) (p : ℕ) (m : Manager)
    → shows_progress (m.ops p).status ≡ true
    → (told : TransferOp) × Reported r p m (on_done_begin env r p m) told
unfolding on_done_begin update_progress emit
last-Reported env r p m h =
    let told = record (m.ops p) { sent_bytes = ((m.ops p).total_size +ℤ pos 1) +ℤ negsuc 0 } in
    (
      told,
      record {
        counted = eq_of_parts _ _ (
            omega (
              arith,
              +ℤ_parts (m.ops p).total_size (pos 1),
              +ℤ_parts ((m.ops p).total_size +ℤ pos 1) (negsuc 0),
            ));
        same_status = ground arith;
        same_total = ground arith;
        sent = ground arith;
        same_id = λ q. ground arith;
        same_lists = ground arith;
        told_of = ground arith;
      },
    )

-- The end of a listed operation whose state counts as a success.
finish-succeeded :
    (env : Env) (r : Text) (i p : ℕ) (m : Manager)
    → get_transfer_info r i m ≡ some p
    → get_op_status (m.ops p).status ≡ TransferStatus.succeeded
    → (row : Transfer) × (name : Text) × ((do_finish_transfer env r i m).effects
        ≡ remove_transfer r i
          ∷ toast_succeeded r name
          ∷ add_record row
          ∷ store_target env r m.effects)
      × (row.status ≡ TransferStatus.succeeded)
      × (row.total_size_bytes ≡ (m.ops p).total_size)
unfolding finish_op make_record is_succeeded
finish-succeeded env r i p m e s =
    let op = m.ops p in
    (
      make_record r op,
      if op.outcoming then op.receiver_name else op.sender_name,
      unfold do_finish_transfer in rw (e, do_finish_transfer) (rw s refl),
      s,
      refl,
    )

-- A call that ends while the operation is listed under its remote, and is transferring or paused, is
-- recorded and announced as a success, however it ended and however many bytes had come: the last
-- report counts exactly the total size, and then the record of a success of that size is stored.
-- Nothing else happens between the two parts of `OnDone` here.
pub on_done-succeeded :
    (env later : Env) (r : Text) (p : ℕ) (m : Manager)
    → get_transfer_info r (m.ops p).id m ≡ some p
    → shows_progress (m.ops p).status ≡ true
    → (told : TransferOp) × (row : Transfer) × (name : Text) × ((on_done_end later r p
          (on_done_begin env r p m)).effects
        ≡ remove_transfer r (m.ops p).id
          ∷ toast_succeeded r name
          ∷ add_record row
          ∷ store_target later r (update_transfer r told ∷ m.effects))
      × (told.sent_bytes ≡ (m.ops p).total_size)
      × (row.status ≡ TransferStatus.succeeded)
      × (row.total_size_bytes ≡ (m.ops p).total_size)
unfolding on_done_end get_transfer_info
on_done-succeeded env later r p m here shows =
    let (told, reported) = last-Reported env r p m shows in
    let n = on_done_begin env r p m in
    let found : get_transfer_info r (n.ops p).id n ≡ some p =
      ap (λ i. get_transfer_info r i n) (reported.same_id p)
      ∙ ap (λ ls. get_transfer_info r (m.ops p).id (record n { transfers = ls }))
          reported.same_lists
      ∙ find_id_congr m.ops n.ops reported.same_id (m.ops p).id (m.transfers r)
      ∙ here in
    let (row, name, effects, success, size) =
      finish-succeeded later r (n.ops p).id p n found
        (ap get_op_status reported.same_status ∙ shows-succeeded (m.ops p).status shows) in
    (
      told,
      row,
      name,
      effects
          ∙ ap
              (λ i.
                remove_transfer r i
                ∷ toast_succeeded r name
                ∷ add_record row
                ∷ store_target later r n.effects)
              (reported.same_id p)
          ∙ ap
              (λ es.
                remove_transfer r (m.ops p).id
                ∷ toast_succeeded r name
                ∷ add_record row
                ∷ store_target later r es)
              reported.told_of,
      reported.counted,
      success,
      size ∙ reported.same_total,
    )
