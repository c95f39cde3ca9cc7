-- ===== src/Transfers/Register.antt =====
-- `registerTransfer` of src/service/transfer_manager.cpp and its helpers.
use winpinator.Prelude.{
  ℕ, ◌+◌, Bool, true, false, List, [], ◌∷◌, ◌++◌, Option, none, some, Text, ◌==◌, ◌&&◌, ◌||◌, not,
  if◌then◌else◌,
}
use winpinator.Prelude.Int.{pos, ltb_ℤ}
use winpinator.Transfers.Types.{TransferOp, toast_accept, add_transfer}
use winpinator.Transfers.State.{Env, Manager, emit, set_op, set_transfers}
use winpinator.Transfers.Control.{do_reply_allow_transfer}

-- `wxString::Contains` of one character, and `find` of it.
unfoldable pub contains_char : ℕ → Text → Bool
contains_char c [] = false
contains_char c (d ∷ ds) = d == c || contains_char c ds

unfoldable pub check_transfer_disk_space : Env → TransferOp → TransferOp
check_transfer_disk_space env op = record op {
  not_enough_space = if op.outcoming then false else ltb_ℤ (pos env.free_space) op.total_size;
}

-- The loop with its `continue` on a name with a colon and its `break` on one that exists.
unfoldable pub some_name_exists : (Text → Bool) → List Text → Bool
unfolding contains_char
some_name_exists exists [] = false
some_name_exists exists (n ∷ ns) =
    if contains_char b':' n
    then some_name_exists exists ns
    else exists n || some_name_exists exists ns

unfoldable pub check_transfer_must_overwrite : Env → Text → TransferOp → TransferOp
unfolding some_name_exists
check_transfer_must_overwrite env output_path op = record op {
  must_overwrite = some_name_exists (env.exists output_path) op.top_dir_basenames;
}

unfoldable pub set_transfer_timestamp : Env → TransferOp → TransferOp
set_transfer_timestamp env op = record op {
  local_timestamp = env.time;
  last_progress_update = env.monotonic_time;
}

unfoldable pub set_up_pause_lock : TransferOp → TransferOp
set_up_pause_lock op = record op { pause_lock = false }

-- What `registerTransfer` writes into the operation under its mutex.
unfoldable pub prepare_transfer : Env → Text → Text → TransferOp → TransferOp
unfolding check_transfer_disk_space check_transfer_must_overwrite set_transfer_timestamp
    set_up_pause_lock
prepare_transfer env output_path r op = set_up_pause_lock (
    set_transfer_timestamp env (
      check_transfer_must_overwrite env output_path (
        check_transfer_disk_space env
          (record op { sent_bytes = pos 0; file_count = 0; dir_count = 0; remote_id = r }))))

unfoldable pub starts_alone : Manager → TransferOp → Bool
starts_alone m op =
    not op.outcoming
    && (not m.must_allow_incoming || (not m.must_allow_overwrite && op.must_overwrite))

unfoldable pub send_notifications : Text → TransferOp → Bool → Manager → Manager
unfolding emit
send_notifications r op action_required m =
    if op.outcoming then m else emit (toast_accept r op action_required) m

-- `std::make_shared<TransferOp>( transfer )`, pushed to the list of the remote.
unfoldable pub push_transfer : Text → TransferOp → Manager → Manager
unfolding set_op set_transfers
push_transfer r op m =
    let stored = record m {
      ops = λ q. if q == m.next_op then op else m.ops q;
      next_op = m.next_op + 1;
    } in
    set_transfers r (m.transfers r ++ m.next_op ∷ []) stored

-- The operation that the caller of a first try holds when `registerTransfer` is done.
unfoldable pub registered_op : Env → Text → TransferOp → Manager → TransferOp
registered_op env r op m = prepare_transfer env m.output_path r (record op { id = m.last_id })

-- `registerTransfer` with `firstTry`. The pointer that it returns is `m.next_op`. The observers see
-- the caller's operation, not the copy that an immediate start has changed.
unfoldable pub register_transfer : Env → Text → TransferOp → Manager → Option Manager
unfolding emit push_transfer send_notifications starts_alone
register_transfer env r op m =
    let transfer = registered_op env r op m in
    let autostart = starts_alone m transfer in
    let numbered = record m { last_id = m.last_id + 1 } in
    let listed =
      push_transfer r transfer (send_notifications r transfer (not autostart) numbered) in
    let replied =
      if autostart then do_reply_allow_transfer env r transfer.id true listed else some listed in
    elim replied [ none ↦ none | some done ↦ some (emit (add_transfer r transfer) done) ]

-- `registerTransfer` without `firstTry`, on the listed operation itself.
unfoldable pub register_again : Env → Text → ℕ → Manager → Option Manager
unfolding emit set_op send_notifications starts_alone
register_again env r p m =
    let transfer = prepare_transfer env m.output_path r (m.ops p) in
    let autostart = starts_alone m transfer in
    let listed = send_notifications r transfer (not autostart) (set_op p transfer m) in
    let replied =
      if autostart then do_reply_allow_transfer env r transfer.id true listed else some listed in
    elim replied [ none ↦ none | some done ↦ some (emit (add_transfer r (done.ops p)) done) ]
