-- ===== src/Transfers/Finish.antt =====
-- The end of a transfer in src/service/transfer_manager.cpp: `getOpStatus`, `getOpType`,
-- `doFinishTransfer`, `failOp` and `failAll`.
use winpinator.Prelude.{
  ℕ, zero, suc, Bool, true, false, List, [], ◌∷◌, Option, none, some, Text, text_eq, ◌==◌, ltb,
  codes, length, ◌&&◌, not, if◌then◌else◌,
}
use winpinator.Transfers.Types.{
  OpStatus, TransferOp, TransferStatus, TransferType, Transfer, Effect, toast_failed,
  toast_succeeded, update_target, add_record, remove_transfer,
}
use winpinator.Transfers.State.{Env, Manager, emit, set_op, set_transfers, get_transfer_info}

unfoldable pub get_op_status : OpStatus → TransferStatus
get_op_status OpStatus.cancelled_permission_by_receiver = TransferStatus.cancelled
get_op_status OpStatus.cancelled_permission_by_sender = TransferStatus.cancelled
get_op_status OpStatus.stopped_by_receiver = TransferStatus.cancelled
get_op_status OpStatus.stopped_by_sender = TransferStatus.cancelled
get_op_status OpStatus.failed = TransferStatus.failed
get_op_status OpStatus.failed_unrecoverable = TransferStatus.failed
get_op_status OpStatus.file_not_found = TransferStatus.failed
get_op_status OpStatus.invalid_op = TransferStatus.failed
get_op_status _ = TransferStatus.succeeded

-- The counts are those of `op.intern`.
unfoldable pub get_op_type : ℕ → ℕ → TransferType
get_op_type file_count dir_count =
    if file_count == 0 && dir_count == 0
    then TransferType.single_file
    else if file_count == 0 && dir_count == 1
    then TransferType.single_directory
    else if file_count == 0 && ltb 1 dir_count
    then TransferType.multiple_directories
    else if dir_count == 0 && file_count == 1
    then TransferType.single_file
    else if dir_count == 0 && ltb 1 file_count
    then TransferType.multiple_files
    else TransferType.mixed

abbrev pub directory_mime_type : Text
directory_mime_type = codes "inode/directory"

-- An empty `singleElementName` is that of a default `db::Transfer`.
unfoldable pub single_element_name : TransferOp → Text
single_element_name op =
    if op.total_count == 1
    then op.name_if_single
    else elim op.top_dir_basenames [ n ∷ [] ↦ n | _ ↦ [] ]

unfoldable pub is_succeeded : TransferStatus → Bool
is_succeeded TransferStatus.succeeded = true
is_succeeded TransferStatus.cancelled = false
is_succeeded TransferStatus.failed = false
is_succeeded TransferStatus.unknown = false

unfoldable pub make_record : Text → TransferOp → Transfer
unfolding get_op_type get_op_status single_element_name is_succeeded
make_record r op =
    let status = get_op_status op.status in
    let unfinished = not op.outcoming && not (is_succeeded status) in
    let is_directory = text_eq op.mime_if_single directory_mime_type in
    let names = length op.top_dir_basenames in
    record {
      target_id = r;
      single_element_name = single_element_name op;
      transfer_type =
          if unfinished
          then TransferType.unfinished_incoming
          else get_op_type op.file_count op.dir_count;
      transfer_timestamp = op.local_timestamp;
      file_count = if unfinished then (if is_directory then 0 else names) else op.file_count;
      folder_count = if unfinished then (if is_directory then names else 0) else op.dir_count;
      total_size_bytes = op.total_size;
      outgoing = op.outcoming;
      status = status;
      elements = op.elements;
    }

-- `updateTarget`, put before the effects so far.
unfoldable pub store_target : Env → Text → List Effect → List Effect
store_target env r log = elim (env.remote r) [
  | none ↦ log
  | some info ↦
      update_target (record {
        target_id = r;
        full_name = info.full_name;
        hostname = info.hostname;
        ip = info.ipv4;
        os = info.os;
      })
      ∷ log
]

-- The loop that erases the first pointer equal to `p`.
unfoldable pub erase_op : ℕ → List ℕ → List ℕ
erase_op p [] = []
erase_op p (q ∷ qs) = if q == p then qs else q ∷ erase_op p qs

unfoldable pub send_failure_notification : Text → Text → Manager → Manager
unfolding emit
send_failure_notification r sender_name m = emit (toast_failed r sender_name) m

-- `doFinishTransfer` once the operation is found.
unfoldable pub finish_op : Env → Text → ℕ → ℕ → Manager → Manager
unfolding set_transfers
finish_op env r transfer_id p m =
    let op = m.ops p in
    let row = make_record r op in
    let logged = add_record row ∷ store_target env r m.effects in
    let told =
      if is_succeeded row.status
      then toast_succeeded r (if op.outcoming then op.receiver_name else op.sender_name) ∷ logged
      else logged in
    record (set_transfers r (erase_op p (m.transfers r)) m) {
      effects = remove_transfer r transfer_id ∷ told;
    }

unfoldable pub do_finish_transfer : Env → Text → ℕ → Manager → Manager
do_finish_transfer env r transfer_id m = elim (get_transfer_info r transfer_id m) [
  | none ↦ m
  | some p ↦ finish_op env r transfer_id p m
]

-- `finishTransfer`, under the lock.
unfoldable pub finish_transfer : Env → Text → ℕ → Manager → Manager
unfolding do_finish_transfer
finish_transfer env r transfer_id m = do_finish_transfer env r transfer_id m

unfoldable pub is_failed : OpStatus → Bool
is_failed OpStatus.failed = true
is_failed _ = false

unfoldable pub fail_op : Env → ℕ → Manager → Bool × Manager
fail_op env p m =
    let op = m.ops p in
    let failed = not (is_failed op.status) in
    let marked = set_op p (record op { status = OpStatus.failed }) m in
    (failed, do_finish_transfer env op.remote_id op.id marked)

-- The name that `failAll` would show, looked up while it is empty.
unfoldable pub fail_all_name : Env → Text → TransferOp → Text → Option Text
fail_all_name env r op [] =
    if op.outcoming
    then elim (env.remote r) [ none ↦ none | some info ↦ some info.full_name ]
    else some op.sender_name
fail_all_name env r op (c ∷ cs) = some (c ∷ cs)

-- The `while` loop of `failAll`; the fuel is the number of operations that it starts with.
unfoldable pub fail_all_loop : Env → Text → ℕ → Text → Manager → Option (Text × Manager)
fail_all_loop env r zero sender_name m = some (sender_name, m)
fail_all_loop env r (suc fuel) sender_name m = elim (m.transfers r) [
  | [] ↦ some (sender_name, m)
  | p ∷ _ ↦
      let failed = (fail_op env p m).1 in
      elim (fail_all_name env r (failed.ops p) sender_name) [
        | none ↦ none
        | some name ↦ fail_all_loop env r fuel name failed
      ]
]

-- `someFailed` is never assigned after its initialisation.
unfoldable pub fail_all : Env → Text → Manager → Option Manager
fail_all env r m =
    let some_failed : Bool = false in
    elim (fail_all_loop env r (length (m.transfers r)) [] m) [
      | none ↦ none
      | some (sender_name, after) ↦
          some (if some_failed then send_failure_notification r sender_name after else after)
    ]
