-- ===== src/Rpc/Requests.antt =====
-- The transfer calls of src/service/warp_service_impl.cpp.
-- The remote manager is seen through `available`, its `isHostAvailable`.
use winpinator.Prelude.{ℕ, Bool, false, [], Text, Option, none, some, not, if◌then◌else◌}
use winpinator.Prelude.Int.{pos}
use winpinator.Transfers.Types.{OpStatus, TransferOp, OpInfo, TransferOpRequest}
use winpinator.Transfers.State.{
  Env, Manager, set_op, get_op, get_transfers_for_remote, find_timestamp,
}
use winpinator.Transfers.Control.{cancel_transfer_request, stop_transfer, begin_outcoming_transfer}
use winpinator.Transfers.Register.{register_transfer, register_again}

-- `grpc::StatusCode`
pub data Status : Type 0 where
  ok invalid_argument permission_denied cancelled not_found deadline_exceeded : Status

-- The operation that a new request registers; what the code leaves unset is empty.
unfoldable pub incoming_op : TransferOpRequest → TransferOp
incoming_op request = record {
  id = 0;
  outcoming = false;
  start_time = request.info.timestamp;
  sender_name = request.sender_name;
  receiver = request.receiver;
  receiver_name = request.receiver_name;
  status = OpStatus.waiting_permission;
  total_size = request.size;
  total_count = request.count;
  mime_if_single = request.mime_if_single;
  name_if_single = request.name_if_single;
  top_dir_basenames = request.top_dir_basenames;
  not_enough_space = false;
  must_overwrite = false;
  local_timestamp = 0;
  sent_bytes = pos 0;
  use_compression = request.info.use_compression;
  last_progress_update = 0;
  pause_lock = false;
  elements = [];
  remote_id = [];
  root_dir = [];
  relative_paths = [];
  file_count = 0;
  dir_count = 0;
  crawl_job_id = 0;
}

-- The answer of a call and the state after it, or a null pointer.
abbrev pub Reply : Type 0
Reply = Option (Status × Manager)

abbrev pub reply : Status → Option Manager → Reply
reply s none = none
reply s (some m) = some (s, m)

-- A request that repeats a listed one puts it back to waiting.
unfoldable pub repeat_request : Env → Text → OpInfo → ℕ → Manager → Option Manager
unfolding set_op
repeat_request env id info p m = register_again env id p (
    set_op p
      (record (m.ops p) {
        use_compression = info.use_compression;
        status = OpStatus.waiting_permission;
      })
      m)

module _ (env : Env) (available : Text → Bool) where
  -- `has_info` says that the message has its `info`.
  unfoldable pub process_transfer_op_request : Bool → TransferOpRequest → Manager → Reply
  unfolding repeat_request
  process_transfer_op_request has_info request m =
      let id = request.info.ident in
      if not has_info
      then some (invalid_argument, m)
      else if not (available id)
      then some (permission_denied, m)
      else elim (find_timestamp m.ops request.info.timestamp (get_transfers_for_remote id m)) [
        | some p ↦ reply ok (repeat_request env id request.info p m)
        | none ↦ reply ok (register_transfer env id (incoming_op request) m)
      ]

  -- `StartTransfer` up to the sending of the files: the address of the operation to send.
  unfoldable pub start_transfer : OpInfo → Manager → Status × Option (ℕ × Manager)
  start_transfer request m =
      let id = request.ident in
      if not (available id)
      then (permission_denied, none)
      else elim (get_op id request.timestamp m) [
        | none ↦ (permission_denied, none)
        | some op ↦ elim (begin_outcoming_transfer id op.id m) [
          | none ↦ (cancelled, none)
          | some begun ↦ (ok, some begun)
        ]
      ]

  unfoldable pub cancel_transfer_op_request : OpInfo → Manager → Status × Manager
  cancel_transfer_op_request request m =
      let id = request.ident in
      if not (available id) then (permission_denied, m) else elim (get_op id request.timestamp m) [
        | none ↦ (permission_denied, m)
        | some op ↦ (ok, cancel_transfer_request env id request.timestamp m)
      ]

  unfoldable pub stop_transfer_call : Bool → OpInfo → Bool → Manager → Status × Manager
  stop_transfer_call has_info info error m =
      let id = info.ident in
      if not has_info
      then (invalid_argument, m)
      else if not (available id)
      then (permission_denied, m)
      else elim (get_op id info.timestamp m) [
        | none ↦ (permission_denied, m)
        | some op ↦ (ok, stop_transfer env id op.id error m)
      ]
