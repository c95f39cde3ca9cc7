-- ===== src/Transfers/Control.antt =====
-- The commands on a known transfer in src/service/transfer_manager.cpp: pause and resume, the
-- answer to a request, cancelling and stopping, and the frame of `handleOutcomingTransfer`.
use winpinator.Prelude.{
  ℕ, Bool, true, false, Option, none, some, Text, ltb, ◌&&◌, not, if◌then◌else◌,
}
use winpinator.Transfers.Types.{OpStatus, rpc_start_transfer, rpc_cancel_request, rpc_stop_transfer}
use winpinator.Transfers.State.{
  Env, Manager, emit, set_op, get_transfer_info, get_transfer_by_timestamp,
  send_status_update_notification, convert_op_to_op_info,
}
use winpinator.Transfers.Finish.{do_finish_transfer, send_failure_notification}

unfoldable pub is_paused : OpStatus → Bool
is_paused OpStatus.paused = true
is_paused _ = false

unfoldable pub is_transferring : OpStatus → Bool
is_transferring OpStatus.transferring = true
is_transferring _ = false

unfoldable pub is_waiting : OpStatus → Bool
is_waiting OpStatus.waiting_permission = true
is_waiting _ = false

-- A write of `op->status` alone.
unfoldable pub set_status : ℕ → OpStatus → Manager → Manager
unfolding set_op
set_status p status m = set_op p (record (m.ops p) { status = status }) m

unfoldable pub set_pause_lock : ℕ → Bool → Manager → Manager
unfolding set_op
set_pause_lock p value m = set_op p (record (m.ops p) { pause_lock = value }) m

-- `op->mutex` is locked before `op` is tested, so an unknown transfer is a null dereference.
unfoldable pub resume_transfer : Text → ℕ → Manager → Option Manager
unfolding set_status set_pause_lock send_status_update_notification
resume_transfer r transfer_id m = elim (get_transfer_info r transfer_id m) [
  | none ↦ none
  | some p ↦ some (
      if not (is_paused (m.ops p).status)
      then m
      else send_status_update_notification r p
          (set_status p OpStatus.transferring (set_pause_lock p false m)))
]

unfoldable pub pause_transfer : Text → ℕ → Manager → Manager
unfolding set_status set_pause_lock send_status_update_notification
pause_transfer r transfer_id m = elim (get_transfer_info r transfer_id m) [
  | none ↦ m
  | some p ↦
      if not (is_transferring (m.ops p).status)
      then m
      else send_status_update_notification r p
          (set_status p OpStatus.paused (set_pause_lock p true m))
]

-- `stub` is used without a test.
unfoldable pub process_start_transfer : Env → Text → ℕ → Manager → Option Manager
unfolding set_status send_status_update_notification
process_start_transfer env r p m = elim (env.remote r) [
  | none ↦ some m
  | some info ↦
      let op = m.ops p in
      let request = convert_op_to_op_info env op (ltb 0 m.compression_level) in
      let started = emit (rpc_start_transfer r request op.must_overwrite) m in
      if not info.has_stub
      then none
      else some (send_status_update_notification r p (set_status p OpStatus.transferring started))
]

-- The status of an operation that this side cancels or stops is that of its role.
unfoldable pub own_cancel_status : Bool → OpStatus
own_cancel_status outcoming =
    if outcoming
    then OpStatus.cancelled_permission_by_sender
    else OpStatus.cancelled_permission_by_receiver

unfoldable pub process_decline_transfer : Env → Text → ℕ → Manager → Option Manager
unfolding set_status own_cancel_status
process_decline_transfer env r p m = elim (env.remote r) [
  | none ↦ some m
  | some info ↦
      let op = m.ops p in
      let request = convert_op_to_op_info env op (ltb 0 m.compression_level) in
      let called = emit (rpc_cancel_request r request) m in
      let marked = set_status p (own_cancel_status op.outcoming) called in
      if not info.has_stub then none else some (do_finish_transfer env r op.id marked)
]

unfoldable pub do_reply_allow_transfer : Env → Text → ℕ → Bool → Manager → Option Manager
do_reply_allow_transfer env r transfer_id allow m = elim (get_transfer_info r transfer_id m) [
  | none ↦ some m
  | some p ↦
      let op = m.ops p in
      if not (is_waiting op.status)
      then some m
      else if allow && not op.outcoming
      then process_start_transfer env r p m
      else if not allow
      then process_decline_transfer env r p m
      else some m
]

unfoldable pub reply_allow_transfer : Env → Text → ℕ → Bool → Manager → Option Manager
unfolding do_reply_allow_transfer
reply_allow_transfer env r transfer_id allow m = do_reply_allow_transfer env r transfer_id allow m

unfoldable pub peer_cancel_status : Bool → OpStatus
peer_cancel_status outcoming =
    if outcoming
    then OpStatus.cancelled_permission_by_receiver
    else OpStatus.cancelled_permission_by_sender

-- The peer withdraws or refuses the request.
unfoldable pub cancel_transfer_request : Env → Text → ℕ → Manager → Manager
unfolding set_status peer_cancel_status
cancel_transfer_request env r timestamp m = elim (get_transfer_by_timestamp r timestamp m) [
  | none ↦ m
  | some p ↦
      let op = m.ops p in
      do_finish_transfer env r op.id (set_status p (peer_cancel_status op.outcoming) m)
]

unfoldable pub peer_stop_status : Bool → OpStatus
peer_stop_status outcoming =
    if outcoming then OpStatus.stopped_by_receiver else OpStatus.stopped_by_sender

-- The peer stops the transfer.
unfoldable pub stop_transfer : Env → Text → ℕ → Bool → Manager → Manager
unfolding set_status peer_stop_status send_failure_notification
stop_transfer env r transfer_id error m = elim (get_transfer_info r transfer_id m) [
  | none ↦ m
  | some p ↦
      let op = m.ops p in
      let marked =
        if error
        then send_failure_notification r (if op.outcoming then op.receiver_name else op.sender_name)
            (set_status p OpStatus.failed m)
        else set_status p (peer_stop_status op.outcoming) m in
      do_finish_transfer env r op.id marked
]

unfoldable pub own_stop_status : Bool → Bool → OpStatus
own_stop_status error outcoming =
    if error
    then OpStatus.failed
    else if outcoming
    then OpStatus.stopped_by_sender
    else OpStatus.stopped_by_receiver

-- This side stops the transfer, if the peer answers the call.
unfoldable pub request_stop_transfer : Env → Text → ℕ → Bool → Manager → Option Manager
unfolding set_status own_stop_status
request_stop_transfer env r transfer_id error m = elim (get_transfer_info r transfer_id m) [
  | none ↦ some m
  | some p ↦ elim (env.remote r) [
    | none ↦ some m
    | some info ↦
        let op = m.ops p in
        let request = convert_op_to_op_info env op (ltb 0 m.compression_level) in
        let called = emit (rpc_stop_transfer r request error) m in
        let marked = set_status p (own_stop_status error op.outcoming) called in
        if not info.has_stub
        then none
        else if not env.rpc_ok
        then some called
        else some (do_finish_transfer env r transfer_id marked)
  ]
]

-- `handleOutcomingTransfer` up to the call of `transferFiles`; the address is that of the sender's
-- operation.
unfoldable pub begin_outcoming_transfer : Text → ℕ → Manager → Option (ℕ × Manager)
unfolding set_status send_status_update_notification
begin_outcoming_transfer r transfer_id m = elim (get_transfer_info r transfer_id m) [
  | none ↦ none
  | some p ↦ some (p, send_status_update_notification r p (set_status p OpStatus.transferring m))
]

unfoldable pub outcoming_end_status : Bool → OpStatus → OpStatus
outcoming_end_status true status = OpStatus.finished
outcoming_end_status false OpStatus.transferring = OpStatus.failed_unrecoverable
outcoming_end_status false OpStatus.paused = OpStatus.failed_unrecoverable
outcoming_end_status false status = status

-- The rest of it, after `transferFiles` has returned `result`.
unfoldable pub end_outcoming_transfer : Env → Text → ℕ → Bool → Manager → Manager
unfolding set_status outcoming_end_status
end_outcoming_transfer env r p result m =
    let marked = set_status p (outcoming_end_status result (m.ops p).status) m in
    do_finish_transfer env r (m.ops p).id marked
