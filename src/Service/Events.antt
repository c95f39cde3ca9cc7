-- ===== src/Service/Events.antt =====
-- What can happen to the transfer manager: the events of `WinpinatorService::serviceMain`, the calls
-- of the user interface, the calls of other hosts, and the ends of the threads that send and receive.
-- Each takes the manager's lock and runs whole. The environment is new at every step.
use winpinator.Prelude.{ℕ, ◌<◌, ◌≡◌, Bool, true, false, List, Text, Option, none, some}
use winpinator.Transfers.Types.{OpInfo, TransferOpRequest, CrawlerOutputData}
use winpinator.Transfers.State.{Env, Manager}
use winpinator.Transfers.Settings.{
  set_output_path, set_compression_level, set_must_allow_incoming, set_must_allow_overwrite,
  set_preserve_zone_info, set_unix_permission_masks,
}
use winpinator.Transfers.Finish.{finish_transfer, fail_all}
use winpinator.Transfers.Control.{
  reply_allow_transfer, request_stop_transfer, pause_transfer, resume_transfer,
  end_outcoming_transfer,
}
use winpinator.Transfers.Outgoing.{
  create_outcoming_transfer, notify_crawler_succeeded, notify_crawler_failed,
}
use winpinator.Rpc.Requests.{
  process_transfer_op_request, start_transfer, cancel_transfer_op_request, stop_transfer_call,
}
use winpinator.Prelude.Int.{ℤ}
use winpinator.Sender.Files.{FileChunk}
use winpinator.Receiver.Progress.{update_paths, update_progress, on_done_begin}

pub data Event : Type 0 where
  accept_transfer_clicked decline_transfer_clicked stop_transfer : Text → ℕ → Event
  request_outcoming_transfer : Text → List Text → Event
  outcoming_crawler_succeeded : CrawlerOutputData → Event
  outcoming_crawler_failed : ℕ → Event
  pause_clicked resume_clicked : Text → ℕ → Event
  transfer_requested : Bool → TransferOpRequest → Event
  transfer_started request_cancelled : OpInfo → Event
  transfer_stopped : Bool → OpInfo → Bool → Event
  receiving_done receiving_failed : Text → ℕ → Event
  remote_lost : Text → Event
  output_path_set : Text → Event
  compression_set : ℕ → Event
  incoming_set overwrite_set zone_info_set : Bool → Event
  masks_set : ℕ → ℕ → ℕ → Event

-- The state after a call that also answers.
abbrev pub state_of {ℓ} : {A : Type ℓ} → Option (A × Manager) → Option Manager
state_of none = none
state_of (some (a, m)) = some m

-- A refused `StartTransfer` leaves the state.
abbrev pub begun_or : Manager → Option (ℕ × Manager) → Manager
begun_or m none = m
begun_or m (some (p, n)) = n

unfoldable pub handle : Env → (Text → Bool) → Event → Manager → Option Manager
handle env available (accept_transfer_clicked r i) m = reply_allow_transfer env r i true m
handle env available (decline_transfer_clicked r i) m = reply_allow_transfer env r i false m
handle env available (stop_transfer r i) m = request_stop_transfer env r i false m
handle env available (request_outcoming_transfer r paths) m =
    create_outcoming_transfer env r paths m
handle env available (outcoming_crawler_succeeded out) m = notify_crawler_succeeded env out m
handle env available (outcoming_crawler_failed job) m = some (notify_crawler_failed env job m)
handle env available (pause_clicked r i) m = some (pause_transfer r i m)
handle env available (resume_clicked r i) m = resume_transfer r i m
handle env available (transfer_requested has_info request) m =
    state_of (process_transfer_op_request env available has_info request m)
handle env available (transfer_started info) m =
    some (begun_or m (start_transfer env available info m).1)
handle env available (request_cancelled info) m =
    some (cancel_transfer_op_request env available info m).1
handle env available (transfer_stopped has_info info error) m =
    some (stop_transfer_call env available has_info info error m).1
handle env available (receiving_done r i) m = some (finish_transfer env r i m)
handle env available (receiving_failed r i) m = request_stop_transfer env r i true m
handle env available (remote_lost r) m = fail_all env r m
handle env available (output_path_set path) m = some (set_output_path path m)
handle env available (compression_set level) m = some (set_compression_level level m)
handle env available (incoming_set must) m = some (set_must_allow_incoming must m)
handle env available (overwrite_set must) m = some (set_must_allow_overwrite must m)
handle env available (zone_info_set preserve) m = some (set_preserve_zone_info preserve m)
handle env available (masks_set file executable directory) m =
    some (set_unix_permission_masks file executable directory m)

-- One step of the system. A thread that sends ends with the operation that it was started on, which
-- may have left the list meanwhile; a reactor that receives writes into its operation with every
-- chunk, and in the first part of `OnDone`, whose second part is `receiving_done`.
pub data Step (m : Manager) : Manager → Type 0 where
  handled :
      (env : Env) (available : Text → Bool) (e : Event) (n : Manager)
      → handle env available e m ≡ some n
      → Step m n
  sent :
      (env : Env) (r : Text) (p : ℕ) (result : Bool)
      → p < m.next_op
      → (m.ops p).remote_id ≡ r
      → Step m (end_outcoming_transfer env r p result m)
  listed :
      (normalize : Text → Text → Option Text) (from_utf8 full_name_of : Text → Text) (p : ℕ)
      (chunk : FileChunk)
      → Step m (update_paths normalize from_utf8 full_name_of p chunk m)
  progressed : (env : Env) (r : Text) (p : ℕ) (bytes : ℤ) → Step m (update_progress env r p bytes m)
  call_ended : (env : Env) (r : Text) (p : ℕ) → Step m (on_done_begin env r p m)

pub data Reach (m : Manager) : Manager → Type 0 where
  here : Reach m m
  next : {n o : Manager} → Reach m n → Step n o → Reach m o
