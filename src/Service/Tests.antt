-- ===== src/Service/Tests.antt =====
-- Runs of the transfer manager: a request from another host, its end and the loss of the host.
use winpinator.Prelude.{ℕ, ◌≡◌, ◌⊎◌, not, ◌++◌, refl, true, false, [], ◌∷◌, codes, some, text_eq}
use winpinator.Prelude.Int.{pos}
use winpinator.Transfers.Types.{OpStatus, TransferOp, CrawlerOutputData, update_transfer}
use winpinator.Transfers.State.{
  Manager, get_transfer_info, get_transfer_by_timestamp, find_id, find_timestamp,
  get_transfers_for_remote, emit, set_op, set_transfers, convert_op_to_op_info,
  send_status_update_notification,
}
use winpinator.Transfers.Register.{
  register_transfer, registered_op, prepare_transfer, check_transfer_disk_space,
  check_transfer_must_overwrite, set_transfer_timestamp, set_up_pause_lock, some_name_exists,
  contains_char, starts_alone, send_notifications, push_transfer,
}
use winpinator.Transfers.Settings.{new_manager}
use winpinator.Transfers.Finish.{do_finish_transfer, finish_op, erase_op, fail_all}
use winpinator.Transfers.Outgoing.{
  notify_crawler_succeeded, create_outcoming_transfer, count_paths, outcoming_op, attach_crawl_job,
}
use winpinator.Crawler.Jobs.{start_crawl_job}
use winpinator.Transfers.Crawled.{Requested, notify_crawler_succeeded-Requested}
use winpinator.Transfers.Ending.{EndedWith, stop_transfer-agrees, cancel_request-agrees}
use winpinator.Transfers.Control.{
  request_stop_transfer, cancel_transfer_request, reply_allow_transfer, do_reply_allow_transfer,
  is_waiting, process_start_transfer, set_status, pause_transfer, resume_transfer, stop_transfer,
}
use winpinator.Transfers.Pausing.{resume-pause}
use winpinator.Transfers.Starting.{Unasked, Asked, Starts, Waits, register_transfer_cases}
use winpinator.Transfers.Invariant.{IsValid}
use winpinator.Transfers.Invariant.Failing.{AllFailed, fail_all-AllFailed}
use winpinator.Rpc.Requests.{incoming_op, process_transfer_op_request}
use winpinator.Service.Events.{Event, handle, handled, here, next}
use winpinator.Service.Invariant.{Reach-IsValid}
use winpinator.Service.Inputs.{
  peer, peer_info, env, request, memory, everyone, or_empty, run_eq, stepping, waiting, accepted,
  waiting_run, accepted_found, accepted-Reach, accepted-IsValid, peer_known,
}

Reach-IsValid_example : IsValid accepted
Reach-IsValid_example = Reach-IsValid memory accepted accepted-Reach

fail_all-AllFailed_example :
    (n : Manager) × (fail_all env peer accepted ≡ some n) × AllFailed peer accepted n
fail_all-AllFailed_example =
    fail_all-AllFailed env peer peer_info peer_known accepted accepted-IsValid

accepted_runs : (accepted.ops 0).status ≡ OpStatus.transferring
unfolding stepping
accepted_runs = refl

accepted_lock : (accepted.ops 0).pause_lock ≡ false
unfolding stepping
accepted_lock = refl

resume-pause_example :
    (n : Manager) × (resume_transfer peer 0 (pause_transfer peer 0 accepted) ≡ some n)
    × (n.ops 0 ≡ accepted.ops 0)
    × (n.transfers ≡ accepted.transfers)
    × (n.effects
        ≡ update_transfer peer (accepted.ops 0)
          ∷ update_transfer peer
              (record (accepted.ops 0) { status = OpStatus.paused; pause_lock = true })
          ∷ accepted.effects)
resume-pause_example = resume-pause peer 0 0 accepted accepted_found accepted_runs accepted_lock

abbrev second : TransferOp
second = incoming_op request

second_waits : second.status ≡ OpStatus.waiting_permission
unfolding incoming_op
second_waits = refl

second_incoming : second.outcoming ≡ false
unfolding incoming_op
second_incoming = refl

register_transfer_cases_example :
    (n : Manager) × (register_transfer env peer second accepted ≡ some n)
    × (n.transfers peer ≡ accepted.transfers peer ++ accepted.next_op ∷ [])
    × ((Unasked env peer second accepted × Starts env peer second accepted n)
        ⊎ (Asked env peer second accepted × Waits env peer second accepted n))
register_transfer_cases_example =
    register_transfer_cases env peer second accepted peer_info accepted-IsValid peer_known refl
      second_incoming second_waits

-- The other host, which sends.
abbrev sending : Manager
sending = or_empty (
    handle env everyone (Event.request_outcoming_transfer peer (codes "a.txt" ∷ []))
      (new_manager memory))

sending_run :
    handle env everyone
      (Event.request_outcoming_transfer peer (codes "a.txt" ∷ []))
      (new_manager memory)
    ≡ some sending
unfolding stepping create_outcoming_transfer count_paths outcoming_op attach_crawl_job
    start_crawl_job get_transfer_by_timestamp
sending_run = run_eq _ refl

sending-IsValid : IsValid sending
sending-IsValid =
    Reach-IsValid memory sending (next here (handled env everyone _ sending sending_run))

waiting-IsValid : IsValid waiting
waiting-IsValid =
    Reach-IsValid memory waiting (next here (handled env everyone _ waiting waiting_run))

sending_found : get_transfer_info peer 0 sending ≡ some 0
unfolding stepping create_outcoming_transfer count_paths outcoming_op attach_crawl_job
    start_crawl_job get_transfer_by_timestamp
sending_found = refl

waiting_found : get_transfer_info peer 0 waiting ≡ some 0
unfolding stepping create_outcoming_transfer count_paths outcoming_op attach_crawl_job
    start_crawl_job get_transfer_by_timestamp
waiting_found = refl

accepted_ends : (sending.ops 0).outcoming ≡ not (accepted.ops 0).outcoming
unfolding stepping create_outcoming_transfer count_paths outcoming_op attach_crawl_job
    start_crawl_job get_transfer_by_timestamp
accepted_ends = refl

waiting_ends : (sending.ops 0).outcoming ≡ not (waiting.ops 0).outcoming
unfolding stepping create_outcoming_transfer count_paths outcoming_op attach_crawl_job
    start_crawl_job get_transfer_by_timestamp
waiting_ends = refl

sending_stamp : get_transfer_by_timestamp peer (sending.ops 0).start_time sending ≡ some 0
unfolding stepping create_outcoming_transfer count_paths outcoming_op attach_crawl_job
    start_crawl_job get_transfer_by_timestamp
sending_stamp = refl

waiting_waits : is_waiting (waiting.ops 0).status ≡ true
unfolding stepping create_outcoming_transfer count_paths outcoming_op attach_crawl_job
    start_crawl_job get_transfer_by_timestamp
waiting_waits = refl

stop_transfer-agrees_example :
    (reason : OpStatus) × (n : Manager) × (request_stop_transfer env peer 0 false accepted ≡ some n)
    × EndedWith reason peer 0 n
    × EndedWith reason peer 0 (stop_transfer env peer 0 false sending)
stop_transfer-agrees_example =
    stop_transfer-agrees env env peer peer 0 0 0 0 accepted sending peer_info accepted-IsValid
      sending-IsValid accepted_found sending_found accepted_ends peer_known refl false refl

cancel_request-agrees_example :
    (reason : OpStatus) × (n : Manager) × (reply_allow_transfer env peer 0 false waiting ≡ some n)
    × EndedWith reason peer 0 n
    × EndedWith reason peer 0 (cancel_transfer_request env peer (sending.ops 0).start_time sending)
cancel_request-agrees_example =
    cancel_request-agrees env env peer peer 0 0 0 0 waiting sending peer_info waiting-IsValid
      sending-IsValid waiting_found sending_found waiting_ends peer_known refl
      (sending.ops 0).start_time sending_stamp waiting_waits

abbrev files : ℕ
files = 2

abbrev dirs : ℕ
dirs = 1

-- The sender, after the user has stopped the transfer while the crawler still runs.
abbrev stopped : Manager
stopped = or_empty (handle env everyone (Event.stop_transfer peer 0) sending)

abbrev crawled : CrawlerOutputData
crawled = record {
  job_id = 1;
  root_dir = codes "C:";
  paths = codes "a.txt" ∷ [];
  top_dir_basenames = codes "a.txt" ∷ [];
  total_size = pos 64;
  folder_count = 0;
  file_count = 1;
}

stopped_lists : stopped.transfers peer ≡ []
unfolding handle request_stop_transfer do_finish_transfer finish_op erase_op
    process_transfer_op_request register_transfer registered_op prepare_transfer
    check_transfer_disk_space check_transfer_must_overwrite set_transfer_timestamp set_up_pause_lock
    some_name_exists contains_char starts_alone send_notifications push_transfer set_transfers
    set_op emit find_timestamp get_transfers_for_remote incoming_op new_manager text_eq
    reply_allow_transfer do_reply_allow_transfer get_transfer_info find_id is_waiting
    process_start_transfer convert_op_to_op_info set_status send_status_update_notification
    create_outcoming_transfer count_paths outcoming_op attach_crawl_job start_crawl_job
    get_transfer_by_timestamp
stopped_lists = refl

stopped_job : stopped.crawl_jobs crawled.job_id ≡ some 0
unfolding handle request_stop_transfer do_finish_transfer finish_op erase_op
    process_transfer_op_request register_transfer registered_op prepare_transfer
    check_transfer_disk_space check_transfer_must_overwrite set_transfer_timestamp set_up_pause_lock
    some_name_exists contains_char starts_alone send_notifications push_transfer set_transfers
    set_op emit find_timestamp get_transfers_for_remote incoming_op new_manager text_eq
    reply_allow_transfer do_reply_allow_transfer get_transfer_info find_id is_waiting
    process_start_transfer convert_op_to_op_info set_status send_status_update_notification
    create_outcoming_transfer count_paths outcoming_op attach_crawl_job start_crawl_job
    get_transfer_by_timestamp
stopped_job = refl

stopped_known : env.remote (stopped.ops 0).remote_id ≡ some peer_info
unfolding handle request_stop_transfer do_finish_transfer finish_op erase_op
    process_transfer_op_request register_transfer registered_op prepare_transfer
    check_transfer_disk_space check_transfer_must_overwrite set_transfer_timestamp set_up_pause_lock
    some_name_exists contains_char starts_alone send_notifications push_transfer set_transfers
    set_op emit find_timestamp get_transfers_for_remote incoming_op new_manager text_eq
    reply_allow_transfer do_reply_allow_transfer get_transfer_info find_id is_waiting
    process_start_transfer convert_op_to_op_info set_status send_status_update_notification
    create_outcoming_transfer count_paths outcoming_op attach_crawl_job start_crawl_job
    get_transfer_by_timestamp
stopped_known = refl

notify_crawler_succeeded-Requested_example :
    (n : Manager) × (notify_crawler_succeeded env crawled stopped ≡ some n)
    × Requested env 0 crawled stopped n
notify_crawler_succeeded-Requested_example =
    notify_crawler_succeeded-Requested env 0 crawled stopped peer_info stopped_known refl
      stopped_job
