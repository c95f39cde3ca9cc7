-- ===== src/Transfers/Outgoing.antt =====
-- The sender's side of src/service/transfer_manager.cpp: `createOutcomingTransfer`,
-- `notifyCrawlerSucceeded`, `notifyCrawlerFailed` and `doSendRequestAfterCrawling`.
use winpinator.Prelude.{
  ℕ, ◌+◌, Bool, true, false, List, [], ◌∷◌, map, Option, none, some, Text, codes, length, ltb, ◌==◌,
  ◌&&◌, if◌then◌else◌,
}
use winpinator.Prelude.Int.{pos, negsuc}
use winpinator.Crawler.Jobs.{start_crawl_job, release_crawl_job}
use winpinator.Transfers.Types.{
  OpStatus, TransferOp, TransferOpRequest, CrawlerOutputData, rpc_process_request,
}
use winpinator.Transfers.State.{
  Env, Manager, emit, set_op, send_status_update_notification, convert_op_to_op_info,
}
use winpinator.Transfers.Finish.{directory_mime_type, fail_op, send_failure_notification}
use winpinator.Transfers.Register.{register_transfer}

abbrev pub default_mime_type : Text
default_mime_type = codes "application/octet-stream"

pub record Count : Type 0 where
  pub folders : ℕ
  pub files : ℕ
  pub one_file_name : Text

unfoldable pub count_paths : Env → List Text → Count → Count
count_paths env [] c = c
count_paths env (path ∷ paths) c = count_paths env paths (
    if env.dir_exists path
    then record c { folders = c.folders + 1; one_file_name = path }
    else if env.file_exists path
    then record c { files = c.files + 1; one_file_name = path }
    else c)

abbrev no_paths : Count
no_paths = record { folders = 0; files = 0; one_file_name = [] }

abbrev or_default : Text → Option Text → Text
or_default d none = d
or_default d (some t) = t

-- The operation that `createOutcomingTransfer` hands to `registerTransfer`; the fields that it
-- leaves unset are those that `registerTransfer` sets, and empty.
unfoldable pub outcoming_op : Env → Manager → Text → List Text → TransferOp
unfolding count_paths
outcoming_op env m r paths =
    let c = count_paths env paths no_paths in
    let one_folder = c.files == 0 && c.folders == 1 in
    let one_file = c.files == 1 && c.folders == 0 in
    record {
      id = 0;
      outcoming = true;
      start_time = env.monotonic_time;
      sender_name = env.user_full_name;
      receiver = r;
      receiver_name = elim (env.remote r) [ none ↦ [] | some info ↦ info.full_name ];
      status = OpStatus.calculating;
      total_size = negsuc 0;
      total_count = length paths;
      mime_if_single =
          if one_folder
          then directory_mime_type
          else if one_file
          then or_default default_mime_type (env.mime_type_of c.one_file_name)
          else default_mime_type;
      name_if_single =
          if one_folder
          then env.full_name_of c.one_file_name
          else if one_file
          then env.full_name_of c.one_file_name
          else env.elements_label (c.folders + c.files);
      top_dir_basenames = map env.full_name_of paths;
      not_enough_space = false;
      must_overwrite = false;
      local_timestamp = 0;
      sent_bytes = pos 0;
      use_compression = ltb 0 m.compression_level;
      last_progress_update = 0;
      pause_lock = false;
      elements = [];
      remote_id = [];
      root_dir = [];
      relative_paths = [];
      file_count = 0;
      dir_count = 0;
      crawl_job_id = 0;
    }

-- The crawl job of a registered operation.
unfoldable pub attach_crawl_job : ℕ → List Text → Manager → Manager
unfolding set_op start_crawl_job
attach_crawl_job p paths registered =
    let (job, crawler) = start_crawl_job paths registered.crawler in
    let started = record registered {
      crawler = crawler;
      crawl_jobs = λ j. if j == job then some p else registered.crawl_jobs j;
    } in
    set_op p (record (started.ops p) { crawl_job_id = job }) started

-- `createOutcomingTransfer`; the address of the new operation is `m.next_op`.
unfoldable pub create_outcoming_transfer : Env → Text → List Text → Manager → Option Manager
create_outcoming_transfer env r paths m =
    elim (register_transfer env r (outcoming_op env m r paths) m) [
      | none ↦ none
      | some registered ↦ some (attach_crawl_job m.next_op paths registered)
    ]

-- The operation with the data of the crawler.
unfoldable pub crawled_op : CrawlerOutputData → TransferOp → TransferOp
crawled_op out op = record op {
  top_dir_basenames = out.top_dir_basenames;
  total_size = out.total_size;
  total_count = length out.paths;
  file_count = out.file_count;
  dir_count = out.folder_count;
  root_dir = out.root_dir;
  relative_paths = out.paths;
  status = OpStatus.waiting_permission;
}

unfoldable pub transfer_request : Env → CrawlerOutputData → TransferOp → Bool → TransferOpRequest
transfer_request env out op compression_enabled = record {
  info = convert_op_to_op_info env op compression_enabled;
  sender_name = op.sender_name;
  receiver_name = op.receiver_name;
  receiver = op.receiver;
  size = out.total_size;
  count = length out.paths;
  name_if_single = op.name_if_single;
  mime_if_single = op.mime_if_single;
  top_dir_basenames = out.top_dir_basenames;
}

-- `remote->mutex` is locked with no test of `remote`.
unfoldable pub do_send_request_after_crawling :
    Env → ℕ → CrawlerOutputData → Manager → Option Manager
unfolding emit set_op send_status_update_notification send_failure_notification crawled_op
do_send_request_after_crawling env p out m =
    let op = crawled_op out (m.ops p) in
    let updated = send_status_update_notification op.remote_id p (set_op p op m) in
    let request = transfer_request env out op (ltb 0 m.compression_level) in
    elim (env.remote op.remote_id) [
      | none ↦ none
      | some remote ↦ some (
          if remote.has_stub
          then emit (rpc_process_request op.remote_id request) updated
          else send_failure_notification op.remote_id op.receiver_name (fail_op env p updated).1)
    ]

-- `m_crawlJobs.erase( jobId )`
unfoldable pub forget_crawl_job : ℕ → Manager → Manager
forget_crawl_job job m = record m { crawl_jobs = λ j. if j == job then none else m.crawl_jobs j }

unfoldable pub notify_crawler_succeeded : Env → CrawlerOutputData → Manager → Option Manager
unfolding forget_crawl_job
notify_crawler_succeeded env out m =
    let released = record m { crawler = release_crawl_job out.job_id m.crawler } in
    elim (m.crawl_jobs out.job_id) [
      | none ↦ some released
      | some p ↦ elim (do_send_request_after_crawling env p out released) [
        | none ↦ none
        | some sent ↦ some (forget_crawl_job out.job_id sent)
      ]
    ]

unfoldable pub notify_crawler_failed : Env → ℕ → Manager → Manager
unfolding forget_crawl_job
notify_crawler_failed env job m =
    let released = record m { crawler = release_crawl_job job m.crawler } in
    elim (m.crawl_jobs job) [
      | none ↦ released
      | some p ↦ forget_crawl_job job (fail_op env p released).1
    ]
