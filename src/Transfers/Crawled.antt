-- ===== src/Transfers/Crawled.antt =====
-- What the manager does with the result of the crawler: `notifyCrawlerSucceeded` in
-- src/service/transfer_manager.cpp.
use winpinator.Prelude.{ℕ, ◌≡◌, refl, true, ◌∷◌, none, some, arith, ltb, ==_iff}
use winpinator.Crawler.Jobs.{release_crawl_job}
use winpinator.Transfers.Types.{CrawlerOutputData, update_transfer, rpc_process_request}
use winpinator.Transfers.State.{Remote, Env, Manager, emit, set_op, send_status_update_notification}
use winpinator.Transfers.Outgoing.{
  crawled_op, transfer_request, do_send_request_after_crawling, forget_crawl_job,
  notify_crawler_succeeded,
}

-- What a manager has become by the result.
pub record Requested (env : Env) (p : ℕ) (out : CrawlerOutputData) (m n : Manager) : Type 0 where
  pub updated : n.ops p ≡ crawled_op out (m.ops p)
  pub same_lists : n.transfers ≡ m.transfers
  pub forgotten : n.crawl_jobs out.job_id ≡ none
  pub released : n.crawler.jobs out.job_id ≡ none
  pub told :
      n.effects
      ≡ rpc_process_request
          (m.ops p).remote_id
          (transfer_request env out (crawled_op out (m.ops p)) (ltb 0 m.compression_level))
        ∷ update_transfer (m.ops p).remote_id (crawled_op out (m.ops p))
        ∷ m.effects

module _ (env : Env) (p : ℕ) (out : CrawlerOutputData) (m : Manager) (info : Remote)
    (known : env.remote (m.ops p).remote_id ≡ some info) (stub : info.has_stub ≡ true) where
  abbrev released : Manager
  released = record m { crawler = release_crawl_job out.job_id m.crawler }

  abbrev requested : Manager
  requested =
      let op = crawled_op out (m.ops p) in
      emit
        (rpc_process_request (m.ops p).remote_id
          (transfer_request env out op (ltb 0 m.compression_level)))
        (send_status_update_notification (m.ops p).remote_id p (set_op p op released))

  sent_eq : do_send_request_after_crawling env p out released ≡ some requested
  unfolding do_send_request_after_crawling crawled_op
  sent_eq = rw (known, do_send_request_after_crawling) (rw stub refl)

  requested-Requested : Requested env p out m (forget_crawl_job out.job_id requested)
  unfolding forget_crawl_job emit send_status_update_notification set_op release_crawl_job
  requested-Requested = record {
    updated = ground arith;
    same_lists = refl;
    forgotten = ground arith;
    released = ground arith;
    told = rw ((==_iff p p).1 refl) refl;
  }

  -- The result of the crawler for a known job makes the operation wait and sends its request to the
  -- connected host, whether or not the operation is still in the list of that host: one that has been
  -- stopped meanwhile is offered all the same, and stays out of the list. The job is forgotten.
  pub notify_crawler_succeeded-Requested :
      m.crawl_jobs out.job_id ≡ some p
      → (n : Manager) × (notify_crawler_succeeded env out m ≡ some n) × Requested env p out m n
  unfolding notify_crawler_succeeded
  notify_crawler_succeeded-Requested job = (
    forget_crawl_job out.job_id requested,
    rw (job, notify_crawler_succeeded) (rw (sent_eq, notify_crawler_succeeded) refl),
    requested-Requested,
  )
