-- ===== src/Transfers/Invariant/Outgoing.antt =====
-- The sender's operations of Transfers/Outgoing.antt keep the invariant.
use winpinator.Prelude.{
  ℕ, ◌<◌, refl, inl, inr, Bool, true, false, Text, Option, none, some, List, arith, Option-cases,
  ◌==◌, if◌then◌else◌,
}
use winpinator.Crawler.Jobs.{Jobs, start_crawl_job, release_crawl_job}
use winpinator.Transfers.Types.{Effect, CrawlerOutputData, toast_failed}
use winpinator.Transfers.State.{Env, Manager, emit, set_op, send_status_update_notification}
use winpinator.Transfers.Finish.{fail_op, send_failure_notification}
use winpinator.Transfers.Register.{register_transfer}
use winpinator.Transfers.Outgoing.{
  outcoming_op, attach_crawl_job, create_outcoming_transfer, crawled_op,
  do_send_request_after_crawling, forget_crawl_job, notify_crawler_succeeded, notify_crawler_failed,
}
use winpinator.Transfers.Invariant.{IsValid, is_waiting, is_calculating}
use winpinator.Transfers.Invariant.Keeps.{
  Keeps, Kept, Keeps-trans, Keeps-IsValid, Kept-of_Keeps, emit-Keeps, set_op-Keeps,
}
use winpinator.Transfers.Invariant.Stored.{fail_op_stored-Keeps}
use winpinator.Transfers.Invariant.Registering.{register_transfer-IsValid}

new_job-IsValid :
    (m : Manager) (j p : ℕ) (c : Jobs)
    → IsValid m
    → p < m.next_op
    → IsValid
        (record m { crawler = c; crawl_jobs = λ k. if k == j then some p else m.crawl_jobs k })
new_job-IsValid m j p c v h = record {
  owned = v.owned;
  stored = v.stored;
  active = v.active;
  numbered = v.numbered;
  separate = v.separate;
  distinct = v.distinct;
  crawling = λ k q e. ground (arith, v.crawling k q);
}

attach_crawl_job-IsValid :
    (p : ℕ) (paths : List Text) (m : Manager)
    → IsValid m
    → p < m.next_op
    → IsValid (attach_crawl_job p paths m)
unfolding attach_crawl_job
attach_crawl_job-IsValid p paths m v h =
    let job = (start_crawl_job paths m.crawler).0 in
    let started = record m {
      crawler = (start_crawl_job paths m.crawler).1;
      crawl_jobs = λ k. if k == job then some p else m.crawl_jobs k;
    } in
    Keeps-IsValid started _
      (set_op-Keeps p (record (m.ops p) { crawl_job_id = job }) started refl refl (λ a. a))
      (new_job-IsValid m job p _ v h)

-- What holds of a state also when a null pointer has ended the call.
abbrev pub Sound : Option Manager → Type 0
Sound none = Unit
Sound (some n) = IsValid n

pub Sound-of_Kept : (m : Manager) (o : Option Manager) → IsValid m → Kept m o → Sound o
Sound-of_Kept m none v k = tt
Sound-of_Kept m (some n) v k = Keeps-IsValid m n k v

pub create_outcoming_transfer-Sound :
    (env : Env) (r : Text) (paths : List Text) (m : Manager)
    → IsValid m
    → Sound (create_outcoming_transfer env r paths m)
unfolding outcoming_op
create_outcoming_transfer-Sound env r paths m v =
    elim (Option-cases (register_transfer env r (outcoming_op env m r paths) m)) [
      | inl e ↦ unfold create_outcoming_transfer in rw (e, create_outcoming_transfer) tt
      | inr (n, e) ↦
          let (valid, store) =
            register_transfer-IsValid env r (outcoming_op env m r paths) m n v is_calculating e in
          unfold create_outcoming_transfer in
          rw (e, create_outcoming_transfer)
            (attach_crawl_job-IsValid m.next_op paths n valid (omega (arith, store)))
    ]

module _ (env : Env) (p : ℕ) (out : CrawlerOutputData) (m : Manager) where
  sent-Keeps : Keeps m (
      send_status_update_notification
        (crawled_op out (m.ops p)).remote_id
        p
        (set_op p (crawled_op out (m.ops p)) m))
  unfolding send_status_update_notification crawled_op
  sent-Keeps =
      Keeps-trans m _ _ (set_op-Keeps p (crawled_op out (m.ops p)) m refl refl (λ _. is_waiting))
        (emit-Keeps _ _)

  answered-Keeps :
      (stub : Bool) (r : Text) (told : Effect) (name : Text) (sent : Manager)
      → Keeps m sent
      → IsValid m
      → p < m.next_op
      → Keeps m
          (if stub then emit told sent else send_failure_notification r name (fail_op env p sent).1)
  unfolding send_failure_notification
  answered-Keeps true r told name sent k v stored = Keeps-trans m sent _ k (emit-Keeps told sent)
  answered-Keeps false r told name sent k v stored =
      let failed =
        fail_op_stored-Keeps env p sent (Keeps-IsValid m sent k v) (omega (arith, k.same_store)) in
      Keeps-trans m sent _ k
        (Keeps-trans sent _ _ failed (emit-Keeps (toast_failed r name) (fail_op env p sent).1))

  pub do_send_request_after_crawling-Kept :
      IsValid m → p < m.next_op → Kept m (do_send_request_after_crawling env p out m)
  do_send_request_after_crawling-Kept v stored =
      elim (Option-cases (env.remote (crawled_op out (m.ops p)).remote_id)) [
        | inl e ↦ unfold do_send_request_after_crawling in rw (e, do_send_request_after_crawling) tt
        | inr (info, e) ↦
            unfold do_send_request_after_crawling in
            rw (e, do_send_request_after_crawling)
              (answered-Keeps info.has_stub _ _ _ _ sent-Keeps v stored)
      ]

release-Keeps : (c : Jobs) (m : Manager) → Keeps m (record m { crawler = c })
release-Keeps c m = record {
  listed = λ r p h. h;
  unique = λ r h. h;
  same_id = λ p. refl;
  same_remote = λ r p l h. h;
  still_active = λ r p l h. h;
  ids_grow = omega arith;
  same_store = refl;
  jobs = λ j p h. h;
}

forget-Keeps : (job : ℕ) (m : Manager) → Keeps m (forget_crawl_job job m)
unfolding forget_crawl_job
forget-Keeps job m = record {
  listed = λ r p h. h;
  unique = λ r h. h;
  same_id = λ p. refl;
  same_remote = λ r p l h. h;
  still_active = λ r p l h. h;
  ids_grow = omega arith;
  same_store = refl;
  jobs = λ j p h. ground arith;
}

forgotten-Kept :
    (job : ℕ) (m : Manager) (o : Option Manager)
    → Kept m o
    → Kept m (elim o [ none ↦ none | some sent ↦ some (forget_crawl_job job sent) ])
forgotten-Kept job m none k = tt
forgotten-Kept job m (some sent) k = Keeps-trans m sent _ k (forget-Keeps job sent)

pub notify_crawler_succeeded-Kept :
    (env : Env) (out : CrawlerOutputData) (m : Manager)
    → IsValid m
    → Kept m (notify_crawler_succeeded env out m)
notify_crawler_succeeded-Kept env out m v = elim (Option-cases (m.crawl_jobs out.job_id)) [
  | inl e ↦ unfold notify_crawler_succeeded in rw (e, notify_crawler_succeeded) (release-Keeps _ m)
  | inr (p, e) ↦
      let released = record m { crawler = release_crawl_job out.job_id m.crawler } in
      unfold notify_crawler_succeeded in
      rw (e, notify_crawler_succeeded)
        (Kept-of_Keeps m released _ (release-Keeps _ m) (
          forgotten-Kept out.job_id released _ (
            do_send_request_after_crawling-Kept env p out released
              (Keeps-IsValid m released (release-Keeps _ m) v) (v.crawling out.job_id p e))))
]

pub notify_crawler_failed-Keeps :
    (env : Env) (job : ℕ) (m : Manager) → IsValid m → Keeps m (notify_crawler_failed env job m)
notify_crawler_failed-Keeps env job m v = elim (Option-cases (m.crawl_jobs job)) [
  | inl e ↦ unfold notify_crawler_failed in rw (e, notify_crawler_failed) (release-Keeps _ m)
  | inr (p, e) ↦
      let released = record m { crawler = release_crawl_job job m.crawler } in
      let valid = Keeps-IsValid m released (release-Keeps _ m) v in
      unfold notify_crawler_failed in
      rw (e, notify_crawler_failed)
        (Keeps-trans m released _ (release-Keeps _ m) (
          Keeps-trans released _ _ (fail_op_stored-Keeps env p released valid (v.crawling job p e))
            (forget-Keeps job _)))
]
