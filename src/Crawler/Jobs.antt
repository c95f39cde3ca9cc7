-- ===== src/Crawler/Jobs.antt =====
-- The job table of src/service/file_crawler.cpp: `startCrawlJob` and `releaseCrawlJob`. A job's
-- thread is the list of paths that it was started with.
use winpinator.Prelude.{ℕ, ◌+◌, List, Text, Option, none, some, ◌==◌, if◌then◌else◌}

pub record Jobs : Type 0 where
  pub last_job_id : ℕ
  pub jobs : ℕ → Option (List Text)

unfoldable pub start_crawl_job : List Text → Jobs → ℕ × Jobs
start_crawl_job paths c =
    let job_id = c.last_job_id + 1 in
    (
      job_id,
      record c { last_job_id = job_id; jobs = λ j. if j == job_id then some paths else c.jobs j },
    )

unfoldable pub release_crawl_job : ℕ → Jobs → Jobs
release_crawl_job job_id c = record c { jobs = λ j. if j == job_id then none else c.jobs j }
