-- ===== src/Jobs/Worker.antt =====
-- packages/platform/src/vda_platform/jobs/worker.py: one iteration of `ControlWorker`.
-- The handler is a parameter: for each job what it returned or raised, and the calls on the
-- ledger that ran while it did, its own and those of other clients.
pub mod Settling
use grok_bot_data.Prelude.{
  ℕ, String, Bool, true, false, none, List, [], Eq, pure, modify, ◌∷◌, ◌>>=◌, ◌>>◌, if◌then◌else◌,
}
use grok_bot_data.Jobs.Job.{Job, JobLedger, Command}
use grok_bot_data.Jobs.Ledger.{claim, start, wait, fail, complete}
use grok_bot_data.Jobs.Ledger.Call.{Call, steps}

-- `JobOutcome`, `WaitingJob`, `RetryableJobError` and any other exception, the last two with the
-- name of their class in lower case
pub data HandlerResult : Type 0 where
  returned waiting_job retryable_error other_error : String → HandlerResult

abbrev pub Handler : Type 0 → Type 0
Handler P = Job P → HandlerResult × List (Call P)

module _ {P : Type 0} ⦃e : Eq P⦄ (json_safe : P → Bool) (is_identifier : String → Bool)
    (worker_id : String) (handler : Handler P) where
  -- `_error_code`
  unfoldable pub error_code : String → String
  error_code name = if is_identifier name then name else "job_failed"

  -- the `try` of `run_once`, behind the handler
  unfoldable pub settle : Job P → HandlerResult → Command P (Job P)
  unfolding error_code
  settle running (waiting_job reason) = wait running.job_id worker_id running.fence reason
  settle running (retryable_error name) =
      fail running.job_id worker_id running.fence (error_code name) true
  settle running (other_error name) =
      fail running.job_id worker_id running.fence (error_code name) false
  settle running (returned result_ref) = complete running.job_id worker_id running.fence result_ref

  -- one turn of the loop of `run_once`
  unfoldable pub run_job : Job P → Command P (Job P)
  unfolding settle
  run_job leased = do
    running ← start leased.job_id worker_id leased.fence
    modify (steps json_safe (handler running).1)
    settle running (handler running).0

  unfoldable pub run_jobs : List (Job P) → Command P (List (Job P))
  run_jobs [] = pure []
  run_jobs (leased ∷ rest) = do
    outcome ← run_job leased
    outcomes ← run_jobs rest
    pure (outcome ∷ outcomes)

  -- `ControlWorker.run_once`; `claim` has its default limit and lease
  unfoldable pub run_once : ℕ → Command P (List (Job P))
  unfolding run_jobs
  run_once now = do claimed ← claim worker_id now 1 none; run_jobs claimed
