-- ===== src/Jobs/Ledger/Call.antt =====
-- A client's calls on the `JobLedger` of jobs/ledger.py, as values.
use grok_bot_data.Prelude.{ℕ, String, Bool, Option, List, [], Eq, ◌∷◌}
use grok_bot_data.Jobs.Job.{JobLedger, Job, Command}
use grok_bot_data.Jobs.Ledger.{
  start, heartbeat, checkpoint, wait, complete, fail, enqueue, claim, resume, cancel,
}

-- the methods that take a worker and a fence
pub data FencedCall (P : Type 0) : Type 0 where
  start_call : FencedCall P
  heartbeat_call : ℕ → FencedCall P
  checkpoint_call : P → FencedCall P
  wait_call complete_call : String → FencedCall P
  fail_call : String → Bool → FencedCall P

pub data Call (P : Type 0) : Type 0 where
  fenced : String → String → ℕ → FencedCall P → Call P
  enqueue_call : String → String → String → P → String → ℕ → Call P
  claim_call : String → ℕ → ℕ → Option ℕ → Call P
  resume_call cancel_call : String → Call P

module _ {P : Type 0} (json_safe : P → Bool) where
  unfoldable pub run_fenced : FencedCall P → String → String → ℕ → Command P (Job P)
  run_fenced start_call id w f = start id w f
  run_fenced (heartbeat_call now) id w f = heartbeat id w f now
  run_fenced (checkpoint_call contents) id w f = checkpoint json_safe id w f contents
  run_fenced (wait_call reason) id w f = wait id w f reason
  run_fenced (complete_call result_ref) id w f = complete id w f result_ref
  run_fenced (fail_call error_code retryable) id w f = fail id w f error_code retryable

module _ {P : Type 0} ⦃e : Eq P⦄ (json_safe : P → Bool) where
  -- the ledger after the call, whether it raised or not
  unfoldable pub step : Call P → JobLedger P → JobLedger P
  step (fenced id w f call) s = (run_fenced json_safe call id w f s).1
  step (enqueue_call id workspace kind payload key now) s =
      (enqueue json_safe id workspace kind payload key now s).1
  step (claim_call w now limit lease) s = (claim w now limit lease s).1
  step (resume_call id) s = (resume id s).1
  step (cancel_call id) s = (cancel id s).1

  unfoldable pub steps : List (Call P) → JobLedger P → JobLedger P
  steps [] s = s
  steps (call ∷ rest) s = steps rest (step call s)
