-- ===== src/Jobs/Ledger/Fencing.antt =====
-- The fence of jobs/ledger.py: a worker that has lost its lease changes nothing.
use grok_bot_data.Prelude.{
  ℕ, String, refl, Bool, true, false, some, Result, err, raise_if, ◌≡◌, ◌||◌, ◌!=◌, ◌>>=◌, ◌>>◌,
  string_eq, pair_eq, nat_eq, option_eq,
}
use grok_bot_data.Prelude.Dict.{lookup}
use grok_bot_data.Jobs.Job.{JobLedger, Job, JobError, Command, fence_error}
use grok_bot_data.Jobs.Ledger.{
  guard, get, owner_differs, start, heartbeat, checkpoint, wait, complete, fail,
}
use grok_bot_data.Jobs.Ledger.Call.{
  FencedCall, start_call, heartbeat_call, checkpoint_call, wait_call, complete_call, fail_call,
  run_fenced,
}
use grok_bot_data.Jobs.Ledger.Evolution.{Outcome}
use grok_bot_data.Jobs.Ledger.Methods.{
  start-Outcome, heartbeat-Outcome, checkpoint-Outcome, wait-Outcome, complete-Outcome,
  fail-Outcome,
}

-- The call raised, and the ledger is as it was.
abbrev pub IsRefused : {P A : Type 0} → JobLedger P → Result JobError A × JobLedger P → Type 0
IsRefused s r = (e : JobError) × (r ≡ (err e, s))

module _ {P : Type 0} (json_safe : P → Bool) (s : JobLedger P) (id w : String) (f : ℕ) where
  pub run_fenced-Outcome : (call : FencedCall P) → Outcome s (run_fenced json_safe call id w f s)
  unfolding run_fenced
  run_fenced-Outcome start_call = start-Outcome s id w f
  run_fenced-Outcome (heartbeat_call now) = heartbeat-Outcome s id w f now
  run_fenced-Outcome (checkpoint_call contents) = checkpoint-Outcome s id w f json_safe contents
  run_fenced-Outcome (wait_call reason) = wait-Outcome s id w f reason
  run_fenced-Outcome (complete_call result_ref) = complete-Outcome s id w f result_ref
  run_fenced-Outcome (fail_call error_code retryable) = fail-Outcome s id w f error_code retryable

  module _ (a : Job P) (hit : lookup id s.jobs ≡ some a)
      (stale : (owner_differs a.lease_owner w || a.fence != f) ≡ true) where
    guard_stale : (k : Job P → Command P (Job P)) → (guard id w f >>= k) s ≡ (err fence_error, s)
    unfolding guard get
    guard_stale k = rw (hit, stale)

    IsRefused-after :
        (c : Bool) (e : JobError) (k : Job P → Command P (Job P))
        → IsRefused s ((raise_if c e >> (guard id w f >>= k)) s)
    IsRefused-after true e k = (e, refl)
    IsRefused-after false e k = (fence_error, guard_stale k)

    -- No fenced method gets past the guard.
    pub run_fenced_stale : (call : FencedCall P) → IsRefused s (run_fenced json_safe call id w f s)
    unfolding run_fenced start heartbeat checkpoint wait complete fail
    run_fenced_stale start_call = (fence_error, guard_stale _)
    run_fenced_stale (heartbeat_call now) = (fence_error, guard_stale _)
    run_fenced_stale (checkpoint_call contents) = (fence_error, guard_stale _)
    run_fenced_stale (wait_call reason) = IsRefused-after _ _ _
    run_fenced_stale (complete_call result_ref) = IsRefused-after _ _ _
    run_fenced_stale (fail_call error_code retryable) = IsRefused-after _ _ _
