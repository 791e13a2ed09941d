-- ===== src/Durable/Runs/Calls.antt =====
-- Calls on `PostgresRuntimeRepository` (packages/platform/src/vda_platform/jobs/repository.py), as
-- values, each with its instant and the ids that it draws.
use grok_bot_data.Prelude.{ℕ, String, Bool, Option, List, [], ◌∷◌}
use grok_bot_data.Observatory.Journal.{MetadataFields}
use grok_bot_data.Durable.Tables.{Database, Host, RepositoryCommand}
use grok_bot_data.Durable.Events.{append_run_event}
use grok_bot_data.Durable.Operations.{
  mark_effect_unknown, reconcile_effect, record_tool_execution, reserve_effect,
}
use grok_bot_data.Durable.Runs.{RunLease, create_run, create_task}
use grok_bot_data.Durable.Runs.Leases.{
  checkpoint, complete, fail, heartbeat, resume_run, start_run, wait,
}
use grok_bot_data.Durable.Runs.Claims.{claim_run}

-- the methods of the holder of a lease
pub data LeaseCall (P : Type 0) : Type 0 where
  start_call heartbeat_call : LeaseCall P
  checkpoint_call : P → LeaseCall P
  wait_call complete_call : String → LeaseCall P
  fail_call : String → Bool → LeaseCall P

pub data Call (P : Type 0) : Type 0 where
  lease_call : String → RunLease P → LeaseCall P → Call P
  claim_call : String → String → (String → Bool) → String → String → Option ℕ → Call P
  resume_call : String → String → Call P
  create_run_call :
      String → String → String → Option String → Option String → Option String → Call P
  create_task_call : String → String → String → P → String → Option String → Option String → Call P
  event_call : String → String → String → String → String → MetadataFields → Option String → Call P
  tool_call :
      String
      → String
      → String
      → String
      → String
      → String
      → String
      → String
      → P
      → String
      → Option P
      → Call P
  reserve_call : String → String → String → String → String → Call P
  unknown_call : String → String → Call P
  reconcile_call : String → String → String → Call P

module _ {P : Type 0} (host : Host P) (default_lease_seconds : ℕ) where
  unfoldable pub run_lease_call :
      String → RunLease P → LeaseCall P → ℕ → RepositoryCommand P (RunLease P)
  run_lease_call event_id lease start_call now = start_run host event_id lease now
  run_lease_call event_id lease heartbeat_call now = heartbeat default_lease_seconds lease now
  run_lease_call event_id lease (checkpoint_call contents) now = checkpoint host lease contents now
  run_lease_call event_id lease (wait_call reason) now = wait host event_id lease reason now
  run_lease_call event_id lease (complete_call result_ref) now =
      complete host event_id lease result_ref now
  run_lease_call event_id lease (fail_call error_code retryable) now =
      fail host event_id lease error_code retryable now

  -- the database after the call at `now`, whether it raised or not
  unfoldable pub step : ℕ → Call P → Database P → Database P
  step now (lease_call event_id lease call) s = (run_lease_call event_id lease call now s).1
  step now (claim_call attempt_id event_id locked workspace_id worker_id lease_seconds) s =
      (claim_run host default_lease_seconds attempt_id event_id locked workspace_id worker_id now
        lease_seconds s).1
  step now (resume_call workspace_id run_id) s = (resume_run workspace_id run_id now s).1
  step now (create_run_call workspace_id run_id task_id conversation_id bot_id supersedes) s =
      (create_run workspace_id run_id task_id conversation_id bot_id supersedes now s).1
  step now (create_task_call workspace_id task_id kind payload key root_task_id parent_task_id) s =
      (create_task host workspace_id task_id kind payload key root_task_id parent_task_id now s).1
  step now (event_call event_id workspace_id run_id event_key event_type metadata attempt_id) s =
      (append_run_event host event_id workspace_id run_id event_key event_type metadata attempt_id
        now s).1
  step now
        (tool_call execution_id workspace_id run_id attempt_id key tool_id version effect_class
          input state output)
        s =
      (record_tool_execution host execution_id workspace_id run_id attempt_id key tool_id version
        effect_class input state output s).1
  step now (reserve_call effect_id workspace_id run_id attempt_id operation_key) s =
      (reserve_effect effect_id workspace_id run_id attempt_id operation_key s).1
  step now (unknown_call workspace_id operation_key) s =
      (mark_effect_unknown workspace_id operation_key s).1
  step now (reconcile_call workspace_id operation_key result_ref) s =
      (reconcile_effect workspace_id operation_key result_ref s).1

  unfoldable pub steps : List (ℕ × Call P) → Database P → Database P
  steps [] s = s
  steps ((now, call) ∷ rest) s = steps rest (step now call s)
