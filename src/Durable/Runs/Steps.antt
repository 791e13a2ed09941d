-- ===== src/Durable/Runs/Steps.antt =====
-- What one call on packages/platform/src/vda_platform/jobs/repository.py does to the table of runs.
use grok_bot_data.Prelude.{
  ℕ, String, refl, inl, inr, none, some, Bool-cases, string_eq, pair_eq, option_eq, nat_eq, ◌≡◌,
  ◌==◌, if◌then◌else◌,
}
use grok_bot_data.Prelude.Dict.{lookup}
use grok_bot_data.Prelude.Table.{Indexed}
use grok_bot_data.Runtime.Runs.{RunState, is_wait_reason}
use grok_bot_data.Durable.Tables.{Database, Host, RunRow}
use grok_bot_data.Durable.Runs.{RunLease}
use grok_bot_data.Durable.Runs.Leases.{complete, fail, start_run, wait}
use grok_bot_data.Durable.Runs.Updates.{RunChange, same_runs}
use grok_bot_data.Durable.Runs.Keeping.{
  append_run_event-KeepsRuns, create_task-KeepsRuns, mark_effect_unknown-KeepsRuns,
  reconcile_effect-KeepsRuns, record_tool_execution-KeepsRuns, reserve_effect-KeepsRuns,
}
use grok_bot_data.Durable.Runs.Serving.{HasLease, Serves}
use grok_bot_data.Durable.Runs.Methods.{
  checkpoint-RunChange, create_run-RunChange, heartbeat-RunChange, resume_run-RunChange,
  transition-RunChange,
}
use grok_bot_data.Durable.Runs.Claiming.{claim_run-RunChange}
use grok_bot_data.Durable.Runs.Calls.{
  Call, LeaseCall, checkpoint_call, claim_call, complete_call, create_run_call, create_task_call,
  event_call, fail_call, heartbeat_call, lease_call, reconcile_call, reserve_call, resume_call,
  run_lease_call, start_call, step, tool_call, unknown_call, wait_call,
}

abbrev pub row_id : {P : Type 0} → RunRow P → String
row_id row = row.id

-- Every run stands once under its id, and has an owner and a deadline exactly while it is leased or
-- running.
pub record IsConsistent {P : Type 0} (s : Database P) : Type 0 where
  pub keyed : Indexed row_id s.runs
  pub leases : (id : String) (a : RunRow P) → lookup id s.runs ≡ some a → HasLease a

module _ {P : Type 0} (host : Host P) (default_lease_seconds : ℕ) where
  run_lease_call-RunChange :
      (event_id : String) (lease : RunLease P) (call : LeaseCall P) (now : ℕ) (s : Database P)
      → RunChange
          (Serves now)
          s
          (run_lease_call host default_lease_seconds event_id lease call now s).1
  unfolding run_lease_call start_run wait complete fail
  run_lease_call-RunChange event_id lease start_call now s =
      transition-RunChange host event_id lease RunState.running none none none now s
  run_lease_call-RunChange event_id lease heartbeat_call now s =
      heartbeat-RunChange default_lease_seconds lease now s
  run_lease_call-RunChange event_id lease (checkpoint_call contents) now s =
      checkpoint-RunChange host lease contents now s
  run_lease_call-RunChange event_id lease (wait_call reason) now s =
      elim (Bool-cases (is_wait_reason reason)) [
        | inl known ↦ rw known (
            transition-RunChange host event_id lease RunState.waiting none none (some reason) now s)
        | inr other ↦ rw other (same_runs refl)
      ]
  run_lease_call-RunChange event_id lease (complete_call result_ref) now s =
      elim (Bool-cases (result_ref == "")) [
        | inl missing ↦ rw missing (same_runs refl)
        | inr given ↦ rw given (
            transition-RunChange host event_id lease RunState.completed (some result_ref) none none
              now s)
      ]
  run_lease_call-RunChange event_id lease (fail_call error_code retryable) now s =
      elim (Bool-cases (error_code == "")) [
        | inl missing ↦ rw missing (same_runs refl)
        | inr given ↦ rw given (
            transition-RunChange host event_id lease
              (if retryable then RunState.queued else RunState.failed) none (some error_code) none
              now s)
      ]

  pub step-RunChange :
      (now : ℕ) (call : Call P) (s : Database P)
      → IsConsistent s
      → RunChange (Serves now) s (step host default_lease_seconds now call s)
  unfolding step
  step-RunChange now (lease_call event_id lease call) s valid =
      run_lease_call-RunChange event_id lease call now s
  step-RunChange now (claim_call attempt_id event_id locked workspace_id worker_id seconds) s
        valid =
      claim_run-RunChange host default_lease_seconds attempt_id event_id locked workspace_id
        worker_id now seconds s valid.keyed
  step-RunChange now (resume_call workspace_id run_id) s valid =
      resume_run-RunChange workspace_id run_id now s
  step-RunChange now (create_run_call workspace_id run_id task_id conversation bot supersedes) s
        valid =
      create_run-RunChange host workspace_id run_id task_id conversation bot supersedes now s
  step-RunChange now (create_task_call workspace_id task_id kind payload key root parent) s valid =
      same_runs (create_task-KeepsRuns host workspace_id task_id kind payload key root parent now s)
  step-RunChange now (event_call event_id workspace_id run_id key event_type metadata attempt) s
        valid =
      same_runs (
        append_run_event-KeepsRuns host event_id workspace_id run_id key event_type metadata attempt
          now s)
  step-RunChange now
        (tool_call execution_id workspace_id run_id attempt_id key tool_id version class input state
          output)
        s valid =
      same_runs (
        record_tool_execution-KeepsRuns host execution_id workspace_id run_id attempt_id key tool_id
          version class input state output s)
  step-RunChange now (reserve_call effect_id workspace_id run_id attempt_id key) s valid =
      same_runs (reserve_effect-KeepsRuns effect_id workspace_id run_id attempt_id key s)
  step-RunChange now (unknown_call workspace_id key) s valid =
      same_runs (mark_effect_unknown-KeepsRuns workspace_id key s)
  step-RunChange now (reconcile_call workspace_id key result_ref) s valid =
      same_runs (reconcile_effect-KeepsRuns workspace_id key result_ref s)
