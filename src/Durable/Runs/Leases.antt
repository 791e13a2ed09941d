-- ===== src/Durable/Runs/Leases.antt =====
-- packages/platform/src/vda_platform/jobs/repository.py: updates of runs, the methods of the holder of
-- a lease, and `resume_run`.
use grok_bot_data.Prelude.{
  ℕ, String, Bool, true, false, not, Option, none, some, [], pure, gets, or_raise, raise_if, modify,
  string_eq, pair_eq, option_eq, nat_eq, ◌+◌, ◌&&◌, ◌∷◌, ◌==◌, ◌>>=◌, ◌>>◌, if◌then◌else◌,
}
use grok_bot_data.Prelude.Dict.{lookup, insert}
use Prim.Native.String.{◌++◌ as concat}
use grok_bot_data.Runtime.Runs.{RunState, is_active, is_waiting, is_wait_reason}
use grok_bot_data.Observatory.Journal.{Metadata, text, number, nothing, field, no_fields}
use grok_bot_data.Durable.Tables.{
  Host, RepositoryCommand, RunRow, payload_not_json_safe, database_error, run_not_waiting,
  invalid_run_transition, invalid_wait_reason, result_ref_required, error_code_required,
  fence_error, required, transaction,
}
use grok_bot_data.Durable.Events.{RunEventRecord, insert_run_event}
use grok_bot_data.Durable.Runs.{RunLease, value, slot_taken}

-- `COALESCE(given, old)`
abbrev pub coalesce : Option String → Option String → Option String
coalesce none old = old
coalesce (some given) old = some given

abbrev pub text_or_nothing : Option String → Metadata
text_or_nothing none = nothing
text_or_nothing (some given) = text given

module _ {P : Type 0} where
  -- the `WHERE` of an update by id and workspace
  abbrev pub matching :
      String → (RunRow P → Bool) → (RunRow P → RunRow P) → Option (RunRow P) → Option (RunRow P)
  matching workspace_id test change none = none
  matching workspace_id test change (some row) =
      if row.workspace_id == workspace_id && test row then some (change row) else none

  abbrev pub write_run : String → Option (RunRow P) → RepositoryCommand P (Option (RunRow P))
  write_run run_id none = pure none
  write_run run_id (some row) = do
    conflict ← gets (slot_taken row)
    raise_if conflict database_error
    modify (λ s. record s { runs = insert run_id row s.runs })
    pure (some row)

  -- `UPDATE runs SET ... WHERE id = ... AND workspace_id = ... AND ... RETURNING`
  unfoldable pub update_run :
      String
      → String
      → (RunRow P → Bool)
      → (RunRow P → RunRow P)
      → RepositoryCommand P (Option (RunRow P))
  update_run workspace_id run_id test change = do
    found ← gets (λ s. lookup run_id s.runs)
    write_run run_id (matching workspace_id test change found)

  -- `lease_owner = :worker_id AND fence = :fence`
  abbrev pub held_by : RunLease P → RunRow P → Bool
  held_by lease row = row.lease_owner == some lease.worker_id && row.fence == lease.fence

  abbrev pub held_active : RunLease P → RunRow P → Bool
  held_active lease row = held_by lease row && is_active row.state

  -- `heartbeat`
  unfoldable pub heartbeat : ℕ → RunLease P → ℕ → RepositoryCommand P (RunLease P)
  unfolding update_run
  heartbeat default_lease_seconds lease now =
      let expiry = some (now + default_lease_seconds) in
      do
        updated ← transaction (do
          updated ←
              update_run lease.workspace_id lease.run_id (held_active lease)
                (λ row. record row { lease_expires_at = expiry; updated_at = now })
          or_raise updated fence_error)
        pure (record lease { lease_expires_at = expiry })

  -- `resume_run`
  unfoldable pub resume_run : String → String → ℕ → RepositoryCommand P Unit
  unfolding update_run
  resume_run workspace_id run_id now = do
    required (workspace_id ∷ run_id ∷ [])
    updated ← transaction (do
      updated ←
          update_run workspace_id run_id (λ row. is_waiting row.state)
            (λ row. record row {
              state = RunState.queued;
              lease_owner = none;
              lease_expires_at = none;
              wait_reason = none;
              error_code = none;
              updated_at = now;
            })
      or_raise updated run_not_waiting)
    pure tt

abbrev pub can_target : RunState → Bool
can_target RunState.leased = false
can_target RunState.handed_off = false
can_target _ = true

-- `release_lease`
abbrev pub releases : RunState → Bool
releases RunState.running = false
releases state = can_target state

module _ {P : Type 0} (host : Host P) where
  -- `checkpoint`
  unfoldable pub checkpoint : RunLease P → P → ℕ → RepositoryCommand P (RunLease P)
  unfolding update_run
  checkpoint lease contents now = do
    raise_if (not (host.json_safe contents)) payload_not_json_safe
    row ← transaction (do
      updated ← update_run lease.workspace_id lease.run_id (held_active lease) (λ row. record row {
        checkpoint_revision = row.checkpoint_revision + 1;
        checkpoint_json = some contents;
        updated_at = now;
      })
      or_raise updated fence_error)
    pure
        (record lease { checkpoint_revision = row.checkpoint_revision; checkpoint = some contents })

  -- the event of `_transition`
  unfoldable pub insert_state_event :
      String
      → RunLease P
      → RunState
      → Option String
      → Option String
      → ℕ
      → RepositoryCommand P RunEventRecord
  unfolding insert_run_event
  insert_state_event event_id lease state error_code stored_wait_reason now =
      insert_run_event host event_id lease.workspace_id lease.run_id
        (concat lease.run_id
          (concat ":fence:" (concat (host.show lease.fence) (concat ":state:" (value state)))))
        (concat "run." (value state))
        (field "state" (text (value state)) (
          field "fence" (number lease.fence) (
            field "error_code" (text_or_nothing error_code)
              (field "wait_reason" (text_or_nothing stored_wait_reason) no_fields))))
        (some lease.attempt_id) now

  -- `_transition`
  unfoldable pub transition :
      String
      → RunLease P
      → RunState
      → Option String
      → Option String
      → Option String
      → ℕ
      → RepositoryCommand P (RunLease P)
  unfolding update_run insert_state_event
  transition event_id lease state result_ref error_code wait_reason now =
      let stored_wait_reason = if is_waiting state then wait_reason else none in
      do
        raise_if (not (can_target state)) invalid_run_transition
        event ← transaction (do
          updated ← update_run lease.workspace_id lease.run_id (held_by lease) (λ row. record row {
            state = state;
            lease_owner = if releases state then none else some lease.worker_id;
            lease_expires_at = if releases state then none else row.lease_expires_at;
            wait_reason = stored_wait_reason;
            result_ref = coalesce result_ref row.result_ref;
            error_code = error_code;
            updated_at = now;
          })
          row ← or_raise updated fence_error
          insert_state_event event_id lease state error_code stored_wait_reason now)
        pure (record lease {
          state = state;
          lease_expires_at = if releases state then none else lease.lease_expires_at;
        })

  -- `start_run`
  unfoldable pub start_run : String → RunLease P → ℕ → RepositoryCommand P (RunLease P)
  unfolding transition
  start_run event_id lease now = transition event_id lease RunState.running none none none now

  -- `wait`
  unfoldable pub wait : String → RunLease P → String → ℕ → RepositoryCommand P (RunLease P)
  unfolding transition
  wait event_id lease reason now = do
    raise_if (not (is_wait_reason reason)) invalid_wait_reason
    transition event_id lease RunState.waiting none none (some reason) now

  -- `complete`
  unfoldable pub complete : String → RunLease P → String → ℕ → RepositoryCommand P (RunLease P)
  unfolding transition
  complete event_id lease result_ref now = do
    raise_if (result_ref == "") result_ref_required
    transition event_id lease RunState.completed (some result_ref) none none now

  -- `fail`
  unfoldable pub fail : String → RunLease P → String → Bool → ℕ → RepositoryCommand P (RunLease P)
  unfolding transition
  fail event_id lease error_code retryable now = do
    raise_if (error_code == "") error_code_required
    transition event_id lease (if retryable then RunState.queued else RunState.failed) none
        (some error_code) none now
