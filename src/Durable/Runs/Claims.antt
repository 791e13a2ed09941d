-- ===== src/Durable/Runs/Claims.antt =====
-- packages/platform/src/vda_platform/jobs/repository.py: `claim_run`.
use grok_bot_data.Prelude.{
  ℕ, max, String, Bool, true, false, not, Option, none, some, List, [], ltb, leb, pure, gets,
  raise_if, modify, filter, any, get_or, string_eq, pair_eq, option_eq, nat_eq, ◌+◌, ◌&&◌, ◌||◌,
  ◌∷◌, ◌==◌, ◌>>=◌, ◌>>◌, if◌then◌else◌,
}
use grok_bot_data.Prelude.Dict.{insert, contains, values}
use Prim.Native.String.{◌++◌ as concat}
use grok_bot_data.Runtime.Runs.{RunState, is_active}
use grok_bot_data.Observatory.Journal.{text, number, field, no_fields}
use grok_bot_data.Durable.Tables.{
  AttemptRow, Host, RepositoryCommand, RunRow, has_run, database_error, lease_not_positive,
  required, transaction,
}
use grok_bot_data.Durable.Events.{insert_run_event}
use grok_bot_data.Durable.Runs.{RunLease}
use grok_bot_data.Durable.Runs.Leases.{update_run}

abbrev pub has_expired : ℕ → Option ℕ → Bool
has_expired now none = false
has_expired now (some expires) = leb expires now

-- `COALESCE(MAX(attempt_number), 0)`
abbrev pub max_number : String → List AttemptRow → ℕ
max_number run_id [] = 0
max_number run_id (attempt ∷ rest) =
    if attempt.run_id == run_id
    then max attempt.attempt_number (max_number run_id rest)
    else max_number run_id rest

abbrev pub is_queued : RunState → Bool
is_queued RunState.queued = true
is_queued _ = false

module _ {P : Type 0} where
  abbrev pub claimable : (String → Bool) → String → ℕ → RunRow P → Bool
  claimable locked workspace_id now row =
      row.workspace_id == workspace_id
      && (is_queued row.state || is_active row.state && has_expired now row.lease_expires_at)
      && not (locked row.id)

  abbrev pub sooner :
      (RunRow P → RunRow P → Bool) → RunRow P → Option (RunRow P) → Option (RunRow P)
  sooner before row none = some row
  sooner before row (some other) = if before other row then some other else some row

  -- `ORDER BY ... LIMIT 1`
  unfoldable pub earliest : (RunRow P → RunRow P → Bool) → List (RunRow P) → Option (RunRow P)
  earliest before [] = none
  earliest before (row ∷ rest) = sooner before row (earliest before rest)

  -- `INSERT INTO attempts`
  unfoldable pub insert_attempt : AttemptRow → RepositoryCommand P Unit
  insert_attempt attempt = do
    conflict ← gets (λ s.
        contains attempt.id s.attempts
        || any
            (λ (other : AttemptRow).
              other.run_id == attempt.run_id
              && (other.attempt_number == attempt.attempt_number || other.fence == attempt.fence))
            (values s.attempts)
        || not (has_run attempt.workspace_id attempt.run_id s))
    raise_if conflict database_error
    modify (λ s. record s { attempts = insert attempt.id attempt s.attempts })

module _ {P : Type 0} (host : Host P) where
  abbrev pub before : RunRow P → RunRow P → Bool
  before row other =
      ltb row.created_at other.created_at
      || row.created_at == other.created_at && host.text_before row.id other.id

  -- the attempt and the event of a claim
  unfoldable pub insert_lease : String → ℕ → RunLease P → RepositoryCommand P (Option (RunLease P))
  unfolding insert_attempt insert_run_event
  insert_lease event_id now lease = do
    insert_attempt (record {
      id = lease.attempt_id;
      workspace_id = lease.workspace_id;
      run_id = lease.run_id;
      attempt_number = lease.attempt_number;
      worker_id = lease.worker_id;
      fence = lease.fence;
      started_at = now;
    })
    event ←
        insert_run_event host event_id lease.workspace_id lease.run_id
          (concat lease.run_id (concat ":fence:" (concat (host.show lease.fence) ":leased")))
          "run.leased"
          (field "state" (text "leased") (
            field "fence" (number lease.fence)
              (field "worker_id" (text lease.worker_id) no_fields)))
          (some lease.attempt_id) now
    pure (some lease)

  -- the rest of `claim_run`, after the row that it selects
  unfoldable pub take_lease :
      String
      → String
      → String
      → String
      → ℕ
      → ℕ
      → Option (RunRow P)
      → RepositoryCommand P (Option (RunLease P))
  unfolding update_run insert_lease
  take_lease attempt_id event_id workspace_id worker_id now seconds none = pure none
  take_lease attempt_id event_id workspace_id worker_id now seconds (some row) = do
    attempt_number ← gets (λ s. max_number row.id (values s.attempts) + 1)
    updated ←
        update_run workspace_id row.id (λ _. true)
          (λ current. record current {
            state = RunState.leased;
            lease_owner = some worker_id;
            lease_expires_at = some (now + seconds);
            fence = row.fence + 1;
            updated_at = now;
          })
    insert_lease event_id now (record {
      run_id = row.id;
      task_id = row.task_id;
      workspace_id = workspace_id;
      state = RunState.leased;
      worker_id = worker_id;
      fence = row.fence + 1;
      attempt_id = attempt_id;
      attempt_number = attempt_number;
      lease_expires_at = some (now + seconds);
      checkpoint_revision = row.checkpoint_revision;
      checkpoint = row.checkpoint_json;
    })

  -- `claim_run`
  unfoldable pub claim_run :
      ℕ
      → String
      → String
      → (String → Bool)
      → String
      → String
      → ℕ
      → Option ℕ
      → RepositoryCommand P (Option (RunLease P))
  unfolding earliest take_lease
  claim_run default_lease_seconds attempt_id event_id locked workspace_id worker_id now
        lease_seconds =
      let seconds = get_or default_lease_seconds lease_seconds in
      do
        required (workspace_id ∷ worker_id ∷ [])
        raise_if (seconds == 0) lease_not_positive
        transaction (do
          row ←
              gets
                (λ s. earliest before (filter (claimable locked workspace_id now) (values s.runs)))
          take_lease attempt_id event_id workspace_id worker_id now seconds row)
