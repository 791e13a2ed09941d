-- ===== src/Durable/Runs.antt =====
-- packages/platform/src/vda_platform/jobs/repository.py: tasks and runs, and the lease of a run.
-- A method takes the ids that it draws; `locked` are the runs that other transactions hold.
pub mod Leases
pub mod Claims
pub mod Tenure
pub mod Updates
pub mod Keeping
pub mod Serving
pub mod Methods
pub mod Claiming
pub mod Calls
pub mod Steps
pub mod Refinement
pub mod Fencing
use grok_bot_data.Prelude.{
  ℕ, String, Bool, true, false, not, Option, none, some, [], pure, gets, raise_if, modify, any,
  string_eq, pair_eq, option_eq, nat_eq, ◌&&◌, ◌||◌, ◌∷◌, ◌==◌, ◌!=◌, ◌>>=◌, ◌>>◌, if◌then◌else◌,
}
use grok_bot_data.Prelude.Dict.{lookup, insert, contains, values}
use Prim.Native.String.{◌++◌ as concat}
use grok_bot_data.Runtime.Runs.{RunState, is_active}
use grok_bot_data.Observatory.Journal.{Metadata, text, number, nothing, field, no_fields}
use grok_bot_data.Durable.Tables.{
  AttemptRow, Database, Host, RepositoryCommand, RepositoryError, RunRow, TaskRow, has_run,
  payload_not_json_safe, idempotency_reused, task_insert_failed, run_insert_failed, database_error,
  lease_not_positive, required, select_first, in_workspace, transaction,
}
use grok_bot_data.Durable.Events.{insert_run_event}

-- `RunLease`
pub record RunLease (P : Type 0) : Type 0 where
  pub run_id : String
  pub task_id : String
  pub workspace_id : String
  pub state : RunState
  pub worker_id : String
  pub fence : ℕ
  pub attempt_id : String
  pub attempt_number : ℕ
  pub lease_expires_at : Option ℕ
  pub checkpoint_revision : ℕ
  pub checkpoint : Option P

-- `state.value`
abbrev pub value : RunState → String
value RunState.queued = "queued"
value RunState.leased = "leased"
value RunState.running = "running"
value RunState.waiting = "waiting"
value RunState.completed = "completed"
value RunState.handed_off = "handed_off"
value RunState.failed = "failed"
value RunState.cancelled = "cancelled"

-- `given or default`
abbrev pub or_text : Option String → String → String
or_text none default = default
or_text (some given) default = if given == "" then default else given

-- the states of the partial unique index `runs_one_main_active`
abbrev pub is_open : RunState → Bool
is_open RunState.queued = true
is_open RunState.leased = true
is_open RunState.running = true
is_open RunState.waiting = true
is_open _ = false

module _ {P : Type 0} where
  abbrev pub same_slot : Option String → Option String → RunRow P → Bool
  same_slot (some conversation_id) (some bot_id) other =
      other.conversation_id == some conversation_id && other.bot_id == some bot_id
  same_slot _ _ other = false

  -- another open run of the conversation and the bot
  abbrev pub slot_taken : RunRow P → Database P → Bool
  slot_taken row s =
      is_open row.state
      && any
          (λ (other : RunRow P).
            other.id != row.id
            && is_open other.state
            && same_slot row.conversation_id row.bot_id other)
          (values s.runs)

  abbrev pub has_parent : Option String → Database P → Bool
  has_parent none s = true
  has_parent (some parent_id) s = contains parent_id s.tasks

  abbrev pub has_superseded : Option String → Database P → Bool
  has_superseded none s = true
  has_superseded (some run_id) s = contains run_id s.runs

  -- the constraints of `runs`
  abbrev pub run_admitted : RunRow P → Database P → Bool
  run_admitted row s =
      not (contains row.id s.runs)
      && in_workspace (λ (task : TaskRow P). task.workspace_id) row.workspace_id
          (lookup row.task_id s.tasks)
      && (has_superseded row.supersedes_run_id s || row.supersedes_run_id == some row.id)
      && not (slot_taken row s)

  -- `INSERT INTO runs`
  unfoldable pub insert_run : RunRow P → RepositoryCommand P String
  insert_run row = do
    admitted ← gets (run_admitted row)
    raise_if (not admitted) run_insert_failed
    modify (λ s. record s { runs = insert row.id row s.runs })
    pure row.id

  -- `create_run`
  unfoldable pub create_run :
      String
      → String
      → String
      → Option String
      → Option String
      → Option String
      → ℕ
      → RepositoryCommand P String
  unfolding insert_run
  create_run workspace_id run_id task_id conversation_id bot_id supersedes_run_id now = do
    required (workspace_id ∷ run_id ∷ task_id ∷ [])
    transaction (
        insert_run (record {
          id = run_id;
          workspace_id = workspace_id;
          task_id = task_id;
          conversation_id = conversation_id;
          bot_id = bot_id;
          state = RunState.queued;
          lease_owner = none;
          lease_expires_at = none;
          fence = 0;
          checkpoint_revision = 0;
          checkpoint_json = none;
          wait_reason = none;
          error_code = none;
          result_ref = none;
          supersedes_run_id = supersedes_run_id;
          created_at = now;
          updated_at = now;
        }))

module _ {P : Type 0} (host : Host P) where
  -- `INSERT INTO tasks`
  unfoldable pub insert_task : TaskRow P → RepositoryCommand P String
  insert_task row = do
    admitted ← gets (λ s.
        not (contains row.id s.tasks)
        && host.has_workspace row.workspace_id
        && has_parent row.parent_task_id s)
    raise_if (not admitted) task_insert_failed
    modify (λ s. record s { tasks = insert row.id row s.tasks })
    pure row.id

  unfoldable pub reuse_or_insert : TaskRow P → Option (TaskRow P) → RepositoryCommand P String
  unfolding insert_task
  reuse_or_insert row none = insert_task row
  reuse_or_insert row (some existing) = do
    raise_if
        (existing.kind != row.kind || not (host.payload_eq existing.payload_json row.payload_json))
        idempotency_reused
    pure existing.id

  -- `create_task`
  unfoldable pub create_task :
      String
      → String
      → String
      → P
      → String
      → Option String
      → Option String
      → ℕ
      → RepositoryCommand P String
  unfolding reuse_or_insert select_first
  create_task workspace_id task_id kind payload idempotency_key root_task_id parent_task_id now = do
    required (workspace_id ∷ task_id ∷ kind ∷ idempotency_key ∷ [])
    raise_if (not (host.json_safe payload)) payload_not_json_safe
    transaction (do
      existing ← gets (λ s.
          select_first
            (λ (task : TaskRow P).
              task.workspace_id == workspace_id && task.idempotency_key == idempotency_key)
            (values s.tasks))
      reuse_or_insert
          (record {
            id = task_id;
            workspace_id = workspace_id;
            kind = kind;
            idempotency_key = idempotency_key;
            payload_json = payload;
            root_task_id = or_text root_task_id task_id;
            parent_task_id = parent_task_id;
            created_at = now;
          })
          existing)
