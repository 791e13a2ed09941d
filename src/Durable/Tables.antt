-- ===== src/Durable/Tables.antt =====
-- packages/platform/src/vda_platform/jobs/repository.py: the rows of the tables that
-- `PostgresRuntimeRepository` reads and writes, and its connection.
-- The tables are those of database/migrations/versions/0004_runtime.sql, 0005_runtime_tenant_fks.sql
-- and 0006_run_events.sql. A table is a dict by its primary key, or by the unique key by which it is
-- read. Payloads and checkpoints are JSON objects of a type `P`; instants are numbers in UTC.
use grok_bot_data.Prelude.{
  ℕ, String, Bool, false, Option, none, some, List, [], Result, ok, err, Exec, raise_if, any, ◌∷◌,
  ◌==◌, if◌then◌else◌, string_eq, pair_eq, nat_eq, option_eq,
}
use grok_bot_data.Prelude.Dict.{Dict, lookup}
use grok_bot_data.Runtime.Runs.{RunState}
use grok_bot_data.Observatory.Journal.{MetadataFields}

-- `RuntimeRepositoryError` with one constructor for each message, `FenceError`, and an error of the
-- database that no handler takes
pub data RepositoryError : Type 0 where
  identity_missing payload_not_json_safe idempotency_reused : RepositoryError
  task_insert_failed run_insert_failed lease_not_positive invalid_wait_reason : RepositoryError
  run_not_waiting result_ref_required error_code_required : RepositoryError
  invalid_effect_class invalid_tool_state tool_key_reused : RepositoryError
  effect_key_reused effect_not_visible reconciliation_required : RepositoryError
  event_content_forbidden event_not_json_safe event_too_large event_key_reused : RepositoryError
  invalid_run_transition fence_error database_error : RepositoryError

pub record TaskRow (P : Type 0) : Type 0 where
  pub id : String
  pub workspace_id : String
  pub kind : String
  pub idempotency_key : String
  pub payload_json : P
  pub root_task_id : String
  pub parent_task_id : Option String
  pub created_at : ℕ

pub record RunRow (P : Type 0) : Type 0 where
  pub id : String
  pub workspace_id : String
  pub task_id : String
  pub conversation_id : Option String
  pub bot_id : Option String
  pub state : RunState
  pub lease_owner : Option String
  pub lease_expires_at : Option ℕ
  pub fence : ℕ
  pub checkpoint_revision : ℕ
  pub checkpoint_json : Option P
  pub wait_reason : Option String
  pub error_code : Option String
  pub result_ref : Option String
  pub supersedes_run_id : Option String
  pub created_at : ℕ
  pub updated_at : ℕ

pub record AttemptRow : Type 0 where
  pub id : String
  pub workspace_id : String
  pub run_id : String
  pub attempt_number : ℕ
  pub worker_id : String
  pub fence : ℕ
  pub started_at : ℕ

pub data ToolState : Type 0 where
  started succeeded failed unknown : ToolState

pub record ToolRow (P : Type 0) : Type 0 where
  pub id : String
  pub run_id : String
  pub attempt_id : String
  pub operation_key : String
  pub tool_id : String
  pub tool_version : String
  pub effect_class : String
  pub state : ToolState
  pub input_json : P
  pub output_json : Option P

pub data EffectState : Type 0 where
  reserved committed unknown reconciled : EffectState

pub record EffectRow : Type 0 where
  pub id : String
  pub run_id : String
  pub attempt_id : String
  pub operation_key : String
  pub state : EffectState
  pub result_ref : Option String

pub record EventRow : Type 0 where
  pub id : String
  pub run_id : String
  pub attempt_id : Option String
  pub event_key : String
  pub event_type : String
  pub metadata_json : MetadataFields
  pub created_at : ℕ

-- Tools, effects and events by workspace and key.
pub record Database (P : Type 0) : Type 0 where
  pub tasks : Dict String (TaskRow P)
  pub runs : Dict String (RunRow P)
  pub attempts : Dict String AttemptRow
  pub tool_executions : Dict (String × String) (ToolRow P)
  pub effects : Dict (String × String) EffectRow
  pub run_events : Dict (String × String) EventRow

-- What the repository uses of Python and of the database: `json.dumps` takes a payload, `==` of
-- payloads, a key of metadata has a forbidden term, the bytes of metadata as JSON, `==` of metadata,
-- the decimal text of a number, the database's order of texts, and the ids of the table `workspaces`.
pub record Host (P : Type 0) : Type 0 where
  pub json_safe : P → Bool
  pub payload_eq : P → P → Bool
  pub is_forbidden : String → Bool
  pub json_bytes : MetadataFields → ℕ
  pub metadata_eq : MetadataFields → MetadataFields → Bool
  pub show : ℕ → String
  pub text_before : String → String → Bool
  pub has_workspace : String → Bool

abbrev pub RepositoryCommand : Type 0 → Type 0 → Type 0
RepositoryCommand P A = Exec (Database P) RepositoryError A

-- `with self._engine.begin()`: what raises is rolled back.
abbrev pub rolled_back : {S E A : Type 0} → S → Result E A × S → Result E A × S
rolled_back before (ok a, after) = (ok a, after)
rolled_back before (err e, after) = (err e, before)

abbrev pub transaction : {S E A : Type 0} → Exec S E A → Exec S E A
transaction command s = rolled_back s (command s)

-- `PostgresRuntimeRepository._required`
abbrev pub required : {P : Type 0} → List String → RepositoryCommand P Unit
required names = raise_if (any (λ name. name == "") names) identity_missing

-- `SELECT ... WHERE`, the first row
unfoldable pub select_first : {A : Type 0} → (A → Bool) → List A → Option A
select_first test [] = none
select_first test (row ∷ rest) = if test row then some row else select_first test rest

-- a foreign key on (workspace_id, run_id), and on (workspace_id, attempt_id) if it is not NULL
abbrev pub in_workspace : {A : Type 0} → (A → String) → String → Option A → Bool
in_workspace workspace_of workspace_id none = false
in_workspace workspace_of workspace_id (some row) = workspace_of row == workspace_id

abbrev pub has_run : {P : Type 0} → String → String → Database P → Bool
has_run workspace_id run_id s =
    in_workspace (λ (row : RunRow _). row.workspace_id) workspace_id (lookup run_id s.runs)

abbrev pub has_attempt : {P : Type 0} → String → String → Database P → Bool
has_attempt workspace_id attempt_id s =
    in_workspace (λ (row : AttemptRow). row.workspace_id) workspace_id
      (lookup attempt_id s.attempts)
