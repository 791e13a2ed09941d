-- ===== src/Durable/Runs/Keeping.antt =====
-- The commands of packages/platform/src/vda_platform/jobs/repository.py that write no run: the
-- insertion of events, attempts and tasks, tool executions and effects.
use grok_bot_data.Prelude.{
  ℕ, String, refl, inl, inr, not, Option, none, some, [], arith, Bool-cases, or_raise, any,
  string_eq, pair_eq, option_eq, nat_eq, ◌≡◌, ◌∷◌, ◌==◌, ◌>>=◌,
}
use grok_bot_data.Observatory.Journal.{MetadataFields}
use grok_bot_data.Durable.Operations.{
  is_effect_class, tool_state, keep_tool, mark_effect_unknown, reconcile_effect,
  record_tool_execution, reserve_effect, update_effect, write_effect, write_tool,
}
use grok_bot_data.Durable.Tables.{
  Database, ToolRow, invalid_tool_state, ToolState, transaction, AttemptRow, EventRow, Host,
}
use grok_bot_data.Durable.Events.{write_event, event_from_row, insert_run_event, append_run_event}
use grok_bot_data.Durable.Runs.{create_task, reuse_or_insert, insert_task}
use grok_bot_data.Durable.Runs.Claims.{insert_attempt}
use grok_bot_data.Durable.Runs.Updates.{KeepsRuns, raise_if-KeepsRuns, transaction-KeepsRuns}

module _ {P : Type 0} (host : Host P) where
  write_event-KeepsRuns :
      (workspace_id : String) (row : EventRow) → KeepsRuns (write_event host workspace_id row)
  unfolding write_event
  write_event-KeepsRuns workspace_id row s = raise_if-KeepsRuns _ _ _ (λ _. refl) s

  pub insert_run_event-KeepsRuns :
      (event_id workspace_id run_id event_key event_type : String) (metadata : MetadataFields)
      (attempt_id : Option String) (now : ℕ)
      → KeepsRuns (
          insert_run_event host event_id workspace_id run_id event_key event_type metadata
            attempt_id now)
  unfolding insert_run_event event_from_row write_event
  insert_run_event-KeepsRuns event_id workspace_id run_id event_key event_type metadata attempt_id
        now s =
      ground arith

  pub append_run_event-KeepsRuns :
      (event_id workspace_id run_id event_key event_type : String) (metadata : MetadataFields)
      (attempt_id : Option String) (now : ℕ)
      → KeepsRuns (
          append_run_event host event_id workspace_id run_id event_key event_type metadata
            attempt_id now)
  unfolding append_run_event
  append_run_event-KeepsRuns event_id workspace_id run_id event_key event_type metadata attempt_id
        now s =
      ground (
        arith,
        insert_run_event-KeepsRuns event_id workspace_id run_id event_key event_type metadata
            attempt_id now s,
      )

  pub create_task-KeepsRuns :
      (workspace_id task_id kind : String) (payload : P) (idempotency_key : String)
      (root_task_id parent_task_id : Option String) (now : ℕ)
      → KeepsRuns (
          create_task host workspace_id task_id kind payload idempotency_key root_task_id
            parent_task_id now)
  unfolding create_task reuse_or_insert insert_task
  create_task-KeepsRuns workspace_id task_id kind payload idempotency_key root_task_id
        parent_task_id now s =
      ground arith

  keep_tool-KeepsRuns :
      (workspace_id : String) (given : ToolRow P) → KeepsRuns (keep_tool host workspace_id given)
  unfolding keep_tool write_tool
  keep_tool-KeepsRuns workspace_id given s = ground arith

  parsed-KeepsRuns :
      (workspace_id : String) (o : Option ToolState) (f : ToolState → ToolRow P)
      → KeepsRuns (
          or_raise o invalid_tool_state >>= λ parsed.
          transaction (keep_tool host workspace_id (f parsed)))
  parsed-KeepsRuns workspace_id none f s = refl
  parsed-KeepsRuns workspace_id (some parsed) f s =
      transaction-KeepsRuns (keep_tool host workspace_id (f parsed))
        (keep_tool-KeepsRuns workspace_id (f parsed)) s

  pub record_tool_execution-KeepsRuns :
      (execution_id workspace_id run_id attempt_id operation_key tool_id tool_version
        effect_class : String)
      (input_payload : P) (state : String) (output : Option P)
      → KeepsRuns (
          record_tool_execution host execution_id workspace_id run_id attempt_id operation_key
            tool_id tool_version effect_class input_payload state output)
  unfolding record_tool_execution
  record_tool_execution-KeepsRuns execution_id workspace_id run_id attempt_id operation_key tool_id
        tool_version effect_class input_payload state output s =
      elim (Bool-cases (
        any (λ name. name == "")
          (workspace_id ∷ run_id ∷ attempt_id ∷ operation_key ∷ tool_id ∷ tool_version ∷ []))) [
            | inl missing ↦ rw missing refl
            | inr given ↦ elim (Bool-cases (not (is_effect_class effect_class))) [
              | inl other ↦ rw (given, other) refl
              | inr known ↦ rw (given, known) (parsed-KeepsRuns workspace_id (tool_state state) _ s)
            ]
          ]

module _ {P : Type 0} where
  pub insert_attempt-KeepsRuns :
      (attempt : AttemptRow) (s : Database P) → (insert_attempt attempt s).1.runs ≡ s.runs
  unfolding insert_attempt
  insert_attempt-KeepsRuns attempt s = ground arith

  pub reserve_effect-KeepsRuns :
      (effect_id workspace_id run_id attempt_id operation_key : String) (s : Database P)
      → (reserve_effect effect_id workspace_id run_id attempt_id operation_key s).1.runs ≡ s.runs
  unfolding reserve_effect write_effect
  reserve_effect-KeepsRuns effect_id workspace_id run_id attempt_id operation_key s = ground arith

  pub mark_effect_unknown-KeepsRuns :
      (workspace_id operation_key : String) (s : Database P)
      → (mark_effect_unknown workspace_id operation_key s).1.runs ≡ s.runs
  unfolding mark_effect_unknown update_effect
  mark_effect_unknown-KeepsRuns workspace_id operation_key s = ground arith

  pub reconcile_effect-KeepsRuns :
      (workspace_id operation_key result_ref : String) (s : Database P)
      → (reconcile_effect workspace_id operation_key result_ref s).1.runs ≡ s.runs
  unfolding reconcile_effect update_effect
  reconcile_effect-KeepsRuns workspace_id operation_key result_ref s = ground arith
