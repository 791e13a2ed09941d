-- ===== src/Durable/Operations.antt =====
-- packages/platform/src/vda_platform/jobs/repository.py: tool executions and effects by their keys.
pub mod Effects
pub mod Settling
pub mod Tools
pub mod Recordings
pub mod Retrying
use grok_bot_data.Prelude.{
  String, Bool, true, false, not, Option, none, some, [], pure, gets, or_raise, raise_if, modify,
  any, string_eq, pair_eq, option_eq, nat_eq, ◌&&◌, ◌||◌, ◌∷◌, ◌==◌, ◌!=◌, ◌>>=◌, ◌>>◌,
  if◌then◌else◌,
}
use grok_bot_data.Prelude.Dict.{Dict, lookup, insert, contains, values}
use grok_bot_data.Durable.Tables.{
  EffectRow, EffectState, Host, RepositoryCommand, ToolRow, ToolState, database_error,
  effect_key_reused, effect_not_visible, has_attempt, has_run, invalid_effect_class,
  invalid_tool_state, payload_not_json_safe, reconciliation_required, required, tool_key_reused,
  transaction,
}

-- `ToolExecutionRecord`
pub record ToolExecutionRecord (P : Type 0) : Type 0 where
  pub execution_id : String
  pub operation_key : String
  pub state : ToolState
  pub output : Option P

-- `EffectRecord`
pub record EffectRecord : Type 0 where
  pub effect_id : String
  pub operation_key : String
  pub state : EffectState
  pub result_ref : Option String

abbrev pub is_effect_class : String → Bool
is_effect_class name = name == "read" || name == "compute" || name == "write" || name == "external"

-- `state not in {"started", "succeeded", "failed", "unknown"}`
abbrev pub tool_state : String → Option ToolState
tool_state name =
    if name == "started"
    then some ToolState.started
    else if name == "succeeded"
    then some ToolState.succeeded
    else if name == "failed"
    then some ToolState.failed
    else if name == "unknown"
    then some ToolState.unknown
    else none

abbrev pub effect_record : EffectRow → EffectRecord
effect_record row = record {
  effect_id = row.id;
  operation_key = row.operation_key;
  state = row.state;
  result_ref = row.result_ref;
}

abbrev pub is_reserved : EffectState → Bool
is_reserved EffectState.reserved = true
is_reserved _ = false

abbrev pub is_unknown : EffectState → Bool
is_unknown EffectState.unknown = true
is_unknown _ = false

abbrev pub is_reconciled : EffectState → Bool
is_reconciled EffectState.reconciled = true
is_reconciled _ = false

abbrev pub update_found :
    String × String
    → (EffectRow → Bool)
    → (EffectRow → EffectRow)
    → Option EffectRow
    → Dict (String × String) EffectRow
    → Dict (String × String) EffectRow
update_found key test change none effects = effects
update_found key test change (some row) effects =
    if test row then insert key (change row) effects else effects

module _ {P : Type 0} where
  -- `INSERT INTO effects ... ON CONFLICT (workspace_id, operation_key) DO NOTHING`
  unfoldable pub write_effect : String → EffectRow → RepositoryCommand P Unit
  write_effect workspace_id row = do
    known ← gets (λ s. contains (workspace_id, row.operation_key) s.effects)
    admitted ← gets (λ s.
        not (any (λ (other : EffectRow). other.id == row.id) (values s.effects))
        && has_run workspace_id row.run_id s
        && has_attempt workspace_id row.attempt_id s)
    raise_if (not known && not admitted) database_error
    modify (λ s. record s {
      effects = if known then s.effects else insert (workspace_id, row.operation_key) row s.effects;
    })

  -- `reserve_effect`; `effect_id` is the given id or the id that it draws
  unfoldable pub reserve_effect :
      String → String → String → String → String → RepositoryCommand P EffectRecord
  unfolding write_effect
  reserve_effect effect_id workspace_id run_id attempt_id operation_key = do
    required (workspace_id ∷ run_id ∷ attempt_id ∷ operation_key ∷ [])
    transaction (do
      write_effect workspace_id (record {
        id = effect_id;
        run_id = run_id;
        attempt_id = attempt_id;
        operation_key = operation_key;
        state = EffectState.reserved;
        result_ref = none;
      })
      found ← gets (λ s. lookup (workspace_id, operation_key) s.effects)
      row ← or_raise found database_error
      raise_if (row.run_id != run_id || row.attempt_id != attempt_id) effect_key_reused
      pure (effect_record row))

  -- `UPDATE effects ... WHERE ... AND state = ... RETURNING`, and the `SELECT` if it returns no row:
  -- the row of the key afterwards
  unfoldable pub update_effect :
      String × String → (EffectRow → Bool) → (EffectRow → EffectRow) → RepositoryCommand P EffectRow
  update_effect key test change = do
    modify
        (λ s. record s { effects = update_found key test change (lookup key s.effects) s.effects })
    found ← gets (λ s. lookup key s.effects)
    or_raise found effect_not_visible

  -- `mark_effect_unknown`
  unfoldable pub mark_effect_unknown : String → String → RepositoryCommand P EffectRecord
  unfolding update_effect
  mark_effect_unknown workspace_id operation_key = do
    required (workspace_id ∷ operation_key ∷ [])
    row ← transaction (
        update_effect (workspace_id, operation_key) (λ row. is_reserved row.state)
          (λ row. record row { state = EffectState.unknown }))
    pure (effect_record row)

  -- `reconcile_effect`
  unfoldable pub reconcile_effect : String → String → String → RepositoryCommand P EffectRecord
  unfolding update_effect
  reconcile_effect workspace_id operation_key result_ref = do
    required (workspace_id ∷ operation_key ∷ result_ref ∷ [])
    transaction (do
      row ←
          update_effect (workspace_id, operation_key) (λ row. is_unknown row.state)
            (λ row. record row { state = EffectState.reconciled; result_ref = some result_ref })
      raise_if (not (is_reconciled row.state) || row.result_ref != some result_ref)
          reconciliation_required
      pure (effect_record row))

module _ {P : Type 0} (host : Host P) where
  abbrev pub output_safe : Option P → Bool
  output_safe none = true
  output_safe (some output) = host.json_safe output

  -- `INSERT INTO tool_executions ... ON CONFLICT (workspace_id, operation_key) DO NOTHING`
  unfoldable pub write_tool : String → ToolRow P → RepositoryCommand P Unit
  write_tool workspace_id row = do
    known ← gets (λ s. contains (workspace_id, row.operation_key) s.tool_executions)
    admitted ← gets (λ s.
        not (any (λ (other : ToolRow P). other.id == row.id) (values s.tool_executions))
        && has_run workspace_id row.run_id s
        && has_attempt workspace_id row.attempt_id s)
    raise_if (not known && not admitted) database_error
    modify (λ s. record s {
      tool_executions =
          if known
          then s.tool_executions
          else insert (workspace_id, row.operation_key) row s.tool_executions;
    })

  -- another input than that of the stored row
  abbrev pub input_differs : ToolRow P → ToolRow P → Bool
  input_differs row given =
      row.run_id != given.run_id
      || row.attempt_id != given.attempt_id
      || row.tool_id != given.tool_id
      || row.tool_version != given.tool_version
      || row.effect_class != given.effect_class
      || not (host.payload_eq row.input_json given.input_json)

  -- the transaction of `record_tool_execution`
  unfoldable pub keep_tool : String → ToolRow P → RepositoryCommand P (ToolExecutionRecord P)
  unfolding write_tool
  keep_tool workspace_id given = do
    raise_if (not (host.json_safe given.input_json)) payload_not_json_safe
    raise_if (not (output_safe given.output_json)) payload_not_json_safe
    write_tool workspace_id given
    found ← gets (λ s. lookup (workspace_id, given.operation_key) s.tool_executions)
    row ← or_raise found database_error
    raise_if (input_differs row given) tool_key_reused
    pure (record {
      execution_id = row.id;
      operation_key = row.operation_key;
      state = row.state;
      output = row.output_json;
    })

  -- `record_tool_execution`; `execution_id` is the id that it draws
  unfoldable pub record_tool_execution :
      String
      → String
      → String
      → String
      → String
      → String
      → String
      → String
      → P
      → String
      → Option P
      → RepositoryCommand P (ToolExecutionRecord P)
  unfolding keep_tool
  record_tool_execution execution_id workspace_id run_id attempt_id operation_key tool_id
        tool_version effect_class input_payload state output =
      do
        required (workspace_id ∷ run_id ∷ attempt_id ∷ operation_key ∷ tool_id ∷ tool_version ∷ [])
        raise_if (not (is_effect_class effect_class)) invalid_effect_class
        parsed ← or_raise (tool_state state) invalid_tool_state
        transaction (
            keep_tool workspace_id (record {
              id = execution_id;
              run_id = run_id;
              attempt_id = attempt_id;
              operation_key = operation_key;
              tool_id = tool_id;
              tool_version = tool_version;
              effect_class = effect_class;
              state = parsed;
              input_json = input_payload;
              output_json = output;
            }))
