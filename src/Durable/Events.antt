-- ===== src/Durable/Events.antt =====
-- packages/platform/src/vda_platform/jobs/repository.py: `_insert_run_event` and the screen of an
-- event's metadata.
use grok_bot_data.Prelude.{
  ℕ, String, Bool, true, not, Option, none, some, [], ltb, Result, ok, err, pure, gets, or_raise,
  lift, raise_if, modify, any, ◌&&◌, ◌||◌, ◌∷◌, ◌==◌, ◌!=◌, ◌>>=◌, ◌>>◌, if◌then◌else◌, string_eq,
  pair_eq, nat_eq, option_eq,
}
use grok_bot_data.Prelude.Dict.{lookup, insert, contains, values}
use grok_bot_data.Observatory.Journal.{
  MetadataFields, ObservatoryViolation, forbidden_metadata, safe_fields,
}
use grok_bot_data.Durable.Tables.{
  Database, EventRow, Host, RepositoryCommand, RepositoryError, event_content_forbidden,
  event_not_json_safe, event_too_large, event_key_reused, database_error, has_run, has_attempt,
  required, transaction,
}

-- `RunEventRecord`
pub record RunEventRecord : Type 0 where
  pub event_id : String
  pub event_key : String
  pub event_type : String
  pub metadata : MetadataFields

abbrev pub screened :
    Result ObservatoryViolation MetadataFields → Result RepositoryError MetadataFields
screened (ok fields) = ok fields
screened (err forbidden_metadata) = err event_content_forbidden
screened (err _) = err event_not_json_safe

module _ {P : Type 0} (host : Host P) where
  -- `_safe_event_metadata`: the screen of the journal, with messages of its own
  unfoldable pub safe_event_metadata : MetadataFields → Result RepositoryError MetadataFields
  safe_event_metadata fields =
      if host.is_forbidden "metadata"
      then err event_content_forbidden
      else screened (safe_fields host.is_forbidden fields)

  abbrev pub attempt_admitted : String → Option String → Database P → Bool
  attempt_admitted workspace_id none s = true
  attempt_admitted workspace_id (some attempt_id) s = has_attempt workspace_id attempt_id s

  -- the constraints of `run_events` but for the key, which the statement skips on conflict
  abbrev pub event_admitted : String → EventRow → Database P → Bool
  event_admitted workspace_id row s =
      not (any (λ (other : EventRow). other.id == row.id) (values s.run_events))
      && has_run workspace_id row.run_id s
      && attempt_admitted workspace_id row.attempt_id s

  -- `INSERT INTO run_events ... ON CONFLICT (workspace_id, event_key) DO NOTHING`
  unfoldable pub write_event : String → EventRow → RepositoryCommand P Unit
  write_event workspace_id row = do
    known ← gets (λ s. contains (workspace_id, row.event_key) s.run_events)
    admitted ← gets (event_admitted workspace_id row)
    raise_if (not known && not admitted) database_error
    modify (λ s. record s {
      run_events =
          if known then s.run_events else insert (workspace_id, row.event_key) row s.run_events;
    })

  -- `_event_from_row`
  unfoldable pub event_from_row : EventRow → MetadataFields → RepositoryCommand P RunEventRecord
  event_from_row row expected = do
    raise_if (not (host.metadata_eq row.metadata_json expected)) event_key_reused
    pure (record {
      event_id = row.id;
      event_key = row.event_key;
      event_type = row.event_type;
      metadata = row.metadata_json;
    })

  -- `_insert_run_event`; `event_id` is the id that it draws
  unfoldable pub insert_run_event :
      String
      → String
      → String
      → String
      → String
      → MetadataFields
      → Option String
      → ℕ
      → RepositoryCommand P RunEventRecord
  unfolding safe_event_metadata write_event event_from_row
  insert_run_event event_id workspace_id run_id event_key event_type metadata attempt_id now = do
    safe ← lift (safe_event_metadata metadata)
    raise_if (ltb 16384 (host.json_bytes safe)) event_too_large
    write_event workspace_id (record {
      id = event_id;
      run_id = run_id;
      attempt_id = attempt_id;
      event_key = event_key;
      event_type = event_type;
      metadata_json = safe;
      created_at = now;
    })
    found ← gets (λ s. lookup (workspace_id, event_key) s.run_events)
    row ← or_raise found database_error
    raise_if (row.event_type != event_type || row.run_id != run_id || row.attempt_id != attempt_id)
        event_key_reused
    event_from_row row safe

  -- `PostgresRuntimeRepository.append_run_event`
  unfoldable pub append_run_event :
      String
      → String
      → String
      → String
      → String
      → MetadataFields
      → Option String
      → ℕ
      → RepositoryCommand P RunEventRecord
  unfolding insert_run_event
  append_run_event event_id workspace_id run_id event_key event_type metadata attempt_id now = do
    required (workspace_id ∷ run_id ∷ event_key ∷ event_type ∷ [])
    transaction
        (insert_run_event event_id workspace_id run_id event_key event_type metadata attempt_id now)
