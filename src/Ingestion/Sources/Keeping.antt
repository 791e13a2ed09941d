-- ===== src/Ingestion/Sources/Keeping.antt =====
-- The methods of packages/data_profiling/src/vda_data/ingestion/sources.py but the completion of an
-- upload: none raises a `KeyError`, and all keep the links between the tables.
use grok_bot_data.Prelude.{
  String, refl, inl, inr, Bool, true, false, not, Option, none, some, Bool-cases, ok, err,
  string_eq, pair_eq, option_eq, nat_eq, ◌≡◌, ◌||◌, ◌==◌, ◌!=◌, if◌then◌else◌,
}
use grok_bot_data.Prelude.Dict.{lookup, contains}
use grok_bot_data.Ingestion.Sources.{
  dataset_fields_required, dataset_exists, artifact_not_found, actor_cannot_read,
  artifact_tombstoned, grant_of, is_tombstoned, Admission, ArtifactVersion, ObjectStore,
  SourceRegistry, UploadSession, create_dataset, grant,
}
use grok_bot_data.Ingestion.Sources.Uploads.{
  begin_upload, get_version, mark_version, open_session, tombstone,
}
use grok_bot_data.Ingestion.Sources.{
  dataset_not_found, not_dataset_owner, principal_required, upload_metadata_differs,
  unsupported_format, actor_cannot_write,
}
use grok_bot_data.Ingestion.Sources.Uploads.{same_upload, format_for_filename}
use grok_bot_data.Ingestion.Sources.Linked.{
  IsSound, raises_key_error, marked-IsLinked, IsLinked, SafeAt, raise_if-SafeAt, or_raise-SafeAt,
  lift-SafeAt, on_store-SafeAt,
}

module _ {T B : Type 0} (admission : Admission B) (store : ObjectStore T B) (Good : T → Type 0)
    (sound : IsSound store Good) where
  pub create_dataset-SafeAt :
      (dataset_id workspace_id owner_id : String) (s : SourceRegistry T)
      → IsLinked Good s
      → SafeAt Good (create_dataset dataset_id workspace_id owner_id) s
  unfolding create_dataset
  create_dataset-SafeAt dataset_id workspace_id owner_id s linked =
      raise_if-SafeAt Good (dataset_id == "" || workspace_id == "" || owner_id == "")
        dataset_fields_required _ s refl linked
        (raise_if-SafeAt Good (contains dataset_id s.datasets) dataset_exists _ s refl linked
          (tt, record { good = linked.good; completed = linked.completed; known = linked.known }))

  pub get_version-SafeAt :
      (artifact_id actor_id : String) (s : SourceRegistry T)
      → IsLinked Good s
      → SafeAt Good (get_version admission store artifact_id actor_id) s
  unfolding get_version
  get_version-SafeAt artifact_id actor_id s linked =
      or_raise-SafeAt Good (lookup artifact_id s.versions) artifact_not_found _ s refl linked
        (λ version hit.
          raise_if-SafeAt Good (not (grant_of version.dataset_id actor_id s).read) actor_cannot_read
            _ s refl linked
            (raise_if-SafeAt Good (is_tombstoned version.status) artifact_tombstoned _ s refl linked
              (on_store-SafeAt Good (store.get version.object_key (some version.object_version_id))
                _ s linked (sound.get_is_sound _ _)
                (λ ref t g.
                  (tt, record { good = g; completed = linked.completed; known = linked.known })))))

  pub grant-SafeAt :
      (dataset_id owner_id principal_id : String) (write : Bool) (s : SourceRegistry T)
      → IsLinked Good s
      → SafeAt Good (grant dataset_id owner_id principal_id write) s
  unfolding grant
  grant-SafeAt dataset_id owner_id principal_id write s linked =
      or_raise-SafeAt Good (lookup dataset_id s.datasets) dataset_not_found _ s refl linked
        (λ found hit.
          raise_if-SafeAt Good (found.owner_id != owner_id) not_dataset_owner _ s refl linked (
            raise_if-SafeAt Good (principal_id == "") principal_required _ s refl linked (
              tt,
              record { good = linked.good; completed = linked.completed; known = linked.known },
            )))

  open_session-SafeAt :
      (session : UploadSession) (o : Option UploadSession) (s : SourceRegistry T)
      → IsLinked Good s
      → SafeAt Good (open_session admission store session o) s
  unfolding open_session
  open_session-SafeAt session (some existing) s linked =
      raise_if-SafeAt Good (not (same_upload admission store existing session))
        upload_metadata_differs _ s refl linked (tt, linked)
  open_session-SafeAt session none s linked =
      (tt, record { good = linked.good; completed = linked.completed; known = linked.known })

  pub begin_upload-SafeAt :
      (dataset_id actor_id filename upload_id : String) (s : SourceRegistry T)
      → IsLinked Good s
      → SafeAt Good (begin_upload admission store dataset_id actor_id filename upload_id) s
  unfolding begin_upload
  begin_upload-SafeAt dataset_id actor_id filename upload_id s linked =
      or_raise-SafeAt Good (lookup dataset_id s.datasets) dataset_not_found _ s refl linked
        (λ found hit.
          raise_if-SafeAt Good (not (grant_of dataset_id actor_id s).write) actor_cannot_write _ s
            refl linked
            (lift-SafeAt Good (format_for_filename admission store filename) _ s
              (unsupported (admission.suffix_of filename)) linked
              (λ format. open_session-SafeAt _ (lookup upload_id s.uploads) s linked)))
    where
      unsupported :
          (suffix : String)
          → raises_key_error
              (if suffix == "csv" || suffix == "parquet" then ok suffix else err unsupported_format)
            ≡ false
      unsupported suffix = elim (Bool-cases (suffix == "csv" || suffix == "parquet")) [
        | inl good ↦ rw good refl
        | inr bad ↦ rw bad refl
      ]

  mark_version-SafeAt :
      (artifact_id : String) (version : ArtifactVersion) (done : Bool) (s : SourceRegistry T)
      → IsLinked Good s
      → SafeAt Good (mark_version admission store artifact_id version done) s
  unfolding mark_version
  mark_version-SafeAt artifact_id version true s linked = (tt, linked)
  mark_version-SafeAt artifact_id version false s linked =
      on_store-SafeAt Good (store.tombstone version.object_key version.object_version_id) _ s linked
        (sound.tombstone_is_sound _ _)
        (λ ref t g. (
          tt,
          marked-IsLinked Good (record s { store = t }) artifact_id _
              (record { good = g; completed = linked.completed; known = linked.known }),
        ))

  pub tombstone-SafeAt :
      (artifact_id actor_id : String) (s : SourceRegistry T)
      → IsLinked Good s
      → SafeAt Good (tombstone admission store artifact_id actor_id) s
  unfolding tombstone
  tombstone-SafeAt artifact_id actor_id s linked =
      or_raise-SafeAt Good (lookup artifact_id s.versions) artifact_not_found _ s refl linked
        (λ version hit.
          or_raise-SafeAt Good (lookup version.dataset_id s.datasets) dataset_not_found _ s refl
            linked
            (λ found there.
              raise_if-SafeAt Good (found.owner_id != actor_id) not_dataset_owner _ s refl linked
                (mark_version-SafeAt artifact_id version (is_tombstoned version.status) s linked)))
