-- ===== src/Ingestion/Sources/Uploads.antt =====
-- packages/data_profiling/src/vda_data/ingestion/sources.py: uploads, and the versions that they make.
use grok_bot_data.Prelude.{
  ℕ, String, Bool, true, false, not, Option, none, some, ltb, Result, ok, err, pure, gets, or_raise,
  lift, raise_if, modify, string_eq, pair_eq, option_eq, nat_eq, ◌&&◌, ◌||◌, ◌==◌, ◌!=◌, ◌>>=◌,
  ◌>>◌, if◌then◌else◌,
}
use grok_bot_data.Prelude.Dict.{lookup, insert}
use Prim.Native.String.{◌++◌ as concat}
use grok_bot_data.Ingestion.Sources.{
  SourceError, ObjectStore, UploadSession, Parsed, ArtifactVersion, SourceCommand, Admission,
  is_tombstoned, differs, admitted_parse, on_store, dataset, upload, version_at, grant_of,
  not_dataset_owner, actor_cannot_write, upload_metadata_differs, cannot_complete, size_mismatch,
  digest_mismatch, payload_too_large, completed_differently, unsupported_format, actor_cannot_read,
  artifact_tombstoned, key_missing, ready, tombstoned,
}

module _ {T B : Type 0} (admission : Admission B) (store : ObjectStore T B) where
  -- `_format_for_filename`
  abbrev pub format_for_filename : String → Result SourceError String
  format_for_filename filename =
      let suffix = admission.suffix_of filename in
      if suffix == "csv" || suffix == "parquet" then ok suffix else err unsupported_format

  -- `_parse`
  unfoldable pub parse : String → B → Result SourceError Parsed
  parse format payload =
      if format == "csv"
      then admitted_parse (admission.parse_csv payload)
      else admitted_parse (admission.parse_parquet payload)

  abbrev pub same_upload : UploadSession → UploadSession → Bool
  same_upload existing session =
      existing.dataset_id == session.dataset_id
      && existing.actor_id == session.actor_id
      && existing.filename == session.filename
      && existing.format == session.format

  unfoldable pub open_session : UploadSession → Option UploadSession → SourceCommand T UploadSession
  open_session session (some existing) = do
    raise_if (not (same_upload existing session)) upload_metadata_differs
    pure existing
  open_session session none = do
    modify (λ s. record s { uploads = insert session.upload_id session s.uploads })
    pure session

  -- `begin_upload`
  unfoldable pub begin_upload : String → String → String → String → SourceCommand T UploadSession
  unfolding open_session
  begin_upload dataset_id actor_id filename upload_id = do
    found ← dataset dataset_id
    allowed ← gets (λ s. (grant_of dataset_id actor_id s).write)
    raise_if (not allowed) actor_cannot_write
    format ← lift (format_for_filename filename)
    existing ← gets (λ s. lookup upload_id s.uploads)
    open_session
        (record {
          upload_id = upload_id;
          dataset_id = found.dataset_id;
          workspace_id = found.workspace_id;
          actor_id = actor_id;
          filename = filename;
          format = format;
          max_bytes = admission.max_file_bytes;
        })
        existing

  -- `self._versions[...]`
  abbrev pub known_version : String → SourceCommand T ArtifactVersion
  known_version artifact_id =
      gets (λ s. lookup artifact_id s.versions) >>= λ o. or_raise o key_missing

  -- the rest of `complete_upload` for a payload that the dataset has, or has not, as a version
  unfoldable pub keep_version :
      String → UploadSession → B → Parsed → Option String → SourceCommand T ArtifactVersion
  keep_version upload_id session payload parsed (some existing_id) = do
    modify (λ s. record s { completed_uploads = insert upload_id existing_id s.completed_uploads })
    known_version existing_id
  keep_version upload_id session payload parsed none =
      let digest = admission.hashing.digest_of payload in
      let object_key = concat "workspaces/" (
        concat session.workspace_id (
          concat "/datasets/" (
            concat session.dataset_id
              (concat "/versions/" (concat digest (concat "." session.format)))))) in
      let artifact_id = concat session.dataset_id (concat ":" (admission.hashing.short digest)) in
      do
        object_ref ← on_store (store.put_immutable object_key payload)
        let version : ArtifactVersion = record {
          artifact_id = artifact_id;
          dataset_id = session.dataset_id;
          workspace_id = session.workspace_id;
          source_sha256 = digest;
          object_key = object_ref.key;
          object_version_id = object_ref.version_id;
          size_bytes = admission.hashing.size payload;
          format = session.format;
          parsed = parsed;
          status = ready;
        }
        modify (λ s. record s {
          versions = insert artifact_id version s.versions;
          by_dataset_hash = insert (session.dataset_id, digest) artifact_id s.by_dataset_hash;
          completed_uploads = insert upload_id artifact_id s.completed_uploads;
        })
        pure version

  -- the rest of `complete_upload` behind its checks, for an upload that is completed or not
  unfoldable pub complete_checked :
      String → UploadSession → B → Option String → SourceCommand T ArtifactVersion
  unfolding keep_version parse
  complete_checked upload_id session payload (some completed_id) = do
    previous ← known_version completed_id
    raise_if (previous.source_sha256 != admission.hashing.digest_of payload) completed_differently
    pure previous
  complete_checked upload_id session payload none = do
    parsed ← lift (parse session.format payload)
    existing_id ←
        gets
          (λ s. lookup (session.dataset_id, admission.hashing.digest_of payload) s.by_dataset_hash)
    keep_version upload_id session payload parsed existing_id

  -- `complete_upload`
  unfoldable pub complete_upload :
      String → String → B → Option String → Option ℕ → SourceCommand T ArtifactVersion
  unfolding complete_checked
  complete_upload upload_id actor_id payload expected_sha256 expected_size = do
    session ← upload upload_id
    allowed ← gets (λ s. (grant_of session.dataset_id actor_id s).write)
    raise_if (session.actor_id != actor_id || not allowed) cannot_complete
    raise_if (differs expected_size (admission.hashing.size payload)) size_mismatch
    raise_if (differs expected_sha256 (admission.hashing.digest_of payload)) digest_mismatch
    raise_if (ltb session.max_bytes (admission.hashing.size payload)) payload_too_large
    completed_id ← gets (λ s. lookup upload_id s.completed_uploads)
    complete_checked upload_id session payload completed_id

  -- `get_version`
  unfoldable pub get_version : String → String → SourceCommand T ArtifactVersion
  get_version artifact_id actor_id = do
    version ← version_at artifact_id
    allowed ← gets (λ s. (grant_of version.dataset_id actor_id s).read)
    raise_if (not allowed) actor_cannot_read
    raise_if (is_tombstoned version.status) artifact_tombstoned
    object_ref ← on_store (store.get version.object_key (some version.object_version_id))
    pure version

  unfoldable pub mark_version : String → ArtifactVersion → Bool → SourceCommand T ArtifactVersion
  mark_version artifact_id version true = pure version
  mark_version artifact_id version false = do
    object_ref ← on_store (store.tombstone version.object_key version.object_version_id)
    modify (λ s. record s {
      versions = insert artifact_id (record version { status = tombstoned }) s.versions;
    })
    pure (record version { status = tombstoned })

  -- `tombstone`
  unfoldable pub tombstone : String → String → SourceCommand T ArtifactVersion
  unfolding mark_version
  tombstone artifact_id actor_id = do
    version ← version_at artifact_id
    found ← dataset version.dataset_id
    raise_if (found.owner_id != actor_id) not_dataset_owner
    mark_version artifact_id version (is_tombstoned version.status)
