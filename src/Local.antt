-- ===== src/Local.antt =====
-- services/api/src/vda_api/application.py: `LocalApplication`, the datasets of the local demo over
-- the sources and the object store. Parameters: the source id of a dataset (a hash), and the profile
-- runner, whose result has the summaries of its columns. Conversations and bot turns are left out.
pub mod Datasets
pub mod Conversations
use grok_bot_data.Prelude.{
  ℕ, String, Option, none, some, List, [], Result, ok, err, Exec, pure, gets, or_raise, lift,
  raise_if, modify, string_eq, pair_eq, option_eq, nat_eq, ◌||◌, ◌==◌, ◌!=◌, ◌>>=◌, ◌>>◌,
}
use grok_bot_data.Prelude.Dict.{Dict, lookup, insert}
use Prim.Native.String.{◌++◌ as concat}
use grok_bot_data.Ingestion.Objects.{InMemoryObjectStore, ObjectStoreError}
use grok_bot_data.Ingestion.Port.{in_memory_port, local_sources}
use grok_bot_data.Ingestion.Sources.{
  key_missing, store_error, Admission, ArtifactVersion, SourceCommand, SourceError, SourceRegistry,
  create_dataset as create_source, store_error,
}
use grok_bot_data.Ingestion.Sources.Uploads.{begin_upload, complete_upload, get_version}
use grok_bot_data.Ingestion.Objects.{get as get_object}

-- `LocalApiError` with one constructor for each message, `PermissionError`, and the errors of the parts
pub data LocalApiError : Type 0 where
  dataset_fields_required dataset_not_visible dataset_not_found : LocalApiError
  upload_id_required artifact_unavailable source_unavailable : LocalApiError
  profile_over_limits profile_compute_failed integrity_failed : LocalApiError
  source_error : SourceError → LocalApiError

pub record LocalDataset : Type 0 where
  pub dataset_id : String
  pub workspace_id : String
  pub owner_id : String
  pub source_dataset_id : String

-- `ComputeLimitError` and `ComputeError`
pub data ComputeFailure : Type 0 where
  limit_exceeded compute_failed : ComputeFailure

-- `ProfileResult`, with the summaries of its columns
pub record ProfileResult (C : Type 0) : Type 0 where
  pub source_sha256 : String
  pub row_count : ℕ
  pub column_count : ℕ
  pub method_version : String
  pub columns : List C

pub record LocalProfile (C : Type 0) : Type 0 where
  pub profile_id : String
  pub dataset_id : String
  pub workspace_id : String
  pub artifact_id : String
  pub source_sha256 : String
  pub source_version : String
  pub row_count : ℕ
  pub column_count : ℕ
  pub method_version : String
  pub columns : List C

pub record LocalApplication (B C : Type 0) : Type 0 where
  pub sources : SourceRegistry (InMemoryObjectStore B)
  pub datasets : Dict (String × String) LocalDataset
  pub profiles : Dict String (LocalProfile C)

-- What the application is made with.
pub record Setup (B C : Type 0) : Type 0 where
  pub admission : Admission B
  pub source_id : String → String → String
  pub profile : B → String → Result ComputeFailure (ProfileResult C)

abbrev pub LocalCommand : Type 0 → Type 0 → Type 0 → Type 0
LocalCommand B C A = Exec (LocalApplication B C) LocalApiError A

abbrev pub profile_failure : ComputeFailure → LocalApiError
profile_failure limit_exceeded = profile_over_limits
profile_failure compute_failed = profile_compute_failed

abbrev pub profile_or_error :
    {C : Type 0} → Result ComputeFailure (ProfileResult C) → Result LocalApiError (ProfileResult C)
profile_or_error (ok result) = ok result
profile_or_error (err failure) = err (profile_failure failure)

-- `except SourceRegistryError` in `profile_dataset`: what else is raised is passed on
abbrev pub artifact_error : SourceError → LocalApiError
artifact_error (store_error e) = source_error (store_error e)
artifact_error key_missing = source_error key_missing
artifact_error _ = artifact_unavailable

module _ {B C : Type 0} where
  unfoldable pub new : LocalApplication B C
  unfolding local_sources
  new = record { sources = local_sources; datasets = []; profiles = [] }

  abbrev pub from_sources :
      {A : Type 0}
      → (SourceError → LocalApiError)
      → LocalApplication B C
      → Result SourceError A × SourceRegistry (InMemoryObjectStore B)
      → Result LocalApiError A × LocalApplication B C
  from_sources wrap s (ok a, sources) = (ok a, record s { sources = sources })
  from_sources wrap s (err e, sources) = (err (wrap e), record s { sources = sources })

  -- a call on `self._sources`
  abbrev pub on_sources :
      {A : Type 0}
      → (SourceError → LocalApiError)
      → SourceCommand (InMemoryObjectStore B) A
      → LocalCommand B C A
  on_sources wrap command s = from_sources wrap s (command s.sources)

  -- `_dataset`
  unfoldable pub dataset : String → String → String → LocalCommand B C LocalDataset
  dataset workspace_id dataset_id actor_id = do
    found ← gets (λ s. lookup (workspace_id, dataset_id) s.datasets)
    known ← or_raise found dataset_not_found
    raise_if (known.owner_id != actor_id) dataset_not_visible
    pure known

  abbrev pub store_dataset : LocalDataset → LocalCommand B C LocalDataset
  store_dataset created = do
    modify (λ s. record s {
      datasets = insert (created.workspace_id, created.dataset_id) created s.datasets;
    })
    pure created

module _ {B C : Type 0} (setup : Setup B C) where
  unfoldable pub reuse_or_create :
      String → String → String → Option LocalDataset → LocalCommand B C LocalDataset
  unfolding create_source
  reuse_or_create workspace_id dataset_id actor_id (some existing) = do
    raise_if (existing.owner_id != actor_id) dataset_not_visible
    pure existing
  reuse_or_create workspace_id dataset_id actor_id none = do
    source ←
        on_sources source_error
          (create_source (setup.source_id workspace_id dataset_id) workspace_id actor_id)
    store_dataset (record {
      dataset_id = dataset_id;
      workspace_id = workspace_id;
      owner_id = actor_id;
      source_dataset_id = setup.source_id workspace_id dataset_id;
    })

  -- `create_dataset`
  unfoldable pub create_dataset : String → String → String → LocalCommand B C LocalDataset
  unfolding reuse_or_create
  create_dataset workspace_id dataset_id actor_id = do
    raise_if (workspace_id == "" || dataset_id == "" || actor_id == "") dataset_fields_required
    existing ← gets (λ s. lookup (workspace_id, dataset_id) s.datasets)
    reuse_or_create workspace_id dataset_id actor_id existing

  -- `upload_dataset`
  unfoldable pub upload_dataset :
      String
      → String
      → String
      → String
      → String
      → B
      → Option String
      → LocalCommand B C ArtifactVersion
  unfolding dataset begin_upload complete_upload
  upload_dataset workspace_id dataset_id actor_id upload_id filename payload expected_sha256 =
      let port = in_memory_port setup.admission.hashing in
      do
        known ← dataset workspace_id dataset_id actor_id
        raise_if (upload_id == "") upload_id_required
        session ← on_sources source_error (
            begin_upload setup.admission port known.source_dataset_id actor_id filename
              (concat known.source_dataset_id (concat ":" upload_id)))
        on_sources source_error (
            complete_upload setup.admission port session.upload_id actor_id payload expected_sha256
              (some (setup.admission.hashing.size payload)))

  -- `_local_profile`, whose evidence is the digest, the version and the method alone
  abbrev pub local_profile : LocalDataset → ArtifactVersion → ProfileResult C → LocalProfile C
  local_profile known artifact result = record {
    profile_id = concat "profile:" (concat artifact.artifact_id (concat ":" result.method_version));
    dataset_id = known.dataset_id;
    workspace_id = known.workspace_id;
    artifact_id = artifact.artifact_id;
    source_sha256 = artifact.source_sha256;
    source_version = artifact.object_version_id;
    row_count = result.row_count;
    column_count = result.column_count;
    method_version = result.method_version;
    columns = result.columns;
  }

  abbrev pub payload_of : Result ObjectStoreError B × InMemoryObjectStore B → Result LocalApiError B
  payload_of (ok payload, s) = ok payload
  payload_of (err e, s) = err source_unavailable

  -- `profile_dataset` behind the look into `self._profiles`
  unfoldable pub cached_or_profile :
      LocalDataset → ArtifactVersion → Option (LocalProfile C) → LocalCommand B C (LocalProfile C)
  unfolding get_object
  cached_or_profile known artifact (some cached) = pure cached
  cached_or_profile known artifact none = do
    payload ← λ s. (
      payload_of (
          (get_object artifact.object_key (some artifact.object_version_id) >>= λ source.
          pure source.payload)
            s.sources.store),
      s,
    )
    result ← lift (profile_or_error (setup.profile payload artifact.format))
    raise_if (result.source_sha256 != artifact.source_sha256) integrity_failed
    modify (λ s. record s {
      profiles = insert artifact.artifact_id (local_profile known artifact result) s.profiles;
    })
    pure (local_profile known artifact result)

  -- `profile_dataset`
  unfoldable pub profile_dataset :
      String → String → String → String → LocalCommand B C (LocalProfile C)
  unfolding dataset get_version cached_or_profile
  profile_dataset workspace_id dataset_id actor_id artifact_id = do
    known ← dataset workspace_id dataset_id actor_id
    artifact ←
        on_sources artifact_error (
          get_version setup.admission (in_memory_port setup.admission.hashing) artifact_id actor_id)
    raise_if (artifact.dataset_id != known.source_dataset_id) artifact_unavailable
    cached ← gets (λ s. lookup artifact.artifact_id s.profiles)
    cached_or_profile known artifact cached
