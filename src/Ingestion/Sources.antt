-- ===== src/Ingestion/Sources.antt =====
-- packages/data_profiling/src/vda_data/ingestion/sources.py: `SourceRegistry` over an object store.
-- Parameters: the parsers of csv_parser.py and parquet_parser.py with the policy of the registry, the
-- suffix of a file name in lower case, and SHA-256 with the length of a payload and the first 16
-- characters of a digest.
pub mod Uploads
pub mod Linked
pub mod Keeping
pub mod Completing
use grok_bot_data.Prelude.{
  ℕ, String, Bool, true, false, Option, none, some, List, [], Eq, Result, ok, err, Exec, pure, gets,
  or_raise, raise_if, modify, get_or, string_eq, pair_eq, option_eq, nat_eq, ◌||◌, ◌==◌, ◌!=◌,
  ◌>>=◌, ◌>>◌,
}
use grok_bot_data.Prelude.Dict.{Dict, lookup, insert, contains}
use Prim.Native.String.{◌++◌ as concat}
use grok_bot_data.Ingestion.Objects.{Hashing, ObjectStoreError}

-- `SourceRegistryError` with one constructor for each message, an error of the store or of a parser,
-- and a `KeyError`
pub data SourceError : Type 0 where
  dataset_fields_required dataset_exists dataset_not_found not_dataset_owner : SourceError
  principal_required actor_cannot_write upload_metadata_differs upload_not_found : SourceError
  cannot_complete size_mismatch digest_mismatch payload_too_large : SourceError
  completed_differently unsupported_format artifact_not_found : SourceError
  actor_cannot_read artifact_tombstoned key_missing : SourceError
  upload_rejected : String → SourceError
  store_error : ObjectStoreError → SourceError

pub data SourceStatus : Type 0 where
  ready rejected tombstoned : SourceStatus

-- the protocols `ObjectRef` and `ObjectStore`
pub record ObjectRef : Type 0 where
  pub key : String
  pub version_id : String
  pub sha256 : String

pub record ObjectStore (T B : Type 0) : Type 0 where
  pub put_immutable : String → B → Exec T ObjectStoreError ObjectRef
  pub get : String → Option String → Exec T ObjectStoreError ObjectRef
  pub tombstone : String → String → Exec T ObjectStoreError ObjectRef

pub record Dataset : Type 0 where
  pub dataset_id : String
  pub workspace_id : String
  pub owner_id : String

pub record UploadSession : Type 0 where
  pub upload_id : String
  pub dataset_id : String
  pub workspace_id : String
  pub actor_id : String
  pub filename : String
  pub format : String
  pub max_bytes : ℕ

pub record Parsed : Type 0 where
  pub headers : List String
  pub row_count : ℕ

pub record ArtifactVersion : Type 0 where
  pub artifact_id : String
  pub dataset_id : String
  pub workspace_id : String
  pub source_sha256 : String
  pub object_key : String
  pub object_version_id : String
  pub size_bytes : ℕ
  pub format : String
  pub parsed : Parsed
  pub status : SourceStatus

-- `_Grant`
pub record Grant : Type 0 where
  pub read : Bool
  pub write : Bool

pub record SourceRegistry (T : Type 0) : Type 0 where
  pub store : T
  pub datasets : Dict String Dataset
  pub grants : Dict (String × String) Grant
  pub uploads : Dict String UploadSession
  pub completed_uploads : Dict String String
  pub versions : Dict String ArtifactVersion
  pub by_dataset_hash : Dict (String × String) String

abbrev pub SourceCommand : Type 0 → Type 0 → Type 0
SourceCommand T A = Exec (SourceRegistry T) SourceError A

-- What the registry takes of Python, of the parsers and of its policy.
pub record Admission (B : Type 0) : Type 0 where
  pub hashing : Hashing B
  pub suffix_of : String → String
  pub parse_csv : B → Result String Parsed
  pub parse_parquet : B → Result String Parsed
  pub max_file_bytes : ℕ

abbrev pub is_tombstoned : SourceStatus → Bool
is_tombstoned tombstoned = true
is_tombstoned _ = false

abbrev pub differs : {A : Type 0} ⦃e : Eq A⦄ → Option A → A → Bool
differs none a = false
differs (some expected) a = expected != a

abbrev pub admitted_parse : Result String Parsed → Result SourceError Parsed
admitted_parse (ok parsed) = ok parsed
admitted_parse (err reason) = err (upload_rejected reason)

module _ {T : Type 0} where
  unfoldable pub empty_registry : T → SourceRegistry T
  empty_registry store = record {
    store = store;
    datasets = [];
    grants = [];
    uploads = [];
    completed_uploads = [];
    versions = [];
    by_dataset_hash = [];
  }

  abbrev pub from_store :
      {A : Type 0}
      → SourceRegistry T
      → Result ObjectStoreError A × T
      → Result SourceError A × SourceRegistry T
  from_store s (ok a, store) = (ok a, record s { store = store })
  from_store s (err e, store) = (err (store_error e), record s { store = store })

  -- a call on the store of the registry
  abbrev pub on_store : {A : Type 0} → Exec T ObjectStoreError A → SourceCommand T A
  on_store command s = from_store s (command s.store)

  -- `_dataset`, `_upload` and `_version`
  abbrev pub dataset : String → SourceCommand T Dataset
  dataset dataset_id =
      gets (λ s. lookup dataset_id s.datasets) >>= λ o. or_raise o dataset_not_found

  abbrev pub upload : String → SourceCommand T UploadSession
  upload upload_id = gets (λ s. lookup upload_id s.uploads) >>= λ o. or_raise o upload_not_found

  abbrev pub version_at : String → SourceCommand T ArtifactVersion
  version_at artifact_id =
      gets (λ s. lookup artifact_id s.versions) >>= λ o. or_raise o artifact_not_found

  -- `_grant`
  abbrev pub grant_of : String → String → SourceRegistry T → Grant
  grant_of dataset_id principal_id s =
      get_or (record { read = false; write = false }) (lookup (dataset_id, principal_id) s.grants)

  -- `create_dataset`
  unfoldable pub create_dataset : String → String → String → SourceCommand T Dataset
  create_dataset dataset_id workspace_id owner_id =
      let created : Dataset = record {
        dataset_id = dataset_id;
        workspace_id = workspace_id;
        owner_id = owner_id;
      } in
      do
        raise_if (dataset_id == "" || workspace_id == "" || owner_id == "") dataset_fields_required
        known ← gets (λ s. contains dataset_id s.datasets)
        raise_if known dataset_exists
        modify (λ s. record s {
          datasets = insert dataset_id created s.datasets;
          grants = insert (dataset_id, owner_id) (record { read = true; write = true }) s.grants;
        })
        pure created

  -- `grant`
  unfoldable pub grant : String → String → String → Bool → SourceCommand T Unit
  grant dataset_id owner_id principal_id write = do
    found ← dataset dataset_id
    raise_if (found.owner_id != owner_id) not_dataset_owner
    raise_if (principal_id == "") principal_required
    modify (λ s. record s {
      grants = insert (dataset_id, principal_id) (record { read = true; write = write }) s.grants;
    })
