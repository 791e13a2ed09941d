-- ===== src/Local/Datasets.antt =====
-- The owners of the datasets of services/api/src/vda_api/application.py.
use grok_bot_data.Prelude.{
  String, refl, ap, inl, inr, Bool, true, false, Option, none, some, List, [], arith, Bool-cases,
  Result, ok, err, raise_if, continue, string_eq, pair_eq, option_eq, nat_eq, ◌≡◌, ◌||◌, ◌∷◌, ◌∙◌,
  ◌==◌, ◌!=◌, ◌>>=◌,
}
use grok_bot_data.Prelude.Dict.{lookup, insert, key_differs, lookup-insert_ne}
use Prim.Native.String.{◌++◌ as concat}
use grok_bot_data.Ingestion.Objects.{InMemoryObjectStore}
use grok_bot_data.Ingestion.Port.{in_memory_port}
use grok_bot_data.Ingestion.Sources.{
  ArtifactVersion, SourceCommand, SourceError, SourceRegistry, create_dataset as create_source,
}
use grok_bot_data.Ingestion.Sources.Uploads.{begin_upload, get_version}
use grok_bot_data.Local.{
  store_dataset, upload_id_required, LocalApiError, LocalApplication, LocalCommand, LocalDataset,
  LocalProfile, Setup, artifact_error, artifact_unavailable, cached_or_profile, create_dataset,
  dataset, dataset_not_visible, from_sources, on_sources, profile_dataset, reuse_or_create,
  source_error, upload_dataset,
}

pub data LocalCall (B : Type 0) : Type 0 where
  create_call : String → String → String → LocalCall B
  upload_call : String → String → String → String → String → B → Option String → LocalCall B
  profile_call : String → String → String → String → LocalCall B

module _ {B C : Type 0} (setup : Setup B C) where
  -- the application after the call, whether it raised or not
  unfoldable pub local_step : LocalCall B → LocalApplication B C → LocalApplication B C
  local_step (create_call workspace_id dataset_id actor_id) s =
      (create_dataset setup workspace_id dataset_id actor_id s).1
  local_step (upload_call workspace_id dataset_id actor_id upload_id filename payload sha256) s =
      (upload_dataset setup workspace_id dataset_id actor_id upload_id filename payload sha256 s).1
  local_step (profile_call workspace_id dataset_id actor_id artifact_id) s =
      (profile_dataset setup workspace_id dataset_id actor_id artifact_id s).1

  unfoldable pub local_steps : List (LocalCall B) → LocalApplication B C → LocalApplication B C
  local_steps [] s = s
  local_steps (call ∷ rest) s = local_steps rest (local_step call s)

module _ {B C A : Type 0} where
  -- The command leaves the table of datasets as it is.
  abbrev pub KeepsDatasets : LocalCommand B C A → Type 0
  KeepsDatasets m = (s : LocalApplication B C) → (m s).1.datasets ≡ s.datasets

  on_sources-KeepsDatasets :
      (wrap : SourceError → LocalApiError) (command : SourceCommand (InMemoryObjectStore B) A)
      → KeepsDatasets (on_sources wrap command)
  on_sources-KeepsDatasets wrap command s = kept (command s.sources)
    where
      kept :
          (r : Result SourceError A × SourceRegistry (InMemoryObjectStore B))
          → (from_sources wrap s r).1.datasets ≡ s.datasets
      kept (ok a, t) = refl
      kept (err e, t) = refl

module _ {B C A D : Type 0} where
  bind-KeepsDatasets :
      (m : LocalCommand B C A) (f : A → LocalCommand B C D)
      → KeepsDatasets m
      → ((a : A) → KeepsDatasets (f a))
      → KeepsDatasets (m >>= f)
  bind-KeepsDatasets m f h k s = then_kept (m s) (h s)
    where
      then_kept :
          (r : Result LocalApiError A × LocalApplication B C)
          → r.1.datasets ≡ s.datasets
          → (continue r.0 f r.1).1.datasets ≡ s.datasets
      then_kept (ok a, t) e = k a t ∙ e
      then_kept (err x, t) e = e

raise_if-KeepsDatasets :
    {B C : Type 0} (c : Bool) (e : LocalApiError) → KeepsDatasets {B = B} {C = C} (raise_if c e)
raise_if-KeepsDatasets true e s = refl
raise_if-KeepsDatasets false e s = refl

module _ {B C : Type 0} where
  dataset-KeepsDatasets :
      (workspace_id dataset_id actor_id : String)
      → KeepsDatasets {B = B} {C = C} (dataset workspace_id dataset_id actor_id)
  unfolding dataset
  dataset-KeepsDatasets workspace_id dataset_id actor_id s = ground arith

module _ {B C : Type 0} (setup : Setup B C) where
  upload_dataset-KeepsDatasets :
      (workspace_id dataset_id actor_id upload_id filename : String) (payload : B)
      (sha256 : Option String)
      → KeepsDatasets
          (upload_dataset setup workspace_id dataset_id actor_id upload_id filename payload sha256)
  unfolding upload_dataset
  upload_dataset-KeepsDatasets workspace_id dataset_id actor_id upload_id filename payload sha256 =
      bind-KeepsDatasets (dataset workspace_id dataset_id actor_id) _
        (dataset-KeepsDatasets workspace_id dataset_id actor_id)
        (λ known.
          bind-KeepsDatasets (raise_if (upload_id == "") upload_id_required) _
            (raise_if-KeepsDatasets (upload_id == "") upload_id_required)
            (λ _.
              bind-KeepsDatasets
                (on_sources source_error (
                  begin_upload setup.admission (in_memory_port setup.admission.hashing)
                    known.source_dataset_id actor_id filename
                    (concat known.source_dataset_id (concat ":" upload_id))))
                _ (on_sources-KeepsDatasets source_error _)
                (λ session. on_sources-KeepsDatasets source_error _)))

  cached_or_profile-KeepsDatasets :
      (known : LocalDataset) (artifact : ArtifactVersion) (o : Option (LocalProfile C))
      → KeepsDatasets (cached_or_profile setup known artifact o)
  unfolding cached_or_profile
  cached_or_profile-KeepsDatasets known artifact (some cached) s = refl
  cached_or_profile-KeepsDatasets known artifact none s = ground arith

  profile_dataset-KeepsDatasets :
      (workspace_id dataset_id actor_id artifact_id : String)
      → KeepsDatasets (profile_dataset setup workspace_id dataset_id actor_id artifact_id)
  unfolding profile_dataset
  profile_dataset-KeepsDatasets workspace_id dataset_id actor_id artifact_id =
      bind-KeepsDatasets (dataset workspace_id dataset_id actor_id) _
        (dataset-KeepsDatasets workspace_id dataset_id actor_id)
        (λ known.
          bind-KeepsDatasets
            (on_sources artifact_error (
              get_version setup.admission (in_memory_port setup.admission.hashing) artifact_id
                actor_id))
            _ (on_sources-KeepsDatasets artifact_error _)
            (λ artifact.
              bind-KeepsDatasets
                (raise_if (artifact.dataset_id != known.source_dataset_id) artifact_unavailable) _
                (raise_if-KeepsDatasets _ artifact_unavailable)
                (λ _ s.
                  cached_or_profile-KeepsDatasets known artifact
                    (lookup artifact.artifact_id s.profiles) s)))

  -- A dataset that is created takes a new key.
  stored-found :
      {A : Type 0} (m : LocalCommand B C A) (created : LocalDataset) (s : LocalApplication B C)
      (key : String × String) (d : LocalDataset)
      → (m s).1.datasets ≡ s.datasets
      → lookup (created.workspace_id, created.dataset_id) s.datasets ≡ none
      → lookup key s.datasets ≡ some d
      → lookup key ((m >>= λ _. store_dataset created) s).1.datasets ≡ some d
  stored-found {A = A} m created s key d kept fresh hit = stored (m s) kept
    where
      stored :
          (r : Result LocalApiError A × LocalApplication B C)
          → r.1.datasets ≡ s.datasets
          → lookup key (continue r.0 (λ _. store_dataset created) r.1).1.datasets ≡ some d
      stored (ok a, t) e =
          ap (λ x. lookup key (insert (created.workspace_id, created.dataset_id) created x)) e
          ∙ lookup-insert_ne s.datasets (created.workspace_id, created.dataset_id) key created
              (key_differs s.datasets (created.workspace_id, created.dataset_id) key d fresh hit)
          ∙ hit
      stored (err x, t) e = ap (λ x. lookup key x) e ∙ hit

  reuse_or_create-found :
      (workspace_id dataset_id actor_id : String) (o : Option LocalDataset)
      (s : LocalApplication B C) (key : String × String) (d : LocalDataset)
      → lookup (workspace_id, dataset_id) s.datasets ≡ o
      → lookup key s.datasets ≡ some d
      → lookup key (reuse_or_create setup workspace_id dataset_id actor_id o s).1.datasets ≡ some d
  unfolding reuse_or_create
  reuse_or_create-found workspace_id dataset_id actor_id (some existing) s key d known hit =
      elim (Bool-cases (existing.owner_id != actor_id)) [
        | inl other ↦ rw other hit
        | inr own ↦ rw own hit
      ]
  reuse_or_create-found workspace_id dataset_id actor_id none s key d fresh hit =
      stored-found
        (on_sources source_error
          (create_source (setup.source_id workspace_id dataset_id) workspace_id actor_id))
        _ s key d
        (on_sources-KeepsDatasets source_error
          (create_source (setup.source_id workspace_id dataset_id) workspace_id actor_id) s)
        fresh hit

  create_dataset-found :
      (workspace_id dataset_id actor_id : String) (s : LocalApplication B C) (key : String × String)
      (d : LocalDataset)
      → lookup key s.datasets ≡ some d
      → lookup key (create_dataset setup workspace_id dataset_id actor_id s).1.datasets ≡ some d
  unfolding create_dataset
  create_dataset-found workspace_id dataset_id actor_id s key d hit =
      elim (Bool-cases (workspace_id == "" || dataset_id == "" || actor_id == "")) [
        | inl missing ↦ rw missing hit
        | inr given ↦ rw given (
            reuse_or_create-found workspace_id dataset_id actor_id
              (lookup (workspace_id, dataset_id) s.datasets) s key d refl hit)
      ]

  local_step-found :
      (call : LocalCall B) (s : LocalApplication B C) (key : String × String) (d : LocalDataset)
      → lookup key s.datasets ≡ some d
      → lookup key (local_step setup call s).datasets ≡ some d
  unfolding local_step
  local_step-found (create_call workspace_id dataset_id actor_id) s key d hit =
      create_dataset-found workspace_id dataset_id actor_id s key d hit
  local_step-found (upload_call workspace_id dataset_id actor_id upload_id filename payload sha256)
        s key d hit =
      ap (λ t. lookup key t)
        (upload_dataset-KeepsDatasets workspace_id dataset_id actor_id upload_id filename payload
          sha256 s)
      ∙ hit
  local_step-found (profile_call workspace_id dataset_id actor_id artifact_id) s key d hit =
      ap (λ t. lookup key t)
        (profile_dataset-KeepsDatasets workspace_id dataset_id actor_id artifact_id s)
      ∙ hit

  local_steps-found :
      (calls : List (LocalCall B)) (s : LocalApplication B C) (key : String × String)
      (d : LocalDataset)
      → lookup key s.datasets ≡ some d
      → lookup key (local_steps setup calls s).datasets ≡ some d
  unfolding local_steps
  local_steps-found [] s key d hit = hit
  local_steps-found (call ∷ rest) s key d hit =
      local_steps-found rest (local_step setup call s) key d (local_step-found call s key d hit)

  -- Once a workspace has a dataset, then after any sequence of calls by anyone, those that raise
  -- included, an upload to it, a profile of any of its artifacts and its creation anew, by an actor
  -- who is not its owner and names all fields, are refused as not visible, and leave the application
  -- as it is.
  pub local_steps-not_visible :
      (calls : List (LocalCall B)) (s : LocalApplication B C)
      (workspace_id dataset_id actor_id : String) (d : LocalDataset) (upload_id filename : String)
      (payload : B) (sha256 : Option String) (artifact_id : String)
      → lookup (workspace_id, dataset_id) s.datasets ≡ some d
      → (d.owner_id == actor_id) ≡ false
      → workspace_id == "" || dataset_id == "" || actor_id == "" ≡ false
      → (upload_dataset setup workspace_id dataset_id actor_id upload_id filename payload sha256
            (local_steps setup calls s)
          ≡ (err dataset_not_visible, local_steps setup calls s))
        × (profile_dataset setup workspace_id dataset_id actor_id artifact_id
              (local_steps setup calls s)
            ≡ (err dataset_not_visible, local_steps setup calls s))
        × (create_dataset setup workspace_id dataset_id actor_id (local_steps setup calls s)
            ≡ (err dataset_not_visible, local_steps setup calls s))
  unfolding upload_dataset profile_dataset dataset create_dataset reuse_or_create
  local_steps-not_visible calls s workspace_id dataset_id actor_id d upload_id filename payload
        sha256 artifact_id hit other given =
      let there = local_steps-found calls s (workspace_id, dataset_id) d hit in
      (rw (there, other) refl, rw (there, other) refl, rw (given, there, other) refl)
