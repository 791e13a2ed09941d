-- ===== src/Ingestion/Sources/Linked.antt =====
-- The links between the tables of packages/data_profiling/src/vda_data/ingestion/sources.py.
use grok_bot_data.Prelude.{
  ℕ, String, refl, inl, inr, Bool, true, false, Option, none, some, List, [], Bool-cases, Result,
  ok, err, Exec, or_raise, lift, raise_if, continue, string_eq, pair_eq, option_eq, nat_eq, ◌≡◌,
  ◌∷◌, ◌∙◌, ◌==◌, ◌>>=◌, ◌>>◌,
}
use grok_bot_data.Prelude.Dict.{lookup, insert, lookup-insert, lookup-insert_ne}
use grok_bot_data.Ingestion.Objects.{ObjectStoreError, object_missing}
use grok_bot_data.Ingestion.Sources.{
  on_store, from_store, Admission, ArtifactVersion, ObjectStore, SourceCommand, SourceError,
  SourceRegistry, store_error, create_dataset, grant, key_missing,
}
use grok_bot_data.Ingestion.Sources.Uploads.{begin_upload, complete_upload, get_version, tombstone}

pub data SourceCall (B : Type 0) : Type 0 where
  create_call : String → String → String → SourceCall B
  grant_call : String → String → String → Bool → SourceCall B
  begin_call : String → String → String → String → SourceCall B
  complete_call : String → String → B → Option String → Option ℕ → SourceCall B
  get_call tombstone_call : String → String → SourceCall B

-- how a call ended: with an error or without
abbrev pub ended :
    {T A : Type 0} → Result SourceError A × SourceRegistry T → Option SourceError × SourceRegistry T
ended (ok a, s) = (none, s)
ended (err e, s) = (some e, s)

-- Every completed upload and every known payload names a version that is there, and the store is a
-- good one.
pub record IsLinked {T : Type 0} (Good : T → Type 0) (s : SourceRegistry T) : Type 0 where
  pub good : Good s.store
  pub completed :
      (upload_id artifact_id : String)
      → lookup upload_id s.completed_uploads ≡ some artifact_id
      → (v : ArtifactVersion) × (lookup artifact_id s.versions ≡ some v)
  pub known :
      (p : String × String) (artifact_id : String)
      → lookup p s.by_dataset_hash ≡ some artifact_id
      → (v : ArtifactVersion) × (lookup artifact_id s.versions ≡ some v)

-- a `KeyError`, of the registry's own dicts or of those of the store
abbrev pub is_key_error : SourceError → Bool
is_key_error key_missing = true
is_key_error (store_error object_missing) = true
is_key_error _ = false

abbrev pub HasNoKeyError : Option SourceError → Type 0
HasNoKeyError none = Unit
HasNoKeyError (some e) = is_key_error e ≡ false

-- The outcome of a call that keeps the links: an error that is no `KeyError`, or none.
abbrev pub IsSafe : {T : Type 0} → (T → Type 0) → Option SourceError × SourceRegistry T → Type 0
IsSafe Good (e, s) = HasNoKeyError e × IsLinked Good s

-- What a good store answers: no `KeyError`, and it is good afterwards.
abbrev pub Answers : {T A : Type 0} → (T → Type 0) → Result ObjectStoreError A × T → Type 0
Answers Good (ok a, t) = Good t
Answers Good (err e, t) = Good t × (is_key_error (store_error e) ≡ false)

-- The contract of a store: a state in which it is good, whatever is called.
pub record IsSound {T B : Type 0} (store : ObjectStore T B) (Good : T → Type 0) : Type 0 where
  pub put_is_sound :
      (key : String) (payload : B) (t : T)
      → Good t
      → Answers Good (store.put_immutable key payload t)
  pub get_is_sound :
      (key : String) (version : Option String) (t : T)
      → Good t
      → Answers Good (store.get key version t)
  pub tombstone_is_sound :
      (key version : String) (t : T) → Good t → Answers Good (store.tombstone key version t)

abbrev pub raises_key_error : {A : Type 0} → Result SourceError A → Bool
raises_key_error (ok a) = false
raises_key_error (err e) = is_key_error e

module _ {T B : Type 0} (admission : Admission B) (store : ObjectStore T B) where
  unfoldable pub run_source :
      SourceCall B → SourceRegistry T → Option SourceError × SourceRegistry T
  run_source (create_call dataset_id workspace_id owner_id) s =
      ended (create_dataset dataset_id workspace_id owner_id s)
  run_source (grant_call dataset_id owner_id principal_id write) s =
      ended (grant dataset_id owner_id principal_id write s)
  run_source (begin_call dataset_id actor_id filename upload_id) s =
      ended (begin_upload admission store dataset_id actor_id filename upload_id s)
  run_source (complete_call upload_id actor_id payload sha256 size) s =
      ended (complete_upload admission store upload_id actor_id payload sha256 size s)
  run_source (get_call artifact_id actor_id) s =
      ended (get_version admission store artifact_id actor_id s)
  run_source (tombstone_call artifact_id actor_id) s =
      ended (tombstone admission store artifact_id actor_id s)

  unfoldable pub run_sources : List (SourceCall B) → SourceRegistry T → SourceRegistry T
  run_sources [] s = s
  run_sources (call ∷ rest) s = run_sources rest (run_source call s).1

-- The command raises no `KeyError` and keeps the links.
abbrev pub SafeAt : {T A : Type 0} → (T → Type 0) → SourceCommand T A → SourceRegistry T → Type 0
SafeAt Good m s = IsSafe Good (ended (m s))

module _ {T A : Type 0} (Good : T → Type 0) where
  pub raise_if-SafeAt :
      (c : Bool) (e : SourceError) (m : SourceCommand T A) (s : SourceRegistry T)
      → is_key_error e ≡ false
      → IsLinked Good s
      → SafeAt Good m s
      → SafeAt Good (raise_if c e >> m) s
  raise_if-SafeAt true e m s other linked safe = (other, linked)
  raise_if-SafeAt false e m s other linked safe = safe

module _ {T A B : Type 0} (Good : T → Type 0) where
  pub or_raise-SafeAt :
      (o : Option A) (e : SourceError) (f : A → SourceCommand T B) (s : SourceRegistry T)
      → is_key_error e ≡ false
      → IsLinked Good s
      → ((a : A) → o ≡ some a → SafeAt Good (f a) s)
      → SafeAt Good (or_raise o e >>= f) s
  or_raise-SafeAt none e f s other linked safe = (other, linked)
  or_raise-SafeAt (some a) e f s other linked safe = safe a refl

  pub lift-SafeAt :
      (r : Result SourceError A) (f : A → SourceCommand T B) (s : SourceRegistry T)
      → raises_key_error r ≡ false
      → IsLinked Good s
      → ((a : A) → SafeAt Good (f a) s)
      → SafeAt Good (lift r >>= f) s
  lift-SafeAt (ok a) f s other linked safe = safe a
  lift-SafeAt (err e) f s other linked safe = (other, linked)

  pub on_store-SafeAt :
      (command : Exec T ObjectStoreError A) (f : A → SourceCommand T B) (s : SourceRegistry T)
      → IsLinked Good s
      → ((t : T) → Good t → Answers Good (command t))
      → ((a : A) (t : T) → Good t → SafeAt Good (f a) (record s { store = t }))
      → SafeAt Good (on_store command >>= f) s
  on_store-SafeAt command f s linked sound safe =
      answered (command s.store) (sound s.store linked.good)
    where
      answered :
          (r : Result ObjectStoreError A × T)
          → Answers Good r
          → IsSafe Good (ended (continue (from_store s r).0 f (from_store s r).1))
      answered (ok a, t) h = safe a t h
      answered (err e, t) (h, other) =
          (other, record { good = h; completed = linked.completed; known = linked.known })

module _ {T : Type 0} (Good : T → Type 0) where
  pub marked-IsLinked :
      (s : SourceRegistry T) (artifact_id : String) (v : ArtifactVersion)
      → IsLinked Good s
      → IsLinked Good (record s { versions = insert artifact_id v s.versions })
  marked-IsLinked s artifact_id v linked = record {
    good = linked.good;
    completed = λ u a hit. still_there a (linked.completed u a hit);
    known = λ p a hit. still_there a (linked.known p a hit);
  }
    where
      still_there :
          (a : String)
          → ((w : ArtifactVersion) × (lookup a s.versions ≡ some w))
          → (w : ArtifactVersion) × (lookup a (insert artifact_id v s.versions) ≡ some w)
      still_there a (w, hit) = elim (Bool-cases (artifact_id == a)) [
        | inl here ↦ (v, rw (lookup-insert, here) refl)
        | inr there ↦ (w, lookup-insert_ne s.versions artifact_id a v there ∙ hit)
      ]
