-- ===== src/Ingestion/Sources/Completing.antt =====
-- `complete_upload` of packages/data_profiling/src/vda_data/ingestion/sources.py, and any sequence of
-- calls on the registry.
use grok_bot_data.Prelude.{
  ℕ, String, refl, false, sym, ap, inl, inr, not, Option, none, some, List, [], ltb, Bool-cases,
  Result, ok, err, pure, some_injective, string_eq, pair_eq, option_eq, nat_eq, ◌≡◌, ◌||◌, ◌∷◌, ◌∙◌,
  ◌==◌, ◌!=◌,
}
use grok_bot_data.Prelude.Dict.{lookup, insert, lookup-insert, lookup-insert_self, lookup-insert_ne}
use grok_bot_data.Ingestion.Sources.{
  grant_of, Admission, ArtifactVersion, ObjectStore, SourceRegistry, UploadSession,
}
use grok_bot_data.Ingestion.Sources.Uploads.{complete_checked, complete_upload, keep_version, parse}
use grok_bot_data.Ingestion.Sources.Linked.{
  IsSound, raises_key_error, marked-IsLinked, IsLinked, IsSafe, SafeAt, raise_if-SafeAt,
  or_raise-SafeAt, lift-SafeAt, on_store-SafeAt,
}
use grok_bot_data.Ingestion.Sources.{
  cannot_complete, size_mismatch, digest_mismatch, payload_too_large, completed_differently,
  upload_not_found, admitted_parse, differs, Parsed,
}
use grok_bot_data.Ingestion.Sources.Linked.{
  SourceCall, create_call, grant_call, begin_call, complete_call, get_call, tombstone_call,
  run_source, run_sources,
}
use grok_bot_data.Ingestion.Sources.Keeping.{
  create_dataset-SafeAt, grant-SafeAt, begin_upload-SafeAt, get_version-SafeAt, tombstone-SafeAt,
}

module _ {T : Type 0} (Good : T → Type 0) where
  -- A new row of the completed uploads for a version that is there.
  completed-IsLinked :
      (s : SourceRegistry T) (upload_id artifact_id : String) (v : ArtifactVersion)
      → IsLinked Good s
      → lookup artifact_id s.versions ≡ some v
      → IsLinked Good
          (record s { completed_uploads = insert upload_id artifact_id s.completed_uploads })
  completed-IsLinked s upload_id artifact_id v linked hit = record {
    good = linked.good;
    completed = λ u a e. elim (Bool-cases (upload_id == u)) [
      | inl here ↦ (
        v,
        ap (λ i. lookup i s.versions) (some_injective (sym e ∙ rw (lookup-insert, here) refl))
            ∙ hit,
      )
      | inr there ↦
          linked.completed u a
            (sym (lookup-insert_ne s.completed_uploads upload_id u artifact_id there) ∙ e)
    ];
    known = linked.known;
  }

  -- A new version, under its payload and its upload.
  kept-IsLinked :
      (s : SourceRegistry T) (upload_id artifact_id : String) (p : String × String)
      (v : ArtifactVersion)
      → IsLinked Good s
      → IsLinked Good (record s {
        versions = insert artifact_id v s.versions;
        by_dataset_hash = insert p artifact_id s.by_dataset_hash;
        completed_uploads = insert upload_id artifact_id s.completed_uploads;
      })
  kept-IsLinked s upload_id artifact_id p v linked =
      completed-IsLinked
        (record s {
          versions = insert artifact_id v s.versions;
          by_dataset_hash = insert p artifact_id s.by_dataset_hash;
        })
        upload_id artifact_id v
        (record {
          good = linked.good;
          completed = λ u a e. (marked-IsLinked Good s artifact_id v linked).completed u a e;
          known = λ q a e. elim (Bool-cases (p == q)) [
            | inl here ↦ (
              v,
              ap (λ i. lookup i (insert artifact_id v s.versions))
                    (some_injective (sym e ∙ rw (lookup-insert, here) refl))
                  ∙ lookup-insert_self s.versions artifact_id v,
            )
            | inr there ↦
                (marked-IsLinked Good s artifact_id v linked).known q a
                  (sym (lookup-insert_ne s.by_dataset_hash p q artifact_id there) ∙ e)
          ];
        })
        (lookup-insert_self s.versions artifact_id v)

module _ {T B : Type 0} (admission : Admission B) (store : ObjectStore T B) (Good : T → Type 0)
    (sound : IsSound store Good) where
  keep_version-SafeAt :
      (upload_id : String) (session : UploadSession) (payload : B) (parsed : Parsed)
      (o : Option String) (p : String × String) (s : SourceRegistry T)
      → IsLinked Good s
      → lookup p s.by_dataset_hash ≡ o
      → SafeAt Good (keep_version admission store upload_id session payload parsed o) s
  unfolding keep_version
  keep_version-SafeAt upload_id session payload parsed (some artifact_id) p s linked hit =
      let (v, there) = linked.known p artifact_id hit in
      rw there (tt, completed-IsLinked Good s upload_id artifact_id v linked there)
  keep_version-SafeAt upload_id session payload parsed none p s linked miss =
      on_store-SafeAt Good (store.put_immutable _ payload) _ s linked (sound.put_is_sound _ _)
        (λ ref t g. (
          tt,
          kept-IsLinked Good (record s { store = t }) upload_id _ _ _
              (record { good = g; completed = linked.completed; known = linked.known }),
        ))

  parse_error :
      (format : String) (payload : B)
      → raises_key_error (parse admission store format payload) ≡ false
  unfolding parse
  parse_error format payload = elim (Bool-cases (format == "csv")) [
    | inl csv ↦ rw csv (rejected (admission.parse_csv payload))
    | inr other ↦ rw other (rejected (admission.parse_parquet payload))
  ]
    where
      rejected : (r : Result String Parsed) → raises_key_error (admitted_parse r) ≡ false
      rejected (ok parsed) = refl
      rejected (err reason) = refl

  complete_checked-SafeAt :
      (upload_id : String) (session : UploadSession) (payload : B) (o : Option String)
      (s : SourceRegistry T)
      → IsLinked Good s
      → lookup upload_id s.completed_uploads ≡ o
      → SafeAt Good (complete_checked admission store upload_id session payload o) s
  unfolding complete_checked
  complete_checked-SafeAt upload_id session payload (some artifact_id) s linked hit =
      let (v, there) = linked.completed upload_id artifact_id hit in
      rw there (
        raise_if-SafeAt Good (v.source_sha256 != admission.hashing.digest_of payload)
          completed_differently (pure v) s refl linked (tt, linked))
  complete_checked-SafeAt upload_id session payload none s linked miss =
      lift-SafeAt Good (parse admission store session.format payload) _ s
        (parse_error session.format payload) linked
        (λ parsed. keep_version-SafeAt upload_id session payload parsed _ _ s linked refl)

  complete_upload-SafeAt :
      (upload_id actor_id : String) (payload : B) (sha256 : Option String) (size : Option ℕ)
      (s : SourceRegistry T)
      → IsLinked Good s
      → SafeAt Good (complete_upload admission store upload_id actor_id payload sha256 size) s
  unfolding complete_upload
  complete_upload-SafeAt upload_id actor_id payload sha256 size s linked =
      or_raise-SafeAt Good (lookup upload_id s.uploads) upload_not_found _ s refl linked
        (λ session hit.
          raise_if-SafeAt Good
            (session.actor_id != actor_id || not (grant_of session.dataset_id actor_id s).write)
            cannot_complete _ s refl linked
            (raise_if-SafeAt Good (differs size (admission.hashing.size payload)) size_mismatch _ s
              refl linked
              (raise_if-SafeAt Good (differs sha256 (admission.hashing.digest_of payload))
                digest_mismatch _ s refl linked
                (raise_if-SafeAt Good (ltb session.max_bytes (admission.hashing.size payload))
                  payload_too_large _ s refl linked
                  (complete_checked-SafeAt upload_id session payload
                    (lookup upload_id s.completed_uploads) s linked refl)))))

  run_source-IsSafe :
      (call : SourceCall B) (s : SourceRegistry T)
      → IsLinked Good s
      → IsSafe Good (run_source admission store call s)
  unfolding run_source
  run_source-IsSafe (create_call dataset_id workspace_id owner_id) s linked =
      create_dataset-SafeAt admission store Good sound dataset_id workspace_id owner_id s linked
  run_source-IsSafe (grant_call dataset_id owner_id principal_id write) s linked =
      grant-SafeAt admission store Good sound dataset_id owner_id principal_id write s linked
  run_source-IsSafe (begin_call dataset_id actor_id filename upload_id) s linked =
      begin_upload-SafeAt admission store Good sound dataset_id actor_id filename upload_id s linked
  run_source-IsSafe (complete_call upload_id actor_id payload sha256 size) s linked =
      complete_upload-SafeAt upload_id actor_id payload sha256 size s linked
  run_source-IsSafe (get_call artifact_id actor_id) s linked =
      get_version-SafeAt admission store Good sound artifact_id actor_id s linked
  run_source-IsSafe (tombstone_call artifact_id actor_id) s linked =
      tombstone-SafeAt admission store Good sound artifact_id actor_id s linked

  run_sources-IsLinked :
      (calls : List (SourceCall B)) (s : SourceRegistry T)
      → IsLinked Good s
      → IsLinked Good (run_sources admission store calls s)
  unfolding run_sources
  run_sources-IsLinked [] s linked = linked
  run_sources-IsLinked (call ∷ rest) s linked =
      run_sources-IsLinked rest (run_source admission store call s).1
        (run_source-IsSafe call s linked).1

  -- With a store that in its good states raises no `KeyError` and stays good, whatever is called:
  -- after any sequence of calls, those that raise included, on a registry whose store is good and
  -- whose completed uploads and known payloads name versions that are there, no call ends in a
  -- `KeyError`, of the registry or of the store, and the same holds of the registry behind it.
  pub run_sources-IsSafe :
      (calls : List (SourceCall B)) (call : SourceCall B) (s : SourceRegistry T)
      → IsLinked Good s
      → IsSafe Good (run_source admission store call (run_sources admission store calls s))
  run_sources-IsSafe calls call s linked =
      run_source-IsSafe call (run_sources admission store calls s)
        (run_sources-IsLinked calls s linked)
