-- ===== src/Tests/Sourcing.antt =====
-- The theorems on sources and their objects at a small registry: one payload, uploaded twice.
use grok_bot_data.Prelude.{
  String, refl, none, some, List, [], ok, err, string_eq, pair_eq, option_eq, nat_eq, ◌≡◌, ◌∷◌,
  if◌then◌else◌,
}
use grok_bot_data.Prelude.Dict.{lookup, insert}
use grok_bot_data.Ingestion.Objects.{
  Hashing, ImmutableObject, InMemoryObjectStore, empty_store, get, new_object, put_at,
  put_immutable, version_tombstoned,
}
use grok_bot_data.Ingestion.Objects.Immutable.{
  IsVersioned, SameObject, StoreCall, put_call, store_steps, tombstone_call,
}
use grok_bot_data.Ingestion.Objects.Returning.{get-put_immutable}
use grok_bot_data.Ingestion.Port.{in_memory_port, local_sources}
use grok_bot_data.Local.{
  LocalApplication, LocalDataset, Setup, create_dataset, dataset_not_visible, limit_exceeded,
  profile_dataset, upload_dataset,
}
use grok_bot_data.Local.Datasets.{
  LocalCall, create_call as create_local, local_steps, local_steps-not_visible, profile_call,
  upload_call,
}
use grok_bot_data.Ingestion.Sources.{Admission, empty_registry}
use grok_bot_data.Ingestion.Sources.Linked.{
  IsLinked, IsSafe, SourceCall, begin_call, complete_call, create_call, run_source, run_sources,
}
use grok_bot_data.Ingestion.Port.Soundness.{in_memory_port-IsSound}
use grok_bot_data.Ingestion.Sources.Completing.{run_sources-IsSafe}

abbrev hashing : Hashing String
hashing = record { digest_of = λ payload. payload; size = λ payload. 3; short = λ digest. digest }

empty-IsVersioned : IsVersioned {B = String} empty_store
unfolding empty_store lookup
empty-IsVersioned = record { latest_found = λ key v e. cc; found_latest = λ key v o e. cc }

abbrev stored : InMemoryObjectStore String
stored = record {
  objects = (("k", "v1-abc"), new_object hashing "k" "abc") ∷ [];
  latest = ("k", "v1-abc") ∷ [];
}

put_abc : put_immutable hashing "k" "abc" empty_store ≡ (ok (new_object hashing "k" "abc"), stored)
unfolding put_immutable put_at empty_store lookup insert
put_abc = refl

abbrev later : List (StoreCall String)
later = put_call "k" "xyz" ∷ tombstone_call "k" "v1-abc" ∷ []

get-put_immutable_example :
    (o : ImmutableObject String) × (get "k" (some "v1-abc") (store_steps hashing later stored)
      ≡ (if o.deleted then err version_tombstoned else ok o, store_steps hashing later stored))
    × SameObject (new_object hashing "k" "abc") o
    × (o.sha256 ≡ "abc")
get-put_immutable_example =
    get-put_immutable hashing "k" "abc" empty_store stored (new_object hashing "k" "abc") later
      empty-IsVersioned put_abc

abbrev admission : Admission String
admission = record {
  hashing = hashing;
  suffix_of = λ filename. "csv";
  parse_csv = λ payload. ok (record { headers = "a" ∷ []; row_count = 1 });
  parse_parquet = λ payload. err "no rows";
  max_file_bytes = 10;
}

empty-IsLinked : IsLinked {T = InMemoryObjectStore String} IsVersioned local_sources
unfolding local_sources empty_registry empty_store lookup
empty-IsLinked = record {
  good = record { latest_found = λ key v e. cc; found_latest = λ key v o e. cc };
  completed = λ u a e. cc;
  known = λ p a e. cc;
}

abbrev uploads : List (SourceCall String)
uploads =
    create_call "data" "team" "ann"
    ∷ begin_call "data" "ann" "rows.csv" "u1"
    ∷ complete_call "u1" "ann" "abc" none none
    ∷ begin_call "data" "ann" "rows.csv" "u2"
    ∷ []

run_sources-IsSafe_example : IsSafe IsVersioned (
    run_source admission
      (in_memory_port hashing)
      (complete_call "u2" "ann" "abc" none (some 3))
      (run_sources admission (in_memory_port hashing) uploads local_sources))
run_sources-IsSafe_example =
    run_sources-IsSafe admission (in_memory_port hashing) IsVersioned
      (in_memory_port-IsSound hashing) uploads (complete_call "u2" "ann" "abc" none (some 3))
      local_sources empty-IsLinked

abbrev setup : Setup String String
setup = record {
  admission = admission;
  source_id = λ workspace_id dataset_id. dataset_id;
  profile = λ payload format. err limit_exceeded;
}

abbrev rows : LocalDataset
rows = record {
  dataset_id = "rows";
  workspace_id = "team";
  owner_id = "ann";
  source_dataset_id = "rows";
}

abbrev application : LocalApplication String String
application = record {
  sources = local_sources;
  datasets = (("team", "rows"), rows) ∷ [];
  profiles = [];
}

found_rows : lookup ("team", "rows") application.datasets ≡ some rows
unfolding lookup
found_rows = refl

abbrev attempts : List (LocalCall String)
attempts =
    create_local "team" "rows" "bob"
    ∷ upload_call "team" "rows" "ann" "u1" "rows.csv" "abc" none
    ∷ profile_call "team" "rows" "bob" "rows:abc"
    ∷ []

local_steps-not_visible_example :
    (upload_dataset setup "team" "rows" "bob" "u2" "rows.csv" "xyz" none
        (local_steps setup attempts application)
      ≡ (err dataset_not_visible, local_steps setup attempts application))
    × (profile_dataset setup "team" "rows" "bob" "rows:abc" (local_steps setup attempts application)
        ≡ (err dataset_not_visible, local_steps setup attempts application))
    × (create_dataset setup "team" "rows" "bob" (local_steps setup attempts application)
        ≡ (err dataset_not_visible, local_steps setup attempts application))
local_steps-not_visible_example =
    local_steps-not_visible setup attempts application "team" "rows" "bob" rows "u2" "rows.csv"
      "xyz" none "rows:abc" found_rows refl refl
