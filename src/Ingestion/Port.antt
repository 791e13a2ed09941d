-- ===== src/Ingestion/Port.antt =====
-- The object store of packages/adapters/src/vda_adapters/s3/store.py behind the protocol of
-- packages/data_profiling/src/vda_data/ingestion/sources.py, as `LocalApplication` of
-- services/api/src/vda_api/application.py joins them.
pub mod Soundness
use grok_bot_data.Prelude.{pure, ◌>>=◌}
use grok_bot_data.Ingestion.Objects.{
  Hashing, ImmutableObject, InMemoryObjectStore, empty_store, get, put_immutable, tombstone,
}
use grok_bot_data.Ingestion.Sources.{ObjectRef, ObjectStore, SourceRegistry, empty_registry}

-- an `ImmutableObject` as an `ObjectRef`
abbrev pub ref_of : {B : Type 0} → ImmutableObject B → ObjectRef
ref_of o = record { key = o.key; version_id = o.version_id; sha256 = o.sha256 }

unfoldable pub in_memory_port : {B : Type 0} → Hashing B → ObjectStore (InMemoryObjectStore B) B
unfolding put_immutable get tombstone
in_memory_port hashing = record {
  put_immutable = λ key payload. put_immutable hashing key payload >>= λ o. pure (ref_of o);
  get = λ key version_id. get key version_id >>= λ o. pure (ref_of o);
  tombstone = λ key version_id. tombstone key version_id >>= λ o. pure (ref_of o);
}

-- the registry that `LocalApplication.__init__` makes
unfoldable pub local_sources : {B : Type 0} → SourceRegistry (InMemoryObjectStore B)
unfolding empty_registry empty_store
local_sources = empty_registry empty_store
