-- ===== src/Ingestion/Objects.antt =====
-- packages/adapters/src/vda_adapters/s3/store.py: `InMemoryObjectStore`.
-- A payload is a value of a type `B`; its SHA-256, its length and the first 16 characters of a digest
-- are parameters.
pub mod Immutable
pub mod Returning
use grok_bot_data.Prelude.{
  ℕ, String, Bool, true, false, Option, none, some, [], Exec, pure, gets, or_raise, raise_if,
  modify, string_eq, pair_eq, option_eq, nat_eq, ◌||◌, ◌==◌, ◌!=◌, ◌>>=◌, ◌>>◌, if◌then◌else◌,
}
use grok_bot_data.Prelude.Dict.{Dict, lookup, insert}
use Prim.Native.String.{◌++◌ as concat}

-- `ObjectStoreError` with one constructor for each message, and a `KeyError`
pub data ObjectStoreError : Type 0 where
  key_and_payload_required key_immutable version_not_found : ObjectStoreError
  version_tombstoned object_missing : ObjectStoreError

pub record ImmutableObject (B : Type 0) : Type 0 where
  pub key : String
  pub version_id : String
  pub sha256 : String
  pub payload : B
  pub deleted : Bool

pub record InMemoryObjectStore (B : Type 0) : Type 0 where
  pub objects : Dict (String × String) (ImmutableObject B)
  pub latest : Dict String String

-- `hashlib.sha256(payload).hexdigest()`, `len(payload)` and `digest[:16]`
pub record Hashing (B : Type 0) : Type 0 where
  pub digest_of : B → String
  pub size : B → ℕ
  pub short : String → String

abbrev pub StoreCommand : Type 0 → Type 0 → Type 0
StoreCommand B A = Exec (InMemoryObjectStore B) ObjectStoreError A

-- `version_id or self._latest.get(key)`
abbrev pub or_latest : Option String → Option String → Option String
or_latest none latest = latest
or_latest (some version) latest = if version == "" then latest else some version

module _ {B : Type 0} where
  unfoldable pub empty_store : InMemoryObjectStore B
  empty_store = record { objects = []; latest = [] }

  -- `get`
  unfoldable pub get : String → Option String → StoreCommand B (ImmutableObject B)
  get key version_id = do
    latest ← gets (λ s. lookup key s.latest)
    version ← or_raise (or_latest version_id latest) version_not_found
    found ← gets (λ s. lookup (key, version) s.objects)
    object_ref ← or_raise found version_not_found
    raise_if object_ref.deleted version_tombstoned
    pure object_ref

  -- `tombstone`
  unfoldable pub tombstone : String → String → StoreCommand B (ImmutableObject B)
  tombstone key version_id = do
    found ← gets (λ s. lookup (key, version_id) s.objects)
    object_ref ← or_raise found version_not_found
    modify (λ s. record s {
      objects = insert (key, version_id) (record object_ref { deleted = true }) s.objects;
    })
    pure (record object_ref { deleted = true })

module _ {B : Type 0} (hashing : Hashing B) where
  abbrev pub new_object : String → B → ImmutableObject B
  new_object key payload = record {
    key = key;
    version_id = concat "v1-" (hashing.short (hashing.digest_of payload));
    sha256 = hashing.digest_of payload;
    payload = payload;
    deleted = false;
  }

  -- `put_immutable` for a key with or without a latest version
  unfoldable pub put_at : String → B → Option String → StoreCommand B (ImmutableObject B)
  put_at key payload (some version) = do
    found ← gets (λ s. lookup (key, version) s.objects)
    current ← or_raise found object_missing
    raise_if (current.sha256 != hashing.digest_of payload) key_immutable
    pure current
  put_at key payload none =
      let object_ref = new_object key payload in
      do
        modify (λ s. record s {
          objects = insert (key, object_ref.version_id) object_ref s.objects;
          latest = insert key object_ref.version_id s.latest;
        })
        pure object_ref

  -- `put_immutable`
  unfoldable pub put_immutable : String → B → StoreCommand B (ImmutableObject B)
  unfolding put_at
  put_immutable key payload = do
    raise_if (key == "" || hashing.size payload == 0) key_and_payload_required
    current_version ← gets (λ s. lookup key s.latest)
    put_at key payload current_version
