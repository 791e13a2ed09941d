-- ===== src/Ingestion/Port/Soundness.antt =====
-- The store of packages/adapters/src/vda_adapters/s3/store.py fulfils the contract of the store of
-- packages/data_profiling/src/vda_data/ingestion/sources.py.
use grok_bot_data.Prelude.{
  String, refl, inl, inr, Option, Bool-cases, Option-cases, string_eq, pair_eq, option_eq, nat_eq,
  ◌||◌, ◌==◌, ◌!=◌,
}
use grok_bot_data.Prelude.Dict.{lookup}
use grok_bot_data.Ingestion.Objects.{
  Hashing, InMemoryObjectStore, get, new_object, or_latest, put_at, put_immutable, tombstone,
}
use grok_bot_data.Ingestion.Objects.Immutable.{
  IsVersioned, StoreChange-IsVersioned, added_object, marked_object,
}
use grok_bot_data.Ingestion.Sources.Linked.{Answers, IsSound}
use grok_bot_data.Ingestion.Port.{in_memory_port}

module _ {B : Type 0} (hashing : Hashing B) where
  put_sound :
      (key : String) (payload : B) (t : InMemoryObjectStore B)
      → IsVersioned t
      → Answers IsVersioned ((in_memory_port hashing).put_immutable key payload t)
  unfolding in_memory_port put_immutable put_at
  put_sound key payload t good = elim (Bool-cases (key == "" || hashing.size payload == 0)) [
    | inl bad ↦ rw bad (good, refl)
    | inr given ↦ elim (Option-cases (lookup key t.latest)) [
      | inl fresh ↦
          rw (given, fresh)
            (StoreChange-IsVersioned t _ good
              (added_object key (new_object hashing key payload) fresh))
      | inr (v, hit) ↦
          let (o, found) = good.latest_found key v hit in
          elim (Bool-cases (o.sha256 != hashing.digest_of payload)) [
            | inl other ↦ rw (given, hit, found, other) (good, refl)
            | inr same ↦ rw (given, hit, found, same) good
          ]
    ]
  ]

  get_sound :
      (key : String) (version : Option String) (t : InMemoryObjectStore B)
      → IsVersioned t
      → Answers IsVersioned ((in_memory_port hashing).get key version t)
  unfolding in_memory_port get
  get_sound key version t good = elim (Option-cases (or_latest version (lookup key t.latest))) [
    | inl unknown ↦ rw unknown (good, refl)
    | inr (v, named) ↦ elim (Option-cases (lookup (key, v) t.objects)) [
      | inl missing ↦ rw (named, missing) (good, refl)
      | inr (o, found) ↦ elim (Bool-cases o.deleted) [
        | inl gone ↦ rw (named, found, gone) (good, refl)
        | inr there ↦ rw (named, found, there) good
      ]
    ]
  ]

  tombstone_sound :
      (key version : String) (t : InMemoryObjectStore B)
      → IsVersioned t
      → Answers IsVersioned ((in_memory_port hashing).tombstone key version t)
  unfolding in_memory_port tombstone
  tombstone_sound key version t good = elim (Option-cases (lookup (key, version) t.objects)) [
    | inl missing ↦ rw missing (good, refl)
    | inr (o, found) ↦
        rw found (StoreChange-IsVersioned t _ good (marked_object key version o found))
  ]

  -- In a store in which a key has one version, the latest, under which its object is found, no call
  -- raises a `KeyError`, and all keep it so.
  pub in_memory_port-IsSound : IsSound (in_memory_port hashing) IsVersioned
  in_memory_port-IsSound = record {
    put_is_sound = put_sound;
    get_is_sound = get_sound;
    tombstone_is_sound = tombstone_sound;
  }
