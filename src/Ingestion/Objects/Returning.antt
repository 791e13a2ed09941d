-- ===== src/Ingestion/Objects/Returning.antt =====
-- What packages/adapters/src/vda_adapters/s3/store.py returns of what was put into it.
use grok_bot_data.Prelude.{
  String, refl, sym, ap, subst, inl, inr, Bool, true, false, Option, none, some, List, [], arith,
  Bool-cases, Option-cases, Result, ok, err, pure, raise_if, string_eq, pair_eq, option_eq, nat_eq,
  ◌≡◌, ◌||◌, ◌∷◌, ◌∙◌, ◌==◌, ◌!=◌, ◌>>◌, if◌then◌else◌,
}
use grok_bot_data.Prelude.Dict.{lookup, lookup-insert_self}
use grok_bot_data.Ingestion.Objects.{
  Hashing, ImmutableObject, InMemoryObjectStore, ObjectStoreError, get, key_immutable, new_object,
  put_at, put_immutable, tombstone, version_tombstoned,
}
use grok_bot_data.Ingestion.Objects.Immutable.{
  IsVersioned, SameObject, SameObject-refl, SameObject-trans, StoreCall, StoreChange,
  StoreChange-IsVersioned, StoreChange-SameObject, added_object, get_call, marked_object, put_call,
  same_store, store_step, store_steps, tombstone_call,
}

module _ {B : Type 0} where
  tombstone-StoreChange :
      (key version_id : String) (s : InMemoryObjectStore B)
      → StoreChange s (tombstone key version_id s).1
  unfolding tombstone
  tombstone-StoreChange key version_id s =
      elim (Option-cases (lookup (key, version_id) s.objects)) [
        | inl miss ↦ rw miss same_store
        | inr (o, hit) ↦ rw hit (marked_object key version_id o hit)
      ]

  get-StoreChange :
      (key : String) (version_id : Option String) (s : InMemoryObjectStore B)
      → (get key version_id s).1 ≡ s
  unfolding get
  get-StoreChange key version_id s = ground arith

module _ {B : Type 0} (hashing : Hashing B) where
  put_at-known :
      (key : String) (payload : B) (v : String) (s : InMemoryObjectStore B)
      → (put_at hashing key payload (some v) s).1 ≡ s
  unfolding put_at
  put_at-known key payload v s = ground arith

  put_at-StoreChange :
      (key : String) (payload : B) (o : Option String) (s : InMemoryObjectStore B)
      → lookup key s.latest ≡ o
      → StoreChange s (put_at hashing key payload o s).1
  unfolding put_at
  put_at-StoreChange key payload none s fresh =
      added_object key (new_object hashing key payload) fresh
  put_at-StoreChange key payload (some v) s hit =
      subst (StoreChange s) (sym (put_at-known key payload v s)) same_store

  put_immutable-StoreChange :
      (key : String) (payload : B) (s : InMemoryObjectStore B)
      → StoreChange s (put_immutable hashing key payload s).1
  unfolding put_immutable
  put_immutable-StoreChange key payload s =
      elim (Bool-cases (key == "" || hashing.size payload == 0)) [
        | inl missing ↦ rw missing same_store
        | inr given ↦ rw given (put_at-StoreChange key payload (lookup key s.latest) s refl)
      ]

  store_step-StoreChange :
      (call : StoreCall B) (s : InMemoryObjectStore B) → StoreChange s (store_step hashing call s)
  unfolding store_step
  store_step-StoreChange (put_call key payload) s = put_immutable-StoreChange key payload s
  store_step-StoreChange (get_call key version_id) s =
      subst (StoreChange s) (sym (get-StoreChange key version_id s)) same_store
  store_step-StoreChange (tombstone_call key version_id) s = tombstone-StoreChange key version_id s

  store_steps-IsVersioned :
      (calls : List (StoreCall B)) (s : InMemoryObjectStore B)
      → IsVersioned s
      → IsVersioned (store_steps hashing calls s)
  unfolding store_steps
  store_steps-IsVersioned [] s versioned = versioned
  store_steps-IsVersioned (call ∷ rest) s versioned =
      store_steps-IsVersioned rest (store_step hashing call s)
        (StoreChange-IsVersioned s _ versioned (store_step-StoreChange call s))

  store_steps-SameObject :
      (calls : List (StoreCall B)) (s : InMemoryObjectStore B) (k v : String)
      (a : ImmutableObject B)
      → IsVersioned s
      → lookup (k, v) s.objects ≡ some a
      → (b : ImmutableObject B) × (lookup (k, v) (store_steps hashing calls s).objects ≡ some b)
        × SameObject a b
  unfolding store_steps
  store_steps-SameObject [] s k v a versioned hit = (a, hit, SameObject-refl a)
  store_steps-SameObject (call ∷ rest) s k v a versioned hit =
      let change = store_step-StoreChange call s in
      let (b, there, first) = StoreChange-SameObject s _ k v a versioned change hit in
      let (c, later, more) =
        store_steps-SameObject rest (store_step hashing call s) k v b
          (StoreChange-IsVersioned s _ versioned change) there in
      (c, later, SameObject-trans first more)

-- What `get` answers for a version that is there.
get-found :
    {B : Type 0} (key v : String) (s : InMemoryObjectStore B) (o : ImmutableObject B)
    → IsVersioned s
    → lookup (key, v) s.objects ≡ some o
    → get key (some v) s ≡ (if o.deleted then err version_tombstoned else ok o, s)
unfolding get
get-found key v s o versioned hit = elim (Bool-cases (v == "")) [
  | inl unnamed ↦ rw (unnamed, (versioned.found_latest key v o hit).0, hit) (answer o.deleted)
  | inr named ↦ rw (named, hit) (answer o.deleted)
]
  where
    answer :
        (d : Bool)
        → (raise_if d version_tombstoned >> pure o) s
          ≡ (if d then err version_tombstoned else ok o, s)
    answer true = refl
    answer false = refl

module _ {B : Type 0} (hashing : Hashing B) where
  abbrev Returned :
      String → B → Result ObjectStoreError (ImmutableObject B) × InMemoryObjectStore B → Type 0
  Returned key payload (ok r, t) =
      (lookup (key, r.version_id) t.objects ≡ some r) × (r.sha256 ≡ hashing.digest_of payload)
  Returned key payload (err e, t) = Unit

  known-Returned :
      (key : String) (payload : B) (v : String) (current : ImmutableObject B)
      (s : InMemoryObjectStore B)
      → IsVersioned s
      → lookup (key, v) s.objects ≡ some current
      → Returned key payload
          ((raise_if (current.sha256 != hashing.digest_of payload) key_immutable >> pure current) s)
  known-Returned key payload v current s versioned hit =
      elim (Bool-cases (current.sha256 == hashing.digest_of payload)) [
        | inl same ↦ rw same (
          ap (λ i. lookup (key, i) s.objects) (versioned.found_latest key v current hit).1 ∙ hit,
          (string_eq.test_iff current.sha256 (hashing.digest_of payload)).0 same,
        )
        | inr other ↦ rw other tt
      ]

  put_at-Returned :
      (key : String) (payload : B) (o : Option String) (s : InMemoryObjectStore B)
      → IsVersioned s
      → Returned key payload (put_at hashing key payload o s)
  unfolding put_at
  put_at-Returned key payload none s versioned = (
    lookup-insert_self s.objects (key, (new_object hashing key payload).version_id)
        (new_object hashing key payload),
    refl,
  )
  put_at-Returned key payload (some v) s versioned =
      elim (Option-cases (lookup (key, v) s.objects)) [
        | inl miss ↦ rw miss tt
        | inr (current, hit) ↦ rw hit (known-Returned key payload v current s versioned hit)
      ]

  put_immutable-Returned :
      (key : String) (payload : B) (s : InMemoryObjectStore B)
      → IsVersioned s
      → Returned key payload (put_immutable hashing key payload s)
  unfolding put_immutable
  put_immutable-Returned key payload s versioned =
      elim (Bool-cases (key == "" || hashing.size payload == 0)) [
        | inl missing ↦ rw missing tt
        | inr given ↦ rw given (put_at-Returned key payload (lookup key s.latest) s versioned)
      ]

  -- After a `put_immutable` that returned an object, on a store with one version for each key, and
  -- after any later calls, those that raise included: a `get` of that version returns an object with
  -- the key, version, digest and payload of the one returned, whose digest is that of the payload put,
  -- or raises that the version is tombstoned; no later put changes it.
  pub get-put_immutable :
      (key : String) (payload : B) (s s' : InMemoryObjectStore B) (ref : ImmutableObject B)
      (calls : List (StoreCall B))
      → IsVersioned s
      → put_immutable hashing key payload s ≡ (ok ref, s')
      → (o : ImmutableObject B) × (get key (some ref.version_id) (store_steps hashing calls s')
          ≡ (if o.deleted then err version_tombstoned else ok o, store_steps hashing calls s'))
        × SameObject ref o
        × (o.sha256 ≡ hashing.digest_of payload)
  get-put_immutable key payload s s' ref calls versioned e =
      let (hit, digest) =
        subst (Returned key payload) e (put_immutable-Returned key payload s versioned) in
      let versioned' =
        subst IsVersioned (ap (λ r. r.1) e) (
          StoreChange-IsVersioned s _ versioned
            (put_immutable-StoreChange hashing key payload s)) in
      let (o, there, same) =
        store_steps-SameObject hashing calls s' key ref.version_id ref versioned' hit in
      (
        o,
        get-found key ref.version_id (store_steps hashing calls s') o
            (store_steps-IsVersioned hashing calls s' versioned') there,
        same,
        same.same_sha256 ∙ digest,
      )
