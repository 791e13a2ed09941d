-- ===== src/Ingestion/Objects/Immutable.antt =====
-- Immutability of the objects of packages/adapters/src/vda_adapters/s3/store.py.
use grok_bot_data.Prelude.{
  String, refl, sym, ap, subst, inl, inr, true, false, Option, none, some, List, [], Bool-cases,
  string_eq, pair_eq, some_injective, option_eq, nat_eq, ◌≡◌, ◌∷◌, ◌∙◌, ◌==◌,
}
use grok_bot_data.Prelude.Dict.{
  Dict, lookup, insert, key_differs, lookup-insert_self, lookup-insert_ne, lookup_same,
}
use grok_bot_data.Ingestion.Objects.{
  Hashing, ImmutableObject, InMemoryObjectStore, get, put_immutable, tombstone,
}

pub data StoreCall (B : Type 0) : Type 0 where
  put_call : String → B → StoreCall B
  get_call : String → Option String → StoreCall B
  tombstone_call : String → String → StoreCall B

module _ {B : Type 0} (hashing : Hashing B) where
  -- the store after the call, whether it raised or not
  unfoldable pub store_step : StoreCall B → InMemoryObjectStore B → InMemoryObjectStore B
  store_step (put_call key payload) s = (put_immutable hashing key payload s).1
  store_step (get_call key version_id) s = (get key version_id s).1
  store_step (tombstone_call key version_id) s = (tombstone key version_id s).1

  unfoldable pub store_steps : List (StoreCall B) → InMemoryObjectStore B → InMemoryObjectStore B
  store_steps [] s = s
  store_steps (call ∷ rest) s = store_steps rest (store_step call s)

-- A key has one version, the latest, under which its object is found.
pub record IsVersioned {B : Type 0} (s : InMemoryObjectStore B) : Type 0 where
  pub latest_found :
      (key v : String)
      → lookup key s.latest ≡ some v
      → (o : ImmutableObject B) × (lookup (key, v) s.objects ≡ some o)
  pub found_latest :
      (key v : String) (o : ImmutableObject B)
      → lookup (key, v) s.objects ≡ some o
      → (lookup key s.latest ≡ some v) × (o.version_id ≡ v)

abbrev pub version_of : {B : Type 0} → ImmutableObject B → String × String
version_of o = (o.key, o.version_id)

abbrev at : String → String → String × String
at key version_id = (key, version_id)

-- The same object, with a tombstone or without.
pub record SameObject {B : Type 0} (a b : ImmutableObject B) : Type 0 where
  pub same_version : version_of b ≡ version_of a
  pub same_sha256 : b.sha256 ≡ a.sha256
  pub same_payload : b.payload ≡ a.payload
  pub stays_deleted : a.deleted ≡ true → b.deleted ≡ true

module _ {B : Type 0} where
  pub SameObject-refl : (a : ImmutableObject B) → SameObject a a
  SameObject-refl a = record {
    same_version = refl;
    same_sha256 = refl;
    same_payload = refl;
    stays_deleted = λ h. h;
  }

  pub SameObject-trans :
      {a b c : ImmutableObject B} → SameObject a b → SameObject b c → SameObject a c
  SameObject-trans h k = record {
    same_version = k.same_version ∙ h.same_version;
    same_sha256 = k.same_sha256 ∙ h.same_sha256;
    same_payload = k.same_payload ∙ h.same_payload;
    stays_deleted = λ d. k.stays_deleted (h.stays_deleted d);
  }

  -- What a call may do to a store.
  pub data StoreChange (s : InMemoryObjectStore B) : InMemoryObjectStore B → Type 0 where
    same_store : StoreChange s s
    added_object :
        (key : String) (o : ImmutableObject B)
        → lookup key s.latest ≡ none
        → StoreChange s (record s {
          objects = insert (key, o.version_id) o s.objects;
          latest = insert key o.version_id s.latest;
        })
    marked_object :
        (key v : String) (o : ImmutableObject B)
        → lookup (key, v) s.objects ≡ some o
        → StoreChange s
            (record s { objects = insert (key, v) (record o { deleted = true }) s.objects })

  -- The key of an object, but for one whose key has no version.
  other_key :
      (s : InMemoryObjectStore B) (key k v w : String) (o : ImmutableObject B)
      → IsVersioned s
      → lookup key s.latest ≡ none
      → lookup (k, v) s.objects ≡ some o
      → (at key w == at k v) ≡ false
  other_key s key k v w o versioned fresh hit =
      key_differs s.objects (key, w) (k, v) o (absent_object (lookup (key, w) s.objects) refl) hit
    where
      absent_object :
          (found : Option (ImmutableObject B))
          → lookup (key, w) s.objects ≡ found
          → lookup (key, w) s.objects ≡ none
      absent_object none e = e
      absent_object (some x) e =
          absurd (no_version (sym fresh ∙ (versioned.found_latest key w x e).0))
        where
          no_version : Path (Option String) none (some w) → ⊥
          no_version h = cc

  -- Every object is kept, but for its tombstone.
  pub StoreChange-SameObject :
      (s s' : InMemoryObjectStore B) (k v : String) (a : ImmutableObject B)
      → IsVersioned s
      → StoreChange s s'
      → lookup (k, v) s.objects ≡ some a
      → (b : ImmutableObject B) × (lookup (k, v) s'.objects ≡ some b) × SameObject a b
  StoreChange-SameObject s _ k v a versioned same_store hit = (a, hit, SameObject-refl a)
  StoreChange-SameObject s _ k v a versioned (added_object key o fresh) hit = (
    a,
    lookup-insert_ne s.objects (key, o.version_id) (k, v) o
          (other_key s key k v o.version_id a versioned fresh hit)
        ∙ hit,
    SameObject-refl a,
  )
  StoreChange-SameObject s _ k v a versioned (marked_object key w o found) hit =
      elim (Bool-cases (at key w == at k v)) [
        | inl here ↦ (
          record o { deleted = true },
          sym (
                lookup_same (insert (key, w) (record o { deleted = true }) s.objects) (key, w)
                  (k, v) here)
              ∙ lookup-insert_self s.objects (key, w) (record o { deleted = true }),
          subst (λ x. SameObject x (record o { deleted = true }))
              (some_injective (sym found ∙ lookup_same s.objects (key, w) (k, v) here ∙ hit))
              (record {
                same_version = refl;
                same_sha256 = refl;
                same_payload = refl;
                stays_deleted = λ h. refl;
              }),
        )
        | inr there ↦ (
          a,
          lookup-insert_ne s.objects (key, w) (k, v) (record o { deleted = true }) there ∙ hit,
          SameObject-refl a,
        )
      ]

  found_there :
      (d : Dict (String × String) (ImmutableObject B)) (p q : String × String)
      (a b : ImmutableObject B)
      → (p == q) ≡ true
      → lookup q (insert p a d) ≡ some b
      → (p ≡ q) × (a ≡ b)
  found_there d p q a b here hit = (
    (pair_eq.test_iff p q).0 here,
    some_injective (sym (lookup-insert_self d p a) ∙ lookup_same (insert p a d) p q here ∙ hit),
  )

  marked-IsVersioned :
      (s : InMemoryObjectStore B) (key w : String) (o : ImmutableObject B)
      → IsVersioned s
      → lookup (key, w) s.objects ≡ some o
      → IsVersioned (record s { objects = insert (key, w) (record o { deleted = true }) s.objects })
  marked-IsVersioned s key w o versioned found = record {
    latest_found = λ k v e.
        let (a, hit) = versioned.latest_found k v e in
        let (b, hit', _) =
          StoreChange-SameObject s _ k v a versioned (marked_object key w o found) hit in
        (b, hit');
    found_latest = λ k v a hit. elim (Bool-cases (at key w == at k v)) [
      | inl here ↦
          let (same, marked) = found_there s.objects (key, w) (k, v) _ a here hit in
          let (newest, named) = versioned.found_latest key w o found in
          (
            ap (λ p. lookup p.0 s.latest) (sym same) ∙ newest ∙ ap (λ p. some p.1) same,
            ap (λ x. x.version_id) (sym marked) ∙ named ∙ ap (λ p. p.1) same,
          )
      | inr there ↦
          versioned.found_latest k v a
            (sym (lookup-insert_ne s.objects (key, w) (k, v) _ there) ∙ hit)
    ];
  }

  added-IsVersioned :
      (s : InMemoryObjectStore B) (key : String) (o : ImmutableObject B)
      → IsVersioned s
      → lookup key s.latest ≡ none
      → IsVersioned (record s {
        objects = insert (key, o.version_id) o s.objects;
        latest = insert key o.version_id s.latest;
      })
  added-IsVersioned s key o versioned fresh = record {
    latest_found = λ k v e. elim (Bool-cases (key == k)) [
      | inl here ↦
          let same = (string_eq.test_iff key k).0 here in
          let version = some_injective (
            sym (lookup-insert_self s.latest key o.version_id)
            ∙ lookup_same (insert key o.version_id s.latest) key k here
            ∙ e) in
          (
            o,
            ap (λ i. lookup (i, v) (insert (key, o.version_id) o s.objects)) (sym same)
                ∙ ap (λ i. lookup (key, i) (insert (key, o.version_id) o s.objects)) (sym version)
                ∙ lookup-insert_self s.objects (key, o.version_id) o,
          )
      | inr there ↦
          let (a, hit) =
            versioned.latest_found k v
              (sym (lookup-insert_ne s.latest key k o.version_id there) ∙ e) in
          (
            a,
            lookup-insert_ne s.objects (key, o.version_id) (k, v) o
                  (other_key s key k v o.version_id a versioned fresh hit)
                ∙ hit,
          )
    ];
    found_latest = λ k v a hit. elim (Bool-cases (at key o.version_id == at k v)) [
      | inl here ↦
          let (same, added) = found_there s.objects (key, o.version_id) (k, v) o a here hit in
          (
            ap (λ p. lookup p.0 (insert key o.version_id s.latest)) (sym same)
                ∙ lookup-insert_self s.latest key o.version_id
                ∙ ap (λ p. some p.1) same,
            ap (λ x. x.version_id) (sym added) ∙ ap (λ p. p.1) same,
          )
      | inr there ↦
          let (newest, named) =
            versioned.found_latest k v a
              (sym (lookup-insert_ne s.objects (key, o.version_id) (k, v) o there) ∙ hit) in
          (
            lookup-insert_ne s.latest key k o.version_id (key_differs s.latest key k v fresh newest)
                ∙ newest,
            named,
          )
    ];
  }

  pub StoreChange-IsVersioned :
      (s s' : InMemoryObjectStore B) → IsVersioned s → StoreChange s s' → IsVersioned s'
  StoreChange-IsVersioned s _ versioned same_store = versioned
  StoreChange-IsVersioned s _ versioned (added_object key o fresh) =
      added-IsVersioned s key o versioned fresh
  StoreChange-IsVersioned s _ versioned (marked_object key w o found) =
      marked-IsVersioned s key w o versioned found
