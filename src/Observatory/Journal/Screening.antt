-- ===== src/Observatory/Journal/Screening.antt =====
-- What the journal lets in (observatory/journal.py).
use grok_bot_data.Prelude.{
  ℕ, String, refl, subst, inl, inr, Bool, true, false, not, Option, none, some, List, [], ltb,
  Bool-cases, Result, ok, err, pure, raise_if, any, All, All-append, string_eq, pair_eq, option_eq,
  nat_eq, ◌≡◌, ◌&&◌, ◌||◌, ◌∷◌, ◌==◌, ◌>>◌, if◌then◌else◌,
}
use grok_bot_data.Prelude.Dict.{lookup}
use grok_bot_data.Prelude.Effect.{err-ne-ok, ok_injective}
use grok_bot_data.Observatory.Journal.{
  Metadata, MetadataList, MetadataFields, JournalCommand, JournalRecord, ObservatoryJournal,
  ObservatoryViolation, nothing, other_value, text, number, flag, items, object, no_items, item,
  no_fields, field, safe_value, safe_items, safe_fields, safe_metadata, then_build, then_both,
  forbidden_metadata, store_record, append,
}

module _ (is_forbidden : String → Bool) where
  -- No key at any depth is forbidden, and no value is of another type.
  unfoldable mutual
    pub is_clean : Metadata → Bool
    is_clean nothing = true
    is_clean other_value = false
    is_clean (text t) = true
    is_clean (number n) = true
    is_clean (flag b) = true
    is_clean (items list) = are_clean list
    is_clean (object fields) = fields_clean fields

    pub are_clean : MetadataList → Bool
    are_clean no_items = true
    are_clean (item value rest) = is_clean value && are_clean rest

    pub fields_clean : MetadataFields → Bool
    fields_clean no_fields = true
    fields_clean (field key value rest) =
        not (is_forbidden key) && is_clean value && fields_clean rest

  built :
      {A B : Type 0} (f : A → B) (r : Result ObservatoryViolation A) (b : B)
      → then_build f r ≡ ok b
      → (a : A) × (r ≡ ok a) × (f a ≡ b)
  built f (ok a) b h = (a, refl, ok_injective h)
  built f (err e) b h = absurd (err-ne-ok _ _ h)

  both_built :
      {A B C : Type 0} (f : A → B → C) (r : Result ObservatoryViolation A)
      (q : Result ObservatoryViolation B) (c : C)
      → then_both f r q ≡ ok c
      → (a : A) × (b : B) × (r ≡ ok a) × (q ≡ ok b) × (f a b ≡ c)
  both_built f (ok a) (ok b) c h = (a, b, refl, refl, ok_injective h)
  both_built f (ok a) (err e) c h = absurd (err-ne-ok _ _ h)
  both_built f (err e) q c h = absurd (err-ne-ok _ _ h)

  allowed :
      (b : Bool) (r : Result ObservatoryViolation Metadata) (m : Metadata)
      → (if b then err forbidden_metadata else r) ≡ ok m
      → (b ≡ false) × (r ≡ ok m)
  allowed true r m h = absurd (err-ne-ok _ _ h)
  allowed false r m h = (refl, h)

  mutual
    unfolding safe_value is_clean

    value_clean :
        (key : String) (v w : Metadata) → safe_value is_forbidden key v ≡ ok w → is_clean w ≡ true
    value_clean key nothing w h = subst (λ x. is_clean x ≡ true) (ok_injective h) refl
    value_clean key (text t) w h = subst (λ x. is_clean x ≡ true) (ok_injective h) refl
    value_clean key (number n) w h = subst (λ x. is_clean x ≡ true) (ok_injective h) refl
    value_clean key (flag b) w h = subst (λ x. is_clean x ≡ true) (ok_injective h) refl
    value_clean key other_value w h = absurd (err-ne-ok _ _ h)
    value_clean key (object fields) w h =
        let (made, ran, same) = built object (safe_fields is_forbidden fields) w h in
        subst (λ x. is_clean x ≡ true) same (fields_made fields made ran)
    value_clean key (items list) w h =
        let (made, ran, same) = built items (safe_items is_forbidden key list) w h in
        subst (λ x. is_clean x ≡ true) same (items_made key list made ran)

    items_made :
        (key : String) (v w : MetadataList)
        → safe_items is_forbidden key v ≡ ok w
        → are_clean w ≡ true
    items_made key no_items w h = subst (λ x. are_clean x ≡ true) (ok_injective h) refl
    items_made key (item value rest) w h =
        let (a, b, first, others, same) =
          both_built item
            (if is_forbidden key then err forbidden_metadata else safe_value is_forbidden key value)
            (safe_items is_forbidden key rest) w h in
        let (open_key, ran) =
          allowed (is_forbidden key) (safe_value is_forbidden key value) a first in
        subst (λ x. are_clean x ≡ true) same
          (rw (value_clean key value a ran, items_made key rest b others) refl)

    fields_made : (v w : MetadataFields) → safe_fields is_forbidden v ≡ ok w → fields_clean w ≡ true
    fields_made no_fields w h = subst (λ x. fields_clean x ≡ true) (ok_injective h) refl
    fields_made (field key value rest) w h =
        let (a, b, first, others, same) =
          both_built (field key)
            (if is_forbidden key then err forbidden_metadata else safe_value is_forbidden key value)
            (safe_fields is_forbidden rest) w h in
        let (open_key, ran) =
          allowed (is_forbidden key) (safe_value is_forbidden key value) a first in
        subst (λ x. fields_clean x ≡ true) same
          (rw (open_key, value_clean key value a ran, fields_made rest b others) refl)

  -- Metadata that pass the screen have no forbidden key at any depth and no value of another type.
  pub safe_metadata_clean :
      (key : String) (v w : Metadata) → safe_metadata is_forbidden key v ≡ ok w → is_clean w ≡ true
  unfolding safe_metadata
  safe_metadata_clean key v w h =
      value_clean key v w (allowed (is_forbidden key) (safe_value is_forbidden key v) w h).1

  module _ (json_length : Metadata → ℕ) (metadata_eq : Metadata → Metadata → Bool) where
    -- Every record is clean.
    abbrev pub AllClean : ObservatoryJournal → Type 0
    AllClean s = All (λ (r : JournalRecord). is_clean r.metadata ≡ true) s.records

    stored_clean :
        (fresh : JournalRecord) (s : ObservatoryJournal) (r : Result ObservatoryViolation Metadata)
        → safe_metadata is_forbidden "metadata" fresh.metadata ≡ r
        → AllClean s
        → AllClean (store_record is_forbidden json_length metadata_eq fresh none s).1
    unfolding store_record
    stored_clean fresh s (err e) screened h = rw screened h
    stored_clean fresh s (ok w) screened h = elim (Bool-cases (ltb 16384 (json_length w))) [
      | inl large ↦ rw (screened, large) h
      | inr small ↦
          rw (screened, small)
            (All-append (λ (r : JournalRecord). is_clean r.metadata ≡ true) s.records _ h
              (safe_metadata_clean "metadata" fresh.metadata w screened, tt))
    ]

    raise_if-AllClean :
        {A : Type 0} (c : Bool) (e : ObservatoryViolation) (k : JournalCommand A)
        (s : ObservatoryJournal)
        → AllClean s
        → AllClean (k s).1
        → AllClean ((raise_if c e >> k) s).1
    raise_if-AllClean true e k s h after = h
    raise_if-AllClean false e k s h after = after

    store-AllClean :
        (fresh : JournalRecord) (known : Option JournalRecord) (s : ObservatoryJournal)
        → AllClean s
        → AllClean (store_record is_forbidden json_length metadata_eq fresh known s).1
    unfolding store_record
    store-AllClean fresh none s h = stored_clean fresh s _ refl h
    store-AllClean fresh (some existing) s h = raise_if-AllClean _ _ (pure existing) s h h

    append-AllClean :
        (fresh : JournalRecord) (s : ObservatoryJournal)
        → AllClean s
        → AllClean (append is_forbidden json_length metadata_eq fresh s).1
    unfolding append
    append-AllClean fresh s h =
        elim (Bool-cases (
          fresh.record_id == ""
          || fresh.workspace_id == ""
          || fresh.conversation_id == ""
          || fresh.run_id == "")) [
            | inl unnamed ↦ rw unnamed h
            | inr named ↦
                elim (Bool-cases (not (any (λ (p : String). true) fresh.audience_principals))) [
                  | inl empty ↦ rw (named, empty) h
                  | inr heard ↦
                      rw (named, heard) (store-AllClean fresh (lookup fresh.record_id s.by_id) s h)
                ]
          ]

    unfoldable pub appends : List JournalRecord → ObservatoryJournal → ObservatoryJournal
    appends [] s = s
    appends (fresh ∷ rest) s = appends rest (append is_forbidden json_length metadata_eq fresh s).1

    -- Whatever is appended to a journal whose records are clean, with calls that raise among them, no
    -- record holds metadata with a forbidden key at any depth, or a value of another type.
    pub appends-AllClean :
        (calls : List JournalRecord) (s : ObservatoryJournal)
        → AllClean s
        → AllClean (appends calls s)
    unfolding appends
    appends-AllClean [] s h = h
    appends-AllClean (fresh ∷ rest) s h = appends-AllClean rest _ (append-AllClean fresh s h)
