-- ===== src/Observatory/Journal.antt =====
-- packages/platform/src/vda_platform/observatory/journal.py: `ObservatoryJournal`.
-- Metadata have text keys, as JSON has. Parameters: whether a key in lower case has a forbidden term,
-- the length of `json.dumps`, the `==` of two metadata, and the time of an append as a text.
pub mod Screening
use grok_bot_data.Prelude.{
  ℕ, String, Bool, true, not, Option, none, some, List, [], ltb, Result, ok, err, Exec, pure, gets,
  lift, raise_if, modify, filter, any, elem, string_eq, pair_eq, option_eq, nat_eq, ◌&&◌, ◌||◌, ◌∷◌,
  ◌++◌, ◌==◌, ◌!=◌, ◌>>=◌, ◌>>◌, if◌then◌else◌,
}
use grok_bot_data.Prelude.Dict.{Dict, lookup, insert}

-- `ObservatoryViolation` with one constructor for each message
pub data ObservatoryViolation : Type 0 where
  identity_required audience_empty record_reused metadata_too_large : ObservatoryViolation
  forbidden_metadata unsupported_type : ObservatoryViolation

-- A value of the metadata: `None`, a text, a number, a flag, a list, a dict, or another type.
mutual
  pub data Metadata : Type 0 where
    nothing other_value : Metadata
    text : String → Metadata
    number : ℕ → Metadata
    flag : Bool → Metadata
    items : MetadataList → Metadata
    object : MetadataFields → Metadata

  pub data MetadataList : Type 0 where
    no_items : MetadataList
    item : Metadata → MetadataList → MetadataList

  pub data MetadataFields : Type 0 where
    no_fields : MetadataFields
    field : String → Metadata → MetadataFields → MetadataFields

pub record JournalRecord : Type 0 where
  pub record_id : String
  pub workspace_id : String
  pub conversation_id : String
  pub run_id : String
  pub actor_id : String
  pub event_type : String
  pub audience_principals : List String
  pub metadata : Metadata
  pub occurred_at : String

pub record ObservatoryJournal : Type 0 where
  pub records : List JournalRecord
  pub by_id : Dict String JournalRecord

abbrev pub JournalCommand : Type 0 → Type 0
JournalCommand A = Exec ObservatoryJournal ObservatoryViolation A

-- `ObservatoryJournal.__init__`
unfoldable pub new : ObservatoryJournal
new = record { records = []; by_id = [] }

abbrev pub then_build :
    {A B : Type 0} → (A → B) → Result ObservatoryViolation A → Result ObservatoryViolation B
then_build f (ok a) = ok (f a)
then_build f (err e) = err e

abbrev pub then_both :
    {A B C : Type 0}
    → (A → B → C)
    → Result ObservatoryViolation A
    → Result ObservatoryViolation B
    → Result ObservatoryViolation C
then_both f (err e) rest = err e
then_both f (ok a) rest = then_build (f a) rest

module _ (is_forbidden : String → Bool) where
  unfoldable mutual
    -- `_safe_metadata`, behind the test of its key
    pub safe_value : String → Metadata → Result ObservatoryViolation Metadata
    safe_value key nothing = ok nothing
    safe_value key (text t) = ok (text t)
    safe_value key (number n) = ok (number n)
    safe_value key (flag b) = ok (flag b)
    safe_value key (object fields) = then_build object (safe_fields fields)
    safe_value key (items list) = then_build items (safe_items key list)
    safe_value key other_value = err unsupported_type

    pub safe_items : String → MetadataList → Result ObservatoryViolation MetadataList
    safe_items key no_items = ok no_items
    safe_items key (item value rest) =
        then_both item (if is_forbidden key then err forbidden_metadata else safe_value key value)
          (safe_items key rest)

    pub safe_fields : MetadataFields → Result ObservatoryViolation MetadataFields
    safe_fields no_fields = ok no_fields
    safe_fields (field key value rest) =
        then_both (field key)
          (if is_forbidden key then err forbidden_metadata else safe_value key value)
          (safe_fields rest)

  -- `_safe_metadata`
  unfoldable pub safe_metadata : String → Metadata → Result ObservatoryViolation Metadata
  safe_metadata key value =
      if is_forbidden key then err forbidden_metadata else safe_value key value

  module _ (json_length : Metadata → ℕ) (metadata_eq : Metadata → Metadata → Bool) where
    -- `append` behind its first checks: a known record, or a new one
    unfoldable pub store_record :
        JournalRecord → Option JournalRecord → JournalCommand JournalRecord
    unfolding safe_metadata
    store_record fresh (some existing) = do
      raise_if
          (existing.workspace_id != fresh.workspace_id
            || existing.conversation_id != fresh.conversation_id
            || existing.run_id != fresh.run_id
            || not (metadata_eq existing.metadata fresh.metadata))
          record_reused
      pure existing
    store_record fresh none = do
      safe ← lift (safe_metadata "metadata" fresh.metadata)
      raise_if (ltb 16384 (json_length safe)) metadata_too_large
      let stored : JournalRecord = record fresh { metadata = safe }
      modify (λ s. record s {
        records = s.records ++ stored ∷ [];
        by_id = insert fresh.record_id stored s.by_id;
      })
      pure stored

    -- `ObservatoryJournal.append`; its arguments and the time of the append are those of `fresh`
    unfoldable pub append : JournalRecord → JournalCommand JournalRecord
    unfolding store_record
    append fresh = do
      raise_if
          (fresh.record_id == ""
            || fresh.workspace_id == ""
            || fresh.conversation_id == ""
            || fresh.run_id == "")
          identity_required
      raise_if (not (any (λ principal. true) fresh.audience_principals)) audience_empty
      existing ← gets (λ s. lookup fresh.record_id s.by_id)
      store_record fresh existing

-- `ObservatoryJournal.visible_to`
unfoldable pub visible_to : String → String → String → ObservatoryJournal → List JournalRecord
visible_to principal_id workspace_id conversation_id s =
    filter
      (λ entry.
        entry.workspace_id == workspace_id
        && entry.conversation_id == conversation_id
        && elem principal_id entry.audience_principals)
      s.records
