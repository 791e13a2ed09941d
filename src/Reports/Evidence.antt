-- ===== src/Reports/Evidence.antt =====
-- packages/data_profiling/src/vda_data/evidence/manifest.py: evidence of a report.
-- Whether a text is 64 hexadecimal digits, the regular expression of the source, is the
-- parameter `is_sha256`.
use grok_bot_data.Prelude.{
  String, Bool, true, false, not, List, [], map, Result, ok, err, all, ◌||◌, ◌∷◌, ◌==◌,
  if◌then◌else◌, string_eq, pair_eq, nat_eq, option_eq,
}

-- `EvidenceValidationError`, one constructor for each message
pub data EvidenceError : Type 0 where
  bad_sha256 fields_required no_references not_approved : EvidenceError

pub record EvidenceRef : Type 0 where
  pub evidence_id : String
  pub source_sha256 : String
  pub source_version : String
  pub method_version : String
  pub claim : String
  pub cell_refs : List String
  pub filters : List String
  pub limitations : List String
  pub approved : Bool

pub record EvidenceManifest : Type 0 where
  pub refs : List EvidenceRef

abbrev is_empty : {A : Type 0} → List A → Bool
is_empty [] = true
is_empty (x ∷ xs) = false

-- `EvidenceRef.__post_init__`
unfoldable pub check_ref : (String → Bool) → EvidenceRef → Result EvidenceError EvidenceRef
check_ref is_sha256 ref =
    if not (is_sha256 ref.source_sha256)
    then err bad_sha256
    else if ref.source_version == ""
        || ref.method_version == ""
        || ref.claim == ""
        || is_empty ref.cell_refs
    then err fields_required
    else ok ref

-- `EvidenceManifest.__post_init__`
unfoldable pub check_manifest : EvidenceManifest → Result EvidenceError EvidenceManifest
check_manifest manifest = if is_empty manifest.refs then err no_references else ok manifest

-- `EvidenceManifest.ids`
unfoldable pub ids : EvidenceManifest → List String
ids manifest = map (λ ref. ref.evidence_id) manifest.refs

-- `EvidenceManifest.require_approved`
unfoldable pub require_approved : EvidenceManifest → Result EvidenceError Unit
require_approved manifest =
    if not (all (λ ref. ref.approved) manifest.refs) then err not_approved else ok tt
