-- ===== src/Tests/Reporting.antt =====
-- The theorems on reports at a report that is written, reviewed and published.
use grok_bot_data.Prelude.{
  ℕ, String, refl, true, false, some, List, [], ◌≡◌, ◌≢◌, ◌∷◌, string_eq, pair_eq, nat_eq,
  option_eq,
}
use grok_bot_data.Prelude.Dict.{lookup, insert}
use grok_bot_data.Reports.Evidence.{EvidenceRef, EvidenceManifest, require_approved}
use grok_bot_data.Reports.Workflow.{
  Report, ReportWorkflow, published, snapshotted, is_draft, new, get, create, patch, snapshot,
  request_submit, review_and_publish,
}
use grok_bot_data.Reports.Workflow.Publication.{
  ReportCall, create_call, patch_call, snapshot_call, submit_call, publish_call, step, steps,
  content, IsApproved, published_sound, steps_frozen,
}

abbrev source : EvidenceRef
source = record {
  evidence_id = "e1";
  source_sha256 = "00";
  source_version = "1";
  method_version = "1";
  claim = "rows are unique";
  cell_refs = "A1" ∷ [];
  filters = [];
  limitations = [];
  approved = true;
}

abbrev evidence : EvidenceManifest
evidence = record { refs = source ∷ [] }

abbrev show : ℕ → String
show n = "1"

abbrev report_calls : List ReportCall
report_calls =
    create_call "report" "team" "ann" "Sales" evidence
    ∷ patch_call "report" "ann" "text"
    ∷ snapshot_call "report" "ann"
    ∷ submit_call "report" "ann" false
    ∷ publish_call "report" "bob" false
    ∷ []

abbrev final_report : Report
final_report = record {
  report_id = "report";
  workspace_id = "team";
  owner_id = "ann";
  title = "Sales";
  body = "text";
  evidence = evidence;
  status = published;
  snapshot_id = some "report:r1";
  submitter_id = some "ann";
  reviewer_id = some "bob";
  revision = 1;
}

published_sound_example :
    IsApproved final_report
    × (final_report.submitter_id ≡ some "ann")
    × ((reviewer : String) × (final_report.reviewer_id ≡ some reviewer) × (reviewer ≢ "ann"))
unfolding steps step new get create patch snapshot request_submit review_and_publish
    require_approved lookup insert
published_sound_example = published_sound show report_calls "report" final_report refl refl

abbrev snapshot_workflow : ReportWorkflow
snapshot_workflow = record {
  reports = ("report", record final_report { status = snapshotted }) ∷ [];
}

steps_frozen_example :
    (b : Report) × (lookup "report"
        (steps show (patch_call "report" "ann" "new" ∷ []) snapshot_workflow).reports
      ≡ some b)
    × (content b ≡ content (record final_report { status = snapshotted }))
    × (is_draft b.status ≡ false)
unfolding lookup
steps_frozen_example =
    steps_frozen show (patch_call "report" "ann" "new" ∷ []) snapshot_workflow "report"
      (record final_report { status = snapshotted }) refl refl
