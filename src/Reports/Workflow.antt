-- ===== src/Reports/Workflow.antt =====
-- packages/data_profiling/src/vda_data/reports/workflow.py: `ReportWorkflow`.
-- The decimal text of a number is the parameter `show`.
pub mod Publication
use grok_bot_data.Prelude.{
  ℕ, String, Bool, true, false, not, Option, none, some, [], Result, ok, err, Exec, pure, gets,
  or_raise, lift, raise_if, modify, string_eq, pair_eq, option_eq, nat_eq, ◌+◌, ◌||◌, ◌==◌, ◌!=◌,
  ◌>>=◌, ◌>>◌,
}
use grok_bot_data.Prelude.Dict.{Dict, lookup, insert, contains}
use Prim.Native.String.{◌++◌ as concat}
use grok_bot_data.Reports.Evidence.{EvidenceManifest, EvidenceError, require_approved}

-- `ReportError` with one constructor for each message, and the error of the evidence
pub data ReportError : Type 0 where
  report_exists patch_refused snapshot_refused submit_refused publish_refused : ReportError
  same_reviewer report_not_found : ReportError
  evidence_error : EvidenceError → ReportError

pub data ReportStatus : Type 0 where
  draft snapshotted submitted published : ReportStatus

pub record Report : Type 0 where
  pub report_id : String
  pub workspace_id : String
  pub owner_id : String
  pub title : String
  pub body : String
  pub evidence : EvidenceManifest
  pub status : ReportStatus
  pub snapshot_id : Option String
  pub submitter_id : Option String
  pub reviewer_id : Option String
  pub revision : ℕ

pub record ReportWorkflow : Type 0 where
  pub reports : Dict String Report

-- `ReportWorkflow.__init__`
unfoldable pub new : ReportWorkflow
new = record { reports = [] }

abbrev pub ReportCommand : Type 0 → Type 0
ReportCommand A = Exec ReportWorkflow ReportError A

abbrev pub is_draft : ReportStatus → Bool
is_draft draft = true
is_draft _ = false

abbrev pub is_snapshot : ReportStatus → Bool
is_snapshot snapshotted = true
is_snapshot _ = false

abbrev pub is_submitted : ReportStatus → Bool
is_submitted submitted = true
is_submitted _ = false

-- `reviewer_id == report.submitter_id`
abbrev pub is_person : Option String → String → Bool
is_person none actor = false
is_person (some person) actor = person == actor

-- `self._reports[report_id] = updated; return updated`
abbrev pub save : String → Report → ReportCommand Report
save report_id updated = do
  modify (λ s. record s { reports = insert report_id updated s.reports })
  pure updated

-- an error of the evidence passes through
abbrev pub evidence_check : {A : Type 0} → Result EvidenceError A → Result ReportError A
evidence_check (ok a) = ok a
evidence_check (err e) = err (evidence_error e)

-- `ReportWorkflow._get`
unfoldable pub get : String → ReportCommand Report
get report_id = do found ← gets (λ s. lookup report_id s.reports); or_raise found report_not_found

-- `ReportWorkflow.create`
unfoldable pub create : String → String → String → String → EvidenceManifest → ReportCommand Report
create report_id workspace_id owner_id title evidence = do
  taken ← gets (λ s. contains report_id s.reports)
  raise_if taken report_exists
  save report_id (record {
    report_id = report_id;
    workspace_id = workspace_id;
    owner_id = owner_id;
    title = title;
    body = "";
    evidence = evidence;
    status = draft;
    snapshot_id = none;
    submitter_id = none;
    reviewer_id = none;
    revision = 0;
  })

-- `ReportWorkflow.patch`
unfoldable pub patch : String → String → String → ReportCommand Report
unfolding get
patch report_id actor_id body = do
  report ← get report_id
  raise_if (not (is_draft report.status) || actor_id != report.owner_id) patch_refused
  save report_id (record report { body = body; revision = report.revision + 1 })

-- `ReportWorkflow.snapshot`
unfoldable pub snapshot : (ℕ → String) → String → String → ReportCommand Report
unfolding get require_approved
snapshot show report_id actor_id = do
  report ← get report_id
  raise_if (not (is_draft report.status) || actor_id != report.owner_id) snapshot_refused
  lift (evidence_check (require_approved report.evidence))
  save report_id (record report {
    status = snapshotted;
    snapshot_id = some (concat report_id (concat ":r" (show report.revision)));
  })

-- `ReportWorkflow.request_submit`
unfoldable pub request_submit : String → String → Bool → ReportCommand Report
unfolding get
request_submit report_id actor_id is_bot = do
  report ← get report_id
  raise_if (is_bot || not (is_snapshot report.status) || actor_id != report.owner_id) submit_refused
  save report_id (record report { status = submitted; submitter_id = some actor_id })

-- `ReportWorkflow.review_and_publish`
unfoldable pub review_and_publish : String → String → Bool → ReportCommand Report
unfolding get
review_and_publish report_id reviewer_id is_bot = do
  report ← get report_id
  raise_if (is_bot || not (is_submitted report.status)) publish_refused
  raise_if (is_person report.submitter_id reviewer_id) same_reviewer
  save report_id (record report { status = published; reviewer_id = some reviewer_id })
