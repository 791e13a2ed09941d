-- ===== src/Reports/Workflow/Publication.antt =====
-- What a published report has behind it (reports/workflow.py).
use mathlib.Core.Bool.{true≢false}
use grok_bot_data.Prelude.{
  ℕ, String, refl, sym, ap, subst, inl, inr, Bool, true, false, not, some, List, [], Bool-cases,
  Option-cases, Result, all, string_eq, some_injective, passed_not, pair_eq, option_eq, nat_eq, ◌+◌,
  ◌≡◌, ◌≢◌, ◌⊎◌, ◌||◌, ◌∷◌, ◌∙◌, ◌==◌, ◌!=◌, ◌>>=◌,
}
use grok_bot_data.Prelude.Dict.{
  lookup, insert, key_differs, lookup-insert_self, lookup-insert_ne, lookup_same,
}
use grok_bot_data.Prelude.Outcome.{Outcome, refused, moved, Outcome-steps, Outcome-found}
use grok_bot_data.Reports.Evidence.{EvidenceManifest, EvidenceRef, require_approved}
use grok_bot_data.Reports.Workflow.{
  Report, ReportStatus, ReportError, ReportWorkflow, ReportCommand, draft, snapshotted, submitted,
  published, is_draft, is_snapshot, is_submitted, is_person, get, create, patch, snapshot,
  request_submit, review_and_publish, new,
}

pub data ReportCall : Type 0 where
  create_call : String → String → String → String → EvidenceManifest → ReportCall
  patch_call : String → String → String → ReportCall
  snapshot_call : String → String → ReportCall
  submit_call publish_call : String → String → Bool → ReportCall

unfoldable pub step : (ℕ → String) → ReportCall → ReportWorkflow → ReportWorkflow
step show (create_call id workspace owner title evidence) s =
    (create id workspace owner title evidence s).1
step show (patch_call id actor body) s = (patch id actor body s).1
step show (snapshot_call id actor) s = (snapshot show id actor s).1
step show (submit_call id actor is_bot) s = (request_submit id actor is_bot s).1
step show (publish_call id reviewer is_bot) s = (review_and_publish id reviewer is_bot s).1

unfoldable pub steps : (ℕ → String) → List ReportCall → ReportWorkflow → ReportWorkflow
steps show [] s = s
steps show (call ∷ rest) s = steps show rest (step show call s)

abbrev pub IsApproved : Report → Type 0
IsApproved report = all (λ (ref : EvidenceRef). ref.approved) report.evidence.refs ≡ true

-- What each status promises of a report.
abbrev pub Promise : ReportStatus → Report → Type 0
Promise draft report = Unit
Promise snapshotted report = IsApproved report
Promise submitted report = IsApproved report × (report.submitter_id ≡ some report.owner_id)
Promise published report =
    IsApproved report
    × (report.submitter_id ≡ some report.owner_id)
    × ((reviewer : String) × (report.reviewer_id ≡ some reviewer) × (reviewer ≢ report.owner_id))

abbrev pub IsSound : Report → Type 0
IsSound report = Promise report.status report

-- what the review reads
abbrev pub content : Report → String × String × EvidenceManifest × ℕ
content report = (report.owner_id, report.body, report.evidence, report.revision)

abbrev pub is_published : ReportStatus → Bool
is_published published = true
is_published _ = false

-- A change of a report.
pub record Progress (a b : Report) : Type 0 where
  pub kept_promise : IsSound a → IsSound b
  pub frozen : is_draft a.status ≡ false → content b ≡ content a
  pub owner_kept : b.owner_id ≡ a.owner_id
  pub no_way_back :
      (is_published a.status ≡ false) × (is_draft a.status ≡ false → is_draft b.status ≡ false)

or_false : (a b : Bool) → (a || b) ≡ false → (a ≡ false) × (b ≡ false)
or_false true b h = cc
or_false false b h = (refl, h)

is_draft-drafts : (t : ReportStatus) → not (is_draft t) ≡ false → t ≡ draft
is_draft-drafts draft h = refl
is_draft-drafts snapshotted h = cc
is_draft-drafts submitted h = cc
is_draft-drafts published h = cc

is_snapshot-snapshots : (t : ReportStatus) → not (is_snapshot t) ≡ false → t ≡ snapshotted
is_snapshot-snapshots draft h = cc
is_snapshot-snapshots snapshotted h = refl
is_snapshot-snapshots submitted h = cc
is_snapshot-snapshots published h = cc

is_submitted-submits : (t : ReportStatus) → not (is_submitted t) ≡ false → t ≡ submitted
is_submitted-submits draft h = cc
is_submitted-submits snapshotted h = cc
is_submitted-submits submitted h = refl
is_submitted-submits published h = cc

draft_of :
    (a : Report) (actor : String)
    → (not (is_draft a.status) || actor != a.owner_id) ≡ false
    → a.status ≡ draft
draft_of a actor h = is_draft-drafts a.status (or_false _ _ h).0

not_frozen : {t : ReportStatus} {C : Type 0} → is_draft t ≡ false → t ≡ draft → C
not_frozen f e = absurd (true≢false (subst (λ t. is_draft t ≡ false) e f))

publish-Promise :
    (a : Report) (reviewer : String)
    → IsSound a
    → a.status ≡ submitted
    → is_person a.submitter_id reviewer ≡ false
    → Promise published (record a { status = published; reviewer_id = some reviewer })
publish-Promise a reviewer h e other =
    let promised : Promise submitted a = subst (λ t. Promise t a) e h in
    (
      promised.0,
      promised.1,
      (
        reviewer,
        refl,
        λ same. true≢false (
            sym ((string_eq.test_iff a.owner_id reviewer).1 (sym same))
            ∙ subst (λ p. is_person p reviewer ≡ false) promised.1 other),
      ),
    )

own : (actor owner : String) → (actor != owner) ≡ false → actor ≡ owner
own actor owner h = (string_eq.test_iff actor owner).0 (passed_not (actor == owner) h)

module _ (s : ReportWorkflow) where
  abbrev ReportOutcome : Result ReportError Report × ReportWorkflow → Type 0
  ReportOutcome = Outcome (λ (t : ReportWorkflow). t.reports) Progress s

  get-Outcome :
      (id : String) (k : Report → ReportCommand Report)
      → ((a : Report) → lookup id s.reports ≡ some a → ReportOutcome (k a s))
      → ReportOutcome ((get id >>= k) s)
  unfolding get
  get-Outcome id k h = elim (Option-cases (lookup id s.reports)) [
    | inl miss ↦ rw miss (refused _)
    | inr (a, hit) ↦ rw hit (h a hit)
  ]

  patch-Progress :
      (a : Report) (actor body : String)
      → (not (is_draft a.status) || actor != a.owner_id) ≡ false
      → Progress a (record a { body = body; revision = a.revision + 1 })
  patch-Progress a actor body good = record {
    kept_promise = λ h.
        subst (λ t. Promise t (record a { body = body; revision = a.revision + 1 }))
          (sym (draft_of a actor good)) tt;
    frozen = λ f. not_frozen f (draft_of a actor good);
    owner_kept = refl;
    no_way_back = (ap is_published (draft_of a actor good), λ f. f);
  }

  patch-Outcome : (id actor body : String) → ReportOutcome (patch id actor body s)
  unfolding patch
  patch-Outcome id actor body = get-Outcome id _ λ a hit.
      elim (Bool-cases (not (is_draft a.status) || actor != a.owner_id)) [
        | inl bad ↦ rw bad (refused _)
        | inr good ↦ rw good (moved id a _ _ hit (patch-Progress a actor body good) refl)
      ]

  snapshot-Progress :
      (a : Report) (actor : String) (name : String)
      → (not (is_draft a.status) || actor != a.owner_id) ≡ false
      → IsApproved a
      → Progress a (record a { status = snapshotted; snapshot_id = some name })
  snapshot-Progress a actor name good approved = record {
    kept_promise = λ h. approved;
    frozen = λ f. refl;
    owner_kept = refl;
    no_way_back = (ap is_published (draft_of a actor good), λ f. refl);
  }

  snapshot-Outcome :
      (show : ℕ → String) (id actor : String) → ReportOutcome (snapshot show id actor s)
  unfolding snapshot require_approved
  snapshot-Outcome show id actor = get-Outcome id _ λ a hit.
      elim (Bool-cases (not (is_draft a.status) || actor != a.owner_id)) [
        | inl bad ↦ rw bad (refused _)
        | inr good ↦ elim (Bool-cases (all (λ (ref : EvidenceRef). ref.approved) a.evidence.refs)) [
          | inl approved ↦
              rw (good, approved)
                (moved id a _ _ hit (snapshot-Progress a actor _ good approved) refl)
          | inr missing ↦ rw (good, missing) (refused _)
        ]
      ]

  submit-Progress :
      (a : Report) (actor : String) (is_bot : Bool)
      → (is_bot || not (is_snapshot a.status) || actor != a.owner_id) ≡ false
      → Progress a (record a { status = submitted; submitter_id = some actor })
  submit-Progress a actor is_bot good = record {
    kept_promise = λ h. (
      subst (λ t. Promise t a)
          (is_snapshot-snapshots a.status (or_false _ _ (or_false _ _ good).0).1) h,
      ap some (own actor a.owner_id (or_false _ _ good).1),
    );
    frozen = λ f. refl;
    owner_kept = refl;
    no_way_back = (
      ap is_published (is_snapshot-snapshots a.status (or_false _ _ (or_false _ _ good).0).1),
      λ f. refl,
    );
  }

  submit-Outcome :
      (id actor : String) (is_bot : Bool) → ReportOutcome (request_submit id actor is_bot s)
  unfolding request_submit
  submit-Outcome id actor is_bot = get-Outcome id _ λ a hit.
      elim (Bool-cases (is_bot || not (is_snapshot a.status) || actor != a.owner_id)) [
        | inl bad ↦ rw bad (refused _)
        | inr good ↦ rw good (moved id a _ _ hit (submit-Progress a actor is_bot good) refl)
      ]

  publish-Progress :
      (a : Report) (reviewer : String) (is_bot : Bool)
      → (is_bot || not (is_submitted a.status)) ≡ false
      → is_person a.submitter_id reviewer ≡ false
      → Progress a (record a { status = published; reviewer_id = some reviewer })
  publish-Progress a reviewer is_bot good other = record {
    kept_promise = λ h.
        publish-Promise a reviewer h (is_submitted-submits a.status (or_false _ _ good).1) other;
    frozen = λ f. refl;
    owner_kept = refl;
    no_way_back =
        (ap is_published (is_submitted-submits a.status (or_false _ _ good).1), λ f. refl);
  }

  publish-Outcome :
      (id reviewer : String) (is_bot : Bool)
      → ReportOutcome (review_and_publish id reviewer is_bot s)
  unfolding review_and_publish
  publish-Outcome id reviewer is_bot = get-Outcome id _ λ a hit.
      elim (Bool-cases (is_bot || not (is_submitted a.status))) [
        | inl bad ↦ rw bad (refused _)
        | inr good ↦ elim (Bool-cases (is_person a.submitter_id reviewer)) [
          | inl same ↦ rw (good, same) (refused _)
          | inr other ↦
              rw (good, other)
                (moved id a _ _ hit (publish-Progress a reviewer is_bot good other) refl)
        ]
      ]

  -- `create` leaves the reports there are.
  create-keeps :
      (id workspace owner title : String) (evidence : EvidenceManifest) (report_id : String)
      (a : Report)
      → lookup report_id s.reports ≡ some a
      → lookup report_id (create id workspace owner title evidence s).1.reports ≡ some a
  unfolding create
  create-keeps id workspace owner title evidence report_id a h =
      elim (Option-cases (lookup id s.reports)) [
        | inl miss ↦ rw miss (
            lookup-insert_ne s.reports id report_id _ (key_differs s.reports id report_id a miss h)
            ∙ h)
        | inr (b, hit) ↦ rw hit h
      ]

-- One call leaves a report as it is, or takes it a step of `Progress`.
step-Progress :
    (show : ℕ → String) (call : ReportCall) (s : ReportWorkflow) (id : String) (a : Report)
    → lookup id s.reports ≡ some a
    → (b : Report) × (lookup id (step show call s).reports ≡ some b) × ((b ≡ a) ⊎ Progress a b)
unfolding step
step-Progress show (create_call i w o t e) s id a h = (a, create-keeps s i w o t e id a h, inl refl)
step-Progress show (patch_call i actor body) s id a h =
    Outcome-steps _ _ s _ id a (patch-Outcome s i actor body) h
step-Progress show (snapshot_call i actor) s id a h =
    Outcome-steps _ _ s _ id a (snapshot-Outcome s show i actor) h
step-Progress show (submit_call i actor is_bot) s id a h =
    Outcome-steps _ _ s _ id a (submit-Outcome s i actor is_bot) h
step-Progress show (publish_call i reviewer is_bot) s id a h =
    Outcome-steps _ _ s _ id a (publish-Outcome s i reviewer is_bot) h

-- Every report of the workflow keeps the promise of its status.
abbrev pub AllSound : ReportWorkflow → Type 0
AllSound s = (id : String) (a : Report) → lookup id s.reports ≡ some a → IsSound a

Progress-IsSound : (a b : Report) → (b ≡ a) ⊎ Progress a b → IsSound a → IsSound b
Progress-IsSound a b (inl same) h = subst IsSound (sym same) h
Progress-IsSound a b (inr moved_on) h = moved_on.kept_promise h

Outcome-AllSound :
    (s : ReportWorkflow) (r : Result ReportError Report × ReportWorkflow)
    → Outcome (λ (t : ReportWorkflow). t.reports) Progress s r
    → AllSound s
    → AllSound r.1
Outcome-AllSound s r o h id b hit =
    let (a, was, change) =
      Outcome-found (λ (t : ReportWorkflow). t.reports) Progress s r id b o hit in
    Progress-IsSound a b change (h id a was)

create-AllSound :
    (s : ReportWorkflow) (id workspace owner title : String) (evidence : EvidenceManifest)
    → AllSound s
    → AllSound (create id workspace owner title evidence s).1
unfolding create
create-AllSound s id workspace owner title evidence h = elim (Option-cases (lookup id s.reports)) [
  | inr (b, hit) ↦ rw hit h
  | inl miss ↦ rw miss λ i a there. elim (Bool-cases (id == i)) [
    | inl same ↦
        subst IsSound
          (some_injective (
            sym (lookup-insert_self s.reports id _)
            ∙ lookup_same (insert id _ s.reports) id i same
            ∙ there))
          tt
    | inr other ↦ h i a (sym (lookup-insert_ne s.reports id i _ other) ∙ there)
  ]
]

step-AllSound :
    (show : ℕ → String) (call : ReportCall) (s : ReportWorkflow)
    → AllSound s
    → AllSound (step show call s)
unfolding step
step-AllSound show (create_call i w o t e) s h = create-AllSound s i w o t e h
step-AllSound show (patch_call i actor body) s h =
    Outcome-AllSound s _ (patch-Outcome s i actor body) h
step-AllSound show (snapshot_call i actor) s h =
    Outcome-AllSound s _ (snapshot-Outcome s show i actor) h
step-AllSound show (submit_call i actor is_bot) s h =
    Outcome-AllSound s _ (submit-Outcome s i actor is_bot) h
step-AllSound show (publish_call i reviewer is_bot) s h =
    Outcome-AllSound s _ (publish-Outcome s i reviewer is_bot) h

new-AllSound : AllSound new
unfolding new lookup
new-AllSound id a h = cc

steps-AllSound :
    (show : ℕ → String) (calls : List ReportCall) (s : ReportWorkflow)
    → AllSound s
    → AllSound (steps show calls s)
unfolding steps
steps-AllSound show [] s h = h
steps-AllSound show (call ∷ rest) s h =
    steps-AllSound show rest (step show call s) (step-AllSound show call s h)

-- Whatever calls a new workflow takes, a report that is published then has only approved
-- evidence, was submitted by its owner, and has a reviewer who is not its owner.
pub published_sound :
    (show : ℕ → String) (calls : List ReportCall) (id : String) (a : Report)
    → lookup id (steps show calls new).reports ≡ some a
    → a.status ≡ published
    → IsApproved a
      × (a.submitter_id ≡ some a.owner_id)
      × ((reviewer : String) × (a.reviewer_id ≡ some reviewer) × (reviewer ≢ a.owner_id))
unfolding new
published_sound show calls id a h is_published =
    subst (λ t. Promise t a) is_published (steps-AllSound show calls new new-AllSound id a h)

-- A report that has left the draft keeps its owner, body, evidence and revision, whatever calls
-- follow, and does not become a draft again.
pub steps_frozen :
    (show : ℕ → String) (calls : List ReportCall) (s : ReportWorkflow) (id : String) (a : Report)
    → lookup id s.reports ≡ some a
    → is_draft a.status ≡ false
    → (b : Report) × (lookup id (steps show calls s).reports ≡ some b)
      × (content b ≡ content a)
      × (is_draft b.status ≡ false)
unfolding steps
steps_frozen show [] s id a h left = (a, h, refl, left)
steps_frozen show (call ∷ rest) s id a h left =
    let (b, hb, change) = step-Progress show call s id a h in
    let next = still a b change left in
    let (c, hc, same, gone) = steps_frozen show rest (step show call s) id b hb next.1 in
    (c, hc, same ∙ next.0, gone)
  where
    still :
        (x y : Report)
        → (y ≡ x) ⊎ Progress x y
        → is_draft x.status ≡ false
        → (content y ≡ content x) × (is_draft y.status ≡ false)
    still x y (inl same) k = (ap content same, ap (λ r. is_draft r.status) same ∙ k)
    still x y (inr p) k = (p.frozen k, p.no_way_back.1 k)
