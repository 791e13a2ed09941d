-- ===== src/Jobs/Job.antt =====
-- packages/platform/src/vda_platform/jobs/ledger.py: the data and the helpers.
-- A payload is an object of a type `P` with Python's `==`; whether `json.dumps` takes it is the
-- parameter `json_safe`. Times are instants in UTC, as numbers, so `_utc` is the identity, and
-- `now` is always given.
use grok_bot_data.Prelude.{
  ℕ, String, Bool, true, false, Option, none, some, leb, Exec, pure, modify, string_eq, ◌&&◌, ◌||◌,
  ◌==◌, ◌>>◌,
}
use grok_bot_data.Prelude.Dict.{Dict, insert}

-- `JobError` with one constructor for each message, and `FenceError`; `key_error` is an unguarded
-- `d[k]` that misses.
pub data JobError : Type 0 where
  identity_required payload_not_json_safe key_reused job_exists job_not_found : JobError
  claim_arguments lease_not_positive : JobError
  not_leased not_active checkpoint_not_json_safe invalid_wait_reason not_waiting : JobError
  result_ref_required error_code_required fence_error key_error : JobError

pub data JobState : Type 0 where
  queued leased running waiting completed failed cancelled : JobState

pub record Job (P : Type 0) : Type 0 where
  pub job_id : String
  pub workspace_id : String
  pub kind : String
  pub payload : P
  pub idempotency_key : String
  pub state : JobState
  pub lease_owner : Option String
  pub lease_expires_at : Option ℕ
  pub fence : ℕ
  pub attempts : ℕ
  pub checkpoint_revision : ℕ
  pub checkpoint : Option P
  pub wait_reason : Option String
  pub error_code : Option String
  pub result_ref : Option String

pub record JobLedger (P : Type 0) : Type 0 where
  pub default_lease : ℕ
  pub jobs : Dict String (Job P)
  pub idempotency : Dict (String × String) String
  pub created : Dict String ℕ

-- `job.state in {JobState.LEASED, JobState.RUNNING}`
abbrev pub is_active : JobState → Bool
is_active JobState.leased = true
is_active JobState.running = true
is_active _ = false

abbrev pub is_leased : JobState → Bool
is_leased JobState.leased = true
is_leased _ = false

abbrev pub is_queued : JobState → Bool
is_queued JobState.queued = true
is_queued _ = false

abbrev pub is_waiting : JobState → Bool
is_waiting JobState.waiting = true
is_waiting _ = false

-- `job.state in {JobState.COMPLETED, JobState.FAILED, JobState.CANCELLED}`
abbrev pub is_terminal : JobState → Bool
is_terminal JobState.completed = true
is_terminal JobState.failed = true
is_terminal JobState.cancelled = true
is_terminal _ = false

-- `job.lease_expires_at is not None and job.lease_expires_at <= timestamp`
abbrev pub expired : Option ℕ → ℕ → Bool
expired none timestamp = false
expired (some t) timestamp = leb t timestamp

-- the `if` of the generator in `claim`
abbrev pub is_claimable : {P : Type 0} → ℕ → Job P → Bool
is_claimable timestamp job =
    is_queued job.state || (is_active job.state && expired job.lease_expires_at timestamp)

abbrev pub is_wait_reason : String → Bool
is_wait_reason reason =
    reason == "input"
    || reason == "approval"
    || reason == "children"
    || reason == "tool"
    || reason == "peer"

abbrev pub Command : Type 0 → Type 0 → Type 0
Command P A = Exec (JobLedger P) JobError A

module _ {P : Type 0} where
  -- `self._jobs[job_id] = updated; return updated`
  abbrev pub save : String → Job P → Command P (Job P)
  save job_id updated = do
    modify (λ s. record s { jobs = insert job_id updated s.jobs })
    pure updated
