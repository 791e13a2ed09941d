-- ===== src/Jobs/Ledger.antt =====
-- packages/platform/src/vda_platform/jobs/ledger.py: the methods of `JobLedger`.
pub mod Evolution
pub mod Keyed
pub mod Claiming
pub mod Methods
pub mod Valid
pub mod Claim
pub mod Enqueue
pub mod Trace
pub mod Retry
pub mod Call
pub mod Fencing
use grok_bot_data.Prelude.{
  ℕ, String, Bool, true, not, Option, none, some, List, [], map, ltb, leb, Eq, pure, gets, or_raise,
  raise_if, modify, take, filter, snd, sorted, get_or, string_eq, pair_eq, nat_eq, ◌+◌, ◌||◌, ◌∷◌,
  ◌==◌, ◌!=◌, ◌>>=◌, ◌>>◌, if◌then◌else◌,
}
use grok_bot_data.Prelude.Dict.{Dict, lookup, insert, contains, values}
use grok_bot_data.Jobs.Job.{
  Job, JobLedger, JobState, identity_required, payload_not_json_safe, key_reused, job_exists,
  job_not_found, claim_arguments, lease_not_positive, not_leased, not_active,
  checkpoint_not_json_safe, invalid_wait_reason, not_waiting, result_ref_required,
  error_code_required, fence_error, key_error, is_active, is_leased, is_waiting, is_terminal,
  is_claimable, is_wait_reason, Command, save,
}

-- `job.lease_owner != worker_id`
abbrev pub owner_differs : Option String → String → Bool
owner_differs none worker_id = true
owner_differs (some owner) worker_id = owner != worker_id

module _ {P : Type 0} where
  -- `JobLedger.__init__`
  unfoldable pub init : ℕ → Option (JobLedger P)
  init default_lease_seconds =
      if leb default_lease_seconds 0
      then none
      else some (record {
        default_lease = default_lease_seconds;
        jobs = [];
        idempotency = [];
        created = [];
      })

  -- `JobLedger.get`
  unfoldable pub get : String → Command P (Job P)
  get job_id = do found ← gets (λ s. lookup job_id s.jobs); or_raise found job_not_found

  -- `JobLedger._guard`
  unfoldable pub guard : String → String → ℕ → Command P (Job P)
  unfolding get
  guard job_id worker_id fence = do
    job ← get job_id
    raise_if (owner_differs job.lease_owner worker_id || job.fence != fence) fence_error
    pure job

module _ {P : Type 0} ⦃e : Eq P⦄ where
  -- the retry of a known key, in `enqueue`
  unfoldable pub existing_job : Job P → P → String → Command P (Job P)
  existing_job existing payload kind = do
    raise_if (existing.payload != payload || existing.kind != kind) key_reused
    pure existing

  abbrev new_job : String → String → String → P → String → Job P
  new_job job_id workspace_id kind payload idempotency_key = record {
    job_id = job_id;
    workspace_id = workspace_id;
    kind = kind;
    payload = payload;
    idempotency_key = idempotency_key;
    state = JobState.queued;
    lease_owner = none;
    lease_expires_at = none;
    fence = 0;
    attempts = 0;
    checkpoint_revision = 0;
    checkpoint = none;
    wait_reason = none;
    error_code = none;
    result_ref = none;
  }

  -- the three writes at the end of `enqueue`
  abbrev record_job : Job P → ℕ → JobLedger P → JobLedger P
  record_job job timestamp s = record s {
    jobs = insert job.job_id job s.jobs;
    idempotency = insert (job.workspace_id, job.idempotency_key) job.job_id s.idempotency;
    created = insert job.job_id timestamp s.created;
  }

  -- `JobLedger.enqueue` behind its checks of the arguments
  unfoldable pub admit :
      String → String → String → P → String → ℕ → Option String → Command P (Job P)
  unfolding existing_job
  admit job_id workspace_id kind payload idempotency_key now (some existing_id) = do
    found ← gets (λ s. lookup existing_id s.jobs)
    existing ← or_raise found key_error
    existing_job existing payload kind
  admit job_id workspace_id kind payload idempotency_key now none = do
    taken ← gets (λ s. contains job_id s.jobs)
    raise_if taken job_exists
    let job = new_job job_id workspace_id kind payload idempotency_key
    modify (record_job job now)
    pure job

  -- `JobLedger.enqueue`
  unfoldable pub enqueue :
      (P → Bool) → String → String → String → P → String → ℕ → Command P (Job P)
  unfolding admit
  enqueue json_safe job_id workspace_id kind payload idempotency_key now = do
    raise_if (job_id == "" || workspace_id == "" || kind == "" || idempotency_key == "")
        identity_required
    raise_if (not (json_safe payload)) payload_not_json_safe
    existing_id ← gets (λ s. lookup (workspace_id, idempotency_key) s.idempotency)
    admit job_id workspace_id kind payload idempotency_key now existing_id

-- The key of each candidate of `sorted(..., key=lambda job: self._created[job.job_id])`.
abbrev pub keyed {ℓ} : {A : Type ℓ} → A → Option ℕ → Option (List (ℕ × A)) → Option (List (ℕ × A))
keyed a (some t) (some rest) = some ((t, a) ∷ rest)
keyed a _ _ = none

module _ {P : Type 0} where
  unfoldable pub with_keys : Dict String ℕ → List (Job P) → Option (List (ℕ × Job P))
  with_keys created [] = some []
  with_keys created (job ∷ rest) = keyed job (lookup job.job_id created) (with_keys created rest)

  -- the `replace` of `claim`
  abbrev pub leased_to : String → ℕ → Job P → Job P
  leased_to worker_id expires job = record job {
    state = JobState.leased;
    lease_owner = some worker_id;
    lease_expires_at = some expires;
    fence = job.fence + 1;
    attempts = job.attempts + 1;
    wait_reason = none;
  }

  -- the loop of `claim`
  unfoldable pub claim_all : String → ℕ → List (Job P) → Command P (List (Job P))
  claim_all worker_id expires [] = pure []
  claim_all worker_id expires (job ∷ rest) = do
    updated ← save job.job_id (leased_to worker_id expires job)
    claimed ← claim_all worker_id expires rest
    pure (updated ∷ claimed)

  -- `JobLedger.claim`; a negative limit or lease is refused as zero is
  unfoldable pub claim : String → ℕ → ℕ → Option ℕ → Command P (List (Job P))
  claim worker_id now limit lease_seconds = do
    raise_if (worker_id == "" || ltb limit 1) claim_arguments
    lease ← gets (λ s. get_or s.default_lease lease_seconds)
    raise_if (leb lease 0) lease_not_positive
    found ← gets (λ s. with_keys s.created (filter (is_claimable now) (values s.jobs)))
    candidates ← or_raise found key_error
    claim_all worker_id (now + lease) (take limit (map snd (sorted candidates)))

  -- `JobLedger.start`
  unfoldable pub start : String → String → ℕ → Command P (Job P)
  unfolding guard
  start job_id worker_id fence = do
    job ← guard job_id worker_id fence
    raise_if (not (is_leased job.state)) not_leased
    save job_id (record job { state = JobState.running })

  -- `JobLedger.heartbeat`
  unfoldable pub heartbeat : String → String → ℕ → ℕ → Command P (Job P)
  unfolding guard
  heartbeat job_id worker_id fence now = do
    job ← guard job_id worker_id fence
    raise_if (not (is_active job.state)) not_active
    lease ← gets (λ s. s.default_lease)
    save job_id (record job { lease_expires_at = some (now + lease) })

  -- `JobLedger.checkpoint`
  unfoldable pub checkpoint : (P → Bool) → String → String → ℕ → P → Command P (Job P)
  unfolding guard
  checkpoint json_safe job_id worker_id fence contents = do
    job ← guard job_id worker_id fence
    raise_if (not (is_active job.state)) not_active
    raise_if (not (json_safe contents)) checkpoint_not_json_safe
    save job_id (record job {
      checkpoint_revision = job.checkpoint_revision + 1;
      checkpoint = some contents;
    })

  -- `JobLedger.wait`
  unfoldable pub wait : String → String → ℕ → String → Command P (Job P)
  unfolding guard
  wait job_id worker_id fence reason = do
    raise_if (not (is_wait_reason reason)) invalid_wait_reason
    job ← guard job_id worker_id fence
    raise_if (not (is_active job.state)) not_active
    save job_id (record job {
      state = JobState.waiting;
      lease_owner = none;
      lease_expires_at = none;
      wait_reason = some reason;
    })

  -- `JobLedger.resume`
  unfoldable pub resume : String → Command P (Job P)
  unfolding get
  resume job_id = do
    job ← get job_id
    raise_if (not (is_waiting job.state)) not_waiting
    save job_id (record job {
      state = JobState.queued;
      lease_owner = none;
      lease_expires_at = none;
      wait_reason = none;
      error_code = none;
    })

  -- `JobLedger.complete`
  unfoldable pub complete : String → String → ℕ → String → Command P (Job P)
  unfolding guard
  complete job_id worker_id fence result_ref = do
    raise_if (result_ref == "") result_ref_required
    job ← guard job_id worker_id fence
    raise_if (not (is_active job.state)) not_active
    save job_id (record job {
      state = JobState.completed;
      lease_owner = none;
      lease_expires_at = none;
      result_ref = some result_ref;
    })

  -- `JobLedger.fail`
  unfoldable pub fail : String → String → ℕ → String → Bool → Command P (Job P)
  unfolding guard
  fail job_id worker_id fence error_code retryable = do
    raise_if (error_code == "") error_code_required
    job ← guard job_id worker_id fence
    raise_if (not (is_active job.state)) not_active
    save job_id (record job {
      state = if retryable then JobState.queued else JobState.failed;
      lease_owner = none;
      lease_expires_at = none;
      error_code = some error_code;
    })

  -- `JobLedger.cancel`
  unfoldable pub cancel : String → Command P (Job P)
  unfolding get
  cancel job_id = do
    job ← get job_id
    if is_terminal job.state
        then pure job
        else save job_id
            (record job { state = JobState.cancelled; lease_owner = none; lease_expires_at = none })
