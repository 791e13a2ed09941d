-- ===== src/Tests/JobRuns.antt =====
-- The theorems on jobs at small ledgers. A payload is a number here, and any number is accepted.
use mathlib.Core.Bool.{true≢false}
use grok_bot_data.Prelude.{
  ℕ, min, String, refl, sym, Bool, true, false, none, some, List, [], map, arith, ok, length, All,
  string_eq, ◌≡◌, ◌≢◌, ◌∷◌, ◌∙◌, ◌==◌, pair_eq, nat_eq, option_eq,
}
use grok_bot_data.Prelude.Dict.{lookup, insert}
use grok_bot_data.Jobs.Job.{Job, JobLedger, JobState}
use grok_bot_data.Jobs.Ledger.{init, enqueue, admit, claim, claim_all, with_keys, leased_to}
use grok_bot_data.Jobs.Ledger.Call.{
  Call, run_fenced, step, steps, complete_call, enqueue_call, claim_call, cancel_call, resume_call,
}
use grok_bot_data.Jobs.Ledger.Claim.{claim_runs, claim_spares, claimable_jobs, CanTake}
use grok_bot_data.Jobs.Ledger.Claiming.{lease_each}
use grok_bot_data.Prelude.Sorting.{sorted}
use grok_bot_data.Jobs.Ledger.Evolution.{identity}
use grok_bot_data.Jobs.Ledger.Fencing.{IsRefused}
use grok_bot_data.Jobs.Ledger.Retry.{enqueue_retry, init-IsValid}
use grok_bot_data.Jobs.Ledger.Trace.{stale_worker-IsRefused, steps-IsLater, steps-IsValid, IsLater}
use grok_bot_data.Jobs.Ledger.Valid.{IsValid}
use grok_bot_data.Jobs.Worker.{Handler, returned, run_once}
use grok_bot_data.Jobs.Worker.Settling.{run_once_settles, settled, running_job}

abbrev accept : ℕ → Bool
accept p = true

abbrev empty_ledger : JobLedger ℕ
empty_ledger = record { default_lease = 30; jobs = []; idempotency = []; created = [] }

abbrev queued_job : Job ℕ
queued_job = record {
  job_id = "profile";
  workspace_id = "team";
  kind = "profile.dataset";
  payload = 7;
  idempotency_key = "first";
  state = JobState.queued;
  lease_owner = none;
  lease_expires_at = none;
  fence = 0;
  attempts = 0;
  checkpoint_revision = 0;
  checkpoint = none;
  wait_reason = none;
  error_code = none;
  result_ref = none;
}

abbrev ledger_with : Job ℕ → JobLedger ℕ
ledger_with job = record {
  default_lease = 30;
  jobs = ("profile", job) ∷ [];
  idempotency = (("team", "first"), "profile") ∷ [];
  created = ("profile", 100) ∷ [];
}

-- The lease of `alpha` ends at 130.
abbrev first_lease : Job ℕ
first_lease = leased_to "alpha" 130 queued_job

-- `beta` took the job when that lease had ended.
abbrev second_lease : Job ℕ
second_lease = leased_to "beta" 170 first_lease

abbrev enqueue_profile : Call ℕ
enqueue_profile = enqueue_call "profile" "team" "profile.dataset" 7 "first" 100

empty-IsValid : IsValid empty_ledger
unfolding init
empty-IsValid = init-IsValid 30 empty_ledger refl

queued-IsValid : IsValid (ledger_with queued_job)
unfolding step steps enqueue admit lookup insert
queued-IsValid = steps-IsValid accept (enqueue_profile ∷ []) empty_ledger empty-IsValid

first-IsValid : IsValid (ledger_with first_lease)
unfolding step steps claim claim_all with_keys lookup insert sorted
first-IsValid =
    steps-IsValid accept (claim_call "alpha" 100 1 none ∷ []) (ledger_with queued_job)
      queued-IsValid

second-IsValid : IsValid (ledger_with second_lease)
unfolding step steps claim claim_all with_keys lookup insert sorted
second-IsValid =
    steps-IsValid accept (claim_call "beta" 140 1 none ∷ []) (ledger_with first_lease) first-IsValid

stale_worker-IsRefused_example :
    IsRefused (steps accept (resume_call "profile" ∷ []) (ledger_with second_lease)) (
      run_fenced accept
        (complete_call "result")
        "profile"
        "alpha"
        1
        (steps accept (resume_call "profile" ∷ []) (ledger_with second_lease)))
unfolding lookup
stale_worker-IsRefused_example =
    stale_worker-IsRefused accept (ledger_with second_lease) (resume_call "profile" ∷ []) "profile"
      "alpha" 1 second_lease (complete_call "result") second-IsValid refl (omega arith)

steps-IsValid_example :
    IsValid (steps accept (enqueue_profile ∷ cancel_call "profile" ∷ []) empty_ledger)
steps-IsValid_example =
    steps-IsValid accept (enqueue_profile ∷ cancel_call "profile" ∷ []) empty_ledger empty-IsValid

steps-IsLater_example :
    IsLater
      (ledger_with queued_job)
      (steps accept (claim_call "alpha" 100 1 none ∷ []) (ledger_with queued_job))
steps-IsLater_example =
    steps-IsLater accept (claim_call "alpha" 100 1 none ∷ []) (ledger_with queued_job)
      queued-IsValid

claim_spares_example :
    lookup "profile" (claim "beta" 120 1 none (ledger_with first_lease)).1.jobs ≡ some first_lease
unfolding lookup
claim_spares_example =
    claim_spares (ledger_with first_lease) first-IsValid "beta" 120 1 none "profile" first_lease
      refl refl

literal_differs : (a b : String) → (a == b) ≡ false → a ≢ b
literal_differs a b other h = true≢false (sym ((string_eq.test_iff a b).1 h) ∙ other)

claim_runs_example :
    (js : List (Job ℕ)) × (claim "beta" 140 1 none (ledger_with first_lease) ≡ (
      ok (map (leased_to "beta" 170) js),
      record (ledger_with first_lease) {
        jobs = lease_each "beta" 170 js (ledger_with first_lease).jobs;
      },
    ))
    × All (CanTake (ledger_with first_lease).jobs 140) js
    × (length js ≡ min 1 (length (claimable_jobs 140 (ledger_with first_lease))))
claim_runs_example =
    claim_runs (ledger_with first_lease) first-IsValid "beta" 140 1 none
      (literal_differs "beta" "" refl) (omega arith) (omega arith)

enqueue_retry_example :
    (b : Job ℕ) × (enqueue accept "other" "team" "profile.dataset" 7 "first" 500
        (steps accept (cancel_call "profile" ∷ []) (ledger_with queued_job))
      ≡ (ok b, steps accept (cancel_call "profile" ∷ []) (ledger_with queued_job)))
    × (identity b ≡ identity queued_job)
unfolding enqueue admit lookup insert
enqueue_retry_example =
    enqueue_retry accept "team" "profile.dataset" 7 "first" empty_ledger (ledger_with queued_job)
      (cancel_call "profile" ∷ []) "profile" "other" 100 500 queued_job empty-IsValid refl
      (literal_differs "other" "" refl)

-- A handler that answers every job, and makes no calls.
abbrev answer : Handler ℕ
answer job = (returned "result", [])

run_once_settles_example :
    (a : Job ℕ) × CanTake (ledger_with queued_job).jobs 100 a
    × (s' : JobLedger ℕ) × (run_once accept
          (λ name. true)
          "alpha"
          answer
          100
          (ledger_with queued_job)
        ≡ (
          ok (
              settled accept
                (λ name. true)
                "alpha"
                answer
                (running_job accept (λ name. true) "alpha" answer 100 30 a)
                (returned "result")
              ∷ []),
          s',
        ))
    × (lookup a.job_id s'.jobs
        ≡ some (
            settled accept
              (λ name. true)
              "alpha"
              answer
              (running_job accept (λ name. true) "alpha" answer 100 30 a)
              (returned "result")))
run_once_settles_example =
    run_once_settles accept (λ name. true) "alpha" answer 100 (ledger_with queued_job)
      queued-IsValid (literal_differs "alpha" "" refl) (omega arith) (λ job. refl)
      (λ job. literal_differs "result" "" refl)
