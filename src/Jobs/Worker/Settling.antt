-- ===== src/Jobs/Worker/Settling.antt =====
-- What `ControlWorker.run_once` (jobs/worker.py) leaves in the ledger.
use grok_bot_data.Prelude.{
  ℕ, String, refl, subst, Bool, true, false, Option, none, some, List, [], map, arith, Eq, beq_ne,
  ok, length, All, string_eq, pair_eq, option_eq, nat_eq, ◌+◌, ◌≤◌, ◌≡◌, ◌≢◌, ◌||◌, ◌∷◌, ◌∙◌, ◌!=◌,
  ◌>>=◌,
}
use grok_bot_data.Prelude.Dict.{lookup, insert, lookup-insert_self}
use grok_bot_data.Jobs.Job.{Job, JobLedger, JobState, Command, is_wait_reason}
use grok_bot_data.Jobs.Ledger.{
  claim, start, wait, fail, complete, guard, get, leased_to, owner_differs,
}
use grok_bot_data.Jobs.Ledger.Call.{steps}
use grok_bot_data.Jobs.Ledger.Valid.{IsValid}
use grok_bot_data.Jobs.Ledger.Claim.{claimable_jobs, CanTake, claim_runs}
use grok_bot_data.Jobs.Ledger.Claiming.{lease_each}
use grok_bot_data.Jobs.Worker.{
  HandlerResult, Handler, returned, waiting_job, retryable_error, other_error, error_code, settle,
  run_job, run_once,
}

holds_lease :
    (w : String) (o : Option String) (f : ℕ) → o ≡ some w → (owner_differs o w || f != f) ≡ false
holds_lease w o f h = rw h (ground (arith, string_eq.test_iff w w))

-- A list of one.
one_element : {A : Type 0} (xs : List A) → length xs ≡ 1 → (a : A) × (xs ≡ a ∷ [])
one_element [] h = absurd (omega arith)
one_element (x ∷ []) h = (x, refl)
one_element (x ∷ y ∷ xs) h = absurd (omega arith)

module _ {P : Type 0} ⦃e : Eq P⦄ (json_safe : P → Bool) (is_identifier : String → Bool) (w : String)
    (handler : Handler P) where
  -- A result that the ledger takes.
  abbrev pub IsAccepted : HandlerResult → Type 0
  IsAccepted (returned result_ref) = result_ref ≢ ""
  IsAccepted (waiting_job reason) = is_wait_reason reason ≡ true
  IsAccepted (retryable_error name) = error_code json_safe is_identifier w handler name ≢ ""
  IsAccepted (other_error name) = error_code json_safe is_identifier w handler name ≢ ""

  abbrev released : Job P → JobState → Job P
  released job state = record job { state = state; lease_owner = none; lease_expires_at = none }

  -- The job that each result asks for.
  abbrev pub settled : Job P → HandlerResult → Job P
  settled job (returned result_ref) = record (released job JobState.completed) {
    result_ref = some result_ref;
  }
  settled job (waiting_job reason) = record (released job JobState.waiting) {
    wait_reason = some reason;
  }
  settled job (retryable_error name) = record (released job JobState.queued) {
    error_code = some (error_code json_safe is_identifier w handler name);
  }
  settled job (other_error name) = record (released job JobState.failed) {
    error_code = some (error_code json_safe is_identifier w handler name);
  }

  guard_passes :
      (s : JobLedger P) (job : Job P) (k : Job P → Command P (Job P))
      → lookup job.job_id s.jobs ≡ some job
      → job.lease_owner ≡ some w
      → (guard job.job_id w job.fence >>= k) s ≡ k job s
  unfolding guard get
  guard_passes s job k hit owner = rw (hit, holds_lease w job.lease_owner job.fence owner)

  settle_running :
      (s : JobLedger P) (job : Job P) (r : HandlerResult)
      → lookup job.job_id s.jobs ≡ some job
      → job.lease_owner ≡ some w
      → job.state ≡ JobState.running
      → IsAccepted r
      → settle json_safe is_identifier w handler job r s
        ≡ (ok (settled job r), record s { jobs = insert job.job_id (settled job r) s.jobs })
  unfolding settle wait fail complete
  settle_running s job (returned ref) hit owner running good =
      rw (beq_ne ref "" good) (guard_passes s job _ hit owner ∙ rw running)
  settle_running s job (waiting_job reason) hit owner running good =
      rw good (guard_passes s job _ hit owner ∙ rw running)
  settle_running s job (retryable_error name) hit owner running good =
      rw (beq_ne _ "" good) (guard_passes s job _ hit owner ∙ rw running)
  settle_running s job (other_error name) hit owner running good =
      rw (beq_ne _ "" good) (guard_passes s job _ hit owner ∙ rw running)

  -- The job that a claim at `now` makes of `a`, once started.
  abbrev pub running_job : ℕ → ℕ → Job P → Job P
  running_job now lease a = record (leased_to w (now + lease) a) { state = JobState.running }

  run_job_settles :
      (now lease : ℕ) (s : JobLedger P) (a : Job P)
      → (handler (running_job now lease a)).1 ≡ []
      → IsAccepted (handler (running_job now lease a)).0
      → (s' : JobLedger P) × (run_job json_safe is_identifier w handler
            (leased_to w (now + lease) a)
            (record s { jobs = insert a.job_id (leased_to w (now + lease) a) s.jobs })
          ≡ (ok (settled (running_job now lease a) (handler (running_job now lease a)).0), s'))
        × (lookup a.job_id s'.jobs
            ≡ some (settled (running_job now lease a) (handler (running_job now lease a)).0))
  unfolding run_job start steps
  run_job_settles now lease s a quiet good =
      let leased = leased_to w (now + lease) a in
      let running = running_job now lease a in
      let s1 : JobLedger P = record s { jobs = insert a.job_id leased s.jobs } in
      let s2 : JobLedger P = record s { jobs = insert a.job_id running s1.jobs } in
      let done = settled running (handler running).0 in
      (
        record s2 { jobs = insert a.job_id done s2.jobs },
        rw (guard_passes s1 leased _ (lookup-insert_self s.jobs a.job_id leased) refl, quiet)
            (rw (
              settle_running s2 running (handler running).0
                (lookup-insert_self s1.jobs a.job_id running) refl refl good)),
        lookup-insert_self s2.jobs a.job_id done,
      )

  run_once_takes :
      (now lease : ℕ) (s : JobLedger P) (js : List (Job P)) (a : Job P)
      → claim w now 1 none s ≡ (
        ok (map (leased_to w (now + lease)) js),
        record s { jobs = lease_each w (now + lease) js s.jobs },
      )
      → js ≡ a ∷ []
      → (handler (running_job now lease a)).1 ≡ []
      → IsAccepted (handler (running_job now lease a)).0
      → (s' : JobLedger P) × (run_once json_safe is_identifier w handler now s
          ≡ (ok (settled (running_job now lease a) (handler (running_job now lease a)).0 ∷ []), s'))
        × (lookup a.job_id s'.jobs
            ≡ some (settled (running_job now lease a) (handler (running_job now lease a)).0))
  unfolding run_once lease_each
  run_once_takes now lease s js a same one quiet good =
      let (s', ran, found) = run_job_settles now lease s a quiet good in
      (s', rw (same, one, ran), found)

  -- An iteration of a named worker on a valid ledger that has a claimable job takes one such job
  -- and settles it as the handler's result asks, in the result and in the ledger, if the handler
  -- makes no calls on the ledger and its results are ones that the ledger takes.
  pub run_once_settles :
      (now : ℕ) (s : JobLedger P)
      → IsValid s
      → w ≢ ""
      → 1 ≤ length (claimable_jobs now s)
      → ((job : Job P) → (handler job).1 ≡ [])
      → ((job : Job P) → IsAccepted (handler job).0)
      → (a : Job P) × CanTake s.jobs now a
        × (s' : JobLedger P) × (run_once json_safe is_identifier w handler now s ≡ (
          ok (
              settled
                (running_job now s.default_lease a)
                (handler (running_job now s.default_lease a)).0
              ∷ []),
          s',
        ))
        × (lookup a.job_id s'.jobs
            ≡ some (
                settled
                  (running_job now s.default_lease a)
                  (handler (running_job now s.default_lease a)).0))
  run_once_settles now s v named some_job quiet good =
      let (js, same, can, n) = claim_runs s v w now 1 none named (omega arith) v.lease_positive in
      let (a, one) = one_element js (omega arith) in
      let (s', ran, found) =
        run_once_takes now s.default_lease s js a same one (quiet _) (good _) in
      let took : CanTake s.jobs now a × Unit {0} = subst (All (CanTake s.jobs now)) one can in
      (a, took.0, s', ran, found)
