-- ===== src/Jobs/Ledger/Methods.antt =====
-- Every method of `JobLedger` (jobs/ledger.py) on one job takes one step of the life cycle.
use grok_bot_data.Prelude.{
  ℕ, String, refl, inl, inr, Bool, true, not, arith, Bool-cases, raise_if, string_eq, pair_eq,
  option_eq, nat_eq, ◌≡◌, ◌==◌, ◌>>=◌, ◌>>◌,
}
use grok_bot_data.Jobs.Job.{
  Job, JobLedger, JobState, is_active, is_leased, is_waiting, is_terminal, is_wait_reason, save,
  not_active,
}
use grok_bot_data.Jobs.Ledger.{
  guard, start, heartbeat, checkpoint, wait, resume, complete, fail, cancel,
}
use grok_bot_data.Jobs.Ledger.Evolution.{
  Moves, Outcome, refused, kept, moved, raise_if-Outcome, get-Outcome, guard-Outcome, Moves-active,
}

waiting_not_terminal : (t : JobState) → is_waiting t ≡ true → is_terminal t ≡ true → ⊥
waiting_not_terminal t h k = ground arith

module _ {P : Type 0} (s : JobLedger P) (id w : String) (f : ℕ) where
  pub start-Outcome : Outcome s (start id w f s)
  unfolding start
  start-Outcome = guard-Outcome s id w f _ λ a hit. elim (Bool-cases (not (is_leased a.state))) [
    | inl idle ↦ rw idle (refused _)
    | inr held ↦ rw held (
        moved id a _ hit (
          Moves-active a _ (ground arith) refl (ground arith) refl refl (omega arith)
            (λ h. ground arith)))
  ]

  -- the shape that the other fenced methods share
  active_step :
      (update : Job P → Job P)
      → ((a : Job P) → is_active a.state ≡ true → Moves a (update a))
      → Outcome s (
          (guard id w f >>= λ job.
          raise_if (not (is_active job.state)) not_active >> save id (update job))
            s)
  active_step update step = guard-Outcome s id w f _ λ a hit.
      elim (Bool-cases (not (is_active a.state))) [
        | inl idle ↦ rw idle (refused _)
        | inr held ↦ rw held (moved id a _ hit (step a (ground arith)))
      ]

  pub heartbeat-Outcome : (now : ℕ) → Outcome s (heartbeat id w f now s)
  unfolding heartbeat
  heartbeat-Outcome now = guard-Outcome s id w f _ λ a hit.
      elim (Bool-cases (not (is_active a.state))) [
        | inl idle ↦ rw idle (refused _)
        | inr held ↦ rw held (
            moved id a _ hit (
              Moves-active a _ (ground arith) refl (ground arith) refl refl (omega arith)
                (λ h. ground arith)))
      ]

  pub checkpoint-Outcome :
      (json_safe : P → Bool) (contents : P) → Outcome s (checkpoint json_safe id w f contents s)
  unfolding checkpoint
  checkpoint-Outcome json_safe contents = elim (Bool-cases (not (json_safe contents))) [
    | inl unsafe ↦ guard-Outcome s id w f _ λ a hit. elim (Bool-cases (not (is_active a.state))) [
      | inl idle ↦ rw idle (refused _)
      | inr held ↦ rw (held, unsafe) (refused _)
    ]
    | inr safe ↦ rw safe (
        active_step _
          λ a t. Moves-active a _ t refl (ground arith) refl refl (omega arith) (λ h. h))
  ]

  pub wait-Outcome : (reason : String) → Outcome s (wait id w f reason s)
  unfolding wait
  wait-Outcome reason = raise_if-Outcome s (not (is_wait_reason reason)) _ _ λ valid.
      active_step _
        λ a t. Moves-active a _ t refl (ground arith) refl refl (omega arith) (λ h. refl)

  pub complete-Outcome : (result_ref : String) → Outcome s (complete id w f result_ref s)
  unfolding complete
  complete-Outcome result_ref = raise_if-Outcome s (result_ref == "") _ _ λ given.
      active_step _
        λ a t. Moves-active a _ t refl (ground arith) refl refl (omega arith) (λ h. refl)

  pub fail-Outcome :
      (error_code : String) (retryable : Bool) → Outcome s (fail id w f error_code retryable s)
  unfolding fail
  fail-Outcome error_code retryable = raise_if-Outcome s (error_code == "") _ _ λ given.
      active_step _
        λ a t. Moves-active a _ t refl (ground arith) refl refl (omega arith) (λ h. ground arith)

module _ {P : Type 0} (s : JobLedger P) (id : String) where
  pub resume-Outcome : Outcome s (resume id s)
  unfolding resume
  resume-Outcome = get-Outcome s id _ λ a hit. elim (Bool-cases (not (is_waiting a.state))) [
    | inl busy ↦ rw busy (refused _)
    | inr idle ↦ rw idle (
        moved id a _ hit (record {
          same_identity = refl;
          edge = ground arith;
          fence_grows = omega arith;
          attempts_follow = refl;
          checkpoints_grow = omega arith;
          terminal_stays = λ t. absurd (waiting_not_terminal a.state (ground arith) t);
          lease_kept = λ h. refl;
        }))
  ]

  pub cancel-Outcome : Outcome s (cancel id s)
  unfolding cancel
  cancel-Outcome = get-Outcome s id _ λ a hit. elim (Bool-cases (is_terminal a.state)) [
    | inl done ↦ rw done (kept id a hit)
    | inr open_job ↦ rw open_job (
        moved id a _ hit (record {
          same_identity = refl;
          edge = ground arith;
          fence_grows = omega arith;
          attempts_follow = refl;
          checkpoints_grow = omega arith;
          terminal_stays = λ t. cc;
          lease_kept = λ h. refl;
        }))
  ]
