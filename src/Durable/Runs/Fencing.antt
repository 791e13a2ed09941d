-- ===== src/Durable/Runs/Fencing.antt =====
-- What the fences of packages/platform/src/vda_platform/jobs/repository.py guarantee over any
-- sequence of calls.
use grok_bot_data.Prelude.{
  ℕ, String, refl, sym, subst, inl, inr, Bool, true, false, not, Option, none, some, List, arith,
  Bool-cases, ok, err, some_injective, string_eq, pair_eq, option_eq, nat_eq, ◌<◌, ◌≡◌, ◌∙◌, ◌==◌,
  if◌then◌else◌,
}
use grok_bot_data.Prelude.Dict.{lookup}
use grok_bot_data.Runtime.Runs.{RunState, is_active, is_wait_reason}
use grok_bot_data.Durable.Tables.{
  Database, Host, RepositoryError, RunRow, error_code_required, fence_error, invalid_wait_reason,
  payload_not_json_safe, result_ref_required,
}
use grok_bot_data.Durable.Runs.{RunLease, is_open}
use grok_bot_data.Durable.Runs.Leases.{
  can_target, checkpoint, complete, fail, heartbeat, held_active, held_by, start_run, transition,
  update_run, wait,
}
use grok_bot_data.Durable.Runs.Tenure.{
  Turns, HeldBy, Turns-HeldBy, Turns-fence_of, Turns-over, fence_of, held, over,
}
use grok_bot_data.Durable.Runs.Serving.{
  active_tenure, held_tenure, lease_matches, tenure, tenure_of,
}
use grok_bot_data.Durable.Runs.Calls.{
  Call, LeaseCall, checkpoint_call, complete_call, fail_call, heartbeat_call, run_lease_call,
  start_call, steps, wait_call,
}
use grok_bot_data.Durable.Runs.Steps.{IsConsistent}
use grok_bot_data.Durable.Runs.Refinement.{instants, steps-HasTurns, steps-IsConsistent}

fence_of-tenure :
    (state : RunState) (owner : Option String) (expires : Option ℕ) (f : ℕ)
    → fence_of (tenure state owner expires f) ≡ f
fence_of-tenure state owner expires f = ground arith

over_tenure :
    (state : RunState) (owner : Option String) (expires : Option ℕ) (f g : ℕ)
    → lease_matches state owner expires ≡ true
    → tenure state owner expires f ≡ over g
    → (is_open state ≡ false) × (owner ≡ none) × (f ≡ g)
over_tenure state none none f g lease same = shut state lease same
  where
    shut :
        (t : RunState)
        → not (is_active t) ≡ true
        → tenure t none none f ≡ over g
        → (is_open t ≡ false) × (Path (Option String) none none) × (f ≡ g)
    shut RunState.queued h e = cc
    shut RunState.leased h e = cc
    shut RunState.running h e = cc
    shut RunState.waiting h e = cc
    shut RunState.completed h e = (refl, refl, cc)
    shut RunState.handed_off h e = (refl, refl, cc)
    shut RunState.failed h e = (refl, refl, cc)
    shut RunState.cancelled h e = (refl, refl, cc)
over_tenure state none (some due) f g lease same = cc
over_tenure state (some v) none f g lease same = cc
over_tenure state (some v) (some due) f g lease same =
    absurd (held_not_over (sym (active_tenure state v due f lease) ∙ same))
  where
    held_not_over : held v f due ≡ over g → ⊥
    held_not_over e = cc

open_tenure :
    (state : RunState) (owner : Option String) (expires : Option ℕ) (f : ℕ)
    → is_open state ≡ false
    → tenure state owner expires f ≡ over f
open_tenure state owner expires f shut = ground arith

retry_target :
    (retryable : Bool) → can_target (if retryable then RunState.queued else RunState.failed) ≡ true
retry_target true = refl
retry_target false = refl

module _ {P : Type 0} where
  update_missed :
      (workspace_id run_id : String) (test : RunRow P → Bool) (change : RunRow P → RunRow P)
      (s : Database P) (b : RunRow P)
      → lookup run_id s.runs ≡ some b
      → test b ≡ false
      → update_run workspace_id run_id test change s ≡ (ok none, s)
  unfolding update_run
  update_missed workspace_id run_id test change s b hit failed =
      elim (Bool-cases (b.workspace_id == workspace_id)) [
        | inl here ↦ rw (hit, here, failed) refl
        | inr there ↦ rw (hit, there) refl
      ]

  transition_stale :
      (host : Host P) (event_id : String) (lease : RunLease P) (state : RunState)
      (result_ref error_code wait_reason : Option String) (now : ℕ) (s : Database P) (b : RunRow P)
      → can_target state ≡ true
      → lookup lease.run_id s.runs ≡ some b
      → held_by lease b ≡ false
      → transition host event_id lease state result_ref error_code wait_reason now s
        ≡ (err fence_error, s)
  unfolding transition
  transition_stale host event_id lease state result_ref error_code wait_reason now s b can hit
        stale =
      rw (can, update_missed lease.workspace_id lease.run_id (held_by lease) _ s b hit stale) refl

module _ {P : Type 0} (host : Host P) (default_lease_seconds : ℕ) where
  -- The errors of a stale lease: those of the arguments come first.
  abbrev pub refusal : LeaseCall P → RepositoryError
  refusal start_call = fence_error
  refusal heartbeat_call = fence_error
  refusal (checkpoint_call contents) =
      if host.json_safe contents then fence_error else payload_not_json_safe
  refusal (wait_call reason) = if is_wait_reason reason then fence_error else invalid_wait_reason
  refusal (complete_call result_ref) = if result_ref == "" then result_ref_required else fence_error
  refusal (fail_call error_code retryable) =
      if error_code == "" then error_code_required else fence_error

  -- After any sequence of calls on a database with the invariant of leases, at one fence a run has
  -- one holder: if it is held now, and held later under the fence that it has now, then by the same
  -- worker.
  pub steps-one_holder :
      (calls : List (ℕ × Call P)) (s : Database P) (id : String) (a b : RunRow P) (v w : String)
      → IsConsistent s
      → lookup id s.runs ≡ some a
      → a.lease_owner ≡ some v
      → lookup id (steps host default_lease_seconds calls s).runs ≡ some b
      → b.lease_owner ≡ some w
      → b.fence ≡ a.fence
      → w ≡ v
  steps-one_holder calls s id a b v w valid hit held_now later held_later same_fence =
      let (c, there, moves) = steps-HasTurns host default_lease_seconds calls s id a valid hit in
      let same = some_injective (sym there ∙ later) in
      let (due, _, now) =
        held_tenure a.state a.lease_owner a.lease_expires_at a.fence v held_now
          (valid.leases id a hit) in
      let (due', _, then_held) =
        held_tenure b.state b.lease_owner b.lease_expires_at b.fence w held_later
          ((steps-IsConsistent host default_lease_seconds calls s valid).leases id b later) in
      subst (HeldBy v a.fence) then_held
        (Turns-HeldBy (instants calls) v a.fence (held v a.fence due) (tenure_of b) (omega arith)
          (λ _. refl)
          (subst (λ t. Turns (instants calls) t (tenure_of b)) now
            (subst (λ r. Turns (instants calls) (tenure_of a) (tenure_of r)) same moves.turns)))
        same_fence

  -- After any sequence of calls on a database with the invariant of leases, a run that is completed,
  -- handed off, failed or cancelled is in one of these states, with the same fence and no owner: no
  -- call reopens it.
  pub steps-over :
      (calls : List (ℕ × Call P)) (s : Database P) (id : String) (a : RunRow P)
      → IsConsistent s
      → lookup id s.runs ≡ some a
      → is_open a.state ≡ false
      → (b : RunRow P) × (lookup id (steps host default_lease_seconds calls s).runs ≡ some b)
        × (is_open b.state ≡ false)
        × (b.lease_owner ≡ none)
        × (b.fence ≡ a.fence)
  steps-over calls s id a valid hit shut =
      let (b, there, moves) = steps-HasTurns host default_lease_seconds calls s id a valid hit in
      let (shut_later, free, same) =
        over_tenure b.state b.lease_owner b.lease_expires_at b.fence a.fence
          ((steps-IsConsistent host default_lease_seconds calls s valid).leases id b there)
          (Turns-over (instants calls) a.fence (tenure_of a) (tenure_of b)
            (open_tenure a.state a.lease_owner a.lease_expires_at a.fence shut) moves.turns) in
      (b, there, shut_later, free, same)

  -- A lease whose fence is not the run's writes nothing.
  run_lease_call_stale :
      (event_id : String) (lease : RunLease P) (call : LeaseCall P) (now : ℕ) (s : Database P)
      (b : RunRow P)
      → lookup lease.run_id s.runs ≡ some b
      → held_by lease b ≡ false
      → run_lease_call host default_lease_seconds event_id lease call now s
        ≡ (err (refusal call), s)
  unfolding run_lease_call start_run heartbeat checkpoint wait complete fail
  run_lease_call_stale event_id lease start_call now s b hit stale =
      transition_stale host event_id lease RunState.running none none none now s b refl hit stale
  run_lease_call_stale event_id lease heartbeat_call now s b hit stale =
      rw
        (update_missed lease.workspace_id lease.run_id (held_active lease) _ s b hit
          (rw stale refl))
        refl
  run_lease_call_stale event_id lease (checkpoint_call contents) now s b hit stale =
      elim (Bool-cases (host.json_safe contents)) [
        | inl safe ↦
            rw
              (
                safe,
                update_missed lease.workspace_id lease.run_id (held_active lease) _ s b hit
                    (rw stale refl),
              )
              refl
        | inr refused ↦ rw refused refl
      ]
  run_lease_call_stale event_id lease (wait_call reason) now s b hit stale =
      elim (Bool-cases (is_wait_reason reason)) [
        | inl known ↦ rw known (
            transition_stale host event_id lease RunState.waiting none none (some reason) now s b
              refl hit stale)
        | inr other ↦ rw other refl
      ]
  run_lease_call_stale event_id lease (complete_call result_ref) now s b hit stale =
      elim (Bool-cases (result_ref == "")) [
        | inl missing ↦ rw missing refl
        | inr given ↦ rw given (
            transition_stale host event_id lease RunState.completed (some result_ref) none none now
              s b refl hit stale)
      ]
  run_lease_call_stale event_id lease (fail_call error_code retryable) now s b hit stale =
      elim (Bool-cases (error_code == "")) [
        | inl missing ↦ rw missing refl
        | inr given ↦ rw given (
            transition_stale host event_id lease
              (if retryable then RunState.queued else RunState.failed) none (some error_code) none
              now s b (retry_target retryable) hit stale)
      ]

  -- Once a run has had a newer fence than a lease, then after any sequence of calls on a database
  -- with the invariant of leases every method of the holder of that lease raises (a stale lease's
  -- error, unless its arguments are refused before) and leaves the database as it is.
  pub steps-run_lease_call_stale :
      (calls : List (ℕ × Call P)) (s : Database P) (a : RunRow P) (event_id : String)
      (lease : RunLease P) (call : LeaseCall P) (now : ℕ)
      → IsConsistent s
      → lookup lease.run_id s.runs ≡ some a
      → lease.fence < a.fence
      → run_lease_call host default_lease_seconds event_id lease call now
          (steps host default_lease_seconds calls s)
        ≡ (err (refusal call), steps host default_lease_seconds calls s)
  steps-run_lease_call_stale calls s a event_id lease call now valid hit older =
      let (b, there, moves) =
        steps-HasTurns host default_lease_seconds calls s lease.run_id a valid hit in
      run_lease_call_stale event_id lease call now _ b there (
        newer lease b (
          omega (
            arith,
            Turns-fence_of _ _ _ moves.turns,
            fence_of-tenure a.state a.lease_owner a.lease_expires_at a.fence,
            fence_of-tenure b.state b.lease_owner b.lease_expires_at b.fence,
          )))
    where
      newer : (lease : RunLease P) (b : RunRow P) → lease.fence < b.fence → held_by lease b ≡ false
      newer lease b older = ground arith
