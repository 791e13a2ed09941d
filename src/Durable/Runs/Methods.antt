-- ===== src/Durable/Runs/Methods.antt =====
-- The methods of packages/platform/src/vda_platform/jobs/repository.py that update one run: what each
-- does to the table of runs.
use grok_bot_data.Prelude.{
  ℕ, String, refl, sym, ap, subst, inl, inr, Bool, true, not, Option, none, some, [], arith,
  Bool-cases, is_some, Result, ok, err, pure, or_raise, continue, any, option_eq, string_eq,
  pair_eq, nat_eq, ◌+◌, ◌≡◌, ◌&&◌, ◌∷◌, ◌∙◌, ◌==◌, ◌>>=◌, if◌then◌else◌,
}
use grok_bot_data.Prelude.Dict.{lookup}
use Prim.Native.String.{◌++◌ as concat}
use grok_bot_data.Runtime.Runs.{RunState, is_active, is_waiting}
use grok_bot_data.Durable.Tables.{
  Database, Host, RepositoryError, RunRow, fence_error, run_not_waiting,
}
use grok_bot_data.Durable.Runs.{value, run_admitted, RunLease, insert_run, create_run}
use grok_bot_data.Durable.Runs.Leases.{
  insert_state_event, can_target, checkpoint, held_active, held_by, heartbeat, releases, resume_run,
  transition,
}
use grok_bot_data.Durable.Runs.Tenure.{Tenure, Turn, held, used, woken}
use grok_bot_data.Durable.Runs.Updates.{
  IsNew, or_raise-KeepsRuns, KeepsRuns, RunChange, added_run, restored, same_runs, update-RunChange,
}
use grok_bot_data.Durable.Runs.Keeping.{insert_run_event-KeepsRuns}
use grok_bot_data.Durable.Runs.Serving.{
  HasLease, Serves, active_tenure, held_tenure, target_lease, target_turn, tenure, tenure_of,
  waiting_tenure,
}

turn_along : (now : ℕ) (t t' u u' : Tenure) → t ≡ t' → u ≡ u' → Turn now t' u' → Turn now t u
turn_along now t t' u u' e e' h =
    subst (λ x. Turn now x u) (sym e) (subst (λ x. Turn now t' x) (sym e') h)

both_true : (a b : Bool) → a && b ≡ true → (a ≡ true) × (b ≡ true)
both_true a b h = ground arith

module _ {P : Type 0} (R : RunRow P → RunRow P → Type 0) (s : Database P) where
  pub then_pure-RunChange :
      {A B : Type 0} (f : A → B) (r : Result RepositoryError A × Database P)
      → RunChange R s r.1
      → RunChange R s (continue {S = Database P} r.0 (λ a. pure (f a)) r.1).1
  then_pure-RunChange f (ok a, t) h = h
  then_pure-RunChange f (err e, t) h = h

or_raise_keeps :
    {P A : Type 0} (e : RepositoryError) (o : Option A) (s : Database P)
    → (or_raise {S = Database P} o e s).1.runs ≡ s.runs
or_raise_keeps e none s = refl
or_raise_keeps e (some a) s = refl

module _ {P : Type 0} (lease : RunLease P) (a : RunRow P) (holds : held_by lease a ≡ true) where
  owner_of : a.lease_owner ≡ some lease.worker_id
  owner_of = (option_eq.test_iff a.lease_owner (some lease.worker_id)).0 (both_true _ _ holds).0

  held_row :
      HasLease a
      → (due : ℕ) × (a.lease_expires_at ≡ some due)
        × (tenure_of a ≡ held lease.worker_id a.fence due)
  held_row h =
      held_tenure a.state a.lease_owner a.lease_expires_at a.fence lease.worker_id owner_of h

  -- the update of `heartbeat`
  heartbeat-Serves :
      (now expires : ℕ)
      → is_active a.state ≡ true
      → Serves now a (record a { lease_expires_at = some expires; updated_at = now })
  heartbeat-Serves now expires active = record {
    same_identity = refl;
    revision_grows = omega arith;
    keeps_lease = λ h. rw owner_of active;
    turn = λ h.
        let (due, _, ten) = held_row h in
        turn_along now _ _ _ _ ten
          (ap (λ o. tenure a.state o (some expires) a.fence) owner_of
            ∙ active_tenure a.state lease.worker_id expires a.fence active)
          (used lease.worker_id a.fence due expires);
  }

  -- the update of `checkpoint`
  checkpoint-Serves :
      (now : ℕ) (contents : P)
      → Serves now a (record a {
        checkpoint_revision = a.checkpoint_revision + 1;
        checkpoint_json = some contents;
        updated_at = now;
      })
  checkpoint-Serves now contents = record {
    same_identity = refl;
    revision_grows = omega arith;
    keeps_lease = λ h. h;
    turn = λ h.
        let (due, _, ten) = held_row h in
        turn_along now _ _ _ _ ten ten (used lease.worker_id a.fence due due);
  }

  -- the update of `_transition`
  transition-Serves :
      (now : ℕ) (state : RunState) (reason given error_code : Option String)
      → can_target state ≡ true
      → Serves now a (record a {
        state = state;
        lease_owner = if releases state then none else some lease.worker_id;
        lease_expires_at = if releases state then none else a.lease_expires_at;
        wait_reason = reason;
        result_ref = given;
        error_code = error_code;
        updated_at = now;
      })
  transition-Serves now state reason given error_code can = record {
    same_identity = refl;
    revision_grows = omega arith;
    keeps_lease =
        λ h. let (due, exp, _) = held_row h in rw exp (target_lease state lease.worker_id due can);
    turn = λ h.
        let (due, exp, ten) = held_row h in
        turn_along now _ _ _ _ ten
          (ap
            (λ o.
              tenure state (if releases state then none else some lease.worker_id)
                (if releases state then none else o) a.fence)
            exp)
          (target_turn now state lease.worker_id a.fence due can);
  }

-- the update of `resume_run`
resume_run-Serves :
    {P : Type 0} (a : RunRow P) (now : ℕ)
    → is_waiting a.state ≡ true
    → Serves now a (record a {
      state = RunState.queued;
      lease_owner = none;
      lease_expires_at = none;
      wait_reason = none;
      error_code = none;
      updated_at = now;
    })
resume_run-Serves a now waits = record {
  same_identity = refl;
  revision_grows = omega arith;
  keeps_lease = λ h. refl;
  turn = λ h.
      turn_along now _ _ _ _ (waiting_tenure a.state a.lease_owner a.lease_expires_at a.fence waits)
        refl (woken a.fence);
}

fresh_key :
    {A : Type 0} (o : Option A) (b c d : Bool) → not (is_some o) && b && c && d ≡ true → o ≡ none
fresh_key none b c d h = refl
fresh_key (some a) b c d h = ground arith

insert_run-RunChange :
    {P : Type 0} (R : RunRow P → RunRow P → Type 0) (row : RunRow P)
    → IsNew row.id row
    → (s : Database P) → RunChange R s (insert_run row s).1
unfolding insert_run
insert_run-RunChange R row new s = elim (Bool-cases (run_admitted row s)) [
  | inl admitted ↦
      rw admitted (added_run row.id row (fresh_key (lookup row.id s.runs) _ _ _ admitted) new refl)
  | inr refused ↦ rw refused (same_runs refl)
]

module _ {P : Type 0} where
  pub heartbeat-RunChange :
      (default_lease_seconds : ℕ) (lease : RunLease P) (now : ℕ) (s : Database P)
      → RunChange (Serves now) s (heartbeat default_lease_seconds lease now s).1
  unfolding heartbeat
  heartbeat-RunChange default_lease_seconds lease now s = then_pure-RunChange (Serves now) s _ _ (
      update-RunChange (Serves now) lease.workspace_id lease.run_id (held_active lease) _
        (λ o. or_raise o fence_error) s (or_raise_keeps fence_error)
        (λ a hit here test.
          heartbeat-Serves lease a (both_true _ _ test).0 now (now + default_lease_seconds)
            (both_true _ _ test).1))

  pub resume_run-RunChange :
      (workspace_id run_id : String) (now : ℕ) (s : Database P)
      → RunChange (Serves now) s (resume_run workspace_id run_id now s).1
  unfolding resume_run
  resume_run-RunChange workspace_id run_id now s =
      elim (Bool-cases (any (λ name. name == "") (workspace_id ∷ run_id ∷ []))) [
        | inl missing ↦ rw missing (same_runs refl)
        | inr given ↦ rw given (
            then_pure-RunChange (Serves now) s _ _ (
              update-RunChange (Serves now) workspace_id run_id (λ row. is_waiting row.state) _
                (λ o. or_raise o run_not_waiting) s (or_raise_keeps run_not_waiting)
                (λ a hit here test. resume_run-Serves a now test)))
      ]

module _ {P : Type 0} (host : Host P) where
  insert_state_event-KeepsRuns :
      (event_id : String) (lease : RunLease P) (state : RunState)
      (error_code stored_wait_reason : Option String) (now : ℕ)
      → KeepsRuns (insert_state_event host event_id lease state error_code stored_wait_reason now)
  unfolding insert_state_event
  insert_state_event-KeepsRuns event_id lease state error_code stored_wait_reason now s =
      insert_run_event-KeepsRuns host event_id _ _ _ (concat "run." (value state)) _
        (some lease.attempt_id) now s

  pub checkpoint-RunChange :
      (lease : RunLease P) (contents : P) (now : ℕ) (s : Database P)
      → RunChange (Serves now) s (checkpoint host lease contents now s).1
  unfolding checkpoint
  checkpoint-RunChange lease contents now s = elim (Bool-cases (not (host.json_safe contents))) [
    | inl refused ↦ rw refused (same_runs refl)
    | inr safe ↦ rw safe (
        then_pure-RunChange (Serves now) s _ _ (
          update-RunChange (Serves now) lease.workspace_id lease.run_id (held_active lease) _
            (λ o. or_raise o fence_error) s (or_raise_keeps fence_error)
            (λ a hit here test. checkpoint-Serves lease a (both_true _ _ test).0 now contents)))
  ]

  pub transition-RunChange :
      (event_id : String) (lease : RunLease P) (state : RunState)
      (result_ref error_code wait_reason : Option String) (now : ℕ) (s : Database P)
      → RunChange
          (Serves now)
          s
          (transition host event_id lease state result_ref error_code wait_reason now s).1
  unfolding transition
  transition-RunChange event_id lease state result_ref error_code wait_reason now s =
      elim (Bool-cases (can_target state)) [
        | inr wrong ↦ rw wrong (same_runs refl)
        | inl can ↦ rw can (
            then_pure-RunChange (Serves now) s _ _ (
              update-RunChange (Serves now) lease.workspace_id lease.run_id (held_by lease) _
                (λ o. or_raise o fence_error >>= λ row.
                  insert_state_event host event_id lease state error_code _ now)
                s
                (λ o.
                  or_raise-KeepsRuns o fence_error
                    (λ row. insert_state_event host event_id lease state error_code _ now)
                    (λ row. insert_state_event-KeepsRuns event_id lease state error_code _ now))
                (λ a hit here test. transition-Serves lease a test now state _ _ error_code can)))
      ]

  pub create_run-RunChange :
      (workspace_id run_id task_id : String)
      (conversation_id bot_id supersedes_run_id : Option String) (now : ℕ) (s : Database P)
      → RunChange
          (Serves now)
          s
          (create_run workspace_id run_id task_id conversation_id bot_id supersedes_run_id now s).1
  unfolding create_run insert_run
  create_run-RunChange workspace_id run_id task_id conversation_id bot_id supersedes_run_id now s =
      elim (Bool-cases (any (λ name. name == "") (workspace_id ∷ run_id ∷ task_id ∷ []))) [
        | inl missing ↦ rw missing (same_runs refl)
        | inr given ↦ rw given (
            restored (Serves now) s _ (
              insert_run-RunChange (Serves now) _
                (record {
                  own_id = refl;
                  is_queued = refl;
                  no_owner = refl;
                  no_expiry = refl;
                  no_fence = refl;
                })
                s))
      ]
