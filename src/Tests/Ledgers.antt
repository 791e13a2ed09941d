-- ===== src/Tests/Ledgers.antt =====
-- The theorems on the runtime ledger in PostgreSQL at a small database: one run, first claimed by
-- "w1" and, after its lease has passed, by "w2".
use grok_bot_data.Prelude.{
  ℕ, String, Bool, refl, ◌<◌, subst, inl, inr, true, false, Option, none, some, List, [], arith,
  Bool-cases, ok, err, some_injective, string_eq, pair_eq, option_eq, nat_eq, ◌≡◌, ◌∷◌, ◌==◌,
  if◌then◌else◌,
}
use grok_bot_data.Prelude.Dict.{lookup, insert}
use grok_bot_data.Jobs.Worker.{returned}
use grok_bot_data.Runtime.Runs.{RunState}
use grok_bot_data.Durable.Tables.{AttemptRow, Database, Host, RunRow, fence_error}
use grok_bot_data.Durable.Events.{
  event_from_row, insert_run_event, safe_event_metadata, write_event,
}
use grok_bot_data.Observatory.Journal.{safe_fields, safe_value}
use grok_bot_data.Durable.Runs.Leases.{
  complete, heartbeat, insert_state_event, start_run, transition, update_run,
}
use grok_bot_data.Durable.Runs.Claims.{
  claim_run, earliest, insert_attempt, insert_lease, take_lease,
}
use grok_bot_data.Durable.Runs.{RunLease, is_open}
use grok_bot_data.Durable.Runs.Calls.{
  step, Call, checkpoint_call, claim_call, complete_call, lease_call, run_lease_call, start_call,
  steps,
}
use grok_bot_data.Durable.Runs.Steps.{IsConsistent}
use grok_bot_data.Durable.Runs.Refinement.{HasTurns, steps-HasTurns}
use grok_bot_data.Durable.Runs.Fencing.{steps-one_holder, steps-over, steps-run_lease_call_stale}
use grok_bot_data.Durable.Runs.Serving.{HasLease}
use grok_bot_data.Durable.Worker.{
  after_iteration, beside_handler, run_claimed, run_once, settle, Iteration, WorkerSettings, beat,
  run_forever,
}
use grok_bot_data.Durable.Worker.Sequences.{iterations, run_forever-returns, runs_settled}

abbrev pub host : Host String
host = record {
  json_safe = λ payload. true;
  payload_eq = λ x y. x == y;
  is_forbidden = λ name. name == "token";
  json_bytes = λ metadata. 64;
  metadata_eq = λ x y. true;
  show = λ n. if n == 1 then "1" else "2";
  text_before = λ x y. false;
  has_workspace = λ id. id == "team";
}

abbrev pub queued_row : RunRow String
queued_row = record {
  id = "run";
  workspace_id = "team";
  task_id = "task";
  conversation_id = none;
  bot_id = none;
  state = RunState.queued;
  lease_owner = none;
  lease_expires_at = none;
  fence = 0;
  checkpoint_revision = 0;
  checkpoint_json = none;
  wait_reason = none;
  error_code = none;
  result_ref = none;
  supersedes_run_id = none;
  created_at = 0;
  updated_at = 0;
}

abbrev pub leased_row : RunRow String
leased_row = record queued_row {
  state = RunState.leased;
  lease_owner = some "w1";
  lease_expires_at = some 70;
  fence = 1;
  updated_at = 10;
}

abbrev completed_row : RunRow String
completed_row = record queued_row { state = RunState.completed; fence = 1; result_ref = some "r" }

abbrev attempt : AttemptRow
attempt = record {
  id = "a1";
  workspace_id = "team";
  run_id = "run";
  attempt_number = 1;
  worker_id = "w1";
  fence = 1;
  started_at = 10;
}

abbrev pub with_run : RunRow String → Database String
with_run row = record {
  tasks = [];
  runs = ("run", row) ∷ [];
  attempts = ("a1", attempt) ∷ [];
  tool_executions = [];
  effects = [];
  run_events = [];
}

only_run : (row a : RunRow String) (id : String) → lookup id (with_run row).runs ≡ some a → row ≡ a
unfolding lookup
only_run row a id hit = elim (Bool-cases ("run" == id)) [
  | inl here ↦ some_injective (rw here at hit)
  | inr there ↦ absurd (no_value (rw there at hit))
]
  where
    no_value : Path (Option (RunRow String)) none (some a) → ⊥
    no_value h = cc

found : (row : RunRow String) → lookup "run" (with_run row).runs ≡ some row
unfolding lookup
found row = refl

leased-IsConsistent : IsConsistent (with_run leased_row)
unfolding lookup
leased-IsConsistent = record {
  keyed = (refl, refl, tt);
  leases = λ id a hit. subst HasLease (only_run leased_row a id hit) refl;
}

completed-IsConsistent : IsConsistent (with_run completed_row)
unfolding lookup
completed-IsConsistent = record {
  keyed = (refl, refl, tt);
  leases = λ id a hit. subst HasLease (only_run completed_row a id hit) refl;
}

abbrev lease : RunLease String
lease = record {
  run_id = "run";
  task_id = "task";
  workspace_id = "team";
  state = RunState.leased;
  worker_id = "w1";
  fence = 0;
  attempt_id = "a0";
  attempt_number = 1;
  lease_expires_at = some 5;
  checkpoint_revision = 0;
  checkpoint = none;
}

abbrev later : List (ℕ × Call String)
later =
    (20, lease_call "e1" (record lease { fence = 1; attempt_id = "a1" }) start_call)
    ∷ (30, lease_call "e2" (record lease { fence = 1; attempt_id = "a1" }) (checkpoint_call "half"))
    ∷ (100, claim_call "a2" "e3" (λ id. false) "team" "w2" none)
    ∷ []

steps-HasTurns_example :
    (b : RunRow String) × (lookup "run" (steps host 60 later (with_run leased_row)).runs ≡ some b)
    × HasTurns (20 ∷ 30 ∷ 100 ∷ []) leased_row b
steps-HasTurns_example =
    steps-HasTurns host 60 later (with_run leased_row) "run" leased_row leased-IsConsistent
      (found leased_row)

abbrev started : List (ℕ × Call String)
started = (20, lease_call "e1" (record lease { fence = 1; attempt_id = "a1" }) start_call) ∷ []

abbrev running_row : RunRow String
running_row = record leased_row { state = RunState.running; updated_at = 20 }

started_run : lookup "run" (steps host 60 started (with_run leased_row)).runs ≡ some running_row
unfolding lookup insert steps step run_lease_call start_run transition update_run insert_state_event
    insert_run_event safe_event_metadata safe_fields safe_value write_event event_from_row
started_run = refl

steps-one_holder_example : Path String "w1" "w1"
steps-one_holder_example =
    steps-one_holder host 60 started (with_run leased_row) "run" leased_row running_row "w1" "w1"
      leased-IsConsistent (found leased_row) refl started_run refl refl

steps-over_example :
    (b : RunRow String) × (lookup "run" (steps host 60 later (with_run completed_row)).runs
      ≡ some b)
    × (is_open b.state ≡ false)
    × (b.lease_owner ≡ none)
    × (b.fence ≡ 1)
steps-over_example =
    steps-over host 60 later (with_run completed_row) "run" completed_row completed-IsConsistent
      (found completed_row) refl

steps-run_lease_call_stale_example :
    run_lease_call host 60 "e4" lease
      (complete_call "result")
      120
      (steps host 60 later (with_run leased_row))
    ≡ (err fence_error, steps host 60 later (with_run leased_row))
steps-run_lease_call_stale_example =
    steps-run_lease_call_stale host 60 later (with_run leased_row) leased_row "e4" lease
      (complete_call "result") 120 leased-IsConsistent (found leased_row) (omega arith)

abbrev worker : WorkerSettings String
worker = record {
  workspace_id = "team";
  worker_id = "w2";
  handler = λ lease. (returned "result", beat 110 ∷ []);
  lease_seconds = none;
  after_commit = none;
  default_lease_seconds = 60;
}

abbrev iteration : Iteration
iteration = record {
  claimed_at = 100;
  started_at = 101;
  settled_at = 120;
  attempt_id = "a2";
  lease_event = "e1";
  start_event = "e2";
  end_event = "e3";
  locked = λ id. false;
}

abbrev one_turn : ℕ → Iteration
one_turn n = iteration

abbrev after_one : ℕ → Bool
after_one n = n == 1

not_before : (j : ℕ) → j < 1 → after_one j ≡ false
not_before j less = ground arith

run_forever-returns_example :
    run_forever host
      (λ name. true)
      worker
      (some (λ e. none))
      1000
      after_one
      one_turn
      2
      (with_run leased_row)
    ≡ (
      ok (
          some (
            runs_settled host
              (λ name. true)
              worker
              (iterations host (λ name. true) worker one_turn 1 0 (with_run leased_row)).0)),
      (iterations host (λ name. true) worker one_turn 1 0 (with_run leased_row)).1,
    )
run_forever-returns_example =
    run_forever-returns host (λ name. true) worker (λ e. none) (λ e. refl) 1000 after_one one_turn 1
      2 (with_run leased_row) refl not_before refl (omega arith)

-- the iteration claims the run that "w1" left, and completes it
one_run :
    (run_forever host (λ name. true) worker none 1000 after_one one_turn 2 (with_run leased_row)).0
    ≡ ok (some 1)
unfolding lookup insert steps step run_lease_call claim_run earliest take_lease insert_lease
    insert_attempt start_run complete heartbeat transition update_run insert_state_event
    insert_run_event safe_event_metadata safe_fields safe_value write_event event_from_row
    run_forever run_once run_claimed beside_handler settle after_iteration
one_run = refl
