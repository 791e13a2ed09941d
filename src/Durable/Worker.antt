-- ===== src/Durable/Worker.antt =====
-- packages/platform/src/vda_platform/jobs/postgres_worker.py: `PostgresControlWorker` over the
-- repository. The handler is a parameter: what it returned or raised, and what ran while it did, the
-- beats of the heartbeat thread and the calls of all clients. The hook after a commit is one too.
pub mod Sequences
use grok_bot_data.Prelude.{
  ℕ, zero, suc, String, Bool, true, false, Option, none, some, List, [], Result, ok, err, Exec,
  pure, raise, lift, raise_if, ◌+◌, ◌∷◌, ◌==◌, ◌>>=◌, ◌>>◌, if◌then◌else◌, string_eq, pair_eq,
  nat_eq, option_eq,
}
use grok_bot_data.Jobs.Worker.{HandlerResult, returned, waiting_job, retryable_error, other_error}
use grok_bot_data.Durable.Tables.{Database, Host, RepositoryCommand, RepositoryError}
use grok_bot_data.Durable.Runs.{RunLease}
use grok_bot_data.Durable.Runs.Leases.{complete, fail, heartbeat, start_run, wait}
use grok_bot_data.Durable.Runs.Claims.{claim_run}
use grok_bot_data.Durable.Runs.Calls.{Call, step}

-- what happens while a handler runs
pub data Moment (P : Type 0) : Type 0 where
  beat : ℕ → Moment P
  client_call : ℕ → Call P → Moment P

abbrev pub RuntimeRunHandler : Type 0 → Type 0
RuntimeRunHandler P = RunLease P → HandlerResult × List (Moment P)

-- An exception of the repository, one of a hook, or that of `run_forever`.
pub data WorkerError : Type 0 where
  repository_error : RepositoryError → WorkerError
  hook_error : String → WorkerError
  poll_interval_not_positive : WorkerError

-- `PostgresControlWorker`, and `lease_seconds` of its repository
pub record WorkerSettings (P : Type 0) : Type 0 where
  pub workspace_id : String
  pub worker_id : String
  pub handler : RuntimeRunHandler P
  pub lease_seconds : Option ℕ
  pub after_commit : Option (RunLease P → Option String)
  pub default_lease_seconds : ℕ

-- What one iteration draws: the instants of its three calls (all three the argument `now` of
-- `run_once` where it is given, else the clock at each call), the ids of the attempt and of three
-- events, and the runs that other transactions hold.
pub record Iteration : Type 0 where
  pub claimed_at : ℕ
  pub started_at : ℕ
  pub settled_at : ℕ
  pub attempt_id : String
  pub lease_event : String
  pub start_event : String
  pub end_event : String
  pub locked : String → Bool

abbrev pub WorkerCommand : Type 0 → Type 0 → Type 0
WorkerCommand P A = Exec (Database P) WorkerError A

abbrev pub from_repository :
    {P A : Type 0} → Result RepositoryError A × Database P → Result WorkerError A × Database P
from_repository (ok a, s) = (ok a, s)
from_repository (err e, s) = (err (repository_error e), s)

abbrev pub repository : {P A : Type 0} → RepositoryCommand P A → WorkerCommand P A
repository command s = from_repository (command s)

abbrev pub raise_first : {P : Type 0} → Option String → WorkerCommand P Unit
raise_first none = pure tt
raise_first (some name) = raise (hook_error name)

abbrev pub run_hook :
    {P : Type 0} → Option (RunLease P → Option String) → RunLease P → WorkerCommand P Unit
run_hook none completed = pure tt
run_hook (some hook) completed = raise_first (hook completed)

abbrev pub renewed : {P : Type 0} → RunLease P → Result RepositoryError (RunLease P) → RunLease P
renewed lease (ok later) = later
renewed lease (err e) = lease

abbrev pub error_of : {A : Type 0} → Result RepositoryError A → Option RepositoryError
error_of (ok a) = none
error_of (err e) = some e

module _ {P : Type 0} (host : Host P) (is_identifier : String → Bool)
    (worker : WorkerSettings P) where
  -- `_error_code`
  unfoldable pub error_code : String → String
  error_code name = if is_identifier name then name else "runtime_run_failed"

  -- `_LeaseHeartbeat._run` beside the handler: `error` is that of a beat that raised, after which the
  -- thread beats no more
  unfoldable pub beside_handler :
      List (Moment P)
      → RunLease P
      → Option RepositoryError
      → Database P
      → Option RepositoryError × Database P
  beside_handler [] lease error s = (error, s)
  beside_handler (client_call now call ∷ rest) lease error s =
      beside_handler rest lease error (step host worker.default_lease_seconds now call s)
  beside_handler (beat now ∷ rest) lease (some e) s = beside_handler rest lease (some e) s
  beside_handler (beat now ∷ rest) lease none s =
      let (result, after) = heartbeat worker.default_lease_seconds lease now s in
      beside_handler rest (renewed lease result) (error_of result) after

  -- `run_once` behind the handler
  unfoldable pub settle :
      Iteration → RunLease P → HandlerResult → Option RepositoryError → WorkerCommand P (RunLease P)
  unfolding error_code
  settle turn running (waiting_job reason) beaten =
      repository (wait host turn.end_event running reason turn.settled_at)
  settle turn running (retryable_error name) beaten =
      repository (fail host turn.end_event running (error_code name) true turn.settled_at)
  settle turn running (other_error name) beaten =
      repository (fail host turn.end_event running (error_code name) false turn.settled_at)
  settle turn running (returned result_ref) (some e) = raise (repository_error e)
  settle turn running (returned result_ref) none = do
    completed ← repository (complete host turn.end_event running result_ref turn.settled_at)
    run_hook worker.after_commit completed
    pure completed

  -- `run_once` from the start of the run
  unfoldable pub run_claimed :
      Iteration → Option (RunLease P) → WorkerCommand P (Option (RunLease P))
  unfolding beside_handler settle
  run_claimed turn none = pure none
  run_claimed turn (some lease) = do
    running ← repository (start_run host turn.start_event lease turn.started_at)
    beaten ← λ s.
        let (error, after) = beside_handler (worker.handler running).1 running none s in
        (ok error, after)
    settled ← settle turn running (worker.handler running).0 beaten
    pure (some settled)

  -- `run_once`
  unfoldable pub run_once : Iteration → WorkerCommand P (Option (RunLease P))
  unfolding run_claimed
  run_once turn = do
    lease ← repository (
        claim_run host worker.default_lease_seconds turn.attempt_id turn.lease_event turn.locked
          worker.workspace_id worker.worker_id turn.claimed_at worker.lease_seconds)
    run_claimed turn lease

  -- the body of the loop of `run_forever` behind `run_once`: the runs counted so far and the rest;
  -- `on_error` is a hook, if there is one, which may raise itself
  unfoldable pub after_iteration :
      Option (WorkerError → Option String)
      → ℕ
      → Result WorkerError (Option (RunLease P))
      → WorkerCommand P ℕ
  after_iteration on_error processed (ok none) = pure processed
  after_iteration on_error processed (ok (some lease)) = pure (processed + 1)
  after_iteration none processed (err e) = raise e
  after_iteration (some hook) processed (err e) = do raise_first (hook e); pure processed

  -- the loop of `run_forever` from its `n`-th iteration on: `is_set n` is the state of the stop event
  -- at that test, which another thread sets, and `turns n` what the iteration draws. On fuel, `none`
  -- if it is used up.
  unfoldable pub run_loop :
      Option (WorkerError → Option String)
      → (ℕ → Bool)
      → (ℕ → Iteration)
      → ℕ
      → ℕ
      → ℕ
      → WorkerCommand P (Option ℕ)
  unfolding run_once after_iteration
  run_loop on_error is_set turns zero n processed = pure none
  run_loop on_error is_set turns (suc fuel) n processed =
      if is_set n then pure (some processed) else (λ s.
        let (result, after) = run_once (turns n) s in
        (after_iteration on_error processed result >>= λ counted.
        run_loop on_error is_set turns fuel (n + 1) counted)
          after)

  -- `run_forever`; the poll interval is a number of some unit of time
  unfoldable pub run_forever :
      Option (WorkerError → Option String)
      → ℕ
      → (ℕ → Bool)
      → (ℕ → Iteration)
      → ℕ
      → WorkerCommand P (Option ℕ)
  unfolding run_loop
  run_forever on_error poll_interval is_set turns fuel = do
    raise_if (poll_interval == 0) poll_interval_not_positive
    run_loop on_error is_set turns fuel 0 0
