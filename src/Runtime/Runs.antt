-- ===== src/Runtime/Runs.antt =====
-- packages/platform/src/vda_platform/runtime/runs.py: `RunLedger`.
-- A checkpoint is an object of a type `P`.
pub mod Lifecycle
use grok_bot_data.Prelude.{
  ℕ, String, Bool, true, false, not, Option, none, some, Exec, pure, gets, or_raise, raise_if,
  modify, ◌+◌, ◌||◌, ◌==◌, ◌!=◌, ◌>>=◌, ◌>>◌, if◌then◌else◌, string_eq, pair_eq, nat_eq, option_eq,
}
use grok_bot_data.Prelude.Dict.{Dict, lookup, insert, contains}

-- `InvalidRunTransition`, `FenceError`, the two `ValueError`s, and the `KeyError` of `get`
pub data RunError : Type 0 where
  invalid_transition checkpoint_needs_lease fence_error run_exists invalid_wait_reason : RunError
  key_error : RunError

pub data RunState : Type 0 where
  queued leased running waiting completed handed_off failed cancelled : RunState

pub record Run (P : Type 0) : Type 0 where
  pub run_id : String
  pub workspace_id : String
  pub conversation_id : String
  pub bot_id : String
  pub state : RunState
  pub lease_owner : Option String
  pub fence : ℕ
  pub checkpoint_revision : ℕ
  pub checkpoint : Option P
  pub wait_reason : Option String
  pub error_code : Option String

-- `_TRANSITIONS`: `transitions s t` is `t in _TRANSITIONS[s]`
unfoldable pub transitions : RunState → RunState → Bool
transitions RunState.queued RunState.leased = true
transitions RunState.queued RunState.cancelled = true
transitions RunState.leased RunState.running = true
transitions RunState.leased RunState.queued = true
transitions RunState.leased RunState.cancelled = true
transitions RunState.running RunState.waiting = true
transitions RunState.running RunState.completed = true
transitions RunState.running RunState.handed_off = true
transitions RunState.running RunState.failed = true
transitions RunState.running RunState.cancelled = true
transitions RunState.waiting RunState.leased = true
transitions RunState.waiting RunState.cancelled = true
transitions RunState.waiting RunState.failed = true
transitions _ _ = false

pub record RunLedger (P : Type 0) : Type 0 where
  pub runs : Dict String (Run P)

abbrev pub is_waiting : RunState → Bool
is_waiting RunState.waiting = true
is_waiting _ = false

-- `run.state in {RunState.LEASED, RunState.RUNNING}`
abbrev pub is_active : RunState → Bool
is_active RunState.leased = true
is_active RunState.running = true
is_active _ = false

abbrev pub is_wait_reason : String → Bool
is_wait_reason reason =
    reason == "input"
    || reason == "approval"
    || reason == "children"
    || reason == "tool"
    || reason == "peer"

-- `run.lease_owner != worker_id`
abbrev pub owner_differs : Option String → String → Bool
owner_differs none worker_id = true
owner_differs (some owner) worker_id = owner != worker_id

abbrev pub RunCommand : Type 0 → Type 0 → Type 0
RunCommand P A = Exec (RunLedger P) RunError A

module _ {P : Type 0} where
  -- `self._runs[run_id] = updated; return updated`
  abbrev pub save : String → Run P → RunCommand P (Run P)
  save run_id updated = do
    modify (λ s. record s { runs = insert run_id updated s.runs })
    pure updated

  -- `RunLedger.create`
  unfoldable pub create : String → String → String → String → RunCommand P (Run P)
  create run_id workspace_id conversation_id bot_id = do
    taken ← gets (λ s. contains run_id s.runs)
    raise_if taken run_exists
    save run_id (record {
      run_id = run_id;
      workspace_id = workspace_id;
      conversation_id = conversation_id;
      bot_id = bot_id;
      state = RunState.queued;
      lease_owner = none;
      fence = 0;
      checkpoint_revision = 0;
      checkpoint = none;
      wait_reason = none;
      error_code = none;
    })

  -- `RunLedger.get`
  unfoldable pub get : String → RunCommand P (Run P)
  get run_id = do found ← gets (λ s. lookup run_id s.runs); or_raise found key_error

  -- `RunLedger._guard`
  unfoldable pub guard : String → String → ℕ → RunCommand P (Run P)
  unfolding get
  guard run_id worker_id fence = do
    run ← get run_id
    raise_if (owner_differs run.lease_owner worker_id || run.fence != fence) fence_error
    pure run

  -- `RunLedger.lease`
  unfoldable pub lease : String → String → RunCommand P (Run P)
  unfolding get transitions
  lease run_id worker_id = do
    run ← get run_id
    raise_if (not (transitions run.state RunState.leased)) invalid_transition
    save run_id (record run {
      state = RunState.leased;
      lease_owner = some worker_id;
      fence = run.fence + 1;
    })

  -- `RunLedger.transition`
  unfoldable pub transition : String → String → ℕ → RunState → Option String → RunCommand P (Run P)
  unfolding guard transitions
  transition run_id worker_id fence state error_code = do
    run ← guard run_id worker_id fence
    raise_if (not (transitions run.state state)) invalid_transition
    let updated : Run P = record run { state = state; error_code = error_code }
    save run_id
        (record updated { wait_reason = if is_waiting state then updated.wait_reason else none })

  -- `RunLedger.wait`
  unfoldable pub wait : String → String → ℕ → String → RunCommand P (Run P)
  unfolding guard transitions
  wait run_id worker_id fence reason = do
    raise_if (not (is_wait_reason reason)) invalid_wait_reason
    run ← guard run_id worker_id fence
    raise_if (not (transitions run.state RunState.waiting)) invalid_transition
    save run_id
        (record run { state = RunState.waiting; wait_reason = some reason; lease_owner = none })

  -- `RunLedger.checkpoint`
  unfoldable pub checkpoint : String → String → ℕ → P → RunCommand P (Run P)
  unfolding guard
  checkpoint run_id worker_id fence contents = do
    run ← guard run_id worker_id fence
    raise_if (not (is_active run.state)) checkpoint_needs_lease
    save run_id (record run {
      checkpoint_revision = run.checkpoint_revision + 1;
      checkpoint = some contents;
    })
