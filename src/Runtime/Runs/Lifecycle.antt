-- ===== src/Runtime/Runs/Lifecycle.antt =====
-- The life cycle of runs (runtime/runs.py) over any sequence of calls.
use grok_bot_data.Prelude.{
  ℕ, String, refl, ap, inl, inr, Bool, true, false, not, Option, some, List, [], arith, Bool-cases,
  Option-cases, Result, err, passed_not, string_eq, pair_eq, option_eq, nat_eq, ◌≤◌, ◌<◌, ◌≡◌, ◌⊎◌,
  ◌||◌, ◌∷◌, ◌∙◌, ◌!=◌, ◌>>=◌,
}
use grok_bot_data.Prelude.Dict.{lookup, key_differs, lookup-insert_ne}
use grok_bot_data.Prelude.Outcome.{Outcome, refused, moved, Outcome-steps}
use grok_bot_data.Runtime.Runs.{
  Run, RunState, RunError, RunLedger, RunCommand, transitions, is_active, is_wait_reason,
  owner_differs, create, get, guard, lease, transition, wait, checkpoint,
}

pub data RunCall (P : Type 0) : Type 0 where
  create_call : String → String → String → String → RunCall P
  lease_call : String → String → RunCall P
  transition_call : String → String → ℕ → RunState → Option String → RunCall P
  wait_call : String → String → ℕ → String → RunCall P
  checkpoint_call : String → String → ℕ → P → RunCall P

module _ {P : Type 0} where
  unfoldable pub step : RunCall P → RunLedger P → RunLedger P
  step (create_call id workspace conversation bot) s = (create id workspace conversation bot s).1
  step (lease_call id w) s = (lease id w s).1
  step (transition_call id w f state error) s = (transition id w f state error s).1
  step (wait_call id w f reason) s = (wait id w f reason s).1
  step (checkpoint_call id w f contents) s = (checkpoint id w f contents s).1

  unfoldable pub steps : List (RunCall P) → RunLedger P → RunLedger P
  steps [] s = s
  steps (call ∷ rest) s = steps rest (step call s)

abbrev pub is_final : RunState → Bool
is_final RunState.completed = true
is_final RunState.handed_off = true
is_final RunState.failed = true
is_final RunState.cancelled = true
is_final _ = false

abbrev pub run_identity : {P : Type 0} → Run P → String × String × String × String
run_identity run = (run.run_id, run.workspace_id, run.conversation_id, run.bot_id)

-- A change of a run: along an edge of the table, with a new fence for each new lease, or a
-- checkpoint of a run that is leased or running.
pub record Advances {P : Type 0} (a b : Run P) : Type 0 where
  pub same_identity : run_identity b ≡ run_identity a
  pub not_final : is_final a.state ≡ false
  pub edge :
      (transitions a.state b.state ≡ true) ⊎ ((b.state ≡ a.state) × (is_active a.state ≡ true))
  pub fence_grows : a.fence ≤ b.fence
  pub checkpoints_grow : a.checkpoint_revision ≤ b.checkpoint_revision

module _ {P : Type 0} (s : RunLedger P) where
  abbrev RunOutcome : Result RunError (Run P) × RunLedger P → Type 0
  RunOutcome = Outcome (λ (t : RunLedger P). t.runs) Advances s

  get-Outcome :
      (id : String) (k : Run P → RunCommand P (Run P))
      → ((a : Run P) → lookup id s.runs ≡ some a → RunOutcome (k a s))
      → RunOutcome ((get id >>= k) s)
  unfolding get
  get-Outcome id k h = elim (Option-cases (lookup id s.runs)) [
    | inl miss ↦ rw miss (refused _)
    | inr (a, hit) ↦ rw hit (h a hit)
  ]

  guard-Outcome :
      (id w : String) (f : ℕ) (k : Run P → RunCommand P (Run P))
      → ((a : Run P) → lookup id s.runs ≡ some a → RunOutcome (k a s))
      → RunOutcome ((guard id w f >>= k) s)
  unfolding guard get
  guard-Outcome id w f k h = elim (Option-cases (lookup id s.runs)) [
    | inl miss ↦ rw miss (refused _)
    | inr (a, hit) ↦ elim (Bool-cases (owner_differs a.lease_owner w || a.fence != f)) [
      | inl stale ↦ rw (hit, stale) (refused _)
      | inr fresh ↦ rw (hit, fresh) (h a hit)
    ]
  ]

  not_final_of : (t u : RunState) → transitions t u ≡ true → is_final t ≡ false
  unfolding transitions
  not_final_of t u h = ground arith

  along :
      (a b : Run P)
      → run_identity b ≡ run_identity a
      → transitions a.state b.state ≡ true
      → a.fence ≤ b.fence
      → a.checkpoint_revision ≤ b.checkpoint_revision
      → Advances a b
  along a b same edge fence checkpoints = record {
    same_identity = same;
    not_final = not_final_of a.state b.state edge;
    edge = inl edge;
    fence_grows = fence;
    checkpoints_grow = checkpoints;
  }

  not_final_active : (t : RunState) → is_active t ≡ true → is_final t ≡ false
  not_final_active t h = ground arith

  lease-Outcome : (id w : String) → RunOutcome (lease id w s)
  unfolding lease
  lease-Outcome id w = get-Outcome id _ λ a hit.
      elim (Bool-cases (not (transitions a.state RunState.leased))) [
        | inl no_edge ↦ rw no_edge (refused _)
        | inr edge ↦ rw edge (
            moved id a _ _ hit (along a _ refl (passed_not _ edge) (omega arith) (omega arith))
              refl)
      ]

  transition-Outcome :
      (id w : String) (f : ℕ) (state : RunState) (error : Option String)
      → RunOutcome (transition id w f state error s)
  unfolding transition
  transition-Outcome id w f state error = guard-Outcome id w f _ λ a hit.
      elim (Bool-cases (not (transitions a.state state))) [
        | inl no_edge ↦ rw no_edge (refused _)
        | inr edge ↦ rw edge (
            moved id a _ _ hit (along a _ refl (passed_not _ edge) (omega arith) (omega arith))
              refl)
      ]

  wait-Outcome : (id w : String) (f : ℕ) (reason : String) → RunOutcome (wait id w f reason s)
  unfolding wait
  wait-Outcome id w f reason = elim (Bool-cases (not (is_wait_reason reason))) [
    | inl bad ↦ rw bad (refused _)
    | inr good ↦ rw good (
        guard-Outcome id w f _ λ a hit.
          elim (Bool-cases (not (transitions a.state RunState.waiting))) [
            | inl no_edge ↦ rw no_edge (refused _)
            | inr edge ↦ rw edge (
                moved id a _ _ hit (along a _ refl (passed_not _ edge) (omega arith) (omega arith))
                  refl)
          ])
  ]

  checkpoint-Outcome :
      (id w : String) (f : ℕ) (contents : P) → RunOutcome (checkpoint id w f contents s)
  unfolding checkpoint
  checkpoint-Outcome id w f contents = guard-Outcome id w f _ λ a hit.
      elim (Bool-cases (not (is_active a.state))) [
        | inl idle ↦ rw idle (refused _)
        | inr active ↦ rw active (
            moved id a _ _ hit
              (record {
                same_identity = refl;
                not_final = not_final_active a.state (passed_not _ active);
                edge = inr (refl, passed_not _ active);
                fence_grows = omega arith;
                checkpoints_grow = omega arith;
              })
              refl)
      ]

  create-keeps :
      (i workspace conversation bot id : String) (a : Run P)
      → lookup id s.runs ≡ some a
      → lookup id (create i workspace conversation bot s).1.runs ≡ some a
  unfolding create
  create-keeps i workspace conversation bot id a h = elim (Option-cases (lookup i s.runs)) [
    | inl free ↦ rw free (lookup-insert_ne s.runs i id _ (key_differs s.runs i id a free h) ∙ h)
    | inr (b, taken) ↦ rw taken h
  ]

-- From one call to the next a run is the same, or it advances.
abbrev pub Stepped : {P : Type 0} → Run P → Run P → Type 0
Stepped a b = (b ≡ a) ⊎ Advances a b

module _ {P : Type 0} where
  pub step-Stepped :
      (call : RunCall P) (s : RunLedger P) (id : String) (a : Run P)
      → lookup id s.runs ≡ some a
      → (b : Run P) × (lookup id (step call s).runs ≡ some b) × Stepped a b
  unfolding step
  step-Stepped (create_call i workspace conversation bot) s id a h =
      (a, create-keeps s i workspace conversation bot id a h, inl refl)
  step-Stepped (lease_call i w) s id a h = Outcome-steps _ _ s _ id a (lease-Outcome s i w) h
  step-Stepped (transition_call i w f state error) s id a h =
      Outcome-steps _ _ s _ id a (transition-Outcome s i w f state error) h
  step-Stepped (wait_call i w f reason) s id a h =
      Outcome-steps _ _ s _ id a (wait-Outcome s i w f reason) h
  step-Stepped (checkpoint_call i w f contents) s id a h =
      Outcome-steps _ _ s _ id a (checkpoint-Outcome s i w f contents) h

  final_stays : (a b : Run P) → is_final a.state ≡ true → Stepped a b → b ≡ a
  final_stays a b h (inl same) = same
  final_stays a b h (inr adv) = absurd (clash adv.not_final)
    where
      clash : is_final a.state ≡ false → ⊥
      clash k = cc (h, k)

  -- A run that is completed, handed off, failed or cancelled never changes again, whatever calls
  -- follow.
  pub steps_final :
      (calls : List (RunCall P)) (s : RunLedger P) (id : String) (a : Run P)
      → lookup id s.runs ≡ some a
      → is_final a.state ≡ true
      → lookup id (steps calls s).runs ≡ some a
  unfolding steps
  steps_final [] s id a h done = h
  steps_final (call ∷ rest) s id a h done =
      let (b, eb, st) = step-Stepped call s id a h in
      steps_final rest (step call s) id a (eb ∙ ap some (final_stays a b done st)) done

  fence-Stepped : (a b : Run P) → Stepped a b → a.fence ≤ b.fence
  fence-Stepped a b (inl same) = rw same (omega arith)
  fence-Stepped a b (inr adv) = adv.fence_grows

  -- If a worker's fence is older than a run's, a `transition` of the worker on the run raises and
  -- changes nothing, whatever calls came in between.
  pub steps_stale :
      (calls : List (RunCall P)) (s : RunLedger P) (id w : String) (f : ℕ) (a : Run P)
      (state : RunState) (error : Option String)
      → lookup id s.runs ≡ some a
      → f < a.fence
      → transition id w f state error (steps calls s) ≡ (err RunError.fence_error, steps calls s)
  unfolding steps transition guard get
  steps_stale [] s id w f a state error h old =
      rw (h, stale (owner_differs a.lease_owner w) a.fence f old)
    where
      stale : (c : Bool) (now held : ℕ) → held < now → (c || now != held) ≡ true
      stale true now held lt = refl
      stale false now held lt = ground arith
  steps_stale (call ∷ rest) s id w f a state error h old =
      let (b, eb, st) = step-Stepped call s id a h in
      steps_stale rest (step call s) id w f b state error eb (omega (arith, fence-Stepped a b st))
