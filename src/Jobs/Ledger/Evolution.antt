-- ===== src/Jobs/Ledger/Evolution.antt =====
-- What one call of a method of `JobLedger` (jobs/ledger.py) may do to a job.
use grok_bot_data.Prelude.{
  ℕ, String, refl, inl, inr, Bool, true, false, not, Option, none, some, arith, Bool-cases,
  Option-cases, Result, ok, err, or_raise, raise_if, string_eq, pair_eq, option_eq, nat_eq, ◌+◌,
  ◌≤◌, ◌≡◌, ◌||◌, ◌!=◌, ◌>>=◌, ◌>>◌,
}
use grok_bot_data.Prelude.Dict.{lookup, insert}
use grok_bot_data.Jobs.Job.{
  Job, JobLedger, JobState, JobError, Command, is_active, is_terminal, queued, leased, running,
  waiting, completed, failed, cancelled,
}
use grok_bot_data.Jobs.Ledger.{guard, get, owner_differs}

-- The edges of the life cycle, a method that leaves the state alone included.
abbrev pub can_move : JobState → JobState → Bool
can_move queued leased = true
can_move queued cancelled = true
can_move queued queued = true
can_move leased _ = true
can_move running _ = true
can_move waiting queued = true
can_move waiting waiting = true
can_move waiting cancelled = true
can_move completed completed = true
can_move failed failed = true
can_move cancelled cancelled = true
can_move _ _ = false

-- A job has an owner and a deadline exactly while it is leased or running.
abbrev pub lease_matches : JobState → Option String → Option ℕ → Bool
lease_matches state none none = not (is_active state)
lease_matches state (some owner) (some expires) = is_active state
lease_matches state _ _ = false

abbrev pub HasLease : {P : Type 0} → Job P → Type 0
HasLease job = lease_matches job.state job.lease_owner job.lease_expires_at ≡ true

-- What no method changes.
abbrev pub identity : {P : Type 0} → Job P → String × String × String × P × String
identity job = (job.job_id, job.workspace_id, job.kind, job.payload, job.idempotency_key)

-- One step of a job, from `a` to `b`.
pub record Moves {P : Type 0} (a b : Job P) : Type 0 where
  pub same_identity : identity b ≡ identity a
  pub edge : can_move a.state b.state ≡ true
  pub fence_grows : a.fence ≤ b.fence
  pub attempts_follow : b.attempts + a.fence ≡ a.attempts + b.fence
  pub checkpoints_grow : a.checkpoint_revision ≤ b.checkpoint_revision
  pub terminal_stays : is_terminal a.state ≡ true → b ≡ a
  pub lease_kept : HasLease a → HasLease b

can_move_refl : (t : JobState) → can_move t t ≡ true
can_move_refl queued = refl
can_move_refl leased = refl
can_move_refl running = refl
can_move_refl waiting = refl
can_move_refl completed = refl
can_move_refl failed = refl
can_move_refl cancelled = refl

active_not_terminal : (t : JobState) → is_active t ≡ true → is_terminal t ≡ true → ⊥
active_not_terminal t h k = ground arith

module _ {P : Type 0} where
  pub Moves-refl : (a : Job P) → Moves a a
  Moves-refl a = record {
    same_identity = refl;
    edge = can_move_refl a.state;
    fence_grows = omega arith;
    attempts_follow = refl;
    checkpoints_grow = omega arith;
    terminal_stays = λ _. refl;
    lease_kept = λ h. h;
  }

  -- A step of a job that is not queued, waiting or done, and that keeps its fence.
  pub Moves-active :
      (a b : Job P)
      → is_active a.state ≡ true
      → identity b ≡ identity a
      → can_move a.state b.state ≡ true
      → b.fence ≡ a.fence
      → b.attempts ≡ a.attempts
      → a.checkpoint_revision ≤ b.checkpoint_revision
      → (HasLease a → HasLease b)
      → Moves a b
  Moves-active a b active same edge fence attempts checkpoints lease = record {
    same_identity = same;
    edge = edge;
    fence_grows = omega arith;
    attempts_follow = omega arith;
    checkpoints_grow = checkpoints;
    terminal_stays = λ t. absurd (active_not_terminal a.state active t);
    lease_kept = lease;
  }

  -- The outcome of a method on one job of the ledger `s`: it raised, or returned the job as it
  -- was, or moved the job; all else is as it was.
  pub data Outcome (s : JobLedger P) : Result JobError (Job P) × JobLedger P → Type 0 where
    refused : (e : JobError) → Outcome s (err e, s)
    kept : (id : String) (a : Job P) → lookup id s.jobs ≡ some a → Outcome s (ok a, s)
    moved :
        (id : String) (a b : Job P)
        → lookup id s.jobs ≡ some a
        → Moves a b
        → Outcome s (ok b, record s { jobs = insert id b s.jobs })

  pub raise_if-Outcome :
      (s : JobLedger P) (c : Bool) (e : JobError) (k : Command P (Job P))
      → (c ≡ false → Outcome s (k s))
      → Outcome s ((raise_if c e >> k) s)
  raise_if-Outcome s true e k h = refused e
  raise_if-Outcome s false e k h = h refl

  or_raise-Outcome :
      (s : JobLedger P) (o : Option (Job P)) (e : JobError) (k : Job P → Command P (Job P))
      → ((a : Job P) → o ≡ some a → Outcome s (k a s))
      → Outcome s ((or_raise o e >>= k) s)
  or_raise-Outcome s none e k h = refused e
  or_raise-Outcome s (some a) e k h = h a refl

  pub get-Outcome :
      (s : JobLedger P) (id : String) (k : Job P → Command P (Job P))
      → ((a : Job P) → lookup id s.jobs ≡ some a → Outcome s (k a s))
      → Outcome s ((get id >>= k) s)
  unfolding get
  get-Outcome s id k h = or_raise-Outcome s (lookup id s.jobs) _ k h

  pub guard-Outcome :
      (s : JobLedger P) (id w : String) (f : ℕ) (k : Job P → Command P (Job P))
      → ((a : Job P) → lookup id s.jobs ≡ some a → Outcome s (k a s))
      → Outcome s ((guard id w f >>= k) s)
  unfolding guard
  guard-Outcome s id w f k h = elim (Option-cases (lookup id s.jobs)) [
    | inl miss ↦ rw (miss) (refused _)
    | inr (a, hit) ↦ elim (Bool-cases (owner_differs a.lease_owner w || a.fence != f)) [
      | inl stale ↦ rw (hit, stale) (refused _)
      | inr fresh ↦ rw (hit, fresh) (h a hit)
    ]
  ]
