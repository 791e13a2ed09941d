-- ===== src/Jobs/Ledger/Trace.antt =====
-- Any sequence of calls on a `JobLedger` (jobs/ledger.py).
use grok_bot_data.Prelude.{
  ℕ, String, refl, sym, subst, inl, inr, Bool, true, false, some, List, [], arith, Eq, Result,
  string_eq, pair_eq, option_eq, nat_eq, ◌≤◌, ◌<◌, ◌≡◌, ◌||◌, ◌∷◌, ◌∙◌, ◌!=◌,
}
use grok_bot_data.Prelude.Dict.{lookup}
use grok_bot_data.Jobs.Job.{Job, JobLedger, JobError, is_terminal}
use grok_bot_data.Jobs.Ledger.{owner_differs}
use grok_bot_data.Jobs.Ledger.Call.{
  Call, FencedCall, fenced, enqueue_call, claim_call, resume_call, cancel_call, run_fenced, step,
  steps,
}
use grok_bot_data.Jobs.Ledger.Evolution.{Moves, identity, Outcome, refused, kept, moved}
use grok_bot_data.Jobs.Ledger.Methods.{resume-Outcome, cancel-Outcome}
use grok_bot_data.Jobs.Ledger.Fencing.{run_fenced-Outcome, run_fenced_stale, IsRefused}
use grok_bot_data.Jobs.Ledger.Valid.{IsValid, AllMove, Outcome-AllMove, Outcome-IsValid}
use grok_bot_data.Jobs.Ledger.Claim.{claim-AllMove, claim-IsValid, claim-cases}
use grok_bot_data.Jobs.Ledger.Enqueue.{enqueue-AllMove, enqueue-IsValid, enqueue-keys}

-- What any number of steps may do to a job.
pub record Evolves {P : Type 0} (a b : Job P) : Type 0 where
  pub same_identity : identity b ≡ identity a
  pub fence_grows : a.fence ≤ b.fence
  pub checkpoints_grow : a.checkpoint_revision ≤ b.checkpoint_revision
  pub terminal_stays : is_terminal a.state ≡ true → b ≡ a

-- A later ledger: every job is still there, and every idempotency key names the same job.
pub record IsLater {P : Type 0} (s s' : JobLedger P) : Type 0 where
  pub jobs :
      (id : String) (a : Job P)
      → lookup id s.jobs ≡ some a
      → (b : Job P) × (lookup id s'.jobs ≡ some b) × Evolves a b
  pub keys :
      (k : String × String) (id : String)
      → lookup k s.idempotency ≡ some id
      → lookup k s'.idempotency ≡ some id

module _ {P : Type 0} where
  Evolves-refl : (a : Job P) → Evolves a a
  Evolves-refl a = record {
    same_identity = refl;
    fence_grows = omega arith;
    checkpoints_grow = omega arith;
    terminal_stays = λ t. refl;
  }

  Evolves-Moves : {a b c : Job P} → Moves a b → Evolves b c → Evolves a c
  Evolves-Moves m h = record {
    same_identity = h.same_identity ∙ m.same_identity;
    fence_grows = omega (arith, m.fence_grows, h.fence_grows);
    checkpoints_grow = omega (arith, m.checkpoints_grow, h.checkpoints_grow);
    terminal_stays = λ t.
        let e = m.terminal_stays t in
        h.terminal_stays (subst (λ j. is_terminal j.state ≡ true) (sym e) t) ∙ e;
  }

  Outcome-keys :
      (s : JobLedger P) (r : Result JobError (Job P) × JobLedger P) (k : String × String)
      (id : String)
      → Outcome s r
      → lookup k s.idempotency ≡ some id
      → lookup k r.1.idempotency ≡ some id
  Outcome-keys s r k id (refused x) h = h
  Outcome-keys s r k id (kept i a hit) h = h
  Outcome-keys s r k id (moved i a b hit m) h = h

module _ {P : Type 0} ⦃e : Eq P⦄ (json_safe : P → Bool) where
  pub step-IsValid : (call : Call P) (s : JobLedger P) → IsValid s → IsValid (step json_safe call s)
  unfolding step
  step-IsValid (fenced id w f call) s v =
      Outcome-IsValid s _ (run_fenced-Outcome json_safe s id w f call) v
  step-IsValid (enqueue_call id workspace kind payload key now) s v =
      enqueue-IsValid json_safe id workspace kind payload key now s v
  step-IsValid (claim_call w now limit lease) s v = claim-IsValid s v w now limit lease
  step-IsValid (resume_call id) s v = Outcome-IsValid s _ (resume-Outcome s id) v
  step-IsValid (cancel_call id) s v = Outcome-IsValid s _ (cancel-Outcome s id) v

  step-AllMove :
      (call : Call P) (s : JobLedger P) → IsValid s → AllMove s.jobs (step json_safe call s).jobs
  unfolding step
  step-AllMove (fenced id w f call) s v =
      Outcome-AllMove s _ (run_fenced-Outcome json_safe s id w f call)
  step-AllMove (enqueue_call id workspace kind payload key now) s v =
      enqueue-AllMove json_safe id workspace kind payload key now s
  step-AllMove (claim_call w now limit lease) s v = claim-AllMove s v w now limit lease
  step-AllMove (resume_call id) s v = Outcome-AllMove s _ (resume-Outcome s id)
  step-AllMove (cancel_call id) s v = Outcome-AllMove s _ (cancel-Outcome s id)

  step-keys :
      (call : Call P) (s : JobLedger P) (k : String × String) (id : String)
      → IsValid s
      → lookup k s.idempotency ≡ some id
      → lookup k (step json_safe call s).idempotency ≡ some id
  unfolding step
  step-keys (fenced i w f call) s k id v h =
      Outcome-keys s _ k id (run_fenced-Outcome json_safe s i w f call) h
  step-keys (enqueue_call i workspace kind payload key now) s k id v h =
      enqueue-keys json_safe i workspace kind payload key now s k id h
  step-keys (claim_call w now limit lease) s k id v h = elim (claim-cases s v w now limit lease) [
    | inl (x, same) ↦ subst (λ r. lookup k r.1.idempotency ≡ some id) (sym same) h
    | inr (js, same, can, n) ↦ subst (λ r. lookup k r.1.idempotency ≡ some id) (sym same) h
  ]
  step-keys (resume_call i) s k id v h = Outcome-keys s _ k id (resume-Outcome s i) h
  step-keys (cancel_call i) s k id v h = Outcome-keys s _ k id (cancel-Outcome s i) h

  -- A valid ledger stays valid under any sequence of calls, those that raise included: leases
  -- fit the states, attempts count the fence, every key names a job, and every job is dated.
  pub steps-IsValid :
      (calls : List (Call P)) (s : JobLedger P) → IsValid s → IsValid (steps json_safe calls s)
  unfolding steps
  steps-IsValid [] s v = v
  steps-IsValid (call ∷ rest) s v =
      steps-IsValid rest (step json_safe call s) (step-IsValid call s v)

  -- Under any sequence of calls on a valid ledger every job stays, with its identity, its fence
  -- and checkpoint revision never falling and a done job never changing, and every idempotency
  -- key stays with its job.
  pub steps-IsLater :
      (calls : List (Call P)) (s : JobLedger P) → IsValid s → IsLater s (steps json_safe calls s)
  unfolding steps
  steps-IsLater [] s v = record { jobs = λ id a h. (a, h, Evolves-refl a); keys = λ k id h. h }
  steps-IsLater (call ∷ rest) s v =
      let later = steps-IsLater rest (step json_safe call s) (step-IsValid call s v) in
      record {
        jobs = λ id a h.
            let (b, eb, ab) = (step-AllMove call s v).at id a h in
            let (c, ec, bc) = later.jobs id b eb in (c, ec, Evolves-Moves ab bc);
        keys = λ k id h. later.keys k id (step-keys call s k id v h);
      }

  -- Once a job of a valid ledger has a higher fence than a worker holds, every fenced call of
  -- that worker on the job raises and changes nothing, whatever was called in between.
  pub stale_worker-IsRefused :
      (s : JobLedger P) (calls : List (Call P)) (id w : String) (f : ℕ) (a : Job P)
      (call : FencedCall P)
      → IsValid s
      → lookup id s.jobs ≡ some a
      → f < a.fence
      → IsRefused
          (steps json_safe calls s)
          (run_fenced json_safe call id w f (steps json_safe calls s))
  stale_worker-IsRefused s calls id w f a call v h old =
      let (b, eb, ab) = (steps-IsLater calls s v).jobs id a h in
      run_fenced_stale json_safe (steps json_safe calls s) id w f b eb
        (fence_too_old (owner_differs b.lease_owner w) b.fence f (omega (arith, ab.fence_grows)))
        call
    where
      fence_too_old : (c : Bool) (now held : ℕ) → held < now → (c || now != held) ≡ true
      fence_too_old true now held lt = refl
      fence_too_old false now held lt = ground arith
