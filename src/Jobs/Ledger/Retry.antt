-- ===== src/Jobs/Ledger/Retry.antt =====
-- Retries of `JobLedger.enqueue` (jobs/ledger.py).
use grok_bot_data.Prelude.{
  ℕ, String, refl, ap, subst, inl, inr, Bool, true, false, some, List, arith, leb, Bool-cases, Eq,
  beq_ne, Result, ok, err, string_eq, some_injective, pair_eq, option_eq, nat_eq, ◌≡◌, ◌≢◌, ◌||◌,
  ◌∙◌, ◌==◌, ◌!=◌,
}
use grok_bot_data.Prelude.Dict.{lookup, lookup-insert_self}
use grok_bot_data.Jobs.Job.{Job, JobLedger, JobError}
use grok_bot_data.Jobs.Ledger.{enqueue, init}
use grok_bot_data.Jobs.Ledger.Call.{Call, steps}
use grok_bot_data.Jobs.Ledger.Evolution.{identity}
use grok_bot_data.Jobs.Ledger.Valid.{IsValid}
use grok_bot_data.Jobs.Ledger.Enqueue.{
  Enqueued, enqueue-Enqueued, enqueue-IsValid, refused, known, created,
}
use grok_bot_data.Jobs.Ledger.Trace.{steps-IsLater}

pub init-IsValid : {P : Type 0} (seconds : ℕ) (s : JobLedger P) → init seconds ≡ some s → IsValid s
unfolding init lookup
init-IsValid seconds s h = elim (Bool-cases (leb seconds 0)) [
  | inl bad ↦ cc (rw bad at h)
  | inr good ↦ subst IsValid (some_injective (rw good at h)) (record {
    lease_positive = ground arith;
    keyed = tt;
    sound = λ id a e. cc;
    dated = λ id a e. cc;
    indexed = λ w k id e. cc;
  })
]

module _ {P : Type 0} ⦃e : Eq P⦄ (json_safe : P → Bool) (workspace kind : String) (payload : P)
    (key : String) where
  -- the ledger knows the key, for a job with this input
  abbrev KnownAs : Job P → JobLedger P → Type 0
  KnownAs a s =
      (id : String) × (lookup (workspace, key) s.idempotency ≡ some id)
      × (lookup id s.jobs ≡ some a)
      × (a.payload ≡ payload)
      × (a.kind ≡ kind)

  abbrev Knows : Result JobError (Job P) × JobLedger P → Type 0
  Knows (ok a, s) = KnownAs a s
  Knows (err x, s) = Unit

  Enqueued-Knows :
      (id : String) (now : ℕ) (s : JobLedger P) (r : Result JobError (Job P) × JobLedger P)
      → Enqueued json_safe id workspace kind payload key now s r
      → Knows r
  Enqueued-Knows id now s r (refused x) = tt
  Enqueued-Knows id now s r (known old a i h p q) = (old, i, h, p, q)
  Enqueued-Knows id now s r (created i free) =
      (id, lookup-insert_self s.idempotency _ _, lookup-insert_self s.jobs id _, refl, refl)

  accepted_arguments :
      (id : String) (now : ℕ) (s s' : JobLedger P) (a : Job P)
      → enqueue json_safe id workspace kind payload key now s ≡ (ok a, s')
      → ((workspace == "" || kind == "" || key == "") ≡ false) × (json_safe payload ≡ true)
  unfolding enqueue
  accepted_arguments id now s s' a h = ground arith

  same_input :
      (p' : P) (kind' : String)
      → p' ≡ payload
      → kind' ≡ kind
      → (p' != payload || kind' != kind) ≡ false
  same_input p' kind' p q = ground (arith, e.test_iff p' payload, string_eq.test_iff kind' kind)

  retry_known :
      (id : String) (now : ℕ) (s : JobLedger P) (b : Job P)
      → (id == "") ≡ false
      → (workspace == "" || kind == "" || key == "") ≡ false
      → json_safe payload ≡ true
      → KnownAs b s
      → enqueue json_safe id workspace kind payload key now s ≡ (ok b, s)
  unfolding enqueue
  retry_known id now s b named args safe (old, i, h, p, q) =
      rw (named, args, safe, i, h, same_input b.payload b.kind p q)

  pub enqueue_retry :
      (s s' : JobLedger P) (calls : List (Call P)) (id id' : String) (now now' : ℕ) (a : Job P)
      → IsValid s
      → enqueue json_safe id workspace kind payload key now s ≡ (ok a, s')
      → id' ≢ ""
      → (b : Job P) × (enqueue json_safe id' workspace kind payload key now'
            (steps json_safe calls s')
          ≡ (ok b, steps json_safe calls s'))
        × (identity b ≡ identity a)
  enqueue_retry s s' calls id id' now now' a v h named =
      let (args, safe) = accepted_arguments id now s s' a h in
      let (old, i, hit, p, q) = subst Knows h (
        Enqueued-Knows id now s _
          (enqueue-Enqueued json_safe id workspace kind payload key now s)) in
      let v' =
        subst (λ r. IsValid r.1) h
          (enqueue-IsValid json_safe id workspace kind payload key now s v) in
      let later = steps-IsLater json_safe calls s' v' in
      let (b, eb, ab) = later.jobs old a hit in
      (
        b,
        retry_known id' now' (steps json_safe calls s') b (beq_ne id' "" named) args safe (
          old,
          later.keys (workspace, key) old i,
          eb,
          ap (λ t. t.3) ab.same_identity ∙ p,
          ap (λ t. t.2) ab.same_identity ∙ q,
        ),
        ab.same_identity,
      )
