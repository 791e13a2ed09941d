-- ===== src/Jobs/Ledger/Enqueue.antt =====
-- `JobLedger.enqueue` (jobs/ledger.py): admission and idempotency.
use grok_bot_data.Prelude.{
  ℕ, String, refl, ap, subst, inl, inr, Bool, not, Option, none, some, arith, Bool-cases,
  Option-cases, Eq, Result, ok, err, string_eq, pair_eq, some_injective, option_eq, nat_eq, ◌≡◌,
  ◌||◌, ◌∙◌, ◌==◌, ◌!=◌,
}
use grok_bot_data.Prelude.Dict.{
  lookup, insert, lookup-insert, key_differs, lookup-insert_self, lookup-insert_ne,
}
use grok_bot_data.Jobs.Job.{Job, JobLedger, JobError}
use grok_bot_data.Jobs.Ledger.{enqueue, admit, new_job, record_job}
use grok_bot_data.Jobs.Ledger.Keyed.{Keyed-insert}
use grok_bot_data.Jobs.Ledger.Evolution.{Moves-refl}
use grok_bot_data.Jobs.Ledger.Valid.{IsValid, IsSound, AllMove, AllMove-refl}

module _ {P : Type 0} ⦃e : Eq P⦄ (json_safe : P → Bool) (id workspace kind : String) (payload : P)
    (key : String) (now : ℕ) (s : JobLedger P) where
  abbrev fresh : Job P
  fresh = new_job id workspace kind payload key

  -- the ways in which `enqueue` ends
  pub data Enqueued : Result JobError (Job P) × JobLedger P → Type 0 where
    refused : (x : JobError) → Enqueued (err x, s)
    known :
        (old : String) (a : Job P)
        → lookup (workspace, key) s.idempotency ≡ some old
        → lookup old s.jobs ≡ some a
        → a.payload ≡ payload
        → a.kind ≡ kind
        → Enqueued (ok a, s)
    created :
        lookup (workspace, key) s.idempotency ≡ none
        → lookup id s.jobs ≡ none
        → Enqueued (ok fresh, record_job fresh now s)

  admit-Enqueued :
      (o : Option String)
      → lookup (workspace, key) s.idempotency ≡ o
      → Enqueued (admit id workspace kind payload key now o s)
  unfolding admit
  admit-Enqueued none eo = elim (Option-cases (lookup id s.jobs)) [
    | inl free ↦ rw free (created eo free)
    | inr (a, taken) ↦ rw taken (refused _)
  ]
  admit-Enqueued (some old) eo = elim (Option-cases (lookup old s.jobs)) [
    | inl miss ↦ rw miss (refused _)
    | inr (a, hit) ↦ elim (Bool-cases (a.payload != payload || a.kind != kind)) [
      | inl differs ↦ rw (hit, differs) (refused _)
      | inr same ↦
          rw (hit, same)
            (known old a eo hit (ground (arith, e.test_iff a.payload payload))
              (ground (arith, string_eq.test_iff a.kind kind)))
    ]
  ]

  pub enqueue-Enqueued : Enqueued (enqueue json_safe id workspace kind payload key now s)
  unfolding enqueue
  enqueue-Enqueued = elim (Bool-cases (id == "" || workspace == "" || kind == "" || key == "")) [
    | inl bad ↦ rw bad (refused _)
    | inr named ↦ elim (Bool-cases (not (json_safe payload))) [
      | inl bad ↦ rw (named, bad) (refused _)
      | inr safe ↦ rw (named, safe) (admit-Enqueued _ refl)
    ]
  ]

  Enqueued-AllMove :
      (r : Result JobError (Job P) × JobLedger P) → Enqueued r → AllMove s.jobs r.1.jobs
  Enqueued-AllMove r (refused x) = AllMove-refl s.jobs
  Enqueued-AllMove r (known old a i h p k) = AllMove-refl s.jobs
  Enqueued-AllMove r (created i free) = record {
    at = λ j a hit. (
      a,
      lookup-insert_ne s.jobs id j fresh (key_differs s.jobs id j a free hit) ∙ hit,
      Moves-refl a,
    );
  }

  pub enqueue-AllMove :
      AllMove s.jobs (enqueue json_safe id workspace kind payload key now s).1.jobs
  enqueue-AllMove = Enqueued-AllMove _ enqueue-Enqueued

  Enqueued-IsValid :
      (r : Result JobError (Job P) × JobLedger P) → Enqueued r → IsValid s → IsValid r.1
  Enqueued-IsValid r (refused x) v = v
  Enqueued-IsValid r (known old a i h p k) v = v
  Enqueued-IsValid r (created i free) v = record {
    lease_positive = v.lease_positive;
    keyed = Keyed-insert s.jobs id fresh refl v.keyed;
    sound = λ j a hit. elim (Bool-cases (id == j)) [
      | inl same ↦
          subst IsSound (some_injective (rw (lookup-insert, same) at hit))
            (record { lease = refl; fenced = refl })
      | inr other ↦ v.sound j a (rw (lookup-insert, other) at hit)
    ];
    dated = λ j a hit. elim (Bool-cases (id == j)) [
      | inl same ↦ rw (lookup-insert, same)
      | inr other ↦ rw (lookup-insert, other) (v.dated j a (rw (lookup-insert, other) at hit))
    ];
    indexed = λ w k j hit. elim (Bool-cases (◌==◌ {A = String × String} (workspace, key) (w, k))) [
      | inl same ↦
          let pair = (pair_eq {A = String} {B = String}).test_iff (workspace, key) (w, k) in
          let new : id ≡ j = some_injective (rw (lookup-insert, same) at hit) in
          (
            fresh,
            subst (λ i. lookup i (insert id fresh s.jobs) ≡ some fresh) new
                (lookup-insert_self s.jobs id fresh),
            ap (λ q. q.0) (pair.0 same),
            ap (λ q. q.1) (pair.0 same),
          )
      | inr other ↦
          let (a, found, in_workspace, by_key) =
            v.indexed w k j (rw (lookup-insert, other) at hit) in
          (
            a,
            lookup-insert_ne s.jobs id j fresh (key_differs s.jobs id j a free found) ∙ found,
            in_workspace,
            by_key,
          )
    ];
  }

  pub enqueue-IsValid :
      IsValid s → IsValid (enqueue json_safe id workspace kind payload key now s).1
  enqueue-IsValid = Enqueued-IsValid _ enqueue-Enqueued

  -- Keys that are known stay known, for the same job.
  Enqueued-keys :
      (r : Result JobError (Job P) × JobLedger P) (k : String × String) (j : String)
      → Enqueued r
      → lookup k s.idempotency ≡ some j
      → lookup k r.1.idempotency ≡ some j
  Enqueued-keys r k j (refused x) h = h
  Enqueued-keys r k j (known old a i found p q) h = h
  Enqueued-keys r k j (created i free) h =
      lookup-insert_ne s.idempotency (workspace, key) k id
        (key_differs s.idempotency (workspace, key) k j i h)
      ∙ h

  pub enqueue-keys :
      (k : String × String) (j : String)
      → lookup k s.idempotency ≡ some j
      → lookup k (enqueue json_safe id workspace kind payload key now s).1.idempotency ≡ some j
  enqueue-keys k j h = Enqueued-keys _ k j enqueue-Enqueued h
