-- ===== src/Jobs/Ledger/Valid.antt =====
-- The invariant of `JobLedger` (jobs/ledger.py).
use grok_bot_data.Prelude.{
  String, sym, ap, subst, inl, inr, true, some, arith, Bool-cases, Option-cases, is_some, Result,
  string_eq, some_injective, pair_eq, option_eq, nat_eq, ◌≤◌, ◌≡◌, ◌∙◌, ◌==◌,
}
use grok_bot_data.Prelude.Dict.{Dict, lookup, insert, lookup-insert}
use grok_bot_data.Jobs.Job.{Job, JobLedger, JobError}
use grok_bot_data.Jobs.Ledger.Keyed.{lookup-job_id, Keyed, Keyed-insert}
use grok_bot_data.Jobs.Ledger.Evolution.{Moves, Moves-refl, HasLease, Outcome, refused, kept, moved}

-- A job's own part: its lease fits its state, and every claim raised fence and attempts together.
pub record IsSound {P : Type 0} (job : Job P) : Type 0 where
  pub lease : HasLease job
  pub fenced : job.attempts ≡ job.fence

pub record IsValid {P : Type 0} (s : JobLedger P) : Type 0 where
  pub lease_positive : 1 ≤ s.default_lease
  pub keyed : Keyed s.jobs
  pub sound : (id : String) (a : Job P) → lookup id s.jobs ≡ some a → IsSound a
  pub dated :
      (id : String) (a : Job P) → lookup id s.jobs ≡ some a → is_some (lookup id s.created) ≡ true
  pub indexed :
      (workspace key id : String)
      → lookup (workspace, key) s.idempotency ≡ some id
      → (a : Job P) × (lookup id s.jobs ≡ some a)
        × (a.workspace_id ≡ workspace)
        × (a.idempotency_key ≡ key)

-- Every job of `d` is still in `d'`, at most one step further.
pub record AllMove {P : Type 0} (d d' : Dict String (Job P)) : Type 0 where
  pub at :
      (id : String) (a : Job P)
      → lookup id d ≡ some a
      → (b : Job P) × (lookup id d' ≡ some b) × Moves a b

module _ {P : Type 0} where
  pub AllMove-refl : (d : Dict String (Job P)) → AllMove d d
  AllMove-refl d = record { at = λ id a h. (a, h, Moves-refl a) }

  Moves-IsSound : (a b : Job P) → Moves a b → IsSound a → IsSound b
  Moves-IsSound a b m h = record {
    lease = m.lease_kept h.lease;
    fenced = omega (arith, m.attempts_follow, h.fenced);
  }

  -- A write over a job that is there.
  pub AllMove-insert :
      (d : Dict String (Job P)) (id : String) (a b : Job P)
      → lookup id d ≡ some a
      → Moves a b
      → AllMove d (insert id b d)
  AllMove-insert d id a b e ab = record {
    at = λ j c ej. elim (Bool-cases (id == j)) [
      | inl same ↦
          let here : some a ≡ some c =
            sym e ∙ ap (λ k. lookup k d) ((string_eq.test_iff id j).0 same) ∙ ej in
          (b, rw (lookup-insert, same), subst (λ k. Moves k b) (some_injective here) ab)
      | inr other ↦ (c, rw (lookup-insert, other) ej, Moves-refl c)
    ];
  }

  -- What moves every job of a valid ledger, and nothing else, leaves it valid.
  pub AllMove-IsValid :
      (s : JobLedger P) (d : Dict String (Job P))
      → IsValid s
      → AllMove s.jobs d
      → Keyed d
      → ((id : String) → is_some (lookup id d) ≡ is_some (lookup id s.jobs))
      → IsValid (record s { jobs = d })
  AllMove-IsValid s d v m k same = record {
    lease_positive = v.lease_positive;
    keyed = k;
    sound = λ id b e. elim (Option-cases (lookup id s.jobs)) [
      | inl miss ↦ cc (same id, miss, e)
      | inr (a, hit) ↦
          let (b', eb, ab) = m.at id a hit in
          subst IsSound (some_injective (sym eb ∙ e)) (Moves-IsSound a b' ab (v.sound id a hit))
    ];
    dated = λ id b e. elim (Option-cases (lookup id s.jobs)) [
      | inl miss ↦ cc (same id, miss, e)
      | inr (a, hit) ↦ v.dated id a hit
    ];
    indexed = λ workspace key id e.
        let (a, hit, w, n) = v.indexed workspace key id e in
        let (b, eb, ab) = m.at id a hit in
        (b, eb, ap (λ t. t.1) ab.same_identity ∙ w, ap (λ t. t.4) ab.same_identity ∙ n);
  }

  pub Outcome-AllMove :
      (s : JobLedger P) (r : Result JobError (Job P) × JobLedger P)
      → Outcome s r
      → AllMove s.jobs r.1.jobs
  Outcome-AllMove s r (refused e) = AllMove-refl s.jobs
  Outcome-AllMove s r (kept id a h) = AllMove-refl s.jobs
  Outcome-AllMove s r (moved id a b h m) = AllMove-insert s.jobs id a b h m

  insert-same_keys :
      (d : Dict String (Job P)) (id : String) (a b : Job P) (j : String)
      → lookup id d ≡ some a
      → is_some (lookup j (insert id b d)) ≡ is_some (lookup j d)
  insert-same_keys d id a b j hit = elim (Bool-cases (id == j)) [
    | inl here ↦
        rw (lookup-insert, here)
          (ap is_some (sym hit ∙ ap (λ k. lookup k d) ((string_eq.test_iff id j).0 here)))
    | inr there ↦ rw (lookup-insert, there)
  ]

  -- A step of one job keeps the ledger valid.
  pub Outcome-IsValid :
      (s : JobLedger P) (r : Result JobError (Job P) × JobLedger P)
      → Outcome s r
      → IsValid s
      → IsValid r.1
  Outcome-IsValid s r (refused e) v = v
  Outcome-IsValid s r (kept id a h) v = v
  Outcome-IsValid s r (moved id a b h m) v =
      AllMove-IsValid s (insert id b s.jobs) v (AllMove-insert s.jobs id a b h m)
        (Keyed-insert s.jobs id b
          (ap (λ t. t.0) m.same_identity ∙ lookup-job_id s.jobs id a v.keyed h) v.keyed)
        (λ j. insert-same_keys s.jobs id a b j h)
