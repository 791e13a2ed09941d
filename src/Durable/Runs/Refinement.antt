-- ===== src/Durable/Runs/Refinement.antt =====
-- The table of runs of packages/platform/src/vda_platform/jobs/repository.py against the account of
-- tenures, over any sequence of calls.
use grok_bot_data.Prelude.{
  ℕ, String, refl, sym, ap, subst, inl, inr, some, List, [], arith, Bool-cases, some_injective,
  string_eq, pair_eq, option_eq, nat_eq, ◌≤◌, ◌≡◌, ◌∷◌, ◌∙◌, ◌==◌,
}
use grok_bot_data.Prelude.Dict.{
  lookup, insert, key_differs, lookup-insert_self, lookup-insert_ne, lookup_same,
}
use grok_bot_data.Prelude.Table.{Indexed, Indexed-insert, lookup-id_of}
use grok_bot_data.Durable.Tables.{Database, Host, RunRow}
use grok_bot_data.Durable.Runs.Tenure.{Turns, idle_then, none_left, turn_then}
use grok_bot_data.Durable.Runs.Updates.{IsNew, RunChange, added_run, changed_run, same_runs}
use grok_bot_data.Durable.Runs.Serving.{HasLease, Serves, identity, tenure_of}
use grok_bot_data.Durable.Runs.Steps.{IsConsistent, row_id, step-RunChange}
use grok_bot_data.Durable.Runs.Calls.{Call, step, steps}

-- What calls at these instants may do to a run.
pub record HasTurns {P : Type 0} (times : List ℕ) (a b : RunRow P) : Type 0 where
  pub same_identity : identity b ≡ identity a
  pub revision_grows : a.checkpoint_revision ≤ b.checkpoint_revision
  pub turns : Turns times (tenure_of a) (tenure_of b)

-- the instants of the calls
abbrev pub instants : {P : Type 0} → List (ℕ × Call P) → List ℕ
instants [] = []
instants ((now, call) ∷ rest) = now ∷ instants rest

module _ {P : Type 0} where
  HasTurns-refl : (a : RunRow P) → HasTurns [] a a
  HasTurns-refl a = record {
    same_identity = refl;
    revision_grows = omega arith;
    turns = none_left (tenure_of a);
  }

  -- A call that leaves the run as it is, before others.
  HasTurns-idle :
      (now : ℕ) (times : List ℕ) (a b : RunRow P) → HasTurns times a b → HasTurns (now ∷ times) a b
  HasTurns-idle now times a b h = record {
    same_identity = h.same_identity;
    revision_grows = h.revision_grows;
    turns = idle_then now times (tenure_of a) (tenure_of b) h.turns;
  }

  -- An update of the run, before others.
  HasTurns-Serves :
      (now : ℕ) (times : List ℕ) (a b c : RunRow P)
      → HasLease a
      → Serves now a b
      → HasTurns times b c
      → HasTurns (now ∷ times) a c
  HasTurns-Serves now times a b c lease serves h = record {
    same_identity = h.same_identity ∙ serves.same_identity;
    revision_grows = omega (arith, serves.revision_grows, h.revision_grows);
    turns =
        turn_then now times (tenure_of a) (tenure_of b) (tenure_of c) (serves.turn lease) h.turns;
  }

  new_lease : (id : String) (b : RunRow P) → IsNew id b → HasLease b
  new_lease id b new = rw (new.is_queued, new.no_owner, new.no_expiry) refl

  insert-IsConsistent :
      (s s' : Database P) (id : String) (b : RunRow P)
      → IsConsistent s
      → b.id ≡ id
      → HasLease b
      → s'.runs ≡ insert id b s.runs
      → IsConsistent s'
  insert-IsConsistent s s' id b valid own lease write = record {
    keyed = subst (Indexed row_id) (sym write) (Indexed-insert row_id s.runs id b own valid.keyed);
    leases = λ j c hit. elim (Bool-cases (id == j)) [
      | inl here ↦
          subst HasLease
            (some_injective (
              sym (lookup-insert_self s.runs id b)
              ∙ lookup_same (insert id b s.runs) id j here
              ∙ sym (ap (λ d. lookup j d) write)
              ∙ hit))
            lease
      | inr there ↦
          valid.leases j c
            (sym (lookup-insert_ne s.runs id j b there) ∙ sym (ap (λ d. lookup j d) write) ∙ hit)
    ];
  }

  RunChange-IsConsistent :
      (now : ℕ) (s s' : Database P) → IsConsistent s → RunChange (Serves now) s s' → IsConsistent s'
  RunChange-IsConsistent now s s' valid (same_runs same) = record {
    keyed = subst (Indexed row_id) (sym same) valid.keyed;
    leases = λ j c hit. valid.leases j c (sym (ap (λ d. lookup j d) same) ∙ hit);
  }
  RunChange-IsConsistent now s s' valid (added_run id b miss new write) =
      insert-IsConsistent s s' id b valid new.own_id (new_lease id b new) write
  RunChange-IsConsistent now s s' valid (changed_run id a b hit serves write) =
      insert-IsConsistent s s' id b valid
        (ap (λ i. i.0) serves.same_identity ∙ lookup-id_of row_id s.runs id a valid.keyed hit)
        (serves.keeps_lease (valid.leases id a hit)) write

  -- Every run is still there, and what holds of it afterwards holds one call later.
  RunChange-HasTurns :
      (now : ℕ) (s s' : Database P) (id : String) (a : RunRow P)
      → IsConsistent s
      → RunChange (Serves now) s s'
      → lookup id s.runs ≡ some a
      → (b : RunRow P) × (lookup id s'.runs ≡ some b)
        × ((times : List ℕ) (c : RunRow P) → HasTurns times b c → HasTurns (now ∷ times) a c)
  RunChange-HasTurns now s s' id a valid (same_runs same) hit =
      (a, ap (λ d. lookup id d) same ∙ hit, λ times c. HasTurns-idle now times a c)
  RunChange-HasTurns now s s' id a valid (added_run j b miss new write) hit = (
    a,
    ap (λ d. lookup id d) write
        ∙ lookup-insert_ne s.runs j id b (key_differs s.runs j id a miss hit)
        ∙ hit,
    λ times c. HasTurns-idle now times a c,
  )
  RunChange-HasTurns now s s' id a valid (changed_run j x b found serves write) hit =
      elim (Bool-cases (j == id)) [
        | inl here ↦
            let same = some_injective (sym found ∙ lookup_same s.runs j id here ∙ hit) in
            (
              b,
              ap (λ d. lookup id d) write
                  ∙ sym (lookup_same (insert j b s.runs) j id here)
                  ∙ lookup-insert_self s.runs j b,
              λ times c.
                  HasTurns-Serves now times a b c (valid.leases id a hit)
                    (subst (λ r. Serves now r b) same serves),
            )
        | inr there ↦ (
          a,
          ap (λ d. lookup id d) write ∙ lookup-insert_ne s.runs j id b there ∙ hit,
          λ times c. HasTurns-idle now times a c,
        )
      ]

module _ {P : Type 0} (host : Host P) (default_lease_seconds : ℕ) where
  -- After any sequence of calls on a database whose runs stand once under their ids, each with an
  -- owner and a deadline exactly while it is leased or running, the same holds of every run.
  pub steps-IsConsistent :
      (calls : List (ℕ × Call P)) (s : Database P)
      → IsConsistent s
      → IsConsistent (steps host default_lease_seconds calls s)
  unfolding steps
  steps-IsConsistent [] s valid = valid
  steps-IsConsistent ((now, call) ∷ rest) s valid =
      steps-IsConsistent rest (step host default_lease_seconds now call s) (
        RunChange-IsConsistent now s _ valid
          (step-RunChange host default_lease_seconds now call s valid))

  -- The table of runs refines the account of tenures: over any sequence of calls on a database with
  -- the invariant of leases, a run that is there stays there, with its id, workspace, task,
  -- conversation and bot, its checkpoint revision never falls, and each call leaves its tenure as it
  -- is or moves it by one turn at the instant of that call: it is claimed while it is free, taken
  -- over from its holder only by a call at or after its deadline, in both cases under the next
  -- fence; used, handed back, suspended or ended while it is held, under the same fence; and a
  -- suspended run is only woken.
  pub steps-HasTurns :
      (calls : List (ℕ × Call P)) (s : Database P) (id : String) (a : RunRow P)
      → IsConsistent s
      → lookup id s.runs ≡ some a
      → (b : RunRow P) × (lookup id (steps host default_lease_seconds calls s).runs ≡ some b)
        × HasTurns (instants calls) a b
  unfolding steps
  steps-HasTurns [] s id a valid hit = (a, hit, HasTurns-refl a)
  steps-HasTurns ((now, call) ∷ rest) s id a valid hit =
      let change = step-RunChange host default_lease_seconds now call s valid in
      let (b, there, extend) = RunChange-HasTurns now s _ id a valid change hit in
      let (c, later, more) =
        steps-HasTurns rest (step host default_lease_seconds now call s) id b
          (RunChange-IsConsistent now s _ valid change) there in
      (c, later, extend (instants rest) c more)
