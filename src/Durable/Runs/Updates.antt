-- ===== src/Durable/Runs/Updates.antt =====
-- What a command of packages/platform/src/vda_platform/jobs/repository.py does to the table of runs:
-- most leave it alone, and an update changes one row.
use grok_bot_data.Prelude.{
  String, refl, inl, inr, Bool, true, false, Option, none, some, arith, Bool-cases, Option-cases,
  Result, ok, err, or_raise, raise_if, continue, string_eq, pair_eq, option_eq, nat_eq, ◌≡◌, ◌&&◌,
  ◌∙◌, ◌==◌, ◌>>=◌, ◌>>◌,
}
use grok_bot_data.Prelude.Dict.{lookup, insert}
use grok_bot_data.Runtime.Runs.{RunState}
use grok_bot_data.Durable.Tables.{
  Database, RepositoryCommand, RepositoryError, RunRow, database_error, rolled_back, transaction,
}
use grok_bot_data.Durable.Runs.{slot_taken}
use grok_bot_data.Durable.Runs.Leases.{update_run}

module _ {P A : Type 0} where
  -- The command leaves the runs as they are.
  abbrev pub KeepsRuns : RepositoryCommand P A → Type 0
  KeepsRuns m = (s : Database P) → (m s).1.runs ≡ s.runs

  pub raise_if-KeepsRuns :
      (c : Bool) (e : RepositoryError) (m : RepositoryCommand P A)
      → KeepsRuns m
      → KeepsRuns (raise_if c e >> m)
  raise_if-KeepsRuns true e m h s = refl
  raise_if-KeepsRuns false e m h s = h s

  pub transaction-KeepsRuns : (m : RepositoryCommand P A) → KeepsRuns m → KeepsRuns (transaction m)
  transaction-KeepsRuns m h s = kept (m s) (h s)
    where
      kept :
          (r : Result RepositoryError A × Database P)
          → r.1.runs ≡ s.runs
          → (rolled_back s r).1.runs ≡ s.runs
      kept (ok a, t) e = e
      kept (err e, t) h = refl

module _ {P A B : Type 0} where
  pub or_raise-KeepsRuns :
      (o : Option A) (e : RepositoryError) (f : A → RepositoryCommand P B)
      → ((a : A) → KeepsRuns (f a))
      → KeepsRuns (or_raise o e >>= f)
  or_raise-KeepsRuns none e f h s = refl
  or_raise-KeepsRuns (some a) e f h s = h a s

  pub bind-KeepsRuns :
      (m : RepositoryCommand P A) (f : A → RepositoryCommand P B)
      → KeepsRuns m
      → ((a : A) → KeepsRuns (f a))
      → KeepsRuns (m >>= f)
  bind-KeepsRuns m f h k s = then_kept (m s) (h s)
    where
      then_kept :
          (r : Result RepositoryError A × Database P)
          → r.1.runs ≡ s.runs
          → (continue r.0 f r.1).1.runs ≡ s.runs
      then_kept (ok a, t) e = k a t ∙ e
      then_kept (err x, t) e = e

both_true : (a b : Bool) → a && b ≡ true → (a ≡ true) × (b ≡ true)
both_true a b h = ground arith

module _ {P : Type 0} (workspace_id run_id : String) (test : RunRow P → Bool)
    (change : RunRow P → RunRow P) where
  -- The ways an update ends.
  pub data UpdateEnd (s : Database P)
      : Result RepositoryError (Option (RunRow P)) × Database P → Type 0 where
    missed : UpdateEnd s (ok none, s)
    conflicted : UpdateEnd s (err database_error, s)
    written :
        (a : RunRow P)
        → lookup run_id s.runs ≡ some a
        → a.workspace_id ≡ workspace_id
        → test a ≡ true
        → UpdateEnd s (ok (some (change a)), record s { runs = insert run_id (change a) s.runs })

  pub update_run-UpdateEnd :
      (s : Database P) → UpdateEnd s (update_run workspace_id run_id test change s)
  unfolding update_run
  update_run-UpdateEnd s = elim (Option-cases (lookup run_id s.runs)) [
    | inl miss ↦ rw miss missed
    | inr (a, hit) ↦ elim (Bool-cases (a.workspace_id == workspace_id && test a)) [
      | inl passed ↦ elim (Bool-cases (slot_taken (change a) s)) [
        | inl taken ↦ rw (hit, passed, taken) conflicted
        | inr free ↦
            rw (hit, passed, free)
              (written a hit
                ((string_eq.test_iff a.workspace_id workspace_id).0 (both_true _ _ passed).0)
                (both_true _ _ passed).1)
      ]
      | inr failed ↦ rw (hit, failed) missed
    ]
  ]

-- a run as `create_run` writes it
pub record IsNew {P : Type 0} (id : String) (row : RunRow P) : Type 0 where
  pub own_id : row.id ≡ id
  pub is_queued : row.state ≡ RunState.queued
  pub no_owner : row.lease_owner ≡ none
  pub no_expiry : row.lease_expires_at ≡ none
  pub no_fence : row.fence ≡ 0

module _ {P : Type 0} (R : RunRow P → RunRow P → Type 0) where
  -- The runs afterwards: as before, with a new run, or with one row changed along `R`.
  pub data RunChange (s s' : Database P) : Type 0 where
    same_runs : s'.runs ≡ s.runs → RunChange s s'
    added_run :
        (id : String) (b : RunRow P)
        → lookup id s.runs ≡ none
        → IsNew id b
        → s'.runs ≡ insert id b s.runs
        → RunChange s s'
    changed_run :
        (id : String) (a b : RunRow P)
        → lookup id s.runs ≡ some a
        → R a b
        → s'.runs ≡ insert id b s.runs
        → RunChange s s'

  pub restored :
      {A : Type 0} (s : Database P) (r : Result RepositoryError A × Database P)
      → RunChange s r.1
      → RunChange s (rolled_back s r).1
  restored s (ok a, t) h = h
  restored s (err e, t) h = same_runs refl

  after_update :
      {A : Type 0} (workspace_id run_id : String) (test : RunRow P → Bool)
      (change : RunRow P → RunRow P) (rest : Option (RunRow P) → RepositoryCommand P A)
      (s : Database P) (r : Result RepositoryError (Option (RunRow P)) × Database P)
      → ((o : Option (RunRow P)) → KeepsRuns (rest o))
      → ((a : RunRow P)
          → lookup run_id s.runs ≡ some a
          → a.workspace_id ≡ workspace_id
          → test a ≡ true
          → R a (change a))
      → UpdateEnd workspace_id run_id test change s r
      → RunChange s (continue r.0 rest r.1).1
  after_update ws id test change rest s _ keeps step missed = same_runs (keeps none s)
  after_update ws id test change rest s _ keeps step conflicted = same_runs refl
  after_update ws id test change rest s _ keeps step (written a hit here passed) =
      changed_run id a (change a) hit (step a hit here passed) (keeps (some (change a)) _)

  -- A transaction that updates one run and then leaves the runs alone.
  pub update-RunChange :
      {A : Type 0} (workspace_id run_id : String) (test : RunRow P → Bool)
      (change : RunRow P → RunRow P) (rest : Option (RunRow P) → RepositoryCommand P A)
      (s : Database P)
      → ((o : Option (RunRow P)) → KeepsRuns (rest o))
      → ((a : RunRow P)
          → lookup run_id s.runs ≡ some a
          → a.workspace_id ≡ workspace_id
          → test a ≡ true
          → R a (change a))
      → RunChange s (transaction (update_run workspace_id run_id test change >>= rest) s).1
  update-RunChange ws id test change rest s keeps step = restored s _ (
      after_update ws id test change rest s (update_run ws id test change s) keeps step
        (update_run-UpdateEnd ws id test change s))
