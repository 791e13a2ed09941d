-- ===== src/Durable/Worker/Sequences.antt =====
-- The loop of packages/platform/src/vda_platform/jobs/postgres_worker.py (`run_forever`).
use grok_bot_data.Prelude.{
  ℕ, zero, suc, String, refl, ap, subst, ◌∙◌, Bool, true, false, Option, none, some, List, [],
  arith, Result, ok, err, length, filter, ◌+◌, ◌<◌, ◌≡◌, ◌∷◌, ◌==◌, nat_eq,
}
use grok_bot_data.Durable.Tables.{Database, Host}
use grok_bot_data.Durable.Runs.{RunLease}
use grok_bot_data.Durable.Worker.{
  Iteration, WorkerError, WorkerSettings, after_iteration, run_forever, run_loop, run_once,
}

-- an iteration that settled a run
abbrev pub settled_run : {P : Type 0} → Result WorkerError (Option (RunLease P)) → Bool
settled_run (ok (some lease)) = true
settled_run _ = false

tested_at : (is_set : ℕ → Bool) (b : Bool) (m n : ℕ) → m ≡ n → is_set m ≡ b → is_set n ≡ b
tested_at is_set b m n same h = subst (λ k. is_set k ≡ b) same h

plus_zero : (n : ℕ) → n ≡ n + 0
plus_zero n = omega arith

zero_plus : (n : ℕ) → 0 + n ≡ n
zero_plus n = omega arith

module _ {P : Type 0} (host : Host P) (is_identifier : String → Bool)
    (worker : WorkerSettings P) where
  -- `count` iterations from the `n`-th on, each on the database that the last one left: how they
  -- ended, and the database behind them
  abbrev pub iterations :
      (ℕ → Iteration)
      → ℕ
      → ℕ
      → Database P
      → List (Result WorkerError (Option (RunLease P))) × Database P
  iterations turns zero n s = ([], s)
  iterations turns (suc count) n s =
      let (result, after) = run_once host is_identifier worker (turns n) s in
      let (results, last) = iterations turns count (n + 1) after in (result ∷ results, last)

  abbrev pub runs_settled : List (Result WorkerError (Option (RunLease P))) → ℕ
  runs_settled results = length (filter settled_run results)

  runs_settled-cons :
      (processed : ℕ) (r : Result WorkerError (Option (RunLease P)))
      (rest : List (Result WorkerError (Option (RunLease P))))
      → processed + runs_settled (r ∷ []) + runs_settled rest ≡ processed + runs_settled (r ∷ rest)
  runs_settled-cons processed (ok (some lease)) rest = omega arith
  runs_settled-cons processed (ok none) rest = omega arith
  runs_settled-cons processed (err e) rest = omega arith

  module _ (hook : WorkerError → Option String) (quiet : (e : WorkerError) → hook e ≡ none) where
    after_iteration-counts :
        (processed : ℕ) (r : Result WorkerError (Option (RunLease P))) (s : Database P)
        → after_iteration host is_identifier worker (some hook) processed r s
          ≡ (ok (processed + runs_settled (r ∷ [])), s)
    unfolding after_iteration
    after_iteration-counts processed (ok (some lease)) s = refl
    after_iteration-counts processed (ok none) s = ap (λ n. (ok n, s)) (plus_zero processed)
    after_iteration-counts processed (err e) s =
        rw (quiet e) (ap (λ n. (ok n, s)) (plus_zero processed))

    run_loop-returns :
        (is_set : ℕ → Bool) (turns : ℕ → Iteration) (count fuel n processed : ℕ) (s : Database P)
        → ((j : ℕ) → j < count → is_set (n + j) ≡ false)
        → is_set (n + count) ≡ true
        → count < fuel
        → run_loop host is_identifier worker (some hook) is_set turns fuel n processed s ≡ (
          ok (some (processed + runs_settled (iterations turns count n s).0)),
          (iterations turns count n s).1,
        )
    unfolding run_loop
    run_loop-returns is_set turns count zero n processed s before set enough = absurd (omega arith)
    run_loop-returns is_set turns zero (suc fuel) n processed s before set enough =
        rw (tested_at is_set true (n + 0) n (omega arith) set)
          (ap (λ c. (ok (some c), s)) (plus_zero processed))
    run_loop-returns is_set turns (suc count) (suc fuel) n processed s before set enough =
        let (result, after) = run_once host is_identifier worker (turns n) s in
        rw
          (
            tested_at is_set false (n + 0) n (omega arith) (before 0 (omega arith)),
            after_iteration-counts processed (run_once host is_identifier worker (turns n) s).0
                (run_once host is_identifier worker (turns n) s).1,
            run_loop-returns is_set turns count fuel (n + 1)
                (processed + runs_settled ((run_once host is_identifier worker (turns n) s).0 ∷ []))
                (run_once host is_identifier worker (turns n) s).1
                (λ j less.
                  tested_at is_set false (n + (j + 1)) (n + 1 + j) (omega arith)
                    (before (j + 1) (omega arith)))
                (tested_at is_set true (n + suc count) (n + 1 + count) (omega arith) set)
                (omega arith),
            runs_settled-cons processed (run_once host is_identifier worker (turns n) s).0
                (iterations turns count (n + 1)
                  (run_once host is_identifier worker (turns n) s).1).0,
          )
          refl

    -- With an error hook that does not raise and a positive poll interval, and the stop event set at
    -- some test and at none before it, the loop ends, on any fuel above the number of iterations
    -- before that test, without an error, whatever the iterations raised. It returns the number of
    -- those iterations that settled a run, and leaves the database that they leave one after
    -- another.
    pub run_forever-returns :
        (poll_interval : ℕ) (is_set : ℕ → Bool) (turns : ℕ → Iteration) (count fuel : ℕ)
        (s : Database P)
        → (poll_interval == 0) ≡ false
        → ((j : ℕ) → j < count → is_set j ≡ false)
        → is_set count ≡ true
        → count < fuel
        → run_forever host is_identifier worker (some hook) poll_interval is_set turns fuel s ≡ (
          ok (some (runs_settled (iterations turns count 0 s).0)),
          (iterations turns count 0 s).1,
        )
    unfolding run_forever
    run_forever-returns poll_interval is_set turns count fuel s positive before set enough =
        rw positive (
          run_loop-returns is_set turns count fuel 0 0 s
            (λ j less. tested_at is_set false j (0 + j) (omega arith) (before j less))
            (tested_at is_set true count (0 + count) (omega arith) set) enough
          ∙ ap (λ c. (ok (some c), (iterations turns count 0 s).1)) (zero_plus _))
