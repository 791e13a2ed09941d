-- ===== src/Durable/Runs/Claiming.antt =====
-- `claim_run` of packages/platform/src/vda_platform/jobs/repository.py: what it does to the runs.
use grok_bot_data.Prelude.{
  ℕ, String, refl, sym, ap, subst, inl, inr, Bool, true, Option, none, some, List, [], arith,
  Bool-cases, filter, any, All, get_or, some_injective, All-filter_both, ◌+◌, ◌≡◌, ◌&&◌, ◌||◌, ◌∷◌,
  ◌∙◌, ◌==◌, string_eq, pair_eq, nat_eq, option_eq,
}
use grok_bot_data.Prelude.Dict.{lookup, values}
use grok_bot_data.Prelude.Table.{Indexed, values-FoundIn}
use grok_bot_data.Runtime.Runs.{RunState, is_active}
use grok_bot_data.Durable.Events.{insert_run_event, write_event, event_from_row}
use grok_bot_data.Durable.Runs.Tenure.{Turn, held}
use grok_bot_data.Durable.Tables.{transaction, Database, Host, RunRow}
use grok_bot_data.Durable.Runs.{RunLease}
use grok_bot_data.Durable.Runs.Claims.{
  insert_attempt, before, claim_run, claimable, earliest, has_expired, insert_lease, is_queued,
  sooner, take_lease,
}
use grok_bot_data.Durable.Runs.Updates.{KeepsRuns, RunChange, same_runs, update-RunChange}
use grok_bot_data.Durable.Runs.Serving.{Serves, claim_turn, tenure_of}

module _ {P : Type 0} (Q : RunRow P → Type 0) (sooner_than : RunRow P → RunRow P → Bool) where
  sooner-All :
      (row found : RunRow P) (o : Option (RunRow P))
      → Q row
      → ((other : RunRow P) → o ≡ some other → Q other)
      → sooner sooner_than row o ≡ some found
      → Q found
  sooner-All row found none q rest h = subst Q (some_injective h) q
  sooner-All row found (some other) q rest h = elim (Bool-cases (sooner_than other row)) [
    | inl first ↦ rest found (rw first at h)
    | inr later ↦ subst Q (some_injective (rw later at h)) q
  ]

  -- The row that `earliest` selects is one of the rows.
  earliest-All :
      (rows : List (RunRow P)) (found : RunRow P)
      → All Q rows
      → earliest sooner_than rows ≡ some found
      → Q found
  unfolding earliest
  earliest-All [] found qs h = cc
  earliest-All (row ∷ rest) found qs h =
      sooner-All row found (earliest sooner_than rest) qs.0
        (λ other e. earliest-All rest other qs.1 e) h

-- the update of a claim
claim-Serves :
    {P : Type 0} (locked : String → Bool) (workspace_id worker_id : String) (now until : ℕ)
    (row a : RunRow P)
    → claimable locked workspace_id now row ≡ true
    → a ≡ row
    → Serves now a (record a {
      state = RunState.leased;
      lease_owner = some worker_id;
      lease_expires_at = some until;
      fence = row.fence + 1;
      updated_at = now;
    })
claim-Serves locked workspace_id worker_id now until row a fit same = record {
  same_identity = refl;
  revision_grows = omega arith;
  keeps_lease = λ h. refl;
  turn = λ h.
      subst (λ n. Turn now (tenure_of a) (held worker_id (n + 1) until)) (ap (λ r. r.fence) same)
        (claim_turn now a.state a.lease_owner a.lease_expires_at a.fence worker_id until
          (subst
            (λ r.
              is_queued r.state || is_active r.state && has_expired now r.lease_expires_at ≡ true)
            (sym same) (open_state _ _ _ fit))
          h);
}
  where
    open_state : (b c d : Bool) → b && c && d ≡ true → c ≡ true
    open_state b c d h = ground arith

module _ {P : Type 0} (host : Host P) where
  insert_lease-KeepsRuns :
      (event_id : String) (now : ℕ) (lease : RunLease P)
      → KeepsRuns (insert_lease host event_id now lease)
  unfolding insert_lease insert_attempt insert_run_event write_event event_from_row
  insert_lease-KeepsRuns event_id now lease s = ground arith

  take_lease-RunChange :
      (attempt_id event_id : String) (locked : String → Bool) (workspace_id worker_id : String)
      (now seconds : ℕ) (s : Database P) (o : Option (RunRow P))
      → Indexed (λ (row : RunRow P). row.id) s.runs
      → earliest (before host) (filter (claimable locked workspace_id now) (values s.runs)) ≡ o
      → RunChange
          (Serves now)
          s
          (transaction
            (take_lease host attempt_id event_id workspace_id worker_id now seconds o)
            s).1
  unfolding take_lease
  take_lease-RunChange attempt_id event_id locked workspace_id worker_id now seconds s none keyed
        e =
      same_runs refl
  take_lease-RunChange attempt_id event_id locked workspace_id worker_id now seconds s (some row)
        keyed e =
      let (found, fit) =
        earliest-All
          (λ r. (lookup r.id s.runs ≡ some r) × (claimable locked workspace_id now r ≡ true))
          (before host) _ row
          (All-filter_both _ _ _ (values-FoundIn (λ (r : RunRow P). r.id) s.runs keyed)) e in
      update-RunChange (Serves now) workspace_id row.id (λ _. true) _
        (λ _. insert_lease host event_id now _) s (λ _. insert_lease-KeepsRuns event_id now _)
        (λ a hit here test.
          claim-Serves locked workspace_id worker_id now (now + seconds) row a fit
            (some_injective (sym hit ∙ found)))

  pub claim_run-RunChange :
      (default_lease_seconds : ℕ) (attempt_id event_id : String) (locked : String → Bool)
      (workspace_id worker_id : String) (now : ℕ) (lease_seconds : Option ℕ) (s : Database P)
      → Indexed (λ (row : RunRow P). row.id) s.runs
      → RunChange
          (Serves now)
          s
          (claim_run host default_lease_seconds attempt_id event_id locked workspace_id worker_id
            now lease_seconds s).1
  unfolding claim_run
  claim_run-RunChange default_lease_seconds attempt_id event_id locked workspace_id worker_id now
        lease_seconds s keyed =
      elim (Bool-cases (any (λ name. name == "") (workspace_id ∷ worker_id ∷ []))) [
        | inl missing ↦ rw missing (same_runs refl)
        | inr given ↦ elim (Bool-cases (get_or default_lease_seconds lease_seconds == 0)) [
          | inl none_left ↦ rw (given, none_left) (same_runs refl)
          | inr positive ↦
              rw (given, positive)
                (take_lease-RunChange attempt_id event_id locked workspace_id worker_id now
                  (get_or default_lease_seconds lease_seconds) s _ keyed refl)
        ]
      ]
