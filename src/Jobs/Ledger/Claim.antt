-- ===== src/Jobs/Ledger/Claim.antt =====
-- `JobLedger.claim` (jobs/ledger.py): which jobs it takes, and what it does to them.
use grok_bot_data.Prelude.{
  ℕ, min, String, refl, sym, ap, subst, inl, inr, Bool, true, false, Option, none, some, List, [],
  map, arith, ltb, leb, Bool-cases, is_some, beq_ne, ok, length, take, filter, length-take, All,
  All-take, string_eq, snd, sorted, get_or, length-sorted, All-sorted, All-mono, some_injective,
  All-filter_both, pair_eq, option_eq, nat_eq, ◌+◌, ◌≤◌, ◌≡◌, ◌≢◌, ◌⊎◌, ◌&&◌, ◌||◌, ◌∷◌, ◌∙◌, ◌==◌,
  if◌then◌else◌,
}
use grok_bot_data.Prelude.Dict.{Dict, lookup, values}
use mathlib.Core.Option
use mathlib.Core.Bool.{false≢true}
use grok_bot_data.Jobs.Ledger.Fencing.{IsRefused}
use grok_bot_data.Jobs.Job.{
  Job, JobLedger, JobState, is_claimable, is_terminal, is_active, is_queued, expired,
}
use grok_bot_data.Jobs.Ledger.{leased_to, claim}
use grok_bot_data.Jobs.Ledger.Keyed.{FoundIn, values-FoundIn}
use grok_bot_data.Jobs.Ledger.Evolution.{Moves, Moves-refl, can_move}
use grok_bot_data.Jobs.Ledger.Valid.{IsValid, AllMove, AllMove-refl, AllMove-IsValid}
use grok_bot_data.Jobs.Ledger.Claiming.{
  lease_each, claim_all-eq, lease_each-Keyed, is_among, lookup-lease_each, with_keys_total,
  with_keys-All, map-snd-All, length-map-snd,
}

-- A job of the ledger that a claim at the time `now` may take.
abbrev pub CanTake : {P : Type 0} → Dict String (Job P) → ℕ → Job P → Type 0
CanTake d now job = FoundIn d job × (is_claimable now job ≡ true)

claimable_edge :
    (t : JobState) (now : ℕ) (due : Option ℕ)
    → (is_queued t || (is_active t && expired due now)) ≡ true
    → (can_move t JobState.leased ≡ true) × (is_terminal t ≡ false)
claimable_edge JobState.queued now due h = (refl, refl)
claimable_edge JobState.leased now due h = (refl, refl)
claimable_edge JobState.running now due h = (refl, refl)
claimable_edge JobState.waiting now due h = cc
claimable_edge JobState.completed now due h = cc
claimable_edge JobState.failed now due h = cc
claimable_edge JobState.cancelled now due h = cc

module _ {P : Type 0} (w : String) (now expires : ℕ) where
  leased_to-Moves : (a : Job P) → is_claimable now a ≡ true → Moves a (leased_to w expires a)
  leased_to-Moves a h =
      let (edge, alive) = claimable_edge a.state now a.lease_expires_at h in
      record {
        same_identity = refl;
        edge = edge;
        fence_grows = omega arith;
        attempts_follow = omega arith;
        checkpoints_grow = omega arith;
        terminal_stays = λ t. cc;
        lease_kept = λ l. refl;
      }

  among-CanTake :
      (d : Dict String (Job P)) (js : List (Job P)) (id : String) (a : Job P)
      → All (CanTake d now) js
      → is_among id js ≡ true
      → lookup id d ≡ some a
      → is_claimable now a ≡ true
  among-CanTake d [] id a h m e = cc
  among-CanTake d (job ∷ js) id a h m e = elim (Bool-cases (job.job_id == id)) [
    | inl here ↦
        let same : job ≡ a =
          some_injective
            (sym h.0.0 ∙ ap (λ k. lookup k d) ((string_eq.test_iff job.job_id id).0 here) ∙ e) in
        subst (λ j. is_claimable now j ≡ true) same h.0.1
    | inr there ↦ among-CanTake d js id a h.1 (rw there at m) e
  ]

  pub lease_each-AllMove :
      (d : Dict String (Job P)) (js : List (Job P))
      → All (CanTake d now) js
      → AllMove d (lease_each w expires js d)
  lease_each-AllMove d js h = record {
    at = λ id a e.
        let found = All-mono (CanTake d now) (FoundIn d) js (λ job q. q.0) h in
        elim (Bool-cases (is_among id js)) [
          | inl here ↦ (
            leased_to w expires a,
            lookup-lease_each w expires js d d id found ∙ rw (here, e),
            leased_to-Moves a (among-CanTake d js id a h here e),
          )
          | inr there ↦ (a, lookup-lease_each w expires js d d id found ∙ rw there e, Moves-refl a)
        ];
  }

-- The jobs that a claim may take, in the order of the dict.
abbrev pub claimable_jobs : {P : Type 0} → ℕ → JobLedger P → List (Job P)
claimable_jobs now s = filter (is_claimable now) (values s.jobs)

ltb_from : (limit : ℕ) → 1 ≤ limit → ltb limit 1 ≡ false
ltb_from limit h = ground arith

leb_from : (lease : ℕ) → 1 ≤ lease → leb lease 0 ≡ false
leb_from lease h = ground arith

module _ {P : Type 0} (s : JobLedger P) (v : IsValid s) (w : String) (now limit : ℕ)
    (lease_seconds : Option ℕ) where
  abbrev pub expires : ℕ
  expires = now + get_or s.default_lease lease_seconds

  claimable_jobs-CanTake : All (CanTake s.jobs now) (claimable_jobs now s)
  claimable_jobs-CanTake =
      All-filter_both (FoundIn s.jobs) (is_claimable now) (values s.jobs)
        (values-FoundIn s.jobs v.keyed)

  claimable_jobs_dated :
      All (λ job. is_some (lookup job.job_id s.created) ≡ true) (claimable_jobs now s)
  claimable_jobs_dated =
      All-mono (CanTake s.jobs now) _ (claimable_jobs now s) (λ job q. v.dated job.job_id job q.0)
        claimable_jobs-CanTake

  -- A claim of a named worker on a valid ledger, for at least one job and a positive lease,
  -- succeeds: it takes as many claimable jobs as the limit and their number allow, and writes a
  -- lease on each.
  pub claim_runs :
      w ≢ ""
      → 1 ≤ limit
      → 1 ≤ get_or s.default_lease lease_seconds
      → (js : List (Job P)) × (claim w now limit lease_seconds s
          ≡ (ok (map (leased_to w expires) js), record s { jobs = lease_each w expires js s.jobs }))
        × All (CanTake s.jobs now) js
        × (length js ≡ min limit (length (claimable_jobs now s)))
  unfolding claim
  claim_runs named some_limit positive =
      let (ks, ek, n) = with_keys_total s.created (claimable_jobs now s) claimable_jobs_dated in
      let js = take limit (map snd (sorted ks)) in
      (
        js,
        rw (beq_ne w "" named, ltb_from limit some_limit, leb_from _ positive, ek)
            (claim_all-eq w expires js s),
        All-take (CanTake s.jobs now) limit (map snd (sorted ks)) (
            map-snd-All (CanTake s.jobs now) (sorted ks) (
              All-sorted (λ k. CanTake s.jobs now k.1) ks
                (with_keys-All (CanTake s.jobs now) s.created (claimable_jobs now s) ks ek
                  claimable_jobs-CanTake))),
        omega (
          arith,
          length-take limit (map snd (sorted ks)),
          length-map-snd (sorted ks),
          length-sorted ks,
          n,
        ),
      )

  -- A claim raises and changes nothing, or it leases claimable jobs.
  pub claim-cases :
      IsRefused s (claim w now limit lease_seconds s)
      ⊎ ((js : List (Job P)) × (claim w now limit lease_seconds s ≡ (
        ok (map (leased_to w expires) js),
        record s { jobs = lease_each w expires js s.jobs },
      ))
          × All (CanTake s.jobs now) js
          × (length js ≡ min limit (length (claimable_jobs now s))))
  unfolding claim
  claim-cases = elim (Bool-cases (w == "" || ltb limit 1)) [
    | inl bad ↦ inl (rw bad (_, refl))
    | inr good ↦ elim (Bool-cases (leb (get_or s.default_lease lease_seconds) 0)) [
      | inl bad ↦ inl (rw (good, bad) (_, refl))
      | inr positive ↦ inr (claim_runs (named good) (ground arith) (ground arith))
    ]
  ]
    where
      named : (w == "" || ltb limit 1) ≡ false → w ≢ ""
      named h e = ground (arith, string_eq.test_iff w "")

  lease_each-same_keys :
      (js : List (Job P)) (d : Dict String (Job P)) (id : String)
      → All (FoundIn d) js
      → is_some (lookup id (lease_each w expires js d)) ≡ is_some (lookup id d)
  lease_each-same_keys js d id h =
      rw (lookup-lease_each w expires js d d id h) (keys (is_among id js) (lookup id d))
    where
      keys :
          (b : Bool) (o : Option (Job P))
          → is_some (if b then Option.map (leased_to w expires) o else o) ≡ is_some o
      keys true none = refl
      keys true (some a) = refl
      keys false o = refl

  pub claim-AllMove : AllMove s.jobs (claim w now limit lease_seconds s).1.jobs
  claim-AllMove = elim claim-cases [
    | inl (e, same) ↦ rw same (AllMove-refl s.jobs)
    | inr (js, same, can, n) ↦ rw same (lease_each-AllMove w now expires s.jobs js can)
  ]

  pub claim-IsValid : IsValid (claim w now limit lease_seconds s).1
  claim-IsValid = elim claim-cases [
    | inl (e, same) ↦ rw same v
    | inr (js, same, can, n) ↦ rw same (
        AllMove-IsValid s (lease_each w expires js s.jobs) v
          (lease_each-AllMove w now expires s.jobs js can)
          (lease_each-Keyed w expires js s.jobs v.keyed)
          (λ id.
            lease_each-same_keys js s.jobs id
              (All-mono (CanTake s.jobs now) (FoundIn s.jobs) js (λ job q. q.0) can)))
  ]

  -- Whatever its arguments, a claim on a valid ledger leaves a job alone that it cannot claim: one
  -- that holds an unexpired lease, waits or is done.
  pub claim_spares :
      (id : String) (a : Job P)
      → lookup id s.jobs ≡ some a
      → is_claimable now a ≡ false
      → lookup id (claim w now limit lease_seconds s).1.jobs ≡ some a
  claim_spares id a hit safe = elim claim-cases [
    | inl (e, same) ↦ rw same hit
    | inr (js, same, can, n) ↦
        let found = All-mono (CanTake s.jobs now) (FoundIn s.jobs) js (λ job q. q.0) can in
        elim (Bool-cases (is_among id js)) [
          | inl here ↦
              absurd
                (false≢true (sym safe ∙ among-CanTake w now expires s.jobs js id a can here hit))
          | inr there ↦ rw (same, lookup-lease_each w expires js s.jobs s.jobs id found, there) hit
        ]
  ]
