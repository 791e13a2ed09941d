-- ===== src/Jobs/Ledger/Claiming.antt =====
-- The loop of `JobLedger.claim` (jobs/ledger.py): what it writes, at every key.
use grok_bot_data.Prelude.{
  ℕ, suc, String, refl, sym, ap, subst, inl, inr, Bool, true, Option, none, some, List, [], map,
  arith, Bool-cases, Option-cases, is_some, ok, length, any, All, string_eq, snd, some_injective,
  pair_eq, option_eq, nat_eq, ◌≡◌, ◌∷◌, ◌∙◌, ◌==◌, if◌then◌else◌,
}
use grok_bot_data.Prelude.Dict.{Dict, lookup, insert, lookup-insert}
use mathlib.Core.Option
use grok_bot_data.Jobs.Job.{Job, JobLedger}
use grok_bot_data.Jobs.Ledger.{leased_to, claim_all, with_keys, keyed}
use grok_bot_data.Jobs.Ledger.Keyed.{Keyed, Keyed-insert, FoundIn}

-- The loop is over a job of this id.
abbrev pub is_among : {P : Type 0} → String → List (Job P) → Bool
is_among id js = any (λ job. job.job_id == id) js

module _ {P : Type 0} (w : String) (expires : ℕ) where
  -- the dict after the loop over `js`
  unfoldable pub lease_each : List (Job P) → Dict String (Job P) → Dict String (Job P)
  lease_each [] d = d
  lease_each (job ∷ js) d = lease_each js (insert job.job_id (leased_to w expires job) d)

  pub claim_all-eq :
      (js : List (Job P)) (s : JobLedger P)
      → claim_all w expires js s
        ≡ (ok (map (leased_to w expires) js), record s { jobs = lease_each js s.jobs })
  unfolding claim_all lease_each
  claim_all-eq [] s = refl
  claim_all-eq (job ∷ js) s =
      rw (claim_all-eq js (record s { jobs = insert job.job_id (leased_to w expires job) s.jobs }))

  pub lease_each-Keyed :
      (js : List (Job P)) (d : Dict String (Job P)) → Keyed d → Keyed (lease_each js d)
  unfolding lease_each
  lease_each-Keyed [] d h = h
  lease_each-Keyed (job ∷ js) d h =
      lease_each-Keyed js _ (Keyed-insert d job.job_id (leased_to w expires job) refl h)

  -- At each key the loop leaves the lease of the job that `d0` had there, or what there was.
  pub lookup-lease_each :
      (js : List (Job P)) (d0 d : Dict String (Job P)) (id : String)
      → All (FoundIn d0) js
      → lookup id (lease_each js d)
        ≡ (if is_among id js then Option.map (leased_to w expires) (lookup id d0) else lookup id d)
  unfolding lease_each
  lookup-lease_each [] d0 d id h = refl
  lookup-lease_each (job ∷ js) d0 d id h =
      let ih = lookup-lease_each js d0 (insert job.job_id (leased_to w expires job) d) id h.1 in
      elim (Bool-cases (job.job_id == id)) [
        | inl here ↦
            let found : lookup id d0 ≡ some job =
              ap (λ k. lookup k d0) (sym ((string_eq.test_iff job.job_id id).0 here)) ∙ h.0 in
            rw (here, ih, lookup-insert, here, found) (ground arith)
        | inr there ↦ rw (there, ih, lookup-insert, there)
      ]

module _ {P : Type 0} where
  -- A key for every candidate, and no candidate lost or changed.
  pub with_keys_total :
      (created : Dict String ℕ) (js : List (Job P))
      → All (λ job. is_some (lookup job.job_id created) ≡ true) js
      → (ks : List (ℕ × Job P)) × (with_keys created js ≡ some ks) × (length ks ≡ length js)
  unfolding with_keys
  with_keys_total created [] h = ([], refl, refl)
  with_keys_total created (job ∷ js) h =
      let (ks, e, n) = with_keys_total created js h.1 in
      elim (Option-cases (lookup job.job_id created)) [
        | inl miss ↦ cc (rw miss at (h.0))
        | inr (t, hit) ↦ ((t, job) ∷ ks, rw (hit, e), ap suc n)
      ]

  module _ (Q : Job P → Type 0) where
    abbrev AllOf : List (ℕ × Job P) → Type 0
    AllOf = All (λ (k : ℕ × Job P). Q k.1)

    keyed-All :
        (job : Job P) (t : Option ℕ) (rest : Option (List (ℕ × Job P))) (ks : List (ℕ × Job P))
        → keyed job t rest ≡ some ks
        → Q job
        → ((r : List (ℕ × Job P)) → rest ≡ some r → AllOf r)
        → AllOf ks
    keyed-All job (some t) (some r) ks e q f = subst AllOf (some_injective e) (q, f r refl)
    keyed-All job none (some r) ks e q f = cc
    keyed-All job (some t) none ks e q f = cc
    keyed-All job none none ks e q f = cc

    pub with_keys-All :
        (created : Dict String ℕ) (js : List (Job P)) (ks : List (ℕ × Job P))
        → with_keys created js ≡ some ks
        → All Q js
        → AllOf ks
    unfolding with_keys
    with_keys-All created [] ks e h = subst AllOf (some_injective e) tt
    with_keys-All created (job ∷ js) ks e h =
        keyed-All job (lookup job.job_id created) (with_keys created js) ks e h.0
          (λ r er. with_keys-All created js r er h.1)

    pub map-snd-All : (ks : List (ℕ × Job P)) → AllOf ks → All Q (map snd ks)
    map-snd-All [] h = tt
    map-snd-All (k ∷ ks) h = (h.0, map-snd-All ks h.1)

pub length-map-snd : {A : Type 0} (ks : List (ℕ × A)) → length (map snd ks) ≡ length ks
length-map-snd [] = refl
length-map-snd (k ∷ ks) = ap suc (length-map-snd ks)
