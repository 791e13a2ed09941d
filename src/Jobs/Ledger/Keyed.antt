-- ===== src/Jobs/Ledger/Keyed.antt =====
-- The dict `_jobs` of jobs/ledger.py: each job stands once, under its own id.
use grok_bot_data.Prelude.{String, some, All, string_eq, ◌≡◌, pair_eq, option_eq, nat_eq}
use grok_bot_data.Prelude.Dict.{Dict, lookup, insert, values}
use grok_bot_data.Prelude.Table
use grok_bot_data.Jobs.Job.{Job}

module _ {P : Type 0} where
  abbrev pub Keyed : Dict String (Job P) → Type 0
  Keyed = Table.Indexed (λ (job : Job P). job.job_id)

  pub Keyed-insert :
      (d : Dict String (Job P)) (id : String) (job : Job P)
      → job.job_id ≡ id
      → Keyed d
      → Keyed (insert id job d)
  Keyed-insert d id job same h = Table.Indexed-insert (λ (a : Job P). a.job_id) d id job same h

  -- The job is the one that the dict has under the job's id.
  abbrev pub FoundIn : Dict String (Job P) → Job P → Type 0
  FoundIn = Table.FoundIn (λ (job : Job P). job.job_id)

  pub lookup-job_id :
      (d : Dict String (Job P)) (id : String) (a : Job P)
      → Keyed d
      → lookup id d ≡ some a
      → a.job_id ≡ id
  lookup-job_id d id a h e = Table.lookup-id_of (λ (job : Job P). job.job_id) d id a h e

  -- Every job that an iteration over the dict meets is found under its id.
  pub values-FoundIn : (d : Dict String (Job P)) → Keyed d → All (FoundIn d) (values d)
  values-FoundIn d h = Table.values-FoundIn (λ (job : Job P). job.job_id) d h
