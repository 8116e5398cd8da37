-- ===== src/Examples/JobRuns.antt =====
-- Two jobs, of which a worker holds the first.
use rust_evm_indexer.Base.{
  In, ℕ, ◌≡◌, ◌≢◌, refl, Bool, false, List, [], ◌∷◌, none, some, ok, arith, inl,
}
use rust_evm_indexer.Base.Int.{ℤ, pos}
use rust_evm_indexer.Base.Text.{Text, codes, text_eq}
use rust_evm_indexer.Domain.Job.{ingest_range}
use rust_evm_indexer.Jobs.Table.{JobRow, JobsDb, update_job}
use rust_evm_indexer.Jobs.Enqueue.{NewJob, new_job_row, inserted, existing, enqueue}
use rust_evm_indexer.Jobs.Enqueue.Idempotence.{enqueue-again}
use rust_evm_indexer.Jobs.Lease.{
  leased_row, oldest, lock_next_candidate, cancel_expired, lease_candidate, new_attempt,
  lease_next_candidate,
}
use rust_evm_indexer.Jobs.History.{
  Call, enqueues, leases, runs, succeeds, fails, interrupts, run, empty_db,
}
use rust_evm_indexer.Jobs.History.Uniqueness.{Unique, run-Unique}
use rust_evm_indexer.Jobs.History.Audit.{IsAudited, run-IsAudited}
use rust_evm_indexer.Jobs.History.Leasing.{Leased, lease_next_candidate-Leased, lease_exclusive}

abbrev demo_job : ℕ → ℤ → ℤ → NewJob
demo_job id from to = record {
  id = id;
  job_type = ingest_range;
  source_id = some 1;
  chain_id = pos 1;
  from_block = some from;
  to_block = some to;
  idempotency_key = id ∷ [];
  max_attempts = pos 3;
}

abbrev worker : Text
worker = codes "worker-1"

abbrev unlocked : ℕ → Bool
unlocked id = false

abbrev demo_calls : List Call
demo_calls =
    enqueues 1 (demo_job 10 (pos 0) (pos 9))
    ∷ enqueues 2 (demo_job 11 (pos 10) (pos 19))
    ∷ leases 3 3 unlocked worker 30 none none
    ∷ runs 4 10
    ∷ fails 5 10 (codes "IngestJobError") (codes "timeout")
    ∷ leases 6 6 unlocked worker 30 none none
    ∷ interrupts 7 10 (codes "shutdown")
    ∷ succeeds 8 11
    ∷ []

run-Unique_example : Unique (run demo_calls empty_db).jobs
run-Unique_example = run-Unique demo_calls

run-IsAudited_example : IsAudited (run demo_calls empty_db)
run-IsAudited_example = run-IsAudited demo_calls

abbrev first_job : NewJob
first_job = demo_job 10 (pos 0) (pos 9)

abbrev one_job_db : JobsDb
one_job_db = record { jobs = new_job_row 1 first_job ∷ []; job_attempts = [] }

enqueue_demo : enqueue 1 first_job empty_db ≡ (ok (inserted (new_job_row 1 first_job)), one_job_db)
unfolding enqueue new_job_row
enqueue_demo = refl

enqueue-again_example :
    In (new_job_row 1 first_job) one_job_db.jobs
    × (enqueue 4 (record first_job { id = 77 }) one_job_db
        ≡ (ok (existing (new_job_row 1 first_job)), one_job_db))
enqueue-again_example =
    enqueue-again 1 4 77 first_job empty_db one_job_db (inserted (new_job_row 1 first_job))
      enqueue_demo

abbrev held_job : JobRow
held_job = leased_row worker 30 3 1 (new_job_row 1 (demo_job 10 (pos 0) (pos 9)))

abbrev free_job : JobRow
free_job = new_job_row 2 (demo_job 11 (pos 10) (pos 19))

abbrev demo_db : JobsDb
demo_db = record {
  jobs = held_job ∷ free_job ∷ [];
  job_attempts = new_attempt worker held_job ∷ [];
}

abbrev given_job : JobRow
given_job = leased_row worker 30 9 1 free_job

abbrev given_db : JobsDb
given_db = record {
  jobs = held_job ∷ given_job ∷ [];
  job_attempts = new_attempt worker held_job ∷ new_attempt worker given_job ∷ [];
}

lease_demo :
    lease_next_candidate 9 9 unlocked worker 30 none none demo_db ≡ (ok (some given_job), given_db)
unfolding lease_next_candidate lock_next_candidate lease_candidate oldest cancel_expired update_job
    new_job_row
lease_demo = refl

demo_db-Unique : Unique demo_db.jobs
unfolding new_job_row text_eq
demo_db-Unique = ((refl, tt), (tt, tt))

lease_next_candidate-Leased_example :
    (old : JobRow) × Leased 9 9 unlocked worker 30 none none demo_db given_db old given_job
lease_next_candidate-Leased_example =
    lease_next_candidate-Leased 9 9 unlocked worker 30 none none demo_db demo_db-Unique given_job
      given_db lease_demo

lease_exclusive_example : given_job.id ≢ held_job.id
unfolding new_job_row
lease_exclusive_example =
    lease_exclusive 9 9 unlocked worker 30 none none demo_db demo_db-Unique held_job 33 (inl refl)
      refl refl (omega arith) given_job given_db lease_demo
