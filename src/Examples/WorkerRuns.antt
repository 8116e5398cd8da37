-- ===== src/Examples/WorkerRuns.antt =====
-- A queue of outcomes that a worker meets, and a failed attempt.
use rust_evm_indexer.Base.{
  ℕ, ◌≡◌, refl, Bool, true, false, List, [], ◌∷◌, Option, none, some, select_first, ok,
}
use rust_evm_indexer.Base.Action.{Action}
use rust_evm_indexer.Base.Int.{ℤ, pos, ◌≤ℤ◌, ◌<ℤ◌}
use rust_evm_indexer.Base.Text.{codes}
use rust_evm_indexer.Domain.Job.{JobType, ingest_range, running, queued, dead_lettered}
use rust_evm_indexer.Jobs.Table.{JobRow, JobsDb, has_id}
use rust_evm_indexer.Jobs.Lease.{is_candidate}
use rust_evm_indexer.Jobs.Marks.{mark_failed}
use rust_evm_indexer.Jobs.Marks.Retry.{mark_failed_lem}
use rust_evm_indexer.Worker.{WorkerOutcome, no_job, failed, interrupted}

-- A worker that meets the outcomes in the list, and then no job.
abbrev next_outcome : Action (List WorkerOutcome) WorkerOutcome
next_outcome [] = (ok no_job, [])
next_outcome (outcome ∷ outcomes) = (ok outcome, outcomes)

abbrev demo_outcomes : List WorkerOutcome
demo_outcomes = failed 10 queued (codes "timeout") ∷ interrupted 11 queued ∷ []

-- The third attempt of three.
abbrev demo_row : JobRow
demo_row = record {
  id = 10;
  job_type = ingest_range;
  status = running;
  source_id = some 1;
  chain_id = pos 1;
  from_block = some (pos 0);
  to_block = some (pos 9);
  idempotency_key = codes "backfill";
  leased_by = some (codes "worker-1");
  lease_expires_at = some 50;
  attempts = 3;
  max_attempts = pos 3;
  error_class = none;
  error_message = none;
  created_at = 0;
  updated_at = 0;
}

abbrev demo_db : JobsDb
demo_db = record { jobs = demo_row ∷ []; job_attempts = [] }

mark_failed_lem_example :
    (row : JobRow) × (db : JobsDb) × (mark_failed 20 10
        (codes "IngestJobError")
        (codes "timeout")
        demo_db
      ≡ (ok row, db))
    × (select_first (has_id 10) db.jobs ≡ some row)
    × (row.leased_by ≡ none)
    × (row.lease_expires_at ≡ none)
    × (row.attempts ≡ 3)
    × (pos 3 <ℤ pos 3
        → (row.status ≡ queued)
          × ((seen : ℕ) → is_candidate seen (λ _. false) none none row ≡ true))
    × (pos 3 ≤ℤ pos 3
        → (row.status ≡ dead_lettered)
          × ((seen : ℕ) (locked : ℕ → Bool) (job_type : Option JobType) (chain_id : Option ℤ)
              → is_candidate seen locked job_type chain_id row ≡ false))
mark_failed_lem_example =
    mark_failed_lem 20 10 (codes "IngestJobError") (codes "timeout") demo_db demo_row refl
