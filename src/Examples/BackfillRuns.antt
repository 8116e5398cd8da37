-- ===== src/Examples/BackfillRuns.antt =====
-- Planning three chunks for the blocks from 10 to 20, and reading the spelling of a status.
use rust_evm_indexer.Base.{ℕ, ◌≡◌, ◌↔◌, refl, List, [], ◌∷◌, some, ok, length, arith}
use rust_evm_indexer.Base.Int.{pos}
use rust_evm_indexer.Base.Text.{Text, codes}
use rust_evm_indexer.Domain.Job.{
  ingest_range, queued, job_type_str, job_status_str, parse_job_type, parse_job_status,
  parse_iff_str,
}
use rust_evm_indexer.Ports.{SourceRef, SourceCheckpoint, NewRangeJob, inserted, BackfillRepository}
use rust_evm_indexer.Backfill.{BackfillChunk, split_inclusive_range}
use rust_evm_indexer.Backfill.Tiling.{Tiles, split_inclusive_range-Tiles}
use rust_evm_indexer.Backfill.Plan.{BackfillPlan, total_jobs, plan_backfill_jobs}
use rust_evm_indexer.Backfill.Plan.Outcome.{IsStart, plan_backfill_jobs_total}

split_demo :
    split_inclusive_range 10 20 4
    ≡ ok (
        record { from = 10; to = 13 }
        ∷ record { from = 14; to = 17 }
        ∷ record { from = 18; to = 20 }
        ∷ [])
unfolding split_inclusive_range
split_demo = refl

split_inclusive_range-Tiles_example :
    (cs : List BackfillChunk) × (split_inclusive_range 10 20 4 ≡ ok cs) × Tiles 10 20 4 cs
split_inclusive_range-Tiles_example =
    split_inclusive_range-Tiles 10 20 4 (omega arith) (omega arith) (omega arith)

-- The blocks up to 12 are done.
abbrev demo_checkpoint : SourceCheckpoint
demo_checkpoint = record {
  processed_block = pos 12;
  processed_block_hash = codes "0x12";
  finalized_block = pos 40;
}

-- A repository that keeps every job it is given.
abbrev keeping : BackfillRepository (List NewRangeJob)
keeping = record {
  checkpoint_for_source = λ id jobs. ok (some demo_checkpoint);
  enqueue_range_job = λ job jobs. (ok inserted, job ∷ jobs);
}

abbrev demo_source : SourceRef
demo_source = record {
  id = 1;
  chain_id = pos 1;
  contract_address = codes "0x01";
  token_standard = codes "erc20";
}

abbrev demo_uuid : ℕ → Text
demo_uuid id = codes "source-"

plan_backfill_jobs_total_example :
    (plan : BackfillPlan) × (jobs : List NewRangeJob) × (plan_backfill_jobs demo_uuid keeping
        demo_source 10 20 4
        (pos 5)
        []
      ≡ (ok plan, jobs))
    × ((start : ℕ) × IsStart 10 (some demo_checkpoint) start × Tiles start 20 4 plan.ranges)
    × (total_jobs plan ≡ length plan.ranges)
plan_backfill_jobs_total_example =
    plan_backfill_jobs_total demo_uuid keeping demo_source
      (λ job jobs. (inserted, job ∷ jobs, refl)) 10 20 4 (pos 5) (some demo_checkpoint) []
      (omega arith) (omega arith) (omega arith) (omega arith) (omega arith) refl

parse_iff_str_example :
    ((parse_job_type (codes "queued") ≡ ok ingest_range)
      ↔ (job_type_str ingest_range ≡ codes "queued"))
    × ((parse_job_status (codes "queued") ≡ ok queued) ↔ (job_status_str queued ≡ codes "queued"))
parse_iff_str_example = parse_iff_str (codes "queued") ingest_range queued
