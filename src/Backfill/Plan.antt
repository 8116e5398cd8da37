-- ===== src/Backfill/Plan.antt =====
-- `plan_backfill_jobs` of application/backfill.rs, over any repository of the planner's port.
pub mod Outcome
use rust_evm_indexer.Base.{
  ℕ, suc, ◌+◌, max, Bool, true, false, List, [], ◌∷◌, ◌++◌, Option, none, some, leb, ltb, ◌==◌,
  if◌then◌else◌, first, last, Result, ok, err, Error, fail_if, inverted_range, range_size_zero,
  max_attempts_not_positive, length, ◌≡◌, refl,
}
use rust_evm_indexer.Base.Action.{Action, ◌>>=◌, ◌>>◌, pure, lift, query}
use rust_evm_indexer.Base.Int.{ℤ, pos, negsuc, leb_ℤ, pos_part, saturating_add}
use rust_evm_indexer.Base.Text.{Text, codes}
use rust_evm_indexer.Base.Decimal.{decimal}
use rust_evm_indexer.Domain.Job.{ingest_range}
use rust_evm_indexer.Ports.{
  SourceRef, SourceCheckpoint, NewRangeJob, EnqueueRangeJobResult, inserted, existing,
  BackfillRepository,
}
use rust_evm_indexer.Backfill.{
  BackfillChunk, split_inclusive_range, ensure_block_fits_i64, block_to_i64,
}

pub record BackfillPlan : Type 0 where
  pub source_id : ℕ
  pub requested_from : ℕ
  pub requested_to : ℕ
  pub planned_from : Option ℕ
  pub planned_to : Option ℕ
  pub range_size : ℕ
  pub ranges : List BackfillChunk
  pub inserted_jobs : ℕ
  pub existing_jobs : ℕ

-- `BackfillPlan::total_jobs`
pub total_jobs : BackfillPlan → ℕ
total_jobs plan = plan.inserted_jobs + plan.existing_jobs

-- The first block that is still to be planned: behind the checkpoint, if it has a block.
pub resume_from : ℕ → Option SourceCheckpoint → ℕ
resume_from from none = from
resume_from from (some checkpoint) =
    if leb_ℤ (pos 0) checkpoint.processed_block
    then max from (saturating_add (pos_part checkpoint.processed_block) 1)
    else from

-- `split_inclusive_range`, or nothing where the checkpoint has passed the range.
planned_ranges : ℕ → ℕ → ℕ → Result (List BackfillChunk)
planned_ranges from to range_size =
    if ltb to from then ok [] else split_inclusive_range from to range_size

pub count_result : EnqueueRangeJobResult → ℕ × ℕ → ℕ × ℕ
count_result inserted (ins, old) = (ins + 1, old)
count_result existing (ins, old) = (ins, old + 1)

-- The plan that is returned.
abbrev pub backfill_plan : SourceRef → ℕ → ℕ → ℕ → List BackfillChunk → ℕ × ℕ → BackfillPlan
backfill_plan source from to range_size ranges (inserted_jobs, existing_jobs) = record {
  source_id = source.id;
  requested_from = from;
  requested_to = to;
  planned_from = elim (first ranges) [ none ↦ none | some range ↦ some range.from ];
  planned_to = elim (last ranges) [ none ↦ none | some range ↦ some range.to ];
  range_size = range_size;
  ranges = ranges;
  inserted_jobs = inserted_jobs;
  existing_jobs = existing_jobs;
}

-- `uuid_text` is the `Display` of the uuid library.
module _ (uuid_text : ℕ → Text) where
  abbrev pub backfill_key : ℕ → BackfillChunk → Text
  backfill_key source_id range =
      codes "backfill:"
      ++ (uuid_text source_id
          ++ (codes ":" ++ (decimal range.from ++ (codes ":" ++ decimal range.to))))

  module _ {S : Type 0} (repositories : BackfillRepository S) (source : SourceRef) where
    enqueue_chunk : ℤ → BackfillChunk → Action S EnqueueRangeJobResult
    enqueue_chunk max_attempts range = do
      from_block ← lift (block_to_i64 range.from)
      to_block ← lift (block_to_i64 range.to)
      repositories.enqueue_range_job (record {
        job_type = ingest_range;
        source_id = source.id;
        chain_id = source.chain_id;
        from_block = from_block;
        to_block = to_block;
        idempotency_key = backfill_key source.id range;
        max_attempts = max_attempts;
      })

    -- The `for` loop over the ranges, with the two counters.
    enqueue_chunks : ℤ → List BackfillChunk → ℕ × ℕ → Action S (ℕ × ℕ)
    enqueue_chunks max_attempts [] counts = pure counts
    enqueue_chunks max_attempts (range ∷ ranges) counts = do
      result ← enqueue_chunk max_attempts range
      enqueue_chunks max_attempts ranges (count_result result counts)

    pub plan_backfill_jobs : ℕ → ℕ → ℕ → ℤ → Action S BackfillPlan
    plan_backfill_jobs from to range_size max_attempts = do
      lift (fail_if (leb_ℤ max_attempts (pos 0)) max_attempts_not_positive)
      lift (fail_if (range_size == 0) range_size_zero)
      lift (fail_if (ltb to from) inverted_range)
      lift (ensure_block_fits_i64 from)
      lift (ensure_block_fits_i64 to)
      checkpoint ← query (repositories.checkpoint_for_source source.id)
      ranges ← lift (planned_ranges (resume_from from checkpoint) to range_size)
      counts ← enqueue_chunks max_attempts ranges (0, 0)
      pure (backfill_plan source from to range_size ranges counts)
