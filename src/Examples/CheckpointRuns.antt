-- ===== src/Examples/CheckpointRuns.antt =====
-- A source processed up to block 9, with a succeeded ingestion of 10 to 19 and 20 to 29 just done.
use rust_evm_indexer.Base.{◌≡◌, refl, List, [], ◌∷◌, none, some, ok, arith}
use rust_evm_indexer.Base.Int.{pos, ◌+ℤ◌}
use rust_evm_indexer.Base.Text.{codes}
use rust_evm_indexer.Domain.Job.{ingest_range, succeeded}
use rust_evm_indexer.Jobs.Table.{JobRow}
use rust_evm_indexer.Ledger.Rows.{SourceRow}
use rust_evm_indexer.Ledger.Checkpoint.{
  CheckpointRow, advance_checkpoint, candidate_ranges, completed_job_range, sort_ranges,
  insert_range, extend_target, next_contiguous_checkpoint_target,
}
use rust_evm_indexer.Ledger.Checkpoint.Target.{IsTarget, next_contiguous_checkpoint_target-IsTarget}
use rust_evm_indexer.Ledger.Checkpoint.Advance.{Advanced, advance_checkpoint-Advanced}

abbrev demo_source : SourceRow
demo_source = record {
  id = 1;
  chain_id = pos 1;
  contract_address = codes "0x01";
  token_standard = codes "erc20";
  start_block = pos 0;
}

abbrev demo_checkpoints : List CheckpointRow
demo_checkpoints =
    record {
      source_id = 1;
      processed_block = pos 9;
      processed_block_hash = codes "0x99";
      finalized_block = pos 40;
    }
    ∷ []

abbrev demo_jobs : List JobRow
demo_jobs =
    record {
      id = 7;
      job_type = ingest_range;
      status = succeeded;
      source_id = some 1;
      chain_id = pos 1;
      from_block = some (pos 10);
      to_block = some (pos 19);
      idempotency_key = codes "backfill";
      leased_by = none;
      lease_expires_at = none;
      attempts = 1;
      max_attempts = pos 5;
      error_class = none;
      error_message = none;
      created_at = 0;
      updated_at = 0;
    }
    ∷ []

target_demo :
    next_contiguous_checkpoint_target demo_source (some (pos 20, pos 29)) demo_checkpoints demo_jobs
    ≡ ok (some (pos 29))
unfolding next_contiguous_checkpoint_target candidate_ranges completed_job_range sort_ranges
    insert_range extend_target ◌+ℤ◌
target_demo = refl

next_contiguous_checkpoint_target-IsTarget_example :
    IsTarget demo_source (some (pos 20, pos 29)) demo_checkpoints demo_jobs (some (pos 29))
next_contiguous_checkpoint_target-IsTarget_example =
    next_contiguous_checkpoint_target-IsTarget demo_source (some (pos 20, pos 29)) demo_checkpoints
      demo_jobs (some (pos 29)) target_demo

advance_checkpoint-Advanced_example :
    Advanced demo_checkpoints
      (advance_checkpoint 1 (pos 29) (codes "0xAB") (pos 40) demo_checkpoints).1
advance_checkpoint-Advanced_example =
    advance_checkpoint-Advanced 1 (pos 29) (codes "0xAB") (pos 40) demo_checkpoints
      ((omega arith, omega arith), tt)
