-- ===== src/Worker/Execute.antt =====
-- A round of a worker: lease a job, execute it, and write down how it went (worker/mod.rs). Metrics
-- and log output are left out. The clock and the ids that are drawn are part of the state.
use rust_evm_indexer.Base.{
  ℕ, ◌+◌, Bool, true, false, List, [], ◌∷◌, Option, none, some, ◌==◌, if◌then◌else◌, Result, ok,
  err, fail_if, Error, unless_panicked, chunk_size_zero, target_not_finalized,
}
use rust_evm_indexer.Base.Action.{Action, ◌>>=◌, ◌>>◌, pure, lift, query}
use rust_evm_indexer.Base.Int.{ℤ, ltb_ℤ, as_u64}
use rust_evm_indexer.Base.Text.{Text, codes}
use rust_evm_indexer.Domain.Job.{JobType, replay_range}
use rust_evm_indexer.Jobs.Table.{JobRow, JobsDb, job_type_eq}
use rust_evm_indexer.Jobs.Lease.{lease_next_candidate}
use rust_evm_indexer.Jobs.Marks.{
  mark_running, mark_succeeded, mark_failed, mark_interrupted_for_retry,
}
use rust_evm_indexer.Evm.Words.{BigUints}
use rust_evm_indexer.Evm.Decode.{Keccak}
use rust_evm_indexer.Ledger.Rows.{SourceRow, LedgerDb}
use rust_evm_indexer.Ledger.Persist.{ScanSummary, persist_decoded_logs_with_options}
use rust_evm_indexer.Ledger.Orphan.{from_source, orphan_source_range}
use rust_evm_indexer.Ledger.Receipts.{TransactionReceiptRow, persist_transaction_receipts}
use rust_evm_indexer.Ledger.Checkpoint.{
  CheckpointRow, advance_checkpoint, next_contiguous_checkpoint_target,
}
use rust_evm_indexer.Ingest.Node.{ChainRpc}
use rust_evm_indexer.Ingest.Prepare.{IngestOptions, validate_contract_code_at_boundaries}
use rust_evm_indexer.Ingest.Source.{LedgerIngestRepository, ingest_source_range}
use rust_evm_indexer.Worker.{
  WorkerOutcome, no_job, processed, failed, interrupted, lease_order, update_priority_after_outcome,
}
use rust_evm_indexer.Worker.Checks.{ChainRow, job_range, job_source, observed_finalized_block}

-- The tables, the flag of the worker, and its clock: `times` are what `Utc::now` answers, in order.
pub record WorkerDb : Type 0 where
  pub queue : JobsDb
  pub ledger : LedgerDb
  pub receipts : List TransactionReceiptRow
  pub checkpoints : List CheckpointRow
  pub chains : List ChainRow
  pub replay_first : Bool
  pub times : ℕ → ℕ
  pub ticks : ℕ

-- The fields of an `IngestWorker`, and the rows that other transactions have locked.
pub record IngestWorker : Type 0 where
  pub worker_id : Text
  pub lease_for : ℕ
  pub chunk_size : ℕ
  pub chain_id : Option ℤ
  pub include_transaction_receipts : Bool
  pub locked : ℕ → Bool

unfoldable pub now : Action WorkerDb ℕ
now db = (ok (db.times db.ticks), record db { ticks = db.ticks + 1 })

-- A call of one repository on the whole state.
module _ {A : Type 0} where
  unfoldable pub on_queue : Action JobsDb A → Action WorkerDb A
  on_queue call db = let (answer, queue') = call db.queue in (answer, record db { queue = queue' })

  unfoldable pub on_ledger : Action LedgerDb A → Action WorkerDb A
  on_ledger call db =
      let (answer, ledger') = call db.ledger in (answer, record db { ledger = ledger' })

  unfoldable pub on_receipts : Action (List TransactionReceiptRow) A → Action WorkerDb A
  on_receipts call db =
      let (answer, receipts') = call db.receipts in (answer, record db { receipts = receipts' })

  unfoldable pub on_checkpoints : Action (List CheckpointRow) A → Action WorkerDb A
  on_checkpoints call db =
      let (answer, checkpoints') = call db.checkpoints in
      (answer, record db { checkpoints = checkpoints' })

  -- An error is handed on as a value; a panic ends the round.
  unfoldable pub attempt : Action WorkerDb A → Action WorkerDb (Result A)
  attempt call db = let (answer, db') = call db in (unless_panicked answer, db')

unfoldable pub set_priority : Bool → Action WorkerDb (Unit {0})
set_priority replay_first db = (ok tt, record db { replay_first = replay_first })

module _ (worker : IngestWorker) where
  unfoldable pub lease_next_supported_type : JobType → Action WorkerDb (Option JobRow)
  lease_next_supported_type job_type = do
    seen ← now
    leased_at ← now
    on_queue (
        lease_next_candidate seen leased_at worker.locked worker.worker_id worker.lease_for
          (some job_type) worker.chain_id)

  -- The loop over the types.
  unfoldable pub lease_in_order : List JobType → Action WorkerDb (Option JobRow)
  lease_in_order [] = pure none
  lease_in_order (job_type ∷ job_types) = do
    leased ← lease_next_supported_type job_type
    let rest = lease_in_order job_types
    elim leased [ none ↦ rest | some row ↦ pure (some row) ]

  unfoldable pub run_leased : Option JobRow → Action WorkerDb (Option JobRow)
  run_leased none = pure none
  run_leased (some row) = do
    at ← now
    running ← on_queue (mark_running at row.id)
    pure (some running)

  unfoldable pub lease_and_mark_running : Bool → Action WorkerDb (Option JobRow)
  lease_and_mark_running replay_first = do
    lift (fail_if (worker.chunk_size == 0) chunk_size_zero)
    leased ← lease_in_order (lease_order replay_first)
    run_leased leased

  -- `message` stands for `format_error_chain`.
  module _ (message : Error → Text) where
    unfoldable pub finish_running_job : JobRow → Result ScanSummary → Action WorkerDb WorkerOutcome
    finish_running_job running (ok summary) = do
      at ← now
      succeeded ← on_queue (mark_succeeded at running.id)
      pure (processed succeeded.id summary)
    finish_running_job running (err error) = do
      at ← now
      stopped ← on_queue (mark_failed at running.id (codes "IngestJobError") (message error))
      pure (failed stopped.id stopped.status (message error))

  -- The arm of `run_once_until_shutdown` that the shutdown wins.
  unfoldable pub interrupt_running_job : JobRow → Action WorkerDb WorkerOutcome
  interrupt_running_job running = do
    at ← now
    stopped ← on_queue (
        mark_interrupted_for_retry at running.id
          (codes "worker shutdown requested before job completed"))
    pure (interrupted stopped.id stopped.status)

  module _ (hash : Keccak) (big : BigUints) (parse_amount : Text → Option ℤ) (rpc : ChainRpc) where
    -- The ledger's repository fills the port of the ingestion.
    abbrev pub ledger_port : LedgerIngestRepository WorkerDb
    ledger_port = record {
      persist_decoded_logs_with_options = λ source logs options.
          on_ledger (persist_decoded_logs_with_options parse_amount source logs options);
      persist_transaction_receipts =
          λ chain_id receipts. on_receipts (persist_transaction_receipts big chain_id receipts);
    }

    abbrev pub options_of : Bool → IngestOptions
    options_of restore = record {
      include_transaction_receipts = worker.include_transaction_receipts;
      restore_orphaned_conflicts = restore;
      prefetched_logs = none;
    }

    unfoldable pub ingest_job : SourceRow → ℤ → ℤ → Bool → Action WorkerDb ScanSummary
    ingest_job source from to restore =
        ingest_source_range hash big rpc ledger_port (from_source source) (as_u64 from) (as_u64 to)
          worker.chunk_size (options_of restore)

    unfoldable pub execute_replay : SourceRow → ℤ → ℤ → Action WorkerDb ScanSummary
    execute_replay source from to = do
      on_ledger (orphan_source_range source from to)
      ingest_job source from to true

    unfoldable pub advance_to : SourceRow → ℤ → ScanSummary → Option ℤ → Action WorkerDb ScanSummary
    advance_to source observed summary none = pure summary
    advance_to source observed summary (some target) =
        let advance = do
          block_hash ← lift (rpc.block_hash (as_u64 target))
          on_checkpoints (advance_checkpoint source.id target block_hash observed)
          pure summary
        in if ltb_ℤ observed target then pure summary else advance

    unfoldable pub execute_ingest : SourceRow → ℤ → ℤ → ℤ → Action WorkerDb ScanSummary
    execute_ingest source from to observed = do
      summary ← ingest_job source from to false
      target ← query (λ db.
          next_contiguous_checkpoint_target source (some (from, to)) db.checkpoints db.queue.jobs)
      advance_to source observed summary target

    -- The two branches on the type of the job.
    unfoldable pub execute_range : JobType → SourceRow → ℤ → ℤ → ℤ → Action WorkerDb ScanSummary
    execute_range job_type source from to observed =
        if job_type_eq job_type replay_range
        then execute_replay source from to
        else execute_ingest source from to observed

    -- `execute_job` behind the loading of its source.
    unfoldable pub execute_for : JobType → SourceRow → ℤ → ℤ → Action WorkerDb ScanSummary
    execute_for job_type source from to = do
      observed ← query (λ db. observed_finalized_block rpc source.chain_id db.chains)
      lift (fail_if (ltb_ℤ observed to) target_not_finalized)
      lift (
          validate_contract_code_at_boundaries rpc source.contract_address (as_u64 from)
            (as_u64 to))
      execute_range job_type source from to observed

    unfoldable pub execute_job : JobRow → Action WorkerDb ScanSummary
    execute_job job = do
      (source_id, from, to) ← lift (job_range job)
      source ← query (λ db. job_source source_id job.chain_id db.ledger)
      execute_for job.job_type source from to

    module _ (message : Error → Text) where
      -- What follows a lease.
      unfoldable pub work_on : Option JobRow → Action WorkerDb WorkerOutcome
      work_on none = pure no_job
      work_on (some running) = do
        result ← attempt (execute_job running)
        outcome ← finish_running_job message running result
        replay_first ← query (λ db. ok db.replay_first)
        set_priority (update_priority_after_outcome running outcome replay_first)
        pure outcome

      unfoldable pub run_once_with_current_priority : Action WorkerDb WorkerOutcome
      run_once_with_current_priority = do
        replay_first ← query (λ db. ok db.replay_first)
        running ← lease_and_mark_running replay_first
        work_on running
