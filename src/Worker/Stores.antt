-- ===== src/Worker/Stores.antt =====
-- What a job and a round keep of each store, from what the calls of its repository keep.
use rust_evm_indexer.Base.{
  ℕ, Bool, true, false, List, Option, none, some, Result, Bool-cases, inl, inr, if◌then◌else◌,
  fail_if, target_not_finalized,
}
use rust_evm_indexer.Base.Action.{Action, ◌>>=◌, pure, lift, query}
use rust_evm_indexer.Base.Int.{ℤ, ltb_ℤ, as_u64}
use rust_evm_indexer.Base.Text.{Text}
use rust_evm_indexer.Domain.Job.{JobType, replay_range}
use rust_evm_indexer.Jobs.Table.{JobRow, JobsDb, job_type_eq}
use rust_evm_indexer.Evm.{RpcLog, DecodedLog}
use rust_evm_indexer.Evm.Words.{BigUints}
use rust_evm_indexer.Evm.Decode.{Keccak}
use rust_evm_indexer.Ports.{SourceRef, TransactionReceipt}
use rust_evm_indexer.Ledger.Rows.{SourceRow, LedgerDb}
use rust_evm_indexer.Ledger.Upsert.{PersistDecodedLogsOptions}
use rust_evm_indexer.Ledger.Persist.{ScanSummary, persist_decoded_logs_with_options}
use rust_evm_indexer.Ledger.Orphan.{from_source, orphan_source_range}
use rust_evm_indexer.Ledger.Receipts.{persist_transaction_receipts}
use rust_evm_indexer.Ledger.Checkpoint.{
  CheckpointRow, advance_checkpoint, next_contiguous_checkpoint_target,
}
use rust_evm_indexer.Ingest.Node.{ChainRpc}
use rust_evm_indexer.Ingest.Prepare.{
  hashes_of, fetch_transaction_receipts, prepare_logs, validate_contract_code_at_boundaries,
}
use rust_evm_indexer.Ingest.Source.{with_receipts, ingest_source_range}
use rust_evm_indexer.Worker.Checks.{job_range, job_source, observed_finalized_block}
use rust_evm_indexer.Worker.Execute.{
  IngestWorker, WorkerDb, on_ledger, on_receipts, on_checkpoints, ledger_port, options_of,
  ingest_job, execute_replay, advance_to, execute_ingest, execute_range, execute_for, execute_job,
}
use rust_evm_indexer.Worker.Keeps.{
  Keeps, bind-Keeps, Stores, pure-Keeps, lift-Keeps, query-Keeps, on_ledger-Keeps,
  on_receipts-Keeps, on_checkpoints-Keeps,
}

module _ (Q : JobsDb → Type 0) (L : LedgerDb → Type 0) (C : List CheckpointRow → Type 0)
    (worker : IngestWorker) (hash : Keccak) (big : BigUints) (parse_amount : Text → Option ℤ)
    (rpc : ChainRpc) where
  abbrev PersistKeeps : Type 0
  PersistKeeps =
      (source : SourceRef) (logs : List (RpcLog × DecodedLog)) (options : PersistDecodedLogsOptions)
      (db : LedgerDb)
      → L db
      → L (persist_decoded_logs_with_options parse_amount source logs options db).1

  abbrev OrphanKeeps : Type 0
  OrphanKeeps =
      (source : SourceRow) (from to : ℤ) (db : LedgerDb)
      → L db
      → L (orphan_source_range source from to db).1

  abbrev AdvanceKeeps : Type 0
  AdvanceKeeps =
      (id : ℕ) (target : ℤ) (block_hash : Text) (finalized : ℤ) (rows : List CheckpointRow)
      → C rows
      → C (advance_checkpoint id target block_hash finalized rows).1

  receipts-Keeps :
      (source : SourceRef) (decoded : List (RpcLog × DecodedLog)) (summary : ScanSummary)
      → Keeps (Stores Q L C) (
          with_receipts hash big rpc
            (ledger_port worker hash big parse_amount rpc)
            source
            decoded
            summary)
  unfolding with_receipts
  receipts-Keeps source decoded summary =
      let store : List TransactionReceipt → Action WorkerDb ℕ =
        λ receipts. on_receipts (persist_transaction_receipts big source.chain_id receipts) in
      let count : ℕ → Action WorkerDb ScanSummary =
        λ n. pure (record summary { transaction_receipts_persisted = n }) in
      bind-Keeps (Stores Q L C) (lift (fetch_transaction_receipts rpc (hashes_of decoded)))
        (λ receipts. store receipts >>= count)
        (lift-Keeps Q L C (fetch_transaction_receipts rpc (hashes_of decoded)))
        λ receipts.
          bind-Keeps (Stores Q L C) (store receipts) count
            (on_receipts-Keeps Q L C (persist_transaction_receipts big source.chain_id receipts))
            λ n. pure-Keeps Q L C (record summary { transaction_receipts_persisted = n })

  written-Keeps :
      (source : SourceRef) (decoded : List (RpcLog × DecodedLog)) (included : Bool)
      (summary : ScanSummary)
      → Keeps (Stores Q L C) (
          if included
          then with_receipts hash big rpc
              (ledger_port worker hash big parse_amount rpc)
              source
              decoded
              summary
          else pure summary)
  written-Keeps source decoded true summary = receipts-Keeps source decoded summary
  written-Keeps source decoded false summary = pure-Keeps Q L C summary

  pub ingest_job-Keeps :
      PersistKeeps
      → (source : SourceRow) (from to : ℤ) (restore : Bool)
      → Keeps (Stores Q L C) (ingest_job worker hash big parse_amount rpc source from to restore)
  unfolding ingest_job ingest_source_range
  ingest_job-Keeps persist source from to restore =
      let prepared =
        prepare_logs hash big rpc (from_source source) (as_u64 from) (as_u64 to) worker.chunk_size
          (options_of worker hash big parse_amount rpc restore) in
      let write : List (RpcLog × DecodedLog) → Action WorkerDb ScanSummary = λ decoded. on_ledger (
        persist_decoded_logs_with_options parse_amount (from_source source) decoded
          (record { restore_orphaned_conflicts = restore })) in
      let finish : List (RpcLog × DecodedLog) → ScanSummary → Action WorkerDb ScanSummary =
        λ decoded summary.
          if worker.include_transaction_receipts
          then with_receipts hash big rpc (ledger_port worker hash big parse_amount rpc)
              (from_source source) decoded summary
          else pure summary in
      bind-Keeps (Stores Q L C) (lift prepared) (λ decoded. write decoded >>= finish decoded)
        (lift-Keeps Q L C prepared)
        λ decoded.
          bind-Keeps (Stores Q L C) (write decoded) (finish decoded)
            (on_ledger-Keeps Q L C _ (persist (from_source source) decoded _))
            (written-Keeps (from_source source) decoded worker.include_transaction_receipts)

  pub execute_replay-Keeps :
      PersistKeeps
      → OrphanKeeps
      → (source : SourceRow) (from to : ℤ)
      → Keeps (Stores Q L C) (execute_replay worker hash big parse_amount rpc source from to)
  unfolding execute_replay
  execute_replay-Keeps persist orphan source from to =
      bind-Keeps (Stores Q L C) (on_ledger (orphan_source_range source from to))
        (λ _. ingest_job worker hash big parse_amount rpc source from to true)
        (on_ledger-Keeps Q L C (orphan_source_range source from to) (orphan source from to))
        λ _. ingest_job-Keeps persist source from to true

  advance_to-Keeps :
      AdvanceKeeps
      → (source : SourceRow) (observed : ℤ) (summary : ScanSummary) (target : Option ℤ)
      → Keeps
          (Stores Q L C)
          (advance_to worker hash big parse_amount rpc source observed summary target)
  unfolding advance_to
  advance_to-Keeps advance source observed summary none = pure-Keeps Q L C summary
  advance_to-Keeps advance source observed summary (some target) =
      let move : Text → Action WorkerDb CheckpointRow =
        λ block_hash. on_checkpoints (advance_checkpoint source.id target block_hash observed) in
      let moved =
        bind-Keeps (Stores Q L C) (lift (rpc.block_hash (as_u64 target)))
          (λ block_hash. move block_hash >>= λ _. pure summary)
          (lift-Keeps Q L C (rpc.block_hash (as_u64 target)))
          λ block_hash.
            bind-Keeps (Stores Q L C) (move block_hash) (λ _. pure summary)
              (on_checkpoints-Keeps Q L C (advance_checkpoint source.id target block_hash observed)
                (advance source.id target block_hash observed))
              λ _. pure-Keeps Q L C summary in
      elim (Bool-cases (ltb_ℤ observed target)) [
        | inl above ↦ rw above (pure-Keeps Q L C summary)
        | inr below ↦ rw below moved
      ]

  execute_ingest-Keeps :
      PersistKeeps
      → AdvanceKeeps
      → (source : SourceRow) (from to observed : ℤ)
      → Keeps
          (Stores Q L C)
          (execute_ingest worker hash big parse_amount rpc source from to observed)
  unfolding execute_ingest
  execute_ingest-Keeps persist advance source from to observed =
      let asked : WorkerDb → Result (Option ℤ) = λ db.
        next_contiguous_checkpoint_target source (some (from, to)) db.checkpoints db.queue.jobs in
      let move = advance_to worker hash big parse_amount rpc source observed in
      bind-Keeps (Stores Q L C) (ingest_job worker hash big parse_amount rpc source from to false)
        (λ summary. query asked >>= move summary) (ingest_job-Keeps persist source from to false)
        λ summary.
          bind-Keeps (Stores Q L C) (query asked) (move summary) (query-Keeps Q L C asked)
            (advance_to-Keeps advance source observed summary)

  abbrev pub RangeKeeps : JobType → Type 0
  RangeKeeps job_type =
      (source : SourceRow) (from to observed : ℤ)
      → Keeps (Stores Q L C)
          (execute_range worker hash big parse_amount rpc job_type source from to observed)

  pub replay-Keeps : PersistKeeps → OrphanKeeps → RangeKeeps replay_range
  unfolding execute_range
  replay-Keeps persist orphan source from to observed =
      execute_replay-Keeps persist orphan source from to

  pub execute_range-Keeps :
      PersistKeeps
      → OrphanKeeps
      → AdvanceKeeps
      → (job_type : JobType) (source : SourceRow) (from to observed : ℤ)
      → Keeps
          (Stores Q L C)
          (execute_range worker hash big parse_amount rpc job_type source from to observed)
  unfolding execute_range
  execute_range-Keeps persist orphan advance job_type source from to observed =
      elim (Bool-cases (job_type_eq job_type replay_range)) [
        | inl replay ↦ rw replay (execute_replay-Keeps persist orphan source from to)
        | inr ingest ↦ rw ingest (execute_ingest-Keeps persist advance source from to observed)
      ]

  execute_for-Keeps :
      (job_type : JobType)
      → RangeKeeps job_type
      → (source : SourceRow) (from to : ℤ)
      → Keeps (Stores Q L C) (execute_for worker hash big parse_amount rpc job_type source from to)
  unfolding execute_for
  execute_for-Keeps job_type range source from to =
      let seen : WorkerDb → Result ℤ =
        λ db. observed_finalized_block rpc source.chain_id db.chains in
      let final : ℤ → Result (Unit {0}) =
        λ observed. fail_if (ltb_ℤ observed to) target_not_finalized in
      let code =
        validate_contract_code_at_boundaries rpc source.contract_address (as_u64 from)
          (as_u64 to) in
      let body = execute_range worker hash big parse_amount rpc job_type source from to in
      bind-Keeps (Stores Q L C) (query seen)
        (λ observed. lift (final observed) >>= λ _. lift code >>= λ _. body observed)
        (query-Keeps Q L C seen)
        λ observed.
          bind-Keeps (Stores Q L C) (lift (final observed)) (λ _. lift code >>= λ _. body observed)
            (lift-Keeps Q L C (final observed))
            λ _.
              bind-Keeps (Stores Q L C) (lift code) (λ _. body observed) (lift-Keeps Q L C code)
                λ _. range source from to observed

  pub execute_job-Keeps :
      (job : JobRow)
      → RangeKeeps job.job_type
      → Keeps (Stores Q L C) (execute_job worker hash big parse_amount rpc job)
  unfolding execute_job
  execute_job-Keeps job range =
      let load : ℕ → WorkerDb → Result SourceRow =
        λ source_id db. job_source source_id job.chain_id db.ledger in
      let body : SourceRow → ℤ → ℤ → Action WorkerDb ScanSummary =
        execute_for worker hash big parse_amount rpc job.job_type in
      bind-Keeps (Stores Q L C) (lift (job_range job))
        (λ (source_id, from, to). query (load source_id) >>= λ source. body source from to)
        (lift-Keeps Q L C (job_range job))
        λ (source_id, from, to).
          bind-Keeps (Stores Q L C) (query (load source_id)) (λ source. body source from to)
            (query-Keeps Q L C (load source_id))
            λ source. execute_for-Keeps job.job_type range source from to
