-- ===== src/Ingest/Source.antt =====
-- `ingest_source_range` (application/ingest.rs), over any repository of its port.
use rust_evm_indexer.Base.{ℕ, List, if◌then◌else◌}
use rust_evm_indexer.Base.Action.{Action, ◌>>=◌, pure, lift}
use rust_evm_indexer.Base.Int.{ℤ}
use rust_evm_indexer.Ports.{SourceRef, TransactionReceipt}
use rust_evm_indexer.Evm.{RpcLog, DecodedLog}
use rust_evm_indexer.Evm.Words.{BigUints}
use rust_evm_indexer.Evm.Decode.{Keccak}
use rust_evm_indexer.Ingest.Node.{ChainRpc}
use rust_evm_indexer.Ingest.Prepare.{
  IngestOptions, hashes_of, fetch_transaction_receipts, prepare_logs,
}
use rust_evm_indexer.Ledger.Upsert.{PersistDecodedLogsOptions}
use rust_evm_indexer.Ledger.Persist.{ScanSummary}

-- The trait `LedgerIngestRepository`.
pub record LedgerIngestRepository (S : Type 0) : Type 0 where
  pub persist_decoded_logs_with_options :
      SourceRef → List (RpcLog × DecodedLog) → PersistDecodedLogsOptions → Action S ScanSummary
  pub persist_transaction_receipts : ℤ → List TransactionReceipt → Action S ℕ

module _ {S : Type 0} (hash : Keccak) (big : BigUints) (rpc : ChainRpc)
    (ledger : LedgerIngestRepository S) where
  unfoldable pub with_receipts :
      SourceRef → List (RpcLog × DecodedLog) → ScanSummary → Action S ScanSummary
  with_receipts source decoded summary = do
    receipts ← lift (fetch_transaction_receipts rpc (hashes_of decoded))
    count ← ledger.persist_transaction_receipts source.chain_id receipts
    pure (record summary { transaction_receipts_persisted = count })

  unfoldable pub ingest_source_range : SourceRef → ℕ → ℕ → ℕ → IngestOptions → Action S ScanSummary
  ingest_source_range source from to chunk_size options = do
    decoded ← lift (prepare_logs hash big rpc source from to chunk_size options)
    summary ←
        ledger.persist_decoded_logs_with_options source decoded
          (record { restore_orphaned_conflicts = options.restore_orphaned_conflicts })
    if options.include_transaction_receipts
        then with_receipts source decoded summary
        else pure summary
