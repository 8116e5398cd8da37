-- ===== src/Worker/Checks.antt =====
-- What `execute_job` checks of a job before it touches the chain (worker/mod.rs).
use rust_evm_indexer.Base.{
  ℕ, ◌-◌, ◌||◌, List, Option, leb, Result, ok, err, ◌>>=◌, ◌>>◌, or_err, fail_if, select_first,
  ◌==◌, not, if◌then◌else◌, unsupported_job_type, missing_field, negative_range, source_not_found,
  chain_not_found, chain_mismatch, negative_confirmations, block_too_large,
}
use rust_evm_indexer.Base.Int.{ℤ, pos, ltb_ℤ, eqb_ℤ, as_u64, i64_max}
use rust_evm_indexer.Base.Text.{Text}
use rust_evm_indexer.Domain.Job.{ingest_range, replay_range}
use rust_evm_indexer.Jobs.Table.{JobRow, job_type_eq}
use rust_evm_indexer.Ledger.Rows.{SourceRow, LedgerDb}
use rust_evm_indexer.Ingest.Node.{ChainRpc}

pub record ChainRow : Type 0 where
  pub name : Text
  pub chain_id : ℤ
  pub rpc_url : Text
  pub finality_confirmations : ℤ

-- The type of the job and its range; the column holds one of the four spellings.
unfoldable pub job_range : JobRow → Result (ℕ × ℤ × ℤ)
job_range job = do
  fail_if (not (job_type_eq job.job_type ingest_range || job_type_eq job.job_type replay_range))
      unsupported_job_type
  source_id ← or_err job.source_id missing_field
  from ← or_err job.from_block missing_field
  to ← or_err job.to_block missing_field
  fail_if (ltb_ℤ from (pos 0) || ltb_ℤ to (pos 0)) negative_range
  ok (source_id, from, to)

unfoldable pub source_by_id : ℕ → LedgerDb → Option SourceRow
source_by_id source_id db = select_first (λ row. row.id == source_id) db.sources

unfoldable pub job_source : ℕ → ℤ → LedgerDb → Result SourceRow
job_source source_id chain_id db = do
  source ← or_err (source_by_id source_id db) source_not_found
  fail_if (not (eqb_ℤ source.chain_id chain_id)) chain_mismatch
  ok source

unfoldable pub chain_by_chain_id : ℤ → List ChainRow → Option ChainRow
chain_by_chain_id chain_id chains = select_first (λ row. eqb_ℤ row.chain_id chain_id) chains

unfoldable pub observed_finalized_block : ChainRpc → ℤ → List ChainRow → Result ℤ
observed_finalized_block rpc chain_id chains = do
  chain ← or_err (chain_by_chain_id chain_id chains) chain_not_found
  fail_if (ltb_ℤ chain.finality_confirmations (pos 0)) negative_confirmations
  head ← rpc.block_number
  let finalized = head - as_u64 chain.finality_confirmations
  if leb finalized i64_max then ok (pos finalized) else err block_too_large
