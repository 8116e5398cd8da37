-- ===== src/Ports.antt =====
-- application/ports.rs: the records that cross the ports, and the repository of the planner.
use rust_evm_indexer.Base.{ℕ, List, Option, Result}
use rust_evm_indexer.Base.Int.{ℤ}
use rust_evm_indexer.Base.Text.{Text}
use rust_evm_indexer.Domain.Job.{JobType}

-- A source as the use cases see it: what `SourceDescriptor` returns. A `Uuid` is a number.
pub record SourceRef : Type 0 where
  pub id : ℕ
  pub chain_id : ℤ
  pub contract_address : Text
  pub token_standard : Text

pub record SourceCheckpoint : Type 0 where
  pub processed_block : ℤ
  pub processed_block_hash : Text
  pub finalized_block : ℤ

pub record IndexedBlockHash : Type 0 where
  pub block_number : ℤ
  pub block_hash : Text

pub record NewRangeJob : Type 0 where
  pub job_type : JobType
  pub source_id : ℕ
  pub chain_id : ℤ
  pub from_block : ℤ
  pub to_block : ℤ
  pub idempotency_key : Text
  pub max_attempts : ℤ

pub data EnqueueRangeJobResult : Type 0 where
  inserted existing : EnqueueRangeJobResult

-- `trait BackfillRepository` over a database state `S`. A call that fails may still have
-- changed the state, so the state comes back on both ends.
pub record BackfillRepository (S : Type 0) : Type 0 where
  pub checkpoint_for_source : ℕ → S → Result (Option SourceCheckpoint)
  pub enqueue_range_job : NewRangeJob → S → Result EnqueueRangeJobResult × S

-- A block whose hash differs, of application/reorg.rs.
pub record ReorgMismatch : Type 0 where
  pub block_number : ℤ
  pub expected_block_hash : Text
  pub actual_block_hash : Text

-- The `mismatches` are kept as a list, which the database keeps as JSON.
pub record ReorgEventInsert : Type 0 where
  pub source_id : ℕ
  pub chain_id : ℤ
  pub from_block : ℤ
  pub to_block : ℤ
  pub expected_block_hash : Option Text
  pub actual_block_hash : Option Text
  pub replay_job_id : Option ℕ
  pub mismatches : List ReorgMismatch

-- `trait ReorgRepository`.
pub record ReorgRepository (S : Type 0) : Type 0 where
  pub indexed_block_hashes : ℕ → ℤ → ℤ → S → Result (List IndexedBlockHash)
  pub checkpoint_for_source : ℕ → S → Result (Option SourceCheckpoint)
  pub record_reorg_event : ReorgEventInsert → S → Result (Unit {0}) × S

-- The raw JSON of a receipt is kept as its text.
pub record TransactionReceipt : Type 0 where
  pub transaction_hash : Text
  pub transaction_index : Text
  pub block_hash : Text
  pub block_number : Text
  pub from : Text
  pub to : Option Text
  pub contract_address : Option Text
  pub status : Option Text
  pub gas_used : Text
  pub cumulative_gas_used : Text
  pub effective_gas_price : Option Text
  pub transaction_type : Option Text
  pub raw : Text
