-- ===== src/Ingest/Node.antt =====
-- The node as application/ports.rs sees it, the trait `ChainRpc`. A node that answers alike as long
-- as a call runs is a record of functions.
use rust_evm_indexer.Base.{ℕ, List, Result}
use rust_evm_indexer.Base.Text.{Text}
use rust_evm_indexer.Evm.{RpcLog, TokenStandard}
use rust_evm_indexer.Ports.{TransactionReceipt}

pub record ChainRpc : Type 0 where
  pub block_number : Result ℕ
  pub code_at : Text → ℕ → Result Text
  pub block_hash : ℕ → Result Text
  pub block_timestamp : ℕ → Result ℕ
  pub logs : Text → TokenStandard → ℕ → ℕ → Result (List RpcLog)
  pub transaction_receipt : Text → Result TransactionReceipt
