-- ===== src/Ledger/Receipts.antt =====
-- The receipts of transactions (infra/postgres/ledger_repository.rs). The reading of a hexadecimal
-- `BigUint` is a parameter.
use rust_evm_indexer.Base.{
  ℕ, ◌+◌, Bool, ◌&&◌, List, [], ◌∷◌, ◌++◌, Option, none, some, Result, ok, err, ◌>>=◌, or_err,
  is_some, select_first, update_first, if◌then◌else◌, empty_value, unparsable,
}
use rust_evm_indexer.Base.Action.{Action, transaction}
use rust_evm_indexer.Base.Int.{ℤ, pos, eqb_ℤ, as_i64}
use rust_evm_indexer.Base.Text.{Text, text_eq, to_ascii_lowercase}
use rust_evm_indexer.Ports.{TransactionReceipt}
use rust_evm_indexer.Evm.{strip_0x, parse_hex_u64}
use rust_evm_indexer.Evm.Words.{BigUints}
use rust_evm_indexer.Ledger.Rows.{parse_hex_i32, parse_optional_hex_i32}

pub record TransactionReceiptRow : Type 0 where
  pub chain_id : ℤ
  pub transaction_hash : Text
  pub block_number : ℤ
  pub block_hash : Text
  pub transaction_index : Option ℤ
  pub from_address : Text
  pub to_address : Option Text
  pub contract_address : Option Text
  pub status : Option ℤ
  pub gas_used : ℤ
  pub cumulative_gas_used : ℤ
  pub effective_gas_price : Option ℤ
  pub transaction_type : Option Text
  pub raw_receipt : Text

abbrev pub lower_option : Option Text → Option Text
lower_option none = none
lower_option (some value) = some (to_ascii_lowercase value)

-- The unique key of the table.
abbrev pub is_receipt : ℤ → Text → TransactionReceiptRow → Bool
is_receipt chain_id hash row = eqb_ℤ row.chain_id chain_id && text_eq row.transaction_hash hash

-- `ON CONFLICT DO UPDATE`: every column but the key and the id is taken from the new row.
unfoldable pub store_receipt :
    TransactionReceiptRow → List TransactionReceiptRow → List TransactionReceiptRow
store_receipt row rows =
    if is_some (select_first (is_receipt row.chain_id row.transaction_hash) rows)
    then update_first (is_receipt row.chain_id row.transaction_hash) (λ _. row) rows
    else rows ++ row ∷ []

module _ (big : BigUints) where
  unfoldable pub parse_hex_big_decimal : Text → Result ℤ
  parse_hex_big_decimal value = do
    digits ← strip_0x value
    elim digits [
      | [] ↦ err empty_value
      | ◌∷◌ c s ↦ do parsed ← or_err (big.parse_bytes (c ∷ s)) unparsable; ok (pos parsed)
    ]

  unfoldable pub parse_optional_hex_big_decimal : Option Text → Result (Option ℤ)
  parse_optional_hex_big_decimal none = ok none
  parse_optional_hex_big_decimal (some value) = do
    parsed ← parse_hex_big_decimal value
    ok (some parsed)

  -- `NewTransactionReceiptRow`
  unfoldable pub receipt_row : ℤ → TransactionReceipt → Result TransactionReceiptRow
  receipt_row chain_id receipt = do
    block_number ← parse_hex_u64 receipt.block_number
    transaction_index ← parse_hex_i32 receipt.transaction_index
    status ← parse_optional_hex_i32 receipt.status
    gas_used ← parse_hex_big_decimal receipt.gas_used
    cumulative_gas_used ← parse_hex_big_decimal receipt.cumulative_gas_used
    effective_gas_price ← parse_optional_hex_big_decimal receipt.effective_gas_price
    ok record {
      chain_id = chain_id;
      transaction_hash = to_ascii_lowercase receipt.transaction_hash;
      block_number = as_i64 block_number;
      block_hash = to_ascii_lowercase receipt.block_hash;
      transaction_index = some transaction_index;
      from_address = to_ascii_lowercase receipt.from;
      to_address = lower_option receipt.to;
      contract_address = lower_option receipt.contract_address;
      status = status;
      gas_used = gas_used;
      cumulative_gas_used = cumulative_gas_used;
      effective_gas_price = effective_gas_price;
      transaction_type = lower_option receipt.transaction_type;
      raw_receipt = receipt.raw;
    }

  unfoldable pub upsert_transaction_receipt :
      ℤ → TransactionReceipt → List TransactionReceiptRow → Result (List TransactionReceiptRow)
  upsert_transaction_receipt chain_id receipt rows = do
    row ← receipt_row chain_id receipt
    ok (store_receipt row rows)

  unfoldable pub persist_receipts :
      ℤ
      → List TransactionReceipt
      → ℕ
      → List TransactionReceiptRow
      → Result (ℕ × List TransactionReceiptRow)
  persist_receipts chain_id [] persisted rows = ok (persisted, rows)
  persist_receipts chain_id (receipt ∷ receipts) persisted rows = do
    rows' ← upsert_transaction_receipt chain_id receipt rows
    persist_receipts chain_id receipts (persisted + 1) rows'

  unfoldable pub persist_transaction_receipts :
      ℤ → List TransactionReceipt → Action (List TransactionReceiptRow) ℕ
  persist_transaction_receipts chain_id receipts =
      transaction (persist_receipts chain_id receipts 0)
