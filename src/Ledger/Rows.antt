-- ===== src/Ledger/Rows.antt =====
-- The rows of the ledger tables (infra/postgres/models.rs) and the small helpers on them.
use rust_evm_indexer.Base.{
  ℕ, Bool, List, Option, none, some, if◌then◌else◌, Result, ok, err, ◌>>=◌, is_some, unparsable,
  leb,
}
use rust_evm_indexer.Base.Int.{ℤ, pos, max_ℤ, min_ℤ, i32_max}
use rust_evm_indexer.Base.Text.{Text, codes, text_eq, to_ascii_lowercase}
use rust_evm_indexer.Evm.{DecodedLedgerEntry, parse_hex_u64}

-- The column `movement_type`, by its three spellings.
pub data MovementType : Type 0 where
  mint transfer burn : MovementType

pub record SourceRow : Type 0 where
  pub id : ℕ
  pub chain_id : ℤ
  pub contract_address : Text
  pub token_standard : Text
  pub start_block : ℤ

-- The `args` are kept as the entries that the database keeps as JSON.
pub record EventRow : Type 0 where
  pub id : ℕ
  pub source_id : ℕ
  pub chain_id : ℤ
  pub block_number : ℤ
  pub block_timestamp : Option ℕ
  pub block_hash : Text
  pub transaction_hash : Text
  pub transaction_index : Option ℤ
  pub log_index : ℤ
  pub contract_address : Text
  pub event_name : Text
  pub topics : List Text
  pub payload : Text
  pub args : List DecodedLedgerEntry
  pub finalized : Bool
  pub orphaned : Bool

-- A `NUMERIC(78,0)` is an integer.
pub record LedgerEntryRow : Type 0 where
  pub event_id : ℕ
  pub source_id : ℕ
  pub chain_id : ℤ
  pub contract_address : Text
  pub token_standard : Text
  pub movement_type : MovementType
  pub operator_address : Option Text
  pub from_address : Option Text
  pub to_address : Option Text
  pub token_id : Text
  pub amount : ℤ
  pub batch_index : ℤ
  pub block_number : ℤ
  pub block_timestamp : Option ℕ
  pub block_hash : Text
  pub transaction_hash : Text
  pub transaction_index : Option ℤ
  pub log_index : ℤ
  pub orphaned : Bool

pub record TokenBalanceRow : Type 0 where
  pub source_id : ℕ
  pub chain_id : ℤ
  pub contract_address : Text
  pub token_standard : Text
  pub holder_address : Text
  pub token_id : Text
  pub balance : ℤ
  pub first_received_block : Option ℤ
  pub last_moved_block : Option ℤ

-- `event_ids` are the uuids that `Uuid::new_v4` draws for the events, in order.
pub record LedgerDb : Type 0 where
  pub sources : List SourceRow
  pub events : List EventRow
  pub ledger_entries : List LedgerEntryRow
  pub token_balances : List TokenBalanceRow
  pub event_ids : ℕ → ℕ
  pub drawn : ℕ

abbrev pub zero_address : Text
zero_address = codes "0x0000000000000000000000000000000000000000"

unfoldable pub non_zero_address : Text → Option Text
non_zero_address value =
    let lower = to_ascii_lowercase value in if text_eq lower zero_address then none else some lower

-- `movement_type`, on what `non_zero_address` says of the two ends.
unfoldable pub movement_type : Text → Text → MovementType
movement_type from to =
    if is_some (non_zero_address from)
    then (if is_some (non_zero_address to) then transfer else burn)
    else if is_some (non_zero_address to)
    then mint
    else transfer

unfoldable pub min_optional_block : Option ℤ → Option ℤ → Option ℤ
min_optional_block (some current) (some candidate) = some (min_ℤ current candidate)
min_optional_block (some current) none = some current
min_optional_block none (some candidate) = some candidate
min_optional_block none none = none

unfoldable pub max_optional_block : Option ℤ → Option ℤ → Option ℤ
max_optional_block (some current) (some candidate) = some (max_ℤ current candidate)
max_optional_block (some current) none = some current
max_optional_block none (some candidate) = some candidate
max_optional_block none none = none

unfoldable pub parse_hex_i32 : Text → Result ℤ
parse_hex_i32 value = do
  parsed ← parse_hex_u64 value
  if leb parsed i32_max then ok (pos parsed) else err unparsable

unfoldable pub parse_optional_hex_i32 : Option Text → Result (Option ℤ)
parse_optional_hex_i32 none = ok none
parse_optional_hex_i32 (some value) = do parsed ← parse_hex_i32 value; ok (some parsed)
