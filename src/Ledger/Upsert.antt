-- ===== src/Ledger/Upsert.antt =====
-- The upserts of a decoded log: `upsert_event`, `lock_existing_ledger_entry` and
-- `upsert_ledger_entry` of infra/postgres/ledger_repository.rs.
use rust_evm_indexer.Base.{
  ℕ, suc, ◌^◌, Bool, true, false, ◌&&◌, ◌||◌, not, List, [], ◌∷◌, ◌++◌, map, Option, none, some,
  if◌then◌else◌, is_some, select_first, update_first, Result, ok, err, ◌>>=◌, ◌>>◌, or_err, fail_if,
  row_rejected, unparsable,
}
use rust_evm_indexer.Base.Int.{ℤ, pos, ltb_ℤ, eqb_ℤ, as_i64, as_i32}
use rust_evm_indexer.Base.Text.{Text, text_eq, to_ascii_lowercase}
use rust_evm_indexer.Ports.{SourceRef}
use rust_evm_indexer.Evm.{
  RpcLog, DecodedLedgerEntry, DecodedLog, TokenStandard, standard_str, is_auto, parse_hex_u64,
}
use rust_evm_indexer.Ledger.Rows.{
  EventRow, LedgerEntryRow, LedgerDb, non_zero_address, movement_type, parse_optional_hex_i32,
}

pub record PersistDecodedLogsOptions : Type 0 where
  pub restore_orphaned_conflicts : Bool

-- The unique key of `events`.
abbrev pub is_event : ℤ → Text → ℤ → EventRow → Bool
is_event chain_id transaction_hash log_index row =
    eqb_ℤ row.chain_id chain_id
    && (text_eq row.transaction_hash transaction_hash && eqb_ℤ row.log_index log_index)

-- `NewEventRow` of a log: the checks `block_number >= 0` and `log_index >= 0` of the table stand
-- behind it.
unfoldable pub new_event_row : ℕ → SourceRef → RpcLog → DecodedLog → Result EventRow
new_event_row id source log decoded = do
  block_number ← parse_hex_u64 log.block_number
  transaction_index ← parse_optional_hex_i32 log.transaction_index
  log_index ← parse_hex_u64 log.log_index
  fail_if (ltb_ℤ (as_i64 block_number) (pos 0) || ltb_ℤ (as_i32 log_index) (pos 0)) row_rejected
  ok (record {
    id = id;
    source_id = source.id;
    chain_id = source.chain_id;
    block_number = as_i64 block_number;
    block_timestamp = log.block_timestamp;
    block_hash = to_ascii_lowercase log.block_hash;
    transaction_hash = to_ascii_lowercase log.transaction_hash;
    transaction_index = transaction_index;
    log_index = as_i32 log_index;
    contract_address = to_ascii_lowercase log.address;
    event_name = decoded.event_name;
    topics = map to_ascii_lowercase log.topics;
    payload = to_ascii_lowercase log.payload;
    args = decoded.entries;
    finalized = true;
    orphaned = false;
  })

-- What the conflict clause sets, and the restoring update behind it.
abbrev pub overwrite_event : PersistDecodedLogsOptions → EventRow → EventRow → EventRow
overwrite_event options values row = record row {
  block_timestamp = values.block_timestamp;
  block_hash = values.block_hash;
  transaction_index = values.transaction_index;
  contract_address = values.contract_address;
  event_name = values.event_name;
  topics = values.topics;
  payload = values.payload;
  args = values.args;
  finalized = true;
  orphaned = if options.restore_orphaned_conflicts then false else row.orphaned;
}

unfoldable pub store_event :
    PersistDecodedLogsOptions → EventRow → Option EventRow → LedgerDb → ℕ × LedgerDb
store_event options values none db =
    (values.id, record db { events = db.events ++ values ∷ []; drawn = suc db.drawn })
store_event options values (some row) db = (
  row.id,
  record db {
    events =
        update_first (is_event values.chain_id values.transaction_hash values.log_index)
          (overwrite_event options values) db.events;
    drawn = suc db.drawn;
  },
)

unfoldable pub upsert_event :
    SourceRef → RpcLog → DecodedLog → PersistDecodedLogsOptions → LedgerDb → Result (ℕ × LedgerDb)
upsert_event source log decoded options db = do
  values ← new_event_row (db.event_ids db.drawn) source log decoded
  ok (
      store_event options values
        (select_first (is_event values.chain_id values.transaction_hash values.log_index) db.events)
        db)

-- The unique key of `ledger_entries`.
abbrev pub is_ledger_entry : ℤ → Text → ℤ → ℤ → LedgerEntryRow → Bool
is_ledger_entry chain_id transaction_hash log_index batch_index row =
    eqb_ℤ row.chain_id chain_id
    && (text_eq row.transaction_hash transaction_hash
        && (eqb_ℤ row.log_index log_index && eqb_ℤ row.batch_index batch_index))

unfoldable pub lock_existing_ledger_entry :
    SourceRef → RpcLog → ℤ → LedgerDb → Result (Option LedgerEntryRow)
lock_existing_ledger_entry source log batch_index db = do
  log_index ← parse_hex_u64 log.log_index
  ok (
      select_first
        (is_ledger_entry source.chain_id (to_ascii_lowercase log.transaction_hash)
          (as_i32 log_index) batch_index)
        db.ledger_entries)

-- The checks of the table `ledger_entries` on a row that is proposed, `NUMERIC(78,0)` included.
unfoldable pub row_accepted : TokenStandard → LedgerEntryRow → Bool
row_accepted token_standard row =
    not (is_auto token_standard)
    && not (ltb_ℤ row.amount (pos 0))
    && ltb_ℤ row.amount (pos (10 ^ 78))
    && not (ltb_ℤ row.batch_index (pos 0))
    && not (ltb_ℤ row.block_number (pos 0))
    && not (ltb_ℤ row.log_index (pos 0))
    && (is_some row.from_address || is_some row.to_address)

abbrev pub lower_option : Option Text → Option Text
lower_option none = none
lower_option (some value) = some (to_ascii_lowercase value)

-- What the conflict clause sets, and the restoring update behind it.
abbrev pub overwrite_entry :
    PersistDecodedLogsOptions → LedgerEntryRow → LedgerEntryRow → LedgerEntryRow
overwrite_entry options values row = record row {
  amount = values.amount;
  block_timestamp = values.block_timestamp;
  block_hash = values.block_hash;
  transaction_index = values.transaction_index;
  orphaned = if options.restore_orphaned_conflicts then false else row.orphaned;
}

-- The upsert returns the row that the table then holds.
unfoldable pub store_ledger_entry :
    PersistDecodedLogsOptions
    → LedgerEntryRow
    → Option LedgerEntryRow
    → List LedgerEntryRow
    → LedgerEntryRow × List LedgerEntryRow
store_ledger_entry options values none rows = (values, rows ++ values ∷ [])
store_ledger_entry options values (some row) rows = (
  overwrite_entry options values row,
  update_first
      (is_ledger_entry values.chain_id values.transaction_hash values.log_index values.batch_index)
      (overwrite_entry options values) rows,
)

-- `parse_amount` reads a `BigDecimal` as the integer that the column keeps.
module _ (parse_amount : Text → Option ℤ) where
  unfoldable pub new_ledger_entry_row :
      SourceRef → RpcLog → ℕ → DecodedLedgerEntry → Result LedgerEntryRow
  new_ledger_entry_row source log event_id entry = do
    amount ← or_err (parse_amount entry.amount) unparsable
    block_number ← parse_hex_u64 log.block_number
    transaction_index ← parse_optional_hex_i32 log.transaction_index
    log_index ← parse_hex_u64 log.log_index
    let values : LedgerEntryRow = record {
      event_id = event_id;
      source_id = source.id;
      chain_id = source.chain_id;
      contract_address = to_ascii_lowercase log.address;
      token_standard = standard_str entry.token_standard;
      movement_type = movement_type entry.from entry.to;
      operator_address = lower_option entry.operator;
      from_address = non_zero_address entry.from;
      to_address = non_zero_address entry.to;
      token_id = entry.token_id;
      amount = amount;
      batch_index = entry.batch_index;
      block_number = as_i64 block_number;
      block_timestamp = log.block_timestamp;
      block_hash = to_ascii_lowercase log.block_hash;
      transaction_hash = to_ascii_lowercase log.transaction_hash;
      transaction_index = transaction_index;
      log_index = as_i32 log_index;
      orphaned = false;
    }
    if row_accepted entry.token_standard values then ok values else err row_rejected

  unfoldable pub upsert_ledger_entry :
      SourceRef
      → RpcLog
      → ℕ
      → DecodedLedgerEntry
      → PersistDecodedLogsOptions
      → LedgerDb
      → Result (LedgerEntryRow × LedgerDb)
  upsert_ledger_entry source log event_id entry options db = do
    values ← new_ledger_entry_row source log event_id entry
    let key =
        is_ledger_entry values.chain_id values.transaction_hash values.log_index values.batch_index
    let (row, rows) =
        store_ledger_entry options values (select_first key db.ledger_entries) db.ledger_entries
    ok (row, record db { ledger_entries = rows })
