-- ===== src/Ledger/Orphan.antt =====
-- `orphan_source_range` of infra/postgres/ledger_repository.rs: the rows of a range of blocks are
-- marked orphaned, and what they moved is taken back.
use rust_evm_indexer.Base.{
  ℕ, Bool, true, ◌&&◌, ◌||◌, not, List, [], ◌∷◌, some, ◌==◌, if◌then◌else◌, length, select,
  update_where, Result, ok, err, ◌>>=◌, ◌>>◌, negative_range, inverted_range,
}
use rust_evm_indexer.Base.Int.{ℤ, pos, ltb_ℤ, leb_ℤ, eqb_ℤ}
use rust_evm_indexer.Base.Action.{Action, transaction, lift}
use rust_evm_indexer.Ports.{SourceRef}
use rust_evm_indexer.Ledger.Rows.{SourceRow, EventRow, LedgerEntryRow, TokenBalanceRow, LedgerDb}
use rust_evm_indexer.Ledger.Balances.{apply_balance_delta}
use rust_evm_indexer.Ledger.Persist.{lock_source_for_write_conn}

pub record OrphanRangeSummary : Type 0 where
  pub events_orphaned : ℕ
  pub ledger_entries_orphaned : ℕ

-- `SourceRef::from_source`
unfoldable pub from_source : SourceRow → SourceRef
from_source source = record {
  id = source.id;
  chain_id = source.chain_id;
  contract_address = source.contract_address;
  token_standard = source.token_standard;
}

-- The filters of the selection and of the two updates.
unfoldable pub entry_in_range : ℕ → ℤ → ℤ → LedgerEntryRow → Bool
entry_in_range source_id from_block to_block row =
    row.source_id == source_id
    && leb_ℤ from_block row.block_number
    && leb_ℤ row.block_number to_block
    && not row.orphaned

unfoldable pub event_in_range : ℕ → ℤ → ℤ → EventRow → Bool
event_in_range source_id from_block to_block row =
    row.source_id == source_id
    && leb_ℤ from_block row.block_number
    && leb_ℤ row.block_number to_block
    && not row.orphaned

-- By block, then by log, then by batch.
unfoldable pub entry_before : LedgerEntryRow → LedgerEntryRow → Bool
entry_before a b =
    if eqb_ℤ a.block_number b.block_number
    then (if eqb_ℤ a.log_index b.log_index
        then leb_ℤ a.batch_index b.batch_index
        else leb_ℤ a.log_index b.log_index)
    else leb_ℤ a.block_number b.block_number

unfoldable pub insert_entry : LedgerEntryRow → List LedgerEntryRow → List LedgerEntryRow
insert_entry row [] = row ∷ []
insert_entry row (r ∷ rows) =
    let rest = insert_entry row rows in if entry_before row r then row ∷ r ∷ rows else r ∷ rest

unfoldable pub order_entries : List LedgerEntryRow → List LedgerEntryRow
order_entries [] = []
order_entries (row ∷ rows) = insert_entry row (order_entries rows)

abbrev pub as_orphaned : LedgerEntryRow → LedgerEntryRow
as_orphaned row = record row { orphaned = true }

-- The loop that takes back what each row moved.
unfoldable pub take_back :
    SourceRef → List LedgerEntryRow → List TokenBalanceRow → Result (List TokenBalanceRow)
take_back source [] balances = ok balances
take_back source (row ∷ rows) balances = do
  balances' ← apply_balance_delta source (some row) (as_orphaned row) balances
  take_back source rows balances'

-- What the transaction does.
unfoldable pub orphan_range_conn :
    SourceRow → ℤ → ℤ → LedgerDb → Result (OrphanRangeSummary × LedgerDb)
orphan_range_conn source from_block to_block db = do
  lock_source_for_write_conn (from_source source) db
  let rows = select (entry_in_range source.id from_block to_block) db.ledger_entries
  balances ← take_back (from_source source) (order_entries rows) db.token_balances
  ok (
    record {
      events_orphaned = length (select (event_in_range source.id from_block to_block) db.events);
      ledger_entries_orphaned = length rows;
    },
    record db {
      token_balances = balances;
      ledger_entries =
          update_where (entry_in_range source.id from_block to_block) as_orphaned db.ledger_entries;
      events =
          update_where (event_in_range source.id from_block to_block)
            (λ row. record row { orphaned = true }) db.events;
    },
  )

unfoldable pub orphan_source_range : SourceRow → ℤ → ℤ → Action LedgerDb OrphanRangeSummary
orphan_source_range source from_block to_block =
    if ltb_ℤ from_block (pos 0) || ltb_ℤ to_block (pos 0)
    then lift (err negative_range)
    else if ltb_ℤ to_block from_block
    then lift (err inverted_range)
    else transaction (orphan_range_conn source from_block to_block)
