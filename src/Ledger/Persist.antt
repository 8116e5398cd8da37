-- ===== src/Ledger/Persist.antt =====
-- Writing decoded logs: `persist_decoded_logs_with_options` of
-- infra/postgres/ledger_repository.rs, one transaction for all logs of a scan.
use rust_evm_indexer.Base.{
  ℕ, ◌+◌, Bool, true, false, ◌&&◌, not, List, [], ◌∷◌, Option, none, some, ◌==◌, if◌then◌else◌,
  is_some, length, select, select_first, Result, ok, err, ◌>>=◌, ◌>>◌, fail_if, not_found,
  other_source,
}
use rust_evm_indexer.Base.Int.{ℤ, pos, ltb_ℤ}
use rust_evm_indexer.Base.Text.{Text, text_eq}
use rust_evm_indexer.Base.Action.{Action, transaction}
use rust_evm_indexer.Ports.{SourceRef}
use rust_evm_indexer.Evm.{RpcLog, DecodedLedgerEntry, DecodedLog}
use rust_evm_indexer.Ledger.Rows.{MovementType, mint, transfer, burn, LedgerEntryRow, LedgerDb}
use rust_evm_indexer.Ledger.Balances.{apply_balance_delta}
use rust_evm_indexer.Ledger.Upsert.{
  PersistDecodedLogsOptions, upsert_event, lock_existing_ledger_entry, upsert_ledger_entry,
}

-- The summary without its sample of the top holders.
pub record ScanSummary : Type 0 where
  pub source_id : ℕ
  pub events_seen : ℕ
  pub events_persisted : ℕ
  pub ledger_entries_persisted : ℕ
  pub transaction_receipts_persisted : ℕ
  pub holder_count : ℕ
  pub minter_count : ℕ

unfoldable pub lock_source_for_write_conn : SourceRef → LedgerDb → Result (Unit {0})
lock_source_for_write_conn source db =
    if is_some (select_first (λ row. row.id == source.id) db.sources) then ok tt else err not_found

unfoldable pub holder_count_conn : ℕ → LedgerDb → ℕ
holder_count_conn source_id db =
    length
      (select (λ row. row.source_id == source_id && ltb_ℤ (pos 0) row.balance) db.token_balances)

abbrev pub is_mint : MovementType → Bool
is_mint mint = true
is_mint transfer = false
is_mint burn = false

-- The receivers of the mints of a source that are not orphaned, each once.
unfoldable pub distinct_minters : ℕ → List LedgerEntryRow → List Text
distinct_minters source_id [] = []
distinct_minters source_id (row ∷ rows) =
    let rest = distinct_minters source_id rows in
    elim row.to_address [
      | none ↦ rest
      | some minter ↦
          if row.source_id == source_id
            && not row.orphaned
            && is_mint row.movement_type
            && not (is_some (select_first (text_eq minter) rest))
          then minter ∷ rest
          else rest
    ]

unfoldable pub minter_count_conn : ℕ → LedgerDb → ℕ
minter_count_conn source_id db = length (distinct_minters source_id db.ledger_entries)

-- `previous.as_ref().is_some_and(|row| row.source_id != source.id)`
abbrev pub of_other_source : SourceRef → Option LedgerEntryRow → Bool
of_other_source source none = false
of_other_source source (some row) = not (row.source_id == source.id)

module _ (parse_amount : Text → Option ℤ) where
  -- The body of the inner loop, on one entry of a log.
  unfoldable pub persist_entry :
      SourceRef
      → PersistDecodedLogsOptions
      → RpcLog
      → ℕ
      → DecodedLedgerEntry
      → LedgerDb
      → Result LedgerDb
  persist_entry source options log event_id entry db = do
    previous ← lock_existing_ledger_entry source log entry.batch_index db
    fail_if (of_other_source source previous) other_source
    (current, db') ← upsert_ledger_entry parse_amount source log event_id entry options db
    balances ← apply_balance_delta source previous current db'.token_balances
    ok (record db' { token_balances = balances })

  unfoldable pub persist_entries :
      SourceRef
      → PersistDecodedLogsOptions
      → RpcLog
      → ℕ
      → List DecodedLedgerEntry
      → LedgerDb
      → Result LedgerDb
  persist_entries source options log event_id [] db = ok db
  persist_entries source options log event_id (entry ∷ entries) db = do
    db' ← persist_entry source options log event_id entry db
    persist_entries source options log event_id entries db'

  -- The outer loop, with the count of entries it has written.
  unfoldable pub persist_logs :
      SourceRef
      → PersistDecodedLogsOptions
      → List (RpcLog × DecodedLog)
      → ℕ
      → LedgerDb
      → Result (ℕ × LedgerDb)
  persist_logs source options [] written db = ok (written, db)
  persist_logs source options ((log, decoded) ∷ logs) written db = do
    (event_id, db') ← upsert_event source log decoded options db
    db'' ← persist_entries source options log event_id decoded.entries db'
    persist_logs source options logs (written + length decoded.entries) db''

  -- What the transaction does.
  unfoldable pub persist_conn :
      SourceRef
      → List (RpcLog × DecodedLog)
      → PersistDecodedLogsOptions
      → LedgerDb
      → Result (ScanSummary × LedgerDb)
  persist_conn source logs options db = do
    lock_source_for_write_conn source db
    (written, db') ← persist_logs source options logs 0 db
    ok (
      record {
        source_id = source.id;
        events_seen = length logs;
        events_persisted = length logs;
        ledger_entries_persisted = written;
        transaction_receipts_persisted = 0;
        holder_count = holder_count_conn source.id db';
        minter_count = minter_count_conn source.id db';
      },
      db',
    )

  unfoldable pub persist_decoded_logs_with_options :
      SourceRef
      → List (RpcLog × DecodedLog)
      → PersistDecodedLogsOptions
      → Action LedgerDb ScanSummary
  persist_decoded_logs_with_options source logs options =
      transaction (persist_conn source logs options)
