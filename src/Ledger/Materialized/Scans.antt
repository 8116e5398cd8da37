-- ===== src/Ledger/Materialized/Scans.antt =====
-- A whole scan keeps the balances equal to the sums of the ledger.
use rust_evm_indexer.Base.{
  ℕ, ◌≡◌, subst, List, [], ◌∷◌, Option, none, some, select_first, ok, >>=-eq-ok, ◌+◌, length,
  ok_inj,
}
use rust_evm_indexer.Base.Int.{ℤ}
use rust_evm_indexer.Base.Text.{Text}
use rust_evm_indexer.Base.Action.{transaction-keeps}
use rust_evm_indexer.Ports.{SourceRef}
use rust_evm_indexer.Evm.{RpcLog, DecodedLedgerEntry, DecodedLog}
use rust_evm_indexer.Ledger.Rows.{EventRow, LedgerDb}
use rust_evm_indexer.Ledger.Upsert.{
  PersistDecodedLogsOptions, is_event, store_event, new_event_row, upsert_event,
}
use rust_evm_indexer.Ledger.Persist.{
  persist_entry, persist_entries, persist_logs, persist_decoded_logs_with_options,
  lock_source_for_write_conn, persist_conn, ScanSummary,
}
use rust_evm_indexer.Ledger.Materialized.{IsMaterialized}
use rust_evm_indexer.Ledger.Materialized.Upserts.{persist_entry_lem}

store_event-IsMaterialized :
    (options : PersistDecodedLogsOptions) (values : EventRow) (row : Option EventRow)
    (db : LedgerDb)
    → IsMaterialized db
    → IsMaterialized (store_event options values row db).1
unfolding store_event
store_event-IsMaterialized options values none db before = before
store_event-IsMaterialized options values (some row) db before = before

upsert_event-IsMaterialized :
    (source : SourceRef) (log : RpcLog) (decoded : DecodedLog) (options : PersistDecodedLogsOptions)
    (db : LedgerDb) (id : ℕ) (db' : LedgerDb)
    → upsert_event source log decoded options db ≡ ok (id, db')
    → IsMaterialized db
    → IsMaterialized db'
unfolding upsert_event
upsert_event-IsMaterialized source log decoded options db id db' done before =
    let (values, made, done') =
      >>=-eq-ok (new_event_row (db.event_ids db.drawn) source log decoded) _ done in
    subst (λ p. IsMaterialized p.1) (ok_inj done')
      (store_event-IsMaterialized options values
        (select_first (is_event values.chain_id values.transaction_hash values.log_index) db.events)
        db before)

module _ (parse_amount : Text → Option ℤ) where
  persist_entries-IsMaterialized :
      (source : SourceRef) (options : PersistDecodedLogsOptions) (log : RpcLog) (event_id : ℕ)
      (entries : List DecodedLedgerEntry) (db db' : LedgerDb)
      → persist_entries parse_amount source options log event_id entries db ≡ ok db'
      → IsMaterialized db
      → IsMaterialized db'
  unfolding persist_entries
  persist_entries-IsMaterialized source options log event_id [] db db' done before =
      subst IsMaterialized (ok_inj done) before
  persist_entries-IsMaterialized source options log event_id (entry ∷ entries) db db' done before =
      let (mid, first_done, rest) =
        >>=-eq-ok (persist_entry parse_amount source options log event_id entry db) _ done in
      persist_entries-IsMaterialized source options log event_id entries mid db' rest
        (persist_entry_lem parse_amount source options log event_id entry db mid first_done before)

  persist_logs-IsMaterialized :
      (source : SourceRef) (options : PersistDecodedLogsOptions) (logs : List (RpcLog × DecodedLog))
      (written : ℕ) (db : LedgerDb) (total : ℕ) (db' : LedgerDb)
      → persist_logs parse_amount source options logs written db ≡ ok (total, db')
      → IsMaterialized db
      → IsMaterialized db'
  unfolding persist_logs
  persist_logs-IsMaterialized source options [] written db total db' done before =
      subst (λ p. IsMaterialized p.1) (ok_inj done) before
  persist_logs-IsMaterialized source options ((log, decoded) ∷ logs) written db total db' done
        before =
      let ((id, db1), upserted, done1) =
        >>=-eq-ok (upsert_event source log decoded options db) _ done in
      let (db2, entered, done2) =
        >>=-eq-ok (persist_entries parse_amount source options log id decoded.entries db1) _
          done1 in
      persist_logs-IsMaterialized source options logs (written + length decoded.entries) db2 total
        db' done2
        (persist_entries-IsMaterialized source options log id decoded.entries db1 db2 entered
          (upsert_event-IsMaterialized source log decoded options db id db1 upserted before))

  persist_conn-IsMaterialized :
      (source : SourceRef) (logs : List (RpcLog × DecodedLog)) (options : PersistDecodedLogsOptions)
      (db : LedgerDb) (summary : ScanSummary) (db' : LedgerDb)
      → persist_conn parse_amount source logs options db ≡ ok (summary, db')
      → IsMaterialized db
      → IsMaterialized db'
  unfolding persist_conn
  persist_conn-IsMaterialized source logs options db summary db' done before =
      let (_, locked, done1) = >>=-eq-ok (lock_source_for_write_conn source db) _ done in
      let ((total, db1), persisted, done2) =
        >>=-eq-ok (persist_logs parse_amount source options logs 0 db) _ done1 in
      subst (λ p. IsMaterialized p.1) (ok_inj done2)
        (persist_logs-IsMaterialized source options logs 0 db total db1 persisted before)

  -- A scan that is persisted, or that fails and is rolled back, keeps every balance equal to the
  -- net amount that the ledger moves.
  pub persist-IsMaterialized :
      (source : SourceRef) (logs : List (RpcLog × DecodedLog)) (options : PersistDecodedLogsOptions)
      (db : LedgerDb)
      → IsMaterialized db
      → IsMaterialized (persist_decoded_logs_with_options parse_amount source logs options db).1
  unfolding persist_decoded_logs_with_options
  persist-IsMaterialized source logs options db before =
      transaction-keeps IsMaterialized (persist_conn parse_amount source logs options) db before
        (λ summary db' done.
          persist_conn-IsMaterialized source logs options db summary db' done before)
