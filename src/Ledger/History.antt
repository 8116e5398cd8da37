-- ===== src/Ledger/History.antt =====
-- Sequences of writes of the ledger repository: each worker's call is one transaction, so an
-- interleaving of workers is a list of calls.
use rust_evm_indexer.Base.{ℕ, refl, List, [], ◌∷◌, Option}
use rust_evm_indexer.Base.Int.{ℤ}
use rust_evm_indexer.Base.Text.{Text}
use rust_evm_indexer.Ports.{SourceRef}
use rust_evm_indexer.Evm.{RpcLog, DecodedLog}
use rust_evm_indexer.Ledger.Rows.{SourceRow, LedgerDb}
use rust_evm_indexer.Ledger.Upsert.{PersistDecodedLogsOptions}
use rust_evm_indexer.Ledger.Persist.{persist_decoded_logs_with_options}
use rust_evm_indexer.Ledger.Orphan.{orphan_source_range}
use rust_evm_indexer.Ledger.Materialized.{IsMaterialized}
use rust_evm_indexer.Ledger.Materialized.Scans.{persist-IsMaterialized}
use rust_evm_indexer.Ledger.Materialized.Orphans.{orphan-IsMaterialized}

pub data LedgerCall : Type 0 where
  persist : SourceRef → List (RpcLog × DecodedLog) → PersistDecodedLogsOptions → LedgerCall
  orphan : SourceRow → ℤ → ℤ → LedgerCall

-- A database with sources and no logs yet.
abbrev pub fresh_ledger : List SourceRow → (ℕ → ℕ) → LedgerDb
fresh_ledger sources event_ids = record {
  sources = sources;
  events = [];
  ledger_entries = [];
  token_balances = [];
  event_ids = event_ids;
  drawn = 0;
}

module _ (parse_amount : Text → Option ℤ) where
  abbrev pub call_ledger : LedgerCall → LedgerDb → LedgerDb
  call_ledger (persist source logs options) db =
      (persist_decoded_logs_with_options parse_amount source logs options db).1
  call_ledger (orphan source from_block to_block) db =
      (orphan_source_range source from_block to_block db).1

  abbrev pub run_ledger : List LedgerCall → LedgerDb → LedgerDb
  run_ledger [] db = db
  run_ledger (c ∷ cs) db = run_ledger cs (call_ledger c db)

  run-IsMaterialized :
      (cs : List LedgerCall) (db : LedgerDb) → IsMaterialized db → IsMaterialized (run_ledger cs db)
  run-IsMaterialized [] db before = before
  run-IsMaterialized (persist source logs options ∷ cs) db before =
      run-IsMaterialized cs _ (persist-IsMaterialized parse_amount source logs options db before)
  run-IsMaterialized (orphan source from_block to_block ∷ cs) db before =
      run-IsMaterialized cs _ (orphan-IsMaterialized source from_block to_block db before)

  -- After any sequence of scans and orphanings on a fresh database, failed ones included, the
  -- balance that the table holds for a holder of a token of a source is the net amount that the
  -- live rows of the ledger move to that holder.
  pub balances_follow_ledger :
      (sources : List SourceRow) (event_ids : ℕ → ℕ) (cs : List LedgerCall)
      → IsMaterialized (run_ledger cs (fresh_ledger sources event_ids))
  balances_follow_ledger sources event_ids cs =
      run-IsMaterialized cs (fresh_ledger sources event_ids) (λ s h t. refl)
