-- ===== src/Examples/LedgerRuns.antt =====
-- A mint that is persisted, orphaned, and persisted again.
use rust_evm_indexer.Base.{ℕ, ◌^◌, true, false, List, [], ◌∷◌, Option, none, some}
use rust_evm_indexer.Base.Int.{ℤ, pos}
use rust_evm_indexer.Base.Text.{Text, codes}
use rust_evm_indexer.Base.Decimal.{from_str_radix}
use rust_evm_indexer.Ports.{SourceRef}
use rust_evm_indexer.Evm.{RpcLog, DecodedLog, erc20}
use rust_evm_indexer.Ledger.Rows.{SourceRow, zero_address}
use rust_evm_indexer.Ledger.Materialized.{IsMaterialized}
use rust_evm_indexer.Ledger.History.{
  LedgerCall, persist, orphan, fresh_ledger, run_ledger, balances_follow_ledger,
}

abbrev demo_amount : Text → Option ℤ
demo_amount text = elim (from_str_radix (10 ^ 78) 10 text) [ none ↦ none | some n ↦ some (pos n) ]

abbrev demo_source : SourceRow
demo_source = record {
  id = 1;
  chain_id = pos 1;
  contract_address = codes "0x01";
  token_standard = codes "erc20";
  start_block = pos 0;
}

abbrev demo_log : RpcLog
demo_log = record {
  address = codes "0x01";
  topics = [];
  payload = codes "0x";
  block_number = codes "0x10";
  transaction_hash = codes "0xAA";
  transaction_index = none;
  log_index = codes "0x2";
  block_hash = codes "0xBB";
  block_timestamp = none;
}

abbrev demo_mint : DecodedLog
demo_mint = record {
  event_name = codes "Transfer";
  entries =
      record {
        event_name = codes "Transfer";
        token_standard = erc20;
        operator = none;
        from = zero_address;
        to = codes "0x00000000000000000000000000000000000000aa";
        token_id = [];
        amount = codes "5";
        batch_index = pos 0;
      }
      ∷ [];
}

abbrev demo_ref : SourceRef
demo_ref = record {
  id = 1;
  chain_id = pos 1;
  contract_address = codes "0x01";
  token_standard = codes "erc20";
}

abbrev demo_calls : List LedgerCall
demo_calls =
    persist demo_ref ((demo_log, demo_mint) ∷ []) (record { restore_orphaned_conflicts = false })
    ∷ orphan demo_source (pos 10) (pos 20)
    ∷ persist demo_ref ((demo_log, demo_mint) ∷ []) (record { restore_orphaned_conflicts = true })
    ∷ []

abbrev demo_ids : ℕ → ℕ
demo_ids n = n

balances_follow_ledger_example :
    IsMaterialized (run_ledger demo_amount demo_calls (fresh_ledger (demo_source ∷ []) demo_ids))
balances_follow_ledger_example =
    balances_follow_ledger demo_amount (demo_source ∷ []) demo_ids demo_calls
