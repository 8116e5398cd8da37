-- ===== src/Examples/PageRuns.antt =====
-- Three transfers of a contract, read one to a page.
use rust_evm_indexer.Base.{
  ◌≡◌, ◌↔◌, ◌⊎◌, refl, false, List, [], ◌∷◌, map, none, some, ok, err, In, arith, bad_request,
}
use rust_evm_indexer.Base.Int.{ℤ, pos}
use rust_evm_indexer.Base.Text.{Text, codes, text_eq, to_ascii_lowercase, strip_prefix}
use rust_evm_indexer.Base.Signed.{signed_decimal}
use rust_evm_indexer.Ledger.Rows.{SourceRow, LedgerEntryRow, LedgerDb, transfer}
use rust_evm_indexer.Ledger.Page.{
  LedgerCursor, LedgerQuery, desc, asc, selected, transfer_of, source_by_contract_conn,
}
use rust_evm_indexer.Ledger.Page.Sorted.{Ordered}
use rust_evm_indexer.Ledger.Page.Wanted.{Wanted}
use rust_evm_indexer.Ledger.Page.Walk.{walk_pages, walk_pages_lem}
use rust_evm_indexer.Api.{
  LedgerPageQuery, to_ledger_query, limit_or_default, normalize_evm_address, parse_cursor,
  encode_cursor,
}
use rust_evm_indexer.Api.Cursor.{IsCursor, parse_cursor-encode_cursor}
use rust_evm_indexer.Api.Requests.{IsChecked, to_ledger_query_lem}
use rust_evm_indexer.Api.Paging.{request_at, read_all, read_all_lem}

abbrev contract : Text
contract = codes "0x00000000000000000000000000000000000000c1"

abbrev row_at : ℤ → ℤ → LedgerEntryRow
row_at block log = record {
  event_id = 1;
  source_id = 1;
  chain_id = pos 1;
  contract_address = contract;
  token_standard = codes "erc20";
  movement_type = transfer;
  operator_address = none;
  from_address = some (codes "0xaa");
  to_address = some (codes "0xbb");
  token_id = [];
  amount = pos 5;
  batch_index = pos 0;
  block_number = block;
  block_timestamp = none;
  block_hash = codes "0xBB";
  transaction_hash = codes "0xAA";
  transaction_index = none;
  log_index = log;
  orphaned = false;
}

abbrev demo_rows : List LedgerEntryRow
demo_rows = row_at (pos 10) (pos 1) ∷ row_at (pos 12) (pos 0) ∷ row_at (pos 10) (pos 2) ∷ []

abbrev demo_source : SourceRow
demo_source = record {
  id = 1;
  chain_id = pos 1;
  contract_address = contract;
  token_standard = codes "erc20";
  start_block = pos 0;
}

abbrev page_db : LedgerDb
page_db = record {
  sources = demo_source ∷ [];
  events = [];
  ledger_entries = demo_rows;
  token_balances = [];
  event_ids = λ n. n;
  drawn = 0;
}

abbrev demo_query : LedgerQuery
demo_query = record {
  limit = pos 1;
  cursor = none;
  from_block = some (pos 0);
  to_block = none;
  holder = none;
  token_id = none;
  movement_type = none;
}

abbrev demo_request : LedgerPageQuery
demo_request = record {
  limit = some (pos 1);
  cursor = none;
  from_block = some (pos 0);
  to_block = none;
  holder = none;
  token_id = none;
  movement_type = none;
}

-- A request that names all of its filters.
abbrev named_request : LedgerPageQuery
named_request = record {
  limit = some (pos 7);
  cursor = some (codes "12:0:3");
  from_block = some (pos 1);
  to_block = some (pos 90);
  holder = some (codes "0x00000000000000000000000000000000000000Aa");
  token_id = some (codes "5");
  movement_type = some (codes "Mint");
}

abbrev demo_cursor : LedgerCursor
demo_cursor = record { block_number = pos 12; log_index = pos 0; batch_index = pos 3 }

parse_cursor-encode_cursor_example :
    IsCursor demo_cursor ↔ (parse_cursor (encode_cursor demo_cursor) ≡ ok demo_cursor)
parse_cursor-encode_cursor_example = parse_cursor-encode_cursor demo_cursor

to_ledger_query_lem_example :
    (to_ledger_query named_request (pos 50) ≡ err bad_request)
    ⊎ ((checked : LedgerQuery) × (to_ledger_query named_request (pos 50) ≡ ok checked)
        × IsChecked named_request (pos 50) checked)
to_ledger_query_lem_example = to_ledger_query_lem named_request (pos 50)

walk_pages_lem_example :
    (rows : List LedgerEntryRow) × (walk_pages signed_decimal page_db 1 asc 4 demo_query none
      ≡ map (transfer_of signed_decimal) rows)
    × Ordered asc rows
    × ((row : LedgerEntryRow) → In row rows ↔ (In row demo_rows × Wanted 1 demo_query row))
unfolding selected
walk_pages_lem_example =
    walk_pages_lem signed_decimal page_db 1 asc 4 demo_query
      (((λ e. cc), ((λ e. cc), tt)), (((λ e. cc), tt), (tt, tt))) (omega arith)

request_accepted : to_ledger_query (request_at demo_request none) (pos 50) ≡ ok demo_query
unfolding to_ledger_query limit_or_default
request_accepted = refl

contract_known : normalize_evm_address contract ≡ ok contract
unfolding normalize_evm_address to_ascii_lowercase strip_prefix
contract_known = refl

source_found : source_by_contract_conn page_db (pos 1) contract ≡ some demo_source
unfolding source_by_contract_conn text_eq to_ascii_lowercase
source_found = refl

read_all_lem_example :
    (rows : List LedgerEntryRow) × (read_all signed_decimal page_db 4
        (pos 1)
        contract
        (request_at demo_request none)
      ≡ ok (map (transfer_of signed_decimal) rows))
    × Ordered desc rows
    × ((row : LedgerEntryRow) → In row rows ↔ (In row demo_rows × Wanted 1 demo_query row))
unfolding selected
read_all_lem_example =
    read_all_lem signed_decimal page_db (pos 1) contract contract demo_request demo_query
      demo_source (omega arith) request_accepted contract_known source_found 4
      (((λ e. cc), ((λ e. cc), tt)), (((λ e. cc), tt), (tt, tt))) (omega arith)
