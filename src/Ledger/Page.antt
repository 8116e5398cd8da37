-- ===== src/Ledger/Page.antt =====
-- The pages of the ledger (infra/postgres/ledger_repository.rs).
mod Order
pub mod Sorted
mod Cut
pub mod Wanted
pub mod Walk
use rust_evm_indexer.Base.{
  ℕ, zero, suc, ◌+◌, ltb, Bool, true, false, not, ◌&&◌, ◌||◌, ◌==◌, if◌then◌else◌, List, [], ◌∷◌,
  map, Option, none, some, length, take, last, select, select_first,
}
use rust_evm_indexer.Base.Int.{ℤ, pos, ltb_ℤ, leb_ℤ, eqb_ℤ, as_u64}
use rust_evm_indexer.Base.Text.{Text, codes, text_eq, to_ascii_lowercase}
use rust_evm_indexer.Ledger.Rows.{
  MovementType, mint, transfer, burn, SourceRow, LedgerEntryRow, LedgerDb,
}

pub record LedgerCursor : Type 0 where
  pub block_number : ℤ
  pub log_index : ℤ
  pub batch_index : ℤ

pub record LedgerQuery : Type 0 where
  pub limit : ℤ
  pub cursor : Option LedgerCursor
  pub from_block : Option ℤ
  pub to_block : Option ℤ
  pub holder : Option Text
  pub token_id : Option Text
  pub movement_type : Option Text

pub record LedgerPage (T : Type 0) : Type 0 where
  pub items : List T
  pub next_cursor : Option LedgerCursor

pub data LedgerSort : Type 0 where
  asc desc : LedgerSort

pub record LedgerTransfer : Type 0 where
  pub movement_type : MovementType
  pub operator_address : Option Text
  pub from_address : Option Text
  pub to_address : Option Text
  pub token_id : Text
  pub amount : Text
  pub block_number : ℤ
  pub block_timestamp : Option ℕ
  pub transaction_hash : Text
  pub transaction_index : Option ℤ
  pub log_index : ℤ
  pub batch_index : ℤ

-- `impl From<&LedgerEntryRow> for LedgerCursor`
abbrev pub cursor_of : LedgerEntryRow → LedgerCursor
cursor_of row = record {
  block_number = row.block_number;
  log_index = row.log_index;
  batch_index = row.batch_index;
}

unfoldable pub clamp_limit : ℤ → ℤ
clamp_limit limit =
    if ltb_ℤ limit (pos 1) then pos 1 else if ltb_ℤ (pos 100) limit then pos 100 else limit

unfoldable pub movement_str : MovementType → Text
movement_str mint = codes "mint"
movement_str transfer = codes "transfer"
movement_str burn = codes "burn"

-- The place of the second is past the first, in the order of a page.
unfoldable pub past : LedgerSort → LedgerCursor → LedgerCursor → Bool
past asc cursor row =
    ltb_ℤ cursor.block_number row.block_number
    || (eqb_ℤ cursor.block_number row.block_number && ltb_ℤ cursor.log_index row.log_index)
    || (eqb_ℤ cursor.block_number row.block_number
        && eqb_ℤ cursor.log_index row.log_index
        && ltb_ℤ cursor.batch_index row.batch_index)
past desc cursor row =
    ltb_ℤ row.block_number cursor.block_number
    || (eqb_ℤ row.block_number cursor.block_number && ltb_ℤ row.log_index cursor.log_index)
    || (eqb_ℤ row.block_number cursor.block_number
        && eqb_ℤ row.log_index cursor.log_index
        && ltb_ℤ row.batch_index cursor.batch_index)

-- A filter that is there only for some queries.
abbrev pub where_some {ℓ} : {A : Type ℓ} → Option A → (A → Bool) → Bool
where_some none test = true
where_some (some a) test = test a

-- `column.eq(Some(value))` on a column that may be null.
abbrev pub is_text : Option Text → Text → Bool
is_text none value = false
is_text (some text) value = text_eq text value

-- The filters of a query but for its cursor.
unfoldable pub selected : ℕ → LedgerQuery → LedgerEntryRow → Bool
selected source_id query row =
    (row.source_id == source_id)
    && (not row.orphaned
        && (where_some query.from_block (λ from. leb_ℤ from row.block_number)
            && (where_some query.to_block (λ to. leb_ℤ row.block_number to)
                && (where_some query.holder (λ holder.
                      is_text row.from_address (to_ascii_lowercase holder)
                      || is_text row.to_address (to_ascii_lowercase holder))
                    && (where_some query.token_id (λ token_id. text_eq row.token_id token_id)
                        && where_some query.movement_type (λ kind.
                          text_eq (movement_str row.movement_type) (to_ascii_lowercase kind)))))))

-- `ORDER BY`, as an insertion of each row.
unfoldable pub insert_row : LedgerSort → LedgerEntryRow → List LedgerEntryRow → List LedgerEntryRow
insert_row sort row [] = row ∷ []
insert_row sort row (other ∷ rows) =
    let rest = insert_row sort row rows in
    if past sort (cursor_of other) (cursor_of row) then other ∷ rest else row ∷ other ∷ rows

unfoldable pub order_rows : LedgerSort → List LedgerEntryRow → List LedgerEntryRow
order_rows sort [] = []
order_rows sort (row ∷ rows) = insert_row sort row (order_rows sort rows)

unfoldable pub source_by_contract_conn : LedgerDb → ℤ → Text → Option SourceRow
source_by_contract_conn db chain_id contract_address =
    select_first
      (λ row.
        eqb_ℤ row.chain_id chain_id
        && text_eq row.contract_address (to_ascii_lowercase contract_address))
      db.sources

-- `rows.last().map(LedgerCursor::from)`
unfoldable pub cursor_of_last : Option LedgerEntryRow → Option LedgerCursor
cursor_of_last none = none
cursor_of_last (some row) = some (cursor_of row)

-- The printing of a `BigDecimal` is a parameter.
module _ (amount_string : ℤ → Text) where
  -- `impl From<LedgerEntryRow> for LedgerTransfer`
  unfoldable pub transfer_of : LedgerEntryRow → LedgerTransfer
  transfer_of row = record {
    movement_type = row.movement_type;
    operator_address = row.operator_address;
    from_address = row.from_address;
    to_address = row.to_address;
    token_id = row.token_id;
    amount = amount_string row.amount;
    block_number = row.block_number;
    block_timestamp = row.block_timestamp;
    transaction_hash = row.transaction_hash;
    transaction_index = row.transaction_index;
    log_index = row.log_index;
    batch_index = row.batch_index;
  }

  -- The rows that `LIMIT limit + 1` has loaded, cut to a page.
  unfoldable pub cut_page : ℕ → List LedgerEntryRow → LedgerPage LedgerTransfer
  cut_page limit rows =
      if ltb limit (length rows)
      then record {
        items = map transfer_of (take limit rows);
        next_cursor = cursor_of_last (last (take limit rows));
      }
      else record { items = map transfer_of rows; next_cursor = none }

  unfoldable pub ledger_page_conn :
      LedgerDb → ℕ → LedgerQuery → LedgerSort → LedgerPage LedgerTransfer
  ledger_page_conn db source_id query sort =
      let limit = as_u64 (clamp_limit query.limit) in
      let rows = order_rows sort (
        select
          (λ row.
            selected source_id query row
            && where_some query.cursor (λ cursor. past sort cursor (cursor_of row)))
          db.ledger_entries) in
      cut_page limit (take (limit + 1) rows)

  unfoldable pub transfers_page :
      LedgerDb → ℤ → Text → LedgerQuery → Option (LedgerPage LedgerTransfer)
  transfers_page db chain_id contract_address query =
      elim (source_by_contract_conn db chain_id contract_address) [
        | none ↦ none
        | some source ↦ some (ledger_page_conn db source.id query desc)
      ]

  unfoldable pub token_path_page :
      LedgerDb → ℤ → Text → Text → LedgerQuery → Option (LedgerPage LedgerTransfer)
  token_path_page db chain_id contract_address token_id query =
      elim (source_by_contract_conn db chain_id contract_address) [
        | none ↦ none
        | some source ↦
            some (ledger_page_conn db source.id (record query { token_id = some token_id }) asc)
      ]
