-- ===== src/Api.antt =====
-- api/mod.rs: the checks of a request, the cursors in its text, and the handlers of the pages. A
-- `BadRequest` is the error `bad_request`, a `NotFound` is `not_found`; every other is `Internal`.
pub mod Cursor
pub mod Requests
pub mod Paging
use rust_evm_indexer.Base.{
  ℕ, ◌+◌, ◌==◌, Bool, true, false, not, ◌&&◌, ◌||◌, if◌then◌else◌, List, [], ◌∷◌, ◌++◌, Option,
  none, some, Result, ok, err, ◌>>=◌, ◌>>◌, fail_if, or_err, is_some, length, drop, bad_request,
  not_found,
}
use rust_evm_indexer.Base.Int.{ℤ, pos, ltb_ℤ, leb_ℤ, i64_max, i32_max}
use rust_evm_indexer.Base.Text.{Text, codes, text_eq, to_ascii_lowercase, strip_prefix}
use rust_evm_indexer.Base.Signed.{signed_decimal, parse_signed, split}
use rust_evm_indexer.Evm.Words.{is_hex}
use rust_evm_indexer.Ledger.Rows.{LedgerDb}
use rust_evm_indexer.Ledger.Page.{
  LedgerCursor, LedgerQuery, LedgerPage, LedgerTransfer, transfers_page, token_path_page,
}

pub record LedgerPageQuery : Type 0 where
  pub limit : Option ℤ
  pub cursor : Option Text
  pub from_block : Option ℤ
  pub to_block : Option ℤ
  pub holder : Option Text
  pub token_id : Option Text
  pub movement_type : Option Text

pub record PageResponse (T : Type 0) : Type 0 where
  pub items : List T
  pub next_cursor : Option Text

abbrev all_hex : Text → Bool
all_hex [] = true
all_hex (c ∷ s) = is_hex c && all_hex s

-- `normalize_evm_address`, behind `normalize_contract_address` and `normalize_holder_address`.
unfoldable pub normalize_evm_address : Text → Result Text
normalize_evm_address value =
    let normalized = to_ascii_lowercase value in
    if not (length normalized == 42)
      || (not (is_some (strip_prefix (codes "0x") normalized)) || not (all_hex (drop 2 normalized)))
    then err bad_request
    else ok normalized

unfoldable pub limit_or_default : Option ℤ → ℤ → Result ℤ
limit_or_default requested default =
    let limit : ℤ = elim requested [ none ↦ default | some value ↦ value ] in
    if leb_ℤ (pos 1) limit && leb_ℤ limit (pos 100) then ok limit else err bad_request

-- The three numbers of a cursor, once its text is split.
unfoldable pub parse_parts : List Text → Result LedgerCursor
parse_parts (block ∷ log ∷ batch ∷ []) = do
  block_number ← or_err (parse_signed i64_max block) bad_request
  log_index ← or_err (parse_signed i32_max log) bad_request
  batch_index ← or_err (parse_signed i32_max batch) bad_request
  fail_if (ltb_ℤ block_number (pos 0) || (ltb_ℤ log_index (pos 0) || ltb_ℤ batch_index (pos 0)))
      bad_request
  ok record { block_number = block_number; log_index = log_index; batch_index = batch_index }
parse_parts _ = err bad_request

unfoldable pub parse_cursor : Text → Result LedgerCursor
parse_cursor value = parse_parts (split value b':')

unfoldable pub encode_cursor : LedgerCursor → Text
encode_cursor cursor =
    signed_decimal cursor.block_number
    ++ b':' ∷ (signed_decimal cursor.log_index ++ b':' ∷ signed_decimal cursor.batch_index)

unfoldable pub normalize_movement_type : Text → Result Text
normalize_movement_type value =
    let lower = to_ascii_lowercase value in
    if text_eq lower (codes "mint")
      || (text_eq lower (codes "transfer") || text_eq lower (codes "burn"))
    then ok lower
    else err bad_request

-- `map(…).transpose()?`
abbrev pub transpose : {A B : Type 0} → (A → Result B) → Option A → Result (Option B)
transpose read none = ok none
transpose read (some a) = read a >>= λ b. ok (some b)

abbrev pub is_negative : Option ℤ → Bool
is_negative none = false
is_negative (some block) = ltb_ℤ block (pos 0)

abbrev pub is_inverted : Option ℤ → Option ℤ → Bool
is_inverted (some from) (some to) = ltb_ℤ to from
is_inverted (some from) none = false
is_inverted none to = false

unfoldable pub to_ledger_query : LedgerPageQuery → ℤ → Result LedgerQuery
to_ledger_query query default_limit = do
  limit ← limit_or_default query.limit default_limit
  fail_if (is_negative query.from_block) bad_request
  fail_if (is_negative query.to_block) bad_request
  fail_if (is_inverted query.from_block query.to_block) bad_request
  cursor ← transpose parse_cursor query.cursor
  holder ← transpose normalize_evm_address query.holder
  movement_type ← transpose normalize_movement_type query.movement_type
  ok record {
    limit = limit;
    cursor = cursor;
    from_block = query.from_block;
    to_block = query.to_block;
    holder = holder;
    token_id = query.token_id;
    movement_type = movement_type;
  }

-- `impl From<LedgerPage<T>> for PageResponse<T>`
unfoldable pub page_response : {T : Type 0} → LedgerPage T → PageResponse T
page_response page = record {
  items = page.items;
  next_cursor = elim page.next_cursor [ none ↦ none | some cursor ↦ some (encode_cursor cursor) ];
}

module _ (amount_string : ℤ → Text) (db : LedgerDb) where
  unfoldable pub contract_transfers :
      ℤ → Text → LedgerPageQuery → Result (PageResponse LedgerTransfer)
  contract_transfers chain_id contract_address query = do
    address ← normalize_evm_address contract_address
    checked ← to_ledger_query query (pos 50)
    page ← or_err (transfers_page amount_string db chain_id address checked) not_found
    ok (page_response page)

  unfoldable pub token_path :
      ℤ → Text → Text → LedgerPageQuery → Result (PageResponse LedgerTransfer)
  token_path chain_id contract_address token_id query = do
    address ← normalize_evm_address contract_address
    checked ← to_ledger_query query (pos 100)
    page ← or_err (token_path_page amount_string db chain_id address token_id checked) not_found
    ok (page_response page)
