-- ===== src/Ledger/Balances.antt =====
-- The materialised balances: `collect_balance_delta`, `apply_balance_delta` and
-- `apply_holder_balance_delta`. They touch the table `token_balances` alone.
pub mod Effect
pub mod Moves
use rust_evm_indexer.Base.{
  ℕ, Bool, true, false, ◌&&◌, not, List, [], ◌∷◌, ◌++◌, Option, none, some, ◌==◌, if◌then◌else◌,
  select_first, update_first, Result, ok, err, ◌>>=◌, negative_balance,
}
use rust_evm_indexer.Base.Int.{ℤ, pos, ◌+ℤ◌, ◌-ℤ◌, ltb_ℤ, eqb_ℤ}
use rust_evm_indexer.Base.Text.{Text, text_eq, text_le}
use rust_evm_indexer.Ports.{SourceRef}
use rust_evm_indexer.Ledger.Rows.{
  LedgerEntryRow, TokenBalanceRow, min_optional_block, max_optional_block,
}

pub record BalanceDelta : Type 0 where
  pub balance_delta : ℤ
  pub first_received_block : Option ℤ
  pub last_moved_block : Option ℤ

-- `BalanceDelta::default`
abbrev pub no_delta : BalanceDelta
no_delta = record { balance_delta = pos 0; first_received_block = none; last_moved_block = none }

-- An entry of the `HashMap` from holder and token to a delta.
pub record DeltaEntry : Type 0 where
  pub holder_address : Text
  pub token_id : Text
  pub delta : BalanceDelta

abbrev pub is_entry : Text → Text → DeltaEntry → Bool
is_entry holder_address token_id e =
    text_eq e.holder_address holder_address && text_eq e.token_id token_id

-- `deltas.entry(key).or_default()`, with the change that is then made to it.
unfoldable pub change_entry :
    Text → Text → (BalanceDelta → BalanceDelta) → List DeltaEntry → List DeltaEntry
change_entry holder_address token_id change [] =
    record { holder_address = holder_address; token_id = token_id; delta = change no_delta } ∷ []
change_entry holder_address token_id change (e ∷ es) =
    let rest = change_entry holder_address token_id change es in
    if is_entry holder_address token_id e
    then record e { delta = change e.delta } ∷ es
    else e ∷ rest

-- What a row takes from its sender and gives to its receiver; `amount` has the sign of `reverse`.
unfoldable pub debit : LedgerEntryRow → Bool → ℤ → BalanceDelta → BalanceDelta
debit row reverse amount delta = record delta {
  balance_delta = delta.balance_delta -ℤ amount;
  last_moved_block =
      if reverse
      then delta.last_moved_block
      else max_optional_block delta.last_moved_block (some row.block_number);
}

unfoldable pub credit : LedgerEntryRow → Bool → ℤ → BalanceDelta → BalanceDelta
credit row reverse amount delta = record delta {
  balance_delta = delta.balance_delta +ℤ amount;
  first_received_block =
      if reverse
      then delta.first_received_block
      else min_optional_block delta.first_received_block (some row.block_number);
  last_moved_block =
      if reverse
      then delta.last_moved_block
      else max_optional_block delta.last_moved_block (some row.block_number);
}

abbrev pub change_party :
    Option Text → Text → (BalanceDelta → BalanceDelta) → List DeltaEntry → List DeltaEntry
change_party none token_id change deltas = deltas
change_party (some holder) token_id change deltas = change_entry holder token_id change deltas

unfoldable pub collect_balance_delta : List DeltaEntry → LedgerEntryRow → Bool → List DeltaEntry
collect_balance_delta deltas row reverse =
    let amount = if reverse then pos 0 -ℤ row.amount else row.amount in
    change_party row.to_address row.token_id (credit row reverse amount)
      (change_party row.from_address row.token_id (debit row reverse amount) deltas)

-- The order of `sort_by`: by holder, then by token.
abbrev pub entry_le : DeltaEntry → DeltaEntry → Bool
entry_le a b =
    if text_eq a.holder_address b.holder_address
    then text_le a.token_id b.token_id
    else text_le a.holder_address b.holder_address

unfoldable pub insert_delta : DeltaEntry → List DeltaEntry → List DeltaEntry
insert_delta e [] = e ∷ []
insert_delta e (f ∷ fs) =
    let rest = insert_delta e fs in if entry_le e f then e ∷ f ∷ fs else f ∷ rest

unfoldable pub sort_deltas : List DeltaEntry → List DeltaEntry
sort_deltas [] = []
sort_deltas (e ∷ es) = insert_delta e (sort_deltas es)

-- The unique key of `token_balances`.
abbrev pub is_balance : ℕ → Text → Text → TokenBalanceRow → Bool
is_balance source_id holder_address token_id row =
    row.source_id == source_id
    && (text_eq row.holder_address holder_address && text_eq row.token_id token_id)

abbrev pub balance_or_zero : Option TokenBalanceRow → ℤ
balance_or_zero none = pos 0
balance_or_zero (some row) = row.balance

abbrev pub optional_block : (TokenBalanceRow → Option ℤ) → Option TokenBalanceRow → Option ℤ
optional_block field none = none
optional_block field (some row) = field row

-- The write behind the check: an update of the row that was there, or an insert if it is not zero.
unfoldable pub store_balance :
    SourceRef
    → Text
    → Text
    → ℤ
    → Option ℤ
    → Option ℤ
    → Option TokenBalanceRow
    → List TokenBalanceRow
    → List TokenBalanceRow
store_balance source holder_address token_id next_balance first_received last_moved (some _) rows =
    update_first (is_balance source.id holder_address token_id)
      (λ row. record row {
        balance = next_balance;
        first_received_block = first_received;
        last_moved_block = last_moved;
      })
      rows
store_balance source holder_address token_id next_balance first_received last_moved none rows =
    if eqb_ℤ next_balance (pos 0)
    then rows
    else (rows
        ++ record {
          source_id = source.id;
          chain_id = source.chain_id;
          contract_address = source.contract_address;
          token_standard = source.token_standard;
          holder_address = holder_address;
          token_id = token_id;
          balance = next_balance;
          first_received_block = first_received;
          last_moved_block = last_moved;
        }
          ∷ [])

unfoldable pub apply_holder_balance_delta :
    SourceRef → Text → Text → BalanceDelta → List TokenBalanceRow → Result (List TokenBalanceRow)
apply_holder_balance_delta source holder_address token_id delta rows =
    let existing = select_first (is_balance source.id holder_address token_id) rows in
    let next_balance = balance_or_zero existing +ℤ delta.balance_delta in
    if ltb_ℤ next_balance (pos 0)
    then err negative_balance
    else ok (
        store_balance source holder_address token_id next_balance
          (min_optional_block (optional_block (λ row. row.first_received_block) existing)
            delta.first_received_block)
          (max_optional_block (optional_block (λ row. row.last_moved_block) existing)
            delta.last_moved_block)
          existing rows)

-- The `for` loop over the sorted deltas.
unfoldable pub apply_deltas :
    SourceRef → List DeltaEntry → List TokenBalanceRow → Result (List TokenBalanceRow)
apply_deltas source [] rows = ok rows
apply_deltas source (e ∷ es) rows = do
  rows' ← apply_holder_balance_delta source e.holder_address e.token_id e.delta rows
  apply_deltas source es rows'

-- What the previous row contributed is taken back, unless there is none or it is orphaned.
unfoldable pub collect_previous : Option LedgerEntryRow → List DeltaEntry
collect_previous none = []
collect_previous (some row) = if row.orphaned then [] else collect_balance_delta [] row true

unfoldable pub collect_current : LedgerEntryRow → List DeltaEntry → List DeltaEntry
collect_current row deltas = if row.orphaned then deltas else collect_balance_delta deltas row false

unfoldable pub apply_balance_delta :
    SourceRef
    → Option LedgerEntryRow
    → LedgerEntryRow
    → List TokenBalanceRow
    → Result (List TokenBalanceRow)
apply_balance_delta source previous current rows =
    apply_deltas source (sort_deltas (collect_current current (collect_previous previous))) rows
