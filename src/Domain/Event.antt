-- ===== src/Domain/Event.antt =====
-- domain/event.rs: the identities of events and entries, token ids and amounts, and the ledger
-- entry. The kinds of movement and the token standards are those of the tables.
use rust_evm_indexer.Base.{
  ℕ, Bool, true, not, ◌&&◌, ◌||◌, if◌then◌else◌, [], ◌∷◌, Option, none, some, Result, ok, err,
  ◌>>=◌, leb, invalid_amount, empty_value, both_zero,
}
use rust_evm_indexer.Base.Text.{Text, trim}
use rust_evm_indexer.Evm.{TokenStandard}
use rust_evm_indexer.Ledger.Rows.{MovementType, mint, transfer, burn}
use rust_evm_indexer.Domain.Chain.{
  Address, BlockHash, TransactionHash, SourceId, ChainId, BlockNumber, is_empty, is_zero,
}

abbrev pub LogIndex : Type 0
LogIndex = ℕ

abbrev pub BatchIndex : Type 0
BatchIndex = ℕ

pub record TokenId : Type 0 where
  pub as_str : Text

-- `TokenId::new`
unfoldable pub new_token_id : Text → Result TokenId
new_token_id value =
    if is_empty (trim value) then err empty_value else ok (record { as_str = value })

pub record TokenAmount : Type 0 where
  pub as_str : Text

abbrev all_digits : Text → Bool
all_digits [] = true
all_digits (c ∷ s) = (leb b'0' c && leb c b'9') && all_digits s

-- `TokenAmount::new`
unfoldable pub new_amount : Text → Result TokenAmount
new_amount value =
    if is_empty value || not (all_digits value)
    then err invalid_amount
    else ok (record { as_str = value })

pub record EventIdentity : Type 0 where
  pub chain_id : ChainId
  pub transaction_hash : TransactionHash
  pub log_index : LogIndex

pub record LedgerEntryIdentity : Type 0 where
  pub event : EventIdentity
  pub batch_index : BatchIndex

-- `MovementType::from_participants`
unfoldable pub from_participants : Address → Address → Result MovementType
from_participants from to =
    if is_zero from
    then (if is_zero to then err both_zero else ok mint)
    else if is_zero to
    then ok burn
    else ok transfer

pub record LedgerEntry : Type 0 where
  pub identity : LedgerEntryIdentity
  pub source_id : SourceId
  pub token_standard : TokenStandard
  pub movement_type : MovementType
  pub operator : Option Address
  pub from : Option Address
  pub to : Option Address
  pub token_id : TokenId
  pub amount : TokenAmount
  pub block_number : BlockNumber
  pub block_hash : BlockHash
  pub contract_address : Address

pub record LedgerEntryInput : Type 0 where
  pub identity : LedgerEntryIdentity
  pub source_id : SourceId
  pub token_standard : TokenStandard
  pub operator : Option Address
  pub from : Address
  pub to : Address
  pub token_id : TokenId
  pub amount : TokenAmount
  pub block_number : BlockNumber
  pub block_hash : BlockHash
  pub contract_address : Address

-- `(!address.is_zero()).then_some(address)`
unfoldable pub unless_zero : Address → Option Address
unless_zero address = if is_zero address then none else some address

abbrev pub entry_of : LedgerEntryInput → MovementType → LedgerEntry
entry_of input movement_type = record {
  identity = input.identity;
  source_id = input.source_id;
  token_standard = input.token_standard;
  movement_type = movement_type;
  operator = input.operator;
  from = unless_zero input.from;
  to = unless_zero input.to;
  token_id = input.token_id;
  amount = input.amount;
  block_number = input.block_number;
  block_hash = input.block_hash;
  contract_address = input.contract_address;
}

-- `LedgerEntry::new`
unfoldable pub new_ledger_entry : LedgerEntryInput → Result LedgerEntry
new_ledger_entry input = do
  movement_type ← from_participants input.from input.to
  ok (entry_of input movement_type)
