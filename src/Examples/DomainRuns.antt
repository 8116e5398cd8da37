-- ===== src/Examples/DomainRuns.antt =====
-- A mint that the domain accepts, and the keys of two ranges.
use rust_evm_indexer.Base.{◌≡◌, refl, ◌⊎◌, ok, err, none, is_some, [], true, ◌||◌, both_zero}
use rust_evm_indexer.Base.Text.{Text, codes, to_ascii_lowercase, strip_prefix, trim}
use rust_evm_indexer.Base.Decimal.{decimal}
use rust_evm_indexer.Evm.{erc20}
use rust_evm_indexer.Ledger.Rows.{non_zero_address}
use rust_evm_indexer.Domain.Chain.{
  Address, SourceId, BlockRange, new_address, new_id, require_non_empty,
}
use rust_evm_indexer.Domain.Event.{LedgerEntry, LedgerEntryInput, new_ledger_entry}
use rust_evm_indexer.Domain.Entries.{Agrees, new_ledger_entry_lem}
use rust_evm_indexer.Domain.Keys.{IdempotencyKey, ingest_key, ingest_key_inj}

abbrev nobody : Text
nobody = codes "0x0000000000000000000000000000000000000000"

abbrev holder : Text
holder = codes "0x00000000000000000000000000000000000000aA"

abbrev address : Text → Address
address text = record { as_str = text }

abbrev mint_input : LedgerEntryInput
mint_input = record {
  identity = record {
    event = record {
      chain_id = 1;
      transaction_hash = record { as_str = codes "0x33" };
      log_index = 7;
    };
    batch_index = 0;
  };
  source_id = record { as_str = codes "source-1" };
  token_standard = erc20;
  operator = none;
  from = address nobody;
  to = address (codes "0x00000000000000000000000000000000000000aa");
  token_id = record { as_str = [] };
  amount = record { as_str = codes "5" };
  block_number = 100;
  block_hash = record { as_str = codes "0x44" };
  contract_address = address (codes "0x0000000000000000000000000000000000000066");
}

nobody_accepted : new_address nobody ≡ ok mint_input.from
unfolding new_address to_ascii_lowercase strip_prefix
nobody_accepted = refl

holder_accepted : new_address holder ≡ ok mint_input.to
unfolding new_address to_ascii_lowercase strip_prefix
holder_accepted = refl

new_ledger_entry_lem_example :
    ((non_zero_address nobody ≡ none)
      × (non_zero_address holder ≡ none)
      × (new_ledger_entry mint_input ≡ err both_zero))
    ⊎ ((is_some (non_zero_address nobody) || is_some (non_zero_address holder) ≡ true)
        × ((entry : LedgerEntry) × (new_ledger_entry mint_input ≡ ok entry)
            × Agrees nobody holder entry))
new_ledger_entry_lem_example =
    new_ledger_entry_lem nobody holder mint_input nobody_accepted holder_accepted

abbrev source_one : SourceId
source_one = record { as_str = codes "source-1" }

-- An id that reads like the beginning of another key.
abbrev source_colon : SourceId
source_colon = record { as_str = codes "source-1:5" }

abbrev five_to_ten : BlockRange
five_to_ten = record { from = 5; to = 10 }

ingest_key_demo :
    ingest_key source_one five_to_ten ≡ ok (record { as_str = codes "ingest:source-1:5:10" })
unfolding ingest_key new_id require_non_empty trim decimal
ingest_key_demo = refl

ingest_key_inj_example :
    ((key : IdempotencyKey) × (ingest_key source_one five_to_ten ≡ ok key))
    × (ingest_key source_one five_to_ten ≡ ingest_key source_colon five_to_ten
        → (source_one ≡ source_colon) × (five_to_ten ≡ five_to_ten))
ingest_key_inj_example = ingest_key_inj source_one source_colon five_to_ten five_to_ten
