-- ===== src/Domain/Chain.antt =====
-- domain/chain.rs, and the source, the checkpoint and `require_non_empty` of its neighbours. The
-- newtypes of integers are numbers.
use rust_evm_indexer.Base.{
  ℕ, ◌+◌, ◌==◌, Bool, true, false, ◌&&◌, if◌then◌else◌, [], ◌∷◌, Result, ok, err, ◌>>=◌, is_some,
  length, drop, leb, ltb, invalid_address, invalid_hash, empty_value, inverted_range,
  invalid_checkpoint,
}
use rust_evm_indexer.Base.Int.{u64_max}
use rust_evm_indexer.Base.Text.{Text, codes, text_eq, to_ascii_lowercase, strip_prefix, trim}
use rust_evm_indexer.Evm.{TokenStandard}
use rust_evm_indexer.Evm.Words.{is_hex}

abbrev pub ChainId : Type 0
ChainId = ℕ

abbrev pub BlockNumber : Type 0
BlockNumber = ℕ

-- `BlockNumber::next`
unfoldable pub next : BlockNumber → BlockNumber
next block = if block == u64_max then block else block + 1

pub record Address : Type 0 where
  pub as_str : Text

pub record BlockHash : Type 0 where
  pub as_str : Text

pub record TransactionHash : Type 0 where
  pub as_str : Text

pub record NonEmptyId : Type 0 where
  pub as_str : Text

abbrev pub SourceId : Type 0
SourceId = NonEmptyId

abbrev pub is_empty : Text → Bool
is_empty [] = true
is_empty (c ∷ s) = false

unfoldable pub require_non_empty : Text → Result Text
require_non_empty value = if is_empty (trim value) then err empty_value else ok value

-- `NonEmptyId::new`
unfoldable pub new_id : Text → Result NonEmptyId
new_id value = do kept ← require_non_empty value; ok (record { as_str = kept })

abbrev pub all_hex_digits : Text → Bool
all_hex_digits [] = true
all_hex_digits (c ∷ s) = is_hex c && all_hex_digits s

-- What an address and a hash have to be, by their length in bytes.
abbrev is_hex_text : ℕ → Text → Bool
is_hex_text size s =
    length s == size && (is_some (strip_prefix (codes "0x") s) && all_hex_digits (drop 2 s))

unfoldable pub validate_hex_hash : Text → Result Text
validate_hex_hash value =
    let normalized = to_ascii_lowercase value in
    if is_hex_text 66 normalized then ok normalized else err invalid_hash

-- `BlockHash::new`
unfoldable pub new_block_hash : Text → Result BlockHash
new_block_hash value = do normalized ← validate_hex_hash value; ok (record { as_str = normalized })

-- `TransactionHash::new`
unfoldable pub new_transaction_hash : Text → Result TransactionHash
new_transaction_hash value = do
  normalized ← validate_hex_hash value
  ok (record { as_str = normalized })

-- `Address::new`
unfoldable pub new_address : Text → Result Address
new_address value =
    let normalized = to_ascii_lowercase value in
    if is_hex_text 42 normalized then ok (record { as_str = normalized }) else err invalid_address

-- `Address::zero`
abbrev pub zero_address : Address
zero_address = record { as_str = codes "0x0000000000000000000000000000000000000000" }

unfoldable pub is_zero : Address → Bool
is_zero address = text_eq address.as_str zero_address.as_str

pub record BlockRef : Type 0 where
  pub chain_id : ChainId
  pub number : BlockNumber
  pub hash : BlockHash

pub record BlockRange : Type 0 where
  pub from : BlockNumber
  pub to : BlockNumber

-- `BlockRange::new`
unfoldable pub new_range : BlockNumber → BlockNumber → Result BlockRange
new_range from to = if ltb to from then err inverted_range else ok (record { from = from; to = to })

unfoldable pub contains : BlockRange → BlockNumber → Bool
contains range block = leb range.from block && leb block range.to

pub record Source : Type 0 where
  pub id : SourceId
  pub chain_id : ChainId
  pub name : Text
  pub contract_address : Address
  pub token_standard : TokenStandard
  pub start_block : BlockNumber
  pub enabled : Bool

-- `Source::new`
unfoldable pub new_source :
    SourceId → ChainId → Text → Address → TokenStandard → BlockNumber → Bool → Result Source
new_source id chain_id name contract_address token_standard start_block enabled = do
  kept ← require_non_empty name
  ok record {
    id = id;
    chain_id = chain_id;
    name = kept;
    contract_address = contract_address;
    token_standard = token_standard;
    start_block = start_block;
    enabled = enabled;
  }

pub record Checkpoint : Type 0 where
  pub source_id : SourceId
  pub processed : BlockRef
  pub finalized_block : BlockNumber

-- `Checkpoint::new`
unfoldable pub new_checkpoint : SourceId → BlockRef → BlockNumber → Result Checkpoint
new_checkpoint source_id processed finalized_block =
    if ltb finalized_block processed.number
    then err invalid_checkpoint
    else ok
        record { source_id = source_id; processed = processed; finalized_block = finalized_block }
