-- ===== src/Evm.antt =====
-- application/evm.rs: the logs of an EVM node, their token standards, and their hex numbers.
pub mod Words
pub mod Encoding
pub mod Arrays
pub mod Batch
pub mod RoundTrip
pub mod Multi
pub mod Calm
pub mod Panics
pub mod Decode
use rust_evm_indexer.Base.{
  ℕ, Bool, true, false, List, Option, none, some, if◌then◌else◌, Result, ok, err, ◌>>=◌, or_err,
  missing_prefix, unparsable, unsupported_standard,
}
use rust_evm_indexer.Base.Int.{ℤ, u64_max}
use rust_evm_indexer.Base.Text.{Text, codes, text_eq, to_ascii_lowercase, strip_prefix}
use rust_evm_indexer.Base.Decimal.{from_str_radix}

pub data TokenStandard : Type 0 where
  auto erc20 erc721 erc1155 : TokenStandard

-- `TokenStandard::as_str`
unfoldable pub standard_str : TokenStandard → Text
standard_str auto = codes "auto"
standard_str erc20 = codes "erc20"
standard_str erc721 = codes "erc721"
standard_str erc1155 = codes "erc1155"

-- `TokenStandard::is_auto`
unfoldable pub is_auto : TokenStandard → Bool
is_auto auto = true
is_auto _ = false

-- `TokenStandard::from_str`
unfoldable pub parse_standard : Text → Result TokenStandard
parse_standard value =
    let lower = to_ascii_lowercase value in
    if text_eq lower (codes "auto")
    then ok auto
    else if text_eq lower (codes "erc20")
    then ok erc20
    else if text_eq lower (codes "erc721")
    then ok erc721
    else if text_eq lower (codes "erc1155")
    then ok erc1155
    else err unsupported_standard

-- A `DateTime` is a number.
pub record RpcLog : Type 0 where
  pub address : Text
  pub topics : List Text
  pub payload : Text
  pub block_number : Text
  pub transaction_hash : Text
  pub transaction_index : Option Text
  pub log_index : Text
  pub block_hash : Text
  pub block_timestamp : Option ℕ

pub record DecodedLedgerEntry : Type 0 where
  pub event_name : Text
  pub token_standard : TokenStandard
  pub operator : Option Text
  pub from : Text
  pub to : Text
  pub token_id : Text
  pub amount : Text
  pub batch_index : ℤ

pub record DecodedLog : Type 0 where
  pub event_name : Text
  pub entries : List DecodedLedgerEntry

unfoldable pub strip_0x : Text → Result Text
strip_0x value = elim (strip_prefix (codes "0x") value) [
  | some rest ↦ ok rest
  | none ↦ or_err (strip_prefix (codes "0X") value) missing_prefix
]

unfoldable pub strip_optional_0x : Text → Text
strip_optional_0x value = elim (strip_prefix (codes "0x") value) [
  | some rest ↦ rest
  | none ↦ elim (strip_prefix (codes "0X") value) [ some rest ↦ rest | none ↦ value ]
]

unfoldable pub parse_hex_u64 : Text → Result ℕ
parse_hex_u64 value = do
  digits ← strip_0x value
  or_err (from_str_radix u64_max 16 digits) unparsable
