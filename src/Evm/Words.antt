-- ===== src/Evm/Words.antt =====
-- The 32-byte words of topics and data (application/evm.rs). A cut of a text off a
-- boundary of a character panics.
use rust_evm_indexer.Base.{
  ℕ, zero, suc, ◌+◌, ◌-◌, ◌*◌, ◌/◌, ◌%◌, ◌≡◌, ◌≢◌, true, ltb, ◌==◌, not, Bool, ◌&&◌, ◌||◌, leb,
  List, [], ◌∷◌, ◌++◌, Option, Result, ok, ◌>>=◌, ◌>>◌, fail_if, or_err, length, get_elem?, take,
  drop, All, bad_length, bad_word, missing_word, offset_unaligned, bad_topic_count, panicked,
  unparsable,
}
use rust_evm_indexer.Base.Int.{u64_max}
use rust_evm_indexer.Base.Text.{Text, codes, to_ascii_lowercase, is_utf8, is_char_boundary}
use rust_evm_indexer.Base.Decimal.{decimal, parse_digits, from_str_radix}
use rust_evm_indexer.Evm.{RpcLog, strip_0x, strip_optional_0x}

-- A hexadecimal digit.
abbrev pub is_hex : ℕ → Bool
is_hex c = (leb b'0' c && leb c b'9') || (leb b'a' c && leb c b'f') || (leb b'A' c && leb c b'F')

abbrev pub IsHex : ℕ → Type 0
IsHex c = is_hex c ≡ true

-- What the source uses of `BigUint`: `parse_bytes` in base 16 and `to_string`.
pub record BigUints : Type 0 where
  pub parse_bytes : Text → Option ℕ
  pub to_string : ℕ → Text
  pub parse_bytes_hex : (s : Text) → s ≢ [] → All IsHex s → parse_bytes s ≡ parse_digits 16 0 s
  pub to_string_decimal : (n : ℕ) → to_string n ≡ decimal n

unfoldable pub require_topic_count : RpcLog → ℕ → Result (Unit {0})
require_topic_count log expected = fail_if (not (length log.topics == expected)) bad_topic_count

-- `&log.topics[index]`
unfoldable pub topic_at : RpcLog → ℕ → Result Text
topic_at log index = or_err (get_elem? log.topics index) panicked

-- `&s[start..end]`, which panics off a boundary of a character.
unfoldable pub slice : Text → ℕ → ℕ → Result Text
slice s start end = do
  fail_if (not (is_char_boundary s start && is_char_boundary s end)) panicked
  ok (take (end - start) (drop start s))

unfoldable pub topic_address : Text → Result Text
topic_address topic = do
  digits ← strip_0x topic
  fail_if (not (length digits == 64)) bad_length
  address ← slice digits 24 64
  ok (to_ascii_lowercase (codes "0x" ++ address))

unfoldable pub word_at : Text → ℕ → Result Text
word_at payload index = do
  digits ← strip_0x payload
  fail_if (ltb (length digits) (index * 64 + 64)) missing_word
  slice digits (index * 64) (index * 64 + 64)

-- `chunks`: a piece takes at least one byte, so the length is fuel enough.
unfoldable pub chunks_loop : ℕ → ℕ → Text → List Text
chunks_loop zero size s = []
chunks_loop (suc fuel) size [] = []
chunks_loop (suc fuel) size (c ∷ s) = take size (c ∷ s) ∷ chunks_loop fuel size (drop size (c ∷ s))

unfoldable pub chunks : ℕ → Text → List Text
unfolding chunks_loop
chunks size s = chunks_loop (length s) size s

abbrev pub all_utf8 : List Text → Bool
all_utf8 [] = true
all_utf8 (piece ∷ pieces) = is_utf8 piece && all_utf8 pieces

-- A piece that is not UTF-8 makes `expect` panic.
unfoldable pub decode_data_words : Text → Result (List Text)
decode_data_words payload = do
  digits ← strip_0x payload
  fail_if (not (length digits % 64 == 0)) bad_length
  fail_if (not (all_utf8 (chunks 64 digits))) panicked
  ok (chunks 64 digits)

unfoldable pub data_word_count : Text → Result ℕ
data_word_count payload = do
  digits ← strip_0x payload
  fail_if (not (length digits % 64 == 0)) bad_length
  ok (length digits / 64)

module _ (big : BigUints) where
  unfoldable pub decode_word_as_decimal : Text → Result Text
  decode_word_as_decimal word =
      let digits = strip_optional_0x word in
      do
        fail_if (not (length digits == 64)) bad_length
        value ← or_err (big.parse_bytes digits) bad_word
        ok (big.to_string value)

  unfoldable pub word_decimal_as_usize : Text → Result ℕ
  word_decimal_as_usize word = do
    value ← decode_word_as_decimal word
    or_err (from_str_radix u64_max 10 value) unparsable

  -- `(0..len).map(…).collect()`: the first item that fails ends it.
  unfoldable pub decode_items : List Text → ℕ → ℕ → Result (List Text)
  decode_items words start zero = ok []
  decode_items words start (suc len) = do
    word ← or_err (get_elem? words start) missing_word
    item ← decode_word_as_decimal word
    items ← decode_items words (suc start) len
    ok (item ∷ items)

  unfoldable pub decode_dynamic_uint_array : List Text → ℕ → Result (List Text)
  decode_dynamic_uint_array words offset_bytes = do
    fail_if (not (offset_bytes % 32 == 0)) offset_unaligned
    len_word ← or_err (get_elem? words (offset_bytes / 32)) missing_word
    len ← word_decimal_as_usize len_word
    decode_items words (offset_bytes / 32 + 1) len
