-- ===== src/Examples/DecodeRuns.antt =====
-- Logs of the three standards, decoded with a digest that tells signatures apart by their text.
use rust_evm_indexer.Base.{
  ℕ, zero, suc, ◌≡◌, ◌≢◌, Bool, true, ◌&&◌, ltb, panicked, refl, List, [], ◌∷◌, ◌++◌, none, some,
  ok, err, All, hybrid_transfer, arith,
}
use rust_evm_indexer.Base.Text.{
  Text, codes, text_eq, to_ascii_lowercase, lowercase_idem, to_lower, strip_prefix, is_utf8,
}
use rust_evm_indexer.Base.Decimal.{decimal, parse_digits}
use rust_evm_indexer.Evm.{
  RpcLog, DecodedLog, auto, erc20, erc721, erc1155, is_auto, standard_str, strip_0x,
}
use rust_evm_indexer.Evm.Words.{BigUints, IsHex, require_topic_count, decode_data_words, chunks}
use rust_evm_indexer.Evm.Decode.{
  Keccak, transfer_signature, single_signature, batch_signature, event_topic, transfer_log,
  single_log, decode_log, decode_as, decode_event, standard_eq, decode_transfer_batch,
}
use rust_evm_indexer.Evm.Encoding.{hex_word, address_topic, joined}
use rust_evm_indexer.Evm.RoundTrip.{address_text, decode_log-erc20, decode_log-erc721}
use rust_evm_indexer.Evm.Batch.{numbered, batch_words}
use rust_evm_indexer.Evm.Multi.{party_topics, decode_log-single, decode_log-batch}

abbrev pub demo_keccak : Keccak
unfolding to_ascii_lowercase to_lower text_eq
demo_keccak = record {
  hex_digest = to_ascii_lowercase;
  hex_digest_lower = lowercase_idem;
  transfer_apart_single = refl;
  transfer_apart_batch = refl;
  single_apart_transfer = refl;
  batch_apart_transfer = refl;
  batch_apart_single = refl;
}

pub hex_read : (s : Text) → s ≢ [] → All IsHex s → parse_digits 16 0 s ≡ parse_digits 16 0 s
hex_read s h k = refl

abbrev pub demo_numbers : BigUints
demo_numbers = record {
  parse_bytes = λ s. parse_digits 16 0 s;
  to_string = decimal;
  parse_bytes_hex = hex_read;
  to_string_decimal = λ n. refl;
}

abbrev alice : Text
alice = codes "00000000000000000000000000000000000000AA"

abbrev bob : Text
bob = codes "00000000000000000000000000000000000000bb"

abbrev carol : Text
carol = codes "00000000000000000000000000000000000000cc"

abbrev log_of : List Text → Text → RpcLog
log_of topics payload = record {
  address = codes "0x01";
  topics = topics;
  payload = payload;
  block_number = codes "0x1";
  transaction_hash = codes "0xAA";
  transaction_index = none;
  log_index = codes "0x0";
  block_hash = codes "0xBB";
  block_timestamp = none;
}

abbrev pub coin_log : RpcLog
coin_log =
    log_of
      (event_topic demo_keccak transfer_signature ∷ address_topic alice ∷ address_topic bob ∷ [])
      (codes "0x" ++ hex_word 1000)

decode_log-erc20_example :
    let decoded = transfer_log erc20 (address_text alice) (address_text bob) [] (decimal 1000) in
    (decode_log demo_keccak demo_numbers coin_log erc20 ≡ ok (some decoded))
    × (decode_log demo_keccak demo_numbers coin_log auto ≡ ok (some decoded))
    × (decode_log demo_keccak demo_numbers coin_log erc721 ≡ err hybrid_transfer)
    × (decode_log demo_keccak demo_numbers coin_log erc1155 ≡ ok none)
decode_log-erc20_example =
    decode_log-erc20 demo_keccak demo_numbers coin_log alice bob 1000 refl refl refl refl
      (omega arith)

abbrev art_log : RpcLog
art_log =
    log_of
      (event_topic demo_keccak transfer_signature
        ∷ address_topic alice
        ∷ address_topic bob
        ∷ (codes "0x" ++ hex_word 42)
        ∷ [])
      (codes "0x")

decode_log-erc721_example :
    let decoded =
      transfer_log erc721 (address_text alice) (address_text bob) (decimal 42) (codes "1") in
    (decode_log demo_keccak demo_numbers art_log erc721 ≡ ok (some decoded))
    × (decode_log demo_keccak demo_numbers art_log auto ≡ ok (some decoded))
    × (decode_log demo_keccak demo_numbers art_log erc20 ≡ err hybrid_transfer)
    × (decode_log demo_keccak demo_numbers art_log erc1155 ≡ ok none)
decode_log-erc721_example =
    decode_log-erc721 demo_keccak demo_numbers art_log alice bob 42 refl refl refl refl
      (omega arith)

abbrev item_log : RpcLog
item_log =
    log_of (party_topics (event_topic demo_keccak single_signature) carol alice bob)
      (codes "0x" ++ (hex_word 7 ++ hex_word 3))

decode_log-single_example :
    let decoded =
      single_log
        (address_text carol)
        (address_text alice)
        (address_text bob)
        (decimal 7)
        (decimal 3) in
    (decode_log demo_keccak demo_numbers item_log erc1155 ≡ ok (some decoded))
    × (decode_log demo_keccak demo_numbers item_log auto ≡ ok (some decoded))
decode_log-single_example =
    decode_log-single demo_keccak demo_numbers item_log carol alice bob 7 3 refl refl
      (refl, refl, refl) (omega arith) (omega arith)

abbrev demo_items : List (ℕ × ℕ)
demo_items = (7, 3) ∷ (8, 1) ∷ []

abbrev items_log : RpcLog
items_log =
    log_of (party_topics (event_topic demo_keccak batch_signature) carol alice bob)
      (codes "0x" ++ joined (batch_words demo_items))

abbrev items_decoded : DecodedLog
items_decoded = record {
  event_name = codes "TransferBatch";
  entries = numbered (address_text carol) (address_text alice) (address_text bob) 0 demo_items;
}

decode_log-batch_example :
    (decode_log demo_keccak demo_numbers items_log erc1155 ≡ ok (some items_decoded))
    × (decode_log demo_keccak demo_numbers items_log auto ≡ ok (some items_decoded))
decode_log-batch_example =
    decode_log-batch demo_keccak demo_numbers items_log carol alice bob demo_items refl refl
      (refl, refl, refl) ((omega arith, (omega arith, tt)), (omega arith, (omega arith, tt)))
      (omega arith)

abbrev all_ascii : Text → Bool
all_ascii [] = true
all_ascii (c ∷ s) = ltb c 128 && all_ascii s

-- An event of ERC-1155 without its parties and its data.
abbrev short_log : RpcLog
short_log = log_of (event_topic demo_keccak single_signature ∷ []) (codes "0x12")

abbrev filler : ℕ → Text → Text
filler zero s = s
filler (suc n) s = b'0' ∷ filler n s

-- Two words with a character of two bytes across their border.
abbrev split_log : RpcLog
split_log =
    log_of (party_topics (event_topic demo_keccak batch_signature) carol alice bob)
      (codes "0x" ++ filler 63 (195 ∷ 169 ∷ filler 63 []))

-- The cut into words goes through the character.
split_demo : decode_log demo_keccak demo_numbers split_log erc1155 ≡ err panicked
unfolding decode_log is_auto decode_as decode_event text_eq to_ascii_lowercase event_topic
    standard_eq standard_str decode_transfer_batch require_topic_count decode_data_words strip_0x
    strip_prefix chunks is_utf8
split_demo = refl
