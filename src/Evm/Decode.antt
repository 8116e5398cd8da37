-- ===== src/Evm/Decode.antt =====
-- `decode_log` and the decoders of the three events (application/evm.rs).
use rust_evm_indexer.Base.{
  ℕ, suc, ◌==◌, not, Bool, false, ◌&&◌, ◌||◌, ◌≡◌, if◌then◌else◌, List, [], ◌∷◌, ◌++◌, Option, none,
  some, Result, ok, err, ◌>>=◌, ◌>>◌, fail_if, or_err, length, first, get_elem?, ambiguous_transfer,
  hybrid_transfer, length_mismatch, missing_word, panicked,
}
use rust_evm_indexer.Base.Int.{pos, as_i32}
use rust_evm_indexer.Base.Text.{Text, codes, text_eq, to_ascii_lowercase}
use rust_evm_indexer.Evm.{
  TokenStandard, auto, erc20, erc721, erc1155, is_auto, standard_str, RpcLog, DecodedLedgerEntry,
  DecodedLog, strip_0x,
}
use rust_evm_indexer.Evm.Words.{
  BigUints, require_topic_count, topic_at, topic_address, word_at, decode_data_words,
  data_word_count, decode_word_as_decimal, word_decimal_as_usize, decode_dynamic_uint_array,
}

abbrev pub transfer_signature : Text
transfer_signature = codes "Transfer(address,address,uint256)"

abbrev pub single_signature : Text
single_signature = codes "TransferSingle(address,address,address,uint256,uint256)"

abbrev pub batch_signature : Text
batch_signature = codes "TransferBatch(address,address,address,uint256[],uint256[])"

-- What the source uses of Keccak-256: the digest of a signature in lower-case hex, which tells
-- the three signatures apart.
pub record Keccak : Type 0 where
  pub hex_digest : Text → Text
  pub hex_digest_lower : (s : Text) → to_ascii_lowercase (hex_digest s) ≡ hex_digest s
  pub transfer_apart_single :
      text_eq (hex_digest transfer_signature) (hex_digest single_signature) ≡ false
  pub transfer_apart_batch :
      text_eq (hex_digest transfer_signature) (hex_digest batch_signature) ≡ false
  pub single_apart_transfer :
      text_eq (hex_digest single_signature) (hex_digest transfer_signature) ≡ false
  pub batch_apart_transfer :
      text_eq (hex_digest batch_signature) (hex_digest transfer_signature) ≡ false
  pub batch_apart_single :
      text_eq (hex_digest batch_signature) (hex_digest single_signature) ≡ false

unfoldable pub standard_eq : TokenStandard → TokenStandard → Bool
standard_eq a b = text_eq (standard_str a) (standard_str b)

-- `index as i32` for each entry, from the first index on.
unfoldable pub batch_entries :
    Text → Text → Text → ℕ → List Text → List Text → List DecodedLedgerEntry
batch_entries operator from to index [] amounts = []
batch_entries operator from to index (id ∷ ids) [] = []
batch_entries operator from to index (id ∷ ids) (amount ∷ amounts) =
    record {
      event_name = codes "TransferBatch";
      token_standard = erc1155;
      operator = some operator;
      from = from;
      to = to;
      token_id = id;
      amount = amount;
      batch_index = as_i32 index;
    }
    ∷ batch_entries operator from to (suc index) ids amounts

abbrev pub transfer_log : TokenStandard → Text → Text → Text → Text → DecodedLog
transfer_log standard from to token_id amount = record {
  event_name = codes "Transfer";
  entries =
      record {
        event_name = codes "Transfer";
        token_standard = standard;
        operator = none;
        from = from;
        to = to;
        token_id = token_id;
        amount = amount;
        batch_index = pos 0;
      }
      ∷ [];
}

abbrev pub single_log : Text → Text → Text → Text → Text → DecodedLog
single_log operator from to token_id amount = record {
  event_name = codes "TransferSingle";
  entries =
      record {
        event_name = codes "TransferSingle";
        token_standard = erc1155;
        operator = some operator;
        from = from;
        to = to;
        token_id = token_id;
        amount = amount;
        batch_index = pos 0;
      }
      ∷ [];
}

module _ (big : BigUints) where
  unfoldable pub decode_transfer : RpcLog → TokenStandard → Result DecodedLog
  decode_transfer log auto = err panicked
  decode_transfer log erc20 = do
    require_topic_count log 3
    word ← word_at log.payload 0
    amount ← decode_word_as_decimal big word
    topic1 ← topic_at log 1
    from ← topic_address topic1
    topic2 ← topic_at log 2
    to ← topic_address topic2
    ok (transfer_log erc20 from to [] amount)
  decode_transfer log erc721 = do
    require_topic_count log 4
    topic1 ← topic_at log 1
    from ← topic_address topic1
    topic2 ← topic_at log 2
    to ← topic_address topic2
    topic3 ← topic_at log 3
    digits ← strip_0x topic3
    token_id ← decode_word_as_decimal big digits
    ok (transfer_log erc721 from to token_id (codes "1"))
  decode_transfer log erc1155 = err panicked

  unfoldable pub decode_transfer_single : RpcLog → Result DecodedLog
  decode_transfer_single log = do
    require_topic_count log 4
    id_word ← word_at log.payload 0
    token_id ← decode_word_as_decimal big id_word
    amount_word ← word_at log.payload 1
    amount ← decode_word_as_decimal big amount_word
    topic1 ← topic_at log 1
    operator ← topic_address topic1
    topic2 ← topic_at log 2
    from ← topic_address topic2
    topic3 ← topic_at log 3
    to ← topic_address topic3
    ok (single_log operator from to token_id amount)

  unfoldable pub decode_transfer_batch : RpcLog → Result DecodedLog
  decode_transfer_batch log = do
    require_topic_count log 4
    words ← decode_data_words log.payload
    ids_word ← or_err (first words) missing_word
    ids_offset ← word_decimal_as_usize big ids_word
    amounts_word ← or_err (get_elem? words 1) missing_word
    amounts_offset ← word_decimal_as_usize big amounts_word
    ids ← decode_dynamic_uint_array big words ids_offset
    amounts ← decode_dynamic_uint_array big words amounts_offset
    fail_if (not (length ids == length amounts)) length_mismatch
    topic1 ← topic_at log 1
    operator ← topic_address topic1
    topic2 ← topic_at log 2
    from ← topic_address topic2
    topic3 ← topic_at log 3
    to ← topic_address topic3
    ok record {
      event_name = codes "TransferBatch";
      entries = batch_entries operator from to 0 ids amounts;
    }

module _ (hash : Keccak) where
  unfoldable pub event_topic : Text → Text
  event_topic signature = codes "0x" ++ hash.hex_digest signature

  unfoldable pub supported_topic0_values : TokenStandard → List Text
  supported_topic0_values auto =
      event_topic transfer_signature
      ∷ event_topic single_signature
      ∷ event_topic batch_signature
      ∷ []
  supported_topic0_values erc20 = event_topic transfer_signature ∷ []
  supported_topic0_values erc721 = event_topic transfer_signature ∷ []
  supported_topic0_values erc1155 = event_topic single_signature ∷ event_topic batch_signature ∷ []

  -- The standard that the topics and the data words of a `Transfer` show.
  unfoldable pub transfer_shape : ℕ → ℕ → Result (Option TokenStandard)
  transfer_shape topics words =
      if (topics == 4) && (words == 0)
      then ok (some erc721)
      else if (topics == 3) && (words == 1)
      then ok (some erc20)
      else err ambiguous_transfer

  -- Which event the topic in lower case names.
  unfoldable pub detect_event : RpcLog → Text → Result (Option TokenStandard)
  detect_event log topic0 =
      if text_eq topic0 (event_topic single_signature)
        || text_eq topic0 (event_topic batch_signature)
      then ok (some erc1155)
      else if text_eq topic0 (event_topic transfer_signature)
      then (data_word_count log.payload >>= λ words. transfer_shape (length log.topics) words)
      else ok none

  unfoldable pub detect_by_topic0 : RpcLog → Option Text → Result (Option TokenStandard)
  detect_by_topic0 log none = ok none
  detect_by_topic0 log (some topic0) = detect_event log (to_ascii_lowercase topic0)

  unfoldable pub detect_token_standard_from_log : RpcLog → Result (Option TokenStandard)
  detect_token_standard_from_log log = detect_by_topic0 log (first log.topics)

  unfoldable pub validate_transfer_shape_matches_standard :
      RpcLog → TokenStandard → Result (Unit {0})
  validate_transfer_shape_matches_standard log standard = do
    detected ← detect_token_standard_from_log log
    elim detected [
      | none ↦ ok tt
      | some other ↦ fail_if (not (standard_eq other standard)) hybrid_transfer
    ]

  module _ (big : BigUints) where
    -- The event that the first topic names, for a standard that is settled.
    unfoldable pub decode_event : RpcLog → TokenStandard → Text → Result (Option DecodedLog)
    decode_event log standard topic0 =
        if text_eq topic0 (event_topic transfer_signature)
          && (standard_eq standard erc20 || standard_eq standard erc721)
        then (do
          validate_transfer_shape_matches_standard log standard
          decoded ← decode_transfer big log standard
          ok (some decoded))
        else if text_eq topic0 (event_topic single_signature) && standard_eq standard erc1155
        then (decode_transfer_single big log >>= λ decoded. ok (some decoded))
        else if text_eq topic0 (event_topic batch_signature) && standard_eq standard erc1155
        then (decode_transfer_batch big log >>= λ decoded. ok (some decoded))
        else ok none

    unfoldable pub decode_as : RpcLog → TokenStandard → Option Text → Result (Option DecodedLog)
    decode_as log standard none = ok none
    decode_as log standard (some topic0) = decode_event log standard (to_ascii_lowercase topic0)

    unfoldable pub decode_log : RpcLog → TokenStandard → Result (Option DecodedLog)
    decode_log log standard =
        if is_auto standard
        then (do
          detected ← detect_token_standard_from_log log
          elim detected [ none ↦ ok none | some found ↦ decode_as log found (first log.topics) ])
        else decode_as log standard (first log.topics)
