-- ===== src/Evm/Multi.antt =====
-- `decode_log` on the two events of ERC-1155, as the contracts emit them.
use rust_evm_indexer.Base.{
  ℕ, ◌+◌, ◌*◌, ◌≤◌, ◌≡◌, ◌==◌, refl, ap, ◌∙◌, true, List, [], ◌∷◌, ◌++◌, map, some, ok, length,
  first, arith, length-append,
}
use rust_evm_indexer.Base.Int.{u64_max}
use rust_evm_indexer.Base.Text.{
  Text, codes, text_eq, text_eq_refl, strip_prefix, is_char_boundary, is_utf8-ascii,
}
use rust_evm_indexer.Base.Decimal.{decimal}
use rust_evm_indexer.Evm.{auto, erc1155, RpcLog, DecodedLog, strip_0x, is_auto, standard_str}
use rust_evm_indexer.Evm.Words.{BigUints, slice, require_topic_count, topic_at, word_at}
use rust_evm_indexer.Evm.Decode.{
  Keccak, transfer_signature, single_signature, batch_signature, event_topic, standard_eq,
  single_log, decode_transfer_single, decode_transfer_batch, detect_by_topic0, detect_event,
  detect_token_standard_from_log, decode_event, decode_as, decode_log,
}
use rust_evm_indexer.Evm.Encoding.{
  hex_word, hex_word_utf8, address_topic, topic_address_lem, length-hex_word, decode-hex_word,
  usize-hex_word, take_all, take-append, drop-append, joined, IsWord,
}
use rust_evm_indexer.Evm.Arrays.{IsUint256, IsText}
use rust_evm_indexer.Evm.Batch.{
  ids_of, amounts_of, AreUint256, numbered, numbered-entries, length-ids, length-amounts,
  batch_words, data_words-joined, batch_words-IsWord, batch_words-IsText, decode-ids,
  decode-amounts,
}
use rust_evm_indexer.Evm.RoundTrip.{address_text, IsBody, topic-lower, topic-eq}

-- The four topics of both events.
abbrev pub party_topics : Text → Text → Text → Text → List Text
party_topics topic0 operator from to =
    topic0 ∷ address_topic operator ∷ address_topic from ∷ address_topic to ∷ []

module _ (hash : Keccak) (big : BigUints) where
  -- Whether the standard is given or found, the event with this topic is decoded alike.
  auto-agrees :
      (log : RpcLog) (decoded : DecodedLog)
      → detect_token_standard_from_log hash log ≡ ok (some erc1155)
      → decode_as hash big log erc1155 (first log.topics) ≡ ok (some decoded)
      → (decode_log hash big log erc1155 ≡ ok (some decoded))
        × (decode_log hash big log auto ≡ ok (some decoded))
  unfolding decode_log is_auto
  auto-agrees log decoded hd hx = (hx, rw (hd) hx)

  single-event :
      (log : RpcLog) (rest : List Text) (decoded : DecodedLog)
      → log.topics ≡ event_topic hash single_signature ∷ rest
      → decode_transfer_single big log ≡ ok decoded
      → (decode_log hash big log erc1155 ≡ ok (some decoded))
        × (decode_log hash big log auto ≡ ok (some decoded))
  unfolding decode_as decode_event detect_token_standard_from_log detect_by_topic0 detect_event
      standard_eq standard_str text_eq
  single-event log rest decoded ht hx =
      auto-agrees log decoded
        (ap (detect_by_topic0 hash log) (ap first ht)
          ∙ rw
              (
                topic-lower hash single_signature,
                topic-eq hash single_signature single_signature,
                text_eq_refl (hash.hex_digest single_signature),
              )
              refl)
        (ap (decode_as hash big log erc1155) (ap first ht)
          ∙ rw
              (
                topic-lower hash single_signature,
                topic-eq hash single_signature transfer_signature,
                hash.single_apart_transfer,
                topic-eq hash single_signature single_signature,
                text_eq_refl (hash.hex_digest single_signature),
                hx,
              )
              refl)

  batch-event :
      (log : RpcLog) (rest : List Text) (decoded : DecodedLog)
      → log.topics ≡ event_topic hash batch_signature ∷ rest
      → decode_transfer_batch big log ≡ ok decoded
      → (decode_log hash big log erc1155 ≡ ok (some decoded))
        × (decode_log hash big log auto ≡ ok (some decoded))
  unfolding decode_as decode_event detect_token_standard_from_log detect_by_topic0 detect_event
      standard_eq standard_str text_eq
  batch-event log rest decoded ht hx =
      auto-agrees log decoded
        (ap (detect_by_topic0 hash log) (ap first ht)
          ∙ rw
              (
                topic-lower hash batch_signature,
                topic-eq hash batch_signature single_signature,
                hash.batch_apart_single,
                topic-eq hash batch_signature batch_signature,
                text_eq_refl (hash.hex_digest batch_signature),
              )
              refl)
        (ap (decode_as hash big log erc1155) (ap first ht)
          ∙ rw
              (
                topic-lower hash batch_signature,
                topic-eq hash batch_signature transfer_signature,
                hash.batch_apart_transfer,
                topic-eq hash batch_signature single_signature,
                hash.batch_apart_single,
                topic-eq hash batch_signature batch_signature,
                text_eq_refl (hash.hex_digest batch_signature),
                hx,
              )
              refl)

  -- Both words of a payload of two.
  two_words :
      (s t : Text)
      → IsWord s
      → IsWord t
      → IsText s
      → (word_at (codes "0x" ++ (s ++ t)) 0 ≡ ok s) × (word_at (codes "0x" ++ (s ++ t)) 1 ≡ ok t)
  unfolding word_at slice is_char_boundary strip_0x strip_prefix
  two_words s t hs ht text =
      let size : length (s ++ t) ≡ 128 = omega (arith, length-append s t) in
      (
        rw (size, take-append 64 s t hs, text, is_utf8-ascii [] tt) refl,
        rw (size, drop-append 64 s t hs, take_all 64 t ht, take-append 64 s t hs, text) refl,
      )

  decode_transfer_single_lem :
      (log : RpcLog) (topic0 operator a b : Text) (id n : ℕ)
      → log.topics ≡ party_topics topic0 operator a b
      → log.payload ≡ codes "0x" ++ (hex_word id ++ hex_word n)
      → IsBody operator × IsBody a × IsBody b
      → IsUint256 id
      → IsUint256 n
      → decode_transfer_single big log
        ≡ ok (
            single_log
              (address_text operator)
              (address_text a)
              (address_text b)
              (decimal id)
              (decimal n))
  unfolding decode_transfer_single require_topic_count topic_at
  decode_transfer_single_lem log topic0 operator a b id n ht hp (ho, ha, hb) hid hn =
      let (first_word, second_word) =
        two_words (hex_word id) (hex_word n) (length-hex_word id) (length-hex_word n)
          (hex_word_utf8 id) in
      rw
        (
          ht,
          hp,
          first_word,
          second_word,
          decode-hex_word big id hid,
          decode-hex_word big n hn,
          topic_address_lem operator ho,
          topic_address_lem a ha,
          topic_address_lem b hb,
        )
        refl

  -- The `TransferSingle` of an ERC-1155 token is read as its operator, its parties, its token and
  -- its amount, by the standard and by `auto`.
  pub decode_log-single :
      (log : RpcLog) (operator a b : Text) (id n : ℕ)
      → log.topics ≡ party_topics (event_topic hash single_signature) operator a b
      → log.payload ≡ codes "0x" ++ (hex_word id ++ hex_word n)
      → IsBody operator × IsBody a × IsBody b
      → IsUint256 id
      → IsUint256 n
      → let decoded =
          single_log
            (address_text operator)
            (address_text a)
            (address_text b)
            (decimal id)
            (decimal n) in
        (decode_log hash big log erc1155 ≡ ok (some decoded))
        × (decode_log hash big log auto ≡ ok (some decoded))
  decode_log-single log operator a b id n ht hp bodies hid hn = single-event log _ _ ht (
      decode_transfer_single_lem log (event_topic hash single_signature) operator a b id n ht hp
        bodies hid hn)

  decode_batch :
      (log : RpcLog) (topic0 operator a b : Text) (items : List (ℕ × ℕ))
      → log.topics ≡ party_topics topic0 operator a b
      → log.payload ≡ codes "0x" ++ joined (batch_words items)
      → IsBody operator × IsBody a × IsBody b
      → AreUint256 items
      → length items ≤ 2147483648
      → decode_transfer_batch big log
        ≡ ok record {
          event_name = codes "TransferBatch";
          entries = numbered (address_text operator) (address_text a) (address_text b) 0 items;
        }
  unfolding decode_transfer_batch require_topic_count topic_at
  decode_batch log topic0 operator a b items ht hp (ho, ha, hb) (hids, hamounts) small =
      let fits : 32 * (3 + length items) ≤ u64_max = omega arith in
      let even : (length (map decimal (ids_of items)) == length (map decimal (amounts_of items)))
          ≡ true =
        ground (arith, length-ids items, length-amounts items) in
      rw
        (
          ht,
          hp,
          data_words-joined (batch_words items) (batch_words-IsWord items)
              (batch_words-IsText items),
          usize-hex_word big 64 (omega arith),
          usize-hex_word big (32 * (3 + length items)) fits,
          decode-ids big items small hids,
          decode-amounts big items small hamounts,
          even,
          topic_address_lem operator ho,
          topic_address_lem a ha,
          topic_address_lem b hb,
          numbered-entries (address_text operator) (address_text a) (address_text b) 0 items
              (omega arith),
        )
        refl

  -- The `TransferBatch` of an ERC-1155 token is read as one entry for each item, in order and
  -- numbered from 0, by the standard and by `auto`, if it has at most 2^31 items.
  pub decode_log-batch :
      (log : RpcLog) (operator a b : Text) (items : List (ℕ × ℕ))
      → log.topics ≡ party_topics (event_topic hash batch_signature) operator a b
      → log.payload ≡ codes "0x" ++ joined (batch_words items)
      → IsBody operator × IsBody a × IsBody b
      → AreUint256 items
      → length items ≤ 2147483648
      → let decoded : DecodedLog = record {
        event_name = codes "TransferBatch";
        entries = numbered (address_text operator) (address_text a) (address_text b) 0 items;
      } in
        (decode_log hash big log erc1155 ≡ ok (some decoded))
        × (decode_log hash big log auto ≡ ok (some decoded))
  decode_log-batch log operator a b items ht hp bodies numbers small = batch-event log _ _ ht (
      decode_batch log (event_topic hash batch_signature) operator a b items ht hp bodies numbers
        small)
