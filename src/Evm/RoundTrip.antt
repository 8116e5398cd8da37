-- ===== src/Evm/RoundTrip.antt =====
-- `decode_log` on logs as the contracts emit them: the ABI's encoding of a transfer is read back.
use rust_evm_indexer.Base.{
  ℕ, suc, ◌≡◌, refl, ap, ◌∙◌, true, false, List, [], ◌∷◌, ◌++◌, none, some, ok, err, length, ◌||◌,
  first, hybrid_transfer,
}
use rust_evm_indexer.Base.Text.{
  Text, codes, text_eq, text_eq_refl, to_lower, to_ascii_lowercase, strip_prefix, is_utf8,
  is_char_boundary,
}
use rust_evm_indexer.Base.Decimal.{decimal}
use rust_evm_indexer.Evm.{
  TokenStandard, auto, erc20, erc721, erc1155, RpcLog, DecodedLog, strip_0x, is_auto, standard_str,
}
use rust_evm_indexer.Evm.Words.{
  BigUints, require_topic_count, slice, topic_at, word_at, data_word_count,
}
use rust_evm_indexer.Evm.Decode.{
  Keccak, transfer_signature, single_signature, batch_signature, event_topic, standard_eq,
  transfer_log, decode_transfer, transfer_shape, detect_event, detect_by_topic0,
  detect_token_standard_from_log, validate_transfer_shape_matches_standard, decode_event, decode_as,
  decode_log,
}
use rust_evm_indexer.Evm.Encoding.{
  hex_word, address_topic, topic_address_lem, length-hex_word, decode-hex_word, take_all,
}
use rust_evm_indexer.Evm.Arrays.{IsUint256}

-- An address as the decoder writes it.
abbrev pub address_text : Text → Text
address_text body = codes "0x" ++ to_ascii_lowercase body

abbrev pub IsBody : Text → Type 0
IsBody body = length body ≡ 40

module _ (hash : Keccak) where
  pub topic-lower : (s : Text) → to_ascii_lowercase (event_topic hash s) ≡ event_topic hash s
  unfolding event_topic to_ascii_lowercase to_lower
  topic-lower s = rw (hash.hex_digest_lower s) refl

  pub topic-eq :
      (s t : Text)
      → text_eq (event_topic hash s) (event_topic hash t)
        ≡ text_eq (hash.hex_digest s) (hash.hex_digest t)
  unfolding event_topic text_eq
  topic-eq s t = refl

data_word_count_lem : (s : Text) → length s ≡ 64 → data_word_count (codes "0x" ++ s) ≡ ok 1
unfolding data_word_count strip_0x strip_prefix
data_word_count_lem s h = rw h refl

module _ (hash : Keccak) (big : BigUints) where
  detect-transfer :
      (log : RpcLog) (rest : List Text) (words : ℕ)
      → log.topics ≡ event_topic hash transfer_signature ∷ rest
      → data_word_count log.payload ≡ ok words
      → detect_token_standard_from_log hash log ≡ transfer_shape hash (suc (length rest)) words
  unfolding detect_token_standard_from_log detect_by_topic0 detect_event
  detect-transfer log rest words ht hw =
      rw
        (
          ht,
          topic-lower hash transfer_signature,
          topic-eq hash transfer_signature single_signature,
          topic-eq hash transfer_signature batch_signature,
          topic-eq hash transfer_signature transfer_signature,
          hash.transfer_apart_single,
          hash.transfer_apart_batch,
          text_eq_refl (hash.hex_digest transfer_signature),
          hw,
        )
        refl

  -- A settled standard that agrees with the shape of a `Transfer`.
  transfer-event :
      (log : RpcLog) (rest : List Text) (standard : TokenStandard) (decoded : DecodedLog)
      → log.topics ≡ event_topic hash transfer_signature ∷ rest
      → detect_token_standard_from_log hash log ≡ ok (some standard)
      → decode_transfer big log standard ≡ ok decoded
      → standard_eq standard erc20 || standard_eq standard erc721 ≡ true
      → standard_eq standard standard ≡ true
      → decode_as hash big log standard (first log.topics) ≡ ok (some decoded)
  unfolding decode_as decode_event validate_transfer_shape_matches_standard
  transfer-event log rest standard decoded ht hd hx known same =
      ap (decode_as hash big log standard) (ap first ht)
      ∙ rw
          (
            topic-lower hash transfer_signature,
            topic-eq hash transfer_signature transfer_signature,
            text_eq_refl (hash.hex_digest transfer_signature),
            known,
            hd,
            same,
            hx,
          )
          refl

  word_at_lem : (s : Text) → length s ≡ 64 → word_at (codes "0x" ++ s) 0 ≡ ok s
  unfolding word_at slice is_char_boundary is_utf8 strip_0x strip_prefix
  word_at_lem s h = rw (h, take_all 64 s h) refl

  decode_transfer-erc20 :
      (log : RpcLog) (topic0 a b : Text) (n : ℕ)
      → log.topics ≡ topic0 ∷ address_topic a ∷ address_topic b ∷ []
      → log.payload ≡ codes "0x" ++ hex_word n
      → IsBody a
      → IsBody b
      → IsUint256 n
      → decode_transfer big log erc20
        ≡ ok (transfer_log erc20 (address_text a) (address_text b) [] (decimal n))
  unfolding decode_transfer require_topic_count topic_at
  decode_transfer-erc20 log topic0 a b n ht hp ha hb hn =
      rw
        (
          ht,
          hp,
          word_at_lem (hex_word n) (length-hex_word n),
          decode-hex_word big n hn,
          topic_address_lem a ha,
          topic_address_lem b hb,
        )
        refl

  decode_transfer-erc721 :
      (log : RpcLog) (topic0 a b : Text) (n : ℕ)
      → log.topics ≡ topic0 ∷ address_topic a ∷ address_topic b ∷ (codes "0x" ++ hex_word n) ∷ []
      → IsBody a
      → IsBody b
      → IsUint256 n
      → decode_transfer big log erc721
        ≡ ok (transfer_log erc721 (address_text a) (address_text b) (decimal n) (codes "1"))
  unfolding decode_transfer require_topic_count topic_at strip_0x strip_prefix
  decode_transfer-erc721 log topic0 a b n ht ha hb hn =
      rw (ht, topic_address_lem a ha, topic_address_lem b hb, decode-hex_word big n hn) refl

  -- A settled standard that the shape of a `Transfer` contradicts.
  transfer-hybrid :
      (log : RpcLog) (rest : List Text) (standard shape : TokenStandard)
      → log.topics ≡ event_topic hash transfer_signature ∷ rest
      → detect_token_standard_from_log hash log ≡ ok (some shape)
      → standard_eq standard erc20 || standard_eq standard erc721 ≡ true
      → standard_eq shape standard ≡ false
      → decode_as hash big log standard (first log.topics) ≡ err hybrid_transfer
  unfolding decode_as decode_event validate_transfer_shape_matches_standard
  transfer-hybrid log rest standard shape ht hd known other =
      ap (decode_as hash big log standard) (ap first ht)
      ∙ rw
          (
            topic-lower hash transfer_signature,
            topic-eq hash transfer_signature transfer_signature,
            text_eq_refl (hash.hex_digest transfer_signature),
            known,
            hd,
            other,
          )
          refl

  transfer-ignored :
      (log : RpcLog) (rest : List Text)
      → log.topics ≡ event_topic hash transfer_signature ∷ rest
      → decode_as hash big log erc1155 (first log.topics) ≡ ok none
  unfolding decode_as decode_event standard_eq standard_str text_eq
  transfer-ignored log rest ht =
      ap (decode_as hash big log erc1155) (ap first ht)
      ∙ rw
          (
            topic-lower hash transfer_signature,
            topic-eq hash transfer_signature transfer_signature,
            text_eq_refl (hash.hex_digest transfer_signature),
            topic-eq hash transfer_signature single_signature,
            hash.transfer_apart_single,
            topic-eq hash transfer_signature batch_signature,
            hash.transfer_apart_batch,
          )
          refl

  decode-auto :
      (log : RpcLog) (shape : TokenStandard) (decoded : DecodedLog)
      → detect_token_standard_from_log hash log ≡ ok (some shape)
      → decode_as hash big log shape (first log.topics) ≡ ok (some decoded)
      → decode_log hash big log auto ≡ ok (some decoded)
  unfolding decode_log is_auto
  decode-auto log shape decoded hd hx = rw (hd) hx

  -- The `Transfer` of an ERC-20 token is read as its two parties and its amount, by the standard
  -- and by `auto`; the ERC-721 decoder refuses it and the ERC-1155 decoder passes over it.
  pub decode_log-erc20 :
      (log : RpcLog) (a b : Text) (n : ℕ)
      → log.topics ≡ event_topic hash transfer_signature ∷ address_topic a ∷ address_topic b ∷ []
      → log.payload ≡ codes "0x" ++ hex_word n
      → IsBody a
      → IsBody b
      → IsUint256 n
      → let decoded = transfer_log erc20 (address_text a) (address_text b) [] (decimal n) in
        (decode_log hash big log erc20 ≡ ok (some decoded))
        × (decode_log hash big log auto ≡ ok (some decoded))
        × (decode_log hash big log erc721 ≡ err hybrid_transfer)
        × (decode_log hash big log erc1155 ≡ ok none)
  unfolding decode_log is_auto standard_eq standard_str text_eq transfer_shape
  decode_log-erc20 log a b n ht hp ha hb hn =
      let rest = address_topic a ∷ address_topic b ∷ [] in
      let words : data_word_count log.payload ≡ ok 1 =
        ap data_word_count hp ∙ data_word_count_lem (hex_word n) (length-hex_word n) in
      let shape : detect_token_standard_from_log hash log ≡ ok (some erc20) =
        detect-transfer log rest 1 ht words in
      let read =
        decode_transfer-erc20 log (event_topic hash transfer_signature) a b n ht hp ha hb hn in
      let direct = transfer-event log rest erc20 _ ht shape read refl refl in
      (
        direct,
        decode-auto log erc20 _ shape direct,
        transfer-hybrid log rest erc721 erc20 ht shape refl refl,
        transfer-ignored log rest ht,
      )

  -- The `Transfer` of an ERC-721 token is read as its two parties and its token, with the amount
  -- 1, by the standard and by `auto`; the ERC-20 decoder refuses it and the ERC-1155 decoder
  -- passes over it.
  pub decode_log-erc721 :
      (log : RpcLog) (a b : Text) (n : ℕ)
      → log.topics
        ≡ event_topic hash transfer_signature
          ∷ address_topic a
          ∷ address_topic b
          ∷ (codes "0x" ++ hex_word n)
          ∷ []
      → log.payload ≡ codes "0x"
      → IsBody a
      → IsBody b
      → IsUint256 n
      → let decoded =
          transfer_log erc721 (address_text a) (address_text b) (decimal n) (codes "1") in
        (decode_log hash big log erc721 ≡ ok (some decoded))
        × (decode_log hash big log auto ≡ ok (some decoded))
        × (decode_log hash big log erc20 ≡ err hybrid_transfer)
        × (decode_log hash big log erc1155 ≡ ok none)
  unfolding decode_log is_auto standard_eq standard_str text_eq transfer_shape data_word_count
      strip_0x strip_prefix
  decode_log-erc721 log a b n ht hp ha hb hn =
      let rest = address_topic a ∷ address_topic b ∷ (codes "0x" ++ hex_word n) ∷ [] in
      let words : data_word_count log.payload ≡ ok 0 = ap data_word_count hp in
      let shape : detect_token_standard_from_log hash log ≡ ok (some erc721) =
        detect-transfer log rest 0 ht words in
      let read =
        decode_transfer-erc721 log (event_topic hash transfer_signature) a b n ht ha hb hn in
      let direct = transfer-event log rest erc721 _ ht shape read refl refl in
      (
        direct,
        decode-auto log erc721 _ shape direct,
        transfer-hybrid log rest erc20 erc721 ht shape refl refl,
        transfer-ignored log rest ht,
      )
