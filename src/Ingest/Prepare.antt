-- ===== src/Ingest/Prepare.antt =====
-- What `ingest_source_range` does before it writes: the checks of the contract, the standard, the
-- logs of the range, their timestamps, and what they say (application/ingest.rs).
use rust_evm_indexer.Base.{
  ℕ, Bool, not, List, [], ◌∷◌, Option, none, some, ltb, ◌==◌, if◌then◌else◌, Result, ok, ◌>>=◌,
  ◌>>◌, fail_if, inverted_range, range_size_zero, no_contract_code,
}
use rust_evm_indexer.Base.Text.{Text, codes, text_eq, text_le, to_ascii_lowercase, trim}
use rust_evm_indexer.Ports.{SourceRef, TransactionReceipt}
use rust_evm_indexer.Evm.{RpcLog, DecodedLog, TokenStandard, is_auto, parse_standard, parse_hex_u64}
use rust_evm_indexer.Evm.Words.{BigUints}
use rust_evm_indexer.Evm.Decode.{Keccak, decode_log}
use rust_evm_indexer.Ingest.{PrefetchedLogChunk, fetch_logs_in_chunks_with_progress}
use rust_evm_indexer.Ingest.Node.{ChainRpc}
use rust_evm_indexer.Ingest.Detect.{detect_token_standard_with_prefetched_logs}

pub record IngestOptions : Type 0 where
  pub include_transaction_receipts : Bool
  pub restore_orphaned_conflicts : Bool
  pub prefetched_logs : Option PrefetchedLogChunk

-- A `BTreeMap` of the blocks, in order and without repetition.
unfoldable pub insert_block : ℕ → List ℕ → List ℕ
insert_block block [] = block ∷ []
insert_block block (other ∷ blocks) =
    let rest = insert_block block blocks in
    if block == other
    then other ∷ blocks
    else if ltb block other
    then block ∷ other ∷ blocks
    else other ∷ rest

unfoldable pub blocks_of : List ℕ → List RpcLog → Result (List ℕ)
blocks_of blocks [] = ok blocks
blocks_of blocks (log ∷ logs) = do
  block ← parse_hex_u64 log.block_number
  blocks_of (insert_block block blocks) logs

-- A `BTreeSet` of the transactions' hashes.
unfoldable pub insert_hash : Text → List Text → List Text
insert_hash hash [] = hash ∷ []
insert_hash hash (other ∷ hashes) =
    let rest = insert_hash hash hashes in
    if text_eq hash other
    then other ∷ hashes
    else if text_le hash other
    then hash ∷ other ∷ hashes
    else other ∷ rest

unfoldable pub hashes_of : List (RpcLog × DecodedLog) → List Text
hashes_of [] = []
hashes_of ((log, decoded) ∷ logs) =
    insert_hash (to_ascii_lowercase log.transaction_hash) (hashes_of logs)

-- The timestamp that was fetched for a block.
unfoldable pub timestamp_of : ℕ → List (ℕ × ℕ) → Option ℕ
timestamp_of block [] = none
timestamp_of block ((other, timestamp) ∷ rest) =
    let later = timestamp_of block rest in if other == block then some timestamp else later

unfoldable pub stamp_logs : List (ℕ × ℕ) → List RpcLog → Result (List RpcLog)
stamp_logs timestamps [] = ok []
stamp_logs timestamps (log ∷ logs) = do
  block ← parse_hex_u64 log.block_number
  rest ← stamp_logs timestamps logs
  ok (record log { block_timestamp = timestamp_of block timestamps } ∷ rest)

module _ (rpc : ChainRpc) where
  unfoldable pub fetch_timestamps : List ℕ → Result (List (ℕ × ℕ))
  fetch_timestamps [] = ok []
  fetch_timestamps (block ∷ blocks) = do
    timestamp ← rpc.block_timestamp block
    rest ← fetch_timestamps blocks
    ok ((block, timestamp) ∷ rest)

  unfoldable pub attach_block_timestamps : List RpcLog → Result (List RpcLog)
  attach_block_timestamps logs = do
    blocks ← blocks_of [] logs
    timestamps ← fetch_timestamps blocks
    stamp_logs timestamps logs

  unfoldable pub fetch_transaction_receipts : List Text → Result (List TransactionReceipt)
  fetch_transaction_receipts [] = ok []
  fetch_transaction_receipts (hash ∷ hashes) = do
    receipt ← rpc.transaction_receipt hash
    receipts ← fetch_transaction_receipts hashes
    ok (receipt ∷ receipts)

  unfoldable pub validate_contract_code_at_block : Text → ℕ → Result (Unit {0})
  validate_contract_code_at_block contract block = do
    code ← rpc.code_at contract block
    fail_if (text_eq (trim code) (codes "0x")) no_contract_code

  unfoldable pub validate_contract_code_at_boundaries : Text → ℕ → ℕ → Result (Unit {0})
  validate_contract_code_at_boundaries contract from to = do
    fail_if (ltb to from) inverted_range
    validate_contract_code_at_block contract from
    if not (to == from) then validate_contract_code_at_block contract to else ok tt

module _ (hash : Keccak) (big : BigUints) where
  -- The logs that are transfers of the standard, with what they say.
  unfoldable pub decode_logs : TokenStandard → List RpcLog → Result (List (RpcLog × DecodedLog))
  decode_logs standard [] = ok []
  decode_logs standard (log ∷ logs) = do
    decoded ← decode_log hash big log standard
    rest ← decode_logs standard logs
    ok (elim decoded [ none ↦ rest | some said ↦ (log, said) ∷ rest ])

  module _ (rpc : ChainRpc) where
    -- The standard of the source, or the one that its logs show, with the logs that showed it.
    unfoldable pub settle_standard :
        SourceRef → ℕ → ℕ → ℕ → IngestOptions → Result (TokenStandard × Option PrefetchedLogChunk)
    settle_standard source from to chunk_size options = do
      standard ← parse_standard source.token_standard
      let found =
          detect_token_standard_with_prefetched_logs hash rpc source.contract_address from to
            chunk_size
          >>= λ detection. ok (detection.standard, some detection.prefetched_logs)
      if is_auto standard then found else ok (standard, options.prefetched_logs)

    -- Everything up to `persist_decoded_logs_with_options`.
    unfoldable pub prepare_logs :
        SourceRef → ℕ → ℕ → ℕ → IngestOptions → Result (List (RpcLog × DecodedLog))
    prepare_logs source from to chunk_size options = do
      fail_if (ltb to from) inverted_range
      fail_if (chunk_size == 0) range_size_zero
      (standard, prefetched) ← settle_standard source from to chunk_size options
      logs ←
          fetch_logs_in_chunks_with_progress (rpc.logs source.contract_address standard) prefetched
            from to chunk_size
      stamped ← attach_block_timestamps rpc logs
      decode_logs standard stamped
