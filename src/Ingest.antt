-- ===== src/Ingest.antt =====
-- application/ingest.rs: the finalized range of a scan, and the logs of a range fetched in chunks.
-- What is told about progress is left out. The node's answers are parameters.
pub mod Chunks
pub mod Range
pub mod Node
pub mod Detect
pub mod Shown
pub mod Settled
pub mod Prepare
pub mod Source
use rust_evm_indexer.Base.{
  ℕ, zero, suc, ◌+◌, ◌-◌, min, Bool, true, false, ◌&&◌, List, [], ◌++◌, Option, none, some, ltb,
  leb, ◌==◌, if◌then◌else◌, Result, ok, err, ◌>>=◌, ◌>>◌, or_err, fail_if, inverted_range,
  range_size_zero, out_of_fuel, unparsable, negative_confirmations,
}
use rust_evm_indexer.Base.Int.{ℤ, pos, ltb_ℤ, u64_max, saturating_add, as_u64}
use rust_evm_indexer.Base.Text.{Text, codes, text_eq, strip_prefix}
use rust_evm_indexer.Base.Decimal.{from_str_radix}
use rust_evm_indexer.Evm.{RpcLog, TokenStandard}

pub record ResolvedRange : Type 0 where
  pub from : ℕ
  pub to : ℕ
  pub head : ℕ
  pub finalized_head : ℕ

pub record PrefetchedLogChunk : Type 0 where
  pub from : ℕ
  pub to : ℕ
  pub logs : List RpcLog

unfoldable pub parse_block_arg : Text → ℕ → Result ℕ
parse_block_arg value latest =
    if text_eq value (codes "latest") then ok latest else elim (strip_prefix (codes "0x") value) [
      | some hex ↦ or_err (from_str_radix u64_max 16 hex) unparsable
      | none ↦ or_err (from_str_radix u64_max 10 value) unparsable
    ]

-- The first block: the argument, or `lookback` blocks before the last.
unfoldable pub resolve_from : Option Text → ℕ → ℕ → ℕ → Result ℕ
resolve_from none finalized_head to lookback = ok (to - lookback)
resolve_from (some value) finalized_head to lookback = parse_block_arg value finalized_head

-- `block_number` is what the node says its head is.
unfoldable pub resolve_finalized_range :
    Result ℕ → Option Text → Text → ℕ → ℤ → Result ResolvedRange
resolve_finalized_range block_number from_block to_block lookback finality_confirmations = do
  fail_if (ltb_ℤ finality_confirmations (pos 0)) negative_confirmations
  head ← block_number
  let finalized_head = head - as_u64 finality_confirmations
  to ← parse_block_arg to_block finalized_head
  from ← resolve_from from_block finalized_head to lookback
  fail_if (ltb to from) inverted_range
  ok (record { from = from; to = to; head = head; finalized_head = finalized_head })

-- `fetch` asks the node for the logs of a contract and a standard between two blocks.
module _ (fetch : ℕ → ℕ → Result (List RpcLog)) where
  -- The logs of a chunk, and what is still prefetched behind it.
  unfoldable pub chunk_logs :
      Option PrefetchedLogChunk → ℕ → ℕ → Result (List RpcLog × Option PrefetchedLogChunk)
  chunk_logs none chunk_from chunk_to = do logs ← fetch chunk_from chunk_to; ok (logs, none)
  chunk_logs (some chunk) chunk_from chunk_to =
      if chunk.from == chunk_from && chunk.to == chunk_to
      then ok (chunk.logs, none)
      else do logs ← fetch chunk_from chunk_to; ok (logs, some chunk)

  -- The `while` loop, a round for each unit of fuel.
  unfoldable pub fetch_loop :
      ℕ → Option PrefetchedLogChunk → ℕ → ℕ → ℕ → List RpcLog → Result (List RpcLog)
  fetch_loop zero prefetched chunk_from to chunk_size logs = err out_of_fuel
  fetch_loop (suc fuel) prefetched chunk_from to chunk_size logs =
      let chunk_to = min (saturating_add chunk_from (chunk_size - 1)) to in
      let round = do
        (more, prefetched') ← chunk_logs prefetched chunk_from chunk_to
        let rest = fetch_loop fuel prefetched' (chunk_to + 1) to chunk_size (logs ++ more)
        if chunk_to == u64_max then ok (logs ++ more) else rest
      in if leb chunk_from to then round else ok logs

  unfoldable pub fetch_logs_in_chunks_with_progress :
      Option PrefetchedLogChunk → ℕ → ℕ → ℕ → Result (List RpcLog)
  fetch_logs_in_chunks_with_progress prefetched from to chunk_size = do
    fail_if (ltb to from) inverted_range
    fail_if (chunk_size == 0) range_size_zero
    fetch_loop (to - from + 2) prefetched from to chunk_size []

  unfoldable pub fetch_logs_in_chunks : ℕ → ℕ → ℕ → Result (List RpcLog)
  fetch_logs_in_chunks from to chunk_size =
      fetch_logs_in_chunks_with_progress none from to chunk_size
