-- ===== src/Examples/NodeRuns.antt =====
-- Fetching and resolving against a node with one log in each block, and three mismatched blocks.
use rust_evm_indexer.Base.{
  ℕ, ◌+◌, ◌-◌, ◌≤◌, ◌≡◌, refl, List, [], ◌∷◌, ◌++◌, Option, none, Result, ok, All, arith,
}
use rust_evm_indexer.Base.Int.{pos, ◌≤ℤ◌, as_u64}
use rust_evm_indexer.Base.Text.{Text, codes, text_eq}
use rust_evm_indexer.Ports.{SourceRef, ReorgMismatch, ReorgEventInsert, ReorgRepository}
use rust_evm_indexer.Evm.{RpcLog}
use rust_evm_indexer.Ingest.{
  ResolvedRange, parse_block_arg, resolve_from, resolve_finalized_range,
  fetch_logs_in_chunks_with_progress,
}
use rust_evm_indexer.Ingest.Chunks.{logs_of, fetch_logs_in_chunks_lem}
use rust_evm_indexer.Ingest.Range.{resolve_finalized_range-latest}
use rust_evm_indexer.Reorg.{record_reorg_ranges}
use rust_evm_indexer.Reorg.Coalescing.{IsEvent, Separated, all_mismatches, record_reorg_ranges_lem}

-- The log of a block.
abbrev block_log : ℕ → List RpcLog
block_log block =
    record {
      address = codes "0x01";
      topics = [];
      payload = codes "0x";
      block_number = block ∷ [];
      transaction_hash = codes "0xAA";
      transaction_index = none;
      log_index = codes "0x0";
      block_hash = codes "0xBB";
      block_timestamp = none;
    }
    ∷ []

abbrev demo_fetch : ℕ → ℕ → Result (List RpcLog)
demo_fetch from to = ok (logs_of block_log from (to + 1 - from))

fetch_logs_in_chunks_lem_example :
    fetch_logs_in_chunks_with_progress demo_fetch none 10 20 4
    ≡ ok (logs_of block_log 10 (20 + 1 - 10))
fetch_logs_in_chunks_lem_example =
    fetch_logs_in_chunks_lem demo_fetch block_log (λ from to h. refl) none 10 20 4 tt (omega arith)
      (omega arith) (omega arith)

abbrev no_first_block : Option Text
no_first_block = none

abbrev demo_range : ResolvedRange
demo_range = record { from = 38; to = 88; head = 100; finalized_head = 88 }

range_demo : resolve_finalized_range (ok 100) none (codes "latest") 50 (pos 12) ≡ ok demo_range
unfolding resolve_finalized_range parse_block_arg resolve_from text_eq
range_demo = refl

resolve_finalized_range-latest_example :
    (pos 0 ≤ℤ pos 12)
    × (demo_range.from ≤ demo_range.to)
    × (demo_range.to ≡ demo_range.finalized_head)
    × (demo_range.finalized_head ≡ 100 - as_u64 (pos 12))
    × (demo_range.finalized_head ≤ demo_range.head)
    × (no_first_block ≡ none → demo_range.from ≡ demo_range.to - 50)
resolve_finalized_range-latest_example =
    resolve_finalized_range-latest 100 no_first_block 50 (pos 12) demo_range range_demo

-- A repository that is the list of its events.
abbrev event_list : ReorgRepository (List ReorgEventInsert)
event_list = record {
  indexed_block_hashes = λ id from to events. ok [];
  checkpoint_for_source = λ id events. ok none;
  record_reorg_event = λ event events. (ok tt, events ++ event ∷ []);
}

abbrev same_events : List ReorgEventInsert → List ReorgEventInsert
same_events events = events

abbrev demo_source : SourceRef
demo_source = record {
  id = 1;
  chain_id = pos 1;
  contract_address = codes "0x01";
  token_standard = codes "erc20";
}

abbrev mismatch_at : ℕ → ReorgMismatch
mismatch_at block = record {
  block_number = pos block;
  expected_block_hash = codes "0xAA";
  actual_block_hash = codes "0xBB";
}

-- Blocks 10 and 11 are a run, and block 14 is another.
abbrev demo_mismatches : List ReorgMismatch
demo_mismatches = mismatch_at 10 ∷ mismatch_at 11 ∷ mismatch_at 14 ∷ []

record_reorg_ranges_lem_example :
    (events : List ReorgEventInsert) × (es : List ReorgEventInsert) × (record_reorg_ranges
        event_list demo_source demo_mismatches []
      ≡ (ok tt, events))
    × (events ≡ [] ++ es)
    × (all_mismatches es ≡ demo_mismatches)
    × All (IsEvent demo_source) es
    × Separated es
record_reorg_ranges_lem_example =
    record_reorg_ranges_lem event_list demo_source same_events
      (λ event events. (events ++ event ∷ [], refl, refl)) demo_mismatches []
