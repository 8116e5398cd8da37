-- ===== src/Reorg.antt =====
-- application/reorg.rs: comparing the hashes that were indexed with those of the node, and
-- recording each run of blocks that differ, over any repository of its port.
mod Mismatches
pub mod Coalescing
use rust_evm_indexer.Base.{
  ℕ, Bool, true, false, ◌&&◌, not, List, [], ◌∷◌, ◌++◌, Option, none, some, leb, ltb, if◌then◌else◌,
  first, last, length, Result, ok, err, or_err, fail_if, inverted_range, block_too_large,
  missing_field,
}
use rust_evm_indexer.Base.Action.{Action, lift, query, pure, ◌>>=◌, ◌>>◌}
use rust_evm_indexer.Base.Int.{ℤ, pos, ◌+ℤ◌, eqb_ℤ, leb_ℤ, i64_max, as_i64, as_u64}
use rust_evm_indexer.Base.Text.{Text, text_eq, text_le, to_ascii_lowercase}
use rust_evm_indexer.Reorg.Mismatches.{to_set, insert_checkpoint, find_mismatches}
use rust_evm_indexer.Ports.{
  SourceRef, SourceCheckpoint, IndexedBlockHash, ReorgMismatch, ReorgEventInsert, ReorgRepository,
}

pub record ReorgVerification : Type 0 where
  pub source_id : ℕ
  pub checked_blocks : ℕ
  pub mismatches : List ReorgMismatch

module _ {S : Type 0} (ledger : ReorgRepository S) (source : SourceRef) where
  -- The event of a range, with its first and last block and the hashes of the first.
  abbrev pub reorg_event : ReorgMismatch → ReorgMismatch → List ReorgMismatch → ReorgEventInsert
  reorg_event front back range = record {
    source_id = source.id;
    chain_id = source.chain_id;
    from_block = front.block_number;
    to_block = back.block_number;
    expected_block_hash = some front.expected_block_hash;
    actual_block_hash = some front.actual_block_hash;
    replay_job_id = none;
    mismatches = range;
  }

  unfoldable pub record_reorg_range : List ReorgMismatch → Action S (Unit {0})
  record_reorg_range range = do
    front ← lift (or_err (first range) missing_field)
    back ← lift (or_err (last range) missing_field)
    ledger.record_reorg_event (reorg_event front back range)

  -- The `for` loop: `range` is the slice from `range_start` to the index.
  unfoldable pub record_loop :
      List ReorgMismatch → ReorgMismatch → List ReorgMismatch → Action S (Unit {0})
  record_loop range previous [] = record_reorg_range range
  record_loop range previous (mismatch ∷ rest) =
      let joined = record_loop (range ++ mismatch ∷ []) mismatch rest in
      let split = record_reorg_range range >> record_loop (mismatch ∷ []) mismatch rest in
      if eqb_ℤ mismatch.block_number (previous.block_number +ℤ pos 1) then joined else split

  unfoldable pub record_reorg_ranges : List ReorgMismatch → Action S (Unit {0})
  record_reorg_ranges [] = pure tt
  record_reorg_ranges (mismatch ∷ rest) = record_loop (mismatch ∷ []) mismatch rest

  unfoldable pub verify_source_reorgs : (ℕ → Result Text) → ℕ → ℕ → Action S ReorgVerification
  verify_source_reorgs block_hash from_block to_block = do
    lift (fail_if (ltb to_block from_block) inverted_range)
    lift (fail_if (ltb i64_max from_block) block_too_large)
    lift (fail_if (ltb i64_max to_block) block_too_large)
    indexed ← query (ledger.indexed_block_hashes source.id (pos from_block) (pos to_block))
    checkpoint ← query (ledger.checkpoint_for_source source.id)
    let expected = insert_checkpoint (pos from_block) (pos to_block) checkpoint (to_set indexed)
    mismatches ← lift (find_mismatches block_hash expected)
    record_reorg_ranges mismatches
    pure (record {
      source_id = source.id;
      checked_blocks = length expected;
      mismatches = mismatches;
    })
