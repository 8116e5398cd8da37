-- ===== src/Ingest/Range.antt =====
-- The range that a scan resolves to.
use rust_evm_indexer.Base.{ℕ, ◌-◌, ◌≤◌, ◌≡◌, refl, Option, none, some, arith, ok}
use rust_evm_indexer.Base.Int.{ℤ, pos, ◌≤ℤ◌, as_u64}
use rust_evm_indexer.Base.Text.{Text, codes, text_eq}
use rust_evm_indexer.Ingest.{ResolvedRange, parse_block_arg, resolve_from, resolve_finalized_range}

parse_latest : (latest : ℕ) → parse_block_arg (codes "latest") latest ≡ ok latest
unfolding parse_block_arg text_eq
parse_latest latest = refl

-- A range that ends at `latest` and is resolved is not inverted, ends at the finalized head, which
-- lies the confirmations below the head and at or below it, and without a first block it reaches
-- `lookback` blocks back.
pub resolve_finalized_range-latest :
    (head : ℕ) (from_block : Option Text) (lookback : ℕ) (confirmations : ℤ) (range : ResolvedRange)
    → resolve_finalized_range (ok head) from_block (codes "latest") lookback confirmations
      ≡ ok range
    → (pos 0 ≤ℤ confirmations)
      × (range.from ≤ range.to)
      × (range.to ≡ range.finalized_head)
      × (range.finalized_head ≡ head - as_u64 confirmations)
      × (range.finalized_head ≤ range.head)
      × (from_block ≡ none → range.from ≡ range.to - lookback)
unfolding resolve_finalized_range resolve_from
resolve_finalized_range-latest head none lookback confirmations range done =
    ground (arith, done, parse_latest (head - as_u64 confirmations))
resolve_finalized_range-latest head (some value) lookback confirmations range done =
    ground (arith, done, parse_latest (head - as_u64 confirmations))
