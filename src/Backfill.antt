-- ===== src/Backfill.antt =====
-- application/backfill.rs: splitting a block range into chunks and planning one ingest job for each.
pub mod Tiling
pub mod Plan
use rust_evm_indexer.Base.{
  ℕ, zero, suc, ◌+◌, ◌-◌, min, max, Bool, true, false, List, [], ◌∷◌, ◌++◌, Option, none, some, leb,
  ltb, ◌==◌, if◌then◌else◌, first, last, Result, ok, err, ◌>>=◌, ◌>>◌, fail_if, inverted_range,
  range_size_zero, max_attempts_not_positive, block_too_large, out_of_fuel, length, ◌≡◌, refl,
}
use rust_evm_indexer.Base.Int.{ℤ, pos, negsuc, leb_ℤ, i64_max, u64_max, saturating_add, as_i64}
use rust_evm_indexer.Base.Text.{Text, codes}

pub record BackfillChunk : Type 0 where
  pub from : ℕ
  pub to : ℕ

-- The `while` loop of `split_inclusive_range`, a round for each unit of fuel.
split_loop : ℕ → ℕ → ℕ → ℕ → Result (List BackfillChunk)
split_loop zero range_from to range_size = err out_of_fuel
split_loop (suc fuel) range_from to range_size =
    let range_to = min (saturating_add range_from (range_size - 1)) to in
    let chunk : BackfillChunk = record { from = range_from; to = range_to } in
    let rest = split_loop fuel (range_to + 1) to range_size in
    if leb range_from to
    then (if range_to == u64_max then ok (chunk ∷ []) else (rest >>= λ ranges. ok (chunk ∷ ranges)))
    else ok []

unfoldable pub split_inclusive_range : ℕ → ℕ → ℕ → Result (List BackfillChunk)
unfolding split_loop
split_inclusive_range from to range_size = do
  fail_if (ltb to from) inverted_range
  fail_if (range_size == 0) range_size_zero
  split_loop (to - from + 2) from to range_size

pub ensure_block_fits_i64 : ℕ → Result (Unit {0})
ensure_block_fits_i64 block = fail_if (ltb i64_max block) block_too_large

pub block_to_i64 : ℕ → Result ℤ
unfolding ensure_block_fits_i64
block_to_i64 block = do ensure_block_fits_i64 block; ok (as_i64 block)
