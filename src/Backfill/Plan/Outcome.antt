-- ===== src/Backfill/Plan/Outcome.antt =====
-- What a planning run returns: one job for each chunk of the blocks behind the checkpoint.
use rust_evm_indexer.Base.{
  ℕ, ◌+◌, ◌≤◌, ◌<◌, ◌≡◌, refl, ◌∙◌, List, [], ◌∷◌, Option, none, some, max, if◌then◌else◌, ltb, All,
  ok, length, arith, Bool-cases, inl, inr,
}
use rust_evm_indexer.Base.Int.{
  ℤ, pos, i64_max, u64_max, ◌≤ℤ◌, ◌<ℤ◌, leb_ℤ, pos_part, saturating_add, negsuc,
}
use rust_evm_indexer.Base.Text.{Text}
use rust_evm_indexer.Ports.{
  SourceRef, SourceCheckpoint, NewRangeJob, EnqueueRangeJobResult, inserted, existing,
  BackfillRepository,
}
use rust_evm_indexer.Backfill.{BackfillChunk, ensure_block_fits_i64, block_to_i64}
use rust_evm_indexer.Backfill.Tiling.{Fits, Tiles, nil-Tiles, split_inclusive_range-Tiles}
use rust_evm_indexer.Backfill.Plan.{
  BackfillPlan, total_jobs, resume_from, backfill_plan, planned_ranges, count_result, enqueue_chunk,
  enqueue_chunks, plan_backfill_jobs,
}

block_to_i64_fits : (block : ℕ) → block ≤ i64_max → block_to_i64 block ≡ ok (pos block)
unfolding block_to_i64
block_to_i64_fits block h = ground arith

-- The first block from a block on that the checkpoint has not passed.
abbrev pub IsStart : ℕ → Option SourceCheckpoint → ℕ → Type 0
IsStart from none start = start ≡ from
IsStart from (some checkpoint) start =
    (from ≤ start)
    × (checkpoint.processed_block <ℤ pos start)
    × ((block : ℕ) → from ≤ block → checkpoint.processed_block <ℤ pos block → start ≤ block)

-- The checkpoint's block is an `i64`.
abbrev pub FitsI64 : Option SourceCheckpoint → Type 0
FitsI64 none = Unit
FitsI64 (some checkpoint) = checkpoint.processed_block ≤ℤ pos i64_max

-- `resume_from` behind a checkpoint at a block.
abbrev resume_behind : ℕ → ℤ → ℕ
resume_behind from block =
    if leb_ℤ (pos 0) block then max from (saturating_add (pos_part block) 1) else from

resume_ge : (from : ℕ) (block : ℤ) → from ≤ resume_behind from block
resume_ge from (pos n) = ground arith
resume_ge from (negsuc n) = ground arith

resume_past :
    (from : ℕ) (block : ℤ) → block ≤ℤ pos i64_max → block <ℤ pos (resume_behind from block)
resume_past from (pos n) h = ground arith
resume_past from (negsuc n) h = ground arith

resume_least :
    (from : ℕ) (block : ℤ) (other : ℕ)
    → from ≤ other
    → block <ℤ pos other
    → resume_behind from block ≤ other
resume_least from (pos n) other h k = ground arith
resume_least from (negsuc n) other h k = ground arith

resume_from-IsStart :
    (from : ℕ) (checkpoint : Option SourceCheckpoint)
    → FitsI64 checkpoint
    → IsStart from checkpoint (resume_from from checkpoint)
unfolding resume_from
resume_from-IsStart from none h = refl
resume_from-IsStart from (some checkpoint) h = (
  resume_ge from checkpoint.processed_block,
  resume_past from checkpoint.processed_block h,
  λ block. resume_least from checkpoint.processed_block block,
)

planned_ranges-Tiles :
    (from to size : ℕ)
    → to ≤ u64_max
    → 0 < size
    → (cs : List BackfillChunk) × (planned_ranges from to size ≡ ok cs) × Tiles from to size cs
unfolding planned_ranges
planned_ranges-Tiles from to size t s = elim (Bool-cases (ltb to from)) [
  | inl past ↦ ([], rw past, nil-Tiles from to size (ground arith))
  | inr inside ↦
      let (cs, e, tiles) = split_inclusive_range-Tiles from to size (ground arith) t s in
      (cs, rw inside e, tiles)
]

count_result_sum :
    (r : EnqueueRangeJobResult) (n : ℕ × ℕ)
    → (count_result r n).0 + (count_result r n).1 ≡ n.0 + n.1 + 1
unfolding count_result
count_result_sum inserted n = omega arith
count_result_sum existing n = omega arith

-- The repository takes every job.
abbrev pub Accepts : {S : Type 0} → BackfillRepository S → Type 0
Accepts {S} repositories =
    (job : NewRangeJob) (s : S)
    → (r : EnqueueRangeJobResult) × (s' : S) × (repositories.enqueue_range_job job s ≡ (ok r, s'))

module _ (uuid_text : ℕ → Text) {S : Type 0} (repositories : BackfillRepository S)
    (source : SourceRef) (accepts : Accepts repositories) where
  enqueue_chunk_total :
      (attempts : ℤ) (c : BackfillChunk) (s : S)
      → c.from ≤ i64_max
      → c.to ≤ i64_max
      → (r : EnqueueRangeJobResult) × (s' : S) × (enqueue_chunk uuid_text repositories source
            attempts c s
          ≡ (ok r, s'))
  unfolding enqueue_chunk
  enqueue_chunk_total attempts c s f t =
      rw (block_to_i64_fits c.from f, block_to_i64_fits c.to t, enqueue_chunk) (accepts _ s)

  enqueue_chunks_step :
      (attempts : ℤ) (c : BackfillChunk) (cs : List BackfillChunk) (counts : ℕ × ℕ) (s : S)
      (r : EnqueueRangeJobResult) (s' : S)
      → enqueue_chunk uuid_text repositories source attempts c s ≡ (ok r, s')
      → enqueue_chunks uuid_text repositories source attempts (c ∷ cs) counts s
        ≡ enqueue_chunks uuid_text repositories source attempts cs (count_result r counts) s'
  unfolding enqueue_chunks
  enqueue_chunks_step attempts c cs counts s r s' e = ground (arith, e)

  enqueue_chunks_total :
      (attempts : ℤ) (from to size : ℕ) (cs : List BackfillChunk) (counts : ℕ × ℕ) (s : S)
      → to ≤ i64_max
      → All (Fits from to size) cs
      → (n : ℕ × ℕ) × (s' : S) × (enqueue_chunks uuid_text repositories source attempts cs counts s
          ≡ (ok n, s'))
        × (n.0 + n.1 ≡ counts.0 + counts.1 + length cs)
  unfolding enqueue_chunks
  enqueue_chunks_total attempts from to size [] counts s t f = (counts, s, refl, omega arith)
  enqueue_chunks_total attempts from to size (c ∷ cs) counts s t f =
      let (r, s1, e) = enqueue_chunk_total attempts c s (omega (arith, f.0)) (omega (arith, f.0)) in
      let (n, s2, e', k) =
        enqueue_chunks_total attempts from to size cs (count_result r counts) s1 t f.1 in
      (
        n,
        s2,
        enqueue_chunks_step attempts c cs counts s r s1 e ∙ e',
        omega (arith, k, count_result_sum r counts),
      )

  -- For a range that is not inverted and fits the database, a chunk size and a number of attempts
  -- above zero, and a checkpoint that loads and whose block is an i64, planning succeeds over a
  -- repository that takes every job. The ranges of the plan hold each block of the range that the
  -- checkpoint has not passed exactly once, in chunks of at most the chunk size, and the plan counts
  -- one job for each range.
  pub plan_backfill_jobs_total :
      (from to size : ℕ) (attempts : ℤ) (checkpoint : Option SourceCheckpoint) (s : S)
      → from ≤ to
      → to ≤ i64_max
      → 0 < size
      → pos 1 ≤ℤ attempts
      → FitsI64 checkpoint
      → repositories.checkpoint_for_source source.id s ≡ ok checkpoint
      → (plan : BackfillPlan) × (s' : S) × (plan_backfill_jobs uuid_text repositories source from to
            size attempts s
          ≡ (ok plan, s'))
        × ((start : ℕ) × IsStart from checkpoint start × Tiles start to size plan.ranges)
        × (total_jobs plan ≡ length plan.ranges)
  unfolding plan_backfill_jobs ensure_block_fits_i64 total_jobs
  plan_backfill_jobs_total from to size attempts checkpoint s h t z a fits c =
      let start : ℕ = resume_from from checkpoint in
      let (cs, e, tiles) = planned_ranges-Tiles start to size (omega arith) z in
      let (n, s', e', k) = enqueue_chunks_total attempts start to size cs (0, 0) s t tiles.fits in
      (
        backfill_plan source from to size cs n,
        s',
        ground (arith, c, e, e'),
        (start, resume_from-IsStart from checkpoint fits, tiles),
        omega (arith, k),
      )
