-- ===== src/Ledger/Checkpoint.antt =====
-- `advance_checkpoint` and `next_contiguous_checkpoint_target` of
-- infra/postgres/ledger_repository.rs: how far a source is processed without a gap.
pub mod Advance
mod Sorted
pub mod Target
use rust_evm_indexer.Base.{
  ℕ, Bool, true, false, ◌&&◌, ◌||◌, not, List, [], ◌∷◌, ◌++◌, Option, none, some, ◌==◌,
  if◌then◌else◌, select, select_first, update_first, Result, ok, err, ◌>>=◌, ◌>>◌, fail_if,
  negative_processed, negative_finalized, processed_above_finalized, checkpoint_hash_mismatch,
  negative_range, inverted_range,
}
use rust_evm_indexer.Base.Int.{ℤ, pos, ◌-ℤ◌, ltb_ℤ, leb_ℤ, eqb_ℤ, max_ℤ, succ_sat}
use rust_evm_indexer.Base.Text.{Text, text_eq, to_ascii_lowercase}
use rust_evm_indexer.Base.Action.{Action, transaction, lift}
use rust_evm_indexer.Domain.Job.{JobType, ingest_range, JobStatus, succeeded}
use rust_evm_indexer.Jobs.Table.{JobRow, job_type_eq}
use rust_evm_indexer.Ledger.Rows.{SourceRow}

pub record CheckpointRow : Type 0 where
  pub source_id : ℕ
  pub processed_block : ℤ
  pub processed_block_hash : Text
  pub finalized_block : ℤ

abbrev pub checkpoint_of : ℕ → List CheckpointRow → Option CheckpointRow
checkpoint_of source_id rows = select_first (λ row. row.source_id == source_id) rows

-- What the update sets on the row that was locked.
unfoldable pub next_checkpoint : ℤ → Text → ℤ → CheckpointRow → CheckpointRow
next_checkpoint processed_block processed_block_hash finalized_block existing = record existing {
  processed_block = max_ℤ existing.processed_block processed_block;
  processed_block_hash =
      if ltb_ℤ existing.processed_block processed_block
      then processed_block_hash
      else existing.processed_block_hash;
  finalized_block = max_ℤ existing.finalized_block finalized_block;
}

-- The transaction behind the guards, on the row that was locked; the hash is in lower case.
unfoldable pub advance_conn :
    ℕ
    → ℤ
    → Text
    → ℤ
    → Option CheckpointRow
    → List CheckpointRow
    → Result (CheckpointRow × List CheckpointRow)
advance_conn source_id processed_block processed_block_hash finalized_block none rows =
    let row : CheckpointRow = record {
      source_id = source_id;
      processed_block = processed_block;
      processed_block_hash = processed_block_hash;
      finalized_block = finalized_block;
    } in
    ok (row, rows ++ row ∷ [])
advance_conn source_id processed_block processed_block_hash finalized_block (some existing) rows =
    if eqb_ℤ processed_block existing.processed_block
      && not (text_eq processed_block_hash existing.processed_block_hash)
    then err checkpoint_hash_mismatch
    else if ltb_ℤ processed_block existing.processed_block
        && leb_ℤ finalized_block existing.finalized_block
    then ok (existing, rows)
    else ok (
      next_checkpoint processed_block processed_block_hash finalized_block existing,
      update_first (λ row. row.source_id == source_id)
          (next_checkpoint processed_block processed_block_hash finalized_block) rows,
    )

unfoldable pub advance_checkpoint : ℕ → ℤ → Text → ℤ → Action (List CheckpointRow) CheckpointRow
advance_checkpoint source_id processed_block processed_block_hash finalized_block =
    if ltb_ℤ processed_block (pos 0)
    then lift (err negative_processed)
    else if ltb_ℤ finalized_block (pos 0)
    then lift (err negative_finalized)
    else if ltb_ℤ finalized_block processed_block
    then lift (err processed_above_finalized)
    else transaction λ rows.
      advance_conn source_id processed_block (to_ascii_lowercase processed_block_hash)
        finalized_block (checkpoint_of source_id rows) rows

-- The order of `sort_unstable` on pairs, which is also that of the query.
abbrev pub range_le : ℤ × ℤ → ℤ × ℤ → Bool
range_le a b = if eqb_ℤ a.0 b.0 then leb_ℤ a.1 b.1 else leb_ℤ a.0 b.0

unfoldable pub insert_range : ℤ × ℤ → List (ℤ × ℤ) → List (ℤ × ℤ)
insert_range r [] = r ∷ []
insert_range r (q ∷ qs) =
    let rest = insert_range r qs in if range_le r q then r ∷ q ∷ qs else q ∷ rest

unfoldable pub sort_ranges : List (ℤ × ℤ) → List (ℤ × ℤ)
sort_ranges [] = []
sort_ranges (r ∷ rs) = insert_range r (sort_ranges rs)

abbrev pub is_succeeded : JobStatus → Bool
is_succeeded succeeded = true
is_succeeded _ = false

abbrev pub of_source : Option ℕ → ℕ → Bool
of_source none source_id = false
of_source (some id) source_id = id == source_id

abbrev pub both : Option ℤ → Option ℤ → Option (ℤ × ℤ)
both none to = none
both (some from) none = none
both (some from) (some to) = some (from, to)

-- The range of a job that counts: a succeeded ingestion of the source that ends past the frontier.
unfoldable pub completed_job_range : ℕ → ℤ → JobRow → Option (ℤ × ℤ)
completed_job_range source_id frontier job = elim (both job.from_block job.to_block) [
  | none ↦ none
  | some range ↦
      if of_source job.source_id source_id
        && job_type_eq job.job_type ingest_range
        && is_succeeded job.status
        && ltb_ℤ frontier range.1
      then some range
      else none
]

abbrev pub push_some : Option (ℤ × ℤ) → List (ℤ × ℤ) → List (ℤ × ℤ)
push_some none ranges = ranges
push_some (some range) ranges = range ∷ ranges

abbrev pub filter_map : (JobRow → Option (ℤ × ℤ)) → List JobRow → List (ℤ × ℤ)
filter_map f [] = []
filter_map f (job ∷ jobs) = push_some (f job) (filter_map f jobs)

abbrev pub option_list : Option (ℤ × ℤ) → List (ℤ × ℤ)
option_list none = []
option_list (some range) = range ∷ []

-- The last loop.
unfoldable pub extend_target : ℤ → List (ℤ × ℤ) → ℤ
extend_target target [] = target
extend_target target ((from, to) ∷ ranges) =
    extend_target (if leb_ℤ from (succ_sat target) && ltb_ℤ target to then to else target) ranges

abbrev pub frontier_of : SourceRow → Option CheckpointRow → ℤ
frontier_of source none = source.start_block -ℤ pos 1
frontier_of source (some row) = row.processed_block

unfoldable pub candidate_ranges :
    SourceRow → Option (ℤ × ℤ) → List CheckpointRow → List JobRow → List (ℤ × ℤ)
candidate_ranges source completed_range checkpoints jobs =
    let frontier = frontier_of source (checkpoint_of source.id checkpoints) in
    sort_ranges (filter_map (completed_job_range source.id frontier) jobs)
    ++ option_list completed_range

abbrev pub check_range : Option (ℤ × ℤ) → Result (Unit {0})
check_range none = ok tt
check_range (some (from, to)) =
    if ltb_ℤ from (pos 0) || ltb_ℤ to (pos 0)
    then err negative_range
    else if ltb_ℤ to from
    then err inverted_range
    else ok tt

unfoldable pub next_contiguous_checkpoint_target :
    SourceRow → Option (ℤ × ℤ) → List CheckpointRow → List JobRow → Result (Option ℤ)
next_contiguous_checkpoint_target source completed_range checkpoints jobs = do
  check_range completed_range
  let frontier = frontier_of source (checkpoint_of source.id checkpoints)
  let target =
      extend_target frontier
        (sort_ranges (candidate_ranges source completed_range checkpoints jobs))
  ok (if ltb_ℤ frontier target then some target else none)
