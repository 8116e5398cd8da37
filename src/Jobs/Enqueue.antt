-- ===== src/Jobs/Enqueue.antt =====
-- `NewJob` and `JobRepository::enqueue`.
pub mod Idempotence
use rust_evm_indexer.Base.{
  ℕ, Bool, true, false, ◌&&◌, ◌||◌, List, [], ◌∷◌, ◌++◌, Option, none, some, ◌==◌, if◌then◌else◌,
  select_first, Result, ok, err, not_found, row_rejected,
}
use rust_evm_indexer.Base.Action.{Action}
use rust_evm_indexer.Base.Int.{ℤ, pos, leb_ℤ, eqb_ℤ}
use rust_evm_indexer.Base.Text.{Text, text_eq}
use rust_evm_indexer.Domain.Job.{JobType, queued}
use rust_evm_indexer.Ports.{NewRangeJob, EnqueueRangeJobResult}
use rust_evm_indexer.Jobs.Table.{JobRow, JobsDb, job_type_eq, has_id}

pub record NewJob : Type 0 where
  pub id : ℕ
  pub job_type : JobType
  pub source_id : Option ℕ
  pub chain_id : ℤ
  pub from_block : Option ℤ
  pub to_block : Option ℤ
  pub idempotency_key : Text
  pub max_attempts : ℤ

-- `NewJob::new`, with the uuid that `Uuid::new_v4` drew.
unfoldable pub new_job : ℕ → JobType → ℤ → Text → NewJob
new_job id job_type chain_id idempotency_key = record {
  id = id;
  job_type = job_type;
  source_id = none;
  chain_id = chain_id;
  from_block = none;
  to_block = none;
  idempotency_key = idempotency_key;
  max_attempts = pos 5;
}

unfoldable pub with_range : ℤ → ℤ → NewJob → NewJob
with_range from_block to_block job = record job {
  from_block = some from_block;
  to_block = some to_block;
}

unfoldable pub with_source : ℕ → NewJob → NewJob
with_source source_id job = record job { source_id = some source_id }

unfoldable pub with_max_attempts : ℤ → NewJob → NewJob
with_max_attempts max_attempts job = record job { max_attempts = max_attempts }

-- `NewJobRow::from`, completed by the defaults of the table.
unfoldable pub new_job_row : ℕ → NewJob → JobRow
new_job_row now job = record {
  id = job.id;
  job_type = job.job_type;
  status = queued;
  source_id = job.source_id;
  chain_id = job.chain_id;
  from_block = job.from_block;
  to_block = job.to_block;
  idempotency_key = job.idempotency_key;
  leased_by = none;
  lease_expires_at = none;
  attempts = 0;
  max_attempts = job.max_attempts;
  error_class = none;
  error_message = none;
  created_at = now;
  updated_at = now;
}

abbrev pub same_key : JobRow → JobRow → Bool
same_key new old = text_eq old.idempotency_key new.idempotency_key

-- SQL's `=`, which is not true of a null.
abbrev pub same_id : Option ℕ → Option ℕ → Bool
same_id (some a) (some b) = a == b
same_id _ _ = false

abbrev pub same_block : Option ℤ → Option ℤ → Bool
same_block (some a) (some b) = eqb_ℤ a b
same_block _ _ = false

-- The unique index on source, type and range, which skips rows with a null in it.
abbrev pub same_range : JobRow → JobRow → Bool
same_range new old =
    same_id old.source_id new.source_id
    && (job_type_eq old.job_type new.job_type
        && (same_block old.from_block new.from_block && same_block old.to_block new.to_block))

-- A row that the insert conflicts with: on the primary key or a unique key.
abbrev pub conflicts : JobRow → JobRow → Bool
conflicts new old = has_id new.id old || (same_key new old || same_range new old)

abbrev pub nonnegative : Option ℤ → Bool
nonnegative none = true
nonnegative (some block) = leb_ℤ (pos 0) block

abbrev pub ordered : Option ℤ → Option ℤ → Bool
ordered (some from) (some to) = leb_ℤ from to
ordered _ _ = true

-- The `CHECK` constraints of the table that a new row can break.
abbrev pub row_checks : JobRow → Bool
row_checks row =
    leb_ℤ (pos 1) row.max_attempts
    && (nonnegative row.from_block
        && (nonnegative row.to_block && ordered row.from_block row.to_block))

pub data EnqueueResult : Type 0 where
  inserted existing : JobRow → EnqueueResult

-- `existing_enqueue_conflict`
unfoldable pub existing_enqueue_conflict : List JobRow → JobRow → Result JobRow
existing_enqueue_conflict jobs new_row = elim (select_first (same_key new_row) jobs) [
  | some row ↦ ok row
  | none ↦ elim (select_first (same_range new_row) jobs) [
    | some row ↦ ok row
    | none ↦ err not_found
  ]
]

-- `enqueue`: an insert that does nothing on a conflict, then a look at what it conflicted with.
unfoldable pub enqueue : ℕ → NewJob → Action JobsDb EnqueueResult
enqueue now job db =
    let row = new_job_row now job in
    if row_checks row
    then elim (select_first (conflicts row) db.jobs) [
      | none ↦ (ok (inserted row), record db { jobs = db.jobs ++ row ∷ [] })
      | some _ ↦ elim (existing_enqueue_conflict db.jobs row) [
        | ok old ↦ (ok (existing old), db)
        | err e ↦ (err e, db)
      ]
    ]
    else (err row_rejected, db)

abbrev pub port_result : EnqueueResult → EnqueueRangeJobResult
port_result (inserted _) = EnqueueRangeJobResult.inserted
port_result (existing _) = EnqueueRangeJobResult.existing

-- `PostgresRepositories::enqueue_range_job`
unfoldable pub enqueue_range_job : ℕ → ℕ → NewRangeJob → Action JobsDb EnqueueRangeJobResult
enqueue_range_job id now job db =
    let (r, db') =
      enqueue now
        (with_max_attempts job.max_attempts (
          with_range job.from_block job.to_block
            (with_source job.source_id (new_job id job.job_type job.chain_id job.idempotency_key))))
        db in
    elim r [ ok result ↦ (ok (port_result result), db') | err e ↦ (err e, db') ]
