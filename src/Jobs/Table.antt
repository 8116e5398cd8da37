-- ===== src/Jobs/Table.antt =====
-- The rows of `jobs` and `job_attempts` (infra/postgres/models.rs), the unique keys and checks of
-- the schema, and the updates that every operation of the repository shares.
use rust_evm_indexer.Base.{
  ℕ, Bool, true, false, ◌&&◌, List, Option, none, some, ◌==◌, if◌then◌else◌, select_first,
  update_where, Result, ok, or_err, not_found, ◌>>=◌,
}
use rust_evm_indexer.Base.Int.{ℤ}
use rust_evm_indexer.Base.Text.{Text}
use rust_evm_indexer.Domain.Job.{
  JobType, ingest_range, replay_range, verify_reorg, repair_checkpoint, JobStatus, queued, leased,
  running, succeeded, failed, dead_lettered, cancelled,
}

pub record JobRow : Type 0 where
  pub id : ℕ
  pub job_type : JobType
  pub status : JobStatus
  pub source_id : Option ℕ
  pub chain_id : ℤ
  pub from_block : Option ℤ
  pub to_block : Option ℤ
  pub idempotency_key : Text
  pub leased_by : Option Text
  pub lease_expires_at : Option ℕ
  pub attempts : ℕ
  pub max_attempts : ℤ
  pub error_class : Option Text
  pub error_message : Option Text
  pub created_at : ℕ
  pub updated_at : ℕ

pub record JobAttemptRow : Type 0 where
  pub job_id : ℕ
  pub attempt_number : ℕ
  pub worker_id : Text
  pub finished_at : Option ℕ
  pub status : JobStatus
  pub error_class : Option Text
  pub error_message : Option Text

pub record JobsDb : Type 0 where
  pub jobs : List JobRow
  pub job_attempts : List JobAttemptRow

-- `==` on job types and on statuses.
abbrev pub job_type_eq : JobType → JobType → Bool
job_type_eq ingest_range ingest_range = true
job_type_eq replay_range replay_range = true
job_type_eq verify_reorg verify_reorg = true
job_type_eq repair_checkpoint repair_checkpoint = true
job_type_eq _ _ = false

-- `matches!(status, "leased" | "running")`
abbrev pub is_active : JobStatus → Bool
is_active leased = true
is_active running = true
is_active _ = false

abbrev pub is_queued : JobStatus → Bool
is_queued queued = true
is_queued _ = false

-- `JobStatusExt::is_terminal`
abbrev pub is_terminal : JobStatus → Bool
is_terminal succeeded = true
is_terminal failed = true
is_terminal dead_lettered = true
is_terminal cancelled = true
is_terminal _ = false

abbrev pub has_id : ℕ → JobRow → Bool
has_id id row = row.id == id

-- `UPDATE jobs SET … WHERE id = … RETURNING *`
unfoldable pub update_job : ℕ → (JobRow → JobRow) → JobsDb → Result (JobRow × JobsDb)
update_job id change db = do
  row ← or_err (select_first (has_id id) db.jobs) not_found
  ok (change row, record db { jobs = update_where (has_id id) change db.jobs })

abbrev pub is_attempt : ℕ → ℕ → JobAttemptRow → Bool
is_attempt job_id attempt_number row = row.job_id == job_id && row.attempt_number == attempt_number

-- `update_attempt_status`
unfoldable pub update_attempt_status :
    ℕ → ℕ → ℕ → JobStatus → Option Text → Option Text → JobsDb → JobsDb
update_attempt_status now job_id attempt_number status error_class error_message db = record db {
  job_attempts =
      update_where (is_attempt job_id attempt_number)
        (λ row. record row {
          status = status;
          finished_at = if is_terminal status then some now else none;
          error_class = error_class;
          error_message = error_message;
        })
        db.job_attempts;
}
