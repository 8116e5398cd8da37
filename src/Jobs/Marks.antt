-- ===== src/Jobs/Marks.antt =====
-- The four transactions that move a leased job on: `mark_running`, `mark_succeeded`, `mark_failed`
-- and `mark_interrupted_for_retry`.
pub mod Cases
pub mod Retry
use rust_evm_indexer.Base.{
  ℕ, Bool, true, false, List, Option, none, some, if◌then◌else◌, select_first, Result, ok, err,
  or_err, not_found, ◌>>=◌,
}
use rust_evm_indexer.Base.Action.{Action, transaction}
use rust_evm_indexer.Base.Int.{ℤ, pos, leb_ℤ}
use rust_evm_indexer.Base.Text.{Text, codes}
use rust_evm_indexer.Domain.Job.{
  JobStatus, queued, running, succeeded, failed, dead_lettered, cancelled,
}
use rust_evm_indexer.Jobs.Table.{
  JobRow, JobsDb, is_active, has_id, update_job, update_attempt_status,
}

abbrev pub running_row : ℕ → JobRow → JobRow
running_row now row = record row { status = running; updated_at = now }

unfoldable pub mark_running : ℕ → ℕ → Action JobsDb JobRow
mark_running now job_id = transaction λ db. do
  (row, db') ← update_job job_id (running_row now) db
  ok (row, update_attempt_status now row.id row.attempts running none none db')

abbrev pub succeeded_row : ℕ → JobRow → JobRow
succeeded_row now row = record row {
  status = succeeded;
  leased_by = none;
  lease_expires_at = none;
  updated_at = now;
}

unfoldable pub mark_succeeded : ℕ → ℕ → Action JobsDb JobRow
mark_succeeded now job_id = transaction λ db. do
  (row, db') ← update_job job_id (succeeded_row now) db
  ok (row, update_attempt_status now row.id row.attempts succeeded none none db')

-- What the job becomes, and its attempt, when the attempt has failed.
abbrev pub next_status : JobRow → JobStatus
next_status row = if leb_ℤ row.max_attempts (pos row.attempts) then dead_lettered else queued

abbrev pub attempt_status : JobStatus → JobStatus
attempt_status dead_lettered = dead_lettered
attempt_status _ = failed

-- A row that is free again, with the error of its last attempt.
abbrev pub released_row : ℕ → JobStatus → Text → Text → JobRow → JobRow
released_row now status error_class error_message row = record row {
  status = status;
  leased_by = none;
  lease_expires_at = none;
  error_class = some error_class;
  error_message = some error_message;
  updated_at = now;
}

unfoldable pub mark_failed : ℕ → ℕ → Text → Text → Action JobsDb JobRow
mark_failed now job_id error_class error_message = transaction λ db. do
  row ← or_err (select_first (has_id job_id) db.jobs) not_found
  let status = next_status row
  (row', db') ← update_job row.id (released_row now status error_class error_message) db
  ok (
    row',
    update_attempt_status now row'.id row'.attempts (attempt_status status) (some error_class)
        (some error_message) db',
  )

-- The branch of `mark_interrupted_for_retry` for a job that is still leased or running.
unfoldable pub requeue_interrupted : ℕ → Text → JobRow → JobsDb → Result (JobRow × JobsDb)
requeue_interrupted now error_message row db = do
  (row', db') ←
      update_job row.id (released_row now queued (codes "WorkerInterrupted") error_message) db
  ok (
    row',
    update_attempt_status now row'.id row'.attempts cancelled (some (codes "WorkerInterrupted"))
        (some error_message) db',
  )

unfoldable pub mark_interrupted_for_retry : ℕ → ℕ → Text → Action JobsDb JobRow
mark_interrupted_for_retry now job_id error_message = transaction λ db. do
  row ← or_err (select_first (has_id job_id) db.jobs) not_found
  if is_active row.status then requeue_interrupted now error_message row db else ok (row, db)
