-- ===== src/Jobs/History.antt =====
-- The queue under any sequence of calls, by any workers, in any order.
pub mod Audit
pub mod Uniqueness
pub mod Leasing
use rust_evm_indexer.Base.{ℕ, Bool, List, [], ◌∷◌, Option}
use rust_evm_indexer.Base.Int.{ℤ}
use rust_evm_indexer.Base.Text.{Text}
use rust_evm_indexer.Domain.Job.{JobType}
use rust_evm_indexer.Jobs.Table.{JobsDb}
use rust_evm_indexer.Jobs.Enqueue.{NewJob, enqueue}
use rust_evm_indexer.Jobs.Lease.{lease_next_candidate}
use rust_evm_indexer.Jobs.Marks.{
  mark_running, mark_succeeded, mark_failed, mark_interrupted_for_retry,
}

-- A call of the repository that changes the tables, with its arguments and the times it saw.
pub data Call : Type 0 where
  enqueues : ℕ → NewJob → Call
  leases : ℕ → ℕ → (ℕ → Bool) → Text → ℕ → Option JobType → Option ℤ → Call
  runs : ℕ → ℕ → Call
  succeeds : ℕ → ℕ → Call
  fails : ℕ → ℕ → Text → Text → Call
  interrupts : ℕ → ℕ → Text → Call

pub step : Call → JobsDb → JobsDb
step (enqueues now job) db = (enqueue now job db).1
step (leases seen now locked worker_id lease_for job_type chain_id) db =
    (lease_next_candidate seen now locked worker_id lease_for job_type chain_id db).1
step (runs now id) db = (mark_running now id db).1
step (succeeds now id) db = (mark_succeeded now id db).1
step (fails now id error_class error_message) db =
    (mark_failed now id error_class error_message db).1
step (interrupts now id error_message) db = (mark_interrupted_for_retry now id error_message db).1

pub run : List Call → JobsDb → JobsDb
run [] db = db
run (call ∷ calls) db = run calls (step call db)

abbrev pub empty_db : JobsDb
empty_db = record { jobs = []; job_attempts = [] }
