-- ===== src/Jobs/Lease.antt =====
-- `lock_next_candidate` and `lease_next_candidate`, with the three entry points.
pub mod Candidate
use rust_evm_indexer.Base.{
  ℕ, ◌+◌, Bool, true, false, ◌&&◌, ◌||◌, not, List, [], ◌∷◌, ◌++◌, Option, none, some, ◌==◌, ltb,
  leb, if◌then◌else◌, select, Result, ok, err, ◌>>=◌,
}
use rust_evm_indexer.Base.Action.{Action, transaction}
use rust_evm_indexer.Base.Int.{ℤ, eqb_ℤ}
use rust_evm_indexer.Base.Text.{Text, codes}
use rust_evm_indexer.Domain.Job.{JobType, leased, cancelled}
use rust_evm_indexer.Jobs.Table.{
  JobRow, JobAttemptRow, JobsDb, job_type_eq, is_active, is_queued, update_job,
  update_attempt_status,
}

abbrev pub wants_type : Option JobType → JobRow → Bool
wants_type none row = true
wants_type (some job_type) row = job_type_eq row.job_type job_type

abbrev pub wants_chain : Option ℤ → JobRow → Bool
wants_chain none row = true
wants_chain (some chain_id) row = eqb_ℤ row.chain_id chain_id

-- `lease_expires_at < now`, not true of a null.
abbrev pub expired : ℕ → Option ℕ → Bool
expired now none = false
expired now (some expires_at) = ltb expires_at now

-- The `WHERE` of the query. `locked` tells which rows other transactions have locked, since the
-- query skips those.
abbrev pub is_candidate : ℕ → (ℕ → Bool) → Option JobType → Option ℤ → JobRow → Bool
is_candidate now locked job_type chain_id row =
    wants_type job_type row
    && (wants_chain chain_id row
        && (not (locked row.id)
            && (is_queued row.status
                || (is_active row.status && expired now row.lease_expires_at))))

-- `ORDER BY created_at LIMIT 1`
unfoldable pub oldest : List JobRow → Option JobRow
oldest [] = none
oldest (row ∷ rows) = elim (oldest rows) [
  | none ↦ some row
  | some other ↦ if leb row.created_at other.created_at then some row else some other
]

unfoldable pub lock_next_candidate :
    ℕ → (ℕ → Bool) → Option JobType → Option ℤ → JobsDb → Option JobRow
lock_next_candidate now locked job_type chain_id db =
    oldest (select (is_candidate now locked job_type chain_id) db.jobs)

-- The attempt of a worker whose lease ran out is closed.
unfoldable pub cancel_expired : ℕ → JobRow → JobsDb → JobsDb
cancel_expired now candidate db =
    if is_active candidate.status && expired now candidate.lease_expires_at
    then update_attempt_status now candidate.id candidate.attempts cancelled
        (some (codes "LeaseExpired")) (some (codes "job lease expired before worker completed")) db
    else db

abbrev pub leased_row : Text → ℕ → ℕ → ℕ → JobRow → JobRow
leased_row worker_id lease_for now attempts row = record row {
  status = leased;
  leased_by = some worker_id;
  lease_expires_at = some (now + lease_for);
  attempts = attempts;
  error_class = none;
  error_message = none;
  updated_at = now;
}

unfoldable pub new_attempt : Text → JobRow → JobAttemptRow
new_attempt worker_id row = record {
  job_id = row.id;
  attempt_number = row.attempts;
  worker_id = worker_id;
  finished_at = none;
  status = leased;
  error_class = none;
  error_message = none;
}

-- The part of the transaction behind the query: lease the candidate and open its attempt.
unfoldable pub lease_candidate : Text → ℕ → ℕ → JobRow → JobsDb → Result (Option JobRow × JobsDb)
lease_candidate worker_id lease_for now candidate db = do
  (row, db') ←
      update_job candidate.id (leased_row worker_id lease_for now (candidate.attempts + 1))
        (cancel_expired now candidate db)
  ok (some row, record db' { job_attempts = db'.job_attempts ++ new_attempt worker_id row ∷ [] })

-- `lease_next_candidate`; `seen` is the time of the query and `now` that of the update.
unfoldable pub lease_next_candidate :
    ℕ → ℕ → (ℕ → Bool) → Text → ℕ → Option JobType → Option ℤ → Action JobsDb (Option JobRow)
lease_next_candidate seen now locked worker_id lease_for job_type chain_id = transaction λ db.
    elim (lock_next_candidate seen locked job_type chain_id db) [
      | none ↦ ok (none, db)
      | some candidate ↦ lease_candidate worker_id lease_for now candidate db
    ]

unfoldable pub lease_next : ℕ → ℕ → (ℕ → Bool) → Text → ℕ → Action JobsDb (Option JobRow)
lease_next seen now locked worker_id lease_for =
    lease_next_candidate seen now locked worker_id lease_for none none

unfoldable pub lease_next_for_type :
    ℕ → ℕ → (ℕ → Bool) → Text → ℕ → JobType → Action JobsDb (Option JobRow)
lease_next_for_type seen now locked worker_id lease_for job_type =
    lease_next_candidate seen now locked worker_id lease_for (some job_type) none

unfoldable pub lease_next_for_type_and_chain :
    ℕ → ℕ → (ℕ → Bool) → Text → ℕ → JobType → ℤ → Action JobsDb (Option JobRow)
lease_next_for_type_and_chain seen now locked worker_id lease_for job_type chain_id =
    lease_next_candidate seen now locked worker_id lease_for (some job_type) (some chain_id)
