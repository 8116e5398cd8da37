-- ===== src/Jobs/Marks/Cases.antt =====
-- Case rules: what holds of the tables a transaction may leave behind holds of the one it leaves.
use rust_evm_indexer.Base.{
  ℕ, ◌≡◌, sym, Result, true, false, List, Option, none, some, select_first, update_where,
  Option-cases, Bool-cases, inl, inr, arith, ok, err, not_found, ◌∷◌, [],
}
use mathlib.Core.Path.{subst}
use rust_evm_indexer.Base.Text.{Text, codes}
use rust_evm_indexer.Domain.Job.{JobStatus, queued, running, succeeded, cancelled}
use rust_evm_indexer.Jobs.Table.{
  JobRow, JobsDb, is_active, has_id, update_job, update_attempt_status,
}
use rust_evm_indexer.Jobs.Marks.{
  running_row, mark_running, succeeded_row, mark_succeeded, next_status, attempt_status,
  released_row, mark_failed, requeue_interrupted, mark_interrupted_for_retry,
}

abbrev pub with_job : ℕ → (JobRow → JobRow) → JobsDb → JobsDb
with_job id change db = record db { jobs = update_where (has_id id) change db.jobs }

module _ (now id : ℕ) (db : JobsDb) (missing : select_first (has_id id) db.jobs ≡ none) where
  -- No transaction changes anything for a job that is not there.
  pub mark_running_missing : mark_running now id db ≡ (err not_found, db)
  unfolding mark_running update_job
  mark_running_missing = ground arith

  pub mark_succeeded_missing : mark_succeeded now id db ≡ (err not_found, db)
  unfolding mark_succeeded update_job
  mark_succeeded_missing = ground arith

  pub mark_failed_missing : (c m : Text) → mark_failed now id c m db ≡ (err not_found, db)
  unfolding mark_failed
  mark_failed_missing c m = ground arith

  pub mark_interrupted_missing :
      (m : Text) → mark_interrupted_for_retry now id m db ≡ (err not_found, db)
  unfolding mark_interrupted_for_retry
  mark_interrupted_missing m = ground arith

-- The row with an id has that id.
pub select_first-id :
    (id : ℕ) (rows : List JobRow) (row : JobRow)
    → select_first (has_id id) rows ≡ some row
    → row.id ≡ id
select_first-id id [] row e = cc
select_first-id id (r ∷ rows) row e = ground (arith, select_first-id id rows row)

module _ (now id : ℕ) (db : JobsDb) (row : JobRow)
    (found : select_first (has_id id) db.jobs ≡ some row) where
  pub mark_running_found : mark_running now id db ≡ (
    ok (running_row now row),
    update_attempt_status now row.id row.attempts running none none
        (with_job id (running_row now) db),
  )
  unfolding mark_running update_job
  mark_running_found = ground arith

  pub mark_succeeded_found : mark_succeeded now id db ≡ (
    ok (succeeded_row now row),
    update_attempt_status now row.id row.attempts succeeded none none
        (with_job id (succeeded_row now) db),
  )
  unfolding mark_succeeded update_job
  mark_succeeded_found = ground arith

  -- The same row is found under its own id.
  pub found_self : select_first (has_id row.id) db.jobs ≡ some row
  found_self =
      subst (λ k. select_first (has_id k) db.jobs ≡ some row)
        (sym (select_first-id id db.jobs row found)) found

  update_job_self :
      (change : JobRow → JobRow)
      → update_job row.id change db ≡ ok (change row, with_job row.id change db)
  unfolding update_job
  update_job_self change = ground (arith, found_self)

  pub mark_failed_found :
      (c m : Text)
      → mark_failed now id c m db ≡ (
        ok (released_row now (next_status row) c m row),
        update_attempt_status now row.id row.attempts
            (attempt_status (next_status row))
            (some c)
            (some m)
            (with_job row.id (released_row now (next_status row) c m) db),
      )
  unfolding mark_failed
  mark_failed_found c m =
      ground (arith, found, update_job_self (released_row now (next_status row) c m))

  pub mark_interrupted_found :
      (m : Text)
      → is_active row.status ≡ true
      → mark_interrupted_for_retry now id m db ≡ (
        ok (released_row now queued (codes "WorkerInterrupted") m row),
        update_attempt_status now row.id row.attempts cancelled
            (some (codes "WorkerInterrupted"))
            (some m)
            (with_job row.id (released_row now queued (codes "WorkerInterrupted") m) db),
      )
  unfolding mark_interrupted_for_retry requeue_interrupted
  mark_interrupted_found m active = ground (
    arith,
    found,
    active,
    update_job_self (released_row now queued (codes "WorkerInterrupted") m),
  )

  pub mark_interrupted_idle :
      (m : Text)
      → is_active row.status ≡ false
      → mark_interrupted_for_retry now id m db ≡ (ok row, db)
  unfolding mark_interrupted_for_retry
  mark_interrupted_idle m idle = ground (arith, found, idle)

-- The part of a job that no transaction but a lease changes, and the lease only in `attempts`.
pub record Kept (old new : JobRow) : Type 0 where
  pub id : new.id ≡ old.id
  pub job_type : new.job_type ≡ old.job_type
  pub source_id : new.source_id ≡ old.source_id
  pub from_block : new.from_block ≡ old.from_block
  pub to_block : new.to_block ≡ old.to_block
  pub idempotency_key : new.idempotency_key ≡ old.idempotency_key

-- What a mark does to the tables: nothing, or it changes the columns of progress of one job and
-- the status of one attempt.
pub data Marked (db : JobsDb) : JobsDb → Type 0 where
  same : Marked db db
  moved :
      (k : ℕ) (change : JobRow → JobRow)
      → ((row : JobRow) → Kept row (change row))
      → ((row : JobRow) → (change row).attempts ≡ row.attempts)
      → (now job n : ℕ) (s : JobStatus) (c m : Option Text)
      → Marked db (update_attempt_status now job n s c m (with_job k change db))

moved_by :
    (k : ℕ) (change : JobRow → JobRow) (now job n : ℕ) (s : JobStatus) (c m : Option Text)
    (db : JobsDb) (r : Result JobRow × JobsDb) (out : Result JobRow)
    → ((row : JobRow) → Kept row (change row) × ((change row).attempts ≡ row.attempts))
    → r ≡ (out, update_attempt_status now job n s c m (with_job k change db))
    → Marked db r.1
moved_by k change now job n s c m db r out keeps e =
    rw e (moved k change (λ row. (keeps row).0) (λ row. (keeps row).1) now job n s c m)

pub mark_running-Marked : (now id : ℕ) (db : JobsDb) → Marked db (mark_running now id db).1
mark_running-Marked now id db = elim (Option-cases (select_first (has_id id) db.jobs)) [
  | inl e ↦ rw (mark_running_missing now id db e) same
  | inr (row, e) ↦
      moved_by id (running_row now) _ _ _ _ _ _ db _ _ (λ r. ground arith)
        (mark_running_found now id db row e)
]

pub mark_succeeded-Marked : (now id : ℕ) (db : JobsDb) → Marked db (mark_succeeded now id db).1
mark_succeeded-Marked now id db = elim (Option-cases (select_first (has_id id) db.jobs)) [
  | inl e ↦ rw (mark_succeeded_missing now id db e) same
  | inr (row, e) ↦
      moved_by id (succeeded_row now) _ _ _ _ _ _ db _ _ (λ r. ground arith)
        (mark_succeeded_found now id db row e)
]

pub mark_failed-Marked :
    (now id : ℕ) (c m : Text) (db : JobsDb) → Marked db (mark_failed now id c m db).1
mark_failed-Marked now id c m db = elim (Option-cases (select_first (has_id id) db.jobs)) [
  | inl e ↦ rw (mark_failed_missing now id db e c m) same
  | inr (row, e) ↦
      moved_by row.id (released_row now (next_status row) c m) _ _ _ _ _ _ db _ _
        (λ r. ground arith) (mark_failed_found now id db row e c m)
]

pub mark_interrupted-Marked :
    (now id : ℕ) (m : Text) (db : JobsDb) → Marked db (mark_interrupted_for_retry now id m db).1
mark_interrupted-Marked now id m db = elim (Option-cases (select_first (has_id id) db.jobs)) [
  | inl e ↦ rw (mark_interrupted_missing now id db e m) same
  | inr (row, e) ↦ elim (Bool-cases (is_active row.status)) [
    | inr idle ↦ rw (mark_interrupted_idle now id db row e m idle) same
    | inl active ↦
        moved_by row.id (released_row now queued (codes "WorkerInterrupted") m) _ _ _ _ _ _ db _ _
          (λ r. ground arith) (mark_interrupted_found now id db row e m active)
  ]
]
