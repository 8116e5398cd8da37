-- ===== src/Jobs/History/Audit.antt =====
-- The audit trail: each lease of a job opens one attempt row, numbered from 1 without a gap.
use rust_evm_indexer.Base.{
  ℕ, zero, suc, ◌+◌, ◌≡◌, ◌≢◌, refl, sym, ap, ◌∙◌, Bool, ◌&&◌, List, [], ◌∷◌, ◌++◌, Option, none,
  some, ◌==◌, if◌then◌else◌, select_first, update_where, Result, arith, Bool-cases, Option-cases,
  inl, inr,
}
use mathlib.Core.Path.{subst}
use mathlib.Core.List.{append-nil}
use native.Mathlib.Numerals.{add-one}
use rust_evm_indexer.Base.Int.{ℤ}
use rust_evm_indexer.Base.Text.{Text}
use rust_evm_indexer.Domain.Job.{JobType, JobStatus}
use rust_evm_indexer.Jobs.Table.{
  JobRow, JobAttemptRow, JobsDb, has_id, is_active, is_attempt, update_attempt_status,
}
use rust_evm_indexer.Jobs.Lease.{
  expired, lock_next_candidate, cancel_expired, leased_row, new_attempt, lease_next_candidate,
}
use rust_evm_indexer.Jobs.Lease.Candidate.{
  lock_next_candidate_lem, leased_db, lease_none, lease_some,
}
use rust_evm_indexer.Jobs.Marks.Cases.{
  Marked, same, moved, with_job, mark_running-Marked, mark_succeeded-Marked, mark_failed-Marked,
  mark_interrupted-Marked,
}
use rust_evm_indexer.Jobs.History.Uniqueness.{
  Unique, Unique-select_first, enqueue_cases, step-Unique,
}
use rust_evm_indexer.Jobs.Enqueue.{NewJob, new_job_row, enqueue}
use rust_evm_indexer.Jobs.History.{
  Call, enqueues, leases, runs, succeeds, fails, interrupts, step, run, empty_db,
}

-- The numbers of a job's attempts, in the order of the leases.
abbrev pub attempt_numbers : ℕ → List JobAttemptRow → List ℕ
attempt_numbers id [] = []
attempt_numbers id (row ∷ rows) =
    let rest = attempt_numbers id rows in
    if row.job_id == id then row.attempt_number ∷ rest else rest

abbrev pub attempts_or_zero : Option JobRow → ℕ
attempts_or_zero none = 0
attempts_or_zero (some row) = row.attempts

-- The attempts that the job's row counts; none for a job that is not there.
abbrev pub attempts_of : ℕ → List JobRow → ℕ
attempts_of id jobs = attempts_or_zero (select_first (has_id id) jobs)

-- 1, …, n
abbrev pub upto : ℕ → List ℕ
upto zero = []
upto (suc n) = upto n ++ suc n ∷ []

abbrev pub IsAudited : JobsDb → Type 0
IsAudited db = (id : ℕ) → attempt_numbers id db.job_attempts ≡ upto (attempts_of id db.jobs)

attempts_of-update :
    (k : ℕ) (change : JobRow → JobRow)
    → ((row : JobRow) → (change row).id ≡ row.id)
    → ((row : JobRow) → (change row).attempts ≡ row.attempts)
    → (id : ℕ) (jobs : List JobRow)
    → attempts_of id (update_where (has_id k) change jobs) ≡ attempts_of id jobs
attempts_of-update k change ids atts id [] = refl
attempts_of-update k change ids atts id (row ∷ jobs) =
    ground (arith, ids row, atts row, attempts_of-update k change ids atts id jobs)

attempt_numbers-update :
    (id : ℕ) (test : JobAttemptRow → Bool) (change : JobAttemptRow → JobAttemptRow)
    → ((row : JobAttemptRow) → (change row).job_id ≡ row.job_id)
    → ((row : JobAttemptRow) → (change row).attempt_number ≡ row.attempt_number)
    → (rows : List JobAttemptRow)
    → attempt_numbers id (update_where test change rows) ≡ attempt_numbers id rows
attempt_numbers-update id test change ids nums [] = refl
attempt_numbers-update id test change ids nums (row ∷ rows) =
    ground (arith, ids row, nums row, attempt_numbers-update id test change ids nums rows)

attempt_numbers-append :
    (id : ℕ) (rows : List JobAttemptRow) (row : JobAttemptRow)
    → attempt_numbers id (rows ++ row ∷ [])
      ≡ attempt_numbers id rows ++ attempt_numbers id (row ∷ [])
attempt_numbers-append id [] row = refl
attempt_numbers-append id (r ∷ rows) row = ground (arith, attempt_numbers-append id rows row)

upto-add_one : (n : ℕ) → upto (n + 1) ≡ upto n ++ (n + 1) ∷ []
upto-add_one n = rw add-one

-- The status of an attempt is no part of the trail.
update_attempt_status-numbers :
    (now job n : ℕ) (s : JobStatus) (c m : Option Text) (db : JobsDb) (id : ℕ)
    → attempt_numbers id (update_attempt_status now job n s c m db).job_attempts
      ≡ attempt_numbers id db.job_attempts
unfolding update_attempt_status
update_attempt_status-numbers now job n s c m db id =
    attempt_numbers-update id (is_attempt job n) _ (λ row. refl) (λ row. refl) db.job_attempts

update_attempt_status-IsAudited :
    (now job n : ℕ) (s : JobStatus) (c m : Option Text) (db : JobsDb)
    → IsAudited db
    → IsAudited (update_attempt_status now job n s c m db)
unfolding update_attempt_status
update_attempt_status-IsAudited now job n s c m db h id =
    update_attempt_status-numbers now job n s c m db id ∙ h id

-- A change of a job that keeps its id and its count of attempts.
abbrev IsQuiet : (JobRow → JobRow) → Type 0
IsQuiet change =
    ((row : JobRow) → (change row).id ≡ row.id)
    × ((row : JobRow) → (change row).attempts ≡ row.attempts)

quiet-IsAudited :
    (k : ℕ) (change : JobRow → JobRow) (db : JobsDb)
    → IsQuiet change
    → IsAudited db
    → IsAudited (record db { jobs = update_where (has_id k) change db.jobs })
quiet-IsAudited k change db (ids, atts) h id =
    h id ∙ ap upto (sym (attempts_of-update k change ids atts id db.jobs))

Marked-IsAudited : {db db' : JobsDb} → Marked db db' → IsAudited db → IsAudited db'
Marked-IsAudited same h = h
Marked-IsAudited {db} (moved k change keeps atts now job n s c m) h =
    update_attempt_status-IsAudited now job n s c m (with_job k change db)
      (quiet-IsAudited k change db (λ row. (keeps row).id, atts) h)

cancel_expired-numbers :
    (now : ℕ) (candidate : JobRow) (db : JobsDb) (id : ℕ)
    → attempt_numbers id (cancel_expired now candidate db).job_attempts
      ≡ attempt_numbers id db.job_attempts
unfolding cancel_expired
cancel_expired-numbers now candidate db id =
    elim (Bool-cases (is_active candidate.status && expired now candidate.lease_expires_at)) [
      | inl over ↦ rw over (update_attempt_status-numbers _ _ _ _ _ _ db id)
      | inr still ↦ rw still
    ]

-- Jobs with another id keep their count.
attempts_of-other :
    (k : ℕ) (change : JobRow → JobRow)
    → ((row : JobRow) → (change row).id ≡ row.id)
    → (id : ℕ) (jobs : List JobRow) → k ≢ id
    → attempts_of id (update_where (has_id k) change jobs) ≡ attempts_of id jobs
attempts_of-other k change ids id [] ne = refl
attempts_of-other k change ids id (r ∷ jobs) ne =
    ground (arith, ids r, attempts_of-other k change ids id jobs)

attempts_of-lease :
    (k : ℕ) (change : JobRow → JobRow) (n : ℕ)
    → ((row : JobRow) → (change row).id ≡ row.id)
    → ((row : JobRow) → (change row).attempts ≡ n)
    → (id : ℕ) (jobs : List JobRow) (row : JobRow) → select_first (has_id k) jobs ≡ some row
    → attempts_of id (update_where (has_id k) change jobs)
      ≡ (if k == id then n else attempts_of id jobs)
attempts_of-lease k change n ids atts id [] row e = cc
attempts_of-lease k change n ids atts id (r ∷ jobs) row e = ground (
  arith,
  ids r,
  atts r,
  attempts_of-lease k change n ids atts id jobs row,
  attempts_of-other k change ids id jobs,
)

leased_db-IsAudited :
    (worker_id : Text) (lease_for now : ℕ) (candidate : JobRow) (db : JobsDb)
    → select_first (has_id candidate.id) db.jobs ≡ some candidate
    → IsAudited db
    → IsAudited (leased_db worker_id lease_for now candidate db)
unfolding new_attempt
leased_db-IsAudited worker_id lease_for now candidate db found h id =
    let change = leased_row worker_id lease_for now (candidate.attempts + 1) in
    let rows = (cancel_expired now candidate db).job_attempts in
    ground (
      arith,
      attempt_numbers-append id rows (new_attempt worker_id (change candidate)),
      cancel_expired-numbers now candidate db id,
      h id,
      h candidate.id,
      found,
      append-nil (upto (attempts_of id db.jobs)),
      upto-add_one candidate.attempts,
      attempts_of-lease candidate.id change (candidate.attempts + 1) (λ _. refl) (λ _. refl) id
          db.jobs candidate found,
    )

lease-IsAudited :
    (seen now : ℕ) (locked : ℕ → Bool) (worker_id : Text) (lease_for : ℕ)
    (job_type : Option JobType) (chain_id : Option ℤ) (db : JobsDb)
    → Unique db.jobs
    → IsAudited db
    → IsAudited (lease_next_candidate seen now locked worker_id lease_for job_type chain_id db).1
lease-IsAudited seen now locked worker_id lease_for job_type chain_id db u h =
    elim (Option-cases (lock_next_candidate seen locked job_type chain_id db)) [
      | inl e ↦
          subst IsAudited
            (sym (
              ap (λ (r : Result (Option JobRow) × JobsDb). r.1)
                (lease_none seen now locked worker_id lease_for job_type chain_id db e)))
            h
      | inr (row, e) ↦
          let found =
            Unique-select_first db.jobs row u
              (lock_next_candidate_lem seen locked job_type chain_id db row e).0 in
          subst IsAudited
            (sym (
              ap (λ (r : Result (Option JobRow) × JobsDb). r.1)
                (lease_some seen now locked worker_id lease_for job_type chain_id db row e found)))
            (leased_db-IsAudited worker_id lease_for now row db found h)
    ]

attempts_of-append :
    (id : ℕ) (row : JobRow)
    → row.attempts ≡ 0
    → (jobs : List JobRow) → attempts_of id (jobs ++ row ∷ []) ≡ attempts_of id jobs
attempts_of-append id row z [] = ground arith
attempts_of-append id row z (r ∷ jobs) = ground (arith, attempts_of-append id row z jobs)

enqueue-IsAudited :
    (now : ℕ) (job : NewJob) (db : JobsDb) → IsAudited db → IsAudited (enqueue now job db).1
unfolding new_job_row
enqueue-IsAudited now job db h = elim (enqueue_cases now job db) [
  | inl e ↦ subst IsAudited (sym e) h
  | inr (fresh, e) ↦
      subst IsAudited (sym e)
        (λ id. h id ∙ ap upto (sym (attempts_of-append id (new_job_row now job) refl db.jobs)))
]

step-IsAudited :
    (call : Call) (db : JobsDb) → Unique db.jobs → IsAudited db → IsAudited (step call db)
unfolding step
step-IsAudited (enqueues now job) db u h = enqueue-IsAudited now job db h
step-IsAudited (leases seen now locked w lf t c) db u h =
    lease-IsAudited seen now locked w lf t c db u h
step-IsAudited (runs now id) db u h = Marked-IsAudited (mark_running-Marked now id db) h
step-IsAudited (succeeds now id) db u h = Marked-IsAudited (mark_succeeded-Marked now id db) h
step-IsAudited (fails now id c m) db u h = Marked-IsAudited (mark_failed-Marked now id c m db) h
step-IsAudited (interrupts now id m) db u h =
    Marked-IsAudited (mark_interrupted-Marked now id m db) h

run-IsAudited_from :
    (calls : List Call) (db : JobsDb) → Unique db.jobs → IsAudited db → IsAudited (run calls db)
unfolding run
run-IsAudited_from [] db u h = h
run-IsAudited_from (call ∷ calls) db u h =
    run-IsAudited_from calls (step call db) (step-Unique call db u) (step-IsAudited call db u h)

-- After any calls on empty tables the attempt rows of each id are numbered 1, 2, and so on up to
-- the attempts that its job counts, in this order; an id without a job has none.
pub run-IsAudited : (calls : List Call) → IsAudited (run calls empty_db)
run-IsAudited calls = run-IsAudited_from calls empty_db tt (λ id. refl)
