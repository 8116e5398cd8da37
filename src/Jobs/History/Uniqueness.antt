-- ===== src/Jobs/History/Uniqueness.antt =====
-- The unique keys: no two jobs share an id, an idempotency key, or a source, type and range.
use rust_evm_indexer.Base.{
  ℕ, ◌+◌, ◌≡◌, ◌⊎◌, ap, ◌∙◌, Bool, false, List, [], ◌∷◌, ◌++◌, Option, none, some, if◌then◌else◌,
  select_first, update_where, All, In, All-In, arith, Bool-cases, Option-cases, inl, inr,
}
use rust_evm_indexer.Jobs.Table.{JobRow, JobsDb, has_id, update_attempt_status}
use rust_evm_indexer.Jobs.Enqueue.{NewJob, conflicts, new_job_row, row_checks, enqueue}
use rust_evm_indexer.Base.Int.{ℤ}
use rust_evm_indexer.Base.Text.{Text}
use rust_evm_indexer.Domain.Job.{JobType}
use rust_evm_indexer.Jobs.Lease.{lock_next_candidate, leased_row, lease_next_candidate}
use rust_evm_indexer.Jobs.Lease.Candidate.{lock_next_candidate_lem, lease_none, lease_some}
use rust_evm_indexer.Jobs.Marks.Cases.{
  Kept, Marked, same, moved, mark_running-Marked, mark_succeeded-Marked, mark_failed-Marked,
  mark_interrupted-Marked,
}
use rust_evm_indexer.Jobs.History.{
  Call, enqueues, leases, runs, succeeds, fails, interrupts, step, run, empty_db,
}

-- Each row conflicts with none before it.
abbrev pub Unique : List JobRow → Type 0
Unique [] = Unit
Unique (row ∷ rows) = All (λ later. conflicts later row ≡ false) rows × Unique rows

conflicts-Kept : (x x' y y' : JobRow) → Kept x x' → Kept y y' → conflicts y' x' ≡ conflicts y x
conflicts-Kept x x' y y' k l = λ i.
    conflicts
      (record y {
        id = l.id i;
        job_type = l.job_type i;
        source_id = l.source_id i;
        from_block = l.from_block i;
        to_block = l.to_block i;
        idempotency_key = l.idempotency_key i;
      })
      (record x {
        id = k.id i;
        job_type = k.job_type i;
        source_id = k.source_id i;
        from_block = k.from_block i;
        to_block = k.to_block i;
        idempotency_key = k.idempotency_key i;
      })

All-append_one :
    (P : JobRow → Type 0) (rows : List JobRow) (row : JobRow)
    → All P rows
    → P row
    → All P (rows ++ row ∷ [])
All-append_one P [] row h p = (p, tt)
All-append_one P (r ∷ rows) row h p = (h.0, All-append_one P rows row h.1 p)

-- A row that conflicts with none is new at the end.
select_first-none :
    (test : JobRow → Bool) (rows : List JobRow)
    → select_first test rows ≡ none
    → All (λ row. test row ≡ false) rows
select_first-none test [] e = tt
select_first-none test (row ∷ rows) e = ground (arith, select_first-none test rows)

append-Unique :
    (rows : List JobRow) (row : JobRow)
    → All (λ old. conflicts row old ≡ false) rows
    → Unique rows
    → Unique (rows ++ row ∷ [])
append-Unique [] row f u = (tt, tt)
append-Unique (r ∷ rows) row f u =
    (All-append_one _ rows row u.0 f.0, append-Unique rows row f.1 u.1)

-- The row with its change, where the id is the one that is changed.
abbrev changed : ℕ → (JobRow → JobRow) → JobRow → JobRow
changed k change row = if has_id k row then change row else row

changed-Kept :
    (k : ℕ) (change : JobRow → JobRow)
    → ((row : JobRow) → Kept row (change row))
    → (row : JobRow) → Kept row (changed k change row)
changed-Kept k change keeps row = elim (Bool-cases (has_id k row)) [
  | inl hit ↦ rw hit (keeps row)
  | inr miss ↦ rw miss (ground arith)
]

later-Kept :
    (k : ℕ) (change : JobRow → JobRow)
    → ((row : JobRow) → Kept row (change row))
    → (x x' : JobRow) → Kept x x'
    → (rows : List JobRow) → All (λ later. conflicts later x ≡ false) rows
    → All (λ later. conflicts later x' ≡ false) (update_where (has_id k) change rows)
later-Kept k change keeps x x' kept [] h = tt
later-Kept k change keeps x x' kept (row ∷ rows) h = (
  conflicts-Kept x x' row _ kept (changed-Kept k change keeps row) ∙ h.0,
  later-Kept k change keeps x x' kept rows h.1,
)

pub with_job-Unique :
    (k : ℕ) (change : JobRow → JobRow)
    → ((row : JobRow) → Kept row (change row))
    → (rows : List JobRow) → Unique rows
    → Unique (update_where (has_id k) change rows)
with_job-Unique k change keeps [] u = tt
with_job-Unique k change keeps (row ∷ rows) u = (
  later-Kept k change keeps row _ (changed-Kept k change keeps row) rows u.0,
  with_job-Unique k change keeps rows u.1,
)

pub Marked-Unique : {db db' : JobsDb} → Marked db db' → Unique db.jobs → Unique db'.jobs
unfolding update_attempt_status
Marked-Unique same u = u
Marked-Unique {db} (moved k change keeps _ _ _ _ _ _ _) u = with_job-Unique k change keeps db.jobs u

-- `enqueue` adds its row behind the others if it conflicts with none, and else changes nothing.
pub enqueue_cases :
    (now : ℕ) (job : NewJob) (db : JobsDb)
    → let row = new_job_row now job in
      ((enqueue now job db).1 ≡ db)
      ⊎ ((select_first (conflicts row) db.jobs ≡ none)
          × ((enqueue now job db).1 ≡ record db { jobs = db.jobs ++ row ∷ [] }))
unfolding enqueue
enqueue_cases now job db =
    let row = new_job_row now job in
    elim (Bool-cases (row_checks row)) [
      | inr bad ↦ inl (rw bad)
      | inl good ↦ elim (Option-cases (select_first (conflicts row) db.jobs)) [
        | inl e ↦ inr (e, ground (arith, good, e))
        | inr (old, e) ↦ inl (ground (arith, good, e))
      ]
    ]

pub enqueue-Unique :
    (now : ℕ) (job : NewJob) (db : JobsDb) → Unique db.jobs → Unique (enqueue now job db).1.jobs
enqueue-Unique now job db u = elim (enqueue_cases now job db) [
  | inl e ↦ rw e u
  | inr (fresh, e) ↦ rw e (
      append-Unique db.jobs _ (select_first-none (conflicts (new_job_row now job)) db.jobs fresh) u)
]

-- Under the unique keys a row is the one that its id finds.
pub Unique-select_first :
    (rows : List JobRow) (row : JobRow)
    → Unique rows
    → In row rows
    → select_first (has_id row.id) rows ≡ some row
Unique-select_first [] row u m = absurd m
Unique-select_first (r ∷ rows) row u (inl e) = ground (arith, e, ap (λ (x : JobRow). x.id) e)
Unique-select_first (r ∷ rows) row u (inr m) = ground (
  arith,
  All-In (λ later. conflicts later r ≡ false) rows row u.0 m,
  Unique-select_first rows row u.1 m,
)

-- A lease changes no key.
pub lease-Unique :
    (seen now : ℕ) (locked : ℕ → Bool) (worker_id : Text) (lease_for : ℕ)
    (job_type : Option JobType) (chain_id : Option ℤ) (db : JobsDb)
    → Unique db.jobs
    → Unique (lease_next_candidate seen now locked worker_id lease_for job_type chain_id db).1.jobs
lease-Unique seen now locked worker_id lease_for job_type chain_id db u =
    elim (Option-cases (lock_next_candidate seen locked job_type chain_id db)) [
      | inl e ↦ rw (lease_none seen now locked worker_id lease_for job_type chain_id db e) u
      | inr (row, e) ↦
          let there = (lock_next_candidate_lem seen locked job_type chain_id db row e).0 in
          rw
            (lease_some seen now locked worker_id lease_for job_type chain_id db row e
              (Unique-select_first db.jobs row u there))
            (with_job-Unique row.id (leased_row worker_id lease_for now (row.attempts + 1))
              (λ r. ground arith) db.jobs u)
    ]

pub step-Unique : (call : Call) (db : JobsDb) → Unique db.jobs → Unique (step call db).jobs
unfolding step
step-Unique (enqueues now job) db u = enqueue-Unique now job db u
step-Unique (leases seen now locked w lf t c) db u = lease-Unique seen now locked w lf t c db u
step-Unique (runs now id) db u = Marked-Unique (mark_running-Marked now id db) u
step-Unique (succeeds now id) db u = Marked-Unique (mark_succeeded-Marked now id db) u
step-Unique (fails now id c m) db u = Marked-Unique (mark_failed-Marked now id c m db) u
step-Unique (interrupts now id m) db u = Marked-Unique (mark_interrupted-Marked now id m db) u

pub run-Unique_from :
    (calls : List Call) (db : JobsDb) → Unique db.jobs → Unique (run calls db).jobs
unfolding run
run-Unique_from [] db u = u
run-Unique_from (call ∷ calls) db u = run-Unique_from calls (step call db) (step-Unique call db u)

-- After any calls on empty tables no two jobs share an id, an idempotency key, or a source, type
-- and block range.
pub run-Unique : (calls : List Call) → Unique (run calls empty_db).jobs
run-Unique calls = run-Unique_from calls empty_db tt
