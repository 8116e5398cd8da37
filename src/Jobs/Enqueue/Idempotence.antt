-- ===== src/Jobs/Enqueue/Idempotence.antt =====
-- Enqueueing a job again finds the one that is there.
use rust_evm_indexer.Base.{
  ℕ, ◌≡◌, refl, sym, subst, ◌∙◌, Bool, true, false, List, [], ◌∷◌, ◌++◌, some, select_first, arith,
  Bool-cases, Option-cases, inl, inr, ok, err, Result, Result-cases, ok_inj, none, In,
}
use rust_evm_indexer.Base.Text.{text_eq_refl}
use rust_evm_indexer.Jobs.Table.{JobRow, JobsDb}
use rust_evm_indexer.Jobs.Enqueue.{
  NewJob, new_job_row, same_key, same_range, conflicts, row_checks, EnqueueResult, inserted,
  existing, existing_enqueue_conflict, enqueue,
}

-- The first row that passes, where none before the last one did.
select_first-append :
    (test : JobRow → Bool) (rows : List JobRow) (row : JobRow)
    → select_first test rows ≡ none
    → test row ≡ true
    → select_first test (rows ++ row ∷ []) ≡ some row
select_first-append test [] row free hit = rw hit refl
select_first-append test (r ∷ rows) row free hit = elim (Bool-cases (test r)) [
  | inl here ↦ absurd (cc (rw here at free))
  | inr miss ↦ rw miss (select_first-append test rows row (rw miss at free) hit)
]

-- A narrower test passes no row that a wider one does not.
select_first-narrow :
    (test wider : JobRow → Bool) (rows : List JobRow)
    → ((r : JobRow) → test r ≡ true → wider r ≡ true)
    → select_first wider rows ≡ none
    → select_first test rows ≡ none
select_first-narrow test wider [] widens free = refl
select_first-narrow test wider (r ∷ rows) widens free = elim (Bool-cases (wider r)) [
  | inl here ↦ absurd (cc (rw here at free))
  | inr miss ↦
      let stays : test r ≡ false = ground (widens r, miss, arith) in
      rw stays (select_first-narrow test wider rows widens (rw miss at free))
]

select_first-In :
    (test : JobRow → Bool) (rows : List JobRow) (row : JobRow)
    → select_first test rows ≡ some row
    → In row rows
select_first-In test [] row e = cc
select_first-In test (r ∷ rows) row e = elim (Bool-cases (test r)) [
  | inl here ↦ let same : some r ≡ some row = rw here at e in inl (cc same)
  | inr miss ↦ inr (select_first-In test rows row (rw miss at e))
]

lookup_key :
    (jobs : List JobRow) (row old : JobRow)
    → select_first (same_key row) jobs ≡ some old
    → existing_enqueue_conflict jobs row ≡ ok old
unfolding existing_enqueue_conflict
lookup_key jobs row old e = ground (arith, e)

-- What the lookup of a conflict answers is in the table.
lookup-In :
    (jobs : List JobRow) (row old : JobRow)
    → existing_enqueue_conflict jobs row ≡ ok old
    → In old jobs
unfolding existing_enqueue_conflict
lookup-In jobs row old e = elim (Option-cases (select_first (same_key row) jobs)) [
  | inr (by_key, found) ↦
      let same = ok_inj (sym (lookup_key jobs row by_key found) ∙ e) in
      subst (λ r. In r jobs) same (select_first-In (same_key row) jobs by_key found)
  | inl no_key ↦ elim (Option-cases (select_first (same_range row) jobs)) [
    | inr (by_range, found) ↦
        let told : existing_enqueue_conflict jobs row ≡ ok by_range =
          ground (arith, no_key, found) in
        let same = ok_inj (sym told ∙ e) in
        subst (λ r. In r jobs) same (select_first-In (same_range row) jobs by_range found)
    | inl no_range ↦ absurd (ground (arith, no_key, no_range, e))
  ]
]

In-last : (rows : List JobRow) (row : JobRow) → In row (rows ++ row ∷ [])
In-last [] row = inl refl
In-last (r ∷ rows) row = inr (In-last rows row)

select_first-weaken :
    (test wider : JobRow → Bool) (rows : List JobRow) (row : JobRow)
    → ((r : JobRow) → test r ≡ true → wider r ≡ true)
    → select_first test rows ≡ some row
    → (found : JobRow) × (select_first wider rows ≡ some found)
select_first-weaken test wider [] row widens e = cc
select_first-weaken test wider (r ∷ rows) row widens e = elim (Bool-cases (wider r)) [
  | inl here ↦ (r, rw here refl)
  | inr miss ↦
      let e' : select_first test rows ≡ some row = ground (widens r, miss, arith) in
      let (found, e'') = select_first-weaken test wider rows row widens e' in (found, rw miss e'')
]

-- Where the lookup of a conflict answers, the insert conflicts.
lookup-conflicts :
    (jobs : List JobRow) (row old : JobRow)
    → existing_enqueue_conflict jobs row ≡ ok old
    → (found : JobRow) × (select_first (conflicts row) jobs ≡ some found)
unfolding existing_enqueue_conflict
lookup-conflicts jobs row old e = elim (Option-cases (select_first (same_key row) jobs)) [
  | inr (by_key, found) ↦
      select_first-weaken (same_key row) (conflicts row) jobs by_key (λ r hit. ground arith) found
  | inl no_key ↦ elim (Option-cases (select_first (same_range row) jobs)) [
    | inr (by_range, found) ↦
        select_first-weaken (same_range row) (conflicts row) jobs by_range (λ r hit. ground arith)
          found
    | inl no_range ↦ absurd (ground (arith, no_key, no_range, e))
  ]
]

enqueue_existing :
    (now : ℕ) (job : NewJob) (db : JobsDb) (old : JobRow)
    → row_checks (new_job_row now job) ≡ true
    → existing_enqueue_conflict db.jobs (new_job_row now job) ≡ ok old
    → enqueue now job db ≡ (ok (existing old), db)
unfolding enqueue
enqueue_existing now job db old checked found =
    let (conflict, e) = lookup-conflicts db.jobs (new_job_row now job) old found in
    ground (arith, checked, found, e)

-- The job that a call has returned.
abbrev pub job_of : EnqueueResult → JobRow
job_of (inserted row) = row
job_of (existing row) = row

-- What a call that succeeds has returned and left.
abbrev Enqueued : ℕ → NewJob → JobsDb → JobsDb → EnqueueResult → Type 0
Enqueued now job db db' r =
    (row_checks (new_job_row now job) ≡ true)
    × (existing_enqueue_conflict db'.jobs (new_job_row now job) ≡ ok (job_of r))
    × In (job_of r) db'.jobs

enqueue-Enqueued :
    (now : ℕ) (job : NewJob) (db db' : JobsDb) (r : EnqueueResult)
    → enqueue now job db ≡ (ok r, db')
    → Enqueued now job db db' r
unfolding enqueue new_job_row
enqueue-Enqueued now job db db' r done =
    let row = new_job_row now job in
    let Known : Result EnqueueResult × JobsDb → Type 0 =
      λ p. elim p.0 as (λ _. Type 0) [ ok r' ↦ Enqueued now job db p.1 r' | err e ↦ Unit ] in
    elim (Bool-cases (row_checks row)) [
      | inr bad ↦ absurd (ground (arith, bad, done))
      | inl checked ↦ elim (Option-cases (select_first (conflicts row) db.jobs)) [
        | inl free ↦
            let e : enqueue now job db
                ≡ (ok (inserted row), record db { jobs = db.jobs ++ row ∷ [] }) =
              ground (arith, checked, free) in
            let no_key =
              select_first-narrow (same_key row) (conflicts row) db.jobs (λ r hit. ground arith)
                free in
            let found =
              select_first-append (same_key row) db.jobs row no_key
                (text_eq_refl job.idempotency_key) in
            subst Known (sym e ∙ done)
              (checked, lookup_key (db.jobs ++ row ∷ []) row row found, In-last db.jobs row)
        | inr (conflict, taken) ↦ elim (Result-cases (existing_enqueue_conflict db.jobs row)) [
          | inl (e, none_found) ↦ absurd (ground (arith, checked, taken, none_found, done))
          | inr (old, found) ↦
              let e : enqueue now job db ≡ (ok (existing old), db) =
                ground (arith, checked, taken, found) in
              subst Known (sym e ∙ done) (checked, found, lookup-In db.jobs row old found)
        ]
      ]
    ]

-- After a call of `enqueue` that succeeds, a call with the same job under any id and at any time
-- returns the job that the first call returned, which is in the table, and leaves the tables as
-- they are.
pub enqueue-again :
    (now later id : ℕ) (job : NewJob) (db db' : JobsDb) (r : EnqueueResult)
    → enqueue now job db ≡ (ok r, db')
    → In (job_of r) db'.jobs
      × (enqueue later (record job { id = id }) db' ≡ (ok (existing (job_of r)), db'))
unfolding new_job_row existing_enqueue_conflict
enqueue-again now later id job db db' r done =
    let (checked, found, there) = enqueue-Enqueued now job db db' r done in
    (there, enqueue_existing later (record job { id = id }) db' (job_of r) checked found)
