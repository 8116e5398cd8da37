-- ===== src/Jobs/Lease/Candidate.antt =====
-- Which job the query picks, and what leasing it leaves behind.
use rust_evm_indexer.Base.{
  ℕ, ◌+◌, ◌≤◌, ◌≡◌, refl, ◌⊎◌, inl, inr, Bool, true, false, List, [], ◌∷◌, ◌++◌, Option, none, some,
  leb, select, select_first, update_where, All, In, In-select, All-select, ◌<◌, ok, arith,
  Bool-cases, Option-cases,
}
use rust_evm_indexer.Base.Int.{ℤ, eqb_ℤ_iff}
use rust_evm_indexer.Base.Text.{Text}
use rust_evm_indexer.Domain.Job.{JobType, queued, leased, running}
use rust_evm_indexer.Jobs.Table.{
  JobRow, JobsDb, has_id, is_queued, update_job, update_attempt_status,
}
use rust_evm_indexer.Jobs.Lease.{
  is_candidate, oldest, lock_next_candidate, cancel_expired, leased_row, new_attempt,
  lease_candidate, lease_next_candidate,
}

oldest-In : (rows : List JobRow) (row : JobRow) → oldest rows ≡ some row → In row rows
unfolding oldest
oldest-In [] row e = cc
oldest-In (r ∷ rows) row e = elim (Option-cases (oldest rows)) [
  | inl none_left ↦ inl (ground (arith, none_left))
  | inr (other, found) ↦ elim (Bool-cases (leb r.created_at other.created_at)) [
    | inl first ↦ inl (ground (arith, found, first))
    | inr later ↦ inr (oldest-In rows row (ground (arith, found, later)))
  ]
]

oldest-none : (rows : List JobRow) → oldest rows ≡ none → rows ≡ []
unfolding oldest
oldest-none [] e = refl
oldest-none (r ∷ rows) e = ground arith

NotBefore-trans :
    (a b : ℕ) (rows : List JobRow)
    → a ≤ b
    → All (λ row. b ≤ row.created_at) rows
    → All (λ row. a ≤ row.created_at) rows
NotBefore-trans a b [] h p = tt
NotBefore-trans a b (row ∷ rows) h p = (omega (arith, p.0), NotBefore-trans a b rows h p.1)

oldest-le :
    (rows : List JobRow) (row : JobRow)
    → oldest rows ≡ some row
    → All (λ other. row.created_at ≤ other.created_at) rows
unfolding oldest
oldest-le [] row e = tt
oldest-le (r ∷ rows) row e = elim (Option-cases (oldest rows)) [
  | inl none_left ↦ rw (oldest-none rows none_left) (ground (arith, none_left), tt)
  | inr (other, found) ↦ elim (Bool-cases (leb r.created_at other.created_at)) [
    | inl first ↦ (
      ground (arith, found, first),
      NotBefore-trans row.created_at other.created_at rows (ground (arith, found, first))
          (oldest-le rows other found),
    )
    | inr later ↦ (ground (arith, found, later), oldest-le rows row (ground (arith, found, later)))
  ]
]

-- A job that a worker may take at `now`: of the wanted type and chain, held by no other
-- transaction, and queued, or leased or running under a lease that has run out.
pub record Leasable (now : ℕ) (locked : ℕ → Bool) (job_type : Option JobType) (chain_id : Option ℤ)
    (row : JobRow) : Type 0 where
  pub typed : (t : JobType) → job_type ≡ some t → row.job_type ≡ t
  pub on_chain : (c : ℤ) → chain_id ≡ some c → row.chain_id ≡ c
  pub unlocked : locked row.id ≡ false
  pub free :
      (row.status ≡ queued)
      ⊎ (((row.status ≡ leased) ⊎ (row.status ≡ running))
          × ((t : ℕ) × (row.lease_expires_at ≡ some t) × (t < now)))

pub is_candidate-Leasable :
    (now : ℕ) (locked : ℕ → Bool) (job_type : Option JobType) (chain_id : Option ℤ) (row : JobRow)
    → is_candidate now locked job_type chain_id row ≡ true
    → Leasable now locked job_type chain_id row
is_candidate-Leasable now locked job_type chain_id row h = record {
  typed = λ t e. ground (arith, e, h);
  on_chain = λ c e. ground (arith, e, h, eqb_ℤ_iff row.chain_id c);
  unlocked = ground (arith, h);
  free = elim (Option-cases row.lease_expires_at) [
    | inl forever ↦ inl (ground (arith, h, forever))
    | inr (t, e) ↦ elim (Bool-cases (is_queued row.status)) [
      | inl waiting ↦ inl (ground arith)
      | inr taken ↦ inr (ground arith, (t, e, ground (arith, h, e)))
    ]
  ];
}

-- The query picks a row of the table that is a candidate, and no candidate is older; it picks
-- none only if there is none.
pub lock_next_candidate_lem :
    (now : ℕ) (locked : ℕ → Bool) (job_type : Option JobType) (chain_id : Option ℤ) (db : JobsDb)
    (row : JobRow)
    → lock_next_candidate now locked job_type chain_id db ≡ some row
    → In row db.jobs
      × (is_candidate now locked job_type chain_id row ≡ true)
      × All
          (λ other.
            is_candidate now locked job_type chain_id other ≡ true
            → row.created_at ≤ other.created_at)
          db.jobs
unfolding lock_next_candidate
lock_next_candidate_lem now locked job_type chain_id db row e =
    let test = is_candidate now locked job_type chain_id in
    let (there, passes) = In-select test db.jobs row (oldest-In (select test db.jobs) row e) in
    (
      there,
      passes,
      All-select (λ other. row.created_at ≤ other.created_at) test db.jobs
          (oldest-le (select test db.jobs) row e),
    )

cancel_expired_jobs :
    (now : ℕ) (candidate : JobRow) (db : JobsDb) → (cancel_expired now candidate db).jobs ≡ db.jobs
unfolding cancel_expired update_attempt_status
cancel_expired_jobs now candidate db = ground arith

-- The tables behind a lease of the candidate.
abbrev pub leased_db : Text → ℕ → ℕ → JobRow → JobsDb → JobsDb
leased_db worker_id lease_for now candidate db =
    let change = leased_row worker_id lease_for now (candidate.attempts + 1) in
    record {
      jobs = update_where (has_id candidate.id) change db.jobs;
      job_attempts =
          (cancel_expired now candidate db).job_attempts
          ++ new_attempt worker_id (change candidate) ∷ [];
    }

pub lease_candidate_found :
    (worker_id : Text) (lease_for now : ℕ) (candidate : JobRow) (db : JobsDb)
    → select_first (has_id candidate.id) db.jobs ≡ some candidate
    → lease_candidate worker_id lease_for now candidate db
      ≡ ok (
        some (leased_row worker_id lease_for now (candidate.attempts + 1) candidate),
        leased_db worker_id lease_for now candidate db,
      )
unfolding lease_candidate update_job
lease_candidate_found worker_id lease_for now candidate db found =
    ground (arith, found, cancel_expired_jobs now candidate db)

module _ (seen now : ℕ) (locked : ℕ → Bool) (worker_id : Text) (lease_for : ℕ)
    (job_type : Option JobType) (chain_id : Option ℤ) (db : JobsDb) where
  pub lease_none :
      lock_next_candidate seen locked job_type chain_id db ≡ none
      → lease_next_candidate seen now locked worker_id lease_for job_type chain_id db
        ≡ (ok none, db)
  unfolding lease_next_candidate
  lease_none e = ground (arith, e)

  pub lease_some :
      (candidate : JobRow)
      → lock_next_candidate seen locked job_type chain_id db ≡ some candidate
      → select_first (has_id candidate.id) db.jobs ≡ some candidate
      → lease_next_candidate seen now locked worker_id lease_for job_type chain_id db ≡ (
        ok (some (leased_row worker_id lease_for now (candidate.attempts + 1) candidate)),
        leased_db worker_id lease_for now candidate db,
      )
  unfolding lease_next_candidate
  lease_some candidate e found =
      ground (arith, e, lease_candidate_found worker_id lease_for now candidate db found)
