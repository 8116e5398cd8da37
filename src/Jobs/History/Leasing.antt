-- ===== src/Jobs/History/Leasing.antt =====
-- What a worker is given: the oldest free job of its kind, and no job that another holds.
use rust_evm_indexer.Base.{
  ℕ, ◌+◌, ◌≤◌, ◌≡◌, refl, sym, ap, ◌∙◌, inl, inr, Bool, true, false, List, [], ◌∷◌, Option, none,
  some, select_first, update_where, All, In, All-In, ◌≢◌, ok, arith, Option-cases,
}
use mathlib.Core.Path.{subst, subst₂}
use rust_evm_indexer.Base.Int.{ℤ, eqb_ℤ_iff}
use rust_evm_indexer.Base.Text.{Text}
use rust_evm_indexer.Domain.Job.{JobType, JobStatus}
use rust_evm_indexer.Jobs.Table.{JobRow, JobsDb, has_id, is_active}
use rust_evm_indexer.Jobs.Lease.{
  is_candidate, lock_next_candidate, leased_row, lease_next_candidate,
}
use rust_evm_indexer.Jobs.Lease.Candidate.{
  Leasable, is_candidate-Leasable, lock_next_candidate_lem, leased_db, lease_none, lease_some,
}
use rust_evm_indexer.Jobs.History.Uniqueness.{Unique, Unique-select_first}

Leasable-is_candidate :
    (now : ℕ) (locked : ℕ → Bool) (t : Option JobType) (c : Option ℤ) (row : JobRow)
    → Leasable now locked t c row
    → is_candidate now locked t c row ≡ true
Leasable-is_candidate now locked none none row l = ground (arith, l.unlocked, l.free)
Leasable-is_candidate now locked (some t) none row l =
    ground (arith, l.typed t refl, l.unlocked, l.free)
Leasable-is_candidate now locked none (some c) row l =
    ground (arith, l.on_chain c refl, eqb_ℤ_iff row.chain_id c, l.unlocked, l.free)
Leasable-is_candidate now locked (some t) (some c) row l =
    ground (arith, l.typed t refl, l.on_chain c refl, eqb_ℤ_iff row.chain_id c, l.unlocked, l.free)

-- The changed row is in the table.
In-update :
    (k : ℕ) (change : JobRow → JobRow) (rows : List JobRow) (row : JobRow)
    → has_id k row ≡ true
    → In row rows
    → In (change row) (update_where (has_id k) change rows)
In-update k change (r ∷ rows) row h (inl e) = inl (ground (arith, ap (has_id k) e, ap change e))
In-update k change (r ∷ rows) row h (inr m) = inr (In-update k change rows row h m)
In-update k change [] row h m = absurd m

-- What a call that returned `row` had found: `old`, free and the oldest such job, which it left
-- leased under one more attempt.
pub record Leased (seen now : ℕ) (locked : ℕ → Bool) (worker_id : Text) (lease_for : ℕ)
    (job_type : Option JobType) (chain_id : Option ℤ) (db db' : JobsDb) (old row : JobRow)
    : Type 0 where
  pub there : In old db.jobs
  pub free : Leasable seen locked job_type chain_id old
  pub oldest :
      (other : JobRow)
      → In other db.jobs
      → Leasable seen locked job_type chain_id other
      → old.created_at ≤ other.created_at
  pub leased : row ≡ record old {
    status = JobStatus.leased;
    leased_by = some worker_id;
    lease_expires_at = some (now + lease_for);
    attempts = old.attempts + 1;
    error_class = none;
    error_message = none;
    updated_at = now;
  }
  pub stored : In row db'.jobs
  pub others : (other : JobRow) → In other db.jobs → has_id old.id other ≡ false → In other db'.jobs

-- A job with another id stays in the table as it is.
In-update_other :
    (k : ℕ) (change : JobRow → JobRow) (rows : List JobRow) (row : JobRow)
    → has_id k row ≡ false
    → In row rows
    → In row (update_where (has_id k) change rows)
In-update_other k change [] row h m = absurd m
In-update_other k change (r ∷ rows) row h (inl e) = inl (ground (arith, h, e, ap (has_id k) e))
In-update_other k change (r ∷ rows) row h (inr m) = inr (In-update_other k change rows row h m)

All-In_two :
    (P Q : JobRow → Type 0) (rows : List JobRow) (row : JobRow)
    → All (λ other. P other → Q other) rows
    → In row rows
    → P row
    → Q row
All-In_two P Q rows row h m p = All-In (λ other. P other → Q other) rows row h m p

module _ (seen now : ℕ) (locked : ℕ → Bool) (worker_id : Text) (lease_for : ℕ)
    (job_type : Option JobType) (chain_id : Option ℤ) (db : JobsDb) (unique : Unique db.jobs) where
  -- Where the unique keys hold, a call of `lease_next_candidate` that returns a job has found it
  -- in the table, of the wanted type and chain, locked by no other transaction, and queued or
  -- with a lease that has run out; no such job is older; it is stored as leased to the worker
  -- until `now + lease_for` with one more attempt, and all jobs with another id stay as they are.
  pub lease_next_candidate-Leased :
      (row : JobRow) (db' : JobsDb)
      → lease_next_candidate seen now locked worker_id lease_for job_type chain_id db
        ≡ (ok (some row), db')
      → (old : JobRow) × Leased seen now locked worker_id lease_for job_type chain_id db db' old row
  lease_next_candidate-Leased row db' e =
      elim (Option-cases (lock_next_candidate seen locked job_type chain_id db)) [
        | inl nothing ↦
            cc (sym e ∙ lease_none seen now locked worker_id lease_for job_type chain_id db nothing)
        | inr (old, found) ↦
            let (there, passes, first) =
              lock_next_candidate_lem seen locked job_type chain_id db old found in
            let result =
              lease_some seen now locked worker_id lease_for job_type chain_id db old found
                (Unique-select_first db.jobs old unique there) in
            let change = leased_row worker_id lease_for now (old.attempts + 1) in
            let same_row : row ≡ change old = cc (e, result) in
            let same_db : db' ≡ leased_db worker_id lease_for now old db = cc (e, result) in
            (
              old,
              record {
                there = there;
                free = is_candidate-Leasable seen locked job_type chain_id old passes;
                oldest = λ other m l.
                    All-In_two (λ o. is_candidate seen locked job_type chain_id o ≡ true)
                      (λ o. old.created_at ≤ o.created_at) db.jobs other first m
                      (Leasable-is_candidate seen locked job_type chain_id other l);
                leased = same_row;
                stored =
                    subst₂ (λ (r : JobRow) (d : JobsDb). In r d.jobs) (sym same_row) (sym same_db)
                      (In-update old.id change db.jobs old (ground arith) there);
                others = λ other m ne.
                    subst (λ (d : JobsDb). In other d.jobs) (sym same_db)
                      (In-update_other old.id change db.jobs other ne m);
              },
            )
      ]

  -- Where the unique keys hold, a job that is leased or running under a lease that has not run
  -- out is given to no one.
  pub lease_exclusive :
      (held : JobRow) (expires_at : ℕ)
      → In held db.jobs
      → is_active held.status ≡ true
      → held.lease_expires_at ≡ some expires_at
      → seen ≤ expires_at
      → (row : JobRow) (db' : JobsDb)
      → lease_next_candidate seen now locked worker_id lease_for job_type chain_id db
        ≡ (ok (some row), db')
      → row.id ≢ held.id
  lease_exclusive held expires_at there active lease unexpired row db' e same_id =
      let (old, l) = lease_next_candidate-Leased row db' e in
      let id : old.id ≡ held.id = sym (ap (λ (r : JobRow). r.id) l.leased) ∙ same_id in
      let found : select_first (has_id held.id) db.jobs ≡ some held =
        Unique-select_first db.jobs held unique there in
      let found' : select_first (has_id held.id) db.jobs ≡ some old =
        subst (λ k. select_first (has_id k) db.jobs ≡ some old) id
          (Unique-select_first db.jobs old unique l.there) in
      let same : old ≡ held = cc in
      let free : Leasable seen locked job_type chain_id held =
        subst (Leasable seen locked job_type chain_id) same l.free in
      ground (arith, free.free, active, lease, unexpired)
