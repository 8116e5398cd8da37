-- ===== src/Jobs/Marks/Retry.antt =====
-- What becomes of a job whose attempt has failed: it is tried again or set aside.
use rust_evm_indexer.Base.{
  ℕ, ◌≡◌, refl, sym, subst, Bool, true, false, List, [], ◌∷◌, Option, none, some, select_first,
  update_where, arith, Bool-cases, inl, inr, ok,
}
use rust_evm_indexer.Base.Int.{ℤ, pos, ◌≤ℤ◌, ◌<ℤ◌}
use rust_evm_indexer.Base.Text.{Text}
use rust_evm_indexer.Domain.Job.{JobType, queued, dead_lettered}
use rust_evm_indexer.Jobs.Table.{JobRow, JobsDb, has_id, update_attempt_status}
use rust_evm_indexer.Jobs.Lease.{is_candidate}
use rust_evm_indexer.Jobs.Marks.{next_status, released_row, mark_failed}
use rust_evm_indexer.Jobs.Marks.Cases.{mark_failed_found}

found_id :
    (id : ℕ) (rows : List JobRow) (row : JobRow)
    → select_first (has_id id) rows ≡ some row
    → row.id ≡ id
found_id id [] row e = cc
found_id id (r ∷ rows) row e = ground (arith, found_id id rows row)

pub select_first-update_where :
    (id : ℕ) (change : JobRow → JobRow) (rows : List JobRow) (row : JobRow)
    → ((r : JobRow) → (change r).id ≡ r.id)
    → select_first (has_id id) rows ≡ some row
    → select_first (has_id id) (update_where (has_id id) change rows) ≡ some (change row)
select_first-update_where id change [] row keeps e = cc
select_first-update_where id change (r ∷ rows) row keeps e = elim (Bool-cases (has_id id r)) [
  | inl hit ↦
      let same : some r ≡ some row = rw hit at e in
      let same_row : r ≡ row = cc in rw same_row (ground (arith, hit, keeps r, same_row))
  | inr miss ↦
      let e' : select_first (has_id id) rows ≡ some row = rw miss at e in
      rw miss (rw miss (select_first-update_where id change rows row keeps e'))
]

-- A failed attempt of a job that is there is stored with its lease cleared and its attempts as
-- they were. With attempts left the job is queued, and the next lease may take it; without, it is
-- dead-lettered, and no lease takes it, whatever its type, chain, and the time.
pub mark_failed_lem :
    (now id : ℕ) (error_class error_message : Text) (db : JobsDb) (row : JobRow)
    → select_first (has_id id) db.jobs ≡ some row
    → (row' : JobRow) × (db' : JobsDb) × (mark_failed now id error_class error_message db
        ≡ (ok row', db'))
      × (select_first (has_id id) db'.jobs ≡ some row')
      × (row'.leased_by ≡ none)
      × (row'.lease_expires_at ≡ none)
      × (row'.attempts ≡ row.attempts)
      × (pos row.attempts <ℤ row.max_attempts
          → (row'.status ≡ queued)
            × ((seen : ℕ) → is_candidate seen (λ _. false) none none row' ≡ true))
      × (row.max_attempts ≤ℤ pos row.attempts
          → (row'.status ≡ dead_lettered)
            × ((seen : ℕ) (locked : ℕ → Bool) (job_type : Option JobType) (chain_id : Option ℤ)
                → is_candidate seen locked job_type chain_id row' ≡ false))
unfolding update_attempt_status
mark_failed_lem now id error_class error_message db row found =
    let change = released_row now (next_status row) error_class error_message in
    (
      change row,
      _,
      mark_failed_found now id db row found error_class error_message,
      subst
          (λ k.
            select_first (has_id id) (update_where (has_id k) change db.jobs) ≡ some (change row))
          (sym (found_id id db.jobs row found))
          (select_first-update_where id change db.jobs row (λ r. refl) found),
      refl,
      refl,
      refl,
      (λ left. let next : next_status row ≡ queued = ground arith in (next, λ seen. rw next refl)),
      (λ spent.
          let next : next_status row ≡ dead_lettered = ground arith in
          (next, λ seen locked job_type chain_id. rw next (ground arith))),
    )
