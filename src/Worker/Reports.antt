-- ===== src/Worker/Reports.antt =====
-- What a round tells of its job is what the queue then holds.
use rust_evm_indexer.Base.{
  ℕ, ◌≡◌, refl, sym, ap, subst, ◌∙◌, ◌⊎◌, inl, inr, Bool, Option, none, some, Result, ok, err,
  Error, select_first, ok_inj, Option-cases, arith, ◌+◌, Bool-cases,
}
use rust_evm_indexer.Base.Action.{Action, ◌>>=◌, pure, query}
use rust_evm_indexer.Base.Int.{ℤ, pos, leb_ℤ}
use rust_evm_indexer.Base.Text.{Text, codes}
use rust_evm_indexer.Domain.Job.{JobStatus, queued, succeeded, dead_lettered}
use rust_evm_indexer.Jobs.Table.{JobRow, JobsDb, has_id, update_attempt_status}
use rust_evm_indexer.Jobs.Marks.{mark_succeeded, mark_failed, succeeded_row}
use rust_evm_indexer.Jobs.Marks.Cases.{
  select_first-id, mark_succeeded_missing, mark_succeeded_found, mark_failed_missing,
}
use rust_evm_indexer.Jobs.Marks.Retry.{select_first-update_where, mark_failed_lem}
use rust_evm_indexer.Evm.Words.{BigUints}
use rust_evm_indexer.Evm.Decode.{Keccak}
use rust_evm_indexer.Ledger.Persist.{ScanSummary}
use rust_evm_indexer.Ingest.Node.{ChainRpc}
use rust_evm_indexer.Worker.{
  WorkerOutcome, no_job, processed, failed, interrupted, update_priority_after_outcome,
}
use rust_evm_indexer.Worker.Execute.{
  IngestWorker, WorkerDb, now, on_queue, attempt, set_priority, execute_job, lease_and_mark_running,
  finish_running_job, work_on, run_once_with_current_priority,
}

-- The queue holds a job with this id and status.
abbrev pub Holds : ℕ → JobStatus → JobsDb → Type 0
Holds id status db =
    (row : JobRow) × (select_first (has_id id) db.jobs ≡ some row) × (row.status ≡ status)

-- A job that is told to be processed has succeeded, and one that is told to have failed waits for
-- its next attempt or is set aside. No job is told to be interrupted.
abbrev pub Reported : WorkerOutcome → WorkerDb → Type 0
Reported no_job db = Unit
Reported (processed id summary) db = Holds id succeeded db.queue
Reported (failed id status message) db =
    Holds id status db.queue × ((status ≡ queued) ⊎ (status ≡ dead_lettered))
Reported (interrupted id status) db = ⊥

pub clash :
    {A S : Type 0} {e : Error} {s s' : S} {a : A} → ◌≡◌ {A = Result A × S} (err e, s) (ok a, s') → ⊥
clash h = cc

-- What a call has returned is one thing.
pub returned :
    {A S : Type 0} {a a' : A} {s s' : S}
    → ◌≡◌ {A = Result A × S} (ok a, s) (ok a', s')
    → (a ≡ a') × (s ≡ s')
returned {A} {S} h = (ok_inj (ap (λ (p : Result A × S). p.0) h), ap (λ (p : Result A × S). p.1) h)

pub mark_succeeded-Holds :
    (at id : ℕ) (q : JobsDb) (row : JobRow) (q' : JobsDb)
    → mark_succeeded at id q ≡ (ok row, q')
    → Holds row.id succeeded q'
unfolding update_attempt_status
mark_succeeded-Holds at id q row q' done = elim (Option-cases (select_first (has_id id) q.jobs)) [
  | inl e ↦ absurd (clash (sym (mark_succeeded_missing at id q e) ∙ done))
  | inr (old, e) ↦
      let (same, after) = returned (sym (mark_succeeded_found at id q old e) ∙ done) in
      let held = select_first-update_where id (succeeded_row at) q.jobs old (λ r. refl) e in
      let held' : Holds old.id succeeded q' =
        subst (λ k. Holds k succeeded q') (sym (select_first-id id q.jobs old e))
          (subst (Holds id succeeded) after (succeeded_row at old, held, refl)) in
      subst (λ (r : JobRow). Holds r.id succeeded q') same held'
]

mark_failed-Holds :
    (at id : ℕ) (c m : Text) (q : JobsDb) (row : JobRow) (q' : JobsDb)
    → mark_failed at id c m q ≡ (ok row, q')
    → Holds row.id row.status q' × ((row.status ≡ queued) ⊎ (row.status ≡ dead_lettered))
mark_failed-Holds at id c m q row q' done = elim (Option-cases (select_first (has_id id) q.jobs)) [
  | inl e ↦ absurd (clash (sym (mark_failed_missing at id q e c m) ∙ done))
  | inr (old, e) ↦
      let (row', q'', told, held, _, _, _, left, spent) = mark_failed_lem at id c m q old e in
      let (same, after) = returned (sym told ∙ done) in
      let named : id ≡ row'.id = sym (select_first-id id q''.jobs row' held) in
      let held' : Holds row'.id row'.status q'' =
        subst (λ k. Holds k row'.status q'') named (row', held, refl) in
      let status : (row'.status ≡ queued) ⊎ (row'.status ≡ dead_lettered) =
        elim (Bool-cases (leb_ℤ old.max_attempts (pos old.attempts))) [
          | inl full ↦ inr (spent (ground arith)).0
          | inr free ↦ inl (left (ground arith)).0
        ] in
      subst
        (λ (r : JobRow).
          Holds r.id r.status q' × ((r.status ≡ queued) ⊎ (r.status ≡ dead_lettered)))
        same (subst (Holds row'.id row'.status) after held', status)
]

module _ {A B : Type 0} where
  -- Both steps of a chain that has returned have returned.
  pub bind-returned :
      (call : Action WorkerDb A) (next : A → Action WorkerDb B) (db : WorkerDb) (b : B)
      (db' : WorkerDb)
      → (call >>= next) db ≡ (ok b, db')
      → (a : A) × (mid : WorkerDb) × (call db ≡ (ok a, mid)) × (next a mid ≡ (ok b, db'))
  bind-returned call next db b db' h = go (call db).0 (call db).1 refl h
    where
      go :
          (answer : Result A) (mid : WorkerDb)
          → ◌≡◌ {A = Result A × WorkerDb} (call db) (answer, mid)
          → ◌≡◌ {A = Result B × WorkerDb}
              (elim answer as (λ _. Result B × WorkerDb) [
                | ok a ↦ next a mid
                | err e ↦ (err e, mid)
              ])
              (ok b, db')
          → (a : A) × (mid : WorkerDb) × (call db ≡ (ok a, mid)) × (next a mid ≡ (ok b, db'))
      go (ok a) mid same later = (a, mid, same, later)
      go (err e) mid same later = absurd (clash later)

pub queue-returned :
    (call : Action JobsDb JobRow) (db : WorkerDb) (row : JobRow) (mid : WorkerDb)
    → on_queue call db ≡ (ok row, mid)
    → call db.queue ≡ (ok row, mid.queue)
unfolding on_queue
queue-returned call db row mid h = ap (λ (p : Result JobRow × WorkerDb). (p.0, p.1.queue)) h

module _ (worker : IngestWorker) (message : Error → Text) where
  told :
      (outcome outcome' : WorkerOutcome) (db db' : WorkerDb)
      → ◌≡◌ {A = Result WorkerOutcome × WorkerDb} (ok outcome, db) (ok outcome', db')
      → Reported outcome db
      → Reported outcome' db'
  told outcome outcome' db db' h reported =
      let (same, after) = returned h in
      subst (λ o. Reported o db') same (subst (Reported outcome) after reported)

  -- The report reads the queue alone.
  kept :
      (outcome : WorkerOutcome) (db db' : WorkerDb)
      → db'.queue ≡ db.queue
      → Reported outcome db'
      → Reported outcome db
  kept no_job db db' same reported = tt
  kept (processed id summary) db db' same reported = subst (Holds id succeeded) same reported
  kept (failed id status message) db db' same (held, which) =
      (subst (Holds id status) same held, which)
  kept (interrupted id status) db db' same reported = reported

  finish-Reported :
      (running : JobRow) (result : Result ScanSummary) (db : WorkerDb) (outcome : WorkerOutcome)
      (db' : WorkerDb)
      → finish_running_job worker message running result db ≡ (ok outcome, db')
      → Reported outcome db'
  unfolding finish_running_job now on_queue
  finish-Reported running (ok summary) db outcome db' h =
      let at = db.times db.ticks in
      let call : Action WorkerDb JobRow = on_queue (mark_succeeded at running.id) in
      let (row, mid, marked, rest) =
        bind-returned call (λ row. pure (processed row.id summary))
          (record db { ticks = db.ticks + 1 }) outcome db' h in
      told (processed row.id summary) outcome mid db' rest (
        mark_succeeded-Holds at running.id db.queue row mid.queue (
          queue-returned (mark_succeeded at running.id) (record db { ticks = db.ticks + 1 }) row mid
            marked))
  finish-Reported running (err e) db outcome db' h =
      let at = db.times db.ticks in
      let mark : Action JobsDb JobRow =
        mark_failed at running.id (codes "IngestJobError") (message e) in
      let call : Action WorkerDb JobRow = on_queue mark in
      let (row, mid, marked, rest) =
        bind-returned call (λ row. pure (failed row.id row.status (message e)))
          (record db { ticks = db.ticks + 1 }) outcome db' h in
      told (failed row.id row.status (message e)) outcome mid db' rest (
        mark_failed-Holds at running.id (codes "IngestJobError") (message e) db.queue row mid.queue
          (queue-returned mark (record db { ticks = db.ticks + 1 }) row mid marked))

  module _ (hash : Keccak) (big : BigUints) (parse_amount : Text → Option ℤ) (rpc : ChainRpc) where
    pub work_on-Reported :
        (leased : Option JobRow) (db : WorkerDb) (outcome : WorkerOutcome) (db' : WorkerDb)
        → work_on worker hash big parse_amount rpc message leased db ≡ (ok outcome, db')
        → Reported outcome db'
    unfolding work_on set_priority
    work_on-Reported none db outcome db' h = told no_job outcome db db' h tt
    work_on-Reported (some running) db outcome db' h =
        let flag : WorkerDb → Result Bool = λ s. ok s.replay_first in
        let set : WorkerOutcome → Bool → Action WorkerDb (Unit {0}) =
          λ o f. set_priority (update_priority_after_outcome running o f) in
        let next : WorkerOutcome → Action WorkerDb WorkerOutcome =
          λ o. query flag >>= λ f. set o f >>= λ _. pure o in
        let (result, mid, _, later) =
          bind-returned (attempt (execute_job worker hash big parse_amount rpc running))
            (λ r. finish_running_job worker message running r >>= next) db outcome db' h in
        let (told_outcome, mid', finished, rest) =
          bind-returned (finish_running_job worker message running result) next mid outcome db'
            later in
        let reported = finish-Reported running result mid told_outcome mid' finished in
        told told_outcome outcome _ db' rest (kept told_outcome _ mid' refl reported)

    -- A round that returns an outcome has stored it: the job that is told to be processed has
    -- succeeded in the queue, and one that is told to have failed has the status that is told,
    -- which is queued or dead-lettered. It never tells that a job was interrupted.
    pub run_once-Reported :
        (db : WorkerDb) (outcome : WorkerOutcome) (db' : WorkerDb)
        → run_once_with_current_priority worker hash big parse_amount rpc message db
          ≡ (ok outcome, db')
        → Reported outcome db'
    unfolding run_once_with_current_priority
    run_once-Reported db outcome db' h =
        let (leased, mid, _, rest) =
          bind-returned (lease_and_mark_running worker db.replay_first)
            (work_on worker hash big parse_amount rpc message) db outcome db' h in
        work_on-Reported leased mid outcome db' rest
