-- ===== src/Worker/Rounds.antt =====
-- What a whole round of a worker keeps: the lease, the job, and the note on how it went.
use rust_evm_indexer.Base.{
  ℕ, ◌==◌, Bool, List, [], ◌∷◌, Option, none, some, Result, ok, err, Error, fail_if,
  chunk_size_zero,
}
use rust_evm_indexer.Base.Action.{Action, ◌>>=◌, pure, lift, query}
use rust_evm_indexer.Base.Int.{ℤ}
use rust_evm_indexer.Base.Text.{Text, codes}
use rust_evm_indexer.Domain.Job.{JobType}
use rust_evm_indexer.Jobs.Table.{JobRow, JobsDb}
use rust_evm_indexer.Jobs.Lease.{lease_next_candidate}
use rust_evm_indexer.Jobs.Marks.{mark_running, mark_succeeded, mark_failed}
use rust_evm_indexer.Evm.Words.{BigUints}
use rust_evm_indexer.Evm.Decode.{Keccak}
use rust_evm_indexer.Ledger.Rows.{LedgerDb}
use rust_evm_indexer.Ledger.Persist.{ScanSummary}
use rust_evm_indexer.Ledger.Checkpoint.{CheckpointRow}
use rust_evm_indexer.Ingest.Node.{ChainRpc}
use rust_evm_indexer.Worker.{
  WorkerOutcome, no_job, processed, failed, lease_order, update_priority_after_outcome,
}
use rust_evm_indexer.Worker.Execute.{
  IngestWorker, WorkerDb, now, on_queue, attempt, set_priority, execute_job,
  lease_next_supported_type, lease_in_order, run_leased, lease_and_mark_running, finish_running_job,
  work_on, run_once_with_current_priority,
}
use rust_evm_indexer.Worker.Keeps.{
  Keeps, bind-Keeps, Stores, now-Keeps, set_priority-Keeps, pure-Keeps, lift-Keeps, query-Keeps,
  on_queue-Keeps, attempt-Keeps,
}

module _ (Q : JobsDb → Type 0) (L : LedgerDb → Type 0) (C : List CheckpointRow → Type 0)
    (worker : IngestWorker) where
  abbrev LeaseKeeps : Type 0
  LeaseKeeps =
      (seen at : ℕ) (job_type : Option JobType) (q : JobsDb)
      → Q q
      → Q
          (lease_next_candidate seen at worker.locked worker.worker_id worker.lease_for job_type
            worker.chain_id q).1

  abbrev RunKeeps : Type 0
  RunKeeps = (at id : ℕ) (q : JobsDb) → Q q → Q (mark_running at id q).1

  abbrev SucceedKeeps : Type 0
  SucceedKeeps = (at id : ℕ) (q : JobsDb) → Q q → Q (mark_succeeded at id q).1

  abbrev FailKeeps : Type 0
  FailKeeps = (at id : ℕ) (c m : Text) (q : JobsDb) → Q q → Q (mark_failed at id c m q).1

  lease_next-Keeps :
      LeaseKeeps
      → (job_type : JobType) → Keeps (Stores Q L C) (lease_next_supported_type worker job_type)
  unfolding lease_next_supported_type
  lease_next-Keeps lease job_type =
      let take : ℕ → ℕ → Action WorkerDb (Option JobRow) = λ seen at. on_queue (
        lease_next_candidate seen at worker.locked worker.worker_id worker.lease_for (some job_type)
          worker.chain_id) in
      bind-Keeps (Stores Q L C) now (λ seen. now >>= take seen) (now-Keeps Q L C)
        λ seen.
          bind-Keeps (Stores Q L C) now (take seen) (now-Keeps Q L C)
            λ at. on_queue-Keeps Q L C _ (lease seen at (some job_type))

  leased-Keeps :
      (rest : Action WorkerDb (Option JobRow)) (leased : Option JobRow)
      → Keeps (Stores Q L C) rest
      → Keeps (Stores Q L C) (elim leased as (λ _. Action WorkerDb (Option JobRow)) [
        | none ↦ rest
        | some row ↦ pure (some row)
      ])
  leased-Keeps rest none later = later
  leased-Keeps rest (some row) later = pure-Keeps Q L C (some row)

  lease_in_order-Keeps :
      LeaseKeeps → (types : List JobType) → Keeps (Stores Q L C) (lease_in_order worker types)
  unfolding lease_in_order
  lease_in_order-Keeps lease [] = pure-Keeps Q L C {A = Option JobRow} none
  lease_in_order-Keeps lease (job_type ∷ types) =
      let next : Option JobRow → Action WorkerDb (Option JobRow) =
        λ leased. elim leased [ none ↦ lease_in_order worker types | some row ↦ pure (some row) ] in
      bind-Keeps (Stores Q L C) (lease_next_supported_type worker job_type) next
        (lease_next-Keeps lease job_type)
        λ leased.
          leased-Keeps (lease_in_order worker types) leased (lease_in_order-Keeps lease types)

  run_leased-Keeps :
      RunKeeps → (leased : Option JobRow) → Keeps (Stores Q L C) (run_leased worker leased)
  unfolding run_leased
  run_leased-Keeps run none = pure-Keeps Q L C {A = Option JobRow} none
  run_leased-Keeps run (some row) =
      let start : ℕ → Action WorkerDb JobRow = λ at. on_queue (mark_running at row.id) in
      let done : JobRow → Action WorkerDb (Option JobRow) = λ running. pure (some running) in
      bind-Keeps (Stores Q L C) now (λ at. start at >>= done) (now-Keeps Q L C)
        λ at.
          bind-Keeps (Stores Q L C) (start at) done
            (on_queue-Keeps Q L C (mark_running at row.id) (run at row.id))
            λ running. pure-Keeps Q L C (some running)

  lease_and_mark_running-Keeps :
      LeaseKeeps
      → RunKeeps
      → (replay_first : Bool) → Keeps (Stores Q L C) (lease_and_mark_running worker replay_first)
  unfolding lease_and_mark_running
  lease_and_mark_running-Keeps lease run replay_first =
      let sized = fail_if (worker.chunk_size == 0) chunk_size_zero in
      let leases = lease_in_order worker (lease_order replay_first) in
      bind-Keeps (Stores Q L C) (lift sized) (λ _. leases >>= run_leased worker)
        (lift-Keeps Q L C sized)
        λ _.
          bind-Keeps (Stores Q L C) leases (run_leased worker)
            (lease_in_order-Keeps lease (lease_order replay_first)) (run_leased-Keeps run)

  module _ (message : Error → Text) where
    finish-Keeps :
        SucceedKeeps
        → FailKeeps
        → (running : JobRow) (result : Result ScanSummary)
        → Keeps (Stores Q L C) (finish_running_job worker message running result)
    unfolding finish_running_job
    finish-Keeps succeed fail running (ok summary) =
        let store : ℕ → Action WorkerDb JobRow = λ at. on_queue (mark_succeeded at running.id) in
        let tell : JobRow → Action WorkerDb WorkerOutcome =
          λ row. pure (processed row.id summary) in
        bind-Keeps (Stores Q L C) now (λ at. store at >>= tell) (now-Keeps Q L C)
          λ at.
            bind-Keeps (Stores Q L C) (store at) tell
              (on_queue-Keeps Q L C (mark_succeeded at running.id) (succeed at running.id))
              λ row. pure-Keeps Q L C (processed row.id summary)
    finish-Keeps succeed fail running (err e) =
        let mark : ℕ → Action JobsDb JobRow =
          λ at. mark_failed at running.id (codes "IngestJobError") (message e) in
        let store : ℕ → Action WorkerDb JobRow = λ at. on_queue (mark at) in
        let tell : JobRow → Action WorkerDb WorkerOutcome =
          λ row. pure (failed row.id row.status (message e)) in
        bind-Keeps (Stores Q L C) now (λ at. store at >>= tell) (now-Keeps Q L C)
          λ at.
            bind-Keeps (Stores Q L C) (store at) tell
              (on_queue-Keeps Q L C (mark at)
                (fail at running.id (codes "IngestJobError") (message e)))
              λ row. pure-Keeps Q L C (failed row.id row.status (message e))

    module _ (hash : Keccak) (big : BigUints) (parse_amount : Text → Option ℤ)
        (rpc : ChainRpc) where
      abbrev JobKeeps : Type 0
      JobKeeps =
          (job : JobRow) → Keeps (Stores Q L C) (execute_job worker hash big parse_amount rpc job)

      work_on-Keeps :
          SucceedKeeps
          → FailKeeps
          → JobKeeps
          → (leased : Option JobRow)
          → Keeps (Stores Q L C) (work_on worker hash big parse_amount rpc message leased)
      unfolding work_on
      work_on-Keeps succeed fail execute none = pure-Keeps Q L C no_job
      work_on-Keeps succeed fail execute (some running) =
          let job = attempt (execute_job worker hash big parse_amount rpc running) in
          let finish = finish_running_job worker message running in
          let flag : WorkerDb → Result Bool = λ db. ok db.replay_first in
          let set : WorkerOutcome → Bool → Action WorkerDb (Unit {0}) = λ outcome replay_first.
            set_priority (update_priority_after_outcome running outcome replay_first) in
          bind-Keeps (Stores Q L C) job
            (λ result.
              finish result >>= λ outcome. query flag >>= λ f. set outcome f >>= λ _. pure outcome)
            (attempt-Keeps Q L C _ (execute running))
            λ result.
              bind-Keeps (Stores Q L C) (finish result)
                (λ outcome. query flag >>= λ f. set outcome f >>= λ _. pure outcome)
                (finish-Keeps succeed fail running result)
                λ outcome.
                  bind-Keeps (Stores Q L C) (query flag) (λ f. set outcome f >>= λ _. pure outcome)
                    (query-Keeps Q L C flag)
                    λ f.
                      bind-Keeps (Stores Q L C) (set outcome f) (λ _. pure outcome)
                        (set_priority-Keeps Q L C _) λ _. pure-Keeps Q L C outcome

      pub run_once-Keeps :
          LeaseKeeps
          → RunKeeps
          → SucceedKeeps
          → FailKeeps
          → JobKeeps
          → Keeps
              (Stores Q L C)
              (run_once_with_current_priority worker hash big parse_amount rpc message)
      unfolding run_once_with_current_priority
      run_once-Keeps lease run succeed fail execute =
          let flag : WorkerDb → Result Bool = λ db. ok db.replay_first in
          let work = work_on worker hash big parse_amount rpc message in
          bind-Keeps (Stores Q L C) (query flag) (λ f. lease_and_mark_running worker f >>= work)
            (query-Keeps Q L C flag)
            λ f.
              bind-Keeps (Stores Q L C) (lease_and_mark_running worker f) work
                (lease_and_mark_running-Keeps lease run f) (work_on-Keeps succeed fail execute)
