-- ===== src/Worker/System.antt =====
-- The whole indexer: workers, each with its node, and a planner that enqueues, in any order, on
-- one database.
use rust_evm_indexer.Base.{ℕ, ◌≡◌, refl, sym, subst, List, [], ◌∷◌, Option, Error, true, All}
use rust_evm_indexer.Base.Int.{ℤ}
use rust_evm_indexer.Base.Text.{Text}
use rust_evm_indexer.Domain.Job.{replay_range}
use rust_evm_indexer.Jobs.Table.{JobRow, JobsDb}
use rust_evm_indexer.Jobs.Enqueue.{NewJob, enqueue}
use rust_evm_indexer.Jobs.Marks.Cases.{
  mark_running-Marked, mark_succeeded-Marked, mark_failed-Marked,
}
use rust_evm_indexer.Jobs.History.{empty_db}
use rust_evm_indexer.Jobs.History.Uniqueness.{Unique, Marked-Unique, enqueue-Unique, lease-Unique}
use rust_evm_indexer.Evm.Words.{BigUints}
use rust_evm_indexer.Evm.Decode.{Keccak}
use rust_evm_indexer.Ledger.Rows.{SourceRow, LedgerDb}
use rust_evm_indexer.Ledger.Materialized.{IsMaterialized}
use rust_evm_indexer.Ledger.Materialized.Scans.{persist-IsMaterialized}
use rust_evm_indexer.Ledger.Materialized.Orphans.{orphan-IsMaterialized}
use rust_evm_indexer.Ledger.History.{fresh_ledger}
use rust_evm_indexer.Ledger.Checkpoint.{CheckpointRow}
use rust_evm_indexer.Ledger.Checkpoint.Advance.{IsSound, advance_checkpoint-Advanced}
use rust_evm_indexer.Ingest.Node.{ChainRpc}
use rust_evm_indexer.Worker.Checks.{ChainRow}
use rust_evm_indexer.Worker.Execute.{
  IngestWorker, WorkerDb, on_queue, execute_job, run_once_with_current_priority,
}
use rust_evm_indexer.Worker.Keeps.{Stores, on_queue-Keeps}
use rust_evm_indexer.Worker.Stores.{
  RangeKeeps, execute_job-Keeps, execute_range-Keeps, replay-Keeps,
}
use rust_evm_indexer.Worker.Rounds.{run_once-Keeps}

-- A round of a worker over what its node answers, or a job that is enqueued at a time.
pub data Event : Type 0 where
  works : IngestWorker → ChainRpc → Event
  enqueues : ℕ → NewJob → Event

-- A database with chains and sources, and nothing else.
abbrev pub fresh_system : List ChainRow → List SourceRow → (ℕ → ℕ) → (ℕ → ℕ) → WorkerDb
fresh_system chains sources event_ids times = record {
  queue = empty_db;
  ledger = fresh_ledger sources event_ids;
  receipts = [];
  checkpoints = [];
  chains = chains;
  replay_first = true;
  times = times;
  ticks = 0;
}

abbrev UniqueJobs : JobsDb → Type 0
UniqueJobs q = Unique q.jobs

abbrev SoundCheckpoints : List CheckpointRow → Type 0
SoundCheckpoints rows = All IsSound rows

-- No two jobs share a key, each balance is what the ledger moves, and each checkpoint is a block
-- at or below the finalized one.
abbrev pub IsSystem : WorkerDb → Type 0
IsSystem = Stores UniqueJobs IsMaterialized SoundCheckpoints

module _ (hash : Keccak) (big : BigUints) (parse_amount : Text → Option ℤ) where
  -- A replay, whether it succeeds or fails, leaves the queue and the checkpoints as they were.
  pub replay_leaves :
      (worker : IngestWorker) (rpc : ChainRpc) (job : JobRow) (db : WorkerDb)
      → job.job_type ≡ replay_range
      → ((execute_job worker hash big parse_amount rpc job db).1.queue ≡ db.queue)
        × ((execute_job worker hash big parse_amount rpc job db).1.checkpoints ≡ db.checkpoints)
  replay_leaves worker rpc job db replay =
      let same_queue : JobsDb → Type 0 = λ q. q ≡ db.queue in
      let any_ledger : LedgerDb → Type 0 = λ _. Unit in
      let same_checkpoints : List CheckpointRow → Type 0 = λ rows. rows ≡ db.checkpoints in
      let range =
        subst (RangeKeeps same_queue any_ledger same_checkpoints worker hash big parse_amount rpc)
          (sym replay)
          (replay-Keeps same_queue any_ledger same_checkpoints worker hash big parse_amount rpc
            (λ source logs options l k. tt) (λ source from to l k. tt)) in
      let after =
        execute_job-Keeps same_queue any_ledger same_checkpoints worker hash big parse_amount rpc
          job range db (record { of_queue = refl; of_ledger = tt; of_checkpoints = refl }) in
      (after.of_queue, after.of_checkpoints)

module _ (hash : Keccak) (big : BigUints) (parse_amount : Text → Option ℤ)
    (message : Error → Text) where
  abbrev pub happen : Event → WorkerDb → WorkerDb
  happen (works worker rpc) db =
      (run_once_with_current_priority worker hash big parse_amount rpc message db).1
  happen (enqueues at job) db = (on_queue (enqueue at job) db).1

  abbrev pub run_system : List Event → WorkerDb → WorkerDb
  run_system [] db = db
  run_system (event ∷ events) db = run_system events (happen event db)

  job-IsSystem :
      (worker : IngestWorker) (rpc : ChainRpc) (job : JobRow) (db : WorkerDb)
      → IsSystem db
      → IsSystem (execute_job worker hash big parse_amount rpc job db).1
  job-IsSystem worker rpc job =
      execute_job-Keeps UniqueJobs IsMaterialized SoundCheckpoints worker hash big parse_amount rpc
        job
        (execute_range-Keeps UniqueJobs IsMaterialized SoundCheckpoints worker hash big parse_amount
          rpc (persist-IsMaterialized parse_amount) orphan-IsMaterialized
          (λ id target h finalized rows sound.
            (advance_checkpoint-Advanced id target h finalized rows sound).1)
          job.job_type)

  happen-IsSystem : (event : Event) (db : WorkerDb) → IsSystem db → IsSystem (happen event db)
  happen-IsSystem (works worker rpc) =
      run_once-Keeps UniqueJobs IsMaterialized SoundCheckpoints worker message hash big parse_amount
        rpc
        (λ seen at t q u.
          lease-Unique seen at worker.locked worker.worker_id worker.lease_for t worker.chain_id q
            u)
        (λ at id q u. Marked-Unique (mark_running-Marked at id q) u)
        (λ at id q u. Marked-Unique (mark_succeeded-Marked at id q) u)
        (λ at id c m q u. Marked-Unique (mark_failed-Marked at id c m q) u)
        (job-IsSystem worker rpc)
  happen-IsSystem (enqueues at job) =
      on_queue-Keeps UniqueJobs IsMaterialized SoundCheckpoints (enqueue at job)
        (λ q u. enqueue-Unique at job q u)

  run-IsSystem :
      (events : List Event) (db : WorkerDb) → IsSystem db → IsSystem (run_system events db)
  run-IsSystem [] db before = before
  run-IsSystem (event ∷ events) db before =
      run-IsSystem events (happen event db) (happen-IsSystem event db before)

  -- After any rounds of any workers, whatever their nodes answer, and any jobs that are enqueued
  -- between them, on a fresh database: no two jobs share a key, each balance is the net amount
  -- that the live rows of the ledger move, and each checkpoint is a block at or below the
  -- finalized one.
  pub run_system-IsSystem :
      (chains : List ChainRow) (sources : List SourceRow) (event_ids times : ℕ → ℕ)
      (events : List Event)
      → IsSystem (run_system events (fresh_system chains sources event_ids times))
  run_system-IsSystem chains sources event_ids times events =
      run-IsSystem events (fresh_system chains sources event_ids times)
        (record { of_queue = tt; of_ledger = λ s h t. refl; of_checkpoints = tt })
