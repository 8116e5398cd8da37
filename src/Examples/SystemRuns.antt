-- ===== src/Examples/SystemRuns.antt =====
-- A worker that is given a job for a source whose node answers with one empty chain.
use rust_evm_indexer.Base.{
  ℕ, ◌≡◌, refl, false, List, [], ◌∷◌, Option, none, some, ok, err, Error, not_found,
}
use rust_evm_indexer.Base.Int.{ℤ, pos}
use rust_evm_indexer.Base.Text.{Text, codes}
use rust_evm_indexer.Domain.Job.{JobType, ingest_range, replay_range, queued}
use rust_evm_indexer.Jobs.Table.{JobRow, update_job, update_attempt_status}
use rust_evm_indexer.Jobs.Enqueue.{NewJob, new_job_row}
use rust_evm_indexer.Jobs.Lease.{
  leased_row, oldest, lock_next_candidate, cancel_expired, lease_candidate, new_attempt,
  lease_next_candidate,
}
use rust_evm_indexer.Jobs.Marks.{running_row, mark_running, mark_failed}
use rust_evm_indexer.Ingest.Node.{ChainRpc}
use rust_evm_indexer.Ledger.Rows.{SourceRow}
use rust_evm_indexer.Worker.{failed}
use rust_evm_indexer.Worker.Checks.{ChainRow, job_range, job_source, source_by_id}
use rust_evm_indexer.Worker.Execute.{
  IngestWorker, WorkerDb, now, on_queue, attempt, set_priority, lease_next_supported_type,
  lease_in_order, run_leased, lease_and_mark_running, finish_running_job, execute_job, work_on,
  run_once_with_current_priority,
}
use rust_evm_indexer.Worker.Reports.{Reported, run_once-Reported}
use rust_evm_indexer.Worker.System.{
  Event, works, enqueues, fresh_system, IsSystem, run_system, run_system-IsSystem, replay_leaves,
}
use rust_evm_indexer.Examples.DecodeRuns.{demo_keccak, demo_numbers}

abbrev quiet_node : ChainRpc
quiet_node = record {
  block_number = ok 100;
  code_at = λ contract block. ok (codes "0x60");
  block_hash = λ block. ok (codes "0xBB");
  block_timestamp = λ block. ok block;
  logs = λ contract standard from to. ok [];
  transaction_receipt = λ hash. err not_found;
}

abbrev demo_worker : IngestWorker
demo_worker = record {
  worker_id = codes "worker-1";
  lease_for = 30;
  chunk_size = 10;
  chain_id = none;
  include_transaction_receipts = false;
  locked = λ id. false;
}

abbrev no_amount : Text → Option ℤ
no_amount text = none

abbrev message : Error → Text
message e = codes "failed"

abbrev job_of : JobType → NewJob
job_of job_type = record {
  id = 10;
  job_type = job_type;
  source_id = some 1;
  chain_id = pos 1;
  from_block = some (pos 0);
  to_block = some (pos 9);
  idempotency_key = codes "key";
  max_attempts = pos 3;
}

abbrev clock : ℕ → ℕ
clock tick = tick

abbrev demo_events : List Event
demo_events = enqueues 1 (job_of ingest_range) ∷ works demo_worker quiet_node ∷ []

abbrev demo_chain : ChainRow
demo_chain = record {
  name = codes "main";
  chain_id = pos 1;
  rpc_url = codes "http://node";
  finality_confirmations = pos 12;
}

abbrev demo_source : SourceRow
demo_source = record {
  id = 1;
  chain_id = pos 1;
  contract_address = codes "0x01";
  token_standard = codes "erc20";
  start_block = pos 0;
}

run_system-IsSystem_example : IsSystem (
    run_system demo_keccak demo_numbers no_amount message demo_events
      (fresh_system (demo_chain ∷ []) (demo_source ∷ []) clock clock))
run_system-IsSystem_example =
    run_system-IsSystem demo_keccak demo_numbers no_amount message (demo_chain ∷ [])
      (demo_source ∷ []) clock clock demo_events

abbrev job_row : JobRow
job_row = new_job_row 1 (job_of replay_range)

abbrev demo_db : WorkerDb
demo_db = record (fresh_system [] [] clock clock) {
  queue = record { jobs = job_row ∷ []; job_attempts = [] };
}

abbrev replay_db : WorkerDb
replay_db = record (fresh_system (demo_chain ∷ []) (demo_source ∷ []) clock clock) {
  queue = record { jobs = job_row ∷ []; job_attempts = [] };
}

abbrev after_replay : WorkerDb
after_replay =
    (execute_job demo_worker demo_keccak demo_numbers no_amount quiet_node job_row replay_db).1

replay_leaves_example :
    (after_replay.queue ≡ replay_db.queue) × (after_replay.checkpoints ≡ replay_db.checkpoints)
unfolding new_job_row
replay_leaves_example =
    replay_leaves demo_keccak demo_numbers no_amount demo_worker quiet_node job_row replay_db refl

abbrev after_round : WorkerDb
after_round =
    (run_once_with_current_priority demo_worker demo_keccak demo_numbers no_amount quiet_node
      message demo_db).1

-- The source is not there, so the attempt fails and the job is queued again.
round_demo :
    run_once_with_current_priority demo_worker demo_keccak demo_numbers no_amount quiet_node message
      demo_db
    ≡ (ok (failed 10 queued (codes "failed")), after_round)
unfolding run_once_with_current_priority lease_and_mark_running lease_in_order
    lease_next_supported_type run_leased work_on finish_running_job execute_job job_range job_source
    source_by_id now on_queue attempt set_priority lease_next_candidate lock_next_candidate oldest
    lease_candidate cancel_expired new_attempt update_job update_attempt_status mark_running
    mark_failed new_job_row
round_demo = refl

run_once-Reported_example : Reported (failed 10 queued (codes "failed")) after_round
run_once-Reported_example =
    run_once-Reported demo_worker message demo_keccak demo_numbers no_amount quiet_node demo_db
      (failed 10 queued (codes "failed")) after_round round_demo

abbrev given_job : JobRow
given_job = running_row 2 (leased_row (codes "worker-1") 30 1 1 job_row)

abbrev leased_db : WorkerDb
leased_db = (lease_and_mark_running demo_worker demo_db.replay_first demo_db).1
