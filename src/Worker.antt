-- ===== src/Worker.antt =====
-- worker/mod.rs: the outcomes of a worker, the order in which it looks for jobs, and its run until
-- there is nothing left to do. One round, `run_once`, is a parameter.
pub mod Draining
pub mod Checks
pub mod Execute
mod Keeps
mod Stores
mod Rounds
pub mod Reports
pub mod Returns
pub mod System
use rust_evm_indexer.Base.{
  ℕ, zero, suc, ◌+◌, Bool, true, false, ◌&&◌, List, [], ◌∷◌, Option, none, some, leb, if◌then◌else◌,
  Result, ok, err,
}
use rust_evm_indexer.Base.Action.{Action}
use rust_evm_indexer.Base.Text.{Text}
use rust_evm_indexer.Domain.Job.{JobType, ingest_range, replay_range, JobStatus, dead_lettered}
use rust_evm_indexer.Jobs.Table.{JobRow, job_type_eq}
use rust_evm_indexer.Ledger.Persist.{ScanSummary}

pub data WorkerRunStopReason : Type 0 where
  idle max_jobs_reached interrupted_run : WorkerRunStopReason

pub record WorkerRunSummary : Type 0 where
  pub processed_jobs : ℕ
  pub failed_jobs : ℕ
  pub interrupted_jobs : ℕ
  pub stop_reason : WorkerRunStopReason

-- `WorkerRunSummary::default`
abbrev pub default_summary : WorkerRunSummary
default_summary = record {
  processed_jobs = 0;
  failed_jobs = 0;
  interrupted_jobs = 0;
  stop_reason = idle;
}

abbrev pub attempted_jobs : WorkerRunSummary → ℕ
attempted_jobs summary = summary.processed_jobs + summary.failed_jobs + summary.interrupted_jobs

pub data WorkerOutcome : Type 0 where
  no_job : WorkerOutcome
  processed : ℕ → ScanSummary → WorkerOutcome
  failed : ℕ → JobStatus → Text → WorkerOutcome
  interrupted : ℕ → JobStatus → WorkerOutcome

abbrev pub is_terminal_failure : WorkerOutcome → Bool
is_terminal_failure (failed job_id dead_lettered error) = true
is_terminal_failure _ = false

-- `update_priority_after_outcome`: the flag that the next round reads.
abbrev pub update_priority_after_outcome : JobRow → WorkerOutcome → Bool → Bool
update_priority_after_outcome running (processed job_id summary) replay_first = true
update_priority_after_outcome running (failed job_id status error) replay_first =
    if job_type_eq running.job_type replay_range then false else replay_first
update_priority_after_outcome running no_job replay_first = replay_first
update_priority_after_outcome running (interrupted job_id status) replay_first = replay_first

-- The types in the order in which `lease_and_mark_running` tries them.
abbrev pub lease_order : Bool → List JobType
lease_order replay_first =
    if replay_first then replay_range ∷ ingest_range ∷ [] else ingest_range ∷ replay_range ∷ []

-- `max_jobs.is_some_and(|max_jobs| summary.attempted_jobs() >= max_jobs)`
abbrev pub reached : Option ℕ → WorkerRunSummary → Bool
reached none summary = false
reached (some max_jobs) summary = leb max_jobs (attempted_jobs summary)

-- The `match` on an outcome: the run ends with a summary, or goes on with one.
pub data Round : Type 0 where
  returns continues : WorkerRunSummary → Round

unfoldable pub count_outcome : WorkerRunSummary → WorkerOutcome → Round
count_outcome summary no_job = returns (record summary { stop_reason = idle })
count_outcome summary (processed job_id scan) =
    continues (record summary { processed_jobs = summary.processed_jobs + 1 })
count_outcome summary (failed job_id status error) =
    continues (record summary { failed_jobs = summary.failed_jobs + 1 })
count_outcome summary (interrupted job_id status) = returns (record summary {
  interrupted_jobs = summary.interrupted_jobs + 1;
  stop_reason = interrupted_run;
})

module _ {S : Type 0} (run_once : Action S WorkerOutcome) where
  -- The `loop`, a round for each unit of fuel; `none` when the fuel is used up.
  unfoldable pub run_loop :
      ℕ → Option ℕ → WorkerRunSummary → S → Option (Result WorkerRunSummary × S)
  run_loop zero max_jobs summary s = none
  run_loop (suc fuel) max_jobs summary s =
      let (answer, s') = run_once s in
      let round = elim answer as (λ _. Option (Result WorkerRunSummary × S)) [
        | err e ↦ some (err e, s')
        | ok outcome ↦ elim (count_outcome summary outcome) [
          | returns summary' ↦ some (ok summary', s')
          | continues summary' ↦ run_loop fuel max_jobs summary' s'
        ]
      ] in
      if reached max_jobs summary
      then some (ok (record summary { stop_reason = max_jobs_reached }), s)
      else round

  unfoldable pub run_until_idle : ℕ → Option ℕ → S → Option (Result WorkerRunSummary × S)
  run_until_idle fuel max_jobs = run_loop fuel max_jobs default_summary
