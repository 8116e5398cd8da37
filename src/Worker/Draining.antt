-- ===== src/Worker/Draining.antt =====
-- A run with a limit ends within it, and its summary says why.
use rust_evm_indexer.Base.{ℕ, zero, suc, ◌+◌, ◌≤◌, ◌<◌, ◌≡◌, some, Result, ok, err}
use rust_evm_indexer.Base.Action.{Action}
use rust_evm_indexer.Domain.Job.{JobStatus}
use rust_evm_indexer.Worker.{
  WorkerRunStopReason, idle, max_jobs_reached, interrupted_run, WorkerRunSummary, attempted_jobs,
  WorkerOutcome, no_job, processed, failed, interrupted, run_loop,
}

-- What a stop reason says of a run with a limit.
abbrev pub Explains : ℕ → WorkerRunSummary → WorkerRunStopReason → Type 0
Explains max_jobs summary idle =
    (attempted_jobs summary < max_jobs) × (summary.interrupted_jobs ≡ 0)
Explains max_jobs summary max_jobs_reached =
    (attempted_jobs summary ≡ max_jobs) × (summary.interrupted_jobs ≡ 0)
Explains max_jobs summary interrupted_run =
    (attempted_jobs summary ≤ max_jobs) × (summary.interrupted_jobs ≡ 1)

-- A round that has worked on a job to its end.
abbrev pub Worked : WorkerOutcome → Type 0
Worked no_job = ⊥
Worked (processed job_id scan) = Unit
Worked (failed job_id status error) = Unit
Worked (interrupted job_id status) = ⊥

module _ {S : Type 0} (run_once : Action S WorkerOutcome) where
  -- So many rounds, each of which has worked, lead from a state to another.
  abbrev pub Went : ℕ → S → S → Type 0
  Went zero s s' = s ≡ s'
  Went (suc rounds) s s' =
      (outcome : WorkerOutcome) × (mid : S) × (run_once s ≡ (ok outcome, mid))
      × Worked outcome
      × Went rounds mid s'

  -- What the loop met in its last state, by the reason of its end.
  abbrev pub Met : ℕ → S → S → WorkerRunSummary → WorkerRunStopReason → Type 0
  Met rounds mid s' summary idle =
      (run_once mid ≡ (ok no_job, s')) × (attempted_jobs summary ≡ rounds)
  Met rounds mid s' summary max_jobs_reached = (mid ≡ s') × (attempted_jobs summary ≡ rounds)
  Met rounds mid s' summary interrupted_run =
      ((job_id : ℕ) × (status : JobStatus) × (run_once mid ≡ (ok (interrupted job_id status), s')))
      × (attempted_jobs summary ≡ rounds + 1)

  -- How the run ends behind so many rounds: with the error of the next one, or with a summary.
  abbrev pub Last : ℕ → ℕ → S → S → Result WorkerRunSummary → Type 0
  Last max_jobs rounds mid s' (err e) = (rounds < max_jobs) × (run_once mid ≡ (err e, s'))
  Last max_jobs rounds mid s' (ok summary) =
      Explains max_jobs summary summary.stop_reason × Met rounds mid s' summary summary.stop_reason

  -- Rounds that worked, and then the end.
  abbrev pub IsExplained : ℕ → S → Result WorkerRunSummary → S → Type 0
  IsExplained max_jobs s r s' =
      (rounds : ℕ) × (mid : S) × Went rounds s mid × Last max_jobs rounds mid s' r

  -- A run of the loop that ends, from a summary on.
  abbrev Ends : ℕ → ℕ → WorkerRunSummary → S → Type 0
  Ends fuel max_jobs summary s =
      (r : Result WorkerRunSummary) × (s' : S) × (run_loop run_once fuel (some max_jobs) summary s
        ≡ some (r, s'))
      × ((rounds : ℕ) × (mid : S) × Went rounds s mid
          × Last max_jobs (attempted_jobs summary + rounds) mid s' r)

  -- What the loop does behind one more round.
  abbrev Again : ℕ → ℕ → Type 0
  Again fuel max_jobs =
      (summary : WorkerRunSummary) (s : S)
      → summary.interrupted_jobs ≡ 0
      → attempted_jobs summary ≤ max_jobs
      → max_jobs < attempted_jobs summary + fuel
      → Ends fuel max_jobs summary s
