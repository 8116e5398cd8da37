-- ===== src/Examples.antt =====
-- Concrete runs: what the operations compute on small inputs, and each theorem at one of them.
mod BackfillRuns
mod JobRuns
mod LedgerRuns
mod CheckpointRuns
mod NodeRuns
mod WorkerRuns
mod DecodeRuns
mod PageRuns
mod SystemRuns
mod DomainRuns
mod DetectRuns
