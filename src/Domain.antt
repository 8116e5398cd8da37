-- ===== src/Domain.antt =====
-- The pure types of domain/: jobs, chains and blocks, ledger entries, and the keys of jobs.
pub mod Job
pub mod Chain
pub mod Event
pub mod Entries
pub mod Keys
