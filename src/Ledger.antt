-- ===== src/Ledger.antt =====
-- infra/postgres/ledger_repository.rs: events, ledger entries and the balances kept beside them.
-- A table is the list of its rows. A row is named by its unique key, so the surrogate `id` columns
-- are left out but for the event's, which its ledger entries hold; so are the times of writing.
pub mod Rows
pub mod Balances
pub mod Upsert
pub mod Persist
pub mod Orphan
pub mod Materialized
pub mod History
pub mod Checkpoint
pub mod Page
pub mod Receipts
