-- ===== src/Jobs.antt =====
-- infra/postgres/job_repository.rs: the durable job queue. The tables `jobs` and `job_attempts`
-- are lists of rows; a status or job type column holds the enumeration whose spelling it stores.
-- Times are numbers. An operation takes the values that `Utc::now` returned as arguments.
pub mod Table
pub mod Enqueue
pub mod Lease
pub mod Marks
pub mod History
