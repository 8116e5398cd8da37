-- ===== src/Lib.antt =====
-- rust-evm-indexer: what the indexer's queue, ledger, checkpoints and planner guarantee.
--
-- The program indexes the token transfers of EVM contracts into Postgres. A planner cuts the blocks
-- of a source into ranges and enqueues a job for each (src/application/backfill.rs). Workers lease
-- jobs, fetch the logs of the range, decode them, and write events, ledger entries and balances in
-- one transaction; then they move the source's checkpoint over the ranges that are done without a
-- gap (src/worker/mod.rs, src/infra/postgres/). A replay orphans a range and writes it again.
--
-- Base holds what every part shares: lists, results, integers, texts as bytes with their decimal
-- and signed numbers, and calls on a state. Domain.Job and Domain.Keys are src/domain/job.rs,
-- Domain.Chain is chain.rs with the source and the checkpoint of its neighbours, and Domain.Event
-- is event.rs. Ports holds the records of src/application/ports.rs and the planner's view of the
-- repository, which Backfill.Plan takes as a parameter. Backfill is src/application/backfill.rs:
-- `split_inclusive_range` in Backfill, `plan_backfill_jobs` in Backfill.Plan. Jobs is
-- src/infra/postgres/job_repository.rs: rows in Jobs.Table, `enqueue` in Jobs.Enqueue, the leases
-- in Jobs.Lease, the transactions that move a job on in Jobs.Marks, and sequences of calls in
-- Jobs.History. Evm is src/application/evm.rs: the log records and hex numbers in Evm, the words of
-- the data in Evm.Words, `decode_log` and the detection of a standard in Evm.Decode, and where they
-- cannot panic in Evm.Calm and Evm.Panics; Evm.Encoding and Evm.Arrays write logs as the ABI does,
-- to read them back. Ledger is src/infra/postgres/ledger_repository.rs: rows in Ledger.Rows,
-- balances in Ledger.Balances, upserts in Ledger.Upsert, `persist_decoded_logs_with_options` in
-- Ledger.Persist, `orphan_source_range` in Ledger.Orphan, receipts in Ledger.Receipts, pages and
-- their cursors in Ledger.Page, sequences of calls in Ledger.History, and the checkpoints in
-- Ledger.Checkpoint. Api is src/api/mod.rs: requests and their answers. Ingest is
-- src/application/ingest.rs: the resolved range and the chunked fetch in Ingest, the detection of a
-- standard in Ingest.Detect, what happens before the writes in Ingest.Prepare, and
-- `ingest_source_range` in Ingest.Source, over any node (Ingest.Node) and any repository. Reorg is
-- src/application/reorg.rs. Worker is src/worker/mod.rs: the outcomes and the run until idle in
-- Worker, the checks of a job in Worker.Checks, a round in Worker.Execute, where the ledger fills
-- the port of the ingestion; rounds of many workers in Worker.System. The functions keep their
-- names; the module of a theorem is named for what it is about. Examples holds concrete runs.
--
-- How the state is modelled: a table is the list of its rows, a query is a selection on the list,
-- and a transaction returns the old tables when it fails. Calls that run at the same time are
-- sequences of transactions, since each locks the rows it reads; the rows that `SKIP LOCKED` passes
-- over are a parameter of the lease. A uuid, a time and a `DateTime` is a number, and the clock's
-- and the generator's answers are arguments. A `NUMERIC(78,0)` and an `i64` is an integer; where
-- the source casts or saturates, the model does. Balances above 78 digits, which the database
-- refuses, are not refused here, and attempts and block numbers do not overflow. The `CHECK`
-- constraints and unique keys of the migrations stand in the inserts. A text is the bytes of a
-- `str`, and a cut of it off the boundary of a character panics; `trim` takes ASCII white space
-- alone. A panic is the error `panicked`, which is never handed on as a value: it ends the round of
-- a worker where it is, and the job stays as the lease left it.
--
-- Fuel: the loops of `split_inclusive_range`, of `fetch_logs_in_chunks_with_progress` and of the
-- detection of a standard run on `to - from + 2` rounds. Each round takes at least one block, and
-- the last one sees the end, so the fuel is never used up. Data is cut into words on its length.
-- The run until idle takes its rounds as an argument: with a limit, one more than the limit is
-- enough. A client that reads pages takes their number as an argument: one more than the table has
-- rows is enough.
--
-- Parameters: the repositories of the planner, of the verification and of the ingestion with their
-- state, the node's answers, the Keccak digest, BigUint's parsing and printing, the printing of a
-- uuid, the message of an error, and the reading of an amount, which stands for `BigDecimal`.
--
-- Not modelled: the command line, the configuration, the HTTP routing and the client of the node,
-- metrics and tracing, the schema that Diesel generates, the summary, holders and minters of a
-- contract, and the summary's sample of top holders. Of a round that the shutdown interrupts, the
-- mark is modelled and the half of a job that ran before is not.
pub mod Base
pub mod Domain
pub mod Ports
pub mod Backfill
pub mod Jobs
pub mod Reorg
pub mod Evm
pub mod Ingest
pub mod Ledger
pub mod Api
pub mod Worker
pub mod Examples
