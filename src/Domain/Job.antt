-- ===== src/Domain/Job.antt =====
-- domain/job.rs: job types and statuses with their database spelling.
use rust_evm_indexer.Base.{◌≡◌, refl, ◌↔◌, Result, ok, err, invalid_enum, arith, if◌then◌else◌}
use rust_evm_indexer.Base.Text.{Text, codes, text_eq, text_eq_iff}

pub data JobType : Type 0 where
  ingest_range replay_range verify_reorg repair_checkpoint : JobType

pub data JobStatus : Type 0 where
  queued leased running succeeded failed dead_lettered cancelled : JobStatus

-- `JobType::as_str`
unfoldable pub job_type_str : JobType → Text
job_type_str ingest_range = codes "INGEST_RANGE"
job_type_str replay_range = codes "REPLAY_RANGE"
job_type_str verify_reorg = codes "VERIFY_REORG"
job_type_str repair_checkpoint = codes "REPAIR_CHECKPOINT"

-- `JobType::from_str`
unfoldable pub parse_job_type : Text → Result JobType
parse_job_type value =
    if text_eq value (codes "INGEST_RANGE")
    then ok ingest_range
    else if text_eq value (codes "REPLAY_RANGE")
    then ok replay_range
    else if text_eq value (codes "VERIFY_REORG")
    then ok verify_reorg
    else if text_eq value (codes "REPAIR_CHECKPOINT")
    then ok repair_checkpoint
    else err invalid_enum

-- `JobStatus::as_str`
unfoldable pub job_status_str : JobStatus → Text
job_status_str queued = codes "queued"
job_status_str leased = codes "leased"
job_status_str running = codes "running"
job_status_str succeeded = codes "succeeded"
job_status_str failed = codes "failed"
job_status_str dead_lettered = codes "dead_lettered"
job_status_str cancelled = codes "cancelled"

-- `JobStatus::from_str`
unfoldable pub parse_job_status : Text → Result JobStatus
parse_job_status value =
    if text_eq value (codes "queued")
    then ok queued
    else if text_eq value (codes "leased")
    then ok leased
    else if text_eq value (codes "running")
    then ok running
    else if text_eq value (codes "succeeded")
    then ok succeeded
    else if text_eq value (codes "failed")
    then ok failed
    else if text_eq value (codes "dead_lettered")
    then ok dead_lettered
    else if text_eq value (codes "cancelled")
    then ok cancelled
    else err invalid_enum

pub parse-job_type_str : (t : JobType) → parse_job_type (job_type_str t) ≡ ok t
unfolding parse_job_type job_type_str text_eq
parse-job_type_str ingest_range = refl
parse-job_type_str _ = refl

pub parse-job_status_str : (s : JobStatus) → parse_job_status (job_status_str s) ≡ ok s
unfolding parse_job_status job_status_str text_eq
parse-job_status_str queued = refl
parse-job_status_str _ = refl

pub job_type_str-parse :
    (value : Text) (t : JobType) → parse_job_type value ≡ ok t → job_type_str t ≡ value
unfolding parse_job_type job_type_str
job_type_str-parse value t h = ground (
  arith,
  text_eq_iff value (codes "INGEST_RANGE"),
  text_eq_iff value (codes "REPLAY_RANGE"),
  text_eq_iff value (codes "VERIFY_REORG"),
  text_eq_iff value (codes "REPAIR_CHECKPOINT"),
)

pub job_status_str-parse :
    (value : Text) (s : JobStatus) → parse_job_status value ≡ ok s → job_status_str s ≡ value
unfolding parse_job_status job_status_str
job_status_str-parse value s h = ground (
  arith,
  text_eq_iff value (codes "queued"),
  text_eq_iff value (codes "leased"),
  text_eq_iff value (codes "running"),
  text_eq_iff value (codes "succeeded"),
  text_eq_iff value (codes "failed"),
  text_eq_iff value (codes "dead_lettered"),
  text_eq_iff value (codes "cancelled"),
)

-- A text is read as a status exactly when it is the status's spelling, and so for job types.
pub parse_iff_str :
    (value : Text) (t : JobType) (s : JobStatus)
    → ((parse_job_type value ≡ ok t) ↔ (job_type_str t ≡ value))
      × ((parse_job_status value ≡ ok s) ↔ (job_status_str s ≡ value))
parse_iff_str value t s = (
  (job_type_str-parse value t, λ e. rw (← e) (parse-job_type_str t)),
  (job_status_str-parse value s, λ e. rw (← e) (parse-job_status_str s)),
)

pub JobType-discrete : Discrete JobType
JobType-discrete = hlevel

pub JobStatus-discrete : Discrete JobStatus
JobStatus-discrete = hlevel
