-- ===== src/Worker.antt =====
-- app/scheduler/worker.py: a job is claimed and gets its run row, and a worker thread executes it.
-- `pump_once` with its semaphore and the threads is in Pump.
pub mod Frees
pub mod Pump
pub mod Abandoned
use gitlab_reviewer.Prelude.{
  ℕ, Bool, true, false, Option, none, some, List, [], ◌∷◌, ◌++◌, if◌then◌else◌, Text, codes,
}
use gitlab_reviewer.Models.{
  JobStatus, ScheduledJob, RunStatus, ReviewRun, is_claimed, is_inflight, is_running, Db,
}
use gitlab_reviewer.Table.{Jobs, update_row, with_status, get_job}
use gitlab_reviewer.Scheduling.{Dialect, claim_next, compact_positions}
use gitlab_reviewer.Outcome.{Runs, update_run, get_run, Services, Times}
use gitlab_reviewer.Review.{with_error, execute_job}

-- What `_claim_and_create_run` returns: None, the ids, or the exception of the run's INSERT.
pub data Claim : Type 0 where
  no_job : Claim
  started : ℕ → ℕ → Claim
  insert_failed : Claim

unfoldable pub new_run : ℕ → ScheduledJob → ℕ → ReviewRun
new_run id job now = record {
  id = id;
  scheduled_job_id = job.id;
  merge_request_id = job.merge_request_id;
  model_profile_id = job.model_profile_id;
  status = RunStatus.running;
  container_id = none;
  exit_code = none;
  log = [];
  result_json = none;
  result_markdown = none;
  session_json = none;
  error_message = none;
  gitlab_note_id = none;
  started_at = some now;
  finished_at = none;
  archived_at = none;
}

-- How far a cleanup comes before an exception, which is logged: to its end, to the commit of the
-- statuses, or not that far.
pub data Cleanup : Type 0 where
  complete committed unwritten : Cleanup

abbrev pub compacted : Cleanup → Jobs → Jobs
compacted complete jobs = compact_positions jobs
compacted committed jobs = jobs
compacted unwritten jobs = jobs

abbrev pub abandon_found : Cleanup → Option ScheduledJob → ℕ → Jobs → Jobs
abandon_found unwritten found now jobs = jobs
abandon_found cleanup none now jobs = jobs
abandon_found cleanup (some job) now jobs =
    if is_claimed job.status
    then compacted cleanup (update_row job.id (with_status JobStatus.failed now) jobs)
    else jobs

unfoldable pub abandon_claim : Cleanup → ℕ → ℕ → Jobs → Jobs
abandon_claim cleanup job_id now jobs = abandon_found cleanup (get_job job_id jobs) now jobs

-- `run_id` is the id that the INSERT of the run row gets, `none` where it fails.
unfoldable pub create_run : Cleanup → Option ℕ → ℕ → Option ScheduledJob × Jobs → Db → Db × Claim
create_run cleanup run_id now (none, jobs') db = (record db { jobs = jobs' }, no_job)
create_run cleanup (some run_id) now (some job, jobs') db = (
  record db { jobs = jobs'; runs = db.runs ++ new_run run_id job now ∷ [] },
  started job.id run_id,
)
create_run cleanup none now (some job, jobs') db =
    (record db { jobs = abandon_claim cleanup job.id now jobs' }, insert_failed)

unfoldable pub claim_and_create_run :
    Dialect → (ScheduledJob → Bool) → Cleanup → Option ℕ → ℕ → ℕ → Db → Db × Claim
claim_and_create_run d locked cleanup run_id claimed now db =
    create_run cleanup run_id now (claim_next d locked claimed db.jobs) db

abbrev pub crashed_run : ℕ → ReviewRun → ReviewRun
crashed_run now r =
    if is_running r.status then with_error (codes "worker thread crashed; see app log") now r else r

abbrev pub failed_if_inflight : ℕ → ScheduledJob → ScheduledJob
failed_if_inflight now j = if is_inflight j.status then with_status JobStatus.failed now j else j

-- Each row is written only where it is found and still in flight.
unfoldable pub finalize_crashed_run : Cleanup → ℕ → ℕ → ℕ → Db → Db
finalize_crashed_run unwritten run_id job_id now db = db
finalize_crashed_run cleanup run_id job_id now db = record db {
  runs = update_run run_id (crashed_run now) db.runs;
  jobs = compacted cleanup (update_row job_id (failed_if_inflight now) db.jobs);
}

abbrev pub or_finalize : Cleanup → ℕ → ℕ → ℕ → Db × Bool → Db
or_finalize cleanup run_id job_id now (db, false) = db
or_finalize cleanup run_id job_id now (db, true) = finalize_crashed_run cleanup run_id job_id now db

-- What the worker does in its session, and whether it raises.
abbrev pub work_on : Services → Times → Db → Option ReviewRun → Option ScheduledJob → Db × Bool
work_on s t db (some run) (some job) = execute_job s t db run job
work_on s t db run job = (db, false)

-- The rows are read, or the reading raises.
unfoldable pub in_session : Services → Times → Bool → ℕ → ℕ → Db → Db × Bool
in_session s t false run_id job_id db = (db, true)
in_session s t true run_id job_id db =
    work_on s t db (get_run run_id db.runs) (get_job job_id db.jobs)

-- The worker thread; the release of its slot is in Pump.
unfoldable pub worker : Services → Times → Bool → Cleanup → ℕ → ℕ → ℕ → Db → Db
worker s t reads cleanup crashed run_id job_id db =
    or_finalize cleanup run_id job_id crashed (in_session s t reads run_id job_id db)
