-- ===== src/Recovery.antt =====
-- app/scheduler/recovery.py: `recover_orphans` finalizes what a previous process left in flight. The
-- containers are stopped by best effort, which no table shows.
pub mod Clean
use gitlab_reviewer.Prelude.{
  ℕ, ◌+◌, Bool, true, false, Option, none, some, List, [], ◌∷◌, ◌==◌, if◌then◌else◌, length,
  keep_if, codes, Text,
}
use gitlab_reviewer.Models.{
  JobStatus, ScheduledJob, RunStatus, ReviewRun, is_inflight, is_running, Db,
}
use gitlab_reviewer.Table.{Jobs, update_row, with_status, get_job}
use gitlab_reviewer.Scheduling.{compact_positions}
use gitlab_reviewer.Outcome.{Runs, update_run}
use gitlab_reviewer.Review.{with_error}

abbrev pub interrupted : Text
interrupted = codes "interrupted: the app restarted while the review was running"

abbrev pub fail_found : Option ScheduledJob → ℕ → Jobs → Jobs
fail_found none now jobs = jobs
fail_found (some job) now jobs =
    if is_inflight job.status
    then update_row job.id (with_status JobStatus.failed now) jobs
    else jobs

-- The loop over the orphaned runs.
unfoldable pub recover_runs : ℕ → Runs → Runs → Runs
recover_runs now [] runs = runs
recover_runs now (r ∷ rs) runs =
    recover_runs now rs (update_run r.id (with_error interrupted now) runs)

unfoldable pub recover_jobs : ℕ → Runs → Jobs → Jobs
recover_jobs now [] jobs = jobs
recover_jobs now (r ∷ rs) jobs =
    recover_jobs now rs (fail_found (get_job r.scheduled_job_id jobs) now jobs)

-- The loop over the jobs that are stuck.
unfoldable pub fail_stuck : ℕ → Jobs → Jobs → Jobs
fail_stuck now [] jobs = jobs
fail_stuck now (j ∷ js) jobs =
    fail_stuck now js (update_row j.id (with_status JobStatus.failed now) jobs)

abbrev pub inflight_jobs : Jobs → Jobs
inflight_jobs jobs = keep_if (λ j. is_inflight j.status) jobs

abbrev pub running_runs : Runs → Runs
running_runs runs = keep_if (λ r. is_running r.status) runs

unfoldable pub recover_orphans : ℕ → Db → Db × ℕ
recover_orphans now db =
    let orphans = running_runs db.runs in
    let runs' = recover_runs now orphans db.runs in
    let jobs1 = recover_jobs now orphans db.jobs in
    let stuck = inflight_jobs jobs1 in
    let jobs2 = fail_stuck now stuck jobs1 in
    let fixed = length orphans + length stuck in
    let jobs' = if fixed == 0 then jobs2 else compact_positions jobs2 in
    (record db { runs = runs'; jobs = jobs' }, fixed)
