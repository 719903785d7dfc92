-- ===== src/Review.antt =====
-- app/services/review_service.py: a claimed job is executed (`execute_job`), and a job in flight is
-- cancelled (`cancel_inflight`).
pub mod Ends
pub mod Stored
pub mod Cancelled
use gitlab_reviewer.Prelude.{
  ℕ, Bool, true, false, ◌&&◌, Option, none, some, List, [], ◌∷◌, ◌++◌, map, ltb, ◌==◌,
  if◌then◌else◌, Text, codes, join,
}
use gitlab_reviewer.Models.{
  Json, JobStatus, ScheduledJob, RunStatus, ReviewRun, is_inflight, is_running, ModelProfile,
  MergeRequest, Db,
}
use gitlab_reviewer.Errors.{Result, ok, not_inflight, ◌>>◌, require}
use gitlab_reviewer.Table.{update_row, with_status}
use gitlab_reviewer.Scheduling.{compact_positions}
use gitlab_reviewer.Secrets.{Env, scrub_secrets, scrub_json, secret_env_values}
use gitlab_reviewer.Outcome.{
  Runs, update_run, get_profile, get_mr, RunOutcome, failed_outcome, Ending, returned, raised,
  Services, Times, extract_container_id, newline, apply_outcome,
}

-- The columns that the first commit of `execute_job` writes.
abbrev pub or_now : Option ℕ → ℕ → ℕ
or_now none now = now
or_now (some t) now = t

abbrev pub started_run : ℕ → ReviewRun → ReviewRun
started_run now run = record run {
  status = RunStatus.running;
  started_at = some (or_now run.started_at now);
}

abbrev pub scrub_text : List Text → Option Text → Option Text
scrub_text secrets none = none
scrub_text secrets (some t) = some (scrub_secrets t secrets)

abbrev pub scrub_optional : List Text → Option Json → Option Json
scrub_optional secrets none = none
scrub_optional secrets (some j) = some (scrub_json secrets j)

abbrev pub scrub_outcome : List Text → RunOutcome → RunOutcome
scrub_outcome secrets o = record o {
  error = scrub_text secrets o.error;
  result_markdown = scrub_text secrets o.result_markdown;
  result_json = scrub_optional secrets o.result_json;
  session_json = scrub_optional secrets o.session_json;
}

abbrev pub outcome_of : Ending → RunOutcome
outcome_of (returned o) = o
outcome_of (raised e) = failed_outcome (codes "orchestrator crashed: " ++ e)

-- `log_lines`, each chunk scrubbed as it comes.
unfoldable pub scrub_lines : List Text → List Text → List Text
scrub_lines secrets chunks = map (λ c. scrub_secrets c secrets) chunks

abbrev pub or_keep {ℓ} : {A : Type ℓ} → Option A → Option A → Option A
or_keep none old = old
or_keep (some a) old = some a

abbrev pub full_log : List Text → Text → Text
full_log [] old = old
full_log (l ∷ ls) old = join newline (l ∷ ls) ++ newline

abbrev pub with_log : List Text → ReviewRun → ReviewRun
with_log lines run = record run {
  container_id = or_keep (extract_container_id lines) run.container_id;
  log = full_log lines run.log;
}

-- From the environment on; the flag says that an exception left `execute_job`.
unfoldable pub review_with :
    Services → Times → Db → ReviewRun → ScheduledJob → MergeRequest → Option Env → Db × Bool
review_with s t db run job mr none = (db, true)
review_with s t db run job mr (some env) =
    let secrets = secret_env_values env in
    let done = s.run_review run job in
    let lines = scrub_lines secrets done.chunks in
    let outcome = scrub_outcome secrets (outcome_of done.ending) in
    (apply_outcome s db (with_log lines run) job outcome (some mr) t.finished, false)

unfoldable pub review_found :
    Services
    → Times
    → Db
    → ReviewRun
    → ScheduledJob
    → Option ModelProfile
    → Option MergeRequest
    → Db × Bool
review_found s t db run job (some profile) (some mr) =
    review_with s t db run job mr (s.build_env job profile db.settings mr)
review_found s t db run job profile mr = (
  apply_outcome s db run job (failed_outcome (codes "merge request or model profile missing")) none
      t.finished,
  false,
)

-- The tables after the first commit.
unfoldable pub start_job : Times → Db → ReviewRun → ScheduledJob → Db
start_job t db run job = record db {
  runs = update_run run.id (λ _. started_run t.started run) db.runs;
  jobs = update_row job.id (with_status JobStatus.running t.updated) db.jobs;
}

unfoldable pub execute_job : Services → Times → Db → ReviewRun → ScheduledJob → Db × Bool
execute_job s t db run job =
    review_found s t (start_job t db run job) (started_run t.started run)
      (with_status JobStatus.running t.updated job) (get_profile job.model_profile_id db.profiles)
      (get_mr job.merge_request_id db.merge_requests)

-- `ORDER BY id DESC LIMIT 1` over the running runs of the job.
abbrev pub newer : ReviewRun → Option ReviewRun → ReviewRun
newer r none = r
newer r (some q) = if ltb q.id r.id then r else q

unfoldable pub running_run : ℕ → Runs → Option ReviewRun
running_run job_id [] = none
running_run job_id (r ∷ rs) =
    let rest = running_run job_id rs in
    if r.scheduled_job_id == job_id && is_running r.status then some (newer r rest) else rest

abbrev pub with_error : Text → ℕ → ReviewRun → ReviewRun
with_error message now run = record run {
  status = RunStatus.error;
  error_message = some message;
  finished_at = some now;
}

abbrev pub stop_cancelled : Option ReviewRun → ℕ → Runs → Runs
stop_cancelled none now runs = runs
stop_cancelled (some r) now runs = update_run r.id (with_error (codes "cancelled by user") now) runs

-- The container is stopped by best effort, which no table shows.
unfoldable pub cancel_inflight : ScheduledJob → ℕ → ℕ → Db → Result Db
cancel_inflight job finished updated db = do
  require (is_inflight job.status) (not_inflight job.id job.status)
  ok (record db {
    runs = stop_cancelled (running_run job.id db.runs) finished db.runs;
    jobs = compact_positions (update_row job.id (with_status JobStatus.cancelled updated) db.jobs);
  })
