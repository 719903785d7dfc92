-- ===== src/Outcome.antt =====
-- app/services/review_service.py: how the outcome of a review is stored (`_apply_outcome`), with the
-- post-back to GitLab (`_post_to_gitlab`). `run` and `job` are the rows in the session's hand; a commit
-- writes their columns to the rows of the same id. What the container, GitLab and the clock answer,
-- the rendering of the note (app/services/result_render.py) and the environment (`build_env`) are
-- parameters.
use gitlab_reviewer.Prelude.{
  ℕ, ℤ, pos, is_zero, Bool, true, false, ◌&&◌, ◌||◌, Option, none, some, List, [], ◌∷◌, ◌++◌, map,
  leb, ◌==◌, if◌then◌else◌, length, Text, codes, strip, rstrip_by, decimal,
}
use gitlab_reviewer.Models.{
  Json, JobStatus, ScheduledJob, RunStatus, ReviewRun, is_success, ModelProfile, MergeRequest,
  SettingsRow, Db,
}
use gitlab_reviewer.Table.{update_row, with_status}
use gitlab_reviewer.Scheduling.{compact_positions}
use gitlab_reviewer.Secrets.{Env}

abbrev pub Runs : Type 0
Runs = List ReviewRun

unfoldable pub update_run : ℕ → (ReviewRun → ReviewRun) → Runs → Runs
update_run i f runs = map (λ r. if r.id == i then f r else r) runs

-- `db.get(...)`
unfoldable pub get_run : ℕ → Runs → Option ReviewRun
get_run i [] = none
get_run i (r ∷ rs) = if r.id == i then some r else get_run i rs

unfoldable pub get_profile : ℕ → List ModelProfile → Option ModelProfile
get_profile i [] = none
get_profile i (p ∷ ps) = if p.id == i then some p else get_profile i ps

unfoldable pub get_mr : ℕ → List MergeRequest → Option MergeRequest
get_mr i [] = none
get_mr i (m ∷ ms) = if m.id == i then some m else get_mr i ms

-- app/orchestrator/__init__.py
pub record RunOutcome : Type 0 where
  pub exit_code : ℤ
  pub result_json : Option Json
  pub result_markdown : Option Text
  pub session_json : Option Json
  pub error : Option Text
  pub timed_out : Bool

abbrev pub failed_outcome : Text → RunOutcome
failed_outcome message = record {
  exit_code = pos 1;
  result_json = none;
  result_markdown = none;
  session_json = none;
  error = some message;
  timed_out = false;
}

-- How `orchestrator.run_review` ends: it returns, or raises an exception of the given `repr`.
pub data Ending : Type 0 where
  returned : RunOutcome → Ending
  raised : Text → Ending

-- The chunks that it hands to `log_chunk`, in order, and its end.
pub record Execution : Type 0 where
  pub chunks : List Text
  pub ending : Ending

-- `GitLabClient.post_note`: the note id, or the text of the exception.
pub data Posted : Type 0 where
  note : ℕ → Posted
  post_failed : Text → Posted

-- What `execute_job` calls and is not modelled here. `build_env` raises where it is `none`.
pub record Services : Type 0 where
  pub build_env : ScheduledJob → ModelProfile → SettingsRow → MergeRequest → Option Env
  pub run_review : ReviewRun → ScheduledJob → Execution
  pub render : Option Json → Option Text → ReviewRun → Text
  pub post_note : ℕ → Text → Posted

-- The readings of `_now`.
pub record Times : Type 0 where
  pub started : ℕ
  pub updated : ℕ
  pub finished : ℕ

-- `[0-9a-f]`
abbrev pub is_hex : ℕ → Bool
is_hex c = (leb 48 c && leb c 57) || (leb 97 c && leb c 102)

unfoldable pub all_hex : Text → Bool
all_hex [] = true
all_hex (c ∷ cs) = is_hex c && all_hex cs

-- `^[0-9a-f]{64}$` on a stripped line.
abbrev pub is_container_id : Text → Bool
is_container_id line = length line == 64 && all_hex line

unfoldable pub extract_container_id : List Text → Option Text
extract_container_id [] = none
extract_container_id (line ∷ lines) =
    if is_container_id (strip line) then some (strip line) else extract_container_id lines

abbrev pub is_newline : ℕ → Bool
is_newline c = c == 10

-- "\n"
abbrev pub newline : Text
newline = 10 ∷ []

abbrev pub terminated : Text → Text → Text
terminated [] line = line ++ newline
terminated (c ∷ base) line = (c ∷ base) ++ (newline ++ (line ++ newline))

unfoldable pub append_log : Text → Text → Text
append_log log line = terminated (rstrip_by is_newline log) line

-- The status that an outcome stands for.
unfoldable pub outcome_status : RunOutcome → RunStatus
outcome_status o =
    if o.timed_out
    then RunStatus.timeout
    else if is_zero o.exit_code
    then RunStatus.success
    else RunStatus.error

abbrev pub or_default : Option Bool → Bool → Bool
or_default none d = d
or_default (some b) d = b

-- The run's columns after a post.
abbrev pub with_posted : ℕ → Posted → ReviewRun → ReviewRun
with_posted iid (note n) run = record run {
  gitlab_note_id = some n;
  log =
      append_log run.log
        (codes "Posted review to GitLab !" ++ (decimal iid ++ (codes " as note " ++ decimal n)));
}
with_posted iid (post_failed e) run = record run {
  log = append_log run.log (codes "GitLab post-back failed: " ++ e);
}

unfoldable pub post_to_gitlab : Services → RunOutcome → Option MergeRequest → ReviewRun → ReviewRun
post_to_gitlab s o none run = record run {
  log = append_log run.log (codes "GitLab post-back skipped: merge request row missing");
}
post_to_gitlab s o (some mr) run =
    with_posted mr.iid (s.post_note mr.iid (s.render o.result_json o.result_markdown run)) run

abbrev pub job_status_of : RunStatus → JobStatus
job_status_of RunStatus.success = JobStatus.done
job_status_of _ = JobStatus.failed

-- The run's columns that `_apply_outcome` assigns before the post-back.
abbrev pub with_outcome : RunOutcome → ℕ → ReviewRun → ReviewRun
with_outcome o finished run = record run {
  status = outcome_status o;
  exit_code = some o.exit_code;
  result_json = o.result_json;
  result_markdown = o.result_markdown;
  session_json = o.session_json;
  error_message = o.error;
  finished_at = some finished;
}

-- The row as the commit writes it: the post-back comes before it, on success and where the job's
-- flag, or else the settings, ask for it.
unfoldable pub outcome_run :
    Services
    → RunOutcome
    → Option MergeRequest
    → ScheduledJob
    → SettingsRow
    → ℕ
    → ReviewRun
    → ReviewRun
outcome_run s o mr job settings finished run =
    let run' = with_outcome o finished run in
    if is_success (outcome_status o)
      && or_default job.post_to_gitlab settings.post_results_to_gitlab
    then post_to_gitlab s o mr run'
    else run'

unfoldable pub apply_outcome :
    Services → Db → ReviewRun → ScheduledJob → RunOutcome → Option MergeRequest → ℕ → Db
apply_outcome s db run job o mr finished = record db {
  runs = update_run run.id (λ _. outcome_run s o mr job db.settings finished run) db.runs;
  jobs =
      compact_positions
        (update_row job.id (with_status (job_status_of (outcome_status o)) finished) db.jobs);
}
