-- ===== src/Examples/Reviews.antt =====
-- A review, its cancel and the recovery on tables with one running job.
use gitlab_reviewer.Prelude.{
  ◌⊎◌, pos, true, false, none, some, ◌≡◌, refl, sym, ap, ◌∙◌, inl, inr, [], ◌∷◌, In, codes,
}
use gitlab_reviewer.Models.{
  null, immediate, JobStatus, ScheduledJob, RunStatus, ReviewRun, anthropic, ModelProfile,
  MergeRequest, Db, is_success,
}
use gitlab_reviewer.Errors.{ok}
use gitlab_reviewer.Table.{get_job}
use gitlab_reviewer.Secrets.{secret_env_values}
use gitlab_reviewer.Outcome.{
  RunOutcome, returned, note, Services, Times, get_run, get_profile, get_mr, outcome_status,
  or_default, with_outcome, outcome_run, post_to_gitlab, update_run, apply_outcome,
}
use gitlab_reviewer.Review.{
  scrub_outcome, scrub_lines, with_log, execute_job, review_found, review_with, cancel_inflight,
}
use gitlab_reviewer.Review.Ends.{IsSettled, execute_job-IsSettled}
use gitlab_reviewer.Review.Stored.{Hides, review_with-Hides, HasNote, outcome_run-HasNote}
use gitlab_reviewer.Review.Cancelled.{runs_for, cancel_inflight_lem}
use gitlab_reviewer.Worker.{complete, unwritten, in_session, new_run, worker}
use gitlab_reviewer.Worker.Frees.{IsFreed, worker-IsFreed}
use gitlab_reviewer.Recovery.{recover_orphans, running_runs, inflight_jobs}
use gitlab_reviewer.Recovery.Clean.{recover_orphans_lem}
use gitlab_reviewer.Examples.{
  settings, job_row, night_job, token, token_env, token-In, token-IsStarFree, token-long,
}

abbrev busy_job : ScheduledJob
busy_job = job_row 1 immediate 1 JobStatus.claimed

abbrev busy_run : ReviewRun
busy_run = new_run 9 busy_job 3

abbrev profile : ModelProfile
profile = record {
  id = 6;
  name = [];
  provider = anthropic;
  model_id = codes "m";
  base_url = none;
  api_key = none;
  api_key_env = none;
  is_default = true;
  extra_opencode_json = null;
  context_window = none;
}

abbrev merge_request : MergeRequest
merge_request = record {
  id = 5;
  project = codes "p";
  iid = 12;
  title = [];
  author = [];
  source_branch = [];
  target_branch = [];
  sha = [];
  web_url = [];
  state = [];
  updated_at = none;
  last_seen_at = none;
}

abbrev busy_db : Db
busy_db = record {
  jobs = busy_job ∷ night_job ∷ [];
  runs = busy_run ∷ [];
  profiles = profile ∷ [];
  merge_requests = merge_request ∷ [];
  settings = settings;
}

-- The review answers with the token in its markdown.
abbrev leaking_outcome : RunOutcome
leaking_outcome = record {
  exit_code = pos 0;
  result_json = none;
  result_markdown = some token;
  session_json = none;
  error = none;
  timed_out = false;
}

abbrev services : Services
services = record {
  build_env = λ job profile settings mr. some token_env;
  run_review = λ run job. record { chunks = token ∷ []; ending = returned leaking_outcome };
  render = λ result markdown run. codes "review";
  post_note = λ iid body. note 77;
}

-- The API key cannot be resolved.
abbrev keyless : Services
keyless = record services { build_env = λ job profile settings mr. none }

abbrev times : Times
times = record { started = 4; updated = 4; finished = 8 }

runs_through : (execute_job services times busy_db busy_run busy_job).1 ≡ false
unfolding execute_job review_found review_with get_profile get_mr
runs_through = refl

execute_job-IsSettled_example :
    (st : RunStatus) × IsSettled st 9 1 (execute_job services times busy_db busy_run busy_job).0
unfolding new_run
execute_job-IsSettled_example =
    execute_job-IsSettled services times busy_db busy_run busy_job runs_through

run_found : get_run 9 busy_db.runs ≡ some busy_run
unfolding get_run new_run
run_found = refl

job_found : get_job 1 busy_db.jobs ≡ some busy_job
unfolding get_job
job_found = refl

worker-IsFreed_example :
    IsFreed 9 1 (worker keyless times true complete 20 9 1 busy_db)
    ⊎ ((complete ≡ unwritten)
        × ((in_session keyless times true 9 1 busy_db).1 ≡ true)
        × (worker keyless times true complete 20 9 1 busy_db
            ≡ (in_session keyless times true 9 1 busy_db).0))
worker-IsFreed_example =
    worker-IsFreed keyless times true complete 20 9 1 busy_db busy_run busy_job run_found job_found

same_run :
    (r q : ReviewRun)
    → In r busy_db.runs
    → In q busy_db.runs
    → runs_for 1 r ≡ true
    → runs_for 1 q ≡ true
    → r.id ≡ q.id
same_run r q (inl e) (inl f) h k = ap (λ (x : ReviewRun). x.id) (e ∙ sym f)
same_run r q (inr m) n h k = absurd m
same_run r q (inl e) (inr n) h k = absurd n

cancel_inflight_lem_example :
    (db' : Db) × (cancel_inflight busy_job 8 8 busy_db ≡ ok db')
    × ((j : ScheduledJob) → In j db'.jobs → j.id ≡ 1 → j.status ≡ JobStatus.cancelled)
    × ((r : ReviewRun) → In r db'.runs → runs_for 1 r ≡ false)
cancel_inflight_lem_example = cancel_inflight_lem busy_job 8 8 busy_db same_run refl

abbrev stored_db : Db
stored_db = (review_with services times busy_db busy_run busy_job merge_request (some token_env)).0

-- The row of the run as it is stored.
abbrev stored_run : ReviewRun
stored_run =
    outcome_run services (scrub_outcome (secret_env_values token_env) leaking_outcome)
      (some merge_request) busy_job settings 8
      (with_log (scrub_lines (secret_env_values token_env) (token ∷ [])) busy_run)

stored_run-In : In stored_run stored_db.runs
unfolding review_with apply_outcome update_run new_run
stored_run-In = inl refl

stored_run-id : stored_run.id ≡ busy_run.id
unfolding outcome_run new_run post_to_gitlab outcome_status
stored_run-id = refl

review_with-Hides_example : Hides token stored_run
review_with-Hides_example =
    review_with-Hides services times busy_db busy_run busy_job merge_request token_env token
      token-IsStarFree token-long token-In stored_run stored_run-In stored_run-id

abbrev posted_run : ReviewRun
posted_run = outcome_run services leaking_outcome (some merge_request) busy_job settings 8 busy_run

no_note : busy_run.gitlab_note_id ≡ none
unfolding new_run
no_note = refl

has_note : posted_run.gitlab_note_id ≡ some 77
unfolding outcome_run post_to_gitlab outcome_status
has_note = refl

outcome_run-HasNote_example :
    (is_success (outcome_status leaking_outcome) ≡ true)
    × (or_default (some true) false ≡ true)
    × HasNote services leaking_outcome
        (some merge_request)
        (with_outcome leaking_outcome 8 busy_run)
        77
outcome_run-HasNote_example =
    outcome_run-HasNote services leaking_outcome (some merge_request) busy_job settings 8 busy_run
      77 no_note has_note

recover_orphans_lem_example :
    (running_runs (recover_orphans 30 busy_db).0.runs ≡ [])
    × (inflight_jobs (recover_orphans 30 busy_db).0.jobs ≡ [])
recover_orphans_lem_example = recover_orphans_lem 30 busy_db
