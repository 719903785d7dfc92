-- ===== src/Examples.antt =====
-- Rows, tables and services that the examples share.
mod Queue
mod Scrubbing
mod Reviews
mod Syncs
mod Pumps
mod Clients
mod Containers
mod Claims
mod Library
mod Rendering
mod Running
mod Environments
mod Logging
mod Provided
mod Requests
use gitlab_reviewer.Prelude.{
  ℕ, ◌-◌, ◌++◌, not, ◌&&◌, leb, if◌then◌else◌, text_eq, pos, negsuc, Bool, true, false, Option,
  none, some, List, [], ◌∷◌, Text, codes, ◌≡◌, refl, inl, In, ◌≤◌, length, arith,
}
use gitlab_reviewer.Models.{
  Json, null, string, object, end, field, ScheduleType, immediate, nightly, JobStatus, ScheduledJob,
  RunStatus, ReviewRun, Provider, ModelProfile, MergeRequest, SettingsRow, Db,
}
use gitlab_reviewer.Table.{Jobs}
use gitlab_reviewer.Table.Order.{UniqueIds}
use gitlab_reviewer.Scheduling.{Request}
use gitlab_reviewer.Secrets.{Env, min_scrub_len, secret_env_values, values_of, env_value}
use gitlab_reviewer.Secrets.Absent.{IsStarFree}
use gitlab_reviewer.Python.{Python}
use gitlab_reviewer.ExtraProjects.{Urls}
use gitlab_reviewer.Render.{newline}

abbrev pub job_row : ℕ → ScheduleType → ℕ → JobStatus → ScheduledJob
job_row id t position status = record {
  id = id;
  merge_request_id = 5;
  model_profile_id = 6;
  prompt_override = none;
  extra_projects = [];
  schedule_type = t;
  position = position;
  status = status;
  post_to_gitlab = some true;
  created_at = some 0;
  updated_at = none;
}

-- Two queued immediate jobs and one nightly job.
abbrev pub first_job : ScheduledJob
first_job = job_row 1 immediate 1 JobStatus.queued

abbrev pub second_job : ScheduledJob
second_job = job_row 2 immediate 2 JobStatus.queued

abbrev pub night_job : ScheduledJob
night_job = job_row 3 nightly 1 JobStatus.queued

abbrev pub three_jobs : Jobs
three_jobs = first_job ∷ second_job ∷ night_job ∷ []

pub three_jobs-UniqueIds : UniqueIds three_jobs
three_jobs-UniqueIds = (((λ e. cc), ((λ e. cc), tt)), (((λ e. cc), tt), (tt, tt)))

abbrev pub plain_request : Request
plain_request = record {
  mr_id = 5;
  profile_id = 6;
  prompt_override = none;
  extra_projects = none;
  post_to_gitlab = none;
}

-- A token of eight characters and the environment that holds it.
abbrev pub token : Text
token = 97 ∷ 98 ∷ 99 ∷ 100 ∷ 101 ∷ 102 ∷ 103 ∷ 104 ∷ []

abbrev pub token_env : Env
token_env = (codes "GITLAB_TOKEN", token) ∷ []

pub token-In : In token (secret_env_values token_env)
unfolding secret_env_values values_of env_value
token-In = inl refl

pub token-IsStarFree : IsStarFree token
token-IsStarFree = (
  (λ e. cc),
  ((λ e. cc), ((λ e. cc), ((λ e. cc), ((λ e. cc), ((λ e. cc), ((λ e. cc), ((λ e. cc), tt))))))),
)

pub token-long : min_scrub_len ≤ length token
token-long = omega arith

abbrev pub settings : SettingsRow
settings = record {
  gitlab_url = [];
  gitlab_project = [];
  gitlab_token = token;
  default_review_prompt = [];
  nightly_time = [];
  max_concurrent_reviews = 2;
  poll_interval_seconds = 60;
  post_results_to_gitlab = false;
  known_libraries = [];
  gitlab_default_branch = none;
}

-- Numbers but "0" are true, and ASCII digits are read; "{}" with a newline is the only JSON text.
abbrev pub python : Python
python = record {
  nonzero = λ t. not (text_eq t (codes "0"));
  str_of = λ j. [];
  dumps = λ j. [];
  loads = λ t. if text_eq t (codes "{}" ++ newline) then some (object end) else none;
  int_of = λ t. none;
  digit = λ c. if leb 48 c && leb c 57 then some (c - 48) else none;
}

-- A URL is its own path.
abbrev pub urls : Urls
urls = record { path = λ url. some url; digest = λ url. codes "0a1b2c" }

-- An extra project without a path.
abbrev pub url_only : Json
url_only = object (field (codes "url") (string (codes "h/lib.git")) end)
