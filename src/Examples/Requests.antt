-- ===== src/Examples/Requests.antt =====
-- A review that is scheduled on an empty queue.
use gitlab_reviewer.Prelude.{none, [], ◌∷◌, codes}
use gitlab_reviewer.Models.{Db}
use gitlab_reviewer.Scheduling.Consistent.{IsConsistent}
use gitlab_reviewer.Scheduling.Steps.{here}
use gitlab_reviewer.Scheduling.Reachable.{reachable-IsConsistent}
use gitlab_reviewer.Routes.{ScheduleForm}
use gitlab_reviewer.Routes.Consistent.{handle, schedule_call, handle-IsConsistent}
use gitlab_reviewer.Examples.Environments.{profile, merge_request, named_settings}

abbrev form : ScheduleForm
form = record {
  iid = 12;
  model_profile_id = 6;
  schedule_type = codes "nightly";
  prompt_override = [];
  post_to_gitlab = none;
  items =
      (codes "extra_url_0", codes "https://h/lib.git") ∷ (codes "extra_ref_0", codes "main") ∷ [];
  id = 1;
  created = 3;
  updated = 3;
}

abbrev idle_db : Db
idle_db = record {
  jobs = [];
  runs = [];
  profiles = profile ∷ [];
  merge_requests = merge_request ∷ [];
  settings = named_settings;
}

no_jobs : IsConsistent []
no_jobs = reachable-IsConsistent here

handle-IsConsistent_example : IsConsistent (handle (schedule_call form) idle_db).1.jobs
handle-IsConsistent_example = handle-IsConsistent (schedule_call form) idle_db tt no_jobs
