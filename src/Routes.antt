-- ===== src/Routes.antt =====
-- The requests of app/routers/queue.py that change state. The pages that are rendered are not modelled:
-- a request answers with what its message says.
pub mod Forms
pub mod Consistent
use gitlab_reviewer.Prelude.{
  ℕ, Bool, Option, none, some, List, [], if◌then◌else◌, Text, text_eq, codes,
}
use gitlab_reviewer.Models.{
  Json, ScheduleType, immediate, nightly, ScheduledJob, ModelProfile, MergeRequest, Db, is_inflight,
}
use gitlab_reviewer.Errors.{ValueError, Result, err, ok}
use gitlab_reviewer.Table.{Jobs, get_job, next_position}
use gitlab_reviewer.Scheduling.{
  Request, enqueue, reorder, move_to_top, move_to_bottom, cancel, remove_nightly,
}
use gitlab_reviewer.Outcome.{get_profile}
use gitlab_reviewer.Review.{cancel_inflight}
use gitlab_reviewer.Sync.{find_mr}
use gitlab_reviewer.Routes.Forms.{parse_extra_projects, any_without_url}

pub data Reply : Type 0 where
  page : Reply
  unknown_job : ℕ → Reply
  failed : ValueError → Reply
  not_numbers : Reply
  not_found : Reply
  unknown_profile : ℕ → Reply
  unknown_type : Text → Reply
  url_missing : Reply
  scheduled : ScheduleType → ℕ → Reply

abbrev pub with_jobs : Db → Result Jobs → Reply × Db
with_jobs db (ok jobs) = (page, record db { jobs = jobs })
with_jobs db (err e) = (failed e, db)

abbrev pub with_db : Db → Result Db → Reply × Db
with_db db (ok db') = (page, db')
with_db db (err e) = (failed e, db)

-- The ids as numbers; none where `int` refuses one of them.
unfoldable pub queue_reorder : Option (List ℕ) → Db → Reply × Db
queue_reorder none db = (not_numbers, db)
queue_reorder (some ordered) db = with_jobs db (reorder ordered db.jobs)

-- The clock of the route and the two clocks of `cancel_inflight`.
abbrev pub cancel_found : ℕ → ℕ → ℕ → ℕ → Option ScheduledJob → Db → Reply × Db
cancel_found job_id now finished updated none db = (unknown_job job_id, db)
cancel_found job_id now finished updated (some job) db =
    if is_inflight job.status
    then with_db db (cancel_inflight job finished updated db)
    else with_jobs db (cancel job now db.jobs)

unfoldable pub queue_cancel : ℕ → ℕ → ℕ → ℕ → Db → Reply × Db
queue_cancel job_id now finished updated db =
    cancel_found job_id now finished updated (get_job job_id db.jobs) db

abbrev pub move_found :
    (ScheduledJob → Jobs → Result Jobs) → ℕ → Option ScheduledJob → Db → Reply × Db
move_found move job_id none db = (unknown_job job_id, db)
move_found move job_id (some job) db = with_jobs db (move job db.jobs)

unfoldable pub queue_move_top : ℕ → Db → Reply × Db
queue_move_top job_id db = move_found move_to_top job_id (get_job job_id db.jobs) db

unfoldable pub queue_move_bottom : ℕ → Db → Reply × Db
queue_move_bottom job_id db = move_found move_to_bottom job_id (get_job job_id db.jobs) db

abbrev pub remove_found : ℕ → Option ScheduledJob → Db → Reply × Db
remove_found now none db = (page, db)
remove_found now (some job) db = (page, (with_jobs db (remove_nightly job now db.jobs)).1)

unfoldable pub queue_nightly_remove : ℕ → ℕ → Db → Reply × Db
queue_nightly_remove job_id now db = remove_found now (get_job job_id db.jobs) db

-- The form of `schedule_review`, with the id that the INSERT gets and its clocks.
pub record ScheduleForm : Type 0 where
  pub iid : ℕ
  pub model_profile_id : ℕ
  pub schedule_type : Text
  pub prompt_override : Text
  pub post_to_gitlab : Option Bool
  pub items : List (Text × Text)
  pub id : ℕ
  pub created : ℕ
  pub updated : ℕ

abbrev pub type_of : Text → Option ScheduleType
type_of t =
    if text_eq t (codes "immediate")
    then some immediate
    else if text_eq t (codes "nightly")
    then some nightly
    else none

abbrev pub request_of : ScheduleForm → MergeRequest → ModelProfile → List Json → Request
request_of form mr profile extras = record {
  mr_id = mr.id;
  profile_id = profile.id;
  prompt_override = some form.prompt_override;
  extra_projects = some extras;
  post_to_gitlab = form.post_to_gitlab;
}

abbrev pub schedule_checked :
    ScheduleForm
    → MergeRequest
    → Option ModelProfile
    → Option ScheduleType
    → List Json
    → Db
    → Reply × Db
schedule_checked form mr none t extras db = (unknown_profile form.model_profile_id, db)
schedule_checked form mr (some profile) none extras db = (unknown_type form.schedule_type, db)
schedule_checked form mr (some profile) (some t) extras db =
    if any_without_url extras then (url_missing, db) else (
      scheduled t (next_position t db.jobs),
      record db {
        jobs =
            enqueue form.id t (request_of form mr profile extras) form.created form.updated db.jobs;
      },
    )

abbrev pub schedule_found : ScheduleForm → Option MergeRequest → Db → Reply × Db
schedule_found form none db = (not_found, db)
schedule_found form (some mr) db =
    schedule_checked form mr (get_profile form.model_profile_id db.profiles)
      (type_of form.schedule_type) (parse_extra_projects form.items) db

unfoldable pub schedule_review : ScheduleForm → Db → Reply × Db
schedule_review form db =
    schedule_found form (find_mr db.settings.gitlab_project form.iid db.merge_requests) db
