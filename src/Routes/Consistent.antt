-- ===== src/Routes/Consistent.antt =====
-- The requests of app/routers/queue.py on the two sets of the queue.
use mathlib.Core.Option.{some-injective, none-ne-some}
use gitlab_reviewer.Prelude.{
  ℕ, Option, none, some, ◌≡◌, refl, sym, inl, inr, List, [], ◌∷◌, ◌==◌, Bool-cases, if_both, In,
}
use gitlab_reviewer.Models.{
  Json, ScheduleType, JobStatus, ScheduledJob, ModelProfile, MergeRequest, Db, is_inflight,
}
use gitlab_reviewer.Errors.{Result, err, ok}
use gitlab_reviewer.Table.{Jobs, get_job, next_position, update_row, with_status}
use gitlab_reviewer.Table.Join.{IsFresh}
use gitlab_reviewer.Scheduling.{
  reorder, move_to_top, move_to_bottom, cancel, remove_nightly, enqueue,
}
use gitlab_reviewer.Scheduling.Steps.{
  Step, enqueued, reordered, to_top, to_bottom, cancelled, removed,
}
use gitlab_reviewer.Scheduling.Consistent.{IsConsistent}
use gitlab_reviewer.Scheduling.Reachable.{
  Step-IsConsistent, settle-IsConsistent, compact_positions-IsConsistent,
}
use gitlab_reviewer.Outcome.{get_profile}
use gitlab_reviewer.Sync.{find_mr}
use gitlab_reviewer.Routes.Forms.{parse_extra_projects, any_without_url}
use gitlab_reviewer.Review.{cancel_inflight}
use gitlab_reviewer.Routes.{
  Reply, url_missing, scheduled, with_jobs, with_db, queue_reorder, cancel_found, queue_cancel,
  move_found, queue_move_top, queue_move_bottom, remove_found, queue_nightly_remove, ScheduleForm,
  type_of, request_of, schedule_checked, schedule_found, schedule_review,
}

-- A request to the queue that changes state, with its clocks.
pub data Call : Type 0 where
  reorder_call : Option (List ℕ) → Call
  cancel_call : ℕ → ℕ → ℕ → ℕ → Call
  top_call bottom_call : ℕ → Call
  remove_call : ℕ → ℕ → Call
  schedule_call : ScheduleForm → Call

unfoldable pub handle : Call → Db → Reply × Db
handle (reorder_call ordered) db = queue_reorder ordered db
handle (cancel_call job_id now finished updated) db = queue_cancel job_id now finished updated db
handle (top_call job_id) db = queue_move_top job_id db
handle (bottom_call job_id) db = queue_move_bottom job_id db
handle (remove_call job_id now) db = queue_nightly_remove job_id now db
handle (schedule_call form) db = schedule_review form db

-- The id that an INSERT gets is no row's.
abbrev pub TakesFreshId : Call → Db → Type 0
TakesFreshId (schedule_call form) db = IsFresh form.id db.jobs
TakesFreshId _ db = Unit

abbrev HoldsIn : Reply × Db → Type 0
HoldsIn r = IsConsistent r.1.jobs

In-get_job : (i : ℕ) (jobs : Jobs) (job : ScheduledJob) → get_job i jobs ≡ some job → In job jobs
unfolding get_job
In-get_job i [] job h = absurd (none-ne-some _ h)
In-get_job i (q ∷ jobs) job h = elim (Bool-cases (q.id == i)) [
  | inl t ↦ inl (sym (some-injective _ _ (rw t at h)))
  | inr f ↦ inr (In-get_job i jobs job (rw f at h))
]

module _ (db : Db) (c : IsConsistent db.jobs) where
  with_jobs-IsConsistent :
      (r : Result Jobs)
      → ((jobs : Jobs) → r ≡ ok jobs → Step db.jobs jobs)
      → HoldsIn (with_jobs db r)
  with_jobs-IsConsistent (ok jobs) step = Step-IsConsistent (step jobs refl) c
  with_jobs-IsConsistent (err e) step = c

  cancel_inflight-IsConsistent :
      (job : ScheduledJob) (finished updated : ℕ)
      → HoldsIn (with_db db (cancel_inflight job finished updated db))
  unfolding cancel_inflight
  cancel_inflight-IsConsistent job finished updated = elim (Bool-cases (is_inflight job.status)) [
    | inl t ↦ rw t (
        compact_positions-IsConsistent
          (update_row job.id (with_status JobStatus.cancelled updated) db.jobs)
          (settle-IsConsistent job.id JobStatus.cancelled updated db.jobs refl c))
    | inr f ↦ rw f c
  ]

  cancel_found-IsConsistent :
      (job_id now finished updated : ℕ) (o : Option ScheduledJob)
      → HoldsIn (cancel_found job_id now finished updated o db)
  cancel_found-IsConsistent job_id now finished updated none = c
  cancel_found-IsConsistent job_id now finished updated (some job) =
      if_both HoldsIn (is_inflight job.status)
        (with_db db (cancel_inflight job finished updated db))
        (with_jobs db (cancel job now db.jobs)) (cancel_inflight-IsConsistent job finished updated)
        (with_jobs-IsConsistent (cancel job now db.jobs) (λ jobs e. cancelled job now e))

  move_found-IsConsistent :
      (move : ScheduledJob → Jobs → Result Jobs) (job_id : ℕ) (o : Option ScheduledJob)
      → ((job : ScheduledJob) (jobs : Jobs) → move job db.jobs ≡ ok jobs → Step db.jobs jobs)
      → HoldsIn (move_found move job_id o db)
  move_found-IsConsistent move job_id none step = c
  move_found-IsConsistent move job_id (some job) step =
      with_jobs-IsConsistent (move job db.jobs) (step job)

  remove_found-IsConsistent :
      (now : ℕ) (o : Option ScheduledJob)
      → ((job : ScheduledJob) → o ≡ some job → In job db.jobs)
      → HoldsIn (remove_found now o db)
  remove_found-IsConsistent now none m = c
  remove_found-IsConsistent now (some job) m =
      with_jobs-IsConsistent (remove_nightly job now db.jobs)
        (λ jobs e. removed job now (m job refl) e)

  schedule_checked-IsConsistent :
      (form : ScheduleForm) (mr : MergeRequest) (p : Option ModelProfile) (t : Option ScheduleType)
      (extras : List Json)
      → IsFresh form.id db.jobs
      → HoldsIn (schedule_checked form mr p t extras db)
  schedule_checked-IsConsistent form mr none t extras fresh = c
  schedule_checked-IsConsistent form mr (some profile) none extras fresh = c
  schedule_checked-IsConsistent form mr (some profile) (some t) extras fresh =
      if_both HoldsIn (any_without_url extras) (url_missing, db)
        (
          scheduled t (next_position t db.jobs),
          record db {
            jobs =
                enqueue form.id t (request_of form mr profile extras) form.created form.updated
                  db.jobs;
          },
        )
        c
        (Step-IsConsistent
          (enqueued form.id t (request_of form mr profile extras) form.created form.updated fresh
            refl)
          c)

  schedule_found-IsConsistent :
      (form : ScheduleForm) (o : Option MergeRequest)
      → IsFresh form.id db.jobs
      → HoldsIn (schedule_found form o db)
  schedule_found-IsConsistent form none fresh = c
  schedule_found-IsConsistent form (some mr) fresh =
      schedule_checked-IsConsistent form mr (get_profile form.model_profile_id db.profiles)
        (type_of form.schedule_type) (parse_extra_projects form.items) fresh

  handle-HoldsIn : (call : Call) → TakesFreshId call db → HoldsIn (handle call db)
  unfolding handle queue_reorder queue_cancel queue_move_top queue_move_bottom queue_nightly_remove
      schedule_review
  handle-HoldsIn (reorder_call none) fresh = c
  handle-HoldsIn (reorder_call (some ordered)) fresh =
      with_jobs-IsConsistent (reorder ordered db.jobs) (λ jobs e. reordered ordered e)
  handle-HoldsIn (cancel_call job_id now finished updated) fresh =
      cancel_found-IsConsistent job_id now finished updated (get_job job_id db.jobs)
  handle-HoldsIn (top_call job_id) fresh =
      move_found-IsConsistent move_to_top job_id (get_job job_id db.jobs)
        (λ job jobs e. to_top job e)
  handle-HoldsIn (bottom_call job_id) fresh =
      move_found-IsConsistent move_to_bottom job_id (get_job job_id db.jobs)
        (λ job jobs e. to_bottom job e)
  handle-HoldsIn (remove_call job_id now) fresh =
      remove_found-IsConsistent now (get_job job_id db.jobs)
        (λ job e. In-get_job job_id db.jobs job e)
  handle-HoldsIn (schedule_call form) fresh =
      schedule_found-IsConsistent form
        (find_mr db.settings.gitlab_project form.iid db.merge_requests) fresh

-- Every request of the queue page, whatever its ids, its form and its outcome, keeps a consistent table
-- consistent: ids stay unique, and in each of the two sets the positions stay positive, all different and
-- rising in the order in which the set is read. A review is scheduled under a fresh id.
pub handle-IsConsistent :
    (call : Call) (db : Db)
    → TakesFreshId call db
    → IsConsistent db.jobs
    → IsConsistent (handle call db).1.jobs
handle-IsConsistent call db fresh c = handle-HoldsIn db c call fresh
