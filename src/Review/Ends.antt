-- ===== src/Review/Ends.antt =====
-- Where `execute_job` of app/services/review_service.py and the worker of app/scheduler/worker.py leave
-- the rows of a job and of its run.
use mathlib.Core.Bool.{false≢true}
use gitlab_reviewer.Prelude.{
  ℕ, false, Option, none, some, ◌≡◌, refl, sym, ap, ◌∙◌, inl, inr, ◌==◌, ==_iff, if◌then◌else◌,
  Bool-cases, In, map-In, is_zero, ◌&&◌,
}
use gitlab_reviewer.Models.{
  JobStatus, ScheduledJob, RunStatus, ReviewRun, is_running, is_success, ModelProfile, MergeRequest,
  SettingsRow, Db,
}
use gitlab_reviewer.Table.{Jobs, update_row, with_status}
use gitlab_reviewer.Scheduling.{compact_positions}
use gitlab_reviewer.Scheduling.Columns.{compact_positions-columns, columns-In}
use gitlab_reviewer.Secrets.{Env}
use gitlab_reviewer.Outcome.{
  Runs, update_run, get_profile, get_mr, RunOutcome, Services, Times, outcome_status, or_default,
  job_status_of, with_outcome, with_posted, outcome_run, Posted, post_to_gitlab, apply_outcome,
  note, post_failed,
}
use gitlab_reviewer.Review.{started_run, review_with, review_found, start_job, execute_job}

-- The rows of one id after an UPDATE of that id.
pub update_run-at :
    (f : ReviewRun → ReviewRun) (i : ℕ) (runs : Runs) (a : ReviewRun)
    → In a (update_run i f runs)
    → a.id ≡ i
    → (r : ReviewRun) × In r runs × (a ≡ f r)
unfolding update_run
update_run-at f i runs a m h =
    let (r, n, e) = map-In (λ (x : ReviewRun). if x.id == i then f x else x) runs a m in
    elim (Bool-cases (r.id == i)) [
      | inl t ↦ (r, n, rw t at e)
      | inr q ↦
          let p : a ≡ r = rw q at e in
          absurd (false≢true (sym q ∙ (==_iff r.id i).1 (ap (λ (x : ReviewRun). x.id) (sym p) ∙ h)))
    ]

pub update_row-at :
    (f : ScheduledJob → ScheduledJob) (i : ℕ) (jobs : Jobs) (a : ScheduledJob)
    → In a (update_row i f jobs)
    → a.id ≡ i
    → (j : ScheduledJob) × In j jobs × (a ≡ f j)
unfolding update_row
update_row-at f i jobs a m h =
    let (j, n, e) = map-In (λ (x : ScheduledJob). if x.id == i then f x else x) jobs a m in
    elim (Bool-cases (j.id == i)) [
      | inl t ↦ (j, n, rw t at e)
      | inr q ↦
          let p : a ≡ j = rw q at e in
          absurd
            (false≢true (sym q ∙ (==_iff j.id i).1 (ap (λ (x : ScheduledJob). x.id) (sym p) ∙ h)))
    ]

-- A commit followed by the compaction of the queue.
pub compacted-at :
    (f : ScheduledJob → ScheduledJob) (i : ℕ) (jobs : Jobs) (a : ScheduledJob)
    → In a (compact_positions (update_row i f jobs))
    → a.id ≡ i
    → (j : ScheduledJob) × In j jobs × (a.status ≡ (f j).status)
compacted-at f i jobs a m h =
    let jobs1 = update_row i f jobs in
    let (b, n, e) =
      columns-In (compact_positions jobs1) jobs1 (compact_positions-columns jobs1) a m in
    let (j, k, q) = update_row-at f i jobs b n (sym (ap (λ (x : ScheduledJob). x.id) e) ∙ h) in
    (j, k, ap (λ (x : ScheduledJob). x.status) e ∙ ap (λ (x : ScheduledJob). x.status) q)

with_posted-status :
    (iid : ℕ) (p : Posted) (run : ReviewRun) → (with_posted iid p run).status ≡ run.status
with_posted-status iid (note n) run = refl
with_posted-status iid (post_failed e) run = refl

post_to_gitlab-status :
    (s : Services) (o : RunOutcome) (mr : Option MergeRequest) (run : ReviewRun)
    → (post_to_gitlab s o mr run).status ≡ run.status
unfolding post_to_gitlab
post_to_gitlab-status s o none run = refl
post_to_gitlab-status s o (some mr) run =
    with_posted-status mr.iid (s.post_note mr.iid (s.render o.result_json o.result_markdown run))
      run

-- Posting, or failing to post, leaves the run with the status of its outcome.
pub outcome_run-status :
    (s : Services) (o : RunOutcome) (mr : Option MergeRequest) (job : ScheduledJob)
    (settings : SettingsRow) (finished : ℕ) (run : ReviewRun)
    → (outcome_run s o mr job settings finished run).status ≡ outcome_status o
unfolding outcome_run
outcome_run-status s o mr job settings finished run =
    elim (Bool-cases (
      is_success (outcome_status o)
      && or_default job.post_to_gitlab settings.post_results_to_gitlab)) [
        | inl t ↦ rw t (post_to_gitlab-status s o mr (with_outcome o finished run))
        | inr f ↦ rw f
      ]

pub outcome_status-ended : (o : RunOutcome) → is_running (outcome_status o) ≡ false
unfolding outcome_status
outcome_status-ended o = elim (Bool-cases o.timed_out) [
  | inl t ↦ rw t
  | inr f ↦ elim (Bool-cases (is_zero o.exit_code)) [ inl z ↦ rw (f, z) | inr z ↦ rw (f, z) ]
]

-- The run with the one id has ended with the status, and the job with the other is done on a
-- success and failed otherwise.
unfoldable pub IsSettled : RunStatus → ℕ → ℕ → Db → Type 0
IsSettled st run_id job_id db =
    (is_running st ≡ false)
    × ((r : ReviewRun) → In r db.runs → r.id ≡ run_id → r.status ≡ st)
    × ((j : ScheduledJob) → In j db.jobs → j.id ≡ job_id → j.status ≡ job_status_of st)

pub apply_outcome-IsSettled :
    (s : Services) (db : Db) (run : ReviewRun) (job : ScheduledJob) (o : RunOutcome)
    (mr : Option MergeRequest) (finished : ℕ)
    → IsSettled (outcome_status o) run.id job.id (apply_outcome s db run job o mr finished)
unfolding IsSettled apply_outcome
apply_outcome-IsSettled s db run job o mr finished = (
  outcome_status-ended o,
  λ r m h.
      let (q, n, e) =
        update_run-at (λ _. outcome_run s o mr job db.settings finished run) run.id db.runs r m h in
      ap (λ (x : ReviewRun). x.status) e ∙ outcome_run-status s o mr job db.settings finished run,
  λ j m h.
      (compacted-at (with_status (job_status_of (outcome_status o)) finished) job.id db.jobs j m
        h).2,
)

review_with-IsSettled :
    (s : Services) (t : Times) (db : Db) (run : ReviewRun) (job : ScheduledJob) (mr : MergeRequest)
    (env : Option Env)
    → (review_with s t db run job mr env).1 ≡ false
    → (st : RunStatus) × IsSettled st run.id job.id (review_with s t db run job mr env).0
unfolding review_with
review_with-IsSettled s t db run job mr none h = cc
review_with-IsSettled s t db run job mr (some env) h =
    (_, apply_outcome-IsSettled s db _ job _ (some mr) t.finished)

review_found-IsSettled :
    (s : Services) (t : Times) (db : Db) (run : ReviewRun) (job : ScheduledJob)
    (profile : Option ModelProfile) (mr : Option MergeRequest)
    → (review_found s t db run job profile mr).1 ≡ false
    → (st : RunStatus) × IsSettled st run.id job.id (review_found s t db run job profile mr).0
unfolding review_found
review_found-IsSettled s t db run job (some profile) (some mr) h =
    review_with-IsSettled s t db run job mr (s.build_env job profile db.settings mr) h
review_found-IsSettled s t db run job none mr h =
    (_, apply_outcome-IsSettled s db run job _ none t.finished)
review_found-IsSettled s t db run job (some profile) none h =
    (_, apply_outcome-IsSettled s db run job _ none t.finished)

-- When `execute_job` returns without an exception, whatever the container, GitLab and the tables
-- hold, the run has ended, and the job is done if the run is a success and failed otherwise.
pub execute_job-IsSettled :
    (s : Services) (t : Times) (db : Db) (run : ReviewRun) (job : ScheduledJob)
    → (execute_job s t db run job).1 ≡ false
    → (st : RunStatus) × IsSettled st run.id job.id (execute_job s t db run job).0
unfolding execute_job
execute_job-IsSettled s t db run job h =
    review_found-IsSettled s t (start_job t db run job) (started_run t.started run)
      (with_status JobStatus.running t.updated job) (get_profile job.model_profile_id db.profiles)
      (get_mr job.merge_request_id db.merge_requests) h
