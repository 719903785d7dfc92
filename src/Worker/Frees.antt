-- ===== src/Worker/Frees.antt =====
-- The run and the job of a worker thread of app/scheduler/worker.py that comes to its end.
use gitlab_reviewer.Prelude.{
  ℕ, Bool, true, false, some, ◌≡◌, refl, ap, ◌∙◌, ◌⊎◌, inl, inr, [], ◌∷◌, arith, ◌==◌, Bool-cases,
  In,
}
use gitlab_reviewer.Models.{ScheduledJob, RunStatus, ReviewRun, is_inflight, is_running, Db}
use gitlab_reviewer.Table.{Jobs, get_job}
use gitlab_reviewer.Outcome.{Runs, get_run, update_run, Services, Times, job_status_of}
use gitlab_reviewer.Review.{execute_job}
use gitlab_reviewer.Review.Ends.{
  update_run-at, update_row-at, compacted-at, IsSettled, execute_job-IsSettled,
}
use gitlab_reviewer.Worker.{
  Cleanup, complete, committed, unwritten, crashed_run, failed_if_inflight, finalize_crashed_run,
  or_finalize, in_session, worker,
}

-- Neither the run nor the job is in flight.
pub IsFreed : ℕ → ℕ → Db → Type 0
IsFreed run_id job_id db =
    ((r : ReviewRun) → In r db.runs → r.id ≡ run_id → is_running r.status ≡ false)
    × ((j : ScheduledJob) → In j db.jobs → j.id ≡ job_id → is_inflight j.status ≡ false)

job_status_of-ended : (st : RunStatus) → is_inflight (job_status_of st) ≡ false
job_status_of-ended RunStatus.running = refl
job_status_of-ended RunStatus.success = refl
job_status_of-ended RunStatus.error = refl
job_status_of-ended RunStatus.timeout = refl

settled-IsFreed :
    (st : RunStatus) (run_id job_id : ℕ) (db : Db)
    → IsSettled st run_id job_id db
    → IsFreed run_id job_id db
unfolding IsSettled IsFreed
settled-IsFreed st run_id job_id db h = (
  λ r m e. ap is_running (h.1 r m e) ∙ h.0,
  λ j m e. ap is_inflight (h.2 j m e) ∙ job_status_of-ended st,
)

crashed_run-ended : (now : ℕ) (r : ReviewRun) → is_running (crashed_run now r).status ≡ false
crashed_run-ended now r = elim (Bool-cases (is_running r.status)) [
  | inl t ↦ rw t
  | inr f ↦ rw (f, f)
]

failed_if_inflight-ended :
    (now : ℕ) (j : ScheduledJob) → is_inflight (failed_if_inflight now j).status ≡ false
failed_if_inflight-ended now j = elim (Bool-cases (is_inflight j.status)) [
  | inl t ↦ rw t
  | inr f ↦ rw (f, f)
]

crashed-ended :
    (run_id now : ℕ) (runs : Runs) (r : ReviewRun)
    → In r (update_run run_id (crashed_run now) runs)
    → r.id ≡ run_id
    → is_running r.status ≡ false
crashed-ended run_id now runs r m h =
    let (q, n, e) = update_run-at (crashed_run now) run_id runs r m h in
    ap (λ (x : ReviewRun). is_running x.status) e ∙ crashed_run-ended now q

-- A cleanup that commits frees both rows.
finalize_crashed_run-IsFreed :
    (cleanup : Cleanup) (run_id job_id now : ℕ) (db : Db)
    → (cleanup ≡ unwritten)
      ⊎ IsFreed run_id job_id (finalize_crashed_run cleanup run_id job_id now db)
unfolding finalize_crashed_run IsFreed
finalize_crashed_run-IsFreed unwritten run_id job_id now db = inl refl
finalize_crashed_run-IsFreed complete run_id job_id now db = inr (
  crashed-ended run_id now db.runs,
  λ j m h.
      let (q, n, e) = compacted-at (failed_if_inflight now) job_id db.jobs j m h in
      ap is_inflight e ∙ failed_if_inflight-ended now q,
)
finalize_crashed_run-IsFreed committed run_id job_id now db = inr (
  crashed-ended run_id now db.runs,
  λ j m h.
      let (q, n, e) = update_row-at (failed_if_inflight now) job_id db.jobs j m h in
      ap (λ (x : ScheduledJob). is_inflight x.status) e ∙ failed_if_inflight-ended now q,
)

get_run-id : (i : ℕ) (runs : Runs) (r : ReviewRun) → get_run i runs ≡ some r → r.id ≡ i
unfolding get_run
get_run-id i [] r h = cc
get_run-id i (q ∷ qs) r h = elim (Bool-cases (q.id == i)) [
  | inl t ↦ ground arith
  | inr f ↦ get_run-id i qs r (rw f at h)
]

get_job-id : (i : ℕ) (jobs : Jobs) (j : ScheduledJob) → get_job i jobs ≡ some j → j.id ≡ i
unfolding get_job
get_job-id i [] j h = cc
get_job-id i (q ∷ qs) j h = elim (Bool-cases (q.id == i)) [
  | inl t ↦ ground arith
  | inr f ↦ get_job-id i qs j (rw f at h)
]

-- Freed; or the session raised and its cleanup wrote nothing, so that the rows are as it left them.
IsFreedOrLost : Cleanup → ℕ → ℕ → Db × Bool → Db → Type 0
IsFreedOrLost cleanup run_id job_id r db =
    IsFreed run_id job_id db ⊎ ((cleanup ≡ unwritten) × (r.1 ≡ true) × (db ≡ r.0))

or_finalize-IsFreedOrLost :
    (cleanup : Cleanup) (run_id job_id now : ℕ) (r : Db × Bool)
    → (r.1 ≡ false → IsFreed run_id job_id r.0)
    → IsFreedOrLost cleanup run_id job_id r (or_finalize cleanup run_id job_id now r)
unfolding finalize_crashed_run IsFreedOrLost
or_finalize-IsFreedOrLost cleanup run_id job_id now (db, false) h = inl (h refl)
or_finalize-IsFreedOrLost unwritten run_id job_id now (db, true) h = inr (refl, refl, refl)
or_finalize-IsFreedOrLost complete run_id job_id now (db, true) h =
    elim (finalize_crashed_run-IsFreed complete run_id job_id now db) [ inl e ↦ cc | inr f ↦ inl f ]
or_finalize-IsFreedOrLost committed run_id job_id now (db, true) h =
    elim (finalize_crashed_run-IsFreed committed run_id job_id now db) [
      | inl e ↦ cc
      | inr f ↦ inl f
    ]

work_on-IsFreed :
    (s : Services) (t : Times) (run_id job_id : ℕ) (db : Db) (run : ReviewRun) (job : ScheduledJob)
    → get_run run_id db.runs ≡ some run
    → get_job job_id db.jobs ≡ some job
    → (execute_job s t db run job).1 ≡ false
    → IsFreed run_id job_id (execute_job s t db run job).0
work_on-IsFreed s t run_id job_id db run job hr hj h =
    let (st, settled) = execute_job-IsSettled s t db run job h in
    rw (← get_run-id run_id db.runs run hr, ← get_job-id job_id db.jobs job hj)
      (settled-IsFreed st run.id job.id (execute_job s t db run job).0 settled)

in_session-IsFreed :
    (s : Services) (t : Times) (reads : Bool) (run_id job_id : ℕ) (db : Db) (run : ReviewRun)
    (job : ScheduledJob)
    → get_run run_id db.runs ≡ some run
    → get_job job_id db.jobs ≡ some job
    → (in_session s t reads run_id job_id db).1 ≡ false
    → IsFreed run_id job_id (in_session s t reads run_id job_id db).0
unfolding in_session
in_session-IsFreed s t false run_id job_id db run job hr hj h = cc
in_session-IsFreed s t true run_id job_id db run job hr hj h =
    rw (hr, hj) (work_on-IsFreed s t run_id job_id db run job hr hj (rw (hr, hj) at h))

-- A worker whose run and job are there leaves the run ended and the job neither claimed nor running,
-- whether `execute_job` returns or raises; except where the session raises and the cleanup fails
-- before its commit: then the tables are as the session left them.
pub worker-IsFreed :
    (s : Services) (t : Times) (reads : Bool) (cleanup : Cleanup) (crashed run_id job_id : ℕ)
    (db : Db) (run : ReviewRun) (job : ScheduledJob)
    → get_run run_id db.runs ≡ some run
    → get_job job_id db.jobs ≡ some job
    → IsFreed run_id job_id (worker s t reads cleanup crashed run_id job_id db)
      ⊎ ((cleanup ≡ unwritten)
          × ((in_session s t reads run_id job_id db).1 ≡ true)
          × (worker s t reads cleanup crashed run_id job_id db
              ≡ (in_session s t reads run_id job_id db).0))
unfolding worker IsFreedOrLost
worker-IsFreed s t reads cleanup crashed run_id job_id db run job hr hj =
    or_finalize-IsFreedOrLost cleanup run_id job_id crashed (in_session s t reads run_id job_id db)
      (in_session-IsFreed s t reads run_id job_id db run job hr hj)
