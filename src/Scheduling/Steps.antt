-- ===== src/Scheduling/Steps.antt =====
-- Every sequence of the operations of app/services/scheduling.py, and of the status changes that
-- the worker and the recovery make to claimed jobs.
use gitlab_reviewer.Prelude.{ℕ, Bool, false, ◌≡◌, List, In}
use gitlab_reviewer.Models.{ScheduleType, JobStatus, ScheduledJob, is_queued}
use gitlab_reviewer.Errors.{ok}
use gitlab_reviewer.Table.{Jobs, update_row, with_status}
use gitlab_reviewer.Table.Join.{IsFresh}
use gitlab_reviewer.Scheduling.{
  Request, enqueue, reorder, move_to_top, move_to_bottom, cancel, enroll_nightly, remove_nightly,
  promote_nightly, compact_positions, Dialect, claim_next,
}

-- One operation on the table. A job that is passed in is a row of the table; an id that the database
-- hands out is no row's.
pub data Step (jobs : Jobs) (jobs' : Jobs) : Type 0 where
  enqueued :
      (id : ℕ) (t : ScheduleType) (r : Request) (created updated : ℕ)
      → IsFresh id jobs
      → jobs' ≡ enqueue id t r created updated jobs
      → Step jobs jobs'
  reordered : (is : List ℕ) → reorder is jobs ≡ ok jobs' → Step jobs jobs'
  to_top : (job : ScheduledJob) → move_to_top job jobs ≡ ok jobs' → Step jobs jobs'
  to_bottom : (job : ScheduledJob) → move_to_bottom job jobs ≡ ok jobs' → Step jobs jobs'
  cancelled : (job : ScheduledJob) (now : ℕ) → cancel job now jobs ≡ ok jobs' → Step jobs jobs'
  enrolled :
      (job : ScheduledJob) (now : ℕ)
      → In job jobs
      → enroll_nightly job now jobs ≡ ok jobs'
      → Step jobs jobs'
  removed :
      (job : ScheduledJob) (now : ℕ)
      → In job jobs
      → remove_nightly job now jobs ≡ ok jobs'
      → Step jobs jobs'
  promoted : (now : ℕ) → jobs' ≡ promote_nightly now jobs → Step jobs jobs'
  compacted : jobs' ≡ compact_positions jobs → Step jobs jobs'
  claimed :
      (d : Dialect) (locked : ScheduledJob → Bool) (now : ℕ)
      → jobs' ≡ (claim_next d locked now jobs).1
      → Step jobs jobs'
  settled :
      (i : ℕ) (s : JobStatus) (now : ℕ)
      → is_queued s ≡ false
      → jobs' ≡ update_row i (with_status s now) jobs
      → Step jobs jobs'

pub data Reach (jobs : Jobs) : Jobs → Type 0 where
  here : Reach jobs jobs
  next : {jobs' jobs'' : Jobs} → Reach jobs jobs' → Step jobs' jobs'' → Reach jobs jobs''
