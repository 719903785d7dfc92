-- ===== src/Scheduling/Enqueue.antt =====
-- `enqueue`, `enroll_nightly` and `remove_nightly` of app/services/scheduling.py: the operations that
-- put a job at the end of a set.
use gitlab_reviewer.Prelude.{ℕ, true, false, ◌≡◌, refl, [], ◌∷◌, ◌++◌, arith, In, keep_if}
use gitlab_reviewer.Models.{ScheduleType, immediate, nightly, ScheduledJob}
use gitlab_reviewer.Errors.{ok}
use gitlab_reviewer.Table.{Jobs, in_set, queued_rows, next_position, update_row}
use gitlab_reviewer.Table.Order.{UniqueIds}
use gitlab_reviewer.Table.Rows.{queued_rows-update_row_out, without}
use gitlab_reviewer.Table.Join.{
  IsFresh, next_position-above, queued_rows-insert, queued_rows-insert_outside,
  queued_rows-update_row_join, update_row-UniqueIds,
}
use gitlab_reviewer.Scheduling.{Request, new_job, enqueue, enroll_nightly, remove_nightly, moved_to}

abbrev pub other_type : ScheduleType → ScheduleType
other_type immediate = nightly
other_type nightly = immediate

new_job-in_set :
    (id : ℕ) (t : ScheduleType) (p : ℕ) (r : Request) (c d : ℕ)
    → (in_set t (new_job id t p r c d) ≡ true)
      × (in_set (other_type t) (new_job id t p r c d) ≡ false)
unfolding new_job
new_job-in_set id immediate p r c d = (refl, refl)
new_job-in_set id nightly p r c d = (refl, refl)

-- On a table with unique ids, `enqueue` under a fresh id puts the new job last in its set, at the next
-- position of the set, and leaves the other set as it was.
pub enqueue_lem :
    (id : ℕ) (t : ScheduleType) (r : Request) (created updated : ℕ) (jobs : Jobs)
    → UniqueIds jobs
    → IsFresh id jobs
    → (queued_rows t (enqueue id t r created updated jobs)
        ≡ queued_rows t jobs ++ new_job id t (next_position t jobs) r created updated ∷ [])
      × (queued_rows (other_type t) (enqueue id t r created updated jobs)
          ≡ queued_rows (other_type t) jobs)
unfolding enqueue new_job
enqueue_lem id t r created updated jobs u fresh =
    let new = new_job id t (next_position t jobs) r created updated in
    let s = new_job-in_set id t (next_position t jobs) r created updated in
    (
      queued_rows-insert jobs new u fresh t s.0 (next_position-above t jobs),
      queued_rows-insert_outside jobs new u fresh (other_type t) s.1,
    )

-- On a table with unique ids, `enroll_nightly` of a queued immediate job of the table succeeds: the job
-- becomes the last nightly job and leaves the immediate queue, whose order is kept;
-- ids stay unique.
pub enroll_nightly_lem :
    (job : ScheduledJob) (now : ℕ) (jobs : Jobs)
    → UniqueIds jobs
    → In job jobs
    → in_set immediate job ≡ true
    → (jobs' : Jobs) × (enroll_nightly job now jobs ≡ ok jobs')
      × (queued_rows nightly jobs'
          ≡ queued_rows nightly jobs ++ moved_to nightly (next_position nightly jobs) now job ∷ [])
      × (queued_rows immediate jobs' ≡ keep_if (without job.id) (queued_rows immediate jobs))
      × UniqueIds jobs'
unfolding enroll_nightly
enroll_nightly_lem job now jobs u m h =
    let p = next_position nightly jobs in
    (
      update_row job.id (moved_to nightly p now) jobs,
      ground arith,
      queued_rows-update_row_join jobs u (moved_to nightly p now) (λ j. refl) nightly job m
          (ground arith) (ground arith) (next_position-above nightly jobs),
      queued_rows-update_row_out immediate job.id (moved_to nightly p now) jobs u (λ j. refl),
      update_row-UniqueIds jobs u (moved_to nightly p now) (λ j. refl) job.id,
    )

-- On a table with unique ids, `remove_nightly` of a queued nightly job of the table succeeds: the job
-- becomes the last immediate job and leaves the nightly set, whose order is kept;
-- ids stay unique.
pub remove_nightly_lem :
    (job : ScheduledJob) (now : ℕ) (jobs : Jobs)
    → UniqueIds jobs
    → In job jobs
    → in_set nightly job ≡ true
    → (jobs' : Jobs) × (remove_nightly job now jobs ≡ ok jobs')
      × (queued_rows immediate jobs'
          ≡ queued_rows immediate jobs
            ++ moved_to immediate (next_position immediate jobs) now job ∷ [])
      × (queued_rows nightly jobs' ≡ keep_if (without job.id) (queued_rows nightly jobs))
      × UniqueIds jobs'
unfolding remove_nightly
remove_nightly_lem job now jobs u m h =
    let p = next_position immediate jobs in
    (
      update_row job.id (moved_to immediate p now) jobs,
      ground arith,
      queued_rows-update_row_join jobs u (moved_to immediate p now) (λ j. refl) immediate job m
          (ground arith) (ground arith) (next_position-above immediate jobs),
      queued_rows-update_row_out nightly job.id (moved_to immediate p now) jobs u (λ j. refl),
      update_row-UniqueIds jobs u (moved_to immediate p now) (λ j. refl) job.id,
    )
