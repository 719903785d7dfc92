-- ===== src/Scheduling/Cancel.antt =====
-- `cancel` of app/services/scheduling.py.
use gitlab_reviewer.Prelude.{
  ℕ, true, not, ◌≡◌, refl, sym, ap, ◌∙◌, [], ◌∷◌, map, inl, inr, arith, ◌==◌, keep_if, count_up,
  length, Bool-cases,
}
use gitlab_reviewer.Models.{immediate, nightly, JobStatus, ScheduledJob, is_queued}
use gitlab_reviewer.Errors.{ok}
use gitlab_reviewer.Table.{Jobs, queued_rows, queued_positions, update_row, with_status}
use gitlab_reviewer.Table.Order.{UniqueIds}
use gitlab_reviewer.Table.Placed.{ids, length-ids}
use gitlab_reviewer.Table.Rows.{queued_rows-update_row_out, without}
use gitlab_reviewer.Table.Join.{update_row-UniqueIds}
use gitlab_reviewer.Scheduling.{other_than, cancel, compact_positions}
use gitlab_reviewer.Scheduling.Compact.{compact_positions_lem, queued_rows-compact_nightly}

pub ids-without : (i : ℕ) (L : Jobs) → ids (keep_if (without i) L) ≡ other_than i (ids L)
ids-without i [] = refl
ids-without i (l ∷ L) = elim (Bool-cases (not (l.id == i))) [
  | inl t ↦ rw t (ap (◌∷◌ l.id) (ids-without i L))
  | inr f ↦ rw f (ids-without i L)
]

-- On a table with unique ids, `cancel` of a queued job succeeds: the job is in neither set, both sets
-- keep the order of their other jobs, and the immediate queue has the positions 1 to n.
pub cancel_lem :
    (job : ScheduledJob) (now : ℕ) (jobs : Jobs)
    → UniqueIds jobs
    → is_queued job.status ≡ true
    → (jobs' : Jobs) × (cancel job now jobs ≡ ok jobs')
      × (queued_positions immediate jobs' ≡ other_than job.id (queued_positions immediate jobs))
      × (queued_positions nightly jobs' ≡ other_than job.id (queued_positions nightly jobs))
      × (map (λ j. j.position) (queued_rows immediate jobs')
          ≡ count_up 1 (length (other_than job.id (queued_positions immediate jobs))))
unfolding cancel queued_positions
cancel_lem job now jobs u h =
    let f = with_status JobStatus.cancelled now in
    let jobs1 = update_row job.id f jobs in
    let u1 = update_row-UniqueIds jobs u f (λ j. refl) job.id in
    let c = compact_positions_lem jobs1 u1 in
    let out = queued_rows-update_row_out immediate job.id f jobs u (λ j. ground arith) in
    let left = ap ids out ∙ ids-without job.id (queued_rows immediate jobs) in
    (
      compact_positions jobs1,
      rw h,
      c.0 ∙ left,
      ap ids (
            queued_rows-compact_nightly jobs1 u1
            ∙ queued_rows-update_row_out nightly job.id f jobs u (λ j. ground arith))
          ∙ ids-without job.id (queued_rows nightly jobs),
      c.1 ∙ ap (count_up 1) (sym (length-ids (queued_rows immediate jobs1)) ∙ ap length left),
    )
