-- ===== src/Examples/Queue.antt =====
-- The queue of app/services/scheduling.py on two immediate jobs and a nightly one.
use gitlab_reviewer.Prelude.{
  ℕ, ◌≡◌, refl, ◌≢◌, ◌↔◌, ◌⊎◌, ◌==◌, Bool, some, not, true, List, false, [], ◌∷◌, ◌++◌, map,
  keep_if, count_up, length, In,
}
use gitlab_reviewer.Models.{immediate, nightly, ScheduledJob, JobStatus}
use gitlab_reviewer.Errors.{ok}
use gitlab_reviewer.Table.{
  Jobs, in_set, at_position, with_status, queued_rows, queued_positions, next_position, order_rows,
  insert_row, update_row,
}
use gitlab_reviewer.Table.Placed.{numbered}
use gitlab_reviewer.Table.Order.{Before}
use gitlab_reviewer.Scheduling.{
  new_job, enqueue, from_keys, elem, subset, job_keys, assign, rewrite_positions, reorder,
  other_than, compact_positions, cancel, moved_to, promote_nightly, sqlite, claim_postgres,
  claim_next,
}
use gitlab_reviewer.Scheduling.Ids.{Within}
use gitlab_reviewer.Scheduling.Rewrite.{IsRewritten}
use gitlab_reviewer.Scheduling.Reorder.{reorder_lem, reorder-ok_iff}
use gitlab_reviewer.Scheduling.Compact.{compact_positions_lem}
use gitlab_reviewer.Scheduling.Enqueue.{enqueue_lem}
use gitlab_reviewer.Scheduling.Cancel.{cancel_lem}
use gitlab_reviewer.Scheduling.Promote.{promote_nightly_lem}
use gitlab_reviewer.Scheduling.Claim.{ClaimsFirst, claim_postgres_lem, claim_next_lem}
use gitlab_reviewer.Scheduling.Consistent.{IsConsistent}
use gitlab_reviewer.Scheduling.Steps.{here, next, enqueued, promoted}
use gitlab_reviewer.Scheduling.Reachable.{reachable-IsConsistent}
use gitlab_reviewer.Examples.{
  job_row, first_job, second_job, night_job, three_jobs, three_jobs-UniqueIds, plain_request,
}

abbrev swapped_jobs : Jobs
swapped_jobs =
    job_row 1 immediate 2 JobStatus.queued ∷ job_row 2 immediate 1 JobStatus.queued ∷ night_job ∷ []

swap-ok : reorder (2 ∷ 1 ∷ 2 ∷ []) three_jobs ≡ ok swapped_jobs
unfolding reorder rewrite_positions from_keys elem subset job_keys assign update_row
    queued_positions queued_rows order_rows insert_row
swap-ok = refl

reorder_lem_example : IsRewritten (from_keys (2 ∷ 1 ∷ 2 ∷ [])) three_jobs swapped_jobs
reorder_lem_example = reorder_lem (2 ∷ 1 ∷ 2 ∷ []) three_jobs three_jobs-UniqueIds swap-ok

abbrev swap : List ℕ
swap = 2 ∷ 1 ∷ []

reorder-ok_iff_example : ((jobs' : Jobs) × (reorder swap three_jobs ≡ ok jobs')) ↔ (
    (swap ≢ [])
    × Within swap (queued_positions immediate three_jobs)
    × Within (queued_positions immediate three_jobs) swap)
reorder-ok_iff_example = reorder-ok_iff swap three_jobs

compact_positions_lem_example :
    (queued_positions immediate (compact_positions swapped_jobs)
      ≡ queued_positions immediate swapped_jobs)
    × (map (λ j. j.position) (queued_rows immediate (compact_positions swapped_jobs))
        ≡ count_up 1 (length (queued_rows immediate swapped_jobs)))
    × (keep_if (λ j. not (in_set immediate j)) (compact_positions swapped_jobs)
        ≡ keep_if (λ j. not (in_set immediate j)) swapped_jobs)
    × (map (at_position 0) (compact_positions swapped_jobs) ≡ map (at_position 0) swapped_jobs)
compact_positions_lem_example =
    compact_positions_lem swapped_jobs (((λ e. cc), ((λ e. cc), tt)), (((λ e. cc), tt), (tt, tt)))

enqueue_lem_example :
    (queued_rows nightly (enqueue 4 nightly plain_request 8 9 three_jobs)
      ≡ queued_rows nightly three_jobs
        ++ new_job 4 nightly (next_position nightly three_jobs) plain_request 8 9 ∷ [])
    × (queued_rows immediate (enqueue 4 nightly plain_request 8 9 three_jobs)
        ≡ queued_rows immediate three_jobs)
enqueue_lem_example =
    enqueue_lem 4 nightly plain_request 8 9 three_jobs three_jobs-UniqueIds
      ((λ e. cc), ((λ e. cc), ((λ e. cc), tt)))

cancel_lem_example :
    (jobs' : Jobs) × (cancel first_job 7 three_jobs ≡ ok jobs')
    × (queued_positions immediate jobs' ≡ other_than 1 (queued_positions immediate three_jobs))
    × (queued_positions nightly jobs' ≡ other_than 1 (queued_positions nightly three_jobs))
    × (map (λ j. j.position) (queued_rows immediate jobs')
        ≡ count_up 1 (length (other_than 1 (queued_positions immediate three_jobs))))
cancel_lem_example = cancel_lem first_job 7 three_jobs three_jobs-UniqueIds refl

promote_nightly_lem_example :
    (queued_rows immediate (promote_nightly 7 three_jobs)
      ≡ queued_rows immediate three_jobs
        ++ numbered
            (λ p. moved_to immediate p 7)
            (next_position immediate three_jobs)
            (queued_rows nightly three_jobs))
    × (queued_positions immediate (promote_nightly 7 three_jobs)
        ≡ queued_positions immediate three_jobs ++ queued_positions nightly three_jobs)
    × (queued_rows nightly (promote_nightly 7 three_jobs) ≡ [])
promote_nightly_lem_example = promote_nightly_lem 7 three_jobs three_jobs-UniqueIds

-- Another transaction holds the first row.
abbrev first_locked : ScheduledJob → Bool
first_locked j = j.id == 1

second_claimed :
    (claim_postgres first_locked 7 three_jobs).0 ≡ some (with_status JobStatus.claimed 7 second_job)
unfolding claim_postgres order_rows insert_row
second_claimed = refl

claim_postgres_lem_example :
    (r : ScheduledJob) × (with_status JobStatus.claimed 7 second_job
      ≡ with_status JobStatus.claimed 7 r)
    × In r three_jobs
    × (in_set immediate r ≡ true)
    × (first_locked r ≡ false)
    × ((a : ScheduledJob)
        → In a three_jobs
        → in_set immediate a ≡ true
        → first_locked a ≡ false
        → (a ≡ r) ⊎ Before r a)
    × ((claim_postgres first_locked 7 three_jobs).1
        ≡ update_row r.id (with_status JobStatus.claimed 7) three_jobs)
claim_postgres_lem_example =
    claim_postgres_lem first_locked 7 three_jobs (with_status JobStatus.claimed 7 second_job)
      three_jobs-UniqueIds second_claimed

claim_next_lem_example :
    ClaimsFirst 7 three_jobs
      (claim_next sqlite (λ _. false) 7 three_jobs)
      (queued_rows immediate three_jobs)
claim_next_lem_example = claim_next_lem sqlite 7 three_jobs three_jobs-UniqueIds

reachable-IsConsistent_example :
    IsConsistent (promote_nightly 9 (enqueue 1 nightly plain_request 8 8 []))
reachable-IsConsistent_example =
    reachable-IsConsistent
      (next (next here (enqueued 1 nightly plain_request 8 8 tt refl)) (promoted 9 refl))
