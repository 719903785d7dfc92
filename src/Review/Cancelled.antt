-- ===== src/Review/Cancelled.antt =====
-- `cancel_inflight` of app/services/review_service.py.
use mathlib.Core.Bool.{false≢true}
use mathlib.Core.Option.{some-injective, none-ne-some}
use gitlab_reviewer.Prelude.{
  ℕ, Bool, true, false, ◌&&◌, Option, none, some, ◌≡◌, refl, sym, ap, subst, ◌∙◌, inl, inr, [], ◌∷◌,
  arith, ltb, ◌==◌, ==_iff, if◌then◌else◌, Bool-cases, In, map-In, codes,
}
use gitlab_reviewer.Models.{JobStatus, ScheduledJob, ReviewRun, is_inflight, is_running, Db}
use gitlab_reviewer.Errors.{ok}
use gitlab_reviewer.Table.{update_row, with_status}
use gitlab_reviewer.Scheduling.{compact_positions}
use gitlab_reviewer.Outcome.{Runs, update_run}
use gitlab_reviewer.Review.{newer, running_run, with_error, stop_cancelled, cancel_inflight}
use gitlab_reviewer.Review.Ends.{compacted-at}

-- A running run of the job.
abbrev pub runs_for : ℕ → ReviewRun → Bool
runs_for job_id r = r.scheduled_job_id == job_id && is_running r.status

newer-In :
    (r : ReviewRun) (rest : Option ReviewRun) (runs : Runs)
    → ((q : ReviewRun) → rest ≡ some q → In q runs)
    → In (newer r rest) (r ∷ runs)
newer-In r none runs h = inl refl
newer-In r (some q) runs h = elim (Bool-cases (ltb q.id r.id)) [
  | inl t ↦ rw t (inl refl)
  | inr f ↦ inr (subst (λ b. In (if b then r else q) runs) (sym f) (h q refl))
]

running_run-In :
    (job_id : ℕ) (runs : Runs) (q : ReviewRun) → running_run job_id runs ≡ some q → In q runs
unfolding running_run
running_run-In job_id [] q h = cc
running_run-In job_id (r ∷ rs) q h = elim (Bool-cases (runs_for job_id r)) [
  | inl t ↦
      let e : some (newer r (running_run job_id rs)) ≡ some q = rw t at h in
      subst (λ x. In x (r ∷ rs)) (some-injective _ _ e)
        (newer-In r (running_run job_id rs) rs (λ p k. running_run-In job_id rs p k))
  | inr f ↦ inr (running_run-In job_id rs q (rw f at h))
]

running_run-runs_for :
    (job_id : ℕ) (runs : Runs) (q : ReviewRun)
    → running_run job_id runs ≡ some q
    → runs_for job_id q ≡ true
unfolding running_run
running_run-runs_for job_id [] q h = cc
running_run-runs_for job_id (r ∷ rs) q h = elim (Bool-cases (runs_for job_id r)) [
  | inl t ↦
      let e : some (newer r (running_run job_id rs)) ≡ some q = rw t at h in
      subst (λ x. runs_for job_id x ≡ true) (some-injective _ _ e)
        (newer-runs_for r (running_run job_id rs) t (λ p k. running_run-runs_for job_id rs p k))
  | inr f ↦ running_run-runs_for job_id rs q (rw f at h)
]
  where
    newer-runs_for :
        (r : ReviewRun) (rest : Option ReviewRun)
        → runs_for job_id r ≡ true
        → ((p : ReviewRun) → rest ≡ some p → runs_for job_id p ≡ true)
        → runs_for job_id (newer r rest) ≡ true
    newer-runs_for r none t k = t
    newer-runs_for r (some p) t k = elim (Bool-cases (ltb p.id r.id)) [
      | inl u ↦ rw u t
      | inr u ↦ rw u (k p refl)
    ]

-- No running run of the job is missed.
running_run-none :
    (job_id : ℕ) (runs : Runs) (a : ReviewRun)
    → In a runs
    → running_run job_id runs ≡ none
    → runs_for job_id a ≡ false
unfolding running_run
running_run-none job_id [] a m h = absurd m
running_run-none job_id (r ∷ rs) a m h = elim (Bool-cases (runs_for job_id r)) [
  | inl t ↦
      let e : some (newer r (running_run job_id rs)) ≡ none = rw t at h in
      absurd (none-ne-some _ (sym e))
  | inr f ↦ elim m [
    | inl e ↦ ap (runs_for job_id) e ∙ f
    | inr n ↦ running_run-none job_id rs a n (rw f at h)
  ]
]

-- A run of the job that is still running after the stop.
stop_cancelled-runs_for :
    (job_id now : ℕ) (runs : Runs) (found : Option ReviewRun) (a : ReviewRun)
    → running_run job_id runs ≡ found
    → ((r q : ReviewRun)
        → In r runs
        → In q runs
        → runs_for job_id r ≡ true
        → runs_for job_id q ≡ true
        → r.id ≡ q.id)
    → In a (stop_cancelled found now runs)
    → runs_for job_id a ≡ false
unfolding update_run
stop_cancelled-runs_for job_id now runs none a e one m = running_run-none job_id runs a m e
stop_cancelled-runs_for job_id now runs (some q) a e one m =
    let stop = with_error (codes "cancelled by user") now in
    let (r, n, p) = map-In (λ (x : ReviewRun). if x.id == q.id then stop x else x) runs a m in
    elim (Bool-cases (r.id == q.id)) [
      | inl t ↦ let k : a ≡ stop r = rw t at p in ap (runs_for job_id) k ∙ (ground arith)
      | inr f ↦
          let k : a ≡ r = rw f at p in
          ap (runs_for job_id) k ∙ elim (Bool-cases (runs_for job_id r)) [
            | inl u ↦ absurd (
                false≢true (
                  sym f
                  ∙ (==_iff r.id q.id).1 (
                      one r q n (running_run-In job_id runs q e) u
                        (running_run-runs_for job_id runs q e))))
            | inr u ↦ u
          ]
    ]

-- Where the job is claimed or running and has at most one running run, `cancel_inflight` succeeds: the
-- job is cancelled and no run of it is running.
pub cancel_inflight_lem :
    (job : ScheduledJob) (finished updated : ℕ) (db : Db)
    → ((r q : ReviewRun)
        → In r db.runs
        → In q db.runs
        → runs_for job.id r ≡ true
        → runs_for job.id q ≡ true
        → r.id ≡ q.id)
    → is_inflight job.status ≡ true
    → (db' : Db) × (cancel_inflight job finished updated db ≡ ok db')
      × ((j : ScheduledJob) → In j db'.jobs → j.id ≡ job.id → j.status ≡ JobStatus.cancelled)
      × ((r : ReviewRun) → In r db'.runs → runs_for job.id r ≡ false)
unfolding cancel_inflight
cancel_inflight_lem job finished updated db one h = (
  record db {
    runs = stop_cancelled (running_run job.id db.runs) finished db.runs;
    jobs = compact_positions (update_row job.id (with_status JobStatus.cancelled updated) db.jobs);
  },
  rw h,
  λ j m e. (compacted-at (with_status JobStatus.cancelled updated) job.id db.jobs j m e).2,
  λ r m. stop_cancelled-runs_for job.id finished db.runs (running_run job.id db.runs) r refl one m,
)
