-- ===== src/Recovery/Clean.antt =====
-- After `recover_orphans` of app/scheduler/recovery.py nothing is in flight, and a second recovery
-- finds nothing to do.
use mathlib.Core.Bool.{false≢true}
use gitlab_reviewer.Prelude.{
  ℕ, Bool, true, false, ◌≡◌, refl, sym, ap, subst, ◌∙◌, ◌≢◌, inl, inr, [], ◌∷◌, ◌==◌, ==_iff,
  if◌then◌else◌, Bool-cases, In, In-keep_if, keep_if-none, map-In,
}
use gitlab_reviewer.Models.{JobStatus, ScheduledJob, ReviewRun, is_inflight, is_running, Db}
use gitlab_reviewer.Table.{Jobs, update_row, with_status}
use gitlab_reviewer.Scheduling.{compact_positions}
use gitlab_reviewer.Scheduling.Columns.{compact_positions-columns, columns-In}
use gitlab_reviewer.Outcome.{Runs, update_run}
use gitlab_reviewer.Review.{with_error}
use gitlab_reviewer.Recovery.{
  interrupted, recover_runs, recover_jobs, fail_stuck, inflight_jobs, running_runs, recover_orphans,
}

-- A run that an UPDATE to `error` leaves running is another run.
update_run_running :
    (i now : ℕ) (runs : Runs) (a : ReviewRun)
    → In a (update_run i (with_error interrupted now) runs)
    → is_running a.status ≡ true
    → In a runs × (a.id ≢ i)
unfolding update_run
update_run_running i now runs a m h =
    let (r, n, e) =
      map-In (λ (x : ReviewRun). if x.id == i then with_error interrupted now x else x) runs a m in
    elim (Bool-cases (r.id == i)) [
      | inl t ↦
          let p : a ≡ with_error interrupted now r = rw t at e in
          absurd (false≢true (subst (λ (x : ReviewRun). is_running x.status ≡ true) p h))
      | inr f ↦
          let p : a ≡ r = rw f at e in
          (
            subst (λ x. In x runs) (sym p) n,
            λ q. false≢true (sym f ∙ (==_iff r.id i).1 (ap (λ (x : ReviewRun). x.id) (sym p) ∙ q)),
          )
    ]

recover_runs_running :
    (now : ℕ) (rs runs : Runs) (a : ReviewRun)
    → In a (recover_runs now rs runs)
    → is_running a.status ≡ true
    → In a runs × ((r : ReviewRun) → In r rs → a.id ≢ r.id)
unfolding recover_runs
recover_runs_running now [] runs a m h = (m, λ r n. absurd n)
recover_runs_running now (r ∷ rs) runs a m h =
    let (m1, other) =
      recover_runs_running now rs (update_run r.id (with_error interrupted now) runs) a m h in
    let (m2, ne) = update_run_running r.id now runs a m1 h in
    (m2, λ s n. elim n [ inl e ↦ λ q. ne (q ∙ ap (λ (x : ReviewRun). x.id) e) | inr k ↦ other s k ])

recovered_runs :
    (now : ℕ) (runs : Runs) → running_runs (recover_runs now (running_runs runs) runs) ≡ []
recovered_runs now runs =
    keep_if-none (λ (r : ReviewRun). is_running r.status)
      (recover_runs now (running_runs runs) runs) (λ a m. not_running a m)
  where
    not_running :
        (a : ReviewRun)
        → In a (recover_runs now (running_runs runs) runs)
        → is_running a.status ≡ false
    not_running a m = elim (Bool-cases (is_running a.status)) [
      | inl h ↦
          let (n, other) = recover_runs_running now (running_runs runs) runs a m h in
          absurd (other a (In-keep_if (λ (r : ReviewRun). is_running r.status) runs a n h) refl)
      | inr h ↦ h
    ]

update_row_inflight :
    (i now : ℕ) (jobs : Jobs) (a : ScheduledJob)
    → In a (update_row i (with_status JobStatus.failed now) jobs)
    → is_inflight a.status ≡ true
    → In a jobs × (a.id ≢ i)
unfolding update_row
update_row_inflight i now jobs a m h =
    let (r, n, e) =
      map-In (λ (x : ScheduledJob). if x.id == i then with_status JobStatus.failed now x else x)
        jobs a m in
    elim (Bool-cases (r.id == i)) [
      | inl t ↦
          let p : a ≡ with_status JobStatus.failed now r = rw t at e in
          absurd (false≢true (subst (λ (x : ScheduledJob). is_inflight x.status ≡ true) p h))
      | inr f ↦
          let p : a ≡ r = rw f at e in
          (
            subst (λ x. In x jobs) (sym p) n,
            λ q.
                false≢true
                  (sym f ∙ (==_iff r.id i).1 (ap (λ (x : ScheduledJob). x.id) (sym p) ∙ q)),
          )
    ]

fail_stuck_inflight :
    (now : ℕ) (js jobs : Jobs) (a : ScheduledJob)
    → In a (fail_stuck now js jobs)
    → is_inflight a.status ≡ true
    → In a jobs × ((j : ScheduledJob) → In j js → a.id ≢ j.id)
unfolding fail_stuck
fail_stuck_inflight now [] jobs a m h = (m, λ j n. absurd n)
fail_stuck_inflight now (j ∷ js) jobs a m h =
    let (m1, other) =
      fail_stuck_inflight now js (update_row j.id (with_status JobStatus.failed now) jobs) a m h in
    let (m2, ne) = update_row_inflight j.id now jobs a m1 h in
    (
      m2,
      λ s n. elim n [ inl e ↦ λ q. ne (q ∙ ap (λ (x : ScheduledJob). x.id) e) | inr k ↦ other s k ],
    )

none_stuck :
    (now : ℕ) (jobs : Jobs) (a : ScheduledJob)
    → In a (fail_stuck now (inflight_jobs jobs) jobs)
    → is_inflight a.status ≡ false
none_stuck now jobs a m = elim (Bool-cases (is_inflight a.status)) [
  | inl h ↦
      let (n, other) = fail_stuck_inflight now (inflight_jobs jobs) jobs a m h in
      absurd (other a (In-keep_if (λ (j : ScheduledJob). is_inflight j.status) jobs a n h) refl)
  | inr h ↦ h
]

if_compact_inflight :
    (b : Bool) (jobs : Jobs)
    → ((a : ScheduledJob) → In a jobs → is_inflight a.status ≡ false)
    → inflight_jobs (if b then jobs else compact_positions jobs) ≡ []
if_compact_inflight true jobs h = keep_if-none (λ (j : ScheduledJob). is_inflight j.status) jobs h
if_compact_inflight false jobs h =
    keep_if-none (λ (j : ScheduledJob). is_inflight j.status) (compact_positions jobs)
      (λ a m.
        let (b, n, e) =
          columns-In (compact_positions jobs) jobs (compact_positions-columns jobs) a m in
        ap (λ (x : ScheduledJob). is_inflight x.status) e ∙ h b n)

-- After `recover_orphans` no run is running and no job is claimed or running.
pub recover_orphans_lem :
    (now : ℕ) (db : Db)
    → (running_runs (recover_orphans now db).0.runs ≡ [])
      × (inflight_jobs (recover_orphans now db).0.jobs ≡ [])
unfolding recover_orphans
recover_orphans_lem now db =
    let jobs1 = recover_jobs now (running_runs db.runs) db.jobs in
    (
      recovered_runs now db.runs,
      if_compact_inflight _ (fail_stuck now (inflight_jobs jobs1) jobs1) (none_stuck now jobs1),
    )

-- On tables with nothing in flight `recover_orphans` changes nothing and reports 0 rows.
recover_orphans_idle :
    (now : ℕ) (db : Db)
    → running_runs db.runs ≡ []
    → inflight_jobs db.jobs ≡ []
    → recover_orphans now db ≡ (db, 0)
unfolding recover_orphans recover_runs recover_jobs fail_stuck
recover_orphans_idle now db r j = rw (r, j)

-- A second recovery changes nothing and reports 0 rows.
pub recover_orphans-recover_orphans :
    (now later : ℕ) (db : Db)
    → recover_orphans later (recover_orphans now db).0 ≡ ((recover_orphans now db).0, 0)
recover_orphans-recover_orphans now later db =
    let l = recover_orphans_lem now db in
    recover_orphans_idle later (recover_orphans now db).0 l.0 l.1
