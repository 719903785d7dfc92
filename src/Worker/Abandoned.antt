-- ===== src/Worker/Abandoned.antt =====
-- `_claim_and_create_run` of app/scheduler/worker.py where the INSERT of the run row fails.
use mathlib.Core.Bool.{false≢true}
use mathlib.Core.Option.{some-injective, none-ne-some}
use gitlab_reviewer.Prelude.{
  ℕ, Bool, true, false, Option, none, some, ◌≡◌, refl, sym, ap, subst, ◌∙◌, ◌⊎◌, inl, inr, [], ◌∷◌,
  ◌==◌, ==_iff, if◌then◌else◌, Bool-cases, In, map-In,
}
use gitlab_reviewer.Models.{JobStatus, ScheduledJob, is_claimed, is_inflight, Db}
use gitlab_reviewer.Table.{Jobs, update_row, with_status, get_job}
use gitlab_reviewer.Table.Order.{UniqueIds}
use gitlab_reviewer.Scheduling.{Dialect, flip_claimed, claim_next, compact_positions}
use gitlab_reviewer.Scheduling.Claim.{claim_next-flip}
use gitlab_reviewer.Scheduling.Columns.{compact_positions-columns, columns-In}
use gitlab_reviewer.Review.Ends.{update_row-at}
use gitlab_reviewer.Worker.{
  Cleanup, complete, committed, unwritten, abandon_found, abandon_claim, create_run,
  claim_and_create_run,
}

-- A row of the same id and status was there.
pub WasThere : Jobs → ScheduledJob → Type 0
WasThere jobs j = (r : ScheduledJob) × In r jobs × (r.id ≡ j.id) × (r.status ≡ j.status)

get_job-In :
    (i : ℕ) (jobs : Jobs) (k : ScheduledJob) → get_job i jobs ≡ some k → In k jobs × (k.id ≡ i)
unfolding get_job
get_job-In i [] k h = cc
get_job-In i (j ∷ jobs) k h = elim (Bool-cases (j.id == i)) [
  | inl t ↦
      let p = some-injective j k (rw t at h) in
      (inl (sym p), ap (λ (x : ScheduledJob). x.id) (sym p) ∙ (==_iff j.id i).0 t)
  | inr f ↦ let (m, e) = get_job-In i jobs k (rw f at h) in (inr m, e)
]

get_job-none :
    (i : ℕ) (jobs : Jobs) (j : ScheduledJob)
    → get_job i jobs ≡ none
    → In j jobs
    → (j.id == i) ≡ false
unfolding get_job
get_job-none i [] j h m = absurd m
get_job-none i (x ∷ jobs) j h m = elim (Bool-cases (x.id == i)) [
  | inl t ↦ let e : some x ≡ none = rw t at h in absurd (none-ne-some _ (sym e))
  | inr f ↦ elim m [
    | inl e ↦ ap (λ (y : ScheduledJob). y.id == i) e ∙ f
    | inr n ↦ get_job-none i jobs j (rw f at h) n
  ]
]

-- A row of another id is not the one that an UPDATE writes.
update_row-other :
    (s : JobStatus) (i now : ℕ) (jobs : Jobs) (j : ScheduledJob)
    → In j (update_row i (with_status s now) jobs)
    → (j.id == i) ≡ false
    → In j jobs
unfolding update_row
update_row-other s i now jobs j m f =
    let (r, n, e) =
      map-In (λ (x : ScheduledJob). if x.id == i then with_status s now x else x) jobs j m in
    elim (Bool-cases (r.id == i)) [
      | inl t ↦
          let p : j ≡ with_status s now r = rw t at e in
          absurd (false≢true (sym f ∙ ap (λ (x : ScheduledJob). x.id == i) p ∙ t))
      | inr g ↦ let p : j ≡ r = rw g at e in subst (λ x. In x jobs) (sym p) n
    ]

module _ (i now claimed : ℕ) (jobs : Jobs) where
  abbrev taken : Jobs
  taken = update_row i (with_status JobStatus.claimed claimed) jobs

  failed-WasThere :
      (j : ScheduledJob)
      → In j (update_row i (with_status JobStatus.failed now) taken)
      → is_inflight j.status ≡ true
      → WasThere jobs j
  unfolding WasThere
  failed-WasThere j m h = elim (Bool-cases (j.id == i)) [
    | inl t ↦
        let (k, l, p) =
          update_row-at (with_status JobStatus.failed now) i taken j m ((==_iff j.id i).0 t) in
        absurd (false≢true (ap (λ (x : ScheduledJob). is_inflight x.status) (sym p) ∙ h))
    | inr f ↦ (
      j,
      update_row-other JobStatus.claimed i claimed jobs j
          (update_row-other JobStatus.failed i now taken j m f) f,
      refl,
      refl,
    )
  ]

  compacted-WasThere :
      (j : ScheduledJob)
      → In j (compact_positions (update_row i (with_status JobStatus.failed now) taken))
      → is_inflight j.status ≡ true
      → WasThere jobs j
  unfolding WasThere
  compacted-WasThere j m h =
      let jobs2 = update_row i (with_status JobStatus.failed now) taken in
      let (b, n, e) =
        columns-In (compact_positions jobs2) jobs2 (compact_positions-columns jobs2) j m in
      let same_status : b.status ≡ j.status = sym (ap (λ (x : ScheduledJob). x.status) e) in
      let (r, l, p, q) = failed-WasThere b n (ap is_inflight same_status ∙ h) in
      (r, l, p ∙ sym (ap (λ (x : ScheduledJob). x.id) e), q ∙ same_status)

  none-WasThere : (j : ScheduledJob) → get_job i taken ≡ none → In j taken → WasThere jobs j
  unfolding WasThere
  none-WasThere j e m = (
    j,
    update_row-other JobStatus.claimed i claimed jobs j m (get_job-none i taken j e m),
    refl,
    refl,
  )

  found-is_claimed :
      (k : ScheduledJob) → get_job i taken ≡ some k → (is_claimed k.status ≡ true) × (k.id ≡ i)
  found-is_claimed k e =
      let (l, q) = get_job-In i taken k e in
      let (r, n, p) = update_row-at (with_status JobStatus.claimed claimed) i jobs k l q in
      (ap (λ (x : ScheduledJob). is_claimed x.status) p, q)

  -- The job was there as it is; or it is the claimed one and the cleanup wrote nothing.
  IsLeft : Cleanup → ScheduledJob → Type 0
  IsLeft cleanup j = WasThere jobs j ⊎ ((cleanup ≡ unwritten) × (i ≡ j.id))

  abandoned-IsLeft :
      (cleanup : Cleanup) (found : Option ScheduledJob) (j : ScheduledJob)
      → get_job i taken ≡ found
      → In j (abandon_found cleanup found now taken)
      → is_inflight j.status ≡ true
      → IsLeft cleanup j
  unfolding WasThere IsLeft
  abandoned-IsLeft unwritten found j e m h = elim (Bool-cases (j.id == i)) [
    | inl t ↦ inr (refl, sym ((==_iff j.id i).0 t))
    | inr f ↦ inl (j, update_row-other JobStatus.claimed i claimed jobs j m f, refl, refl)
  ]
  abandoned-IsLeft complete none j e m h = inl (none-WasThere j e m)
  abandoned-IsLeft committed none j e m h = inl (none-WasThere j e m)
  abandoned-IsLeft complete (some k) j e m h =
      let (was_claimed, q) = found-is_claimed k e in
      inl (compacted-WasThere j (rw (was_claimed, q) at m) h)
  abandoned-IsLeft committed (some k) j e m h =
      let (was_claimed, q) = found-is_claimed k e in
      inl (failed-WasThere j (rw (was_claimed, q) at m) h)

-- The job was there in this status, or it is the claimed one, which the cleanup did not write.
pub IsAccounted : Cleanup → Option ScheduledJob → Jobs → ScheduledJob → Type 0
IsAccounted cleanup found jobs j =
    WasThere jobs j
    ⊎ ((cleanup ≡ unwritten) × ((q : ScheduledJob) × (found ≡ some q) × (q.id ≡ j.id)))

create_run-IsAccounted :
    (cleanup : Cleanup) (o : Option ScheduledJob) (claimed now : ℕ) (db : Db) (j : ScheduledJob)
    → In j (create_run cleanup none now (flip_claimed o claimed db.jobs) db).0.jobs
    → is_inflight j.status ≡ true
    → IsAccounted cleanup (flip_claimed o claimed db.jobs).0 db.jobs j
unfolding create_run abandon_claim WasThere IsAccounted IsLeft
create_run-IsAccounted cleanup none claimed now db j m h = inl (j, m, refl, refl)
create_run-IsAccounted cleanup (some q) claimed now db j m h =
    elim (abandoned-IsLeft q.id now claimed db.jobs cleanup
      (get_job q.id (taken q.id now claimed db.jobs)) j refl m h) [
        | inl w ↦ inl w
        | inr u ↦ inr (u.0, (_, refl, u.1))
      ]

-- On a table with unique ids, where the INSERT of the run row fails, every job that is claimed or
-- running afterwards was there before in the same status, so the claim leaves no job in flight; except
-- where the cleanup fails before its commit: then the job that `claim_next` answered with may also be
-- in flight.
pub claim_and_create_run-WasThere :
    (d : Dialect) (locked : ScheduledJob → Bool) (cleanup : Cleanup) (claimed now : ℕ) (db : Db)
    (j : ScheduledJob)
    → UniqueIds db.jobs
    → In j (claim_and_create_run d locked cleanup none claimed now db).0.jobs
    → is_inflight j.status ≡ true
    → WasThere db.jobs j
      ⊎ ((cleanup ≡ unwritten)
          × ((q : ScheduledJob) × ((claim_next d locked claimed db.jobs).0 ≡ some q)
              × (q.id ≡ j.id)))
unfolding claim_and_create_run IsAccounted
claim_and_create_run-WasThere d locked cleanup claimed now db j u m h =
    let (o, f) = claim_next-flip d locked claimed db.jobs u in
    subst (λ (r : Option ScheduledJob × Jobs). IsAccounted cleanup r.0 db.jobs j) (sym f)
      (create_run-IsAccounted cleanup o claimed now db j
        (subst (λ r. In j (create_run cleanup none now r db).0.jobs) f m) h)
