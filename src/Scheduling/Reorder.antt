-- ===== src/Scheduling/Reorder.antt =====
-- `reorder`, `move_to_top` and `move_to_bottom` of app/services/scheduling.py.
use native.Mathlib.Decide.{ℕ_discrete}
use gitlab_reviewer.Prelude.{
  ℕ, true, not, ◌&&◌, ◌≡◌, refl, sym, subst, ◌∙◌, ◌≢◌, ◌↔◌, inl, inr, List, [], ◌∷◌, ◌++◌, arith,
  ◌==◌, In, All-of, keep_if, keep_if-In, In-keep_if, ==_iff, length, map-In, In-map,
  Pairwise-append, Pairwise-map, Pairwise-keep_if, In-append, In-append_left, In-append_right,
}
use gitlab_reviewer.Models.{immediate, ScheduledJob}
use gitlab_reviewer.Errors.{ok, require_ok, no_ids, not_all_queued, queue_changed}
use gitlab_reviewer.Table.{Jobs, in_set, queued_rows, queued_positions}
use gitlab_reviewer.Table.Order.{OtherId, UniqueIds}
use gitlab_reviewer.Table.Placed.{ids}
use gitlab_reviewer.Table.Rows.{queued_rows-In, In-queued_rows, queued_rows-UniqueIds}
use gitlab_reviewer.Scheduling.{
  from_keys, elem, subset, other_than, job_keys, assign, is_empty, rewrite_positions, reorder,
  require_queued_immediate, move_to_top, move_to_bottom,
}
use gitlab_reviewer.Scheduling.Ids.{
  Distinct, Differ, Within, Distinct-from_keys, from_keys-In, In-from_keys, from_keys-Distinct,
  elem-In, In-elem, subset-Within, Within-subset, length-Within, Within-of_length, In-other_than,
  other_than-In,
}
use gitlab_reviewer.Scheduling.Rewrite.{IsRewritten, assign-IsRewritten}

module _ (o : List ℕ) (jobs : Jobs) where
  job_keys-given : Within (job_keys o jobs) o
  unfolding job_keys
  job_keys-given i m =
      let (j, n, e) =
        map-In (λ (x : ScheduledJob). x.id) (keep_if (λ j. elem j.id o && in_set immediate j) jobs)
          i (from_keys-In _ i m) in
      let k = keep_if-In (λ j. elem j.id o && in_set immediate j) jobs j n in
      subst (λ x. In x o) (sym e) (elem-In j.id o (ground arith))

  job_keys-queued : Within (job_keys o jobs) (queued_positions immediate jobs)
  unfolding job_keys queued_positions
  job_keys-queued i m =
      let (j, n, e) =
        map-In (λ (x : ScheduledJob). x.id) (keep_if (λ j. elem j.id o && in_set immediate j) jobs)
          i (from_keys-In _ i m) in
      let k = keep_if-In (λ j. elem j.id o && in_set immediate j) jobs j n in
      subst (λ x. In x (ids (queued_rows immediate jobs))) (sym e)
        (In-map (λ (x : ScheduledJob). x.id) (queued_rows immediate jobs) j
          (In-queued_rows immediate jobs j k.0 (ground arith)))

  In-job_keys : (i : ℕ) → In i o → In i (queued_positions immediate jobs) → In i (job_keys o jobs)
  unfolding job_keys queued_positions
  In-job_keys i m n =
      let (j, k, e) = map-In (λ (x : ScheduledJob). x.id) (queued_rows immediate jobs) i n in
      let h = queued_rows-In immediate jobs j k in
      let given : elem j.id o ≡ true = In-elem j.id o (subst (λ x. In x o) e m) in
      let rows : Jobs = keep_if (λ j. elem j.id o && in_set immediate j) jobs in
      In-from_keys (ids rows) i (
        subst (λ x. In x (ids rows)) (sym e)
          (In-map (λ (x : ScheduledJob). x.id) rows j
            (In-keep_if (λ j. elem j.id o && in_set immediate j) jobs j h.0 (rw given h.1))))

  job_keys-Distinct : Distinct (job_keys o jobs)
  unfolding job_keys
  job_keys-Distinct = Distinct-from_keys _

-- A rewrite that succeeds was given the ids of exactly the queued immediate jobs.
rewrite_positions_sound :
    (is : List ℕ) (jobs : Jobs) {jobs' : Jobs}
    → rewrite_positions is jobs ≡ ok jobs'
    → Within (from_keys is) (queued_positions immediate jobs)
      × Within (queued_positions immediate jobs) (from_keys is)
      × (assign 1 (from_keys is) jobs ≡ jobs')
unfolding rewrite_positions
rewrite_positions_sound is jobs h =
    let o = from_keys is in
    let keys = job_keys o jobs in
    let current = queued_positions immediate jobs in
    let (some_ids, h1) = require_ok (not (is_empty o)) no_ids _ h in
    let (lengths, h2) = require_ok (length keys == length o) not_all_queued _ h1 in
    let (sets, h3) = require_ok (subset keys current && subset current keys) queue_changed _ h2 in
    let back : Within current keys = subset-Within current keys (ground arith) in
    let all =
      Within-of_length keys o (job_keys-Distinct o jobs) (job_keys-given o jobs)
        ((==_iff (length keys) (length o)).0 lengths) in
    (
      λ i m. job_keys-queued o jobs i (all i m),
      λ i m. job_keys-given o jobs i (back i m),
      ground arith,
    )

is_empty-In : (i : ℕ) (is : List ℕ) → In i is → not (is_empty is) ≡ true
is_empty-In i [] m = absurd m
is_empty-In i (k ∷ ks) m = refl

-- A rewrite that is given the ids of exactly the queued immediate jobs succeeds.
rewrite_positions_complete :
    (is : List ℕ) (jobs : Jobs)
    → is ≢ []
    → Within is (queued_positions immediate jobs)
    → Within (queued_positions immediate jobs) is
    → rewrite_positions is jobs ≡ ok (assign 1 (from_keys is) jobs)
unfolding rewrite_positions
rewrite_positions_complete [] jobs ne to from = absurd (ne refl)
rewrite_positions_complete (i ∷ is) jobs ne to from =
    let o = from_keys (i ∷ is) in
    let keys = job_keys o jobs in
    let current = queued_positions immediate jobs in
    let to_keys : Within o keys =
      λ k m. In-job_keys o jobs k m (to k (from_keys-In (i ∷ is) k m)) in
    let back : Within current keys = λ k m. to_keys k (In-from_keys (i ∷ is) k (from k m)) in
    let some_ids = is_empty-In i o (In-from_keys (i ∷ is) i (inl refl)) in
    let lengths : (length keys == length o) ≡ true = (==_iff (length keys) (length o)).1 (
      omega (
        arith,
        length-Within keys o (job_keys-Distinct o jobs) (job_keys-given o jobs),
        length-Within o keys (Distinct-from_keys (i ∷ is)) to_keys,
      )) in
    let one = Within-subset keys current (job_keys-queued o jobs) in
    let two = Within-subset current keys back in rw (some_ids, lengths, one, two)

rewrite_positions-ne-nil :
    (is : List ℕ) (jobs : Jobs) {jobs' : Jobs} → rewrite_positions is jobs ≡ ok jobs' → is ≢ []
unfolding rewrite_positions from_keys
rewrite_positions-ne-nil [] jobs h e = cc
rewrite_positions-ne-nil (i ∷ is) jobs h e = cc

-- `reorder` succeeds exactly when the given ids, repeats aside, are those
-- of the queued immediate jobs and there is at least one.
pub reorder-ok_iff :
    (is : List ℕ) (jobs : Jobs)
    → ((jobs' : Jobs) × (reorder is jobs ≡ ok jobs')) ↔ (
        (is ≢ [])
        × Within is (queued_positions immediate jobs)
        × Within (queued_positions immediate jobs) is)
unfolding reorder
reorder-ok_iff is jobs = (
  λ h.
      let s = rewrite_positions_sound is jobs h.1 in
      (
        rewrite_positions-ne-nil is jobs h.1,
        λ i m. s.0 i (In-from_keys is i m),
        λ i m. from_keys-In is i (s.1 i m),
      ),
  λ h. (assign 1 (from_keys is) jobs, rewrite_positions_complete is jobs h.0 h.1 h.2),
)

-- On a table with unique ids, `_rewrite_positions` leaves what `IsRewritten` says wherever it succeeds.
pub rewrite_positions_lem :
    (is : List ℕ) (jobs : Jobs) {jobs' : Jobs}
    → UniqueIds jobs
    → rewrite_positions is jobs ≡ ok jobs'
    → IsRewritten (from_keys is) jobs jobs'
rewrite_positions_lem is jobs u h =
    let s = rewrite_positions_sound is jobs h in
    subst (IsRewritten (from_keys is) jobs) s.2
      (assign-IsRewritten (from_keys is) jobs u (Distinct-from_keys is) s.0 s.1)

-- On a table with unique ids, a `reorder` that succeeds leaves the queue in the order of the given ids,
-- each at its first place, with the positions 1 to n; the nightly set, the rows outside the immediate
-- queue and every column but the position are as before.
pub reorder_lem :
    (is : List ℕ) (jobs : Jobs) {jobs' : Jobs}
    → UniqueIds jobs
    → reorder is jobs ≡ ok jobs'
    → IsRewritten (from_keys is) jobs jobs'
unfolding reorder
reorder_lem is jobs u h = rewrite_positions_lem is jobs u h

rewrite_positions-IsRewritten :
    (is : List ℕ) (jobs : Jobs)
    → UniqueIds jobs
    → is ≢ []
    → Distinct is
    → Within is (queued_positions immediate jobs)
    → Within (queued_positions immediate jobs) is
    → (jobs' : Jobs) × (rewrite_positions is jobs ≡ ok jobs') × IsRewritten is jobs jobs'
rewrite_positions-IsRewritten is jobs u ne d to from = (
  assign 1 is jobs,
  subst (λ x. rewrite_positions is jobs ≡ ok (assign 1 x jobs)) (from_keys-Distinct is d)
      (rewrite_positions_complete is jobs ne to from),
  assign-IsRewritten is jobs u d to from,
)

queued_positions-Distinct :
    (jobs : Jobs) → UniqueIds jobs → Distinct (queued_positions immediate jobs)
unfolding queued_positions
queued_positions-Distinct jobs u =
    Pairwise-map OtherId Differ (λ j. j.id) (queued_rows immediate jobs) (λ a b m n h. h)
      (queued_rows-UniqueIds immediate jobs u)

require_queued_immediate_ok :
    (job : ScheduledJob) → in_set immediate job ≡ true → require_queued_immediate job ≡ ok tt
unfolding require_queued_immediate
require_queued_immediate_ok job h = ground arith

require_queued_immediate_sound :
    (job : ScheduledJob) → require_queued_immediate job ≡ ok tt → in_set immediate job ≡ true
unfolding require_queued_immediate
require_queued_immediate_sound job h = ground arith

module _ (job : ScheduledJob) (jobs : Jobs) (u : UniqueIds jobs) (m : In job jobs)
    (h : in_set immediate job ≡ true) where
  job_queued : In job.id (queued_positions immediate jobs)
  unfolding queued_positions
  job_queued =
      In-map (λ (x : ScheduledJob). x.id) (queued_rows immediate jobs) job
        (In-queued_rows immediate jobs job m h)

  others-Within :
      Within (other_than job.id (queued_positions immediate jobs)) (queued_positions immediate jobs)
  others-Within i n = (other_than-In job.id i (queued_positions immediate jobs) n).0

  others-Distinct : Distinct (other_than job.id (queued_positions immediate jobs))
  others-Distinct =
      Pairwise-keep_if Differ (λ k. not (k == job.id)) (queued_positions immediate jobs)
        (queued_positions-Distinct jobs u)

  -- On a table with unique ids, moving a queued immediate job of the table to the top succeeds: the job
  -- is first, the others keep their order, the positions are 1 to n, and all else is as before.
  pub move_to_top_lem :
      (jobs' : Jobs) × (move_to_top job jobs ≡ ok jobs')
      × IsRewritten (job.id ∷ other_than job.id (queued_positions immediate jobs)) jobs jobs'
  unfolding move_to_top
  move_to_top_lem = rw (require_queued_immediate_ok job h) (
      rewrite_positions-IsRewritten (job.id ∷ other_than job.id (queued_positions immediate jobs))
        jobs u (λ e. cc)
        (
          All-of (Differ job.id) (other_than job.id (queued_positions immediate jobs))
              (λ i n e. (other_than-In job.id i (queued_positions immediate jobs) n).1 (sym e)),
          others-Distinct,
        )
        (λ i n. elim n [
          | inl e ↦ subst (λ x. In x (queued_positions immediate jobs)) (sym e) job_queued
          | inr k ↦ others-Within i k
        ])
        (λ i n. elim (ℕ_discrete i job.id) [
          | yes e ↦ inl e
          | no ne ↦ inr (In-other_than job.id i (queued_positions immediate jobs) n ne)
        ]))

  -- On a table with unique ids, moving a queued immediate job of the table to the bottom succeeds: the
  -- others keep their order, the job is last, the positions are 1 to n, and all else is as before.
  pub move_to_bottom_lem :
      (jobs' : Jobs) × (move_to_bottom job jobs ≡ ok jobs')
      × IsRewritten (other_than job.id (queued_positions immediate jobs) ++ job.id ∷ []) jobs jobs'
  unfolding move_to_bottom
  move_to_bottom_lem =
      let rest = other_than job.id (queued_positions immediate jobs) in
      rw (require_queued_immediate_ok job h) (
        rewrite_positions-IsRewritten
          (other_than job.id (queued_positions immediate jobs) ++ job.id ∷ []) jobs u
          (λ e. absurd (subst (In job.id) e (In-append_right rest (job.id ∷ []) job.id (inl refl))))
          (Pairwise-append Differ rest (job.id ∷ []) others-Distinct (tt, tt)
            (λ a b k n e. elim n [
              | inl q ↦ (other_than-In job.id a (queued_positions immediate jobs) k).1 (e ∙ q)
              | inr z ↦ z
            ]))
          (λ i n. elim (In-append rest (job.id ∷ []) i n) [
            | inl k ↦ others-Within i k
            | inr (inl e) ↦ subst (λ x. In x (queued_positions immediate jobs)) (sym e) job_queued
            | inr (inr z) ↦ absurd z
          ])
          (λ i n. elim (ℕ_discrete i job.id) [
            | yes e ↦ In-append_right rest (job.id ∷ []) i (inl e)
            | no ne ↦
                In-append_left rest (job.id ∷ []) i
                  (In-other_than job.id i (queued_positions immediate jobs) n ne)
          ]))
