-- ===== src/Scheduling/Reachable.antt =====
-- The invariant holds of every table that the operations of app/services/scheduling.py can reach.
use gitlab_reviewer.Prelude.{
  ℕ, ◌≤◌, true, false, Option, none, some, ◌≡◌, refl, sym, ap, subst, ◌∙◌, ◌⊎◌, inl, inr, List, [],
  ◌∷◌, ◌++◌, arith, In, length,
}
use gitlab_reviewer.Models.{ScheduleType, immediate, nightly, JobStatus, ScheduledJob, is_queued}
use gitlab_reviewer.Errors.{ok, require, then_ok}
use gitlab_reviewer.Table.{
  Jobs, in_set, queued_rows, queued_positions, next_position, update_row, with_status, order_rows,
}
use gitlab_reviewer.Table.Placed.{numbered, numbered-above}
use gitlab_reviewer.Table.Rows.{without}
use gitlab_reviewer.Table.Join.{IsFresh, insert-UniqueIds, next_position-above, next_position-pos}
use gitlab_reviewer.Scheduling.{
  Request, new_job, enqueue, reorder, rewrite_positions, move_to_top, move_to_bottom,
  require_queued_immediate, other_than, cancel, enroll_nightly, remove_nightly, promote_nightly,
  compact_positions, flip_claimed, moved_to, from_keys,
}
use gitlab_reviewer.Scheduling.Loops.{moved_to-Writes}
use gitlab_reviewer.Scheduling.Compact.{
  compact_positions_lem, compact_positions-UniqueIds, queued_rows-compact_nightly,
}
use gitlab_reviewer.Scheduling.Reorder.{rewrite_positions_lem}
use gitlab_reviewer.Scheduling.Enqueue.{enqueue_lem, enroll_nightly_lem, remove_nightly_lem}
use gitlab_reviewer.Scheduling.Promote.{promote_nightly_lem, promote_nightly-UniqueIds}
use gitlab_reviewer.Scheduling.Claim.{claim_next-flip}
use gitlab_reviewer.Scheduling.Consistent.{
  IsSpread, IsConsistent, IsSpread-keep_if, IsSpread-append, IsSpread-next, IsSpread-counted,
  IsSpread-nil, IsSpread-numbered, IsRewritten-IsConsistent, leave-IsConsistent,
}
use gitlab_reviewer.Scheduling.Steps.{
  Step, Reach, enqueued, reordered, to_top, to_bottom, cancelled, enrolled, removed, promoted,
  compacted, claimed, settled, here, next,
}

with_status-out :
    (s : JobStatus) (now : ℕ)
    → is_queued s ≡ false
    → (t : ScheduleType) (j : ScheduledJob) → in_set t (with_status s now j) ≡ false
with_status-out s now h t j = ground arith

pub settle-IsConsistent :
    (i : ℕ) (s : JobStatus) (now : ℕ) (jobs : Jobs)
    → is_queued s ≡ false
    → IsConsistent jobs
    → IsConsistent (update_row i (with_status s now) jobs)
settle-IsConsistent i s now jobs h c =
    leave-IsConsistent i (with_status s now) jobs (λ j. refl) (with_status-out s now h) c

pub compact_positions-IsConsistent :
    (jobs : Jobs) → IsConsistent jobs → IsConsistent (compact_positions jobs)
compact_positions-IsConsistent jobs c =
    let l = compact_positions_lem jobs c.unique_ids in
    record {
      unique_ids = compact_positions-UniqueIds jobs c.unique_ids;
      now_spread =
          IsSpread-counted (length (queued_rows immediate jobs))
            (queued_rows immediate (compact_positions jobs)) l.1;
      night_spread =
          subst IsSpread (sym (queued_rows-compact_nightly jobs c.unique_ids)) c.night_spread;
    }

enqueue-IsConsistent :
    (id : ℕ) (t : ScheduleType) (r : Request) (created updated : ℕ) (jobs : Jobs)
    → IsFresh id jobs
    → IsConsistent jobs
    → IsConsistent (enqueue id t r created updated jobs)
unfolding enqueue new_job
enqueue-IsConsistent id immediate r a b jobs fresh c =
    let l = enqueue_lem id immediate r a b jobs c.unique_ids fresh in
    let new = new_job id immediate (next_position immediate jobs) r a b in
    record {
      unique_ids = insert-UniqueIds jobs new c.unique_ids fresh;
      now_spread = subst IsSpread (sym l.0) (IsSpread-next immediate jobs new c.now_spread refl);
      night_spread = subst IsSpread (sym l.1) c.night_spread;
    }
enqueue-IsConsistent id nightly r a b jobs fresh c =
    let l = enqueue_lem id nightly r a b jobs c.unique_ids fresh in
    let new = new_job id nightly (next_position nightly jobs) r a b in
    record {
      unique_ids = insert-UniqueIds jobs new c.unique_ids fresh;
      now_spread = subst IsSpread (sym l.1) c.now_spread;
      night_spread = subst IsSpread (sym l.0) (IsSpread-next nightly jobs new c.night_spread refl);
    }

ok_injective : {a b : Jobs} → ok a ≡ ok b → a ≡ b
ok_injective h = cc

enroll_nightly_sound :
    (job : ScheduledJob) (now : ℕ) (jobs jobs' : Jobs)
    → enroll_nightly job now jobs ≡ ok jobs'
    → (jobs ≡ jobs') ⊎ (in_set immediate job ≡ true)
unfolding enroll_nightly
enroll_nightly_sound job now jobs jobs' e = ground arith

remove_nightly_sound :
    (job : ScheduledJob) (now : ℕ) (jobs jobs' : Jobs)
    → remove_nightly job now jobs ≡ ok jobs'
    → in_set nightly job ≡ true
unfolding remove_nightly
remove_nightly_sound job now jobs jobs' e = ground arith

enroll_nightly-IsConsistent :
    (job : ScheduledJob) (now : ℕ) (jobs jobs' : Jobs)
    → In job jobs
    → enroll_nightly job now jobs ≡ ok jobs'
    → IsConsistent jobs
    → IsConsistent jobs'
enroll_nightly-IsConsistent job now jobs jobs' m e c =
    elim (enroll_nightly_sound job now jobs jobs' e) [
      | inl same ↦ subst IsConsistent same c
      | inr h ↦
          let l = enroll_nightly_lem job now jobs c.unique_ids m h in
          let p = next_position nightly jobs in
          subst IsConsistent (ok_injective (sym l.1 ∙ e)) (record {
            unique_ids = l.4;
            now_spread =
                subst IsSpread (sym l.3)
                  (IsSpread-keep_if (without job.id) (queued_rows immediate jobs) c.now_spread);
            night_spread =
                subst IsSpread (sym l.2)
                  (IsSpread-next nightly jobs (moved_to nightly p now job) c.night_spread refl);
          })
    ]

remove_nightly-IsConsistent :
    (job : ScheduledJob) (now : ℕ) (jobs jobs' : Jobs)
    → In job jobs
    → remove_nightly job now jobs ≡ ok jobs'
    → IsConsistent jobs
    → IsConsistent jobs'
remove_nightly-IsConsistent job now jobs jobs' m e c =
    let l =
      remove_nightly_lem job now jobs c.unique_ids m (remove_nightly_sound job now jobs jobs' e) in
    let p = next_position immediate jobs in
    subst IsConsistent (ok_injective (sym l.1 ∙ e)) (record {
      unique_ids = l.4;
      now_spread =
          subst IsSpread (sym l.2)
            (IsSpread-next immediate jobs (moved_to immediate p now job) c.now_spread refl);
      night_spread =
          subst IsSpread (sym l.3)
            (IsSpread-keep_if (without job.id) (queued_rows nightly jobs) c.night_spread);
    })

promote_nightly-IsConsistent :
    (now : ℕ) (jobs : Jobs) → IsConsistent jobs → IsConsistent (promote_nightly now jobs)
promote_nightly-IsConsistent now jobs c =
    let l = promote_nightly_lem now jobs c.unique_ids in
    let L = queued_rows nightly jobs in
    let base = next_position immediate jobs in
    let f = λ (p : ℕ). moved_to immediate p now in
    let M = numbered f base L in
    let base_pos : 1 ≤ base = next_position-pos immediate jobs in
    record {
      unique_ids = promote_nightly-UniqueIds now jobs c.unique_ids;
      now_spread = subst IsSpread (sym l.0) (
          IsSpread-append (queued_rows immediate jobs) M c.now_spread
            (IsSpread-numbered f (moved_to-Writes now) base L base_pos)
            (λ a b m n. omega (
              arith,
              next_position-above immediate jobs a m,
              numbered-above f (moved_to-Writes now) base L b n,
            )));
      night_spread = subst IsSpread (sym l.2) IsSpread-nil;
    }

flip_claimed-IsConsistent :
    (o : Option ScheduledJob) (now : ℕ) (jobs : Jobs)
    → IsConsistent jobs
    → IsConsistent (flip_claimed o now jobs).1
flip_claimed-IsConsistent none now jobs c = c
flip_claimed-IsConsistent (some j) now jobs c =
    settle-IsConsistent j.id JobStatus.claimed now jobs refl c

rewrite_positions-IsConsistent :
    (is : List ℕ) (jobs jobs' : Jobs)
    → rewrite_positions is jobs ≡ ok jobs'
    → IsConsistent jobs
    → IsConsistent jobs'
rewrite_positions-IsConsistent is jobs jobs' e c =
    IsRewritten-IsConsistent (from_keys is) jobs jobs'
      (rewrite_positions_lem is jobs c.unique_ids e) c

cancel-IsConsistent :
    (job : ScheduledJob) (now : ℕ) (jobs jobs' : Jobs)
    → cancel job now jobs ≡ ok jobs'
    → IsConsistent jobs
    → IsConsistent jobs'
unfolding cancel
cancel-IsConsistent job now jobs jobs' e c =
    let jobs1 = update_row job.id (with_status JobStatus.cancelled now) jobs in
    subst IsConsistent (ok_injective (then_ok (require (is_queued job.status) _) _ e)) (
      compact_positions-IsConsistent jobs1
        (settle-IsConsistent job.id JobStatus.cancelled now jobs refl c))

-- Every operation keeps the invariant.
pub Step-IsConsistent :
    {jobs jobs' : Jobs} → Step jobs jobs' → IsConsistent jobs → IsConsistent jobs'
unfolding reorder move_to_top move_to_bottom
Step-IsConsistent {jobs} (enqueued id t r a b fresh e) c =
    subst IsConsistent (sym e) (enqueue-IsConsistent id t r a b jobs fresh c)
Step-IsConsistent {jobs} {jobs'} (reordered is e) c =
    rewrite_positions-IsConsistent is jobs jobs' e c
Step-IsConsistent {jobs} {jobs'} (to_top job e) c =
    rewrite_positions-IsConsistent (job.id ∷ other_than job.id (queued_positions immediate jobs))
      jobs jobs' (then_ok (require_queued_immediate job) _ e) c
Step-IsConsistent {jobs} {jobs'} (to_bottom job e) c =
    rewrite_positions-IsConsistent
      (other_than job.id (queued_positions immediate jobs) ++ job.id ∷ []) jobs jobs'
      (then_ok (require_queued_immediate job) _ e) c
Step-IsConsistent {jobs} {jobs'} (cancelled job now e) c =
    cancel-IsConsistent job now jobs jobs' e c
Step-IsConsistent {jobs} {jobs'} (enrolled job now m e) c =
    enroll_nightly-IsConsistent job now jobs jobs' m e c
Step-IsConsistent {jobs} {jobs'} (removed job now m e) c =
    remove_nightly-IsConsistent job now jobs jobs' m e c
Step-IsConsistent {jobs} (promoted now e) c =
    subst IsConsistent (sym e) (promote_nightly-IsConsistent now jobs c)
Step-IsConsistent {jobs} (compacted e) c =
    subst IsConsistent (sym e) (compact_positions-IsConsistent jobs c)
Step-IsConsistent {jobs} (claimed d locked now e) c =
    let (o, f) = claim_next-flip d locked now jobs c.unique_ids in
    subst IsConsistent (sym (e ∙ ap (λ (r : Option ScheduledJob × Jobs). r.1) f))
      (flip_claimed-IsConsistent o now jobs c)
Step-IsConsistent {jobs} (settled i s now h e) c =
    subst IsConsistent (sym e) (settle-IsConsistent i s now jobs h c)

Reach-IsConsistent : {jobs jobs' : Jobs} → Reach jobs jobs' → IsConsistent jobs → IsConsistent jobs'
Reach-IsConsistent here c = c
Reach-IsConsistent (next r s) c = Step-IsConsistent s (Reach-IsConsistent r c)

no_jobs-IsConsistent : IsConsistent []
unfolding queued_rows order_rows
no_jobs-IsConsistent = record {
  unique_ids = tt;
  now_spread = IsSpread-nil;
  night_spread = IsSpread-nil;
}

-- Every table that the operations of the queue reach from the empty one, in any order, has unique
-- ids, and in each of its two sets the positions are positive, all different, and rise in the order in
-- which the set is read.
pub reachable-IsConsistent : {jobs : Jobs} → Reach [] jobs → IsConsistent jobs
reachable-IsConsistent r = Reach-IsConsistent r no_jobs-IsConsistent
