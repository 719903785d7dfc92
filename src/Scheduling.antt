-- ===== src/Scheduling.antt =====
-- app/services/scheduling.py: the queue of review jobs. `commit` ends an operation; the ids that the
-- database hands out, the times that `_now` reads and the rows that other transactions have locked
-- are arguments.
pub mod Loops
pub mod Ids
pub mod Columns
pub mod Compact
pub mod Rewrite
pub mod Reorder
pub mod Enqueue
pub mod Cancel
pub mod Promote
pub mod Claim
pub mod Consistent
pub mod Steps
pub mod Reachable
use gitlab_reviewer.Prelude.{
  ℕ, ◌+◌, Bool, true, false, not, ◌&&◌, ◌||◌, Option, none, some, List, [], ◌∷◌, ◌++◌, map, ◌==◌,
  if◌then◌else◌, length, keep_if, Text, strip, or_none,
}
use gitlab_reviewer.Models.{
  Json, ScheduleType, immediate, nightly, JobStatus, ScheduledJob, is_queued, same_type,
}
use gitlab_reviewer.Errors.{
  Result, ok, no_ids, not_all_queued, queue_changed, not_queued, not_immediate, not_nightly, ◌>>◌,
  require,
}
use gitlab_reviewer.Table.{
  Jobs, in_set, order_rows, queued_rows, list_nightly, queued_positions, max_position, or_zero,
  next_position, update_row, at_position, with_status, first, get_job,
}

-- The arguments of `enqueue` beside the schedule type.
pub record Request : Type 0 where
  pub mr_id : ℕ
  pub profile_id : ℕ
  pub prompt_override : Option Text
  pub extra_projects : Option (List Json)
  pub post_to_gitlab : Option Bool

-- `prompt_override.strip() if isinstance(prompt_override, str) else None`, then `or None`
abbrev pub clean_prompt : Option Text → Option Text
clean_prompt none = none
clean_prompt (some p) = or_none (strip p)

abbrev pub or_empty : Option (List Json) → List Json
or_empty none = []
or_empty (some xs) = xs

unfoldable pub new_job : ℕ → ScheduleType → ℕ → Request → ℕ → ℕ → ScheduledJob
new_job id t position r created updated = record {
  id = id;
  merge_request_id = r.mr_id;
  model_profile_id = r.profile_id;
  prompt_override = clean_prompt r.prompt_override;
  extra_projects = or_empty r.extra_projects;
  schedule_type = t;
  position = position;
  status = JobStatus.queued;
  post_to_gitlab = r.post_to_gitlab;
  created_at = some created;
  updated_at = some updated;
}

unfoldable pub enqueue : ℕ → ScheduleType → Request → ℕ → ℕ → Jobs → Jobs
enqueue id t r created updated jobs =
    jobs ++ new_job id t (next_position t jobs) r created updated ∷ []

-- `list(dict.fromkeys(ids))`: each id at its first place.
unfoldable pub from_keys : List ℕ → List ℕ
from_keys [] = []
from_keys (i ∷ is) = i ∷ keep_if (λ k. not (k == i)) (from_keys is)

unfoldable pub elem : ℕ → List ℕ → Bool
elem i [] = false
elem i (k ∷ ks) = i == k || elem i ks

unfoldable pub subset : List ℕ → List ℕ → Bool
subset [] ks = true
subset (i ∷ is) ks = elem i ks && subset is ks

-- The keys of the dict of the queued immediate jobs among the ids.
unfoldable pub job_keys : List ℕ → Jobs → List ℕ
job_keys ids jobs =
    from_keys (map (λ j. j.id) (keep_if (λ j. elem j.id ids && in_set immediate j) jobs))

-- `for position, job_id in enumerate(ordered, start=k)`
unfoldable pub assign : ℕ → List ℕ → Jobs → Jobs
assign k [] jobs = jobs
assign k (i ∷ is) jobs = assign (k + 1) is (update_row i (at_position k) jobs)

abbrev pub is_empty : List ℕ → Bool
is_empty [] = true
is_empty (i ∷ is) = false

unfoldable pub rewrite_positions : List ℕ → Jobs → Result Jobs
rewrite_positions ordered_job_ids jobs = do
  let ordered = from_keys ordered_job_ids
  require (not (is_empty ordered)) no_ids
  let keys = job_keys ordered jobs
  let current = queued_positions immediate jobs
  require (length keys == length ordered) not_all_queued
  require (subset keys current && subset current keys) queue_changed
  ok (assign 1 ordered jobs)

unfoldable pub reorder : List ℕ → Jobs → Result Jobs
reorder ordered_job_ids jobs = rewrite_positions ordered_job_ids jobs

unfoldable pub require_queued_immediate : ScheduledJob → Result (Unit {0})
require_queued_immediate job = do
  require (is_queued job.status) (not_queued job.id job.status)
  require (same_type job.schedule_type immediate) (not_immediate job.id)

abbrev pub other_than : ℕ → List ℕ → List ℕ
other_than i ids = keep_if (λ k. not (k == i)) ids

unfoldable pub move_to_top : ScheduledJob → Jobs → Result Jobs
move_to_top job jobs = do
  require_queued_immediate job
  rewrite_positions (job.id ∷ other_than job.id (queued_positions immediate jobs)) jobs

unfoldable pub move_to_bottom : ScheduledJob → Jobs → Result Jobs
move_to_bottom job jobs = do
  require_queued_immediate job
  rewrite_positions (other_than job.id (queued_positions immediate jobs) ++ job.id ∷ []) jobs

-- The loop of `compact_positions`: only a position that differs is written.
unfoldable pub renumber : ℕ → Jobs → Jobs → Jobs
renumber k [] jobs = jobs
renumber k (r ∷ rs) jobs =
    renumber (k + 1) rs (if r.position == k then jobs else update_row r.id (at_position k) jobs)

unfoldable pub compact_positions : Jobs → Jobs
compact_positions jobs = renumber 1 (queued_rows immediate jobs) jobs

unfoldable pub cancel : ScheduledJob → ℕ → Jobs → Result Jobs
cancel job now jobs = do
  require (is_queued job.status) (not_queued job.id job.status)
  ok (compact_positions (update_row job.id (with_status JobStatus.cancelled now) jobs))

abbrev pub moved_to : ScheduleType → ℕ → ℕ → ScheduledJob → ScheduledJob
moved_to t p now j = record j { schedule_type = t; position = p; updated_at = some now }

unfoldable pub enroll_nightly : ScheduledJob → ℕ → Jobs → Result Jobs
enroll_nightly job now jobs = do
  require (is_queued job.status) (not_queued job.id job.status)
  ok (
      if same_type job.schedule_type nightly
      then jobs
      else update_row job.id (moved_to nightly (next_position nightly jobs) now) jobs)

unfoldable pub remove_nightly : ScheduledJob → ℕ → Jobs → Result Jobs
remove_nightly job now jobs = do
  require (is_queued job.status) (not_queued job.id job.status)
  require (same_type job.schedule_type nightly) (not_nightly job.id)
  ok (update_row job.id (moved_to immediate (next_position immediate jobs) now) jobs)

-- `for offset, job in enumerate(nightlies, start=offset)`
unfoldable pub promote : ℕ → ℕ → Jobs → Jobs → Jobs
promote p now [] jobs = jobs
promote p now (r ∷ rs) jobs =
    promote (p + 1) now rs (update_row r.id (moved_to immediate p now) jobs)

-- On no nightly job the loop does nothing, which is the early return.
unfoldable pub promote_nightly : ℕ → Jobs → Jobs
promote_nightly now jobs =
    let base = or_zero (max_position (keep_if (in_set immediate) jobs)) in
    promote (base + 1) now (list_nightly jobs) jobs

-- The database behind the session: `db.bind.dialect.name`.
pub data Dialect : Type 0 where
  postgresql sqlite : Dialect

-- The row is flipped to `claimed`; on no row the session is rolled back.
abbrev pub flip_claimed : Option ScheduledJob → ℕ → Jobs → Option ScheduledJob × Jobs
flip_claimed none now jobs = (none, jobs)
flip_claimed (some j) now jobs = (
  some (with_status JobStatus.claimed now j),
  update_row j.id (with_status JobStatus.claimed now) jobs,
)

-- SKIP LOCKED passes over the rows that other transactions hold.
unfoldable pub claim_postgres : (ScheduledJob → Bool) → ℕ → Jobs → Option ScheduledJob × Jobs
claim_postgres locked now jobs =
    flip_claimed (first (order_rows (keep_if (λ j. in_set immediate j && not (locked j)) jobs))) now
      jobs

-- The WHERE of the UPDATE.
abbrev pub still_queued : ℕ → ScheduledJob → Bool
still_queued i k = k.id == i && is_queued k.status

-- The UPDATE, its `rowcount`, and the row read again.
abbrev pub update_claimed : Option ScheduledJob → ℕ → Jobs → Option ScheduledJob × Jobs
update_claimed none now jobs = (none, jobs)
update_claimed (some j) now jobs =
    let jobs' =
      map (λ k. if still_queued j.id k then with_status JobStatus.claimed now k else k) jobs in
    (if length (keep_if (still_queued j.id) jobs) == 1 then get_job j.id jobs' else none, jobs')

-- `BEGIN IMMEDIATE` holds the write lock, so no other statement comes between.
unfoldable pub claim_sqlite : ℕ → Jobs → Option ScheduledJob × Jobs
claim_sqlite now jobs = update_claimed (first (queued_rows immediate jobs)) now jobs

unfoldable pub claim_next : Dialect → (ScheduledJob → Bool) → ℕ → Jobs → Option ScheduledJob × Jobs
claim_next postgresql locked now jobs = claim_postgres locked now jobs
claim_next sqlite locked now jobs = claim_sqlite now jobs
