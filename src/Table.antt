-- ===== src/Table.antt =====
-- The `scheduled_job` table of app/models/scheduled_job.py, with the queries that
-- app/services/scheduling.py sends to it. The table is the list of its rows. A query is read by the
-- meaning of SQL: WHERE keeps the rows that pass, ORDER BY (position, id) sorts them, an UPDATE
-- rewrites the rows of one id.
pub mod Order
pub mod Placed
pub mod Rows
pub mod Join
use Prim.Native.Nat.{max}
use gitlab_reviewer.Prelude.{
  ℕ, ◌+◌, Bool, ◌&&◌, ◌||◌, Option, none, some, List, [], ◌∷◌, map, ltb, ◌==◌, if◌then◌else◌,
  keep_if,
}
use gitlab_reviewer.Models.{ScheduleType, nightly, JobStatus, ScheduledJob, is_queued, same_type}

abbrev pub Jobs : Type 0
Jobs = List ScheduledJob

-- `schedule_type == t AND status == queued`
abbrev pub in_set : ScheduleType → ScheduledJob → Bool
in_set t j = same_type j.schedule_type t && is_queued j.status

-- `ORDER BY position, id`
abbrev pub before : ScheduledJob → ScheduledJob → Bool
before a b = ltb a.position b.position || (a.position == b.position && ltb a.id b.id)

unfoldable pub insert_row : ScheduledJob → Jobs → Jobs
insert_row x [] = x ∷ []
insert_row x (y ∷ ys) = let rest = insert_row x ys in if before y x then y ∷ rest else x ∷ y ∷ ys

unfoldable pub order_rows : Jobs → Jobs
order_rows [] = []
order_rows (x ∷ xs) = insert_row x (order_rows xs)

-- The queued rows of one set, in their order; `list_nightly` is `queued_rows nightly`.
unfoldable pub queued_rows : ScheduleType → Jobs → Jobs
queued_rows t jobs = order_rows (keep_if (in_set t) jobs)

unfoldable pub list_nightly : Jobs → Jobs
list_nightly jobs = queued_rows nightly jobs

unfoldable pub queued_positions : ScheduleType → Jobs → List ℕ
queued_positions t jobs = map (λ j. j.id) (queued_rows t jobs)

-- `SELECT max(position)`, which is NULL on no row.
unfoldable pub max_position : Jobs → Option ℕ
max_position [] = none
max_position (j ∷ js) = elim (max_position js) [
  | none ↦ some j.position
  | some p ↦ some (max j.position p)
]

-- `top or 0`
abbrev pub or_zero : Option ℕ → ℕ
or_zero none = 0
or_zero (some n) = n

unfoldable pub next_position : ScheduleType → Jobs → ℕ
next_position t jobs = or_zero (max_position (keep_if (in_set t) jobs)) + 1

-- The row with the id is rewritten.
unfoldable pub update_row : ℕ → (ScheduledJob → ScheduledJob) → Jobs → Jobs
update_row i f jobs = map (λ j. if j.id == i then f j else j) jobs

abbrev pub at_position : ℕ → ScheduledJob → ScheduledJob
at_position p j = record j { position = p }

abbrev pub with_status : JobStatus → ℕ → ScheduledJob → ScheduledJob
with_status s now j = record j { status = s; updated_at = some now }

-- `LIMIT 1`, then `.first()`
abbrev pub first : Jobs → Option ScheduledJob
first [] = none
first (j ∷ js) = some j

-- The row with the id, `db.get(ScheduledJob, id)`.
unfoldable pub get_job : ℕ → Jobs → Option ScheduledJob
get_job i [] = none
get_job i (j ∷ js) = if j.id == i then some j else get_job i js
