-- ===== src/Scheduling/Columns.antt =====
-- `compact_positions` of app/services/scheduling.py writes nothing but positions, on any table.
use mathlib.Core.List.{map-map}
use gitlab_reviewer.Prelude.{
  ℕ, ◌+◌, ◌≡◌, refl, ◌∙◌, subst, inl, inr, [], ◌∷◌, map, ◌==◌, if◌then◌else◌, Bool-cases, In,
  In-map, map-In, map-cong_In,
}
use gitlab_reviewer.Models.{immediate, ScheduledJob}
use gitlab_reviewer.Table.{Jobs, update_row, at_position, queued_rows}
use gitlab_reviewer.Scheduling.{renumber, compact_positions}

abbrev pub SameColumns : Jobs → Jobs → Type 0
SameColumns jobs' jobs = map (at_position 0) jobs' ≡ map (at_position 0) jobs

update_row-columns : (i k : ℕ) (jobs : Jobs) → SameColumns (update_row i (at_position k) jobs) jobs
unfolding update_row
update_row-columns i k jobs =
    map-map (at_position 0) (λ (j : ScheduledJob). if j.id == i then at_position k j else j) jobs
    ∙ map-cong_In (λ (j : ScheduledJob). at_position 0 (if j.id == i then at_position k j else j))
        (at_position 0) jobs (λ j m. elim (Bool-cases (j.id == i)) [ inl t ↦ rw t | inr f ↦ rw f ])

renumber-columns : (k : ℕ) (rs jobs : Jobs) → SameColumns (renumber k rs jobs) jobs
unfolding renumber
renumber-columns k [] jobs = refl
renumber-columns k (r ∷ rs) jobs = elim (Bool-cases (r.position == k)) [
  | inl t ↦ rw (t, renumber) (renumber-columns (k + 1) rs jobs)
  | inr f ↦
      rw (f, renumber)
        (renumber-columns (k + 1) rs (update_row r.id (at_position k) jobs)
          ∙ update_row-columns r.id k jobs)
]

pub compact_positions-columns : (jobs : Jobs) → SameColumns (compact_positions jobs) jobs
unfolding compact_positions
compact_positions-columns jobs = renumber-columns 1 (queued_rows immediate jobs) jobs

-- Rows with the same columns stand for one another.
pub columns-In :
    (xs ys : Jobs)
    → SameColumns xs ys
    → (a : ScheduledJob) → In a xs
    → (b : ScheduledJob) × In b ys × (at_position 0 a ≡ at_position 0 b)
columns-In xs ys e a m =
    map-In (at_position 0) ys (at_position 0 a)
      (subst (In (at_position 0 a)) e (In-map (at_position 0) xs a m))
