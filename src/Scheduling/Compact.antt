-- ===== src/Scheduling/Compact.antt =====
-- `compact_positions` of app/services/scheduling.py, and what every rewrite of the positions of the
-- immediate queue has in common.
use gitlab_reviewer.Prelude.{
  ℕ, Bool, true, false, not, ◌≡◌, refl, sym, ap, ◌∙◌, map, arith, In, keep_if, keep_if-In,
  In-keep_if, keep_if-map, map-In, map-cong_In, map-id, count_up, length, Pairwise-keep_if,
}
use mathlib.Core.List.{map-map}
use mathlib.Core.Bool.{false≢true}
use gitlab_reviewer.Models.{immediate, nightly, ScheduledJob}
use gitlab_reviewer.Table.{Jobs, in_set, order_rows, queued_rows, queued_positions, at_position}
use gitlab_reviewer.Table.Order.{OtherId, UniqueIds}
use gitlab_reviewer.Table.Placed.{
  ids, placed, numbered, order_rows-placed, placed-keeps, placed-other, placed-UniqueIds,
  ids-numbered, positions-numbered,
}
use gitlab_reviewer.Table.Rows.{same_row, queued_rows-In, In-queued_rows, queued_rows-UniqueIds}
use gitlab_reviewer.Scheduling.{assign, compact_positions}
use gitlab_reviewer.Scheduling.Loops.{at_position-Writes, assign-map, renumber-assign}

-- A list of rows that are exactly the queue of immediate jobs.
pub record IsQueue (L jobs : Jobs) : Type 0 where
  pub unique : UniqueIds L
  pub sound : (a : ScheduledJob) → In a L → In a jobs × (in_set immediate a ≡ true)
  pub complete : (a : ScheduledJob) → In a jobs → in_set immediate a ≡ true → In a L

pub queued_rows-IsQueue : (jobs : Jobs) → UniqueIds jobs → IsQueue (queued_rows immediate jobs) jobs
queued_rows-IsQueue jobs u = record {
  unique = queued_rows-UniqueIds immediate jobs u;
  sound = queued_rows-In immediate jobs;
  complete = In-queued_rows immediate jobs;
}

module _ (k : ℕ) (L jobs : Jobs) (u : UniqueIds jobs) (q : IsQueue L jobs) where
  pub assign-UniqueIds : UniqueIds (assign k (ids L) jobs)
  assign-UniqueIds =
      rw (assign-map k (ids L) jobs)
        (placed-UniqueIds at_position at_position-Writes k (ids L) jobs u)

  -- Positions that are written in the order of `L` are read in that order.
  pub queued_rows-assign : queued_rows immediate (assign k (ids L) jobs) ≡ numbered at_position k L
  unfolding queued_rows
  queued_rows-assign =
      ap (queued_rows immediate) (assign-map k (ids L) jobs)
      ∙ ap order_rows (
          keep_if-map (in_set immediate) (placed at_position k (ids L)) jobs
            (placed-keeps at_position (in_set immediate) (λ i j. refl) k (ids L)))
      ∙ order_rows-placed at_position at_position-Writes k L (keep_if (in_set immediate) jobs)
          q.unique (Pairwise-keep_if OtherId (in_set immediate) jobs u)
          (λ a m. let n = keep_if-In (in_set immediate) jobs a m in q.complete a n.0 n.1)
          (λ a m. let n = q.sound a m in In-keep_if (in_set immediate) jobs a n.0 n.1)

  assign_other_row :
      (j : ScheduledJob)
      → In j jobs
      → in_set immediate j ≡ false
      → placed at_position k (ids L) j ≡ j
  assign_other_row j m h = placed-other at_position k (ids L) j (λ n.
      let (r, rm, e) = map-In (λ (x : ScheduledJob). x.id) L j.id n in
      let s = q.sound r rm in
      let same = same_row jobs j r u m s.0 e in
      false≢true (sym h ∙ ap (in_set immediate) same ∙ s.1))

  -- The rows outside the queue stay as they are.
  pub keep_if-assign :
      (p : ScheduledJob → Bool)
      → ((i : ℕ) (j : ScheduledJob) → p (at_position i j) ≡ p j)
      → ((j : ScheduledJob) → p j ≡ true → in_set immediate j ≡ false)
      → keep_if p (assign k (ids L) jobs) ≡ keep_if p jobs
  keep_if-assign p stable apart =
      ap (keep_if p) (assign-map k (ids L) jobs)
      ∙ keep_if-map p (placed at_position k (ids L)) jobs
          (placed-keeps at_position p stable k (ids L))
      ∙ map-cong_In (placed at_position k (ids L)) (λ j. j) (keep_if p jobs)
          (λ j m. let n = keep_if-In p jobs j m in assign_other_row j n.0 (apart j n.1))
      ∙ map-id (keep_if p jobs)

  pub queued_rows-assign_nightly :
      queued_rows nightly (assign k (ids L) jobs) ≡ queued_rows nightly jobs
  unfolding queued_rows
  queued_rows-assign_nightly =
      ap order_rows (keep_if-assign (in_set nightly) (λ i j. refl) (λ j h. ground arith))

  -- Nothing but positions is written.
  pub unplaced-assign : map (at_position 0) (assign k (ids L) jobs) ≡ map (at_position 0) jobs
  unplaced-assign =
      ap (map (at_position 0)) (assign-map k (ids L) jobs)
      ∙ map-map (at_position 0) (placed at_position k (ids L)) jobs
      ∙ map-cong_In (λ j. at_position 0 (placed at_position k (ids L) j)) (at_position 0) jobs
          (λ j m. placed-keeps at_position (at_position 0) (λ i x. refl) k (ids L) j)

pub compact_positions-assign :
    (jobs : Jobs)
    → UniqueIds jobs
    → compact_positions jobs ≡ assign 1 (ids (queued_rows immediate jobs)) jobs
unfolding compact_positions
compact_positions-assign jobs u =
    renumber-assign 1 (queued_rows immediate jobs) jobs (queued_rows-UniqueIds immediate jobs u)
      (λ j r m n e.
        ap (λ (x : ScheduledJob). x.position)
          (same_row jobs j r u m (queued_rows-In immediate jobs r n).0 e))

pub compact_positions-UniqueIds :
    (jobs : Jobs) → UniqueIds jobs → UniqueIds (compact_positions jobs)
compact_positions-UniqueIds jobs u =
    rw (compact_positions-assign jobs u)
      (assign-UniqueIds 1 (queued_rows immediate jobs) jobs u (queued_rows-IsQueue jobs u))

pub queued_rows-compact_nightly :
    (jobs : Jobs)
    → UniqueIds jobs
    → queued_rows nightly (compact_positions jobs) ≡ queued_rows nightly jobs
queued_rows-compact_nightly jobs u =
    rw (compact_positions-assign jobs u) (
      queued_rows-assign_nightly 1 (queued_rows immediate jobs) jobs u (queued_rows-IsQueue jobs u))

-- On a table with unique ids, `compact_positions` keeps the order of the immediate queue, gives its
-- rows the positions 1 to n, and leaves the rows outside the queue and every column but the position
-- as they are.
pub compact_positions_lem :
    (jobs : Jobs)
    → UniqueIds jobs
    → (queued_positions immediate (compact_positions jobs) ≡ queued_positions immediate jobs)
      × (map (λ j. j.position) (queued_rows immediate (compact_positions jobs))
          ≡ count_up 1 (length (queued_rows immediate jobs)))
      × (keep_if (λ j. not (in_set immediate j)) (compact_positions jobs)
          ≡ keep_if (λ j. not (in_set immediate j)) jobs)
      × (map (at_position 0) (compact_positions jobs) ≡ map (at_position 0) jobs)
unfolding queued_positions
compact_positions_lem jobs u =
    let L = queued_rows immediate jobs in
    let q = queued_rows-IsQueue jobs u in
    rw (compact_positions-assign jobs u) (
      ap ids (queued_rows-assign 1 L jobs u q) ∙ ids-numbered at_position at_position-Writes 1 L,
      ap (map (λ j. j.position)) (queued_rows-assign 1 L jobs u q)
          ∙ positions-numbered at_position at_position-Writes 1 L,
      keep_if-assign 1 L jobs u q (λ j. not (in_set immediate j)) (λ i j. refl)
          (λ j h. ground arith),
      unplaced-assign 1 L jobs u q,
    )
