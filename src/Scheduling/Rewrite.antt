-- ===== src/Scheduling/Rewrite.antt =====
-- `_rewrite_positions` of app/services/scheduling.py: the rows of a list of ids, and what the table
-- is once positions are assigned in their order.
use gitlab_reviewer.Prelude.{
  ℕ, not, none, some, ◌≡◌, refl, sym, ap, ap₂, subst, ◌∙◌, inl, inr, List, [], ◌∷◌, map, arith,
  ◌==◌, Bool-cases, In, All→at, All-of, keep_if, ==_iff, length, count_up, In-map,
}
use gitlab_reviewer.Models.{immediate, nightly, ScheduledJob}
use gitlab_reviewer.Table.{Jobs, in_set, queued_rows, queued_positions, at_position, get_job}
use gitlab_reviewer.Table.Order.{OtherId, UniqueIds}
use gitlab_reviewer.Table.Placed.{ids, length-ids, ids-numbered, positions-numbered}
use gitlab_reviewer.Table.Rows.{same_row, queued_rows-In, In-queued_rows, queued_rows-UniqueIds}
use gitlab_reviewer.Scheduling.{assign}
use gitlab_reviewer.Scheduling.Loops.{at_position-Writes}
use gitlab_reviewer.Scheduling.Ids.{Distinct, Differ, Within}
use gitlab_reviewer.Scheduling.Compact.{
  IsQueue, queued_rows-assign, keep_if-assign, queued_rows-assign_nightly, unplaced-assign,
}

-- The row of an id that the list holds.
get_job-In :
    (i : ℕ) (Q : Jobs)
    → In i (ids Q)
    → (j : ScheduledJob) × (get_job i Q ≡ some j) × In j Q × (j.id ≡ i)
unfolding get_job
get_job-In i [] m = absurd m
get_job-In i (q ∷ Q) (inl e) = (q, rw ((==_iff q.id i).1 (sym e)), inl refl, sym e)
get_job-In i (q ∷ Q) (inr m) = elim (Bool-cases (q.id == i)) [
  | inl t ↦ (q, rw (t, get_job), inl refl, (==_iff q.id i).0 t)
  | inr f ↦ let (j, g, n, e) = get_job-In i Q m in (j, rw (f, get_job) g, inr n, e)
]

-- The rows of the ids, in the order of the ids.
rows_at : List ℕ → Jobs → Jobs
rows_at [] Q = []
rows_at (i ∷ is) Q =
    let rest = rows_at is Q in elim (get_job i Q) [ none ↦ rest | some j ↦ j ∷ rest ]

ids-rows_at : (is : List ℕ) (Q : Jobs) → Within is (ids Q) → ids (rows_at is Q) ≡ is
unfolding rows_at
ids-rows_at [] Q h = refl
ids-rows_at (i ∷ is) Q h =
    let (j, g, n, e) = get_job-In i Q (h i (inl refl)) in
    rw (g, rows_at) (ap₂ ◌∷◌ e (ids-rows_at is Q (λ k m. h k (inr m))))

rows_at-In :
    (is : List ℕ) (Q : Jobs) → Within is (ids Q) → (a : ScheduledJob) → In a (rows_at is Q) → In a Q
unfolding rows_at
rows_at-In [] Q h a m = absurd m
rows_at-In (i ∷ is) Q h a m =
    let (j, g, n, e) = get_job-In i Q (h i (inl refl)) in
    elim (rw (g, rows_at) at m) [
      | inl p ↦ subst (λ x. In x Q) (sym p) n
      | inr k ↦ rows_at-In is Q (λ x y. h x (inr y)) a k
    ]

In-rows_at :
    (is : List ℕ) (Q : Jobs)
    → Within is (ids Q)
    → UniqueIds Q
    → (a : ScheduledJob) → In a Q
    → In a.id is
    → In a (rows_at is Q)
unfolding rows_at
In-rows_at [] Q h u a m n = absurd n
In-rows_at (i ∷ is) Q h u a m (inl p) =
    let (j, g, k, e) = get_job-In i Q (h i (inl refl)) in
    rw (g, rows_at) (inl (same_row Q a j u m k (p ∙ sym e)))
In-rows_at (i ∷ is) Q h u a m (inr n) =
    let (j, g, k, e) = get_job-In i Q (h i (inl refl)) in
    rw (g, rows_at) (inr (In-rows_at is Q (λ x y. h x (inr y)) u a m n))

pub UniqueIds-of_ids : (L : Jobs) → Distinct (ids L) → UniqueIds L
UniqueIds-of_ids [] d = tt
UniqueIds-of_ids (l ∷ L) d = (
  All-of (OtherId l) L
      (λ a m. All→at (Differ l.id) (ids L) d.0 a.id (In-map (λ (x : ScheduledJob). x.id) L a m)),
  UniqueIds-of_ids L d.1,
)

-- Ids that are exactly those of the queue name its rows.
rows_at-IsQueue :
    (is : List ℕ) (jobs : Jobs)
    → UniqueIds jobs
    → Distinct is
    → Within is (queued_positions immediate jobs)
    → Within (queued_positions immediate jobs) is
    → IsQueue (rows_at is (queued_rows immediate jobs)) jobs
unfolding queued_positions
rows_at-IsQueue is jobs u d to from =
    let Q = queued_rows immediate jobs in
    record {
      unique = UniqueIds-of_ids (rows_at is Q) (subst Distinct (sym (ids-rows_at is Q to)) d);
      sound = λ a m. queued_rows-In immediate jobs a (rows_at-In is Q to a m);
      complete = λ a m h.
          let n = In-queued_rows immediate jobs a m h in
          In-rows_at is Q to (queued_rows-UniqueIds immediate jobs u) a n
            (from a.id (In-map (λ (x : ScheduledJob). x.id) Q a n));
    }

-- What a successful rewrite leaves: the given order, positions 1 to n, all else as it was.
pub record IsRewritten (is : List ℕ) (jobs jobs' : Jobs) : Type 0 where
  pub order : queued_positions immediate jobs' ≡ is
  pub dense : map (λ j. j.position) (queued_rows immediate jobs') ≡ count_up 1 (length is)
  pub outside :
      keep_if (λ j. not (in_set immediate j)) jobs' ≡ keep_if (λ j. not (in_set immediate j)) jobs
  pub others : queued_rows nightly jobs' ≡ queued_rows nightly jobs
  pub columns : map (at_position 0) jobs' ≡ map (at_position 0) jobs

pub assign-IsRewritten :
    (is : List ℕ) (jobs : Jobs)
    → UniqueIds jobs
    → Distinct is
    → Within is (queued_positions immediate jobs)
    → Within (queued_positions immediate jobs) is
    → IsRewritten is jobs (assign 1 is jobs)
unfolding queued_positions
assign-IsRewritten is jobs u d to from =
    let L = rows_at is (queued_rows immediate jobs) in
    let q = rows_at-IsQueue is jobs u d to from in
    let e : ids L ≡ is = ids-rows_at is (queued_rows immediate jobs) to in
    subst (λ x. IsRewritten x jobs (assign 1 x jobs)) e
      (record {
        order =
            ap ids (queued_rows-assign 1 L jobs u q)
            ∙ ids-numbered at_position at_position-Writes 1 L;
        dense =
            ap (map (λ j. j.position)) (queued_rows-assign 1 L jobs u q)
            ∙ positions-numbered at_position at_position-Writes 1 L
            ∙ ap (count_up 1) (sym (length-ids L));
        outside =
            keep_if-assign 1 L jobs u q (λ j. not (in_set immediate j)) (λ i j. refl)
              (λ j h. ground arith);
        others = queued_rows-assign_nightly 1 L jobs u q;
        columns = unplaced-assign 1 L jobs u q;
      })
