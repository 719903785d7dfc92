-- ===== src/Table/Rows.antt =====
-- The rows that a query of app/services/scheduling.py selects: members, keys, and what an UPDATE
-- leaves alone.
use gitlab_reviewer.Prelude.{
  ℕ, Bool, true, false, not, ◌≡◌, refl, sym, ap, subst, ◌∙◌, inl, inr, [], ◌∷◌, ◌==◌, In, Pairwise,
  All→at, keep_if, keep_if-update_out, keep_if-update_outside, keep_if-In, In-keep_if, Pairwise-imp,
  Pairwise-keep_if, ==_iff,
}
use gitlab_reviewer.Models.{ScheduleType, ScheduledJob}
use gitlab_reviewer.Table.{Jobs, in_set, order_rows, queued_rows, queued_positions, update_row}
use gitlab_reviewer.Table.Order.{
  Before, OtherId, UniqueIds, order_rows-In, In-order_rows, order_rows-Before, order_rows_unique,
  order_rows-keep_if, Before-irrefl,
}
use gitlab_reviewer.Table.Placed.{ids}

-- The primary key finds one row.
pub same_row :
    (jobs : Jobs) (a b : ScheduledJob)
    → UniqueIds jobs
    → In a jobs
    → In b jobs
    → a.id ≡ b.id
    → a ≡ b
same_row [] a b u m n e = absurd m
same_row (j ∷ js) a b u (inl p) (inl q) e = p ∙ sym q
same_row (j ∷ js) a b u (inl p) (inr n) e =
    absurd (All→at (OtherId j) js u.0 b n (ap (λ (x : ScheduledJob). x.id) (sym p) ∙ e))
same_row (j ∷ js) a b u (inr m) (inl q) e =
    absurd (All→at (OtherId j) js u.0 a m (ap (λ (x : ScheduledJob). x.id) (sym q) ∙ sym e))
same_row (j ∷ js) a b u (inr m) (inr n) e = same_row js a b u.1 m n e

module _ (t : ScheduleType) (jobs : Jobs) where
  pub queued_rows-In :
      (a : ScheduledJob) → In a (queued_rows t jobs) → In a jobs × (in_set t a ≡ true)
  unfolding queued_rows
  queued_rows-In a m = keep_if-In (in_set t) jobs a (order_rows-In (keep_if (in_set t) jobs) a m)

  pub In-queued_rows :
      (a : ScheduledJob) → In a jobs → in_set t a ≡ true → In a (queued_rows t jobs)
  unfolding queued_rows
  In-queued_rows a m h =
      In-order_rows (keep_if (in_set t) jobs) a (In-keep_if (in_set t) jobs a m h)

  pub queued_rows-Before : UniqueIds jobs → Pairwise Before (queued_rows t jobs)
  unfolding queued_rows
  queued_rows-Before u =
      order_rows-Before (keep_if (in_set t) jobs) (Pairwise-keep_if OtherId (in_set t) jobs u)

  pub queued_rows-UniqueIds : UniqueIds jobs → UniqueIds (queued_rows t jobs)
  queued_rows-UniqueIds u =
      Pairwise-imp Before OtherId (queued_rows t jobs)
        (λ a b m n lt e.
          let q = same_row jobs a b u (queued_rows-In a m).0 (queued_rows-In b n).0 e in
          Before-irrefl b (subst (λ x. Before x b) q lt))
        (queued_rows-Before u)

  -- The rows in order that the query's WHERE selects are its answer.
  pub queued_rows_unique :
      (ys : Jobs)
      → UniqueIds jobs
      → Pairwise Before ys
      → ((a : ScheduledJob) → In a jobs → in_set t a ≡ true → In a ys)
      → ((a : ScheduledJob) → In a ys → In a jobs × (in_set t a ≡ true))
      → queued_rows t jobs ≡ ys
  unfolding queued_rows
  queued_rows_unique ys u h to from =
      order_rows_unique (keep_if (in_set t) jobs) ys (Pairwise-keep_if OtherId (in_set t) jobs u) h
        (λ a m. let n = keep_if-In (in_set t) jobs a m in to a n.0 n.1)
        (λ a m. let n = from a m in In-keep_if (in_set t) jobs a n.0 n.1)

  pub ids-queued_rows : ids (queued_rows t jobs) ≡ queued_positions t jobs
  unfolding queued_positions
  ids-queued_rows = refl

abbrev pub without : ℕ → ScheduledJob → Bool
without i j = not (j.id == i)

module _ (t : ScheduleType) (i : ℕ) (f : ScheduledJob → ScheduledJob) where
  -- A row that leaves the set leaves the rest of the set as it was.
  pub queued_rows-update_row_out :
      (jobs : Jobs)
      → UniqueIds jobs
      → ((j : ScheduledJob) → in_set t (f j) ≡ false)
      → queued_rows t (update_row i f jobs) ≡ keep_if (without i) (queued_rows t jobs)
  unfolding queued_rows update_row
  queued_rows-update_row_out jobs u out =
      ap order_rows (keep_if-update_out (in_set t) (λ (j : ScheduledJob). j.id == i) f jobs out)
      ∙ order_rows-keep_if (without i) (keep_if (in_set t) jobs)
          (Pairwise-keep_if OtherId (in_set t) jobs u)

  -- A row that is outside the set before and after is no part of its query.
  pub queued_rows-update_row_outside :
      (jobs : Jobs)
      → ((j : ScheduledJob) → in_set t (f j) ≡ false)
      → ((j : ScheduledJob) → In j jobs → j.id ≡ i → in_set t j ≡ false)
      → queued_rows t (update_row i f jobs) ≡ queued_rows t jobs
  unfolding queued_rows update_row
  queued_rows-update_row_outside jobs out was = ap order_rows (
      keep_if-update_outside (in_set t) (λ (j : ScheduledJob). j.id == i) f jobs out
        (λ a m h. was a m ((==_iff a.id i).0 h)))
