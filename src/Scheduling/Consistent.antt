-- ===== src/Scheduling/Consistent.antt =====
-- The invariant of the queue of app/services/scheduling.py: ids are unique, and the positions of each
-- set are positive and unique. Here are the shapes that the operations leave it in.
use mathlib.Core.List.{map-map}
use gitlab_reviewer.Prelude.{
  ℕ, zero, suc, ◌+◌, ◌≤◌, ◌<◌, Bool, false, ◌≡◌, refl, sym, ap, subst, ◌∙◌, inl, inr, List, [], ◌∷◌,
  ◌++◌, map, arith, In, Pairwise, All-of, keep_if, keep_if-In, In-map, count_up, length,
  Pairwise-keep_if, Pairwise-append, Pairwise-map, In-append,
}
use gitlab_reviewer.Models.{ScheduleType, immediate, nightly, ScheduledJob}
use gitlab_reviewer.Table.{Jobs, in_set, queued_rows, next_position, update_row, at_position}
use gitlab_reviewer.Table.Order.{OtherId, UniqueIds}
use gitlab_reviewer.Table.Placed.{ids, Writes, numbered, positions-numbered}
use gitlab_reviewer.Table.Rows.{queued_rows-update_row_out, without}
use gitlab_reviewer.Table.Join.{update_row-UniqueIds, next_position-above}
use gitlab_reviewer.Scheduling.Ids.{Distinct, Differ}
use gitlab_reviewer.Scheduling.Rewrite.{IsRewritten, UniqueIds-of_ids}

abbrev pub Below : ScheduledJob → ScheduledJob → Type 0
Below a b = a.position < b.position

-- Rows in order whose positions are positive and all different.
pub record IsSpread (rows : Jobs) : Type 0 where
  pub rising : Pairwise Below rows
  pub positive : (a : ScheduledJob) → In a rows → 1 ≤ a.position

pub record IsConsistent (jobs : Jobs) : Type 0 where
  pub unique_ids : UniqueIds jobs
  pub now_spread : IsSpread (queued_rows immediate jobs)
  pub night_spread : IsSpread (queued_rows nightly jobs)

pub IsSpread-nil : IsSpread []
IsSpread-nil = record { rising = tt; positive = λ a m. absurd m }

pub IsSpread-keep_if :
    (p : ScheduledJob → Bool) (rows : Jobs) → IsSpread rows → IsSpread (keep_if p rows)
IsSpread-keep_if p rows s = record {
  rising = Pairwise-keep_if Below p rows s.rising;
  positive = λ a m. s.positive a (keep_if-In p rows a m).0;
}

pub IsSpread-append :
    (xs ys : Jobs)
    → IsSpread xs
    → IsSpread ys
    → ((a b : ScheduledJob) → In a xs → In b ys → Below a b)
    → IsSpread (xs ++ ys)
IsSpread-append xs ys s t h = record {
  rising = Pairwise-append Below xs ys s.rising t.rising h;
  positive = λ a m. elim (In-append xs ys a m) [ inl k ↦ s.positive a k | inr k ↦ t.positive a k ];
}

-- One row more, at the next position of the set.
pub IsSpread-next :
    (t : ScheduleType) (jobs : Jobs) (new : ScheduledJob)
    → IsSpread (queued_rows t jobs)
    → new.position ≡ next_position t jobs
    → IsSpread (queued_rows t jobs ++ new ∷ [])
unfolding next_position
IsSpread-next t jobs new s e =
    IsSpread-append (queued_rows t jobs) (new ∷ []) s
      (record {
        rising = (tt, tt);
        positive = λ a m. elim m [
          | inl q ↦ omega (arith, ap (λ (x : ScheduledJob). x.position) q)
          | inr z ↦ absurd z
        ];
      })
      (λ a b m n. elim n [
        | inl q ↦
            omega (arith, ap (λ (x : ScheduledJob). x.position) q, next_position-above t jobs a m)
        | inr z ↦ absurd z
      ])

count_up-In : (k n p : ℕ) → In p (count_up k n) → k ≤ p
count_up-In k zero p m = absurd m
count_up-In k (suc n) p (inl e) = omega arith
count_up-In k (suc n) p (inr m) = omega (arith, count_up-In (k + 1) n p m)

-- Positions that count up are spread.
pub IsSpread-dense :
    (k : ℕ) (rows : Jobs)
    → 1 ≤ k
    → map (λ j. j.position) rows ≡ count_up k (length rows)
    → IsSpread rows
IsSpread-dense k [] h e = IsSpread-nil
IsSpread-dense k (r ∷ rows) h e =
    let here : r.position ≡ k = cc in
    let tail : map (λ j. j.position) rows ≡ count_up (k + 1) (length rows) = cc in
    let later : (a : ScheduledJob) → In a rows → k < a.position = λ a m.
      let above =
        count_up-In (k + 1) (length rows) a.position
          (subst (In a.position) tail (In-map (λ (j : ScheduledJob). j.position) rows a m)) in
      omega (arith, above) in
    let rest = IsSpread-dense (k + 1) rows (omega arith) tail in
    record {
      rising = (All-of (Below r) rows (λ a m. omega (arith, later a m)), rest.rising);
      positive = λ a m. elim m [
        | inl q ↦ omega (arith, ap (λ (x : ScheduledJob). x.position) q)
        | inr n ↦ omega (arith, later a n)
      ];
    }

length-of_map : (f : ScheduledJob → ℕ) (rows : Jobs) → length (map f rows) ≡ length rows
length-of_map f [] = refl
length-of_map f (r ∷ rows) = ap suc (length-of_map f rows)

length-count_up : (k n : ℕ) → length (count_up k n) ≡ n
length-count_up k zero = refl
length-count_up k (suc n) = ap suc (length-count_up (k + 1) n)

-- The same, where the number of rows is given.
pub IsSpread-counted :
    (n : ℕ) (rows : Jobs) → map (λ j. j.position) rows ≡ count_up 1 n → IsSpread rows
IsSpread-counted n rows e =
    let same : n ≡ length rows =
      sym (length-count_up 1 n) ∙ ap length (sym e) ∙ length-of_map (λ j. j.position) rows in
    IsSpread-dense 1 rows (omega arith) (e ∙ ap (count_up 1) same)

ids-at_position : (jobs : Jobs) → ids (map (at_position 0) jobs) ≡ ids jobs
ids-at_position jobs = map-map (λ (j : ScheduledJob). j.id) (at_position 0) jobs

pub UniqueIds-columns :
    (jobs jobs' : Jobs)
    → UniqueIds jobs
    → map (at_position 0) jobs' ≡ map (at_position 0) jobs
    → UniqueIds jobs'
UniqueIds-columns jobs jobs' u e =
    let same : ids jobs ≡ ids jobs' =
      sym (ids-at_position jobs) ∙ ap ids (sym e) ∙ ids-at_position jobs' in
    UniqueIds-of_ids jobs'
      (subst Distinct same (Pairwise-map OtherId Differ (λ j. j.id) jobs (λ a b m n h. h) u))

pub IsRewritten-IsConsistent :
    (is : List ℕ) (jobs jobs' : Jobs)
    → IsRewritten is jobs jobs'
    → IsConsistent jobs
    → IsConsistent jobs'
IsRewritten-IsConsistent is jobs jobs' r c = record {
  unique_ids = UniqueIds-columns jobs jobs' c.unique_ids r.columns;
  now_spread = IsSpread-counted (length is) (queued_rows immediate jobs') r.dense;
  night_spread = subst IsSpread (sym r.others) c.night_spread;
}

-- A row that leaves both sets.
pub leave-IsConsistent :
    (i : ℕ) (f : ScheduledJob → ScheduledJob) (jobs : Jobs)
    → ((j : ScheduledJob) → (f j).id ≡ j.id)
    → ((t : ScheduleType) (j : ScheduledJob) → in_set t (f j) ≡ false)
    → IsConsistent jobs
    → IsConsistent (update_row i f jobs)
leave-IsConsistent i f jobs s out c = record {
  unique_ids = update_row-UniqueIds jobs c.unique_ids f s i;
  now_spread =
      rw (queued_rows-update_row_out immediate i f jobs c.unique_ids (out immediate))
        (IsSpread-keep_if (without i) (queued_rows immediate jobs) c.now_spread);
  night_spread =
      rw (queued_rows-update_row_out nightly i f jobs c.unique_ids (out nightly))
        (IsSpread-keep_if (without i) (queued_rows nightly jobs) c.night_spread);
}

pub IsSpread-numbered :
    (f : ℕ → ScheduledJob → ScheduledJob)
    → Writes f
    → (k : ℕ) (L : Jobs) → 1 ≤ k
    → IsSpread (numbered f k L)
IsSpread-numbered f w k L h =
    let e = positions-numbered f w k L in
    let same : length L ≡ length (numbered f k L) =
      sym (length-count_up k (length L))
      ∙ ap length (sym e)
      ∙ length-of_map (λ j. j.position) (numbered f k L) in
    IsSpread-dense k (numbered f k L) h (e ∙ ap (count_up k) same)
