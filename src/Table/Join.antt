-- ===== src/Table/Join.antt =====
-- How the queries of app/services/scheduling.py see a row that joins a set at its end: an INSERT, or
-- an UPDATE that moves a row in.
use mathlib.Core.List.{append-nil}
use mathlib.Core.Bool.{false≢true}
use gitlab_reviewer.Prelude.{
  ℕ, ◌≤◌, ◌<◌, true, false, ◌≡◌, sym, ap, subst, ◌∙◌, ◌≢◌, inl, inr, [], ◌∷◌, ◌++◌, map, arith,
  ◌==◌, ==_iff, ==_self, if◌then◌else◌, Bool-cases, In, All, Pairwise, All→at, keep_if, In-keep_if,
  map-In, In-map, Pairwise-append, Pairwise-map, In-append, In-append_left, In-append_right,
  keep_if-append,
}
use gitlab_reviewer.Models.{ScheduleType, ScheduledJob}
use gitlab_reviewer.Table.{
  Jobs, in_set, order_rows, queued_rows, max_position, or_zero, next_position, update_row,
}
use gitlab_reviewer.Table.Order.{Before, OtherId, UniqueIds}
use gitlab_reviewer.Table.Rows.{
  same_row, queued_rows-In, In-queued_rows, queued_rows-Before, queued_rows_unique,
}

pub max_position-bound :
    (js : Jobs) (a : ScheduledJob) → In a js → a.position ≤ or_zero (max_position js)
unfolding max_position
max_position-bound [] a m = absurd m
max_position-bound (j ∷ js) a (inl e) = ground (arith, ap (λ (x : ScheduledJob). x.position) e)
max_position-bound (j ∷ js) a (inr m) = ground (arith, max_position-bound js a m)

pub next_position-above :
    (t : ScheduleType) (jobs : Jobs) (a : ScheduledJob)
    → In a (queued_rows t jobs)
    → a.position < next_position t jobs
unfolding next_position
next_position-above t jobs a m =
    let n = queued_rows-In t jobs a m in
    omega
      (arith, max_position-bound (keep_if (in_set t) jobs) a (In-keep_if (in_set t) jobs a n.0 n.1))

pub next_position-pos : (t : ScheduleType) (jobs : Jobs) → 1 ≤ next_position t jobs
unfolding next_position
next_position-pos t jobs = omega arith

-- The id is no row's.
abbrev pub IsFresh : ℕ → Jobs → Type 0
IsFresh id jobs = All (λ (j : ScheduledJob). j.id ≢ id) jobs

pub Before-of_lt : (a b : ScheduledJob) → a.position < b.position → Before a b
Before-of_lt a b h = ground arith

append-Before :
    (rows : Jobs) (new : ScheduledJob)
    → Pairwise Before rows
    → ((a : ScheduledJob) → In a rows → a.position < new.position)
    → Pairwise Before (rows ++ new ∷ [])
append-Before rows new h above =
    Pairwise-append Before rows (new ∷ []) h (tt, tt)
      (λ a b m n. elim n [
        | inl e ↦ subst (Before a) (sym e) (Before-of_lt a new (above a m))
        | inr z ↦ absurd z
      ])

module _ (jobs : Jobs) (new : ScheduledJob) (u : UniqueIds jobs) (fresh : IsFresh new.id jobs) where
  pub insert-UniqueIds : UniqueIds (jobs ++ new ∷ [])
  insert-UniqueIds =
      Pairwise-append OtherId jobs (new ∷ []) u (tt, tt)
        (λ a b m n e. elim n [
          | inl q ↦
              All→at (λ (j : ScheduledJob). j.id ≢ new.id) jobs fresh a m
                (e ∙ ap (λ (j : ScheduledJob). j.id) q)
          | inr z ↦ z
        ])

  -- A row that is inserted behind its set is last in it.
  pub queued_rows-insert :
      (t : ScheduleType)
      → in_set t new ≡ true
      → ((a : ScheduledJob) → In a (queued_rows t jobs) → a.position < new.position)
      → queued_rows t (jobs ++ new ∷ []) ≡ queued_rows t jobs ++ new ∷ []
  queued_rows-insert t h above =
      queued_rows_unique t (jobs ++ new ∷ []) (queued_rows t jobs ++ new ∷ []) insert-UniqueIds
        (append-Before (queued_rows t jobs) new (queued_rows-Before t jobs u) above)
        (λ a m s. elim (In-append jobs (new ∷ []) a m) [
          | inl k ↦ In-append_left (queued_rows t jobs) (new ∷ []) a (In-queued_rows t jobs a k s)
          | inr k ↦ In-append_right (queued_rows t jobs) (new ∷ []) a k
        ])
        (λ a m. elim (In-append (queued_rows t jobs) (new ∷ []) a m) [
          | inl k ↦ let n = queued_rows-In t jobs a k in (In-append_left jobs (new ∷ []) a n.0, n.1)
          | inr (inl e) ↦
              (In-append_right jobs (new ∷ []) a (inl e), subst (λ x. in_set t x ≡ true) (sym e) h)
          | inr (inr z) ↦ absurd z
        ])

  pub queued_rows-insert_outside :
      (t : ScheduleType)
      → in_set t new ≡ false
      → queued_rows t (jobs ++ new ∷ []) ≡ queued_rows t jobs
  unfolding queued_rows
  queued_rows-insert_outside t h =
      ap order_rows
        (keep_if-append (in_set t) jobs (new ∷ []) ∙ rw h (append-nil (keep_if (in_set t) jobs)))

module _ (jobs : Jobs) (u : UniqueIds jobs) (f : ScheduledJob → ScheduledJob)
    (same_id : (j : ScheduledJob) → (f j).id ≡ j.id) where
  pub update_row-UniqueIds : (i : ℕ) → UniqueIds (update_row i f jobs)
  unfolding update_row
  update_row-UniqueIds i =
      Pairwise-map OtherId OtherId (λ j. if j.id == i then f j else j) jobs
        (λ a b m n h e. h (sym (kept i a) ∙ e ∙ kept i b)) u
    where
      kept : (i : ℕ) (j : ScheduledJob) → (if j.id == i then f j else j).id ≡ j.id
      kept i j = elim (Bool-cases (j.id == i)) [ inl t ↦ rw t (same_id j) | inr e ↦ rw e ]

  module _ (t : ScheduleType) (job : ScheduledJob) (m : In job jobs) (was : in_set t job ≡ false)
      (now_in : in_set t (f job) ≡ true) where
    update_row-In :
        (a : ScheduledJob)
        → In a (update_row job.id f jobs)
        → in_set t a ≡ true
        → In a (queued_rows t jobs ++ f job ∷ [])
    unfolding update_row
    update_row-In a n s =
        let (j, k, e) = map-In (λ (x : ScheduledJob). if x.id == job.id then f x else x) jobs a n in
        elim (Bool-cases (j.id == job.id)) [
          | inl h ↦
              let same = same_row jobs j job u k m ((==_iff j.id job.id).0 h) in
              let p : a ≡ f j = rw h at e in
              In-append_right (queued_rows t jobs) (f job ∷ []) a (inl (p ∙ ap f same))
          | inr h ↦
              let p : a ≡ j = rw h at e in
              In-append_left (queued_rows t jobs) (f job ∷ []) a
                (In-queued_rows t jobs a (subst (λ x. In x jobs) (sym p) k) s)
        ]

    In-update_row_other :
        (a : ScheduledJob) → In a (queued_rows t jobs) → In a (update_row job.id f jobs)
    unfolding update_row
    In-update_row_other a n =
        let q = queued_rows-In t jobs a n in
        elim (Bool-cases (a.id == job.id)) [
          | inl h ↦
              let same = same_row jobs a job u q.0 m ((==_iff a.id job.id).0 h) in
              absurd (false≢true (sym was ∙ ap (in_set t) (sym same) ∙ q.1))
          | inr h ↦
              subst (λ x. In x (map (λ j. if j.id == job.id then f j else j) jobs)) (rw h)
                (In-map (λ (x : ScheduledJob). if x.id == job.id then f x else x) jobs a q.0)
        ]

    In-update_row_self : In (f job) (update_row job.id f jobs)
    unfolding update_row
    In-update_row_self =
        subst (λ x. In x (map (λ j. if j.id == job.id then f j else j) jobs)) (rw (==_self job.id))
          (In-map (λ (x : ScheduledJob). if x.id == job.id then f x else x) jobs job m)

    -- A row that an UPDATE moves behind a set is last in it.
    pub queued_rows-update_row_join :
        ((a : ScheduledJob) → In a (queued_rows t jobs) → a.position < (f job).position)
        → queued_rows t (update_row job.id f jobs) ≡ queued_rows t jobs ++ f job ∷ []
    queued_rows-update_row_join above =
        queued_rows_unique t (update_row job.id f jobs) (queued_rows t jobs ++ f job ∷ [])
          (update_row-UniqueIds job.id)
          (append-Before (queued_rows t jobs) (f job) (queued_rows-Before t jobs u) above)
          update_row-In
          (λ a n. elim (In-append (queued_rows t jobs) (f job ∷ []) a n) [
            | inl k ↦ (In-update_row_other a k, (queued_rows-In t jobs a k).1)
            | inr (inl e) ↦ (
              subst (λ x. In x (update_row job.id f jobs)) (sym e) In-update_row_self,
              subst (λ x. in_set t x ≡ true) (sym e) now_in,
            )
            | inr (inr z) ↦ absurd z
          ])
