-- ===== src/Scheduling/Promote.antt =====
-- `promote_nightly` of app/services/scheduling.py.
use mathlib.Core.List.{map-append}
use mathlib.Core.Bool.{false≢true}
use gitlab_reviewer.Prelude.{
  ℕ, ◌+◌, true, false, ◌≡◌, refl, sym, ap, subst, ◌∙◌, inl, inr, [], ◌∷◌, ◌++◌, map, arith,
  Bool-cases, In, map-In, In-map, Pairwise-append, In-append, In-append_left, In-append_right,
}
use gitlab_reviewer.Models.{immediate, nightly, ScheduledJob, is_queued}
use gitlab_reviewer.Table.{Jobs, in_set, queued_rows, queued_positions, list_nightly, next_position}
use gitlab_reviewer.Table.Order.{Before, UniqueIds}
use gitlab_reviewer.Table.Placed.{
  ids, placed, numbered, placed-other, placed-In-numbered, numbered-In, numbered-above,
  numbered-Before, ids-numbered, placed-UniqueIds,
}
use gitlab_reviewer.Table.Rows.{
  same_row, queued_rows-In, In-queued_rows, queued_rows-Before, queued_rows-UniqueIds,
  queued_rows_unique,
}
use gitlab_reviewer.Table.Join.{next_position-above, Before-of_lt}
use gitlab_reviewer.Scheduling.{promote_nightly, moved_to}
use gitlab_reviewer.Scheduling.Loops.{moved_to-Writes, promote-map}

abbrev to_queue : ℕ → ℕ → ScheduledJob → ScheduledJob
to_queue now p j = moved_to immediate p now j

module _ (now : ℕ) where
  numbered-immediate :
      (k : ℕ) (L : Jobs)
      → ((a : ScheduledJob) → In a L → is_queued a.status ≡ true)
      → (a : ScheduledJob) → In a (numbered (to_queue now) k L)
      → in_set immediate a ≡ true
  unfolding numbered
  numbered-immediate k [] h a m = absurd m
  numbered-immediate k (l ∷ L) h a (inl e) =
      subst (λ x. in_set immediate x ≡ true) (sym e) (h l (inl refl))
  numbered-immediate k (l ∷ L) h a (inr m) = numbered-immediate (k + 1) L (λ b n. h b (inr n)) a m

module _ (now : ℕ) (jobs : Jobs) (u : UniqueIds jobs) where
  abbrev base : ℕ
  base = next_position immediate jobs

  abbrev night_rows : Jobs
  night_rows = queued_rows nightly jobs

  night_rows-UniqueIds : UniqueIds night_rows
  night_rows-UniqueIds = queued_rows-UniqueIds nightly jobs u

  abbrev moved : ScheduledJob → ScheduledJob
  moved = placed (to_queue now) base (ids night_rows)

  -- A row outside the nightly set stays.
  moved_other : (j : ScheduledJob) → In j jobs → in_set nightly j ≡ false → moved j ≡ j
  moved_other j m h = placed-other (to_queue now) base (ids night_rows) j (λ n.
      let (r, k, e) = map-In (λ (x : ScheduledJob). x.id) night_rows j.id n in
      let q = queued_rows-In nightly jobs r k in
      false≢true (sym h ∙ ap (in_set nightly) (same_row jobs j r u m q.0 e) ∙ q.1))

  moved-In :
      (j : ScheduledJob)
      → In j jobs
      → in_set nightly j ≡ true
      → In (moved j) (numbered (to_queue now) base night_rows)
  moved-In j m h =
      placed-In-numbered (to_queue now) (moved_to-Writes now) base night_rows j night_rows-UniqueIds
        (In-queued_rows nightly jobs j m h)

  moved-immediate :
      (a : ScheduledJob)
      → In a (numbered (to_queue now) base night_rows)
      → in_set immediate a ≡ true
  moved-immediate =
      numbered-immediate now base night_rows
        (λ a m. let q = queued_rows-In nightly jobs a m in ground arith)

  moved_rows-UniqueIds : UniqueIds (map moved jobs)
  moved_rows-UniqueIds =
      placed-UniqueIds (to_queue now) (moved_to-Writes now) base (ids night_rows) jobs u

  moved_queue :
      queued_rows immediate (map moved jobs)
      ≡ queued_rows immediate jobs ++ numbered (to_queue now) base night_rows
  moved_queue =
      let Q = queued_rows immediate jobs in
      let M = numbered (to_queue now) base night_rows in
      queued_rows_unique immediate (map moved jobs) (Q ++ M) moved_rows-UniqueIds
        (Pairwise-append Before Q M (queued_rows-Before immediate jobs u)
          (numbered-Before (to_queue now) (moved_to-Writes now) base night_rows)
          (λ a b m n.
            let low = next_position-above immediate jobs a m in
            let high = numbered-above (to_queue now) (moved_to-Writes now) base night_rows b n in
            Before-of_lt a b (omega arith)))
        (λ a m s.
          let (j, k, e) = map-In moved jobs a m in
          elim (Bool-cases (in_set nightly j)) [
            | inl h ↦ In-append_right Q M a (subst (λ x. In x M) (sym e) (moved-In j k h))
            | inr h ↦
                let p : j ≡ a = sym (e ∙ moved_other j k h) in
                In-append_left Q M a (
                  subst (λ x. In x Q) p
                    (In-queued_rows immediate jobs j k
                      (subst (λ x. in_set immediate x ≡ true) (sym p) s)))
          ])
        (λ a m. elim (In-append Q M a m) [
          | inl k ↦
              let q = queued_rows-In immediate jobs a k in
              (
                subst (λ x. In x (map moved jobs)) (moved_other a q.0 (ground (arith, q.1)))
                    (In-map moved jobs a q.0),
                q.1,
              )
          | inr k ↦
              let (j, n, e) =
                numbered-In (to_queue now) (moved_to-Writes now) base night_rows a
                  night_rows-UniqueIds k in
              let q = queued_rows-In nightly jobs j n in
              (
                subst (λ x. In x (map moved jobs)) (sym e) (In-map moved jobs j q.0),
                moved-immediate a k,
              )
        ])

  moved_none : queued_rows nightly (map moved jobs) ≡ []
  moved_none =
      queued_rows_unique nightly (map moved jobs) [] moved_rows-UniqueIds tt
        (λ a m s.
          let (j, k, e) = map-In moved jobs a m in
          elim (Bool-cases (in_set nightly j)) [
            | inl h ↦
                let i = moved-immediate (moved j) (moved-In j k h) in
                let s' : in_set nightly (moved j) ≡ true =
                  subst (λ x. in_set nightly x ≡ true) e s in
                absurd (one_set (moved j) i s')
            | inr h ↦ false≢true (sym h ∙ ap (in_set nightly) (sym (e ∙ moved_other j k h)) ∙ s)
          ])
        (λ a m. absurd m)
    where
      one_set : (a : ScheduledJob) → in_set immediate a ≡ true → in_set nightly a ≡ true → ⊥
      one_set a p q = ground arith

  -- On a table with unique ids, `promote_nightly` appends the nightly jobs, in their order and with
  -- fresh positions, to the immediate queue, which stays as it was, and no nightly job is left.
  pub promote_nightly_lem :
      (queued_rows immediate (promote_nightly now jobs)
        ≡ queued_rows immediate jobs
          ++ numbered
              (λ p. moved_to immediate p now)
              (next_position immediate jobs)
              (queued_rows nightly jobs))
      × (queued_positions immediate (promote_nightly now jobs)
          ≡ queued_positions immediate jobs ++ queued_positions nightly jobs)
      × (queued_rows nightly (promote_nightly now jobs) ≡ [])
  unfolding promote_nightly list_nightly next_position queued_positions
  promote_nightly_lem =
      let e = promote-map base now night_rows jobs in
      let rows = ap (queued_rows immediate) e ∙ moved_queue in
      (
        rows,
        ap ids rows
            ∙ map-append (λ (j : ScheduledJob). j.id) (queued_rows immediate jobs)
                (numbered (to_queue now) base night_rows)
            ∙ ap (◌++◌ (ids (queued_rows immediate jobs)))
                (ids-numbered (to_queue now) (moved_to-Writes now) base night_rows),
        ap (queued_rows nightly) e ∙ moved_none,
      )

  pub promote_nightly-UniqueIds : UniqueIds (promote_nightly now jobs)
  unfolding promote_nightly list_nightly next_position
  promote_nightly-UniqueIds =
      subst UniqueIds (sym (promote-map base now night_rows jobs)) moved_rows-UniqueIds
