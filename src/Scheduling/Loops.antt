-- ===== src/Scheduling/Loops.antt =====
-- The loops of `_rewrite_positions`, `compact_positions` and `promote_nightly` as one function on
-- the row, and what the queries answer after them.
use mathlib.Core.List.{map-map}
use gitlab_reviewer.Prelude.{
  ℕ, ◌+◌, ◌≡◌, refl, sym, ap, ◌∙◌, inl, inr, List, [], ◌∷◌, map, arith, ◌==◌, if◌then◌else◌,
  Bool-cases, In, All→at, map-In, ==_iff, map-cong_In, map-id,
}
use gitlab_reviewer.Models.{immediate, ScheduledJob}
use gitlab_reviewer.Table.{Jobs, update_row, at_position}
use gitlab_reviewer.Table.Order.{OtherId, UniqueIds}
use gitlab_reviewer.Table.Placed.{ids, Writes, placed}
use gitlab_reviewer.Scheduling.{assign, renumber, promote, moved_to}

pub at_position-Writes : Writes at_position
at_position-Writes = record { same_id = λ k j. refl; at = λ k j. refl }

pub moved_to-Writes : (now : ℕ) → Writes (λ k. moved_to immediate k now)
moved_to-Writes now = record { same_id = λ k j. refl; at = λ k j. refl }

pub assign-map :
    (k : ℕ) (is : List ℕ) (jobs : Jobs) → assign k is jobs ≡ map (placed at_position k is) jobs
unfolding assign placed update_row
assign-map k [] jobs = sym (map-id jobs)
assign-map k (i ∷ is) jobs =
    assign-map (k + 1) is (update_row i (at_position k) jobs)
    ∙ map-map (placed at_position (k + 1) is)
        (λ (j : ScheduledJob). if j.id == i then at_position k j else j) jobs

pub promote-map :
    (k now : ℕ) (rs jobs : Jobs)
    → promote k now rs jobs ≡ map (placed (λ p. moved_to immediate p now) k (ids rs)) jobs
unfolding promote placed update_row
promote-map k now [] jobs = sym (map-id jobs)
promote-map k now (r ∷ rs) jobs =
    promote-map (k + 1) now rs (update_row r.id (moved_to immediate k now) jobs)
    ∙ map-map (placed (λ p. moved_to immediate p now) (k + 1) (ids rs))
        (λ (j : ScheduledJob). if j.id == r.id then moved_to immediate k now j else j) jobs

at_position_self : (k : ℕ) (j : ScheduledJob) → j.position ≡ k → at_position k j ≡ j
at_position_self k j h = ground arith

-- The rows that the loop holds are the table's rows.
abbrev pub Agrees : Jobs → Jobs → Type 0
Agrees rs jobs = (j r : ScheduledJob) → In j jobs → In r rs → j.id ≡ r.id → j.position ≡ r.position

update_row_self :
    (k : ℕ) (r : ScheduledJob) (rs jobs : Jobs)
    → Agrees (r ∷ rs) jobs
    → r.position ≡ k
    → update_row r.id (at_position k) jobs ≡ jobs
unfolding update_row
update_row_self k r rs jobs a e =
    map-cong_In (λ j. if j.id == r.id then at_position k j else j) (λ j. j) jobs
      (λ j m. elim (Bool-cases (j.id == r.id)) [
        | inl t ↦ rw t (at_position_self k j (a j r m (inl refl) ((==_iff j.id r.id).0 t) ∙ e))
        | inr f ↦ rw f
      ])
    ∙ map-id jobs

Agrees-update_row :
    (k : ℕ) (r : ScheduledJob) (rs jobs : Jobs)
    → UniqueIds (r ∷ rs)
    → Agrees (r ∷ rs) jobs
    → Agrees rs (update_row r.id (at_position k) jobs)
unfolding update_row
Agrees-update_row k r rs jobs u a j s m n e =
    let (i, mi, q) =
      map-In (λ (x : ScheduledJob). if x.id == r.id then at_position k x else x) jobs j m in
    elim (Bool-cases (i.id == r.id)) [
      | inl t ↦
          let p : j ≡ at_position k i = rw t at q in
          let same : r.id ≡ s.id =
            sym ((==_iff i.id r.id).0 t) ∙ sym (ap (λ (x : ScheduledJob). x.id) p) ∙ e in
          absurd (All→at (OtherId r) rs u.0 s n same)
      | inr f ↦
          let p : j ≡ i = rw f at q in
          ap (λ (x : ScheduledJob). x.position) p
          ∙ a i s mi (inr n) (sym (ap (λ (x : ScheduledJob). x.id) p) ∙ e)
    ]

pub renumber-assign :
    (k : ℕ) (rs jobs : Jobs)
    → UniqueIds rs
    → Agrees rs jobs
    → renumber k rs jobs ≡ assign k (ids rs) jobs
unfolding renumber assign
renumber-assign k [] jobs u a = refl
renumber-assign k (r ∷ rs) jobs u a = elim (Bool-cases (r.position == k)) [
  | inl t ↦
      rw (t, renumber)
        (renumber-assign (k + 1) rs jobs u.1 (λ j s m n e. a j s m (inr n) e)
          ∙ ap (assign (k + 1) (ids rs))
              (sym (update_row_self k r rs jobs a ((==_iff r.position k).0 t))))
  | inr f ↦
      rw (f, renumber)
        (renumber-assign (k + 1) rs (update_row r.id (at_position k) jobs) u.1
          (Agrees-update_row k r rs jobs u a))
]
