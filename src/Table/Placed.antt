-- ===== src/Table/Placed.antt =====
-- The loops of app/services/scheduling.py that write one row after the other, as one function on the
-- row: what a row is when the loop over the ids, counting from `k`, is over.
use gitlab_reviewer.Prelude.{
  ℕ, suc, ◌+◌, ◌≤◌, ◌<◌, ◌≡◌, refl, sym, ap, ap₂, subst, ◌∙◌, ◌≢◌, inl, inr, List, [], ◌∷◌, map,
  arith, ◌==◌, ==_iff, ==_self, if◌then◌else◌, Bool-cases, In, All, Pairwise, All→at, All-of,
  count_up, length, map-In, In-map, Pairwise-map,
}
use gitlab_reviewer.Models.{ScheduledJob}
use gitlab_reviewer.Table.{Jobs, order_rows}
use gitlab_reviewer.Table.Order.{Before, OtherId, UniqueIds, order_rows_unique}

abbrev pub ids : Jobs → List ℕ
ids jobs = map (λ j. j.id) jobs

pub length-ids : (L : Jobs) → length (ids L) ≡ length L
length-ids [] = refl
length-ids (l ∷ L) = ap suc (length-ids L)

-- `f k` writes a row so that its position is `k`.
pub record Writes (f : ℕ → ScheduledJob → ScheduledJob) : Type 0 where
  pub same_id : (k : ℕ) (j : ScheduledJob) → (f k j).id ≡ j.id
  pub at : (k : ℕ) (j : ScheduledJob) → (f k j).position ≡ k

module _ (f : ℕ → ScheduledJob → ScheduledJob) where
  unfoldable pub placed : ℕ → List ℕ → ScheduledJob → ScheduledJob
  placed k [] j = j
  placed k (i ∷ is) j = placed (k + 1) is (if j.id == i then f k j else j)

  unfoldable pub numbered : ℕ → Jobs → Jobs
  numbered k [] = []
  numbered k (j ∷ js) = f k j ∷ numbered (k + 1) js

  pub placed-other : (k : ℕ) (is : List ℕ) (j : ScheduledJob) → ¬ In j.id is → placed k is j ≡ j
  unfolding placed
  placed-other k [] j n = refl
  placed-other k (i ∷ is) j n = elim (Bool-cases (j.id == i)) [
    | inl t ↦ absurd (n (inl ((==_iff j.id i).0 t)))
    | inr e ↦ rw e (placed-other (k + 1) is j (λ m. n (inr m)))
  ]

module _ (f : ℕ → ScheduledJob → ScheduledJob) (w : Writes f) where
  pub placed-id : (k : ℕ) (is : List ℕ) (j : ScheduledJob) → (placed f k is j).id ≡ j.id
  unfolding placed
  placed-id k [] j = refl
  placed-id k (i ∷ is) j = elim (Bool-cases (j.id == i)) [
    | inl t ↦ rw (t, placed) (placed-id (k + 1) is (f k j) ∙ w.same_id k j)
    | inr e ↦ rw (e, placed) (placed-id (k + 1) is j)
  ]

  placed_head :
      (k : ℕ) (j : ScheduledJob) (is : List ℕ) → ¬ In j.id is → placed f k (j.id ∷ is) j ≡ f k j
  unfolding placed
  placed_head k j is n =
      rw (==_self j.id)
        (placed-other f (k + 1) is (f k j) (λ m. n (subst (λ i. In i is) (w.same_id k j) m)))

  placed_tail :
      (k i : ℕ) (is : List ℕ) (j : ScheduledJob)
      → j.id ≢ i
      → placed f k (i ∷ is) j ≡ placed f (k + 1) is j
  unfolding placed
  placed_tail k i is j n = elim (Bool-cases (j.id == i)) [
    | inl t ↦ absurd (n ((==_iff j.id i).0 t))
    | inr e ↦ rw e
  ]

  pub not-In-ids : (l : ScheduledJob) (L : Jobs) → All (OtherId l) L → ¬ In l.id (ids L)
  not-In-ids l L h m =
      let (a, n, e) = map-In (λ (j : ScheduledJob). j.id) L l.id m in All→at (OtherId l) L h a n e

  pub placed-In-numbered :
      (k : ℕ) (L : Jobs) (j : ScheduledJob)
      → UniqueIds L
      → In j L
      → In (placed f k (ids L) j) (numbered f k L)
  unfolding numbered
  placed-In-numbered k (l ∷ L) j u (inl e) =
      inl (ap (placed f k (ids (l ∷ L))) e ∙ placed_head k l (ids L) (not-In-ids l L u.0))
  placed-In-numbered k (l ∷ L) j u (inr m) = inr (
      subst (λ x. In x (numbered f (k + 1) L))
        (sym (placed_tail k l.id (ids L) j (λ e. All→at (OtherId l) L u.0 j m (sym e))))
        (placed-In-numbered (k + 1) L j u.1 m))
  placed-In-numbered k [] j u m = absurd m

  pub numbered-In :
      (k : ℕ) (L : Jobs) (a : ScheduledJob)
      → UniqueIds L
      → In a (numbered f k L)
      → (j : ScheduledJob) × In j L × (a ≡ placed f k (ids L) j)
  unfolding numbered
  numbered-In k [] a u m = absurd m
  numbered-In k (l ∷ L) a u (inl e) =
      (l, inl refl, e ∙ sym (placed_head k l (ids L) (not-In-ids l L u.0)))
  numbered-In k (l ∷ L) a u (inr m) =
      let (j, n, e) = numbered-In (k + 1) L a u.1 m in
      (j, inr n, e ∙ sym (placed_tail k l.id (ids L) j (λ q. All→at (OtherId l) L u.0 j n (sym q))))

  pub numbered-above :
      (k : ℕ) (L : Jobs) (a : ScheduledJob) → In a (numbered f k L) → k ≤ a.position
  unfolding numbered
  numbered-above k [] a m = absurd m
  numbered-above k (l ∷ L) a (inl e) =
      omega (arith, ap (λ (j : ScheduledJob). j.position) e, w.at k l)
  numbered-above k (l ∷ L) a (inr m) = omega (arith, numbered-above (k + 1) L a m)

  Before-of_lt : (a b : ScheduledJob) → a.position < b.position → Before a b
  Before-of_lt a b h = ground arith

  pub numbered-Before : (k : ℕ) (L : Jobs) → Pairwise Before (numbered f k L)
  unfolding numbered
  numbered-Before k [] = tt
  numbered-Before k (l ∷ L) = (
    All-of (Before (f k l)) (numbered f (k + 1) L)
        (λ a m. Before-of_lt (f k l) a (omega (arith, w.at k l, numbered-above (k + 1) L a m))),
    numbered-Before (k + 1) L,
  )

  pub placed-UniqueIds :
      (k : ℕ) (is : List ℕ) (Q : Jobs) → UniqueIds Q → UniqueIds (map (placed f k is) Q)
  placed-UniqueIds k is Q u =
      Pairwise-map OtherId OtherId (placed f k is) Q
        (λ a b m n h e. h (sym (placed-id k is a) ∙ e ∙ placed-id k is b)) u

  -- Rows that are written in the order of a list `L` of them are then read in that order.
  pub order_rows-placed :
      (k : ℕ) (L Q : Jobs)
      → UniqueIds L
      → UniqueIds Q
      → ((a : ScheduledJob) → In a Q → In a L)
      → ((a : ScheduledJob) → In a L → In a Q)
      → order_rows (map (placed f k (ids L)) Q) ≡ numbered f k L
  order_rows-placed k L Q ul uq to from =
      order_rows_unique (map (placed f k (ids L)) Q) (numbered f k L)
        (placed-UniqueIds k (ids L) Q uq) (numbered-Before k L)
        (λ a m.
          let (j, n, e) = map-In (placed f k (ids L)) Q a m in
          subst (λ x. In x (numbered f k L)) (sym e) (placed-In-numbered k L j ul (to j n)))
        (λ a m.
          let (j, n, e) = numbered-In k L a ul m in
          subst (λ x. In x (map (placed f k (ids L)) Q)) (sym e)
            (In-map (placed f k (ids L)) Q j (from j n)))

  pub ids-numbered : (k : ℕ) (L : Jobs) → ids (numbered f k L) ≡ ids L
  unfolding numbered
  ids-numbered k [] = refl
  ids-numbered k (l ∷ L) = ap₂ ◌∷◌ (w.same_id k l) (ids-numbered (k + 1) L)

  pub positions-numbered :
      (k : ℕ) (L : Jobs) → map (λ j. j.position) (numbered f k L) ≡ count_up k (length L)
  unfolding numbered
  positions-numbered k [] = refl
  positions-numbered k (l ∷ L) = ap₂ ◌∷◌ (w.at k l) (positions-numbered (k + 1) L)

module _ (f : ℕ → ScheduledJob → ScheduledJob) where
  -- What no write changes is not changed by the loop.
  pub placed-keeps :
      {B : Type 0} (P : ScheduledJob → B)
      → ((k : ℕ) (j : ScheduledJob) → P (f k j) ≡ P j)
      → (k : ℕ) (is : List ℕ) (j : ScheduledJob) → P (placed f k is j) ≡ P j
  unfolding placed
  placed-keeps P h k [] j = refl
  placed-keeps P h k (i ∷ is) j = elim (Bool-cases (j.id == i)) [
    | inl t ↦ rw (t, placed) (placed-keeps P h (k + 1) is (f k j) ∙ h k j)
    | inr e ↦ rw (e, placed) (placed-keeps P h (k + 1) is j)
  ]
