-- ===== src/Table/Order.antt =====
-- ORDER BY position, id of app/services/scheduling.py: on rows with different ids the sorted list is
-- determined by its members.
use gitlab_reviewer.Prelude.{
  Bool, true, false, ◌≡◌, refl, sym, subst, ◌≢◌, inl, inr, [], ◌∷◌, arith, Bool-cases, In, Pairwise,
  All→at, All-of, keep_if, keep_if-In, In-keep_if, Pairwise-unique, Pairwise-keep_if,
}
use gitlab_reviewer.Models.{ScheduledJob}
use gitlab_reviewer.Table.{Jobs, before, insert_row, order_rows}

abbrev pub Before : ScheduledJob → ScheduledJob → Type 0
Before a b = before a b ≡ true

abbrev pub OtherId : ScheduledJob → ScheduledJob → Type 0
OtherId a b = a.id ≢ b.id

-- The primary key: no two rows share an id.
abbrev pub UniqueIds : Jobs → Type 0
UniqueIds jobs = Pairwise OtherId jobs

Before-asym : (a b : ScheduledJob) → Before a b → Before b a → ⊥
Before-asym a b p q = ground arith

pub Before-irrefl : (a : ScheduledJob) → Before a a → ⊥
Before-irrefl a p = Before-asym a a p p

Before-trans : (a b c : ScheduledJob) → Before a b → Before b c → Before a c
Before-trans a b c p q = ground arith

before_total : (a b : ScheduledJob) → OtherId a b → before b a ≡ false → Before a b
before_total a b n h = ground arith

insert_row-In :
    (x : ScheduledJob) (ys : Jobs) (a : ScheduledJob) → In a (insert_row x ys) → In a (x ∷ ys)
unfolding insert_row
insert_row-In x [] a m = m
insert_row-In x (y ∷ ys) a m = elim (Bool-cases (before y x)) [
  | inl t ↦ elim (rw t at m) [
    | inl e ↦ inr (inl e)
    | inr n ↦ elim (insert_row-In x ys a n) [ inl e ↦ inl e | inr k ↦ inr (inr k) ]
  ]
  | inr f ↦ rw f at m
]

In-insert_row :
    (x : ScheduledJob) (ys : Jobs) (a : ScheduledJob) → In a (x ∷ ys) → In a (insert_row x ys)
unfolding insert_row
In-insert_row x [] a m = m
In-insert_row x (y ∷ ys) a (inl e) = elim (Bool-cases (before y x)) [
  | inl t ↦ rw t (inr (In-insert_row x ys a (inl e)))
  | inr f ↦ rw f (inl e)
]
In-insert_row x (y ∷ ys) a (inr (inl e)) = elim (Bool-cases (before y x)) [
  | inl t ↦ rw t (inl e)
  | inr f ↦ rw f (inr (inl e))
]
In-insert_row x (y ∷ ys) a (inr (inr m)) = elim (Bool-cases (before y x)) [
  | inl t ↦ rw t (inr (In-insert_row x ys a (inr m)))
  | inr f ↦ rw f (inr (inr m))
]

pub order_rows-In : (xs : Jobs) (a : ScheduledJob) → In a (order_rows xs) → In a xs
unfolding order_rows
order_rows-In [] a m = m
order_rows-In (x ∷ xs) a m = elim (insert_row-In x (order_rows xs) a m) [
  | inl e ↦ inl e
  | inr n ↦ inr (order_rows-In xs a n)
]

pub In-order_rows : (xs : Jobs) (a : ScheduledJob) → In a xs → In a (order_rows xs)
unfolding order_rows
In-order_rows [] a m = m
In-order_rows (x ∷ xs) a (inl e) = In-insert_row x (order_rows xs) a (inl e)
In-order_rows (x ∷ xs) a (inr m) = In-insert_row x (order_rows xs) a (inr (In-order_rows xs a m))

insert_row-Before :
    (x : ScheduledJob) (ys : Jobs)
    → ((a : ScheduledJob) → In a ys → OtherId x a)
    → Pairwise Before ys
    → Pairwise Before (insert_row x ys)
unfolding insert_row
insert_row-Before x [] new h = (tt, tt)
insert_row-Before x (y ∷ ys) new h = elim (Bool-cases (before y x)) [
  | inl t ↦ rw t (
    All-of (Before y) (insert_row x ys) (λ a m. elim (insert_row-In x ys a m) [
      | inl e ↦ subst (Before y) (sym e) t
      | inr n ↦ All→at (Before y) ys h.0 a n
    ]),
    insert_row-Before x ys (λ a m. new a (inr m)) h.1,
  )
  | inr f ↦
      let xy = before_total x y (new y (inl refl)) f in
      rw f (
        (xy, All-of (Before x) ys (λ a m. Before-trans x y a xy (All→at (Before y) ys h.0 a m))),
        h,
      )
]

pub order_rows-Before : (xs : Jobs) → UniqueIds xs → Pairwise Before (order_rows xs)
unfolding order_rows
order_rows-Before [] u = tt
order_rows-Before (x ∷ xs) u =
    insert_row-Before x (order_rows xs) (λ a m. All→at (OtherId x) xs u.0 a (order_rows-In xs a m))
      (order_rows-Before xs u.1)

-- A list in order with the members of the query is its answer.
pub order_rows_unique :
    (xs ys : Jobs)
    → UniqueIds xs
    → Pairwise Before ys
    → ((a : ScheduledJob) → In a xs → In a ys)
    → ((a : ScheduledJob) → In a ys → In a xs)
    → order_rows xs ≡ ys
order_rows_unique xs ys u h to from =
    Pairwise-unique Before Before-asym (order_rows xs) ys (order_rows-Before xs u) h
      (λ a m. to a (order_rows-In xs a m)) (λ a m. In-order_rows xs a (from a m))

pub order_rows-keep_if :
    (p : ScheduledJob → Bool) (xs : Jobs)
    → UniqueIds xs
    → order_rows (keep_if p xs) ≡ keep_if p (order_rows xs)
order_rows-keep_if p xs u =
    order_rows_unique (keep_if p xs) (keep_if p (order_rows xs)) (Pairwise-keep_if OtherId p xs u)
      (Pairwise-keep_if Before p (order_rows xs) (order_rows-Before xs u))
      (λ a m.
        let n = keep_if-In p xs a m in In-keep_if p (order_rows xs) a (In-order_rows xs a n.0) n.1)
      (λ a m.
        let n = keep_if-In p (order_rows xs) a m in In-keep_if p xs a (order_rows-In xs a n.0) n.1)
