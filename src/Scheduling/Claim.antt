-- ===== src/Scheduling/Claim.antt =====
-- `claim_next` of app/services/scheduling.py, on both databases.
use mathlib.Core.Option.{some-injective}
use gitlab_reviewer.Prelude.{
  ℕ, Bool, true, false, not, ◌&&◌, Option, none, some, Option-cases, ◌≡◌, refl, sym, ap, subst, ◌∙◌,
  ◌≢◌, ◌⊎◌, inl, inr, [], ◌∷◌, map, arith, ◌==◌, ==_iff, ==_self, if◌then◌else◌, Bool-cases, In,
  Pairwise, All→at, keep_if, keep_if-In, In-keep_if, keep_if-all, keep_if-none, keep_if-ext,
  map-cong_In, length, Pairwise-keep_if,
}
use gitlab_reviewer.Models.{immediate, nightly, JobStatus, ScheduledJob}
use gitlab_reviewer.Table.{
  Jobs, in_set, order_rows, queued_rows, update_row, with_status, first, get_job,
}
use gitlab_reviewer.Table.Order.{
  Before, OtherId, UniqueIds, order_rows-In, In-order_rows, order_rows-Before,
}
use gitlab_reviewer.Table.Rows.{
  same_row, queued_rows-In, queued_rows-UniqueIds, queued_rows-update_row_out,
  queued_rows-update_row_outside, without,
}
use gitlab_reviewer.Scheduling.{
  Dialect, postgresql, sqlite, claim_postgres, claim_sqlite, claim_next, flip_claimed,
  update_claimed, still_queued,
}

first-In : (L : Jobs) (j : ScheduledJob) → first L ≡ some j → In j L
first-In [] j h = cc
first-In (l ∷ L) j h = inl (some-injective j l (sym h))

first-least :
    (L : Jobs) (j : ScheduledJob)
    → Pairwise Before L
    → first L ≡ some j
    → (a : ScheduledJob) → In a L
    → (a ≡ j) ⊎ Before j a
first-least [] j p h a m = absurd m
first-least (l ∷ L) j p h a (inl e) = inl (e ∙ some-injective l j h)
first-least (l ∷ L) j p h a (inr m) =
    inr (subst (λ x. Before x a) (some-injective l j h) (All→at (Before l) L p.0 a m))

none-some {ℓ} : {A : Type ℓ} {a : A} → none ≡ some a → ⊥
none-some h = cc

-- What a claim answers and leaves, by the queue that it found.
pub ClaimsFirst : ℕ → Jobs → Option ScheduledJob × Jobs → Jobs → Type 0
ClaimsFirst now jobs r [] = r ≡ (none, jobs)
ClaimsFirst now jobs r (j ∷ rest) =
    (r.0 ≡ some (with_status JobStatus.claimed now j))
    × (r.1 ≡ update_row j.id (with_status JobStatus.claimed now) jobs)
    × (queued_rows immediate r.1 ≡ rest)
    × (queued_rows nightly r.1 ≡ queued_rows nightly jobs)

-- On a table with unique ids, a claim under SKIP LOCKED that returns a job has taken a queued immediate
-- row that no other transaction holds, every other such row comes behind it, and the table has that
-- row alone as claimed.
pub claim_postgres_lem :
    (locked : ScheduledJob → Bool) (now : ℕ) (jobs : Jobs) (j : ScheduledJob)
    → UniqueIds jobs
    → (claim_postgres locked now jobs).0 ≡ some j
    → (r : ScheduledJob) × (j ≡ with_status JobStatus.claimed now r)
      × In r jobs
      × (in_set immediate r ≡ true)
      × (locked r ≡ false)
      × ((a : ScheduledJob)
          → In a jobs
          → in_set immediate a ≡ true
          → locked a ≡ false
          → (a ≡ r) ⊎ Before r a)
      × ((claim_postgres locked now jobs).1
          ≡ update_row r.id (with_status JobStatus.claimed now) jobs)
unfolding claim_postgres
claim_postgres_lem locked now jobs j u h =
    let p : ScheduledJob → Bool = λ a. in_set immediate a && not (locked a) in
    let rows = order_rows (keep_if p jobs) in
    elim (Option-cases (first rows)) [
      | inl e ↦ absurd (none-some (rw e at h))
      | inr (r, e) ↦
          let q = keep_if-In p jobs r (order_rows-In (keep_if p jobs) r (first-In rows r e)) in
          let took : with_status JobStatus.claimed now r ≡ j = some-injective _ _ (rw e at h) in
          (
            r,
            sym took,
            q.0,
            ground (arith, q.1),
            ground (arith, q.1),
            (λ a m s t.
                first-least rows r
                  (order_rows-Before (keep_if p jobs) (Pairwise-keep_if OtherId p jobs u)) e a
                  (In-order_rows (keep_if p jobs) a (In-keep_if p jobs a m (rw (s, t))))),
            rw e,
          )
    ]

test_false : (a b : ℕ) → a ≢ b → (a == b) ≡ false
test_false a b h = ground arith

-- The UPDATE of one id hits one row.
one_hit :
    (p : ScheduledJob → Bool) (jobs : Jobs) (j : ScheduledJob)
    → UniqueIds jobs
    → In j jobs
    → p j ≡ true
    → ((k : ScheduledJob) → k.id ≢ j.id → p k ≡ false)
    → length (keep_if p jobs) ≡ 1
one_hit p (k ∷ jobs) j u (inl e) h miss = rw (
  subst (λ x. p x ≡ true) e h,
  keep_if-none p jobs (λ a m.
      miss a
        (λ q. All→at (OtherId k) jobs u.0 a m (ap (λ (x : ScheduledJob). x.id) (sym e) ∙ sym q))),
)
one_hit p (k ∷ jobs) j u (inr m) h miss =
    rw (miss k (All→at (OtherId k) jobs u.0 j m)) (one_hit p jobs j u.1 m h miss)
one_hit p [] j u m h miss = absurd m

get_job-update_row :
    (f : ScheduledJob → ScheduledJob) (jobs : Jobs) (j : ScheduledJob)
    → ((k : ScheduledJob) → (f k).id ≡ k.id)
    → UniqueIds jobs
    → In j jobs
    → get_job j.id (update_row j.id f jobs) ≡ some (f j)
unfolding get_job update_row
get_job-update_row f [] j s u m = absurd m
get_job-update_row f (k ∷ jobs) j s u (inl e) =
    rw ((==_iff k.id j.id).1 (ap (λ (x : ScheduledJob). x.id) (sym e))) (
      rw ((==_iff (f k).id j.id).1 (s k ∙ ap (λ (x : ScheduledJob). x.id) (sym e)))
        (ap (λ x. some (f x)) (sym e)))
get_job-update_row f (k ∷ jobs) j s u (inr m) =
    let miss = test_false k.id j.id (All→at (OtherId k) jobs u.0 j m) in
    rw miss (rw miss (get_job-update_row f jobs j s u.1 m))

module _ (now : ℕ) (jobs : Jobs) (u : UniqueIds jobs) where
  -- The SQLite path does to the first row what the Postgres path does.
  update_claimed-flip :
      (o : Option ScheduledJob)
      → ((j : ScheduledJob) → o ≡ some j → In j jobs × (in_set immediate j ≡ true))
      → update_claimed o now jobs ≡ flip_claimed o now jobs
  unfolding update_row
  update_claimed-flip none h = refl
  update_claimed-flip (some j) h =
      let (m, s) = h j refl in
      let f = with_status JobStatus.claimed now in
      let same : map (λ k. if still_queued j.id k then f k else k) jobs ≡ update_row j.id f jobs =
        map-cong_In (λ k. if still_queued j.id k then f k else k)
          (λ k. if k.id == j.id then f k else k) jobs
          (λ k n. elim (Bool-cases (k.id == j.id)) [
            | inl t ↦ rw (t, same_row jobs k j u n m ((==_iff k.id j.id).0 t)) (ground (arith, s))
            | inr e ↦ rw e
          ]) in
      let count : (length (keep_if (still_queued j.id) jobs) == 1) ≡ true = (==_iff _ 1).1 (
        one_hit (still_queued j.id) jobs j u m (rw (==_self j.id) (ground (arith, s)))
          (λ k n. rw (test_false k.id j.id n))) in
      let jobs' = map (λ k. if still_queued j.id k then f k else k) jobs in
      let answer : (if length (keep_if (still_queued j.id) jobs) == 1
            then get_job j.id jobs'
            else none)
          ≡ some (f j) =
        rw count (ap (get_job j.id) same ∙ get_job-update_row f jobs j (λ k. refl) u m) in
      (λ i. (answer i, same i))

  flip-ClaimsFirst :
      (Q : Jobs)
      → queued_rows immediate jobs ≡ Q
      → ClaimsFirst now jobs (flip_claimed (first Q) now jobs) Q
  unfolding ClaimsFirst
  flip-ClaimsFirst [] e = refl
  flip-ClaimsFirst (j ∷ rest) e =
      let f = with_status JobStatus.claimed now in
      let q = queued_rows-In immediate jobs j (rw e (inl refl)) in
      let uq : UniqueIds (j ∷ rest) = subst UniqueIds e (queued_rows-UniqueIds immediate jobs u) in
      (
        refl,
        refl,
        queued_rows-update_row_out immediate j.id f jobs u (λ k. ground arith)
            ∙ ap (keep_if (without j.id)) e
            ∙ rw (==_self j.id) (
                keep_if-all (without j.id) rest
                  (λ a m. ground (arith, All→at (OtherId j) rest uq.0 a m))),
        queued_rows-update_row_outside nightly j.id f jobs (λ k. ground arith)
            (λ k m i. rw (same_row jobs k j u m q.0 i) (ground (arith, q.1))),
      )

-- On a table with unique ids and no row held by another transaction, both databases answer a claim
-- alike: none on an empty queue, and else the first row of the queue, which becomes `claimed`; the rest
-- of the queue keeps its order, and the nightly set is as before.
pub claim_next_lem :
    (d : Dialect) (now : ℕ) (jobs : Jobs)
    → UniqueIds jobs
    → ClaimsFirst now jobs (claim_next d (λ _. false) now jobs) (queued_rows immediate jobs)
unfolding claim_next claim_postgres claim_sqlite queued_rows
claim_next_lem postgresql now jobs u =
    subst
      (λ rows.
        ClaimsFirst now jobs (flip_claimed (first (order_rows rows)) now jobs)
          (queued_rows immediate jobs))
      (keep_if-ext (in_set immediate) (λ j. in_set immediate j && true) jobs (λ a. ground arith))
      (flip-ClaimsFirst now jobs u (queued_rows immediate jobs) refl)
claim_next_lem sqlite now jobs u =
    rw
      (update_claimed-flip now jobs u (first (queued_rows immediate jobs))
        (λ j h. queued_rows-In immediate jobs j (first-In (queued_rows immediate jobs) j h)))
      (flip-ClaimsFirst now jobs u (queued_rows immediate jobs) refl)

-- Whatever is locked, a claim changes at most one row, to `claimed`.
pub claim_next-flip :
    (d : Dialect) (locked : ScheduledJob → Bool) (now : ℕ) (jobs : Jobs)
    → UniqueIds jobs
    → (o : Option ScheduledJob) × (claim_next d locked now jobs ≡ flip_claimed o now jobs)
unfolding claim_next claim_postgres claim_sqlite
claim_next-flip postgresql locked now jobs u =
    (first (order_rows (keep_if (λ j. in_set immediate j && not (locked j)) jobs)), refl)
claim_next-flip sqlite locked now jobs u = (
  first (queued_rows immediate jobs),
  update_claimed-flip now jobs u (first (queued_rows immediate jobs))
      (λ j h. queued_rows-In immediate jobs j (first-In (queued_rows immediate jobs) j h)),
)
