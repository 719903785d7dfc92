-- ===== src/Sync/Held.antt =====
-- After the sync of app/services/mr_sync.py every listed merge request has a row with what GitLab says.
use mathlib.Core.Bool.{false≢true}
use gitlab_reviewer.Prelude.{
  ℕ, true, Option, none, some, ◌≡◌, refl, sym, ap, subst, ◌∙◌, ◌≢◌, inl, inr, List, [], ◌∷◌, map,
  arith, ◌==◌, ==_self, ==_iff, if◌then◌else◌, Bool-cases, In, In-map, All, All→at, Pairwise,
  keep_if, Text,
}
use gitlab_reviewer.Models.{MergeRequest}
use gitlab_reviewer.Scheduling.{elem}
use gitlab_reviewer.Sync.{
  Mrs, MrSnapshot, Fetched, got, failed, GitLab, Counts, is_row, find_mr, new_mr, refreshed,
  is_opened, upsert_found, upsert_snapshot, count, upsert_all, refetched, refetch_stale,
  synced_rows,
}
use gitlab_reviewer.Sync.Rows.{
  IsHeld, refreshed-IsHeld, refreshed-SameKey, new_mr-IsHeld, new_mr-is_row, rewritten, find_mr-In,
  find_mr-update_some, find_mr-append_some, find_mr-append_new,
}
use gitlab_reviewer.Sync.Kept.{OtherKey, IsKeyed, IsFreshId, upsert_snapshot-Keeps}

-- The row of the snapshot's merge request, as the select finds it, holds the snapshot.
abbrev pub Found : Text → ℕ → MrSnapshot → Mrs → Type 0
Found project now s ms = (m : MergeRequest) × (find_mr project s.iid ms ≡ some m) × IsHeld s now m

-- Rows of one id are one row.
same_id : (ms : Mrs) (a b : MergeRequest) → IsKeyed ms → In a ms → In b ms → a.id ≡ b.id → a ≡ b
same_id [] a b u m n e = absurd m
same_id (x ∷ ms) a b u (inl p) (inl q) e = p ∙ sym q
same_id (x ∷ ms) a b u (inl p) (inr n) e =
    absurd ((All→at (OtherKey x) ms u.0 b n).0 (ap (λ (y : MergeRequest). y.id) (sym p) ∙ e))
same_id (x ∷ ms) a b u (inr m) (inl q) e =
    absurd ((All→at (OtherKey x) ms u.0 a m).0 (ap (λ (y : MergeRequest). y.id) (sym q) ∙ sym e))
same_id (x ∷ ms) a b u (inr m) (inr n) e = same_id ms a b u.1 m n e

row-iid : (project : Text) (iid : ℕ) (m : MergeRequest) → is_row project iid m ≡ true → m.iid ≡ iid
row-iid project iid m h = ground arith

-- An update of another row is not seen.
rewritten-other :
    (k : ℕ) (f : MergeRequest → MergeRequest) (m : MergeRequest) → m.id ≢ k → rewritten k f m ≡ m
rewritten-other k f m ne = elim (Bool-cases (m.id == k)) [
  | inl t ↦ absurd (ne ((==_iff m.id k).0 t))
  | inr e ↦ rw e
]

module _ (new_id : Mrs → ℕ) (fresh : IsFreshId new_id) (project : Text) (now : ℕ) where
  upsert_found-Found :
      (s : MrSnapshot) (ms : Mrs) (found : Option MergeRequest)
      → find_mr project s.iid ms ≡ found
      → Found project now s (upsert_found new_id project s now found ms).0
  upsert_found-Found s ms none h = (
    new_mr (new_id ms) project s now,
    find_mr-append_new project s.iid ms (new_mr (new_id ms) project s now) h
        (new_mr-is_row (new_id ms) project s now),
    new_mr-IsHeld (new_id ms) project s now,
  )
  upsert_found-Found s ms (some m) h = (
    refreshed s now m,
    find_mr-update_some (refreshed s now) (refreshed-SameKey s now) m.id project s.iid ms m h
        ∙ ap some (
            subst (λ b. (if b then refreshed s now m else m) ≡ refreshed s now m)
              (sym (==_self m.id)) refl),
    refreshed-IsHeld s now m,
  )

  -- An upsert of one iid leaves the rows of the others.
  upsert_found-other :
      (t s : MrSnapshot) (ms : Mrs) (found : Option MergeRequest)
      → IsKeyed ms
      → t.iid ≢ s.iid
      → find_mr project s.iid ms ≡ found
      → Found project now t ms
      → Found project now t (upsert_found new_id project s now found ms).0
  upsert_found-other t s ms none u ne h (a, e, held) =
      (a, find_mr-append_some project t.iid ms (new_mr (new_id ms) project s now) a e, held)
  upsert_found-other t s ms (some m) u ne h (a, e, held) =
      let p = find_mr-In project t.iid ms a e in
      let q = find_mr-In project s.iid ms m h in
      let other : a.id ≢ m.id = λ same. ne (
        sym (row-iid project t.iid a p.1)
        ∙ ap (λ (y : MergeRequest). y.iid) (same_id ms a m u p.0 q.0 same)
        ∙ row-iid project s.iid m q.1) in
      (
        a,
        find_mr-update_some (refreshed s now) (refreshed-SameKey s now) m.id project t.iid ms a e
            ∙ ap some (rewritten-other m.id (refreshed s now) a other),
        held,
      )

  upsert_snapshot-Found :
      (s : MrSnapshot) (ms : Mrs) → Found project now s (upsert_snapshot new_id project s now ms).0
  unfolding upsert_snapshot
  upsert_snapshot-Found s ms = upsert_found-Found s ms (find_mr project s.iid ms) refl

  upsert_snapshot-other :
      (t s : MrSnapshot) (ms : Mrs)
      → IsKeyed ms
      → t.iid ≢ s.iid
      → Found project now t ms
      → Found project now t (upsert_snapshot new_id project s now ms).0
  unfolding upsert_snapshot
  upsert_snapshot-other t s ms u ne f =
      upsert_found-other t s ms (find_mr project s.iid ms) u ne refl f

  -- Loops over snapshots of other iids.
  upsert_all-other :
      (t : MrSnapshot) (ss : List MrSnapshot) (ms : Mrs) (c : Counts)
      → IsKeyed ms
      → All (λ (s : MrSnapshot). t.iid ≢ s.iid) ss
      → Found project now t ms
      → Found project now t (upsert_all new_id project now ss (ms, c)).0
        × IsKeyed (upsert_all new_id project now ss (ms, c)).0
  unfolding upsert_all
  upsert_all-other t [] ms c u ne f = (f, u)
  upsert_all-other t (s ∷ ss) ms c u ne f =
      let r = upsert_snapshot new_id project s now ms in
      upsert_all-other t ss r.0 (count r.1 c)
        ((upsert_snapshot-Keeps new_id fresh project now s ms).1 u) ne.1
        (upsert_snapshot-other t s ms u ne.0 f)

  upsert_all-Found :
      (t : MrSnapshot) (ss : List MrSnapshot) (ms : Mrs) (c : Counts)
      → IsKeyed ms
      → Pairwise (λ (a b : MrSnapshot). a.iid ≢ b.iid) ss
      → In t ss
      → Found project now t (upsert_all new_id project now ss (ms, c)).0
        × IsKeyed (upsert_all new_id project now ss (ms, c)).0
  unfolding upsert_all
  upsert_all-Found t [] ms c u d m = absurd m
  upsert_all-Found t (s ∷ ss) ms c u d (inl e) =
      let r = upsert_snapshot new_id project s now ms in
      upsert_all-other t ss r.0 (count r.1 c)
        ((upsert_snapshot-Keeps new_id fresh project now s ms).1 u)
        (subst (λ (x : MrSnapshot). All (λ (y : MrSnapshot). x.iid ≢ y.iid) ss) (sym e) d.0)
        (subst (λ x. Found project now x r.0) (sym e) (upsert_snapshot-Found s ms))
  upsert_all-Found t (s ∷ ss) ms c u d (inr m) =
      let r = upsert_snapshot new_id project s now ms in
      upsert_all-Found t ss r.0 (count r.1 c)
        ((upsert_snapshot-Keeps new_id fresh project now s ms).1 u) d.1 m

  module _ (g : GitLab)
      (asked : (i : ℕ) (s : MrSnapshot) → g.get_merge_request i ≡ got s → s.iid ≡ i) where
    round-other :
        (t : MrSnapshot) (i : ℕ) (fetched : Fetched MrSnapshot) (r : Mrs × Counts)
        → g.get_merge_request i ≡ fetched
        → t.iid ≢ i
        → IsKeyed r.0
        → Found project now t r.0
        → Found project now t (refetched new_id project now fetched r).0
          × IsKeyed (refetched new_id project now fetched r).0
    round-other t i (failed e) (ms, c) h ne u f = (f, u)
    round-other t i (got s) (ms, c) h ne u f = (
      upsert_snapshot-other t s ms u (λ e. ne (e ∙ asked i s h)) f,
      (upsert_snapshot-Keeps new_id fresh project now s ms).1 u,
    )

    elem-of_In : (i : ℕ) (is : List ℕ) → In i is → elem i is ≡ true
    unfolding elem
    elem-of_In i (j ∷ is) (inl e) = rw (e, ==_self j)
    elem-of_In i (j ∷ is) (inr m) = ground (arith, elem-of_In i is m)
    elem-of_In i [] m = absurd m

    refetch_stale-Found :
        (t : MrSnapshot) (seen : List ℕ) (stale : Mrs) (r : Mrs × Counts)
        → In t.iid seen
        → IsKeyed r.0
        → Found project now t r.0
        → Found project now t (refetch_stale g new_id project now seen stale r).0
    unfolding refetch_stale
    refetch_stale-Found t seen [] r m u f = f
    refetch_stale-Found t seen (x ∷ stale) r m u f = elim (Bool-cases (elem x.iid seen)) [
      | inl h ↦ rw (h, refetch_stale) (refetch_stale-Found t seen stale r m u f)
      | inr h ↦
          let ne : t.iid ≢ x.iid =
            λ e. false≢true (sym h ∙ ap (λ i. elem i seen) (sym e) ∙ elem-of_In t.iid seen m) in
          let k = round-other t x.iid (g.get_merge_request x.iid) r refl ne u f in
          rw (h, refetch_stale)
            (refetch_stale-Found t seen stale
              (refetched new_id project now (g.get_merge_request x.iid) r) m k.1 k.0)
    ]

    -- Where the ids of inserts are fresh, GitLab answers for the iid that it is asked for, the table
    -- has unique keys and the listing names no iid twice, after the sync the row of every listed merge
    -- request holds its snapshot and was seen now.
    pub synced_rows-Found :
        (snaps : List MrSnapshot) (ms : Mrs) (t : MrSnapshot)
        → IsKeyed ms
        → Pairwise (λ (a b : MrSnapshot). a.iid ≢ b.iid) snaps
        → In t snaps
        → Found project now t (synced_rows g new_id project now snaps ms).0
    unfolding synced_rows
    synced_rows-Found snaps ms t u d m =
        let zero_counts : Counts = record { added = 0; updated = 0; unchanged = 0 } in
        let r = upsert_all new_id project now snaps (ms, zero_counts) in
        let k = upsert_all-Found t snaps ms zero_counts u d m in
        refetch_stale-Found t (map (λ (s : MrSnapshot). s.iid) snaps)
          (keep_if (is_opened project) r.0) r (In-map (λ (s : MrSnapshot). s.iid) snaps t m) k.1 k.0
