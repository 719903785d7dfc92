-- ===== src/Sync/Kept.antt =====
-- The sync of app/services/mr_sync.py deletes no row, moves none to another key, and keeps ids and
-- (project, iid) unique.
use mathlib.Core.List.{append_assoc}
use mathlib.Core.List.{map-map, map-append, append-nil}
use mathlib.Core.Option.{none-ne-some}
use gitlab_reviewer.Prelude.{
  ℕ, Bool, true, false, ◌&&◌, Option, none, some, ◌≡◌, refl, sym, ap, subst, ◌∙◌, ◌≢◌, inl, inr,
  List, [], ◌∷◌, ◌++◌, map, ◌==◌, if◌then◌else◌, Bool-cases, In, All, All→at, All-of, Pairwise,
  Pairwise-append, map-In, map-cong_In, Text, text_eq, keep_if,
}
use gitlab_reviewer.Models.{MergeRequest}
use gitlab_reviewer.Scheduling.{elem}
use gitlab_reviewer.Sync.{
  Mrs, MrSnapshot, Fetched, got, failed, GitLab, Counts, is_row, find_mr, new_mr, refreshed,
  update_mr, is_opened, upsert_found, upsert_snapshot, count, upsert_all, refetched, refetch_stale,
  synced_rows,
}
use gitlab_reviewer.Sync.Rows.{SameKey, refreshed-SameKey, rewritten, rewritten-SameKey}

abbrev pub key_of : MergeRequest → ℕ × Text × ℕ
key_of m = (m.id, m.project, m.iid)

abbrev pub keys : Mrs → List (ℕ × Text × ℕ)
keys ms = map key_of ms

abbrev pub OtherKey : MergeRequest → MergeRequest → Type 0
OtherKey a b = (a.id ≢ b.id) × ((text_eq a.project b.project && a.iid == b.iid) ≡ false)

-- Ids are unique, and so are the pairs (project, iid).
abbrev pub IsKeyed : Mrs → Type 0
IsKeyed ms = Pairwise OtherKey ms

-- The keys of all rows, in their order, and maybe more after them.
abbrev pub Extends : Mrs → Mrs → Type 0
Extends ms ms' = (more : List (ℕ × Text × ℕ)) × (keys ms' ≡ keys ms ++ more)

-- The ids of inserts are fresh.
abbrev pub IsFreshId : (Mrs → ℕ) → Type 0
IsFreshId new_id = (ms : Mrs) → All (λ (m : MergeRequest). m.id ≢ new_id ms) ms

Extends-self : (ms : Mrs) → Extends ms ms
Extends-self ms = ([], sym (append-nil (keys ms)))

Extends-trans : (a b c : Mrs) → Extends a b → Extends b c → Extends a c
Extends-trans a b c (m, e) (n, f) = (m ++ n, f ∙ ap (λ l. l ++ n) e ∙ append_assoc (keys a) m n)

same-key : (a b : MergeRequest) → SameKey a b → key_of a ≡ key_of b
same-key a b s = rw (s.id, s.project, s.iid)

keys-update :
    (k : ℕ) (f : MergeRequest → MergeRequest) (ms : Mrs)
    → ((m : MergeRequest) → SameKey (f m) m)
    → keys (update_mr k f ms) ≡ keys ms
unfolding update_mr
keys-update k f ms h =
    map-map key_of (rewritten k f) ms
    ∙ map-cong_In (λ m. key_of (rewritten k f m)) key_of ms
        (λ m n. same-key (rewritten k f m) m (rewritten-SameKey f h k m))

other_by_keys :
    (a b a' b' : MergeRequest) → SameKey a' a → SameKey b' b → OtherKey a b → OtherKey a' b'
other_by_keys a b a' b' s t o = rw (s.id, t.id, s.project, t.project, s.iid, t.iid) o

update-IsKeyed :
    (k : ℕ) (f : MergeRequest → MergeRequest) (ms : Mrs)
    → ((m : MergeRequest) → SameKey (f m) m)
    → IsKeyed ms
    → IsKeyed (update_mr k f ms)
unfolding update_mr
update-IsKeyed k f [] h u = tt
update-IsKeyed k f (m ∷ ms) h u = (
  All-of (OtherKey (rewritten k f m)) (update_mr k f ms) (λ a n.
      let (b, l, e) = map-In (rewritten k f) ms a n in
      subst (OtherKey (rewritten k f m)) (sym e) (
        other_by_keys m b (rewritten k f m) (rewritten k f b) (rewritten-SameKey f h k m)
          (rewritten-SameKey f h k b) (All→at (OtherKey m) ms u.0 b l))),
  update-IsKeyed k f ms h u.1,
)

find_mr-none :
    (project : Text) (iid : ℕ) (ms : Mrs)
    → find_mr project iid ms ≡ none
    → (m : MergeRequest) → In m ms
    → is_row project iid m ≡ false
unfolding find_mr
find_mr-none project iid [] h m n = absurd n
find_mr-none project iid (x ∷ ms) h m n = elim (Bool-cases (is_row project iid x)) [
  | inl t ↦ let e : some x ≡ none = rw t at h in absurd (none-ne-some _ (sym e))
  | inr f ↦ elim n [
    | inl e ↦ ap (is_row project iid) e ∙ f
    | inr l ↦ find_mr-none project iid ms (rw f at h) m l
  ]
]

-- What one upsert, or a loop of them, keeps of a table.
abbrev pub Keeps : Mrs → Mrs → Type 0
Keeps ms ms' = Extends ms ms' × (IsKeyed ms → IsKeyed ms')

Keeps-trans : (a b c : Mrs) → Keeps a b → Keeps b c → Keeps a c
Keeps-trans a b c k l = (Extends-trans a b c k.0 l.0, λ u. l.1 (k.1 u))

module _ (new_id : Mrs → ℕ) (fresh : IsFreshId new_id) (project : Text) (now : ℕ) where
  upsert_found-Keeps :
      (s : MrSnapshot) (ms : Mrs) (found : Option MergeRequest)
      → find_mr project s.iid ms ≡ found
      → Keeps ms (upsert_found new_id project s now found ms).0
  unfolding new_mr
  upsert_found-Keeps s ms none h = (
    (
      key_of (new_mr (new_id ms) project s now) ∷ [],
      map-append key_of ms (new_mr (new_id ms) project s now ∷ []),
    ),
    λ u.
        Pairwise-append OtherKey ms (new_mr (new_id ms) project s now ∷ []) u (tt, tt)
          (λ a b n m. elim m [
            | inl e ↦ subst (OtherKey a) (sym e) (
              All→at (λ (x : MergeRequest). x.id ≢ new_id ms) ms (fresh ms) a n,
              find_mr-none project s.iid ms h a n,
            )
            | inr z ↦ absurd z
          ]),
  )
  upsert_found-Keeps s ms (some m) h = (
    (
      [],
      keys-update m.id (refreshed s now) ms (refreshed-SameKey s now) ∙ sym (append-nil (keys ms)),
    ),
    update-IsKeyed m.id (refreshed s now) ms (refreshed-SameKey s now),
  )

  pub upsert_snapshot-Keeps :
      (s : MrSnapshot) (ms : Mrs) → Keeps ms (upsert_snapshot new_id project s now ms).0
  unfolding upsert_snapshot
  upsert_snapshot-Keeps s ms = upsert_found-Keeps s ms (find_mr project s.iid ms) refl

  upsert_all-Keeps :
      (ss : List MrSnapshot) (ms : Mrs) (c : Counts)
      → Keeps ms (upsert_all new_id project now ss (ms, c)).0
  unfolding upsert_all
  upsert_all-Keeps [] ms c = (Extends-self ms, λ u. u)
  upsert_all-Keeps (s ∷ ss) ms c =
      let r = upsert_snapshot new_id project s now ms in
      Keeps-trans ms r.0 (upsert_all new_id project now ss (r.0, count r.1 c)).0
        (upsert_snapshot-Keeps s ms) (upsert_all-Keeps ss r.0 (count r.1 c))

  refetched-Keeps :
      (fetched : Fetched MrSnapshot) (r : Mrs × Counts)
      → Keeps r.0 (refetched new_id project now fetched r).0
  refetched-Keeps (failed e) (ms, c) = (Extends-self ms, λ u. u)
  refetched-Keeps (got s) (ms, c) = upsert_snapshot-Keeps s ms

  round-Keeps :
      (skip : Bool) (fetched : Fetched MrSnapshot) (r : Mrs × Counts)
      → Keeps r.0 (if skip then r else refetched new_id project now fetched r).0
  round-Keeps true fetched r = (Extends-self r.0, λ u. u)
  round-Keeps false fetched r = refetched-Keeps fetched r

  refetch_stale-Keeps :
      (g : GitLab) (seen : List ℕ) (stale : Mrs) (r : Mrs × Counts)
      → Keeps r.0 (refetch_stale g new_id project now seen stale r).0
  unfolding refetch_stale
  refetch_stale-Keeps g seen [] r = (Extends-self r.0, λ u. u)
  refetch_stale-Keeps g seen (m ∷ stale) r =
      let r' =
        if elem m.iid seen then r else refetched new_id project now (g.get_merge_request m.iid) r in
      Keeps-trans r.0 r'.0 (refetch_stale g new_id project now seen stale r').0
        (round-Keeps (elem m.iid seen) (g.get_merge_request m.iid) r)
        (refetch_stale-Keeps g seen stale r')

  -- Where the ids of inserts are fresh, the sync of a listing deletes no row, keeps every row's id,
  -- project, iid and place, and keeps ids and (project, iid) unique, whatever GitLab answers.
  pub synced_rows-Keeps :
      (g : GitLab) (snaps : List MrSnapshot) (ms : Mrs)
      → IsKeyed ms
      → Extends ms (synced_rows g new_id project now snaps ms).0
        × IsKeyed (synced_rows g new_id project now snaps ms).0
  unfolding synced_rows
  synced_rows-Keeps g snaps ms u =
      let zero_counts : Counts = record { added = 0; updated = 0; unchanged = 0 } in
      let r = upsert_all new_id project now snaps (ms, zero_counts) in
      let seen = map (λ (s : MrSnapshot). s.iid) snaps in
      let stale = keep_if (is_opened project) r.0 in
      let k =
        Keeps-trans ms r.0 (refetch_stale g new_id project now seen stale r).0
          (upsert_all-Keeps snaps ms zero_counts) (refetch_stale-Keeps g seen stale r) in
      (k.0, k.1 u)
