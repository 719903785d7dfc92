-- ===== src/Sync/Rows.antt =====
-- One upsert of app/services/mr_sync.py: what the select finds before and after it.
use mathlib.Core.Option.{some-injective, none-ne-some}
use gitlab_reviewer.Prelude.{
  ℕ, true, ◌&&◌, Option, none, some, ◌≡◌, refl, sym, ap, ap₂, subst, ◌∙◌, inl, inr, [], ◌∷◌, ◌++◌,
  map, ◌==◌, ==_self, if◌then◌else◌, Bool-cases, In, Text, text_eq,
}
use gitlab_reviewer.Models.{MergeRequest}
use gitlab_reviewer.Sync.{
  Mrs, MrSnapshot, is_row, find_mr, time_eq, same_fields, with_fields, new_mr, seen_at, refreshed,
  update_mr,
}

text_eq_self : (t : Text) → text_eq t t ≡ true
text_eq_self [] = refl
text_eq_self (c ∷ cs) = rw (==_self c) (text_eq_self cs)

time_eq_self : (t : Option ℕ) → time_eq t t ≡ true
time_eq_self none = refl
time_eq_self (some a) = ==_self a

-- Every synced field is the snapshot's, by the comparison that the sync makes, and the row was seen
-- at the time.
pub record IsHeld (s : MrSnapshot) (now : ℕ) (m : MergeRequest) : Type 0 where
  pub fields : same_fields m s ≡ true
  pub seen : m.last_seen_at ≡ some now

with_fields-same_fields :
    (s : MrSnapshot) (m : MergeRequest) → same_fields (with_fields s m) s ≡ true
unfolding same_fields
with_fields-same_fields s m = rw (
  text_eq_self s.title,
  text_eq_self s.author,
  text_eq_self s.source_branch,
  text_eq_self s.target_branch,
  text_eq_self s.sha,
  text_eq_self s.web_url,
  text_eq_self s.state,
  time_eq_self s.updated_at,
)

seen_at-same_fields :
    (s : MrSnapshot) (now : ℕ) (m : MergeRequest) → same_fields (seen_at now m) s ≡ same_fields m s
unfolding same_fields
seen_at-same_fields s now m = refl

pub refreshed-IsHeld :
    (s : MrSnapshot) (now : ℕ) (m : MergeRequest) → IsHeld s now (refreshed s now m)
refreshed-IsHeld s now m = record {
  fields = elim (Bool-cases (same_fields m s)) [
    | inl t ↦ rw t (seen_at-same_fields s now m ∙ t)
    | inr f ↦ rw f (seen_at-same_fields s now (with_fields s m) ∙ with_fields-same_fields s m)
  ];
  seen = refl;
}

pub new_mr-IsHeld :
    (id : ℕ) (project : Text) (s : MrSnapshot) (now : ℕ) → IsHeld s now (new_mr id project s now)
unfolding new_mr same_fields
new_mr-IsHeld id project s now = record {
  fields = rw (
    text_eq_self s.title,
    text_eq_self s.author,
    text_eq_self s.source_branch,
    text_eq_self s.target_branch,
    text_eq_self s.sha,
    text_eq_self s.web_url,
    text_eq_self s.state,
    time_eq_self s.updated_at,
  );
  seen = refl;
}

pub new_mr-is_row :
    (id : ℕ) (project : Text) (s : MrSnapshot) (now : ℕ)
    → is_row project s.iid (new_mr id project s now) ≡ true
unfolding new_mr
new_mr-is_row id project s now = rw (text_eq_self project, ==_self s.iid)

-- The columns that no sync writes.
pub record SameKey (a b : MergeRequest) : Type 0 where
  pub id : a.id ≡ b.id
  pub project : a.project ≡ b.project
  pub iid : a.iid ≡ b.iid

pub refreshed-SameKey :
    (s : MrSnapshot) (now : ℕ) (m : MergeRequest) → SameKey (refreshed s now m) m
refreshed-SameKey s now m = elim (Bool-cases (same_fields m s)) [
  | inl t ↦ rw t (record { id = refl; project = refl; iid = refl })
  | inr f ↦ rw f (record { id = refl; project = refl; iid = refl })
]

pub find_mr-In :
    (project : Text) (iid : ℕ) (ms : Mrs) (m : MergeRequest)
    → find_mr project iid ms ≡ some m
    → In m ms × (is_row project iid m ≡ true)
unfolding find_mr
find_mr-In project iid [] m h = cc
find_mr-In project iid (x ∷ ms) m h = elim (Bool-cases (is_row project iid x)) [
  | inl t ↦
      let e : some x ≡ some m = rw t at h in
      let p = some-injective x m e in (inl (sym p), subst (λ y. is_row project iid y ≡ true) p t)
  | inr f ↦ let (n, r) = find_mr-In project iid ms m (rw f at h) in (inr n, r)
]

-- The row that an UPDATE makes of a row.
abbrev pub rewritten : ℕ → (MergeRequest → MergeRequest) → MergeRequest → MergeRequest
rewritten k f m = if m.id == k then f m else m

module _ (f : MergeRequest → MergeRequest) (keeps : (m : MergeRequest) → SameKey (f m) m)
    (k : ℕ) where
  pub rewritten-SameKey : (m : MergeRequest) → SameKey (rewritten k f m) m
  rewritten-SameKey m = elim (Bool-cases (m.id == k)) [
    | inl t ↦ rw t (keeps m)
    | inr e ↦ rw e (record { id = refl; project = refl; iid = refl })
  ]

  rewritten-is_row :
      (project : Text) (iid : ℕ) (m : MergeRequest)
      → is_row project iid (rewritten k f m) ≡ is_row project iid m
  rewritten-is_row project iid m =
      let same = rewritten-SameKey m in
      ap₂ (λ p i. text_eq p project && i == iid) same.project same.iid

  find_mr-update_none :
      (project : Text) (iid : ℕ) (ms : Mrs)
      → find_mr project iid ms ≡ none
      → find_mr project iid (update_mr k f ms) ≡ none
  unfolding find_mr update_mr
  find_mr-update_none project iid [] h = refl
  find_mr-update_none project iid (m ∷ ms) h = elim (Bool-cases (is_row project iid m)) [
    | inl t ↦ let e : some m ≡ none = rw t at h in absurd (none-ne-some _ (sym e))
    | inr e ↦
        subst
          (λ b.
            (if b then some (rewritten k f m) else find_mr project iid (map (rewritten k f) ms))
            ≡ none)
          (sym (rewritten-is_row project iid m ∙ e))
          (find_mr-update_none project iid ms (rw e at h))
  ]

  pub find_mr-update_some :
      (project : Text) (iid : ℕ) (ms : Mrs) (m : MergeRequest)
      → find_mr project iid ms ≡ some m
      → find_mr project iid (update_mr k f ms) ≡ some (rewritten k f m)
  unfolding find_mr update_mr
  find_mr-update_some project iid [] m h = cc
  find_mr-update_some project iid (x ∷ ms) m h = elim (Bool-cases (is_row project iid x)) [
    | inl t ↦
        let e : some x ≡ some m = rw t at h in
        subst
          (λ b.
            (if b then some (rewritten k f x) else find_mr project iid (map (rewritten k f) ms))
            ≡ some (rewritten k f m))
          (sym (rewritten-is_row project iid x ∙ t))
          (ap (λ y. some (rewritten k f y)) (some-injective x m e))
    | inr e ↦
        subst
          (λ b.
            (if b then some (rewritten k f x) else find_mr project iid (map (rewritten k f) ms))
            ≡ some (rewritten k f m))
          (sym (rewritten-is_row project iid x ∙ e))
          (find_mr-update_some project iid ms m (rw e at h))
  ]

pub find_mr-append_some :
    (project : Text) (iid : ℕ) (ms : Mrs) (x m : MergeRequest)
    → find_mr project iid ms ≡ some m
    → find_mr project iid (ms ++ x ∷ []) ≡ some m
unfolding find_mr
find_mr-append_some project iid [] x m h = cc
find_mr-append_some project iid (y ∷ ms) x m h = elim (Bool-cases (is_row project iid y)) [
  | inl t ↦ rw t (rw t at h)
  | inr e ↦ rw e (find_mr-append_some project iid ms x m (rw e at h))
]

pub find_mr-append_new :
    (project : Text) (iid : ℕ) (ms : Mrs) (x : MergeRequest)
    → find_mr project iid ms ≡ none
    → is_row project iid x ≡ true
    → find_mr project iid (ms ++ x ∷ []) ≡ some x
unfolding find_mr
find_mr-append_new project iid [] x h r = rw r
find_mr-append_new project iid (y ∷ ms) x h r = elim (Bool-cases (is_row project iid y)) [
  | inl t ↦ let e : some y ≡ none = rw t at h in absurd (none-ne-some _ (sym e))
  | inr e ↦ rw e (find_mr-append_new project iid ms x (rw e at h) r)
]
