-- ===== src/Examples/Syncs.antt =====
-- The sync of app/services/mr_sync.py on a table with two rows, of which GitLab lists one.
use gitlab_reviewer.Prelude.{
  ℕ, suc, ◌+◌, ◌<◌, some, none, ◌≡◌, refl, ◌≢◌, ap, subst, inl, inr, List, [], ◌∷◌, arith, All-of,
  In, Text, codes,
}
use gitlab_reviewer.Models.{MergeRequest}
use gitlab_reviewer.Sync.{Mrs, MrSnapshot, Fetched, got, failed, GitLab, synced_rows}
use gitlab_reviewer.Sync.Kept.{IsKeyed, IsFreshId, Extends, synced_rows-Keeps}
use gitlab_reviewer.Sync.Held.{Found, synced_rows-Found}

-- An id above all that are in use.
abbrev id_above : Mrs → ℕ
id_above [] = 0
id_above (m ∷ ms) = suc (m.id + id_above ms)

id_above-lt : (ms : Mrs) (m : MergeRequest) → In m ms → m.id < id_above ms
id_above-lt (x ∷ ms) m (inl e) =
    let p : m.id ≡ x.id = ap (λ (y : MergeRequest). y.id) e in omega (arith, p)
id_above-lt (x ∷ ms) m (inr n) = omega (arith, id_above-lt ms m n)
id_above-lt [] m n = absurd n

id_above-IsFreshId : IsFreshId id_above
id_above-IsFreshId ms =
    All-of (λ (m : MergeRequest). m.id ≢ id_above ms) ms
      (λ m n e. omega (arith, id_above-lt ms m n, e))

abbrev our_project : Text
our_project = codes "group/app"

abbrev row_of : ℕ → ℕ → MergeRequest
row_of id iid = record {
  id = id;
  project = our_project;
  iid = iid;
  title = codes "old";
  author = [];
  source_branch = [];
  target_branch = [];
  sha = [];
  web_url = [];
  state = codes "opened";
  updated_at = none;
  last_seen_at = none;
}

abbrev snapshot : ℕ → Text → MrSnapshot
snapshot iid state = record {
  iid = iid;
  title = codes "new";
  author = [];
  source_branch = [];
  target_branch = [];
  sha = [];
  web_url = [];
  state = state;
  updated_at = some 5;
}

abbrev cached : Mrs
cached = row_of 1 12 ∷ row_of 2 13 ∷ []

abbrev listing : List MrSnapshot
listing = snapshot 12 (codes "opened") ∷ snapshot 14 (codes "opened") ∷ []

abbrev gitlab : GitLab
gitlab = record {
  list_open_merge_requests = got listing;
  get_project_default_branch = got (some (codes "main"));
  get_merge_request = λ i. got (snapshot i (codes "merged"));
}

cached-IsKeyed : IsKeyed cached
cached-IsKeyed = ((((λ e. cc), refl), tt), (tt, tt))

abbrev iid_of : Fetched MrSnapshot → ℕ
iid_of (got s) = s.iid
iid_of (failed e) = 0

gitlab-asked : (i : ℕ) (s : MrSnapshot) → gitlab.get_merge_request i ≡ got s → s.iid ≡ i
gitlab-asked i s h = subst (λ f. iid_of f ≡ i) h refl

synced_rows-Keeps_example :
    Extends cached (synced_rows gitlab id_above our_project 9 listing cached).0
    × IsKeyed (synced_rows gitlab id_above our_project 9 listing cached).0
synced_rows-Keeps_example =
    synced_rows-Keeps id_above id_above-IsFreshId our_project 9 gitlab listing cached cached-IsKeyed

synced_rows-Found_example :
    Found our_project 9
      (snapshot 14 (codes "opened"))
      (synced_rows gitlab id_above our_project 9 listing cached).0
synced_rows-Found_example =
    synced_rows-Found id_above id_above-IsFreshId our_project 9 gitlab gitlab-asked listing cached
      (snapshot 14 (codes "opened")) cached-IsKeyed (((λ e. cc), tt), (tt, tt)) (inr (inl refl))
