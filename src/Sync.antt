-- ===== src/Sync.antt =====
-- app/services/mr_sync.py: the open merge requests of GitLab are brought into the table merge_request,
-- one row per (project, iid). The answers of GitLab and the ids that the database hands out are
-- parameters; times are the numbers of one UTC clock, so `_store_value` changes nothing.
pub mod Rows
pub mod Kept
pub mod Held
use gitlab_reviewer.Prelude.{
  ℕ, ◌+◌, Bool, true, false, not, ◌&&◌, ◌||◌, Option, none, some, List, [], ◌∷◌, ◌++◌, map, ◌==◌,
  if◌then◌else◌, keep_if, Text, codes, strip, text_eq,
}
use gitlab_reviewer.Models.{MergeRequest, SettingsRow, Db}
use gitlab_reviewer.Secrets.{is_nil}
use gitlab_reviewer.Scheduling.{elem}

abbrev pub Mrs : Type 0
Mrs = List MergeRequest

-- app/schemas/mr.py
pub record MrSnapshot : Type 0 where
  pub iid : ℕ
  pub title : Text
  pub author : Text
  pub source_branch : Text
  pub target_branch : Text
  pub sha : Text
  pub web_url : Text
  pub state : Text
  pub updated_at : Option ℕ

-- A call that returns or raises `GitLabError` or `RequestException` with a text.
pub data Fetched {ℓ} (A : Type ℓ) : Type ℓ where
  got : A → Fetched A
  failed : Text → Fetched A

pub record GitLab : Type 0 where
  pub list_open_merge_requests : Fetched (List MrSnapshot)
  pub get_project_default_branch : Fetched (Option Text)
  pub get_merge_request : ℕ → Fetched MrSnapshot

-- "added", "updated" or "unchanged"
pub data Upserted : Type 0 where
  added updated unchanged : Upserted

pub record Counts : Type 0 where
  pub added : ℕ
  pub updated : ℕ
  pub unchanged : ℕ

-- The select by (project, iid).
abbrev pub is_row : Text → ℕ → MergeRequest → Bool
is_row project iid m = text_eq m.project project && m.iid == iid

unfoldable pub find_mr : Text → ℕ → Mrs → Option MergeRequest
find_mr project iid [] = none
find_mr project iid (m ∷ ms) =
    let rest = find_mr project iid ms in if is_row project iid m then some m else rest

abbrev pub time_eq : Option ℕ → Option ℕ → Bool
time_eq none none = true
time_eq (some a) (some b) = a == b
time_eq none (some b) = false
time_eq (some a) none = false

-- `_SYNCED_FIELDS`, compared
unfoldable pub same_fields : MergeRequest → MrSnapshot → Bool
same_fields m s =
    text_eq m.title s.title
    && (text_eq m.author s.author
        && (text_eq m.source_branch s.source_branch
            && (text_eq m.target_branch s.target_branch
                && (text_eq m.sha s.sha
                    && (text_eq m.web_url s.web_url
                        && (text_eq m.state s.state && time_eq m.updated_at s.updated_at))))))

-- `_SYNCED_FIELDS`, assigned
abbrev pub with_fields : MrSnapshot → MergeRequest → MergeRequest
with_fields s m = record m {
  title = s.title;
  author = s.author;
  source_branch = s.source_branch;
  target_branch = s.target_branch;
  sha = s.sha;
  web_url = s.web_url;
  state = s.state;
  updated_at = s.updated_at;
}

unfoldable pub new_mr : ℕ → Text → MrSnapshot → ℕ → MergeRequest
new_mr id project s now = record {
  id = id;
  project = project;
  iid = s.iid;
  title = s.title;
  author = s.author;
  source_branch = s.source_branch;
  target_branch = s.target_branch;
  sha = s.sha;
  web_url = s.web_url;
  state = s.state;
  updated_at = s.updated_at;
  last_seen_at = some now;
}

abbrev pub seen_at : ℕ → MergeRequest → MergeRequest
seen_at now m = record m { last_seen_at = some now }

-- The row as the session writes it.
abbrev pub refreshed : MrSnapshot → ℕ → MergeRequest → MergeRequest
refreshed s now m = seen_at now (if same_fields m s then m else with_fields s m)

unfoldable pub update_mr : ℕ → (MergeRequest → MergeRequest) → Mrs → Mrs
update_mr i f ms = map (λ m. if m.id == i then f m else m) ms

-- `_upsert_snapshot` on the row that the select found; `new_id` is the id of an insert.
abbrev pub upsert_found :
    (Mrs → ℕ) → Text → MrSnapshot → ℕ → Option MergeRequest → Mrs → Mrs × Upserted
upsert_found new_id project s now none ms =
    (ms ++ new_mr (new_id ms) project s now ∷ [], Upserted.added)
upsert_found new_id project s now (some m) ms = (
  update_mr m.id (refreshed s now) ms,
  if same_fields m s then Upserted.unchanged else Upserted.updated,
)

unfoldable pub upsert_snapshot : (Mrs → ℕ) → Text → MrSnapshot → ℕ → Mrs → Mrs × Upserted
upsert_snapshot new_id project s now ms =
    upsert_found new_id project s now (find_mr project s.iid ms) ms

abbrev pub count : Upserted → Counts → Counts
count Upserted.added c = record c { added = c.added + 1 }
count Upserted.updated c = record c { updated = c.updated + 1 }
count Upserted.unchanged c = record c { unchanged = c.unchanged + 1 }

-- The else branch takes all but "updated".
abbrev pub count_refetched : Upserted → Counts → Counts
count_refetched Upserted.updated c = record c { updated = c.updated + 1 }
count_refetched _ c = record c { unchanged = c.unchanged + 1 }

unfoldable pub upsert_all : (Mrs → ℕ) → Text → ℕ → List MrSnapshot → Mrs × Counts → Mrs × Counts
upsert_all new_id project now [] (ms, c) = (ms, c)
upsert_all new_id project now (s ∷ ss) (ms, c) =
    let r = upsert_snapshot new_id project s now ms in
    upsert_all new_id project now ss (r.0, count r.1 c)

-- One round of the loop over the stale rows, after the refetch.
abbrev pub refetched : (Mrs → ℕ) → Text → ℕ → Fetched MrSnapshot → Mrs × Counts → Mrs × Counts
refetched new_id project now (failed e) (ms, c) = (ms, c)
refetched new_id project now (got s) (ms, c) =
    let r = upsert_snapshot new_id project s now ms in (r.0, count_refetched r.1 c)

unfoldable pub refetch_stale :
    GitLab → (Mrs → ℕ) → Text → ℕ → List ℕ → Mrs → Mrs × Counts → Mrs × Counts
refetch_stale g new_id project now seen [] r = r
refetch_stale g new_id project now seen (m ∷ stale) r =
    refetch_stale g new_id project now seen stale
      (if elem m.iid seen then r else refetched new_id project now (g.get_merge_request m.iid) r)

abbrev pub is_opened : Text → MergeRequest → Bool
is_opened project m = text_eq m.project project && text_eq m.state (codes "opened")

abbrev pub with_branch : Fetched (Option Text) → SettingsRow → SettingsRow
with_branch (failed e) row = row
with_branch (got branch) row = record row { gitlab_default_branch = branch }

-- What `sync_open_mrs` returns: the counts, or the error message with zeros.
pub data Report : Type 0 where
  synced : Counts → Report
  not_synced : Text → Report

-- The table after both loops, with the counts.
unfoldable pub synced_rows : GitLab → (Mrs → ℕ) → Text → ℕ → List MrSnapshot → Mrs → Mrs × Counts
synced_rows g new_id project now snaps ms =
    let r =
      upsert_all new_id project now snaps (ms, record { added = 0; updated = 0; unchanged = 0 }) in
    refetch_stale g new_id project now (map (λ s. s.iid) snaps) (keep_if (is_opened project) r.0) r

abbrev pub sync_listed : GitLab → (Mrs → ℕ) → ℕ → Fetched (List MrSnapshot) → Db → Db × Report
sync_listed g new_id now (failed e) db = (db, not_synced e)
sync_listed g new_id now (got snaps) db =
    let r = synced_rows g new_id db.settings.gitlab_project now snaps db.merge_requests in
    (
      record db {
        settings = with_branch g.get_project_default_branch db.settings;
        merge_requests = r.0;
      },
      synced r.1,
    )

abbrev pub is_blank : Text → Bool
is_blank s = is_nil (strip s)

unfoldable pub sync_open_mrs : GitLab → (Mrs → ℕ) → ℕ → Db → Db × Report
sync_open_mrs g new_id now db =
    if is_blank db.settings.gitlab_url
      || (is_blank db.settings.gitlab_project || is_blank db.settings.gitlab_token)
    then (
      db,
      not_synced
          (codes "GitLab is not configured yet — set the URL, project and token in Settings."),
    )
    else sync_listed g new_id now g.list_open_merge_requests db
