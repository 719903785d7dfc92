-- ===== src/Runner/Clones.antt =====
-- The clones of containers/review-runner/entrypoint.py: `_clone_target` and `_clone_extra_projects`, and
-- what the runner meets. git and the file system answer by parameters; `_make_read_only`, which is best
-- effort, is not modelled.
use gitlab_reviewer.Runner.Opencode.{Attempts}
use gitlab_reviewer.Prelude.{
  ℕ, Bool, Option, none, some, List, [], ◌∷◌, ◌++◌, if◌then◌else◌, rstrip_by, strip_by, strip,
  is_slash, Text, codes,
}
use gitlab_reviewer.Models.{Json, array, object, Items, nil, cons, Fields}
use gitlab_reviewer.Secrets.{is_nil, env_value, Env}
use gitlab_reviewer.Python.{Python, stripped, climbs}
use gitlab_reviewer.ExtraProjects.{Urls, entry_path, entry_url, derive_path}

-- How a call of git ends: well, with an exit code (RuntimeError), or not at all (OSError).
pub data Answer : Type 0 where
  succeeded failed unavailable : Answer

-- How a part of the preparation ends: well, with an OSError or a RuntimeError, or with another
-- exception.
pub data Prepared : Type 0 where
  ready refused crashed : Prepared

-- The commands given to git so far.
abbrev pub Trace : Type 0
Trace = List (List Text)

-- `opencode export` for the session that is found: there is no session or the export fails, an
-- exception that is not caught, or what it prints.
pub data Export : Type 0 where
  no_session export_raises : Export
  prints : Text → Export

-- `Path.write_text`: to the end, without a file, or up to some character.
pub data Writing : Type 0 where
  whole unopened : Writing
  cut : ℕ → Writing

pub record Container : Type 0 where
  pub env : Env
  -- `WORK_DIR` as text.
  pub work : Text
  -- `float(text)` returns.
  pub numeric : Text → Bool
  pub git : List Text → Answer
  -- There is no /work/target, or it is removed.
  pub clears : Bool
  -- The paths below /work/lib that are there at the start.
  pub mounted_paths : List Text
  -- `dest.exists()` for a path below /work/lib, where there are checkouts at the paths.
  pub there : List Text → Text → Bool
  pub makes_dirs : Bool
  -- `_render_opencode_config` with what its file operations meet.
  pub config : Prepared
  -- `float(text)` in ticks of the clock.
  pub ticks : Text → ℕ
  -- What the runs of opencode meet for a prompt; none where the process cannot be started.
  pub opencode : Text → Option Attempts
  pub exported : Export
  -- `str(exc)` of the JSONDecodeError for a text.
  pub parse_error : Text → Text
  -- `json.dumps(value, indent=2, ensure_ascii=False)`
  pub dumps_indented : Json → Text
  -- How the files below /out are written: the result, the markdown, the session.
  pub writes_result : Writing
  pub writes_markdown : Writing
  pub writes_session : Writing
  -- What cuts the session file short is an OSError.
  pub session_caught : Bool

abbrev pub value_or_empty : Option Text → Text
value_or_empty none = []
value_or_empty (some v) = v

-- `os.environ.get(key, "")`, and `os.environ[key]` for a key that is there.
unfoldable pub env_text : Text → Env → Text
env_text key env = value_or_empty (env_value key env)

unfoldable pub target_repo_url : Env → Text
target_repo_url env =
    rstrip_by is_slash (strip (env_text (codes "GITLAB_URL") env))
    ++ (codes "/"
        ++ (strip_by is_slash (strip (env_text (codes "TARGET_PROJECT") env)) ++ codes ".git"))

abbrev pub run_git : (List Text → Answer) → List Text → Trace → Answer × Trace
run_git git args trace = (git args, trace ++ args ∷ [])

-- The statements after a call that returns.
abbrev pub and_then : Answer × Trace → (Trace → Answer × Trace) → Answer × Trace
and_then (succeeded, trace) next = next trace
and_then (failed, trace) next = (failed, trace)
and_then (unavailable, trace) next = (unavailable, trace)

-- `except RuntimeError`
abbrev pub or_else : Answer × Trace → (Trace → Answer × Trace) → Answer × Trace
or_else (succeeded, trace) next = (succeeded, trace)
or_else (failed, trace) next = next trace
or_else (unavailable, trace) next = (unavailable, trace)

abbrev pub merge_request_ref : Env → Text
merge_request_ref env =
    codes "refs/merge-requests/" ++ (env_text (codes "MR_IID") env ++ codes "/head")

-- "<branch>:refs/remotes/origin/<branch>"
abbrev pub branch_refspec : Text → Text
branch_refspec branch = branch ++ (codes ":refs/remotes/origin/" ++ branch)

abbrev pub checkout_head : (List Text → Answer) → Env → Trace → Answer × Trace
checkout_head git env trace =
    and_then (run_git git (codes "fetch" ∷ codes "origin" ∷ merge_request_ref env ∷ []) trace)
      (run_git git (codes "checkout" ∷ codes "--detach" ∷ codes "FETCH_HEAD" ∷ []))

abbrev pub checkout_source : (List Text → Answer) → Text → Trace → Answer × Trace
checkout_source git source trace =
    and_then (run_git git (codes "fetch" ∷ codes "origin" ∷ branch_refspec source ∷ []) trace)
      (run_git git (codes "checkout" ∷ codes "--detach" ∷ (codes "origin/" ++ source) ∷ []))

unfoldable pub clone_target : Container → Answer × Trace
clone_target c =
    if c.clears
    then and_then
        (run_git c.git (codes "clone" ∷ target_repo_url c.env ∷ (c.work ++ codes "/target") ∷ [])
          [])
        (λ t.
          and_then
            (or_else (checkout_head c.git c.env t)
              (checkout_source c.git (env_text (codes "SOURCE_BRANCH") c.env)))
            (run_git c.git (
              codes "fetch"
              ∷ codes "origin"
              ∷ branch_refspec (env_text (codes "TARGET_BRANCH") c.env)
              ∷ [])))
    else (unavailable, [])

-- What is done with an entry: it is passed over, it has a path below /work/lib, or `urlsplit` raises.
pub data Destination : Type 0 where
  nowhere : Destination
  below : Text → Destination
  unreadable : Destination

abbrev pub unless_climbing : Text → Destination
unless_climbing path = if climbs path then nowhere else below path

abbrev pub unless_empty : Option Text → Destination
unless_empty none = unreadable
unless_empty (some path) = if is_nil path then nowhere else unless_climbing path

unfoldable pub destination : Python → Urls → Fields → Destination
destination py urls fs =
    if is_nil (entry_url py fs)
    then nowhere
    else if is_nil (entry_path py fs)
    then unless_empty (derive_path urls (entry_url py fs))
    else unless_climbing (entry_path py fs)

-- The state of the loop: the paths below /work/lib that are there, and the commands given to git.
pub record Clones : Type 0 where
  pub present : List Text
  pub trace : Trace

-- "clone [--branch <ref>] <url> <dest>"
abbrev pub clone_args : Text → Text → Text → List Text
clone_args url ref dest =
    if is_nil ref
    then codes "clone" ∷ url ∷ dest ∷ []
    else codes "clone" ∷ codes "--branch" ∷ ref ∷ url ∷ dest ∷ []

abbrev pub cloned : Answer → Text → List Text → Clones → Prepared × Clones
cloned succeeded path args k =
    (ready, record { present = path ∷ k.present; trace = k.trace ++ args ∷ [] })
cloned failed path args k = (refused, record k { trace = k.trace ++ args ∷ [] })
cloned unavailable path args k = (refused, record k { trace = k.trace ++ args ∷ [] })

abbrev pub run_clone : (List Text → Answer) → Text → List Text → Clones → Prepared × Clones
run_clone git path args k = cloned (git args) path args k

abbrev pub clone_below : Container → Text → Text → Text → Clones → Prepared × Clones
clone_below c url ref path k =
    if c.there k.present path
    then (ready, k)
    else if c.makes_dirs
    then run_clone c.git path (clone_args url ref (c.work ++ (codes "/lib/" ++ path))) k
    else (refused, k)

abbrev pub clone_to : Container → Text → Text → Destination → Clones → Prepared × Clones
clone_to c url ref nowhere k = (ready, k)
clone_to c url ref unreadable k = (crashed, k)
clone_to c url ref (below path) k = clone_below c url ref path k

-- The body of the loop.
unfoldable pub clone_entry : Python → Urls → Container → Json → Clones → Prepared × Clones
clone_entry py urls c (object fs) k =
    clone_to c (entry_url py fs) (stripped py (codes "ref") fs) (destination py urls fs) k
clone_entry py urls c j k = (ready, k)

abbrev pub if_ready : Prepared × Clones → (Clones → Prepared × Clones) → Prepared × Clones
if_ready (ready, k) next = next k
if_ready (refused, k) next = (refused, k)
if_ready (crashed, k) next = (crashed, k)

unfoldable pub clone_each : Python → Urls → Container → Items → Clones → Prepared × Clones
clone_each py urls c nil k = (ready, k)
clone_each py urls c (cons entry entries) k =
    if_ready (clone_entry py urls c entry k) (clone_each py urls c entries)

abbrev pub clone_loaded : Python → Urls → Container → Option Json → Clones → Prepared × Clones
clone_loaded py urls c (some (array entries)) k = clone_each py urls c entries k
clone_loaded py urls c (some j) k = (refused, k)
clone_loaded py urls c none k = (refused, k)

unfoldable pub clone_extra_projects : Python → Urls → Container → Trace → Prepared × Clones
clone_extra_projects py urls c trace =
    let start : Clones = record { present = c.mounted_paths; trace = trace } in
    let raw = strip (env_text (codes "EXTRA_PROJECTS") c.env) in
    if is_nil raw then (ready, start) else clone_loaded py urls c (py.loads raw) start
