-- ===== src/Runner/Run.antt =====
-- `run` and `main` of containers/review-runner/entrypoint.py with the prompt and the session export.
-- The rendering of the configuration, opencode and the files answer by parameters; the lines for the
-- log are not modelled.
use gitlab_reviewer.Runner.Opencode.{Attempts, run_opencode}
use gitlab_reviewer.Prelude.{
  ℕ, not, ◌&&◌, take, ℤ, pos, Bool, true, false, Option, none, some, List, [], ◌∷◌, ◌++◌,
  if◌then◌else◌, rstrip_by, strip, is_space, join, Text, codes,
}
use gitlab_reviewer.Models.{Json, string, object, Fields, end, field}
use gitlab_reviewer.Secrets.{is_nil, scrub, runner_secrets, Env}
use gitlab_reviewer.Secrets.Runner.{scrub_value}
use gitlab_reviewer.Python.{Python}
use gitlab_reviewer.ExtraProjects.{Urls}
use gitlab_reviewer.Runner.Fences.{extract_result}
use gitlab_reviewer.Render.{newline, blank_line}
use gitlab_reviewer.Runner.Clones.{
  Answer, Clones, Container, Prepared, Trace, clone_extra_projects, clone_target, crashed, env_text,
  failed, ready, refused, succeeded, unavailable, Export, no_session, export_raises, prints,
  Writing, whole, unopened, cut,
}

abbrev pub required_env : List Text
required_env =
    codes "GITLAB_URL"
    ∷ codes "TARGET_PROJECT"
    ∷ codes "MR_IID"
    ∷ codes "SOURCE_BRANCH"
    ∷ codes "TARGET_BRANCH"
    ∷ codes "OPENCODE_PROVIDER"
    ∷ codes "OPENCODE_MODEL"
    ∷ codes "REVIEW_PROMPT"
    ∷ codes "REVIEW_TIMEOUT_SECONDS"
    ∷ []

unfoldable pub missing_keys : Env → List Text → List Text
missing_keys env [] = []
missing_keys env (key ∷ keys) =
    let rest = missing_keys env keys in if is_nil (env_text key env) then key ∷ rest else rest

-- `_build_prompt`
unfoldable pub build_prompt : Env → Text
build_prompt env =
    let source = env_text (codes "SOURCE_BRANCH") env in
    let target = env_text (codes "TARGET_BRANCH") env in
    rstrip_by is_space (env_text (codes "REVIEW_PROMPT") env)
    ++ (blank_line
        ++ join newline (
            codes "## Working tree and diff"
            ∷ (codes "- The MR head ("
                ++ (source ++ codes ") is checked out in the current directory."))
            ∷ (codes "- The base branch is available as origin/" ++ (target ++ codes "."))
            ∷ (codes "- Produce the MR diff with: git diff origin/" ++ (target ++ codes "...HEAD"))
            ∷ codes "- Any extra library repos are mounted read-only under /work/lib/."
            ∷ []))

-- The files below /out.
pub record Files : Type 0 where
  pub result_json : Option Text
  pub result_md : Option Text
  pub session_json : Option Text

abbrev pub no_files : Files
no_files = record { result_json = none; result_md = none; session_json = none }

-- How a run ends, an exception being no code, with the commands given to git.
pub record Ended : Type 0 where
  pub code : Option ℤ
  pub trace : Trace
  pub files : Files

abbrev pub failure : Trace → Ended
failure trace = record { code = some (pos 1); trace = trace; files = no_files }

abbrev pub exception : Trace → Files → Ended
exception trace files = record { code = none; trace = trace; files = files }

-- A field of the envelope that keeps an export that is no JSON.
abbrev pub envelope : Container → Text → Fields
envelope c raw =
    field (codes "warning")
      (string (codes "opencode export produced invalid JSON; the raw output is preserved below."))
      (field (codes "parse_error") (string (c.parse_error raw))
        (field (codes "raw") (string raw) end))

abbrev pub rendered : Container → Json → Text
rendered c j = c.dumps_indented (scrub_value (runner_secrets c.env) j) ++ newline

abbrev pub session_text : Container → Text → Option Json → Option Text
session_text c raw none = some (rendered c (object (envelope c raw)))
session_text c raw (some (object fs)) = some (rendered c (object fs))
session_text c raw (some j) = none

-- The file after `write_text`; every writing but a whole one raises.
abbrev pub put_text : Writing → Text → Option Text
put_text whole t = some t
put_text unopened t = none
put_text (cut k) t = some (take k t)

abbrev pub raises : Writing → Bool
raises whole = false
raises unopened = true
raises (cut k) = true

-- An OSError of the writing is caught.
abbrev pub write_session : Container → Option Text → Files → Bool × Files
write_session c none files = (false, files)
write_session c (some t) files = (
  raises c.writes_session && not c.session_caught,
  record files { session_json = put_text c.writes_session t },
)

abbrev pub captured : Python → Container → Export → Files → Bool × Files
captured py c no_session files = (false, files)
captured py c export_raises files = (true, files)
captured py c (prints raw) files = write_session c (session_text c raw (py.loads raw)) files

-- `_capture_session` from the export on: whether it raises, and the files.
unfoldable pub capture_session : Python → Container → Files → Bool × Files
capture_session py c files = captured py c c.exported files

-- The result or the markdown is written: whether that raises, and the files.
unfoldable pub write_result : Container → Text → Option Json → Bool × Files
write_result c output (some result) = (
  raises c.writes_result,
  record no_files { result_json = put_text c.writes_result (rendered c result) },
)
write_result c output none = if is_nil (strip output) then (false, no_files) else (
  raises c.writes_markdown,
  record no_files { result_md = put_text c.writes_markdown (scrub (runner_secrets c.env) output) },
)

abbrev pub ended_with : Trace → ℤ → Bool × Files → Ended
ended_with trace code (true, files) = exception trace files
ended_with trace code (false, files) = record { code = some code; trace = trace; files = files }

abbrev pub finish : Python → Container → Trace → ℤ → Bool × Files → Ended
finish py c trace code (true, files) = exception trace files
finish py c trace code (false, files) = ended_with trace code (capture_session py c files)

abbrev pub after_opencode : Python → Container → Trace → Option (ℤ × Text) → Ended
after_opencode py c trace none = exception trace no_files
after_opencode py c trace (some (code, output)) =
    finish py c trace code (write_result c output (extract_result py output))

abbrev pub answer_of : ℕ → Option Attempts → Option (ℤ × Text)
answer_of timeout none = none
answer_of timeout (some r) = some (run_opencode timeout r)

-- `_run_opencode(prompt, config_path, timeout)`
unfoldable pub opencode_answer : Container → Option (ℤ × Text)
opencode_answer c =
    answer_of (c.ticks (env_text (codes "REVIEW_TIMEOUT_SECONDS") c.env))
      (c.opencode (build_prompt c.env))

abbrev pub after_config : Python → Container → Trace → Prepared → Ended
after_config py c trace ready = after_opencode py c trace (opencode_answer c)
after_config py c trace refused = failure trace
after_config py c trace crashed = exception trace no_files

abbrev pub after_extra_projects : Python → Container → Prepared × Clones → Ended
after_extra_projects py c (ready, k) = after_config py c k.trace c.config
after_extra_projects py c (refused, k) = failure k.trace
after_extra_projects py c (crashed, k) = exception k.trace no_files

abbrev pub after_target : Python → Urls → Container → Answer × Trace → Ended
after_target py urls c (succeeded, trace) =
    after_extra_projects py c (clone_extra_projects py urls c trace)
after_target py urls c (failed, trace) = failure trace
after_target py urls c (unavailable, trace) = failure trace

abbrev pub prepare : Python → Urls → Container → Ended
prepare py urls c = if c.makes_dirs then after_target py urls c (clone_target c) else failure []

abbrev pub no_keys : List Text → Bool
no_keys [] = true
no_keys (k ∷ ks) = false

unfoldable pub run : Python → Urls → Container → Ended
run py urls c =
    if no_keys (missing_keys c.env required_env)
    then (if c.numeric (env_text (codes "REVIEW_TIMEOUT_SECONDS") c.env)
        then prepare py urls c
        else failure [])
    else failure []

abbrev pub code_or_one : Option ℤ → ℤ
code_or_one none = pos 1
code_or_one (some code) = code

-- `main`: the code of the process, with the files that are left.
unfoldable pub main : Python → Urls → Container → ℤ × Files
main py urls c = let r = run py urls c in (code_or_one r.code, r.files)
