-- ===== src/Examples/Running.antt =====
-- A container whose opencode prints one block with an empty object.
use gitlab_reviewer.Runner.Opencode.{
  Attempt, Attempts, nothing, line, add_item, concat_lines, stream, run_opencode_once, run_opencode,
}
use gitlab_reviewer.Runner.Streamed.{in_time, early_text, drained_text, run_opencode_once_lem}
use gitlab_reviewer.Runner.Log.{strip_ansi, strip_from, ansi_at}
use gitlab_reviewer.Secrets.Absent.{occurs}
use gitlab_reviewer.Prelude.{
  if◌then◌else◌, ◌+◌, ◌++◌, pos, true, none, some, ◌≡◌, refl, [], ◌∷◌, codes, Text, strip, strip_by,
  rstrip_by, drop_while,
}
use gitlab_reviewer.Secrets.{
  Env, put_field, replace_from, scrub, runner_secrets, env_value, starts_with, secret_env_values,
  values_of,
}
use gitlab_reviewer.Python.{get, member}
use gitlab_reviewer.Runner.{normalize_result, normal_fields, coerced_items}
use gitlab_reviewer.Render.{newline}
use gitlab_reviewer.Models.{Json, null, boolean, number, string, array, object, Fields, end, field}
use gitlab_reviewer.Secrets.Runner.{scrub_value}
use gitlab_reviewer.Runner.Fences.{
  fence, extract_result, last_block, blocks_from, block_at, after_opening, skip_blanks, up_to_fence,
}
use gitlab_reviewer.Runner.Clones.{
  succeeded, ready, Container, no_session, prints, whole, env_text, clone_target,
  clone_extra_projects,
}
use gitlab_reviewer.Runner.Run.{
  opencode_answer, missing_keys, write_result, capture_session, run, main,
}
use gitlab_reviewer.Examples.{python, urls, token}

-- A run of two seconds that prints the block and ends with 0.
abbrev short_attempt : Attempt
short_attempt = record {
  started = 1;
  polls =
      record { now = 2; got = line (fence ++ (codes "json" ++ newline)) }
      ∷ record { now = 2; got = nothing }
      ∷ record { now = 2; got = line (codes "{}" ++ newline) }
      ∷ record { now = 2; got = line (fence ++ newline) }
      ∷ [];
  closed = 3;
  drained = [];
  exit_code = pos 0;
}

abbrev pub attempts : Attempts
attempts = record { began = 1; thinking = short_attempt; ended = 3; plain = short_attempt }

abbrev pub container : Env → Container
container env = record {
  env = env;
  work = codes "/work";
  numeric = λ t. true;
  git = λ args. succeeded;
  clears = true;
  mounted_paths = [];
  there = λ present path. member path present;
  makes_dirs = true;
  config = ready;
  ticks = λ t. 60;
  opencode = λ prompt. some attempts;
  exported = no_session;
  parse_error = λ t. [];
  dumps_indented = λ j. codes "{}";
  writes_result = whole;
  writes_markdown = whole;
  writes_session = whole;
  session_caught = true;
}

-- The required variables and a token.
abbrev full_env : Env
full_env =
    (codes "GITLAB_URL", codes "https://h")
    ∷ (codes "TARGET_PROJECT", codes "g/p")
    ∷ (codes "MR_IID", codes "12")
    ∷ (codes "SOURCE_BRANCH", codes "fix")
    ∷ (codes "TARGET_BRANCH", codes "main")
    ∷ (codes "OPENCODE_PROVIDER", codes "local")
    ∷ (codes "OPENCODE_MODEL", codes "m")
    ∷ (codes "REVIEW_PROMPT", codes "look")
    ∷ (codes "REVIEW_TIMEOUT_SECONDS", codes "60")
    ∷ (codes "GITLAB_TOKEN", token)
    ∷ []

-- opencode prints the token, and its session is exported with it.
abbrev leaking_attempt : Attempt
leaking_attempt = record short_attempt {
  polls = record { now = 2; got = line (token ++ newline) } ∷ [];
}

-- The text of the last field alone.
unfoldable mutual
  dump : Json → Text
  dump (string t) = t
  dump (object fs) = dump_last [] fs
  dump null = []
  dump (boolean b) = []
  dump (number n) = []
  dump (array xs) = []

  dump_last : Text → Fields → Text
  dump_last t end = t
  dump_last t (field k v fs) = dump_last (dump v) fs

abbrev leaking : Container
leaking = record (container full_env) {
  opencode = λ prompt.
      some record { began = 1; thinking = leaking_attempt; ended = 3; plain = leaking_attempt };
  exported = prints token;
  parse_error = λ t. t;
  dumps_indented = dump;
}

leaking-files : main python urls leaking ≡ (
  pos 0,
  record {
    result_json = none;
    result_md = some (codes "***" ++ newline);
    session_json = some (codes "***" ++ newline);
  },
)
unfolding main scrub_value replace_from scrub runner_secrets secret_env_values values_of run
    opencode_answer run_opencode run_opencode_once stream concat_lines add_item strip_ansi
    strip_from ansi_at occurs missing_keys env_text env_value clone_target clone_extra_projects
    strip strip_by rstrip_by drop_while write_result extract_result last_block blocks_from block_at
    after_opening starts_with skip_blanks up_to_fence normalize_result normal_fields get
    coerced_items capture_session dump put_field
leaking-files = refl

run_opencode_once_lem_example : run_opencode_once 1 short_attempt ≡ (
    if in_time (1 + 1) short_attempt.polls 3
    then (pos 0, early_text (1 + 1) short_attempt.polls)
    else (pos 124, early_text (1 + 1) short_attempt.polls ++ drained_text []))
run_opencode_once_lem_example = run_opencode_once_lem 1 short_attempt
