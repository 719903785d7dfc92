-- ===== src/Podman.antt =====
-- app/orchestrator/podman_client.py: the allowlist of images, the arguments of `podman run` and the
-- outcome of a container that ended. Processes and files are not modelled: what podman answered and
-- what the result files hold are arguments.
pub mod Allowed
pub mod Arguments
use gitlab_reviewer.Prelude.{
  ℕ, suc, ℤ, pos, negsuc, is_zero, Bool, true, false, ◌||◌, not, Option, none, some, List, [], ◌∷◌,
  ◌++◌, map, ◌==◌, if◌then◌else◌, keep_if, Text, codes, strip, split, text_eq, decimal, decimal_int,
}
use gitlab_reviewer.Models.{Json}
use gitlab_reviewer.Secrets.{starts_with, is_nil, Env}
use gitlab_reviewer.Outcome.{RunOutcome}

-- `any(...)` over the entries: the image is an entry, or an entry with "/" or ":" is a prefix of it.
unfoldable pub is_under : Text → Text → Bool
is_under image entry =
    text_eq image entry
    || (starts_with (entry ++ codes "/") image || starts_with (entry ++ codes ":") image)

unfoldable pub image_allowed : Text → List Text → Bool
image_allowed image [] = false
image_allowed image (entry ∷ entries) = is_under image entry || image_allowed image entries

abbrev pub or_default_image : List Text → Text → List Text
or_default_image [] image = image ∷ []
or_default_image (e ∷ es) image = e ∷ es

-- `_allowlist`, of the two settings that it reads.
unfoldable pub allowlist : Text → Text → List Text
allowlist raw review_image =
    or_default_image (keep_if (λ e. not (is_nil e)) (map strip (split 44 raw))) review_image

-- The attributes of a `PodmanOrchestrator` that its commands use.
pub record PodmanOrchestrator : Type 0 where
  pub image : Text
  pub network : Text
  pub timeout : Text
  pub memory : Text
  pub cpus : Text
  pub pids_limit : ℕ
  pub podman_bin : Text

-- The end of `__init__`, which raises where the image is not allowed.
unfoldable pub checked : Text → Text → PodmanOrchestrator → Option PodmanOrchestrator
checked raw review_image o =
    if image_allowed o.image (allowlist raw review_image) then some o else none

unfoldable pub env_flags : Env → List Text
env_flags [] = []
env_flags ((key, value) ∷ env) = codes "-e" ∷ key ∷ env_flags env

unfoldable pub lib_flags : List (Text × Text) → List Text
lib_flags [] = []
lib_flags ((host, lib) ∷ mounts) =
    codes "--mount"
    ∷ (codes "type=bind,src=" ++ (host ++ (codes ",dst=/work/lib/" ++ (lib ++ codes ",ro,Z"))))
    ∷ lib_flags mounts

unfoldable pub build_argv : PodmanOrchestrator → Env → Text → Text → List (Text × Text) → List Text
build_argv o env out_dir name lib_mounts =
    (o.podman_bin
      ∷ codes "run"
      ∷ (codes "--memory=" ++ o.memory)
      ∷ (codes "--cpus=" ++ o.cpus)
      ∷ (codes "--pids-limit=" ++ decimal o.pids_limit)
      ∷ codes "--security-opt"
      ∷ codes "no-new-privileges"
      ∷ codes "--userns=keep-id"
      ∷ (codes "--network=" ++ o.network)
      ∷ (codes "--name=" ++ name)
      ∷ env_flags env)
    ++ ((codes "--mount" ∷ (codes "type=bind,src=" ++ (out_dir ++ codes ",dst=/out,Z")) ∷ [])
        ++ (lib_flags lib_mounts ++ o.image ∷ []))

-- The error of a container that ended.
unfoldable pub ended_error : Text → Bool → ℤ → Option Text
ended_error timeout timed_out exit_code =
    if timed_out
    then some (codes "review timed out after " ++ (timeout ++ codes "s"))
    else if is_zero exit_code
    then none
    else some (codes "review container exited with code " ++ decimal_int exit_code)

-- What `run_review` returns after `_run_streaming` and the reading of the result files.
unfoldable pub ended_outcome :
    PodmanOrchestrator → Bool → ℤ → Option Json → Option Text → Option Json → RunOutcome
ended_outcome o timed_out exit_code result_json result_markdown session_json = record {
  exit_code = exit_code;
  result_json = result_json;
  result_markdown = result_markdown;
  session_json = session_json;
  error = ended_error o.timeout timed_out exit_code;
  timed_out = timed_out;
}
