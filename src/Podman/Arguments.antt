-- ===== src/Podman/Arguments.antt =====
-- The arguments of `podman run` and the outcome of the container, app/orchestrator/podman_client.py.
use gitlab_reviewer.Prelude.{
  ℤ, is_zero, Bool, true, false, Option, none, ◌≡◌, refl, sym, ap, ◌∙◌, ◌↔◌, inl, inr, List, [],
  ◌∷◌, map, Bool-cases, Text, codes,
}
use gitlab_reviewer.Models.{Json, is_success}
use gitlab_reviewer.Secrets.{Env}
use gitlab_reviewer.Outcome.{outcome_status}
use gitlab_reviewer.Podman.{PodmanOrchestrator, env_flags, build_argv, ended_error, ended_outcome}

abbrev pub env_keys : Env → List Text
env_keys env = map (λ (e : Text × Text). e.0) env

-- The flags as a function of the keys.
key_flags : List Text → List Text
key_flags [] = []
key_flags (k ∷ ks) = codes "-e" ∷ k ∷ key_flags ks

env_flags-key_flags : (env : Env) → env_flags env ≡ key_flags (env_keys env)
unfolding env_flags key_flags
env_flags-key_flags [] = refl
env_flags-key_flags ((k, v) ∷ env) = ap (λ l. codes "-e" ∷ k ∷ l) (env_flags-key_flags env)

-- Two environments with the same keys give the same arguments, so no value of the environment, and
-- no secret in it, has any part in them.
pub build_argv-env_keys :
    (o : PodmanOrchestrator) (env env' : Env) (out_dir name : Text) (mounts : List (Text × Text))
    → env_keys env ≡ env_keys env'
    → build_argv o env out_dir name mounts ≡ build_argv o env' out_dir name mounts
unfolding build_argv
build_argv-env_keys o env env' out_dir name mounts h =
    rw (env_flags-key_flags env ∙ ap key_flags h ∙ sym (env_flags-key_flags env')) refl

-- A container that ended is stored as a success exactly when its outcome has no error.
pub ended_outcome-success :
    (o : PodmanOrchestrator) (timed_out : Bool) (exit_code : ℤ) (result_json : Option Json)
    (result_markdown : Option Text) (session_json : Option Json)
    → (is_success (
          outcome_status
            (ended_outcome o timed_out exit_code result_json result_markdown session_json))
        ≡ true)
      ↔ ((ended_outcome o timed_out exit_code result_json result_markdown session_json).error
          ≡ none)
unfolding ended_outcome ended_error outcome_status
ended_outcome-success o true exit_code j m s = ((λ h. cc), (λ h. cc))
ended_outcome-success o false exit_code j m s = elim (Bool-cases (is_zero exit_code)) [
  | inl z ↦ rw z ((λ h. refl), (λ h. refl))
  | inr z ↦ rw z ((λ h. cc), (λ h. cc))
]
