-- ===== src/Examples/Containers.antt =====
-- The commands of app/orchestrator/podman_client.py for one image.
use gitlab_reviewer.Prelude.{true, ◌≡◌, refl, ◌↔◌, List, [], ◌∷◌, In, Text, codes}
use gitlab_reviewer.Secrets.{Env}
use gitlab_reviewer.Podman.{PodmanOrchestrator, image_allowed, build_argv}
use gitlab_reviewer.Podman.Allowed.{IsBelow, image_allowed_iff}
use gitlab_reviewer.Podman.Arguments.{build_argv-env_keys}
use gitlab_reviewer.Examples.{token_env}

abbrev podman : PodmanOrchestrator
podman = record {
  image = codes "reviewer:latest";
  network = codes "bridge";
  timeout = codes "600";
  memory = codes "2g";
  cpus = codes "2";
  pids_limit = 256;
  podman_bin = codes "podman";
}

abbrev reviewer_only : List Text
reviewer_only = codes "reviewer" ∷ []

image_allowed_iff_example :
    (image_allowed (codes "reviewer:latest") reviewer_only ≡ true)
    ↔ ((entry : Text) × In entry reviewer_only × IsBelow (codes "reviewer:latest") entry)
image_allowed_iff_example = image_allowed_iff (codes "reviewer:latest") reviewer_only

abbrev other_env : Env
other_env = (codes "GITLAB_TOKEN", []) ∷ []

build_argv-env_keys_example :
    build_argv podman token_env (codes "/tmp/out") (codes "mr-review-1-ab") []
    ≡ build_argv podman other_env (codes "/tmp/out") (codes "mr-review-1-ab") []
build_argv-env_keys_example =
    build_argv-env_keys podman token_env other_env (codes "/tmp/out") (codes "mr-review-1-ab") []
      refl
