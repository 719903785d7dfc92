-- ===== src/Runner/Files.antt =====
-- What `main` of containers/review-runner/entrypoint.py leaves in result.json, result.md and
-- session.json.
use gitlab_reviewer.Prelude.{ℕ, take, true, false, not, Option, none, some, ◌≡◌, ◌⊎◌, ◌++◌, Text}
use gitlab_reviewer.Models.{Json}
use gitlab_reviewer.Secrets.Absent.{occurs}
use gitlab_reviewer.Secrets.Trees.{every_text}
use gitlab_reviewer.Python.{Python}
use gitlab_reviewer.Render.{newline}
use gitlab_reviewer.Runner.Clones.{Container, Clones}
use gitlab_reviewer.Runner.Run.{Files}

-- A JSON file: not written, or the rendering of a value with no secret in its strings and keys, cut
-- short where the writing is. `every_text` takes every JSON number.
pub data IsJsonFile (secret : Text) (c : Container) : Option Text → Type 0 where
  unwritten : IsJsonFile secret c none
  written :
      (j : Json)
      → every_text (λ t. not (occurs secret t)) j ≡ true
      → IsJsonFile secret c (some (c.dumps_indented j ++ newline))
  cut_short :
      (k : ℕ) (j : Json)
      → every_text (λ t. not (occurs secret t)) j ≡ true
      → IsJsonFile secret c (some (take k (c.dumps_indented j ++ newline)))

-- The markdown file: not written, or without the secret.
pub data IsTextFile (secret : Text) : Option Text → Type 0 where
  unwritten : IsTextFile secret none
  written : (t : Text) → occurs secret t ≡ false → IsTextFile secret (some t)

pub record IsScrubbed (secret : Text) (c : Container) (files : Files) : Type 0 where
  pub result : IsJsonFile secret c files.result_json
  pub markdown : IsTextFile secret files.result_md
  pub session : IsJsonFile secret c files.session_json
  pub one : (files.result_json ≡ none) ⊎ (files.result_md ≡ none)
