-- ===== src/Runner/Config.antt =====
-- The provider block that `_render_opencode_config` of containers/review-runner/entrypoint.py makes of
-- its environment. `str.isdigit` and `int` are parameters; the template and the file are not modelled.
use gitlab_reviewer.Prelude.{
  ℕ, zero, suc, Bool, if◌then◌else◌, strip, decimal, Text, text_eq, codes,
}
use gitlab_reviewer.Models.{Json, string, number, object, Fields, end, field}
use gitlab_reviewer.Secrets.{is_nil, Env}
use gitlab_reviewer.Runner.Clones.{env_text}

pub record Digits : Type 0 where
  pub isdigit : Text → Bool
  -- `int(text)` of a text that passes `isdigit`.
  pub int : Text → ℕ

abbrev pub runner_key_field : Text → Fields
runner_key_field key = if is_nil key then end else field (codes "apiKey") (string key) end

abbrev pub runner_limit_of : ℕ → Fields
runner_limit_of zero = end
runner_limit_of (suc n) =
    field (codes "limit")
      (object (
        field (codes "context") (number (decimal (suc n)))
          (field (codes "output") (number (codes "32768")) end)))
      end

abbrev pub runner_limit : Digits → Text → Fields
runner_limit d context = if d.isdigit context then runner_limit_of (d.int context) else end

abbrev pub custom_block : Digits → Text → Text → Text → Text → Json
custom_block d model base_url key context = object (
    field (codes "npm") (string (codes "@ai-sdk/openai-compatible")) (
      field (codes "options")
        (object (field (codes "baseURL") (string base_url) (runner_key_field key)))
        (field (codes "models")
          (object (
            field model
              (object (field (codes "name") (string model) (runner_limit d (strip context)))) end))
          end)))

abbrev pub anthropic_block : Text → Json
anthropic_block key = object (
    field (codes "npm") (string (codes "@ai-sdk/anthropic"))
      (field (codes "options") (object (runner_key_field key)) end))

abbrev pub block_from : Digits → Text → Text → Text → Text → Text → Json
block_from d provider model base_url key context =
    if text_eq provider (codes "anthropic")
    then anthropic_block key
    else custom_block d model base_url key context

unfoldable pub runner_block : Digits → Env → Json
runner_block d env =
    block_from d (env_text (codes "OPENCODE_PROVIDER") env) (env_text (codes "OPENCODE_MODEL") env)
      (env_text (codes "OPENCODE_BASE_URL") env) (env_text (codes "OPENCODE_API_KEY") env)
      (env_text (codes "OPENCODE_MODEL_CONTEXT") env)
