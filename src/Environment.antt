-- ===== src/Environment.antt =====
-- What a review container is given: `resolve_api_key` and `build_env` of
-- app/orchestrator/run_review.py, and `_provider_block` of app/orchestrator/opencode_template.py.
pub mod Lookups
pub mod Complete
use gitlab_reviewer.Prelude.{
  ℕ, zero, suc, Option, none, some, List, [], ◌∷◌, ◌++◌, if◌then◌else◌, decimal, Text, codes,
}
use gitlab_reviewer.Models.{
  Json, string, number, array, object, Items, nil, cons, Fields, end, field, ScheduledJob,
  SettingsRow, MergeRequest, ModelProfile, Provider, anthropic, local,
}
use gitlab_reviewer.Secrets.{is_nil, Env}
use gitlab_reviewer.Python.{Python}
use gitlab_reviewer.ExtraProjects.{Urls, normalize_extra_projects}
use gitlab_reviewer.Prompt.{build_review_prompt}

-- The process configuration and what answers beside it.
pub record Host : Type 0 where
  pub llama_base_url : Option Text
  pub anthropic_api_key : Option Text
  pub review_timeout_seconds : ℕ
  -- `os.environ.get(name, "")`
  pub environ : Text → Text
  -- `decrypt_secret`, which raises where it is `none`.
  pub decrypt : Text → Option Text
  -- `json.dumps(value)`
  pub dumps : Json → Text
  -- `RESULT_JSON_SCHEMA`
  pub schema : Text

-- `value or ""`
abbrev pub or_empty : Option Text → Text
or_empty none = []
or_empty (some t) = t

abbrev pub fallback_key : Host → Provider → Text
fallback_key h anthropic = or_empty h.anthropic_api_key
fallback_key h local = []

unfoldable pub resolve_api_key : Host → ModelProfile → Option Text
resolve_api_key h p =
    if is_nil (or_empty p.api_key_env)
    then (if is_nil (or_empty p.api_key)
        then some (fallback_key h p.provider)
        else h.decrypt (or_empty p.api_key))
    else some (h.environ (or_empty p.api_key_env))

abbrev pub provider_text : Provider → Text
provider_text anthropic = codes "anthropic"
provider_text local = codes "local"

abbrev pub or_else_text : Text → Text → Text
or_else_text t other = if is_nil t then other else t

-- `profile.base_url or cfg.llama_base_url or ""`
abbrev pub base_url_of : Host → ModelProfile → Text
base_url_of h p = or_else_text (or_empty p.base_url) (or_empty h.llama_base_url)

abbrev pub key_entry : Text → Env
key_entry key = if is_nil key then [] else (codes "OPENCODE_API_KEY", key) ∷ []

abbrev pub base_url_entry : Host → ModelProfile → Provider → Env
base_url_entry h p anthropic = []
base_url_entry h p local = (codes "OPENCODE_BASE_URL", base_url_of h p) ∷ []

-- `if profile.context_window`, which 0 does not pass.
abbrev pub context_entry : Option ℕ → Env
context_entry none = []
context_entry (some zero) = []
context_entry (some (suc n)) = (codes "OPENCODE_MODEL_CONTEXT", decimal (suc n)) ∷ []

unfoldable pub items_of : List Json → Items
items_of [] = nil
items_of (j ∷ js) = cons j (items_of js)

abbrev pub env_of :
    Host
    → ScheduledJob
    → ModelProfile
    → SettingsRow
    → MergeRequest
    → Text
    → List Json
    → Text
    → Text
    → Env
env_of h job p settings mr token entries prompt key =
    ((codes "GITLAB_URL", settings.gitlab_url)
      ∷ (codes "GITLAB_TOKEN", token)
      ∷ (codes "TARGET_PROJECT", settings.gitlab_project)
      ∷ (codes "MR_IID", decimal mr.iid)
      ∷ (codes "MR_SHA", mr.sha)
      ∷ (codes "SOURCE_BRANCH", mr.source_branch)
      ∷ (codes "TARGET_BRANCH", mr.target_branch)
      ∷ (codes "EXTRA_PROJECTS", h.dumps (array (items_of entries)))
      ∷ (codes "OPENCODE_PROVIDER", provider_text p.provider)
      ∷ (codes "OPENCODE_MODEL", p.model_id)
      ∷ (codes "REVIEW_PROMPT", prompt)
      ∷ (codes "REVIEW_TIMEOUT_SECONDS", decimal h.review_timeout_seconds)
      ∷ (codes "RESULT_PATH", codes "/out/result.json")
      ∷ (codes "LOG_PATH", codes "/out/review.log")
      ∷ (codes "SESSION_PATH", codes "/out/session.json")
      ∷ [])
    ++ (key_entry key ++ (base_url_entry h p p.provider ++ context_entry p.context_window))

abbrev pub token_of : Host → SettingsRow → Option Text
token_of h settings =
    if is_nil settings.gitlab_token then some [] else h.decrypt settings.gitlab_token

abbrev pub all_of :
    Option Text
    → Option (List Json)
    → Option Text
    → Option Text
    → (Text → List Json → Text → Text → Env)
    → Option Env
all_of (some token) (some entries) (some prompt) (some key) f = some (f token entries prompt key)
all_of _ _ _ _ f = none

-- `build_env`, which raises where it is `none`.
unfoldable pub build_env :
    Python → Urls → Host → ScheduledJob → ModelProfile → SettingsRow → MergeRequest → Option Env
build_env py urls h job p settings mr =
    all_of (token_of h settings) (normalize_extra_projects py urls job.extra_projects)
      (build_review_prompt py urls h.schema job settings mr) (resolve_api_key h p)
      (env_of h job p settings mr)

-- The parts of `_provider_block`.
abbrev pub key_field : Text → Fields
key_field key = if is_nil key then end else field (codes "apiKey") (string key) end

abbrev pub limit_field : Option ℕ → Fields
limit_field none = end
limit_field (some zero) = end
limit_field (some (suc n)) =
    field (codes "limit")
      (object (
        field (codes "context") (number (decimal (suc n)))
          (field (codes "output") (number (codes "32768")) end)))
      end

abbrev pub models_field : Text → Fields → Fields
models_field model limit =
    field (codes "models")
      (object (field model (object (field (codes "name") (string model) limit)) end)) end

abbrev pub block_for : Text → Fields → Fields → Json
block_for npm options models =
    object (field (codes "npm") (string npm) (field (codes "options") (object options) models))

abbrev pub block_of : Host → ModelProfile → Provider → Text → Json
block_of h p anthropic key = block_for (codes "@ai-sdk/anthropic") (key_field key) end
block_of h p local key =
    block_for (codes "@ai-sdk/openai-compatible")
      (field (codes "baseURL") (string (base_url_of h p)) (key_field key))
      (models_field p.model_id (limit_field p.context_window))

abbrev pub map_key : (Text → Json) → Option Text → Option Json
map_key f none = none
map_key f (some key) = some (f key)

-- `_provider_block`, which raises where `resolve_api_key` does.
unfoldable pub provider_block : Host → ModelProfile → Option Json
provider_block h p = map_key (block_of h p p.provider) (resolve_api_key h p)
