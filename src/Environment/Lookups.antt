-- ===== src/Environment/Lookups.antt =====
-- What a review container reads of the environment that `build_env` of
-- app/orchestrator/run_review.py makes.
use gitlab_reviewer.Prelude.{
  ℕ, zero, suc, Option, none, some, ◌≡◌, refl, sym, List, [], ◌∷◌, ◌++◌, if◌then◌else◌, decimal,
  Text, codes,
}
use mathlib.Core.Option.{some-injective, none-ne-some}
use gitlab_reviewer.Models.{
  Json, ScheduledJob, SettingsRow, MergeRequest, ModelProfile, Provider, anthropic, local,
}
use gitlab_reviewer.Secrets.{is_nil, Env, env_value}
use gitlab_reviewer.Python.{Python}
use gitlab_reviewer.ExtraProjects.{Urls, normalize_extra_projects}
use gitlab_reviewer.Prompt.{build_review_prompt}
use gitlab_reviewer.Environment.{
  Host, resolve_api_key, provider_text, base_url_of, key_entry, base_url_entry, context_entry,
  env_of, token_of, all_of, build_env,
}
use gitlab_reviewer.Runner.Clones.{value_or_empty, env_text}

-- The parts of an environment that `build_env` returns.
pub record IsBuilt (py : Python) (urls : Urls) (h : Host) (job : ScheduledJob) (p : ModelProfile)
    (settings : SettingsRow) (mr : MergeRequest) (env : Env) : Type 0 where
  pub token : Text
  pub entries : List Json
  pub prompt : Text
  pub key : Text
  pub prompted : build_review_prompt py urls h.schema job settings mr ≡ some prompt
  pub resolved : resolve_api_key h p ≡ some key
  pub same : env ≡ env_of h job p settings mr token entries prompt key

all_of-some :
    (t : Option Text) (e : Option (List Json)) (p k : Option Text)
    (f : Text → List Json → Text → Text → Env) (env : Env)
    → all_of t e p k f ≡ some env
    → (token : Text) × (entries : List Json) × (prompt : Text) × (key : Text) × (p ≡ some prompt)
      × (k ≡ some key)
      × (env ≡ f token entries prompt key)
all_of-some (some t) (some e) (some p) (some k) f env h =
    (t, e, p, k, refl, refl, sym (some-injective _ _ h))
all_of-some none e p k f env h = absurd (none-ne-some _ h)
all_of-some (some t) none p k f env h = absurd (none-ne-some _ h)
all_of-some (some t) (some e) none k f env h = absurd (none-ne-some _ h)
all_of-some (some t) (some e) (some p) none f env h = absurd (none-ne-some _ h)

pub build_env-IsBuilt :
    (py : Python) (urls : Urls) (h : Host) (job : ScheduledJob) (p : ModelProfile)
    (settings : SettingsRow) (mr : MergeRequest) (env : Env)
    → build_env py urls h job p settings mr ≡ some env
    → IsBuilt py urls h job p settings mr env
unfolding build_env
build_env-IsBuilt py urls h job p settings mr env e =
    let r =
      all_of-some (token_of h settings) (normalize_extra_projects py urls job.extra_projects)
        (build_review_prompt py urls h.schema job settings mr) (resolve_api_key h p)
        (env_of h job p settings mr) env e in
    record {
      token = r.0;
      entries = r.1;
      prompt = r.2;
      key = r.3;
      prompted = r.4;
      resolved = r.5;
      same = r.6;
    }

pub value_or_empty_self : (v : Text) → value_or_empty (if is_nil v then none else some v) ≡ v
value_or_empty_self [] = refl
value_or_empty_self (c ∷ v) = refl

abbrev pub optional_part : Host → ModelProfile → Text → Provider → Option ℕ → Env
optional_part h p key prov context =
    key_entry key ++ (base_url_entry h p prov ++ context_entry context)

abbrev pub context_text : Option ℕ → Text
context_text none = []
context_text (some zero) = []
context_text (some (suc n)) = decimal (suc n)

abbrev pub base_url_text : Host → ModelProfile → Provider → Text
base_url_text h p anthropic = []
base_url_text h p local = base_url_of h p

module _ (h : Host) (p : ModelProfile) where
  context_entry-other :
      (context : Option ℕ) → env_text (codes "OPENCODE_API_KEY") (context_entry context) ≡ []
  unfolding env_text env_value
  context_entry-other none = refl
  context_entry-other (some zero) = refl
  context_entry-other (some (suc n)) = refl

  optional_part-key :
      (key : Text) (prov : Provider) (context : Option ℕ)
      → env_text (codes "OPENCODE_API_KEY") (optional_part h p key prov context) ≡ key
  unfolding env_text env_value
  optional_part-key [] anthropic context = unfold env_text env_value in context_entry-other context
  optional_part-key [] local context = context_entry-other context
  optional_part-key (c ∷ key) prov context = refl

  context_entry-base_url :
      (context : Option ℕ) → env_text (codes "OPENCODE_BASE_URL") (context_entry context) ≡ []
  unfolding env_text env_value
  context_entry-base_url none = refl
  context_entry-base_url (some zero) = refl
  context_entry-base_url (some (suc n)) = refl

  optional_part-base_url :
      (key : Text) (prov : Provider) (context : Option ℕ)
      → env_text (codes "OPENCODE_BASE_URL") (optional_part h p key prov context)
        ≡ base_url_text h p prov
  unfolding env_text env_value
  optional_part-base_url [] anthropic context = context_entry-base_url context
  optional_part-base_url [] local context = value_or_empty_self (base_url_of h p)
  optional_part-base_url (c ∷ key) anthropic context = context_entry-base_url context
  optional_part-base_url (c ∷ key) local context = value_or_empty_self (base_url_of h p)

  context_entry-context :
      (context : Option ℕ)
      → env_text (codes "OPENCODE_MODEL_CONTEXT") (context_entry context) ≡ context_text context
  unfolding env_text env_value
  context_entry-context none = refl
  context_entry-context (some zero) = refl
  context_entry-context (some (suc n)) = value_or_empty_self (decimal (suc n))

  optional_part-context :
      (key : Text) (prov : Provider) (context : Option ℕ)
      → env_text (codes "OPENCODE_MODEL_CONTEXT") (optional_part h p key prov context)
        ≡ context_text context
  unfolding env_text env_value
  optional_part-context [] anthropic context = context_entry-context context
  optional_part-context [] local context = context_entry-context context
  optional_part-context (c ∷ key) anthropic context = context_entry-context context
  optional_part-context (c ∷ key) local context = context_entry-context context

  module _ (job : ScheduledJob) (settings : SettingsRow) (mr : MergeRequest) (token : Text)
      (entries : List Json) (prompt key : Text) where
    abbrev whole : Env
    whole = env_of h job p settings mr token entries prompt key

    pub env_of-key : env_text (codes "OPENCODE_API_KEY") whole ≡ key
    unfolding env_text env_value
    env_of-key = optional_part-key key p.provider p.context_window

    pub env_of-base_url : env_text (codes "OPENCODE_BASE_URL") whole ≡ base_url_text h p p.provider
    unfolding env_text env_value
    env_of-base_url = optional_part-base_url key p.provider p.context_window

    pub env_of-context :
        env_text (codes "OPENCODE_MODEL_CONTEXT") whole ≡ context_text p.context_window
    unfolding env_text env_value
    env_of-context = optional_part-context key p.provider p.context_window

    pub env_of-model : env_text (codes "OPENCODE_MODEL") whole ≡ p.model_id
    unfolding env_text env_value
    env_of-model = value_or_empty_self p.model_id

    pub env_of-provider : env_text (codes "OPENCODE_PROVIDER") whole ≡ provider_text p.provider
    unfolding env_text env_value
    env_of-provider = value_or_empty_self (provider_text p.provider)
