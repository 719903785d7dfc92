-- ===== src/Environment/Complete.antt =====
-- The environment of `build_env` (app/orchestrator/run_review.py) has what the runner
-- (containers/review-runner/entrypoint.py) requires.
use mathlib.Core.Option.{some-injective, none-ne-some}
use gitlab_reviewer.Prelude.{
  ℕ, false, Option, none, some, ◌≡◌, refl, ap, subst, ◌∙◌, List, [], ◌∷◌, ◌++◌, All, join, strip,
  decimal, decimal-cons, Text,
}
use gitlab_reviewer.Models.{
  Json, ScheduledJob, SettingsRow, MergeRequest, ModelProfile, Provider, anthropic, local,
}
use gitlab_reviewer.Secrets.{is_nil, Env, env_value}
use gitlab_reviewer.Python.{Python}
use gitlab_reviewer.ExtraProjects.{Urls, normalize_extra_projects}
use gitlab_reviewer.Render.{newline, blank_line}
use gitlab_reviewer.Prompt.{
  override_or, base_section, context_lines, output_contract_lines, prompt_of, build_review_prompt,
}
use gitlab_reviewer.Environment.{Host, provider_text, env_of, build_env}
use gitlab_reviewer.Environment.Lookups.{build_env-IsBuilt, value_or_empty_self}
use gitlab_reviewer.Runner.Clones.{env_text}
use gitlab_reviewer.Runner.Run.{required_env, missing_keys}

abbrev IsGiven : Text → Type 0
IsGiven t = is_nil t ≡ false

decimal-IsGiven : (n : ℕ) → IsGiven (decimal n)
decimal-IsGiven n = ap is_nil (decimal-cons n).2

context-IsGiven :
    (py : Python) (entries : List Json) (settings : SettingsRow) (mr : MergeRequest)
    (rest : List Text)
    → IsGiven (join blank_line (join newline (context_lines py entries settings mr) ∷ rest))
unfolding join context_lines
context-IsGiven py entries settings mr [] = refl
context-IsGiven py entries settings mr (t ∷ rest) = refl

joined-IsGiven :
    (base context : Text) (rest : List Text)
    → IsGiven (join blank_line (context ∷ rest))
    → IsGiven (join blank_line (base_section base ++ context ∷ rest))
unfolding join
joined-IsGiven [] context rest h = h
joined-IsGiven (c ∷ base) context rest h = refl

prompt_of-IsGiven :
    (py : Python) (schema : Text) (job : ScheduledJob) (settings : SettingsRow) (mr : MergeRequest)
    (o : Option (List Json)) (prompt : Text)
    → prompt_of py schema job settings mr o ≡ some prompt
    → IsGiven prompt
prompt_of-IsGiven py schema job settings mr none prompt h = absurd (none-ne-some _ h)
prompt_of-IsGiven py schema job settings mr (some entries) prompt h =
    let rest = join newline (output_contract_lines schema) ∷ [] in
    subst IsGiven (some-injective _ _ h) (
      joined-IsGiven (strip (override_or job.prompt_override settings.default_review_prompt))
        (join newline (context_lines py entries settings mr)) rest
        (context-IsGiven py entries settings mr rest))

build_review_prompt-IsGiven :
    (py : Python) (urls : Urls) (schema : Text) (job : ScheduledJob) (settings : SettingsRow)
    (mr : MergeRequest) (prompt : Text)
    → build_review_prompt py urls schema job settings mr ≡ some prompt
    → IsGiven prompt
unfolding build_review_prompt
build_review_prompt-IsGiven py urls schema job settings mr prompt h =
    prompt_of-IsGiven py schema job settings mr
      (normalize_extra_projects py urls job.extra_projects) prompt h

provider-IsGiven : (prov : Provider) → IsGiven (provider_text prov)
provider-IsGiven anthropic = refl
provider-IsGiven local = refl

missing_keys-none :
    (env : Env) (keys : List Text)
    → All (λ key. IsGiven (env_text key env)) keys
    → missing_keys env keys ≡ []
unfolding missing_keys
missing_keys-none env [] h = refl
missing_keys-none env (key ∷ keys) h = rw (h.0, missing_keys-none env keys h.1) refl

module _ (h : Host) (job : ScheduledJob) (p : ModelProfile) (settings : SettingsRow)
    (mr : MergeRequest) (token : Text) (entries : List Json) (prompt key : Text) where
  env_of-required :
      IsGiven settings.gitlab_url
      → IsGiven settings.gitlab_project
      → IsGiven mr.source_branch
      → IsGiven mr.target_branch
      → IsGiven p.model_id
      → IsGiven prompt
      → All
          (λ k. IsGiven (env_text k (env_of h job p settings mr token entries prompt key)))
          required_env
  unfolding env_text env_value
  env_of-required url project source target model prompted = (
    ap is_nil (value_or_empty_self settings.gitlab_url) ∙ url,
    (
      ap is_nil (value_or_empty_self settings.gitlab_project) ∙ project,
      (
        ap is_nil (value_or_empty_self (decimal mr.iid)) ∙ decimal-IsGiven mr.iid,
        (
          ap is_nil (value_or_empty_self mr.source_branch) ∙ source,
          (
            ap is_nil (value_or_empty_self mr.target_branch) ∙ target,
            (
              ap is_nil (value_or_empty_self (provider_text p.provider))
                  ∙ provider-IsGiven p.provider,
              (
                ap is_nil (value_or_empty_self p.model_id) ∙ model,
                (
                  ap is_nil (value_or_empty_self prompt) ∙ prompted,
                  (
                    ap is_nil (value_or_empty_self (decimal h.review_timeout_seconds))
                        ∙ decimal-IsGiven h.review_timeout_seconds,
                    tt,
                  ),
                ),
              ),
            ),
          ),
        ),
      ),
    ),
  )

-- Where the GitLab URL, the project, both branches and the model id are not empty, no variable that
-- the runner requires is missing in the environment that build_env makes.
pub build_env-missing_keys :
    (py : Python) (urls : Urls) (h : Host) (job : ScheduledJob) (p : ModelProfile)
    (settings : SettingsRow) (mr : MergeRequest) (env : Env)
    → is_nil settings.gitlab_url ≡ false
    → is_nil settings.gitlab_project ≡ false
    → is_nil mr.source_branch ≡ false
    → is_nil mr.target_branch ≡ false
    → is_nil p.model_id ≡ false
    → build_env py urls h job p settings mr ≡ some env
    → missing_keys env required_env ≡ []
build_env-missing_keys py urls h job p settings mr env url project source target model e =
    let b = build_env-IsBuilt py urls h job p settings mr env e in
    let given = build_review_prompt-IsGiven py urls h.schema job settings mr b.prompt b.prompted in
    ap (λ x. missing_keys x required_env) b.same
    ∙ missing_keys-none (env_of h job p settings mr b.token b.entries b.prompt b.key) required_env (
        env_of-required h job p settings mr b.token b.entries b.prompt b.key url project source
          target model given)
