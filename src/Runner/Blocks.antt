-- ===== src/Runner/Blocks.antt =====
-- The provider block of the runner (containers/review-runner/entrypoint.py) is that of the app
-- (app/orchestrator/opencode_template.py).
use gitlab_reviewer.Prelude.{
  ℕ, zero, suc, true, false, Option, none, some, ◌≡◌, refl, sym, ap, ◌∙◌, List, [], if◌then◌else◌,
  strip, decimal, strip-decimal, Text, codes,
}
use gitlab_reviewer.Models.{
  Json, string, Fields, field, ScheduledJob, SettingsRow, MergeRequest, ModelProfile, Provider,
  anthropic, local,
}
use gitlab_reviewer.Secrets.{Env}
use gitlab_reviewer.Python.{Python}
use gitlab_reviewer.ExtraProjects.{Urls}
use gitlab_reviewer.Environment.{
  Host, provider_text, base_url_of, env_of, build_env, key_field, limit_field, models_field,
  block_for, block_of, map_key, provider_block,
}
use gitlab_reviewer.Environment.Lookups.{
  build_env-IsBuilt, context_text, base_url_text, env_of-key, env_of-base_url, env_of-context,
  env_of-model, env_of-provider,
}
use gitlab_reviewer.Runner.Config.{Digits, runner_limit_of, runner_limit, block_from, runner_block}

-- What Python documents of `isdigit` and `int` on the texts of natural numbers.
pub record ReadsBack (d : Digits) : Type 0 where
  pub empty : d.isdigit [] ≡ false
  pub digits : (n : ℕ) → d.isdigit (decimal n) ≡ true
  pub value : (n : ℕ) → d.int (decimal n) ≡ n

module _ (d : Digits) (r : ReadsBack d) where
  runner_limit-limit_field :
      (context : Option ℕ) → runner_limit d (strip (context_text context)) ≡ limit_field context
  unfolding strip
  runner_limit-limit_field none = unfold strip in rw r.empty refl
  runner_limit-limit_field (some zero) = unfold strip in rw r.empty refl
  runner_limit-limit_field (some (suc n)) =
      ap (runner_limit d) (strip-decimal (suc n))
      ∙ ap (λ b. if b then runner_limit_of (d.int (decimal (suc n))) else Fields.end)
          (r.digits (suc n))
      ∙ ap runner_limit_of (r.value (suc n))

  block_from-block_of :
      (h : Host) (p : ModelProfile) (prov : Provider) (key : Text)
      → block_from d
          (provider_text prov)
          p.model_id
          (base_url_text h p prov)
          key
          (context_text p.context_window)
        ≡ block_of h p prov key
  block_from-block_of h p anthropic key = refl
  block_from-block_of h p local key =
      ap
        (λ limit.
          block_for (codes "@ai-sdk/openai-compatible")
            (field (codes "baseURL") (string (base_url_of h p)) (key_field key))
            (models_field p.model_id limit))
        (runner_limit-limit_field p.context_window)

env_of-looked :
    (h : Host) (p : ModelProfile) (job : ScheduledJob) (settings : SettingsRow) (mr : MergeRequest)
    (token : Text) (entries : List Json) (prompt key : Text) (d : Digits)
    → runner_block d (env_of h job p settings mr token entries prompt key)
      ≡ block_from d
          (provider_text p.provider)
          p.model_id
          (base_url_text h p p.provider)
          key
          (context_text p.context_window)
unfolding runner_block
env_of-looked h p job settings mr token entries prompt key d =
    rw
      (
        env_of-provider h p job settings mr token entries prompt key,
        env_of-model h p job settings mr token entries prompt key,
        env_of-base_url h p job settings mr token entries prompt key,
        env_of-key h p job settings mr token entries prompt key,
        env_of-context h p job settings mr token entries prompt key,
      )
      refl

-- In the environment that build_env makes for a profile, the runner renders the provider block that the
-- app renders for the profile: with the same package, URL, key, model and context window. `isdigit` and
-- `int` are to read the decimal texts of natural numbers, and `isdigit` is to refuse the empty text.
pub provider_block-runner_block :
    (py : Python) (urls : Urls) (h : Host) (job : ScheduledJob) (p : ModelProfile)
    (settings : SettingsRow) (mr : MergeRequest) (d : Digits) (env : Env)
    → ReadsBack d
    → build_env py urls h job p settings mr ≡ some env
    → provider_block h p ≡ some (runner_block d env)
unfolding provider_block runner_block
provider_block-runner_block py urls h job p settings mr d env r e =
    let b = build_env-IsBuilt py urls h job p settings mr env e in
    let looked = env_of-looked h p job settings mr b.token b.entries b.prompt b.key d in
    ap (map_key (block_of h p p.provider)) b.resolved
    ∙ ap some (
        sym (block_from-block_of d r h p p.provider b.key)
        ∙ sym (ap (runner_block d) b.same ∙ looked))
