-- ===== src/Examples/Environments.antt =====
-- The environment of a review with a local model and a context window.
use gitlab_reviewer.Prelude.{
  ℕ, zero, suc, ◌+◌, ◌-◌, ◌<◌, ◌≤◌, arith, Bool, true, false, not, ◌&&◌, leb, ltb, if_cases, ap,
  ◌∙◌, decimal_from, none, some, ◌≡◌, refl, [], ◌∷◌, decimal, decimal-cons, Text, codes,
}
use Prim.Native.Nat.{◌*◌, ◌/◌, ◌%◌}
use gitlab_reviewer.Models.{
  null, immediate, JobStatus, ScheduledJob, SettingsRow, MergeRequest, ModelProfile, local,
}
use gitlab_reviewer.Secrets.{is_nil, Env}
use gitlab_reviewer.ExtraProjects.{normalize_extra_projects, normalize_from}
use gitlab_reviewer.Prompt.{build_review_prompt}
use gitlab_reviewer.Environment.{Host, build_env, resolve_api_key, provider_block}
use gitlab_reviewer.Environment.Complete.{build_env-missing_keys}
use gitlab_reviewer.Runner.Run.{required_env, missing_keys}
use gitlab_reviewer.Runner.Config.{Digits, runner_block}
use gitlab_reviewer.Runner.Blocks.{ReadsBack, provider_block-runner_block}
use gitlab_reviewer.Examples.{python, urls, job_row, settings}

abbrev host : Host
host = record {
  llama_base_url = some (codes "http://llama");
  anthropic_api_key = none;
  review_timeout_seconds = 1800;
  environ = λ name. [];
  decrypt = λ t. some t;
  dumps = λ j. codes "[]";
  schema = codes "{}";
}

abbrev job : ScheduledJob
job = job_row 1 immediate 1 JobStatus.running

abbrev pub profile : ModelProfile
profile = record {
  id = 6;
  name = codes "llama";
  provider = local;
  model_id = codes "m";
  base_url = none;
  api_key = none;
  api_key_env = none;
  is_default = true;
  extra_opencode_json = null;
  context_window = some 4096;
}

abbrev pub merge_request : MergeRequest
merge_request = record {
  id = 5;
  project = codes "g/p";
  iid = 12;
  title = codes "t";
  author = codes "a";
  source_branch = codes "fix";
  target_branch = codes "main";
  sha = codes "0a1b";
  web_url = [];
  state = codes "opened";
  updated_at = none;
  last_seen_at = none;
}

abbrev pub named_settings : SettingsRow
named_settings = record settings {
  gitlab_url = codes "https://h";
  gitlab_project = codes "g/p";
  gitlab_token = [];
}

-- `job` has no extra projects.
built_env :
    (env : Env) × (build_env python urls host job profile named_settings merge_request ≡ some env)
unfolding build_env build_review_prompt normalize_extra_projects normalize_from resolve_api_key
built_env = (_, refl)

build_env-missing_keys_example : missing_keys built_env.0 required_env ≡ []
build_env-missing_keys_example =
    build_env-missing_keys python urls host job profile named_settings merge_request built_env.0
      refl refl refl refl refl built_env.1

-- The value of decimal digits that are read after a value.
unfoldable value_from : ℕ → Text → ℕ
value_from acc [] = acc
value_from acc (c ∷ cs) = value_from (acc * 10 + (c - 48)) cs

unfoldable all_digits : Text → Bool
all_digits [] = true
all_digits (c ∷ cs) = leb 48 c && leb c 57 && all_digits cs

abbrev ascii : Digits
ascii = record { isdigit = λ t. not (is_nil t) && all_digits t; int = value_from 0 }

the_digit : (n : ℕ) → 0 * 10 + (48 + n - 48) ≡ n
the_digit n = omega arith

the_digits : (n : ℕ) → n / 10 * 10 + (48 + n % 10 - 48) ≡ n
the_digits n = omega arith

ltb_no : (n : ℕ) → ltb n 10 ≡ false → 10 ≤ n
ltb_no n h = ground arith

fewer : (n fuel : ℕ) → n < suc fuel → 10 ≤ n → n / 10 < fuel
fewer n fuel h k = omega arith

one_more :
    (d : ℕ) (done : Text) → d < 10 → all_digits done ≡ true → all_digits ((48 + d) ∷ done) ≡ true
unfolding all_digits
one_more d done h k = ground arith

value_from-decimal_from :
    (fuel n : ℕ) (done : Text)
    → n < fuel
    → value_from 0 (decimal_from fuel n done) ≡ value_from n done
unfolding value_from decimal_from
value_from-decimal_from zero n done h = absurd (omega arith)
value_from-decimal_from (suc fuel) n done h =
    if_cases (λ t. value_from 0 t ≡ value_from n done) (ltb n 10) ((48 + n) ∷ done)
      (decimal_from fuel (n / 10) ((48 + n % 10) ∷ done))
      (λ t. ap (λ k. value_from k done) (the_digit n))
      (λ f.
        value_from-decimal_from fuel (n / 10) ((48 + n % 10) ∷ done) (fewer n fuel h (ltb_no n f))
        ∙ ap (λ k. value_from k done) (the_digits n))

all_digits-decimal_from :
    (fuel n : ℕ) (done : Text)
    → all_digits done ≡ true
    → all_digits (decimal_from fuel n done) ≡ true
unfolding all_digits decimal_from
all_digits-decimal_from zero n done h = h
all_digits-decimal_from (suc fuel) n done h =
    if_cases (λ t. all_digits t ≡ true) (ltb n 10) ((48 + n) ∷ done)
      (decimal_from fuel (n / 10) ((48 + n % 10) ∷ done)) (λ t. ground arith)
      (λ f.
        all_digits-decimal_from fuel (n / 10) ((48 + n % 10) ∷ done)
          (one_more (n % 10) done (omega arith) h))

ascii-ReadsBack : ReadsBack ascii
unfolding decimal
ascii-ReadsBack = record {
  empty = refl;
  digits = λ n.
      rw
        (
          ap is_nil (decimal-cons n).2,
          all_digits-decimal_from (suc n) n [] (unfold all_digits in refl),
        )
        refl;
  value = λ n. value_from-decimal_from (suc n) n [] (omega arith) ∙ (unfold value_from in refl);
}

provider_block-runner_block_example :
    provider_block host profile ≡ some (runner_block ascii built_env.0)
provider_block-runner_block_example =
    provider_block-runner_block python urls host job profile named_settings merge_request ascii
      built_env.0 ascii-ReadsBack built_env.1
