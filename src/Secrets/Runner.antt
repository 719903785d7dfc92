-- ===== src/Secrets/Runner.antt =====
-- `scrub_value` of containers/review-runner/entrypoint.py, and that it is the app's `scrub_json`.
use gitlab_reviewer.Prelude.{◌≡◌, refl, ap, ap₂, ◌∙◌, List, Text}
use gitlab_reviewer.Models.{
  Json, null, boolean, number, string, array, object, Items, nil, cons, Fields, end, field,
}
use gitlab_reviewer.Secrets.{
  put_field, scrub_json, scrub_items, scrub_fields, scrub, runner_secrets, secret_env_values, Env,
}
use gitlab_reviewer.Secrets.Trees.{scrub-scrub_secrets}

unfoldable mutual
  pub scrub_value : List Text → Json → Json
  scrub_value secrets (string s) = string (scrub secrets s)
  scrub_value secrets (object fs) = object (scrub_value_fields secrets fs end)
  scrub_value secrets (array xs) = array (scrub_value_items secrets xs)
  scrub_value secrets null = null
  scrub_value secrets (boolean b) = boolean b
  scrub_value secrets (number n) = number n

  pub scrub_value_items : List Text → Items → Items
  scrub_value_items secrets nil = nil
  scrub_value_items secrets (cons x xs) =
      cons (scrub_value secrets x) (scrub_value_items secrets xs)

  pub scrub_value_fields : List Text → Fields → Fields → Fields
  scrub_value_fields secrets end done = done
  scrub_value_fields secrets (field k v fs) done =
      scrub_value_fields secrets fs (put_field (scrub secrets k) (scrub_value secrets v) done)

module _ (env : Env) where
  mutual
    unfolding scrub_value scrub_json

    values_agree :
        (j : Json) → scrub_value (runner_secrets env) j ≡ scrub_json (secret_env_values env) j
    values_agree (string s) = ap string (scrub-scrub_secrets env s)
    values_agree (object fs) = ap object (fields_agree fs end)
    values_agree (array xs) = ap array (items_agree xs)
    values_agree null = refl
    values_agree (boolean b) = refl
    values_agree (number n) = refl

    items_agree :
        (xs : Items)
        → scrub_value_items (runner_secrets env) xs ≡ scrub_items (secret_env_values env) xs
    items_agree nil = refl
    items_agree (cons x xs) = ap₂ cons (values_agree x) (items_agree xs)

    fields_agree :
        (fs done : Fields)
        → scrub_value_fields (runner_secrets env) fs done
          ≡ scrub_fields (secret_env_values env) fs done
    fields_agree end done = refl
    fields_agree (field k v fs) done =
        fields_agree fs
          (put_field (scrub (runner_secrets env) k) (scrub_value (runner_secrets env) v) done)
        ∙ ap₂ (λ t w. scrub_fields (secret_env_values env) fs (put_field t w done))
            (scrub-scrub_secrets env k) (values_agree v)

-- On one environment the runner's scrub_value and the app's scrub_json make the same of every JSON
-- value.
pub scrub_value-scrub_json :
    (env : Env) (j : Json)
    → scrub_value (runner_secrets env) j ≡ scrub_json (secret_env_values env) j
scrub_value-scrub_json env j = values_agree env j
