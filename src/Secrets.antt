-- ===== src/Secrets.antt =====
-- Secret scrubbing: `secret_env_values`, `scrub_secrets` and `scrub_json` of
-- app/orchestrator/run_review.py, and `scrub` of
-- containers/review-runner/entrypoint.py.
pub mod Absent
pub mod Starts
pub mod Trees
pub mod Runner
use gitlab_reviewer.Prelude.{
  ℕ, zero, suc, ◌-◌, Bool, true, false, not, ◌&&◌, Option, none, some, List, [], ◌∷◌, ◌++◌, leb,
  ◌==◌, if◌then◌else◌, length, keep_if, Text, codes, text_eq,
}
use gitlab_reviewer.Models.{
  Json, null, boolean, number, string, array, object, Items, nil, cons, Fields, end, field,
}

-- `text.startswith(prefix)`
unfoldable pub starts_with : Text → Text → Bool
starts_with [] s = true
starts_with (p ∷ ps) [] = false
starts_with (p ∷ ps) (c ∷ cs) = p == c && starts_with ps cs

-- `text.replace(old, new)` for an `old` that is not empty: from the left, without overlap. The
-- number is how many characters of a replaced occurrence are still to be skipped.
unfoldable pub replace_from : ℕ → Text → Text → Text → Text
replace_from skip old new [] = []
replace_from (suc k) old new (c ∷ cs) = replace_from k old new cs
replace_from zero old new (c ∷ cs) =
    let hit = new ++ replace_from (length old - 1) old new cs in
    let miss = c ∷ replace_from zero old new cs in if starts_with old (c ∷ cs) then hit else miss

unfoldable pub replace : Text → Text → Text → Text
unfolding replace_from
replace old new text = replace_from 0 old new text

abbrev pub min_scrub_len : ℕ
min_scrub_len = 8

-- "***"
abbrev pub stars : Text
stars = 42 ∷ 42 ∷ 42 ∷ []

abbrev pub is_nil : Text → Bool
is_nil [] = true
is_nil (c ∷ cs) = false

-- `secret and len(secret) >= MIN_SCRUB_LEN`
abbrev pub worth_scrubbing : Text → Bool
worth_scrubbing secret = not (is_nil secret) && leb min_scrub_len (length secret)

unfoldable pub scrub_each : Text → List Text → Text
unfolding replace
scrub_each text [] = text
scrub_each text (secret ∷ secrets) =
    scrub_each (if worth_scrubbing secret then replace secret stars text else text) secrets

unfoldable pub scrub_secrets : Text → List Text → Text
unfolding scrub_each
scrub_secrets text secrets = if is_nil text then text else scrub_each text secrets

-- A key that is there keeps its place and gets the new value.
unfoldable pub put_field : Text → Json → Fields → Fields
put_field k v end = field k v end
put_field k v (field j w fs) = if text_eq j k then field j v fs else field j w (put_field k v fs)

-- The dict comprehension fills the result entry by entry, so keys that are scrubbed to one text fall
-- together.
unfoldable mutual
  pub scrub_json : List Text → Json → Json
  scrub_json secrets (string s) = string (scrub_secrets s secrets)
  scrub_json secrets (object fs) = object (scrub_fields secrets fs end)
  scrub_json secrets (array xs) = array (scrub_items secrets xs)
  scrub_json secrets null = null
  scrub_json secrets (boolean b) = boolean b
  scrub_json secrets (number n) = number n

  pub scrub_items : List Text → Items → Items
  scrub_items secrets nil = nil
  scrub_items secrets (cons x xs) = cons (scrub_json secrets x) (scrub_items secrets xs)

  pub scrub_fields : List Text → Fields → Fields → Fields
  scrub_fields secrets end done = done
  scrub_fields secrets (field k v fs) done =
      scrub_fields secrets fs (put_field (scrub_secrets k secrets) (scrub_json secrets v) done)

abbrev pub Env : Type 0
Env = List (Text × Text)

-- `env.get(key)`, with an empty value as no value.
unfoldable pub env_value : Text → Env → Option Text
env_value key [] = none
env_value key ((k, v) ∷ env) =
    if text_eq k key then (if is_nil v then none else some v) else env_value key env

abbrev pub secret_env_keys : List Text
secret_env_keys = codes "GITLAB_TOKEN" ∷ codes "OPENCODE_API_KEY" ∷ []

abbrev pub push_some : Option Text → List Text → List Text
push_some none xs = xs
push_some (some x) xs = x ∷ xs

unfoldable pub values_of : List Text → Env → List Text
unfolding env_value
values_of [] env = []
values_of (k ∷ ks) env = push_some (env_value k env) (values_of ks env)

unfoldable pub secret_env_values : Env → List Text
unfolding values_of
secret_env_values env = values_of secret_env_keys env

-- The runner's `_SCRUB_SECRETS`, filtered once.
unfoldable pub runner_secrets : Env → List Text
unfolding secret_env_values
runner_secrets env = keep_if (λ v. leb min_scrub_len (length v)) (secret_env_values env)

-- The runner's `scrub`.
unfoldable pub scrub : List Text → Text → Text
unfolding replace
scrub [] text = text
scrub (secret ∷ secrets) text = scrub secrets (replace secret stars text)
