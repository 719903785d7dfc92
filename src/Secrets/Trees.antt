-- ===== src/Secrets/Trees.antt =====
-- `scrub_json` of app/orchestrator/run_review.py over whole JSON values, and that the runner's `scrub`
-- (containers/review-runner/entrypoint.py) is the app's.
use gitlab_reviewer.Prelude.{
  ◌≤◌, Bool, true, not, ◌&&◌, ◌≡◌, refl, ◌∙◌, List, [], ◌∷◌, arith, leb, Bool-cases, inl, inr, In,
  length, keep_if, Text, text_eq,
}
use gitlab_reviewer.Models.{
  Json, null, boolean, number, string, array, object, Items, nil, cons, Fields, end, field,
}
use gitlab_reviewer.Secrets.{
  min_scrub_len, stars, worth_scrubbing, scrub_each, scrub_secrets, put_field, scrub_json,
  scrub_items, scrub_fields, replace, scrub, runner_secrets, secret_env_values, Env,
}
use gitlab_reviewer.Secrets.Absent.{occurs, IsStarFree, scrub_secrets-absent}

-- Every string of a JSON value and every key of its objects passes the test. The text of a number is
-- not tested.
unfoldable mutual
  pub every_text : (Text → Bool) → Json → Bool
  every_text p (string s) = p s
  every_text p (object fs) = every_field p fs
  every_text p (array xs) = every_item p xs
  every_text p null = true
  every_text p (boolean b) = true
  every_text p (number n) = true

  pub every_item : (Text → Bool) → Items → Bool
  every_item p nil = true
  every_item p (cons x xs) = every_text p x && every_item p xs

  pub every_field : (Text → Bool) → Fields → Bool
  every_field p end = true
  every_field p (field k v fs) = p k && (every_text p v && every_field p fs)

and_intro : (a b : Bool) → a ≡ true → b ≡ true → (a && b) ≡ true
and_intro a b h k = rw (h, k)

put_field-every :
    (p : Text → Bool) (k : Text) (v : Json) (fs : Fields)
    → p k ≡ true
    → every_text p v ≡ true
    → every_field p fs ≡ true
    → every_field p (put_field k v fs) ≡ true
unfolding put_field every_text
put_field-every p k v end hk hv h = rw (hk, hv)
put_field-every p k v (field j w fs) hk hv h = elim (Bool-cases (text_eq j k)) [
  | inl t ↦ rw t (ground arith)
  | inr f ↦ rw f (ground (arith, put_field-every p k v fs hk hv))
]

module _ (p : Text → Bool) (secrets : List Text)
    (clean : (t : Text) → p (scrub_secrets t secrets) ≡ true) where
  mutual
    unfolding scrub_json every_text

    scrub_json-every : (j : Json) → every_text p (scrub_json secrets j) ≡ true
    scrub_json-every (string s) = clean s
    scrub_json-every (object fs) = scrub_fields-every fs end refl
    scrub_json-every (array xs) = scrub_items-every xs
    scrub_json-every null = refl
    scrub_json-every (boolean b) = refl
    scrub_json-every (number n) = refl

    scrub_items-every : (xs : Items) → every_item p (scrub_items secrets xs) ≡ true
    scrub_items-every nil = refl
    scrub_items-every (cons x xs) =
        and_intro (every_text p (scrub_json secrets x)) (every_item p (scrub_items secrets xs))
          (scrub_json-every x) (scrub_items-every xs)

    scrub_fields-every :
        (fs done : Fields)
        → every_field p done ≡ true
        → every_field p (scrub_fields secrets fs done) ≡ true
    scrub_fields-every end done h = h
    scrub_fields-every (field k v fs) done h =
        scrub_fields-every fs (put_field (scrub_secrets k secrets) (scrub_json secrets v) done) (
          put_field-every p (scrub_secrets k secrets) (scrub_json secrets v) done (clean k)
            (scrub_json-every v) h)

-- A secret of at least `MIN_SCRUB_LEN` characters with no `*` in it occurs in no string and in no
-- key, at any depth, of what `scrub_json` makes of a JSON value.
pub scrub_json-absent :
    (secret : Text) (secrets : List Text) (j : Json)
    → IsStarFree secret
    → min_scrub_len ≤ length secret
    → In secret secrets
    → every_text (λ t. not (occurs secret t)) (scrub_json secrets j) ≡ true
scrub_json-absent secret secrets j free long m =
    scrub_json-every (λ t. not (occurs secret t)) secrets
      (λ t. rw (scrub_secrets-absent secret t secrets free long m)) j

scrub-scrub_each :
    (secrets : List Text) (text : Text)
    → scrub (keep_if (λ v. leb min_scrub_len (length v)) secrets) text ≡ scrub_each text secrets
unfolding scrub scrub_each
scrub-scrub_each [] text = refl
scrub-scrub_each ([] ∷ secrets) text = scrub-scrub_each secrets text
scrub-scrub_each ((a ∷ s) ∷ secrets) text = elim (Bool-cases (leb min_scrub_len (length (a ∷ s)))) [
  | inl t ↦ rw t (scrub-scrub_each secrets (replace (a ∷ s) stars text))
  | inr f ↦ rw f (scrub-scrub_each secrets text)
]

scrub_each-nil : (secrets : List Text) → scrub_each [] secrets ≡ []
unfolding scrub_each replace
scrub_each-nil [] = refl
scrub_each-nil (s ∷ secrets) = elim (Bool-cases (worth_scrubbing s)) [
  | inl t ↦ rw t (scrub_each-nil secrets)
  | inr f ↦ rw f (scrub_each-nil secrets)
]

-- On one environment the runner's scrubbing and the app's make the same of every text.
pub scrub-scrub_secrets :
    (env : Env) (text : Text)
    → scrub (runner_secrets env) text ≡ scrub_secrets text (secret_env_values env)
unfolding runner_secrets scrub_secrets
scrub-scrub_secrets env [] =
    scrub-scrub_each (secret_env_values env) [] ∙ scrub_each-nil (secret_env_values env)
scrub-scrub_secrets env (c ∷ cs) = scrub-scrub_each (secret_env_values env) (c ∷ cs)
