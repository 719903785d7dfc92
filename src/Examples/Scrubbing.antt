-- ===== src/Examples/Scrubbing.antt =====
-- Secret scrubbing on a small text and a small JSON value.
use gitlab_reviewer.Prelude.{◌≡◌, not, true, false, ◌++◌, Text, codes}
use gitlab_reviewer.Models.{Json, string, object, array, field, end, cons, nil}
use gitlab_reviewer.Secrets.{scrub_secrets, scrub_json, secret_env_values, runner_secrets}
use gitlab_reviewer.Secrets.Absent.{occurs, scrub_secrets-absent}
use gitlab_reviewer.Secrets.Trees.{every_text, scrub_json-absent}
use gitlab_reviewer.Secrets.Runner.{scrub_value, scrub_value-scrub_json}
use gitlab_reviewer.Examples.{token, token_env, token-In, token-IsStarFree, token-long}

-- The token between two words.
abbrev leak : Text
leak = codes "token " ++ (token ++ codes " done")

abbrev leaks : Json
leaks = array (cons (object (field token (string leak) end)) nil)

scrub_secrets-absent_example :
    occurs token (scrub_secrets leak (secret_env_values token_env)) ≡ false
scrub_secrets-absent_example =
    scrub_secrets-absent token leak (secret_env_values token_env) token-IsStarFree token-long
      token-In

scrub_json-absent_example :
    every_text (λ t. not (occurs token t)) (scrub_json (secret_env_values token_env) leaks) ≡ true
scrub_json-absent_example =
    scrub_json-absent token (secret_env_values token_env) leaks token-IsStarFree token-long token-In

scrub_value-scrub_json_example :
    scrub_value (runner_secrets token_env) leaks ≡ scrub_json (secret_env_values token_env) leaks
scrub_value-scrub_json_example = scrub_value-scrub_json token_env leaks
