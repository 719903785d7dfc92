-- ===== src/Examples/Logging.antt =====
-- A log line with a coloured token.
use gitlab_reviewer.Prelude.{◌≡◌, refl, [], ◌∷◌, ◌++◌, All, In, inl, true, false, drop_while, Text}
use gitlab_reviewer.Secrets.Absent.{occurs}
use gitlab_reviewer.Secrets.{starts_with, runner_secrets, secret_env_values, values_of, env_value}
use gitlab_reviewer.Runner.Log.{log_message, strip_ansi, ansi_at, after_escape, after_csi}
use gitlab_reviewer.Runner.Leak.{IsSequence, split_by, log_message_leaks}
use gitlab_reviewer.Examples.{token_env}

abbrev front : Text
front = 97 ∷ 98 ∷ 99 ∷ 100 ∷ []

abbrev back : Text
back = 101 ∷ 102 ∷ 103 ∷ 104 ∷ []

-- "\x1b[31m" without its first character.
abbrev red : Text
red = 91 ∷ 51 ∷ 49 ∷ 109 ∷ []

red-IsSequence : IsSequence (27 ∷ red)
unfolding ansi_at after_escape after_csi drop_while
red-IsSequence t = refl

red-clean :
    All
      (λ s. occurs s (split_by (27 ∷ red) (120 ∷ []) front back (121 ∷ [])) ≡ false)
      (runner_secrets token_env)
unfolding occurs starts_with runner_secrets secret_env_values values_of env_value
red-clean = (refl, tt)

secret_given : In (front ++ back) (runner_secrets token_env)
unfolding runner_secrets secret_env_values values_of env_value
secret_given = inl refl

log_message_leaks_example :
    (log_message token_env (split_by (27 ∷ red) (120 ∷ []) front back (121 ∷ []))
      ≡ (120 ∷ []) ++ ((front ++ back) ++ strip_ansi (121 ∷ [])))
    × ((secret : Text) × In secret (runner_secrets token_env)
        × (occurs secret
              (log_message token_env (split_by (27 ∷ red) (120 ∷ []) front back (121 ∷ [])))
            ≡ true))
log_message_leaks_example =
    log_message_leaks token_env 27 red (120 ∷ []) front back (121 ∷ []) secret_given red-clean
      red-IsSequence ((λ e. cc), tt) ((λ e. cc), ((λ e. cc), ((λ e. cc), ((λ e. cc), tt))))
      ((λ e. cc), ((λ e. cc), ((λ e. cc), ((λ e. cc), tt))))
