-- ===== src/Review/Stored.antt =====
-- What `execute_job` of app/services/review_service.py stores of a secret, and when a note is posted.
use mathlib.Core.Option.{some-injective, none-ne-some}
use gitlab_reviewer.Prelude.{
  ℕ, ◌≤◌, Bool, true, not, ◌&&◌, Option, none, some, ◌≡◌, refl, sym, ap, subst, ◌∙◌, ◌⊎◌, inl, inr,
  arith, Bool-cases, In, length, Text, List,
}
use gitlab_reviewer.Models.{
  Json, ScheduledJob, ReviewRun, is_success, MergeRequest, SettingsRow, Db,
}
use gitlab_reviewer.Secrets.{min_scrub_len, secret_env_values, Env}
use gitlab_reviewer.Secrets.Absent.{occurs, IsStarFree, scrub_secrets-absent}
use gitlab_reviewer.Secrets.Trees.{every_text, scrub_json-absent}
use gitlab_reviewer.Outcome.{
  RunOutcome, Services, Times, Posted, note, post_failed, outcome_status, or_default, with_posted,
  with_outcome, post_to_gitlab, outcome_run, apply_outcome,
}
use gitlab_reviewer.Review.{
  scrub_text, scrub_optional, scrub_outcome, outcome_of, scrub_lines, with_log, review_with,
}
use gitlab_reviewer.Review.Ends.{update_run-at}

-- The secret does not occur in a stored text, or in a string or a key of a stored value.
abbrev pub text_hides : Text → Option Text → Bool
text_hides secret none = true
text_hides secret (some t) = not (occurs secret t)

abbrev pub value_hides : Text → Option Json → Bool
value_hides secret none = true
value_hides secret (some j) = every_text (λ t. not (occurs secret t)) j

-- The columns that an outcome fills do not show the secret.
unfoldable pub Hides : Text → ReviewRun → Type 0
Hides secret r =
    (text_hides secret r.error_message ≡ true)
    × (text_hides secret r.result_markdown ≡ true)
    × (value_hides secret r.result_json ≡ true)
    × (value_hides secret r.session_json ≡ true)

with_posted-Hides :
    (secret : Text) (iid : ℕ) (p : Posted) (run : ReviewRun)
    → Hides secret run
    → Hides secret (with_posted iid p run)
unfolding Hides
with_posted-Hides secret iid (note n) run h = h
with_posted-Hides secret iid (post_failed e) run h = h

post_to_gitlab-Hides :
    (secret : Text) (s : Services) (o : RunOutcome) (mr : Option MergeRequest) (run : ReviewRun)
    → Hides secret run
    → Hides secret (post_to_gitlab s o mr run)
unfolding post_to_gitlab Hides
post_to_gitlab-Hides secret s o none run h = h
post_to_gitlab-Hides secret s o (some mr) run h =
    with_posted-Hides secret mr.iid
      (s.post_note mr.iid (s.render o.result_json o.result_markdown run)) run h

module _ (secret : Text) (secrets : List Text) (free : IsStarFree secret)
    (long : min_scrub_len ≤ length secret) (m : In secret secrets) where
  scrub_text-hides : (t : Option Text) → text_hides secret (scrub_text secrets t) ≡ true
  scrub_text-hides none = refl
  scrub_text-hides (some t) = rw (scrub_secrets-absent secret t secrets free long m)

  scrub_optional-hides : (j : Option Json) → value_hides secret (scrub_optional secrets j) ≡ true
  scrub_optional-hides none = refl
  scrub_optional-hides (some j) = scrub_json-absent secret secrets j free long m

  scrub_outcome-Hides :
      (o : RunOutcome) (finished : ℕ) (run : ReviewRun)
      → Hides secret (with_outcome (scrub_outcome secrets o) finished run)
  unfolding Hides
  scrub_outcome-Hides o finished run = (
    scrub_text-hides o.error,
    scrub_text-hides o.result_markdown,
    scrub_optional-hides o.result_json,
    scrub_optional-hides o.session_json,
  )

outcome_run-Hides :
    (secret : Text) (s : Services) (o : RunOutcome) (mr : Option MergeRequest) (job : ScheduledJob)
    (settings : SettingsRow) (finished : ℕ) (run : ReviewRun)
    → Hides secret (with_outcome o finished run)
    → Hides secret (outcome_run s o mr job settings finished run)
unfolding outcome_run
outcome_run-Hides secret s o mr job settings finished run h =
    elim (Bool-cases (
      is_success (outcome_status o)
      && or_default job.post_to_gitlab settings.post_results_to_gitlab)) [
        | inl t ↦ rw t (post_to_gitlab-Hides secret s o mr (with_outcome o finished run) h)
        | inr f ↦ rw f h
      ]

-- A secret of the run's environment of at least `MIN_SCRUB_LEN` characters with no `*` in it is in no
-- text of the error and the markdown and in no string and no key of the result and the session that
-- are stored with the run, whatever the container answers or raises; a JSON number is left as it is.
pub review_with-Hides :
    (s : Services) (t : Times) (db : Db) (run : ReviewRun) (job : ScheduledJob) (mr : MergeRequest)
    (env : Env) (secret : Text)
    → IsStarFree secret
    → min_scrub_len ≤ length secret
    → In secret (secret_env_values env)
    → (r : ReviewRun) → In r (review_with s t db run job mr (some env)).0.runs
    → r.id ≡ run.id
    → Hides secret r
unfolding review_with apply_outcome
review_with-Hides s t db run job mr env secret free long m r n h =
    let secrets = secret_env_values env in
    let done = s.run_review run job in
    let o = scrub_outcome secrets (outcome_of done.ending) in
    let run' = with_log (scrub_lines secrets done.chunks) run in
    let row = outcome_run s o (some mr) job db.settings t.finished run' in
    let (q, k, e) = update_run-at (λ _. row) run.id db.runs r n h in
    let hidden : Hides secret row =
      outcome_run-Hides secret s o (some mr) job db.settings t.finished run'
        (scrub_outcome-Hides secret secrets free long m (outcome_of done.ending) t.finished run') in
    subst (Hides secret) (sym e) hidden

module _ (s : Services) (o : RunOutcome) where
  -- The merge request has the note.
  pub HasNote : Option MergeRequest → ReviewRun → ℕ → Type 0
  HasNote mr run n =
      (m : MergeRequest) × (mr ≡ some m)
      × (s.post_note m.iid (s.render o.result_json o.result_markdown run) ≡ note n)

  with_posted-HasNote :
      (mr : MergeRequest) (run : ReviewRun) (n : ℕ) (p : Posted)
      → s.post_note mr.iid (s.render o.result_json o.result_markdown run) ≡ p
      → (with_posted mr.iid p run).gitlab_note_id ≡ some n
      → (run.gitlab_note_id ≡ some n) ⊎ HasNote (some mr) run n
  unfolding HasNote
  with_posted-HasNote mr run n (note k) e h = inr (mr, refl, e ∙ ap note (some-injective k n h))
  with_posted-HasNote mr run n (post_failed x) e h = inl h

  post_to_gitlab-HasNote :
      (mr : Option MergeRequest) (run : ReviewRun) (n : ℕ)
      → (post_to_gitlab s o mr run).gitlab_note_id ≡ some n
      → (run.gitlab_note_id ≡ some n) ⊎ HasNote mr run n
  unfolding post_to_gitlab
  post_to_gitlab-HasNote none run n h = inl h
  post_to_gitlab-HasNote (some mr) run n h =
      with_posted-HasNote mr run n
        (s.post_note mr.iid (s.render o.result_json o.result_markdown run)) refl h

-- A run that had no note has one after its outcome is stored only if the run is a success, the
-- job's flag, or else the settings, ask for it, and GitLab answered the post with that note.
pub outcome_run-HasNote :
    (s : Services) (o : RunOutcome) (mr : Option MergeRequest) (job : ScheduledJob)
    (settings : SettingsRow) (finished : ℕ) (run : ReviewRun) (n : ℕ)
    → run.gitlab_note_id ≡ none
    → (outcome_run s o mr job settings finished run).gitlab_note_id ≡ some n
    → (is_success (outcome_status o) ≡ true)
      × (or_default job.post_to_gitlab settings.post_results_to_gitlab ≡ true)
      × HasNote s o mr (with_outcome o finished run) n
unfolding outcome_run
outcome_run-HasNote s o mr job settings finished run n clean h =
    let flag = or_default job.post_to_gitlab settings.post_results_to_gitlab in
    let run' = with_outcome o finished run in
    elim (Bool-cases (is_success (outcome_status o) && flag)) [
      | inl t ↦ elim (post_to_gitlab-HasNote s o mr run' n (rw t at h)) [
        | inl old ↦ absurd (none-ne-some _ (sym clean ∙ old))
        | inr new ↦ (ground arith, ground arith, new)
      ]
      | inr f ↦ absurd (none-ne-some _ (sym clean ∙ (rw f at h)))
    ]
