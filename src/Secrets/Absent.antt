-- ===== src/Secrets/Absent.antt =====
-- A scrubbed text does not hold the secret: `scrub_secrets` of app/orchestrator/run_review.py and
-- `scrub` of containers/review-runner/entrypoint.py.
use mathlib.Core.Bool.{false≢true}
use gitlab_reviewer.Prelude.{
  ℕ, zero, suc, ◌-◌, ◌≤◌, Bool, true, false, ◌||◌, ◌≡◌, refl, sym, subst, ◌∙◌, ◌≢◌, ◌⊎◌, inl, inr,
  List, [], ◌∷◌, ◌++◌, arith, if◌then◌else◌, Bool-cases, In, All, length, Text, le_leb,
}
use gitlab_reviewer.Secrets.{
  starts_with, replace_from, replace, min_scrub_len, stars, worth_scrubbing, scrub_each,
  scrub_secrets,
}

-- `needle in text`
unfoldable pub occurs : Text → Text → Bool
unfolding starts_with
occurs p [] = starts_with p []
occurs p (c ∷ cs) = starts_with p (c ∷ cs) || occurs p cs

-- The text that stands for a secret shares no character with it.
abbrev pub IsStarFree : Text → Type 0
IsStarFree s = All (λ c. c ≢ 42) s

starts_with-replace_from :
    (p old cs : Text)
    → IsStarFree p
    → starts_with p (replace_from 0 old stars cs) ≡ true
    → starts_with p cs ≡ true
unfolding starts_with replace_from
starts_with-replace_from [] old cs free h = refl
starts_with-replace_from (a ∷ p) old [] free h = h
starts_with-replace_from (a ∷ p) old (c ∷ cs) free h =
    elim (Bool-cases (starts_with old (c ∷ cs))) [
      | inl t ↦ ground arith
      | inr f ↦ ground (arith, starts_with-replace_from p old cs free.1)
    ]

pub occurs-tail : (p : Text) (c : ℕ) (cs : Text) → occurs p cs ≡ true → occurs p (c ∷ cs) ≡ true
unfolding occurs
occurs-tail p c cs h = ground arith

pub occurs-head : (p : Text) (cs : Text) → starts_with p cs ≡ true → occurs p cs ≡ true
unfolding occurs
occurs-head p [] h = h
occurs-head p (c ∷ cs) h = rw h

-- Nothing that starts before the stars reaches over them.
occurs-stars :
    (a : ℕ) (p rest : Text)
    → IsStarFree (a ∷ p)
    → occurs (a ∷ p) (stars ++ rest) ≡ true
    → occurs (a ∷ p) rest ≡ true
unfolding occurs
occurs-stars a p rest free h = ground arith

pub occurs-cons :
    (p : Text) (c : ℕ) (cs : Text)
    → occurs p (c ∷ cs) ≡ true
    → (starts_with p (c ∷ cs) ≡ true) ⊎ (occurs p cs ≡ true)
unfolding occurs
occurs-cons p c cs h = elim (Bool-cases (starts_with p (c ∷ cs))) [
  | inl t ↦ inl t
  | inr f ↦ inr (rw f at h)
]

replace_from-miss :
    (old : Text) (c : ℕ) (cs : Text)
    → starts_with old (c ∷ cs) ≡ false
    → replace_from 0 old stars (c ∷ cs) ≡ c ∷ replace_from 0 old stars cs
unfolding replace_from
replace_from-miss old c cs f = rw f

replace_from-hit :
    (old : Text) (c : ℕ) (cs : Text)
    → starts_with old (c ∷ cs) ≡ true
    → replace_from 0 old stars (c ∷ cs) ≡ stars ++ replace_from (length old - 1) old stars cs
unfolding replace_from
replace_from-hit old c cs t = rw t

occurs-replace_from :
    (k a : ℕ) (p old cs : Text)
    → IsStarFree (a ∷ p)
    → occurs (a ∷ p) (replace_from k old stars cs) ≡ true
    → occurs (a ∷ p) cs ≡ true
unfolding replace_from
occurs-replace_from zero a p old [] free h = h
occurs-replace_from (suc k) a p old [] free h = h
occurs-replace_from (suc k) a p old (c ∷ cs) free h =
    occurs-tail (a ∷ p) c cs (occurs-replace_from k a p old cs free h)
occurs-replace_from zero a p old (c ∷ cs) free h = elim (Bool-cases (starts_with old (c ∷ cs))) [
  | inl t ↦ occurs-tail (a ∷ p) c cs (
      occurs-replace_from (length old - 1) a p old cs free (
        occurs-stars a p (replace_from (length old - 1) old stars cs) free
          (subst (λ x. occurs (a ∷ p) x ≡ true) (replace_from-hit old c cs t) h)))
  | inr f ↦
      elim (occurs-cons (a ∷ p) c (replace_from 0 old stars cs)
        (subst (λ x. occurs (a ∷ p) x ≡ true) (replace_from-miss old c cs f) h)) [
          | inl s ↦ occurs-head (a ∷ p) (c ∷ cs) (
              starts_with-replace_from (a ∷ p) old (c ∷ cs) free
                (subst (λ x. starts_with (a ∷ p) x ≡ true) (sym (replace_from-miss old c cs f)) s))
          | inr o ↦ occurs-tail (a ∷ p) c cs (occurs-replace_from 0 a p old cs free o)
        ]
]

-- No occurrence of what is replaced is left.
replace_from-absent :
    (k a : ℕ) (p cs : Text)
    → IsStarFree (a ∷ p)
    → occurs (a ∷ p) (replace_from k (a ∷ p) stars cs) ≡ true
    → ⊥
unfolding replace_from
replace_from-absent zero a p [] free h = unfold occurs starts_with in cc
replace_from-absent (suc k) a p [] free h = unfold occurs starts_with in cc
replace_from-absent (suc k) a p (c ∷ cs) free h = replace_from-absent k a p cs free h
replace_from-absent zero a p (c ∷ cs) free h = elim (Bool-cases (starts_with (a ∷ p) (c ∷ cs))) [
  | inl t ↦ replace_from-absent (length (a ∷ p) - 1) a p cs free (
      occurs-stars a p (replace_from (length (a ∷ p) - 1) (a ∷ p) stars cs) free
        (subst (λ x. occurs (a ∷ p) x ≡ true) (replace_from-hit (a ∷ p) c cs t) h))
  | inr f ↦
      elim (occurs-cons (a ∷ p) c (replace_from 0 (a ∷ p) stars cs)
        (subst (λ x. occurs (a ∷ p) x ≡ true) (replace_from-miss (a ∷ p) c cs f) h)) [
          | inl s ↦ false≢true (
              sym f
              ∙ starts_with-replace_from (a ∷ p) (a ∷ p) (c ∷ cs) free (
                  subst (λ x. starts_with (a ∷ p) x ≡ true) (sym (replace_from-miss (a ∷ p) c cs f))
                    s))
          | inr o ↦ replace_from-absent 0 a p cs free o
        ]
]

not_true : (b : Bool) → (b ≡ true → ⊥) → b ≡ false
not_true true h = absurd (h refl)
not_true false h = refl

scrub_each-occurs :
    (a : ℕ) (p text : Text) (secrets : List Text)
    → IsStarFree (a ∷ p)
    → occurs (a ∷ p) (scrub_each text secrets) ≡ true
    → occurs (a ∷ p) text ≡ true
unfolding scrub_each replace
scrub_each-occurs a p text [] free h = h
scrub_each-occurs a p text (s ∷ secrets) free h = elim (Bool-cases (worth_scrubbing s)) [
  | inl t ↦ occurs-replace_from 0 a p s text free (
      scrub_each-occurs a p (replace_from 0 s stars text) secrets free (
        subst
          (λ b.
            occurs (a ∷ p) (scrub_each (if b then replace s stars text else text) secrets) ≡ true)
          t h))
  | inr f ↦ scrub_each-occurs a p text secrets free (
      subst
        (λ b. occurs (a ∷ p) (scrub_each (if b then replace s stars text else text) secrets) ≡ true)
        f h)
]

scrub_each-absent :
    (a : ℕ) (p text : Text) (secrets : List Text)
    → IsStarFree (a ∷ p)
    → worth_scrubbing (a ∷ p) ≡ true
    → In (a ∷ p) secrets
    → occurs (a ∷ p) (scrub_each text secrets) ≡ true
    → ⊥
unfolding scrub_each replace
scrub_each-absent a p text [] free w m h = m
scrub_each-absent a p text (s ∷ secrets) free w (inl e) h = replace_from-absent 0 a p text free (
    scrub_each-occurs a p (replace_from 0 (a ∷ p) stars text) secrets free (
      subst
        (λ b.
          occurs (a ∷ p) (scrub_each (if b then replace (a ∷ p) stars text else text) secrets)
          ≡ true)
        w
        (subst
          (λ x.
            occurs (a ∷ p)
              (scrub_each (if worth_scrubbing x then replace x stars text else text) secrets)
            ≡ true)
          (sym e) h)))
scrub_each-absent a p text (s ∷ secrets) free w (inr m) h =
    scrub_each-absent a p (if worth_scrubbing s then replace s stars text else text) secrets free w
      m h

-- A secret of at least `MIN_SCRUB_LEN` characters with no `*` in it does not occur in what
-- `scrub_secrets` makes of any text, whatever the other secrets are and in whatever order.
pub scrub_secrets-absent :
    (secret text : Text) (secrets : List Text)
    → IsStarFree secret
    → min_scrub_len ≤ length secret
    → In secret secrets
    → occurs secret (scrub_secrets text secrets) ≡ false
unfolding scrub_secrets
scrub_secrets-absent [] text secrets free long m = absurd (omega arith)
scrub_secrets-absent (a ∷ p) [] secrets free long m = unfold occurs starts_with in refl
scrub_secrets-absent (a ∷ p) (c ∷ cs) secrets free long m =
    not_true (occurs (a ∷ p) (scrub_each (c ∷ cs) secrets))
      (scrub_each-absent a p (c ∷ cs) secrets free (le_leb min_scrub_len (length (a ∷ p)) long) m)
